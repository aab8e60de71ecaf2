-- ===== src/Bulk/Graph/References.antt =====
-- internal/handler/bulk.go: a reference to another operation gives an edge of the graph.
use scim_server_impl_go.Base.{
  ℕ, zero, suc, ◌+◌, Bool, true, false, not, ◌&&◌, none, some, List, [], ◌∷◌, ◌++◌, ◌==◌, ◌≡◌, ◌≢◌,
  refl, inl, inr, Bool-cases, Option-cases, if-keeps, arith, All, All-append, All-weaken, any,
  subst,
}
use scim_server_impl_go.Text.{Text, same}
use scim_server_impl_go.Text.Laws.{same_iff}
use scim_server_impl_go.Value.{Fields, index}
use scim_server_impl_go.Bulk.Refs.{lookup_id}
use scim_server_impl_go.Bulk.Graph.{
  Ops, Producers, Edges, op_at, mem, op_refs, producer_closure, add_edge, add_edges, add_ref_edges,
  add_all_ref_edges, resource_path, op_edges, graph_from, dependency_edges,
}

abbrev pub has_edge : Edges → ℕ → ℕ → Bool
has_edge edges a b = any (λ (from, to). from == a && to == b) edges

pub has_edge-cons :
    (e : ℕ × ℕ) (edges : Edges) (a b : ℕ)
    → has_edge edges a b ≡ true
    → has_edge (e ∷ edges) a b ≡ true
has_edge-cons e edges a b h = elim (Bool-cases (e.0 == a && e.1 == b)) [
  | inl e' ↦ rw e' refl
  | inr e' ↦ rw (e', h) refl
]

-- no edge is taken back
abbrev Grows : Edges → Edges → Type 0
Grows edges edges' = (a b : ℕ) → has_edge edges a b ≡ true → has_edge edges' a b ≡ true

has_edge-append : (edges : Edges) (e : ℕ × ℕ) → Grows edges (edges ++ e ∷ [])
has_edge-append [] e a b h = cc
has_edge-append (x ∷ edges) e a b h = elim (Bool-cases (x.0 == a && x.1 == b)) [
  | inl e' ↦ rw e' refl
  | inr e' ↦ rw e' (has_edge-append edges e a b (ground arith))
]

has_edge-last : (edges : Edges) (a b : ℕ) → has_edge (edges ++ (a, b) ∷ []) a b ≡ true
has_edge-last [] a b = grind arith
has_edge-last (x ∷ edges) a b = has_edge-cons x (edges ++ (a, b) ∷ []) a b (has_edge-last edges a b)

-- What `seenProducers` holds has its edge.
abbrev Sound : ℕ → List ℕ × Edges → Type 0
Sound i st = All (λ j. has_edge st.1 j i ≡ true) st.0

Sound-mem :
    (i j : ℕ) (seen : List ℕ) (edges : Edges)
    → Sound i (seen, edges)
    → mem j seen ≡ true
    → has_edge edges j i ≡ true
unfolding mem
Sound-mem i j [] edges h m = cc
Sound-mem i j (k ∷ seen) edges h m = elim (Bool-cases (j == k)) [
  | inl e ↦ let at_k : k ≡ j = ground arith in rw (← at_k) h.0
  | inr e ↦ Sound-mem i j seen edges h.1 (ground arith)
]

add_edge-Grows : (from to : ℕ) (st : List ℕ × Edges) → Grows st.1 (add_edge from to st).1
unfolding add_edge
add_edge-Grows from to (seen, edges) a b h =
    if-keeps (λ (r : List ℕ × Edges). has_edge r.1 a b ≡ true)
      (not (from == to) && not (mem from seen)) (has_edge-append edges (from, to) a b h) h

add_edge-Sound : (from to : ℕ) (st : List ℕ × Edges) → Sound to st → Sound to (add_edge from to st)
unfolding add_edge
add_edge-Sound from to (seen, edges) h =
    if-keeps (Sound to) (not (from == to) && not (mem from seen))
      (All-append _ seen (from ∷ [])
        (All-weaken (λ j h'. has_edge-append edges (from, to) j to h') seen h)
        (has_edge-last edges from to, tt))
      h

add_edge-has_edge :
    (from to : ℕ) (st : List ℕ × Edges)
    → Sound to st
    → from ≢ to
    → has_edge (add_edge from to st).1 from to ≡ true
unfolding add_edge
add_edge-has_edge from to (seen, edges) h ne = elim (Bool-cases (mem from seen)) [
  | inl e ↦ add_edge-Grows from to (seen, edges) from to (Sound-mem to from seen edges h e)
  | inr e ↦
      let off : (from == to) ≡ false = grind (arith, ne) in
      rw (off, e, add_edge) (has_edge-last edges from to)
]

add_edges-Grows :
    (froms : List ℕ) (to : ℕ) (st : List ℕ × Edges) → Grows st.1 (add_edges froms to st).1
unfolding add_edges
add_edges-Grows [] to st a b h = h
add_edges-Grows (from ∷ more) to st a b h =
    add_edges-Grows more to (add_edge from to st) a b (add_edge-Grows from to st a b h)

add_edges-Sound :
    (froms : List ℕ) (to : ℕ) (st : List ℕ × Edges) → Sound to st → Sound to (add_edges froms to st)
unfolding add_edges
add_edges-Sound [] to st h = h
add_edges-Sound (from ∷ more) to st h =
    add_edges-Sound more to (add_edge from to st) (add_edge-Sound from to st h)

module _ (closure : ℕ → List ℕ) (m : Producers) (i : ℕ) where
  add_ref_edges-Grows :
      (ref : Text) (st : List ℕ × Edges) → Grows st.1 (add_ref_edges closure m i ref st).1
  unfolding add_ref_edges
  add_ref_edges-Grows ref st a b h = elim (Option-cases (lookup_id m ref)) [
    | inl e ↦ rw (e, add_ref_edges) h
    | inr (prod, e) ↦
        let h' = add_edge-Grows prod i st a b h in
        rw (e, add_ref_edges)
          (if-keeps (λ (r : List ℕ × Edges). has_edge r.1 a b ≡ true) (mem i (closure prod)) h'
            (add_edges-Grows (closure prod) i (add_edge prod i st) a b h'))
  ]

  add_ref_edges-Sound :
      (ref : Text) (st : List ℕ × Edges) → Sound i st → Sound i (add_ref_edges closure m i ref st)
  unfolding add_ref_edges
  add_ref_edges-Sound ref st h = elim (Option-cases (lookup_id m ref)) [
    | inl e ↦ rw (e, add_ref_edges) h
    | inr (prod, e) ↦
        let h' = add_edge-Sound prod i st h in
        rw (e, add_ref_edges)
          (if-keeps (Sound i) (mem i (closure prod)) h'
            (add_edges-Sound (closure prod) i (add_edge prod i st) h'))
  ]

  add_ref_edges-has_edge :
      (ref : Text) (st : List ℕ × Edges) (prod : ℕ)
      → Sound i st
      → lookup_id m ref ≡ some prod
      → prod ≢ i
      → has_edge (add_ref_edges closure m i ref st).1 prod i ≡ true
  unfolding add_ref_edges
  add_ref_edges-has_edge ref st prod h e ne =
      let h' = add_edge-has_edge prod i st h ne in
      rw (e, add_ref_edges)
        (if-keeps (λ (r : List ℕ × Edges). has_edge r.1 prod i ≡ true) (mem i (closure prod)) h'
          (add_edges-Grows (closure prod) i (add_edge prod i st) prod i h'))

  add_all_ref_edges-Grows :
      (refs : List Text) (st : List ℕ × Edges)
      → Grows st.1 (add_all_ref_edges closure m i refs st).1
  unfolding add_all_ref_edges
  add_all_ref_edges-Grows [] st a b h = h
  add_all_ref_edges-Grows (ref ∷ refs) st a b h =
      add_all_ref_edges-Grows refs (add_ref_edges closure m i ref st) a b
        (add_ref_edges-Grows ref st a b h)

  add_all_ref_edges-has_edge :
      (refs : List Text) (st : List ℕ × Edges) (ref : Text) (prod : ℕ)
      → Sound i st
      → any (same ref) refs ≡ true
      → lookup_id m ref ≡ some prod
      → prod ≢ i
      → has_edge (add_all_ref_edges closure m i refs st).1 prod i ≡ true
  unfolding add_all_ref_edges
  add_all_ref_edges-has_edge [] st ref prod h there e ne = cc
  add_all_ref_edges-has_edge (r ∷ refs) st ref prod h there e ne = elim (Bool-cases (same ref r)) [
    | inl e' ↦
        let at_r : ref ≡ r = (same_iff ref r).0 e' in
        add_all_ref_edges-Grows refs (add_ref_edges closure m i r st) prod i
          (add_ref_edges-has_edge r st prod h (rw (← at_r) e) ne)
    | inr e' ↦
        add_all_ref_edges-has_edge refs (add_ref_edges closure m i r st) ref prod
          (add_ref_edges-Sound r st h) (ground arith) e ne
  ]

  -- the edges of one operation, from those of the earlier ones
  op_edges-cases :
      (op : Fields) (last : Producers) (edges : Edges)
      → (start : List ℕ × Edges) × (Sound i start)
        × (Grows edges start.1)
        × ((op_edges closure m i op (last, edges)).1
            ≡ (add_all_ref_edges closure m i (op_refs op) start).1)
  unfolding op_edges
  op_edges-cases op last edges = elim (Option-cases (resource_path (index "path" op))) [
    | inl e ↦ (([], edges), tt, λ a b h. h, rw (e, op_edges) refl)
    | inr (p, e) ↦ elim (Option-cases (lookup_id last p)) [
      | inl e' ↦ (([], edges), tt, λ a b h. h, rw (e, e', op_edges) refl)
      | inr (prev, e') ↦ (
        add_edge prev i ([], edges),
        add_edge-Sound prev i ([], edges) tt,
        add_edge-Grows prev i ([], edges),
        rw (e, e', op_edges) refl,
      )
    ]
  ]

  op_edges-Grows :
      (op : Fields) (last : Producers) (edges : Edges)
      → Grows edges (op_edges closure m i op (last, edges)).1
  op_edges-Grows op last edges a b h =
      let (start, sound, grows, e) = op_edges-cases op last edges in
      rw e (add_all_ref_edges-Grows (op_refs op) start a b (grows a b h))

  op_edges-has_edge :
      (op : Fields) (last : Producers) (edges : Edges) (ref : Text) (prod : ℕ)
      → any (same ref) (op_refs op) ≡ true
      → lookup_id m ref ≡ some prod
      → prod ≢ i
      → has_edge (op_edges closure m i op (last, edges)).1 prod i ≡ true
  op_edges-has_edge op last edges ref prod there found ne =
      let (start, sound, grows, e) = op_edges-cases op last edges in
      rw e (add_all_ref_edges-has_edge (op_refs op) start ref prod sound there found ne)

graph_from-Grows :
    (closure : ℕ → List ℕ) (m : Producers) (i : ℕ) (rest : Ops) (last : Producers) (edges : Edges)
    → Grows edges (graph_from closure m i rest (last, edges))
unfolding graph_from
graph_from-Grows closure m i [] last edges a b h = h
graph_from-Grows closure m i (none ∷ rest) last edges a b h =
    graph_from-Grows closure m (suc i) rest last edges a b h
graph_from-Grows closure m i (some op ∷ rest) last edges a b h =
    let st = op_edges closure m i op (last, edges) in
    graph_from-Grows closure m (suc i) rest st.0 st.1 a b
      (op_edges-Grows closure m i op last edges a b h)

graph_from-has_edge :
    (closure : ℕ → List ℕ) (m : Producers) (k i : ℕ) (rest : Ops) (last : Producers) (edges : Edges)
    (op : Fields) (ref : Text) (prod : ℕ)
    → op_at rest k ≡ some op
    → any (same ref) (op_refs op) ≡ true
    → lookup_id m ref ≡ some prod
    → prod ≢ i + k
    → has_edge (graph_from closure m i rest (last, edges)) prod (i + k) ≡ true
unfolding graph_from op_at
graph_from-has_edge closure m k i [] last edges op ref prod at_k there found ne =
    absurd (ground arith)
graph_from-has_edge closure m zero i (none ∷ rest) last edges op ref prod at_k there found ne =
    absurd (ground arith)
graph_from-has_edge closure m zero i (some op' ∷ rest) last edges op ref prod at_k there found ne =
    let same_op : op' ≡ op = ground arith in
    let at_i : i + 0 ≡ i = omega arith in
    let st = op_edges closure m i op' (last, edges) in
    rw at_i (
      graph_from-Grows closure m (suc i) rest st.0 st.1 prod i (
        op_edges-has_edge closure m i op' last edges ref prod (rw same_op there) found
          (λ e. ne (omega (arith, e)))))
graph_from-has_edge closure m (suc k) i (none ∷ rest) last edges op ref prod at_k there found ne =
    let shift : i + suc k ≡ suc i + k = omega arith in
    rw shift (
      graph_from-has_edge closure m k (suc i) rest last edges op ref prod at_k there found
        (λ e. ne (omega (arith, e))))
graph_from-has_edge closure m (suc k) i (some op' ∷ rest) last edges op ref prod at_k there found
      ne =
    let shift : i + suc k ≡ suc i + k = omega arith in
    let st = op_edges closure m i op' (last, edges) in
    rw shift (
      graph_from-has_edge closure m k (suc i) rest st.0 st.1 op ref prod at_k there found
        (λ e. ne (omega (arith, e))))

-- an operation that refers to a producer other than itself has an edge from it
pub dependency_edges-has_edge :
    (ops : Ops) (m : Producers) (i : ℕ) (op : Fields) (ref : Text) (prod : ℕ)
    → op_at ops i ≡ some op
    → any (same ref) (op_refs op) ≡ true
    → lookup_id m ref ≡ some prod
    → prod ≢ i
    → has_edge (dependency_edges ops m) prod i ≡ true
unfolding dependency_edges
dependency_edges-has_edge ops m i op ref prod at_i there found =
    let shift : 0 + i ≡ i = omega arith in
    let from_graph =
      graph_from-has_edge (producer_closure ops m) m i 0 ops [] [] op ref prod at_i there found in
    subst (λ j. prod ≢ j → has_edge (dependency_edges ops m) prod j ≡ true) shift from_graph
