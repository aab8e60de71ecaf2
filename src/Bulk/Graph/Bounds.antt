-- ===== src/Bulk/Graph/Bounds.antt =====
-- internal/handler/bulk.go: the edges of the dependency graph stay within the request.
use scim_server_impl_go.Base.{
  ℕ, zero, suc, ◌+◌, ◌<◌, false, not, ◌&&◌, none, some, List, [], ◌∷◌, ◌++◌, ◌==◌, ◌≡◌, refl, ◌⊎◌,
  inl, inr, if◌then◌else◌, Bool-cases, Option-cases, if-keeps, length, arith, All, All-append,
  All-weaken,
}
use scim_server_impl_go.Text.{Text, same}
use scim_server_impl_go.Value.{Fields, index}
use scim_server_impl_go.Bulk.Refs.{lookup_id, is_nil_map}
use scim_server_impl_go.Bulk.Graph.{
  Ops, Producers, Edges, op_at, is_new_producer, bulk_id_of, add_producer, producers_from,
  producer_by_bulk_id, mem, producer_indexes, op_refs, direct_deps, visit, search_from,
  producer_closure, add_edge, add_edges, add_ref_edges, add_all_ref_edges, resource_path, op_edges,
  graph_from, dependency_edges,
}

abbrev pub Below : ℕ → List ℕ → Type 0
Below n l = All (λ i. i < n) l

-- a map whose values are indexes of operations
abbrev pub Within : ℕ → Producers → Type 0
Within n m = All (λ e. e.1 < n) m

lookup_id-below :
    (n : ℕ) (m : Producers) (key : Text) (i : ℕ)
    → Within n m
    → lookup_id m key ≡ some i
    → (i < n) × (is_nil_map m ≡ false)
unfolding lookup_id
lookup_id-below n [] key i h e = absurd (ground arith)
lookup_id-below n ((k, v) ∷ m) key i h e = elim (Bool-cases (same k key)) [
  | inl e' ↦ (let at : v ≡ i = ground arith in rw (← at) h.0, refl)
  | inr e' ↦ ((lookup_id-below n m key i h.1 (ground arith)).0, refl)
]

producer_indexes-Below :
    (n : ℕ) (m : Producers)
    → Within n m
    → (refs : List Text) (seen : List ℕ) → Below n seen
    → Below n (producer_indexes m refs seen)
unfolding producer_indexes
producer_indexes-Below n m within [] seen h = h
producer_indexes-Below n m within (ref ∷ refs) seen h = elim (Option-cases (lookup_id m ref)) [
  | inl e ↦ rw (e, producer_indexes) (producer_indexes-Below n m within refs seen h)
  | inr (i, e) ↦
      let lt = (lookup_id-below n m ref i within e).0 in
      rw (e, producer_indexes)
        (producer_indexes-Below n m within refs (if mem i seen then seen else seen ++ i ∷ [])
          (if-keeps (Below n) (mem i seen) h (All-append _ seen (i ∷ []) h (lt, tt))))
]

-- what holds of the start and of the dependencies of whatever it holds of, holds of all that is found
visit-All :
    (P : ℕ → Type 0) (deps visited queue : List ℕ)
    → All P deps
    → All P visited
    → All P queue
    → All P (visit deps visited queue).0 × All P (visit deps visited queue).1
unfolding visit
visit-All P [] visited queue hd hv hq = (hv, hq)
visit-All P (nxt ∷ more) visited queue hd hv hq =
    if-keeps (λ (r : List ℕ × List ℕ). All P r.0 × All P r.1) (mem nxt visited)
      (visit-All P more visited queue hd.1 hv hq)
      (visit-All P more (visited ++ nxt ∷ []) (queue ++ nxt ∷ []) hd.1
        (All-append P visited (nxt ∷ []) hv (hd.0, tt))
        (All-append P queue (nxt ∷ []) hq (hd.0, tt)))

pub search_from-All :
    (P : ℕ → Type 0) (deps : ℕ → List ℕ)
    → ((i : ℕ) → P i → All P (deps i))
    → (fuel : ℕ) (visited queue : List ℕ) → All P visited
    → All P queue
    → All P (search_from deps fuel visited queue)
unfolding search_from
search_from-All P deps hd zero visited queue hv hq = hv
search_from-All P deps hd (suc fuel) visited [] hv hq = hv
search_from-All P deps hd (suc fuel) visited (curr ∷ queue) hv hq =
    let (hv', hq') = visit-All P (deps curr) visited queue (hd curr hq.0) hv hq.1 in
    search_from-All P deps hd fuel (visit (deps curr) visited queue).0
      (visit (deps curr) visited queue).1 hv' hq'

pub direct_deps-Below :
    (ops : Ops) (n : ℕ) (m : Producers) (i : ℕ) → Within n m → Below n (direct_deps ops m i)
unfolding direct_deps
direct_deps-Below ops n m i within = elim (Option-cases (op_at ops i)) [
  | inl e ↦ rw (e, direct_deps) tt
  | inr (op, e) ↦ rw (e, direct_deps) (producer_indexes-Below n m within (op_refs op) [] tt)
]

producer_closure-Below :
    (ops : Ops) (n : ℕ) (m : Producers) (i : ℕ)
    → Within n m
    → i < n
    → Below n (producer_closure ops m i)
unfolding producer_closure
producer_closure-Below ops n m i within lt =
    search_from-All (λ j. j < n) (direct_deps ops m) (λ j lt. direct_deps-Below ops n m j within)
      (length ops + 1) (i ∷ []) (i ∷ []) (lt, tt) (lt, tt)

-- An edge within the request: it goes forward where the request has no producer.
abbrev pub EdgeWithin : ℕ → Producers → ℕ × ℕ → Type 0
EdgeWithin n m e = (e.0 < n) × (e.1 < n) × ((e.0 < e.1) ⊎ (is_nil_map m ≡ false))

add_edge-EdgeWithin :
    (n : ℕ) (m : Producers) (from to : ℕ) (st : List ℕ × Edges)
    → EdgeWithin n m (from, to)
    → All (EdgeWithin n m) st.1
    → All (EdgeWithin n m) (add_edge from to st).1
unfolding add_edge
add_edge-EdgeWithin n m from to (seen, edges) h hs =
    if-keeps (λ (r : List ℕ × Edges). All (EdgeWithin n m) r.1)
      (not (from == to) && not (mem from seen)) (All-append _ edges ((from, to) ∷ []) hs (h, tt)) hs

add_edges-EdgeWithin :
    (n : ℕ) (m : Producers) (to : ℕ)
    → to < n
    → is_nil_map m ≡ false
    → (froms : List ℕ) (st : List ℕ × Edges) → Below n froms
    → All (EdgeWithin n m) st.1
    → All (EdgeWithin n m) (add_edges froms to st).1
unfolding add_edges
add_edges-EdgeWithin n m to lt has [] st hf hs = hs
add_edges-EdgeWithin n m to lt has (from ∷ more) st hf hs =
    add_edges-EdgeWithin n m to lt has more (add_edge from to st) hf.1
      (add_edge-EdgeWithin n m from to st (hf.0, lt, inr has) hs)

add_ref_edges-EdgeWithin :
    (ops : Ops) (n : ℕ) (m : Producers) (i : ℕ) (ref : Text) (st : List ℕ × Edges)
    → Within n m
    → i < n
    → All (EdgeWithin n m) st.1
    → All (EdgeWithin n m) (add_ref_edges (producer_closure ops m) m i ref st).1
unfolding add_ref_edges
add_ref_edges-EdgeWithin ops n m i ref st within lt hs = elim (Option-cases (lookup_id m ref)) [
  | inl e ↦ rw (e, add_ref_edges) hs
  | inr (prod, e) ↦
      let (lt', has) = lookup_id-below n m ref prod within e in
      let hs' = add_edge-EdgeWithin n m prod i st (lt', lt, inr has) hs in
      rw (e, add_ref_edges)
        (if-keeps (λ (r : List ℕ × Edges). All (EdgeWithin n m) r.1)
          (mem i (producer_closure ops m prod)) hs'
          (add_edges-EdgeWithin n m i lt has (producer_closure ops m prod) (add_edge prod i st)
            (producer_closure-Below ops n m prod within lt') hs'))
]

add_all_ref_edges-EdgeWithin :
    (ops : Ops) (n : ℕ) (m : Producers) (i : ℕ)
    → Within n m
    → i < n
    → (refs : List Text) (st : List ℕ × Edges) → All (EdgeWithin n m) st.1
    → All (EdgeWithin n m) (add_all_ref_edges (producer_closure ops m) m i refs st).1
unfolding add_all_ref_edges
add_all_ref_edges-EdgeWithin ops n m i within lt [] st hs = hs
add_all_ref_edges-EdgeWithin ops n m i within lt (ref ∷ refs) st hs =
    add_all_ref_edges-EdgeWithin ops n m i within lt refs
      (add_ref_edges (producer_closure ops m) m i ref st)
      (add_ref_edges-EdgeWithin ops n m i ref st within lt hs)

op_edges-EdgeWithin :
    (ops : Ops) (n : ℕ) (m : Producers) (i : ℕ) (op : Fields) (last : Producers) (edges : Edges)
    → Within n m
    → i < n
    → Within i last
    → All (EdgeWithin n m) edges
    → Within (suc i) (op_edges (producer_closure ops m) m i op (last, edges)).0
      × All (EdgeWithin n m) (op_edges (producer_closure ops m) m i op (last, edges)).1
unfolding op_edges
op_edges-EdgeWithin ops n m i op last edges within lt hl hs =
    let more =
      All-weaken {P = λ e. e.1 < i} {Q = λ e. e.1 < suc i} (λ e h. omega (arith, h)) last hl in
    elim (Option-cases (resource_path (index "path" op))) [
      | inl e ↦
          rw (e, op_edges)
            (more, add_all_ref_edges-EdgeWithin ops n m i within lt (op_refs op) ([], edges) hs)
      | inr (p, e) ↦ elim (Option-cases (lookup_id last p)) [
        | inl e' ↦
            rw (e, e', op_edges)
              (
                (omega arith, more),
                add_all_ref_edges-EdgeWithin ops n m i within lt (op_refs op) ([], edges) hs,
              )
        | inr (prev, e') ↦
            let (before, _) = lookup_id-below i last p prev hl e' in
            rw (e, e', op_edges)
              (
                (omega arith, more),
                add_all_ref_edges-EdgeWithin ops n m i within lt (op_refs op)
                    (add_edge prev i ([], edges))
                    (add_edge-EdgeWithin n m prev i ([], edges)
                      (omega (arith, before), lt, inl before) hs),
              )
      ]
    ]

graph_from-EdgeWithin :
    (ops : Ops) (n : ℕ) (m : Producers)
    → Within n m
    → (i : ℕ) (rest : Ops) (last : Producers) (edges : Edges) → i + length rest ≡ n
    → Within i last
    → All (EdgeWithin n m) edges
    → All (EdgeWithin n m) (graph_from (producer_closure ops m) m i rest (last, edges))
unfolding graph_from
graph_from-EdgeWithin ops n m within i [] last edges e hl hs = hs
graph_from-EdgeWithin ops n m within i (none ∷ rest) last edges e hl hs =
    graph_from-EdgeWithin ops n m within (suc i) rest last edges (omega (arith, e))
      (All-weaken {P = λ e. e.1 < i} {Q = λ e. e.1 < suc i} (λ e h. omega (arith, h)) last hl) hs
graph_from-EdgeWithin ops n m within i (some op ∷ rest) last edges e hl hs =
    let closure = producer_closure ops m in
    let st = op_edges closure m i op (last, edges) in
    let (hl', hs') = op_edges-EdgeWithin ops n m i op last edges within (omega (arith, e)) hl hs in
    graph_from-EdgeWithin ops n m within (suc i) rest st.0 st.1 (omega (arith, e)) hl' hs'

pub dependency_edges-EdgeWithin :
    (ops : Ops) (m : Producers)
    → Within (length ops) m
    → All (EdgeWithin (length ops) m) (dependency_edges ops m)
unfolding dependency_edges
dependency_edges-EdgeWithin ops m within =
    graph_from-EdgeWithin ops (length ops) m within 0 ops [] [] (omega arith) tt tt

producers_from-Within :
    (n i : ℕ) (ops : Ops) (m : Producers)
    → i + length ops ≡ n
    → Within n m
    → Within n (producers_from m i ops)
unfolding producers_from add_producer
producers_from-Within n i [] m e h = h
producers_from-Within n i (none ∷ ops) m e h =
    producers_from-Within n (suc i) ops m (omega (arith, e)) h
producers_from-Within n i (some op ∷ ops) m e h =
    producers_from-Within n (suc i) ops (add_producer m i (some op)) (omega (arith, e)) (
      if-keeps (Within n) (is_new_producer m op) {x = (bulk_id_of op, i) ∷ m} (omega (arith, e), h)
        h)

pub producer_by_bulk_id-Within : (ops : Ops) → Within (length ops) (producer_by_bulk_id ops)
unfolding producer_by_bulk_id
producer_by_bulk_id-Within ops = producers_from-Within (length ops) 0 ops [] (omega arith) tt
