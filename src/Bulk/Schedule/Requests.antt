-- ===== src/Bulk/Schedule/Requests.antt =====
-- internal/handler/bulk.go, `computeBulkExecutionOrder`: what the order promises a request.
use scim_server_impl_go.Base.{
  ℕ, zero, suc, ◌+◌, ◌≤◌, ◌<◌, true, false, ◌&&◌, ◌||◌, some, List, [], ◌∷◌, ◌≡◌, ◌≢◌, refl, ap,
  inl, inr, ltb, leb, ◌==◌, Bool-cases, length, any, first_below-eq, if-keeps, arith, All, lt→ltb,
  ltb→lt, leb→le,
}
use scim_server_impl_go.Text.{Text, same}
use scim_server_impl_go.Value.{Fields}
use scim_server_impl_go.Bulk.Graph.{
  Ops, Producers, Edges, op_at, op_refs, producer_by_bulk_id, dependency_edges,
}
use scim_server_impl_go.Bulk.Graph.Bounds.{
  EdgeWithin, dependency_edges-EdgeWithin, producer_by_bulk_id-Within,
}
use scim_server_impl_go.Bulk.Graph.References.{has_edge, dependency_edges-has_edge}
use scim_server_impl_go.Bulk.Refs.{is_nil_map, lookup_id}
use scim_server_impl_go.Bulk.Schedule.{
  State, choose, is_ready, schedule, schedule_loop, initial, range_from,
  compute_bulk_execution_order,
}
use scim_server_impl_go.Bulk.Schedule.Counts.{
  occurrences, pending, Tracks, initial-Tracks, schedule-Tracks,
}
use scim_server_impl_go.Bulk.Schedule.Order.{
  schedule_loop-cons, compute_bulk_execution_order-occurrences, range_from-occurrences,
}
use scim_server_impl_go.Bulk.Schedule.Dependencies.{
  Acyclic, precedes, pending-pos, schedule_loop-InOrder, InOrder-precedes, occurrences-any,
}

edge-EdgeWithin :
    (n : ℕ) (m : Producers) (edges : Edges) (a b : ℕ)
    → All (EdgeWithin n m) edges
    → has_edge edges a b ≡ true
    → EdgeWithin n m (a, b)
edge-EdgeWithin n m [] a b h e = cc
edge-EdgeWithin n m ((from, to) ∷ edges) a b h e = elim (Bool-cases (from == a && to == b)) [
  | inl here ↦
      let at_ab : (from ≡ a) × (to ≡ b) = (ground arith, ground arith) in
      rw (← at_ab.0, ← at_ab.1) h.0
  | inr other ↦ edge-EdgeWithin n m edges a b h.1 (ground arith)
]

-- the identity has every index in front of the larger ones
range_from-precedes :
    (k n a b : ℕ) → k ≤ a → a < b → b < k + n → precedes a b (range_from k n) ≡ true
unfolding range_from
range_from-precedes k zero a b h lt bound = absurd (omega arith)
range_from-precedes k (suc n) a b h lt bound = elim (Bool-cases (k == a)) [
  | inl e ↦
      rw e (
        occurrences-any b (range_from (suc k) n)
          (grind (arith, range_from-occurrences (suc k) n b)))
  | inr e ↦ rw e (range_from-precedes (suc k) n a b (grind arith) lt (omega (arith, bound)))
]

-- an order that holds each operation once, with the sources of edges in front of their targets
order-precedes :
    (ops : Ops) (m : Producers) (rank : ℕ → ℕ) (order : List ℕ) (a b : ℕ)
    → All (EdgeWithin (length ops) m) (dependency_edges ops m)
    → ((a b : ℕ) → has_edge (dependency_edges ops m) a b ≡ true → rank a < rank b)
    → compute_bulk_execution_order ops m ≡ some order
    → 0 < occurrences b order
    → has_edge (dependency_edges ops m) a b ≡ true
    → precedes a b order ≡ true
unfolding compute_bulk_execution_order initial
order-precedes ops m rank order a b within grows e occ edge =
    let (lt_a, lt_b, forward) =
      edge-EdgeWithin (length ops) m (dependency_edges ops m) a b within edge in
    elim (Bool-cases (leb (length ops) 1 || is_nil_map m)) [
      | inl short ↦
          let same_order : range_from 0 (length ops) ≡ order = ground arith in
          rw (← same_order) (
            range_from-precedes 0 (length ops) a b (omega arith) (before short)
              (omega (arith, lt_b)))
      | inr long ↦
          let e' : schedule_loop ops (dependency_edges ops m) (length ops)
                (initial (dependency_edges ops m))
              ≡ some order =
            ground arith in
          let acyclic : Acyclic (length ops) rank (dependency_edges ops m) = record {
            bound =
                λ a b h. (edge-EdgeWithin (length ops) m (dependency_edges ops m) a b within h).0;
            grows = grows;
          } in
          InOrder-precedes (dependency_edges ops m) a b edge
            (λ same_ab. absurd (omega (arith, grows a b edge, same_ab, ap rank same_ab)))
            (λ i. false) order
            (schedule_loop-InOrder ops (dependency_edges ops m) rank acyclic (length ops)
              (initial (dependency_edges ops m)) order (initial-Tracks (dependency_edges ops m)) e')
            refl occ
    ]
  where
    before : (leb (length ops) 1 || is_nil_map m) ≡ true → a < b
    before short =
        elim (edge-EdgeWithin (length ops) m (dependency_edges ops m) a b within edge).2 [
          | inl lt ↦ lt
          | inr has ↦
              let (lt_a', lt_b', _) =
                edge-EdgeWithin (length ops) m (dependency_edges ops m) a b within edge in
              let few : leb (length ops) 1 ≡ true = ground arith in
              let at_most : length ops ≤ 1 = leb→le (length ops) 1 few in
              let same_ab : a ≡ b = omega (arith, at_most, lt_a', lt_b') in
              absurd (omega (arith, grows a b edge, ap rank same_ab))
        ]

-- In a request whose dependency graph has no cycle (a rank grows along each of its edges), an
-- operation that refers by `bulkId:`, in its path or its data, to another operation, a POST that
-- is the first with that bulkId, runs after it: the order is found, and has the POST first.
pub compute_bulk_execution_order-precedes :
    (ops : Ops) (rank : ℕ → ℕ)
    → ((a b : ℕ)
        → has_edge (dependency_edges ops (producer_by_bulk_id ops)) a b ≡ true
        → rank a < rank b)
    → (i : ℕ) (op : Fields) (ref : Text) (post : ℕ) → op_at ops i ≡ some op
    → any (same ref) (op_refs op) ≡ true
    → lookup_id (producer_by_bulk_id ops) ref ≡ some post
    → post ≢ i
    → (order : List ℕ) × (compute_bulk_execution_order ops (producer_by_bulk_id ops) ≡ some order)
      × (precedes post i order ≡ true)
compute_bulk_execution_order-precedes ops rank grows i op ref post at_i there found ne =
    let m = producer_by_bulk_id ops in
    let edge = dependency_edges-has_edge ops m i op ref post at_i there found ne in
    let within = dependency_edges-EdgeWithin ops m (producer_by_bulk_id-Within ops) in
    let (_, lt, _) = edge-EdgeWithin (length ops) m (dependency_edges ops m) post i within edge in
    let (order, e, occ) = compute_bulk_execution_order-occurrences ops m in
    let once : 0 < occurrences i order = grind (arith, occ i, lt→ltb i (length ops) lt) in
    (order, e, order-precedes ops m rank order post i within grows e once edge)

-- with forward edges only, and the first `k` operations done, the next is `k`
choose-next :
    (ops : Ops) (edges : Edges) (st : State) (k : ℕ)
    → ((a b : ℕ) → has_edge edges a b ≡ true → a < b)
    → Tracks edges st
    → ((i : ℕ) → st.scheduled i ≡ ltb i k)
    → k < length ops
    → choose ops st ≡ some k
unfolding choose is_ready
choose-next ops edges st k forward tracks done lt =
    let found = first_below-eq (length ops) (is_ready st) k lt ready earlier in
    rw (found, choose) refl
  where
    free : pending edges st.scheduled k ≡ 0
    free = elim (Bool-cases (ltb 0 (pending edges st.scheduled k))) [
      | inl e ↦
          let (a, edge, new) =
            pending-pos edges st.scheduled k (ltb→lt 0 (pending edges st.scheduled k) e) in
          absurd (grind (arith, forward a k edge, done a, new))
      | inr e ↦ ground arith
    ]

    ready : is_ready st k ≡ true
    ready = grind (arith, done k, tracks k, free)

    earlier : (i : ℕ) → i < k → is_ready st i ≡ false
    earlier i h = grind (arith, done i)

schedule_loop-forward :
    (ops : Ops) (edges : Edges)
    → ((a b : ℕ) → has_edge edges a b ≡ true → a < b)
    → (rounds k : ℕ) (st : State) → Tracks edges st
    → ((i : ℕ) → st.scheduled i ≡ ltb i k)
    → k + rounds ≡ length ops
    → schedule_loop ops edges rounds st ≡ some (range_from k rounds)
unfolding schedule_loop range_from schedule
schedule_loop-forward ops edges forward zero k st tracks done e = refl
schedule_loop-forward ops edges forward (suc rounds) k st tracks done e =
    let chosen = choose-next ops edges st k forward tracks done (omega (arith, e)) in
    schedule_loop-cons ops edges rounds st k (range_from (suc k) rounds) chosen (
      schedule_loop-forward ops edges forward rounds (suc k) (schedule edges k st)
        (schedule-Tracks edges k st (grind (arith, done k)) tracks) (λ i. grind (arith, done i))
        (omega (arith, e)))

-- Where every edge of the dependency graph goes from an operation to a later one, the order is the
-- order of the request.
pub compute_bulk_execution_order-forward :
    (ops : Ops) (producers : Producers)
    → ((a b : ℕ) → has_edge (dependency_edges ops producers) a b ≡ true → a < b)
    → compute_bulk_execution_order ops producers ≡ some (range_from 0 (length ops))
unfolding compute_bulk_execution_order initial
compute_bulk_execution_order-forward ops producers forward =
    let edges = dependency_edges ops producers in
    if-keeps (λ r. r ≡ some (range_from 0 (length ops)))
      (leb (length ops) 1 || is_nil_map producers) refl
      (schedule_loop-forward ops edges forward (length ops) 0 (initial edges) (initial-Tracks edges)
        (λ i. grind arith) (omega arith))
