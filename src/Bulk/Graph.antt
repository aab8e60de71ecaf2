-- ===== src/Bulk/Graph.antt =====
-- internal/handler/bulk.go: the dependency graph of a bulk request. The arrays `dependents` and
-- `inDegree` are given by the list of the calls of `addEdge` that pass its guard, in their order:
-- `dependents[i]` holds the targets of the edges from `i`, and `inDegree[i]` counts those to `i`.

pub mod Bounds
pub mod References
pub mod Closure
use scim_server_impl_go.Base.{
  ℕ, zero, suc, ◌+◌, Bool, true, false, not, ◌&&◌, Option, none, some, List, [], ◌∷◌, ◌++◌, ◌==◌,
  if◌then◌else◌, any, length, ok, err,
}
use scim_server_impl_go.Text.{Text, text, is_empty, to_lower, equal_fold, trim_space}
use scim_server_impl_go.Value.{Value, str, Fields, index, as_text}
use scim_server_impl_go.Bulk.Path.{normalize_bulk_path}
use scim_server_impl_go.Bulk.Refs.{extract_bulk_id_refs, lookup_id}

-- `ops`, where an element that is no object is `nil`
abbrev pub Ops : Type 0
Ops = List (Option Fields)

-- `producerByBulkID`
abbrev pub Producers : Type 0
Producers = List (Text × ℕ)

abbrev pub Edges : Type 0
Edges = List (ℕ × ℕ)

-- `ops[i]`
unfoldable pub op_at : Ops → ℕ → Option Fields
op_at [] i = none
op_at (op ∷ ops) zero = op
op_at (op ∷ ops) (suc i) = op_at ops i

-- `bid`
unfoldable pub bulk_id_of : Fields → Text
bulk_id_of op = trim_space (as_text (index "bulkId" op))

-- the tests of the loop that fills `producerByBulkID`
unfoldable pub is_new_producer : Producers → Fields → Bool
is_new_producer producers op =
    equal_fold (as_text (index "method" op)) (text "POST")
    && not (is_empty (bulk_id_of op))
    && elim (lookup_id producers (bulk_id_of op)) [ none ↦ true | some _ ↦ false ]

-- one round of that loop
unfoldable pub add_producer : Producers → ℕ → Option Fields → Producers
add_producer producers i none = producers
add_producer producers i (some op) =
    if is_new_producer producers op then (bulk_id_of op, i) ∷ producers else producers

unfoldable pub producers_from : Producers → ℕ → Ops → Producers
producers_from producers i [] = producers
producers_from producers i (op ∷ ops) = producers_from (add_producer producers i op) (suc i) ops

unfoldable pub producer_by_bulk_id : Ops → Producers
producer_by_bulk_id ops = producers_from [] 0 ops

unfoldable pub mem : ℕ → List ℕ → Bool
mem i l = any (λ j. i == j) l

-- the indexes of the producers of references, each once
unfoldable pub producer_indexes : Producers → List Text → List ℕ → List ℕ
producer_indexes producers [] seen = seen
producer_indexes producers (ref ∷ refs) seen = elim (lookup_id producers ref) [
  | none ↦ producer_indexes producers refs seen
  | some i ↦ producer_indexes producers refs (if mem i seen then seen else seen ++ i ∷ [])
]

-- the references of an operation, in its path and in its data
unfoldable pub op_refs : Fields → List Text
op_refs op = extract_bulk_id_refs (index "path" op) ++ extract_bulk_id_refs (index "data" op)

-- `directDeps[prodIdx]`
unfoldable pub direct_deps : Ops → Producers → ℕ → List ℕ
direct_deps ops producers i = elim (op_at ops i) [
  | none ↦ []
  | some op ↦ producer_indexes producers (op_refs op) []
]

-- `for _, nxt := range directDeps[curr]`: the marks and the queue
unfoldable pub visit : List ℕ → List ℕ → List ℕ → List ℕ × List ℕ
visit [] visited queue = (visited, queue)
visit (nxt ∷ more) visited queue =
    if mem nxt visited
    then visit more visited queue
    else visit more (visited ++ nxt ∷ []) (queue ++ nxt ∷ [])

-- `for len(queue) > 0`, with fuel
unfoldable pub search_from : (ℕ → List ℕ) → ℕ → List ℕ → List ℕ → List ℕ
search_from deps zero visited queue = visited
search_from deps (suc fuel) visited [] = visited
search_from deps (suc fuel) visited (curr ∷ queue) =
    let (visited', queue') = visit (deps curr) visited queue in
    search_from deps fuel visited' queue'

-- `computePostProducerClosure(…)[prodIdx]`. Each round takes an index out of the queue, and no index
-- enters it twice: as many rounds as there are operations are enough.
unfoldable pub producer_closure : Ops → Producers → ℕ → List ℕ
producer_closure ops producers i =
    search_from (direct_deps ops producers) (length ops + 1) (i ∷ []) (i ∷ [])

-- `addEdge`, with `seenProducers`
unfoldable pub add_edge : ℕ → ℕ → List ℕ × Edges → List ℕ × Edges
add_edge from to (seen, edges) =
    if not (from == to) && not (mem from seen)
    then (seen ++ from ∷ [], edges ++ (from, to) ∷ [])
    else (seen, edges)

unfoldable pub add_edges : List ℕ → ℕ → List ℕ × Edges → List ℕ × Edges
add_edges [] to st = st
add_edges (from ∷ more) to st = add_edges more to (add_edge from to st)

-- `addRefEdges`
unfoldable pub add_ref_edges : (ℕ → List ℕ) → Producers → ℕ → Text → List ℕ × Edges → List ℕ × Edges
add_ref_edges closure producers i ref st = elim (lookup_id producers ref) [
  | none ↦ st
  | some prod ↦
      let st' = add_edge prod i st in
      if mem i (closure prod) then st' else add_edges (closure prod) i st'
]

unfoldable pub add_all_ref_edges :
    (ℕ → List ℕ) → Producers → ℕ → List Text → List ℕ × Edges → List ℕ × Edges
add_all_ref_edges closure producers i [] st = st
add_all_ref_edges closure producers i (ref ∷ refs) st =
    add_all_ref_edges closure producers i refs (add_ref_edges closure producers i ref st)

-- `normPath`, if the path names a resource
unfoldable pub resource_path : Value → Option Text
resource_path (str raw_path) = elim (normalize_bulk_path raw_path) [
  | ok (seg ∷ id ∷ more) ↦ some (to_lower seg ++ b'/' ∷ id)
  | ok _ ↦ none
  | err _ ↦ none
]
resource_path _ = none

-- the edges of one operation, and `lastOpForResource` behind it
unfoldable pub op_edges :
    (ℕ → List ℕ) → Producers → ℕ → Fields → Producers × Edges → Producers × Edges
op_edges closure producers i op (last, edges) =
    let path : Option Text = resource_path (index "path" op) in
    let previous : Option ℕ = elim path [ none ↦ none | some p ↦ lookup_id last p ] in
    let start : List ℕ × Edges = elim previous [
      | none ↦ ([], edges)
      | some prev ↦ add_edge prev i ([], edges)
    ] in
    let last' : Producers = elim path [ none ↦ last | some p ↦ (p, i) ∷ last ] in
    (last', (add_all_ref_edges closure producers i (op_refs op) start).1)

-- `for i, op := range ops`
unfoldable pub graph_from : (ℕ → List ℕ) → Producers → ℕ → Ops → Producers × Edges → Edges
graph_from closure producers i [] (last, edges) = edges
graph_from closure producers i (none ∷ ops) st = graph_from closure producers (suc i) ops st
graph_from closure producers i (some op ∷ ops) st =
    graph_from closure producers (suc i) ops (op_edges closure producers i op st)

unfoldable pub dependency_edges : Ops → Producers → Edges
dependency_edges ops producers =
    graph_from (producer_closure ops producers) producers 0 ops ([], [])
