-- ===== src/Bulk/Schedule.antt =====
-- internal/handler/bulk.go: the order in which the operations of a bulk request run. A run that
-- would write behind the end of an array, which Go stops with a panic, gives `none`.
pub mod Counts
pub mod Order
pub mod Dependencies
pub mod Requests
use scim_server_impl_go.Base.{
  ℕ, zero, suc, ◌+◌, ◌-◌, Bool, true, false, not, ◌&&◌, ◌||◌, Option, none, some, List, [], ◌∷◌,
  ltb, leb, ◌==◌, if◌then◌else◌, length, update, first_below,
}
use scim_server_impl_go.Text.{Text, text, equal_fold, trim_space}
use scim_server_impl_go.Value.{index, as_text}
use scim_server_impl_go.Bulk.Refs.{is_nil_map}
use scim_server_impl_go.Bulk.Graph.{Ops, Producers, Edges, op_at, dependency_edges}

-- `dependents[c]`
unfoldable pub dependents : Edges → ℕ → List ℕ
dependents [] c = []
dependents ((from, to) ∷ edges) c =
    let rest = dependents edges c in if from == c then to ∷ rest else rest

-- `inDegree[i]` of the graph
unfoldable pub in_degree_of : Edges → ℕ → ℕ
in_degree_of [] i = 0
in_degree_of ((from, to) ∷ edges) i = (if to == i then 1 else 0) + in_degree_of edges i

-- The two arrays that the loop writes.
pub record State : Type 0 where
  pub scheduled : ℕ → Bool
  pub in_degree : ℕ → ℕ

unfoldable pub is_post_op : Ops → ℕ → Bool
is_post_op ops i = elim (op_at ops i) [
  | none ↦ false
  | some op ↦ equal_fold (trim_space (as_text (index "method" op))) (text "POST")
]

unfoldable pub is_ready : State → ℕ → Bool
is_ready st i = not (st.scheduled i) && st.in_degree i == 0

-- `chosen`
unfoldable pub choose : Ops → State → Option ℕ
choose ops st = elim (first_below (length ops) (is_ready st)) [
  | some i ↦ some i
  | none ↦ elim (first_below (length ops) (λ i. not (st.scheduled i) && is_post_op ops i)) [
    | some i ↦ some i
    | none ↦ first_below (length ops) (λ i. not (st.scheduled i))
  ]
]

-- `for _, dep := range dependents[chosen] { if inDegree[dep] > 0 { inDegree[dep]-- } }`
unfoldable pub release : (ℕ → ℕ) → List ℕ → ℕ → ℕ
release in_degree [] = in_degree
release in_degree (dep ∷ more) =
    release (if ltb 0 (in_degree dep) then update in_degree dep (in_degree dep - 1) else in_degree)
      more

unfoldable pub schedule : Edges → ℕ → State → State
schedule edges chosen st = record {
  scheduled = update st.scheduled chosen true;
  in_degree = release st.in_degree (dependents edges chosen);
}

-- `for len(order) < n`: a round adds one index, so there are `n` rounds
unfoldable pub schedule_loop : Ops → Edges → ℕ → State → Option (List ℕ)
schedule_loop ops edges zero st = some []
schedule_loop ops edges (suc rounds) st = elim (choose ops st) [
  | none ↦ none
  | some chosen ↦ elim (schedule_loop ops edges rounds (schedule edges chosen st)) [
    | none ↦ none
    | some order ↦ some (chosen ∷ order)
  ]
]

-- `k, k + 1, …`: the identity is `range_from 0 n`
unfoldable pub range_from : ℕ → ℕ → List ℕ
range_from k zero = []
range_from k (suc n) = k ∷ range_from (suc k) n

unfoldable pub initial : Edges → State
initial edges = record { scheduled = λ i. false; in_degree = in_degree_of edges }

unfoldable pub compute_bulk_execution_order : Ops → Producers → Option (List ℕ)
compute_bulk_execution_order ops producers =
    let edges = dependency_edges ops producers in
    if leb (length ops) 1 || is_nil_map producers
    then some (range_from 0 (length ops))
    else schedule_loop ops edges (length ops) (initial edges)
