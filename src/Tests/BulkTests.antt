-- ===== src/Tests/BulkTests.antt =====
-- internal/handler/bulk.go on concrete requests.
use scim_server_impl_go.Base.{
  ℕ, ◌-◌, ◌<◌, ◌≡◌, All, ◌≢◌, refl, subst, true, some, List, [], ◌∷◌, String, arith, ltb,
  if◌then◌else◌, length,
}
use scim_server_impl_go.Value.{str, obj, Fields, end, field, find, index}
use scim_server_impl_go.Text.{
  text, same, lower_rune, to_lower, fold_rune, equal_fold, is_space, trim_left, trim_right,
  trim_space, has_prefix, split_at,
}
use scim_server_impl_go.Canonicalize.{contains}
use scim_server_impl_go.Bulk.Path.{trim_slashes, split_from, keep_segments, normalize_bulk_path}
use scim_server_impl_go.Bulk.Refs.{
  is_token, token, drop, reference, find_references, add_reference, add_references, has_separator,
  walk_text, walk, extract_bulk_id_refs, lookup_id,
}
use scim_server_impl_go.Bulk.Graph.{
  Ops, op_at, bulk_id_of, is_new_producer, add_producer, producers_from, producer_by_bulk_id, mem,
  producer_indexes, op_refs, direct_deps, visit, search_from, producer_closure, add_edge, add_edges,
  add_ref_edges, add_all_ref_edges, resource_path, op_edges, graph_from, dependency_edges,
}
use scim_server_impl_go.Bulk.Graph.References.{has_edge}
use scim_server_impl_go.Bulk.Graph.Bounds.{producer_by_bulk_id-Within}
use scim_server_impl_go.Bulk.Graph.Closure.{Closed, producer_closure-Closed}
use scim_server_impl_go.Bulk.Schedule.{range_from, compute_bulk_execution_order}
use scim_server_impl_go.Bulk.Schedule.Counts.{occurrences}
use scim_server_impl_go.Bulk.Schedule.Order.{compute_bulk_execution_order-occurrences}
use scim_server_impl_go.Bulk.Schedule.Dependencies.{precedes}
use scim_server_impl_go.Bulk.Schedule.Requests.{
  compute_bulk_execution_order-precedes, compute_bulk_execution_order-forward,
}

-- what the tests of this file compute with
bulk_code : Unit {0}
unfolding text same lower_rune to_lower fold_rune equal_fold is_space trim_left trim_right
    trim_space has_prefix split_at find index contains trim_slashes split_from keep_segments
    normalize_bulk_path is_token token drop reference find_references add_reference add_references
    has_separator walk_text walk extract_bulk_id_refs lookup_id op_at bulk_id_of is_new_producer
    add_producer producers_from producer_by_bulk_id mem producer_indexes op_refs direct_deps visit
    search_from producer_closure add_edge add_edges add_ref_edges add_all_ref_edges resource_path
    op_edges graph_from dependency_edges
bulk_code = tt

abbrev post : String → String → Fields
post path bulk_id =
    field (text "method") (str (text "POST"))
      (field (text "path") (str (text path)) (field (text "bulkId") (str (text bulk_id)) end))

abbrev put_member : Fields
put_member = field (text "method") (str (text "PUT")) (
    field (text "path") (str (text "/Groups/g1"))
      (field (text "data") (obj (field (text "value") (str (text "bulkId:u")) end)) end))

-- a change that refers to the POST behind it
abbrev backward : Ops
backward = some put_member ∷ some (post "/Users" "u") ∷ []

-- the same with the POST in front
abbrev in_order : Ops
in_order = some (post "/Users" "u") ∷ some put_member ∷ []

edges_backward : dependency_edges backward (producer_by_bulk_id backward) ≡ (1, 0) ∷ []
unfolding bulk_code
edges_backward = refl

edges_in_order : dependency_edges in_order (producer_by_bulk_id in_order) ≡ (0, 1) ∷ []
unfolding bulk_code
edges_in_order = refl

refs_backward : op_refs put_member ≡ text "u" ∷ []
unfolding bulk_code
refs_backward = refl

producers_backward : producer_by_bulk_id backward ≡ (text "u", 1) ∷ []
unfolding bulk_code
producers_backward = refl

grows_backward :
    (a b : ℕ)
    → has_edge (dependency_edges backward (producer_by_bulk_id backward)) a b ≡ true
    → 1 - a < 1 - b
grows_backward a b h =
    let h' : has_edge ((1, 0) ∷ []) a b ≡ true =
      subst (λ edges. has_edge edges a b ≡ true) edges_backward h in
    grind arith

forward_in_order :
    (a b : ℕ)
    → has_edge (dependency_edges in_order (producer_by_bulk_id in_order)) a b ≡ true
    → a < b
forward_in_order a b h =
    let h' : has_edge ((0, 1) ∷ []) a b ≡ true =
      subst (λ edges. has_edge edges a b ≡ true) edges_in_order h in
    grind arith

compute_bulk_execution_order-precedes_example :
    (order : List ℕ) × (compute_bulk_execution_order backward (producer_by_bulk_id backward)
      ≡ some order)
    × (precedes 1 0 order ≡ true)
unfolding bulk_code
compute_bulk_execution_order-precedes_example =
    compute_bulk_execution_order-precedes backward (λ i. 1 - i) grows_backward 0 put_member
      (text "u") 1 refl refl refl one_zero
  where
    one_zero : ◌≢◌ {A = ℕ} 1 0
    one_zero e = absurd (omega arith)

compute_bulk_execution_order-occurrences_example :
    (order : List ℕ) × (compute_bulk_execution_order backward (producer_by_bulk_id backward)
      ≡ some order)
    × ((i : ℕ) → occurrences i order ≡ (if ltb i (length backward) then 1 else 0))
compute_bulk_execution_order-occurrences_example =
    compute_bulk_execution_order-occurrences backward (producer_by_bulk_id backward)

compute_bulk_execution_order-forward_example :
    compute_bulk_execution_order in_order (producer_by_bulk_id in_order) ≡ some (range_from 0 2)
compute_bulk_execution_order-forward_example =
    compute_bulk_execution_order-forward in_order (producer_by_bulk_id in_order) forward_in_order

producer_closure-Closed_example :
    (mem 1 (producer_closure backward (producer_by_bulk_id backward) 1) ≡ true)
    × Closed
        (direct_deps backward (producer_by_bulk_id backward))
        (producer_closure backward (producer_by_bulk_id backward) 1)
    × ((set : List ℕ)
        → mem 1 set ≡ true
        → Closed (direct_deps backward (producer_by_bulk_id backward)) set
        → All (λ j. mem j set ≡ true) (producer_closure backward (producer_by_bulk_id backward) 1))
producer_closure-Closed_example =
    producer_closure-Closed backward (producer_by_bulk_id backward) 1
      (producer_by_bulk_id-Within backward) (omega arith)
