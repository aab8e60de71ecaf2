-- ===== src/Tests/DeferredTests.antt =====
-- internal/handler/bulk.go: the references that wait, on concrete requests.
use scim_server_impl_go.Base.{◌≡◌, refl, true, some, String, [], ◌∷◌}
use scim_server_impl_go.Text.{text, same, has_prefix, fold_rune, equal_fold}
use scim_server_impl_go.Value.{
  Value, str, obj, arr, Items, nil, cons, Fields, end, field, find, index,
}
use scim_server_impl_go.Bulk.Refs.{drop, lookup_id}
use scim_server_impl_go.Bulk.Graph.{Producers}
use scim_server_impl_go.Bulk.Deferred.{
  is_deferred_ref, is_deferred_member, immediate_members, deferred_members, replace_member,
  after_split, extract_deferred_group_members, extension_of, manager_text, without_manager,
  extract_deferred_user_manager, is_error_result,
}
use scim_server_impl_go.Bulk.Deferred.Waits.{Waits}
use scim_server_impl_go.Bulk.Deferred.Split.{SplitBy, extract_deferred_group_members-SplitBy}

-- what the tests of this file compute with
deferred_code : Unit {0}
unfolding text same has_prefix fold_rune equal_fold find index drop lookup_id is_deferred_ref
    is_deferred_member immediate_members deferred_members replace_member after_split
    extract_deferred_group_members extension_of manager_text without_manager
    extract_deferred_user_manager is_error_result
deferred_code = tt

abbrev producers : Producers
producers = (text "u1", 0) ∷ (text "g1", 1) ∷ []

abbrev member : String → Value
member id = obj (field (text "value") (str (text id)) end)

abbrev three : Items
three = cons (member "bulkId:u1") (cons (member "bulkId:g1") (cons (member "4711") nil))

abbrev group_data : Fields
group_data = field (text "displayName") (str (text "g")) (field (text "members") (arr three) end)

waits : extract_deferred_group_members producers (text "g1") group_data ≡ (
  field
      (text "displayName")
      (str (text "g"))
      (field (text "members") (arr (cons (member "bulkId:g1") (cons (member "4711") nil))) end),
  cons (member "bulkId:u1") nil,
)
unfolding deferred_code
waits = refl

abbrev extension : Fields → Fields
extension m = field (text "URN:ietf:params:scim:schemas:extension:enterprise:2.0:user") (obj m) end

manager_waits :
    extract_deferred_user_manager producers
      (text "u2")
      (extension (field (text "manager") (member "bulkId:u1") end))
    ≡ (extension end, some (member "bulkId:u1"))
unfolding deferred_code
manager_waits = refl

failed : is_error_result (field (text "status") (str (text "409")) end) ≡ true
unfolding deferred_code
failed = refl

group_members : index "members" group_data ≡ arr three
unfolding deferred_code
group_members = refl

extract_deferred_group_members-SplitBy_example :
    (is : Items) × (index "members"
        (extract_deferred_group_members producers (text "g1") group_data).0
      ≡ arr is)
    × SplitBy
        (Waits producers (text "g1"))
        three
        is
        (extract_deferred_group_members producers (text "g1") group_data).1
extract_deferred_group_members-SplitBy_example =
    extract_deferred_group_members-SplitBy producers (text "g1") group_data three group_members
