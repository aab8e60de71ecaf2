-- ===== src/Tests/GroupTests.antt =====
-- internal/handler/group.go and internal/handler/async_event.go on concrete requests.
use scim_server_impl_go.Base.{
  arith, ◌↔◌, ◌≡◌, ◌≢◌, refl, true, false, Option, none, some, String, [], ◌∷◌, List, ok,
  bad_request,
}
use scim_server_impl_go.Text.{
  Text, text, same, lower_rune, to_lower, fold_rune, equal_fold, is_space, trim_left, trim_right,
  trim_space, has_prefix, split_at, width, invalid, drop_bytes,
}
use scim_server_impl_go.Value.{str, obj, arr, cons, nil, Fields, end, field, find, index}
use scim_server_impl_go.External.{External}
use scim_server_impl_go.Canonicalize.{extract_uuid_from_ref, normalize_nfc}
use scim_server_impl_go.Pagination.{read_digits, read_number, atoi}
use scim_server_impl_go.Response.{split}
use scim_server_impl_go.Group.{
  ScimGroupMembership, given_text, text_member, resolve_member_id, in_conflict,
  check_member_value_ref_conflict, parse_group_external_id, existing_type, changes_type,
  any_changes_type, validate_member_type_immutability, str_ptr_eq, member_key, change_count,
  count_members, take_members, group_members_equal, clean_group_patch_path, is_group_read_only_attr,
  object_items, plain_members_payload, extract_members_payload,
}
use scim_server_impl_go.Group.Equal.{AreIds, memberships_of, group_members_equal_iff}
use scim_server_impl_go.Async.{
  first_part, is_async_preferred, trim_quotes, wait_of, first_of, parse_wait_preference,
  should_execute_async, add_path, add_extension, add_extension_or, add_member, add_members, path_of,
  add_value, add_operation, add_operations, extract_modified_patch_paths,
}
use scim_server_impl_go.Async.Paths.{IsListing, extract_modified_patch_paths-IsListing}

-- what the tests of this file compute with
group_code : Unit {0}
unfolding text same lower_rune to_lower fold_rune equal_fold is_space trim_left trim_right
    trim_space has_prefix split_at width invalid drop_bytes find index extract_uuid_from_ref
    normalize_nfc read_digits read_number atoi split given_text text_member resolve_member_id
    in_conflict check_member_value_ref_conflict parse_group_external_id existing_type changes_type
    any_changes_type validate_member_type_immutability str_ptr_eq member_key change_count
    count_members take_members group_members_equal clean_group_patch_path is_group_read_only_attr
    object_items plain_members_payload extract_members_payload first_part is_async_preferred
    trim_quotes wait_of first_of parse_wait_preference should_execute_async add_path add_extension
    add_extension_or add_member add_members path_of add_value add_operation add_operations
    extract_modified_patch_paths
group_code = tt

-- Stand-ins for the packages that the code calls.
abbrev plain : External
plain = record {
  nfc = λ s. s;
  bcrypt_matches = λ hash raw. false;
  bcrypt_generate = λ raw. some raw;
  url_parses = λ s. true;
  uuid_parse = λ s. some s;
  base64_strict = λ s. some s;
  asn1_unmarshal = λ b. none;
  parses_certificate = λ b. false;
}

abbrev membership : String → Option Text → ScimGroupMembership
membership value typ = record {
  id = text "m";
  group_id = text "g";
  workspace_id = text "w";
  member_value = text value;
  member_type = typ;
  display = none;
}

abbrev two_users : List ScimGroupMembership
two_users = membership "a" (some (text "User")) ∷ membership "b" none ∷ []

abbrev reversed : List ScimGroupMembership
reversed = membership "b" (some []) ∷ membership "a" (some (text "user")) ∷ []

abbrev pair : String → String → Fields → Fields
pair k v m = field (text k) (str (text v)) m

equal_members : group_members_equal two_users reversed ≡ true
unfolding group_code
equal_members = refl

retyped :
    validate_member_type_immutability plain two_users
      (arr (cons (obj (pair "value" "a" (pair "type" "Group" end))) nil))
    ≡ bad_request "mutability"
unfolding group_code
retyped = refl

untyped :
    validate_member_type_immutability plain two_users
      (arr (cons (obj (pair "value" "b" (pair "type" "Group" end))) nil))
    ≡ ok tt
unfolding group_code
untyped = refl

meta_path :
    is_group_read_only_attr
      (clean_group_patch_path (text " URN:ietf:params:scim:schemas:core:2.0:Group:meta.version"))
    ≡ true
unfolding group_code
meta_path = refl

enveloped :
    extract_members_payload
      (obj (field (text "members") (arr (cons (obj (pair "value" "a" end)) nil)) end))
      true
    ≡ pair "value" "a" end ∷ []
unfolding group_code
enveloped = refl

waiting :
    should_execute_async (text "return=minimal" ∷ text "Respond-Async; wait=\"0\"" ∷ [])
    ≡ (true, "respond-async, wait=0")
unfolding group_code
waiting = refl

budget : should_execute_async (text "respond-async, wait=10" ∷ []) ≡ (false, "")
unfolding group_code
budget = refl

-- an operation with a path, and one whose value names two attributes
abbrev operations : List Fields
operations =
    pair "path" " title " end
    ∷ field (text "value") (obj (pair "title" "t" (pair "active" "true" end))) end
    ∷ []

named : extract_modified_patch_paths operations ≡ text "title" ∷ text "active" ∷ []
unfolding group_code
named = refl

two_users-AreIds : AreIds two_users
unfolding text
two_users-AreIds = ((λ e. omega (arith, e), tt), ((λ e. omega (arith, e), tt), tt))

reversed-AreIds : AreIds reversed
unfolding text
reversed-AreIds = ((λ e. omega (arith, e), tt), ((λ e. omega (arith, e), tt), tt))

group_members_equal_iff_example :
    (group_members_equal two_users reversed ≡ true)
    ↔ ((value typ : Text) → memberships_of value typ two_users ≡ memberships_of value typ reversed)
group_members_equal_iff_example =
    group_members_equal_iff two_users reversed two_users-AreIds reversed-AreIds

extract_modified_patch_paths-IsListing_example :
    (extract_modified_patch_paths operations ≢ [])
    × IsListing (extract_modified_patch_paths operations)
extract_modified_patch_paths-IsListing_example = extract_modified_patch_paths-IsListing operations

abbrev titled : Fields
titled = field (text "value") (obj (pair "title" "t" (pair "active" "true" end))) end
