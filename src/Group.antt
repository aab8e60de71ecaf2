-- ===== src/Group.antt =====
-- internal/handler/group.go: the members of a group, as requests name them and as they are compared.
-- The handlers, which read and write the database, are not here.
pub mod Keys
pub mod Equal
use scim_server_impl_go.Base.{
  ℕ, zero, suc, ◌-◌, ◌+◌, String, Bool, true, false, not, ◌&&◌, ◌||◌, Option, none, some, List, [],
  ◌∷◌, ◌++◌, ◌==◌, if◌then◌else◌, length, Result, ok, bad_request, ◌>>=◌,
}
use scim_server_impl_go.Text.{
  Text, text, is_empty, same, to_lower, trim_space, has_prefix, drop_bytes, equal_fold,
}
use scim_server_impl_go.Value.{Value, null, str, arr, obj, Items, nil, cons, Fields, find, index}
use scim_server_impl_go.External.{External}
use scim_server_impl_go.Canonicalize.{extract_uuid_from_ref, normalize_nfc}
use scim_server_impl_go.Filter.Attributes.{core_group_urn, core_group_len}

-- `ScimGroupMembership`
pub record ScimGroupMembership : Type 0 where
  pub id : Text
  pub group_id : Text
  pub workspace_id : Text
  pub member_value : Text
  pub member_type : Option Text
  pub display : Option Text

-- `v, ok := m[key].(string)` that is not blank
unfoldable pub given_text : Value → Option Text
given_text (str s) = if is_empty (trim_space s) then none else some s
given_text _ = none

-- a member of type text, empty where it is missing or `null`
unfoldable pub text_member : Value → Result Text
text_member (str s) = ok (trim_space s)
text_member null = ok []
text_member _ = bad_request "invalidValue"

module _ (x : External) where
  unfoldable pub resolve_member_id : Fields → Text
  resolve_member_id m = elim (given_text (index "value" m)) [
    | some v ↦ elim (x.uuid_parse (trim_space v)) [ some u ↦ u | none ↦ trim_space v ]
    | none ↦ elim (given_text (index "$ref" m)) [
      | some ref ↦ extract_uuid_from_ref x ref
      | none ↦ []
    ]
  ]

  -- whether both are given, and the reference has another resource ID
  unfoldable pub in_conflict : Text → Text → Bool
  in_conflict value ref =
      let ref_uuid = extract_uuid_from_ref x ref in
      not (is_empty value)
      && not (is_empty ref)
      && not (is_empty ref_uuid)
      && not (equal_fold value ref_uuid)

  unfoldable pub check_member_value_ref_conflict : Fields → Result (Unit {0})
  check_member_value_ref_conflict m = text_member (index "value" m) >>= λ value.
      text_member (index "$ref" m) >>= λ ref.
      if in_conflict value ref then bad_request "invalidValue" else ok tt

  -- `null` and a missing member give `nil`
  unfoldable pub parse_group_external_id : Value → Result (Option Text)
  parse_group_external_id null = ok none
  parse_group_external_id (str s) = ok (some (normalize_nfc x s))
  parse_group_external_id _ = bad_request "invalidValue"

  -- `existingMemberTypes[id]`: a later membership overrides an earlier one
  unfoldable pub existing_type : List ScimGroupMembership → Text → Option Text
  existing_type [] id = none
  existing_type (m ∷ more) id =
      let later = existing_type more id in
      elim later [
        | some t ↦ some t
        | none ↦ elim m.member_type [
          | none ↦ none
          | some t ↦ if is_empty t || not (same m.member_value id) then none else some t
        ]
      ]

  -- whether a member of the request changes its type
  unfoldable pub changes_type : List ScimGroupMembership → Fields → Bool
  changes_type existing m =
      let id = resolve_member_id m in
      if is_empty id then false else elim (x.uuid_parse id) [
        | none ↦ false
        | some u ↦ elim (existing_type existing u) [
          | none ↦ false
          | some t ↦ elim (index "type" m) [
            | str new_type ↦ not (is_empty new_type) && not (equal_fold t new_type)
            | _ ↦ false
          ]
        ]
      ]

  unfoldable pub any_changes_type : List ScimGroupMembership → Items → Bool
  any_changes_type existing nil = false
  any_changes_type existing (cons (obj m) vs) =
      changes_type existing m || any_changes_type existing vs
  any_changes_type existing (cons _ vs) = any_changes_type existing vs

  unfoldable pub validate_member_type_immutability :
      List ScimGroupMembership → Value → Result (Unit {0})
  validate_member_type_immutability existing (arr vs) =
      if any_changes_type existing vs then bad_request "mutability" else ok tt
  validate_member_type_immutability existing _ = ok tt

unfoldable pub str_ptr_eq : Option Text → Option Text → Bool
str_ptr_eq none none = true
str_ptr_eq (some a) (some b) = same a b
str_ptr_eq _ _ = false

-- the key of a membership: `m.MemberValue.String() + "|" + mt`
unfoldable pub member_key : ScimGroupMembership → Text
member_key m = m.member_value ++ b'|' ∷ elim m.member_type [ none ↦ [] | some t ↦ to_lower t ]

-- `setA[key]++` and `setA[key]--`
unfoldable pub change_count : (ℕ → ℕ) → Text → (Text → ℕ) → Text → ℕ
change_count f key counts k = if same k key then f (counts k) else counts k

abbrev pub one_more : ℕ → ℕ
one_more n = suc n

abbrev pub one_less : ℕ → ℕ
one_less n = n - 1

unfoldable pub count_members : List ScimGroupMembership → (Text → ℕ) → Text → ℕ
count_members [] counts = counts
count_members (m ∷ more) counts = count_members more (change_count one_more (member_key m) counts)

-- the second loop
unfoldable pub take_members : List ScimGroupMembership → (Text → ℕ) → Bool
take_members [] counts = true
take_members (m ∷ more) counts =
    let rest = take_members more (change_count one_less (member_key m) counts) in
    if counts (member_key m) == 0 then false else rest

unfoldable pub group_members_equal : List ScimGroupMembership → List ScimGroupMembership → Bool
group_members_equal a b =
    if not (length a == length b)
    then false
    else if length a == 0
    then true
    else take_members b (count_members a (λ k. 0))

unfoldable pub clean_group_patch_path : Text → Text
clean_group_patch_path raw =
    let p = trim_space raw in
    if has_prefix (to_lower p) core_group_urn then trim_space (drop_bytes core_group_len p) else p

unfoldable pub is_group_read_only_attr : Text → Bool
is_group_read_only_attr path =
    let lp = to_lower (trim_space path) in
    same lp (text "id") || same lp (text "meta") || has_prefix lp (text "meta.")

-- the elements that are objects
unfoldable pub object_items : Items → List Fields
object_items nil = []
object_items (cons (obj m) vs) = m ∷ object_items vs
object_items (cons _ vs) = object_items vs

-- `extractMembersPayload(value, false)`
unfoldable pub plain_members_payload : Value → List Fields
plain_members_payload (arr vs) = object_items vs
plain_members_payload (obj m) = m ∷ []
plain_members_payload _ = []

unfoldable pub extract_members_payload : Value → Bool → List Fields
extract_members_payload (obj m) true = elim (find "members" m) [
  | some members ↦ plain_members_payload members
  | none ↦ m ∷ []
]
extract_members_payload v _ = plain_members_payload v
