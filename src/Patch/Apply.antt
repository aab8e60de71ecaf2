-- ===== src/Patch/Apply.antt =====
-- internal/scim/patch.go: clearing an attribute, and the operations of a PATCH request.
use scim_server_impl_go.Base.{
  ◌+◌, String, Bool, true, false, not, ◌&&◌, ◌||◌, none, some, List, [], ◌∷◌, if◌then◌else◌, Result,
  ok, bad_request, ◌>>=◌,
}
use scim_server_impl_go.Text.{
  Text, text, is_empty, same, to_lower, equal_fold, has_prefix, contains_byte, drop_bytes, byte_len,
  switch, in_set,
}
use scim_server_impl_go.Value.{Value, null, obj, Fields, end, field, index, is_nil, as_text}
use scim_server_impl_go.Model.{User}
use scim_server_impl_go.External.{External}
use scim_server_impl_go.Patch.Single.{
  read_only, is_protected, clear_name, set_single_attribute, set_sub_attribute, set_name_attribute,
}
use scim_server_impl_go.Patch.Enterprise.{
  enterprise_schema_urn, has_urn_prefix, set_enterprise_attribute, clear_enterprise_attribute,
}
use scim_server_impl_go.Patch.Multi.{
  add_to_multi_valued, apply_filtered_add, apply_filtered_replace, apply_filtered_remove,
}
use scim_server_impl_go.Patch.Filter.{match_filtered_path}

unfoldable pub clear_attribute : Text → User → Result User
clear_attribute attr u =
    switch (to_lower attr)
      (("username", bad_request "mutability")
        ∷ ("id", bad_request "mutability")
        ∷ ("meta", bad_request "mutability")
        ∷ ("groups", bad_request "mutability")
        ∷ ("name", ok (clear_name u))
        ∷ ("externalid", ok (record u { external_id = none }))
        ∷ ("displayname", ok (record u { display_name = none }))
        ∷ ("nickname", ok (record u { nick_name = none }))
        ∷ ("profileurl", ok (record u { profile_url = none }))
        ∷ ("title", ok (record u { title = none }))
        ∷ ("usertype", ok (record u { user_type = none }))
        ∷ ("preferredlanguage", ok (record u { preferred_language = none }))
        ∷ ("locale", ok (record u { locale = none }))
        ∷ ("timezone", ok (record u { timezone = none }))
        ∷ ("active", ok (record u { active = false }))
        ∷ ("password", ok (record u { password = none }))
        ∷ ("emails", ok (record u { emails = [] }))
        ∷ ("phonenumbers", ok (record u { phone_numbers = [] }))
        ∷ ("addresses", ok (record u { addresses = [] }))
        ∷ ("ims", ok (record u { ims = [] }))
        ∷ ("photos", ok (record u { photos = [] }))
        ∷ ("entitlements", ok (record u { entitlements = [] }))
        ∷ ("roles", ok (record u { roles = [] }))
        ∷ ("x509certificates", ok (record u { x509_certificates = [] }))
        ∷ [])
      (bad_request "invalidPath")

-- `multiValuedAttrs[lower]`
unfoldable pub is_multi_valued : Text → Bool
is_multi_valued = in_set (
    "emails" ∷ "phonenumbers" ∷ "addresses" ∷ "ims" ∷ "photos" ∷ "entitlements" ∷ "roles"
    ∷ "x509certificates" ∷ [])

abbrev pub core_user_urn : String
core_user_urn = "urn:ietf:params:scim:schemas:core:2.0:User:"

unfoldable pub strip_patch_urn_prefix : Text → Text
strip_patch_urn_prefix path =
    let lower = to_lower path in
    if is_empty path
    then path
    else if has_prefix lower (to_lower (text core_user_urn))
    then drop_bytes (byte_len (text core_user_urn)) path
    else if has_urn_prefix lower
    then drop_bytes (byte_len (text enterprise_schema_urn) + 1) path
    else if equal_fold path (text enterprise_schema_urn)
    then text enterprise_schema_urn
    else path

-- `isEnterpriseAttr`
unfoldable pub is_enterprise_attr : Text → Bool
is_enterprise_attr path =
    in_set
      ("employeenumber" ∷ "costcenter" ∷ "organization" ∷ "division" ∷ "department" ∷ "manager"
        ∷ [])
      (to_lower path)
    || has_prefix (to_lower path) (text "manager.")

-- the condition that sends a path to the enterprise extension
unfoldable pub is_enterprise_path : Text → Bool
is_enterprise_path path =
    equal_fold path (text enterprise_schema_urn)
    || has_urn_prefix (to_lower path)
    || is_enterprise_attr path

module _ (x : External) where
  unfoldable pub replace_multi_valued : Text → Value → User → Result User
  replace_multi_valued attr value u = clear_attribute attr u >>= λ u'.
      if is_nil value then ok u' else add_to_multi_valued x attr value u'

  -- one member of the loop of `applyValueMap`
  unfoldable pub apply_member : Bool → Text → Value → User → Result User
  apply_member is_replace k v u =
      let key = strip_patch_urn_prefix k in
      let lower = to_lower key in
      if is_protected lower
      then bad_request "mutability"
      else if same lower (text "name")
      then set_name_attribute x v u
      else if is_enterprise_path key
      then set_enterprise_attribute x v key u
      else if contains_byte key b'.'
      then set_sub_attribute x key v u
      else if is_multi_valued lower
      then (if is_replace then replace_multi_valued lower v u else add_to_multi_valued x lower v u)
      else set_single_attribute x key v u

  unfoldable pub apply_members : Bool → Fields → User → Result User
  apply_members is_replace end u = ok u
  apply_members is_replace (field k v m) u =
      apply_member is_replace k v u >>= λ u'. apply_members is_replace m u'

  unfoldable pub apply_value_map : Value → Bool → User → Result User
  apply_value_map (obj m) is_replace u = apply_members is_replace m u
  apply_value_map _ is_replace u = bad_request "invalidValue"

  -- the lines that `applyAdd` and `applyReplace` share, behind the filtered path
  unfoldable pub apply_plain :
      (Text → Value → User → Result User) → Text → Value → User → Result User
  apply_plain multi path value u =
      let lower = to_lower path in
      if same lower (text "name")
      then set_name_attribute x value u
      else if is_enterprise_path path
      then set_enterprise_attribute x value path u
      else if contains_byte path b'.'
      then set_sub_attribute x path value u
      else if is_multi_valued lower
      then multi lower value u
      else set_single_attribute x path value u

  unfoldable pub apply_add : Text → Value → User → Result User
  apply_add path value u =
      if is_empty path then apply_value_map value false u else elim (match_filtered_path path) [
        | some m ↦ apply_filtered_add x m.collection m.filter_expr m.sub_attr value u
        | none ↦ apply_plain (add_to_multi_valued x) path value u
      ]

  unfoldable pub apply_replace : Text → Value → User → Result User
  apply_replace path value u =
      if is_empty path then apply_value_map value true u else elim (match_filtered_path path) [
        | some m ↦ apply_filtered_replace x m.collection m.filter_expr m.sub_attr value u
        | none ↦ apply_plain replace_multi_valued path value u
      ]

  unfoldable pub remove_plain : Text → User → Result User
  remove_plain path u =
      let lower = to_lower path in
      if same lower (text "name")
      then set_name_attribute x null u
      else if is_enterprise_path path
      then clear_enterprise_attribute x path u
      else if contains_byte path b'.'
      then set_sub_attribute x path null u
      else clear_attribute lower u

  unfoldable pub apply_remove : Text → User → Result User
  apply_remove path u =
      if is_empty path then bad_request "noTarget" else elim (match_filtered_path path) [
        | some m ↦ apply_filtered_remove x m.collection m.filter_expr u
        | none ↦ remove_plain path u
      ]

  -- the `switch opType`
  unfoldable pub apply_op : Text → Text → Value → User → Result User
  apply_op op_type path value u =
      switch op_type
        (("add", if is_nil value then bad_request "invalidValue" else apply_add path value u)
          ∷ ("replace", apply_replace path value u)
          ∷ ("remove", apply_remove path u)
          ∷ [])
        (bad_request "invalidValue")

  -- one round of the loop of `ApplyPatchOperations`
  unfoldable pub apply_operation : Fields → User → Result User
  apply_operation op u =
      let raw_op = as_text (index "op" op) in
      let path = strip_patch_urn_prefix (as_text (index "path" op)) in
      if is_empty raw_op
      then bad_request "invalidValue"
      else if not (is_empty path) && read_only (to_lower path)
      then bad_request "mutability"
      else apply_op (to_lower raw_op) path (index "value" op) u

  unfoldable pub apply_loop : List Fields → User → Result User
  apply_loop [] u = ok u
  apply_loop (op ∷ ops) u = apply_operation op u >>= λ u'. apply_loop ops u'

  unfoldable pub apply_patch_operations : List Fields → User → Result User
  apply_patch_operations [] u = bad_request "invalidValue"
  apply_patch_operations (op ∷ ops) u = apply_loop (op ∷ ops) u
