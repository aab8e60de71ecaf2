-- ===== src/Patch/Single.antt =====
-- internal/scim/patch.go: the singular attributes and the name.
use scim_server_impl_go.Base.{
  Bool, false, not, ◌&&◌, ◌||◌, Option, none, some, [], ◌∷◌, if◌then◌else◌, Result, ok, bad_request,
  ◌>>=◌,
}
use scim_server_impl_go.Text.{
  Text, text, is_empty, same, to_lower, has_prefix, split_at, switch, in_set,
}
use scim_server_impl_go.Value.{Value, null, obj, Fields, end, field}
use scim_server_impl_go.Model.{User}
use scim_server_impl_go.External.{External}
use scim_server_impl_go.Canonicalize.{hash_password}
use scim_server_impl_go.Patch.Strict.{
  parse_strict_bool, parse_raw_string_ptr, parse_strict_string_ptr, validate_reference,
}

-- `readOnlyAttrs`
unfoldable pub read_only : Text → Bool
read_only = in_set (
    "id" ∷ "meta" ∷ "meta.created" ∷ "meta.lastmodified" ∷ "meta.location" ∷ "meta.resourcetype"
    ∷ "meta.version" ∷ "groups" ∷ "manager.displayname" ∷ [])

-- the guard of `setSingleAttribute` and of `applyValueMap`
unfoldable pub is_protected : Text → Bool
is_protected lower = read_only lower || has_prefix lower (text "meta.")

unfoldable pub set_user_name : User → Option Text → Result User
set_user_name u none = bad_request "invalidValue"
set_user_name u (some s) =
    if is_empty s then bad_request "invalidValue" else ok (record u { user_name = s })

unfoldable pub clear_name : User → User
clear_name u = record u {
  name_formatted = none;
  name_family_name = none;
  name_given_name = none;
  name_middle_name = none;
  name_honorific_prefix = none;
  name_honorific_suffix = none;
}

-- the `switch` on a name sub-attribute in lower case
unfoldable pub set_name_part : Text → Option Text → User → Result User
set_name_part sub s u =
    switch (sub)
      (("formatted", ok (record u { name_formatted = s }))
        ∷ ("familyname", ok (record u { name_family_name = s }))
        ∷ ("givenname", ok (record u { name_given_name = s }))
        ∷ ("middlename", ok (record u { name_middle_name = s }))
        ∷ ("honorificprefix", ok (record u { name_honorific_prefix = s }))
        ∷ ("honorificsuffix", ok (record u { name_honorific_suffix = s }))
        ∷ [])
      (bad_request "invalidPath")

module _ (x : External) where
  unfoldable pub set_profile_url : User → Option Text → Result User
  set_profile_url u none = ok (record u { profile_url = none })
  set_profile_url u (some s) = (if is_empty s then ok tt else validate_reference x s) >>= λ _.
      ok (record u { profile_url = some s })

  -- whether the stored hash is that of the new password
  unfoldable pub is_current_password : Option Text → Option Text → Bool
  is_current_password (some hash) (some raw) = not (is_empty raw) && x.bcrypt_matches hash raw
  is_current_password _ _ = false

  unfoldable pub set_password : User → Option Text → Result User
  set_password u raw =
      if is_current_password u.password raw
      then ok u
      else hash_password x raw >>= λ pw. ok (record u { password = pw })

  unfoldable pub set_single_attribute : Text → Value → User → Result User
  set_single_attribute path value u =
      let lower = to_lower path in
      if is_protected lower
      then bad_request "mutability"
      else switch (lower)
          (("username", parse_strict_string_ptr x value >>= set_user_name u)
            ∷ (
              "externalid",
              parse_strict_string_ptr x value >>= λ s. ok (record u { external_id = s }),
            )
            ∷ (
              "displayname",
              parse_strict_string_ptr x value >>= λ s. ok (record u { display_name = s }),
            )
            ∷ ("nickname", parse_strict_string_ptr x value >>= λ s. ok (record u { nick_name = s }))
            ∷ ("profileurl", parse_strict_string_ptr x value >>= set_profile_url u)
            ∷ ("title", parse_strict_string_ptr x value >>= λ s. ok (record u { title = s }))
            ∷ ("usertype", parse_strict_string_ptr x value >>= λ s. ok (record u { user_type = s }))
            ∷ (
              "preferredlanguage",
              parse_strict_string_ptr x value >>= λ s. ok (record u { preferred_language = s }),
            )
            ∷ ("locale", parse_strict_string_ptr x value >>= λ s. ok (record u { locale = s }))
            ∷ ("timezone", parse_strict_string_ptr x value >>= λ s. ok (record u { timezone = s }))
            ∷ ("active", parse_strict_bool value >>= λ b. ok (record u { active = b }))
            ∷ ("password", parse_raw_string_ptr value >>= set_password u)
            ∷ [])
          (bad_request "invalidPath")

  unfoldable pub sub_of_parent : Text → Text → Value → User → Result User
  sub_of_parent parent sub value u =
      if same (to_lower parent) (text "meta")
      then bad_request "mutability"
      else if not (same (to_lower parent) (text "name"))
      then bad_request "invalidPath"
      else parse_strict_string_ptr x value >>= λ s. set_name_part (to_lower sub) s u

  unfoldable pub set_sub_attribute : Text → Value → User → Result User
  set_sub_attribute path value u = elim (split_at b'.' path) [
    | none ↦ bad_request "invalidPath"
    | some (parent, sub) ↦ sub_of_parent parent sub value u
  ]

  unfoldable pub name_members : Fields → User → Result User
  name_members end u = ok u
  name_members (field k v fs) u = parse_strict_string_ptr x v >>= λ s.
      set_name_part (to_lower k) s u >>= λ u'. name_members fs u'

  unfoldable pub set_name_attribute : Value → User → Result User
  set_name_attribute null u = ok (clear_name u)
  set_name_attribute (obj fs) u = name_members fs u
  set_name_attribute _ u = bad_request "invalidValue"
