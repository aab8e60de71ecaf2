-- ===== src/Patch/Enterprise.antt =====
-- internal/scim/patch.go: the enterprise extension.
use scim_server_impl_go.Base.{
  ◌+◌, String, Bool, false, not, ◌&&◌, Option, none, some, [], ◌∷◌, ◌++◌, if◌then◌else◌, Result, ok,
  bad_request, ◌>>=◌,
}
use scim_server_impl_go.Text.{
  Text, text, is_empty, same, to_lower, equal_fold, trim_space, has_prefix, drop_bytes, byte_len,
  switch,
}
use scim_server_impl_go.Value.{Value, null, str, obj, Fields, end, field, find}
use scim_server_impl_go.Model.{User}
use scim_server_impl_go.External.{External}
use scim_server_impl_go.Canonicalize.{normalize_nfc, extract_uuid_from_ref}
use scim_server_impl_go.Patch.Strict.{parse_strict_string_ptr}

-- `enterpriseSchemaURN`
abbrev pub enterprise_schema_urn : String
enterprise_schema_urn = "urn:ietf:params:scim:schemas:extension:enterprise:2.0:User"

unfoldable pub lower_urn : Text
lower_urn = to_lower (text enterprise_schema_urn)

-- `strings.HasPrefix(lowerPath, lowerEnt+":")`
unfoldable pub has_urn_prefix : Text → Bool
has_urn_prefix lower = has_prefix lower (lower_urn ++ b':' ∷ [])

-- the branch `lowerPath == lowerEnt`
unfoldable pub is_urn : Text → Bool
is_urn path = not (has_urn_prefix (to_lower path)) && same (to_lower path) lower_urn

-- `attr`: the path without the URN
unfoldable pub enterprise_attr : Text → Text
enterprise_attr path =
    if has_urn_prefix (to_lower path)
    then drop_bytes (byte_len (text enterprise_schema_urn) + 1) path
    else path

unfoldable pub clear_enterprise : User → User
clear_enterprise u = record u {
  enterprise_employee_number = none;
  enterprise_cost_center = none;
  enterprise_organization = none;
  enterprise_division = none;
  enterprise_department = none;
  enterprise_manager_value = none;
  enterprise_manager_ref = none;
  enterprise_manager_display = none;
}

-- `s != nil && strings.TrimSpace(*s) != ""`
unfoldable pub is_present : Option Text → Bool
is_present none = false
is_present (some s) = not (is_empty (trim_space s))

abbrev pub or_empty : Option Text → Text
or_empty none = []
or_empty (some s) = s

module _ (x : External) where
  -- `case "manager.$ref"`
  unfoldable pub set_manager_ref : Option Text → User → User
  set_manager_ref s u =
      let ref_uuid = extract_uuid_from_ref x (or_empty s) in
      if is_present s && not (is_empty ref_uuid)
      then record u {
        enterprise_manager_ref = s;
        enterprise_manager_value = some ref_uuid;
        enterprise_manager_display = none;
      }
      else record u { enterprise_manager_ref = s }

  -- `if val, ok := v["value"]; ok`: the parsed value; `parsedVal` stays nil where it is missing
  unfoldable pub manager_value : Fields → User → Result (Option Text × User)
  manager_value m u = elim (find "value" m) [
    | none ↦ ok (none, u)
    | some val ↦
        parse_strict_string_ptr x val >>= λ s. ok (s, record u { enterprise_manager_value = s })
  ]

  -- the lines behind `user.EnterpriseManagerRef = s`, with `parsedVal`
  unfoldable pub check_manager_ref : Option Text → Option Text → User → Result User
  check_manager_ref parsed_val s u =
      let ref_uuid = extract_uuid_from_ref x (or_empty s) in
      let differs = not (equal_fold ref_uuid (trim_space (or_empty parsed_val))) in
      if not (is_present s)
      then ok u
      else if is_present parsed_val
      then (if not (is_empty ref_uuid) && differs then bad_request "invalidValue" else ok u)
      else if not (is_empty ref_uuid)
      then ok (record u { enterprise_manager_value = some ref_uuid })
      else ok u

  -- `if ref, ok := v["$ref"]; ok`
  unfoldable pub manager_ref : Fields → Option Text × User → Result User
  manager_ref m (parsed_val, u) = elim (find "$ref" m) [
    | none ↦ ok u
    | some ref ↦ parse_strict_string_ptr x ref >>= λ s.
        check_manager_ref parsed_val s (record u { enterprise_manager_ref = s })
  ]

  unfoldable pub set_enterprise_manager : Value → User → Result User
  set_enterprise_manager null u = ok (record u {
    enterprise_manager_value = none;
    enterprise_manager_ref = none;
    enterprise_manager_display = none;
  })
  set_enterprise_manager (str v) u = ok (record u {
    enterprise_manager_value = some (normalize_nfc x v);
    enterprise_manager_display = none;
  })
  set_enterprise_manager (obj m) u = manager_value m u >>= λ p.
      manager_ref m p >>= λ u'. ok (record u' { enterprise_manager_display = none })
  set_enterprise_manager _ u = bad_request "invalidValue"

  -- the `switch` of `setEnterpriseAttribute`
  unfoldable pub set_enterprise_leaf : Text → Value → User → Result User
  set_enterprise_leaf path value u =
      switch (to_lower (enterprise_attr path))
        ((
          "employeenumber",
          parse_strict_string_ptr x value >>= λ s. ok (record u { enterprise_employee_number = s }),
        )
          ∷ (
            "costcenter",
            parse_strict_string_ptr x value >>= λ s. ok (record u { enterprise_cost_center = s }),
          )
          ∷ (
            "organization",
            parse_strict_string_ptr x value >>= λ s. ok (record u { enterprise_organization = s }),
          )
          ∷ (
            "division",
            parse_strict_string_ptr x value >>= λ s. ok (record u { enterprise_division = s }),
          )
          ∷ (
            "department",
            parse_strict_string_ptr x value >>= λ s. ok (record u { enterprise_department = s }),
          )
          ∷ ("manager", set_enterprise_manager value u)
          ∷ (
            "manager.value",
            parse_strict_string_ptr x value >>= λ s.
                ok (record u { enterprise_manager_value = s; enterprise_manager_display = none }),
          )
          ∷ ("manager.$ref", parse_strict_string_ptr x value >>= λ s. ok (set_manager_ref s u))
          ∷ ("manager.displayname", bad_request "mutability")
          ∷ [])
        (bad_request "invalidPath")

  unfoldable mutual
    pub set_enterprise_attribute : Value → Text → User → Result User
    set_enterprise_attribute (obj m) path u =
        if is_urn path then enterprise_members m u else set_enterprise_leaf path (obj m) u
    set_enterprise_attribute null path u =
        if is_urn path then ok (clear_enterprise u) else set_enterprise_leaf path null u
    set_enterprise_attribute v path u =
        if is_urn path then bad_request "invalidValue" else set_enterprise_leaf path v u

    pub enterprise_members : Fields → User → Result User
    enterprise_members end u = ok u
    enterprise_members (field k v m) u =
        set_enterprise_attribute v k u >>= λ u'. enterprise_members m u'

  unfoldable pub clear_enterprise_attribute : Text → User → Result User
  clear_enterprise_attribute path u =
      if is_urn path
      then ok (clear_enterprise u)
      else set_enterprise_attribute null (enterprise_attr path) u
