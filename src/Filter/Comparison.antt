-- ===== src/Filter/Comparison.antt =====
-- internal/scim/filter.go: a comparison of an attribute, and the test that it is present.
use scim_server_impl_go.Base.{
  ℤ, String, Bool, true, false, not, ◌&&◌, ◌||◌, Option, none, some, List, [], ◌∷◌, if◌then◌else◌,
}
use scim_server_impl_go.Text.{Text, text, is_empty, same, to_lower, equal_fold, split_at, switch}
use scim_server_impl_go.External.{External}
use scim_server_impl_go.Canonicalize.{extract_uuid_from_ref}
use scim_server_impl_go.Filter.{
  Piece, lit, Arg, text_arg, bool_arg, FilterResult, Parser, ◌>>=◌, give, refuse, or_refuse,
  next_param, user, group, Target,
}
use scim_server_impl_go.Filter.Attributes.{
  one_of, is_valid_comparison_op, is_json_collection, is_json_column, is_group_members_attr,
  is_user_groups_attr, is_valid_any_resource_attr, is_boolean_attr, case_insensitive_attrs,
  resolve_json_column, resolve_column, strip_urn_prefix,
}
use scim_server_impl_go.Filter.Conditions.{
  containing, starting, ending, like_test, eq_test, ne_test, plain_test, fixed,
  build_text_expr_condition, build_schemas_filter, build_group_members_filter,
  build_user_groups_filter, build_group_members_present_filter, user_groups_present,
}
use scim_server_impl_go.Filter.Elements.{
  is_bool_text, build_json_attribute_filter, not_empty_column,
}

-- The package `time`: `time.ParseInLocation` for a layout, in UTC, as the instant if it gives no error,
-- and `t.UTC().Format(time.RFC3339Nano)`.
pub record Times : Type 0 where
  pub parse_in_location : String → Text → Option ℤ
  pub format_nano : ℤ → Text

-- `parts := strings.SplitN(attr, ".", 2)` of a JSON collection and its sub-attribute
unfoldable pub json_path : Text → Option (Text × Text)
json_path attr = elim (split_at b'.' attr) [
  | none ↦ none
  | some (a, b) ↦ if is_json_collection a then some (a, b) else none
]

-- `lower == attrMetaCreated || lower == attrMetaLastModified`
abbrev pub is_date_time : Text → Bool
is_date_time lower = one_of lower ("meta.created" ∷ "meta.lastmodified" ∷ [])

abbrev pub is_like : Text → Bool
is_like operator = one_of operator ("co" ∷ "sw" ∷ "ew" ∷ [])

-- a result for one condition
abbrev pub one : List Piece → Arg → FilterResult
one sql arg = record { sql = sql; args = arg ∷ [] }

-- the `switch` of `buildComparisonWithRaw`
unfoldable pub comparison_cases : Piece → Bool → Bool → Text → Text → Piece → Option FilterResult
comparison_cases col is_bool folds operator value param =
    let truth = bool_arg (equal_fold value (text "true")) in
    switch operator
      ((
        "eq",
        some (
            if is_bool
            then one (plain_test col " = " param) truth
            else one (eq_test folds col param) (text_arg value)),
      )
        ∷ (
          "ne",
          some (
              if is_bool
              then one (ne_test false col param) truth
              else one (ne_test folds col param) (text_arg value)),
        )
        ∷ ("co", some (one (like_test folds col param) (text_arg (containing value))))
        ∷ ("sw", some (one (like_test folds col param) (text_arg (starting value))))
        ∷ ("ew", some (one (like_test folds col param) (text_arg (ending value))))
        ∷ ("gt", some (one (plain_test col " > " param) (text_arg value)))
        ∷ ("ge", some (one (plain_test col " >= " param) (text_arg value)))
        ∷ ("lt", some (one (plain_test col " < " param) (text_arg value)))
        ∷ ("le", some (one (plain_test col " <= " param) (text_arg value)))
        ∷ [])
      none

abbrev pub is_manager_ref : Piece → Bool
is_manager_ref (lit s) = same (text s) (text "enterprise_manager_ref")
is_manager_ref _ = false

module _ (x : External) (times : Times) where
  unfoldable pub parse_date_time : Text → Option ℤ
  parse_date_time s = elim (times.parse_in_location "2006-01-02T15:04:05Z07:00" s) [
    | some t ↦ some t
    | none ↦ elim (times.parse_in_location "2006-01-02T15:04:05.999999999" s) [
      | some t ↦ some t
      | none ↦ times.parse_in_location "2006-01-02 15:04:05.999999999" s
    ]
  ]

  abbrev pub is_valid_date_time : Text → Bool
  is_valid_date_time s = elim (parse_date_time s) [ none ↦ false | some _ ↦ true ]

  -- whether `validateCrossResourceComparison` gives no error
  unfoldable pub validate_cross_resource_comparison : Text → Text → Text → Bool
  validate_cross_resource_comparison raw_attr operator value =
      let stripped = to_lower (strip_urn_prefix raw_attr) in
      let is_bool =
        is_boolean_attr stripped
        || elim (json_path stripped) [ none ↦ false | some (a, b) ↦ same b (text "primary") ] in
      is_valid_comparison_op operator
      && not (is_bool && not (one_of operator ("eq" ∷ "ne" ∷ [])))
      && not (is_bool && not (is_bool_text value))
      && not (is_date_time stripped && is_like operator)
      && not (is_date_time stripped && not (is_valid_date_time value))

  -- the comparison of a column, once the value of a dateTime is normalised
  unfoldable pub compare_column : Text → Piece → Text → Text → Parser FilterResult
  compare_column attr col operator value = next_param >>= λ param. or_refuse (
      comparison_cases col (is_boolean_attr (to_lower attr))
        (case_insensitive_attrs (to_lower attr)) operator value param)

  -- the checks of the value, and the comparison
  unfoldable pub check_and_compare : Text → Piece → Text → Text → Parser FilterResult
  check_and_compare attr col operator value =
      if is_boolean_attr (to_lower attr) && not (one_of operator ("eq" ∷ "ne" ∷ []))
      then refuse
      else if is_boolean_attr (to_lower attr) && not (is_bool_text value)
      then refuse
      else if is_date_time (to_lower attr)
      then if is_like operator then refuse else elim (parse_date_time value) [
        | none ↦ refuse
        | some t ↦ compare_column attr col operator (times.format_nano t)
      ]
      else compare_column attr col operator value

  unfoldable pub compare_attribute : Text → Piece → Text → Text → Parser FilterResult
  compare_attribute attr col operator value =
      let extracted = extract_uuid_from_ref x value in
      if is_manager_ref col && one_of operator ("eq" ∷ "ne" ∷ []) && not (is_empty extracted)
      then (build_text_expr_condition (lit "enterprise_manager_value") operator extracted true
          >>= λ c. give (one (c.0) (text_arg c.1)))
      else check_and_compare attr col operator value

  -- the comparison of an attribute that has a column
  unfoldable pub attribute_comparison : Target → Text → Text → Text → Text → Parser FilterResult
  attribute_comparison t raw_attr attr operator value = elim (resolve_column t.entity_type attr) [
    | some col ↦ compare_attribute attr col operator value
    | none ↦
        if t.cross_resource
          && is_valid_any_resource_attr raw_attr
          && validate_cross_resource_comparison raw_attr operator value
        then give (fixed "FALSE")
        else refuse
  ]

  unfoldable pub build_comparison_with_raw :
      Target → Text → Text → Text → Text → Parser FilterResult
  build_comparison_with_raw t raw_attr attr operator value =
      let other = attribute_comparison t raw_attr attr operator value in
      if same (to_lower attr) (text "schemas")
      then build_schemas_filter t.entity_type operator value
      else elim t.entity_type [
        | group ↦
            if is_group_members_attr (to_lower attr)
            then build_group_members_filter x attr operator value
            else other
        | user ↦
            if is_user_groups_attr (to_lower attr)
            then build_user_groups_filter x attr operator value
            else elim (json_path attr) [
              | some (a, b) ↦ build_json_attribute_filter (resolve_json_column a) a b operator value
              | none ↦ other
            ]
      ]

-- the tests of a column that is present
unfoldable pub present_column : Target → Text → Text → Parser FilterResult
present_column t raw_attr attr = elim (resolve_column t.entity_type attr) [
  | none ↦
      if t.cross_resource && is_valid_any_resource_attr raw_attr
      then give (fixed "FALSE")
      else refuse
  | some col ↦
      if is_json_column attr
      then give (not_empty_column col)
      else give (record { sql = col ∷ lit " IS NOT NULL" ∷ []; args = [] })
]

unfoldable pub build_present_filter : Target → Text → Text → Parser FilterResult
build_present_filter t raw_attr attr =
    let lower = to_lower attr in
    let other = present_column t raw_attr attr in
    if same lower (text "schemas") then give (fixed "TRUE") else elim t.entity_type [
      | group ↦
          if is_group_members_attr lower
          then or_refuse (build_group_members_present_filter lower)
          else other
      | user ↦
          if is_user_groups_attr lower
          then give user_groups_present
          else if same lower (text "name")
          then give (
              fixed
                "(name_formatted IS NOT NULL OR name_family_name IS NOT NULL OR name_given_name IS NOT NULL OR name_middle_name IS NOT NULL OR name_honorific_prefix IS NOT NULL OR name_honorific_suffix IS NOT NULL)")
          else if same lower (text "manager")
          then give (fixed "enterprise_manager_value IS NOT NULL")
          else elim (json_path attr) [
            | some (a, b) ↦ build_json_attribute_filter (resolve_json_column a) a b (text "pr") []
            | none ↦ other
          ]
    ]
