-- ===== src/Filter/Conditions.antt =====
-- internal/scim/filter.go: the conditions on one column or on one element of a collection.
use scim_server_impl_go.Base.{
  String, Bool, true, false, not, ◌&&◌, ◌||◌, Option, none, some, List, [], ◌∷◌, ◌++◌, ◌==◌,
  if◌then◌else◌,
}
use scim_server_impl_go.Text.{Text, text, is_empty, same, to_lower, switch}
use scim_server_impl_go.External.{External}
use scim_server_impl_go.Canonicalize.{extract_uuid_from_ref}
use scim_server_impl_go.Filter.{
  Piece, lit, text_arg, FilterResult, Parser, ◌>>=◌, give, refuse, or_refuse, next_param,
  EntityType, user, group,
}
use scim_server_impl_go.Filter.Attributes.{is_valid_comparison_op, one_of}

unfoldable pub escape_like_value : Text → Text
escape_like_value [] = []
escape_like_value (c ∷ s) =
    let rest = escape_like_value s in
    if c == b'%' || c == b'_' || c == 92 then 92 ∷ c ∷ rest else c ∷ rest

-- `"%" + escaped + "%"`, `escaped + "%"` and `"%" + escaped`
abbrev pub containing : Text → Text
containing value = b'%' ∷ (escape_like_value value ++ b'%' ∷ [])

abbrev pub starting : Text → Text
starting value = escape_like_value value ++ b'%' ∷ []

abbrev pub ending : Text → Text
ending value = b'%' ∷ escape_like_value value

-- `LOWER(expr) op LOWER(param)`
abbrev pub folded_test : Piece → String → Piece → List Piece
folded_test expr op param = lit "LOWER(" ∷ expr ∷ lit op ∷ param ∷ lit ")" ∷ []

abbrev pub plain_test : Piece → String → Piece → List Piece
plain_test expr op param = expr ∷ lit op ∷ param ∷ []

abbrev pub like_test : Bool → Piece → Piece → List Piece
like_test folds expr param =
    if folds then folded_test expr ") LIKE LOWER(" param else plain_test expr " LIKE " param

abbrev pub eq_test : Bool → Piece → Piece → List Piece
eq_test folds expr param =
    if folds then folded_test expr ") = LOWER(" param else plain_test expr " = " param

abbrev pub ne_test : Bool → Piece → Piece → List Piece
ne_test folds expr param =
    if folds
    then lit "(LOWER("
      ∷ expr
      ∷ lit ") != LOWER("
      ∷ param
      ∷ lit ") OR "
      ∷ expr
      ∷ lit " IS NULL)"
      ∷ []
    else lit "(" ∷ expr ∷ lit " != " ∷ param ∷ lit " OR " ∷ expr ∷ lit " IS NULL)" ∷ []

-- the `switch` of `buildTextExprCondition`
unfoldable pub text_expr_cases : Piece → Text → Text → Bool → Piece → Option (List Piece × Text)
text_expr_cases expr operator value folds param =
    switch operator
      (("eq", some (eq_test folds expr param, value))
        ∷ ("ne", some (ne_test folds expr param, value))
        ∷ ("co", some (like_test folds expr param, containing value))
        ∷ ("sw", some (like_test folds expr param, starting value))
        ∷ ("ew", some (like_test folds expr param, ending value))
        ∷ ("gt", some (plain_test expr " > " param, value))
        ∷ ("ge", some (plain_test expr " >= " param, value))
        ∷ ("lt", some (plain_test expr " < " param, value))
        ∷ ("le", some (plain_test expr " <= " param, value))
        ∷ [])
      none

unfoldable pub build_text_expr_condition : Piece → Text → Text → Bool → Parser (List Piece × Text)
build_text_expr_condition expr operator value folds =
    next_param >>= λ param. or_refuse (text_expr_cases expr operator value folds param)

-- a condition inside of a subquery
abbrev pub within : String → List Piece → List Piece
within head cond = lit head ∷ (cond ++ lit ")" ∷ [])

-- the result that holds one condition
unfoldable pub wrapped : String → Piece → Text → Text → Parser FilterResult
wrapped head expr operator value = build_text_expr_condition expr operator value true >>= λ c.
    give (record { sql = within head (c.0); args = text_arg c.1 ∷ [] })

abbrev pub fixed : String → FilterResult
fixed s = record { sql = lit s ∷ []; args = [] }

unfoldable pub build_group_members_present_filter : Text → Option FilterResult
build_group_members_present_filter lower_attr =
    if one_of lower_attr ("members" ∷ "members.value" ∷ "members.$ref" ∷ [])
    then some (
        fixed
          "EXISTS (SELECT 1 FROM scim_group_memberships m WHERE m.group_id = scim_groups.id AND m.workspace_id = scim_groups.workspace_id)")
    else switch lower_attr
        ((
          "members.display",
          some (
              fixed
                "EXISTS (SELECT 1 FROM scim_group_memberships m WHERE m.group_id = scim_groups.id AND m.workspace_id = scim_groups.workspace_id AND m.display IS NOT NULL)"),
        )
          ∷ (
            "members.type",
            some (
                fixed
                  "EXISTS (SELECT 1 FROM scim_group_memberships m WHERE m.group_id = scim_groups.id AND m.workspace_id = scim_groups.workspace_id AND m.member_type IS NOT NULL)"),
          )
          ∷ [])
        none

abbrev pub user_groups_present : FilterResult
user_groups_present =
    fixed
      "EXISTS (SELECT 1 FROM scim_group_memberships m WHERE m.member_value = scim_users.id AND m.workspace_id = scim_users.workspace_id)"

module _ (x : External) where
  -- the value of a `$ref` that is compared for equality
  unfoldable pub ref_value : Bool → Text → Text → Text
  ref_value is_ref operator value =
      let extracted = extract_uuid_from_ref x value in
      if is_ref && one_of operator ("eq" ∷ "ne" ∷ []) && not (is_empty extracted)
      then extracted
      else value

  unfoldable pub build_group_members_filter : Text → Text → Text → Parser FilterResult
  build_group_members_filter attr operator value =
      let lower = to_lower attr in
      let head : String =
        "EXISTS (SELECT 1 FROM scim_group_memberships m WHERE m.group_id = scim_groups.id AND m.workspace_id = scim_groups.workspace_id AND " in
      if not (is_valid_comparison_op operator)
      then refuse
      else if one_of lower ("members" ∷ "members.value" ∷ "members.$ref" ∷ [])
      then wrapped head (lit "m.member_value::text") operator
          (ref_value (same lower (text "members.$ref")) operator value)
      else switch lower
          (("members.display", wrapped head (lit "m.display") operator value)
            ∷ ("members.type", wrapped head (lit "m.member_type") operator value)
            ∷ [])
          refuse

  unfoldable pub build_user_groups_filter : Text → Text → Text → Parser FilterResult
  build_user_groups_filter attr operator value =
      let lower = to_lower attr in
      let head : String =
        "EXISTS (SELECT 1 FROM scim_group_memberships m WHERE m.member_value = scim_users.id AND m.workspace_id = scim_users.workspace_id AND " in
      if not (is_valid_comparison_op operator)
      then refuse
      else if one_of lower ("groups" ∷ "groups.value" ∷ "groups.$ref" ∷ [])
      then wrapped head (lit "m.group_id::text") operator
          (ref_value (same lower (text "groups.$ref")) operator value)
      else switch lower
          ((
            "groups.display",
            wrapped
                "EXISTS (SELECT 1 FROM scim_group_memberships m JOIN scim_groups g ON g.id = m.group_id WHERE m.member_value = scim_users.id AND m.workspace_id = scim_users.workspace_id AND "
                (lit "g.display_name") operator value,
          )
            ∷ ("groups.type", wrapped head (lit "'direct'::text") operator value)
            ∷ [])
          refuse

-- `entPresent`
abbrev pub ent_present : Piece
ent_present =
    lit
      "(enterprise_employee_number IS NOT NULL OR enterprise_cost_center IS NOT NULL OR enterprise_organization IS NOT NULL OR enterprise_division IS NOT NULL OR enterprise_department IS NOT NULL OR enterprise_manager_value IS NOT NULL)"

unfoldable pub build_schemas_filter : EntityType → Text → Text → Parser FilterResult
build_schemas_filter group operator value =
    if not (is_valid_comparison_op operator)
    then refuse
    else build_text_expr_condition (lit "'urn:ietf:params:scim:schemas:core:2.0:Group'::text")
        operator value false
      >>= λ c. give (record { sql = c.0; args = text_arg c.1 ∷ [] })
build_schemas_filter user operator value =
    if not (is_valid_comparison_op operator)
    then refuse
    else build_text_expr_condition (lit "'urn:ietf:params:scim:schemas:core:2.0:User'::text")
        operator value false
      >>= λ core.
          build_text_expr_condition
            (lit "'urn:ietf:params:scim:schemas:extension:enterprise:2.0:User'::text") operator
            value false
          >>= λ ent. give (record {
            sql =
                if same operator (text "ne")
                then lit "("
                  ∷ (core.0
                      ++ lit " AND (NOT " ∷ ent_present ∷ lit " OR " ∷ (ent.0 ++ lit "))" ∷ []))
                else lit "("
                  ∷ (core.0 ++ lit " OR (" ∷ ent_present ∷ lit " AND " ∷ (ent.0 ++ lit "))" ∷ []));
            args = text_arg core.1 ∷ text_arg ent.1 ∷ [];
          })
