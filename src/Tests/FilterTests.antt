-- ===== src/Tests/FilterTests.antt =====
-- internal/scim/filter.go on concrete filters.
use scim_server_impl_go.Base.{
  pos, ◌↔◌, ◌≡◌, refl, true, false, some, none, List, [], ◌∷◌, ok, bad_request, String, Option,
  Result,
}
use scim_server_impl_go.External.{External}
use scim_server_impl_go.Text.{Text}
use scim_server_impl_go.Text.{
  text, same, lower_rune, to_lower, upper_rune, fold_rune, equal_fold, is_space, trim_left,
  trim_right, trim_space, has_prefix, split_at, width, byte_len, invalid, drop_bytes, switch,
  in_set,
}
use scim_server_impl_go.Canonicalize.{normalize_nfc, extract_uuid_from_ref, contains, split_last}
use scim_server_impl_go.Cursor.{digits}
use scim_server_impl_go.Filter.{Arg, text_arg, bool_arg, FilterResult, Target, user}
use scim_server_impl_go.Filter.{render, peek, next, next_param}
use scim_server_impl_go.Filter.Tokens.{
  is_blank, string_tail, word_run, token_at, find_tokens, before_quote, quoted_body, to_token,
  to_tokens, tokenize,
}
use scim_server_impl_go.Filter.Attributes.{
  strip_urn_prefix, strip_entity_urn_prefix, is_json_collection, before_dot, is_json_column,
  resolve_json_column, resolve_enterprise_column, group_column, user_column, resolve_column,
  is_valid_comparison_op, is_group_members_attr, is_user_groups_attr, case_insensitive_attrs,
  resolve_sub_attribute, is_valid_common_attr, is_valid_enterprise_attr, is_valid_user_core_attr,
  is_valid_group_core_attr, is_valid_any_resource_attr, is_boolean_attr,
}
use scim_server_impl_go.Filter.Conditions.{
  escape_like_value, text_expr_cases, build_text_expr_condition, wrapped,
  build_group_members_present_filter, ref_value, build_group_members_filter,
  build_user_groups_filter, build_schemas_filter,
}
use scim_server_impl_go.Filter.Elements.{
  elem_cases, bool_elem_condition, text_elem_condition, build_elem_condition, json_attribute_filter,
  build_json_attribute_filter,
}
use scim_server_impl_go.Filter.Comparison.{
  json_path, comparison_cases, parse_date_time, validate_cross_resource_comparison, compare_column,
  check_and_compare, compare_attribute, attribute_comparison, build_comparison_with_raw,
  present_column, build_present_filter,
}
use scim_server_impl_go.Filter.ValuePath.{
  add_inner, sub_attr_after, collect, read_brackets, read_sub_attr, is_multi_clause,
  three_token_clause, read_clause, optional_condition, join_conditions, all_args, contains_result,
  build_json_contains_filter, is_bool_sub_attr, finish_value_path, outer_value, outer_operator,
  outer_part, checked_part, bracket_part, collection_of, parse_value_path_filter,
}
use scim_server_impl_go.Filter.Parser.{
  combined, negated, chain, parse_chain, close_paren, operator_part, atom_from, parse_atom,
  parse_not, parse_or_expression, finish, parse_entity_filter, parse_user_filter,
  parse_user_filter_for_root, parse_group_filter, parse_group_filter_for_root,
}
use scim_server_impl_go.Filter.Sort.{resolve_user_sort_attribute, resolve_group_sort_attribute}
use scim_server_impl_go.Filter.Comparison.{Times}
use scim_server_impl_go.Filter.Conditions.{containing, starting, ending}
use scim_server_impl_go.Filter.Sound.Answers.{IsSafe, parse_entity_filter-IsSafe}
use scim_server_impl_go.Filter.Like.{Like, Contains, Starts, Ends, escape_like_value_lem}

-- what the tests of this file compute with
filter_code : Unit {0}
unfolding text same lower_rune to_lower upper_rune fold_rune equal_fold is_space trim_left
    trim_right trim_space has_prefix split_at width byte_len invalid drop_bytes switch in_set
    normalize_nfc extract_uuid_from_ref contains split_last digits peek next next_param is_blank
    string_tail word_run token_at find_tokens before_quote quoted_body to_token to_tokens tokenize
    strip_urn_prefix strip_entity_urn_prefix is_json_collection before_dot is_json_column
    resolve_json_column resolve_enterprise_column group_column user_column resolve_column
    is_valid_comparison_op is_group_members_attr is_user_groups_attr case_insensitive_attrs
    resolve_sub_attribute is_valid_common_attr is_valid_enterprise_attr is_valid_user_core_attr
    is_valid_group_core_attr is_valid_any_resource_attr is_boolean_attr escape_like_value
    text_expr_cases build_text_expr_condition wrapped build_group_members_present_filter ref_value
    build_group_members_filter build_user_groups_filter build_schemas_filter elem_cases
    bool_elem_condition text_elem_condition build_elem_condition json_attribute_filter
    build_json_attribute_filter json_path comparison_cases parse_date_time
    validate_cross_resource_comparison compare_column check_and_compare compare_attribute
    attribute_comparison build_comparison_with_raw present_column build_present_filter add_inner
    sub_attr_after collect read_brackets read_sub_attr is_multi_clause three_token_clause
    read_clause optional_condition join_conditions all_args contains_result
    build_json_contains_filter is_bool_sub_attr finish_value_path outer_value outer_operator
    outer_part checked_part bracket_part collection_of parse_value_path_filter combined negated
    chain parse_chain close_paren operator_part atom_from parse_atom parse_not parse_or_expression
    finish parse_entity_filter parse_user_filter parse_user_filter_for_root parse_group_filter
    parse_group_filter_for_root resolve_user_sort_attribute resolve_group_sort_attribute render
filter_code = tt

-- Stand-ins for the packages that the code calls.
abbrev plain : External
plain = record {
  nfc = λ s. s;
  bcrypt_matches = λ hash raw. false;
  bcrypt_generate = λ raw. some raw;
  url_parses = λ s. true;
  uuid_parse = λ s. some s;
  base64_strict = λ s. some s;
  asn1_unmarshal = λ b. none;
  parses_certificate = λ b. false;
}

abbrev clock : Times
clock = record {
  parse_in_location = λ layout s. some (pos 0);
  format_nano = λ t. text "1970-01-01T00:00:00Z";
}

abbrev users : Target
users = record { entity_type = user; cross_resource = false }

-- the SQL text and the arguments of an accepted filter
abbrev accepted_as : Option (Result (Option FilterResult)) → Option (Text × List Arg)
accepted_as (some (ok (some r))) = some (render r.sql, r.args)
accepted_as _ = none

abbrev users_as : String → Option (Text × List Arg)
users_as s = accepted_as (parse_user_filter plain clock (text s) 2)

precedence :
    users_as "nickName eq \"a\" or title sw \"b%\" and not (active eq true)"
    ≡ some (
      text "(LOWER(nick_name) = LOWER($2) OR (LOWER(title) LIKE LOWER($3) AND NOT (active = $4)))",
      text_arg (text "a") ∷ text_arg (text "b\\%%") ∷ bool_arg true ∷ [],
    )
unfolding filter_code
precedence = refl

-- a comparison behind a value path without sub-attribute is read and has no effect
dangling : users_as "emails[primary eq true] eq \"x\"" ≡ users_as "emails[primary eq true]"
unfolding filter_code
dangling = refl

-- the backslash of an escaped quote stays in the value
escapes :
    users_as "title eq \"a\\\"b\""
    ≡ some (text "LOWER(title) = LOWER($2)", text_arg (text "a\\\"b") ∷ [])
unfolding filter_code
escapes = refl

unfinished :
    parse_user_filter plain clock (text "title eq \"a\" or") 1 ≡ some (bad_request "invalidFilter")
unfolding filter_code
unfinished = refl

sort_key : resolve_group_sort_attribute (text "displayName") ≡ "display_name"
unfolding filter_code
sort_key = refl

escape_like_value_lem_example :
    (Like (containing (text "5%")) (text "a 5% off") ↔ Contains (text "5%") (text "a 5% off"))
    × (Like (starting (text "5%")) (text "a 5% off") ↔ Starts (text "5%") (text "a 5% off"))
    × (Like (ending (text "5%")) (text "a 5% off") ↔ Ends (text "5%") (text "a 5% off"))
escape_like_value_lem_example = escape_like_value_lem (text "5%") (text "a 5% off")

parse_entity_filter-IsSafe_example :
    IsSafe
      (text "userName eq \"x' OR 1=1\"")
      2
      (parse_entity_filter plain clock users (text "userName eq \"x' OR 1=1\"") 2)
parse_entity_filter-IsSafe_example =
    parse_entity_filter-IsSafe plain clock users (text "userName eq \"x' OR 1=1\"") 2
