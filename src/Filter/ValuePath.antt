-- ===== src/Filter/ValuePath.antt =====
-- internal/scim/filter.go: `parseValuePathFilter` and `buildJSONContainsFilter`.
use scim_server_impl_go.Base.{
  Bool, true, false, not, ◌&&◌, ◌||◌, Option, none, some, List, [], ◌∷◌, ◌++◌, if◌then◌else◌, any,
}
use scim_server_impl_go.Text.{
  Text, text, is_empty, same, to_lower, equal_fold, trim_space, has_prefix, drop_bytes, split_at,
}
use scim_server_impl_go.Filter.{
  Piece, lit, Arg, FilterResult, parsed, refused, Parser, ◌>>=◌, give, refuse, peek, next, is_word,
  Token, token_string, user, group, Target,
}
use scim_server_impl_go.Filter.Attributes.{
  one_of, core_user_urn, core_user_len, strip_urn_prefix, is_json_collection, resolve_json_column,
  resolve_sub_attribute, is_valid_comparison_op, is_some,
}
use scim_server_impl_go.Filter.Conditions.{fixed}
use scim_server_impl_go.Filter.Elements.{
  Condition, build_elem_condition, exists_elem, not_empty_column, is_bool_text,
}

-- `innerToken`
pub record InnerToken : Type 0 where
  pub val : Text
  pub is_string : Bool

-- `innerClause`
pub record InnerClause : Type 0 where
  pub attr : Text
  pub op : Text
  pub val : Text

-- What stands in the brackets and behind them.
pub record Brackets : Type 0 where
  pub inner : List InnerToken
  pub sub_attr : Text

-- `if before != "" { innerTokens = append(…) }`
unfoldable pub add_inner : List InnerToken → Text → List InnerToken
add_inner inner before =
    if is_empty before then inner else inner ++ record { val = before; is_string = false } ∷ []

-- `if strings.HasPrefix(after, ".") { subAttr = after[1:] }`
unfoldable pub sub_attr_after : Text → Text
sub_attr_after after = if has_prefix after (text ".") then drop_bytes 1 after else []

abbrev pub is_string_token : Token → Bool
is_string_token t = elim t.typ [ token_string ↦ true | _ ↦ false ]

-- the tokens up to the closing bracket, and the tokens behind it
unfoldable pub collect : List InnerToken → List Token → Option (Brackets × List Token)
collect inner [] = none
collect inner (t ∷ rest) = elim (if is_string_token t then none else split_at b']' t.val) [
  | some (before, after) ↦ some (
    record { inner = add_inner inner (trim_space before); sub_attr = sub_attr_after after },
    rest,
  )
  | none ↦ collect (inner ++ record { val = t.val; is_string = is_string_token t } ∷ []) rest
]

unfoldable pub read_brackets : Text → Parser Brackets
read_brackets filter_start p = elim (split_at b']' filter_start) [
  | some (before, after) ↦
      parsed (record { inner = add_inner [] (trim_space before); sub_attr = sub_attr_after after })
        p
  | none ↦
      elim (collect (if is_empty (trim_space filter_start) then [] else add_inner [] filter_start)
        p.tokens) [ none ↦ refused | some (b, rest) ↦ parsed b (record p { tokens = rest }) ]
]

-- the sub-attribute as a token of its own
unfoldable pub read_sub_attr : Text → Parser Text
read_sub_attr sub_attr p = elim p.tokens [
  | [] ↦ parsed sub_attr p
  | t ∷ rest ↦
      if is_empty sub_attr && is_word (some t) && has_prefix t.val (text ".")
      then parsed (drop_bytes 1 t.val) (record p { tokens = rest })
      else parsed sub_attr p
]

-- whether the inner filter has more than one clause
unfoldable pub is_multi_clause : List InnerToken → Bool
is_multi_clause inner =
    any
      (λ t.
        not t.is_string
        && (one_of (to_lower t.val) ("and" ∷ "or" ∷ "not" ∷ []) || one_of t.val ("(" ∷ ")" ∷ [])))
      inner

-- the checks of a clause with an operator and a value
unfoldable pub three_token_clause : Text → Text → Text → Text → Option InnerClause
three_token_clause collection_attr attr op val = elim (resolve_sub_attribute collection_attr attr) [
  | none ↦ none
  | some (key, is_bool) ↦
      if not (is_valid_comparison_op op)
        || is_bool && not (one_of op ("eq" ∷ "ne" ∷ "pr" ∷ []))
        || is_bool && not (is_bool_text val)
      then none
      else some (record { attr = attr; op = op; val = val })
]

unfoldable pub read_clause : Text → List InnerToken → Option InnerClause
read_clause collection_attr [] = none
read_clause collection_attr (a ∷ []) =
    if is_some (resolve_sub_attribute collection_attr a.val)
    then some (record { attr = a.val; op = text "pr"; val = [] })
    else none
read_clause collection_attr (a ∷ o ∷ []) =
    if same (to_lower o.val) (text "pr") && is_some (resolve_sub_attribute collection_attr a.val)
    then some (record { attr = a.val; op = to_lower o.val; val = [] })
    else none
read_clause collection_attr (a ∷ o ∷ v ∷ []) =
    three_token_clause collection_attr a.val (to_lower o.val) v.val
read_clause collection_attr (_ ∷ _ ∷ _ ∷ _ ∷ _) = none

-- one element of `conds`, if there is an attribute to test
unfoldable pub optional_condition : Text → Text → Text → Text → Parser (List Condition)
optional_condition collection_attr attr op val =
    if is_empty attr
    then give []
    else (build_elem_condition collection_attr attr op val >>= λ c. give (c ∷ []))

-- `strings.Join(conds, " AND ")`
unfoldable pub join_conditions : List Condition → List Piece
join_conditions [] = []
join_conditions (c ∷ []) = c.0
join_conditions (c ∷ d ∷ more) = c.0 ++ lit " AND " ∷ join_conditions (d ∷ more)

unfoldable pub all_args : List Condition → List Arg
all_args [] = []
all_args (c ∷ more) = c.1 ++ all_args more

unfoldable pub contains_result : Piece → List Condition → FilterResult
contains_result col [] = not_empty_column col
contains_result col (c ∷ more) = record {
  sql = exists_elem col (join_conditions (c ∷ more));
  args = all_args (c ∷ more);
}

unfoldable pub build_json_contains_filter :
    Piece → Text → InnerClause → Text → Text → Text → Parser FilterResult
build_json_contains_filter col collection_attr clause sub_attr operator value =
    optional_condition collection_attr clause.attr clause.op clause.val >>= λ c.
    optional_condition collection_attr sub_attr (if is_empty operator then text "pr" else operator)
      value
    >>= λ d. give (contains_result col (c ++ d))

-- `isBool` of the sub-attribute
unfoldable pub is_bool_sub_attr : Text → Text → Bool
is_bool_sub_attr collection_attr sub_attr = elim (resolve_sub_attribute collection_attr sub_attr) [
  | none ↦ false
  | some (key, is_bool) ↦ not (is_empty sub_attr) && is_bool
]

module _ (t : Target) where
  abbrev pub is_group : Bool
  is_group = elim t.entity_type [ group ↦ true | user ↦ false ]

  -- the result, which a search over all resources does not have for groups
  unfoldable pub finish_value_path :
      Piece → Text → InnerClause → Text → Text → Text → Parser FilterResult
  finish_value_path col collection_attr clause sub_attr operator value =
      if is_group && t.cross_resource
      then give (fixed "FALSE")
      else build_json_contains_filter col collection_attr clause sub_attr operator value

  -- a comparison behind the brackets, from its value on
  unfoldable pub outer_value : Piece → Text → InnerClause → Text → Text → Parser FilterResult
  outer_value col collection_attr clause sub_attr operator = next >>= λ token. elim token [
    | none ↦ refuse
    | some v ↦
        if is_bool_sub_attr collection_attr sub_attr && not (is_bool_text v.val)
        then refuse
        else finish_value_path col collection_attr clause sub_attr operator v.val
  ]

  -- the operator behind the brackets
  unfoldable pub outer_operator : Piece → Text → InnerClause → Text → Text → Parser FilterResult
  outer_operator col collection_attr clause sub_attr operator =
      if one_of operator ("and" ∷ "or" ∷ "not" ∷ [])
      then finish_value_path col collection_attr clause sub_attr [] []
      else if is_bool_sub_attr collection_attr sub_attr
          && not (one_of operator ("pr" ∷ "eq" ∷ "ne" ∷ []))
      then refuse
      else if same operator (text "pr")
      then (next >>= λ _. finish_value_path col collection_attr clause sub_attr (text "pr") [])
      else if not (is_valid_comparison_op operator)
      then refuse
      else (next >>= λ _. outer_value col collection_attr clause sub_attr operator)

  unfoldable pub outer_part : Piece → Text → InnerClause → Text → Parser FilterResult
  outer_part col collection_attr clause sub_attr = peek >>= λ token. elim token [
    | none ↦ finish_value_path col collection_attr clause sub_attr [] []
    | some op ↦
        if is_word (some op)
        then outer_operator col collection_attr clause sub_attr (to_lower op.val)
        else finish_value_path col collection_attr clause sub_attr [] []
  ]

  -- the checks of what was read, and the rest
  unfoldable pub checked_part : Text → List InnerToken → Text → Parser FilterResult
  checked_part collection_attr inner sub_attr =
      if is_multi_clause inner then refuse else elim (read_clause collection_attr inner) [
        | none ↦ refuse
        | some clause ↦
            if is_empty sub_attr || is_some (resolve_sub_attribute collection_attr sub_attr)
            then outer_part (resolve_json_column collection_attr) collection_attr clause sub_attr
            else refuse
      ]

  -- from the text behind the first bracket on
  unfoldable pub bracket_part : Text → Text → Parser FilterResult
  bracket_part collection_attr filter_start = read_brackets filter_start >>= λ b.
      read_sub_attr b.sub_attr >>= λ sub_attr. checked_part collection_attr b.inner sub_attr

  unfoldable pub collection_of : Text → Text
  collection_of raw =
      if has_prefix (to_lower raw) core_user_urn then drop_bytes core_user_len raw else raw

  unfoldable pub parse_value_path_filter : Text → Text → Parser FilterResult
  parse_value_path_filter raw_collection_attr filter_start =
      if is_group && not t.cross_resource
        || equal_fold (strip_urn_prefix raw_collection_attr) (text "members")
        || not (is_json_collection (collection_of raw_collection_attr))
      then refuse
      else bracket_part (collection_of raw_collection_attr) filter_start
