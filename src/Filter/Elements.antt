-- ===== src/Filter/Elements.antt =====
-- internal/scim/filter.go: the conditions on an element of a collection.
use scim_server_impl_go.Base.{
  Bool, not, ◌&&◌, ◌||◌, Option, none, some, List, [], ◌∷◌, ◌++◌, if◌then◌else◌,
}
use scim_server_impl_go.Text.{Text, text, same, to_lower, equal_fold, switch}
use scim_server_impl_go.Filter.{
  Piece, lit, Arg, text_arg, FilterResult, Parser, ◌>>=◌, give, refuse, or_refuse, next_param,
}
use scim_server_impl_go.Filter.Attributes.{resolve_sub_attribute, one_of}
use scim_server_impl_go.Filter.Conditions.{containing, starting, ending}

-- `!EqualFold(value, "true") && !EqualFold(value, "false")`
abbrev pub is_bool_text : Text → Bool
is_bool_text value = equal_fold value (text "true") || equal_fold value (text "false")

-- the `switch` of `buildElemCondition` on an attribute that is not Boolean
unfoldable pub elem_cases : Piece → Text → Text → Piece → Option (List Piece × Text)
elem_cases key op val param =
    let like : List Piece =
      lit "LOWER(elem->>'" ∷ key ∷ lit "') LIKE LOWER(" ∷ param ∷ lit ")" ∷ [] in
    switch op
      (("eq", some (lit "LOWER(elem->>'" ∷ key ∷ lit "') = LOWER(" ∷ param ∷ lit ")" ∷ [], val))
        ∷ (
          "ne",
          some (
            lit "((elem->>'"
                ∷ key
                ∷ lit "') IS NULL OR LOWER(elem->>'"
                ∷ key
                ∷ lit "') != LOWER("
                ∷ param
                ∷ lit "))"
                ∷ [],
            val,
          ),
        )
        ∷ ("co", some (like, containing val))
        ∷ ("sw", some (like, starting val))
        ∷ ("ew", some (like, ending val))
        ∷ ("gt", some (lit "LOWER(elem->>'" ∷ key ∷ lit "') > LOWER(" ∷ param ∷ lit ")" ∷ [], val))
        ∷ ("ge", some (lit "LOWER(elem->>'" ∷ key ∷ lit "') >= LOWER(" ∷ param ∷ lit ")" ∷ [], val))
        ∷ ("lt", some (lit "LOWER(elem->>'" ∷ key ∷ lit "') < LOWER(" ∷ param ∷ lit ")" ∷ [], val))
        ∷ ("le", some (lit "LOWER(elem->>'" ∷ key ∷ lit "') <= LOWER(" ∷ param ∷ lit ")" ∷ [], val))
        ∷ [])
      none

-- a condition with its arguments
abbrev pub Condition : Type 0
Condition = List Piece × List Arg

-- the case of a Boolean sub-attribute
unfoldable pub bool_elem_condition : Piece → Text → Text → Parser Condition
bool_elem_condition key op val =
    if not (one_of op ("eq" ∷ "ne" ∷ "pr" ∷ []))
    then refuse
    else if same op (text "pr")
    then give (lit "(elem->>'" ∷ key ∷ lit "') IS NOT NULL" ∷ [], [])
    else if not (is_bool_text val)
    then refuse
    else next_param >>= λ param. give (
      if same op (text "eq")
          then lit "(elem->>'" ∷ key ∷ lit "') = " ∷ param ∷ []
          else lit "((elem->>'"
            ∷ key
            ∷ lit "') != "
            ∷ param
            ∷ lit " OR (elem->>'"
            ∷ key
            ∷ lit "') IS NULL)"
            ∷ [],
      text_arg (to_lower val) ∷ [],
    )

unfoldable pub text_elem_condition : Piece → Text → Text → Parser Condition
text_elem_condition key op val =
    if same op (text "pr")
    then give (
      lit "((elem->>'" ∷ key ∷ lit "') IS NOT NULL AND (elem->>'" ∷ key ∷ lit "') != '')" ∷ [],
      [],
    )
    else next_param >>= λ param.
        or_refuse (elem_cases key op val param) >>= λ c. give (c.0, text_arg c.1 ∷ [])

unfoldable pub build_elem_condition : Text → Text → Text → Text → Parser Condition
build_elem_condition collection_attr attr op val =
    or_refuse (resolve_sub_attribute collection_attr attr) >>= λ (key, is_bool).
    if is_bool then bool_elem_condition (lit key) op val else text_elem_condition (lit key) op val

-- `(col IS NOT NULL AND … EXISTS (SELECT 1 FROM jsonb_array_elements(col) AS elem WHERE cond))`
abbrev pub exists_elem : Piece → List Piece → List Piece
exists_elem col cond =
    lit "("
    ∷ col
    ∷ lit " IS NOT NULL AND jsonb_typeof("
    ∷ col
    ∷ lit "::jsonb) = 'array' AND "
    ∷ col
    ∷ lit "::text != '[]' AND EXISTS (SELECT 1 FROM jsonb_array_elements("
    ∷ col
    ∷ lit "::jsonb) AS elem WHERE "
    ∷ (cond ++ lit "))" ∷ [])

-- `col IS NOT NULL AND col::text != '[]'`
abbrev pub not_empty_column : Piece → FilterResult
not_empty_column col = record {
  sql = col ∷ lit " IS NOT NULL AND " ∷ col ∷ lit "::text != '[]'" ∷ [];
  args = [];
}

-- the rest of `buildJSONAttributeFilter`, for a sub-attribute with this key
unfoldable pub json_attribute_filter :
    Piece → Text → Text → Text → Text → Piece → Bool → Parser FilterResult
json_attribute_filter col collection_name sub_attr operator value key is_bool =
    if is_bool && not (one_of operator ("eq" ∷ "pr" ∷ []))
    then refuse
    else if is_bool && same operator (text "eq") && not (is_bool_text value)
    then refuse
    else if same operator (text "pr")
    then give (record {
      sql =
          exists_elem col (
            lit "(elem->>'" ∷ key ∷ lit "') IS NOT NULL AND (elem->>'" ∷ key ∷ lit "') != ''" ∷ []);
      args = [];
    })
    else if is_bool
    then (next_param >>= λ param. give (record {
      sql = exists_elem col (lit "(elem->>'" ∷ key ∷ lit "') = " ∷ param ∷ []);
      args = text_arg (to_lower value) ∷ [];
    }))
    else if one_of operator ("eq" ∷ "co" ∷ "sw" ∷ "ew" ∷ [])
    then (build_elem_condition collection_name sub_attr operator value >>= λ c.
        give (record { sql = exists_elem col (c.0); args = c.1 }))
    else refuse

unfoldable pub build_json_attribute_filter : Piece → Text → Text → Text → Text → Parser FilterResult
build_json_attribute_filter col collection_name sub_attr operator value =
    or_refuse (resolve_sub_attribute collection_name sub_attr) >>= λ (key, is_bool).
    json_attribute_filter col collection_name sub_attr operator value (lit key) is_bool
