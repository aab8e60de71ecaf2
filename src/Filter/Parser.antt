-- ===== src/Filter/Parser.antt =====
-- internal/scim/filter.go: the recursive descent, and the entry points.
use scim_server_impl_go.Base.{
  ℕ, zero, suc, ◌+◌, String, Bool, true, false, ◌&&◌, Option, none, some, [], ◌∷◌, ◌++◌,
  if◌then◌else◌, length, Result, ok, err, bad_request,
}
use scim_server_impl_go.Text.{Text, text, is_empty, to_lower, equal_fold, split_at}
use scim_server_impl_go.External.{External}
use scim_server_impl_go.Filter.{
  lit, FilterResult, Outcome, parsed, refused, exhausted, Parser, ◌>>=◌, give, refuse, peek, next,
  is_word, Token, TokenType, token_word, token_string, token_lparen, token_rparen, user, group,
  Target,
}
use scim_server_impl_go.Filter.Tokens.{tokenize}
use scim_server_impl_go.Filter.Attributes.{strip_entity_urn_prefix}
use scim_server_impl_go.Filter.Comparison.{Times, build_comparison_with_raw, build_present_filter}
use scim_server_impl_go.Filter.ValuePath.{parse_value_path_filter}

-- `t != nil && t.typ == tokenWord && strings.EqualFold(t.val, word)`
abbrev pub is_keyword : String → Option Token → Bool
is_keyword word none = false
is_keyword word (some t) = is_word (some t) && equal_fold t.val (text word)

abbrev pub is_type : TokenType → Option Token → Bool
is_type token_lparen (some t) = elim t.typ [ token_lparen ↦ true | _ ↦ false ]
is_type token_rparen (some t) = elim t.typ [ token_rparen ↦ true | _ ↦ false ]
is_type _ _ = false

-- `&FilterResult{SQL: "(" + left.SQL + op + right.SQL + ")", Args: append(left.Args, right.Args...)}`
unfoldable pub combined : String → FilterResult → FilterResult → FilterResult
combined op left right = record {
  sql = lit "(" ∷ (left.sql ++ lit op ∷ (right.sql ++ lit ")" ∷ []));
  args = left.args ++ right.args;
}

unfoldable pub negated : FilterResult → FilterResult
negated inner = record { sql = lit "NOT (" ∷ (inner.sql ++ lit ")" ∷ []); args = inner.args }

-- the loop of `parseOrExpression` and `parseAndExpression`, with fuel: a round takes its keyword
unfoldable pub chain :
    String → String → Parser FilterResult → ℕ → FilterResult → Parser FilterResult
chain word op operand zero left = λ p. exhausted
chain word op operand (suc rounds) left = peek >>= λ token.
    if is_keyword word token
    then (next >>= λ _. operand >>= λ right. chain word op operand rounds (combined op left right))
    else give left

-- an operand and what the loop adds to it
unfoldable pub parse_chain : String → String → Parser FilterResult → Parser FilterResult
parse_chain word op operand p =
    (operand >>= λ left. chain word op operand (length p.tokens + 1) left) p

-- `rp := p.next()`, which has to be `)`
unfoldable pub close_paren : FilterResult → Parser FilterResult
close_paren inner = next >>= λ token. if is_type token_rparen token then give inner else refuse

module _ (x : External) (times : Times) (t : Target) where
  -- a comparison, from its operator on
  unfoldable pub operator_part : Text → Text → Parser FilterResult
  operator_part raw attr = next >>= λ op. elim op [
    | none ↦ refuse
    | some op ↦
        if is_keyword "pr" (some op)
        then build_present_filter t raw attr
        else if is_word (some op)
        then (next >>= λ value. elim value [
          | none ↦ refuse
          | some v ↦ build_comparison_with_raw x times t raw attr (to_lower op.val) v.val
        ])
        else refuse
  ]

  -- an atom that starts with a token of this type and text
  unfoldable pub atom_from : Parser FilterResult → TokenType → Text → Parser FilterResult
  atom_from parse_or token_lparen val = parse_or >>= close_paren
  atom_from parse_or token_word val = elim (split_at b'[' val) [
    | some (collection, filter_start) ↦ parse_value_path_filter t collection filter_start
    | none ↦ operator_part val (strip_entity_urn_prefix t.entity_type val)
  ]
  atom_from parse_or token_string val = refuse
  atom_from parse_or token_rparen val = refuse

  -- `parseAtom`, where `parseOrExpression` is given
  unfoldable pub parse_atom : Parser FilterResult → Parser FilterResult
  parse_atom parse_or =
      next >>= λ token. elim token [ none ↦ refuse | some a ↦ atom_from parse_or a.typ a.val ]

  unfoldable pub parse_not : Parser FilterResult → Parser FilterResult
  parse_not parse_or = peek >>= λ token.
      if is_keyword "not" token
      then (next >>= λ _. peek >>= λ lp.
          if is_type token_lparen lp
          then (next >>= λ _. parse_or >>= close_paren >>= λ inner. give (negated inner))
          else (parse_atom parse_or >>= λ inner. give (negated inner)))
      else parse_atom parse_or

  -- the three levels, with fuel for the depth of the parentheses
  unfoldable pub parse_or_expression : ℕ → Parser FilterResult
  parse_or_expression zero p = exhausted
  parse_or_expression (suc depth) p =
      parse_chain "or" " OR " (parse_chain "and" " AND " (parse_not (parse_or_expression depth))) p

  -- `parseEntityFilter` behind the empty filter
  unfoldable pub finish : Outcome FilterResult → Option (Result FilterResult)
  finish exhausted = none
  finish refused = some (bad_request "invalidFilter")
  finish (parsed result p) = elim p.tokens [
    | [] ↦ some (ok result)
    | _ ∷ _ ↦ some (bad_request "invalidFilter")
  ]

  -- `parseEntityFilter`: `none` is a parser without fuel, and no filter is `ok none`
  unfoldable pub parse_entity_filter : Text → ℕ → Option (Result (Option FilterResult))
  parse_entity_filter filter start_param =
      let tokens = tokenize x filter in
      let run = finish (
        parse_or_expression (length tokens + 1)
          (record { tokens = tokens; param_idx = start_param })) in
      if is_empty filter
      then some (ok none)
      else elim run [ none ↦ none | some (ok r) ↦ some (ok (some r)) | some (err e) ↦ some (err e) ]

module _ (x : External) (times : Times) where
  unfoldable pub parse_user_filter : Text → ℕ → Option (Result (Option FilterResult))
  parse_user_filter =
      parse_entity_filter x times (record { entity_type = user; cross_resource = false })

  unfoldable pub parse_user_filter_for_root : Text → ℕ → Option (Result (Option FilterResult))
  parse_user_filter_for_root =
      parse_entity_filter x times (record { entity_type = user; cross_resource = true })

  unfoldable pub parse_group_filter : Text → ℕ → Option (Result (Option FilterResult))
  parse_group_filter =
      parse_entity_filter x times (record { entity_type = group; cross_resource = false })

  unfoldable pub parse_group_filter_for_root : Text → ℕ → Option (Result (Option FilterResult))
  parse_group_filter_for_root =
      parse_entity_filter x times (record { entity_type = group; cross_resource = true })
