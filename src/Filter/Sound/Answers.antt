-- ===== src/Filter/Sound/Answers.antt =====
-- internal/scim/filter.go: every answer of the entry points.
use scim_server_impl_go.Base.{
  ◌≡◌, ℕ, ◌+◌, false, true, Option, none, some, List, [], ◌∷◌, if-cases, arith, length, Result, ok,
  err, bad_request,
}
use scim_server_impl_go.Text.{Text, is_empty}
use scim_server_impl_go.External.{External}
use scim_server_impl_go.Filter.{
  FilterResult, FilterParser, Outcome, parsed, refused, exhausted, Target, Token,
}
use scim_server_impl_go.Filter.Tokens.{tokenize}
use scim_server_impl_go.Filter.Comparison.{Times}
use scim_server_impl_go.Filter.Parser.{finish, parse_entity_filter}
use scim_server_impl_go.Filter.Sound.{Numbered, Ensures, ensured, refusal}
use scim_server_impl_go.Filter.Sound.Reads.{at}
use scim_server_impl_go.Filter.Sound.Descent.{Consumes, parse_or_expression-Descends}

-- An answer to a filter: none if it is empty, and else SQL in which no text of the request stands and
-- whose placeholders are `n`, `n + 1`, …, one for each argument, or the error 400 `invalidFilter`.
pub data IsSafe (filter : Text) (n : ℕ) : Option (Result (Option FilterResult)) → Type 0 where
  accepted :
      (r : FilterResult)
      → is_empty filter ≡ false
      → Numbered n (n + length r.args) r.sql
      → IsSafe filter n (some (ok (some r)))
  rejected : is_empty filter ≡ false → IsSafe filter n (some (bad_request "invalidFilter"))
  no_filter : is_empty filter ≡ true → IsSafe filter n (some (ok none))

-- the last step of `parseEntityFilter`, from what the parser gave
abbrev answer : Option (Result FilterResult) → Option (Result (Option FilterResult))
answer o = elim o [ none ↦ none | some (ok r) ↦ some (ok (some r)) | some (err e) ↦ some (err e) ]

module _ (filter : Text) (given : is_empty filter ≡ false) where
  finish-IsSafe :
      (x : External) (times : Times) (t : Target) (p : FilterParser) (m : Outcome FilterResult)
      → Ensures (Consumes p) m
      → IsSafe filter p.param_idx (answer (finish x times t m))
  unfolding finish
  finish-IsSafe x times t p exhausted h = elim h [ ]
  finish-IsSafe x times t p refused refusal = rejected given
  finish-IsSafe x times t p (parsed r q) (ensured c) = go q.tokens
    where
      go :
          (rest : List Token)
          → IsSafe filter p.param_idx
              (answer (elim rest [ [] ↦ some (ok r) | _ ∷ _ ↦ some (bad_request "invalidFilter") ]))
      go [] = accepted r given (rw c.0.1 c.0.0)
      go (_ ∷ _) = rejected given

-- For every filter, target and first placeholder number, `parseEntityFilter` ends with an answer: no
-- filter exactly where the filter is empty, else the error 400 `invalidFilter` or a SQL condition that
-- holds no text of the request and whose placeholders are the numbers from the first one on, in this
-- order, one for each argument.
pub parse_entity_filter-IsSafe :
    (x : External) (times : Times) (t : Target) (filter : Text) (start_param : ℕ)
    → IsSafe filter start_param (parse_entity_filter x times t filter start_param)
unfolding parse_entity_filter
parse_entity_filter-IsSafe x times t filter start_param =
    let tokens = tokenize x filter in
    if-cases (IsSafe filter start_param) (is_empty filter) no_filter (λ given.
      finish-IsSafe filter given x times t (at tokens start_param) _ (
        parse_or_expression-Descends x times t (length tokens + 1) (at tokens start_param)
          (omega arith)))
