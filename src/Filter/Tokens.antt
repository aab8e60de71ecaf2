-- ===== src/Filter/Tokens.antt =====
-- internal/scim/filter.go: `tokenize`.
use scim_server_impl_go.Base.{
  ℕ, zero, suc, ◌-◌, Bool, false, not, ◌&&◌, ◌||◌, Option, none, some, List, [], ◌∷◌, leb, ◌==◌,
  if◌then◌else◌, length,
}
use scim_server_impl_go.Text.{Text, is_empty}
use scim_server_impl_go.External.{External}
use scim_server_impl_go.Canonicalize.{normalize_nfc}
use scim_server_impl_go.Filter.{Token, token_word, token_string, token_lparen, token_rparen}

-- the class `\s` of a regular expression
unfoldable pub is_blank : ℕ → Bool
is_blank c = c == b' ' || leb 9 c && leb c 10 || leb 12 c && leb c 13

-- what `(?:[^"\\]|\\.)*"` matches, where `escaped` says that a backslash stands in front
unfoldable pub string_tail : Bool → Text → Option Text
string_tail escaped [] = none
string_tail escaped (c ∷ s) =
    let rest = string_tail (not escaped && c == 92) s in
    let longer : Option Text = elim rest [ none ↦ none | some r ↦ some (c ∷ r) ] in
    if escaped
    then (if c == 10 then none else longer)
    else if c == b'"'
    then some (c ∷ [])
    else longer

-- what `[^\s()]+` matches, or nothing
unfoldable pub word_run : Text → Text
word_run [] = []
word_run (c ∷ s) =
    let rest = word_run s in if is_blank c || c == b'(' || c == b')' then [] else c ∷ rest

-- what `tokenRegex` matches at the start of a text; empty where it does not match
unfoldable pub token_at : Text → Text
token_at [] = []
token_at (c ∷ s) = elim (if c == b'"' then string_tail false s else none) [
  | some r ↦ c ∷ r
  | none ↦ if c == b'(' || c == b')' then c ∷ [] else word_run (c ∷ s)
]

-- `tokenRegex.FindAllString`; the number is what is left of the last match
unfoldable pub find_tokens : ℕ → Text → List Text
find_tokens skip [] = []
find_tokens (suc skip) (c ∷ s) = find_tokens skip s
find_tokens zero (c ∷ s) =
    let m = token_at (c ∷ s) in
    let rest = find_tokens (length m - 1) s in if is_empty m then rest else m ∷ rest

-- `m[:len(m)-1]` if the last byte is `"`
unfoldable pub before_quote : Text → Option Text
before_quote [] = none
before_quote (c ∷ []) = if c == b'"' then some [] else none
before_quote (c ∷ d ∷ s) = elim (before_quote (d ∷ s)) [ none ↦ none | some r ↦ some (c ∷ r) ]

-- `m[1 : len(m)-1]` if `m` has two quotes or more, at its ends
unfoldable pub quoted_body : Text → Option Text
quoted_body [] = none
quoted_body (c ∷ s) = if c == b'"' then before_quote s else none

-- `m == "("`
abbrev pub is_only : ℕ → Text → Bool
is_only b [] = false
is_only b (c ∷ []) = c == b
is_only b (c ∷ _ ∷ _) = false

module _ (x : External) where
  unfoldable pub to_token : Text → Token
  to_token m =
      if is_only b'(' m
      then record { typ = token_lparen; val = m }
      else if is_only b')' m
      then record { typ = token_rparen; val = m }
      else elim (quoted_body m) [
        | some body ↦ record { typ = token_string; val = normalize_nfc x body }
        | none ↦ record { typ = token_word; val = m }
      ]

  unfoldable pub to_tokens : List Text → List Token
  to_tokens [] = []
  to_tokens (m ∷ more) = to_token m ∷ to_tokens more

  unfoldable pub tokenize : Text → List Token
  tokenize filter = to_tokens (find_tokens 0 (normalize_nfc x filter))
