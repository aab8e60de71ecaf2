-- ===== src/Patch/Filter.antt =====
-- internal/scim/patch.go: the two regular expressions of a filtered path, by the leftmost match
-- that Go's `regexp` makes, and the tests of an element against a filter.
use scim_server_impl_go.Base.{
  ℕ, Bool, false, not, ◌&&◌, ◌||◌, Option, none, some, List, [], ◌∷◌, leb, ◌==◌, if◌then◌else◌, all,
}
use scim_server_impl_go.Text.{Text, text, is_empty, to_lower, equal_fold, trim_left, switch}
use scim_server_impl_go.Model.{Item, Address}
use scim_server_impl_go.External.{External}
use scim_server_impl_go.Canonicalize.{normalize_nfc}

-- the class `\w`
unfoldable pub is_word : ℕ → Bool
is_word c =
    leb b'0' c && leb c b'9' || leb b'A' c && leb c b'Z' || c == b'_' || leb b'a' c && leb c b'z'

-- `\w` under `(?i)`, which also holds the two letters that fold to ASCII
unfoldable pub is_word_fold : ℕ → Bool
is_word_fold c = is_word c || c == 0x17f || c == 0x212a

-- the class `\s`
unfoldable pub is_blank : ℕ → Bool
is_blank c = c == b' ' || leb 9 c && leb c 10 || leb 12 c && leb c 13

-- the longest prefix in a class, and what is behind it
unfoldable pub span : (ℕ → Bool) → Text → Text × Text
span p [] = ([], [])
span p (c ∷ s) = let (a, b) = span p s in if p c then (c ∷ a, b) else ([], c ∷ s)

-- `(?:\.(\w+))?$`: the group, empty where the dot is missing
unfoldable pub close_group : Text → Option Text
close_group [] = some []
close_group (c ∷ s) = if c == b'.' && not (is_empty s) && all is_word s then some s else none

-- `.*\](?:\.(\w+))?$`, where `.*` takes as much as it can
unfoldable pub bracket_body : Text → Option (Text × Text)
bracket_body [] = none
bracket_body (c ∷ s) =
    let here =
      (if c == b']'
        then elim (close_group s) [ none ↦ none | some sub ↦ some ([], sub) ]
        else none) in
    if c == 10
    then here
    else elim (bracket_body s) [ some (body, sub) ↦ some (c ∷ body, sub) | none ↦ here ]

pub record FilteredPath : Type 0 where
  pub collection : Text
  pub filter_expr : Text
  pub sub_attr : Text

-- the rest of the expression behind `^(\w+)`: `\[(.+)\](?:\.(\w+))?$`
unfoldable pub filtered_tail : Text → Text → Option FilteredPath
filtered_tail collection (b ∷ c ∷ s) =
    if b == b'[' && not (c == 10)
    then elim (bracket_body s) [
      | none ↦ none
      | some (body, sub) ↦
          some (record { collection = collection; filter_expr = c ∷ body; sub_attr = sub })
    ]
    else none
filtered_tail collection _ = none

-- `filteredPathRegex.FindStringSubmatch`: `^(\w+)\[(.+)\](?:\.(\w+))?$`
unfoldable pub match_filtered_path : Text → Option FilteredPath
match_filtered_path path =
    let (word, rest) = span is_word path in if is_empty word then none else filtered_tail word rest

pub record FilterClause : Type 0 where
  pub attr : Text
  pub value : Text

unfoldable pub starts_blank : Text → Bool
starts_blank [] = false
starts_blank (c ∷ s) = is_blank c

-- `"([^"]*)"`: the group
unfoldable pub quoted : Text → Option Text
quoted [] = none
quoted (c ∷ s) =
    let (body, rest) = span (λ d. not (d == b'"')) s in
    if c == b'"' && not (is_empty rest) then some body else none

-- `eq\s+"([^"]*)"`: the group
unfoldable pub eq_word : Text → Option Text
eq_word (e ∷ q ∷ s) =
    if (e == b'e' || e == b'E') && (q == b'q' || q == b'Q') && starts_blank s
    then quoted (trim_left is_blank s)
    else none
eq_word _ = none

-- `(?i)(\w+)\s+eq\s+"([^"]*)"` at the start of a text
unfoldable pub eq_clause : Text → Option FilterClause
eq_clause s =
    let (word, rest) = span is_word_fold s in
    if is_empty word || not (starts_blank rest)
    then none
    else elim (eq_word (trim_left is_blank rest)) [
      | none ↦ none
      | some v ↦ some (record { attr = word; value = v })
    ]

-- the leftmost match
unfoldable pub find_clause : Text → Option FilterClause
find_clause [] = none
find_clause (c ∷ s) =
    let later = find_clause s in elim (eq_clause (c ∷ s)) [ some fc ↦ some fc | none ↦ later ]

-- `fmt.Sprintf("%v", b)`
unfoldable pub format_bool : Bool → Text
format_bool b = if b then text "true" else text "false"

module _ (x : External) where
  unfoldable pub parse_eq_filter : Text → Option FilterClause
  parse_eq_filter expr = elim (find_clause expr) [
    | none ↦ none
    | some m ↦ some (record { attr = to_lower m.attr; value = normalize_nfc x m.value })
  ]

  unfoldable pub generic_clause : Item → FilterClause → Bool
  generic_clause i fc =
      switch fc.attr
        (("value", equal_fold i.value fc.value)
          ∷ ("type", equal_fold i.typ fc.value)
          ∷ ("display", equal_fold i.display fc.value)
          ∷ ("primary", equal_fold (format_bool i.primary_flag) fc.value)
          ∷ [])
        false

  -- `matchesGenericFilter`, and the seven functions that call it with the fields of an element
  unfoldable pub matches_generic_filter : Item → Text → Bool
  matches_generic_filter i filter = elim (parse_eq_filter filter) [
    | none ↦ false
    | some fc ↦ generic_clause i fc
  ]

  unfoldable pub address_clause : Address → FilterClause → Bool
  address_clause a fc =
      switch fc.attr
        (("type", equal_fold a.typ fc.value)
          ∷ ("formatted", equal_fold a.formatted fc.value)
          ∷ ("streetaddress", equal_fold a.street_address fc.value)
          ∷ ("locality", equal_fold a.locality fc.value)
          ∷ ("region", equal_fold a.region fc.value)
          ∷ ("postalcode", equal_fold a.postal_code fc.value)
          ∷ ("country", equal_fold a.country fc.value)
          ∷ ("primary", equal_fold (format_bool a.primary_flag) fc.value)
          ∷ [])
        false

  unfoldable pub matches_address_filter : Address → Text → Bool
  matches_address_filter a filter = elim (parse_eq_filter filter) [
    | none ↦ false
    | some fc ↦ address_clause a fc
  ]

-- `removeMatching`
unfoldable pub remove_matching {ℓ} : {A : Type ℓ} → (A → Text → Bool) → Text → List A → List A
remove_matching match_fn filter_expr [] = []
remove_matching match_fn filter_expr (a ∷ l) =
    let rest = remove_matching match_fn filter_expr l in
    if match_fn a filter_expr then rest else a ∷ rest
