-- ===== src/Patch/Strict.antt =====
-- internal/scim/patch.go: the helpers that read one attribute value.
use scim_server_impl_go.Base.{
  ℕ, String, Bool, false, ◌&&◌, ◌||◌, Option, none, some, List, [], ◌∷◌, leb, ◌==◌, if◌then◌else◌,
  any, Result, ok, bad_request, ◌>>=◌, Option,
}
use scim_server_impl_go.Text.{Text, text, is_empty, same, to_upper, equal_fold, trim_space}
use scim_server_impl_go.Value.{Value, null, bool, str, arr, obj, Items, nil, cons, Fields}
use scim_server_impl_go.External.{External}
use scim_server_impl_go.Canonicalize.{normalize_nfc}

unfoldable pub parse_strict_bool : Value → Result Bool
parse_strict_bool (bool b) = ok b
parse_strict_bool _ = bad_request "invalidValue"

unfoldable pub parse_strict_optional_bool : Value → Result Bool
parse_strict_optional_bool null = ok false
parse_strict_optional_bool v = parse_strict_bool v

unfoldable pub parse_raw_string_ptr : Value → Result (Option Text)
parse_raw_string_ptr null = ok none
parse_raw_string_ptr (str s) = ok (some s)
parse_raw_string_ptr _ = bad_request "invalidValue"

-- the loop of `toItemList` over `[]any`
unfoldable pub item_objects : Items → Result (List Fields)
item_objects nil = ok []
item_objects (cons (obj fs) vs) = item_objects vs >>= λ rest. ok (fs ∷ rest)
item_objects (cons _ vs) = bad_request "invalidValue"

unfoldable pub to_item_list : Value → Result (List Fields)
to_item_list (arr vs) = item_objects vs
to_item_list (obj fs) = ok (fs ∷ [])
to_item_list _ = bad_request "invalidValue"

-- the loop over the keys of `validTypes`, of which at most one is equal under case folding
unfoldable pub canonical_key : Text → List String → Text
canonical_key val [] = val
canonical_key val (k ∷ ks) = if equal_fold val (text k) then text k else canonical_key val ks

unfoldable pub normalize_canonical : Text → List String → Text
normalize_canonical val valid_types = if is_empty val then val else canonical_key val valid_types

abbrev pub iso_alpha3 : List (String × String)
iso_alpha3 =
    ("USA", "US")
    ∷ ("GBR", "GB")
    ∷ ("DEU", "DE")
    ∷ ("FRA", "FR")
    ∷ ("CAN", "CA")
    ∷ ("AUS", "AU")
    ∷ ("JPN", "JP")
    ∷ ("SWE", "SE")
    ∷ ("CHE", "CH")
    ∷ ("AUT", "AT")
    ∷ ("ITA", "IT")
    ∷ ("ESP", "ES")
    ∷ ("NLD", "NL")
    ∷ ("BEL", "BE")
    ∷ ("DNK", "DK")
    ∷ ("NOR", "NO")
    ∷ ("FIN", "FI")
    ∷ ("POL", "PL")
    ∷ ("IRL", "IE")
    ∷ ("PRT", "PT")
    ∷ ("BRA", "BR")
    ∷ ("MEX", "MX")
    ∷ ("IND", "IN")
    ∷ ("CHN", "CN")
    ∷ ("KOR", "KR")
    ∷ ("SGP", "SG")
    ∷ ("NZL", "NZ")
    ∷ []

unfoldable pub alpha2_of : List (String × String) → Text → Text
alpha2_of [] c = []
alpha2_of ((a3, a2) ∷ rows) c = if same c (text a3) then text a2 else alpha2_of rows c

abbrev pub is_upper : ℕ → Bool
is_upper c = leb b'A' c && leb c b'Z'

-- `len(c) == 2` and both bytes in A to Z
unfoldable pub is_alpha2 : Text → Bool
is_alpha2 (a ∷ b ∷ []) = is_upper a && is_upper b
is_alpha2 _ = false

unfoldable pub normalize_country : Text → Text
normalize_country raw =
    let c = to_upper (trim_space raw) in
    if is_empty c then [] else if is_alpha2 c then c else alpha2_of iso_alpha3 c

module _ (x : External) where
  unfoldable pub parse_strict_string_ptr : Value → Result (Option Text)
  parse_strict_string_ptr null = ok none
  parse_strict_string_ptr (str s) = ok (some (normalize_nfc x s))
  parse_strict_string_ptr _ = bad_request "invalidValue"

  unfoldable pub parse_strict_string : Value → Result Text
  parse_strict_string null = ok []
  parse_strict_string (str s) = ok (normalize_nfc x s)
  parse_strict_string _ = bad_request "invalidValue"

  unfoldable pub validate_reference : Text → Result (Unit {0})
  validate_reference val =
      if is_empty val
      then ok tt
      else if any (λ c. c == b' ' || c == 9 || c == 13 || c == 10) val
      then bad_request "invalidValue"
      else if x.url_parses val
      then ok tt
      else bad_request "invalidValue"
