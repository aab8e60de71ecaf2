-- ===== src/Canonicalize.antt =====
-- internal/scim/canonicalize.go, internal/scim/password.go and `ExtractUUIDFromRef` of mapper.go.

use scim_server_impl_go.Base.{
  ℕ, zero, suc, ◌+◌, Bool, true, false, not, ◌&&◌, ◌||◌, Option, none, some, List, [], ◌∷◌, ◌++◌,
  ltb, leb, ◌==◌, if◌then◌else◌, any, all, length, Result, ok, bad_request, ◌>>=◌,
}
use scim_server_impl_go.Text.{
  Text, text, is_empty, lower_rune, to_lower, is_space, trim_left, trim_right, trim_space,
  has_prefix, contains_byte, byte_len, drop_bytes,
}
use scim_server_impl_go.Value.{null, bool, Fields, find}
use scim_server_impl_go.External.{External, RawValue}

-- `strings.LastIndexByte`, as the text before the last such byte and the text after it
unfoldable pub split_last : ℕ → Text → Option (Text × Text)
split_last sep [] = none
split_last sep (c ∷ s) = elim (split_last sep s) [
  | some (a, b) ↦ some (c ∷ a, b)
  | none ↦ if c == sep then some ([], s) else none
]

-- the class `[\s.()-]` of a regular expression
is_sep : ℕ → Bool
is_sep c =
    c == b' '
    || leb 9 c && leb c 10
    || leb 12 c && leb c 13
    || c == b'.'
    || c == b'('
    || c == b')'
    || c == b'-'

-- `sepRunRegex.ReplaceAllString(s, "-")`; the flag is set behind a separator
collapse : Bool → Text → Text
collapse in_run [] = []
collapse in_run (c ∷ s) =
    let rest = collapse (is_sep c) s in
    if is_sep c then (if in_run then rest else b'-' ∷ rest) else c ∷ rest

-- `strings.ReplaceAll(s, string(b), "")`
remove_byte : ℕ → Text → Text
remove_byte b [] = []
remove_byte b (c ∷ s) = let rest = remove_byte b s in if c == b then rest else c ∷ rest

-- `strings.ReplaceAll(s, "+-", "+")`
join_plus : Text → Text
join_plus [] = []
join_plus (c ∷ []) = c ∷ []
join_plus (c ∷ d ∷ s) =
    let rest = join_plus s in
    let kept = join_plus (d ∷ s) in if c == b'+' && d == b'-' then b'+' ∷ rest else c ∷ kept

-- the lines that the `tel:` branch and the `+` branch share
tel_body : Text → Text
unfolding collapse is_sep remove_byte join_plus trim_left trim_right
tel_body s =
    let dashed = join_plus (collapse false (remove_byte b')' (remove_byte b'(' s))) in
    trim_right (λ c. c == b'-') (trim_left (λ c. c == b'-') dashed)

is_digit : ℕ → Bool
is_digit c = leb b'0' c && leb c b'9'

-- `compactE164Regex`: `^\+[1-9][0-9]{1,14}$`
is_compact_e164 : Text → Bool
unfolding is_digit
is_compact_e164 (p ∷ d ∷ ds) =
    p == b'+'
    && leb b'1' d
    && leb d b'9'
    && all is_digit ds
    && leb 1 (length ds)
    && leb (length ds) 14
is_compact_e164 _ = false

-- the loop of `CanonicalizeIM`
strip : Text → Text
strip [] = []
strip (r ∷ s) = let rest = strip s in if is_space r then rest else lower_rune r ∷ rest

-- `strings.Contains`
unfoldable pub contains : Text → Text → Bool
unfolding has_prefix
contains [] sub = is_empty sub
contains (c ∷ s) sub = has_prefix (c ∷ s) sub || contains s sub

-- `strings.IndexAny(s, "?#")`: the text before it
cut_query : Text → Text
cut_query [] = []
cut_query (c ∷ s) = let rest = cut_query s in if c == b'?' || c == b'#' then [] else c ∷ rest

-- `strings.Index(s, "://")`: the text behind it
after_scheme : Text → Option Text
unfolding has_prefix text
after_scheme [] = none
after_scheme (c ∷ s) =
    let rest = after_scheme s in
    if has_prefix (c ∷ s) (text "://") then some (drop_bytes 3 (c ∷ s)) else rest

-- `strings.IndexByte(rest, '/')`: the text from it on
from_slash : Text → Option Text
from_slash [] = none
from_slash (c ∷ s) = let rest = from_slash s in if c == b'/' then some (c ∷ s) else rest

-- `rawValue.Class == asn1.ClassUniversal && rawValue.Tag == tag`
abbrev is_universal : RawValue → ℕ → Bool
is_universal v tag = v.class == 0 && v.tag == tag

module _ (x : External) where
  unfoldable pub normalize_nfc : Text → Text
  normalize_nfc s = if is_empty s then s else x.nfc s

  unfoldable pub canonicalize_email : Text → Text
  unfolding normalize_nfc split_last to_lower trim_space
  canonicalize_email raw =
      let s = normalize_nfc (trim_space raw) in
      elim (split_last b'@' s) [
        | none ↦ s
        | some (local, domain) ↦
            if not (is_empty local) && not (is_empty domain)
            then local ++ b'@' ∷ to_lower domain
            else s
      ]

  unfoldable pub canonicalize_phone_number : Text → Text
  unfolding normalize_nfc tel_body is_compact_e164 to_lower trim_space has_prefix drop_bytes text
  canonicalize_phone_number raw =
      let s = trim_space raw in
      if is_empty s
      then []
      else if has_prefix (to_lower s) (text "tel:")
      then text "tel:" ++ tel_body (trim_space (drop_bytes 4 s))
      else if is_compact_e164 s
      then s
      else if has_prefix s (text "+")
      then text "tel:" ++ tel_body s
      else normalize_nfc s

  unfoldable pub canonicalize_im : Text → Text
  unfolding normalize_nfc strip is_space lower_rune
  canonicalize_im raw = strip (normalize_nfc raw)

  -- `isDERCertificateStructure`
  is_der_certificate_structure : List ℕ → Bool
  is_der_certificate_structure b =
      if is_empty b
      then false
      else if x.parses_certificate b
      then true
      else elim (x.asn1_unmarshal b) [
        | none ↦ false
        | some (outer, rest) ↦
            if not (is_empty rest) || not (is_universal outer 16) || not outer.is_compound
            then false
            else elim (x.asn1_unmarshal outer.bytes) [
              | none ↦ false
              | some (tbs, rem1) ↦
                  if is_empty rem1 || not (is_universal tbs 16) || not tbs.is_compound
                  then false
                  else elim (x.asn1_unmarshal rem1) [
                    | none ↦ false
                    | some (sig_alg, rem2) ↦
                        if is_empty rem2 || not (is_universal sig_alg 16) || not sig_alg.is_compound
                        then false
                        else elim (x.asn1_unmarshal rem2) [
                          | none ↦ false
                          | some (sig_val, rem3) ↦ is_empty rem3 && is_universal sig_val 3
                        ]
                  ]
            ]
      ]

  -- The loop `for len(inner) > 0`: the number of certificates, 0 after a `break`. The fuel is the
  -- number of bytes, since `asn1.Unmarshal` takes at least one.
  count_certificates : ℕ → List ℕ → ℕ → ℕ
  count_certificates fuel [] n = n
  count_certificates zero (_ ∷ _) n = n
  count_certificates (suc fuel) (b ∷ bs) n = elim (x.asn1_unmarshal (b ∷ bs)) [
    | none ↦ 0
    | some (elem, next_rest) ↦ elim (is_der_certificate_structure elem.full_bytes) [
      | false ↦ 0
      | true ↦ count_certificates fuel next_rest (n + 1)
    ]
  ]

  starts_0x30 : List ℕ → Bool
  starts_0x30 [] = false
  starts_0x30 (b ∷ bs) = b == 0x30

  -- the checks inside of `if der[0] == 0x30`; `true` is a refusal
  holds_several : List ℕ → Bool
  unfolding is_der_certificate_structure count_certificates starts_0x30
  holds_several der = elim (x.asn1_unmarshal der) [
    | none ↦ false
    | some (first, rest) ↦
        if not (is_empty rest)
        then is_der_certificate_structure first.full_bytes
        else if not (is_der_certificate_structure der) && starts_0x30 first.bytes
        then ltb 1 (count_certificates (length first.bytes) first.bytes 0)
        else false
  ]

  unfoldable pub validate_x509_certificate_value : Text → Result (Unit {0})
  unfolding holds_several starts_0x30 contains contains_byte text
  validate_x509_certificate_value val =
      if is_empty val
      then bad_request "invalidValue"
      else if any (λ c. c == b' ' || c == 9 || c == 13 || c == 10) val
          || contains val (text "-----")
      then bad_request "invalidValue"
      else elim (x.base64_strict val) [
        | none ↦ bad_request "invalidValue"
        | some der ↦
            if is_empty der
            then bad_request "invalidValue"
            else if starts_0x30 der && holds_several der
            then bad_request "invalidValue"
            else ok tt
      ]

  -- `HashPassword`
  unfoldable pub hash_password : Option Text → Result (Option Text)
  unfolding byte_len
  hash_password none = ok none
  hash_password (some val) =
      if is_empty val
      then ok (some val)
      else if ltb 72 (byte_len val)
      then bad_request "invalidValue"
      else elim (x.bcrypt_generate val) [ none ↦ bad_request "invalidValue" | some h ↦ ok (some h) ]

  -- the part of `ExtractUUIDFromRef` behind the scheme
  extract_from_path : Text → Text
  unfolding split_last trim_right
  extract_from_path s = elim (split_last b'/' (trim_right (λ c. c == b'/') s)) [
    | none ↦ []
    | some (_, candidate) ↦
        if is_empty candidate
        then []
        else elim (x.uuid_parse candidate) [ none ↦ [] | some parsed ↦ parsed ]
  ]

  unfoldable pub extract_uuid_from_ref : Text → Text
  unfolding extract_from_path cut_query after_scheme from_slash trim_space
  extract_uuid_from_ref ref =
      let s = cut_query (trim_space ref) in
      if is_empty (trim_space ref) then [] else elim (after_scheme s) [
        | none ↦ extract_from_path s
        | some rest ↦ elim (from_slash rest) [ none ↦ [] | some path ↦ extract_from_path path ]
      ]

-- the loop of `ValidateSinglePrimary`, with its counter
count_primary : ℕ → List Fields → Result ℕ
unfolding find
count_primary n [] = ok n
count_primary n (m ∷ items) = elim (find "primary" m) [
  | none ↦ count_primary n items
  | some null ↦ count_primary n items
  | some (bool b) ↦ count_primary (if b then n + 1 else n) items
  | some _ ↦ bad_request "invalidValue"
]

unfoldable pub validate_single_primary : List Fields → Result (Unit {0})
unfolding count_primary
validate_single_primary items =
    count_primary 0 items >>= λ n. if ltb 1 n then bad_request "invalidValue" else ok tt
