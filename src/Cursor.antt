-- ===== src/Cursor.antt =====
-- internal/scim/cursor.go: the cursor tokens of a paginated list. A UUID is its canonical text, and
-- the time is in nanoseconds since 1970.
pub mod Laws
pub mod Message
use scim_server_impl_go.Base.{
  ℕ, zero, suc, ◌+◌, ◌-◌, ◌*◌, ◌/◌, ◌%◌, ◌^◌, Bool, true, false, not, ◌||◌, Option, none, some,
  List, [], ◌∷◌, ◌++◌, ltb, if◌then◌else◌, length, ℤ, pos, negsuc, is_negative, is_positive, Result,
  ok, err, bad_request,
}
use scim_server_impl_go.Text.{Text, text, is_empty, same, has_prefix}

-- the text behind as many code points as the prefix has
unfoldable pub behind : Text → Text → Text
behind s [] = s
behind [] (_ ∷ _) = []
behind (_ ∷ s) (_ ∷ p) = behind s p

-- `strings.TrimPrefix`
unfoldable pub trim_prefix : Text → Text → Text
trim_prefix s p = if has_prefix s p then behind s p else s

-- `CursorPayload`
pub record CursorPayload : Type 0 where
  pub workspace_id : Text
  pub offset : Option ℤ
  pub expires_at : Option ℤ
  pub page_size : ℤ
  pub sig : Text

-- The packages that the code calls: crypto/hmac and crypto/sha256 with the secret key of the process,
-- encoding/base64, encoding/json for the payload, and github.com/google/uuid.
pub record Packages : Type 0 where
  -- the first 16 bytes of the HMAC, in base64
  pub mac : Text → Text
  -- `base64.RawURLEncoding.EncodeToString`, and `Strict().DecodeString` if it gives no error
  pub base64_encode : Text → Text
  pub base64_decode : Text → Option Text
  -- `json.Marshal`, which does not fail on this type, and `json.Unmarshal` if it gives no error
  pub marshal : CursorPayload → Text
  pub unmarshal : Text → Option CursorPayload
  -- `uuid.Parse`, as the canonical text of the result
  pub uuid_parse : Text → Option Text

-- `%d`: the decimal digits, with fuel. A number has fewer digits than its value plus one.
unfoldable pub digits : ℕ → ℕ → Text
digits zero n = (b'0' + n % 10) ∷ []
digits (suc fuel) n =
    let front = digits fuel (n / 10) in
    if ltb n 10 then (b'0' + n) ∷ [] else front ++ (b'0' + n % 10) ∷ []

unfoldable pub decimal : ℤ → Text
decimal (pos n) = digits n n
decimal (negsuc n) = b'-' ∷ digits (suc n) (suc n)

-- the text that is signed
unfoldable pub cursor_message : Text → ℤ → ℤ → ℤ → Text
cursor_message ws offset exp page_size =
    let claims = ws ++ b'|' ∷ (decimal offset ++ b'|' ∷ decimal exp) in
    if is_positive page_size then claims ++ b'|' ∷ decimal page_size else claims

abbrev pub second : ℕ
second = 1000000000

-- an `int64` from the value of a product, which wraps around
unfoldable pub as_int64 : ℕ → ℤ
as_int64 n = let m = n % 2 ^ 64 in if ltb m (2 ^ 63) then pos m else negsuc (2 ^ 64 - m - 1)

-- `now.Add(d).Unix()`
unfoldable pub unix_after : ℕ → ℤ → ℤ
unix_after now (pos d) = pos ((now + d) / second)
unix_after now (negsuc d) =
    if ltb d now then pos ((now - d - 1) / second) else negsuc ((d - now) / second)

-- `exp`
unfoldable pub expiry : ℕ → ℤ → ℤ
expiry now (pos zero) = unix_after now (as_int64 (3600 * second))
expiry now (pos (suc t)) = unix_after now (as_int64 (suc t * second))
expiry now (negsuc t) = unix_after now (as_int64 (3600 * second))

-- `if pageSize < 0 { pageSize = 0 }`
abbrev pub clip : ℤ → ℤ
clip (pos n) = pos n
clip (negsuc n) = pos 0

-- `a <= b`, where `b` is a time
abbrev pub is_passed : ℤ → ℕ → Bool
is_passed (pos e) now = not (ltb (now / second) e)
is_passed (negsuc e) now = true

module _ (x : Packages) where
  unfoldable pub compute_cursor_hmac : Text → ℤ → ℤ → ℤ → Text
  compute_cursor_hmac ws offset exp page_size = x.mac (cursor_message ws offset exp page_size)

  unfoldable pub cursor_payload : ℕ → Text → ℤ → ℤ → ℤ → CursorPayload
  cursor_payload now ws offset page_size timeout = record {
    workspace_id = ws;
    offset = some offset;
    expires_at = some (expiry now timeout);
    page_size = clip page_size;
    sig = compute_cursor_hmac ws offset (expiry now timeout) (clip page_size);
  }

  unfoldable pub encode_cursor_with_page_size : ℕ → Text → ℤ → ℤ → ℤ → Result Text
  encode_cursor_with_page_size now ws offset page_size timeout =
      if is_negative offset
      then bad_request "invalidCursor"
      else ok (
          text "scim_cur_"
          ++ x.base64_encode (x.marshal (cursor_payload now ws offset page_size timeout)))

  unfoldable pub encode_cursor : ℕ → Text → ℤ → ℤ → Result Text
  encode_cursor now ws offset timeout = encode_cursor_with_page_size now ws offset (pos 0) timeout

  -- the checks of the payload, in their order
  unfoldable pub check_payload : ℕ → Text → CursorPayload → Result (ℤ × ℤ)
  check_payload now ws p = elim (x.uuid_parse p.workspace_id) [
    | none ↦ bad_request "invalidCursor"
    | some cursor_ws ↦
        if not (same cursor_ws ws) then bad_request "invalidCursor" else elim p.offset [
          | none ↦ bad_request "invalidCursor"
          | some offset ↦ elim p.expires_at [
            | none ↦ bad_request "invalidCursor"
            | some exp ↦
                if is_negative offset
                then bad_request "invalidCursor"
                else if is_passed exp now
                then bad_request "invalidCursor"
                else if is_empty p.sig
                    || not (same p.sig (compute_cursor_hmac p.workspace_id offset exp p.page_size))
                then bad_request "invalidCursor"
                else ok (offset, p.page_size)
          ]
        ]
  ]

  unfoldable pub decode_cursor_with_page_size : ℕ → Text → Text → Result (ℤ × ℤ)
  decode_cursor_with_page_size now token ws =
      if is_empty token
      then ok (pos 0, pos 0)
      else if not (has_prefix token (text "scim_cur_"))
      then bad_request "invalidCursor"
      else elim (x.base64_decode (trim_prefix token (text "scim_cur_"))) [
        | none ↦ bad_request "invalidCursor"
        | some payload ↦ elim (x.unmarshal payload) [
          | none ↦ bad_request "invalidCursor"
          | some p ↦ check_payload now ws p
        ]
      ]
