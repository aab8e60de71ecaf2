-- ===== src/Cursor/Laws.antt =====
-- internal/scim/cursor.go: what a token is worth that the server has issued.
use scim_server_impl_go.Base.{
  ℕ, zero, suc, ◌+◌, ◌*◌, ◌/◌, ◌%◌, ◌^◌, ◌≤◌, ◌<◌, true, false, not, ◌&&◌, some, [], ◌∷◌, ◌++◌, ◌≡◌,
  refl, ap, ◌∙◌, inl, inr, if◌then◌else◌, Bool-cases, arith, ℤ, pos, ok, bad_request, ltb,
}
use scim_server_impl_go.Text.{Text, text, is_empty, same, has_prefix}
use scim_server_impl_go.Text.Laws.{same_self}
use scim_server_impl_go.Cursor.{
  Packages, CursorPayload, behind, trim_prefix, clip, is_passed, second, as_int64, unix_after,
  expiry, cursor_message, cursor_payload, compute_cursor_hmac, encode_cursor_with_page_size,
  check_payload, decode_cursor_with_page_size,
}

-- What the code relies on: decoding undoes encoding, a MAC has characters.
pub record Reliable (x : Packages) : Type 0 where
  pub base64 : (b : Text) → x.base64_decode (x.base64_encode b) ≡ some b
  pub json : (p : CursorPayload) → x.unmarshal (x.marshal p) ≡ some p
  pub mac_text : (m : Text) → is_empty (x.mac m) ≡ false

has_prefix-append : (p s : Text) → has_prefix (p ++ s) p ≡ true
unfolding has_prefix
has_prefix-append [] s = refl
has_prefix-append (c ∷ p) s = rw (has_prefix-append p s) (grind arith)

behind-append : (p s : Text) → behind (p ++ s) p ≡ s
unfolding behind
behind-append [] s = refl
behind-append (c ∷ p) s = behind-append p s

trim_prefix-append : (p s : Text) → trim_prefix (p ++ s) p ≡ s
unfolding trim_prefix
trim_prefix-append p s = rw (has_prefix-append p s) (behind-append p s)

module _ (x : Packages) (reliable : Reliable x) where
  -- the checks of the payload of an issued token
  check_payload-issued :
      (now later : ℕ) (ws ws' : Text) (o : ℕ) (page_size timeout : ℤ)
      → x.uuid_parse ws ≡ some ws
      → check_payload x later ws' (cursor_payload x now ws (pos o) page_size timeout) ≡ (
          if same ws ws' && not (is_passed (expiry now timeout) later)
          then ok (pos o, clip page_size)
          else bad_request "invalidCursor")
  unfolding check_payload cursor_payload compute_cursor_hmac
  check_payload-issued now later ws ws' o page_size timeout uuid =
      let message = cursor_message ws (pos o) (expiry now timeout) (clip page_size) in
      rw (uuid, check_payload)
        (elim (Bool-cases (same ws ws')) [
          | inr e ↦ rw e refl
          | inl e ↦ rw e (elim (Bool-cases (is_passed (expiry now timeout) later)) [
            | inl passed ↦ rw passed refl
            | inr valid ↦ rw (valid, reliable.mac_text message, same_self (x.mac message)) refl
          ])
        ])

  -- a token that holds a payload is worth what the payload is
  decode-payload :
      (later : ℕ) (ws' : Text) (p : CursorPayload)
      → decode_cursor_with_page_size x later (text "scim_cur_" ++ x.base64_encode (x.marshal p)) ws'
        ≡ check_payload x later ws' p
  unfolding decode_cursor_with_page_size text
  decode-payload later ws' p =
      let body = x.base64_encode (x.marshal p) in
      rw
        (
          has_prefix-append (text "scim_cur_") body,
          trim_prefix-append (text "scim_cur_") body,
          reliable.base64 (x.marshal p),
          reliable.json p,
        )
        refl

  -- With packages whose decoders undo their encoders and a MAC that is not empty, and a workspace id
  -- that `uuid.Parse` gives back:
  -- A token that is issued for a workspace and a natural offset is accepted in that workspace until its
  -- expiry, with the offset and the page size of its issue (0 for a negative one). It is refused
  -- with invalidCursor in any other workspace and from its expiry on.
  pub decode-encode :
      (now later : ℕ) (ws ws' : Text) (o : ℕ) (page_size timeout : ℤ)
      → x.uuid_parse ws ≡ some ws
      → (token : Text) × (encode_cursor_with_page_size x now ws (pos o) page_size timeout
          ≡ ok token)
        × (decode_cursor_with_page_size x later token ws' ≡ (
            if same ws ws' && not (is_passed (expiry now timeout) later)
            then ok (pos o, clip page_size)
            else bad_request "invalidCursor"))
  unfolding encode_cursor_with_page_size decode_cursor_with_page_size
  decode-encode now later ws ws' o page_size timeout uuid =
      let p = cursor_payload x now ws (pos o) page_size timeout in
      (
        text "scim_cur_" ++ x.base64_encode (x.marshal p),
        refl,
        decode-payload later ws' p ∙ check_payload-issued now later ws ws' o page_size timeout uuid,
      )

-- The expiry of a token is the time of its issue and the timeout, up to a timeout of 292 years.
pub expiry_lem : (now t : ℕ) → 0 < t → t ≤ 9223372036 → expiry now (pos t) ≡ pos (now / second + t)
unfolding expiry as_int64 unix_after
expiry_lem now zero h b = absurd (omega arith)
expiry_lem now (suc t) h b =
    let within : (suc t * second) % 2 ^ 64 ≡ suc t * second = omega (arith, b) in
    let small : ltb (suc t * second) (2 ^ 63) ≡ true = grind (arith, b) in
    rw (within, small) (ap pos (omega arith))
