-- ===== src/Pagination/Bounds.antt =====
-- internal/handler/pagination.go, `parsePagination`: the range of what a list request asks for.
use scim_server_impl_go.Base.{
  ℕ, zero, suc, ◌≤◌, true, false, not, ◌||◌, Option, none, some, ◌≡◌, subst, refl, ◌⊎◌, inl, inr,
  ltb, Bool-cases, Option-cases, arith, if-keeps, ℤ, pos, negsuc, ◌+ℤ◌, ◌-ℤ◌, is_negative, at_least,
  clamp, ok, Returns, returned, refused, Returns-bind, Returns-then, Returns-elim,
}
use scim_server_impl_go.Text.{Text, text, same, is_empty, has_prefix}
use scim_server_impl_go.Value.{Value, null, bool, num, str, arr, obj, Fields, index}
use scim_server_impl_go.Cursor.{
  Packages, CursorPayload, trim_prefix, check_payload, decode_cursor_with_page_size,
  compute_cursor_hmac, is_passed,
}
use scim_server_impl_go.Pagination.{
  PaginationRequest, raw_params, Query, query_int, read_query, read_body, body_cursor, body_int,
  Params, with_count, with_start_index, cursor_page, resolve_params, parse_pagination, exceeds,
  is_some,
}

-- a page size that the server serves
abbrev pub InRange : ℤ → Type 0
InRange z = (n : ℕ) × (z ≡ pos n) × (n ≤ 200)

abbrev pub Positive : ℤ → Type 0
Positive z = (n : ℕ) × (z ≡ pos (suc n))

-- What a list request asks for: a page from a natural offset, of at most 200 resources; without a
-- cursor it begins at the start index, counted from 1.
pub record Legal (r : PaginationRequest) : Type 0 where
  pub offset : is_negative r.offset ≡ false
  pub count : InRange r.count
  pub mode :
      (r.is_cursor ≡ true) × (r.start_index ≡ pos 0)
      ⊎ (r.is_cursor ≡ false) × (r.start_index ≡ r.offset +ℤ pos 1)

clamp-InRange : (z : ℤ) → InRange (clamp 200 z)
clamp-InRange (pos n) = elim (Bool-cases (ltb 200 n)) [
  | inl e ↦ rw e (200, refl, omega arith)
  | inr e ↦ rw e (n, refl, ground arith)
]
clamp-InRange (negsuc n) = (0, refl, omega arith)

at_least-Positive : (z : ℤ) → Positive (at_least 1 z)
at_least-Positive (pos zero) = (0, refl)
at_least-Positive (pos (suc n)) = (n, grind arith)
at_least-Positive (negsuc n) = (0, refl)

-- a decoded cursor: its offset is not negative
abbrev Natural : ℤ × ℤ → Type 0
Natural r = is_negative r.0 ≡ false

index_page-offset : (n : ℕ) → is_negative (at_least 0 (pos (suc n) -ℤ pos 1)) ≡ false
index_page-offset n = ground arith

index_page-start : (n : ℕ) → pos (suc n) ≡ at_least 0 (pos (suc n) -ℤ pos 1) +ℤ pos 1
index_page-start n = grind arith

-- the variables of `parsePagination` after each step
abbrev StartOk : Option ℤ → Type 0
StartOk none = Unit
StartOk (some z) = Positive z

abbrev Ranged : Params → Type 0
Ranged p = InRange p.count × StartOk p.start_index

with_start_index-Ranged : (n : Option ℤ) (p : Params) → Ranged p → Ranged (with_start_index n p)
with_start_index-Ranged none p h = h
with_start_index-Ranged (some z) p h = (h.0, at_least-Positive z)

with_count-Ranged : (n : Option ℤ) (p : Params) → Ranged p → Ranged (with_count n p)
with_count-Ranged none p h = h
with_count-Ranged (some z) p h = (clamp-InRange z, h.1)

read_query-Ranged :
    (query : Query) (default_count : ℤ)
    → InRange default_count
    → Returns Ranged (read_query query default_count)
unfolding read_query
read_query-Ranged query default_count h =
    Returns-then (query_int (text "startIndex") query) _ (λ start.
      Returns-then (query_int (text "count") query) _ (λ count. returned (
        with_count-Ranged count (with_start_index start (raw_params query default_count))
          (with_start_index-Ranged start (raw_params query default_count) (h, tt)))))

module _ (to_int : ℤ → ℤ) (x : Packages) where
  body_cursor-Ranged :
      (v : Value) (p : Params) → Ranged p → Returns Ranged (body_cursor to_int x v p)
  unfolding body_cursor
  body_cursor-Ranged null p h = returned h
  body_cursor-Ranged (str s) p h = returned h
  body_cursor-Ranged (bool b) p h = refused
  body_cursor-Ranged (num n) p h = refused
  body_cursor-Ranged (arr vs) p h = refused
  body_cursor-Ranged (obj m) p h = refused

  read_body-Ranged :
      (body : Option Fields) (p : Params) → Ranged p → Returns Ranged (read_body to_int x body p)
  unfolding read_body
  read_body-Ranged none p h = returned h
  read_body-Ranged (some body) p h =
      Returns-bind _ (body_cursor-Ranged (index "cursor" body) p h) (λ p' h'.
        Returns-then (body_int to_int x (index "startIndex" body)) _ (λ start.
          Returns-then (body_int to_int x (index "count" body)) _ (λ count. returned (
            with_count-Ranged count (with_start_index start p')
              (with_start_index-Ranged start p' h')))))

  check_payload-Natural :
      (now : ℕ) (ws : Text) (p : CursorPayload) → Returns Natural (check_payload x now ws p)
  unfolding check_payload
  check_payload-Natural now ws p = elim (Option-cases (x.uuid_parse p.workspace_id)) [
    | inl e ↦ rw (e, check_payload) refused
    | inr (cursor_ws, e) ↦
        rw (e, check_payload)
          (if-keeps (Returns Natural) (not (same cursor_ws ws)) refused
            (elim (Option-cases p.offset) [
              | inl e' ↦ rw e' refused
              | inr (offset, e') ↦ rw e' (elim (Option-cases p.expires_at) [
                | inl e'' ↦ rw e'' refused
                | inr (exp, e'') ↦ rw e'' (elim (Bool-cases (is_negative offset)) [
                  | inl negative ↦ rw negative refused
                  | inr natural ↦ rw natural (
                      if-keeps (Returns Natural) (is_passed exp now) refused (
                        if-keeps (Returns Natural)
                          (is_empty p.sig
                            || not (
                                same p.sig
                                  (compute_cursor_hmac x p.workspace_id offset exp p.page_size)))
                          refused (returned natural)))
                ])
              ])
            ]))
  ]

  decode-Natural :
      (now : ℕ) (token ws : Text) → Returns Natural (decode_cursor_with_page_size x now token ws)
  unfolding decode_cursor_with_page_size
  decode-Natural now token ws = if-keeps (Returns Natural) (is_empty token) (returned refl) (
      if-keeps (Returns Natural) (not (has_prefix token (text "scim_cur_"))) refused
        (elim (Option-cases (x.base64_decode (trim_prefix token (text "scim_cur_")))) [
          | inl e ↦ rw e refused
          | inr (payload, e) ↦ rw e (elim (Option-cases (x.unmarshal payload)) [
            | inl e' ↦ rw e' refused
            | inr (p, e') ↦ rw e' (check_payload-Natural now ws p)
          ])
        ]))

  cursor_page-Legal :
      (now : ℕ) (ws : Text) (p : Params) (token : Text)
      → Ranged p
      → Returns Legal (cursor_page to_int x now ws p token)
  unfolding cursor_page
  cursor_page-Legal now ws p token h = Returns-bind _ (decode-Natural now token ws) (λ page natural.
      if-keeps (Returns Legal) (exceeds to_int x 200 p.explicit_count) refused
        (returned (record { offset = natural; count = h.0; mode = inl (refl, refl) })))

  resolve_params-Legal :
      (now : ℕ) (ws : Text) (p : Params)
      → Ranged p
      → Returns Legal (resolve_params to_int x now ws p)
  unfolding resolve_params
  resolve_params-Legal now ws p h = elim (Option-cases p.cursor) [
    | inr (token, e) ↦
        rw (e, resolve_params)
          (if-keeps (Returns Legal) (is_some to_int x p.start_index) refused
            (cursor_page-Legal now ws p token h))
    | inl e ↦ elim (Option-cases p.start_index) [
      | inl e' ↦
          rw (e, e', resolve_params)
            (returned (record { offset = refl; count = h.0; mode = inr (refl, refl) }))
      | inr (z, e') ↦
          let (n, e'') : Positive z = subst StartOk e' h.1 in
          rw (e, e', e'', resolve_params)
            (returned (record {
              offset = index_page-offset n;
              count = h.0;
              mode = inr (refl, index_page-start n);
            }))
    ]
  ]

  -- Whatever the query and the body are, a list request that is accepted asks for at most 200 resources
  -- from an offset that is not negative, if the default page size is in that range; with a cursor
  -- it has no start index, and without one its offset is the start index less one.
  pub parse_pagination-Legal :
      (now : ℕ) (query : Query) (body : Option Fields) (ws : Text) (default_count : ℤ)
      (r : PaginationRequest)
      → InRange default_count
      → parse_pagination to_int x now query body ws default_count ≡ ok r
      → Legal r
  unfolding parse_pagination
  parse_pagination-Legal now query body ws default_count r h e =
      Returns-elim
        (Returns-bind (resolve_params to_int x now ws)
          (Returns-bind (read_body to_int x body) (read_query-Ranged query default_count h)
            (read_body-Ranged body))
          (resolve_params-Legal now ws))
        e
