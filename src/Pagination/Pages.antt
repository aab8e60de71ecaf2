-- ===== src/Pagination/Pages.antt =====
-- internal/handler/pagination.go: the cursors of a response lead to the neighbouring pages.
use scim_server_impl_go.Base.{
  ℕ, zero, suc, ◌+◌, ◌/◌, ◌<◌, true, false, none, some, [], ◌∷◌, ◌≡◌, refl, ◌∙◌, lt→ltb, arith, ℤ,
  pos, pos-sub, ok,
}
use scim_server_impl_go.Text.{Text, text, same}
use scim_server_impl_go.Text.Laws.{same_self}
use scim_server_impl_go.Cursor.{
  Packages, second, expiry, is_passed, encode_cursor_with_page_size, decode_cursor_with_page_size,
}
use scim_server_impl_go.Cursor.Laws.{Reliable, decode-encode, expiry_lem}
use scim_server_impl_go.Pagination.{
  PaginationRequest, Query, query_get, query_int, read_query, read_body, cursor_page,
  resolve_params, parse_pagination, step, prev_offset, previous_cursor_of, next_cursor_of,
  build_list_response,
}

-- the page that a cursor request is for
abbrev pub page_at : ℕ → ℤ → ℕ → PaginationRequest
page_at o count prev = record {
  is_cursor = true;
  offset = pos o;
  count = count;
  start_index = pos 0;
  prev_page_size = pos prev;
}

-- the request for a page by its cursor alone
abbrev pub by_cursor : Text → Query
by_cursor token = (text "cursor", token) ∷ []

module _ (to_int : ℤ → ℤ) (x : Packages) (reliable : Reliable x) (ws : Text)
    (uuid : x.uuid_parse ws ≡ some ws) where
  -- a cursor that is encoded now is read later, within the hour, as it was written
  parse-encode :
      (now later o prev : ℕ) (count : ℤ)
      → later / second < now / second + 3600
      → (token : Text) × (encode_cursor_with_page_size x now ws (pos o) (pos prev) (pos 3600)
          ≡ ok token)
        × (parse_pagination to_int x later (by_cursor token) none ws count
            ≡ ok (page_at o count prev))
  unfolding parse_pagination read_query read_body resolve_params cursor_page query_int query_get
      same text
  parse-encode now later o prev count h =
      let (token, e, d) = decode-encode x reliable now later ws ws o (pos prev) (pos 3600) uuid in
      let valid : is_passed (expiry now (pos 3600)) later ≡ false =
        rw
          (
            expiry_lem now 3600 (omega arith) (omega arith),
            lt→ltb (later / second) (now / second + 3600) h,
          )
          refl in
      let d' : decode_cursor_with_page_size x later token ws ≡ ok (pos o, pos prev) =
        d ∙ rw (same_self ws, valid) refl in
      (token, e, rw (d', cursor_page) refl)

  next_cursor-page :
      (now later o prev total n : ℕ) (count count' : ℤ)
      → 0 < n
      → o + n < total
      → later / second < now / second + 3600
      → (token : Text) × ((build_list_response x now ws (page_at o count prev) total n).next_cursor
          ≡ some token)
        × (parse_pagination to_int x later (by_cursor token) none ws count'
            ≡ ok (page_at (o + n) count' n))
  unfolding build_list_response next_cursor_of
  next_cursor-page now later o prev total n count count' some_page more h =
      let (token, e, d) = parse-encode now later (o + n) n count' h in
      (token, rw (lt→ltb 0 n some_page, lt→ltb (o + n) total more, e) refl, d)

  -- the previous page begins where the page before ended, less its size
  previous_cursor-page :
      (now later o total n n' : ℕ) (count count' : ℤ)
      → 0 < n
      → later / second < now / second + 3600
      → (token : Text) × ((build_list_response x now ws
            (page_at (o + n) count n)
            total
            n').previous_cursor
          ≡ some token)
        × (parse_pagination to_int x later (by_cursor token) none ws count'
            ≡ ok (page_at o count' n))
  unfolding build_list_response previous_cursor_of
  previous_cursor-page now later o total zero n' count count' some_page h = absurd (omega arith)
  previous_cursor-page now later o total (suc n) n' count count' some_page h =
      let (token, e, d) = parse-encode now later o (suc n) count' h in
      let size : step (page_at (o + suc n) count (suc n)) ≡ pos (suc n) = grind arith in
      let back : prev_offset (page_at (o + suc n) count (suc n)) ≡ pos o =
        rw (size, pos-sub o (suc n), lt→ltb 0 (suc n) some_page) refl in
      (token, rw (lt→ltb 0 (o + suc n) (omega arith), back, size, e) refl, d)

  -- With packages whose decoders undo their encoders and a MAC that is not empty, and a workspace id
  -- that `uuid.Parse` gives back:
  -- A response to a cursor request that has resources and leaves results behind has a next cursor; the request with it
  -- alone, within an hour and in the same workspace, is for the page that begins behind the resources
  -- of the response. The response to that one has a previous cursor, and the request with it
  -- alone, within another hour, is for a page at the offset of the first.
  pub next-previous :
      (now now' later o prev total total' n n' : ℕ) (count count' count'' : ℤ)
      → 0 < n
      → o + n < total
      → now' / second < now / second + 3600
      → later / second < now' / second + 3600
      → (next : Text) × (previous : Text) × ((build_list_response x now ws
            (page_at o count prev)
            total
            n).next_cursor
          ≡ some next)
        × (parse_pagination to_int x now' (by_cursor next) none ws count'
            ≡ ok (page_at (o + n) count' n))
        × ((build_list_response x now' ws (page_at (o + n) count' n) total' n').previous_cursor
            ≡ some previous)
        × (parse_pagination to_int x later (by_cursor previous) none ws count''
            ≡ ok (page_at o count'' n))
  next-previous now now' later o prev total total' n n' count count' count'' some_page more h h' =
      let (next, e, d) = next_cursor-page now now' o prev total n count count' some_page more h in
      let (previous, e', d') =
        previous_cursor-page now' later o total' n n' count' count'' some_page h' in
      (next, previous, e, d, e', d')
