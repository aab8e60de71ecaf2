-- ===== src/Tests/CursorTests.antt =====
-- internal/scim/cursor.go and internal/handler/pagination.go on concrete requests.
use scim_server_impl_go.Base.{
  ℕ, zero, suc, ◌≡◌, refl, ap, false, not, ◌&&◌, Option, none, some, [], ◌∷◌, ◌++◌, if◌then◌else◌,
  arith, length, ℤ, pos, negsuc, ok, bad_request,
}
use scim_server_impl_go.Text.{Text, text, same, is_space, trim_left, trim_right, trim_space}
use scim_server_impl_go.Cursor.{
  Packages, CursorPayload, expiry, is_passed, clip, cursor_message, encode_cursor_with_page_size,
  decode_cursor_with_page_size,
}
use scim_server_impl_go.Cursor.Laws.{Reliable, decode-encode}
use scim_server_impl_go.Cursor.Message.{NoBar, cursor_message-injective}
use scim_server_impl_go.Pagination.{
  PaginationRequest, Query, query_get, read_digits, read_number, atoi, query_int, read_query,
  read_body, resolve_params, parse_pagination, build_list_response,
}
use scim_server_impl_go.Pagination.Bounds.{Legal, parse_pagination-Legal}
use scim_server_impl_go.Pagination.Pages.{page_at, by_cursor, next-previous}

-- A payload as numbers: stand-ins for the packages that the code calls.
abbrev sign : ℤ → ℕ
sign (pos n) = 0
sign (negsuc n) = 1

abbrev size : ℤ → ℕ
size (pos n) = n
size (negsuc n) = n

abbrev get_int : ℕ → ℕ → ℤ
get_int zero n = pos n
get_int (suc _) n = negsuc n

get_int-size : (z : ℤ) → get_int (sign z) (size z) ≡ z
get_int-size (pos n) = refl
get_int-size (negsuc n) = refl

abbrev option_tag : Option ℤ → ℕ
option_tag none = 0
option_tag (some z) = 1

abbrev option_sign : Option ℤ → ℕ
option_sign none = 0
option_sign (some z) = sign z

abbrev option_size : Option ℤ → ℕ
option_size none = 0
option_size (some z) = size z

abbrev get_option : ℕ → ℕ → ℕ → Option ℤ
get_option zero a n = none
get_option (suc _) a n = some (get_int a n)

get_option-size : (o : Option ℤ) → get_option (option_tag o) (option_sign o) (option_size o) ≡ o
get_option-size none = refl
get_option-size (some z) = ap some (get_int-size z)

abbrev front : ℕ → Text → Text
front zero s = []
front (suc n) [] = []
front (suc n) (c ∷ s) = c ∷ front n s

abbrev back : ℕ → Text → Text
back zero s = s
back (suc n) [] = []
back (suc n) (c ∷ s) = back n s

front-append : (s t : Text) → front (length s) (s ++ t) ≡ s
front-append [] t = refl
front-append (c ∷ s) t = ap (λ r. c ∷ r) (front-append s t)

back-append : (s t : Text) → back (length s) (s ++ t) ≡ t
back-append [] t = refl
back-append (c ∷ s) t = back-append s t

abbrev put_payload : CursorPayload → Text
put_payload p =
    option_tag p.offset
    ∷ option_sign p.offset
    ∷ option_size p.offset
    ∷ option_tag p.expires_at
    ∷ option_sign p.expires_at
    ∷ option_size p.expires_at
    ∷ sign p.page_size
    ∷ size p.page_size
    ∷ length p.workspace_id
    ∷ (p.workspace_id ++ p.sig)

abbrev get_payload : Text → Option CursorPayload
get_payload (a ∷ b ∷ c ∷ d ∷ e ∷ f ∷ g ∷ h ∷ l ∷ s) = some (record {
  workspace_id = front l s;
  offset = get_option a b c;
  expires_at = get_option d e f;
  page_size = get_int g h;
  sig = back l s;
})
get_payload _ = none

abbrev packages : Packages
packages = record {
  mac = λ m. 1 ∷ m;
  base64_encode = λ s. s;
  base64_decode = λ s. some s;
  marshal = put_payload;
  unmarshal = get_payload;
  uuid_parse = λ s. some s;
}

get-put : (p : CursorPayload) → get_payload (put_payload p) ≡ some p
get-put p = cc (
  get_option-size p.offset,
  get_option-size p.expires_at,
  get_int-size p.page_size,
  front-append p.workspace_id p.sig,
  back-append p.workspace_id p.sig,
)

packages-Reliable : Reliable packages
packages-Reliable = record { base64 = λ b. refl; json = get-put; mac_text = λ m. refl }

abbrev w1 : Text
w1 = text "w1"

decode-encode_example :
    (token : Text) × (encode_cursor_with_page_size packages 5000000000 w1 (pos 20) (pos 10) (pos 60)
      ≡ ok token)
    × (decode_cursor_with_page_size packages 6000000000 token (text "w2") ≡ (
        if same w1 (text "w2") && not (is_passed (expiry 5000000000 (pos 60)) 6000000000)
        then ok (pos 20, clip (pos 10))
        else bad_request "invalidCursor"))
decode-encode_example =
    decode-encode packages packages-Reliable 5000000000 6000000000 w1 (text "w2") 20 (pos 10)
      (pos 60) refl

bar_free : NoBar w1
unfolding text
bar_free = (λ e. absurd (omega (arith, e)), (λ e. absurd (omega (arith, e)), tt))

cursor_message-injective_example :
    (w1 ≡ w1) × (pos 20 ≡ pos 20) × (pos 65 ≡ pos 65) × (clip (pos 0) ≡ clip (negsuc 4))
unfolding cursor_message
cursor_message-injective_example =
    cursor_message-injective w1 w1 (pos 20) (pos 20) (pos 65) (pos 65) (pos 0) (negsuc 4) bar_free
      bar_free refl

next-previous_example :
    (next : Text) × (previous : Text) × ((build_list_response packages 5000000000 w1
        (page_at 0 (pos 10) 0)
        25
        10).next_cursor
      ≡ some next)
    × (parse_pagination (λ n. n) packages 6000000000 (by_cursor next) none w1 (pos 10)
        ≡ ok (page_at 10 (pos 10) 10))
    × ((build_list_response packages 6000000000 w1 (page_at 10 (pos 10) 10) 25 10).previous_cursor
        ≡ some previous)
    × (parse_pagination (λ n. n) packages 7000000000 (by_cursor previous) none w1 (pos 10)
        ≡ ok (page_at 0 (pos 10) 10))
next-previous_example =
    next-previous (λ n. n) packages packages-Reliable w1 refl 5000000000 6000000000 7000000000 0 0
      25 25 10 10 (pos 10) (pos 10) (pos 10) (omega arith) (omega arith) (omega arith) (omega arith)

abbrev eleventh : Query
eleventh = (text "startIndex", text " 11 ") ∷ (text "count", text "500") ∷ []

abbrev eleventh_page : PaginationRequest
eleventh_page = record {
  is_cursor = false;
  offset = pos 10;
  count = pos 200;
  start_index = pos 11;
  prev_page_size = pos 0;
}

parse_eleventh : parse_pagination (λ n. n) packages 0 eleventh none w1 (pos 100) ≡ ok eleventh_page
unfolding parse_pagination text same is_space trim_left trim_right trim_space query_get read_digits
    read_number atoi query_int read_query read_body resolve_params
parse_eleventh = refl

parse_pagination-Legal_example : Legal eleventh_page
parse_pagination-Legal_example =
    parse_pagination-Legal (λ n. n) packages 0 eleventh none w1 (pos 100) eleventh_page
      (100, refl, omega arith) parse_eleventh
