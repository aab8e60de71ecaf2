-- ===== src/Pagination.antt =====
-- internal/handler/pagination.go: the parameters of a list request, and the cursors of its response.
pub mod Bounds
pub mod Pages
use scim_server_impl_go.Base.{
  ℕ, zero, suc, ◌+◌, ◌-◌, ◌*◌, ◌^◌, Bool, true, false, not, ◌&&◌, ◌||◌, Option, none, some, List,
  [], ◌∷◌, ltb, leb, ◌==◌, if◌then◌else◌, ℤ, pos, negsuc, ◌+ℤ◌, ◌-ℤ◌, is_negative, is_positive,
  less, at_least, clamp, Result, ok, err, bad_request, ◌>>=◌,
}
use scim_server_impl_go.Text.{Text, text, is_empty, same, trim_space}
use scim_server_impl_go.Value.{Value, null, bool, num, str, Fields, index, Number, whole, fraction}
use scim_server_impl_go.Cursor.{
  Packages, encode_cursor_with_page_size, decode_cursor_with_page_size,
}

pub record PaginationRequest : Type 0 where
  pub is_cursor : Bool
  pub offset : ℤ
  pub count : ℤ
  pub start_index : ℤ
  pub prev_page_size : ℤ

-- `url.Values`: the pairs of the query in their order
abbrev pub Query : Type 0
Query = List (Text × Text)

-- `query.Get(key)` if `query.Has(key)`
unfoldable pub query_get : Text → Query → Option Text
query_get key [] = none
query_get key ((k, v) ∷ query) =
    let rest = query_get key query in if same k key then some v else rest

-- the value of a text of digits, if it is one
unfoldable pub read_digits : ℕ → Text → Option ℕ
read_digits n [] = some n
read_digits n (c ∷ s) =
    let rest = read_digits (n * 10 + (c - b'0')) s in
    if leb b'0' c && leb c b'9' then rest else none

-- the value of a text of one or more digits, up to a bound
unfoldable pub read_number : ℕ → Text → Option ℕ
read_number bound s = elim (read_digits 0 s) [
  | none ↦ none
  | some n ↦ if is_empty s || ltb bound n then none else some n
]

abbrev pub minus : ℕ → ℤ
minus zero = pos 0
minus (suc n) = negsuc n

-- `strconv.Atoi`, if it gives no error: an optional sign, digits, and the range of `int64`
unfoldable pub atoi : Text → Option ℤ
atoi [] = none
atoi (c ∷ s) =
    if c == b'-'
    then elim (read_number (2 ^ 63) s) [ none ↦ none | some n ↦ some (minus n) ]
    else elim (read_number (2 ^ 63 - 1) (if c == b'+' then s else c ∷ s)) [
      | none ↦ none
      | some n ↦ some (pos n)
    ]

-- The variables of `parsePagination`.
pub record Params : Type 0 where
  pub cursor : Option Text
  pub start_index : Option ℤ
  pub count : ℤ
  pub explicit_count : Option ℤ

-- a number of the query: absent where it is missing or blank
unfoldable pub query_int : Text → Query → Result (Option ℤ)
query_int key query = elim (query_get key query) [
  | none ↦ ok none
  | some raw ↦
      if is_empty (trim_space raw)
      then ok none
      else elim (atoi (trim_space raw)) [ none ↦ bad_request "invalidValue" | some n ↦ ok (some n) ]
]

-- `hasExplicitCount`, `rawExplicitCount` and `count`
abbrev pub with_count : Option ℤ → Params → Params
with_count none p = p
with_count (some n) p = record p { count = clamp 200 n; explicit_count = some n }

abbrev pub with_start_index : Option ℤ → Params → Params
with_start_index none p = p
with_start_index (some n) p = record p { start_index = some (at_least 1 n) }

-- the variables before any number is read
abbrev pub raw_params : Query → ℤ → Params
raw_params query default_count = record {
  cursor = query_get (text "cursor") query;
  start_index = none;
  count = default_count;
  explicit_count = none;
}

unfoldable pub read_query : Query → ℤ → Result Params
read_query query default_count = do
  start_index ← query_int (text "startIndex") query
  count ← query_int (text "count") query
  ok (with_count count (with_start_index start_index (raw_params query default_count)))

-- `int(num)` is what the platform makes of a number outside of `int64`
module _ (to_int : ℤ → ℤ) (x : Packages) where
  -- a number of the body: absent where it is missing or null
  unfoldable pub body_int : Value → Result (Option ℤ)
  body_int null = ok none
  body_int (num (whole n)) = ok (some (to_int n))
  body_int _ = bad_request "invalidValue"

  unfoldable pub body_cursor : Value → Params → Result Params
  body_cursor null p = ok p
  body_cursor (str s) p = ok (record p { cursor = some s })
  body_cursor _ p = bad_request "invalidCursor"

  unfoldable pub read_body : Option Fields → Params → Result Params
  read_body none p = ok p
  read_body (some body) p = do
    p ← body_cursor (index "cursor" body) p
    start_index ← body_int (index "startIndex" body)
    count ← body_int (index "count" body)
    ok (with_count count (with_start_index start_index p))

  abbrev pub is_some {ℓ} : {A : Type ℓ} → Option A → Bool
  is_some none = false
  is_some (some _) = true

  abbrev pub exceeds : ℕ → Option ℤ → Bool
  exceeds n none = false
  exceeds n (some a) = less (pos n) a

  unfoldable pub cursor_page : ℕ → Text → Params → Text → Result PaginationRequest
  cursor_page now ws p token = do
    page ← decode_cursor_with_page_size x now token ws
    if exceeds 200 p.explicit_count
        then bad_request "tooMany"
        else ok (record {
          is_cursor = true;
          offset = page.0;
          count = p.count;
          start_index = pos 0;
          prev_page_size = page.1;
        })

  abbrev pub index_page : ℤ → ℤ → PaginationRequest
  index_page start_index count = record {
    is_cursor = false;
    offset = at_least 0 (start_index -ℤ pos 1);
    count = count;
    start_index = start_index;
    prev_page_size = pos 0;
  }

  unfoldable pub resolve_params : ℕ → Text → Params → Result PaginationRequest
  resolve_params now ws p = elim p.cursor [
    | some token ↦
        if is_some p.start_index then bad_request "invalidValue" else cursor_page now ws p token
    | none ↦ elim p.start_index [
      | none ↦ ok (index_page (pos 1) p.count)
      | some n ↦ ok (index_page n p.count)
    ]
  ]

  unfoldable pub parse_pagination : ℕ → Query → Option Fields → Text → ℤ → Result PaginationRequest
  parse_pagination now query body ws default_count =
      read_query query default_count >>= read_body body >>= resolve_params now ws

-- The members of a list response that depend on the request; the resources are counted.
pub record ListResponse : Type 0 where
  pub total_results : ℕ
  pub items_per_page : ℕ
  pub start_index : Option ℤ
  pub previous_cursor : Option Text
  pub next_cursor : Option Text

-- `if pc, err := …; err == nil`
abbrev pub if_ok {ℓ} : {A : Type ℓ} → Result A → Option A
if_ok (ok a) = some a
if_ok (err _) = none

-- `step`
abbrev pub step : PaginationRequest → ℤ
step pag = if is_positive pag.prev_page_size then pag.prev_page_size else pag.count

-- `prevOffset`
abbrev pub prev_offset : PaginationRequest → ℤ
prev_offset pag =
    if is_negative (pag.offset -ℤ step pag) || not (is_positive (step pag))
    then pos 0
    else pag.offset -ℤ step pag

module _ (x : Packages) where
  unfoldable pub previous_cursor_of : ℕ → Text → PaginationRequest → Option Text
  previous_cursor_of now ws pag =
      if is_positive pag.offset
      then if_ok (encode_cursor_with_page_size x now ws (prev_offset pag) (step pag) (pos 3600))
      else none

  unfoldable pub next_cursor_of : ℕ → Text → PaginationRequest → ℕ → ℕ → Option Text
  next_cursor_of now ws pag total n =
      if ltb 0 n && less (pag.offset +ℤ pos n) (pos total)
      then if_ok (encode_cursor_with_page_size x now ws (pag.offset +ℤ pos n) (pos n) (pos 3600))
      else none

  unfoldable pub build_list_response : ℕ → Text → PaginationRequest → ℕ → ℕ → ListResponse
  build_list_response now ws pag total n = record {
    total_results = total;
    items_per_page = n;
    start_index = if pag.is_cursor then none else some pag.start_index;
    previous_cursor = if pag.is_cursor then previous_cursor_of now ws pag else none;
    next_cursor = if pag.is_cursor then next_cursor_of now ws pag total n else none;
  }
