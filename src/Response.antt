-- ===== src/Response.antt =====
-- internal/handler/base.go: what a response shows of a resource, and the preconditions of a request.
pub mod Projection
pub mod Narrows
pub mod Kept
pub mod Etag
use scim_server_impl_go.Base.{ℕ, Bool, List, [], ◌∷◌, ◌==◌, if◌then◌else◌}
use scim_server_impl_go.Text.{Text, text, is_empty, same, trim_space, has_prefix}

abbrev pub cons_first : ℕ → List Text → List Text
cons_first c [] = (c ∷ []) ∷ []
cons_first c (p ∷ parts) = (c ∷ p) ∷ parts

-- `strings.Split(s, sep)` for a separator of one byte
unfoldable pub split : ℕ → Text → List Text
split sep [] = [] ∷ []
split sep (c ∷ s) = let parts = split sep s in if c == sep then [] ∷ parts else cons_first c parts

unfoldable pub trimmed_parts : List Text → List Text
trimmed_parts [] = []
trimmed_parts (p ∷ parts) =
    let rest = trimmed_parts parts in if is_empty (trim_space p) then rest else trim_space p ∷ rest

unfoldable pub parse_attr_list : Text → List Text
parse_attr_list s = trimmed_parts (split b',' s)

-- `headerSanitizer.ReplaceAllString(v, "")`
unfoldable pub sanitize_header_value : Text → Text
sanitize_header_value [] = []
sanitize_header_value (c ∷ s) =
    let rest = sanitize_header_value s in
    if c == 10 then rest else if c == 13 then rest else c ∷ rest

-- `strings.TrimSuffix`
unfoldable pub trim_suffix : Text → Text → Text
trim_suffix suffix [] = []
trim_suffix suffix (c ∷ s) =
    let rest = trim_suffix suffix s in if same (c ∷ s) suffix then [] else c ∷ rest

unfoldable pub strip_default_port : Text → Text → Text
strip_default_port scheme host =
    if same scheme (text "http")
    then trim_suffix (text ":80") host
    else if same scheme (text "https")
    then trim_suffix (text ":443") host
    else host
