-- ===== src/Async.antt =====
-- internal/handler/async_event.go: the `Prefer` header, and the paths that a PATCH names. The workers and
-- the events in the database are not here.
pub mod Listed
pub mod Paths
pub mod Steps
use scim_server_impl_go.Base.{
  ℕ, ℤ, pos, negsuc, String, Bool, true, false, not, Option, none, some, List, [], ◌∷◌, ◌++◌, ◌==◌,
  if◌then◌else◌, any, is_positive,
}
use scim_server_impl_go.Text.{
  Text, text, is_empty, same, trim_space, trim_left, trim_right, split_at, equal_fold,
}
use scim_server_impl_go.Value.{Value, str, obj, Fields, end, field, index}
use scim_server_impl_go.Pagination.{atoi}
use scim_server_impl_go.Response.{split}

-- `strings.Split(part, ";")[0]`
unfoldable pub first_part : List Text → Text
first_part [] = []
first_part (p ∷ _) = p

-- The argument is `r.Header.Values("Prefer")`.
unfoldable pub is_async_preferred : List Text → Bool
is_async_preferred values =
    any
      (λ val.
        any (λ part. equal_fold (trim_space (first_part (split b';' part))) (text "respond-async"))
          (split b',' val))
      values

-- `strings.Trim(s, "\"")`
unfoldable pub trim_quotes : Text → Text
trim_quotes s = trim_right (λ c. c == b'"') (trim_left (λ c. c == b'"') s)

-- the number of a segment `wait=N`
unfoldable pub wait_of : Text → Option ℤ
wait_of seg = elim (split_at b'=' seg) [
  | none ↦ none
  | some (k, v) ↦
      if is_empty k
      then none
      else if not (equal_fold (trim_space k) (text "wait"))
      then none
      else elim (atoi (trim_quotes (trim_space v))) [
        | some (pos n) ↦ some (pos n)
        | some (negsuc n) ↦ none
        | none ↦ none
      ]
]

-- the first result of a loop
unfoldable pub first_of {ℓ} : {A : Type ℓ} → (Text → Option A) → List Text → Option A
first_of f [] = none
first_of f (p ∷ parts) = let rest = first_of f parts in elim (f p) [ some a ↦ some a | none ↦ rest ]

unfoldable pub parse_wait_preference : List Text → Option ℤ
parse_wait_preference = first_of (λ val.
    first_of
      (λ comma_part. first_of (λ semi_part. wait_of (trim_space semi_part)) (split b';' comma_part))
      (split b',' val))

unfoldable pub should_execute_async : List Text → Bool × String
should_execute_async values =
    if not (is_async_preferred values) then (false, "") else elim (parse_wait_preference values) [
      | none ↦ (true, "respond-async")
      | some wait ↦ if is_positive wait then (false, "") else (true, "respond-async, wait=0")
    ]

-- `addPath`
unfoldable pub add_path : List Text → Text → List Text
add_path paths p =
    if is_empty (trim_space p)
    then paths
    else if any (same (trim_space p)) paths
    then paths
    else paths ++ trim_space p ∷ []

-- `scim.EnterpriseSchemaURN`
abbrev pub enterprise_schema_urn : Text
enterprise_schema_urn = text "urn:ietf:params:scim:schemas:extension:enterprise:2.0:User"

-- the members of the extension
unfoldable pub add_extension : List Text → Fields → List Text
add_extension paths end = paths
add_extension paths (field k v m) =
    add_extension (add_path paths (enterprise_schema_urn ++ b':' ∷ k)) m

-- a member of the value of an operation without path, or the extension as path: `addPath(k)` if the
-- value is not an object with members
unfoldable pub add_extension_or : Text → List Text → Value → List Text
add_extension_or p paths (obj (field k v m)) = add_extension paths (field k v m)
add_extension_or p paths _ = add_path paths p

unfoldable pub add_member : List Text → Text → Value → List Text
add_member paths k v =
    if equal_fold k (text "schemas")
    then paths
    else if equal_fold k enterprise_schema_urn
    then add_extension_or k paths v
    else add_path paths k

unfoldable pub add_members : List Text → Fields → List Text
add_members paths end = paths
add_members paths (field k v m) = add_members (add_member paths k v) m

-- `rawPath, _ := op["path"].(string)`, trimmed
unfoldable pub path_of : Value → Text
path_of (str s) = trim_space s
path_of _ = []

unfoldable pub add_value : List Text → Value → List Text
add_value paths (obj m) = add_members paths m
add_value paths _ = paths

unfoldable pub add_operation : List Text → Fields → List Text
add_operation paths op =
    let path = path_of (index "path" op) in
    if is_empty path
    then add_value paths (index "value" op)
    else if equal_fold path enterprise_schema_urn
    then add_extension_or path paths (index "value" op)
    else add_path paths path

unfoldable pub add_operations : List Text → List Fields → List Text
add_operations paths [] = paths
add_operations paths (op ∷ more) = add_operations (add_operation paths op) more

unfoldable pub extract_modified_patch_paths : List Fields → List Text
extract_modified_patch_paths operations = elim (add_operations [] operations) [
  | [] ↦ text "displayName" ∷ []
  | p ∷ paths ↦ p ∷ paths
]
