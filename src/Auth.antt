-- ===== src/Auth.antt =====
-- internal/middleware/auth.go: the check of a bearer token. A decision says what is answered or that the
-- next handler is called. The workspace of the context is the one that `ExtractWorkspaceID` puts there.
pub mod Admits
pub mod Bearer
pub mod Tokens
use scim_server_impl_go.Base.{
  ℕ, ℤ, Bool, true, false, not, ◌&&◌, ◌||◌, Option, none, some, List, [], ◌∷◌, ◌==◌, less, ltb, ◌+◌,
  ◌/◌, ◌%◌, if◌then◌else◌,
}
use scim_server_impl_go.Text.{Text, text, is_empty, same, trim_space, trim_right}
use scim_server_impl_go.External.{External}

-- `WorkspaceToken`, where a UUID is its canonical text and a time is a number
pub record WorkspaceToken : Type 0 where
  pub id : Text
  pub workspace_id : Text
  pub token_hash : Text
  pub name : Option Text
  pub description : Option Text
  pub expires_at : Option ℤ
  pub revoked : Bool
  pub created_at : ℤ
  pub updated_at : ℤ

-- `Workspace`
pub record Workspace : Type 0 where
  pub created_by_username : Option Text

-- What the middleware is given: the rows of `workspace_tokens`, or `none` where the query fails; the
-- finder of a workspace, where an error is `none`; `sha256.Sum256` of the bytes of a text; the clock.
pub record Stores : Type 0 where
  pub tokens : Option (List WorkspaceToken)
  pub workspace_repo : Option (Text → Option Workspace)
  pub sha256 : Text → List ℕ
  pub now : ℤ

-- `hex.EncodeToString`
abbrev pub hex_digit : ℕ → ℕ
hex_digit n = if ltb n 10 then 48 + n else 87 + n

unfoldable pub hex_encode : List ℕ → Text
hex_encode [] = []
hex_encode (c ∷ bytes) = hex_digit (c / 16) ∷ hex_digit (c % 16) ∷ hex_encode bytes

-- `WHERE t.token_hash = $1 AND t.revoked = false`, of which the first row is read
unfoldable pub find_by_token_hash_not_revoked : List WorkspaceToken → Text → Option WorkspaceToken
find_by_token_hash_not_revoked [] hash = none
find_by_token_hash_not_revoked (t ∷ rows) hash =
    let rest = find_by_token_hash_not_revoked rows hash in
    if same t.token_hash hash && not t.revoked then some t else rest

pub record Request : Type 0 where
  pub workspace_id : Option Text
  pub method : Text
  pub path : Text
  pub authorization : Text

pub data Decision : Type 0 where
  unauthorized : Decision
  not_found : Decision
  unauthenticated : Decision
  authenticated : Option Text → Decision

-- `strings.HasSuffix`
unfoldable pub has_suffix : Text → Text → Bool
has_suffix [] suffix = is_empty suffix
has_suffix (c ∷ s) suffix = same (c ∷ s) suffix || has_suffix s suffix

-- what stands behind a prefix, if it is there
unfoldable pub after_prefix : Text → Text → Option Text
after_prefix [] s = some s
after_prefix (c ∷ p) [] = none
after_prefix (c ∷ p) (d ∷ s) = let rest = after_prefix p s in if c == d then rest else none

-- a request for the document that needs no token
unfoldable pub is_public : Request → Bool
is_public r =
    same r.method (text "GET")
    && has_suffix (trim_right (λ c. c == b'/') r.path) (text "/ServiceProviderConfig")
    && is_empty (trim_space r.authorization)

module _ (stores : Stores) where
  -- `wsToken.ExpiresAt != nil && wsToken.ExpiresAt.Before(time.Now())`
  unfoldable pub is_expired : WorkspaceToken → Bool
  is_expired token = elim token.expires_at [ none ↦ false | some t ↦ less t stores.now ]

  -- the email that `markAuthenticatedPrincipal` records
  unfoldable pub principal : Text → Option Text
  principal ws = elim stores.workspace_repo [
    | none ↦ none
    | some find_by_id ↦ elim (find_by_id ws) [
      | none ↦ none
      | some workspace ↦ elim workspace.created_by_username [
        | none ↦ none
        | some name ↦ if is_empty (trim_space name) then none else some (trim_space name)
      ]
    ]
  ]

  unfoldable pub serve_public : Text → Decision
  serve_public ws = elim stores.workspace_repo [
    | none ↦ unauthenticated
    | some find_by_id ↦ elim (find_by_id ws) [ none ↦ not_found | some _ ↦ unauthenticated ]
  ]

  unfoldable pub check_found : Text → WorkspaceToken → Decision
  check_found ws token =
      if not (same token.workspace_id ws)
      then unauthorized
      else if is_expired token
      then unauthorized
      else authenticated (principal ws)

  unfoldable pub hash_token : Text → Text
  hash_token token = hex_encode (stores.sha256 token)

  -- the row of a hash, or `none` where there is none or the query fails
  unfoldable pub query_token : Text → Option WorkspaceToken
  query_token hash = elim stores.tokens [
    | none ↦ none
    | some rows ↦ find_by_token_hash_not_revoked rows hash
  ]

  unfoldable pub check_token : Text → Text → Decision
  check_token ws token = elim (query_token (hash_token token)) [
    | none ↦ unauthorized
    | some found ↦ check_found ws found
  ]

  unfoldable pub check_header : Text → Text → Decision
  check_header ws header = elim (after_prefix (text "Bearer ") header) [
    | none ↦ unauthorized
    | some token ↦ check_token ws token
  ]

  unfoldable pub bearer_token_auth : Request → Decision
  bearer_token_auth r = elim r.workspace_id [
    | none ↦ unauthorized
    | some ws ↦ if is_public r then serve_public ws else check_header ws r.authorization
  ]

-- The workspace that `ExtractWorkspaceID` puts into the context, or the answer 404.
unfoldable pub extract_workspace_id : External → Text → Option Text
extract_workspace_id x param = if is_empty param then none else x.uuid_parse param
