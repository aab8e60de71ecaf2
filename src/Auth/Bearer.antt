-- ===== src/Auth/Bearer.antt =====
-- internal/middleware/auth.go: which requests are authenticated.
use scim_server_impl_go.Base.{
  Bool, true, false, Option, none, some, [], ◌∷◌, ◌++◌, ◌≡◌, inl, inr, refl, sym, ◌∙◌, false≢true,
  ◌==◌, List, Among, ℤ, less, Bool-cases, Option-cases, ==_iff,
}
use scim_server_impl_go.Text.{Text, text, same}
use scim_server_impl_go.Text.Laws.{same_iff}
use scim_server_impl_go.Auth.Tokens.{read_hex, read_hex-hex_encode, IsCurrent, found-IsCurrent}
use scim_server_impl_go.Auth.{
  hash_token, query_token, find_by_token_hash_not_revoked, Stores, Request, WorkspaceToken,
  Decision, authenticated, after_prefix, is_public, is_expired, serve_public, check_found,
  check_token, check_header, bearer_token_auth,
}

abbrev pub is_authenticated : Decision → Bool
is_authenticated (authenticated _) = true
is_authenticated _ = false

-- A request that names its workspace and carries a token of this workspace: a row of the table is not
-- revoked, holds the hexadecimal SHA-256 of the token, and has no time of expiry before now.
abbrev pub Authorized : Stores → Request → Type 0
Authorized stores r =
    (ws : Text) × (token : Text) × (rows : List WorkspaceToken) × (found : WorkspaceToken)
    × (r.workspace_id ≡ some ws)
    × (r.authorization ≡ text "Bearer " ++ token)
    × (stores.tokens ≡ some rows)
    × Among found rows
    × (found.revoked ≡ false)
    × (found.token_hash ≡ hash_token stores token)
    × (read_hex found.token_hash ≡ stores.sha256 token)
    × (found.workspace_id ≡ ws)
    × ((t : ℤ) → found.expires_at ≡ some t → less t stores.now ≡ false)

after_prefix-append : (p s t : Text) → after_prefix p s ≡ some t → s ≡ p ++ t
unfolding after_prefix
after_prefix-append [] s t h = cc
after_prefix-append (c ∷ p) [] t h = cc
after_prefix-append (c ∷ p) (d ∷ s) t h = elim (Bool-cases (c == d)) [
  | inl e ↦
      let tails : s ≡ p ++ t = after_prefix-append p s t (rw e at h) in
      let heads : c ≡ d = (==_iff c d).0 e in cc
  | inr e ↦ (let impossible : Path (Option Text) none (some t) = rw e at h in cc)
]

module _ (stores : Stores) (r : Request) where
  serve_public-unauthenticated : (ws : Text) → is_authenticated (serve_public stores ws) ≡ false
  unfolding serve_public
  serve_public-unauthenticated ws = elim (Option-cases stores.workspace_repo) [
    | inl e ↦ rw e refl
    | inr (find_by_id, e) ↦ elim (Option-cases (find_by_id ws)) [
      | inl d ↦ rw (e, d) refl
      | inr (workspace, d) ↦ rw (e, d) refl
    ]
  ]

  is_expired-less :
      (found : WorkspaceToken) (t : ℤ)
      → is_expired stores found ≡ false
      → found.expires_at ≡ some t
      → less t stores.now ≡ false
  unfolding is_expired
  is_expired-less found t h e = rw (e, is_expired) at h

  found-Authorized :
      (ws token : Text) (rows : List WorkspaceToken) (found : WorkspaceToken)
      → r.workspace_id ≡ some ws
      → r.authorization ≡ text "Bearer " ++ token
      → stores.tokens ≡ some rows
      → IsCurrent rows (hash_token stores token) found
      → is_authenticated (check_found stores ws found) ≡ true
      → Authorized stores r
  unfolding check_found hash_token
  found-Authorized ws token rows found w a f (among, equal, current) h =
      let hashed : read_hex found.token_hash ≡ stores.sha256 token =
        rw equal (read_hex-hex_encode (stores.sha256 token)) in
      elim (Bool-cases (same found.workspace_id ws)) [
        | inr e ↦ absurd (false≢true (rw (e, check_found) at h))
        | inl e ↦ elim (Bool-cases (is_expired stores found)) [
          | inl d ↦ absurd (false≢true (rw (e, d, check_found) at h))
          | inr d ↦ (
            ws,
            token,
            rows,
            found,
            w,
            a,
            f,
            among,
            current,
            equal,
            hashed,
            (same_iff found.workspace_id ws).0 e,
            λ t. is_expired-less found t d,
          )
        ]
      ]

  row-Authorized :
      (ws token : Text)
      → r.workspace_id ≡ some ws
      → r.authorization ≡ text "Bearer " ++ token
      → is_authenticated (check_token stores ws token) ≡ true
      → Authorized stores r
  unfolding check_token query_token
  row-Authorized ws token w a h = elim (Option-cases stores.tokens) [
    | inl e ↦ absurd (false≢true (rw (e, check_token, query_token) at h))
    | inr (rows, e) ↦
        elim (Option-cases (find_by_token_hash_not_revoked rows (hash_token stores token))) [
          | inl f ↦ absurd (false≢true (rw (e, f, check_token, query_token) at h))
          | inr (found, f) ↦
              found-Authorized ws token rows found w a e (found-IsCurrent rows _ found f)
                (rw (e, f, check_token, query_token) at h)
        ]
  ]

  header-Authorized :
      (ws : Text)
      → r.workspace_id ≡ some ws
      → is_authenticated (check_header stores ws r.authorization) ≡ true
      → Authorized stores r
  unfolding check_header
  header-Authorized ws w h = elim (Option-cases (after_prefix (text "Bearer ") r.authorization)) [
    | inl e ↦ absurd (false≢true (rw (e, check_header) at h))
    | inr (token, e) ↦
        row-Authorized ws token w (after_prefix-append (text "Bearer ") r.authorization token e)
          (rw (e, check_header) at h)
  ]

-- A request passes the middleware as authenticated only if it names its workspace, its `Authorization`
-- header is `Bearer ` and a token, and the table of tokens has a row that is not revoked, whose hash
-- written in hexadecimal is the SHA-256 of the token, whose workspace is that of the request and
-- whose time of expiry, if it has one, is not before the present time.
pub bearer_token_auth-Authorized :
    (stores : Stores) (r : Request)
    → is_authenticated (bearer_token_auth stores r) ≡ true
    → Authorized stores r
unfolding bearer_token_auth
bearer_token_auth-Authorized stores r h = elim (Option-cases r.workspace_id) [
  | inl e ↦ absurd (false≢true (rw (e, bearer_token_auth) at h))
  | inr (ws, e) ↦ elim (Bool-cases (is_public r)) [
    | inl d ↦ absurd (
        false≢true
          (sym (serve_public-unauthenticated stores r ws) ∙ rw (e, d, bearer_token_auth) at h))
    | inr d ↦ header-Authorized stores r ws e (rw (e, d, bearer_token_auth) at h)
  ]
]
