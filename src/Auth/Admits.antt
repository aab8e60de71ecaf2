-- ===== src/Auth/Admits.antt =====
-- internal/middleware/auth.go: which requests are let in.
use mathlib.Core.Option.{some-injective}
use scim_server_impl_go.Base.{
  ℕ, true, false, some, [], ◌∷◌, ◌++◌, ◌≡◌, inl, inr, refl, sym, ◌∙◌, and_false, arith, ◌==◌, List,
  Among, ℤ, less, Option-cases, ap, ==_iff,
}
use scim_server_impl_go.Text.{
  Text, text, same, is_space, is_empty, trim_left, trim_right, trim_space,
}
use scim_server_impl_go.Text.Laws.{same_iff}
use scim_server_impl_go.Auth.Tokens.{IsCurrent, found-IsCurrent, IsCurrent-found}
use scim_server_impl_go.Auth.Bearer.{Authorized, is_authenticated}
use scim_server_impl_go.Auth.{
  Stores, Request, WorkspaceToken, after_prefix, has_suffix, is_public, is_expired, hash_token,
  query_token, find_by_token_hash_not_revoked, check_found, check_token, check_header,
  bearer_token_auth,
}

-- Of the tokens that are not revoked, no two have the same hash.
abbrev pub AreDistinct : List WorkspaceToken → Type 0
AreDistinct rows =
    (a b : WorkspaceToken)
    → Among a rows
    → Among b rows
    → a.revoked ≡ false
    → b.revoked ≡ false
    → a.token_hash ≡ b.token_hash
    → a ≡ b

append-after_prefix : (p t : Text) → after_prefix p (p ++ t) ≡ some t
unfolding after_prefix
append-after_prefix [] t = refl
append-after_prefix (c ∷ p) t =
    let first : (c == c) ≡ true = (==_iff c c).1 refl in
    rw (first, after_prefix) (append-after_prefix p t)

trim_right-is_empty :
    (c : ℕ) (s : Text) → is_space c ≡ false → is_empty (trim_right is_space (c ∷ s)) ≡ false
unfolding trim_right
trim_right-is_empty c s h = rw (h, trim_right) (ground arith)

trim_space-is_empty :
    (c : ℕ) (s : Text) → is_space c ≡ false → is_empty (trim_space (c ∷ s)) ≡ false
unfolding trim_space trim_left
trim_space-is_empty c s h = rw (h, trim_space, trim_left) (trim_right-is_empty c s h)

bearer-is_empty : (t : Text) → is_empty (trim_space (text "Bearer " ++ t)) ≡ false
unfolding is_space text
bearer-is_empty t = trim_space-is_empty b'B' (text "earer " ++ t) refl

bearer-is_public :
    (r : Request) (t : Text) → r.authorization ≡ text "Bearer " ++ t → is_public r ≡ false
unfolding is_public
bearer-is_public r t e =
    rw (e, bearer-is_empty t, is_public)
      (and_false (same r.method (text "GET"))
        (has_suffix (trim_right (λ c. c == b'/') r.path) (text "/ServiceProviderConfig")))

less-is_expired :
    (stores : Stores) (found : WorkspaceToken)
    → ((t : ℤ) → found.expires_at ≡ some t → less t stores.now ≡ false)
    → is_expired stores found ≡ false
unfolding is_expired
less-is_expired stores found h = elim (Option-cases found.expires_at) [
  | inl e ↦ rw (e, is_expired) refl
  | inr (t, e) ↦ rw (e, is_expired) (h t e)
]

IsCurrent-first :
    (rows : List WorkspaceToken) (hash : Text) (found : WorkspaceToken)
    → AreDistinct rows
    → IsCurrent rows hash found
    → find_by_token_hash_not_revoked rows hash ≡ some found
IsCurrent-first rows hash found distinct (among, equal, current) =
    let (u, read) = IsCurrent-found rows hash found (among, equal, current) in
    let (among', equal', current') = found-IsCurrent rows hash u read in
    read ∙ ap some (distinct u found among' among current' current (equal' ∙ sym equal))

check_found-authenticated :
    (stores : Stores) (ws : Text) (found : WorkspaceToken)
    → found.workspace_id ≡ ws
    → is_expired stores found ≡ false
    → is_authenticated (check_found stores ws found) ≡ true
unfolding check_found
check_found-authenticated stores ws found its_own unexpired =
    let own : same found.workspace_id ws ≡ true = (same_iff found.workspace_id ws).1 its_own in
    rw (own, unexpired, check_found) refl

-- Where the table of tokens can be read and no two of its tokens that are not revoked have the same hash,
-- a request passes as authenticated that names its workspace, has the header `Bearer ` and a token, and
-- whose token has a row of this workspace with its hash that is neither revoked nor expired.
pub Authorized-bearer_token_auth :
    (stores : Stores) (r : Request) (rows : List WorkspaceToken)
    → stores.tokens ≡ some rows
    → AreDistinct rows
    → Authorized stores r
    → is_authenticated (bearer_token_auth stores r) ≡ true
unfolding bearer_token_auth check_header check_token query_token check_found
Authorized-bearer_token_auth stores r rows stored distinct
      (ws, token, rows', found, w, a, stored', among, current, equal, hashed, its_own, unexpired) =
    let same_rows : rows' ≡ rows = some-injective _ _ (sym stored' ∙ stored) in
    let read : find_by_token_hash_not_revoked rows (hash_token stores token) ≡ some found =
      IsCurrent-first rows _ found distinct (rw same_rows at among, equal, current) in
    rw (w, bearer_token_auth)
      (rw (bearer-is_public r token a) (
        rw (a, check_header)
          (rw (append-after_prefix (text "Bearer ") token) (
            rw (stored, check_token, query_token)
              (rw read (
                check_found-authenticated stores ws found its_own
                  (less-is_expired stores found unexpired)))))))
