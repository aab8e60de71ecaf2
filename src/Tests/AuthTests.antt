-- ===== src/Tests/AuthTests.antt =====
-- internal/middleware/auth.go on concrete requests.
use scim_server_impl_go.Base.{
  ℕ, pos, ◌≡◌, refl, true, none, some, ◌∷◌, String, Bool, false, List, [], length, zero, suc, Among,
  less, ap, sym, ◌∙◌, false≢true,
}
use scim_server_impl_go.Text.{Text, text, same, is_space, trim_left, trim_right, trim_space}
use scim_server_impl_go.Auth.{
  Stores, Request, WorkspaceToken, unauthorized, unauthenticated, authenticated, has_suffix,
  after_prefix, is_public, hex_encode, hash_token, find_by_token_hash_not_revoked, query_token,
  is_expired, principal, serve_public, check_found, check_token, check_header, bearer_token_auth,
}
use scim_server_impl_go.Auth.Bearer.{Authorized, is_authenticated, bearer_token_auth-Authorized}
use mathlib.Core.Option.{some-ne-none, some-injective}
use scim_server_impl_go.Auth.Admits.{AreDistinct, Authorized-bearer_token_auth}

-- what the tests of this file compute with
auth_code : Unit {0}
unfolding text same is_space trim_left trim_right trim_space has_suffix after_prefix is_public
    hex_encode hash_token find_by_token_hash_not_revoked query_token is_expired principal
    serve_public check_found check_token check_header bearer_token_auth
auth_code = tt

-- a stand-in for SHA-256: the length of the text is enough to tell these tokens apart
abbrev short_hash : Text → List ℕ
short_hash token = (171 ∷ length token ∷ [])

abbrev issued_at : String → String → Bool → WorkspaceToken
issued_at ws hash revoked = record {
  id = text "4711";
  workspace_id = text ws;
  token_hash = text hash;
  name = none;
  description = none;
  expires_at = some (pos 10);
  revoked = revoked;
  created_at = pos 0;
  updated_at = pos 0;
}

-- the tokens of one to three letters, of which the second is revoked
abbrev issued : List WorkspaceToken
issued = issued_at "w2" "ab03" false ∷ issued_at "w1" "ab02" true ∷ issued_at "w1" "ab01" false ∷ []

abbrev stores_at : ℕ → Stores
stores_at now = record {
  tokens = some issued;
  workspace_repo = some (λ ws. some (record { created_by_username = some (text " ann ") }));
  sha256 = short_hash;
  now = pos now;
}

abbrev get : String → String → String → Request
get ws path header = record {
  workspace_id = some (text ws);
  method = text "GET";
  path = text path;
  authorization = text header;
}

accepted :
    bearer_token_auth (stores_at 9) (get "w1" "/Users" "Bearer t")
    ≡ authenticated (some (text "ann"))
unfolding auth_code
accepted = refl

expired : bearer_token_auth (stores_at 11) (get "w1" "/Users" "Bearer t") ≡ unauthorized
unfolding auth_code
expired = refl

foreign : bearer_token_auth (stores_at 9) (get "w2" "/Users" "Bearer t") ≡ unauthorized
unfolding auth_code
foreign = refl

revoked_token : bearer_token_auth (stores_at 9) (get "w1" "/Users" "Bearer tt") ≡ unauthorized
unfolding auth_code
revoked_token = refl

unknown : bearer_token_auth (stores_at 9) (get "w1" "/Users" "Bearer tttt") ≡ unauthorized
unfolding auth_code
unknown = refl

discovery :
    bearer_token_auth (stores_at 9) (get "w1" "/ServiceProviderConfig/" " ") ≡ unauthenticated
unfolding auth_code
discovery = refl

passes : is_authenticated (bearer_token_auth (stores_at 9) (get "w1" "/Users" "Bearer t")) ≡ true
unfolding auth_code
passes = refl

bearer_token_auth-Authorized_example : Authorized (stores_at 9) (get "w1" "/Users" "Bearer t")
bearer_token_auth-Authorized_example =
    bearer_token_auth-Authorized (stores_at 9) (get "w1" "/Users" "Bearer t") passes

-- a token that was revoked and given out again
abbrev renewed : List WorkspaceToken
renewed = issued_at "w1" "ab01" true ∷ issued_at "w1" "ab01" false ∷ []

abbrev after_renewal : Stores
after_renewal = record {
  tokens = some renewed;
  workspace_repo = none;
  sha256 = short_hash;
  now = pos 9;
}

renewed_lem :
    (a : WorkspaceToken) → Among a renewed → a.revoked ≡ false → a ≡ issued_at "w1" "ab01" false
renewed_lem a (zero, there) current =
    absurd (false≢true (sym current ∙ ap (λ t. t.revoked) (sym (some-injective _ a there))))
renewed_lem a (suc zero, there) current = sym (some-injective _ a there)
renewed_lem a (suc (suc i), there) current = absurd (some-ne-none a (sym there))

renewed-AreDistinct : AreDistinct renewed
renewed-AreDistinct a b among_a among_b current_a current_b equal =
    renewed_lem a among_a current_a ∙ sym (renewed_lem b among_b current_b)

renewed-Authorized : Authorized after_renewal (get "w1" "/Users" "Bearer t")
unfolding auth_code
renewed-Authorized = (
  text "w1",
  text "t",
  renewed,
  issued_at "w1" "ab01" false,
  refl,
  refl,
  refl,
  (1, refl),
  refl,
  refl,
  refl,
  refl,
  λ t e. ap (λ s. less s (pos 9)) (sym (some-injective (pos 10) t e)),
)

Authorized-bearer_token_auth_example :
    is_authenticated (bearer_token_auth after_renewal (get "w1" "/Users" "Bearer t")) ≡ true
Authorized-bearer_token_auth_example =
    Authorized-bearer_token_auth after_renewal (get "w1" "/Users" "Bearer t") renewed refl
      renewed-AreDistinct renewed-Authorized
