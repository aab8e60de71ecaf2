-- ===== src/Auth/Tokens.antt =====
-- internal/repository/workspace.go: the row that `FindByTokenHashNotRevoked` reads, and the hexadecimal
-- text that `HashToken` of internal/middleware/auth.go writes.
use mathlib.Core.Option.{some-ne-none}
use scim_server_impl_go.Base.{
  ℕ, zero, suc, true, false, not, ◌&&◌, some, List, [], ◌∷◌, ◌≡◌, refl, sym, ◌+◌, ◌*◌, ◌-◌, ◌/◌,
  ◌%◌, ltb, if◌then◌else◌, Bool-cases, Among, arith, inl, inr,
}
use scim_server_impl_go.Text.{Text, same}
use scim_server_impl_go.Text.Laws.{same_iff}
use scim_server_impl_go.Auth.{WorkspaceToken, hex_digit, hex_encode, find_by_token_hash_not_revoked}

-- the value of a hexadecimal digit, and the bytes that a text of such digits writes
abbrev pub digit_value : ℕ → ℕ
digit_value c = if ltb c 58 then c - 48 else c - 87

abbrev pub read_hex : Text → List ℕ
read_hex (h ∷ l ∷ s) = (digit_value h * 16 + digit_value l) ∷ read_hex s
read_hex _ = []

hex_digit_lem : (n : ℕ) → digit_value (hex_digit n) ≡ n
hex_digit_lem n = ground arith

divided : (c : ℕ) → c / 16 * 16 + c % 16 ≡ c
divided c = omega arith

pub read_hex-hex_encode : (bytes : List ℕ) → read_hex (hex_encode bytes) ≡ bytes
unfolding hex_encode
read_hex-hex_encode [] = refl
read_hex-hex_encode (c ∷ bytes) =
    rw (hex_digit_lem (c / 16), hex_digit_lem (c % 16), divided c, read_hex-hex_encode bytes) refl

-- A row of the list with this hash that is not revoked.
abbrev pub IsCurrent : List WorkspaceToken → Text → WorkspaceToken → Type 0
IsCurrent rows hash found = Among found rows × (found.token_hash ≡ hash) × (found.revoked ≡ false)

pub found-IsCurrent :
    (rows : List WorkspaceToken) (hash : Text) (found : WorkspaceToken)
    → find_by_token_hash_not_revoked rows hash ≡ some found
    → IsCurrent rows hash found
unfolding find_by_token_hash_not_revoked
found-IsCurrent [] hash found h = cc
found-IsCurrent (t ∷ rows) hash found h =
    elim (Bool-cases (same t.token_hash hash && not t.revoked)) [
      | inl e ↦
          let here : some t ≡ some found = rw e at h in
          let it : t ≡ found = cc in
          let equal : same t.token_hash hash ≡ true = ground (arith, e) in
          let current : t.revoked ≡ false = ground (arith, e) in
          rw (sym it) ((0, refl), (same_iff t.token_hash hash).0 equal, current)
      | inr e ↦
          let ((i, there), equal, current) = found-IsCurrent rows hash found (rw e at h) in
          ((suc i, there), equal, current)
    ]

pub IsCurrent-found :
    (rows : List WorkspaceToken) (hash : Text) (t : WorkspaceToken)
    → IsCurrent rows hash t
    → (u : WorkspaceToken) × (find_by_token_hash_not_revoked rows hash ≡ some u)
unfolding find_by_token_hash_not_revoked
IsCurrent-found [] hash t ((i, there), equal, current) = absurd (some-ne-none t (sym there))
IsCurrent-found (row ∷ rows) hash t ((zero, there), equal, current) =
    let it : row ≡ t = cc in
    let here : same row.token_hash hash ≡ true = rw it ((same_iff t.token_hash hash).1 equal) in
    let unrevoked : row.revoked ≡ false = rw it current in
    (row, rw (here, unrevoked, find_by_token_hash_not_revoked) refl)
IsCurrent-found (row ∷ rows) hash t ((suc i, there), equal, current) =
    let (u, found) = IsCurrent-found rows hash t ((i, there), equal, current) in
    elim (Bool-cases (same row.token_hash hash && not row.revoked)) [
      | inl e ↦ (row, rw (e, find_by_token_hash_not_revoked) refl)
      | inr e ↦ (u, rw (e, find_by_token_hash_not_revoked) found)
    ]
