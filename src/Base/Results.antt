-- ===== src/Base/Results.antt =====
-- Errors as values: `ScimError` of internal/scim/error.go and the result of a fallible call.
use Prim.Native.Nat.{ℕ}
use Prim.Native.String.{String}
use mathlib.Core.Path.{◌≡◌, subst}

-- The HTTP status and the `scimType`; the English `Detail` is not modelled.
pub record ScimError : Type 0 where
  pub status : ℕ
  pub scim_type : String

pub data Result {ℓ} (A : Type ℓ) : Type ℓ where
  ok : A → Result A
  err : ScimError → Result A

-- `NewScimError(400, …)`
abbrev pub bad_request {ℓ} : {A : Type ℓ} → String → Result A
bad_request typ = err (record { status = 400; scim_type = typ })

-- `if err != nil { return err }`
infixl 5 ◌>>=◌
abbrev pub ◌>>=◌ {ι ℓ} : {S : Type ι} {T : Type ℓ} → Result S → (S → Result T) → Result T
err refusal >>= next = err refusal
ok value >>= next = next value

pub ok-injective {ℓ} : {A : Type ℓ} {a b : A} → ok a ≡ ok b → a ≡ b
ok-injective h = cc

-- The partial-correctness view of a result: whatever it returns satisfies `P`.
pub data Returns {ℓ κ} {A : Type ℓ} (P : A → Type κ) : Result A → Type (ℓ ⊔ κ) where
  returned : {a : A} → P a → Returns P (ok a)
  refused : {e : ScimError} → Returns P (err e)

pub Returns-bind {ℓ κ ι ι'} :
    {A : Type ℓ} {B : Type κ} {P : A → Type ι} {Q : B → Type ι'} {m : Result A} (f : A → Result B)
    → Returns P m
    → ((a : A) → P a → Returns Q (f a))
    → Returns Q (m >>= f)
Returns-bind f (returned {a} h) k = k a h
Returns-bind f refused k = refused

-- where nothing is needed of the first result
pub Returns-then {ℓ κ ι} :
    {A : Type ℓ} {B : Type κ} {Q : B → Type ι} (m : Result A) (f : A → Result B)
    → ((a : A) → Returns Q (f a))
    → Returns Q (m >>= f)
Returns-then (ok a) f k = k a
Returns-then (err e) f k = refused

pub Returns-elim {ℓ κ} :
    {A : Type ℓ} {P : A → Type κ} {m : Result A} {a : A} → Returns P m → m ≡ ok a → P a
Returns-elim {P = P} (returned h) e = subst P (ok-injective e) h
Returns-elim refused e = cc

pub Returns-weaken {ℓ κ ι} :
    {A : Type ℓ} {P : A → Type κ} {Q : A → Type ι} {m : Result A}
    → Returns P m
    → ((a : A) → P a → Q a)
    → Returns Q m
Returns-weaken (returned {a = a} h) k = returned (k a h)
Returns-weaken refused k = refused
