-- ===== src/Filter/Sound.antt =====
-- internal/scim/filter.go: what a SQL text has to be, and the rule for a sequence of calls.
pub mod Columns
pub mod Conditions
pub mod Elements
pub mod Comparison
pub mod Reads
pub mod ValuePath
pub mod Descent
pub mod Answers
use scim_server_impl_go.Base.{
  ℕ, zero, suc, ◌+◌, ◌≤◌, ◌<◌, String, Bool, true, false, Option, none, some, List, [], ◌∷◌, ◌++◌,
  ◌≡◌, refl, sym, ap, ◌∙◌, length, arith, if◌then◌else◌,
}
use scim_server_impl_go.Filter.{
  Piece, lit, dyn, placeholder, Arg, FilterResult, FilterParser, Outcome, parsed, refused,
  exhausted, Parser, after, ◌>>=◌, next_param, or_refuse, next, peek, Token,
}

-- No text of the request stands in the SQL, and its placeholders are `m`, `m + 1`, … up to `n`.
abbrev pub Numbered : ℕ → ℕ → List Piece → Type 0
Numbered m n [] = m ≡ n
Numbered m n (lit s ∷ sql) = Numbered m n sql
Numbered m n (dyn s ∷ sql) = ⊥
Numbered m n (placeholder k ∷ sql) = (k ≡ m) × Numbered (suc m) n sql

pub Numbered-append :
    (m k n : ℕ) (sql sql' : List Piece)
    → Numbered m k sql
    → Numbered k n sql'
    → Numbered m n (sql ++ sql')
Numbered-append m k n [] sql' h h' = rw h h'
Numbered-append m k n (lit s ∷ sql) sql' h h' = Numbered-append m k n sql sql' h h'
Numbered-append m k n (dyn s ∷ sql) sql' h h' = h
Numbered-append m k n (placeholder j ∷ sql) sql' h h' =
    (h.0, Numbered-append (suc m) k n sql sql' h.1 h')

-- A call that goes on from `p` to `p'`: its SQL has the placeholders that it took, `args` of them.
abbrev pub Step : List Piece → ℕ → FilterParser → FilterParser → Type 0
Step sql args p p' =
    Numbered p.param_idx p'.param_idx sql
    × (p.param_idx + args ≡ p'.param_idx)
    × (length p'.tokens ≤ length p.tokens)

abbrev pub Built : FilterParser → FilterResult → FilterParser → Type 0
Built p r p' = Step r.sql (length r.args) p p'

-- What a call gives, if it is not refused, satisfies `P`, and it does not run out of fuel.
pub data Ensures {ℓ κ} {A : Type ℓ} (P : A → FilterParser → Type κ) : Outcome A → Type (ℓ ⊔ κ) where
  ensured : {a : A} {p : FilterParser} → P a p → Ensures P (parsed a p)
  refusal : Ensures P refused

pub Ensures-after {ℓ κ ι ι'} :
    {A : Type ℓ} {B : Type κ} {P : A → FilterParser → Type ι} {Q : B → FilterParser → Type ι'}
    {m : Outcome A} (f : A → Parser B)
    → Ensures P m
    → ((a : A) (p : FilterParser) → P a p → Ensures Q (f a p))
    → Ensures Q (after m f)
Ensures-after f (ensured {a = a} {p = p} h) k = k a p h
Ensures-after f refusal k = refusal

pub Ensures-weaken {ℓ κ ι} :
    {A : Type ℓ} {P : A → FilterParser → Type κ} {Q : A → FilterParser → Type ι} {m : Outcome A}
    → Ensures P m
    → ((a : A) (p : FilterParser) → P a p → Q a p)
    → Ensures Q m
Ensures-weaken (ensured {a = a} {p = p} h) k = ensured (k a p h)
Ensures-weaken refusal k = refusal

-- what an optional result satisfies, if there is one
abbrev pub OnSome {ℓ κ} : {A : Type ℓ} → (A → Type κ) → Option A → Type κ
OnSome P none = Unit
OnSome P (some a) = P a

pub or_refuse-Ensures {ℓ κ} :
    {A : Type ℓ} {P : A → FilterParser → Type κ} (o : Option A) (p : FilterParser)
    → OnSome (λ a. P a p) o
    → Ensures P (or_refuse o p)
or_refuse-Ensures none p h = refusal
or_refuse-Ensures (some a) p h = ensured h
