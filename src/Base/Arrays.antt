-- ===== src/Base/Arrays.antt =====
-- Arrays of a fixed length `n` as functions on the indexes below `n`, and scans over them.
use Prim.Native.Nat.{ℕ, zero, suc, ◌+◌, ◌<◌, ◌≤◌}
use mathlib.Core.Path.{◌≡◌, refl, sym, ap, ◌∙◌}
use mathlib.Core.Bool.{Bool, true, false, false≢true}
use mathlib.Core.Option.{Option, none, some}
use native.Mathlib.Omega.{arith}
use scim_server_impl_go.Base.Tests.{◌==◌, ltb, ltb→lt, if◌then◌else◌, Bool-cases, Option-cases}
use mathlib.Core.Logic.{◌⊎◌, inl, inr}

-- `a[i] = v`
abbrev pub update {ℓ} : {A : Type ℓ} → (ℕ → A) → ℕ → A → ℕ → A
update a i v j = if i == j then v else a j

-- `for j := 0; j < n; j++ { if p(j) { … break } }`: the first index of which `p` holds
unfoldable pub first_below : ℕ → (ℕ → Bool) → Option ℕ
first_below zero p = none
first_below (suc n) p = elim (first_below n p) [
  | some i ↦ some i
  | none ↦ if p n then some n else none
]

-- the number of indexes below `n` of which `p` holds
unfoldable pub count_below : ℕ → (ℕ → Bool) → ℕ
count_below zero p = 0
count_below (suc n) p = count_below n p + (if p n then 1 else 0)

-- What the first index is.
pub record IsFirst (n : ℕ) (p : ℕ → Bool) (i : ℕ) : Type 0 where
  pub below : i < n
  pub holds : p i ≡ true
  pub first : (j : ℕ) → j < i → p j ≡ false

pub lt-suc_cases : (i n : ℕ) → i < suc n → (i < n) ⊎ (i ≡ n)
lt-suc_cases i n h = grind arith

-- nothing is found only where `p` holds of no index
pub first_below-none :
    (n : ℕ) (p : ℕ → Bool) → first_below n p ≡ none → (i : ℕ) → i < n → p i ≡ false
unfolding first_below
first_below-none zero p e i h = elim h [ ]
first_below-none (suc n) p e i h = elim (Option-cases (first_below n p)) [
  | inl rest ↦ elim (lt-suc_cases i n h) [
    | inl lt ↦ first_below-none n p rest i lt
    | inr at_n ↦ rw at_n (ground arith)
  ]
  | inr (j, found) ↦ ground arith
]

pub first_below-IsFirst : (n : ℕ) (p : ℕ → Bool) (i : ℕ) → first_below n p ≡ some i → IsFirst n p i
unfolding first_below
first_below-IsFirst zero p i e = cc
first_below-IsFirst (suc n) p i e = elim (Option-cases (first_below n p)) [
  | inl rest ↦
      let at_n : (p n ≡ true) × (n ≡ i) = (ground arith, ground arith) in
      record {
        below = omega (arith, at_n.1);
        holds = rw (← at_n.1) at_n.0;
        first = λ j h. first_below-none n p rest j (omega (arith, at_n.1));
      }
  | inr (j, found) ↦
      let same : j ≡ i = ground arith in
      let f = first_below-IsFirst n p i (found ∙ ap some same) in
      record { below = omega (arith, f.below); holds = f.holds; first = f.first }
]

pub first_below-some :
    (n : ℕ) (p : ℕ → Bool) (i : ℕ) → i < n → p i ≡ true → (j : ℕ) × (first_below n p ≡ some j)
first_below-some n p i h e = elim (Option-cases (first_below n p)) [
  | inl missing ↦ absurd (false≢true (sym (first_below-none n p missing i h) ∙ e))
  | inr found ↦ found
]

pub first_below-eq :
    (n : ℕ) (p : ℕ → Bool) (k : ℕ)
    → k < n
    → p k ≡ true
    → ((i : ℕ) → i < k → p i ≡ false)
    → first_below n p ≡ some k
first_below-eq n p k lt holds first =
    let (j, found) = first_below-some n p k lt holds in
    let f = first_below-IsFirst n p j found in found ∙ ap some (at_k j f)
  where
    at_k : (j : ℕ) → IsFirst n p j → j ≡ k
    at_k j f = elim (Bool-cases (ltb j k)) [
      | inl e ↦ absurd (false≢true (sym (first j (ltb→lt j k e)) ∙ f.holds))
      | inr e ↦ elim (Bool-cases (ltb k j)) [
        | inl e' ↦ absurd (false≢true (sym (f.first k (ltb→lt k j e')) ∙ holds))
        | inr e' ↦ ground arith
      ]
    ]

pub count_below-zero : (n : ℕ) (p : ℕ → Bool) → count_below n p ≡ 0 → (i : ℕ) → i < n → p i ≡ false
unfolding count_below
count_below-zero zero p e i h = elim h [ ]
count_below-zero (suc n) p e i h = elim (lt-suc_cases i n h) [
  | inl lt ↦ count_below-zero n p (ground arith) i lt
  | inr at_n ↦ rw at_n (ground arith)
]

pub count_below-bound : (n : ℕ) (p : ℕ → Bool) → count_below n p ≤ n
unfolding count_below
count_below-bound zero p = omega arith
count_below-bound (suc n) p = grind (arith, count_below-bound n p)

pub count_below-pos :
    (n : ℕ) (p : ℕ → Bool) → 0 < count_below n p → (i : ℕ) × (i < n) × (p i ≡ true)
unfolding count_below
count_below-pos zero p h = absurd (omega arith)
count_below-pos (suc n) p h = elim (Bool-cases (p n)) [
  | inl e ↦ (n, omega arith, e)
  | inr e ↦ let (i, lt, holds) = count_below-pos n p (ground arith) in (i, omega arith, holds)
]

pub count_below-ext :
    (n : ℕ) (p q : ℕ → Bool) → ((i : ℕ) → i < n → p i ≡ q i) → count_below n p ≡ count_below n q
unfolding count_below
count_below-ext zero p q h = refl
count_below-ext (suc n) p q h =
    ground (arith, count_below-ext n p q (λ i lt. h i (omega arith)), h n (omega arith))

-- clearing one index takes it out of the count
pub count_below-update :
    (n : ℕ) (p : ℕ → Bool) (i : ℕ)
    → i < n
    → p i ≡ true
    → count_below n (update p i false) + 1 ≡ count_below n p
unfolding count_below
count_below-update zero p i h e = elim h [ ]
count_below-update (suc n) p i h e = elim (lt-suc_cases i n h) [
  | inl lt ↦ ground (arith, count_below-update n p i lt e)
  | inr at_n ↦
      ground (arith, count_below-ext n (update p i false) p (λ j lt. other j (omega (arith, at_n))))
]
  where
    other : (j : ℕ) → j < i → update p i false j ≡ p j
    other j lt = ground arith
