-- ===== src/Cursor/Message.antt =====
-- internal/scim/cursor.go, `computeCursorHMAC`: the text that is signed determines what it is made of.
use scim_server_impl_go.Base.{
  ℕ, zero, suc, ◌+◌, ◌-◌, ◌*◌, ◌/◌, ◌%◌, ◌≤◌, ◌<◌, Bool, true, false, Option, none, some, [], ◌∷◌,
  ◌++◌, ◌≡◌, ◌≢◌, refl, sym, ap, ◌∙◌, inl, inr, ◌==◌, if◌then◌else◌, Bool-cases, arith, ℤ, pos,
  negsuc, is_positive, ltb, All, All-append, All-weaken, subst,
}
use scim_server_impl_go.Text.{Text, split_at}
use scim_server_impl_go.Cursor.{digits, decimal, clip, cursor_message}

-- the number that digits stand for
abbrev value : ℕ → Text → ℕ
value n [] = n
value n (c ∷ s) = value (n * 10 + (c - b'0')) s

value-append : (n : ℕ) (s : Text) (c : ℕ) → value n (s ++ c ∷ []) ≡ value n s * 10 + (c - b'0')
value-append n [] c = refl
value-append n (d ∷ s) c = value-append (n * 10 + (d - b'0')) s c

ltb-false : (a b : ℕ) → ltb a b ≡ false → b ≤ a
ltb-false a b h = ground arith

value-digits : (fuel n : ℕ) → n ≤ fuel → value 0 (digits fuel n) ≡ n
unfolding digits
value-digits zero n h = omega (arith, h)
value-digits (suc fuel) n h = elim (Bool-cases (ltb n 10)) [
  | inl e ↦ rw e (omega arith)
  | inr e ↦
      rw (e, value-append 0 (digits fuel (n / 10)) (b'0' + n % 10))
        (omega (arith, value-digits fuel (n / 10) (omega (arith, h, ltb-false n 10 e))))
]

-- no separator, and no sign
abbrev pub IsDigit : ℕ → Type 0
IsDigit c = (b'0' ≤ c) × (c < b':')

pub digits-IsDigit : (fuel n : ℕ) → All IsDigit (digits fuel n)
unfolding digits
digits-IsDigit zero n = ((omega arith, omega arith), tt)
digits-IsDigit (suc fuel) n = elim (Bool-cases (ltb n 10)) [
  | inl e ↦ rw e ((omega arith, ground arith), tt)
  | inr e ↦ rw e (
      All-append IsDigit (digits fuel (n / 10)) ((b'0' + n % 10) ∷ [])
        (digits-IsDigit fuel (n / 10)) ((omega arith, omega arith), tt))
]

digits-injective : (m n : ℕ) → digits m m ≡ digits n n → m ≡ n
digits-injective m n e =
    sym (value-digits m m (omega arith)) ∙ ap (value 0) e ∙ value-digits n n (omega arith)

abbrev pub NoBar : Text → Type 0
NoBar s = All (λ c. c ≢ b'|') s

decimal-NoBar : (n : ℤ) → NoBar (decimal n)
unfolding decimal
decimal-NoBar (pos n) =
    All-weaken (λ c h e. absurd (omega (arith, h, e))) (digits n n) (digits-IsDigit n n)
decimal-NoBar (negsuc n) = (
  λ e. absurd (omega (arith, e)),
  All-weaken (λ c h e. absurd (omega (arith, h, e))) (digits (suc n) (suc n))
      (digits-IsDigit (suc n) (suc n)),
)

digits-minus : (n m : ℕ) (s : Text) → digits n m ≢ b'-' ∷ s
digits-minus n m s e =
    let h : All IsDigit (b'-' ∷ s) = subst (All IsDigit) e (digits-IsDigit n m) in
    absurd (omega (arith, h.0))

pub decimal-injective : (m n : ℤ) → decimal m ≡ decimal n → m ≡ n
unfolding decimal
decimal-injective (pos m) (pos n) e = ap pos (digits-injective m n e)
decimal-injective (pos m) (negsuc n) e = absurd (digits-minus m m (digits (suc n) (suc n)) e)
decimal-injective (negsuc m) (pos n) e = absurd (digits-minus n n (digits (suc m) (suc m)) (sym e))
decimal-injective (negsuc m) (negsuc n) e =
    let tails : digits (suc m) (suc m) ≡ digits (suc n) (suc n) = cc in
    let same : suc m ≡ suc n = digits-injective (suc m) (suc n) tails in
    ap negsuc (omega (arith, same))

pub split_at-bar : (a b : Text) → NoBar a → split_at b'|' (a ++ b'|' ∷ b) ≡ some (a, b)
unfolding split_at
split_at-bar [] b h = refl
split_at-bar (c ∷ a) b h =
    let other : (c == b'|') ≡ false = grind (arith, h.0) in rw (other, split_at-bar a b h.1) refl

split_at-none : (a : Text) → NoBar a → split_at b'|' a ≡ none
unfolding split_at
split_at-none [] h = refl
split_at-none (c ∷ a) h =
    let other : (c == b'|') ≡ false = grind (arith, h.0) in rw (other, split_at-none a h.1) refl

append_assoc : (a b c : Text) → (a ++ b) ++ c ≡ a ++ (b ++ c)
append_assoc [] b c = refl
append_assoc (x ∷ a) b c = ap (λ s. x ∷ s) (append_assoc a b c)

-- offset, expiry and page size, behind the workspace
abbrev claims : ℤ → ℤ → ℤ → Text
claims o e p =
    decimal o ++ b'|' ∷ (if is_positive p then decimal e ++ b'|' ∷ decimal p else decimal e)

cursor_message-claims :
    (ws : Text) (o e p : ℤ) → cursor_message ws o e p ≡ ws ++ b'|' ∷ claims o e p
unfolding cursor_message
cursor_message-claims ws o e p = elim (Bool-cases (is_positive p)) [
  | inl h ↦ rw h (
      append_assoc ws (b'|' ∷ (decimal o ++ b'|' ∷ decimal e)) (b'|' ∷ decimal p)
      ∙ ap (λ s. ws ++ b'|' ∷ s) (append_assoc (decimal o) (b'|' ∷ decimal e) (b'|' ∷ decimal p)))
  | inr h ↦ rw h refl
]

-- the parts of a text that two splits agree on
split-injective :
    (a b a' b' : Text) → NoBar a → NoBar a' → a ++ b'|' ∷ b ≡ a' ++ b'|' ∷ b' → (a ≡ a') × (b ≡ b')
split-injective a b a' b' h h' e =
    let both : ◌≡◌ {A = Option (Text × Text)} (some (a, b)) (some (a', b')) =
      sym (split_at-bar a b h) ∙ ap (split_at b'|') e ∙ split_at-bar a' b' h' in
    (cc, cc)

-- a text without the separator is none with it
no-split : (a b c : Text) → NoBar a → NoBar b → a ≢ b ++ b'|' ∷ c
no-split a b c h h' e =
    let both : ◌≡◌ {A = Option (Text × Text)} none (some (b, c)) =
      sym (split_at-none a h) ∙ ap (split_at b'|') e ∙ split_at-bar b c h' in
    cc

-- a page size that is not positive is clipped to 0
clip-not_positive : (p : ℤ) → is_positive p ≡ false → clip p ≡ pos 0
clip-not_positive (pos n) h = ap pos (ground arith)
clip-not_positive (negsuc n) h = refl

tails-injective :
    (e e' p p' : ℤ) (b b' : Bool)
    → is_positive p ≡ b
    → is_positive p' ≡ b'
    → (if b then decimal e ++ b'|' ∷ decimal p else decimal e)
      ≡ (if b' then decimal e' ++ b'|' ∷ decimal p' else decimal e')
    → (e ≡ e') × (clip p ≡ clip p')
tails-injective e e' p p' true true h h' eq =
    let parts =
      split-injective (decimal e) (decimal p) (decimal e') (decimal p') (decimal-NoBar e)
        (decimal-NoBar e') eq in
    (decimal-injective e e' parts.0, ap clip (decimal-injective p p' parts.1))
tails-injective e e' p p' true false h h' eq =
    absurd
      (no-split (decimal e') (decimal e) (decimal p) (decimal-NoBar e') (decimal-NoBar e) (sym eq))
tails-injective e e' p p' false true h h' eq =
    absurd (no-split (decimal e) (decimal e') (decimal p') (decimal-NoBar e) (decimal-NoBar e') eq)
tails-injective e e' p p' false false h h' eq =
    (decimal-injective e e' eq, clip-not_positive p h ∙ sym (clip-not_positive p' h'))

-- The text that `computeCursorHMAC` signs determines the workspace, the offset, the expiry and the page
-- size, up to page sizes that are not positive, for workspaces without the separator.
pub cursor_message-injective :
    (ws ws' : Text) (o o' e e' p p' : ℤ)
    → NoBar ws
    → NoBar ws'
    → cursor_message ws o e p ≡ cursor_message ws' o' e' p'
    → (ws ≡ ws') × (o ≡ o') × (e ≡ e') × (clip p ≡ clip p')
cursor_message-injective ws ws' o o' e e' p p' h h' eq =
    let split =
      split-injective ws (claims o e p) ws' (claims o' e' p') h h'
        (sym (cursor_message-claims ws o e p) ∙ eq ∙ cursor_message-claims ws' o' e' p') in
    let split' =
      split-injective (decimal o)
        (if is_positive p then decimal e ++ b'|' ∷ decimal p else decimal e) (decimal o')
        (if is_positive p' then decimal e' ++ b'|' ∷ decimal p' else decimal e') (decimal-NoBar o)
        (decimal-NoBar o') split.1 in
    let rest = tails-injective e e' p p' (is_positive p) (is_positive p') refl refl split'.1 in
    (split.0, decimal-injective o o' split'.0, rest.0, rest.1)
