-- ===== src/Filter/Like.antt =====
-- internal/scim/filter.go: the patterns of `co`, `sw` and `ew`, against the meaning of `LIKE`.
use scim_server_impl_go.Base.{
  ℕ, Bool, true, false, ◌||◌, [], ◌∷◌, ◌++◌, ◌==◌, ◌≡◌, refl, sym, ap, ◌∙◌, subst, ◌↔◌, inl, inr,
  Bool-cases, if◌then◌else◌, arith,
}
use mathlib.Core.List.{append-nil}
use scim_server_impl_go.Text.{Text}
use scim_server_impl_go.Filter.Conditions.{escape_like_value, containing, starting, ending}

-- `s LIKE pattern` in SQL: `%` stands for any text, `_` for one character, a backslash makes the next
-- character literal, and any other character stands for itself.
-- The first argument is whether a backslash stands in front of the pattern.
unfoldable pub LikeFrom : Bool → Text → Text → Type 0
LikeFrom true [] s = ⊥
LikeFrom true (c ∷ pattern) s = (b : Text) × (s ≡ c ∷ b) × LikeFrom false pattern b
LikeFrom false [] s = s ≡ []
LikeFrom false (c ∷ pattern) s =
    if c == b'%'
    then ((a : Text) × (b : Text) × (s ≡ a ++ b) × LikeFrom false pattern b)
    else if c == b'_'
    then ((d : ℕ) × (b : Text) × (s ≡ d ∷ b) × LikeFrom false pattern b)
    else if c == 92
    then LikeFrom true pattern s
    else ((b : Text) × (s ≡ c ∷ b) × LikeFrom false pattern b)

abbrev pub Like : Text → Text → Type 0
Like = LikeFrom false

-- what stands behind an escaped text, and the text in front of it
abbrev Behind : Text → Text → Text → Type 0
Behind v pattern s = (b : Text) × (s ≡ v ++ b) × Like pattern b

-- a special character is escaped, and any other one stands for itself
escape-special :
    (c : ℕ) (v : Text)
    → (c == b'%' || c == b'_' || c == 92) ≡ true
    → escape_like_value (c ∷ v) ≡ 92 ∷ c ∷ escape_like_value v
unfolding escape_like_value
escape-special c v e = rw e refl

escape-plain :
    (c : ℕ) (v : Text)
    → (c == b'%' || c == b'_' || c == 92) ≡ false
    → escape_like_value (c ∷ v) ≡ c ∷ escape_like_value v
unfolding escape_like_value
escape-plain c v e = rw e refl

Like-plain :
    (c : ℕ) (pattern s : Text)
    → (c == b'%' || c == b'_' || c == 92) ≡ false
    → Like (c ∷ pattern) s ≡ ((b : Text) × (s ≡ c ∷ b) × Like pattern b)
unfolding LikeFrom
Like-plain c pattern s e =
    let p : (c == b'%') ≡ false = ground arith in
    let u : (c == b'_') ≡ false = ground arith in
    let k : (c == 92) ≡ false = ground arith in rw (p, u, k) refl

Like-escaped :
    (c : ℕ) (v pattern s : Text)
    → Like (escape_like_value (c ∷ v) ++ pattern) s
      ≡ ((b : Text) × (s ≡ c ∷ b) × Like (escape_like_value v ++ pattern) b)
unfolding LikeFrom
Like-escaped c v pattern s = elim (Bool-cases (c == b'%' || c == b'_' || c == 92)) [
  | inl e ↦ rw (escape-special c v e) refl
  | inr e ↦ rw (escape-plain c v e) (Like-plain c (escape_like_value v ++ pattern) s e)
]

Like-Behind : (v pattern s : Text) → Like (escape_like_value v ++ pattern) s → Behind v pattern s
unfolding escape_like_value
Like-Behind [] pattern s h = (s, refl, h)
Like-Behind (c ∷ v) pattern s h =
    let (b, e, rest) = subst (λ X. X) (Like-escaped c v pattern s) h in
    let (d, e', l) = Like-Behind v pattern b rest in (d, e ∙ ap (λ z. c ∷ z) e', l)

Behind-Like : (v pattern s : Text) → Behind v pattern s → Like (escape_like_value v ++ pattern) s
unfolding escape_like_value
Behind-Like [] pattern s (b, e, h) = rw e h
Behind-Like (c ∷ v) pattern s (b, e, h) =
    subst (λ X. X) (sym (Like-escaped c v pattern s))
      (v ++ b, e, Behind-Like v pattern (v ++ b) (b, refl, h))

-- what `LIKE` with a pattern is to mean
abbrev pub Contains : Text → Text → Type 0
Contains v s = (a : Text) × (b : Text) × (s ≡ a ++ (v ++ b))

abbrev pub Starts : Text → Text → Type 0
Starts v s = (b : Text) × (s ≡ v ++ b)

abbrev pub Ends : Text → Text → Type 0
Ends v s = (a : Text) × (s ≡ a ++ v)

any_rest : (s : Text) → Like (b'%' ∷ []) s
unfolding LikeFrom
any_rest s = (s, [], sym (append-nil s), refl)

-- For every value, a text matches the pattern of `co` exactly when it contains the value, the pattern of
-- `sw` exactly when it starts with it, and the pattern of `ew` exactly when it ends with it, so that `%`,
-- `_` and `\` of the value stand for themselves.
pub escape_like_value_lem :
    (v s : Text)
    → (Like (containing v) s ↔ Contains v s)
      × (Like (starting v) s ↔ Starts v s)
      × (Like (ending v) s ↔ Ends v s)
unfolding LikeFrom
escape_like_value_lem v s = (
  (
    λ (a, b, e, h).
        let (r, e', _) = Like-Behind v (b'%' ∷ []) b h in (a, r, e ∙ ap (λ z. a ++ z) e'),
    λ (a, r, e). (a, v ++ r, e, Behind-Like v (b'%' ∷ []) (v ++ r) (r, refl, any_rest r)),
  ),
  (
    λ h. let (r, e, _) = Like-Behind v (b'%' ∷ []) s h in (r, e),
    λ (r, e). Behind-Like v (b'%' ∷ []) s (r, e, any_rest r),
  ),
  (
    λ (a, b, e, h).
        let (r, e', n) = Like-Behind v [] b (rw (append-nil (escape_like_value v)) h) in
        (a, e ∙ ap (λ z. a ++ z) (e' ∙ ap (λ z. v ++ z) n ∙ append-nil v)),
    λ (a, e). (
      a,
      v,
      e,
      rw (append-nil (escape_like_value v)) at (Behind-Like v [] v ([], sym (append-nil v), refl)),
    ),
  ),
)
