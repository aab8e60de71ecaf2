-- ===== src/Response/Etag.antt =====
-- internal/handler/base.go: the precondition of `If-Match`.
use scim_server_impl_go.Base.{
  ℕ, suc, ℤ, pos, negsuc, Bool, true, false, ◌||◌, ◌≡◌, ◌↔◌, refl, sym, ap, ◌∙◌, [], ◌∷◌, ◌++◌,
  ◌==◌, Option, none, some, ◌≤◌, ◌<◌, any, arith, All, All-weaken,
}
use scim_server_impl_go.Text.{
  Text, text, is_empty, same, trim_space, is_space, trim_left, trim_right, split_at,
}
use scim_server_impl_go.Text.Laws.{same_iff}
use scim_server_impl_go.Cursor.{digits, decimal}
use scim_server_impl_go.Cursor.Message.{IsDigit, digits-IsDigit, decimal-injective}
use scim_server_impl_go.Response.{split}

-- `fmt.Sprintf("W/\"%d\"", version)`
unfoldable pub entity_tag : ℤ → Text
entity_tag version = b'W' ∷ b'/' ∷ b'"' ∷ (decimal version ++ b'"' ∷ [])

unfoldable pub check_etag_match : Text → ℤ → Bool
check_etag_match if_match version =
    let trimmed = trim_space if_match in
    is_empty trimmed
    || same trimmed (text "*")
    || any
        (λ part. same (trim_space part) (text "*") || same (trim_space part) (entity_tag version))
        (split b',' trimmed)

-- a digit or a sign
abbrev IsPlain : ℕ → Type 0
IsPlain c = (b'-' ≤ c) × (c < b':')

digit-IsPlain : (c : ℕ) → IsDigit c → IsPlain c
digit-IsPlain c h = (omega (arith, h.0), h.1)

decimal-IsPlain : (n : ℤ) → All IsPlain (decimal n)
unfolding decimal
decimal-IsPlain (pos n) = All-weaken digit-IsPlain (digits n n) (digits-IsDigit n n)
decimal-IsPlain (negsuc n) = (
  (omega arith, omega arith),
  All-weaken digit-IsPlain (digits (suc n) (suc n)) (digits-IsDigit (suc n) (suc n)),
)

-- a separator below the signs and digits does not stand in a number
split_at-plain :
    (sep : ℕ) (a b : Text) → sep < b'-' → All IsPlain a → split_at sep (a ++ sep ∷ b) ≡ some (a, b)
unfolding split_at
split_at-plain sep [] b below h =
    (let same_sep : (sep == sep) ≡ true = ground arith in rw same_sep refl)
split_at-plain sep (c ∷ a) b below h =
    let other : (c == sep) ≡ false = grind (arith, h.0) in
    rw (other, split_at-plain sep a b below h.1) refl

split-plain :
    (sep : ℕ) (a b : Text)
    → sep < b'-'
    → All IsPlain a
    → split sep b ≡ b ∷ []
    → split sep (a ++ b) ≡ (a ++ b) ∷ []
unfolding split
split-plain sep [] b below h e = e
split-plain sep (c ∷ a) b below h e =
    let other : (c == sep) ≡ false = grind (arith, h.0) in
    rw (other, split-plain sep a b below h.1 e) refl

trim_right-last :
    (p : ℕ → Bool) (s : Text) (c : ℕ) → p c ≡ false → trim_right p (s ++ c ∷ []) ≡ s ++ c ∷ []
unfolding trim_right
trim_right-last p [] c e = rw e refl
trim_right-last p (d ∷ []) c e = rw e refl
trim_right-last p (d ∷ d' ∷ s) c e = rw (trim_right-last p (d' ∷ s) c e) refl

entity_tag-trim_space : (v : ℤ) → trim_space (entity_tag v) ≡ entity_tag v
unfolding trim_space entity_tag trim_left is_space
entity_tag-trim_space v = trim_right-last is_space (b'W' ∷ b'/' ∷ b'"' ∷ decimal v) b'"' refl

entity_tag-split : (v : ℤ) → split b',' (entity_tag v) ≡ entity_tag v ∷ []
unfolding entity_tag split
entity_tag-split v =
    rw
      (
        split-plain b',' (decimal v) (b'"' ∷ []) (omega arith) (decimal-IsPlain v) refl,
        entity_tag,
        split,
      )
      refl

entity_tag-injective : (v w : ℤ) → entity_tag v ≡ entity_tag w → v ≡ w
unfolding entity_tag
entity_tag-injective v w e =
    let tails : decimal v ++ b'"' ∷ [] ≡ decimal w ++ b'"' ∷ [] = cc in
    let found : Path (Option (Text × Text)) (some (decimal v, [])) (some (decimal w, [])) =
      sym (split_at-plain b'"' (decimal v) [] (omega arith) (decimal-IsPlain v))
      ∙ ap (split_at b'"') tails
      ∙ split_at-plain b'"' (decimal w) [] (omega arith) (decimal-IsPlain w) in
    decimal-injective v w
      (ap (λ (o : Option (Text × Text)). elim o [ none ↦ [] | some (a, b) ↦ a ]) found)

entity_tag-given : (v : ℤ) → is_empty (entity_tag v) ≡ false
unfolding entity_tag
entity_tag-given v = refl

entity_tag-star : (v : ℤ) → same (entity_tag v) (text "*") ≡ false
unfolding entity_tag same text
entity_tag-star v = refl

or_false : (b : Bool) → (b || false) ≡ b
or_false true = refl
or_false false = refl

tag_compared : (v w : ℤ) → check_etag_match (entity_tag v) w ≡ same (entity_tag v) (entity_tag w)
unfolding check_etag_match
tag_compared v w =
    rw (entity_tag-trim_space v, entity_tag-split v, entity_tag-given v, entity_tag-star v, any)
      (rw (entity_tag-trim_space v, entity_tag-star v)
        (or_false (same (entity_tag v) (entity_tag w))))

-- The entity tag of a version meets the precondition of exactly this version.
pub check_etag_match-entity_tag : (v w : ℤ) → (check_etag_match (entity_tag v) w ≡ true) ↔ (v ≡ w)
check_etag_match-entity_tag v w =
    let tags = same_iff (entity_tag v) (entity_tag w) in
    (
      λ h. entity_tag-injective v w (tags.0 (sym (tag_compared v w) ∙ h)),
      λ e. tag_compared v w ∙ tags.1 (ap entity_tag e),
    )
