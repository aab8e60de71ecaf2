-- ===== src/Text/Trim.antt =====
-- Trimming spaces, as `strings.TrimSpace` does.
use scim_server_impl_go.Base.{false, [], ◌∷◌, ◌&&◌, ◌≡◌, inl, inr, refl, sym, ap, ◌∙◌, Bool-cases}
use scim_server_impl_go.Text.{Text, is_empty, is_space, trim_left, trim_right, trim_space}

-- trimming twice is trimming once
trim_right-trim_right :
    (s : Text) → trim_right is_space (trim_right is_space s) ≡ trim_right is_space s
unfolding trim_right
trim_right-trim_right [] = refl
trim_right-trim_right (c ∷ s) =
    let again = trim_right-trim_right s in
    elim (Bool-cases (is_empty (trim_right is_space s) && is_space c)) [
      | inl e ↦
          let cleared : trim_right is_space (c ∷ s) ≡ [] = rw (e, trim_right) refl in
          ap (trim_right is_space) cleared ∙ sym cleared
      | inr e ↦ rw (e, trim_right) (rw (again, e, trim_right) refl)
    ]

abbrev StartsGiven : Text → Type 0
StartsGiven [] = Unit
StartsGiven (c ∷ s) = is_space c ≡ false

trim_left-StartsGiven : (s : Text) → StartsGiven (trim_left is_space s)
unfolding trim_left
trim_left-StartsGiven [] = tt
trim_left-StartsGiven (c ∷ s) = elim (Bool-cases (is_space c)) [
  | inl e ↦ rw (e, trim_left) (trim_left-StartsGiven s)
  | inr e ↦ rw (e, trim_left) e
]

trim_right-StartsGiven : (s : Text) → StartsGiven s → StartsGiven (trim_right is_space s)
unfolding trim_right
trim_right-StartsGiven [] given = tt
trim_right-StartsGiven (c ∷ s) given =
    elim (Bool-cases (is_empty (trim_right is_space s) && is_space c)) [
      | inl e ↦ rw (e, trim_right) tt
      | inr e ↦ rw (e, trim_right) given
    ]

StartsGiven-trim_left : (s : Text) → StartsGiven s → trim_left is_space s ≡ s
unfolding trim_left
StartsGiven-trim_left [] given = refl
StartsGiven-trim_left (c ∷ s) given = rw (given, trim_left) refl

pub trim_space-trim_space : (s : Text) → trim_space (trim_space s) ≡ trim_space s
unfolding trim_space
trim_space-trim_space s =
    let first = trim_right-StartsGiven (trim_left is_space s) (trim_left-StartsGiven s) in
    ap (trim_right is_space) (StartsGiven-trim_left (trim_space s) first)
    ∙ trim_right-trim_right (trim_left is_space s)
