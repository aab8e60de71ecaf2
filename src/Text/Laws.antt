-- ===== src/Text/Laws.antt =====
-- Laws of the text functions.
use scim_server_impl_go.Base.{
  ℕ, ◌≡◌, refl, ap, ◌↔◌, String, true, List, [], ◌∷◌, arith, if-keeps, All,
}
use scim_server_impl_go.Text.{Text, text, same, switch, lower_rune, to_lower}

pub same_iff : (s t : Text) → (same s t ≡ true) ↔ (s ≡ t)
unfolding same
same_iff [] [] = ground arith
same_iff [] (b ∷ t) = ground arith
same_iff (a ∷ s) [] = ground arith
same_iff (a ∷ s) (b ∷ t) = ground (arith, same_iff s t)

pub same_self : (s : Text) → same s s ≡ true
same_self s = (same_iff s s).1 refl

-- What holds of each case and of the default holds of the `switch`.
pub switch-keeps {ℓ κ} :
    {A : Type ℓ} (P : A → Type κ) (key : Text) (cases : List (String × A)) {default : A}
    → All (λ c. P c.1) cases
    → P default
    → P (switch key cases default)
unfolding switch
switch-keeps P key [] h d = d
switch-keeps P key ((k, a) ∷ cases) h d =
    if-keeps P (same key (text k)) h.0 (switch-keeps P key cases h.1 d)

lower_rune_idempotent : (c : ℕ) → lower_rune (lower_rune c) ≡ lower_rune c
unfolding lower_rune
lower_rune_idempotent c = ground arith

pub to_lower_idempotent : (s : Text) → to_lower (to_lower s) ≡ to_lower s
unfolding to_lower
to_lower_idempotent [] = refl
to_lower_idempotent (c ∷ s) =
    rw (lower_rune_idempotent c) (ap (λ t. lower_rune c ∷ t) (to_lower_idempotent s))
