-- ===== src/Async/Paths.antt =====
-- internal/handler/async_event.go: the paths that a PATCH names.
use scim_server_impl_go.Base.{
  Bool, true, false, not, List, [], ◌∷◌, ◌++◌, ◌≡◌, ◌≢◌, inl, inr, refl, sym, ap, ◌∙◌, any,
  Bool-cases, if-cases, false≢true, arith,
}
use scim_server_impl_go.Text.{
  Text, text, is_empty, same, trim_space, trim_left, trim_right, is_space,
}
use scim_server_impl_go.Text.Laws.{same_iff}
use scim_server_impl_go.Value.{Fields}
use scim_server_impl_go.Async.Steps.{add_operations-keeps}
use scim_server_impl_go.Async.{add_path, add_operations, extract_modified_patch_paths}

-- a character that is not white space
abbrev pub NotBlank : Text → Type 0
NotBlank p = any (λ c. not (is_space c)) p ≡ true

-- no blank path, and none twice
abbrev pub IsListing : List Text → Type 0
IsListing [] = Unit
IsListing (p ∷ paths) = NotBlank p × (any (same p) paths ≡ false) × IsListing paths

trim_right-NotBlank :
    (s : Text) → is_empty (trim_right is_space s) ≡ false → NotBlank (trim_right is_space s)
unfolding trim_right
trim_right-NotBlank [] h = absurd (false≢true (sym h))
trim_right-NotBlank (c ∷ s) h = elim (Bool-cases (is_empty (trim_right is_space s))) [
  | inr more ↦
      let rest : NotBlank (trim_right is_space s) = trim_right-NotBlank s more in
      rw (more, trim_right) (ground (arith, rest))
  | inl last ↦ elim (Bool-cases (is_space c)) [
    | inl blank ↦ absurd (false≢true (sym (rw (last, blank, trim_right) at h)))
    | inr given ↦ rw (last, given, trim_right) (rw given refl)
  ]
]

trim_space-NotBlank : (s : Text) → is_empty (trim_space s) ≡ false → NotBlank (trim_space s)
unfolding trim_space
trim_space-NotBlank s = trim_right-NotBlank (trim_left is_space s)

same_sym : (s t : Text) → same s t ≡ same t s
same_sym s t = elim (Bool-cases (same s t)) [
  | inl e ↦ e ∙ sym ((same_iff t s).1 (sym ((same_iff s t).0 e)))
  | inr e ↦ elim (Bool-cases (same t s)) [
    | inr d ↦ e ∙ sym d
    | inl d ↦ (same_iff s t).1 (sym ((same_iff t s).0 d)) ∙ sym d
  ]
]

any_last :
    (q p : Text) (paths : List Text)
    → any (same q) paths ≡ false
    → same q p ≡ false
    → any (same q) (paths ++ p ∷ []) ≡ false
any_last q p [] h e = rw e refl
any_last q p (r ∷ paths) h e =
    let here : same q r ≡ false = ground arith in
    let there : any (same q) paths ≡ false = ground arith in
    rw (here, any_last q p paths there e) refl

add_last :
    (p : Text) (paths : List Text)
    → NotBlank p
    → any (same p) paths ≡ false
    → IsListing paths
    → IsListing (paths ++ p ∷ [])
add_last p [] given new l = (given, refl, tt)
add_last p (q ∷ paths) given new l =
    let here : same p q ≡ false = ground arith in
    let there : any (same p) paths ≡ false = ground arith in
    (l.0, any_last q p paths l.1 (same_sym q p ∙ here), add_last p paths given there l.2)

add_path-IsListing : (paths : List Text) (p : Text) → IsListing paths → IsListing (add_path paths p)
unfolding add_path
add_path-IsListing paths p l =
    if-cases IsListing (is_empty (trim_space p)) (λ _. l)
      (λ given.
        if-cases IsListing (any (same (trim_space p)) paths) (λ _. l)
          (λ new. add_last (trim_space p) paths (trim_space-NotBlank p given) new l))

abbrev no_paths : List Text → Bool
no_paths [] = true
no_paths (_ ∷ _) = false

-- For every list of operations, the paths of the event are at least one, none blank and none twice.
pub extract_modified_patch_paths-IsListing :
    (ops : List Fields)
    → (extract_modified_patch_paths ops ≢ []) × IsListing (extract_modified_patch_paths ops)
unfolding extract_modified_patch_paths text is_space
extract_modified_patch_paths-IsListing ops =
    go (add_operations [] ops) (add_operations-keeps IsListing add_path-IsListing [] ops tt)
  where
    go :
        (paths : List Text)
        → IsListing paths
        → ((elim paths [ [] ↦ text "displayName" ∷ [] | p ∷ more ↦ p ∷ more ]) ≢ [])
          × IsListing (elim paths [ [] ↦ text "displayName" ∷ [] | p ∷ more ↦ p ∷ more ])
    go [] l = (λ e. absurd (false≢true (ap no_paths e)), (refl, refl, tt))
    go (p ∷ more) l = (λ e. absurd (false≢true (ap no_paths e)), l)
