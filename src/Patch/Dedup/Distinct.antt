-- ===== src/Patch/Dedup/Distinct.antt =====
-- What the deduplicated list holds: one element for each key, and no primary element more.
use scim_server_impl_go.Base.{
  ℕ, ◌+◌, ◌≤◌, ◌≡◌, refl, sym, ◌∙◌, Bool, true, false, ◌||◌, List, [], ◌∷◌, ◌++◌, arith,
  if◌then◌else◌, any,
}
use mathlib.Core.List.{append_assoc, append-nil}
use scim_server_impl_go.Text.{Text, same}
use scim_server_impl_go.Text.Laws.{same_iff}
use scim_server_impl_go.Patch.Dedup.{Keyed, deduplicate}
use scim_server_impl_go.Patch.Dedup.Laws.{absorb, absorb_all, deduplicate-absorb_all}

module _ {A : Type 0} (t : Keyed A) where
  abbrev pub has : Text → List A → Bool
  has k l = any (λ b. same (t.key b) k) l

  -- No key occurs twice.
  abbrev pub Distinct : List A → Type 0
  Distinct [] = Unit
  Distinct (b ∷ bs) = (has (t.key b) bs ≡ false) × Distinct bs

  -- the number of primary elements
  abbrev pub primaries : List A → ℕ
  primaries [] = 0
  primaries (b ∷ bs) = (if t.primary b then 1 else 0) + primaries bs

  has-absorb :
      (k : Text) (a : A) (r : List A) → has k (absorb t a r) ≡ (has k r || same (t.key a) k)
  unfolding absorb
  has-absorb k a [] = ground arith
  has-absorb k a (b ∷ bs) = ground (
    arith,
    has-absorb k a bs,
    same_iff (t.key b) (t.key a),
    same_iff (t.key b) k,
    same_iff (t.key a) k,
    t.key-set_primary true b,
  )

  Distinct-absorb : (a : A) (r : List A) → Distinct r → Distinct (absorb t a r)
  unfolding absorb
  Distinct-absorb a [] d = (refl, tt)
  Distinct-absorb a (b ∷ bs) (new, d) = ground (
    arith,
    Distinct-absorb a bs d,
    has-absorb (t.key b) a bs,
    same_iff (t.key b) (t.key a),
    same_iff (t.key a) (t.key b),
    t.key-set_primary true b,
  )

  primaries-absorb :
      (a : A) (r : List A) → primaries (absorb t a r) ≤ primaries r + primaries (a ∷ [])
  unfolding absorb
  primaries-absorb a [] = omega arith
  primaries-absorb a (b ∷ bs) = ground (arith, primaries-absorb a bs, t.primary-set_primary true b)

  absorb_fresh : (a : A) (r : List A) → has (t.key a) r ≡ false → absorb t a r ≡ r ++ a ∷ []
  unfolding absorb
  absorb_fresh a [] h = refl
  absorb_fresh a (b ∷ bs) h = ground (arith, absorb_fresh a bs)

  Distinct-absorb_all : (r l : List A) → Distinct r → Distinct (absorb_all t r l)
  unfolding absorb_all
  Distinct-absorb_all r [] d = d
  Distinct-absorb_all r (a ∷ l) d = Distinct-absorb_all (absorb t a r) l (Distinct-absorb a r d)

  has-absorb_all : (k : Text) (r l : List A) → has k (absorb_all t r l) ≡ (has k r || has k l)
  unfolding absorb_all
  has-absorb_all k r [] = ground arith
  has-absorb_all k r (a ∷ l) = ground (arith, has-absorb_all k (absorb t a r) l, has-absorb k a r)

  primaries-absorb_all : (r l : List A) → primaries (absorb_all t r l) ≤ primaries r + primaries l
  unfolding absorb_all
  primaries-absorb_all r [] = omega arith
  primaries-absorb_all r (a ∷ l) =
      omega (arith, primaries-absorb_all (absorb t a r) l, primaries-absorb a r)

  -- no key of the second list is in the first
  abbrev Fresh : List A → List A → Type 0
  Fresh r [] = Unit
  Fresh r (a ∷ l) = (has (t.key a) r ≡ false) × Fresh r l

  has-append : (k : Text) (r l : List A) → has k (r ++ l) ≡ (has k r || has k l)
  has-append k [] l = refl
  has-append k (b ∷ bs) l = ground (arith, has-append k bs l)

  Fresh-append :
      (r l : List A) (a : A) → Fresh r l → has (t.key a) l ≡ false → Fresh (r ++ a ∷ []) l
  Fresh-append r [] a f n = tt
  Fresh-append r (b ∷ l) a (new, f) n = ground (
    arith,
    has-append (t.key b) r (a ∷ []),
    same_iff (t.key a) (t.key b),
    same_iff (t.key b) (t.key a),
    Fresh-append r l a f,
  )

  absorb_all-Fresh : (r l : List A) → Fresh r l → Distinct l → absorb_all t r l ≡ r ++ l
  unfolding absorb_all
  absorb_all-Fresh r [] f d = sym (append-nil r)
  absorb_all-Fresh r (a ∷ l) (new, f) (only, d) =
      rw (absorb_fresh a r new)
        (absorb_all-Fresh (r ++ a ∷ []) l (Fresh-append r l a f only) d ∙ append_assoc r (a ∷ []) l)

  Fresh-nil : (l : List A) → Fresh [] l
  Fresh-nil [] = tt
  Fresh-nil (a ∷ l) = (refl, Fresh-nil l)

  pub deduplicate-Distinct : (l : List A) → Distinct (deduplicate t l)
  deduplicate-Distinct l = rw (deduplicate-absorb_all t l) (Distinct-absorb_all [] l tt)

  pub has-deduplicate : (k : Text) (l : List A) → has k (deduplicate t l) ≡ has k l
  has-deduplicate k l = rw (deduplicate-absorb_all t l) (has-absorb_all k [] l)

  pub primaries-deduplicate : (l : List A) → primaries (deduplicate t l) ≤ primaries l
  primaries-deduplicate l =
      rw (deduplicate-absorb_all t l) (omega (arith, primaries-absorb_all [] l))

  pub deduplicate_of_Distinct : (l : List A) → Distinct l → deduplicate t l ≡ l
  deduplicate_of_Distinct l d = deduplicate-absorb_all t l ∙ absorb_all-Fresh [] l (Fresh-nil l) d

  -- Deduplication leaves one element for each key of the list and none for any other key, adds no
  -- primary element, and does nothing to a list that it has deduplicated.
  pub deduplicate_lem :
      (l : List A)
      → Distinct (deduplicate t l)
        × ((k : Text) → has k (deduplicate t l) ≡ has k l)
        × (primaries (deduplicate t l) ≤ primaries l)
        × (deduplicate t (deduplicate t l) ≡ deduplicate t l)
  deduplicate_lem l = (
    deduplicate-Distinct l,
    λ k. has-deduplicate k l,
    primaries-deduplicate l,
    deduplicate_of_Distinct (deduplicate t l) (deduplicate-Distinct l),
  )
