-- ===== src/Patch/Dedup/Laws.antt =====
-- The loop with its map of indices against a plain insertion.
use scim_server_impl_go.Base.{
  ℕ, zero, suc, ◌≡◌, refl, sym, ◌∙◌, inl, inr, Bool, true, false, Option, none, some, List, [], ◌∷◌,
  ◌++◌, arith, if◌then◌else◌, Bool-cases, Option-cases, length,
}
use scim_server_impl_go.Text.{Text, same}
use scim_server_impl_go.Text.Laws.{same_iff, same_self}
use scim_server_impl_go.Patch.Dedup.{Keyed, seen_at, promote, dedup_loop, deduplicate}

module _ {A : Type 0} (t : Keyed A) where
  -- One element into a list with no two equal keys: it is dropped where its key occurs, and leaves
  -- its primary flag there.
  unfoldable pub absorb : A → List A → List A
  absorb a [] = a ∷ []
  absorb a (b ∷ bs) =
      if same (t.key b) (t.key a)
      then (if t.primary a then t.set_primary true b else b) ∷ bs
      else b ∷ absorb a bs

  unfoldable pub absorb_all : List A → List A → List A
  unfolding absorb
  absorb_all acc [] = acc
  absorb_all acc (a ∷ l) = absorb_all (absorb a acc) l

  -- the index of the first element with a key
  abbrev position : Text → List A → Option ℕ
  position k [] = none
  position k (b ∷ bs) =
      if same (t.key b) k
      then some 0
      else elim (position k bs) [ none ↦ none | some i ↦ some (suc i) ]

  absorb_new : (a : A) (r : List A) → position (t.key a) r ≡ none → absorb a r ≡ r ++ a ∷ []
  unfolding absorb
  absorb_new a [] h = refl
  absorb_new a (b ∷ bs) h = ground (arith, absorb_new a bs)

  absorb_old :
      (a : A) (r : List A) (i : ℕ)
      → position (t.key a) r ≡ some i
      → absorb a r ≡ (if t.primary a then promote t r i else r)
  unfolding absorb promote
  absorb_old a [] i h = cc
  absorb_old a (b ∷ bs) i h = elim (Bool-cases (same (t.key b) (t.key a))) [
    | inl e ↦ ground arith
    | inr e ↦ elim (Option-cases (position (t.key a) bs)) [
      | inl none_there ↦ ground arith
      | inr (j, at_j) ↦ ground (arith, absorb_old a bs j at_j)
    ]
  ]

  -- The map of the loop: each key's index in the result.
  abbrev Indexes : List (Text × ℕ) → List A → Type 0
  Indexes seen r = (k : Text) → seen_at seen k ≡ position k r

  position-append_new :
      (r : List A) (a : A) (k : Text)
      → position (t.key a) r ≡ none
      → position k (r ++ a ∷ []) ≡ (if same (t.key a) k then some (length r) else position k r)
  position-append_new [] a k h = refl
  position-append_new (b ∷ bs) a k h = ground (
    arith,
    same_iff (t.key b) (t.key a),
    same_iff (t.key b) k,
    same_iff (t.key a) k,
    same_self (t.key a),
    position-append_new bs a k,
  )

  position-promote : (r : List A) (i : ℕ) (k : Text) → position k (promote t r i) ≡ position k r
  unfolding promote
  position-promote [] i k = refl
  position-promote (b ∷ bs) zero k = rw (t.key-set_primary true b) refl
  position-promote (b ∷ bs) (suc i) k = ground (arith, position-promote bs i k)

  position-promote_if :
      (r : List A) (i : ℕ) (k : Text) (b : Bool)
      → position k r ≡ position k (if b then promote t r i else r)
  position-promote_if r i k true = sym (position-promote r i k)
  position-promote_if r i k false = refl

  Indexes-append :
      (seen : List (Text × ℕ)) (r : List A) (a : A)
      → Indexes seen r
      → position (t.key a) r ≡ none
      → Indexes ((t.key a, length r) ∷ seen) (r ++ a ∷ [])
  unfolding seen_at
  Indexes-append seen r a h new k = ground (arith, h k, position-append_new r a k new)

  dedup_loop-absorb_all :
      (l : List A) (r : List A) (seen : List (Text × ℕ))
      → Indexes seen r
      → dedup_loop t r seen l ≡ absorb_all r l
  unfolding dedup_loop absorb_all
  dedup_loop-absorb_all [] r seen h = refl
  dedup_loop-absorb_all (a ∷ l) r seen h = elim (Option-cases (position (t.key a) r)) [
    | inl new ↦
        rw (h (t.key a) ∙ new, dedup_loop)
          (rw (absorb_new a r new) (
            dedup_loop-absorb_all l (r ++ a ∷ []) ((t.key a, length r) ∷ seen)
              (Indexes-append seen r a h new)))
    | inr (i, old) ↦
        rw (h (t.key a) ∙ old, dedup_loop)
          (rw (absorb_old a r i old) (
            dedup_loop-absorb_all l (if t.primary a then promote t r i else r) seen
              (λ k. h k ∙ position-promote_if r i k (t.primary a))))
  ]

  -- The loop with its map of indices is the insertion of one element after the other, each beside
  -- the earlier element with its key.
  pub deduplicate-absorb_all : (l : List A) → deduplicate t l ≡ absorb_all [] l
  unfolding deduplicate absorb_all
  deduplicate-absorb_all [] = refl
  deduplicate-absorb_all (a ∷ []) = refl
  deduplicate-absorb_all (a ∷ b ∷ l) = dedup_loop-absorb_all (a ∷ b ∷ l) [] [] (λ k. refl)
