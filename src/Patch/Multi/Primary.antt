-- ===== src/Patch/Multi/Primary.antt =====
-- internal/scim/patch.go, `addToMultiValued`: one primary element, whatever is added.
use scim_server_impl_go.Base.{
  ◌+◌, ◌≤◌, false, List, [], ◌∷◌, ◌++◌, map, ◌≡◌, refl, inl, inr, if◌then◌else◌, Bool-cases, arith,
  Result, ok, Returns, returned, Returns-then, Returns-bind, Returns-elim,
}
use scim_server_impl_go.Value.{Fields}
use scim_server_impl_go.Patch.Dedup.{Keyed}
use scim_server_impl_go.Patch.Dedup.Distinct.{Distinct, primaries, deduplicate_lem}
use scim_server_impl_go.Patch.Multi.{add_loop, add_items}

module _ {A : Type 0} (t : Keyed A) where
  primaries-append : (l m : List A) → primaries t (l ++ m) ≡ primaries t l + primaries t m
  primaries-append [] m = omega arith
  primaries-append (a ∷ l) m = omega (arith, primaries-append l m)

  primaries-demoted : (l : List A) → primaries t (map (t.set_primary false) l) ≡ 0
  primaries-demoted [] = refl
  primaries-demoted (a ∷ l) =
      rw (t.primary-set_primary false a) (omega (arith, primaries-demoted l))

  primaries-added :
      (l : List A) (a : A)
      → primaries t l ≤ 1
      → primaries t ((if t.primary a then map (t.set_primary false) l else l) ++ a ∷ []) ≤ 1
  primaries-added l a h = elim (Bool-cases (t.primary a)) [
    | inl e ↦ rw e (
        omega (
          arith,
          primaries-append (map (t.set_primary false) l) (a ∷ []),
          primaries-demoted l,
          one a,
        ))
    | inr e ↦ rw e (grind (arith, primaries-append l (a ∷ []), e))
  ]
    where
      one : (b : A) → primaries t (b ∷ []) ≤ 1
      one b = grind arith

  add_loop-primaries :
      (build : Fields → Result A) (items : List Fields) (l : List A)
      → primaries t l ≤ 1
      → Returns (λ l'. primaries t l' ≤ 1) (add_loop t build items l)
  unfolding add_loop
  add_loop-primaries build [] l h = returned h
  add_loop-primaries build (item ∷ items) l h = Returns-then (build item) _ (λ a.
      add_loop-primaries build items
        ((if t.primary a then map (t.set_primary false) l else l) ++ a ∷ [])
        (primaries-added l a h))

  add_items-Returns :
      (build : Fields → Result A) (items : List Fields) (l : List A)
      → primaries t l ≤ 1
      → Returns (λ l'. Distinct t l' × (primaries t l' ≤ 1)) (add_items t build items l)
  unfolding add_items
  add_items-Returns build items l h = Returns-bind _ (add_loop-primaries build items l h) (λ l' h'.
      let (distinct, keys, fewer, again) = deduplicate_lem t l' in
      returned (distinct, omega (arith, fewer, h')))

  -- Adding items to a collection with at most one primary element, if it succeeds, gives a collection
  -- with at most one, in which no two elements have the same key, however many of the items are
  -- primary and whatever builds them.
  pub add_items-primaries :
      (build : Fields → Result A) (items : List Fields) (l l' : List A)
      → primaries t l ≤ 1
      → add_items t build items l ≡ ok l'
      → Distinct t l' × (primaries t l' ≤ 1)
  add_items-primaries build items l l' h e = Returns-elim (add_items-Returns build items l h) e
