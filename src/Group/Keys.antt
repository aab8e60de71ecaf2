-- ===== src/Group/Keys.antt =====
-- internal/handler/group.go: `groupMembersEqual` counts the keys of the memberships.
use scim_server_impl_go.Base.{
  ℕ, suc, ◌+◌, ◌-◌, ◌≤◌, ◌<◌, true, false, List, [], ◌∷◌, ◌≡◌, ◌↔◌, inl, inr, refl, sym, ap, ◌∙◌,
  if◌then◌else◌, ◌==◌, length, arith, ==_iff, Bool-cases, false≢true, if-keeps,
}
use scim_server_impl_go.Text.{Text, same}
use scim_server_impl_go.Text.Laws.{same_iff, same_self}
use scim_server_impl_go.Group.{
  ScimGroupMembership, member_key, change_count, one_more, one_less, count_members, take_members,
  group_members_equal,
}

-- how many memberships have a key
abbrev pub occurrences : Text → List ScimGroupMembership → ℕ
occurrences k [] = 0
occurrences k (m ∷ more) = (if same k (member_key m) then 1 else 0) + occurrences k more

count_members-occurrences :
    (a : List ScimGroupMembership) (counts : Text → ℕ) (k : Text)
    → count_members a counts k ≡ occurrences k a + counts k
unfolding count_members change_count
count_members-occurrences [] counts k = omega arith
count_members-occurrences (m ∷ more) counts k =
    let rest = count_members-occurrences more (change_count one_more (member_key m) counts) k in
    elim (Bool-cases (same k (member_key m))) [
      | inl e ↦ rest ∙ rw (e, change_count) (omega arith)
      | inr e ↦ rest ∙ rw (e, change_count) (omega arith)
    ]

module _ (m : ScimGroupMembership) (more : List ScimGroupMembership) (counts : Text → ℕ) where
  no_place :
      (counts (member_key m) == 0) ≡ true
      → occurrences (member_key m) (m ∷ more) ≤ counts (member_key m)
      → ⊥
  no_place e h =
      let needed : 1 + (occurrences (member_key m) more) ≤ counts (member_key m) =
        rw (same_self (member_key m)) at h in
      omega (arith, needed, (==_iff (counts (member_key m)) 0).0 e)

  -- the number of places behind the first membership
  one_place :
      (counts (member_key m) == 0) ≡ false
      → (k : Text) → occurrences k more ≤ change_count one_less (member_key m) counts k
      → occurrences k (m ∷ more) ≤ counts k
  unfolding change_count
  one_place e k h = elim (Bool-cases (same k (member_key m))) [
    | inl s ↦
        let same_count : counts k ≡ counts (member_key m) =
          ap counts ((same_iff k (member_key m)).0 s) in
        let places : occurrences k more ≤ counts k - 1 = rw s at h in
        let some_place : 0 < counts (member_key m) = ground arith in
        rw s (omega (arith, places, same_count, some_place))
    | inr s ↦ let places : occurrences k more ≤ counts k = rw s at h in rw s (omega (arith, places))
  ]

  less_needed :
      (k : Text)
      → occurrences k (m ∷ more) ≤ counts k
      → occurrences k more ≤ change_count one_less (member_key m) counts k
  unfolding change_count
  less_needed k h = elim (Bool-cases (same k (member_key m))) [
    | inl s ↦
        let places : 1 + occurrences k more ≤ counts k = rw s at h in rw s (omega (arith, places))
    | inr s ↦
        let places : 0 + occurrences k more ≤ counts k = rw s at h in rw s (omega (arith, places))
  ]

-- The loop succeeds exactly where every key has as many places as it needs.
take_members_iff :
    (b : List ScimGroupMembership) (counts : Text → ℕ)
    → (take_members b counts ≡ true) ↔ ((k : Text) → occurrences k b ≤ counts k)
unfolding take_members change_count
take_members_iff [] counts = (λ h k. omega arith, λ h. refl)
take_members_iff (m ∷ more) counts =
    let key = member_key m in
    let rest = take_members_iff more (change_count one_less key counts) in
    elim (Bool-cases (counts key == 0)) [
      | inl e ↦ (
        λ h. absurd (false≢true (rw (e, take_members) at h)),
        λ h. absurd (no_place m more counts e (h key)),
      )
      | inr e ↦ (
        λ h k. one_place m more counts e k (rest.0 (rw (e, take_members) at h) k),
        λ h. rw (e, take_members) (rest.1 (λ k. less_needed m more counts k (h k))),
      )
    ]

-- a list without one of the memberships that have a key
taken_out :
    (k : Text) (a : List ScimGroupMembership)
    → 0 < occurrences k a
    → (rest : List ScimGroupMembership) × (length a ≡ suc (length rest))
      × ((j : Text) → occurrences j a ≡ (if same j k then 1 else 0) + occurrences j rest)
taken_out k [] h = absurd (omega (arith, h))
taken_out k (m ∷ more) h = elim (Bool-cases (same k (member_key m))) [
  | inl s ↦ (
    more,
    refl,
    λ j.
        ap (λ x. (if same j x then 1 else 0) + occurrences j more)
          (sym ((same_iff k (member_key m)).0 s)),
  )
  | inr s ↦
      let below : 0 < 0 + occurrences k more = rw s at h in
      let (rest, shorter, counted) = taken_out k more (omega (arith, below)) in
      (m ∷ rest, omega (arith, shorter), λ j. omega (arith, counted j))
]

-- lists of one length, where one needs no more places than the other has, have the same keys
same_occurrences :
    (a b : List ScimGroupMembership)
    → length a ≡ length b
    → ((k : Text) → occurrences k b ≤ occurrences k a)
    → (k : Text) → occurrences k a ≡ occurrences k b
same_occurrences [] [] e h k = refl
same_occurrences (m ∷ a) [] e h k = absurd (omega (arith, e))
same_occurrences a (m ∷ b) e h k =
    let at_key : 1 + (occurrences (member_key m) b) ≤ occurrences (member_key m) a =
      rw (same_self (member_key m)) at (h (member_key m)) in
    let (rest, shorter, counted) = taken_out (member_key m) a (omega (arith, at_key)) in
    let tails =
      same_occurrences rest b (omega (arith, shorter, e)) (λ j. omega (arith, h j, counted j)) k in
    omega (arith, counted k, tails)

same_length :
    (a b : List ScimGroupMembership)
    → ((k : Text) → occurrences k a ≡ occurrences k b)
    → length a ≡ length b
same_length [] [] h = refl
same_length (m ∷ a) [] h =
    let one : 1 + (occurrences (member_key m) a) ≡ 0 =
      rw (same_self (member_key m)) at (h (member_key m)) in
    absurd (omega (arith, one))
same_length a (m ∷ b) h =
    let at_key : occurrences (member_key m) a ≡ 1 + occurrences (member_key m) b =
      rw (same_self (member_key m)) at (h (member_key m)) in
    let (rest, shorter, counted) = taken_out (member_key m) a (omega (arith, at_key)) in
    let tails = same_length rest b (λ j. omega (arith, h j, counted j)) in
    omega (arith, shorter, tails)

empty-occurrences : (a : List ScimGroupMembership) (k : Text) → length a ≡ 0 → occurrences k a ≡ 0
empty-occurrences [] k e = refl
empty-occurrences (m ∷ a) k e = absurd (omega (arith, e))

-- the comparison, as one of keys
pub same_keys_iff :
    (a b : List ScimGroupMembership)
    → (group_members_equal a b ≡ true) ↔ ((k : Text) → occurrences k a ≡ occurrences k b)
unfolding group_members_equal
same_keys_iff a b =
    let taken = take_members_iff b (count_members a (λ k. 0)) in
    let counted = count_members-occurrences a (λ k. 0) in
    (
      λ h k. elim (Bool-cases (length a == length b)) [
        | inr e ↦ absurd (false≢true (rw (e, group_members_equal) at h))
        | inl e ↦
            let lengths : length a ≡ length b = (==_iff (length a) (length b)).0 e in
            elim (Bool-cases (length a == 0)) [
              | inl z ↦
                  let none_left : length a ≡ 0 = (==_iff (length a) 0).0 z in
                  empty-occurrences a k none_left
                  ∙ sym (empty-occurrences b k (omega (arith, lengths, none_left)))
              | inr z ↦
                  same_occurrences a b lengths
                    (λ j. omega (arith, taken.0 (rw (e, z, group_members_equal) at h) j, counted j))
                    k
            ]
      ],
      λ h.
          let lengths : (length a == length b) ≡ true =
            (==_iff (length a) (length b)).1 (same_length a b h) in
          rw (lengths, group_members_equal)
            (if-keeps (λ r. r ≡ true) (length a == 0) refl
              (taken.1 (λ k. omega (arith, h k, counted k)))),
    )
