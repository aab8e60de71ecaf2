-- ===== src/Group/Equal.antt =====
-- internal/handler/group.go: what `groupMembersEqual` decides.
use scim_server_impl_go.Base.{
  ℕ, ◌+◌, Bool, true, false, ◌&&◌, Option, none, some, List, [], ◌∷◌, ◌++◌, ◌≡◌, ◌≢◌, ◌↔◌, ◌⊎◌, inl,
  inr, refl, sym, ap, ◌∙◌, if◌then◌else◌, ◌==◌, arith, ==_iff, Bool-cases, false≢true, All, subst,
}
use scim_server_impl_go.Text.{Text, same, to_lower, split_at}
use scim_server_impl_go.Text.Laws.{same_iff}
use scim_server_impl_go.Cursor.Message.{NoBar, split_at-bar}
use scim_server_impl_go.Group.{ScimGroupMembership, member_key, group_members_equal}
use scim_server_impl_go.Group.Keys.{occurrences, same_keys_iff}

-- the type of a membership, empty where it has none
abbrev pub type_of : Option Text → Text
type_of none = []
type_of (some t) = t

-- whether a membership is of this member, with this type in lower case
abbrev pub is_of : Text → Text → ScimGroupMembership → Bool
is_of value typ m = same value m.member_value && same typ (to_lower (type_of m.member_type))

-- how many memberships are of this member with this type
abbrev pub memberships_of : Text → Text → List ScimGroupMembership → ℕ
memberships_of value typ [] = 0
memberships_of value typ (m ∷ more) =
    (if is_of value typ m then 1 else 0) + memberships_of value typ more

-- The text of a UUID has no bar.
abbrev pub AreIds : List ScimGroupMembership → Type 0
AreIds = All (λ m. NoBar m.member_value)

member_key-split :
    (m : ScimGroupMembership)
    → member_key m ≡ m.member_value ++ b'|' ∷ to_lower (type_of m.member_type)
unfolding member_key to_lower
member_key-split m = go m.member_type
  where
    go :
        (o : Option Text)
        → m.member_value ++ b'|' ∷ (elim o [ none ↦ [] | some t ↦ to_lower t ])
          ≡ m.member_value ++ b'|' ∷ to_lower (type_of o)
    go none = refl
    go (some t) = refl

-- a text up to its first bar, if it has one
divided : (k : Text) → NoBar k ⊎ ((a : Text) × (b : Text) × (k ≡ a ++ b'|' ∷ b) × NoBar a)
divided [] = inl tt
divided (c ∷ k) = elim (Bool-cases (c == b'|')) [
  | inl e ↦ inr ([], k, ap (λ d. d ∷ k) ((==_iff c b'|').0 e), tt)
  | inr e ↦
      let other : c ≢ b'|' = λ d. absurd (false≢true (sym e ∙ (==_iff c b'|').1 d)) in
      elim (divided k) [
        | inl free ↦ inl (other, free)
        | inr (a, b, d, free) ↦ inr (c ∷ a, b, ap (λ r. c ∷ r) d, (other, free))
      ]
]

Bool-iff : (x y : Bool) → (x ≡ true → y ≡ true) → (y ≡ true → x ≡ true) → x ≡ y
Bool-iff true y f g = sym (f refl)
Bool-iff false true f g = g refl
Bool-iff false false f g = refl

module _ (a b c d : Text) (free : NoBar a) (free' : NoBar c) where
  halves : a ++ b'|' ∷ b ≡ c ++ b'|' ∷ d → (a ≡ c) × (b ≡ d)
  halves e =
      let found : Path (Option (Text × Text)) (some (a, b)) (some (c, d)) =
        sym (split_at-bar a b free) ∙ ap (split_at b'|') e ∙ split_at-bar c d free' in
      let first : (Option (Text × Text)) → Text = λ o. elim o [ none ↦ [] | some (x, y) ↦ x ] in
      let second : (Option (Text × Text)) → Text = λ o. elim o [ none ↦ [] | some (x, y) ↦ y ] in
      (ap first found, ap second found)

  same-halves : same (a ++ b'|' ∷ b) (c ++ b'|' ∷ d) ≡ (same a c && same b d)
  same-halves =
      let both = same_iff (a ++ b'|' ∷ b) (c ++ b'|' ∷ d) in
      Bool-iff (same (a ++ b'|' ∷ b) (c ++ b'|' ∷ d)) (same a c && same b d)
        (λ h. let (e, e') = halves (both.0 h) in rw ((same_iff a c).1 e, (same_iff b d).1 e') refl)
        (λ h.
          let first : same a c ≡ true = ground arith in
          let second : same b d ≡ true = ground arith in
          both.1 (
            ap (λ x. x ++ b'|' ∷ b) ((same_iff a c).0 first)
            ∙ ap (λ y. c ++ b'|' ∷ y) ((same_iff b d).0 second)))

memberships_of-occurrences :
    (value typ : Text) (ms : List ScimGroupMembership)
    → NoBar value
    → AreIds ms
    → memberships_of value typ ms ≡ occurrences (value ++ b'|' ∷ typ) ms
memberships_of-occurrences value typ [] free ids = refl
memberships_of-occurrences value typ (m ∷ more) free ids =
    let here : same (value ++ b'|' ∷ typ) (member_key m) ≡ is_of value typ m =
      ap (same (value ++ b'|' ∷ typ)) (member_key-split m)
      ∙ same-halves value typ m.member_value (to_lower (type_of m.member_type)) free ids.0 in
    rw (here, memberships_of-occurrences value typ more free ids.1) refl

bar-NoBar : (a b : Text) → NoBar (a ++ b'|' ∷ b) → ⊥
bar-NoBar [] b h = h.0 refl
bar-NoBar (c ∷ a) b h = bar-NoBar a b h.1

-- no membership has a text with a bar as member
no-memberships_of :
    (a b typ : Text) (ms : List ScimGroupMembership)
    → AreIds ms
    → memberships_of (a ++ b'|' ∷ b) typ ms ≡ 0
no-memberships_of a b typ [] ids = refl
no-memberships_of a b typ (m ∷ more) ids = elim (Bool-cases (same (a ++ b'|' ∷ b) m.member_value)) [
  | inl e ↦
      absurd
        (bar-NoBar a b (subst NoBar (sym ((same_iff (a ++ b'|' ∷ b) m.member_value).0 e)) ids.0))
  | inr e ↦ rw (e, no-memberships_of a b typ more ids.1) (omega arith)
]

-- no membership has a key without bar
free-occurrences : (k : Text) (ms : List ScimGroupMembership) → NoBar k → occurrences k ms ≡ 0
free-occurrences k [] free = refl
free-occurrences k (m ∷ more) free = elim (Bool-cases (same k (member_key m))) [
  | inl e ↦ absurd (
      bar-NoBar m.member_value (to_lower (type_of m.member_type))
        (subst NoBar ((same_iff k (member_key m)).0 e ∙ member_key-split m) free))
  | inr e ↦ rw (e, free-occurrences k more free) (omega arith)
]

-- Two lists of memberships, whose members are named without a bar as UUIDs are, are equal for
-- `groupMembersEqual` exactly where, for each member and each type in lower case, both have equally many
-- memberships of this member with this type; a missing type counts as the empty one.
pub group_members_equal_iff :
    (a b : List ScimGroupMembership)
    → AreIds a
    → AreIds b
    → (group_members_equal a b ≡ true)
      ↔ ((value typ : Text) → memberships_of value typ a ≡ memberships_of value typ b)
group_members_equal_iff a b ids ids' =
    let keys = same_keys_iff a b in
    (
      λ h value typ. elim (divided value) [
        | inl free ↦
            memberships_of-occurrences value typ a free ids
            ∙ keys.0 h (value ++ b'|' ∷ typ)
            ∙ sym (memberships_of-occurrences value typ b free ids')
        | inr (c, d, e, free) ↦
            rw e (no-memberships_of c d typ a ids ∙ sym (no-memberships_of c d typ b ids'))
      ],
      λ h. keys.1 (λ k. elim (divided k) [
        | inl free ↦ free-occurrences k a free ∙ sym (free-occurrences k b free)
        | inr (c, d, e, free) ↦ rw e (
            sym (memberships_of-occurrences c d a free ids)
            ∙ h c d
            ∙ memberships_of-occurrences c d b free ids')
      ]),
    )
