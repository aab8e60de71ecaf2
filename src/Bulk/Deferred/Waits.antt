-- ===== src/Bulk/Deferred/Waits.antt =====
-- internal/handler/bulk.go: which members of a group wait.
use mathlib.Core.Option.{some-ne-none}
use scim_server_impl_go.Base.{
  ℕ, true, false, not, ◌&&◌, Option, none, some, [], ◌∷◌, ◌++◌, ◌≡◌, ◌≢◌, inl, inr, refl, sym, ap,
  ◌∙◌, false≢true, and_false, Bool-cases, Option-cases, Among, get_elem?, zero, suc, ◌==◌, ==_iff,
  arith,
}
use scim_server_impl_go.Text.{Text, text, same, is_empty, has_prefix}
use scim_server_impl_go.Text.Laws.{same_iff}
use scim_server_impl_go.Value.{Value, null, bool, num, str, arr, obj, Fields, index}
use scim_server_impl_go.Bulk.Refs.{drop, lookup_id}
use scim_server_impl_go.Bulk.Graph.{Producers}
use scim_server_impl_go.Bulk.Deferred.{is_deferred_ref, value_text, is_deferred_member}

-- A member that has to wait: an object whose `value` is `bulkId:` and a bulkId, not empty and not the one
-- of the operation itself, that stands in the map of the producers.
abbrev pub Waits : Producers → Text → Value → Type 0
Waits producers self v =
    (m : Fields) × (ref : Text) × (i : ℕ) × (v ≡ obj m)
    × (index "value" m ≡ str (text "bulkId:" ++ ref))
    × (ref ≢ [])
    × (ref ≢ self)
    × Among (ref, i) producers

lookup_id-Among :
    (producers : Producers) (ref : Text) (i : ℕ)
    → lookup_id producers ref ≡ some i
    → Among (ref, i) producers
unfolding lookup_id
lookup_id-Among [] ref i h = cc
lookup_id-Among ((k, j) ∷ more) ref i h = elim (Bool-cases (same k ref)) [
  | inl e ↦
      let found : some j ≡ some i = rw e at h in
      let same_index : j ≡ i = cc in
      let same_key : k ≡ ref = (same_iff k ref).0 e in (0, rw (same_index, same_key) refl)
  | inr e ↦ let (n, found) = lookup_id-Among more ref i (rw e at h) in (suc n, found)
]

Among-lookup_id :
    (producers : Producers) (ref : Text) (i n : ℕ)
    → get_elem? producers n ≡ some (ref, i)
    → lookup_id producers ref ≢ none
unfolding lookup_id
Among-lookup_id [] ref i n h e =
    (let impossible : Path (Option (Text × ℕ)) none (some (ref, i)) = h in
      absurd (some-ne-none (ref, i) (sym impossible)))
Among-lookup_id ((k, j) ∷ more) ref i zero h e =
    let key : Option (Text × ℕ) → Text = λ o. elim o [ none ↦ [] | some (r, n) ↦ r ] in
    let here : same k ref ≡ true = (same_iff k ref).1 (ap key h) in
    let found : some j ≡ none = rw here at e in some-ne-none j found
Among-lookup_id ((k, j) ∷ more) ref i (suc n) h e = elim (Bool-cases (same k ref)) [
  | inl s ↦ (let found : some j ≡ none = rw s at e in some-ne-none j found)
  | inr s ↦ Among-lookup_id more ref i n h (rw s at e)
]

drop_lem : (t : Text) → drop 7 (text "bulkId:" ++ t) ≡ t
unfolding drop text
drop_lem t = refl

has_prefix-append : (s p : Text) → has_prefix s p ≡ true → (t : Text) × (s ≡ p ++ t)
unfolding has_prefix
has_prefix-append s [] h = (s, refl)
has_prefix-append [] (c ∷ p) h = absurd (false≢true h)
has_prefix-append (a ∷ s) (b ∷ p) h =
    let first : (a == b) ≡ true = ground arith in
    let rest : has_prefix s p ≡ true = ground arith in
    let (t, e) = has_prefix-append s p rest in
    (t, ap (λ c. c ∷ s) ((==_iff a b).0 first) ∙ ap (λ r. b ∷ r) e)

append-has_prefix : (p t : Text) → has_prefix (p ++ t) p ≡ true
unfolding has_prefix
append-has_prefix [] t = refl
append-has_prefix (c ∷ p) t =
    let first : (c == c) ≡ true = (==_iff c c).1 refl in rw (first, append-has_prefix p t) refl

-- what the code tests of a text is what `Waits` says
is_deferred_ref-declared :
    (producers : Producers) (self ref : Text)
    → is_deferred_ref producers self (text "bulkId:" ++ ref) ≡ (
        not (is_empty ref)
        && not (same ref self)
        && elim (lookup_id producers ref) [ none ↦ false | some _ ↦ true ])
unfolding is_deferred_ref
is_deferred_ref-declared producers self ref =
    rw (append-has_prefix (text "bulkId:") ref, drop_lem ref) refl

declared-Waits :
    (producers : Producers) (self ref : Text) (m : Fields)
    → index "value" m ≡ str (text "bulkId:" ++ ref)
    → is_deferred_ref producers self (text "bulkId:" ++ ref) ≡ true
    → Waits producers self (obj m)
declared-Waits producers self ref m v h =
    let tests = sym (is_deferred_ref-declared producers self ref) ∙ h in
    elim (Option-cases (lookup_id producers ref)) [
      | inl e ↦ absurd (
          false≢true (sym (and_false (not (is_empty ref)) (not (same ref self))) ∙ (rw e at tests)))
      | inr (i, e) ↦
          let given : is_empty ref ≡ false = ground (arith, tests) in
          let other : same ref self ≡ false = ground (arith, tests) in
          (
            m,
            ref,
            i,
            refl,
            v,
            λ d. absurd (false≢true (sym given ∙ ap is_empty d)),
            λ d. absurd (false≢true (sym other ∙ (same_iff ref self).1 d)),
            lookup_id-Among producers ref i e,
          )
    ]

empty_lem : (s : Text) → is_empty s ≡ true → s ≡ []
empty_lem [] h = refl
empty_lem (c ∷ s) h = absurd (false≢true h)

is_deferred_ref-has_prefix :
    (producers : Producers) (self s : Text)
    → is_deferred_ref producers self s ≡ true
    → has_prefix s (text "bulkId:") ≡ true
unfolding is_deferred_ref
is_deferred_ref-has_prefix producers self s d = elim (Bool-cases (has_prefix s (text "bulkId:"))) [
  | inl e ↦ e
  | inr e ↦ absurd (false≢true (rw (e, is_deferred_ref) at d))
]

value-Waits :
    (producers : Producers) (self : Text) (m : Fields) (w : Value)
    → index "value" m ≡ w
    → is_deferred_ref producers self (value_text w) ≡ true
    → Waits producers self (obj m)
unfolding is_deferred_ref has_prefix text
value-Waits producers self m (str s) e d =
    let starts = is_deferred_ref-has_prefix producers self s d in
    let (t, spelled) = has_prefix-append s (text "bulkId:") starts in
    declared-Waits producers self t m (rw spelled at e) (rw spelled at d)
value-Waits producers self m null e d = absurd (false≢true d)
value-Waits producers self m (bool b) e d = absurd (false≢true d)
value-Waits producers self m (num n) e d = absurd (false≢true d)
value-Waits producers self m (obj o) e d = absurd (false≢true d)
value-Waits producers self m (arr vs) e d = absurd (false≢true d)

pub is_deferred_member-Waits :
    (producers : Producers) (self : Text) (v : Value)
    → is_deferred_member producers self v ≡ true
    → Waits producers self v
unfolding is_deferred_member
is_deferred_member-Waits producers self (obj m) h =
    value-Waits producers self m (index "value" m) refl h
is_deferred_member-Waits producers self null h = absurd (false≢true h)
is_deferred_member-Waits producers self (bool b) h = absurd (false≢true h)
is_deferred_member-Waits producers self (num n) h = absurd (false≢true h)
is_deferred_member-Waits producers self (str s) h = absurd (false≢true h)
is_deferred_member-Waits producers self (arr vs) h = absurd (false≢true h)

pub Waits-is_deferred_member :
    (producers : Producers) (self : Text) (v : Value)
    → Waits producers self v
    → is_deferred_member producers self v ≡ true
unfolding is_deferred_member
Waits-is_deferred_member producers self v (m, ref, i, e, value, given, other, (n, declared)) =
    let filled : is_empty ref ≡ false = elim (Bool-cases (is_empty ref)) [
      | inl s ↦ absurd (given (empty_lem ref s))
      | inr s ↦ s
    ] in
    let differs : same ref self ≡ false = elim (Bool-cases (same ref self)) [
      | inl s ↦ absurd (other ((same_iff ref self).0 s))
      | inr s ↦ s
    ] in
    elim (Option-cases (lookup_id producers ref)) [
      | inl s ↦ absurd (Among-lookup_id producers ref i n declared s)
      | inr (j, s) ↦
          rw (e, is_deferred_member)
            (rw value (is_deferred_ref-declared producers self ref ∙ rw (filled, differs, s) refl))
    ]
