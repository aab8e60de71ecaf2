-- ===== src/Response/Kept.antt =====
-- internal/handler/base.go: what every projection keeps, and what none shows.
use scim_server_impl_go.Base.{
  String, true, false, not, Option, none, some, List, [], ◌∷◌, ◌≡◌, ◌∙◌, inl, inr, refl, sym, ap,
  if-keeps, Option-cases, Bool-cases, false≢true,
}
use scim_server_impl_go.Text.{
  Text, text, same, to_lower, is_empty, trim_space, equal_fold, in_set, lower_rune, fold_rune,
}
use scim_server_impl_go.Text.Laws.{same_iff}
use scim_server_impl_go.Value.{Value, Fields, end, field, find}
use scim_server_impl_go.Response.Projection.{
  Names, ProjectionSpec, has, subs_of, delete_subs, project_fields, whitelisted,
  project_object_map_whitelist, blacklisted, project_object_map_blacklist, delete, change,
  find_key_case_insensitive, names_any, whitelisted_block, blacklisted_block, always_keep,
  protected, whitelist_core, select, exclude, apply_attribute_projection, ent_urn,
}
use scim_server_impl_go.Response.Narrows.{
  Projected, stop, dropped, shown, apply_attribute_projection-Projected,
}

module _ (key : String) where
  missed :
      (k : Text) (v : Value) (m : Fields)
      → same k (text key) ≡ false
      → find key (field k v m) ≡ none
      → find key m ≡ none
  unfolding find
  missed k v m e h = rw e at h

  found-none :
      {a : Option Value} (k : Text) (v : Value) (m : Fields)
      → same k (text key) ≡ true
      → find key (field k v m) ≡ none
      → a ≡ none
  unfolding find
  found-none k v m e h = let impossible : some v ≡ none = rw e at h in cc

-- no projection shows a member that is not there
absent : (key : String) (m n : Fields) → Projected m n → find key n ≡ none → find key m ≡ none
unfolding find
absent key end end stop h = refl
absent key (field k v m) end p h = elim p [ ]
absent key m (field k v n) (dropped p) h = absent key m n p (elim (Bool-cases (same k (text key))) [
  | inl e ↦ found-none key k v n e h
  | inr e ↦ missed key k v n e h
])
absent key (field k v m) (field k' w n) (shown s p) h = elim (Bool-cases (same k (text key))) [
  | inl e ↦ rw (e, find) (found-none key k w n e h)
  | inr e ↦ rw (e, find) (absent key m n p (missed key k w n e h))
]

delete-absent : (key : String) (m : Fields) → find key (delete (text key) m) ≡ none
unfolding find delete project_fields
delete-absent key end = refl
delete-absent key (field k v m) = elim (Bool-cases (same k (text key))) [
  | inl e ↦ rw (e, find, delete, project_fields) (delete-absent key m)
  | inr e ↦ rw (e, find, delete, project_fields) (rw (e, find) (delete-absent key m))
]

-- a loop that leaves the members with this key leaves what is found under it
find-project_fields :
    (key : String) (f : Text → Value → Option Value)
    → ((v : Value) → f (text key) v ≡ some v)
    → (m : Fields) → find key (project_fields f m) ≡ find key m
unfolding find project_fields
find-project_fields key f h end = refl
find-project_fields key f h (field k v m) = elim (Bool-cases (same k (text key))) [
  | inl e ↦
      let same_key : k ≡ text key = (same_iff k (text key)).0 e in
      rw (ap (λ j. f j v) same_key ∙ h v, find, project_fields) (rw (e, find) refl)
  | inr e ↦ elim (Option-cases (f k v)) [
    | inl d ↦ rw (d, e, find, project_fields) (find-project_fields key f h m)
    | inr (w, d) ↦ rw (d, e, find, project_fields) (find-project_fields key f h m)
  ]
]

find_key-equal_fold :
    (target key : Text) (m : Fields)
    → find_key_case_insensitive target m ≡ some key
    → equal_fold key target ≡ true
unfolding find_key_case_insensitive
find_key-equal_fold target key end h = cc
find_key-equal_fold target key (field k v m) h = elim (Bool-cases (equal_fold k target)) [
  | inl e ↦
      let found : some k ≡ some key = rw e at h in let same_key : k ≡ key = cc in rw (← same_key) e
  | inr e ↦ find_key-equal_fold target key m (rw e at h)
]

subs_of-delete_subs :
    (k : Text) (subs : List (Text × List Text)) → subs_of k (delete_subs k subs) ≡ none
unfolding subs_of delete_subs
subs_of-delete_subs k [] = refl
subs_of-delete_subs k ((p, set) ∷ subs) = elim (Bool-cases (same k p)) [
  | inl e ↦ rw (e, subs_of, delete_subs) (subs_of-delete_subs k subs)
  | inr e ↦ rw (e, subs_of, delete_subs) (rw (e, subs_of) (subs_of-delete_subs k subs))
]

delete_subs-none :
    (k j : Text) (subs : List (Text × List Text))
    → subs_of k subs ≡ none
    → subs_of k (delete_subs j subs) ≡ none
unfolding subs_of delete_subs
delete_subs-none k j [] h = refl
delete_subs-none k j ((p, set) ∷ subs) h = elim (Bool-cases (same k p)) [
  | inl e ↦ (let impossible : some set ≡ none = rw e at h in cc)
  | inr e ↦
      if-keeps (λ (s : List (Text × List Text)). subs_of k s ≡ none) (same j p)
        (delete_subs-none k j subs (rw e at h))
        (rw (e, subs_of) (delete_subs-none k j subs (rw e at h)))
]

-- A key that no projection may touch.
module _ (key : String) (always : always_keep (to_lower (text key)) ≡ true)
    (guarded : protected (to_lower (text key)) ≡ true)
    (core : equal_fold (text key) ent_urn ≡ false)
    (not_password : same (text key) (text "password") ≡ false)
    (no_subs : (subs : List (Text × List Text))
      → subs_of (to_lower (text key)) (delete_subs (text "id") (delete_subs (text "schemas") subs))
        ≡ none) where
  Keeps : (Fields → Fields) → Type 0
  Keeps f = (m : Fields) → find key (f m) ≡ find key m

  whitelist_core-Keeps : (names : Names) → Keeps (whitelist_core names)
  unfolding Keeps project_object_map_whitelist whitelisted
  whitelist_core-Keeps names = find-project_fields key _ (λ v.
      if-keeps (λ (o : Option Value). o ≡ some v) (has names.whole (to_lower (text key))) refl
        (rw (no_subs names.subs, always) refl))

  exclude_core-Keeps : (names : Names) → Keeps (project_object_map_blacklist names protected)
  unfolding Keeps project_object_map_blacklist blacklisted
  exclude_core-Keeps names = find-project_fields key _ (λ v. rw guarded refl)

  -- a loop on another key
  other_key : (k : Text) (f : Value → Option Value) → same (text key) k ≡ false → Keeps (change k f)
  unfolding Keeps change
  other_key k f e = find-project_fields key _ (λ v. rw e refl)

  delete-Keeps : (k : Text) → same (text key) k ≡ false → Keeps (delete k)
  unfolding Keeps delete
  delete-Keeps k e = find-project_fields key _ (λ v. rw e refl)

  -- the key of the extension is another one
  apart :
      (k : Text) (m : Fields)
      → find_key_case_insensitive ent_urn m ≡ some k
      → same (text key) k ≡ false
  apart k m h = elim (Bool-cases (same (text key) k)) [
    | inr e ↦ e
    | inl e ↦
        let is_key : text key ≡ k = (same_iff (text key) k).0 e in
        let folds = find_key-equal_fold ent_urn k m h in
        absurd (false≢true (sym core ∙ ap (λ j. equal_fold j ent_urn) is_key ∙ folds))
  ]

  select-Keeps : (spec : ProjectionSpec) → Keeps (select spec)
  unfolding Keeps select
  select-Keeps spec m = elim (Option-cases (find_key_case_insensitive ent_urn m)) [
    | inl e ↦ rw (e, select) (whitelist_core-Keeps spec.core m)
    | inr (k, e) ↦
        rw (e, select)
          (if-keeps (λ n. find key n ≡ find key m) spec.ent_all (whitelist_core-Keeps _ m)
            (if-keeps (λ n. find key n ≡ find key m) (names_any spec.ent)
              (whitelist_core-Keeps _ _ ∙ other_key k (whitelisted_block spec.ent) (apart k m e) m)
              (whitelist_core-Keeps _ _ ∙ delete-Keeps k (apart k m e) m)))
  ]

  exclude-Keeps : (spec : ProjectionSpec) → Keeps (exclude spec)
  unfolding Keeps exclude
  exclude-Keeps spec m = elim (Option-cases (find_key_case_insensitive ent_urn m)) [
    | inl e ↦ rw (e, exclude) (exclude_core-Keeps spec.core m)
    | inr (k, e) ↦
        rw (e, exclude)
          (exclude_core-Keeps spec.core _
            ∙ if-keeps (λ n. find key n ≡ find key m) spec.ent_all (delete-Keeps k (apart k m e) m)
                (if-keeps (λ n. find key n ≡ find key m) (names_any spec.ent)
                  (other_key k (blacklisted_block spec.ent) (apart k m e) m) refl))
  ]

  projection-Keeps :
      (attributes excluded : Text) → Keeps (λ m. apply_attribute_projection m attributes excluded)
  unfolding Keeps apply_attribute_projection
  projection-Keeps attributes excluded m =
      let first = delete-Keeps (text "password") not_password m in
      if-keeps (λ n. find key n ≡ find key m) (not (is_empty (trim_space attributes)))
        (select-Keeps _ _ ∙ first)
        (if-keeps (λ n. find key n ≡ find key m) (not (is_empty (trim_space excluded)))
          (exclude-Keeps _ _ ∙ first) first)

-- For every response and every selection or exclusion of attributes, the projection shows only a part of
-- the response, never its `password`, and always the `id` and the `schemas` of the response.
pub apply_attribute_projection_lem :
    (m : Fields) (attributes excluded : Text)
    → Projected (apply_attribute_projection m attributes excluded) (delete (text "password") m)
      × (find "password" (apply_attribute_projection m attributes excluded) ≡ none)
      × (find "id" (apply_attribute_projection m attributes excluded) ≡ find "id" m)
      × (find "schemas" (apply_attribute_projection m attributes excluded) ≡ find "schemas" m)
unfolding to_lower text same equal_fold in_set lower_rune fold_rune Keeps
apply_attribute_projection_lem m attributes excluded =
    let part = apply_attribute_projection-Projected m attributes excluded in
    (
      part,
      absent "password" _ _ part (delete-absent "password" m),
      projection-Keeps "id" refl refl refl refl (λ subs. subs_of-delete_subs _ _) attributes
          excluded m,
      projection-Keeps "schemas" refl refl refl refl
          (λ subs. delete_subs-none _ _ _ (subs_of-delete_subs _ subs)) attributes excluded m,
    )
