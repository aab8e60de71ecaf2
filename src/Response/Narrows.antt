-- ===== src/Response/Narrows.antt =====
-- internal/handler/base.go: a projection shows a part of what it is given.
use scim_server_impl_go.Base.{Bool, not, Option, none, some, inl, inr, if-keeps, Option-cases}
use scim_server_impl_go.Text.{Text, text, same, to_lower, is_empty, trim_space}
use scim_server_impl_go.Value.{Value, obj, arr, Items, nil, cons, Fields, end, field}
use scim_server_impl_go.Response.Projection.{
  Names, ProjectionSpec, has, subs_of, filter_fields, no_fields, all_objects, filter_objects,
  no_items, project_subs, project_fields, whitelisted, project_object_map_whitelist, blacklisted,
  project_object_map_blacklist, delete, change, find_key_case_insensitive, nothing, names_any,
  given_object, whitelisted_block, blacklisted_block, always_keep, protected, select, exclude,
  ent_urn, apply_attribute_projection,
}

-- What a response may show of a value: all of it, some members of an object, or some members of some
-- elements of a list, and so on inwards.
mutual
  pub data Narrows : Value → Value → Type 0 where
    whole : {v : Value} → Narrows v v
    object : {m n : Fields} → Projected m n → Narrows (obj m) (obj n)
    objects : {vs ws : Items} → Elements vs ws → Narrows (arr vs) (arr ws)

  pub data Projected : Fields → Fields → Type 0 where
    stop : Projected end end
    dropped : {k : Text} {v : Value} {m n : Fields} → Projected m n → Projected m (field k v n)
    shown :
        {k : Text} {v w : Value} {m n : Fields}
        → Narrows v w
        → Projected m n
        → Projected (field k v m) (field k w n)

  pub data Elements : Items → Items → Type 0 where
    no_more : Elements nil nil
    passed : {v : Value} {vs ws : Items} → Elements vs ws → Elements vs (cons v ws)
    kept :
        {v w : Value} {vs ws : Items}
        → Narrows v w
        → Elements vs ws
        → Elements (cons v vs) (cons w ws)

mutual
  Narrows-trans : {u v w : Value} → Narrows u v → Narrows v w → Narrows u w
  Narrows-trans whole k = k
  Narrows-trans h whole = h
  Narrows-trans (object h) (object k) = object (Projected-trans h k)
  Narrows-trans (objects h) (objects k) = objects (Elements-trans h k)

  pub Projected-trans : {l m n : Fields} → Projected l m → Projected m n → Projected l n
  Projected-trans h stop = h
  Projected-trans h (dropped k) = dropped (Projected-trans h k)
  Projected-trans (dropped h) (shown j k) = dropped (Projected-trans h k)
  Projected-trans (shown i h) (shown j k) = shown (Narrows-trans i j) (Projected-trans h k)

  Elements-trans : {us vs ws : Items} → Elements us vs → Elements vs ws → Elements us ws
  Elements-trans h no_more = h
  Elements-trans h (passed k) = passed (Elements-trans h k)
  Elements-trans (passed h) (kept j k) = passed (Elements-trans h k)
  Elements-trans (kept i h) (kept j k) = kept (Narrows-trans i j) (Elements-trans h k)

Projected-refl : (m : Fields) → Projected m m
Projected-refl end = stop
Projected-refl (field k v m) = shown whole (Projected-refl m)

-- a value that is shown in part, if it is not deleted
abbrev Shows : Value → Option Value → Type 0
Shows v none = Unit
Shows v (some w) = Narrows w v

project_fields-Projected :
    (f : Text → Value → Option Value)
    → ((k : Text) (v : Value) → Shows v (f k v))
    → (m : Fields) → Projected (project_fields f m) m
unfolding project_fields
project_fields-Projected f h end = stop
project_fields-Projected f h (field k v m) = go (f k v) (h k v) (project_fields-Projected f h m)
  where
    go :
        (o : Option Value)
        → Shows v o
        → Projected (project_fields f m) m
        → Projected
            (elim o [ none ↦ project_fields f m | some w ↦ field k w (project_fields f m) ])
            (field k v m)
    go none s p = dropped p
    go (some w) s p = shown s p

filter_fields-Projected : (test : Text → Bool) (m : Fields) → Projected (filter_fields test m) m
unfolding filter_fields
filter_fields-Projected test end = stop
filter_fields-Projected test (field k v m) =
    let rest = filter_fields-Projected test m in
    if-keeps (λ n. Projected n (field k v m)) (test (to_lower k)) (shown whole rest) (dropped rest)

filter_objects-Elements : (test : Text → Bool) (vs : Items) → Elements (filter_objects test vs) vs
unfolding filter_objects
filter_objects-Elements test nil = no_more
filter_objects-Elements test (cons (obj m) vs) =
    let rest = filter_objects-Elements test vs in
    if-keeps (λ ws. Elements ws (cons (obj m) vs)) (no_fields (filter_fields test m)) (passed rest)
      (kept (object (filter_fields-Projected test m)) rest)
filter_objects-Elements test (cons v vs) = passed (filter_objects-Elements test vs)

project_subs-Shows :
    (test : Text → Bool) (v : Value) (keeps other : Option Value)
    → Shows v keeps
    → Shows v other
    → Shows v (project_subs test v keeps other)
unfolding project_subs
project_subs-Shows test (obj m) keeps other h k =
    if-keeps (Shows (obj m)) (no_fields (filter_fields test m)) h
      (object (filter_fields-Projected test m))
project_subs-Shows test (arr vs) keeps other h k =
    if-keeps (Shows (arr vs)) (all_objects vs)
      (if-keeps (Shows (arr vs)) (no_items (filter_objects test vs)) tt
        (objects (filter_objects-Elements test vs)))
      k
project_subs-Shows test v keeps other h k = k

whitelisted-Shows :
    (names : Names) (keep : Text → Bool) (kl : Text) (v : Value)
    → Shows v (whitelisted names keep kl v)
unfolding whitelisted
whitelisted-Shows names keep kl v =
    let default = if-keeps (Shows v) (keep kl) {x = some v} {y = none} whole tt in
    if-keeps (Shows v) (has names.whole kl) whole (elim (Option-cases (subs_of kl names.subs)) [
      | inl e ↦ rw e default
      | inr (set, e) ↦ rw e (project_subs-Shows (has set) v _ _ default default)
    ])

blacklisted-Shows :
    (names : Names) (keep : Text → Bool) (kl : Text) (v : Value)
    → Shows v (blacklisted names keep kl v)
unfolding blacklisted
blacklisted-Shows names keep kl v = if-keeps (Shows v) (keep kl) whole (
    if-keeps (Shows v) (has names.whole kl) tt (elim (Option-cases (subs_of kl names.subs)) [
      | inl e ↦ rw e whole
      | inr (set, e) ↦ rw e (project_subs-Shows (λ s. not (has set s)) v _ _ tt whole)
    ]))

whitelist-Projected :
    (names : Names) (keep : Text → Bool) (m : Fields)
    → Projected (project_object_map_whitelist names keep m) m
unfolding project_object_map_whitelist
whitelist-Projected names keep =
    project_fields-Projected _ (λ k v. whitelisted-Shows names keep (to_lower k) v)

blacklist-Projected :
    (names : Names) (keep : Text → Bool) (m : Fields)
    → Projected (project_object_map_blacklist names keep m) m
unfolding project_object_map_blacklist
blacklist-Projected names keep =
    project_fields-Projected _ (λ k v. blacklisted-Shows names keep (to_lower k) v)

delete-Projected : (key : Text) (m : Fields) → Projected (delete key m) m
unfolding delete
delete-Projected key =
    project_fields-Projected _
      (λ k v. if-keeps (Shows v) (same k key) {x = none} {y = some v} tt whole)

change-Projected :
    (key : Text) (f : Value → Option Value)
    → ((v : Value) → Shows v (f v))
    → (m : Fields) → Projected (change key f m) m
unfolding change
change-Projected key f h =
    project_fields-Projected _
      (λ k v. if-keeps (Shows v) (same k key) {x = f v} {y = some v} (h v) whole)

given_object-Shows : (m n : Fields) → Projected m n → Shows (obj n) (given_object m)
given_object-Shows m n h = if-keeps (Shows (obj n)) (no_fields m) tt (object h)

whitelisted_block-Shows : (names : Names) (v : Value) → Shows v (whitelisted_block names v)
unfolding whitelisted_block
whitelisted_block-Shows names (obj m) = given_object-Shows _ m (whitelist-Projected names nothing m)
whitelisted_block-Shows names v = tt

blacklisted_block-Shows : (names : Names) (v : Value) → Shows v (blacklisted_block names v)
unfolding blacklisted_block
blacklisted_block-Shows names (obj m) = given_object-Shows _ m (blacklist-Projected names nothing m)
blacklisted_block-Shows names v = whole

select-Projected : (spec : ProjectionSpec) (m : Fields) → Projected (select spec m) m
unfolding select
select-Projected spec m = elim (Option-cases (find_key_case_insensitive ent_urn m)) [
  | inl e ↦ rw (e, select) (whitelist-Projected _ always_keep m)
  | inr (key, e) ↦
      rw (e, select)
        (if-keeps (λ n. Projected n m) spec.ent_all (whitelist-Projected _ always_keep m)
          (if-keeps (λ n. Projected n m) (names_any spec.ent)
            (Projected-trans (whitelist-Projected _ always_keep _)
              (change-Projected key _ (whitelisted_block-Shows spec.ent) m))
            (Projected-trans (whitelist-Projected _ always_keep _) (delete-Projected key m))))
]

exclude-Projected : (spec : ProjectionSpec) (m : Fields) → Projected (exclude spec m) m
unfolding exclude
exclude-Projected spec m = elim (Option-cases (find_key_case_insensitive ent_urn m)) [
  | inl e ↦ rw (e, exclude) (blacklist-Projected _ protected m)
  | inr (key, e) ↦
      rw (e, exclude)
        (Projected-trans (blacklist-Projected _ protected _) (
          if-keeps (λ n. Projected n m) spec.ent_all (delete-Projected key m)
            (if-keeps (λ n. Projected n m) (names_any spec.ent)
              (change-Projected key _ (blacklisted_block-Shows spec.ent) m) (Projected-refl m))))
]

pub apply_attribute_projection-Projected :
    (m : Fields) (attributes excluded : Text)
    → Projected (apply_attribute_projection m attributes excluded) (delete (text "password") m)
unfolding apply_attribute_projection
apply_attribute_projection-Projected m attributes excluded =
    if-keeps (λ n. Projected n (delete (text "password") m))
      (not (is_empty (trim_space attributes))) (select-Projected _ _)
      (if-keeps (λ n. Projected n (delete (text "password") m))
        (not (is_empty (trim_space excluded))) (exclude-Projected _ _) (Projected-refl _))
