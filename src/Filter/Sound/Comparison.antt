-- ===== src/Filter/Sound/Comparison.antt =====
-- internal/scim/filter.go: the comparisons and the tests of presence.
use scim_server_impl_go.Base.{
  ℕ, suc, String, Bool, true, not, ◌&&◌, Option, none, some, [], ◌∷◌, ◌≡◌, ◌⊎◌, refl, inl, inr,
  Bool-cases, Option-cases, if-keeps, if◌then◌else◌, arith, length,
}
use scim_server_impl_go.Text.{Text, text, same, to_lower, is_empty, split_at}
use scim_server_impl_go.Text.Laws.{switch-keeps}
use scim_server_impl_go.External.{External}
use scim_server_impl_go.Canonicalize.{extract_uuid_from_ref}
use scim_server_impl_go.Filter.{
  Piece, lit, dyn, placeholder, FilterResult, FilterParser, Parser, next_param, or_refuse, give,
  refuse, EntityType, user, group, Target,
}
use scim_server_impl_go.Filter.Attributes.{
  one_of, is_json_collection, is_json_column, is_group_members_attr, is_user_groups_attr,
  is_valid_any_resource_attr, is_boolean_attr, resolve_json_column, resolve_column,
}
use scim_server_impl_go.Filter.Conditions.{fixed}
use scim_server_impl_go.Filter.Elements.{
  is_bool_text, not_empty_column, build_json_attribute_filter,
}
use scim_server_impl_go.Filter.Comparison.{
  Times, json_path, is_date_time, is_like, comparison_cases, is_manager_ref, parse_date_time,
  validate_cross_resource_comparison, compare_column, check_and_compare, compare_attribute,
  attribute_comparison, build_comparison_with_raw, present_column, build_present_filter,
}
use scim_server_impl_go.Filter.Sound.{Built, Ensures, ensured, refusal, Ensures-after, OnSome}
use scim_server_impl_go.Filter.Sound.Columns.{
  is_constant_column, constant-lit, resolve_json_column-constant, resolve_column-constant,
}
use scim_server_impl_go.Filter.Sound.Conditions.{
  OneAt, eq_test-OneAt, ne_test-OneAt, like_test-OneAt, Builds, build_text_expr_condition-TookOne,
  build_schemas_filter-Builds, build_group_members_filter-Builds, build_user_groups_filter-Builds,
  build_group_members_present_filter-Builds,
}
use scim_server_impl_go.Filter.Sound.Elements.{build_json_attribute_filter-Builds}

-- a result of one condition with the placeholder `m`
abbrev Single : ℕ → FilterResult → Type 0
Single m r = OneAt m r.sql × (length r.args ≡ 1)

comparison_cases-Single :
    (s : String) (is_bool folds : Bool) (operator value : Text) (m : ℕ)
    → OnSome (Single m) (comparison_cases (lit s) is_bool folds operator value (placeholder m))
unfolding comparison_cases
comparison_cases-Single s is_bool folds operator value m =
    let like = like_test-OneAt folds s m in
    switch-keeps (OnSome (Single m)) operator _
      (
        if-keeps (Single m) is_bool ((refl, refl), refl) (eq_test-OneAt folds s m, refl),
        (
          if-keeps (Single m) is_bool ((refl, refl), refl) (ne_test-OneAt folds s m, refl),
          (
            (like, refl),
            (
              (like, refl),
              (
                (like, refl),
                (
                  ((refl, refl), refl),
                  (((refl, refl), refl), (((refl, refl), refl), (((refl, refl), refl), tt))),
                ),
              ),
            ),
          ),
        ),
      )
      tt

Single-Built :
    (o : Option FilterResult) (p : FilterParser)
    → OnSome (Single p.param_idx) o
    → Ensures (Built p) (or_refuse o (record p { param_idx = suc p.param_idx }))
Single-Built none p h = refusal
Single-Built (some r) p h = ensured (h.0, omega arith, omega arith)

-- what holds of no column and of each constant column, holds of a column that is found
of_column :
    (P : Option Piece → Type 0) (o : Option Piece)
    → is_constant_column o ≡ true
    → P none
    → ((s : String) → P (some (lit s)))
    → P o
of_column P none h d k = d
of_column P (some (lit s)) h d k = k s
of_column P (some (dyn s)) h d k = cc
of_column P (some (placeholder n)) h d k = cc

-- the same of a path into a JSON column
of_json_path :
    (attr : Text) (P : Parser FilterResult → Type 0) (f : Text → Text → Parser FilterResult)
    (d : Parser FilterResult)
    → ((a b : Text) → is_json_collection a ≡ true → P (f a b))
    → P d
    → P (elim (json_path attr) [ some (a, b) ↦ f a b | none ↦ d ])
unfolding json_path
of_json_path attr P f d h k = elim (Option-cases (split_at b'.' attr)) [
  | inl e ↦ rw e k
  | inr ((a, b), e) ↦ elim (Bool-cases (is_json_collection a)) [
    | inl c ↦ rw (e, c) (h a b c)
    | inr c ↦ rw (e, c) k
  ]
]

json_filter-Builds :
    (a b operator value : Text)
    → is_json_collection a ≡ true
    → Builds (build_json_attribute_filter (resolve_json_column a) a b operator value)
json_filter-Builds a b operator value h =
    let c = constant-lit (resolve_json_column a) (resolve_json_column-constant a h) in
    rw c.1 (build_json_attribute_filter-Builds c.0 a b operator value)

present_column-Builds : (t : Target) (raw attr : Text) → Builds (present_column t raw attr)
unfolding present_column
present_column-Builds t raw attr =
    of_column
      (λ o. Builds (elim o [
        | none ↦
            if t.cross_resource && is_valid_any_resource_attr raw
            then give (fixed "FALSE")
            else refuse
        | some col ↦
            if is_json_column attr
            then give (not_empty_column col)
            else give (record { sql = col ∷ lit " IS NOT NULL" ∷ []; args = [] })
      ]))
      (resolve_column t.entity_type attr) (resolve_column-constant t.entity_type attr)
      (if-keeps Builds (t.cross_resource && is_valid_any_resource_attr raw)
        (λ p. ensured (refl, omega arith, omega arith)) (λ p. refusal))
      (λ s.
        if-keeps Builds (is_json_column attr) (λ p. ensured (refl, omega arith, omega arith))
          (λ p. ensured (refl, omega arith, omega arith)))

EntityType-cases : (e : EntityType) → (e ≡ user) ⊎ (e ≡ group)
EntityType-cases user = inl refl
EntityType-cases group = inr refl

pub build_present_filter-Builds :
    (t : Target) (raw attr : Text) → Builds (build_present_filter t raw attr)
unfolding build_present_filter
build_present_filter-Builds t raw attr =
    let other = present_column-Builds t raw attr in
    if-keeps Builds (same (to_lower attr) _) (λ p. ensured (refl, omega arith, omega arith))
      (elim (EntityType-cases t.entity_type) [
        | inr e ↦ rw e (
            if-keeps Builds (is_group_members_attr (to_lower attr))
              (build_group_members_present_filter-Builds (to_lower attr)) other)
        | inl e ↦ rw e (
            if-keeps Builds (is_user_groups_attr (to_lower attr))
              (λ p. ensured (refl, omega arith, omega arith))
              (if-keeps Builds (same (to_lower attr) _)
                (λ p. ensured (refl, omega arith, omega arith))
                (if-keeps Builds (same (to_lower attr) _)
                  (λ p. ensured (refl, omega arith, omega arith))
                  (of_json_path attr Builds _ _ (λ a b. json_filter-Builds a b (text "pr") [])
                    other))))
      ])

module _ (x : External) (times : Times) where
  compare_column-Builds :
      (attr : Text) (s : String) (operator value : Text)
      → Builds (compare_column x times attr (lit s) operator value)
  unfolding compare_column next_param
  compare_column-Builds attr s operator value p =
      Single-Built _ p (comparison_cases-Single s _ _ operator value p.param_idx)

  check_and_compare-Builds :
      (attr : Text) (s : String) (operator value : Text)
      → Builds (check_and_compare x times attr (lit s) operator value)
  unfolding check_and_compare
  check_and_compare-Builds attr s operator value =
      if-keeps Builds (is_boolean_attr (to_lower attr) && not (one_of operator _)) (λ p. refusal)
        (if-keeps Builds (is_boolean_attr (to_lower attr) && not (is_bool_text value))
          (λ p. refusal)
          (if-keeps Builds (is_date_time (to_lower attr))
            (if-keeps Builds (is_like operator) (λ p. refusal)
              (elim (Option-cases (parse_date_time x times value)) [
                | inl e ↦ rw e (λ p. refusal)
                | inr (i, e) ↦ rw e (compare_column-Builds attr s operator (times.format_nano i))
              ]))
            (compare_column-Builds attr s operator value)))

  compare_attribute-Builds :
      (attr : Text) (s : String) (operator value : Text)
      → Builds (compare_attribute x times attr (lit s) operator value)
  unfolding compare_attribute
  compare_attribute-Builds attr s operator value =
      if-keeps Builds
        (is_manager_ref (lit s)
          && one_of operator _
          && not (is_empty (extract_uuid_from_ref x value)))
        (λ p.
          Ensures-after _ (build_text_expr_condition-TookOne _ operator _ true p)
            (λ c p' h. ensured h))
        (check_and_compare-Builds attr s operator value)

  attribute-Builds :
      (t : Target) (raw attr operator value : Text)
      → Builds (attribute_comparison x times t raw attr operator value)
  unfolding attribute_comparison
  attribute-Builds t raw attr operator value =
      of_column
        (λ o. Builds (elim o [
          | none ↦
              if t.cross_resource
                && is_valid_any_resource_attr raw
                && validate_cross_resource_comparison x times raw operator value
              then give (fixed "FALSE")
              else refuse
          | some col ↦ compare_attribute x times attr col operator value
        ]))
        (resolve_column t.entity_type attr) (resolve_column-constant t.entity_type attr)
        (if-keeps Builds
          (t.cross_resource
            && is_valid_any_resource_attr raw
            && validate_cross_resource_comparison x times raw operator value)
          (λ p. ensured (refl, omega arith, omega arith)) (λ p. refusal))
        (λ s. compare_attribute-Builds attr s operator value)

  pub build_comparison_with_raw-Builds :
      (t : Target) (raw attr operator value : Text)
      → Builds (build_comparison_with_raw x times t raw attr operator value)
  unfolding build_comparison_with_raw
  build_comparison_with_raw-Builds t raw attr operator value =
      let other = attribute-Builds t raw attr operator value in
      if-keeps Builds (same (to_lower attr) _)
        (build_schemas_filter-Builds t.entity_type operator value)
        (elim (EntityType-cases t.entity_type) [
          | inr e ↦ rw e (
              if-keeps Builds (is_group_members_attr (to_lower attr))
                (build_group_members_filter-Builds x attr operator value) other)
          | inl e ↦ rw e (
              if-keeps Builds (is_user_groups_attr (to_lower attr))
                (build_user_groups_filter-Builds x attr operator value)
                (of_json_path attr Builds _ _ (λ a b. json_filter-Builds a b operator value) other))
        ])
