-- ===== src/Filter/Sound/Conditions.antt =====
-- internal/scim/filter.go: the conditions take one placeholder for each value.
use scim_server_impl_go.Base.{
  ℕ, suc, String, Bool, true, false, not, Option, none, some, List, [], ◌∷◌, ◌++◌, refl, if-keeps,
  arith,
}
use scim_server_impl_go.Text.{Text, text, same, to_lower}
use scim_server_impl_go.Text.Laws.{switch-keeps}
use scim_server_impl_go.External.{External}
use scim_server_impl_go.Filter.{
  Piece, lit, placeholder, text_arg, FilterResult, FilterParser, Parser, next_param, EntityType,
  user, group, or_refuse,
}
use scim_server_impl_go.Filter.Attributes.{is_valid_comparison_op, one_of}
use scim_server_impl_go.Filter.Conditions.{
  eq_test, ne_test, like_test, text_expr_cases, build_text_expr_condition, within, wrapped, fixed,
  build_group_members_present_filter, build_group_members_filter, build_user_groups_filter,
  build_schemas_filter, ent_present,
}
use scim_server_impl_go.Filter.Elements.{elem_cases}
use scim_server_impl_go.Filter.Sound.{
  Numbered, Numbered-append, Step, Built, Ensures, ensured, refusal, Ensures-after, OnSome,
  or_refuse-Ensures,
}

-- a test with one placeholder
abbrev pub OneAt : ℕ → List Piece → Type 0
OneAt m sql = Numbered m (suc m) sql

pub eq_test-OneAt :
    (folds : Bool) (s : String) (m : ℕ) → OneAt m (eq_test folds (lit s) (placeholder m))
eq_test-OneAt true s m = (refl, refl)
eq_test-OneAt false s m = (refl, refl)

pub ne_test-OneAt :
    (folds : Bool) (s : String) (m : ℕ) → OneAt m (ne_test folds (lit s) (placeholder m))
ne_test-OneAt true s m = (refl, refl)
ne_test-OneAt false s m = (refl, refl)

pub like_test-OneAt :
    (folds : Bool) (s : String) (m : ℕ) → OneAt m (like_test folds (lit s) (placeholder m))
like_test-OneAt true s m = (refl, refl)
like_test-OneAt false s m = (refl, refl)

text_expr_cases-OneAt :
    (s : String) (operator value : Text) (folds : Bool) (m : ℕ)
    → OnSome
        (λ (c : List Piece × Text). OneAt m c.0)
        (text_expr_cases (lit s) operator value folds (placeholder m))
unfolding text_expr_cases
text_expr_cases-OneAt s operator value folds m =
    let like = like_test-OneAt folds s m in
    switch-keeps (OnSome (λ (c : List Piece × Text). OneAt m c.0)) operator _
      (
        eq_test-OneAt folds s m,
        (
          ne_test-OneAt folds s m,
          (
            like,
            (like, (like, ((refl, refl), ((refl, refl), ((refl, refl), ((refl, refl), tt)))))),
          ),
        ),
      )
      tt

pub elem_cases-OneAt :
    (s : String) (op val : Text) (m : ℕ)
    → OnSome (λ (c : List Piece × Text). OneAt m c.0) (elem_cases (lit s) op val (placeholder m))
unfolding elem_cases
elem_cases-OneAt s op val m =
    switch-keeps (OnSome (λ (c : List Piece × Text). OneAt m c.0)) op _
      (
        (refl, refl),
        (
          (refl, refl),
          (
            (refl, refl),
            (
              (refl, refl),
              ((refl, refl), ((refl, refl), ((refl, refl), ((refl, refl), ((refl, refl), tt))))),
            ),
          ),
        ),
      )
      tt

-- a call that takes one placeholder
abbrev pub TookOne : FilterParser → List Piece × Text → FilterParser → Type 0
TookOne p c p' = Step c.0 1 p p'

pub one_taken :
    (o : Option (List Piece × Text)) (p : FilterParser)
    → OnSome (λ (c : List Piece × Text). OneAt p.param_idx c.0) o
    → Ensures (TookOne p) (or_refuse o (record p { param_idx = suc p.param_idx }))
one_taken none p h = refusal
one_taken (some c) p h = ensured (h, omega arith, omega arith)

pub build_text_expr_condition-TookOne :
    (s : String) (operator value : Text) (folds : Bool) (p : FilterParser)
    → Ensures (TookOne p) (build_text_expr_condition (lit s) operator value folds p)
unfolding build_text_expr_condition next_param
build_text_expr_condition-TookOne s operator value folds p =
    one_taken (text_expr_cases (lit s) operator value folds (placeholder p.param_idx)) p
      (text_expr_cases-OneAt s operator value folds p.param_idx)

-- A method whose every result is `Built`.
abbrev pub Builds : Parser FilterResult → Type 0
Builds m = (p : FilterParser) → Ensures (Built p) (m p)

pub within-Built :
    (head : String) (p : FilterParser) (c : List Piece × Text) (p' : FilterParser)
    → TookOne p c p'
    → Built p (record { sql = within head (c.0); args = text_arg c.1 ∷ [] }) p'
within-Built head p c p' h =
    (Numbered-append p.param_idx p'.param_idx p'.param_idx c.0 _ h.0 refl, h.1, h.2)

wrapped-Builds :
    (head s : String) (operator value : Text) → Builds (wrapped head (lit s) operator value)
unfolding wrapped
wrapped-Builds head s operator value p =
    Ensures-after _ (build_text_expr_condition-TookOne s operator value true p)
      (λ c p' h. ensured (within-Built head p c p' h))

pub fixed-Built : (s : String) (p : FilterParser) → Built p (fixed s) p
fixed-Built s p = (refl, omega arith, omega arith)

pub build_group_members_present_filter-Builds :
    (lower : Text) → Builds (or_refuse (build_group_members_present_filter lower))
unfolding build_group_members_present_filter
build_group_members_present_filter-Builds lower p = or_refuse-Ensures _ p (
    if-keeps (OnSome (λ r. Built p r p)) (one_of lower _) ((refl, omega arith, omega arith)) (
      switch-keeps (OnSome (λ r. Built p r p)) lower _
        ((refl, omega arith, omega arith), ((refl, omega arith, omega arith), tt)) tt))

module _ (x : External) where
  pub build_group_members_filter-Builds :
      (attr operator value : Text) → Builds (build_group_members_filter x attr operator value)
  unfolding build_group_members_filter
  build_group_members_filter-Builds attr operator value =
      if-keeps Builds (not (is_valid_comparison_op operator)) (λ p. refusal)
        (if-keeps Builds (one_of (to_lower attr) _) (wrapped-Builds _ _ operator _) (
          switch-keeps Builds (to_lower attr) _
            (wrapped-Builds _ _ operator value, (wrapped-Builds _ _ operator value, tt))
            (λ p. refusal)))

  pub build_user_groups_filter-Builds :
      (attr operator value : Text) → Builds (build_user_groups_filter x attr operator value)
  unfolding build_user_groups_filter
  build_user_groups_filter-Builds attr operator value =
      if-keeps Builds (not (is_valid_comparison_op operator)) (λ p. refusal)
        (if-keeps Builds (one_of (to_lower attr) _) (wrapped-Builds _ _ operator _) (
          switch-keeps Builds (to_lower attr) _
            (wrapped-Builds _ _ operator value, (wrapped-Builds _ _ operator value, tt))
            (λ p. refusal)))

ent_result-Built :
    (head mid : String) (p q r : FilterParser) (core ent : List Piece × Text)
    → TookOne p core q
    → TookOne q ent r
    → Built p
        (record {
          sql = lit "(" ∷ (core.0 ++ lit head ∷ ent_present ∷ lit mid ∷ (ent.0 ++ lit "))" ∷ []));
          args = text_arg core.1 ∷ text_arg ent.1 ∷ [];
        })
        r
ent_result-Built head mid p q r core ent h k = (
  Numbered-append p.param_idx q.param_idx r.param_idx core.0 _ h.0
      (Numbered-append q.param_idx r.param_idx r.param_idx ent.0 _ k.0 refl),
  omega arith,
  omega arith,
)

pub build_schemas_filter-Builds :
    (e : EntityType) (operator value : Text) → Builds (build_schemas_filter e operator value)
unfolding build_schemas_filter
build_schemas_filter-Builds group operator value =
    if-keeps Builds (not (is_valid_comparison_op operator)) (λ p. refusal)
      (λ p.
        Ensures-after _ (build_text_expr_condition-TookOne _ operator value false p)
          (λ c p' h. ensured h))
build_schemas_filter-Builds user operator value =
    if-keeps Builds (not (is_valid_comparison_op operator)) (λ p. refusal)
      (λ p.
        Ensures-after _ (build_text_expr_condition-TookOne _ operator value false p) (λ core q h.
          Ensures-after _ (build_text_expr_condition-TookOne _ operator value false q) (λ ent r k.
            ensured (
              if-keeps (λ sql. Step sql 2 p r) (same operator (text "ne"))
                (ent_result-Built " AND (NOT " " OR " p q r core ent h k)
                (ent_result-Built " OR (" " AND " p q r core ent h k)))))
