-- ===== src/Filter/Sound/ValuePath.antt =====
-- internal/scim/filter.go: the results of `parseValuePathFilter`.
use scim_server_impl_go.Base.{
  String, true, not, ◌&&◌, ◌||◌, Option, none, some, List, [], ◌∷◌, ◌++◌, ◌≡◌, refl, inl, inr,
  Option-cases, if-keeps, if-cases, if◌then◌else◌, arith, length, length-append,
}
use scim_server_impl_go.Text.{Text, text, same, to_lower, is_empty, equal_fold}
use scim_server_impl_go.Filter.{
  lit, FilterParser, Token, is_word, peek, next, Parser, refuse, Target,
}
use scim_server_impl_go.Filter.Attributes.{
  one_of, is_json_collection, resolve_json_column, resolve_sub_attribute, strip_urn_prefix, is_some,
  is_valid_comparison_op,
}
use scim_server_impl_go.Filter.Elements.{Condition, exists_elem, is_bool_text}
use scim_server_impl_go.Filter.ValuePath.{
  InnerToken, InnerClause, is_multi_clause, read_clause, optional_condition, join_conditions,
  all_args, contains_result, build_json_contains_filter, is_bool_sub_attr, is_group,
  finish_value_path, outer_value, outer_operator, outer_part, checked_part, bracket_part,
  collection_of, parse_value_path_filter,
}
use scim_server_impl_go.Filter.Sound.{
  Numbered-append, Built, Ensures, ensured, refusal, Ensures-after,
}
use scim_server_impl_go.Filter.Sound.Columns.{constant-lit, resolve_json_column-constant}
use scim_server_impl_go.Filter.Sound.Conditions.{Builds}
use scim_server_impl_go.Filter.Sound.Elements.{Took, build_elem_condition-Takes, exists_elem-Step}
use scim_server_impl_go.Filter.Sound.Reads.{
  Reads, next-Reads, peek-Reads, read-Builds, read_brackets-Reads, read_sub_attr-Reads,
}

-- at most one condition, with the placeholders that it took
abbrev TookUpToOne : FilterParser → List Condition → FilterParser → Type 0
TookUpToOne p [] p' = Reads p p'
TookUpToOne p (c ∷ []) p' = Took p c p'
TookUpToOne p (c ∷ d ∷ more) p' = ⊥

optional_condition-TookUpToOne :
    (collection_attr attr op val : Text) (p : FilterParser)
    → Ensures (TookUpToOne p) (optional_condition collection_attr attr op val p)
unfolding optional_condition
optional_condition-TookUpToOne collection_attr attr op val p =
    if-keeps (λ (m : Parser (List Condition)). Ensures (TookUpToOne p) (m p)) (is_empty attr)
      (ensured (refl, omega arith))
      (Ensures-after _ (build_elem_condition-Takes collection_attr attr op val p)
        (λ c p' h. ensured h))

one_condition :
    (s : String) (c : Condition) (p q : FilterParser)
    → Took p c q
    → Built p (record { sql = exists_elem (lit s) (c.0); args = c.1 ++ [] }) q
one_condition s c p q h =
    let taken = exists_elem-Step s c.0 (length c.1) p q h in
    (taken.0, omega (arith, length-append c.1 []), taken.2)

contains_result-Built :
    (s : String) (p q r : FilterParser) (cs ds : List Condition)
    → TookUpToOne p cs q
    → TookUpToOne q ds r
    → Built p (contains_result (lit s) (cs ++ ds)) r
unfolding contains_result join_conditions all_args
contains_result-Built s p q r [] [] h k = (omega arith, omega arith, omega arith)
contains_result-Built s p q r [] (d ∷ []) h k =
    let taken = one_condition s d q r k in (rw h.0 taken.0, omega arith, omega arith)
contains_result-Built s p q r (c ∷ []) [] h k =
    let taken = one_condition s c p q h in (rw (← k.0) taken.0, omega arith, omega arith)
contains_result-Built s p q r (c ∷ []) (d ∷ []) h k = (
  Numbered-append p.param_idx r.param_idx r.param_idx (c.0 ++ lit " AND " ∷ d.0) _
      (Numbered-append p.param_idx q.param_idx r.param_idx c.0 _ h.0 k.0) refl,
  omega (arith, length-append c.1 (d.1 ++ []), length-append d.1 []),
  omega arith,
)
contains_result-Built s p q r [] (d ∷ _ ∷ _) h k = absurd k
contains_result-Built s p q r (c ∷ []) (d ∷ _ ∷ _) h k = absurd k
contains_result-Built s p q r (c ∷ _ ∷ _) ds h k = absurd h

build_json_contains_filter-Builds :
    (s : String) (collection_attr : Text) (clause : InnerClause) (sub_attr operator value : Text)
    → Builds (build_json_contains_filter (lit s) collection_attr clause sub_attr operator value)
unfolding build_json_contains_filter
build_json_contains_filter-Builds s collection_attr clause sub_attr operator value p =
    Ensures-after _
      (optional_condition-TookUpToOne collection_attr clause.attr clause.op clause.val p)
      (λ cs q h.
        Ensures-after _ (optional_condition-TookUpToOne collection_attr sub_attr _ value q)
          (λ ds r k. ensured (contains_result-Built s p q r cs ds h k)))

module _ (t : Target) where
  finish_value_path-Builds :
      (s : String) (collection_attr : Text) (clause : InnerClause) (sub_attr operator value : Text)
      → Builds (finish_value_path t (lit s) collection_attr clause sub_attr operator value)
  unfolding finish_value_path
  finish_value_path-Builds s collection_attr clause sub_attr operator value =
      if-keeps Builds (is_group t && t.cross_resource)
        (λ p. ensured (refl, omega arith, omega arith))
        (build_json_contains_filter-Builds s collection_attr clause sub_attr operator value)

  outer_value-Builds :
      (s : String) (collection_attr : Text) (clause : InnerClause) (sub_attr operator : Text)
      → Builds (outer_value t (lit s) collection_attr clause sub_attr operator)
  unfolding outer_value
  outer_value-Builds s collection_attr clause sub_attr operator = read-Builds next _ next-Reads go
    where
      go :
          (o : Option Token)
          → Builds (elim o [
            | none ↦ refuse
            | some v ↦
                if is_bool_sub_attr collection_attr sub_attr && not (is_bool_text v.val)
                then refuse
                else finish_value_path t (lit s) collection_attr clause sub_attr operator v.val
          ])
      go none = λ p. refusal
      go (some v) =
          if-keeps Builds (is_bool_sub_attr collection_attr sub_attr && not (is_bool_text v.val))
            (λ p. refusal)
            (finish_value_path-Builds s collection_attr clause sub_attr operator v.val)

  outer_operator-Builds :
      (s : String) (collection_attr : Text) (clause : InnerClause) (sub_attr operator : Text)
      → Builds (outer_operator t (lit s) collection_attr clause sub_attr operator)
  unfolding outer_operator
  outer_operator-Builds s collection_attr clause sub_attr operator =
      let done = finish_value_path-Builds s collection_attr clause sub_attr in
      if-keeps Builds (one_of operator _) (done [] []) (
        if-keeps Builds (is_bool_sub_attr collection_attr sub_attr && not (one_of operator _))
          (λ p. refusal)
          (if-keeps Builds (same operator _)
            (read-Builds next _ next-Reads (λ _. done (text "pr") []))
            (if-keeps Builds (not (is_valid_comparison_op operator)) (λ p. refusal)
              (read-Builds next _ next-Reads
                (λ _. outer_value-Builds s collection_attr clause sub_attr operator)))))

  outer_part-Builds :
      (s : String) (collection_attr : Text) (clause : InnerClause) (sub_attr : Text)
      → Builds (outer_part t (lit s) collection_attr clause sub_attr)
  unfolding outer_part
  outer_part-Builds s collection_attr clause sub_attr = read-Builds peek _ peek-Reads go
    where
      go :
          (o : Option Token)
          → Builds (elim o [
            | none ↦ finish_value_path t (lit s) collection_attr clause sub_attr [] []
            | some op ↦
                if is_word (some op)
                then outer_operator t (lit s) collection_attr clause sub_attr (to_lower op.val)
                else finish_value_path t (lit s) collection_attr clause sub_attr [] []
          ])
      go none = finish_value_path-Builds s collection_attr clause sub_attr [] []
      go (some op) =
          if-keeps Builds (is_word (some op))
            (outer_operator-Builds s collection_attr clause sub_attr (to_lower op.val))
            (finish_value_path-Builds s collection_attr clause sub_attr [] [])

  checked_part-Builds :
      (collection_attr : Text) (inner : List InnerToken) (sub_attr : Text)
      → is_json_collection collection_attr ≡ true
      → Builds (checked_part t collection_attr inner sub_attr)
  unfolding checked_part
  checked_part-Builds collection_attr inner sub_attr h =
      let c =
        constant-lit (resolve_json_column collection_attr)
          (resolve_json_column-constant collection_attr h) in
      if-keeps Builds (is_multi_clause inner) (λ p. refusal)
        (elim (Option-cases (read_clause collection_attr inner)) [
          | inl e ↦ rw e (λ p. refusal)
          | inr (clause, e) ↦ rw e (
              if-keeps Builds
                (is_empty sub_attr || is_some (resolve_sub_attribute collection_attr sub_attr))
                (rw c.1 (outer_part-Builds c.0 collection_attr clause sub_attr)) (λ p. refusal))
        ])

  bracket_part-Builds :
      (collection_attr filter_start : Text)
      → is_json_collection collection_attr ≡ true
      → Builds (bracket_part t collection_attr filter_start)
  unfolding bracket_part
  bracket_part-Builds collection_attr filter_start h =
      read-Builds _ _ (read_brackets-Reads filter_start) (λ b.
        read-Builds _ _ (read_sub_attr-Reads b.sub_attr)
          (λ sub_attr. checked_part-Builds collection_attr b.inner sub_attr h))

  pub parse_value_path_filter-Builds :
      (raw filter_start : Text) → Builds (parse_value_path_filter t raw filter_start)
  unfolding parse_value_path_filter
  parse_value_path_filter-Builds raw filter_start =
      if-cases Builds
        (is_group t && not t.cross_resource
          || equal_fold (strip_urn_prefix raw) (text "members")
          || not (is_json_collection (collection_of t raw)))
        (λ _ p. refusal)
        (λ e. bracket_part-Builds (collection_of t raw) filter_start (ground arith))
