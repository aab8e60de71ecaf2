-- ===== src/Filter/Sound/Columns.antt =====
-- internal/scim/filter.go: a column is a constant of the source.
use scim_server_impl_go.Base.{
  String, Bool, true, false, Option, none, some, List, [], ◌∷◌, ◌≡◌, subst, refl, inl, inr,
  Bool-cases, if-keeps, arith, all,
}
use scim_server_impl_go.Text.{Text, text, same, switch, in_set, to_lower, has_prefix, drop_bytes}
use scim_server_impl_go.Filter.{Piece, lit, dyn, placeholder, EntityType, user, group}
use scim_server_impl_go.Filter.Attributes.{
  is_json_collection, resolve_json_column, resolve_enterprise_column, group_column,
  enterprise_columns, user_column, resolve_column, enterprise_urn, enterprise_len, json_collections,
  one_of,
}
use scim_server_impl_go.Text.Laws.{to_lower_idempotent}

abbrev pub is_constant : Piece → Bool
is_constant (lit s) = true
is_constant _ = false

-- of a column, if there is one
abbrev pub is_constant_column : Option Piece → Bool
is_constant_column none = true
is_constant_column (some c) = is_constant c

pub constant-lit : (c : Piece) → is_constant c ≡ true → (s : String) × (c ≡ lit s)
constant-lit (lit s) h = (s, refl)
constant-lit (dyn s) h = cc
constant-lit (placeholder n) h = cc

abbrev keys {ℓ} : {A : Type ℓ} → List (String × A) → List String
keys [] = []
keys ((k, a) ∷ cases) = k ∷ keys cases

module _ {A : Type 0} (p : A → Bool) where
  -- what a test finds of every case and of the default, it finds of the `switch`
  pub switch-all :
      (key : Text) (cases : List (String × A)) (default : A)
      → all (λ c. p c.1) cases ≡ true
      → p default ≡ true
      → p (switch key cases default) ≡ true
  unfolding switch
  switch-all key [] default h d = d
  switch-all key ((k, a) ∷ cases) default h d =
      if-keeps (λ r. p r ≡ true) (same key (text k)) (ground arith)
        (switch-all key cases default (ground arith) d)

  -- a `switch` on one of its keys does not reach its default
  pub switch-hit :
      (key : Text) (cases : List (String × A)) (default : A)
      → all (λ c. p c.1) cases ≡ true
      → in_set (keys cases) key ≡ true
      → p (switch key cases default) ≡ true
  unfolding switch in_set
  switch-hit key [] default h e = cc
  switch-hit key ((k, a) ∷ cases) default h e = elim (Bool-cases (same key (text k))) [
    | inl hit ↦ rw hit (ground arith)
    | inr miss ↦ rw miss (switch-hit key cases default (ground arith) (ground arith))
  ]

resolve_enterprise_column-constant :
    (attr : Text) → is_constant_column (resolve_enterprise_column attr) ≡ true
unfolding resolve_enterprise_column
resolve_enterprise_column-constant attr =
    switch-all is_constant_column (to_lower attr) enterprise_columns none refl refl

pub resolve_json_column-constant :
    (attr : Text) → is_json_collection attr ≡ true → is_constant (resolve_json_column attr) ≡ true
unfolding resolve_json_column is_json_collection
resolve_json_column-constant attr h = switch-hit is_constant (to_lower attr) _ (dyn attr) refl h

unlowered :
    (attr : Text) → is_json_collection (to_lower attr) ≡ true → is_json_collection attr ≡ true
unfolding is_json_collection
unlowered attr = subst (λ l. one_of l json_collections ≡ true) (to_lower_idempotent attr)

pub resolve_column-constant :
    (e : EntityType) (attr : Text) → is_constant_column (resolve_column e attr) ≡ true
unfolding resolve_column group_column user_column
resolve_column-constant group attr = switch-all is_constant_column (to_lower attr) _ none refl refl
resolve_column-constant user attr =
    if-keeps (λ c. is_constant_column c ≡ true) (has_prefix (to_lower attr) enterprise_urn)
      (resolve_enterprise_column-constant (drop_bytes enterprise_len attr))
      (elim (Bool-cases (is_json_collection (to_lower attr))) [
        | inl e ↦ rw e (resolve_json_column-constant attr (unlowered attr e))
        | inr e ↦ rw e (switch-all is_constant_column (to_lower attr) _ none refl refl)
      ])
