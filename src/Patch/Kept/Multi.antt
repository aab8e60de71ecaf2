-- ===== src/Patch/Kept/Multi.antt =====
-- The multi-valued attributes keep the identity of a user.
use scim_server_impl_go.Base.{
  List, if-keeps, returned, refused, Returns-then, Option-cases, inl, inr,
}
use scim_server_impl_go.Text.{Text, is_empty}
use scim_server_impl_go.Text.Laws.{switch-keeps}
use scim_server_impl_go.Value.{Value, Fields}
use scim_server_impl_go.Model.{User}
use scim_server_impl_go.External.{External}
use scim_server_impl_go.Patch.Kept.{Kept-refl, Keeps}
use scim_server_impl_go.Canonicalize.{validate_single_primary}
use scim_server_impl_go.Patch.Strict.{to_item_list}
use scim_server_impl_go.Patch.Filter.{parse_eq_filter}
use scim_server_impl_go.Patch.Multi.{
  add_to_collection, add_to_multi_valued, update_collection, apply_filtered_update,
  apply_filtered_add, apply_filtered_replace, apply_filtered_remove,
}

module _ (x : External) where
  add_to_collection-Keeps :
      (attr : Text) (items : List Fields) (u : User) → Keeps u (add_to_collection x attr items u)
  unfolding add_to_collection
  add_to_collection-Keeps attr items u =
      switch-keeps (Keeps u) attr _
        (
          Returns-then _ _ (λ _. returned (Kept-refl u)),
          (
            Returns-then _ _ (λ _. returned (Kept-refl u)),
            (
              Returns-then _ _ (λ _. returned (Kept-refl u)),
              (
                Returns-then _ _ (λ _. returned (Kept-refl u)),
                (
                  Returns-then _ _ (λ _. returned (Kept-refl u)),
                  (
                    Returns-then _ _ (λ _. returned (Kept-refl u)),
                    (
                      Returns-then _ _ (λ _. returned (Kept-refl u)),
                      (Returns-then _ _ (λ _. returned (Kept-refl u)), tt),
                    ),
                  ),
                ),
              ),
            ),
          ),
        )
        (returned (Kept-refl u))

  pub add_to_multi_valued-Keeps :
      (attr : Text) (v : Value) (u : User) → Keeps u (add_to_multi_valued x attr v u)
  unfolding add_to_multi_valued
  add_to_multi_valued-Keeps attr v u = Returns-then (to_item_list v) _ (λ items.
      Returns-then (validate_single_primary items) _ (λ _. add_to_collection-Keeps attr items u))

  update_collection-Keeps :
      (collection filter_expr sub_attr : Text) (v : Value) (u : User)
      → Keeps u (update_collection x collection filter_expr sub_attr v u)
  unfolding update_collection
  update_collection-Keeps collection filter_expr sub_attr v u =
      switch-keeps (Keeps u) collection _
        (
          Returns-then _ _ (λ _. returned (Kept-refl u)),
          (
            Returns-then _ _ (λ _. returned (Kept-refl u)),
            (
              Returns-then _ _ (λ _. returned (Kept-refl u)),
              (
                Returns-then _ _ (λ _. returned (Kept-refl u)),
                (
                  Returns-then _ _ (λ _. returned (Kept-refl u)),
                  (
                    Returns-then _ _ (λ _. returned (Kept-refl u)),
                    (
                      Returns-then _ _ (λ _. returned (Kept-refl u)),
                      (Returns-then _ _ (λ _. returned (Kept-refl u)), tt),
                    ),
                  ),
                ),
              ),
            ),
          ),
        )
        refused

  apply_filtered_update-Keeps :
      (collection filter_expr sub_attr : Text) (v : Value) (u : User)
      → Keeps u (apply_filtered_update x collection filter_expr sub_attr v u)
  unfolding apply_filtered_update
  apply_filtered_update-Keeps collection filter_expr sub_attr v u =
      elim (Option-cases (parse_eq_filter x filter_expr)) [
        | inl e ↦ rw (e, apply_filtered_update) refused
        | inr (c, e) ↦
            rw (e, apply_filtered_update)
              (update_collection-Keeps collection filter_expr sub_attr v u)
      ]

  pub apply_filtered_add-Keeps :
      (collection filter_expr sub_attr : Text) (v : Value) (u : User)
      → Keeps u (apply_filtered_add x collection filter_expr sub_attr v u)
  unfolding apply_filtered_add
  apply_filtered_add-Keeps collection filter_expr sub_attr v u =
      if-keeps (Keeps u) (is_empty sub_attr) (add_to_multi_valued-Keeps _ v u)
        (apply_filtered_update-Keeps _ filter_expr sub_attr v u)

  pub apply_filtered_replace-Keeps :
      (collection filter_expr sub_attr : Text) (v : Value) (u : User)
      → Keeps u (apply_filtered_replace x collection filter_expr sub_attr v u)
  unfolding apply_filtered_replace
  apply_filtered_replace-Keeps collection filter_expr sub_attr v u =
      apply_filtered_update-Keeps _ filter_expr sub_attr v u

  pub apply_filtered_remove-Keeps :
      (collection filter_expr : Text) (u : User)
      → Keeps u (apply_filtered_remove x collection filter_expr u)
  unfolding apply_filtered_remove
  apply_filtered_remove-Keeps collection filter_expr u =
      switch-keeps (Keeps u) _ _
        (
          returned (Kept-refl u),
          (
            returned (Kept-refl u),
            (
              returned (Kept-refl u),
              (
                returned (Kept-refl u),
                (
                  returned (Kept-refl u),
                  (returned (Kept-refl u), (returned (Kept-refl u), (returned (Kept-refl u), tt))),
                ),
              ),
            ),
          ),
        )
        refused
