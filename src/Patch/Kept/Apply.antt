-- ===== src/Patch/Kept/Apply.antt =====
-- A whole PATCH keeps the identity of a user.
use scim_server_impl_go.Base.{
  not, ◌&&◌, List, ◌≡◌, Bool, true, false, List, [], ◌∷◌, if-keeps, Result, ok, returned, refused,
  Returns-elim, Option-cases, inl, inr,
}
use scim_server_impl_go.Text.{same, text, to_lower, contains_byte, is_empty, Text}
use scim_server_impl_go.Patch.Single.{is_protected, read_only}
use scim_server_impl_go.Patch.Apply.{strip_patch_urn_prefix, is_enterprise_path, is_multi_valued}
use scim_server_impl_go.Value.{is_nil, as_text, index}
use scim_server_impl_go.Text.Laws.{switch-keeps}
use scim_server_impl_go.Value.{Value, null, obj, Fields, end, field}
use scim_server_impl_go.Model.{User}
use scim_server_impl_go.External.{External}
use scim_server_impl_go.Patch.Kept.{Kept, Kept-refl, Keeps, Keeps-bind}
use scim_server_impl_go.Patch.Filter.{match_filtered_path}
use scim_server_impl_go.Patch.Apply.{
  clear_attribute, replace_multi_valued, apply_member, apply_members, apply_value_map, apply_plain,
  apply_add, apply_replace, remove_plain, apply_remove, apply_op, apply_operation, apply_loop,
  apply_patch_operations,
}
use scim_server_impl_go.Patch.Kept.Single.{
  clear_name-Kept, set_single_attribute-Keeps, set_sub_attribute-Keeps, set_name_attribute-Keeps,
}
use scim_server_impl_go.Patch.Kept.Enterprise.{
  set_enterprise_attribute-Keeps, clear_enterprise_attribute-Keeps,
}
use scim_server_impl_go.Patch.Kept.Multi.{
  add_to_multi_valued-Keeps, apply_filtered_add-Keeps, apply_filtered_replace-Keeps,
  apply_filtered_remove-Keeps,
}

clear_attribute-Keeps : (attr : Text) (u : User) → Keeps u (clear_attribute attr u)
unfolding clear_attribute
clear_attribute-Keeps attr u =
    switch-keeps (Keeps u) _ _
      (
        refused,
        (
          refused,
          (
            refused,
            (
              refused,
              (
                returned (clear_name-Kept u),
                (
                  returned (Kept-refl u),
                  (
                    returned (Kept-refl u),
                    (
                      returned (Kept-refl u),
                      (
                        returned (Kept-refl u),
                        (
                          returned (Kept-refl u),
                          (
                            returned (Kept-refl u),
                            (
                              returned (Kept-refl u),
                              (
                                returned (Kept-refl u),
                                (
                                  returned (Kept-refl u),
                                  (
                                    returned (Kept-refl u),
                                    (
                                      returned (Kept-refl u),
                                      (
                                        returned (Kept-refl u),
                                        (
                                          returned (Kept-refl u),
                                          (
                                            returned (Kept-refl u),
                                            (
                                              returned (Kept-refl u),
                                              (
                                                returned (Kept-refl u),
                                                (
                                                  returned (Kept-refl u),
                                                  (
                                                    returned (Kept-refl u),
                                                    (returned (Kept-refl u), tt),
                                                  ),
                                                ),
                                              ),
                                            ),
                                          ),
                                        ),
                                      ),
                                    ),
                                  ),
                                ),
                              ),
                            ),
                          ),
                        ),
                      ),
                    ),
                  ),
                ),
              ),
            ),
          ),
        ),
      )
      refused

module _ (x : External) where
  replace_multi_valued-Keeps :
      (attr : Text) (v : Value) (u : User) → Keeps u (replace_multi_valued x attr v u)
  unfolding replace_multi_valued
  replace_multi_valued-Keeps attr v u = Keeps-bind u _ _ (clear_attribute-Keeps attr u) (λ w.
      if-keeps (Keeps w) (is_nil v) (returned (Kept-refl w)) (add_to_multi_valued-Keeps x attr v w))

  apply_member-Keeps :
      (is_replace : Bool) (k : Text) (v : Value) (u : User)
      → Keeps u (apply_member x is_replace k v u)
  unfolding apply_member
  apply_member-Keeps is_replace k v u =
      let key = strip_patch_urn_prefix k in
      let lower = to_lower key in
      if-keeps (Keeps u) (is_protected lower) refused (
        if-keeps (Keeps u) (same lower (text "name")) (set_name_attribute-Keeps x v u) (
          if-keeps (Keeps u) (is_enterprise_path key) (set_enterprise_attribute-Keeps x v _ u) (
            if-keeps (Keeps u) (contains_byte key b'.') (set_sub_attribute-Keeps x _ v u) (
              if-keeps (Keeps u) (is_multi_valued lower)
                (if-keeps (Keeps u) is_replace (replace_multi_valued-Keeps _ v u)
                  (add_to_multi_valued-Keeps x _ v u))
                (set_single_attribute-Keeps x _ v u)))))

  apply_members-Keeps :
      (is_replace : Bool) (m : Fields) (u : User) → Keeps u (apply_members x is_replace m u)
  unfolding apply_members
  apply_members-Keeps is_replace end u = returned (Kept-refl u)
  apply_members-Keeps is_replace (field k v m) u =
      Keeps-bind u _ _ (apply_member-Keeps is_replace k v u) (apply_members-Keeps is_replace m)

  apply_value_map-Keeps :
      (v : Value) (is_replace : Bool) (u : User) → Keeps u (apply_value_map x v is_replace u)
  unfolding apply_value_map
  apply_value_map-Keeps (obj m) is_replace u = apply_members-Keeps is_replace m u
  apply_value_map-Keeps _ is_replace u = refused

  apply_plain-Keeps :
      (multi : Text → Value → User → Result User)
      → ((attr : Text) (v : Value) (u : User) → Keeps u (multi attr v u))
      → (path : Text) (v : Value) (u : User) → Keeps u (apply_plain x multi path v u)
  unfolding apply_plain
  apply_plain-Keeps multi h path v u =
      let lower = to_lower path in
      if-keeps (Keeps u) (same lower (text "name")) (set_name_attribute-Keeps x v u) (
        if-keeps (Keeps u) (is_enterprise_path path) (set_enterprise_attribute-Keeps x v path u) (
          if-keeps (Keeps u) (contains_byte path b'.') (set_sub_attribute-Keeps x path v u) (
            if-keeps (Keeps u) (is_multi_valued lower) (h _ v u)
              (set_single_attribute-Keeps x path v u))))

  apply_add-Keeps : (path : Text) (v : Value) (u : User) → Keeps u (apply_add x path v u)
  unfolding apply_add
  apply_add-Keeps path v u = elim (Option-cases (match_filtered_path path)) [
    | inl e ↦
        rw (e, apply_add)
          (if-keeps (Keeps u) (is_empty path) (apply_value_map-Keeps v false u)
            (apply_plain-Keeps _ (add_to_multi_valued-Keeps x) path v u))
    | inr (m, e) ↦
        rw (e, apply_add)
          (if-keeps (Keeps u) (is_empty path) (apply_value_map-Keeps v false u)
            (apply_filtered_add-Keeps x m.collection m.filter_expr m.sub_attr v u))
  ]

  apply_replace-Keeps : (path : Text) (v : Value) (u : User) → Keeps u (apply_replace x path v u)
  unfolding apply_replace
  apply_replace-Keeps path v u = elim (Option-cases (match_filtered_path path)) [
    | inl e ↦
        rw (e, apply_replace)
          (if-keeps (Keeps u) (is_empty path) (apply_value_map-Keeps v true u)
            (apply_plain-Keeps _ replace_multi_valued-Keeps path v u))
    | inr (m, e) ↦
        rw (e, apply_replace)
          (if-keeps (Keeps u) (is_empty path) (apply_value_map-Keeps v true u)
            (apply_filtered_replace-Keeps x m.collection m.filter_expr m.sub_attr v u))
  ]

  remove_plain-Keeps : (path : Text) (u : User) → Keeps u (remove_plain x path u)
  unfolding remove_plain
  remove_plain-Keeps path u =
      if-keeps (Keeps u) (same (to_lower path) (text "name")) (set_name_attribute-Keeps x null u) (
        if-keeps (Keeps u) (is_enterprise_path path) (clear_enterprise_attribute-Keeps x path u) (
          if-keeps (Keeps u) (contains_byte path b'.') (set_sub_attribute-Keeps x path null u)
            (clear_attribute-Keeps _ u)))

  apply_remove-Keeps : (path : Text) (u : User) → Keeps u (apply_remove x path u)
  unfolding apply_remove
  apply_remove-Keeps path u = elim (Option-cases (match_filtered_path path)) [
    | inl e ↦
        rw (e, apply_remove)
          (if-keeps (Keeps u) (is_empty path) refused (remove_plain-Keeps path u))
    | inr (m, e) ↦
        rw (e, apply_remove)
          (if-keeps (Keeps u) (is_empty path) refused
            (apply_filtered_remove-Keeps x m.collection m.filter_expr u))
  ]

  apply_op-Keeps :
      (op_type path : Text) (v : Value) (u : User) → Keeps u (apply_op x op_type path v u)
  unfolding apply_op
  apply_op-Keeps op_type path v u =
      switch-keeps (Keeps u) op_type _
        (
          if-keeps (Keeps u) (is_nil v) refused (apply_add-Keeps path v u),
          (apply_replace-Keeps path v u, (apply_remove-Keeps path u, tt)),
        )
        refused

  apply_operation-Keeps : (op : Fields) (u : User) → Keeps u (apply_operation x op u)
  unfolding apply_operation
  apply_operation-Keeps op u =
      let path = strip_patch_urn_prefix (as_text (index "path" op)) in
      if-keeps (Keeps u) (is_empty (as_text (index "op" op))) refused (
        if-keeps (Keeps u) (not (is_empty path) && read_only (to_lower path)) refused
          (apply_op-Keeps _ _ _ u))

  apply_loop-Keeps : (ops : List Fields) (u : User) → Keeps u (apply_loop x ops u)
  unfolding apply_loop
  apply_loop-Keeps [] u = returned (Kept-refl u)
  apply_loop-Keeps (op ∷ ops) u =
      Keeps-bind u _ _ (apply_operation-Keeps op u) (apply_loop-Keeps ops)

  apply_patch_operations-Keeps :
      (ops : List Fields) (u : User) → Keeps u (apply_patch_operations x ops u)
  unfolding apply_patch_operations
  apply_patch_operations-Keeps [] u = refused
  apply_patch_operations-Keeps (op ∷ ops) u = apply_loop-Keeps (op ∷ ops) u

  -- A PATCH that succeeds leaves the user's id, workspace, creation time, modification time and
  -- version as they were, and a user that has a name still has one, whatever the operations, their
  -- paths and their values are.
  pub apply_patch_operations-Kept :
      (ops : List Fields) (u u' : User) → apply_patch_operations x ops u ≡ ok u' → Kept u u'
  apply_patch_operations-Kept ops u u' e = Returns-elim (apply_patch_operations-Keeps ops u) e
