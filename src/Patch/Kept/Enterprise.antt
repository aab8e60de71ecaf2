-- ===== src/Patch/Kept/Enterprise.antt =====
-- The enterprise extension keeps the identity of a user.
use scim_server_impl_go.Base.{
  not, ◌&&◌, Option, if-keeps, Returns, returned, refused, Returns-bind, Returns-then,
  Returns-weaken, Option-cases, inl, inr,
}
use scim_server_impl_go.Canonicalize.{extract_uuid_from_ref}
use scim_server_impl_go.Text.{is_empty, equal_fold, trim_space, Text}
use scim_server_impl_go.Text.Laws.{switch-keeps}
use scim_server_impl_go.Value.{Value, null, str, obj, Fields, end, field, find}
use scim_server_impl_go.Model.{User}
use scim_server_impl_go.External.{External}
use scim_server_impl_go.Patch.Kept.{Kept, Kept-refl, Kept-trans, Keeps, Keeps-bind}
use scim_server_impl_go.Patch.Enterprise.{
  check_manager_ref, or_empty, clear_enterprise, is_present, clear_enterprise, set_manager_ref,
  manager_value, manager_ref, set_enterprise_manager, is_urn, set_enterprise_leaf,
  set_enterprise_attribute, enterprise_members, clear_enterprise_attribute,
}

clear_enterprise-Kept : (u : User) → Kept u (clear_enterprise u)
unfolding clear_enterprise
clear_enterprise-Kept u = Kept-refl u

module _ (x : External) where
  set_manager_ref-Kept : (s : Option Text) (u : User) → Kept u (set_manager_ref x s u)
  unfolding set_manager_ref
  set_manager_ref-Kept s u =
      if-keeps (Kept u) (is_present s && not (is_empty (extract_uuid_from_ref x (or_empty s))))
        (Kept-refl u) (Kept-refl u)

  manager_value-Keeps : (m : Fields) (u : User) → Returns (λ p. Kept u p.1) (manager_value x m u)
  unfolding manager_value
  manager_value-Keeps m u = elim (Option-cases (find "value" m)) [
    | inl e ↦ rw (e, manager_value) (returned (Kept-refl u))
    | inr (v, e) ↦ rw (e, manager_value) (Returns-then _ _ (λ _. returned (Kept-refl u)))
  ]

  check_manager_ref-Keeps : (p s : Option Text) (u : User) → Keeps u (check_manager_ref x p s u)
  unfolding check_manager_ref
  check_manager_ref-Keeps p s u =
      let ref_uuid = extract_uuid_from_ref x (or_empty s) in
      let differs = not (equal_fold ref_uuid (trim_space (or_empty p))) in
      if-keeps (Keeps u) (not (is_present s)) (returned (Kept-refl u)) (
        if-keeps (Keeps u) (is_present p)
          (if-keeps (Keeps u) (not (is_empty ref_uuid) && differs) refused (returned (Kept-refl u)))
          (if-keeps (Keeps u) (not (is_empty ref_uuid)) (returned (Kept-refl u))
            (returned (Kept-refl u))))

  manager_ref-Keeps : (m : Fields) (p : Option Text) (u : User) → Keeps u (manager_ref x m (p, u))
  unfolding manager_ref
  manager_ref-Keeps m p u = elim (Option-cases (find "$ref" m)) [
    | inl e ↦ rw (e, manager_ref) (returned (Kept-refl u))
    | inr (v, e) ↦
        rw (e, manager_ref)
          (Returns-then _ _
            (λ s. check_manager_ref-Keeps p s (record u { enterprise_manager_ref = s })))
  ]

  set_enterprise_manager-Keeps : (v : Value) (u : User) → Keeps u (set_enterprise_manager x v u)
  unfolding set_enterprise_manager
  set_enterprise_manager-Keeps null u = returned (Kept-refl u)
  set_enterprise_manager-Keeps (str s) u = returned (Kept-refl u)
  set_enterprise_manager-Keeps (obj m) u = Returns-bind _ (manager_value-Keeps m u) (λ p kept.
      Keeps-bind u _ _ (Returns-weaken (manager_ref-Keeps m p.0 p.1) (λ w. Kept-trans u p.1 w kept))
        (λ w. returned (Kept-refl w)))
  set_enterprise_manager-Keeps _ u = refused

  set_enterprise_leaf-Keeps :
      (path : Text) (v : Value) (u : User) → Keeps u (set_enterprise_leaf x path v u)
  unfolding set_enterprise_leaf
  set_enterprise_leaf-Keeps path v u =
      switch-keeps (Keeps u) _ _
        (
          Returns-then _ _ (λ _. returned (Kept-refl u)),
          (
            Returns-then _ _ (λ _. returned (Kept-refl u)),
            (
              Returns-then _ _ (λ _. returned (Kept-refl u)),
              (
                Returns-then _ _ (λ _. returned (Kept-refl u)),
                (
                  Returns-then _ _ (λ _. returned (Kept-refl u)),
                  (
                    set_enterprise_manager-Keeps v u,
                    (
                      Returns-then _ _ (λ _. returned (Kept-refl u)),
                      (Returns-then _ _ (λ s. returned (set_manager_ref-Kept s u)), (refused, tt)),
                    ),
                  ),
                ),
              ),
            ),
          ),
        )
        refused

  mutual
    unfolding set_enterprise_attribute

    attribute-Keeps :
        (v : Value) (path : Text) (u : User) → Keeps u (set_enterprise_attribute x v path u)
    attribute-Keeps (obj m) path u =
        if-keeps (Keeps u) (is_urn path) (members-Keeps m u)
          (set_enterprise_leaf-Keeps path (obj m) u)
    attribute-Keeps null path u =
        if-keeps (Keeps u) (is_urn path) (returned (clear_enterprise-Kept u))
          (set_enterprise_leaf-Keeps path null u)
    attribute-Keeps v path u =
        if-keeps (Keeps u) (is_urn path) refused (set_enterprise_leaf-Keeps path v u)

    members-Keeps : (m : Fields) (u : User) → Keeps u (enterprise_members x m u)
    members-Keeps end u = returned (Kept-refl u)
    members-Keeps (field k v m) u = Keeps-bind u _ _ (attribute-Keeps v k u) (members-Keeps m)

  pub set_enterprise_attribute-Keeps :
      (v : Value) (path : Text) (u : User) → Keeps u (set_enterprise_attribute x v path u)
  set_enterprise_attribute-Keeps = attribute-Keeps

  pub clear_enterprise_attribute-Keeps :
      (path : Text) (u : User) → Keeps u (clear_enterprise_attribute x path u)
  unfolding clear_enterprise_attribute
  clear_enterprise_attribute-Keeps path u =
      if-keeps (Keeps u) (is_urn path) (returned (clear_enterprise-Kept u))
        (set_enterprise_attribute-Keeps null _ u)
