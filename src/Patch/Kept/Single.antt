-- ===== src/Patch/Kept/Single.antt =====
-- The singular attributes and the name keep the identity of a user.
use scim_server_impl_go.Base.{
  not, refl, Option, none, some, if-keeps, returned, refused, Returns-then, Bool-cases,
  Option-cases, inl, inr,
}
use scim_server_impl_go.Text.{same, to_lower, text, Text, is_empty, split_at}
use scim_server_impl_go.Text.Laws.{switch-keeps}
use scim_server_impl_go.Value.{Value, null, obj, Fields, end, field}
use scim_server_impl_go.Model.{User}
use scim_server_impl_go.External.{External}
use scim_server_impl_go.Patch.Kept.{Kept, Kept-refl, Keeps, Keeps-bind}
use scim_server_impl_go.Patch.Single.{
  set_user_name, clear_name, set_name_part, set_profile_url, set_password, is_current_password,
  set_single_attribute, sub_of_parent, set_sub_attribute, name_members, set_name_attribute,
  is_protected,
}

set_user_name-Keeps : (u : User) (s : Option Text) → Keeps u (set_user_name u s)
unfolding set_user_name
set_user_name-Keeps u none = refused
set_user_name-Keeps u (some s) = elim (Bool-cases (is_empty s)) [
  | inl e ↦ rw e refused
  | inr e ↦ rw e (returned (refl, refl, refl, refl, refl, λ h. e))
]

pub clear_name-Kept : (u : User) → Kept u (clear_name u)
unfolding clear_name
clear_name-Kept u = Kept-refl u

set_name_part-Keeps : (sub : Text) (s : Option Text) (u : User) → Keeps u (set_name_part sub s u)
unfolding set_name_part
set_name_part-Keeps sub s u =
    switch-keeps (Keeps u) sub _
      (
        returned (Kept-refl u),
        (
          returned (Kept-refl u),
          (
            returned (Kept-refl u),
            (returned (Kept-refl u), (returned (Kept-refl u), (returned (Kept-refl u), tt))),
          ),
        ),
      )
      refused

module _ (x : External) where
  set_profile_url-Keeps : (u : User) (s : Option Text) → Keeps u (set_profile_url x u s)
  unfolding set_profile_url
  set_profile_url-Keeps u none = returned (Kept-refl u)
  set_profile_url-Keeps u (some s) = Returns-then _ _ (λ _. returned (Kept-refl u))

  set_password-Keeps : (u : User) (s : Option Text) → Keeps u (set_password x u s)
  unfolding set_password
  set_password-Keeps u s =
      if-keeps (Keeps u) (is_current_password x u.password s) (returned (Kept-refl u))
        (Returns-then _ _ (λ _. returned (Kept-refl u)))

  pub set_single_attribute-Keeps :
      (path : Text) (v : Value) (u : User) → Keeps u (set_single_attribute x path v u)
  unfolding set_single_attribute
  set_single_attribute-Keeps path v u = if-keeps (Keeps u) (is_protected _) refused (
      switch-keeps (Keeps u) _ _
        (
          Returns-then _ _ (set_user_name-Keeps u),
          (
            Returns-then _ _ (λ _. returned (Kept-refl u)),
            (
              Returns-then _ _ (λ _. returned (Kept-refl u)),
              (
                Returns-then _ _ (λ _. returned (Kept-refl u)),
                (
                  Returns-then _ _ (set_profile_url-Keeps u),
                  (
                    Returns-then _ _ (λ _. returned (Kept-refl u)),
                    (
                      Returns-then _ _ (λ _. returned (Kept-refl u)),
                      (
                        Returns-then _ _ (λ _. returned (Kept-refl u)),
                        (
                          Returns-then _ _ (λ _. returned (Kept-refl u)),
                          (
                            Returns-then _ _ (λ _. returned (Kept-refl u)),
                            (
                              Returns-then _ _ (λ _. returned (Kept-refl u)),
                              (Returns-then _ _ (set_password-Keeps u), tt),
                            ),
                          ),
                        ),
                      ),
                    ),
                  ),
                ),
              ),
            ),
          ),
        )
        refused)

  sub_of_parent-Keeps :
      (parent sub : Text) (v : Value) (u : User) → Keeps u (sub_of_parent x parent sub v u)
  unfolding sub_of_parent
  sub_of_parent-Keeps parent sub v u =
      if-keeps (Keeps u) (same (to_lower parent) (text "meta")) refused (
        if-keeps (Keeps u) (not (same (to_lower parent) (text "name"))) refused
          (Returns-then _ _ (λ s. set_name_part-Keeps _ s u)))

  pub set_sub_attribute-Keeps :
      (path : Text) (v : Value) (u : User) → Keeps u (set_sub_attribute x path v u)
  unfolding set_sub_attribute
  set_sub_attribute-Keeps path v u = elim (Option-cases (split_at b'.' path)) [
    | inl e ↦ rw (e, set_sub_attribute) refused
    | inr ((parent, sub), e) ↦ rw (e, set_sub_attribute) (sub_of_parent-Keeps parent sub v u)
  ]

  name_members-Keeps : (m : Fields) (u : User) → Keeps u (name_members x m u)
  unfolding name_members
  name_members-Keeps end u = returned (Kept-refl u)
  name_members-Keeps (field k v m) u =
      Returns-then _ _ (λ s. Keeps-bind u _ _ (set_name_part-Keeps _ s u) (name_members-Keeps m))

  pub set_name_attribute-Keeps : (v : Value) (u : User) → Keeps u (set_name_attribute x v u)
  unfolding set_name_attribute
  set_name_attribute-Keeps null u = returned (clear_name-Kept u)
  set_name_attribute-Keeps (obj m) u = name_members-Keeps m u
  set_name_attribute-Keeps _ u = refused
