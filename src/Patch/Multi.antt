-- ===== src/Patch/Multi.antt =====
-- internal/scim/patch.go: adding to, clearing and filtering the multi-valued attributes.
pub mod Primary
use scim_server_impl_go.Base.{
  ℕ, zero, suc, Bool, true, false, ◌||◌, none, some, List, [], ◌∷◌, ◌++◌, map, if◌then◌else◌,
  get_elem?, set, length, Result, ok, bad_request, ◌>>=◌,
}
use scim_server_impl_go.Text.{Text, text, is_empty, to_lower, equal_fold, switch}
use scim_server_impl_go.Value.{Value, bool, obj, Fields, end, field}
use scim_server_impl_go.Model.{Item, User}
use scim_server_impl_go.External.{External}
use scim_server_impl_go.Canonicalize.{validate_single_primary}
use scim_server_impl_go.Patch.Strict.{to_item_list}
use scim_server_impl_go.Patch.Items.{
  build_email, build_phone_number, build_address, build_im, build_photo, build_entitlement,
  build_role, build_x509_certificate,
}
use scim_server_impl_go.Patch.Setters.{
  set_email_sub_attribute, set_phone_sub_attribute, set_address_sub_attribute, set_im_sub_attribute,
  set_photo_sub_attribute, set_entitlement_sub_attribute, set_role_sub_attribute,
  set_cert_sub_attribute,
}
use scim_server_impl_go.Patch.Dedup.{Keyed, deduplicate, folded, exact, by_address}
use scim_server_impl_go.Patch.Filter.{
  parse_eq_filter, matches_generic_filter, matches_address_filter, remove_matching,
}

-- The parts of the loops that do not depend on the attribute.
module _ {A : Type 0} (t : Keyed A) where
  -- `for _, item := range items` of `addToMultiValued`
  unfoldable pub add_loop : (Fields → Result A) → List Fields → List A → Result (List A)
  add_loop build [] l = ok l
  add_loop build (item ∷ items) l = build item >>= λ built.
      add_loop build items
        ((if t.primary built then map (t.set_primary false) l else l) ++ built ∷ [])

  unfoldable pub add_items : (Fields → Result A) → List Fields → List A → Result (List A)
  add_items build items l = add_loop build items l >>= λ l'. ok (deduplicate t l')

  -- `for j := range … { if j != i { ….PrimaryFlag = false } }`
  unfoldable pub demote_except : ℕ → List A → List A
  demote_except i [] = []
  demote_except zero (a ∷ l) = a ∷ map (t.set_primary false) l
  demote_except (suc i) (a ∷ l) = t.set_primary false a ∷ demote_except i l

  -- `for i := range …` of `applyFilteredUpdate`: the rounds left, `i`, the slice and `found`
  unfoldable pub update_loop :
      (A → Bool) → (A → Result A) → Bool → ℕ → ℕ → List A → Bool → Result (List A × Bool)
  update_loop matches set_attr demote zero i l found = ok (l, found)
  update_loop matches set_attr demote (suc n) i l found = elim (get_elem? l i) [
    | none ↦ ok (l, found)
    | some a ↦
        let next = λ (a' : A).
          update_loop matches set_attr demote n (suc i)
            (if demote then demote_except i (set l i a') else set l i a') true in
        let skip = update_loop matches set_attr demote n (suc i) l found in
        if matches a then set_attr a >>= next else skip
  ]

  -- one case of the `switch` of `applyFilteredUpdate`, with `if !found` behind it
  unfoldable pub update_items : (A → Bool) → (A → Result A) → Bool → List A → Result (List A)
  update_items matches set_attr demote l =
      update_loop matches set_attr demote (length l) 0 l false >>= λ (l', found).
      if found then ok (deduplicate t l') else bad_request "noTarget"

-- the loop over the members of the value in `setsPrimaryTrue`
unfoldable pub any_primary_true : Fields → Bool
any_primary_true end = false
any_primary_true (field k (bool true) fs) = equal_fold k (text "primary") || any_primary_true fs
any_primary_true (field k v fs) = any_primary_true fs

unfoldable pub members_primary_true : Value → Bool
members_primary_true (obj fs) = any_primary_true fs
members_primary_true _ = false

-- `b, ok := value.(bool); ok && b`
unfoldable pub is_true : Value → Bool
is_true (bool b) = b
is_true _ = false

unfoldable pub sets_primary_true : Text → Value → Bool
sets_primary_true sub_attr value =
    if equal_fold sub_attr (text "primary")
    then is_true value
    else if is_empty sub_attr
    then members_primary_true value
    else false

module _ (x : External) where
  unfoldable pub add_to_collection : Text → List Fields → User → Result User
  add_to_collection attr items u =
      switch attr
        ((
          "emails",
          add_items folded (build_email x) items u.emails >>= λ l. ok (record u { emails = l }),
        )
          ∷ (
            "phonenumbers",
            add_items folded (build_phone_number x) items u.phone_numbers >>= λ l.
                ok (record u { phone_numbers = l }),
          )
          ∷ (
            "addresses",
            add_items by_address (build_address x) items u.addresses >>= λ l.
                ok (record u { addresses = l }),
          )
          ∷ ("ims", add_items folded (build_im x) items u.ims >>= λ l. ok (record u { ims = l }))
          ∷ (
            "photos",
            add_items exact (build_photo x) items u.photos >>= λ l. ok (record u { photos = l }),
          )
          ∷ (
            "entitlements",
            add_items folded (build_entitlement x) items u.entitlements >>= λ l.
                ok (record u { entitlements = l }),
          )
          ∷ (
            "roles",
            add_items folded (build_role x) items u.roles >>= λ l. ok (record u { roles = l }),
          )
          ∷ (
            "x509certificates",
            add_items exact (build_x509_certificate x) items u.x509_certificates >>= λ l.
                ok (record u { x509_certificates = l }),
          )
          ∷ [])
        (ok u)

  unfoldable pub add_to_multi_valued : Text → Value → User → Result User
  add_to_multi_valued attr value u = to_item_list value >>= λ items.
      validate_single_primary items >>= λ _. add_to_collection attr items u

  unfoldable pub update_collection : Text → Text → Text → Value → User → Result User
  update_collection collection filter_expr sub_attr value u =
      let demote = sets_primary_true sub_attr value in
      let matches = λ (i : Item). matches_generic_filter x i filter_expr in
      switch collection
        ((
          "emails",
          update_items folded matches (set_email_sub_attribute x value sub_attr) demote u.emails
              >>= λ l. ok (record u { emails = l }),
        )
          ∷ (
            "phonenumbers",
            update_items folded matches (set_phone_sub_attribute x value sub_attr) demote
                  u.phone_numbers
                >>= λ l. ok (record u { phone_numbers = l }),
          )
          ∷ (
            "addresses",
            update_items by_address (λ a. matches_address_filter x a filter_expr)
                  (set_address_sub_attribute x value sub_attr) demote u.addresses
                >>= λ l. ok (record u { addresses = l }),
          )
          ∷ (
            "ims",
            update_items folded matches (set_im_sub_attribute x value sub_attr) demote u.ims
                >>= λ l. ok (record u { ims = l }),
          )
          ∷ (
            "photos",
            update_items exact matches (set_photo_sub_attribute x value sub_attr) demote u.photos
                >>= λ l. ok (record u { photos = l }),
          )
          ∷ (
            "entitlements",
            update_items folded matches (set_entitlement_sub_attribute x value sub_attr) demote
                  u.entitlements
                >>= λ l. ok (record u { entitlements = l }),
          )
          ∷ (
            "roles",
            update_items folded matches (set_role_sub_attribute x value sub_attr) demote u.roles
                >>= λ l. ok (record u { roles = l }),
          )
          ∷ (
            "x509certificates",
            update_items exact matches (set_cert_sub_attribute x value sub_attr) demote
                  u.x509_certificates
                >>= λ l. ok (record u { x509_certificates = l }),
          )
          ∷ [])
        (bad_request "invalidPath")

  unfoldable pub apply_filtered_update : Text → Text → Text → Value → User → Result User
  apply_filtered_update collection filter_expr sub_attr value u =
      elim (parse_eq_filter x filter_expr) [
        | none ↦ bad_request "invalidFilter"
        | some _ ↦ update_collection collection filter_expr sub_attr value u
      ]

  unfoldable pub apply_filtered_add : Text → Text → Text → Value → User → Result User
  apply_filtered_add collection filter_expr sub_attr value u =
      let lower = to_lower collection in
      if is_empty sub_attr
      then add_to_multi_valued lower value u
      else apply_filtered_update lower filter_expr sub_attr value u

  unfoldable pub apply_filtered_replace : Text → Text → Text → Value → User → Result User
  apply_filtered_replace collection filter_expr sub_attr value u =
      apply_filtered_update (to_lower collection) filter_expr sub_attr value u

  unfoldable pub apply_filtered_remove : Text → Text → User → Result User
  apply_filtered_remove collection filter_expr u =
      let remove = remove_matching (matches_generic_filter x) filter_expr in
      switch (to_lower collection)
        (("emails", ok (record u { emails = remove u.emails }))
          ∷ ("phonenumbers", ok (record u { phone_numbers = remove u.phone_numbers }))
          ∷ (
            "addresses",
            ok (record u {
              addresses = remove_matching (matches_address_filter x) filter_expr u.addresses;
            }),
          )
          ∷ ("ims", ok (record u { ims = remove u.ims }))
          ∷ ("photos", ok (record u { photos = remove u.photos }))
          ∷ ("entitlements", ok (record u { entitlements = remove u.entitlements }))
          ∷ ("roles", ok (record u { roles = remove u.roles }))
          ∷ ("x509certificates", ok (record u { x509_certificates = remove u.x509_certificates }))
          ∷ [])
        (bad_request "invalidPath")
