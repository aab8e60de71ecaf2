-- ===== src/Patch/Setters.antt =====
-- internal/scim/patch.go: setting one sub-attribute of an element. The recursion of the setters on
-- an object with no sub-attribute name is `set_sub`, over the setter of one named sub-attribute.
use scim_server_impl_go.Base.{[], ◌∷◌, if◌then◌else◌, Result, ok, bad_request, ◌>>=◌}
use scim_server_impl_go.Text.{Text, is_empty, to_lower, switch}
use scim_server_impl_go.Value.{Value, obj, Fields, end, field}
use scim_server_impl_go.Model.{Item, Address}
use scim_server_impl_go.External.{External}
use scim_server_impl_go.Canonicalize.{
  canonicalize_email, canonicalize_phone_number, canonicalize_im, validate_x509_certificate_value,
}
use scim_server_impl_go.Patch.Strict.{
  parse_strict_bool, parse_raw_string_ptr, parse_strict_string, normalize_canonical,
  normalize_country, validate_reference,
}
use scim_server_impl_go.Patch.Items.{
  phone_types, im_types, photo_types, address_types, email_type, deref,
}

unfoldable mutual
  pub set_sub : {A : Type 0} → (Text → Value → A → Result A) → Value → Text → A → Result A
  set_sub leaf (obj fs) sub e = if is_empty sub then set_members leaf fs e else leaf sub (obj fs) e
  set_sub leaf v sub e = if is_empty sub then bad_request "invalidValue" else leaf sub v e

  pub set_members : {A : Type 0} → (Text → Value → A → Result A) → Fields → A → Result A
  set_members leaf end e = ok e
  set_members leaf (field k v fs) e = set_sub leaf v k e >>= λ e'. set_members leaf fs e'

module _ (x : External) where
  unfoldable pub set_email_sub_attribute_leaf : Text → Value → Item → Result Item
  set_email_sub_attribute_leaf sub v e =
      switch (to_lower sub)
        ((
          "value",
          parse_strict_string x v >>= λ s. ok (record e { value = canonicalize_email x s }),
        )
          ∷ ("type", parse_strict_string x v >>= λ s. ok (record e { typ = email_type s }))
          ∷ ("display", parse_strict_string x v >>= λ s. ok (record e { display = s }))
          ∷ ("primary", parse_strict_bool v >>= λ s. ok (record e { primary_flag = s }))
          ∷ [])
        (bad_request "invalidPath")

  unfoldable pub set_email_sub_attribute : Value → Text → Item → Result Item
  set_email_sub_attribute = set_sub set_email_sub_attribute_leaf

  unfoldable pub set_phone_sub_attribute_leaf : Text → Value → Item → Result Item
  set_phone_sub_attribute_leaf sub v e =
      switch (to_lower sub)
        ((
          "value",
          parse_strict_string x v >>= λ s. ok (record e { value = canonicalize_phone_number x s }),
        )
          ∷ (
            "type",
            parse_strict_string x v >>= λ s.
                ok (record e { typ = normalize_canonical s phone_types }),
          )
          ∷ ("display", parse_strict_string x v >>= λ s. ok (record e { display = s }))
          ∷ ("primary", parse_strict_bool v >>= λ s. ok (record e { primary_flag = s }))
          ∷ [])
        (bad_request "invalidPath")

  unfoldable pub set_phone_sub_attribute : Value → Text → Item → Result Item
  set_phone_sub_attribute = set_sub set_phone_sub_attribute_leaf

  unfoldable pub set_address_sub_attribute_leaf : Text → Value → Address → Result Address
  set_address_sub_attribute_leaf sub v e =
      switch (to_lower sub)
        (("formatted", parse_strict_string x v >>= λ s. ok (record e { formatted = s }))
          ∷ ("streetaddress", parse_strict_string x v >>= λ s. ok (record e { street_address = s }))
          ∷ ("locality", parse_strict_string x v >>= λ s. ok (record e { locality = s }))
          ∷ ("region", parse_strict_string x v >>= λ s. ok (record e { region = s }))
          ∷ ("postalcode", parse_strict_string x v >>= λ s. ok (record e { postal_code = s }))
          ∷ (
            "country",
            parse_strict_string x v >>= λ s. ok (record e { country = normalize_country s }),
          )
          ∷ (
            "type",
            parse_strict_string x v >>= λ s.
                ok (record e { typ = normalize_canonical s address_types }),
          )
          ∷ ("primary", parse_strict_bool v >>= λ s. ok (record e { primary_flag = s }))
          ∷ [])
        (bad_request "invalidPath")

  unfoldable pub set_address_sub_attribute : Value → Text → Address → Result Address
  set_address_sub_attribute = set_sub set_address_sub_attribute_leaf

  unfoldable pub set_im_sub_attribute_leaf : Text → Value → Item → Result Item
  set_im_sub_attribute_leaf sub v e =
      switch (to_lower sub)
        (("value", parse_strict_string x v >>= λ s. ok (record e { value = canonicalize_im x s }))
          ∷ (
            "type",
            parse_strict_string x v >>= λ s. ok (record e { typ = normalize_canonical s im_types }),
          )
          ∷ ("display", parse_strict_string x v >>= λ s. ok (record e { display = s }))
          ∷ ("primary", parse_strict_bool v >>= λ s. ok (record e { primary_flag = s }))
          ∷ [])
        (bad_request "invalidPath")

  unfoldable pub set_im_sub_attribute : Value → Text → Item → Result Item
  set_im_sub_attribute = set_sub set_im_sub_attribute_leaf

  unfoldable pub set_photo_sub_attribute_leaf : Text → Value → Item → Result Item
  set_photo_sub_attribute_leaf sub v e =
      switch (to_lower sub)
        ((
          "value",
          parse_strict_string x v >>= λ s.
              (if is_empty s then ok tt else validate_reference x s) >>= λ _.
              ok (record e { value = s }),
        )
          ∷ (
            "type",
            parse_strict_string x v >>= λ s.
                ok (record e { typ = normalize_canonical s photo_types }),
          )
          ∷ ("display", parse_strict_string x v >>= λ s. ok (record e { display = s }))
          ∷ ("primary", parse_strict_bool v >>= λ s. ok (record e { primary_flag = s }))
          ∷ [])
        (bad_request "invalidPath")

  unfoldable pub set_photo_sub_attribute : Value → Text → Item → Result Item
  set_photo_sub_attribute = set_sub set_photo_sub_attribute_leaf

  unfoldable pub set_entitlement_sub_attribute_leaf : Text → Value → Item → Result Item
  set_entitlement_sub_attribute_leaf sub v e =
      switch (to_lower sub)
        (("value", parse_strict_string x v >>= λ s. ok (record e { value = s }))
          ∷ ("type", parse_strict_string x v >>= λ s. ok (record e { typ = s }))
          ∷ ("display", parse_strict_string x v >>= λ s. ok (record e { display = s }))
          ∷ ("primary", parse_strict_bool v >>= λ s. ok (record e { primary_flag = s }))
          ∷ [])
        (bad_request "invalidPath")

  unfoldable pub set_entitlement_sub_attribute : Value → Text → Item → Result Item
  set_entitlement_sub_attribute = set_sub set_entitlement_sub_attribute_leaf

  unfoldable pub set_role_sub_attribute_leaf : Text → Value → Item → Result Item
  set_role_sub_attribute_leaf sub v e =
      switch (to_lower sub)
        (("value", parse_strict_string x v >>= λ s. ok (record e { value = s }))
          ∷ ("type", parse_strict_string x v >>= λ s. ok (record e { typ = s }))
          ∷ ("display", parse_strict_string x v >>= λ s. ok (record e { display = s }))
          ∷ ("primary", parse_strict_bool v >>= λ s. ok (record e { primary_flag = s }))
          ∷ [])
        (bad_request "invalidPath")

  unfoldable pub set_role_sub_attribute : Value → Text → Item → Result Item
  set_role_sub_attribute = set_sub set_role_sub_attribute_leaf

  unfoldable pub set_cert_sub_attribute_leaf : Text → Value → Item → Result Item
  set_cert_sub_attribute_leaf sub v e =
      switch (to_lower sub)
        ((
          "value",
          parse_raw_string_ptr v >>= λ s. validate_x509_certificate_value x (deref s) >>= λ _.
              ok (record e { value = deref s }),
        )
          ∷ ("type", parse_strict_string x v >>= λ s. ok (record e { typ = s }))
          ∷ ("display", parse_strict_string x v >>= λ s. ok (record e { display = s }))
          ∷ ("primary", parse_strict_bool v >>= λ s. ok (record e { primary_flag = s }))
          ∷ [])
        (bad_request "invalidPath")

  unfoldable pub set_cert_sub_attribute : Value → Text → Item → Result Item
  set_cert_sub_attribute = set_sub set_cert_sub_attribute_leaf
