-- ===== src/Patch/Items.antt =====
-- internal/scim/patch.go: building the elements of multi-valued attributes.
use scim_server_impl_go.Base.{
  not, ◌||◌, String, Bool, true, false, Option, none, some, List, [], ◌∷◌, if◌then◌else◌, Result,
  ok, ◌>>=◌,
}
use scim_server_impl_go.Text.{Text, text, is_empty, trim_space}
use scim_server_impl_go.Value.{Fields, find, index}
use scim_server_impl_go.Model.{Item, Address}
use scim_server_impl_go.External.{External}
use scim_server_impl_go.Canonicalize.{
  canonicalize_email, canonicalize_phone_number, canonicalize_im, validate_x509_certificate_value,
}
use scim_server_impl_go.Patch.Strict.{
  parse_strict_optional_bool, parse_raw_string_ptr, parse_strict_string, normalize_canonical,
  normalize_country, validate_reference,
}

abbrev pub email_types : List String
email_types = "work" ∷ "home" ∷ "other" ∷ []

abbrev pub phone_types : List String
phone_types = "work" ∷ "home" ∷ "mobile" ∷ "fax" ∷ "pager" ∷ "other" ∷ []

abbrev pub im_types : List String
im_types = "aim" ∷ "gtalk" ∷ "icq" ∷ "xmpp" ∷ "skype" ∷ "qq" ∷ "msn" ∷ "yahoo" ∷ []

abbrev pub photo_types : List String
photo_types = "photo" ∷ "thumbnail" ∷ []

abbrev pub address_types : List String
address_types = "work" ∷ "home" ∷ "other" ∷ []

-- `if emailType == "" { emailType = "work" }`
unfoldable pub email_type : Text → Text
email_type raw =
    let ct = normalize_canonical (trim_space raw) email_types in
    if is_empty ct then text "work" else ct

-- `if rawPtr != nil { v = *rawPtr }`
abbrev pub deref : Option Text → Text
deref none = []
deref (some s) = s

-- `_, ok := m[key]`
abbrev pub has_key : String → Fields → Bool
has_key key m = elim (find key m) [ none ↦ false | some _ ↦ true ]

module _ (x : External) where
  unfoldable pub build_email : Fields → Result Item
  build_email m = do
    val ← parse_strict_string x (index "value" m)
    raw_type ← parse_strict_string x (index "type" m)
    disp ← parse_strict_string x (index "display" m)
    prim ← parse_strict_optional_bool (index "primary" m)
    ok (record {
      value = canonicalize_email x val;
      typ = email_type raw_type;
      display = disp;
      primary_flag = prim;
    })

  unfoldable pub build_phone_number : Fields → Result Item
  build_phone_number m = do
    val ← parse_strict_string x (index "value" m)
    raw_type ← parse_strict_string x (index "type" m)
    disp ← parse_strict_string x (index "display" m)
    prim ← parse_strict_optional_bool (index "primary" m)
    ok (record {
      value = canonicalize_phone_number x val;
      typ = normalize_canonical raw_type phone_types;
      display = disp;
      primary_flag = prim;
    })

  unfoldable pub build_address : Fields → Result Address
  build_address m = do
    formatted ← parse_strict_string x (index "formatted" m)
    street ← parse_strict_string x (index "streetAddress" m)
    locality ← parse_strict_string x (index "locality" m)
    region ← parse_strict_string x (index "region" m)
    postal ← parse_strict_string x (index "postalCode" m)
    country ← parse_strict_string x (index "country" m)
    raw_type ← parse_strict_string x (index "type" m)
    prim ← parse_strict_optional_bool (index "primary" m)
    ok (record {
      formatted = formatted;
      street_address = street;
      locality = locality;
      region = region;
      postal_code = postal;
      country = normalize_country country;
      typ = normalize_canonical raw_type address_types;
      primary_flag = prim;
    })

  unfoldable pub build_im : Fields → Result Item
  build_im m = do
    val ← parse_strict_string x (index "value" m)
    raw_type ← parse_strict_string x (index "type" m)
    disp ← parse_strict_string x (index "display" m)
    prim ← parse_strict_optional_bool (index "primary" m)
    ok (record {
      value = canonicalize_im x val;
      typ = normalize_canonical raw_type im_types;
      display = disp;
      primary_flag = prim;
    })

  unfoldable pub build_photo : Fields → Result Item
  build_photo m = do
    val ← parse_strict_string x (index "value" m)
    _ ← (if is_empty val then ok tt else validate_reference x val)
    raw_type ← parse_strict_string x (index "type" m)
    disp ← parse_strict_string x (index "display" m)
    prim ← parse_strict_optional_bool (index "primary" m)
    ok (record {
      value = val;
      typ = normalize_canonical raw_type photo_types;
      display = disp;
      primary_flag = prim;
    })

  unfoldable pub build_entitlement : Fields → Result Item
  build_entitlement m = do
    val ← parse_strict_string x (index "value" m)
    raw_type ← parse_strict_string x (index "type" m)
    disp ← parse_strict_string x (index "display" m)
    prim ← parse_strict_optional_bool (index "primary" m)
    ok (record { value = val; typ = raw_type; display = disp; primary_flag = prim })

  unfoldable pub build_role : Fields → Result Item
  build_role m = do
    val ← parse_strict_string x (index "value" m)
    raw_type ← parse_strict_string x (index "type" m)
    disp ← parse_strict_string x (index "display" m)
    prim ← parse_strict_optional_bool (index "primary" m)
    ok (record { value = val; typ = raw_type; display = disp; primary_flag = prim })

  unfoldable pub build_x509_certificate : Fields → Result Item
  build_x509_certificate m = do
    raw_ptr ← parse_raw_string_ptr (index "value" m)
    _ ←
        (if has_key "value" m || not (is_empty (deref raw_ptr))
          then validate_x509_certificate_value x (deref raw_ptr)
          else ok tt)
    raw_type ← parse_strict_string x (index "type" m)
    disp ← parse_strict_string x (index "display" m)
    prim ← parse_strict_optional_bool (index "primary" m)
    ok (record { value = deref raw_ptr; typ = raw_type; display = disp; primary_flag = prim })
