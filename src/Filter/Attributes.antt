-- ===== src/Filter/Attributes.antt =====
-- internal/scim/filter.go: the attributes that a filter may name, and the columns that they stand for.
use scim_server_impl_go.Base.{
  ℕ, String, Bool, true, false, ◌&&◌, ◌||◌, Option, none, some, List, [], ◌∷◌, if◌then◌else◌,
}
use scim_server_impl_go.Text.{
  Text, text, same, to_lower, trim_space, has_prefix, drop_bytes, split_at, contains_byte, switch,
  in_set,
}
use scim_server_impl_go.Filter.{Piece, lit, dyn, EntityType, user, group}

abbrev pub core_user_urn : Text
core_user_urn = text "urn:ietf:params:scim:schemas:core:2.0:user:"

abbrev pub core_group_urn : Text
core_group_urn = text "urn:ietf:params:scim:schemas:core:2.0:group:"

abbrev pub enterprise_urn : Text
enterprise_urn = text "urn:ietf:params:scim:schemas:extension:enterprise:2.0:user:"

-- the lengths of the three
abbrev pub core_user_len : ℕ
core_user_len = 43

abbrev pub core_group_len : ℕ
core_group_len = 44

abbrev pub enterprise_len : ℕ
enterprise_len = 59

unfoldable pub strip_urn_prefix : Text → Text
strip_urn_prefix attr =
    if has_prefix (to_lower attr) core_user_urn
    then drop_bytes core_user_len attr
    else if has_prefix (to_lower attr) core_group_urn
    then drop_bytes core_group_len attr
    else if has_prefix (to_lower attr) enterprise_urn
    then drop_bytes enterprise_len attr
    else attr

unfoldable pub strip_entity_urn_prefix : EntityType → Text → Text
strip_entity_urn_prefix group attr =
    if has_prefix (to_lower attr) core_group_urn then drop_bytes core_group_len attr else attr
strip_entity_urn_prefix user attr =
    if has_prefix (to_lower attr) core_user_urn
    then drop_bytes core_user_len attr
    else if has_prefix (to_lower attr) enterprise_urn
    then drop_bytes enterprise_len attr
    else attr

-- a `switch` that only tells whether a case fits
abbrev pub one_of : Text → List String → Bool
one_of s cases = in_set cases s

abbrev pub json_collections : List String
json_collections =
    "emails" ∷ "phonenumbers" ∷ "addresses" ∷ "ims" ∷ "photos" ∷ "entitlements" ∷ "roles"
    ∷ "x509certificates" ∷ []

unfoldable pub is_json_collection : Text → Bool
is_json_collection attr = one_of (to_lower attr) json_collections

-- `parts[0]` of `strings.SplitN(attr, ".", 2)`
unfoldable pub before_dot : Text → Text
before_dot attr = elim (split_at b'.' attr) [ none ↦ attr | some (a, b) ↦ a ]

unfoldable pub is_json_column : Text → Bool
is_json_column attr = is_json_collection (before_dot attr)

unfoldable pub resolve_json_column : Text → Piece
resolve_json_column attr =
    switch (to_lower attr)
      (("emails", lit "emails")
        ∷ ("phonenumbers", lit "phone_numbers")
        ∷ ("addresses", lit "addresses")
        ∷ ("ims", lit "ims")
        ∷ ("photos", lit "photos")
        ∷ ("entitlements", lit "entitlements")
        ∷ ("roles", lit "roles")
        ∷ ("x509certificates", lit "x509_certificates")
        ∷ [])
      (dyn attr)

-- the columns of the enterprise extension, under their names without its URN
abbrev pub enterprise_columns : List (String × Option Piece)
enterprise_columns =
    ("employeenumber", some (lit "enterprise_employee_number"))
    ∷ ("costcenter", some (lit "enterprise_cost_center"))
    ∷ ("organization", some (lit "enterprise_organization"))
    ∷ ("division", some (lit "enterprise_division"))
    ∷ ("department", some (lit "enterprise_department"))
    ∷ ("manager.value", some (lit "enterprise_manager_value"))
    ∷ ("manager.$ref", some (lit "enterprise_manager_ref"))
    ∷ ("manager.displayname", some (lit "enterprise_manager_display"))
    ∷ []

unfoldable pub resolve_enterprise_column : Text → Option Piece
resolve_enterprise_column attr = switch (to_lower attr) enterprise_columns none

unfoldable pub group_column : Text → Option Piece
group_column lower =
    switch lower
      (("id", some (lit "id::text"))
        ∷ ("displayname", some (lit "display_name"))
        ∷ ("externalid", some (lit "external_id"))
        ∷ ("meta.created", some (lit "created_at"))
        ∷ ("meta.lastmodified", some (lit "last_modified"))
        ∷ ("meta.resourcetype", some (lit "'Group'::text"))
        ∷ ("meta.location", some (lit "id::text"))
        ∷ ("meta.version", some (lit "version::text"))
        ∷ [])
      none

unfoldable pub user_column : Text → Option Piece
user_column lower =
    switch lower
      (("username", some (lit "user_name"))
        ∷ ("externalid", some (lit "external_id"))
        ∷ ("name.formatted", some (lit "name_formatted"))
        ∷ ("name.familyname", some (lit "name_family_name"))
        ∷ ("name.givenname", some (lit "name_given_name"))
        ∷ ("name.middlename", some (lit "name_middle_name"))
        ∷ ("name.honorificprefix", some (lit "name_honorific_prefix"))
        ∷ ("name.honorificsuffix", some (lit "name_honorific_suffix"))
        ∷ ("displayname", some (lit "display_name"))
        ∷ ("nickname", some (lit "nick_name"))
        ∷ ("profileurl", some (lit "profile_url"))
        ∷ ("title", some (lit "title"))
        ∷ ("usertype", some (lit "user_type"))
        ∷ ("preferredlanguage", some (lit "preferred_language"))
        ∷ ("locale", some (lit "locale"))
        ∷ ("timezone", some (lit "timezone"))
        ∷ ("active", some (lit "active"))
        ∷ ("meta.created", some (lit "created_at"))
        ∷ ("meta.lastmodified", some (lit "last_modified"))
        ∷ ("meta.resourcetype", some (lit "'User'::text"))
        ∷ ("meta.location", some (lit "id::text"))
        ∷ ("meta.version", some (lit "version::text"))
        ∷ ("id", some (lit "id::text"))
        ∷ (
          "urn:ietf:params:scim:schemas:extension:enterprise:2.0:user:employeenumber",
          some (lit "enterprise_employee_number"),
        )
        ∷ enterprise_columns)
      none

unfoldable pub resolve_column : EntityType → Text → Option Piece
resolve_column group attr = group_column (to_lower attr)
resolve_column user attr =
    if has_prefix (to_lower attr) enterprise_urn
    then resolve_enterprise_column (drop_bytes enterprise_len attr)
    else if is_json_collection (to_lower attr)
    then some (resolve_json_column attr)
    else user_column (to_lower attr)

unfoldable pub is_valid_comparison_op : Text → Bool
is_valid_comparison_op op =
    one_of op ("eq" ∷ "ne" ∷ "co" ∷ "sw" ∷ "ew" ∷ "gt" ∷ "ge" ∷ "lt" ∷ "le" ∷ [])

unfoldable pub is_group_members_attr : Text → Bool
is_group_members_attr lower_attr =
    one_of lower_attr
      ("members" ∷ "members.value" ∷ "members.display" ∷ "members.type" ∷ "members.$ref" ∷ [])

unfoldable pub is_user_groups_attr : Text → Bool
is_user_groups_attr lower_attr =
    one_of lower_attr
      ("groups" ∷ "groups.value" ∷ "groups.display" ∷ "groups.type" ∷ "groups.$ref" ∷ [])

-- `caseInsensitiveAttrs`
unfoldable pub case_insensitive_attrs : Text → Bool
case_insensitive_attrs lower = one_of lower (
    "meta.resourcetype" ∷ "username" ∷ "displayname" ∷ "name.familyname" ∷ "name.givenname"
    ∷ "name.formatted" ∷ "name.middlename" ∷ "name.honorificprefix" ∷ "name.honorificsuffix"
    ∷ "nickname" ∷ "title" ∷ "usertype" ∷ "preferredlanguage" ∷ "locale" ∷ "timezone"
    ∷ "emails.value" ∷ "emails.type" ∷ "emails.display" ∷ "phonenumbers.value" ∷ "phonenumbers.type"
    ∷ "phonenumbers.display" ∷ "ims.value" ∷ "ims.type" ∷ "ims.display" ∷ "addresses.type"
    ∷ "addresses.formatted" ∷ "addresses.streetaddress" ∷ "addresses.locality" ∷ "addresses.region"
    ∷ "addresses.postalcode" ∷ "addresses.country" ∷ "photos.value" ∷ "photos.type"
    ∷ "photos.display" ∷ "roles.value" ∷ "roles.display" ∷ "entitlements.value"
    ∷ "entitlements.display" ∷ "x509certificates.value" ∷ "x509certificates.display" ∷ [])

-- the JSON key of a sub-attribute, and whether it is Boolean
abbrev pub item_keys : List (String × Option (String × Bool))
item_keys =
    ("value", some ("value", false))
    ∷ ("type", some ("type", false))
    ∷ ("display", some ("display", false))
    ∷ ("primary", some ("primaryFlag", true))
    ∷ []

abbrev pub address_keys : List (String × Option (String × Bool))
address_keys =
    ("formatted", some ("formatted", false))
    ∷ ("streetaddress", some ("streetAddress", false))
    ∷ ("locality", some ("locality", false))
    ∷ ("region", some ("region", false))
    ∷ ("postalcode", some ("postalCode", false))
    ∷ ("country", some ("country", false))
    ∷ ("type", some ("type", false))
    ∷ ("primary", some ("primaryFlag", true))
    ∷ []

unfoldable pub resolve_sub_attribute : Text → Text → Option (String × Bool)
resolve_sub_attribute collection_attr sub_attr =
    if one_of (to_lower collection_attr) (
      "emails" ∷ "phonenumbers" ∷ "ims" ∷ "photos" ∷ "entitlements" ∷ "roles" ∷ "x509certificates"
      ∷ [])
    then switch (to_lower sub_attr) item_keys none
    else if same (to_lower collection_attr) (text "addresses")
    then switch (to_lower sub_attr) address_keys none
    else none

abbrev pub is_some {ℓ} : {A : Type ℓ} → Option A → Bool
is_some none = false
is_some (some _) = true

unfoldable pub is_valid_common_attr : Text → Bool
is_valid_common_attr lower = one_of lower (
    "id" ∷ "externalid" ∷ "schemas" ∷ "meta.created" ∷ "meta.lastmodified" ∷ "meta.resourcetype"
    ∷ "meta.location" ∷ "meta.version" ∷ [])

unfoldable pub is_valid_enterprise_attr : Text → Bool
is_valid_enterprise_attr lower = one_of lower (
    "employeenumber" ∷ "costcenter" ∷ "organization" ∷ "division" ∷ "department" ∷ "manager"
    ∷ "manager.value" ∷ "manager.$ref" ∷ "manager.displayname" ∷ [])

unfoldable pub is_valid_user_core_attr : Text → Bool
is_valid_user_core_attr lower =
    is_valid_common_attr lower
    || is_user_groups_attr lower
    || one_of lower (
        "username" ∷ "name" ∷ "name.formatted" ∷ "name.familyname" ∷ "name.givenname"
        ∷ "name.middlename" ∷ "name.honorificprefix" ∷ "name.honorificsuffix" ∷ "displayname"
        ∷ "nickname" ∷ "profileurl" ∷ "title" ∷ "usertype" ∷ "preferredlanguage" ∷ "locale"
        ∷ "timezone" ∷ "active" ∷ [])
    || is_json_collection lower
    || elim (split_at b'.' lower) [
      | none ↦ false
      | some (a, b) ↦ is_json_collection a && is_some (resolve_sub_attribute a b)
    ]

unfoldable pub is_valid_group_core_attr : Text → Bool
is_valid_group_core_attr lower =
    is_valid_common_attr lower || is_group_members_attr lower || same lower (text "displayname")

unfoldable pub is_valid_any_resource_attr : Text → Bool
is_valid_any_resource_attr raw_attr =
    let lower = to_lower (trim_space raw_attr) in
    if has_prefix lower core_user_urn
    then is_valid_user_core_attr (drop_bytes core_user_len lower)
    else if has_prefix lower enterprise_urn
    then is_valid_enterprise_attr (drop_bytes enterprise_len lower)
    else if has_prefix lower core_group_urn
    then is_valid_group_core_attr (drop_bytes core_group_len lower)
    else if contains_byte lower b':'
    then false
    else is_valid_user_core_attr lower
      || is_valid_enterprise_attr lower
      || is_valid_group_core_attr lower

unfoldable pub is_boolean_attr : Text → Bool
is_boolean_attr attr = same (to_lower attr) (text "active")
