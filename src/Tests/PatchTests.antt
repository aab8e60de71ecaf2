-- ===== src/Tests/PatchTests.antt =====
-- internal/scim/patch.go on concrete requests.
use scim_server_impl_go.Base.{
  ◌≡◌, refl, arith, ◌≤◌, Bool, true, false, none, some, List, [], ◌∷◌, ok, err, String,
}
use scim_server_impl_go.Value.{Value, bool, str, arr, obj, nil, cons, Fields, end, field}
use scim_server_impl_go.Model.{User, Item}
use scim_server_impl_go.External.{External}
use scim_server_impl_go.Text.{Text}
use scim_server_impl_go.Text.{
  text, same, lower_rune, to_lower, upper_rune, to_upper, fold_rune, equal_fold, is_space,
  trim_left, trim_right, trim_space, has_prefix, contains_byte, split_at, width, byte_len, invalid,
  drop_bytes, switch, in_set,
}
use scim_server_impl_go.Value.{find, index}
use scim_server_impl_go.Canonicalize.{
  split_last, contains, normalize_nfc, canonicalize_email, canonicalize_phone_number,
  canonicalize_im, validate_x509_certificate_value, hash_password, extract_uuid_from_ref,
  validate_single_primary,
}
use scim_server_impl_go.Patch.Strict.{
  parse_strict_bool, parse_strict_optional_bool, parse_raw_string_ptr, item_objects, to_item_list,
  canonical_key, normalize_canonical, alpha2_of, is_alpha2, normalize_country,
  parse_strict_string_ptr, parse_strict_string, validate_reference,
}
use scim_server_impl_go.Patch.Items.{
  email_type, build_email, build_phone_number, build_address, build_im, build_photo,
  build_entitlement, build_role, build_x509_certificate,
}
use scim_server_impl_go.Patch.Setters.{
  set_email_sub_attribute_leaf, set_email_sub_attribute, set_phone_sub_attribute_leaf,
  set_phone_sub_attribute, set_address_sub_attribute_leaf, set_address_sub_attribute,
  set_im_sub_attribute_leaf, set_im_sub_attribute, set_photo_sub_attribute_leaf,
  set_photo_sub_attribute, set_entitlement_sub_attribute_leaf, set_entitlement_sub_attribute,
  set_role_sub_attribute_leaf, set_role_sub_attribute, set_cert_sub_attribute_leaf,
  set_cert_sub_attribute, set_sub, set_members,
}
use scim_server_impl_go.Patch.Filter.{
  is_word, is_word_fold, is_blank, span, close_group, bracket_body, filtered_tail,
  match_filtered_path, starts_blank, quoted, eq_word, eq_clause, find_clause, format_bool,
  parse_eq_filter, generic_clause, matches_generic_filter, address_clause, matches_address_filter,
  remove_matching,
}
use scim_server_impl_go.Patch.Multi.{
  add_loop, add_items, demote_except, update_loop, update_items, any_primary_true,
  members_primary_true, is_true, sets_primary_true, add_to_collection, add_to_multi_valued,
  update_collection, apply_filtered_update, apply_filtered_add, apply_filtered_replace,
  apply_filtered_remove,
}
use scim_server_impl_go.Patch.Single.{
  read_only, is_protected, set_user_name, clear_name, set_name_part, set_profile_url,
  is_current_password, set_password, set_single_attribute, sub_of_parent, set_sub_attribute,
  name_members, set_name_attribute,
}
use scim_server_impl_go.Patch.Enterprise.{
  lower_urn, has_urn_prefix, is_urn, enterprise_attr, clear_enterprise, is_present, set_manager_ref,
  manager_value, check_manager_ref, manager_ref, set_enterprise_manager, set_enterprise_leaf,
  clear_enterprise_attribute, set_enterprise_attribute, enterprise_members,
}
use scim_server_impl_go.Patch.Apply.{
  clear_attribute, is_multi_valued, strip_patch_urn_prefix, is_enterprise_attr, is_enterprise_path,
  replace_multi_valued, apply_member, apply_members, apply_value_map, apply_plain, apply_add,
  apply_replace, remove_plain, apply_remove, apply_op, apply_operation, apply_loop,
  apply_patch_operations,
}
use scim_server_impl_go.Patch.Kept.{Kept}
use scim_server_impl_go.Patch.Kept.Apply.{apply_patch_operations-Kept}
use scim_server_impl_go.Patch.Multi.Primary.{add_items-primaries}
use scim_server_impl_go.Patch.Dedup.Laws.{absorb_all, deduplicate-absorb_all}
use scim_server_impl_go.Patch.Dedup.Distinct.{Distinct, has, primaries, deduplicate_lem}
use scim_server_impl_go.Patch.Dedup.{
  folded, seen_at, promote, dedup_loop, deduplicate, folded_key, exact_key, address_key,
}

-- what the tests of this file compute with
patch_code : Unit {0}
unfolding text same lower_rune to_lower upper_rune to_upper fold_rune equal_fold is_space trim_left
    trim_right trim_space has_prefix contains_byte split_at width byte_len invalid drop_bytes switch
    in_set find index split_last contains normalize_nfc canonicalize_email canonicalize_phone_number
    canonicalize_im validate_x509_certificate_value hash_password extract_uuid_from_ref
    validate_single_primary parse_strict_bool parse_strict_optional_bool parse_raw_string_ptr
    item_objects to_item_list canonical_key normalize_canonical alpha2_of is_alpha2
    normalize_country parse_strict_string_ptr parse_strict_string validate_reference email_type
    build_email build_phone_number build_address build_im build_photo build_entitlement build_role
    build_x509_certificate set_email_sub_attribute_leaf set_email_sub_attribute
    set_phone_sub_attribute_leaf set_phone_sub_attribute set_address_sub_attribute_leaf
    set_address_sub_attribute set_im_sub_attribute_leaf set_im_sub_attribute
    set_photo_sub_attribute_leaf set_photo_sub_attribute set_entitlement_sub_attribute_leaf
    set_entitlement_sub_attribute set_role_sub_attribute_leaf set_role_sub_attribute
    set_cert_sub_attribute_leaf set_cert_sub_attribute set_sub set_members is_word is_word_fold
    is_blank span close_group bracket_body filtered_tail match_filtered_path starts_blank quoted
    eq_word eq_clause find_clause format_bool parse_eq_filter generic_clause matches_generic_filter
    address_clause matches_address_filter remove_matching add_loop add_items demote_except
    update_loop update_items any_primary_true members_primary_true is_true sets_primary_true
    add_to_collection add_to_multi_valued update_collection apply_filtered_update apply_filtered_add
    apply_filtered_replace apply_filtered_remove read_only is_protected set_user_name clear_name
    set_name_part set_profile_url is_current_password set_password set_single_attribute
    sub_of_parent set_sub_attribute name_members set_name_attribute lower_urn has_urn_prefix is_urn
    enterprise_attr clear_enterprise is_present set_manager_ref manager_value check_manager_ref
    manager_ref set_enterprise_manager set_enterprise_leaf clear_enterprise_attribute
    set_enterprise_attribute enterprise_members clear_attribute is_multi_valued
    strip_patch_urn_prefix is_enterprise_attr is_enterprise_path replace_multi_valued apply_member
    apply_members apply_value_map apply_plain apply_add apply_replace remove_plain apply_remove
    apply_op apply_operation apply_loop apply_patch_operations seen_at promote dedup_loop
    deduplicate folded_key exact_key address_key
patch_code = tt

-- Stand-ins for the packages that the code calls.
abbrev plain : External
plain = record {
  nfc = λ s. s;
  bcrypt_matches = λ hash raw. false;
  bcrypt_generate = λ raw. some raw;
  url_parses = λ s. true;
  uuid_parse = λ s. some s;
  base64_strict = λ s. some s;
  asn1_unmarshal = λ b. none;
  parses_certificate = λ b. false;
}

abbrev email : String → String → Bool → Item
email value typ primary = record {
  value = text value;
  typ = text typ;
  display = [];
  primary_flag = primary;
}

abbrev ann : User
ann = record {
  id = text "u1";
  workspace_id = text "w1";
  user_name = text "ann";
  external_id = none;
  name_formatted = none;
  name_family_name = none;
  name_given_name = none;
  name_middle_name = none;
  name_honorific_prefix = none;
  name_honorific_suffix = none;
  display_name = none;
  nick_name = none;
  profile_url = none;
  title = none;
  user_type = none;
  preferred_language = none;
  locale = none;
  timezone = none;
  active = true;
  password = none;
  enterprise_employee_number = none;
  enterprise_cost_center = none;
  enterprise_organization = none;
  enterprise_division = none;
  enterprise_department = none;
  enterprise_manager_value = none;
  enterprise_manager_ref = none;
  enterprise_manager_display = none;
  created_at = 1;
  last_modified = 2;
  version = 3;
  emails = email "a@x.org" "work" true ∷ email "b@x.org" "home" false ∷ [];
  phone_numbers = [];
  addresses = [];
  entitlements = [];
  roles = [];
  ims = [];
  photos = [];
  x509_certificates = [];
}

abbrev operation : String → String → Value → Fields
operation op path value =
    field (text "op") (str (text op))
      (field (text "path") (str (text path)) (field (text "value") value end))

abbrev rename : List Fields
rename = operation "Replace" "userName" (str (text "bob")) ∷ []

rename-ann : apply_patch_operations plain rename ann ≡ ok (record ann { user_name = text "bob" })
unfolding patch_code
rename-ann = refl

demote :
    apply_patch_operations plain
      (operation "replace" "emails[type eq \"home\"].primary" (bool true) ∷ [])
      ann
    ≡ ok (record ann { emails = email "a@x.org" "work" false ∷ email "b@x.org" "home" true ∷ [] })
unfolding patch_code
demote = refl

add_duplicate :
    apply_patch_operations plain
      (operation "add" "emails" (
          arr (
            cons
              (obj (
                field (text "value") (str (text " b@X.ORG ")) (
                  field
                    (text "type")
                    (str (text "HOME"))
                    (field (text "primary") (bool true) end))))
              nil))
        ∷ [])
      ann
    ≡ ok (record ann { emails = email "a@x.org" "work" false ∷ email "b@x.org" "home" true ∷ [] })
unfolding patch_code
add_duplicate = refl

no_user_name :
    apply_patch_operations plain (operation "replace" "userName" (str (text "")) ∷ []) ann
    ≡ err (record { status = 400; scim_type = "invalidValue" })
unfolding patch_code
no_user_name = refl

apply_patch_operations-Kept_example : Kept ann (record ann { user_name = text "bob" })
apply_patch_operations-Kept_example =
    apply_patch_operations-Kept plain rename ann (record ann { user_name = text "bob" }) rename-ann

-- one address twice, then another
abbrev repeated : List Item
repeated =
    email "a@x.org" "work" false ∷ email "b@x.org" "home" false ∷ email " A@x.org" "WORK" true ∷ []

deduplicate-absorb_all_example : deduplicate folded repeated ≡ absorb_all folded [] repeated
deduplicate-absorb_all_example = deduplicate-absorb_all folded repeated

deduplicate_lem_example :
    Distinct folded (deduplicate folded repeated)
    × ((k : Text) → has folded k (deduplicate folded repeated) ≡ has folded k repeated)
    × (primaries folded (deduplicate folded repeated) ≤ primaries folded repeated)
    × (deduplicate folded (deduplicate folded repeated) ≡ deduplicate folded repeated)
deduplicate_lem_example = deduplicate_lem folded repeated

abbrev primary_email : String → Fields
primary_email value =
    field (text "value") (str (text value)) (field (text "primary") (bool true) end)

abbrev joined : List Item
joined =
    email "a@x.org" "work" false
    ∷ email "b@x.org" "home" false
    ∷ email "c@x.org" "work" false
    ∷ email "d@x.org" "work" true
    ∷ []

-- two primary emails in one request
abbrev primary_emails : List Fields
primary_emails = primary_email "c@x.org" ∷ primary_email "d@x.org" ∷ []

join_emails : add_items folded (build_email plain) primary_emails ann.emails ≡ ok joined
unfolding patch_code
join_emails = refl

add_items-primaries_example : Distinct folded joined × (primaries folded joined ≤ 1)
add_items-primaries_example =
    add_items-primaries folded (build_email plain) primary_emails ann.emails joined (omega arith)
      join_emails
