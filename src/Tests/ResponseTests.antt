-- ===== src/Tests/ResponseTests.antt =====
-- internal/handler/base.go on concrete responses.
use scim_server_impl_go.Base.{pos, ◌↔◌, ◌≡◌, refl, true, none, String, [], ◌∷◌}
use scim_server_impl_go.Text.{
  text, same, lower_rune, to_lower, fold_rune, equal_fold, is_space, trim_left, trim_right,
  trim_space, has_prefix, split_at, width, invalid, drop_bytes, in_set,
}
use scim_server_impl_go.Value.{Value, str, obj, arr, cons, nil, Fields, end, field, find}
use scim_server_impl_go.Cursor.{digits, decimal}
use scim_server_impl_go.Response.{
  split, trimmed_parts, parse_attr_list, sanitize_header_value, trim_suffix, strip_default_port,
}
use scim_server_impl_go.Response.Projection.{
  subs_of, add_sub, delete_subs, add_path_to_maps, core_path, add_token, add_tokens,
  parse_projection_spec, filter_fields, all_objects, filter_objects, project_subs, project_fields,
  whitelisted, project_object_map_whitelist, blacklisted, project_object_map_blacklist, delete,
  change, value_at, find_key_case_insensitive, whitelisted_block, blacklisted_block, select,
  exclude, apply_attribute_projection,
}
use scim_server_impl_go.Response.Narrows.{Projected}
use scim_server_impl_go.Response.Kept.{apply_attribute_projection_lem}
use scim_server_impl_go.Response.Etag.{entity_tag, check_etag_match, check_etag_match-entity_tag}

-- what the tests of this file compute with
response_code : Unit {0}
unfolding text same lower_rune to_lower fold_rune equal_fold is_space trim_left trim_right
    trim_space has_prefix split_at width invalid drop_bytes in_set digits decimal split
    trimmed_parts parse_attr_list sanitize_header_value trim_suffix strip_default_port subs_of
    add_sub delete_subs add_path_to_maps core_path add_token add_tokens parse_projection_spec
    filter_fields all_objects filter_objects project_subs project_fields whitelisted
    project_object_map_whitelist blacklisted project_object_map_blacklist delete change value_at
    find_key_case_insensitive whitelisted_block blacklisted_block select exclude
    apply_attribute_projection entity_tag check_etag_match
response_code = tt

abbrev member : String → Value → Fields → Fields
member k v m = field (text k) v m

abbrev word : String → Value
word s = str (text s)

-- an address with two members
abbrev work : Fields
work = member "value" (word "a@x") (member "type" (word "work") end)

abbrev division : Fields
division = member "division" (word "d") (member "department" (word "e") end)

abbrev ann : Fields
ann = member "id" (word "1") (
    member "userName" (word "ann") (
      member "password" (word "secret") (
        member "emails" (arr (cons (obj work) nil)) (
          member "urn:ietf:params:scim:schemas:extension:enterprise:2.0:User" (obj division) end))))

selected :
    apply_attribute_projection ann
      (text
        "Emails.value, password,urn:ietf:params:scim:schemas:extension:enterprise:2.0:User:division")
      []
    ≡ member "id" (word "1") (
        member "emails" (arr (cons (obj (member "value" (word "a@x") end)) nil)) (
          member "urn:ietf:params:scim:schemas:extension:enterprise:2.0:User"
            (obj (member "division" (word "d") end))
            end))
unfolding response_code
selected = refl

excluded :
    apply_attribute_projection ann [] (
      text "id,emails.type,emails.value,urn:ietf:params:scim:schemas:extension:enterprise:2.0:User")
    ≡ member "id" (word "1") (member "userName" (word "ann") end)
unfolding response_code
excluded = refl

second_tag : check_etag_match (text " W/\"1\" , W/\"42\"") (pos 42) ≡ true
unfolding response_code
second_tag = refl

default_port : strip_default_port (text "https") (text "example.org:443") ≡ text "example.org"
unfolding response_code
default_port = refl

one_line : sanitize_header_value (10 ∷ b'a' ∷ 13 ∷ []) ≡ b'a' ∷ []
unfolding response_code
one_line = refl

apply_attribute_projection_lem_example :
    Projected (apply_attribute_projection ann (text "emails") []) (delete (text "password") ann)
    × (find "password" (apply_attribute_projection ann (text "emails") []) ≡ none)
    × (find "id" (apply_attribute_projection ann (text "emails") []) ≡ find "id" ann)
    × (find "schemas" (apply_attribute_projection ann (text "emails") []) ≡ find "schemas" ann)
apply_attribute_projection_lem_example = apply_attribute_projection_lem ann (text "emails") []

check_etag_match-entity_tag_example :
    (check_etag_match (entity_tag (pos 7)) (pos 42) ≡ true) ↔ (pos 7 ≡ pos 42)
check_etag_match-entity_tag_example = check_etag_match-entity_tag (pos 7) (pos 42)
