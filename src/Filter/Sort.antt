-- ===== src/Filter/Sort.antt =====
-- internal/scim/filter.go: the columns to sort by.
use scim_server_impl_go.Base.{String, List, [], ◌∷◌}
use scim_server_impl_go.Text.{Text, to_lower, switch}
use scim_server_impl_go.Filter.Attributes.{strip_urn_prefix}

abbrev pub user_sort_columns : List (String × String)
user_sort_columns =
    ("id", "id")
    ∷ ("username", "user_name")
    ∷ ("name.formatted", "name_formatted")
    ∷ ("name.familyname", "name_family_name")
    ∷ ("name.givenname", "name_given_name")
    ∷ ("name.middlename", "name_middle_name")
    ∷ ("name.honorificprefix", "name_honorific_prefix")
    ∷ ("name.honorificsuffix", "name_honorific_suffix")
    ∷ ("displayname", "display_name")
    ∷ ("nickname", "nick_name")
    ∷ ("profileurl", "profile_url")
    ∷ ("title", "title")
    ∷ ("usertype", "user_type")
    ∷ ("preferredlanguage", "preferred_language")
    ∷ ("locale", "locale")
    ∷ ("timezone", "timezone")
    ∷ ("emails", "emails")
    ∷ ("emails.value", "emails")
    ∷ ("email", "emails")
    ∷ ("meta.created", "created_at")
    ∷ ("meta.lastmodified", "last_modified")
    ∷ ("externalid", "external_id")
    ∷ ("active", "active")
    ∷ ("employeenumber", "enterprise_employee_number")
    ∷ ("costcenter", "enterprise_cost_center")
    ∷ ("organization", "enterprise_organization")
    ∷ ("division", "enterprise_division")
    ∷ ("department", "enterprise_department")
    ∷ ("manager", "enterprise_manager_value")
    ∷ ("manager.value", "enterprise_manager_value")
    ∷ ("manager.displayname", "enterprise_manager_display")
    ∷ []

unfoldable pub resolve_user_sort_attribute : Text → String
resolve_user_sort_attribute sort_by =
    switch (to_lower (strip_urn_prefix sort_by)) user_sort_columns "user_name"

unfoldable pub resolve_group_sort_attribute : Text → String
resolve_group_sort_attribute sort_by =
    switch (to_lower (strip_urn_prefix sort_by))
      (("id", "id")
        ∷ ("displayname", "display_name")
        ∷ ("meta.created", "created_at")
        ∷ ("meta.lastmodified", "last_modified")
        ∷ ("externalid", "external_id")
        ∷ [])
      "display_name"
