-- ===== src/Model.antt =====
-- internal/model/model.go: users. A UUID is its canonical text and a time is its Unix second.
-- The element types of the seven collections with the fields value, type, display and primaryFlag
-- are one record here; they differ in the functions that build and change them.
use scim_server_impl_go.Base.{ℕ, Bool, Option, List}
use scim_server_impl_go.Text.{Text}

pub record Item : Type 0 where
  pub value : Text
  pub typ : Text
  pub display : Text
  pub primary_flag : Bool

pub record Address : Type 0 where
  pub formatted : Text
  pub street_address : Text
  pub locality : Text
  pub region : Text
  pub postal_code : Text
  pub country : Text
  pub typ : Text
  pub primary_flag : Bool

pub record User : Type 0 where
  pub id : Text
  pub workspace_id : Text
  pub user_name : Text
  pub external_id : Option Text
  pub name_formatted : Option Text
  pub name_family_name : Option Text
  pub name_given_name : Option Text
  pub name_middle_name : Option Text
  pub name_honorific_prefix : Option Text
  pub name_honorific_suffix : Option Text
  pub display_name : Option Text
  pub nick_name : Option Text
  pub profile_url : Option Text
  pub title : Option Text
  pub user_type : Option Text
  pub preferred_language : Option Text
  pub locale : Option Text
  pub timezone : Option Text
  pub active : Bool
  pub password : Option Text
  pub enterprise_employee_number : Option Text
  pub enterprise_cost_center : Option Text
  pub enterprise_organization : Option Text
  pub enterprise_division : Option Text
  pub enterprise_department : Option Text
  pub enterprise_manager_value : Option Text
  pub enterprise_manager_ref : Option Text
  pub enterprise_manager_display : Option Text
  pub created_at : ℕ
  pub last_modified : ℕ
  pub version : ℕ
  pub emails : List Item
  pub phone_numbers : List Item
  pub addresses : List Address
  pub entitlements : List Item
  pub roles : List Item
  pub ims : List Item
  pub photos : List Item
  pub x509_certificates : List Item
