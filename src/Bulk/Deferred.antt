-- ===== src/Bulk/Deferred.antt =====
-- internal/handler/bulk.go: the references of a POST that wait until every resource is created.
pub mod Split
pub mod Waits
use scim_server_impl_go.Base.{
  ℕ, Bool, true, false, not, ◌&&◌, Option, none, some, List, [], ◌∷◌, ◌≡◌, refl, if◌then◌else◌,
  if-cases, leb,
}
use scim_server_impl_go.Text.{Text, text, is_empty, same, has_prefix, equal_fold}
use scim_server_impl_go.Value.{
  Value, null, str, arr, obj, Items, nil, cons, items, Fields, end, field, find, index,
}
use scim_server_impl_go.Bulk.Refs.{drop, lookup_id}
use scim_server_impl_go.Bulk.Graph.{Producers}

-- Whether a text refers to a producer other than the operation itself.
unfoldable pub is_deferred_ref : Producers → Text → Text → Bool
is_deferred_ref producers self s =
    has_prefix s (text "bulkId:")
    && not (is_empty (drop 7 s))
    && not (same (drop 7 s) self)
    && elim (lookup_id producers (drop 7 s)) [ none ↦ false | some _ ↦ true ]

-- `valStr, _ := mm["value"].(string)`
abbrev pub value_text : Value → Text
value_text (str s) = s
value_text _ = []

unfoldable pub is_deferred_member : Producers → Text → Value → Bool
is_deferred_member producers self (obj m) =
    is_deferred_ref producers self (value_text (index "value" m))
is_deferred_member producers self _ = false

-- `immediate` and `deferred`
unfoldable pub immediate_members : Producers → Text → Items → Items
immediate_members producers self nil = nil
immediate_members producers self (cons v vs) =
    let rest = immediate_members producers self vs in
    if is_deferred_member producers self v then rest else cons v rest

unfoldable pub deferred_members : Producers → Text → Items → Items
deferred_members producers self nil = nil
deferred_members producers self (cons v vs) =
    let rest = deferred_members producers self vs in
    if is_deferred_member producers self v then cons v rest else rest

-- `cloned[key] = v` of a key that is there
unfoldable pub replace_member : Text → Value → Fields → Fields
replace_member key w end = end
replace_member key w (field k v m) =
    let rest = replace_member key w m in if same k key then field k w rest else field k v rest

-- The data to create the group from, and the members that are added later, if there are any.
unfoldable pub after_split : Producers → Text → Fields → Items → Items → Fields × Items
after_split producers self payload vs nil = (payload, nil)
after_split producers self payload vs (cons d ds) =
    (replace_member (text "members") (arr (immediate_members producers self vs)) payload, cons d ds)

unfoldable pub extract_deferred_group_members : Producers → Text → Fields → Fields × Items
extract_deferred_group_members producers self payload = elim (index "members" payload) [
  | arr vs ↦ after_split producers self payload vs (deferred_members producers self vs)
  | _ ↦ (payload, nil)
]

-- `urn:ietf:params:scim:schemas:extension:enterprise:2.0:User`
abbrev pub extension_urn : Text
extension_urn = text "urn:ietf:params:scim:schemas:extension:enterprise:2.0:User"

-- the first member whose key is the extension, if it is an object
unfoldable pub extension_of : Fields → Option (Text × Fields)
extension_of end = none
extension_of (field k v m) =
    let rest = extension_of m in
    if equal_fold k extension_urn then elim v [ obj ent ↦ some (k, ent) | _ ↦ none ] else rest

-- `mgrVal`
unfoldable pub manager_text : Value → Text
manager_text (str s) = s
manager_text (obj m) = value_text (index "value" m)
manager_text _ = []

unfoldable pub without_manager : Fields → Fields
without_manager end = end
without_manager (field k v m) =
    let rest = without_manager m in if equal_fold k (text "manager") then rest else field k v rest

-- The data to create the user from, and the manager that is set later.
unfoldable pub extract_deferred_user_manager : Producers → Text → Fields → Fields × Option Value
extract_deferred_user_manager producers self payload = elim (extension_of payload) [
  | none ↦ (payload, none)
  | some (key, ent) ↦
      let manager = index "manager" ent in
      if is_deferred_ref producers self (manager_text manager)
      then (replace_member key (obj (without_manager ent)) payload, some manager)
      else (payload, none)
]

-- the first byte of a `status` that is a text
unfoldable pub is_error_result : Fields → Bool
is_error_result result = elim (value_text (index "status" result)) [
  | [] ↦ false
  | c ∷ _ ↦ leb b'4' c
]
