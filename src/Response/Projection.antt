-- ===== src/Response/Projection.antt =====
-- internal/handler/base.go: the attributes that a request selects or excludes. A `map[string]bool` is the
-- list of its keys. The lists of a response are `[]any` or `[]map[string]any`.
use scim_server_impl_go.Base.{
  Bool, true, false, not, ◌||◌, Option, none, some, List, [], ◌∷◌, if◌then◌else◌, any,
}
use scim_server_impl_go.Text.{
  Text, text, is_empty, same, to_lower, trim_space, has_prefix, drop_bytes, split_at, equal_fold,
  in_set,
}
use scim_server_impl_go.Value.{Value, obj, arr, Items, nil, cons, Fields, end, field}
use scim_server_impl_go.Filter.Attributes.{
  core_user_urn, core_group_urn, enterprise_urn, core_user_len, core_group_len, enterprise_len,
}
use scim_server_impl_go.Response.{parse_attr_list}

-- `whole` and `subs`, or `entWhole` and `entSubs`
pub record Names : Type 0 where
  pub whole : List Text
  pub subs : List (Text × List Text)

pub record ProjectionSpec : Type 0 where
  pub core : Names
  pub ent_all : Bool
  pub ent : Names

abbrev pub no_names : Names
no_names = record { whole = []; subs = [] }

abbrev pub has : List Text → Text → Bool
has names k = any (same k) names

-- `subs[k]`
unfoldable pub subs_of : Text → List (Text × List Text) → Option (List Text)
subs_of k [] = none
subs_of k ((p, set) ∷ subs) = if same k p then some set else subs_of k subs

-- `subs[parent][sub] = true`
unfoldable pub add_sub : Text → Text → List (Text × List Text) → List (Text × List Text)
add_sub parent sub [] = (parent, sub ∷ []) ∷ []
add_sub parent sub ((p, set) ∷ subs) =
    let rest = add_sub parent sub subs in
    if same parent p then (p, sub ∷ set) ∷ subs else (p, set) ∷ rest

-- `delete(subs, k)`
unfoldable pub delete_subs : Text → List (Text × List Text) → List (Text × List Text)
delete_subs k [] = []
delete_subs k ((p, set) ∷ subs) =
    let rest = delete_subs k subs in if same k p then rest else (p, set) ∷ rest

abbrev pub add_whole : Text → Names → Names
add_whole k names = record names { whole = k ∷ names.whole }

-- `strings.ToLower(strings.TrimSpace(s))`
abbrev pub clean : Text → Text
clean s = to_lower (trim_space s)

unfoldable pub add_path_to_maps : Text → Names → Names
add_path_to_maps attr_path names =
    if is_empty attr_path then names else elim (split_at b'.' attr_path) [
      | none ↦ if is_empty (clean attr_path) then names else add_whole (clean attr_path) names
      | some (parent, sub) ↦
          if is_empty (clean parent)
          then names
          else if is_empty (clean sub)
          then add_whole (clean parent) names
          else record names { subs = add_sub (clean parent) (clean sub) names.subs }
    ]

-- `strings.ToLower(scim.EnterpriseSchemaURN)`
abbrev pub ent_urn : Text
ent_urn = text "urn:ietf:params:scim:schemas:extension:enterprise:2.0:user"

-- the path of a core attribute
unfoldable pub core_path : Text → Text
core_path tok =
    if has_prefix (to_lower tok) core_user_urn
    then trim_space (drop_bytes core_user_len tok)
    else if has_prefix (to_lower tok) core_group_urn
    then trim_space (drop_bytes core_group_len tok)
    else tok

unfoldable pub add_token : Text → ProjectionSpec → ProjectionSpec
add_token tok spec =
    if same (to_lower tok) ent_urn
    then record spec { ent_all = true }
    else if has_prefix (to_lower tok) enterprise_urn
    then record spec {
      ent = add_path_to_maps (trim_space (drop_bytes enterprise_len tok)) spec.ent;
    }
    else record spec { core = add_path_to_maps (core_path tok) spec.core }

unfoldable pub add_tokens : List Text → ProjectionSpec → ProjectionSpec
add_tokens [] spec = spec
add_tokens (tok ∷ more) spec = add_tokens more (add_token tok spec)

unfoldable pub parse_projection_spec : Text → ProjectionSpec
parse_projection_spec raw =
    add_tokens (parse_attr_list raw) (record { core = no_names; ent_all = false; ent = no_names })

-- the members whose key, in lower case, passes a test
unfoldable pub filter_fields : (Text → Bool) → Fields → Fields
filter_fields test end = end
filter_fields test (field k v m) =
    let rest = filter_fields test m in if test (to_lower k) then field k v rest else rest

abbrev pub no_fields : Fields → Bool
no_fields end = true
no_fields (field _ _ _) = false

-- whether `toMapSlice` takes the elements
unfoldable pub all_objects : Items → Bool
all_objects nil = true
all_objects (cons (obj m) vs) = all_objects vs
all_objects (cons _ vs) = false

-- the elements with the members that pass, without those that have none
unfoldable pub filter_objects : (Text → Bool) → Items → Items
filter_objects test nil = nil
filter_objects test (cons (obj m) vs) =
    let rest = filter_objects test vs in
    if no_fields (filter_fields test m) then rest else cons (obj (filter_fields test m)) rest
filter_objects test (cons v vs) = filter_objects test vs

abbrev pub no_items : Items → Bool
no_items nil = true
no_items (cons _ _) = false

-- What a test on the names of sub-attributes leaves of a value: `kept` of an object that loses all its
-- members, and `other` of a value that is no object and no list of objects.
unfoldable pub project_subs : (Text → Bool) → Value → Option Value → Option Value → Option Value
project_subs test (obj m) kept other =
    if no_fields (filter_fields test m) then kept else some (obj (filter_fields test m))
project_subs test (arr vs) kept other =
    if all_objects vs
    then if no_items (filter_objects test vs) then none else some (arr (filter_objects test vs))
    else other
project_subs test _ kept other = other

-- a loop over the members that replaces or deletes each
unfoldable pub project_fields : (Text → Value → Option Value) → Fields → Fields
project_fields f end = end
project_fields f (field k v m) =
    let rest = project_fields f m in elim (f k v) [ none ↦ rest | some w ↦ field k w rest ]

-- what the body of the first loop does with a member
unfoldable pub whitelisted : Names → (Text → Bool) → Text → Value → Option Value
whitelisted names default_keep kl v =
    let default : Option Value = if default_keep kl then some v else none in
    if has names.whole kl then some v else elim (subs_of kl names.subs) [
      | none ↦ default
      | some set ↦ project_subs (has set) v default default
    ]

unfoldable pub project_object_map_whitelist : Names → (Text → Bool) → Fields → Fields
project_object_map_whitelist names default_keep =
    project_fields (λ k v. whitelisted names default_keep (to_lower k) v)

-- the same for the second loop
unfoldable pub blacklisted : Names → (Text → Bool) → Text → Value → Option Value
blacklisted names protected kl v =
    if protected kl
    then some v
    else if has names.whole kl
    then none
    else elim (subs_of kl names.subs) [
      | none ↦ some v
      | some set ↦ project_subs (λ s. not (has set s)) v none (some v)
    ]

unfoldable pub project_object_map_blacklist : Names → (Text → Bool) → Fields → Fields
project_object_map_blacklist names protected =
    project_fields (λ k v. blacklisted names protected (to_lower k) v)

-- `delete(m, key)`
unfoldable pub delete : Text → Fields → Fields
delete key = project_fields (λ k v. if same k key then none else some v)

-- `m[key] = f(m[key])`, or `delete(m, key)`
unfoldable pub change : Text → (Value → Option Value) → Fields → Fields
change key f = project_fields (λ k v. if same k key then f v else some v)

-- `m[key]`
unfoldable pub value_at : Text → Fields → Option Value
value_at key end = none
value_at key (field k v m) = let rest = value_at key m in if same k key then some v else rest

-- whether a value is missing or is deleted by `f`
abbrev pub leaves_none : (Value → Option Value) → Option Value → Bool
leaves_none f none = true
leaves_none f (some v) = elim (f v) [ none ↦ true | some _ ↦ false ]

-- the first key that is `target` up to case
unfoldable pub find_key_case_insensitive : Text → Fields → Option Text
find_key_case_insensitive target end = none
find_key_case_insensitive target (field k v m) =
    let rest = find_key_case_insensitive target m in if equal_fold k target then some k else rest

abbrev pub nothing : Text → Bool
nothing k = false

-- `len(spec.entWhole) > 0 || len(spec.entSubs) > 0`
abbrev pub names_any : Names → Bool
names_any names =
    not (elim names.whole [ [] ↦ true | _ ∷ _ ↦ false ])
    || not (elim names.subs [ [] ↦ true | _ ∷ _ ↦ false ])

-- an object, unless it is empty
abbrev pub given_object : Fields → Option Value
given_object m = if no_fields m then none else some (obj m)

-- what the selected names leave of the block of the extension
unfoldable pub whitelisted_block : Names → Value → Option Value
whitelisted_block names (obj m) = given_object (project_object_map_whitelist names nothing m)
whitelisted_block names _ = none

-- what the excluded names leave of it
unfoldable pub blacklisted_block : Names → Value → Option Value
blacklisted_block names (obj m) = given_object (project_object_map_blacklist names nothing m)
blacklisted_block names v = some v

-- `alwaysKeep` and `protected`
abbrev pub always_keep : Text → Bool
always_keep = in_set ("schemas" ∷ "id" ∷ "meta" ∷ [])

abbrev pub protected : Text → Bool
protected k = in_set ("schemas" ∷ "id" ∷ []) k || same k ent_urn

-- the selection of core attributes
abbrev pub whitelist_core : Names → Fields → Fields
whitelist_core names response =
    project_object_map_whitelist
      (record names { subs = delete_subs (text "id") (delete_subs (text "schemas") names.subs) })
      always_keep response

-- the branch of `attributes`
unfoldable pub select : ProjectionSpec → Fields → Fields
select spec response = elim (find_key_case_insensitive ent_urn response) [
  | none ↦ whitelist_core spec.core response
  | some key ↦
      if spec.ent_all
      then whitelist_core (add_whole (to_lower key) spec.core) response
      else if names_any spec.ent
      then whitelist_core
          (if leaves_none (whitelisted_block spec.ent) (value_at key response)
            then spec.core
            else add_whole (to_lower key) spec.core)
          (change key (whitelisted_block spec.ent) response)
      else whitelist_core spec.core (delete key response)
]

-- the branch of `excludedAttributes`
unfoldable pub exclude : ProjectionSpec → Fields → Fields
exclude spec response =
    project_object_map_blacklist spec.core protected
      (elim (find_key_case_insensitive ent_urn response) [
        | none ↦ response
        | some key ↦
            if spec.ent_all
            then delete key response
            else if names_any spec.ent
            then change key (blacklisted_block spec.ent) response
            else response
      ])

unfoldable pub apply_attribute_projection : Fields → Text → Text → Fields
apply_attribute_projection response attributes excluded =
    let shown = delete (text "password") response in
    if not (is_empty (trim_space attributes))
    then select (parse_projection_spec attributes) shown
    else if not (is_empty (trim_space excluded))
    then exclude (parse_projection_spec excluded) shown
    else shown
