-- ===== src/Bulk/Path.antt =====
-- internal/handler/bulk.go: the paths of bulk operations.
use scim_server_impl_go.Base.{
  Bool, not, ◌||◌, Option, none, some, List, [], ◌∷◌, ◌++◌, ◌==◌, if◌then◌else◌, Result, ok,
  bad_request, ◌>>=◌,
}
use scim_server_impl_go.Text.{
  Text, text, is_empty, same, equal_fold, trim_left, trim_right, trim_space, byte_len,
}
use scim_server_impl_go.External.{External}

-- `strings.Trim(s, "/")`
unfoldable pub trim_slashes : Text → Text
trim_slashes s = trim_right (λ c. c == b'/') (trim_left (λ c. c == b'/') s)

-- `strings.Split(s, "/")`, with the segment that is being read
unfoldable pub split_from : Text → Text → List Text
split_from cur [] = cur ∷ []
split_from cur (c ∷ s) =
    let closed = split_from [] s in
    let longer = split_from (cur ++ c ∷ []) s in if c == b'/' then cur ∷ closed else longer

-- the loop over the raw segments
unfoldable pub keep_segments : List Text → Result (List Text)
keep_segments [] = ok []
keep_segments (seg ∷ segs) =
    let rest = keep_segments segs in
    if is_empty seg
    then rest
    else if same seg (text ".") || same seg (text "..")
    then bad_request "invalidPath"
    else rest >>= λ kept. ok (seg ∷ kept)

unfoldable pub normalize_bulk_path : Text → Result (List Text)
normalize_bulk_path raw_path =
    let trimmed = trim_space raw_path in
    if is_empty trimmed
    then ok []
    else if is_empty (trim_slashes trimmed)
    then ok []
    else keep_segments (split_from [] (trim_slashes trimmed))

pub data BulkResourceType : Type 0 where
  users groups : BulkResourceType

-- `bulkPathTarget`; the id is `uuid.Nil`, here `none`, where no item is required
pub record BulkPathTarget : Type 0 where
  pub resource_type : BulkResourceType
  pub id : Option Text

unfoldable pub resource_of : Text → Result BulkResourceType
resource_of seg =
    if equal_fold seg (text "Users")
    then ok users
    else if equal_fold seg (text "Groups")
    then ok groups
    else bad_request "invalidValue"

module _ (x : External) where
  unfoldable pub item_target : BulkResourceType → List Text → Result BulkPathTarget
  item_target r_type (seg ∷ []) =
      if is_empty seg
      then bad_request "invalidPath"
      else if not (byte_len seg == 36)
      then bad_request "invalidValue"
      else elim (x.uuid_parse seg) [
        | none ↦ bad_request "invalidValue"
        | some id ↦ ok (record { resource_type = r_type; id = some id })
      ]
  item_target r_type _ = bad_request "invalidPath"

  unfoldable pub endpoint_target : BulkResourceType → List Text → Result BulkPathTarget
  endpoint_target r_type [] = ok (record { resource_type = r_type; id = none })
  endpoint_target r_type _ = bad_request "invalidPath"

  unfoldable pub target_of : Bool → List Text → Result BulkPathTarget
  target_of is_item_required [] = bad_request "invalidPath"
  target_of is_item_required (seg ∷ segs) = resource_of seg >>= λ r_type.
      if is_item_required then item_target r_type segs else endpoint_target r_type segs

  unfoldable pub parse_bulk_target : Text → Bool → Result BulkPathTarget
  parse_bulk_target raw_path is_item_required =
      normalize_bulk_path raw_path >>= target_of is_item_required
