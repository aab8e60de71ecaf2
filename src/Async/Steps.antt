-- ===== src/Async/Steps.antt =====
-- internal/handler/async_event.go: the steps of `extractModifiedPatchPaths`, each a chain of `addPath`.
use scim_server_impl_go.Base.{[], ◌∷◌, List, ◌++◌, if-keeps}
use scim_server_impl_go.Text.{Text, text, is_empty, equal_fold}
use scim_server_impl_go.Value.{Value, null, bool, num, str, arr, obj, Fields, end, field, index}
use scim_server_impl_go.Async.{
  add_path, enterprise_schema_urn, add_extension, add_extension_or, add_member, add_members,
  path_of, add_value, add_operation, add_operations,
}

module _ (P : List Text → Type 0)
    (keeps : (paths : List Text) (p : Text) → P paths → P (add_path paths p)) where
  pub add_extension-keeps : (paths : List Text) (m : Fields) → P paths → P (add_extension paths m)
  unfolding add_extension
  add_extension-keeps paths end l = l
  add_extension-keeps paths (field k v m) l =
      add_extension-keeps (add_path paths (enterprise_schema_urn ++ b':' ∷ k)) m (keeps paths _ l)

  pub add_extension_or-keeps :
      (p : Text) (paths : List Text) (v : Value) → P paths → P (add_extension_or p paths v)
  unfolding add_extension_or
  add_extension_or-keeps p paths (obj (field k v m)) l = add_extension-keeps paths (field k v m) l
  add_extension_or-keeps p paths (obj end) l = keeps paths p l
  add_extension_or-keeps p paths null l = keeps paths p l
  add_extension_or-keeps p paths (bool b) l = keeps paths p l
  add_extension_or-keeps p paths (num n) l = keeps paths p l
  add_extension_or-keeps p paths (str s) l = keeps paths p l
  add_extension_or-keeps p paths (arr vs) l = keeps paths p l

  pub add_members-keeps : (paths : List Text) (m : Fields) → P paths → P (add_members paths m)
  unfolding add_members add_member
  add_members-keeps paths end l = l
  add_members-keeps paths (field k v m) l = add_members-keeps (add_member paths k v) m (
      if-keeps P (equal_fold k (text "schemas")) l (
        if-keeps P (equal_fold k enterprise_schema_urn) (add_extension_or-keeps k paths v l)
          (keeps paths k l)))

  pub add_value-keeps : (paths : List Text) (v : Value) → P paths → P (add_value paths v)
  unfolding add_value
  add_value-keeps paths (obj m) l = add_members-keeps paths m l
  add_value-keeps paths v l = l

  pub add_operations-keeps :
      (paths : List Text) (ops : List Fields) → P paths → P (add_operations paths ops)
  unfolding add_operations add_operation
  add_operations-keeps paths [] l = l
  add_operations-keeps paths (op ∷ ops) l =
      let path = path_of (index "path" op) in
      add_operations-keeps (add_operation paths op) ops (
        if-keeps P (is_empty path) (add_value-keeps paths (index "value" op) l) (
          if-keeps P (equal_fold path enterprise_schema_urn)
            (add_extension_or-keeps path paths (index "value" op) l) (keeps paths path l)))
