-- ===== src/Async/Listed.antt =====
-- internal/handler/async_event.go: which paths the event of a PATCH names.
use scim_server_impl_go.Base.{true, false, [], ◌∷◌, ◌++◌, ◌≡◌}
use scim_server_impl_go.Text.{Text, text, is_empty, equal_fold, trim_space}
use scim_server_impl_go.Value.{Value, str, obj, Fields, field, index}
use scim_server_impl_go.Async.{enterprise_schema_urn, path_of}

-- A key of an object with its value.
pub data Has (k : Text) (v : Value) : Fields → Type 0 where
  here : {m : Fields} → Has k v (field k v m)
  there : {k' : Text} {v' : Value} {m : Fields} → Has k v m → Has k v (field k' v' m)

-- What an operation names: its path, or without a path the keys of its value; where one of them is the URN
-- of the extension, the keys of the object there, each behind the URN.
pub data IsNamed (op : Fields) (p : Text) : Type 0 where
  by_path :
      (s : Text)
      → index "path" op ≡ str s
      → trim_space s ≡ p
      → equal_fold p enterprise_schema_urn ≡ false
      → IsNamed op p
  by_extension_path :
      (s k : Text) (v : Value) (m : Fields)
      → index "path" op ≡ str s
      → equal_fold (trim_space s) enterprise_schema_urn ≡ true
      → is_empty (trim_space s) ≡ false
      → index "value" op ≡ obj m
      → Has k v m
      → trim_space (enterprise_schema_urn ++ b':' ∷ k) ≡ p
      → IsNamed op p
  by_key :
      (k : Text) (v : Value) (m : Fields)
      → path_of (index "path" op) ≡ []
      → index "value" op ≡ obj m
      → Has k v m
      → equal_fold k (text "schemas") ≡ false
      → equal_fold k enterprise_schema_urn ≡ false
      → trim_space k ≡ p
      → IsNamed op p
  by_extension_key :
      (k sub : Text) (v : Value) (m ent : Fields)
      → path_of (index "path" op) ≡ []
      → index "value" op ≡ obj m
      → Has k (obj ent) m
      → equal_fold k (text "schemas") ≡ false
      → equal_fold k enterprise_schema_urn ≡ true
      → Has sub v ent
      → trim_space (enterprise_schema_urn ++ b':' ∷ sub) ≡ p
      → IsNamed op p
