-- ===== src/Value.antt =====
-- What `encoding/json` decodes into `any`. An object is the list of its members in the order in
-- which Go iterates over the map: a theorem over every list holds for every order. A map has no key
-- twice; a lookup here takes the first. `null` is Go's `nil`, also for a missing member.
use scim_server_impl_go.Base.{
  String, Bool, true, false, Option, none, some, List, [], ◌∷◌, if◌then◌else◌, ℤ,
}
use scim_server_impl_go.Text.{Text, text, same}

-- A `float64`: an integral number, or another with its truncation.
pub data Number : Type 0 where
  whole : ℤ → Number
  fraction : ℤ → Number

mutual
  pub data Value : Type 0 where
    null : Value
    bool : Bool → Value
    num : Number → Value
    str : Text → Value
    arr : Items → Value
    obj : Fields → Value

  pub data Items : Type 0 where
    nil : Items
    cons : Value → Items → Items

  pub data Fields : Type 0 where
    end : Fields
    field : Text → Value → Fields → Fields

abbrev pub items : Items → List Value
items nil = []
items (cons v vs) = v ∷ items vs

abbrev pub members : Fields → List (Text × Value)
members end = []
members (field k v fs) = (k, v) ∷ members fs

-- `v, ok := m[key]`
unfoldable pub find : String → Fields → Option Value
unfolding same text
find key end = none
find key (field k v fs) = if same k (text key) then some v else find key fs

-- `m[key]`
unfoldable pub index : String → Fields → Value
unfolding find
index key fs = elim (find key fs) [ none ↦ null | some v ↦ v ]

-- `v == nil`
abbrev pub is_nil : Value → Bool
is_nil null = true
is_nil _ = false

-- `s, _ := v.(string)`
abbrev pub as_text : Value → Text
as_text (str s) = s
as_text _ = []
