-- ===== src/Bulk/Refs.antt =====
-- internal/handler/bulk.go: the `bulkId:` references in a value, and their resolution.
use scim_server_impl_go.Base.{
  ℕ, zero, suc, ◌+◌, Bool, true, false, not, ◌&&◌, ◌||◌, Option, none, some, List, [], ◌∷◌, ◌++◌,
  leb, ◌==◌, if◌then◌else◌, any, length,
}
use scim_server_impl_go.Text.{Text, text, is_empty, same, has_prefix}
use scim_server_impl_go.Value.{Value, str, arr, obj, Items, nil, cons, Fields, end, field}
use scim_server_impl_go.Canonicalize.{contains}

-- the class `[^\s"'/\]\[,]`
unfoldable pub is_token : ℕ → Bool
is_token c = not (
    c == b' '
    || leb 9 c && leb c 10
    || leb 12 c && leb c 13
    || c == b'"'
    || c == 39
    || c == b'/'
    || c == b']'
    || c == b'['
    || c == b',')

-- the longest prefix of such bytes
unfoldable pub token : Text → Text
token [] = []
token (c ∷ s) = let rest = token s in if is_token c then c ∷ rest else []

unfoldable pub drop : ℕ → Text → Text
drop zero s = s
drop (suc n) [] = []
drop (suc n) (c ∷ s) = drop n s

-- what `bulkIdTokenRe` captures at the start of a text; empty where it does not match
unfoldable pub reference : Text → Text
reference s = if has_prefix s (text "bulkId:") then token (drop 7 s) else []

-- `bulkIdTokenRe.FindAllStringSubmatch`; the number is what is left of the last match
unfoldable pub find_references : ℕ → Text → List Text
find_references skip [] = []
find_references (suc skip) (c ∷ s) = find_references skip s
find_references zero (c ∷ s) =
    let ref = reference (c ∷ s) in
    let next = find_references (if is_empty ref then 0 else length ref + 6) s in
    if is_empty ref then next else ref ∷ next

-- `if !seen[ref] { … append }`
unfoldable pub add_reference : List Text → Text → List Text
add_reference refs ref = if any (same ref) refs then refs else refs ++ ref ∷ []

unfoldable pub add_references : List Text → List Text → List Text
add_references refs [] = refs
add_references refs (ref ∷ more) = add_references (add_reference refs ref) more

-- `strings.ContainsAny(s, " \"'/][,")`
unfoldable pub has_separator : Text → Bool
has_separator s =
    any (λ c. c == b' ' || c == b'"' || c == 39 || c == b'/' || c == b']' || c == b'[' || c == b',')
      s

unfoldable pub walk_text : List Text → Text → List Text
walk_text refs s =
    let ref = drop 7 s in
    if has_prefix s (text "bulkId:") && not (has_separator ref)
    then (if is_empty ref then refs else add_reference refs ref)
    else add_references refs (find_references 0 s)

unfoldable mutual
  pub walk : List Text → Value → List Text
  walk refs (str s) = walk_text refs s
  walk refs (obj m) = walk_members refs m
  walk refs (arr vs) = walk_items refs vs
  walk refs _ = refs

  pub walk_members : List Text → Fields → List Text
  walk_members refs end = refs
  walk_members refs (field k v m) = walk_members (walk refs v) m

  pub walk_items : List Text → Items → List Text
  walk_items refs nil = refs
  walk_items refs (cons v vs) = walk_items (walk refs v) vs

unfoldable pub extract_bulk_id_refs : Value → List Text
extract_bulk_id_refs v = walk [] v

-- `bulkIdMap[key]`
unfoldable pub lookup_id {ℓ} : {V : Type ℓ} → List (Text × V) → Text → Option V
lookup_id [] key = none
lookup_id ((k, v) ∷ m) key = if same k key then some v else lookup_id m key

-- `len(bulkIdMap) == 0`
abbrev pub is_nil_map {ℓ} : {V : Type ℓ} → List (Text × V) → Bool
is_nil_map [] = true
is_nil_map (_ ∷ _) = false

-- `bulkIdTokenRe.ReplaceAllStringFunc`: what is left of the last match is skipped, and copied
-- where the match is kept
unfoldable pub replace_references : List (Text × Text) → Bool → ℕ → Text → Text
replace_references ids keep skip [] = []
replace_references ids keep (suc skip) (c ∷ s) =
    let rest = replace_references ids keep skip s in if keep then c ∷ rest else rest
replace_references ids keep zero (c ∷ s) =
    let ref = reference (c ∷ s) in
    let behind : ℕ = (if is_empty ref then 0 else length ref + 6) in
    let found : Option Text = (if is_empty ref then none else lookup_id ids ref) in
    let missing : Bool = elim found [ none ↦ true | some _ ↦ false ] in
    let rest = replace_references ids missing behind s in
    elim found [ none ↦ c ∷ rest | some id ↦ id ++ rest ]

unfoldable pub resolve_bulk_id_references : List (Text × Text) → Text → Text
resolve_bulk_id_references ids s =
    let whole : Option Text =
      (if has_prefix s (text "bulkId:") then lookup_id ids (drop 7 s) else none) in
    if is_nil_map ids || not (contains s (text "bulkId:"))
    then s
    else elim whole [ some resolved ↦ resolved | none ↦ replace_references ids true 0 s ]

unfoldable mutual
  pub resolve_value : List (Text × Text) → Value → Value
  resolve_value ids (str s) = str (resolve_bulk_id_references ids s)
  resolve_value ids (obj m) = obj (resolve_bulk_id_in_data ids m)
  resolve_value ids (arr vs) = arr (resolve_items ids vs)
  resolve_value ids v = v

  pub resolve_bulk_id_in_data : List (Text × Text) → Fields → Fields
  resolve_bulk_id_in_data ids end = end
  resolve_bulk_id_in_data ids (field k v m) =
      field k (resolve_value ids v) (resolve_bulk_id_in_data ids m)

  pub resolve_items : List (Text × Text) → Items → Items
  resolve_items ids nil = nil
  resolve_items ids (cons v vs) = cons (resolve_value ids v) (resolve_items ids vs)
