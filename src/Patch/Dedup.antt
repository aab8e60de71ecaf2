-- ===== src/Patch/Dedup.antt =====
-- internal/scim/patch.go: `DeduplicateEmails` and its seven siblings. They are one loop over the key
-- of an element, and differ in that key.
pub mod Laws
pub mod Distinct
use scim_server_impl_go.Base.{
  ℕ, zero, suc, ◌≡◌, refl, Bool, true, false, Option, none, some, List, [], ◌∷◌, ◌++◌,
  if◌then◌else◌, length,
}
use scim_server_impl_go.Text.{Text, same, to_lower, trim_space}
use scim_server_impl_go.Model.{Item, Address}

-- What the loops of patch.go read and write of an element type.
pub record Keyed (A : Type 0) : Type 0 where
  pub key : A → Text
  pub primary : A → Bool
  -- `e.PrimaryFlag = b`
  pub set_primary : Bool → A → A
  pub key-set_primary : (b : Bool) (a : A) → key (set_primary b a) ≡ key a
  pub primary-set_primary : (b : Bool) (a : A) → primary (set_primary b a) ≡ b

-- `idx, found := seen[key]`
unfoldable pub seen_at : List (Text × ℕ) → Text → Option ℕ
unfolding same
seen_at [] key = none
seen_at ((k, i) ∷ seen) key = if same k key then some i else seen_at seen key

module _ {A : Type 0} (t : Keyed A) where
  -- `result[idx].PrimaryFlag = true`
  unfoldable pub promote : List A → ℕ → List A
  promote [] i = []
  promote (a ∷ l) zero = t.set_primary true a ∷ l
  promote (a ∷ l) (suc i) = a ∷ promote l i

  unfoldable pub dedup_loop : List A → List (Text × ℕ) → List A → List A
  unfolding promote seen_at
  dedup_loop result seen [] = result
  dedup_loop result seen (a ∷ l) = elim (seen_at seen (t.key a)) [
    | some idx ↦ dedup_loop (if t.primary a then promote result idx else result) seen l
    | none ↦ dedup_loop (result ++ a ∷ []) ((t.key a, length result) ∷ seen) l
  ]

  unfoldable pub deduplicate : List A → List A
  unfolding dedup_loop
  deduplicate [] = []
  deduplicate (a ∷ []) = a ∷ []
  deduplicate (a ∷ b ∷ l) = dedup_loop [] [] (a ∷ b ∷ l)

abbrev norm : Text → Text
norm s = to_lower (trim_space s)

-- the key of emails, phone numbers, ims, entitlements and roles
unfoldable pub folded_key : Item → Text
unfolding to_lower trim_space
folded_key i = norm i.typ ++ 0 ∷ norm i.value

-- the key of photos and certificates, whose values differ by case
unfoldable pub exact_key : Item → Text
unfolding to_lower trim_space
exact_key i = norm i.typ ++ 0 ∷ trim_space i.value

unfoldable pub address_key : Address → Text
unfolding to_lower trim_space
address_key a =
    norm a.typ
    ++ 0
      ∷ (norm a.formatted
          ++ 0
            ∷ (norm a.street_address
                ++ 0
                  ∷ (norm a.locality
                      ++ 0 ∷ (norm a.region ++ 0 ∷ (norm a.postal_code ++ 0 ∷ norm a.country)))))

pub folded_key-set :
    (b : Bool) (i : Item) → folded_key (record i { primary_flag = b }) ≡ folded_key i
unfolding folded_key
folded_key-set b i = refl

pub exact_key-set : (b : Bool) (i : Item) → exact_key (record i { primary_flag = b }) ≡ exact_key i
unfolding exact_key
exact_key-set b i = refl

pub address_key-set :
    (b : Bool) (a : Address) → address_key (record a { primary_flag = b }) ≡ address_key a
unfolding address_key
address_key-set b a = refl

abbrev pub folded : Keyed Item
folded = record {
  key = folded_key;
  primary = λ i. i.primary_flag;
  set_primary = λ b i. record i { primary_flag = b };
  key-set_primary = folded_key-set;
  primary-set_primary = λ b i. refl;
}

abbrev pub exact : Keyed Item
exact = record {
  key = exact_key;
  primary = λ i. i.primary_flag;
  set_primary = λ b i. record i { primary_flag = b };
  key-set_primary = exact_key-set;
  primary-set_primary = λ b i. refl;
}

abbrev pub by_address : Keyed Address
by_address = record {
  key = address_key;
  primary = λ a. a.primary_flag;
  set_primary = λ b a. record a { primary_flag = b };
  key-set_primary = address_key-set;
  primary-set_primary = λ b a. refl;
}

abbrev pub deduplicate_emails : List Item → List Item
deduplicate_emails = deduplicate folded

abbrev pub deduplicate_phone_numbers : List Item → List Item
deduplicate_phone_numbers = deduplicate folded

abbrev pub deduplicate_ims : List Item → List Item
deduplicate_ims = deduplicate folded

abbrev pub deduplicate_photos : List Item → List Item
deduplicate_photos = deduplicate exact

abbrev pub deduplicate_entitlements : List Item → List Item
deduplicate_entitlements = deduplicate folded

abbrev pub deduplicate_roles : List Item → List Item
deduplicate_roles = deduplicate folded

abbrev pub deduplicate_x509_certificates : List Item → List Item
deduplicate_x509_certificates = deduplicate exact

abbrev pub deduplicate_addresses : List Address → List Address
deduplicate_addresses = deduplicate by_address
