-- ===== src/Filter/Sound/Elements.antt =====
-- internal/scim/filter.go: the conditions on an element of a collection.
use scim_server_impl_go.Base.{
  ℕ, suc, String, Bool, not, ◌&&◌, Option, none, some, List, refl, if-keeps, arith, length,
}
use scim_server_impl_go.Text.{Text, same}
use scim_server_impl_go.Filter.{
  Piece, lit, placeholder, FilterParser, refused, Parser, next_param, or_refuse, ◌>>=◌,
}
use scim_server_impl_go.Filter.Attributes.{resolve_sub_attribute, one_of}
use scim_server_impl_go.Filter.Elements.{
  elem_cases, Condition, bool_elem_condition, text_elem_condition, build_elem_condition,
  is_bool_text, exists_elem, json_attribute_filter, build_json_attribute_filter,
}
use scim_server_impl_go.Filter.Sound.{
  Numbered-append, Step, Ensures, ensured, refusal, Ensures-after,
}
use scim_server_impl_go.Filter.Sound.Conditions.{elem_cases-OneAt, one_taken, Builds}

-- a call whose condition has the placeholders that it took
abbrev pub Took : FilterParser → Condition → FilterParser → Type 0
Took p c p' = Step c.0 (length c.1) p p'

-- A method whose every condition is of this kind.
abbrev pub Takes : Parser Condition → Type 0
Takes m = (p : FilterParser) → Ensures (Took p) (m p)

bool_elem_condition-Takes :
    (key : String) (op val : Text) → Takes (bool_elem_condition (lit key) op val)
unfolding bool_elem_condition next_param
bool_elem_condition-Takes key op val =
    if-keeps Takes (not (one_of op _)) (λ p. refusal)
      (if-keeps Takes (same op _) (λ p. ensured (refl, omega arith, omega arith))
        (if-keeps Takes (not (is_bool_text val)) (λ p. refusal)
          (λ p. ensured (
            if-keeps (λ sql. Step sql 1 p (record p { param_idx = suc p.param_idx })) (same op _)
              ((refl, refl), omega arith, omega arith) ((refl, refl), omega arith, omega arith)))))

text_elem_condition-Takes :
    (key : String) (op val : Text) → Takes (text_elem_condition (lit key) op val)
unfolding text_elem_condition next_param
text_elem_condition-Takes key op val =
    if-keeps Takes (same op _) (λ p. ensured (refl, omega arith, omega arith))
      (λ p.
        Ensures-after _
          (one_taken (elem_cases (lit key) op val (placeholder p.param_idx)) p
            (elem_cases-OneAt key op val p.param_idx))
          (λ c p' h. ensured h))

-- a value that may be missing, and what uses it
pub or_refuse-bind {ℓ κ} :
    {A : Type ℓ} {B : Type κ} (P : Parser B → Type 0) (o : Option A) (f : A → Parser B)
    → P (λ p. refused)
    → ((a : A) → P (f a))
    → P (or_refuse o >>= f)
or_refuse-bind P none f d h = d
or_refuse-bind P (some a) f d h = h a

pub build_elem_condition-Takes :
    (collection_attr attr op val : Text) → Takes (build_elem_condition collection_attr attr op val)
unfolding build_elem_condition
build_elem_condition-Takes collection_attr attr op val =
    or_refuse-bind Takes (resolve_sub_attribute collection_attr attr) _ (λ p. refusal)
      (λ (key, is_bool).
        if-keeps Takes is_bool (bool_elem_condition-Takes key op val)
          (text_elem_condition-Takes key op val))

pub exists_elem-Step :
    (s : String) (cond : List Piece) (n : ℕ) (p p' : FilterParser)
    → Step cond n p p'
    → Step (exists_elem (lit s) cond) n p p'
exists_elem-Step s cond n p p' h =
    (Numbered-append p.param_idx p'.param_idx p'.param_idx cond _ h.0 refl, h.1, h.2)

json_attribute_filter-Builds :
    (s : String) (collection_name sub_attr operator value : Text) (key : String) (is_bool : Bool)
    → Builds
        (json_attribute_filter (lit s) collection_name sub_attr operator value (lit key) is_bool)
unfolding json_attribute_filter next_param
json_attribute_filter-Builds s collection_name sub_attr operator value key is_bool =
    if-keeps Builds (is_bool && not (one_of operator _)) (λ p. refusal)
      (if-keeps Builds (is_bool && same operator _ && not (is_bool_text value)) (λ p. refusal)
        (if-keeps Builds (same operator _) (λ p. ensured (refl, omega arith, omega arith))
          (if-keeps Builds is_bool (λ p. ensured ((refl, refl), omega arith, omega arith))
            (if-keeps Builds (one_of operator _)
              (λ p.
                Ensures-after _
                  (build_elem_condition-Takes collection_name sub_attr operator value p)
                  (λ c p' h. ensured (exists_elem-Step s c.0 (length c.1) p p' h)))
              (λ p. refusal)))))

pub build_json_attribute_filter-Builds :
    (s : String) (collection_name sub_attr operator value : Text)
    → Builds (build_json_attribute_filter (lit s) collection_name sub_attr operator value)
unfolding build_json_attribute_filter
build_json_attribute_filter-Builds s collection_name sub_attr operator value =
    or_refuse-bind Builds (resolve_sub_attribute collection_name sub_attr) _ (λ p. refusal)
      (λ (key, is_bool).
        json_attribute_filter-Builds s collection_name sub_attr operator value key is_bool)
