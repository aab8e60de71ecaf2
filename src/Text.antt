-- ===== src/Text.antt =====
-- Go's texts as lists of code points, and what the program uses of the package `strings`.
-- The case tables hold ASCII, Latin-1, Greek, Cyrillic and every code point whose lower case or
-- fold is ASCII; other letters are left alone. No code compares such a letter with a literal.
pub mod Laws
pub mod Trim
use Prim.Native.Char.{code}
use scim_server_impl_go.Base.{
  ℕ, zero, suc, ◌+◌, ◌-◌, String, Bool, true, false, not, ◌&&◌, ◌||◌, Option, none, some, List, [],
  ◌∷◌, ◌++◌, map, leb, ◌==◌, if◌then◌else◌, any,
}

abbrev pub Text : Type 0
Text = List ℕ

-- A Go string literal. It stays shut in proofs, so that a literal is one term there.
unfoldable pub text : String → Text
text String.[] = []
text (String.◌∷◌ c s) = code c ∷ text s

-- `s == ""`
abbrev pub is_empty : Text → Bool
is_empty [] = true
is_empty (_ ∷ _) = false

-- `s == t`
unfoldable pub same : Text → Text → Bool
same [] [] = true
same [] (_ ∷ _) = false
same (_ ∷ _) [] = false
same (a ∷ s) (b ∷ t) = a == b && same s t

abbrev within : ℕ → ℕ → ℕ → Bool
within lo hi c = leb lo c && leb c hi

-- `unicode.ToLower`
unfoldable pub lower_rune : ℕ → ℕ
lower_rune c =
    if within b'A' b'Z' c
    then c + 32
    else if c == 0x130
    then b'i'
    else if c == 0x212a
    then b'k'
    else if within 0xc0 0xde c && not (c == 0xd7)
    then c + 32
    else if within 0x391 0x3a9 c || within 0x410 0x42f c
    then c + 32
    else if within 0x400 0x40f c
    then c + 80
    else c

-- `strings.ToLower`
unfoldable pub to_lower : Text → Text
unfolding lower_rune
to_lower = map lower_rune

-- `unicode.ToUpper`
unfoldable pub upper_rune : ℕ → ℕ
upper_rune c =
    if within b'a' b'z' c
    then c - 32
    else if c == 0x131
    then b'I'
    else if c == 0x17f
    then b'S'
    else if within 0xe0 0xfe c && not (c == 0xf7)
    then c - 32
    else if within 0x3b1 0x3c9 c && not (c == 0x3c2) || within 0x430 0x44f c
    then c - 32
    else if within 0x450 0x45f c
    then c - 80
    else c

-- `strings.ToUpper`
unfoldable pub to_upper : Text → Text
unfolding upper_rune
to_upper = map upper_rune

-- One representative of the `unicode.SimpleFold` orbit: U+0130 is alone in its orbit.
unfoldable pub fold_rune : ℕ → ℕ
unfolding lower_rune
fold_rune c = if c == 0x130 then c else if c == 0x17f then b's' else lower_rune c

-- `strings.EqualFold`
unfoldable pub equal_fold : Text → Text → Bool
unfolding same fold_rune
equal_fold s t = same (map fold_rune s) (map fold_rune t)

-- `unicode.IsSpace`
unfoldable pub is_space : ℕ → Bool
is_space c =
    within 9 13 c
    || c == b' '
    || c == 0x85
    || c == 0xa0
    || c == 0x1680
    || within 0x2000 0x200a c
    || c == 0x2028
    || c == 0x2029
    || c == 0x202f
    || c == 0x205f
    || c == 0x3000

-- `strings.TrimLeftFunc`
unfoldable pub trim_left : (ℕ → Bool) → Text → Text
trim_left p [] = []
trim_left p (c ∷ s) = let rest = trim_left p s in if p c then rest else c ∷ s

-- `strings.TrimRightFunc`
unfoldable pub trim_right : (ℕ → Bool) → Text → Text
trim_right p [] = []
trim_right p (c ∷ s) = let rest = trim_right p s in if is_empty rest && p c then [] else c ∷ rest

-- `strings.TrimSpace`
unfoldable pub trim_space : Text → Text
unfolding is_space trim_left trim_right
trim_space s = trim_right is_space (trim_left is_space s)

-- `strings.HasPrefix`
unfoldable pub has_prefix : Text → Text → Bool
has_prefix s [] = true
has_prefix [] (_ ∷ _) = false
has_prefix (a ∷ s) (b ∷ p) = a == b && has_prefix s p

-- `strings.Contains` of one byte
unfoldable pub contains_byte : Text → ℕ → Bool
contains_byte s b = any (λ c. c == b) s

-- `strings.SplitN(s, sep, 2)` for a separator of one byte that the text contains
unfoldable pub split_at : ℕ → Text → Option (Text × Text)
split_at sep [] = none
split_at sep (c ∷ s) =
    if c == sep
    then some ([], s)
    else elim (split_at sep s) [ none ↦ none | some (a, b) ↦ some (c ∷ a, b) ]

-- The bytes of a code point in UTF-8.
unfoldable pub width : ℕ → ℕ
width c = if leb c 0x7f then 1 else if leb c 0x7ff then 2 else if leb c 0xffff then 3 else 4

-- `len(s)`, which counts bytes
unfoldable pub byte_len : Text → ℕ
unfolding width
byte_len [] = 0
byte_len (c ∷ s) = width c + byte_len s

unfoldable pub invalid : ℕ → Text
invalid zero = []
invalid (suc n) = 0xfffd ∷ invalid n

-- `s[n:]`. A cut inside of a code point leaves bytes that each decode as U+FFFD.
unfoldable pub drop_bytes : ℕ → Text → Text
unfolding width invalid
drop_bytes n [] = []
drop_bytes n (c ∷ s) =
    let rest = drop_bytes (n - width c) s in
    if n == 0 then c ∷ s else if leb (width c) n then rest else invalid (width c - n) ++ s

-- `switch key { case …: … default: … }` over texts: the first case that holds.
unfoldable pub switch {ℓ} : {A : Type ℓ} → Text → List (String × A) → A → A
unfolding same text
switch key [] default = default
switch key ((k, a) ∷ cases) default = if same key (text k) then a else switch key cases default

-- membership in a `map[string]bool` literal
unfoldable pub in_set : List String → Text → Bool
unfolding same text
in_set names key = any (λ k. same key (text k)) names
