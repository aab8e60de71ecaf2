-- ===== src/Filter/Sound/Reads.antt =====
-- internal/scim/filter.go: the calls that only read tokens.
use scim_server_impl_go.Base.{
  ℕ, ◌≤◌, Option, none, some, List, [], ◌∷◌, ◌++◌, ◌≡◌, refl, inl, inr, Option-cases, if-keeps,
  if◌then◌else◌, arith, length,
}
use scim_server_impl_go.Text.{Text, is_empty, split_at, trim_space}
use scim_server_impl_go.Filter.{
  FilterResult, FilterParser, Outcome, parsed, refused, Token, peek, next, Parser, ◌>>=◌,
}
use scim_server_impl_go.Filter.ValuePath.{
  InnerToken, Brackets, add_inner, sub_attr_after, is_string_token, collect, read_brackets,
  read_sub_attr,
}
use scim_server_impl_go.Filter.Sound.{
  Built, Ensures, ensured, refusal, Ensures-after, Ensures-weaken, OnSome,
}
use scim_server_impl_go.Filter.Sound.Conditions.{Builds}

-- A step that takes no placeholder and gives back no token.
abbrev pub Reads : FilterParser → FilterParser → Type 0
Reads p p' = (p.param_idx ≡ p'.param_idx) × (length p'.tokens ≤ length p.tokens)

pub Reads-Built :
    (p p' : FilterParser) (m : Outcome FilterResult)
    → Reads p p'
    → Ensures (Built p') m
    → Ensures (Built p) m
Reads-Built p p' m h k = Ensures-weaken k (λ r q b. (rw h.0 b.0, omega arith, omega arith))

abbrev pub at : List Token → ℕ → FilterParser
at tokens n = record { tokens = tokens; param_idx = n }

next-at :
    (tokens : List Token) (n : ℕ) → Ensures (λ _ p'. Reads (at tokens n) p') (next (at tokens n))
unfolding next
next-at [] n = ensured (refl, omega arith)
next-at (t ∷ rest) n = ensured (refl, omega arith)

pub next-Reads : (p : FilterParser) → Ensures (λ _ p'. Reads p p') (next p)
next-Reads p = next-at p.tokens p.param_idx

peek-at :
    (tokens : List Token) (n : ℕ) → Ensures (λ _ p'. Reads (at tokens n) p') (peek (at tokens n))
unfolding peek
peek-at [] n = ensured (refl, omega arith)
peek-at (t ∷ rest) n = ensured (refl, omega arith)

pub peek-Reads : (p : FilterParser) → Ensures (λ _ p'. Reads p p') (peek p)
peek-Reads p = peek-at p.tokens p.param_idx

-- a method that reads, and then builds
pub read-Builds {ℓ} :
    {A : Type ℓ} (m : Parser A) (f : A → Parser FilterResult)
    → ((p : FilterParser) → Ensures (λ _ p'. Reads p p') (m p))
    → ((a : A) → Builds (f a))
    → Builds (m >>= f)
read-Builds m f h k p = Ensures-after f (h p) (λ a p' r. Reads-Built p p' _ r (k a p'))

collect-shorter :
    (inner : List InnerToken) (tokens : List Token)
    → OnSome (λ (r : Brackets × List Token). length r.1 ≤ length tokens) (collect inner tokens)
unfolding collect
collect-shorter inner [] = tt
collect-shorter inner (t ∷ rest) =
    go (if is_string_token t then none else split_at b']' t.val)
      (collect-shorter (inner ++ record { val = t.val; is_string = is_string_token t } ∷ []) rest)
  where
    longer :
        (o : Option (Brackets × List Token))
        → OnSome (λ (r : Brackets × List Token). length r.1 ≤ length rest) o
        → OnSome (λ (r : Brackets × List Token). length r.1 ≤ length (t ∷ rest)) o
    longer none h = tt
    longer (some r) h = omega (arith, h)

    go :
        (o : Option (Text × Text))
        → OnSome
            (λ (r : Brackets × List Token). length r.1 ≤ length rest)
            (collect (inner ++ record { val = t.val; is_string = is_string_token t } ∷ []) rest)
        → OnSome
            (λ (r : Brackets × List Token). length r.1 ≤ length (t ∷ rest))
            (elim o [
              | some (before, after) ↦ some (
                record {
                  inner = add_inner inner (trim_space before);
                  sub_attr = sub_attr_after after;
                },
                rest,
              )
              | none ↦
                  collect (inner ++ record { val = t.val; is_string = is_string_token t } ∷ []) rest
            ])
    go (some (a, b)) h = omega arith
    go none h = longer _ h

pub read_brackets-Reads :
    (s : Text) (p : FilterParser) → Ensures (λ _ p'. Reads p p') (read_brackets s p)
unfolding read_brackets
read_brackets-Reads s p = elim (Option-cases (split_at b']' s)) [
  | inr ((a, b), e) ↦ rw (e, read_brackets) (ensured (refl, omega arith))
  | inl e ↦
      rw (e, read_brackets)
        (go _ (collect-shorter (if is_empty (trim_space s) then [] else add_inner [] s) p.tokens))
]
  where
    go :
        (o : Option (Brackets × List Token))
        → OnSome (λ (r : Brackets × List Token). length r.1 ≤ length p.tokens) o
        → Ensures
            (λ _ p'. Reads p p')
            (elim o [ none ↦ refused | some (b, rest) ↦ parsed b (record p { tokens = rest }) ])
    go none h = refusal
    go (some r) h = ensured (refl, h)

read_sub_attr-at :
    (s : Text) (tokens : List Token) (n : ℕ)
    → Ensures (λ _ p'. Reads (at tokens n) p') (read_sub_attr s (at tokens n))
unfolding read_sub_attr
read_sub_attr-at s [] n = ensured (refl, omega arith)
read_sub_attr-at s (t ∷ rest) n =
    if-keeps (Ensures (λ _ p'. Reads (at (t ∷ rest) n) p')) _ (ensured (refl, omega arith))
      (ensured (refl, omega arith))

pub read_sub_attr-Reads :
    (s : Text) (p : FilterParser) → Ensures (λ _ p'. Reads p p') (read_sub_attr s p)
read_sub_attr-Reads s p = read_sub_attr-at s p.tokens p.param_idx
