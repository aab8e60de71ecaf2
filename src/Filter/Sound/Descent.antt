-- ===== src/Filter/Sound/Descent.antt =====
-- internal/scim/filter.go: the recursive descent takes at least one token for each operand, and so
-- its fuel is enough.
use scim_server_impl_go.Base.{
  ℕ, zero, suc, ◌+◌, ◌<◌, String, Option, none, some, List, [], ◌∷◌, ◌≡◌, refl, inl, inr,
  Option-cases, if-keeps, if◌then◌else◌, arith, length, length-append,
}
use scim_server_impl_go.Text.{Text, to_lower, split_at}
use scim_server_impl_go.External.{External}
use scim_server_impl_go.Filter.{
  FilterResult, FilterParser, Outcome, Token, is_word, peek, next, Parser, ◌>>=◌, give, after,
  refuse, Target, token_word, token_string, token_lparen, token_rparen, TokenType,
}
use scim_server_impl_go.Filter.Attributes.{strip_entity_urn_prefix}
use scim_server_impl_go.Filter.Comparison.{Times, build_comparison_with_raw, build_present_filter}
use scim_server_impl_go.Filter.ValuePath.{parse_value_path_filter}
use scim_server_impl_go.Filter.Parser.{
  is_keyword, is_type, combined, negated, chain, parse_chain, close_paren, operator_part, atom_from,
  parse_atom, parse_not, parse_or_expression,
}
use scim_server_impl_go.Filter.Sound.{
  Numbered-append, Built, Ensures, ensured, refusal, Ensures-after, Ensures-weaken,
}
use scim_server_impl_go.Filter.Sound.Conditions.{Builds}
use scim_server_impl_go.Filter.Sound.Comparison.{
  build_present_filter-Builds, build_comparison_with_raw-Builds,
}
use scim_server_impl_go.Filter.Sound.ValuePath.{parse_value_path_filter-Builds}
use scim_server_impl_go.Filter.Sound.Reads.{next-Reads, read-Builds, at}

-- a result, for which a token was taken
abbrev pub Consumes : FilterParser → FilterResult → FilterParser → Type 0
Consumes p r p' = Built p r p' × (length p'.tokens < length p.tokens)

-- A method that builds and consumes, and does not run out of fuel, where less than `n` tokens are left.
abbrev pub Descends : ℕ → Parser FilterResult → Type 0
Descends n m = (p : FilterParser) → length p.tokens < n → Ensures (Consumes p) (m p)

-- what a method builds behind a token that was taken
taken :
    (t : Token) (rest : List Token) (k : ℕ) (m : Parser FilterResult)
    → Builds m
    → Ensures (Consumes (at (t ∷ rest) k)) (m (at rest k))
taken t rest k m h =
    Ensures-weaken (h (at rest k)) (λ r p' b. ((b.0, b.1, omega arith), omega arith))

combined-Built :
    (op : String) (p q r : FilterParser) (left right : FilterResult)
    → Built p left q
    → Built q right r
    → Built p (combined op left right) r
unfolding combined
combined-Built op p q r left right h k = (
  Numbered-append p.param_idx q.param_idx r.param_idx left.sql _ h.0
      (Numbered-append q.param_idx r.param_idx r.param_idx right.sql _ k.0 refl),
  omega (arith, length-append left.args right.args),
  omega arith,
)

negated-Built :
    (p q : FilterParser) (inner : FilterResult) → Built p inner q → Built p (negated inner) q
unfolding negated
negated-Built p q inner h =
    (Numbered-append p.param_idx q.param_idx q.param_idx inner.sql _ h.0 refl, h.1, h.2)

module _ (word op : String) (operand : Parser FilterResult) (n : ℕ) (h : Descends n operand) where
  chain-Consumes :
      (rounds : ℕ) (left : FilterResult) (p0 : FilterParser) (tokens : List Token) (k : ℕ)
      → Consumes p0 left (at tokens k)
      → length tokens < rounds
      → length tokens < n
      → Ensures (Consumes p0) (chain word op operand rounds left (at tokens k))
  unfolding chain peek next
  chain-Consumes zero left p0 tokens k c fuel few = absurd (omega arith)
  chain-Consumes (suc rounds) left p0 [] k c fuel few = ensured c
  chain-Consumes (suc rounds) left p0 (t ∷ rest) k c fuel few =
      if-keeps (λ (m : Parser FilterResult). Ensures (Consumes p0) (m (at (t ∷ rest) k)))
        (is_keyword word (some t))
        (Ensures-after _ (h (at rest k) (omega arith)) (λ right p d.
          chain-Consumes rounds (combined op left right) p0 p.tokens p.param_idx
            (
              combined-Built op p0 (at rest k) p left right (c.0.0, c.0.1, omega arith) d.0,
              omega arith,
            )
            (omega arith) (omega arith)))
        (ensured c)

  parse_chain-Descends : Descends n (parse_chain word op operand)
  unfolding parse_chain
  parse_chain-Descends p few = Ensures-after _ (h p few) (λ left q c.
      chain-Consumes (length p.tokens + 1) left p q.tokens q.param_idx c (omega arith)
        (omega arith))

close_paren-Consumes :
    (p0 : FilterParser) (inner : FilterResult) (p : FilterParser)
    → Consumes p0 inner p
    → Ensures (Consumes p0) (close_paren inner p)
unfolding close_paren
close_paren-Consumes p0 inner p c = Ensures-after _ (next-Reads p) (λ token q r.
    if-keeps (λ (m : Parser FilterResult). Ensures (Consumes p0) (m q)) (is_type token_rparen token)
      (ensured ((rw (← r.0) c.0.0, omega arith, omega arith), omega arith)) refusal)

negated-Consumes :
    (p0 : FilterParser) (m : Outcome FilterResult)
    → Ensures (Consumes p0) m
    → Ensures (Consumes p0) (after m (λ inner. give (negated inner)))
negated-Consumes p0 m h =
    Ensures-after _ h (λ inner q c. ensured (negated-Built p0 q inner c.0, c.1))

module _ (x : External) (times : Times) (t : Target) where
  operator_part-Builds : (raw attr : Text) → Builds (operator_part x times t raw attr)
  unfolding operator_part
  operator_part-Builds raw attr = read-Builds next _ next-Reads go
    where
      value_part :
          (o : Option Token) (operator : Text)
          → Builds (elim o [
            | none ↦ refuse
            | some v ↦ build_comparison_with_raw x times t raw attr operator v.val
          ])
      value_part none operator = λ p. refusal
      value_part (some v) operator =
          build_comparison_with_raw-Builds x times t raw attr operator v.val

      go :
          (o : Option Token)
          → Builds (elim o [
            | none ↦ refuse
            | some op ↦
                if is_keyword "pr" (some op)
                then build_present_filter t raw attr
                else if is_word (some op)
                then (next >>= λ value. elim value [
                  | none ↦ refuse
                  | some v ↦ build_comparison_with_raw x times t raw attr (to_lower op.val) v.val
                ])
                else refuse
          ])
      go none = λ p. refusal
      go (some op) =
          if-keeps Builds (is_keyword "pr" (some op)) (build_present_filter-Builds t raw attr) (
            if-keeps Builds (is_word (some op))
              (read-Builds next _ next-Reads (λ o. value_part o (to_lower op.val))) (λ p. refusal))

  word_part-Builds :
      (a : Text)
      → Builds (elim (split_at b'[' a) [
        | some (collection, filter_start) ↦ parse_value_path_filter t collection filter_start
        | none ↦ operator_part x times t a (strip_entity_urn_prefix t.entity_type a)
      ])
  word_part-Builds a = elim (Option-cases (split_at b'[' a)) [
    | inl e ↦ rw e (operator_part-Builds a (strip_entity_urn_prefix t.entity_type a))
    | inr ((collection, filter_start), e) ↦
        rw e (parse_value_path_filter-Builds t collection filter_start)
  ]

  module _ (parse_or : Parser FilterResult) (n : ℕ) (h : Descends n parse_or) where
    -- an expression in parentheses, behind tokens that were taken
    parenthesized :
        (p0 : FilterParser) (rest : List Token) (k : ℕ)
        → p0.param_idx ≡ k
        → length rest < length p0.tokens
        → length rest < n
        → Ensures (Consumes p0) (after (parse_or (at rest k)) close_paren)
    parenthesized p0 rest k e shorter few = Ensures-after _ (h (at rest k) few) (λ inner q c.
        close_paren-Consumes p0 inner q ((rw e c.0.0, omega arith, omega arith), omega arith))

    atom_from-Consumes :
        (t0 : Token) (y : TokenType) (val : Text) (rest : List Token) (k : ℕ)
        → length rest < n
        → Ensures (Consumes (at (t0 ∷ rest) k)) (atom_from x times t parse_or y val (at rest k))
    unfolding atom_from
    atom_from-Consumes t0 token_lparen val rest k few =
        parenthesized (at (t0 ∷ rest) k) rest k refl (omega arith) few
    atom_from-Consumes t0 token_word val rest k few = taken t0 rest k _ (word_part-Builds val)
    atom_from-Consumes t0 token_string val rest k few = refusal
    atom_from-Consumes t0 token_rparen val rest k few = refusal

    parse_atom-at :
        (tokens : List Token) (k : ℕ)
        → length tokens < suc n
        → Ensures (Consumes (at tokens k)) (parse_atom x times t parse_or (at tokens k))
    unfolding parse_atom next
    parse_atom-at [] k few = refusal
    parse_atom-at (t0 ∷ rest) k few = atom_from-Consumes t0 t0.typ t0.val rest k (omega arith)

    -- `not` of an atom
    negated_atom :
        (t0 : Token) (rest : List Token) (k : ℕ)
        → length rest < n
        → Ensures
            (Consumes (at (t0 ∷ rest) k))
            (after (parse_atom x times t parse_or (at rest k)) (λ inner. give (negated inner)))
    negated_atom t0 rest k few = negated-Consumes (at (t0 ∷ rest) k) _ (
        Ensures-weaken (parse_atom-at rest k (omega arith))
          (λ r p' c. ((c.0.0, c.0.1, omega arith), omega arith)))

    parse_not-at :
        (tokens : List Token) (k : ℕ)
        → length tokens < suc n
        → Ensures (Consumes (at tokens k)) (parse_not x times t parse_or (at tokens k))
    unfolding parse_not next peek
    parse_not-at [] k few = parse_atom-at [] k few
    parse_not-at (t0 ∷ []) k few =
        if-keeps
          (λ (m : Parser FilterResult). Ensures (Consumes (at (t0 ∷ []) k)) (m (at (t0 ∷ []) k)))
          (is_keyword "not" (some t0)) (negated_atom t0 [] k (omega arith))
          (parse_atom-at (t0 ∷ []) k few)
    parse_not-at (t0 ∷ t1 ∷ rest) k few =
        if-keeps
          (λ (m : Parser FilterResult).
            Ensures (Consumes (at (t0 ∷ t1 ∷ rest) k)) (m (at (t0 ∷ t1 ∷ rest) k)))
          (is_keyword "not" (some t0))
          (if-keeps
            (λ (m : Parser FilterResult).
              Ensures (Consumes (at (t0 ∷ t1 ∷ rest) k)) (m (at (t1 ∷ rest) k)))
            (is_type token_lparen (some t1))
            (negated-Consumes (at (t0 ∷ t1 ∷ rest) k) _
              (parenthesized (at (t0 ∷ t1 ∷ rest) k) rest k refl (omega arith) (omega arith)))
            (negated_atom t0 (t1 ∷ rest) k (omega arith)))
          (parse_atom-at (t0 ∷ t1 ∷ rest) k few)

    parse_not-Descends : Descends (suc n) (parse_not x times t parse_or)
    parse_not-Descends p few = parse_not-at p.tokens p.param_idx few

  pub parse_or_expression-Descends : (n : ℕ) → Descends n (parse_or_expression x times t n)
  unfolding parse_or_expression
  parse_or_expression-Descends zero = λ p few. absurd (omega arith)
  parse_or_expression-Descends (suc n) = parse_chain-Descends "or" " OR " _ (suc n) (
      parse_chain-Descends "and" " AND " _ (suc n)
        (parse_not-Descends (parse_or_expression x times t n) n (parse_or_expression-Descends n)))
