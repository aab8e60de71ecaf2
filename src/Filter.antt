-- ===== src/Filter.antt =====
-- internal/scim/filter.go: what the filter parser reads, keeps and returns. A SQL text is the list of
-- the pieces that the code puts together: a constant of the source, a text of the request, or a
-- placeholder. An error of the parser is `refused`, without its message.
pub mod Tokens
pub mod Attributes
pub mod Conditions
pub mod Elements
pub mod Comparison
pub mod ValuePath
pub mod Parser
pub mod Sort
pub mod Sound
pub mod Like
use scim_server_impl_go.Base.{
  ℕ, zero, suc, ◌+◌, String, Bool, true, false, Option, none, some, List, [], ◌∷◌, ◌++◌,
  if◌then◌else◌,
}
use scim_server_impl_go.Text.{Text, text}
use scim_server_impl_go.Cursor.{digits}

pub data Piece : Type 0 where
  lit : String → Piece
  dyn : Text → Piece
  placeholder : ℕ → Piece

pub data Arg : Type 0 where
  text_arg : Text → Arg
  bool_arg : Bool → Arg

-- `FilterResult`
pub record FilterResult : Type 0 where
  pub sql : List Piece
  pub args : List Arg

-- the text of `SQL`
unfoldable pub render : List Piece → Text
render [] = []
render (lit s ∷ sql) = text s ++ render sql
render (dyn s ∷ sql) = s ++ render sql
render (placeholder n ∷ sql) = b'$' ∷ (digits n n ++ render sql)

pub data TokenType : Type 0 where
  token_word token_string token_lparen token_rparen : TokenType

pub record Token : Type 0 where
  pub typ : TokenType
  pub val : Text

pub data EntityType : Type 0 where
  user group : EntityType

-- `filterParser`: the tokens from `pos` on, and the fields that change. The others are a `Target`.
pub record FilterParser : Type 0 where
  pub tokens : List Token
  pub param_idx : ℕ

-- `entityType` and `crossResource`
pub record Target : Type 0 where
  pub entity_type : EntityType
  pub cross_resource : Bool

-- What a method of the parser gives. The recursion has fuel, and `exhausted` is its end.
pub data Outcome {ℓ} (A : Type ℓ) : Type ℓ where
  parsed : A → FilterParser → Outcome A
  refused : Outcome A
  exhausted : Outcome A

abbrev pub Parser {ℓ} : Type ℓ → Type ℓ
Parser A = FilterParser → Outcome A

abbrev pub after {ℓ κ} : {A : Type ℓ} {B : Type κ} → Outcome A → (A → Parser B) → Outcome B
after (parsed a p) f = f a p
after refused f = refused
after exhausted f = exhausted

-- a call, `if err != nil { return nil, err }`, and the rest
infixl 5 ◌>>=◌
abbrev pub ◌>>=◌ {ℓ κ} : {A : Type ℓ} {B : Type κ} → Parser A → (A → Parser B) → Parser B
m >>= f = λ p. after (m p) f

abbrev pub give {ℓ} : {A : Type ℓ} → A → Parser A
give a p = parsed a p

abbrev pub refuse {ℓ} : {A : Type ℓ} → Parser A
refuse p = refused

-- an error of a function that is no method
abbrev pub or_refuse {ℓ} : {A : Type ℓ} → Option A → Parser A
or_refuse (some a) p = parsed a p
or_refuse none p = refused

unfoldable pub peek : Parser (Option Token)
peek p = elim p.tokens [ [] ↦ parsed none p | t ∷ _ ↦ parsed (some t) p ]

unfoldable pub next : Parser (Option Token)
next p = elim p.tokens [
  | [] ↦ parsed none p
  | t ∷ rest ↦ parsed (some t) (record p { tokens = rest })
]

unfoldable pub next_param : Parser Piece
next_param p = parsed (placeholder p.param_idx) (record p { param_idx = suc p.param_idx })

-- `t != nil && t.typ == tokenWord`
abbrev pub is_word : Option Token → Bool
is_word none = false
is_word (some t) = elim t.typ [ token_word ↦ true | _ ↦ false ]
