-- ===== src/Parser/State.antt =====
-- internal/parser/parser.go: the state, the errors, and the routines that read one token. The lexer
-- is a parameter: a state `S` and `next`, which is `NextToken`; `none` is the end of the fuel, here
-- and in the parser. `prevToken`, which only spans use, is left out, as they are.
use go_flux.Base.{
  ℕ, zero, suc, Bool, true, false, not, ◌&&◌, Option, none, some, List, [], ◌∷◌, ◌++◌,
}
use go_flux.Token.{TokenType, newline, eof, l_brace, r_paren, Token, Position, is}

-- The messages of the parser.
pub data Message : Type 0 where
  expected_next : TokenType → TokenType → Message
  unexpected : TokenType → Message
  expected_in invalid_binding expected_parameter expected_rparen : Message
  unclosed_range unclosed_array expected_expression invalid_key unclosed_object : Message
  unclosed_list : TokenType → Message

pub record ParseError : Type 0 where
  pub at : Position
  pub message : Message

pub record Parser (S : Type 0) : Type 0 where
  pub lexer : S
  pub cur : Token
  pub peek : Token
  pub errors : List ParseError

abbrev pub M : Type 0 → Type 0 → Type 0
M S A = Parser S → Option (A × Parser S)

abbrev pub pure : {S A : Type 0} → A → M S A
pure a p = some (a, p)

abbrev pub bind_result :
    {S A B : Type 0} → Option (A × Parser S) → (A → M S B) → Option (B × Parser S)
bind_result none f = none
bind_result (some (a, p)) f = f a p

infixl 1 ◌>>=◌ ◌>>◌
abbrev pub ◌>>=◌ : {S A B : Type 0} → M S A → (A → M S B) → M S B
m >>= f = λ p. bind_result (m p) f

abbrev pub ◌>>◌ : {S A B : Type 0} → M S A → M S B → M S B
m >> n = m >>= λ _. n

-- A branch on the state.
abbrev pub test : {S A : Type 0} → (Parser S → Bool) → M S A → M S A → M S A
test c yes_m no_m p = elim (c p) [ true ↦ yes_m p | false ↦ no_m p ]

module _ {S : Type 0} where
  abbrev pub cur_is : TokenType → Parser S → Bool
  cur_is t p = is t p.cur.type

  abbrev pub peek_is : TokenType → Parser S → Bool
  peek_is t p = is t p.peek.type

  abbrev pub cur_type : M S TokenType
  cur_type p = some (p.cur.type, p)

  abbrev pub cur_literal : M S (List ℕ)
  cur_literal p = some (p.cur.literal, p)

  abbrev pub cur_line : M S ℕ
  cur_line p = some (p.cur.pos.line, p)

  -- `errorf`
  unfoldable pub errorf : (Parser S → Position) → (Parser S → Message) → M S (Unit {0})
  errorf at message p =
      some (tt, record p { errors = p.errors ++ record { at = at p; message = message p } ∷ [] })

  abbrev pub error_here : Message → M S (Unit {0})
  error_here message = errorf (λ p. p.cur.pos) (λ p. message)

  -- `if !p.expectPeek(t) { return fallback }`, and then `m`
  unfoldable pub expecting : {A : Type 0} → TokenType → A → M S A → M S A
  unfolding errorf
  expecting t fallback m =
      test (peek_is t) m
        do errorf (λ p. p.peek.pos) (λ p. expected_next t p.peek.type); pure fallback

module _ {S : Type 0} (next : S → Option (Token × S)) where
  moved : Parser S → Option (Token × S) → Option (Unit {0} × Parser S)
  moved p none = none
  moved p (some (t, s)) = some (tt, record p { cur = p.peek; peek = t; lexer = s })

  -- `nextToken`
  unfoldable pub advance : M S (Unit {0})
  unfolding moved
  advance p = moved p (next p.lexer)

  -- `skipNewlines` and `skipPeekNewlines`
  unfoldable pub skip_newlines : ℕ → M S (Unit {0})
  skip_newlines zero p = none
  skip_newlines (suc fuel) p = elim (cur_is newline p) [
    | true ↦ (advance >> skip_newlines fuel) p
    | false ↦ some (tt, p)
  ]

  unfoldable pub skip_peek_newlines : ℕ → M S (Unit {0})
  skip_peek_newlines zero p = none
  skip_peek_newlines (suc fuel) p = elim (peek_is newline p) [
    | true ↦ (advance >> skip_peek_newlines fuel) p
    | false ↦ some (tt, p)
  ]

  -- `if p.curToken.Type != token.EOF { p.nextToken() }`
  unfoldable pub advance_unless_eof : M S (Unit {0})
  unfolding advance
  advance_unless_eof = test (cur_is eof) (pure tt) advance

  -- `if p.curToken.Type != token.LBrace && p.peekToken.Type == token.LBrace { p.nextToken() }`
  unfoldable pub enter_block : M S (Unit {0})
  unfolding advance
  enter_block = test (λ p. not (cur_is l_brace p) && peek_is l_brace p) advance (pure tt)

  -- `consumeRParen`
  unfoldable pub consume_rparen : M S (Unit {0})
  unfolding advance errorf
  consume_rparen =
      test (cur_is r_paren) advance
        (test (peek_is r_paren) (advance >> advance) (error_here expected_rparen))
