-- ===== src/Parser/Source.antt =====
-- internal/parser/parser.go over a list of tokens: where the parser stands, and the steps of
-- parseExpression there.
use go_flux.Base.{
  ℕ, zero, suc, ◌≤◌, ◌<◌, ◌≡◌, refl, true, false, Option, some, List, [], ◌∷◌, arith,
}
use go_flux.Token.{TokenType, eof, r_paren, l_paren, Token, is, newline, r_brace, comma, r_bracket}
use go_flux.Ast.{Expr}
use go_flux.Parser.State.{Parser, ParseError, advance, expecting, test}
use go_flux.Parser.Pieces.{precedence, ends_expression, is_nil, lowest}
use go_flux.Parser.Parse.{goes_on, parse_expression, parse_operand, parse_operators, parse_operator}
use go_flux.Parser.Printer.{mark, open_paren, close_paren}

abbrev pub first : List Token → Token
first [] = mark 0 eof
first (t ∷ ts) = t

abbrev pub tail : List Token → List Token
tail [] = []
tail (t ∷ ts) = ts

-- A list of tokens as the lexer, and the end behind them.
abbrev pub feed : List Token → Option (Token × List Token)
feed ts = some (first ts, tail ts)

-- The parser before these tokens.
abbrev pub focus : List ParseError → List Token → Parser (List Token)
focus es ts = record { lexer = tail (tail ts); cur = first ts; peek = first (tail ts); errors = es }

operator-ends_expression : (t : TokenType) → 1 < precedence t → ends_expression t ≡ false
unfolding precedence ends_expression
operator-ends_expression newline h = absurd (omega arith)
operator-ends_expression r_brace h = absurd (omega arith)
operator-ends_expression eof h = absurd (omega arith)
operator-ends_expression comma h = absurd (omega arith)
operator-ends_expression r_paren h = absurd (omega arith)
operator-ends_expression r_bracket h = absurd (omega arith)
operator-ends_expression _ h = refl

module _ {S : Type 0} (p : ℕ) (q : Parser S) where
  goes_on-true : 1 ≤ p → p < precedence q.peek.type → goes_on p q ≡ true
  unfolding goes_on
  goes_on-true h l = rw (operator-ends_expression q.peek.type (omega arith)) (ground arith)

  goes_on-false : precedence q.peek.type ≤ p → goes_on p q ≡ false
  unfolding goes_on
  goes_on-false h = ground arith

module _ (es : List ParseError) where
  -- From `ts` the parser reads `e`, whose last token is `z`, and goes on with the operators behind it.
  abbrev pub ReadsAt : ℕ → ℕ → List Token → Expr → Token → List Token → ℕ → Type 0
  ReadsAt p f ts e z rest n =
      (r : Option (Expr × Parser (List Token)))
      → ((g : ℕ) → n ≤ g → parse_operators feed g p e (focus es (z ∷ rest)) ≡ r)
      → parse_expression feed f p (focus es ts) ≡ r

  pub operand-ReadsAt :
      (p n f : ℕ) (ts : List Token) (e : Expr) (z : Token) (rest : List Token)
      → parse_operand feed f (first ts).type (focus es ts) ≡ some (e, focus es (z ∷ rest))
      → is_nil e ≡ false
      → n ≤ f
      → ReadsAt p (suc f) ts e z rest n
  unfolding parse_expression
  operand-ReadsAt p n f ts e z rest h k l r c = rw (h, k, test) (c f l)

  pub operators_stop :
      (p f : ℕ) (e : Expr) (z : Token) (rest : List Token)
      → precedence (first rest).type ≤ p
      → parse_operators feed (suc f) p e (focus es (z ∷ rest)) ≡ some (e, focus es (z ∷ rest))
  unfolding parse_operators goes_on
  operators_stop p f e z rest h = rw (goes_on-false p (focus es (z ∷ rest)) h, test) refl

  pub operators_step :
      (p f : ℕ) (e a : Expr) (z t y : Token) (rest more : List Token)
      → 1 ≤ p
      → p < precedence t.type
      → parse_operator feed f t.type e (focus es (t ∷ more)) ≡ some (a, focus es (y ∷ rest))
      → is_nil a ≡ false
      → parse_operators feed (suc f) p e (focus es (z ∷ t ∷ more))
        ≡ parse_operators feed f p a (focus es (y ∷ rest))
  unfolding parse_operators goes_on advance
  operators_step p f e a z t y rest more h l g k =
      rw (goes_on-true p (focus es (z ∷ t ∷ more)) h l, test, g, k, test) refl

  -- The expression alone, where what follows does not belong to it.
  pub read_whole :
      (p f : ℕ) (ts : List Token) (e : Expr) (z : Token) (rest : List Token)
      → ReadsAt p f ts e z rest 1
      → precedence (first rest).type ≤ p
      → parse_expression feed f p (focus es ts) ≡ some (e, focus es (z ∷ rest))
  read_whole p f ts e z rest h l = h _ go
    where
      go :
          (g : ℕ)
          → 1 ≤ g
          → parse_operators feed g p e (focus es (z ∷ rest)) ≡ some (e, focus es (z ∷ rest))
      go zero k = absurd (omega arith)
      go (suc g) k = operators_stop p g e z rest l

  pub parens-operand :
      (f : ℕ) (ts : List Token) (e : Expr) (z : Token) (rest : List Token)
      → parse_expression feed f lowest (focus es ts) ≡ some (e, focus es (z ∷ close_paren ∷ rest))
      → parse_operand feed (suc f) l_paren (focus es (open_paren ∷ ts))
        ≡ some (e, focus es (close_paren ∷ rest))
  unfolding parse_operand advance expecting is
  parens-operand f ts e z rest h = rw h refl
