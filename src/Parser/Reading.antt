-- ===== src/Parser/Reading.antt =====
-- internal/parser/parser.go: how an expression is read whose parts are read, in parentheses, as a left
-- operand, and where any may stand.
use go_flux.Base.{
  ℕ, zero, suc, ◌+◌, ◌≤◌, ◌<◌, ◌≡◌, ◌∙◌, refl, false, some, List, ◌∷◌, arith, Bool-cases, inl, inr,
  ltb, ltb→le,
}
use go_flux.Token.{r_bracket, range, Token, is}
use go_flux.Ast.{Expr, Exprs, no_exprs, more_exprs}
use go_flux.Parser.State.{ParseError}
use go_flux.Parser.Pieces.{precedence, is_nil}
use go_flux.Parser.Parse.{parse_expression, parse_operand, parse_operator, parse_operators}
use go_flux.Parser.Printer.{
  mark, open_paren, close_paren, strength, body, more_items, print, last, last_of, Printable, size,
}
use go_flux.Parser.Source.{
  focus, feed, first, ReadsAt, operand-ReadsAt, operators_step, read_whole, parens-operand,
}
use go_flux.Parser.Shapes.{is_nil-Printable, le-strength, Follows}

pub precedence-Follows :
    (m : ℕ) (t : Token) (rest : List Token) → precedence t.type ≤ 1 → 2 ≤ m → Follows m (t ∷ rest)
precedence-Follows m t rest h l = ground arith

module _ (es : List ParseError) where
  abbrev pub BodyReads : Expr → Type 0
  BodyReads e =
      (p n f : ℕ) (rest : List Token)
      → 1 ≤ p
      → p < strength e
      → Follows (strength e) rest
      → size e + n ≤ f
      → ReadsAt es p f (body e rest) e (last e) rest n

  abbrev pub PrintReads : ℕ → Expr → Type 0
  PrintReads m e =
      (p n f : ℕ) (rest : List Token)
      → 1 ≤ p
      → p < m
      → Follows m rest
      → size e + n + 3 ≤ f
      → ReadsAt es p f (print m e rest) e (last_of m e) rest n

  -- An expression in parentheses.
  pub parens-ReadsAt :
      (e : Expr) (p n f : ℕ) (rest : List Token)
      → Printable e
      → BodyReads e
      → size e + n + 3 ≤ f
      → ReadsAt es p f (open_paren ∷ body e (close_paren ∷ rest)) e close_paren rest n
  unfolding precedence
  parens-ReadsAt e p n zero rest h b l = absurd (omega arith)
  parens-ReadsAt e p n (suc zero) rest h b l = absurd (omega arith)
  parens-ReadsAt e p n (suc (suc f)) rest h b l =
      let s = le-strength e h in
      let inner =
        read_whole es 1 f (body e (close_paren ∷ rest)) e (last e) (close_paren ∷ rest)
          (b 1 1 f (close_paren ∷ rest) (omega arith) (omega arith)
            (precedence-Follows (strength e) close_paren rest (omega arith) s) (omega arith))
          (omega arith) in
      operand-ReadsAt es p n (suc f) (open_paren ∷ body e (close_paren ∷ rest)) e close_paren rest
        (parens-operand es f (body e (close_paren ∷ rest)) e (last e) rest inner)
        (is_nil-Printable e h) (omega arith)

  pub print-Reads : (m : ℕ) (e : Expr) → Printable e → BodyReads e → PrintReads m e
  print-Reads m e h b p n f rest k l g s = elim (Bool-cases (ltb (strength e) m)) [
    | inl w ↦ rw w (parens-ReadsAt e p n f rest h b s)
    | inr w ↦
        let v = ltb→le (strength e) m w in
        rw w (b p n f rest k (omega arith) (ground arith) (omega arith))
  ]

  -- A left operand and the operator behind it.
  pub left-Reads :
      (m : ℕ) (a e : Expr) (p n d f : ℕ) (t y : Token) (more rest : List Token)
      → PrintReads m a
      → ((g : ℕ)
          → d ≤ g
          → parse_operator feed (suc (suc g)) t.type a (focus es (t ∷ more))
            ≡ some (e, focus es (y ∷ rest)))
      → is_nil e ≡ false
      → 1 ≤ p
      → p < m
      → p < precedence t.type
      → Follows m (t ∷ more)
      → size a + d + n + 6 ≤ f
      → ReadsAt es p f (print m a (t ∷ more)) e y rest n
  left-Reads m a e p n d f t y more rest reads step nil k l o fo s r c =
      reads p (d + n + 3) f (t ∷ more) k l fo (omega arith) r go
    where
      go :
          (g : ℕ)
          → d + n + 3 ≤ g
          → parse_operators feed g p a (focus es (last_of m a ∷ t ∷ more)) ≡ r
      go zero w = absurd (omega arith)
      go (suc zero) w = absurd (omega arith)
      go (suc (suc zero)) w = absurd (omega arith)
      go (suc (suc (suc g))) w =
          operators_step es p (suc (suc g)) a e (last_of m a) t y rest more k o
            (step g (omega arith)) nil
          ∙ c (suc (suc g)) (omega arith)

  pub operand-Reads :
      (e : Expr) (p n d f : ℕ) (t z : Token) (more rest : List Token)
      → ((g : ℕ)
          → d ≤ g
          → parse_operand feed (suc (suc g)) t.type (focus es (t ∷ more))
            ≡ some (e, focus es (z ∷ rest)))
      → is_nil e ≡ false
      → d + n + 3 ≤ f
      → ReadsAt es p f (t ∷ more) e z rest n
  operand-Reads e p n d zero t z more rest h k s = absurd (omega arith)
  operand-Reads e p n d (suc zero) t z more rest h k s = absurd (omega arith)
  operand-Reads e p n d (suc (suc zero)) t z more rest h k s = absurd (omega arith)
  operand-Reads e p n d (suc (suc (suc f))) t z more rest h k s =
      operand-ReadsAt es p n (suc (suc f)) (t ∷ more) e z rest (h f (omega arith)) k (omega arith)

  pub atom-Reads :
      (e : Expr) (z : Token) (p n f : ℕ) (rest : List Token)
      → ((g : ℕ)
          → parse_operand feed (suc g) z.type (focus es (z ∷ rest)) ≡ some (e, focus es (z ∷ rest)))
      → is_nil e ≡ false
      → 16 + n ≤ f
      → ReadsAt es p f (z ∷ rest) e z rest n
  atom-Reads e z p n f rest h k s =
      operand-Reads e p n 0 f z z rest rest (λ g l. h (suc g)) k (omega arith)

  -- What stands behind an item of a list begins with a comma or with the list's end.
  pub more_items-ends :
      (args : Exprs) (t : Token) (rest : List Token)
      → precedence t.type ≤ 1
      → precedence (first (more_items args (t ∷ rest))).type ≤ 1
  unfolding more_items precedence
  more_items-ends no_exprs t rest h = h
  more_items-ends (more_exprs e args) t rest h = omega arith

  pub more_items-range :
      (args : Exprs) (n : ℕ) (rest : List Token)
      → is range (first (more_items args (mark n r_bracket ∷ rest))).type ≡ false
  unfolding more_items is
  more_items-range no_exprs n rest = refl
  more_items-range (more_exprs e args) n rest = refl

  -- An expression where any may stand.
  pub body_whole :
      (e : Expr) (f : ℕ) (rest : List Token)
      → Printable e
      → BodyReads e
      → precedence (first rest).type ≤ 1
      → size e + 1 ≤ f
      → parse_expression feed f 1 (focus es (body e rest)) ≡ some (e, focus es (last e ∷ rest))
  body_whole e f rest h b l s =
      let w = le-strength e h in
      read_whole es 1 f (body e rest) e (last e) rest
        (b 1 1 f rest (omega arith) (omega arith) (ground arith) s) l
