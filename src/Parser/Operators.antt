-- ===== src/Parser/Operators.antt =====
-- internal/parser/parser.go: what each case of parseExpression makes of a printed operand or operator.
use go_flux.Base.{
  ℕ, zero, suc, ◌+◌, ◌≤◌, ◌≡◌, refl, Bool, true, false, Option, some, List, ◌∷◌, Bytes, arith,
  Bool-cases, inl, inr,
}
use go_flux.Token.{
  TokenType, ident, comma, range, dot, l_paren, r_paren, l_bracket, r_bracket, plus, minus, star,
  slash, equal, not_equal, less, less_equal, greater, greater_equal, and_and, or_or, bang, assign,
  define, Token, is,
}
use go_flux.Ast.{
  Expr, Exprs, no_exprs, more_exprs, array_literal, range_literal, index, member, call, binary,
  unary,
}
use go_flux.Parser.State.{Parser, ParseError, advance, expecting, test}
use go_flux.Parser.Pieces.{precedence, is_nil, lowest, prefix_precedence}
use go_flux.Parser.Parse.{
  parse_expression, parse_operand, parse_operator, parse_infix, parse_prefix, parse_assign,
  parse_call, parse_member, parse_index, parse_array_or_range, parse_range_end, parse_elements,
  close_array, parse_expression_list, parse_list_items, parse_list_rest,
}
use go_flux.Parser.Printer.{mark, token, close_paren, is_infix, is_prefix, is_assign}
use go_flux.Parser.Source.{focus, feed, first}

parse_operator-infix :
    {S : Type 0} (next : S → Option (Token × S)) (f : ℕ) (t : TokenType) (e : Expr) (p : Parser S)
    → is_infix t ≡ true
    → parse_operator next (suc f) t e p ≡ parse_infix next f e p
unfolding parse_operator is_infix
parse_operator-infix next f plus e p h = refl
parse_operator-infix next f minus e p h = refl
parse_operator-infix next f star e p h = refl
parse_operator-infix next f slash e p h = refl
parse_operator-infix next f equal e p h = refl
parse_operator-infix next f not_equal e p h = refl
parse_operator-infix next f less e p h = refl
parse_operator-infix next f less_equal e p h = refl
parse_operator-infix next f greater e p h = refl
parse_operator-infix next f greater_equal e p h = refl
parse_operator-infix next f and_and e p h = refl
parse_operator-infix next f or_or e p h = refl
parse_operator-infix next f _ e p h = cc

parse_operator-assign :
    {S : Type 0} (next : S → Option (Token × S)) (f : ℕ) (t : TokenType) (e : Expr) (p : Parser S)
    → is_assign t ≡ true
    → parse_operator next (suc f) t e p ≡ parse_assign next f e p
unfolding parse_operator is_assign
parse_operator-assign next f assign e p h = refl
parse_operator-assign next f define e p h = refl
parse_operator-assign next f _ e p h = cc

parse_operand-prefix :
    {S : Type 0} (next : S → Option (Token × S)) (f : ℕ) (t : TokenType) (p : Parser S)
    → is_prefix t ≡ true
    → parse_operand next (suc f) t p ≡ parse_prefix next f p
unfolding parse_operand is_prefix
parse_operand-prefix next f bang p h = refl
parse_operand-prefix next f plus p h = refl
parse_operand-prefix next f minus p h = refl
parse_operand-prefix next f _ p h = cc

-- A test whose two branches are one.
pub test_same :
    {S A : Type 0} (c : Parser S → Bool) (m : Option (A × Parser S)) (p : Parser S)
    → test c (λ q. m) (λ q. m) p ≡ m
test_same c m p = elim (Bool-cases (c p)) [ inl e ↦ rw (e, test) refl | inr e ↦ rw (e, test) refl ]

module _ (es : List ParseError) (n : ℕ) (ts : List Token) where
  module _ (e : Expr) (f : ℕ) (b : Expr) (z : Token) (rest : List Token) where
    pub infix_step :
        (t : TokenType)
        → is_infix t ≡ true
        → is_nil b ≡ false
        → parse_expression feed f (precedence t) (focus es ts) ≡ some (b, focus es (z ∷ rest))
        → parse_operator feed (suc (suc f)) t e (focus es (mark n t ∷ ts))
          ≡ some (binary n t e b, focus es (z ∷ rest))
    unfolding parse_infix advance
    infix_step t h k g =
        rw (parse_operator-infix feed (suc f) t e (focus es (mark n t ∷ ts)) h, g, k, test) refl

    pub assign_step :
        (t : TokenType)
        → is_assign t ≡ true
        → parse_expression feed f lowest (focus es ts) ≡ some (b, focus es (z ∷ rest))
        → parse_operator feed (suc (suc f)) t e (focus es (mark n t ∷ ts))
          ≡ some (Expr.assign n t e b, focus es (z ∷ rest))
    unfolding parse_assign advance
    assign_step t h g =
        rw (parse_operator-assign feed (suc f) t e (focus es (mark n t ∷ ts)) h, g) refl

    pub index_step :
        parse_expression feed f lowest (focus es ts)
          ≡ some (b, focus es (z ∷ mark 0 r_bracket ∷ rest))
        → parse_operator feed (suc (suc f)) l_bracket e (focus es (mark n l_bracket ∷ ts))
          ≡ some (index n e b, focus es (mark 0 r_bracket ∷ rest))
    unfolding parse_operator parse_index advance expecting is
    index_step g = rw g refl

  pub prefix_step :
      (f : ℕ) (b : Expr) (z : Token) (rest : List Token) (t : TokenType)
      → is_prefix t ≡ true
      → is_nil b ≡ false
      → parse_expression feed f prefix_precedence (focus es ts) ≡ some (b, focus es (z ∷ rest))
      → parse_operand feed (suc (suc f)) t (focus es (mark n t ∷ ts))
        ≡ some (unary n t b, focus es (z ∷ rest))
  unfolding parse_prefix advance
  prefix_step f b z rest t h k g =
      rw (parse_operand-prefix feed (suc f) t (focus es (mark n t ∷ ts)) h, g, k, test) refl

  pub call_step :
      (e : Expr) (f : ℕ) (args : Exprs) (rest : List Token)
      → parse_expression_list feed f r_paren (focus es ts)
        ≡ some (args, focus es (close_paren ∷ rest))
      → parse_operator feed (suc (suc f)) l_paren e (focus es (mark n l_paren ∷ ts))
        ≡ some (call n e args, focus es (close_paren ∷ rest))
  unfolding parse_operator parse_call advance
  call_step e f args rest g = rw g refl

module _ (es : List ParseError) where
  pub member_step :
      (n f : ℕ) (e : Expr) (x : Bytes) (rest : List Token)
      → parse_operator feed (suc (suc f)) dot e (focus es (mark n dot ∷ token 0 ident x ∷ rest))
        ≡ some (member n e x, focus es (token 0 ident x ∷ rest))
  unfolding parse_operator parse_member advance expecting is
  member_step n f e x rest = refl

  -- Both ways of closeArray end at the bracket.
  pub close_array_lem :
      (f n : ℕ) (args : Exprs) (z : Token) (rest : List Token)
      → close_array feed (suc f) n args (focus es (z ∷ mark 0 r_bracket ∷ rest))
        ≡ some (array_literal n args, focus es (mark 0 r_bracket ∷ rest))
  unfolding close_array advance is
  close_array_lem f n args z rest = elim (Bool-cases (is r_bracket z.type)) [
    | inl e ↦ rw (e, test) refl
    | inr e ↦ rw (e, test) refl
  ]

  pub array_step :
      (n f : ℕ) (e : Expr) (args : Exprs) (ts more rest : List Token) (z y : Token)
      → is r_bracket (first ts).type ≡ false
      → parse_expression feed f lowest (focus es ts) ≡ some (e, focus es (z ∷ more))
      → is range (first more).type ≡ false
      → parse_elements feed f (focus es (z ∷ more))
        ≡ some (args, focus es (y ∷ mark 0 r_bracket ∷ rest))
      → 1 ≤ f
      → parse_operand feed (suc (suc f)) l_bracket (focus es (mark n l_bracket ∷ ts))
        ≡ some (array_literal n (more_exprs e args), focus es (mark 0 r_bracket ∷ rest))
  unfolding parse_operand parse_array_or_range advance
  array_step n zero e args ts more rest z y h g k l b = absurd (omega arith)
  array_step n (suc f) e args ts more rest z y h g k l b =
      rw (h, test, g, k, test, l) (close_array_lem f n (more_exprs e args) y rest)

  pub range_step :
      (n f d : ℕ) (a b : Expr) (ts more rest : List Token) (z y : Token)
      → is r_bracket (first ts).type ≡ false
      → parse_expression feed f lowest (focus es ts) ≡ some (a, focus es (z ∷ mark 0 range ∷ more))
      → ((g : ℕ)
          → d ≤ g
          → parse_expression feed g lowest (focus es more)
            ≡ some (b, focus es (y ∷ mark 0 r_bracket ∷ rest)))
      → d + 1 ≤ f
      → parse_operand feed (suc (suc f)) l_bracket (focus es (mark n l_bracket ∷ ts))
        ≡ some (range_literal n a b, focus es (mark 0 r_bracket ∷ rest))
  unfolding parse_operand parse_array_or_range parse_range_end advance is
  range_step n zero d a b ts more rest z y h g k l = absurd (omega arith)
  range_step n (suc f) d a b ts more rest z y h g k l = rw (h, test, g, k f (omega arith)) refl

  pub elements_end :
      (f : ℕ) (z : Token) (rest : List Token)
      → parse_elements feed (suc f) (focus es (z ∷ mark 0 r_bracket ∷ rest))
        ≡ some (no_exprs, focus es (z ∷ mark 0 r_bracket ∷ rest))
  unfolding parse_elements is
  elements_end f z rest = refl

  pub elements_step :
      (f : ℕ) (z y w : Token) (e : Expr) (args : Exprs) (ts more rest : List Token)
      → is r_bracket (first ts).type ≡ false
      → parse_expression feed f lowest (focus es ts) ≡ some (e, focus es (y ∷ more))
      → parse_elements feed f (focus es (y ∷ more)) ≡ some (args, focus es (w ∷ rest))
      → parse_elements feed (suc f) (focus es (z ∷ mark 0 comma ∷ ts))
        ≡ some (more_exprs e args, focus es (w ∷ rest))
  unfolding parse_elements advance is
  elements_step f z y w e args ts more rest h g k = rw (h, test, g, k) refl

  pub list_end :
      (f : ℕ) (z : Token) (rest : List Token)
      → parse_list_rest feed (suc f) r_paren (focus es (z ∷ close_paren ∷ rest))
        ≡ some (no_exprs, focus es (close_paren ∷ rest))
  unfolding parse_list_rest advance is
  list_end f z rest = refl

  -- the items of an argument list, from an item on
  pub items_step :
      (f : ℕ) (y : Token) (e : Expr) (args : Exprs) (ts more rest : List Token)
      → parse_expression feed f lowest (focus es ts) ≡ some (e, focus es (y ∷ more))
      → is_nil e ≡ false
      → parse_list_rest feed f r_paren (focus es (y ∷ more)) ≡ some (args, focus es rest)
      → parse_list_items feed (suc f) r_paren (focus es ts)
        ≡ some (more_exprs e args, focus es rest)
  unfolding parse_list_items
  items_step f y e args ts more rest g k h = rw (g, k, test, h) refl

  pub list_step :
      (f : ℕ) (z : Token) (args : Exprs) (ts rest : List Token)
      → is r_paren (first ts).type ≡ false
      → parse_list_items feed f r_paren (focus es ts) ≡ some (args, focus es rest)
      → parse_list_rest feed (suc f) r_paren (focus es (z ∷ mark 0 comma ∷ ts))
        ≡ some (args, focus es rest)
  unfolding parse_list_rest advance is
  list_step f z args ts rest h g = rw (h, test) g

  pub arguments_step :
      (f : ℕ) (args : Exprs) (ts rest : List Token)
      → is r_paren (first ts).type ≡ false
      → parse_list_items feed f r_paren (focus es ts) ≡ some (args, focus es rest)
      → parse_expression_list feed (suc f) r_paren (focus es ts) ≡ some (args, focus es rest)
  unfolding parse_expression_list
  arguments_step f args ts rest h g = rw (h, test) g

  pub arguments_end :
      (f : ℕ) (rest : List Token)
      → parse_expression_list feed (suc f) r_paren (focus es (close_paren ∷ rest))
        ≡ some (no_exprs, focus es (close_paren ∷ rest))
  unfolding parse_expression_list is
  arguments_end f rest = refl
