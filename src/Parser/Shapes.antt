-- ===== src/Parser/Shapes.antt =====
-- The shape of printed expressions: how tightly they hold, what they begin with, what may follow.
use go_flux.Base.{
  ℕ, ◌+◌, ◌≤◌, ◌≡◌, refl, Bool, true, false, List, arith, Bool-cases, inl, inr, ltb, if◌then◌else◌,
}
use go_flux.Token.{
  TokenType, eof, ident, number, string, true_kw, false_kw, null, l_paren, l_bracket, r_paren,
  r_bracket, plus, minus, star, slash, equal, not_equal, less, less_equal, greater, greater_equal,
  and_and, or_or, bang, Token, is,
}
use go_flux.Ast.{
  Expr, no_expr, bool_literal, object_literal, index, member, call, binary, unary, func_expr,
}
use go_flux.Parser.Pieces.{precedence, is_nil}
use go_flux.Parser.Printer.{
  last, wrap_last, is_infix, is_prefix, is_assign, strength, wrap, body, Printable,
}
use go_flux.Parser.Source.{first}

pub is_nil-Printable : (e : Expr) → Printable e → is_nil e ≡ false
unfolding is_nil Printable
is_nil-Printable no_expr h = absurd h
is_nil-Printable _ h = refl

pub precedence-infix : (t : TokenType) → is_infix t ≡ true → (3 ≤ precedence t) × (precedence t ≤ 8)
unfolding is_infix precedence
precedence-infix plus h = omega arith
precedence-infix minus h = omega arith
precedence-infix star h = omega arith
precedence-infix slash h = omega arith
precedence-infix equal h = omega arith
precedence-infix not_equal h = omega arith
precedence-infix less h = omega arith
precedence-infix less_equal h = omega arith
precedence-infix greater h = omega arith
precedence-infix greater_equal h = omega arith
precedence-infix and_and h = omega arith
precedence-infix or_or h = omega arith
precedence-infix _ h = cc

pub precedence-assign : (t : TokenType) → is_assign t ≡ true → precedence t ≡ 2
unfolding is_assign precedence
precedence-assign TokenType.assign h = refl
precedence-assign TokenType.define h = refl
precedence-assign _ h = cc

pub le-strength : (e : Expr) → Printable e → 2 ≤ strength e
unfolding strength Printable
le-strength (binary n t a b) h = omega (arith, precedence-infix t h.0)
le-strength _ h = omega arith

-- What may follow an expression of a strength: no operator that holds tighter, and behind an
-- assignment none at all.
abbrev pub Follows : ℕ → List Token → Type 0
Follows m rest = precedence (first rest).type ≤ (if ltb m 3 then 1 else m)

-- The types of token that an expression begins with.
unfoldable pub starts_expression : TokenType → Bool
starts_expression ident = true
starts_expression TokenType.variable = true
starts_expression number = true
starts_expression string = true
starts_expression true_kw = true
starts_expression false_kw = true
starts_expression null = true
starts_expression bang = true
starts_expression minus = true
starts_expression plus = true
starts_expression l_paren = true
starts_expression l_bracket = true
starts_expression _ = false

abbrev Begins : List Token → Type 0
Begins ts = starts_expression (first ts).type ≡ true

wrap-Begins :
    (m s : ℕ) (b : List Token → List Token) (rest : List Token)
    → ((r : List Token) → Begins (b r))
    → Begins (wrap m s b rest)
unfolding starts_expression
wrap-Begins m s b rest h = elim (Bool-cases (ltb s m)) [ inl e ↦ rw e refl | inr e ↦ rw e (h rest) ]

starts_expression-prefix : (t : TokenType) → is_prefix t ≡ true → starts_expression t ≡ true
unfolding is_prefix starts_expression
starts_expression-prefix bang h = refl
starts_expression-prefix plus h = refl
starts_expression-prefix minus h = refl
starts_expression-prefix _ h = cc

pub body-starts_expression :
    (e : Expr)
    → Printable e
    → (rest : List Token) → starts_expression (first (body e rest)).type ≡ true
unfolding body Printable starts_expression
body-starts_expression no_expr h rest = absurd h
body-starts_expression (bool_literal n true) h rest = refl
body-starts_expression (bool_literal n false) h rest = refl
body-starts_expression (object_literal n fs) h rest = absurd h
body-starts_expression (func_expr n ps b) h rest = absurd h
body-starts_expression (index n a b) h rest =
    wrap-Begins 10 (strength a) (body a) _ (body-starts_expression a h.0)
body-starts_expression (member n a x) h rest =
    wrap-Begins 10 (strength a) (body a) _ (body-starts_expression a h)
body-starts_expression (call n c es) h rest =
    wrap-Begins 10 (strength c) (body c) _ (body-starts_expression c h.0)
body-starts_expression (Expr.assign n t a b) h rest =
    wrap-Begins 3 (strength a) (body a) _ (body-starts_expression a h.1)
body-starts_expression (binary n t a b) h rest =
    wrap-Begins (precedence t) (strength a) (body a) _ (body-starts_expression a h.1)
body-starts_expression (unary n t a) h rest = starts_expression-prefix t h.0
body-starts_expression _ h rest = refl

-- A first token with which a list in parentheses or brackets does not end.
abbrev pub Opens : List Token → Type 0
Opens ts = (is r_paren (first ts).type ≡ false) × (is r_bracket (first ts).type ≡ false)

start-Opens :
    (t : TokenType) → starts_expression t ≡ true → (is r_paren t ≡ false) × (is r_bracket t ≡ false)
unfolding starts_expression is
start-Opens r_paren h = cc
start-Opens r_bracket h = cc
start-Opens _ h = (refl, refl)

pub body-Opens : (e : Expr) → Printable e → (rest : List Token) → Opens (body e rest)
body-Opens e h rest = start-Opens (first (body e rest)).type (body-starts_expression e h rest)

wrap_last-ne-eof :
    (m s : ℕ) (t : Token) → is eof t.type ≡ false → is eof (wrap_last m s t).type ≡ false
unfolding is
wrap_last-ne-eof m s t h = ground arith

pub last-ne-eof : (e : Expr) → Printable e → is eof (last e).type ≡ false
unfolding last Printable is
last-ne-eof no_expr h = absurd h
last-ne-eof (bool_literal n true) h = refl
last-ne-eof (bool_literal n false) h = refl
last-ne-eof (Expr.assign n t a b) h = last-ne-eof b h.2
last-ne-eof (binary n t a b) h =
    wrap_last-ne-eof (precedence t + 1) (strength b) (last b) (last-ne-eof b h.2)
last-ne-eof (unary n t a) h = wrap_last-ne-eof 10 (strength a) (last a) (last-ne-eof a h.1)
last-ne-eof _ h = refl
