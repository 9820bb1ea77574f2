-- ===== src/Parser/Printer.antt =====
-- Tokens for an expression: what internal/parser/parser.go is to read as that expression. The tokens
-- of an expression stand before those that follow it. A number is the least precedence that an
-- expression may have there without parentheses.
use go_flux.Base.{ℕ, ◌+◌, Bool, true, false, ◌≡◌, List, [], ◌∷◌, Bytes, ltb, if◌then◌else◌}
use go_flux.Token.{
  TokenType, ident, number, string, true_kw, false_kw, null, bang, plus, minus, star, slash, equal,
  not_equal, less, less_equal, greater, greater_equal, and_and, or_or, range, comma, dot, l_paren,
  r_paren, l_bracket, r_bracket, assign, define, Token,
}
use go_flux.Ast.{
  Expr, no_expr, identifier, number_literal, string_literal, bool_literal, null_literal,
  array_literal, range_literal, object_literal, index, member, call, binary, unary, func_expr,
  Exprs, no_exprs, more_exprs,
}
use go_flux.Parser.Pieces.{precedence}

abbrev pub token : ℕ → TokenType → Bytes → Token
token line type literal = record {
  type = type;
  literal = literal;
  pos = record { offset = 0; line = line; column = 0 };
}

abbrev pub mark : ℕ → TokenType → Token
mark line type = token line type []

abbrev pub open_paren : Token
open_paren = mark 0 l_paren

abbrev pub close_paren : Token
close_paren = mark 0 r_paren

abbrev pub bool_type : Bool → TokenType
bool_type true = true_kw
bool_type false = false_kw

-- How tightly an expression holds together: 2 an assignment, 10 what takes no parentheses at all.
unfoldable pub strength : Expr → ℕ
strength (Expr.assign n t a b) = 2
strength (binary n t a b) = precedence t
strength (unary n t a) = 9
strength _ = 10

-- In parentheses, if the expression is weaker than its place wants.
abbrev pub wrap : ℕ → ℕ → (List Token → List Token) → List Token → List Token
wrap m s b rest = if ltb s m then open_paren ∷ b (close_paren ∷ rest) else b rest

unfoldable mutual
  unfolding strength precedence

  pub body : Expr → List Token → List Token
  body no_expr rest = rest
  body (identifier n x) rest = token n ident x ∷ rest
  body (Expr.variable n x) rest = token n TokenType.variable x ∷ rest
  body (number_literal n x) rest = token n number x ∷ rest
  body (string_literal n x) rest = token n string x ∷ rest
  body (bool_literal n b) rest = mark n (bool_type b) ∷ rest
  body (null_literal n) rest = mark n null ∷ rest
  body (array_literal n es) rest = mark n l_bracket ∷ items es (mark 0 r_bracket ∷ rest)
  body (range_literal n a b) rest =
      mark n l_bracket ∷ body a (mark 0 range ∷ body b (mark 0 r_bracket ∷ rest))
  body (object_literal n fs) rest = rest
  body (index n a b) rest =
      wrap 10 (strength a) (body a) (mark n l_bracket ∷ body b (mark 0 r_bracket ∷ rest))
  body (member n a x) rest = wrap 10 (strength a) (body a) (mark n dot ∷ token 0 ident x ∷ rest)
  body (call n c es) rest =
      wrap 10 (strength c) (body c) (mark n l_paren ∷ items es (close_paren ∷ rest))
  body (Expr.assign n t a b) rest = wrap 3 (strength a) (body a) (mark n t ∷ body b rest)
  body (binary n t a b) rest =
      wrap (precedence t) (strength a) (body a)
        (mark n t ∷ wrap (precedence t + 1) (strength b) (body b) rest)
  body (unary n t a) rest = mark n t ∷ wrap 10 (strength a) (body a) rest
  body (func_expr n ps b) rest = rest

  pub items : Exprs → List Token → List Token
  items no_exprs rest = rest
  items (more_exprs e es) rest = body e (more_items es rest)

  pub more_items : Exprs → List Token → List Token
  more_items no_exprs rest = rest
  more_items (more_exprs e es) rest = mark 0 comma ∷ body e (more_items es rest)

abbrev pub print : ℕ → Expr → List Token → List Token
print m e = wrap m (strength e) (body e)

-- the last token
abbrev pub wrap_last : ℕ → ℕ → Token → Token
wrap_last m s t = if ltb s m then close_paren else t

unfoldable pub last : Expr → Token
unfolding strength precedence
last (identifier n x) = token n ident x
last (Expr.variable n x) = token n TokenType.variable x
last (number_literal n x) = token n number x
last (string_literal n x) = token n string x
last (bool_literal n b) = mark n (bool_type b)
last (null_literal n) = mark n null
last (member n a x) = token 0 ident x
last (call n c es) = close_paren
last (Expr.assign n t a b) = last b
last (binary n t a b) = wrap_last (precedence t + 1) (strength b) (last b)
last (unary n t a) = wrap_last 10 (strength a) (last a)
last _ = mark 0 r_bracket

abbrev pub last_of : ℕ → Expr → Token
last_of m e = wrap_last m (strength e) (last e)

unfoldable pub last_item : Token → Exprs → Token
unfolding last
last_item t no_exprs = t
last_item t (more_exprs e es) = last_item (last e) es

unfoldable pub is_infix : TokenType → Bool
is_infix plus = true
is_infix minus = true
is_infix star = true
is_infix slash = true
is_infix equal = true
is_infix not_equal = true
is_infix less = true
is_infix less_equal = true
is_infix greater = true
is_infix greater_equal = true
is_infix and_and = true
is_infix or_or = true
is_infix _ = false

unfoldable pub is_prefix : TokenType → Bool
is_prefix bang = true
is_prefix plus = true
is_prefix minus = true
is_prefix _ = false

unfoldable pub is_assign : TokenType → Bool
is_assign assign = true
is_assign define = true
is_assign _ = false

-- The expressions that are printed: no nil, no function, no object and no empty array, which the
-- parser does not read back everywhere.
unfoldable mutual
  unfolding is_infix is_prefix is_assign

  pub Printable : Expr → Type 0
  Printable no_expr = ⊥
  Printable (array_literal n no_exprs) = ⊥
  Printable (array_literal n (more_exprs e es)) = Printable e × AllPrintable es
  Printable (range_literal n a b) = Printable a × Printable b
  Printable (object_literal n fs) = ⊥
  Printable (index n a b) = Printable a × Printable b
  Printable (member n a x) = Printable a
  Printable (call n c es) = Printable c × AllPrintable es
  Printable (Expr.assign n t a b) = (is_assign t ≡ true) × Printable a × Printable b
  Printable (binary n t a b) = (is_infix t ≡ true) × Printable a × Printable b
  Printable (unary n t a) = (is_prefix t ≡ true) × Printable a
  Printable (func_expr n ps b) = ⊥
  Printable _ = Unit

  pub AllPrintable : Exprs → Type 0
  AllPrintable no_exprs = Unit
  AllPrintable (more_exprs e es) = Printable e × AllPrintable es

-- Fuel with which an expression is read.
unfoldable mutual
  pub size : Expr → ℕ
  size (array_literal n es) = 16 + size_all es
  size (range_literal n a b) = 16 + size a + size b
  size (index n a b) = 16 + size a + size b
  size (member n a x) = 16 + size a
  size (call n c es) = 16 + size c + size_all es
  size (Expr.assign n t a b) = 16 + size a + size b
  size (binary n t a b) = 16 + size a + size b
  size (unary n t a) = 16 + size a
  size _ = 16

  pub size_all : Exprs → ℕ
  size_all no_exprs = 8
  size_all (more_exprs e es) = 16 + size e + size_all es
