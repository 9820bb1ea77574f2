-- ===== src/Parser/Listing.antt =====
-- Tokens for statements and programs: what internal/parser/parser.go is to read as them. Each
-- statement is followed by a newline.
use go_flux.Base.{ℕ, ◌+◌, ◌≡◌, List, [], ◌∷◌, Bytes, ltb, if◌then◌else◌, length}
use go_flux.Token.{
  TokenType, newline, ident, if_kw, else_if, else_kw, while_kw, for_kw, in_kw, func, return_kw,
  comma, l_brace, r_brace, l_bracket, r_bracket, Token,
}
use go_flux.Ast.{
  Expr, index, member, call, binary, Stmt, block_stmt, expr_stmt, return_value, return_null,
  if_stmt, while_stmt, for_stmt, func_decl, Block, no_stmts, more_stmts, Clauses, no_clauses,
  more_clauses, Alt, no_alt, alt,
}
use go_flux.Parser.Pieces.{precedence}
use go_flux.Parser.Printer.{token, mark, open_paren, close_paren, strength, body, Printable, size}

abbrev pub line_end : Token
line_end = mark 0 newline

abbrev pub close_brace : Token
close_brace = mark 0 r_brace

abbrev pub variable_token : Bytes → Token
variable_token = token 0 TokenType.variable

-- The variables of a `for`: without a key there is one.
abbrev pub binding : Bytes → Bytes → List Token → List Token
binding [] v rest = variable_token v ∷ rest
binding (c ∷ k) v rest =
    mark 0 l_bracket
    ∷ variable_token (c ∷ k)
    ∷ mark 0 comma
    ∷ variable_token v
    ∷ mark 0 r_bracket
    ∷ rest

abbrev pub more_parameters : List Bytes → List Token → List Token
more_parameters [] rest = rest
more_parameters (x ∷ xs) rest = mark 0 comma ∷ variable_token x ∷ more_parameters xs rest

abbrev pub parameters : List Bytes → List Token → List Token
parameters [] rest = rest
parameters (x ∷ xs) rest = variable_token x ∷ more_parameters xs rest

abbrev pub braces : (List Token → List Token) → List Token → List Token
braces b rest = mark 0 l_brace ∷ b (close_brace ∷ rest)

-- a condition in its parentheses
abbrev pub condition : Expr → List Token → List Token
condition c rest = open_paren ∷ body c (close_paren ∷ rest)

unfoldable mutual
  unfolding body

  pub stmt : Stmt → List Token → List Token
  stmt (block_stmt n b) rest = mark n l_brace ∷ stmts b (close_brace ∷ rest)
  stmt (expr_stmt n e) rest = body e rest
  stmt (return_value n e) rest = mark n return_kw ∷ body e rest
  stmt (return_null n) rest = mark n return_kw ∷ rest
  stmt (if_stmt n c b cs a) rest =
      mark n if_kw ∷ condition c (braces (stmts b) (clauses cs (other a rest)))
  stmt (while_stmt n c b) rest = mark n while_kw ∷ condition c (braces (stmts b) rest)
  stmt (for_stmt n k v e b) rest =
      mark n for_kw
      ∷ open_paren
      ∷ binding k v (mark 0 in_kw ∷ body e (close_paren ∷ braces (stmts b) rest))
  stmt (func_decl n x ps b) rest =
      mark n func
      ∷ token 0 ident x
      ∷ open_paren
      ∷ parameters ps (close_paren ∷ braces (stmts b) rest)

  pub stmts : Block → List Token → List Token
  stmts no_stmts rest = rest
  stmts (more_stmts s b) rest = stmt s (line_end ∷ stmts b rest)

  pub clauses : Clauses → List Token → List Token
  clauses no_clauses rest = rest
  clauses (more_clauses c b cs) rest =
      mark 0 else_if ∷ condition c (braces (stmts b) (clauses cs rest))

  pub other : Alt → List Token → List Token
  other no_alt rest = rest
  other (alt b) rest = mark 0 else_kw ∷ braces (stmts b) rest

-- The line of an expression's first token; a parenthesis is on line 0.
unfoldable pub first_line : Expr → ℕ
unfolding strength precedence
first_line (index n a b) = if ltb (strength a) 10 then 0 else first_line a
first_line (member n a x) = if ltb (strength a) 10 then 0 else first_line a
first_line (call n c es) = if ltb (strength c) 10 then 0 else first_line c
first_line (Expr.assign n t a b) = if ltb (strength a) 3 then 0 else first_line a
first_line (binary n t a b) = if ltb (strength a) (precedence t) then 0 else first_line a
first_line (Expr.identifier n x) = n
first_line (Expr.variable n x) = n
first_line (Expr.number_literal n x) = n
first_line (Expr.string_literal n x) = n
first_line (Expr.bool_literal n b) = n
first_line (Expr.null_literal n) = n
first_line (Expr.array_literal n es) = n
first_line (Expr.range_literal n a b) = n
first_line (Expr.unary n t a) = n
first_line _ = 0

-- The statements whose expressions are printed. A statement that is an expression has its line from
-- the expression's first token.
unfoldable mutual
  unfolding Printable first_line

  pub PrintableStmt : Stmt → Type 0
  PrintableStmt (block_stmt n b) = PrintableBlock b
  PrintableStmt (expr_stmt n e) = (n ≡ first_line e) × Printable e
  PrintableStmt (return_value n e) = Printable e
  PrintableStmt (return_null n) = Unit
  PrintableStmt (if_stmt n c b cs a) =
      Printable c × PrintableBlock b × PrintableClauses cs × PrintableAlt a
  PrintableStmt (while_stmt n c b) = Printable c × PrintableBlock b
  PrintableStmt (for_stmt n k v e b) = Printable e × PrintableBlock b
  PrintableStmt (func_decl n x ps b) = PrintableBlock b

  pub PrintableBlock : Block → Type 0
  PrintableBlock no_stmts = Unit
  PrintableBlock (more_stmts s b) = PrintableStmt s × PrintableBlock b

  pub PrintableClauses : Clauses → Type 0
  PrintableClauses no_clauses = Unit
  PrintableClauses (more_clauses c b cs) = Printable c × PrintableBlock b × PrintableClauses cs

  pub PrintableAlt : Alt → Type 0
  PrintableAlt no_alt = Unit
  PrintableAlt (alt b) = PrintableBlock b

-- Fuel with which statements are read.
unfoldable mutual
  unfolding size

  pub stmt_size : Stmt → ℕ
  stmt_size (block_stmt n b) = 16 + block_size b
  stmt_size (expr_stmt n e) = 16 + size e
  stmt_size (return_value n e) = 16 + size e
  stmt_size (return_null n) = 16
  stmt_size (if_stmt n c b cs a) = 16 + size c + block_size b + clauses_size cs + alt_size a
  stmt_size (while_stmt n c b) = 16 + size c + block_size b
  stmt_size (for_stmt n k v e b) = 16 + size e + block_size b
  stmt_size (func_decl n x ps b) = 16 + length ps + block_size b

  pub block_size : Block → ℕ
  block_size no_stmts = 16
  block_size (more_stmts s b) = 16 + stmt_size s + block_size b

  pub clauses_size : Clauses → ℕ
  clauses_size no_clauses = 16
  clauses_size (more_clauses c b cs) = 16 + size c + block_size b + clauses_size cs

  pub alt_size : Alt → ℕ
  alt_size no_alt = 16
  alt_size (alt b) = 16 + block_size b
