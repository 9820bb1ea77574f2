-- ===== src/Parser/Boundaries.antt =====
-- Printed statements of internal/parser/parser.go at their ends: what they begin with, where the parser
-- stands behind them, and what newlines it skips there.
use go_flux.Base.{
  ℕ, zero, suc, ◌≤◌, ◌≡◌, refl, true, false, some, List, ◌∷◌, arith, ltb, if◌then◌else◌, Bool-cases,
  inl, inr,
}
use go_flux.Token.{TokenType, newline, eof, else_if, else_kw, r_brace, Token, is}
use go_flux.Ast.{
  Expr, object_literal, func_expr, no_expr, index, member, call, binary, Stmt, block_stmt,
  expr_stmt, return_null, if_stmt, Block, no_stmts, more_stmts, Clauses, no_clauses, more_clauses,
  no_alt,
}
use go_flux.Parser.State.{ParseError, advance, skip_newlines}
use go_flux.Parser.Steps.{skip_newlines_none}
use go_flux.Parser.Pieces.{precedence}
use go_flux.Parser.Printer.{wrap, strength, body, Printable}
use go_flux.Parser.Source.{focus, feed, first}
use go_flux.Parser.Shapes.{starts_expression, body-starts_expression}
use go_flux.Parser.Listing.{
  line_end, stmt, stmts, clauses, first_line, PrintableStmt, PrintableBlock,
}

-- What may follow a statement and its newline.
abbrev pub Calm : List Token → Type 0
Calm ts =
    (is newline (first ts).type ≡ false)
    × (is else_if (first ts).type ≡ false)
    × (is else_kw (first ts).type ≡ false)

-- What a statement begins with.
abbrev pub Starts : TokenType → Type 0
Starts t =
    (is newline t ≡ false)
    × (is else_if t ≡ false)
    × (is else_kw t ≡ false)
    × (is r_brace t ≡ false)
    × (is eof t ≡ false)

pub expression-Starts : (t : TokenType) → starts_expression t ≡ true → Starts t
unfolding starts_expression is
expression-Starts newline h = cc
expression-Starts else_if h = cc
expression-Starts else_kw h = cc
expression-Starts r_brace h = cc
expression-Starts eof h = cc
expression-Starts _ h = (refl, refl, refl, refl, refl)

pub stmt-Starts :
    (s : Stmt) → PrintableStmt s → (rest : List Token) → Starts (first (stmt s rest)).type
unfolding stmt PrintableStmt is
stmt-Starts (expr_stmt n e) h rest =
    expression-Starts (first (body e rest)).type (body-starts_expression e h.1 rest)
stmt-Starts (block_stmt n b) h rest = (refl, refl, refl, refl, refl)
stmt-Starts _ h rest = (refl, refl, refl, refl, refl)

pub stmts-Calm :
    (b : Block) (rest : List Token) → PrintableBlock b → Calm rest → Calm (stmts b rest)
unfolding stmts PrintableBlock
stmts-Calm no_stmts rest h c = c
stmts-Calm (more_stmts s b) rest h c =
    let g = stmt-Starts s h.0 (line_end ∷ stmts b rest) in (g.0, g.1, g.2)

pub wrap_line :
    (m s n : ℕ) (b : List Token → List Token) (rest : List Token)
    → ((r : List Token) → (first (b r)).pos.line ≡ n)
    → (first (wrap m s b rest)).pos.line ≡ (if ltb s m then 0 else n)
wrap_line m s n b rest h = elim (Bool-cases (ltb s m)) [ inl e ↦ rw e refl | inr e ↦ rw e (h rest) ]

pub body-first_line :
    (e : Expr) → Printable e → (rest : List Token) → (first (body e rest)).pos.line ≡ first_line e
unfolding body first_line Printable
body-first_line no_expr h rest = absurd h
body-first_line (object_literal n fs) h rest = absurd h
body-first_line (func_expr n ps b) h rest = absurd h
body-first_line (index n a b) h rest =
    wrap_line 10 (strength a) (first_line a) (body a) _ (body-first_line a h.0)
body-first_line (member n a x) h rest =
    wrap_line 10 (strength a) (first_line a) (body a) _ (body-first_line a h)
body-first_line (call n c es) h rest =
    wrap_line 10 (strength c) (first_line c) (body c) _ (body-first_line c h.0)
body-first_line (Expr.assign n t a b) h rest =
    wrap_line 3 (strength a) (first_line a) (body a) _ (body-first_line a h.1)
body-first_line (binary n t a b) h rest =
    wrap_line (precedence t) (strength a) (first_line a) (body a) _ (body-first_line a h.1)
body-first_line _ h rest = refl

-- fuel of which three units are at hand
pub spend :
    (P : ℕ → Type 0) (d : ℕ)
    → 3 ≤ d
    → ((g : ℕ) → d ≤ suc (suc (suc g)) → P (suc (suc (suc g))))
    → (f : ℕ) → d ≤ f
    → P f
spend P d l k zero h = absurd (omega arith)
spend P d l k (suc zero) h = absurd (omega arith)
spend P d l k (suc (suc zero)) h = absurd (omega arith)
spend P d l k (suc (suc (suc g))) h = k g h

-- Where the parser stands behind a statement.
abbrev pub behind : Stmt → List Token → List Token
behind (return_null n) rest = rest
behind (if_stmt n c b cs no_alt) rest = rest
behind _ rest = line_end ∷ rest

-- The clauses of an `if` from the first on, or what follows them.
abbrev pub from_clauses : Clauses → List Token → List Token → List Token
from_clauses no_clauses xs ys = ys
from_clauses cs xs ys = clauses cs xs

module _ (es : List ParseError) where
  abbrev pub Settles : List Token → List Token → Type 0
  Settles xs ys = (f : ℕ) → 2 ≤ f → skip_newlines feed f (focus es xs) ≡ some (tt, focus es ys)

  pub calm-Settles : (ts : List Token) → is newline (first ts).type ≡ false → Settles ts ts
  calm-Settles ts h zero l = absurd (omega arith)
  calm-Settles ts h (suc f) l = skip_newlines_none feed f (focus es ts) h

  pub line-Settles :
      (ts : List Token) → is newline (first ts).type ≡ false → Settles (line_end ∷ ts) ts
  unfolding skip_newlines advance is
  line-Settles ts h zero l = absurd (omega arith)
  line-Settles ts h (suc zero) l = absurd (omega arith)
  line-Settles ts h (suc (suc f)) l = skip_newlines_none feed f (focus es ts) h

  pub behind-Settles : (s : Stmt) (ts : List Token) → Calm ts → Settles (behind s ts) ts
  behind-Settles (return_null n) ts h = calm-Settles ts h.0
  behind-Settles (if_stmt n c b cs no_alt) ts h = calm-Settles ts h.0
  behind-Settles _ ts h = line-Settles ts h.0

  pub clauses-Settles :
      (cs : Clauses) (xs ys : List Token)
      → Settles xs ys
      → Settles (clauses cs xs) (from_clauses cs xs ys)
  unfolding clauses is
  clauses-Settles no_clauses xs ys h = h
  clauses-Settles (more_clauses c b cs) xs ys h =
      calm-Settles (clauses (more_clauses c b cs) xs) refl
