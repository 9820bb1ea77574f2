-- ===== src/Parser/Statements.antt =====
-- internal/parser/parser.go: a printed program and what ParseProgram reads.
use go_flux.Base.{ℕ, zero, suc, ◌+◌, ◌≤◌, ◌≡◌, refl, sym, true, false, some, List, [], ◌∷◌, arith}
use go_flux.Token.{newline, eof, else_if, l_brace, Token, is}
use go_flux.Ast.{
  Stmt, block_stmt, expr_stmt, return_value, return_null, if_stmt, while_stmt, for_stmt, func_decl,
  Block, no_stmts, more_stmts, Clauses, no_clauses, more_clauses, no_alt, alt,
}
use go_flux.Parser.State.{ParseError, test, skip_newlines}
use go_flux.Parser.Steps.{skip_newlines_none}
use go_flux.Parser.Pieces.{precedence, add_stmt}
use go_flux.Parser.Parse.{
  parse_body, parse_block, parse_block_items, parse_statement, parse_clauses,
}
use go_flux.Parser.Program.{parse_program, parse_program_round}
use go_flux.Parser.Printer.{mark, close_paren, body, last, size}
use go_flux.Parser.Source.{focus, feed, first}
use go_flux.Parser.Shapes.{body-starts_expression, is_nil-Printable, last-ne-eof}
use go_flux.Parser.RoundTrip.{expression_read, condition_read}
use go_flux.Parser.Listing.{
  line_end, close_brace, braces, stmt, stmts, clauses, other, PrintableStmt, PrintableBlock,
  PrintableClauses, PrintableAlt, stmt_size, block_size, clauses_size, alt_size,
}
use go_flux.Parser.StatementSteps.{
  block_step, body_step, body_enter, items_end, statements_step, block_statement,
  expression_statement, return_statement, return_nothing, while_statement, if_statement,
  if_else_statement, clauses_end, clauses_step, for_statement, function_statement,
}
use go_flux.Parser.Boundaries.{
  Calm, stmt-Starts, stmts-Calm, body-first_line, spend, behind, from_clauses, Settles,
  calm-Settles, line-Settles, behind-Settles, clauses-Settles,
}

module _ (es : List ParseError) where
  abbrev BlockReads : Block → Type 0
  BlockReads b =
      (rest : List Token) (f : ℕ)
      → block_size b ≤ f
      → parse_block_items feed f (focus es (stmts b (close_brace ∷ rest)))
        ≡ some (b, focus es (close_brace ∷ rest))

  braces_read :
      (b : Block)
      → PrintableBlock b
      → BlockReads b
      → (n : ℕ) (rest : List Token) (f : ℕ) → block_size b + 2 ≤ f
      → parse_block feed f (focus es (mark n l_brace ∷ stmts b (close_brace ∷ rest)))
        ≡ some (b, focus es rest)
  unfolding is
  braces_read b h r n rest zero l = absurd (omega arith)
  braces_read b h r n rest (suc zero) l = absurd (omega arith)
  braces_read b h r n rest (suc (suc f)) l =
      block_step es n f b (stmts b (close_brace ∷ rest)) rest
        (stmts-Calm b (close_brace ∷ rest) h (refl, refl, refl)).0 (r rest (suc f) (omega arith))

  body_read :
      (b : Block)
      → PrintableBlock b
      → BlockReads b
      → (rest : List Token) (f : ℕ) → block_size b + 3 ≤ f
      → parse_body feed f (focus es (braces (stmts b) rest)) ≡ some (b, focus es rest)
  body_read b h r rest zero l = absurd (omega arith)
  body_read b h r rest (suc zero) l = absurd (omega arith)
  body_read b h r rest (suc (suc f)) l =
      body_step es f b (stmts b (close_brace ∷ rest)) rest
        (braces_read b h r 0 rest (suc f) (omega arith))

  inner_body_read :
      (b : Block)
      → PrintableBlock b
      → BlockReads b
      → (rest : List Token) (f : ℕ) → block_size b + 3 ≤ f
      → parse_body feed f (focus es (close_paren ∷ braces (stmts b) rest)) ≡ some (b, focus es rest)
  inner_body_read b h r rest zero l = absurd (omega arith)
  inner_body_read b h r rest (suc zero) l = absurd (omega arith)
  inner_body_read b h r rest (suc (suc f)) l =
      body_enter es f b (stmts b (close_brace ∷ rest)) rest
        (braces_read b h r 0 rest (suc f) (omega arith))

  mutual
    unfolding stmt stmts clauses other PrintableStmt PrintableBlock PrintableClauses PrintableAlt
        stmt_size block_size clauses_size alt_size precedence is

    stmt_reads :
        (s : Stmt)
        → PrintableStmt s
        → (rest : List Token) → Calm rest
        → (f : ℕ) → stmt_size s ≤ f
        → parse_statement feed f (focus es (stmt s (line_end ∷ rest)))
          ≡ some (some s, focus es (behind s rest))
    stmt_reads (block_stmt n b) h rest c = spend _ _ (omega arith) λ f l.
        block_statement es n (suc f) b (stmts b (close_brace ∷ line_end ∷ rest)) (line_end ∷ rest)
          (braces_read b h (block_reads b h) n (line_end ∷ rest) (suc f) (omega arith))
    stmt_reads (expr_stmt n e) h rest c = spend _ _ (omega arith) λ f l.
        rw (h.0, sym (body-first_line e h.1 (line_end ∷ rest)))
          (expression_statement es f e (body e (line_end ∷ rest)) (last e) (line_end ∷ rest)
            (body-starts_expression e h.1 (line_end ∷ rest))
            (expression_read es e f (line_end ∷ rest) h.1 (omega arith) (omega arith))
            (last-ne-eof e h.1))
    stmt_reads (return_value n e) h rest c = spend _ _ (omega arith) λ f l.
        return_statement es n f e (body e (line_end ∷ rest)) (last e) (line_end ∷ rest)
          (body-starts_expression e h (line_end ∷ rest))
          (expression_read es e f (line_end ∷ rest) h (omega arith) (omega arith)) (last-ne-eof e h)
          (is_nil-Printable e h)
    stmt_reads (return_null n) h rest c = spend _ _ (omega arith) λ f l. return_nothing es n f rest
    stmt_reads (if_stmt n e b cs no_alt) (h, hb, hc, ha) rest c = spend _ _ (omega arith) λ f l.
        if_statement es n f e b cs
          (body e (close_paren ∷ braces (stmts b) (clauses cs (line_end ∷ rest))))
          (braces (stmts b) (clauses cs (line_end ∷ rest))) (clauses cs (line_end ∷ rest))
          (from_clauses cs (line_end ∷ rest) rest) rest
          (condition_read es e f (braces (stmts b) (clauses cs (line_end ∷ rest))) h (omega arith)
            (omega arith))
          (body_read b hb (block_reads b hb) (clauses cs (line_end ∷ rest)) f (omega arith))
          (clauses-Settles es cs (line_end ∷ rest) rest (line-Settles es rest c.0) f (omega arith))
          (clauses_read cs hc (line_end ∷ rest) rest (line-Settles es rest c.0) c.1 f (omega arith))
          c.2
    stmt_reads (if_stmt n e b cs (alt a)) (h, hb, hc, ha) rest c = spend _ _ (omega arith) λ f l.
        let us = other (alt a) (line_end ∷ rest) in
        if_else_statement es n f e b cs (body e (close_paren ∷ braces (stmts b) (clauses cs us)))
          (braces (stmts b) (clauses cs us)) (clauses cs us) (from_clauses cs us us) us
          (condition_read es e f (braces (stmts b) (clauses cs us)) h (omega arith) (omega arith))
          (body_read b hb (block_reads b hb) (clauses cs us) f (omega arith))
          (clauses-Settles es cs us us (calm-Settles es us refl) f (omega arith))
          (clauses_read cs hc us us (calm-Settles es us refl) refl f (omega arith)) a
          (braces (stmts a) (line_end ∷ rest)) (line_end ∷ rest) refl
          (body_read a ha (block_reads a ha) (line_end ∷ rest) f (omega arith))
    stmt_reads (while_stmt n e b) h rest c = spend _ _ (omega arith) λ f l.
        while_statement es n f e b (body e (close_paren ∷ braces (stmts b) (line_end ∷ rest)))
          (braces (stmts b) (line_end ∷ rest)) (line_end ∷ rest)
          (condition_read es e f (braces (stmts b) (line_end ∷ rest)) h.0 (omega arith)
            (omega arith))
          (body_read b h.1 (block_reads b h.1) (line_end ∷ rest) f (omega arith))
    stmt_reads (for_stmt n k v e b) h rest c = spend _ _ (omega arith) λ f l.
        for_statement es n f (size e + block_size b + 8) k v e b (last e)
          (body e (close_paren ∷ braces (stmts b) (line_end ∷ rest)))
          (braces (stmts b) (line_end ∷ rest)) (line_end ∷ rest)
          (λ g m. (
            expression_read es e g (close_paren ∷ braces (stmts b) (line_end ∷ rest)) h.0
                (omega arith) (omega arith),
            body_read b h.1 (block_reads b h.1) (line_end ∷ rest) g (omega arith),
            inner_body_read b h.1 (block_reads b h.1) (line_end ∷ rest) g (omega arith),
          ))
          (omega arith)
    stmt_reads (func_decl n x ps b) h rest c = spend _ _ (omega arith) λ f l.
        function_statement es n f x ps b (braces (stmts b) (line_end ∷ rest)) (line_end ∷ rest)
          (omega arith) (body_read b h (block_reads b h) (line_end ∷ rest) f (omega arith))
          (inner_body_read b h (block_reads b h) (line_end ∷ rest) f (omega arith))

    block_reads :
        (b : Block)
        → PrintableBlock b
        → (rest : List Token) (f : ℕ) → block_size b ≤ f
        → parse_block_items feed f (focus es (stmts b (close_brace ∷ rest)))
          ≡ some (b, focus es (close_brace ∷ rest))
    block_reads no_stmts h rest zero l = absurd (omega arith)
    block_reads no_stmts h rest (suc f) l = items_end es f rest
    block_reads (more_stmts s b) h rest zero l = absurd (omega arith)
    block_reads (more_stmts s b) h rest (suc f) l =
        let more = stmts b (close_brace ∷ rest) in
        let g = stmt-Starts s h.0 (line_end ∷ more) in
        let c = stmts-Calm b (close_brace ∷ rest) h.1 (refl, refl, refl) in
        statements_step es f s b (stmt s (line_end ∷ more)) (behind s more) more
          (close_brace ∷ rest) g.3 g.4 (stmt_reads s h.0 more c f (omega arith))
          (behind-Settles es s more c f (omega arith)) (block_reads b h.1 rest f (omega arith))

    clauses_read :
        (cs : Clauses)
        → PrintableClauses cs
        → (xs ys : List Token) → Settles es xs ys
        → is else_if (first ys).type ≡ false
        → (f : ℕ) → clauses_size cs ≤ f
        → parse_clauses feed f (focus es (from_clauses cs xs ys)) ≡ some ((cs, true), focus es ys)
    clauses_read no_clauses h xs ys g e zero l = absurd (omega arith)
    clauses_read no_clauses h xs ys g e (suc f) l = clauses_end es f ys e
    clauses_read (more_clauses c b cs) h xs ys g e zero l = absurd (omega arith)
    clauses_read (more_clauses c b cs) h xs ys g e (suc f) l =
        clauses_step es f c b cs (body c (close_paren ∷ braces (stmts b) (clauses cs xs)))
          (braces (stmts b) (clauses cs xs)) (clauses cs xs) (from_clauses cs xs ys) ys
          (condition_read es c f (braces (stmts b) (clauses cs xs)) h.0 (omega arith) (omega arith))
          (body_read b h.1 (block_reads b h.1) (clauses cs xs) f (omega arith))
          (clauses-Settles es cs xs ys g f (omega arith))
          (clauses_read cs h.2 xs ys g e f (omega arith))

  program_end : (f : ℕ) → 1 ≤ f → parse_program feed f (focus es []) ≡ some (no_stmts, focus es [])
  unfolding parse_program is
  program_end zero l = absurd (omega arith)
  program_end (suc f) l = refl

  program_step :
      (f : ℕ) (s : Stmt) (b : Block) (ts xs ys zs : List Token)
      → is newline (first ts).type ≡ false
      → is eof (first ts).type ≡ false
      → parse_statement feed (suc f) (focus es ts) ≡ some (some s, focus es xs)
      → skip_newlines feed (suc f) (focus es xs) ≡ some (tt, focus es ys)
      → parse_program feed (suc f) (focus es ys) ≡ some (b, focus es zs)
      → parse_program feed (suc (suc (suc f))) (focus es ts) ≡ some (more_stmts s b, focus es zs)
  unfolding parse_program_round add_stmt
  program_step f s b ts xs ys zs h e g k l =
      rw (parse_program, e, test, skip_newlines_none feed (suc f) (focus es ts) h, e, test, g, k, l)
        refl

  program_reads :
      (b : Block)
      → PrintableBlock b
      → (f : ℕ) → block_size b ≤ f
      → parse_program feed f (focus es (stmts b [])) ≡ some (b, focus es [])
  unfolding stmts PrintableBlock block_size is
  program_reads no_stmts h f l = program_end f (omega arith)
  program_reads (more_stmts s b) h zero l = absurd (omega arith)
  program_reads (more_stmts s b) h (suc zero) l = absurd (omega arith)
  program_reads (more_stmts s b) h (suc (suc zero)) l = absurd (omega arith)
  program_reads (more_stmts s b) h (suc (suc (suc f))) l =
      let more = stmts b [] in
      let g = stmt-Starts s h.0 (line_end ∷ more) in
      let c = stmts-Calm b [] h.1 (refl, refl, refl) in
      program_step f s b (stmt s (line_end ∷ more)) (behind s more) more [] g.0 g.4
        (stmt_reads s h.0 more c (suc f) (omega arith))
        (behind-Settles es s more c (suc f) (omega arith))
        (program_reads b h.1 (suc f) (omega arith))

-- With enough fuel, ParseProgram reads the tokens of a program, each statement followed by a
-- newline, as that program, up to the end of the input and without an error, if its expressions are
-- without nil nodes, function and object literals and empty arrays, their operators are those of
-- their kinds, and each expression that is a statement has that statement's line at its first
-- token.
pub parse_program-stmts :
    (b : Block) (f : ℕ)
    → PrintableBlock b
    → block_size b ≤ f
    → parse_program feed f (focus [] (stmts b [])) ≡ some (b, focus [] [])
parse_program-stmts b f h l = program_reads [] b h f l
