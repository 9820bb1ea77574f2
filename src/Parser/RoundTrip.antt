-- ===== src/Parser/RoundTrip.antt =====
-- internal/parser/parser.go: a printed expression and what parseExpression reads.
use go_flux.Base.{ℕ, zero, suc, ◌+◌, ◌≤◌, ◌<◌, ◌≡◌, refl, true, false, some, List, ◌∷◌, arith}
use go_flux.Token.{TokenType, r_paren, r_bracket, l_paren, l_bracket, dot, range, Token, is}
use go_flux.Ast.{
  Expr, no_expr, identifier, number_literal, string_literal, bool_literal, null_literal,
  array_literal, range_literal, object_literal, index, member, call, binary, unary, func_expr,
  Exprs, no_exprs, more_exprs,
}
use go_flux.Parser.State.{ParseError}
use go_flux.Parser.Pieces.{precedence, is_nil}
use go_flux.Parser.Parse.{
  parse_expression, parse_operand, parse_elements, parse_expression_list, parse_list_rest,
}
use go_flux.Parser.Printer.{
  mark, token, open_paren, close_paren, strength, body, items, more_items, print, last, last_of,
  last_item, Printable, AllPrintable, size, size_all,
}
use go_flux.Parser.Source.{focus, feed, first, read_whole}
use go_flux.Parser.Shapes.{
  is_nil-Printable, precedence-infix, precedence-assign, Follows, body-Opens,
}
use go_flux.Parser.Operators.{
  infix_step, assign_step, index_step, prefix_step, call_step, member_step, array_step, range_step,
  elements_end, elements_step, list_end, items_step, list_step, arguments_step, arguments_end,
}
use go_flux.Parser.Reading.{
  BodyReads, parens-ReadsAt, print-Reads, left-Reads, operand-Reads, atom-Reads, more_items-ends,
  more_items-range, body_whole,
}

module _ (es : List ParseError) where
  mutual
    unfolding Printable AllPrintable body items more_items last last_item strength size size_all
        is_nil parse_operand precedence is

    body_reads : (e : Expr) → Printable e → BodyReads es e
    body_reads no_expr h p k f rest a b c d = absurd h
    body_reads (identifier n x) h p k f rest a b c d =
        atom-Reads es (identifier n x) (token n TokenType.ident x) p k f rest (λ g. refl) refl d
    body_reads (Expr.variable n x) h p k f rest a b c d =
        atom-Reads es (Expr.variable n x) (token n TokenType.variable x) p k f rest (λ g. refl) refl
          d
    body_reads (number_literal n x) h p k f rest a b c d =
        atom-Reads es (number_literal n x) (token n TokenType.number x) p k f rest (λ g. refl) refl
          d
    body_reads (string_literal n x) h p k f rest a b c d =
        atom-Reads es (string_literal n x) (token n TokenType.string x) p k f rest (λ g. refl) refl
          d
    body_reads (bool_literal n true) h p k f rest a b c d =
        atom-Reads es (bool_literal n true) (mark n TokenType.true_kw) p k f rest (λ g. refl) refl d
    body_reads (bool_literal n false) h p k f rest a b c d =
        atom-Reads es (bool_literal n false) (mark n TokenType.false_kw) p k f rest (λ g. refl) refl
          d
    body_reads (null_literal n) h p k f rest a b c d =
        atom-Reads es (null_literal n) (mark n TokenType.null) p k f rest (λ g. refl) refl d
    body_reads (object_literal n fs) h p k f rest a b c d = absurd h
    body_reads (func_expr n ps block) h p k f rest a b c d = absurd h
    body_reads (array_literal n no_exprs) h p k f rest a b c d = absurd h
    body_reads (array_literal n (more_exprs e args)) (h, hs) p k f rest a b c d =
        operand-Reads es (array_literal n (more_exprs e args)) p k (size e + size_all args + 2) f
          (mark n l_bracket) (mark 0 r_bracket) (body e (more_items args (mark 0 r_bracket ∷ rest)))
          rest
          (λ g l.
            array_step es n g e args (body e (more_items args (mark 0 r_bracket ∷ rest)))
              (more_items args (mark 0 r_bracket ∷ rest)) rest (last e) (last_item (last e) args)
              (body-Opens e h (more_items args (mark 0 r_bracket ∷ rest))).1
              (body_whole es e g (more_items args (mark 0 r_bracket ∷ rest)) h (body_reads e h)
                (more_items-ends es args (mark 0 r_bracket) rest (omega arith)) (omega arith))
              (more_items-range es args 0 rest)
              (elements_read args hs g (last e) rest (omega arith)) (omega arith))
          refl (omega arith)
    body_reads (range_literal n x y) (h, hs) p k f rest a b c d =
        operand-Reads es (range_literal n x y) p k (size x + size y + 2) f (mark n l_bracket)
          (mark 0 r_bracket) (body x (mark 0 range ∷ body y (mark 0 r_bracket ∷ rest))) rest
          (λ g l.
            range_step es n g (size y + 1) x y
              (body x (mark 0 range ∷ body y (mark 0 r_bracket ∷ rest)))
              (body y (mark 0 r_bracket ∷ rest)) rest (last x) (last y)
              (body-Opens x h (mark 0 range ∷ body y (mark 0 r_bracket ∷ rest))).1
              (body_whole es x g (mark 0 range ∷ body y (mark 0 r_bracket ∷ rest)) h
                (body_reads x h) (omega arith) (omega arith))
              (λ j m.
                body_whole es y j (mark 0 r_bracket ∷ rest) hs (body_reads y hs) (omega arith) m)
              (omega arith))
          refl (omega arith)
    body_reads (index n x y) (h, hs) p k f rest a b c d =
        left-Reads es 10 x (index n x y) p k (size y + 1) f (mark n l_bracket) (mark 0 r_bracket)
          (body y (mark 0 r_bracket ∷ rest)) rest (print-Reads es 10 x h (body_reads x h))
          (λ g l.
            index_step es n (body y (mark 0 r_bracket ∷ rest)) x g y (last y) rest
              (body_whole es y g (mark 0 r_bracket ∷ rest) hs (body_reads y hs) (omega arith) l))
          refl a b b (omega arith) (omega arith)
    body_reads (member n x i) h p k f rest a b c d =
        left-Reads es 10 x (member n x i) p k 0 f (mark n dot) (token 0 TokenType.ident i)
          (token 0 TokenType.ident i ∷ rest) rest (print-Reads es 10 x h (body_reads x h))
          (λ g l. member_step es n g x i rest) refl a b b (omega arith) (omega arith)
    body_reads (call n x args) (h, hs) p k f rest a b c d =
        left-Reads es 10 x (call n x args) p k (size_all args + 3) f (mark n l_paren) close_paren
          (items args (close_paren ∷ rest)) rest (print-Reads es 10 x h (body_reads x h))
          (λ g l.
            call_step es n (items args (close_paren ∷ rest)) x g args rest
              (arguments_read args hs g rest l))
          refl a b b (omega arith) (omega arith)
    body_reads (Expr.assign n t x y) (i, h, hs) p k f rest a b c d =
        left-Reads es 3 x (Expr.assign n t x y) p k (size y + 1) f (mark n t) (last y) (body y rest)
          rest (print-Reads es 3 x h (body_reads x h))
          (λ g l.
            assign_step es n (body y rest) x g y (last y) rest t i
              (body_whole es y g rest hs (body_reads y hs) c l))
          refl a (omega arith) (omega (arith, precedence-assign t i))
          (ground (arith, precedence-assign t i)) (omega arith)
    body_reads (binary n t x y) (i, h, hs) p k f rest a b c d =
        let (lo, hi) = precedence-infix t i in
        left-Reads es (precedence t) x (binary n t x y) p k (size y + 4) f (mark n t)
          (last_of (precedence t + 1) y) (print (precedence t + 1) y rest) rest
          (print-Reads es (precedence t) x h (body_reads x h))
          (λ g l.
            infix_step es n (print (precedence t + 1) y rest) x g y (last_of (precedence t + 1) y)
              rest t i (is_nil-Printable y hs)
              (read_whole es (precedence t) g (print (precedence t + 1) y rest) y
                (last_of (precedence t + 1) y) rest
                (print-Reads es (precedence t + 1) y hs (body_reads y hs) (precedence t) 1 g rest
                  (omega arith) (omega arith) (ground arith) (omega arith))
                (ground arith)))
          refl a b b (ground arith) (omega arith)
    body_reads (unary n t x) (i, h) p k f rest a b c d =
        operand-Reads es (unary n t x) p k (size x + 4) f (mark n t) (last_of 10 x)
          (print 10 x rest) rest
          (λ g l.
            prefix_step es n (print 10 x rest) g x (last_of 10 x) rest t i (is_nil-Printable x h) (
              read_whole es 9 g (print 10 x rest) x (last_of 10 x) rest
                (print-Reads es 10 x h (body_reads x h) 9 1 g rest (omega arith) (omega arith)
                  (omega arith) (omega arith))
                c))
          refl (omega arith)

    arguments_read :
        (args : Exprs)
        → AllPrintable args
        → (f : ℕ) (rest : List Token) → size_all args + 3 ≤ f
        → parse_expression_list feed f r_paren (focus es (items args (close_paren ∷ rest)))
          ≡ some (args, focus es (close_paren ∷ rest))
    arguments_read args h zero rest l = absurd (omega arith)
    arguments_read no_exprs h (suc f) rest l = arguments_end es f rest
    arguments_read (more_exprs e args) h (suc zero) rest l = absurd (omega arith)
    arguments_read (more_exprs e args) h (suc (suc f)) rest l =
        arguments_step es (suc f) (more_exprs e args)
          (body e (more_items args (close_paren ∷ rest))) (close_paren ∷ rest)
          (body-Opens e h.0 (more_items args (close_paren ∷ rest))).0
          (items_step es f (last e) e args (body e (more_items args (close_paren ∷ rest)))
            (more_items args (close_paren ∷ rest)) (close_paren ∷ rest)
            (body_whole es e f (more_items args (close_paren ∷ rest)) h.0 (body_reads e h.0)
              (more_items-ends es args close_paren rest (omega arith)) (omega arith))
            (is_nil-Printable e h.0) (list_read args h.1 f (last e) rest (omega arith)))

    list_read :
        (args : Exprs)
        → AllPrintable args
        → (f : ℕ) (z : Token) (rest : List Token) → size_all args ≤ f
        → parse_list_rest feed f r_paren (focus es (z ∷ more_items args (close_paren ∷ rest)))
          ≡ some (args, focus es (close_paren ∷ rest))
    list_read no_exprs h zero z rest l = absurd (omega arith)
    list_read no_exprs h (suc f) z rest l = list_end es f z rest
    list_read (more_exprs e args) h zero z rest l = absurd (omega arith)
    list_read (more_exprs e args) h (suc zero) z rest l = absurd (omega arith)
    list_read (more_exprs e args) h (suc (suc f)) z rest l =
        list_step es (suc f) z (more_exprs e args) (body e (more_items args (close_paren ∷ rest)))
          (close_paren ∷ rest) (body-Opens e h.0 (more_items args (close_paren ∷ rest))).0
          (items_step es f (last e) e args (body e (more_items args (close_paren ∷ rest)))
            (more_items args (close_paren ∷ rest)) (close_paren ∷ rest)
            (body_whole es e f (more_items args (close_paren ∷ rest)) h.0 (body_reads e h.0)
              (more_items-ends es args close_paren rest (omega arith)) (omega arith))
            (is_nil-Printable e h.0) (list_read args h.1 f (last e) rest (omega arith)))

    elements_read :
        (args : Exprs)
        → AllPrintable args
        → (f : ℕ) (z : Token) (rest : List Token) → size_all args ≤ f
        → parse_elements feed f (focus es (z ∷ more_items args (mark 0 r_bracket ∷ rest)))
          ≡ some (args, focus es (last_item z args ∷ mark 0 r_bracket ∷ rest))
    elements_read no_exprs h zero z rest l = absurd (omega arith)
    elements_read no_exprs h (suc f) z rest l = elements_end es f z rest
    elements_read (more_exprs e args) h zero z rest l = absurd (omega arith)
    elements_read (more_exprs e args) h (suc f) z rest l =
        elements_step es f z (last e) (last_item (last e) args) e args
          (body e (more_items args (mark 0 r_bracket ∷ rest)))
          (more_items args (mark 0 r_bracket ∷ rest)) (mark 0 r_bracket ∷ rest)
          (body-Opens e h.0 (more_items args (mark 0 r_bracket ∷ rest))).1
          (body_whole es e f (more_items args (mark 0 r_bracket ∷ rest)) h.0 (body_reads e h.0)
            (more_items-ends es args (mark 0 r_bracket) rest (omega arith)) (omega arith))
          (elements_read args h.1 f (last e) rest (omega arith))

-- Where any expression may stand, in parentheses or not.
module _ (es : List ParseError) (e : Expr) (f : ℕ) (rest : List Token) (h : Printable e) where
  pub expression_read :
      precedence (first rest).type ≤ 1
      → size e + 1 ≤ f
      → parse_expression feed f 1 (focus es (body e rest)) ≡ some (e, focus es (last e ∷ rest))
  expression_read = body_whole es e f rest h (body_reads es e h)

  pub condition_read :
      precedence (first rest).type ≤ 1
      → size e + 4 ≤ f
      → parse_expression feed f 1 (focus es (open_paren ∷ body e (close_paren ∷ rest)))
        ≡ some (e, focus es (close_paren ∷ rest))
  condition_read l s =
      read_whole es 1 f (open_paren ∷ body e (close_paren ∷ rest)) e close_paren rest
        (parens-ReadsAt es e 1 1 f rest h (body_reads es e h) (omega arith)) l

-- With enough fuel, an expression without nil nodes, function and object literals and empty arrays,
-- whose operators are those of their kinds, is read back as printed for a place of precedence m at
-- each precedence below m, up to its last token, if what follows it there is no operator that
-- belongs to it: none above that precedence, and none tighter than m (behind a place for any
-- expression, none at all).
pub parse_expression-print :
    (e : Expr) (p m f : ℕ) (es : List ParseError) (rest : List Token)
    → Printable e
    → 1 ≤ p
    → p < m
    → Follows m rest
    → precedence (first rest).type ≤ p
    → size e + 4 ≤ f
    → parse_expression feed f p (focus es (print m e rest))
      ≡ some (e, focus es (last_of m e ∷ rest))
parse_expression-print e p m f es rest h k l g o s =
    read_whole es p f (print m e rest) e (last_of m e) rest
      (print-Reads es m e h (body_reads es e h) p 1 f rest k l g (omega arith)) o
