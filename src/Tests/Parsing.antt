-- ===== src/Tests/Parsing.antt =====
-- The theorems of the parser at concrete inputs.
use go_flux.Base.{length, ◌≤◌, ◌≡◌, refl, none, some, List, [], ◌∷◌, codes, arith, true}
use go_flux.Token.{less, define, TokenType, if_kw, plus, star, minus, Token, is}
use go_flux.Ast.{
  bool_literal, expr_stmt, return_null, if_stmt, while_stmt, for_stmt, func_decl, Block, no_stmts,
  more_stmts, no_clauses, more_clauses, alt, Expr, identifier, number_literal, call, member, binary,
  unary, array_literal, no_exprs, more_exprs,
}
use go_flux.Parser.State.{Parser, ParseError}
use go_flux.Parser.Pieces.{precedence}
use go_flux.Parser.Parse.{parse_expression}
use go_flux.Parser.Program.{parse_program}
use go_flux.Parser.Stuck.{parse_program_stuck}
use go_flux.Parser.Printer.{
  token, mark, print, last_of, size, Printable, is_infix, is_assign, is_prefix,
}
use go_flux.Parser.Source.{focus, feed}
use go_flux.Parser.Listing.{stmts, PrintableBlock, block_size}
use go_flux.Parser.Safety.{parse_program-CleanBlock}
use go_flux.Parser.Clean.{CleanBlock}
use go_flux.Parser.Statements.{parse_program-stmts}
use go_flux.Parser.RoundTrip.{parse_expression-print}

-- `if x`
abbrev if_x : Parser (List Token)
if_x = focus [] (mark 1 if_kw ∷ token 1 TokenType.ident (codes "x") ∷ [])

parse_program_stuck_example : parse_program feed 1000 if_x ≡ none
parse_program_stuck_example = parse_program_stuck feed 1000 if_x (unfold is in refl)

-- `(1 - 2) * -f(3, [4]).g`
abbrev three_four : Expr
three_four = call 1 (identifier 1 (codes "f")) (
    more_exprs (number_literal 1 (codes "3"))
      (more_exprs (array_literal 1 (more_exprs (number_literal 1 (codes "4")) no_exprs)) no_exprs))

abbrev product : Expr
product =
    binary 1 star (binary 1 minus (number_literal 1 (codes "1")) (number_literal 1 (codes "2")))
      (unary 1 minus (member 1 three_four (codes "g")))

parse_expression-print_example :
    parse_expression feed 500 7 (focus [] (print 8 product (mark 1 plus ∷ [])))
    ≡ some (product, focus [] (last_of 8 product ∷ mark 1 plus ∷ []))
parse_expression-print_example =
    parse_expression-print product 7 8 500 [] (mark 1 plus ∷ [])
      (unfold Printable is_infix is_prefix in
        (refl, (refl, tt, tt), (refl, (tt, (tt, ((tt, tt), tt))))))
      (omega arith) (omega arith) (unfold precedence in omega arith)
      (unfold precedence in omega arith) (unfold size in omega arith)

-- if (1 < 2) { return } elseif (f(3, [4])) { $x := 1 } else { while (true) { } }
-- for ([$k, $v] in f(3, [4])) { func g($a, $b) { } }
abbrev listing : Block
listing =
    more_stmts
      (if_stmt 1 (binary 1 less (number_literal 1 (codes "1")) (number_literal 1 (codes "2")))
        (more_stmts (return_null 1) no_stmts)
        (more_clauses three_four
          (more_stmts
            (expr_stmt 1
              (Expr.assign 1 define (Expr.variable 1 (codes "x")) (number_literal 1 (codes "1"))))
            no_stmts)
          no_clauses)
        (alt (more_stmts (while_stmt 1 (bool_literal 1 true) no_stmts) no_stmts)))
      (more_stmts
        (for_stmt 2 (codes "k") (codes "v") three_four
          (more_stmts (func_decl 2 (codes "g") (codes "a" ∷ codes "b" ∷ []) no_stmts) no_stmts))
        no_stmts)

listing_printable : PrintableBlock listing
unfolding PrintableBlock Printable is_infix is_assign
listing_printable = ground arith

parse_program-stmts_example :
    parse_program feed 1000 (focus [] (stmts listing [])) ≡ some (listing, focus [] [])
parse_program-stmts_example =
    parse_program-stmts listing 1000 listing_printable (unfold block_size in omega arith)

parse_program-CleanBlock_example :
    (length {A = ParseError} [] ≤ length {A = ParseError} [])
    × (length {A = ParseError} [] ≡ length {A = ParseError} [] → CleanBlock listing)
parse_program-CleanBlock_example =
    parse_program-CleanBlock feed 1000 (focus [] (stmts listing [])) (focus [] []) listing
      (parse_program-stmts listing 1000 listing_printable (unfold block_size in omega arith))
