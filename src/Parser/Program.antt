-- ===== src/Parser/Program.antt =====
-- internal/parser/parser.go: `New` and `ParseProgram`.
use go_flux.Base.{ℕ, zero, suc, Option, none, some, []}
use go_flux.Token.{eof, Token}
use go_flux.Ast.{Block, no_stmts}
use go_flux.Parser.State.{Parser, M, pure, ◌>>=◌, ◌>>◌, test, cur_is, skip_newlines}
use go_flux.Parser.Pieces.{add_stmt}
use go_flux.Parser.Parse.{parse_statement}

module _ {S : Type 0} (next : S → Option (Token × S)) where
  unfoldable pub filled : Token → Option (Token × S) → Option (Parser S)
  filled t none = none
  filled t (some (u, s)) = some (record { lexer = s; cur = t; peek = u; errors = [] })

  unfoldable pub started : Option (Token × S) → Option (Parser S)
  unfolding filled
  started none = none
  started (some (t, s)) = filled t (next s)

  -- `New`
  unfoldable pub new_parser : S → Option (Parser S)
  unfolding started
  new_parser s = started (next s)

  unfoldable mutual
    -- `ParseProgram`, and a round of its loop that does not stop at the first newlines
    pub parse_program : ℕ → M S Block
    parse_program zero p = none
    parse_program (suc f) p =
        test (cur_is eof) (pure no_stmts)
          (do skip_newlines next f; test (cur_is eof) (pure no_stmts) (parse_program_round f)) p

    pub parse_program_round : ℕ → M S Block
    parse_program_round zero p = none
    parse_program_round (suc f) p =
        (do
          s ← parse_statement next f
          skip_newlines next f
          rest ← parse_program f
          pure (add_stmt s rest))
          p
