-- ===== src/Parser/Safety.antt =====
-- internal/parser/parser.go: the tree that ParseProgram gives, and its errors.
use go_flux.Base.{ℕ, zero, suc, length, Option, none, some, some-injective, ◌≤◌, ◌≡◌, sym, ap, []}
use go_flux.Token.{Token, eof}
use go_flux.Ast.{Block}
use go_flux.Parser.State.{Parser, cur_is}
use go_flux.Parser.Program.{filled, started, new_parser, parse_program, parse_program_round}
use go_flux.Parser.Clean.{
  CleanBlock, Ensures, stopped, went, bind-Ensures, weaken-Ensures, pure-Ensures, test-Ensures,
}
use go_flux.Parser.Sound.{Sound, skip_newlines-Sound}
use go_flux.Parser.Trees.{statement-Sound, add_stmt-Clean}

module _ {S : Type 0} where
  errors_kept :
      {A : Type 0} {n : ℕ} {P : A → Type 0} {a : A} {q : Parser S}
      → Ensures n Unit P (some (a, q))
      → (n ≤ length q.errors) × (n ≡ length q.errors → P a)
  errors_kept (went a q l h) = (l, h tt)

  module _ (next : S → Option (Token × S)) where
    mutual
      unfolding parse_program parse_program_round CleanBlock

      program-Sound : (f : ℕ) → Sound CleanBlock (parse_program next f)
      program-Sound zero p = stopped
      program-Sound (suc f) p = test-Ensures (cur_is eof p) (pure-Ensures λ c. tt) (
          bind-Ensures (skip_newlines-Sound next f p) λ u q.
            test-Ensures (cur_is eof q) (pure-Ensures λ c. tt)
              (weaken-Ensures (λ c. tt) (round-Sound f q)))

      round-Sound : (f : ℕ) → Sound CleanBlock (parse_program_round next f)
      round-Sound zero p = stopped
      round-Sound (suc f) p = bind-Ensures (statement-Sound next f p) λ s q.
          bind-Ensures (skip_newlines-Sound next f q) λ u q.
            bind-Ensures (program-Sound f q)
              λ rest q. pure-Ensures λ c. add_stmt-Clean s rest c.0.0.1 c.1

    -- When ParseProgram returns, it has lost none of the errors that were there, and if there are no
    -- more of them, then no expression in the tree that it returns is nil.
    pub parse_program-CleanBlock :
        (f : ℕ) (p q : Parser S) (b : Block)
        → parse_program next f p ≡ some (b, q)
        → (length p.errors ≤ length q.errors) × (length p.errors ≡ length q.errors → CleanBlock b)
    parse_program-CleanBlock f p q b h = errors_kept (rw h at (program-Sound f p))

    pub new_parser-errors : (l : S) (p : Parser S) → new_parser next l ≡ some p → p.errors ≡ []
    unfolding new_parser started filled
    new_parser-errors l p e = begins (next l) e
      where
        fills : (t : Token) (u : Option (Token × S)) → filled next t u ≡ some p → p.errors ≡ []
        fills t none e = cc
        fills t (some (u, s)) e = sym (ap (λ (q : Parser S). q.errors) (some-injective e))

        begins : (r : Option (Token × S)) → started next r ≡ some p → p.errors ≡ []
        begins none e = cc
        begins (some (t, s)) e = fills t (next s) e
