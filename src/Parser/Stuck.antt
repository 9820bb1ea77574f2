-- ===== src/Parser/Stuck.antt =====
-- internal/parser/parser.go: a statement whose keyword is not followed by what it needs.
use go_flux.Base.{
  ℕ, zero, suc, ◌≡◌, refl, Bool, true, false, not, Option, none, some, Bool-cases, inl, inr,
}
use go_flux.Token.{
  TokenType, newline, eof, ident, if_kw, while_kw, for_kw, func, l_paren, Token, is,
}
use go_flux.Ast.{Stmt}
use go_flux.Parser.Pieces.{add_stmt}
use go_flux.Parser.State.{
  bind_result, test, pure, ◌>>=◌, ◌>>◌, Parser, M, expecting, peek_is, skip_newlines,
}
use go_flux.Parser.Steps.{test-false, skip_newlines_none}
use go_flux.Parser.Parse.{parse_statement, parse_statement_at}
use go_flux.Parser.Program.{parse_program, parse_program_round}

-- A keyword, and what does not belong behind it.
abbrev pub lacks_head : TokenType → TokenType → Bool
lacks_head if_kw u = not (is l_paren u)
lacks_head while_kw u = not (is l_paren u)
lacks_head for_kw u = not (is l_paren u)
lacks_head func u = not (is ident u)
lacks_head _ u = false

head-ne-newline : (t u : TokenType) → lacks_head t u ≡ true → is newline t ≡ false
unfolding is
head-ne-newline if_kw u h = refl
head-ne-newline newline u h = cc
head-ne-newline _ u h = refl

head-ne-eof : (t u : TokenType) → lacks_head t u ≡ true → is eof t ≡ false
unfolding is
head-ne-eof if_kw u h = refl
head-ne-eof eof u h = cc
head-ne-eof _ u h = refl

module _ {S : Type 0} where
  -- A statement that is not there, and the parser where it was.
  abbrev pub Stays : Parser S → Option (Option Stmt × Parser S) → Type 0
  Stays p none = Unit
  Stays p (some (none, q)) = (q.cur ≡ p.cur) × (q.peek ≡ p.peek)
  Stays p (some (some s, q)) = ⊥

  expecting-Stays :
      (t : TokenType) (m : M S (Option Stmt)) (p : Parser S)
      → not (is t p.peek.type) ≡ true
      → Stays p (expecting t none m p)
  unfolding expecting
  expecting-Stays t m p h = elim (Bool-cases (peek_is t p)) [
    | inl e ↦ cc
    | inr e ↦ rw (test-false (peek_is t) m _ p e) (refl, refl)
  ]

  module _ (next : S → Option (Token × S)) where
    statement_at-Stays :
        (f : ℕ) (t : TokenType) (p : Parser S)
        → lacks_head t p.peek.type ≡ true
        → Stays p (parse_statement_at next f t p)
    unfolding parse_statement_at
    statement_at-Stays zero t p h = tt
    statement_at-Stays (suc zero) if_kw p h = tt
    statement_at-Stays (suc zero) while_kw p h = tt
    statement_at-Stays (suc zero) for_kw p h = tt
    statement_at-Stays (suc zero) func p h = tt
    statement_at-Stays (suc (suc f)) if_kw p h = expecting-Stays l_paren _ p h
    statement_at-Stays (suc (suc f)) while_kw p h = expecting-Stays l_paren _ p h
    statement_at-Stays (suc (suc f)) for_kw p h = expecting-Stays l_paren _ p h
    statement_at-Stays (suc (suc f)) func p h = expecting-Stays ident _ p h
    statement_at-Stays (suc f) _ p h = cc

    statement-Stays :
        (f : ℕ) (p : Parser S)
        → lacks_head p.cur.type p.peek.type ≡ true
        → Stays p (parse_statement next f p)
    unfolding parse_statement
    statement-Stays zero p h = tt
    statement-Stays (suc f) p h = statement_at-Stays f p.cur.type p h

    -- What comes behind a statement that stays, if the parser can do nothing there.
    after_statement :
        (f : ℕ) (p : Parser S)
        → lacks_head p.cur.type p.peek.type ≡ true
        → ((q : Parser S)
            → lacks_head q.cur.type q.peek.type ≡ true
            → parse_program next f q ≡ none)
        → (r : Option (Option Stmt × Parser S)) → Stays p r
        → bind_result r
            (λ s. skip_newlines next f >> (parse_program next f >>= λ rest. pure (add_stmt s rest)))
          ≡ none
    unfolding skip_newlines
    after_statement f p h k none g = refl
    after_statement zero p h k (some (s, q)) g = refl
    after_statement (suc f) p h k (some (none, q)) (c, d) =
        let e : lacks_head q.cur.type q.peek.type ≡ true = rw (c, d) h in
        rw (skip_newlines_none next f q (head-ne-newline q.cur.type q.peek.type e), k q e) refl
    after_statement (suc f) p h k (some (some s, q)) g = absurd g

    mutual
      unfolding parse_program parse_program_round skip_newlines

      program_none :
          (f : ℕ) (p : Parser S)
          → lacks_head p.cur.type p.peek.type ≡ true
          → parse_program next f p ≡ none
      program_none zero p h = refl
      program_none (suc zero) p h = rw (head-ne-eof p.cur.type p.peek.type h, test) refl
      program_none (suc (suc f)) p h =
          let e = head-ne-eof p.cur.type p.peek.type h in
          rw
            (
              e,
              test,
              skip_newlines_none next f p (head-ne-newline p.cur.type p.peek.type h),
              e,
              test,
            )
            (round_none (suc f) p h)

      round_none :
          (f : ℕ) (p : Parser S)
          → lacks_head p.cur.type p.peek.type ≡ true
          → parse_program_round next f p ≡ none
      round_none zero p h = refl
      round_none (suc f) p h =
          after_statement f p h (program_none f) (parse_statement next f p) (statement-Stays f p h)

    -- Where a statement begins with a keyword that is not followed by what it needs (`if`, `while`
    -- and `for` by a parenthesis, `func` by a name), ParseProgram does not return, whatever the
    -- number of its rounds.
    pub parse_program_stuck :
        (f : ℕ) (p : Parser S)
        → lacks_head p.cur.type p.peek.type ≡ true
        → parse_program next f p ≡ none
    parse_program_stuck f p h = program_none f p h
