-- ===== src/Parser/Clean.antt =====
-- Trees without a nil node, and what a routine of internal/parser/parser.go ensures of the errors and
-- of its result.
use go_flux.Base.{
  ℕ, ◌≤◌, ◌≡◌, refl, Bool, true, false, Option, none, some, [], ◌∷◌, ◌++◌, length, length-append,
  Option-cases, inl, inr, arith,
}
use go_flux.Token.{TokenType, Token, Position}
use go_flux.Ast.{
  Expr, no_expr, array_literal, range_literal, object_literal, index, member, call, assign, binary,
  unary, func_expr, Exprs, no_exprs, more_exprs, Fields, no_fields, more_fields, Stmt, block_stmt,
  expr_stmt, return_value, return_null, if_stmt, while_stmt, for_stmt, func_decl, Block, no_stmts,
  more_stmts, Clauses, no_clauses, more_clauses, Alt, no_alt, alt,
}
use go_flux.Parser.State.{
  Parser, M, ParseError, Message, pure, bind_result, errorf, error_here, advance, peek_is,
  expected_next,
}
use go_flux.Parser.Pieces.{is_nil}

unfoldable mutual
  pub Clean : Expr → Type 0
  Clean no_expr = ⊥
  Clean (array_literal n es) = CleanAll es
  Clean (range_literal n a b) = Clean a × Clean b
  Clean (object_literal n fs) = CleanFields fs
  Clean (index n a b) = Clean a × Clean b
  Clean (member n a x) = Clean a
  Clean (call n c es) = Clean c × CleanAll es
  Clean (assign n t a b) = Clean a × Clean b
  Clean (binary n t a b) = Clean a × Clean b
  Clean (unary n t a) = Clean a
  Clean (func_expr n ps b) = CleanBlock b
  Clean _ = Unit

  pub CleanAll : Exprs → Type 0
  CleanAll no_exprs = Unit
  CleanAll (more_exprs e es) = Clean e × CleanAll es

  pub CleanFields : Fields → Type 0
  CleanFields no_fields = Unit
  CleanFields (more_fields k e fs) = Clean e × CleanFields fs

  pub CleanStmt : Stmt → Type 0
  CleanStmt (block_stmt n b) = CleanBlock b
  CleanStmt (expr_stmt n e) = Clean e
  CleanStmt (return_value n e) = Clean e
  CleanStmt (return_null n) = Unit
  CleanStmt (if_stmt n c b cs a) = Clean c × CleanBlock b × CleanClauses cs × CleanAlt a
  CleanStmt (while_stmt n c b) = Clean c × CleanBlock b
  CleanStmt (for_stmt n k v e b) = Clean e × CleanBlock b
  CleanStmt (func_decl n x ps b) = CleanBlock b

  pub CleanBlock : Block → Type 0
  CleanBlock no_stmts = Unit
  CleanBlock (more_stmts s b) = CleanStmt s × CleanBlock b

  pub CleanClauses : Clauses → Type 0
  CleanClauses no_clauses = Unit
  CleanClauses (more_clauses c b cs) = Clean c × CleanBlock b × CleanClauses cs

  pub CleanAlt : Alt → Type 0
  CleanAlt no_alt = Unit
  CleanAlt (alt b) = CleanBlock b

pub is_nil-Clean : (e : Expr) → Clean e → is_nil e ≡ false
unfolding is_nil Clean
is_nil-Clean no_expr h = absurd h
is_nil-Clean _ h = refl

-- From `n` errors on, where `C` holds: a routine that ends has no fewer, and if it has no more, its
-- result is as `P` says.
pub data Ensures {S A : Type 0} (n : ℕ) (C : Type 0) (P : A → Type 0)
    : Option (A × Parser S) → Type 0 where
  stopped : Ensures n C P none
  went :
      (a : A) (q : Parser S)
      → n ≤ length q.errors
      → (C → n ≡ length q.errors → P a)
      → Ensures n C P (some (a, q))

module _ {S : Type 0} where
  extend :
      {B : Type 0} {n m : ℕ} {C D : Type 0} {Q : B → Type 0} {r : Option (B × Parser S)}
      → Ensures m D Q r
      → n ≤ m
      → (C → n ≡ m → D)
      → Ensures n C Q r
  extend stopped l k = stopped
  extend (went b p h g) l k = went b p (omega arith) (λ c e. g (k c (omega arith)) (omega arith))

  pub bind-Ensures :
      {A B : Type 0} {n : ℕ} {C : Type 0} {P : A → Type 0} {Q : B → Type 0}
      {r : Option (A × Parser S)} {f : A → M S B}
      → Ensures n Unit P r
      → ((a : A) (q : Parser S) → Ensures (length q.errors) (C × P a) Q (f a q))
      → Ensures n C Q (bind_result r f)
  bind-Ensures stopped k = stopped
  bind-Ensures (went a q l h) k = extend (k a q) l (λ c e. (c, h tt e))

  pub weaken-Ensures :
      {A : Type 0} {n : ℕ} {C D : Type 0} {Q : A → Type 0} {r : Option (A × Parser S)}
      → (C → D)
      → Ensures n D Q r
      → Ensures n C Q r
  weaken-Ensures k stopped = stopped
  weaken-Ensures k (went a q l h) = went a q l (λ c. h (k c))

  pub assuming-Ensures :
      {A : Type 0} {n : ℕ} {D : Type 0} {Q : A → Type 0} {r : Option (A × Parser S)}
      → Ensures n D Q r
      → Ensures n Unit (λ a. D → Q a) r
  assuming-Ensures stopped = stopped
  assuming-Ensures (went a q l h) = went a q l (λ c e d. h d e)

  -- What a routine ensures on a condition, where the condition holds.
  pub given-Ensures :
      {A : Type 0} {n : ℕ} {C D : Type 0} {Q : A → Type 0} {r : Option (A × Parser S)}
      → (C → D)
      → Ensures n Unit (λ a. D → Q a) r
      → Ensures n C Q r
  given-Ensures k stopped = stopped
  given-Ensures k (went a q l h) = went a q l (λ c e. h tt e (k c))

  pub pure-Ensures :
      {A : Type 0} {C : Type 0} {Q : A → Type 0} {a : A} {p : Parser S}
      → (C → Q a)
      → Ensures (length p.errors) C Q (some (a, p))
  pure-Ensures {a = a} {p = p} h = went a p (omega arith) (λ c e. h c)

  pub test-Ensures :
      {A : Type 0} {n : ℕ} {C : Type 0} {Q : A → Type 0} (b : Bool) {x y : Option (A × Parser S)}
      → Ensures n C Q x
      → Ensures n C Q y
      → Ensures n C Q (elim b [ true ↦ x | false ↦ y ])
  test-Ensures true h g = h
  test-Ensures false h g = g

  -- A nil node is not there where the tree is clean.
  pub nil-Ensures :
      {A : Type 0} {C : Type 0} {Q : A → Type 0} (e : Expr) (a : A) (p : Parser S)
      {y : Option (A × Parser S)}
      → (C → Clean e)
      → Ensures (length p.errors) C Q y
      → Ensures (length p.errors) C Q (elim (is_nil e) [ true ↦ some (a, p) | false ↦ y ])
  unfolding is_nil Clean
  nil-Ensures Expr.no_expr a p h g = went a p (omega arith) (λ c l. absurd (h c))
  nil-Ensures _ a p h g = g

  pub error-Ensures :
      {C : Type 0} {Q : Unit {0} → Type 0} (at : Parser S → Position) (message : Parser S → Message)
      (p : Parser S)
      → Ensures (length p.errors) C Q (errorf at message p)
  unfolding errorf
  error-Ensures at message p =
      let e : ParseError = record { at = at p; message = message p } in
      let l = length-append {0} p.errors (e ∷ []) in
      went tt (record p { errors = p.errors ++ e ∷ [] }) (omega arith) (λ c e. absurd (omega arith))

  pub here-Ensures :
      {C : Type 0} {Q : Unit {0} → Type 0} (message : Message) (p : Parser S)
      → Ensures (length p.errors) C Q (error_here message p)
  here-Ensures message p = error-Ensures (λ q. q.cur.pos) (λ q. message) p

  -- An error, and a result behind it.
  pub failed-Ensures :
      {A : Type 0} {C : Type 0} {Q : A → Type 0} (message : Message) (a : A) (p : Parser S)
      → Ensures (length p.errors) C Q (bind_result (error_here message p) λ u. pure a)
  failed-Ensures message a p =
      bind-Ensures (error-Ensures {Q = λ _. ⊥} (λ q. q.cur.pos) (λ q. message) p)
        λ u q. pure-Ensures {a = a} {p = q} λ c. absurd c.1

  -- `expecting`, opened
  pub expecting-Ensures :
      {A : Type 0} {C : Type 0} {Q : A → Type 0} (t : TokenType) (a : A) (p : Parser S)
      {x : Option (A × Parser S)}
      → Ensures (length p.errors) C Q x
      → Ensures (length p.errors) C Q (elim (peek_is t p) [
        | true ↦ x
        | false ↦
            bind_result
              (errorf (λ q. q.peek.pos) (λ q. expected_next t q.peek.type) p)
              (λ u. pure a)
      ])
  expecting-Ensures t a p h = test-Ensures (peek_is t p) h (
      bind-Ensures
        (error-Ensures {Q = λ _. ⊥} (λ q. q.peek.pos) (λ q. expected_next t q.peek.type) p)
        λ u q. pure-Ensures {a = a} {p = q} λ c. absurd c.1)

  module _ (next : S → Option (Token × S)) where
    pub advance-Ensures :
        (p : Parser S)
        → Ensures (length p.errors) Unit (λ (_ : Unit {0}). Unit {0}) (advance next p)
    unfolding advance
    advance-Ensures p = elim (Option-cases (next p.lexer)) [
      | inl e ↦ rw (e, advance) stopped
      | inr (ts, e) ↦ rw (e, advance) (went tt _ (omega arith) (λ c l. tt))
    ]
