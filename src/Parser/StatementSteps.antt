-- ===== src/Parser/StatementSteps.antt =====
-- internal/parser/parser.go: what each statement's routine makes of its parts, over a list of tokens.
use go_flux.Base.{
  ℕ, zero, suc, ◌+◌, ◌≤◌, ◌<◌, Bool-cases, inl, inr, ◌≡◌, refl, true, false, Option, some, List, [],
  ◌∷◌, Bytes, arith, length,
}
use go_flux.Token.{
  TokenType, newline, eof, ident, if_kw, else_if, else_kw, while_kw, for_kw, in_kw, func, return_kw,
  r_paren, l_brace, r_brace, Token, is,
}
use go_flux.Ast.{
  Expr, Stmt, block_stmt, expr_stmt, return_value, return_null, if_stmt, while_stmt, for_stmt,
  func_decl, Block, no_stmts, more_stmts, Clauses, no_clauses, more_clauses, no_alt, alt,
}
use go_flux.Parser.State.{
  Parser, ParseError, test, advance, expecting, skip_newlines, advance_unless_eof, enter_block,
  consume_rparen,
}
use go_flux.Parser.Steps.{skip_newlines_none}
use go_flux.Parser.Pieces.{
  is_nil, lowest, ends_statement, return_stmt, add_stmt, parse_for_binding, more_params,
  parse_param_list,
}
use go_flux.Parser.Parse.{
  parse_expression, parse_body, parse_block, parse_block_items, parse_statement, parse_statement_at,
  parse_return, parse_if, parse_clauses, parse_while, parse_for, parse_for_rest, parse_func_decl,
  parse_expr_statement,
}
use go_flux.Parser.Printer.{token, mark, open_paren, close_paren}
use go_flux.Parser.Source.{focus, feed, first, tail}
use go_flux.Parser.Shapes.{starts_expression}
use go_flux.Parser.Listing.{
  line_end, close_brace, binding, variable_token, parameters, more_parameters,
}

statement_at-expression :
    {S : Type 0} (next : S → Option (Token × S)) (f : ℕ) (t : TokenType) (p : Parser S)
    → starts_expression t ≡ true
    → parse_statement_at next (suc f) t p ≡ parse_expr_statement next f p
unfolding parse_statement_at starts_expression
statement_at-expression next f func p h = cc
statement_at-expression next f return_kw p h = cc
statement_at-expression next f if_kw p h = cc
statement_at-expression next f while_kw p h = cc
statement_at-expression next f for_kw p h = cc
statement_at-expression next f l_brace p h = cc
statement_at-expression next f _ p h = refl

starts-ends_statement : (t : TokenType) → starts_expression t ≡ true → ends_statement t ≡ false
unfolding starts_expression ends_statement
starts-ends_statement newline h = cc
starts-ends_statement r_brace h = cc
starts-ends_statement eof h = cc
starts-ends_statement _ h = refl

return_stmt-value : (n : ℕ) (e : Expr) → is_nil e ≡ false → return_stmt n e ≡ return_value n e
unfolding is_nil return_stmt
return_stmt-value n Expr.no_expr h = cc
return_stmt-value n _ h = refl

module _ (es : List ParseError) where
  pub block_step :
      (n f : ℕ) (b : Block) (ts rest : List Token)
      → is newline (first ts).type ≡ false
      → parse_block_items feed (suc f) (focus es ts) ≡ some (b, focus es (close_brace ∷ rest))
      → parse_block feed (suc (suc f)) (focus es (mark n l_brace ∷ ts)) ≡ some (b, focus es rest)
  unfolding parse_block advance is
  block_step n f b ts rest h g = rw (skip_newlines_none feed f (focus es ts) h, g) refl

  pub body_step :
      (f : ℕ) (b : Block) (ts rest : List Token)
      → parse_block feed (suc f) (focus es (mark 0 l_brace ∷ ts)) ≡ some (b, focus es rest)
      → parse_body feed (suc (suc f)) (focus es (mark 0 l_brace ∷ ts)) ≡ some (b, focus es rest)
  unfolding parse_body skip_newlines enter_block is
  body_step f b ts rest h = h

  -- from a parenthesis that stands before the brace
  pub body_enter :
      (f : ℕ) (b : Block) (ts rest : List Token)
      → parse_block feed (suc f) (focus es (mark 0 l_brace ∷ ts)) ≡ some (b, focus es rest)
      → parse_body feed (suc (suc f)) (focus es (close_paren ∷ mark 0 l_brace ∷ ts))
        ≡ some (b, focus es rest)
  unfolding parse_body skip_newlines enter_block advance is
  body_enter f b ts rest h = h

  pub items_end :
      (f : ℕ) (rest : List Token)
      → parse_block_items feed (suc f) (focus es (close_brace ∷ rest))
        ≡ some (no_stmts, focus es (close_brace ∷ rest))
  unfolding parse_block_items is
  items_end f rest = refl

  pub statements_step :
      (f : ℕ) (s : Stmt) (b : Block) (ts xs ys zs : List Token)
      → is r_brace (first ts).type ≡ false
      → is eof (first ts).type ≡ false
      → parse_statement feed f (focus es ts) ≡ some (some s, focus es xs)
      → skip_newlines feed f (focus es xs) ≡ some (tt, focus es ys)
      → parse_block_items feed f (focus es ys) ≡ some (b, focus es zs)
      → parse_block_items feed (suc f) (focus es ts) ≡ some (more_stmts s b, focus es zs)
  unfolding parse_block_items add_stmt
  statements_step f s b ts xs ys zs h e g k l = rw (h, e, test, g, k, l) refl

  pub block_statement :
      (n f : ℕ) (b : Block) (ts xs : List Token)
      → parse_block feed f (focus es (mark n l_brace ∷ ts)) ≡ some (b, focus es xs)
      → parse_statement feed (suc (suc f)) (focus es (mark n l_brace ∷ ts))
        ≡ some (some (block_stmt n b), focus es xs)
  unfolding parse_statement
  block_statement n f b ts xs h = rw h refl

  pub expression_statement :
      (f : ℕ) (e : Expr) (ts : List Token) (z : Token) (rest : List Token)
      → starts_expression (first ts).type ≡ true
      → parse_expression feed f lowest (focus es ts) ≡ some (e, focus es (z ∷ rest))
      → is eof z.type ≡ false
      → parse_statement feed (suc (suc (suc f))) (focus es ts)
        ≡ some (some (expr_stmt (first ts).pos.line e), focus es rest)
  unfolding parse_statement parse_expr_statement advance_unless_eof advance
  expression_statement f e ts z rest h g k =
      rw (statement_at-expression feed (suc f) (first ts).type (focus es ts) h, g, k, test) refl

  pub return_statement :
      (n f : ℕ) (e : Expr) (ts : List Token) (z : Token) (rest : List Token)
      → starts_expression (first ts).type ≡ true
      → parse_expression feed f lowest (focus es ts) ≡ some (e, focus es (z ∷ rest))
      → is eof z.type ≡ false
      → is_nil e ≡ false
      → parse_statement feed (suc (suc (suc f))) (focus es (mark n return_kw ∷ ts))
        ≡ some (some (return_value n e), focus es rest)
  unfolding parse_statement parse_return advance_unless_eof advance
  return_statement n f e ts z rest h g k l =
      rw (starts-ends_statement (first ts).type h, test, g, k, test, return_stmt-value n e l) refl

  pub return_nothing :
      (n f : ℕ) (rest : List Token)
      → parse_statement feed (suc (suc (suc f))) (focus es (mark n return_kw ∷ line_end ∷ rest))
        ≡ some (some (return_null n), focus es rest)
  unfolding parse_statement parse_return advance_unless_eof advance ends_statement is return_stmt
  return_nothing n f rest = refl

  pub while_statement :
      (n f : ℕ) (c : Expr) (b : Block) (ts more xs : List Token)
      → parse_expression feed f lowest (focus es (open_paren ∷ ts))
        ≡ some (c, focus es (close_paren ∷ more))
      → parse_body feed f (focus es more) ≡ some (b, focus es xs)
      → parse_statement feed (suc (suc (suc f))) (focus es (mark n while_kw ∷ open_paren ∷ ts))
        ≡ some (some (while_stmt n c b), focus es xs)
  unfolding parse_statement parse_while consume_rparen advance expecting is
  while_statement n f c b ts more xs h g = rw (h, g) refl

  module _ (n f : ℕ) (c : Expr) (b : Block) (cs : Clauses) (ts more xs ys zs : List Token)
      (h : parse_expression feed f lowest (focus es (open_paren ∷ ts))
        ≡ some (c, focus es (close_paren ∷ more)))
      (g : parse_body feed f (focus es more) ≡ some (b, focus es xs))
      (k : skip_newlines feed f (focus es xs) ≡ some (tt, focus es ys))
      (l : parse_clauses feed f (focus es ys) ≡ some ((cs, true), focus es zs)) where
    pub if_statement :
        is else_kw (first zs).type ≡ false
        → parse_statement feed (suc (suc (suc f))) (focus es (mark n if_kw ∷ open_paren ∷ ts))
          ≡ some (some (if_stmt n c b cs no_alt), focus es zs)
    unfolding parse_statement parse_if consume_rparen advance expecting is
    if_statement e = rw (h, g, k, l, e, test) refl

    pub if_else_statement :
        (a : Block) (us vs : List Token)
        → zs ≡ mark 0 else_kw ∷ us
        → parse_body feed f (focus es us) ≡ some (a, focus es vs)
        → parse_statement feed (suc (suc (suc f))) (focus es (mark n if_kw ∷ open_paren ∷ ts))
          ≡ some (some (if_stmt n c b cs (alt a)), focus es vs)
    unfolding parse_statement parse_if consume_rparen advance expecting is
    if_else_statement a us vs e m = rw (h, g, k, l, e, m) refl

  pub clauses_end :
      (f : ℕ) (ts : List Token)
      → is else_if (first ts).type ≡ false
      → parse_clauses feed (suc f) (focus es ts) ≡ some ((no_clauses, true), focus es ts)
  unfolding parse_clauses
  clauses_end f ts h = rw (h, test) refl

  pub clauses_step :
      (f : ℕ) (c : Expr) (b : Block) (cs : Clauses) (ts more xs ys zs : List Token)
      → parse_expression feed f lowest (focus es (open_paren ∷ ts))
        ≡ some (c, focus es (close_paren ∷ more))
      → parse_body feed f (focus es more) ≡ some (b, focus es xs)
      → skip_newlines feed f (focus es xs) ≡ some (tt, focus es ys)
      → parse_clauses feed f (focus es ys) ≡ some ((cs, true), focus es zs)
      → parse_clauses feed (suc f) (focus es (mark 0 else_if ∷ open_paren ∷ ts))
        ≡ some ((more_clauses c b cs, true), focus es zs)
  unfolding parse_clauses consume_rparen advance expecting is
  clauses_step f c b cs ts more xs ys zs h g k l = rw (h, g, k, l) refl

  consume_outside :
      (z : Token) (more : List Token)
      → is r_paren z.type ≡ true
      → consume_rparen feed (focus es (z ∷ close_paren ∷ more))
        ≡ some (tt, focus es (close_paren ∷ more))
  unfolding consume_rparen advance is
  consume_outside z more c = rw (c, test) refl

  consume_inside :
      (z : Token) (more : List Token)
      → is r_paren z.type ≡ false
      → consume_rparen feed (focus es (z ∷ close_paren ∷ more)) ≡ some (tt, focus es more)
  unfolding consume_rparen advance is
  consume_inside z more c = rw (c, test) refl

  -- Behind an iterable that ends with a parenthesis, the parser stops at the one that closes the
  -- head of the loop.
  for_rest :
      (n f : ℕ) (k v : Bytes) (e : Expr) (b : Block) (t z : Token) (ts more xs : List Token)
      → parse_expression feed f lowest (focus es ts) ≡ some (e, focus es (z ∷ close_paren ∷ more))
      → parse_body feed f (focus es more) ≡ some (b, focus es xs)
      → parse_body feed f (focus es (close_paren ∷ more)) ≡ some (b, focus es xs)
      → parse_for_rest feed (suc f) n k v (focus es (t ∷ ts))
        ≡ some (some (for_stmt n k v e b), focus es xs)
  unfolding parse_for_rest advance
  for_rest n f k v e b t z ts more xs h g l = elim (Bool-cases (is r_paren z.type)) [
    | inl c ↦ rw (h, consume_outside z more c, l) refl
    | inr c ↦ rw (h, consume_inside z more c, g) refl
  ]

  pub for_statement :
      (n f d : ℕ) (k v : Bytes) (e : Expr) (b : Block) (z : Token) (ts more xs : List Token)
      → ((g : ℕ)
          → d ≤ g
          → (parse_expression feed g lowest (focus es ts)
              ≡ some (e, focus es (z ∷ close_paren ∷ more)))
            × (parse_body feed g (focus es more) ≡ some (b, focus es xs))
            × (parse_body feed g (focus es (close_paren ∷ more)) ≡ some (b, focus es xs)))
      → d + 1 ≤ f
      → parse_statement feed
          (suc (suc (suc f)))
          (focus es (mark n for_kw ∷ open_paren ∷ binding k v (mark 0 in_kw ∷ ts)))
        ≡ some (some (for_stmt n k v e b), focus es xs)
  unfolding parse_statement parse_for parse_for_binding advance expecting is
  for_statement n zero d k v e b z ts more xs h l = absurd (omega arith)
  for_statement n (suc f) d [] v e b z ts more xs h l =
      let g = h f (omega arith) in for_rest n f [] v e b (mark 0 in_kw) z ts more xs g.0 g.1 g.2
  for_statement n (suc f) d (c ∷ k) v e b z ts more xs h l =
      let g = h f (omega arith) in
      for_rest n f (c ∷ k) v e b (mark 0 in_kw) z ts more xs g.0 g.1 g.2

  -- Where the list of parameters ends: at the last of them, or at the parenthesis if there is none.
  abbrev at_more : Bytes → List Bytes → List Token → List Token
  at_more x [] ts = variable_token x ∷ ts
  at_more x (y ∷ xs) ts = at_more y xs ts

  abbrev at_last : List Bytes → List Token → List Token
  at_last [] ts = close_paren ∷ ts
  at_last (x ∷ xs) ts = at_more x xs (close_paren ∷ ts)

  more_params_lem :
      (x : Bytes) (xs : List Bytes) (f : ℕ) (ts : List Token)
      → length xs < f
      → more_params feed f (focus es (variable_token x ∷ more_parameters xs (close_paren ∷ ts)))
        ≡ some (xs, focus es (at_more x xs (close_paren ∷ ts)))
  unfolding more_params advance is
  more_params_lem x [] zero ts l = absurd (omega arith)
  more_params_lem x [] (suc f) ts l = refl
  more_params_lem x (y ∷ xs) zero ts l = absurd (omega arith)
  more_params_lem x (y ∷ xs) (suc f) ts l = rw (more_params_lem y xs f ts (omega arith)) refl

  param_list_lem :
      (xs : List Bytes) (f : ℕ) (ts : List Token)
      → length xs < f
      → parse_param_list feed f (focus es (parameters xs (close_paren ∷ ts)))
        ≡ some (xs, focus es (at_last xs ts))
  unfolding parse_param_list is
  param_list_lem [] f ts l = refl
  param_list_lem (x ∷ xs) f ts l = rw (more_params_lem x xs f ts (omega arith)) refl

  at_more-body :
      (x : Bytes) (xs : List Bytes) (f : ℕ) (b : Block) (ts us : List Token)
      → parse_body feed f (focus es (close_paren ∷ ts)) ≡ some (b, focus es us)
      → parse_body feed f (focus es (tail (at_more x xs (close_paren ∷ ts))))
        ≡ some (b, focus es us)
  at_more-body x [] f b ts us h = h
  at_more-body x (y ∷ xs) f b ts us h = at_more-body y xs f b ts us h

  at_last-body :
      (xs : List Bytes) (f : ℕ) (b : Block) (ts us : List Token)
      → parse_body feed f (focus es ts) ≡ some (b, focus es us)
      → parse_body feed f (focus es (close_paren ∷ ts)) ≡ some (b, focus es us)
      → parse_body feed f (focus es (tail (at_last xs ts))) ≡ some (b, focus es us)
  at_last-body [] f b ts us h g = h
  at_last-body (x ∷ xs) f b ts us h g = at_more-body x xs f b ts us g

  pub function_statement :
      (n f : ℕ) (x : Bytes) (ps : List Bytes) (b : Block) (ts us : List Token)
      → length ps < f
      → parse_body feed f (focus es ts) ≡ some (b, focus es us)
      → parse_body feed f (focus es (close_paren ∷ ts)) ≡ some (b, focus es us)
      → parse_statement feed
          (suc (suc (suc f)))
          (focus es (mark n func ∷ token 0 ident x ∷ open_paren ∷ parameters ps (close_paren ∷ ts)))
        ≡ some (some (func_decl n x ps b), focus es us)
  unfolding parse_statement parse_func_decl advance expecting is
  function_statement n f x ps b ts us l h g =
      rw (param_list_lem ps f ts l, at_last-body ps f b ts us h g) refl
