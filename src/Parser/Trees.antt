-- ===== src/Parser/Trees.antt =====
-- internal/parser/parser.go: the recursive descent and the trees that come with no error.
use go_flux.Base.{ℕ, zero, suc, Option, none, some, Bytes, Bool}
use go_flux.Token.{
  TokenType, Token, ident, variable, number, string, true_kw, false_kw, null, func, l_paren,
  l_bracket, l_brace, bang, minus, plus, star, slash, equal, not_equal, less, less_equal, greater,
  greater_equal, and_and, or_or, dot, assign, define, if_kw, while_kw, for_kw, return_kw, else_if,
  in_kw, comma, colon, range, r_paren, r_bracket, r_brace,
}
use go_flux.Ast.{
  Expr, no_expr, Exprs, no_exprs, no_fields, Stmt, Block, no_stmts, Clauses, no_clauses, for_stmt,
}
use go_flux.Parser.State.{
  Parser, expecting, cur_is, peek_is, unexpected, expected_in, unclosed_range, unclosed_array,
  expected_expression, unclosed_object, unclosed_list,
}
use go_flux.Parser.Pieces.{return_stmt, add_stmt, lowest, ends_statement}
use go_flux.Parser.Parse
use go_flux.Parser.Clean.{
  Clean, CleanAll, CleanFields, CleanStmt, CleanBlock, CleanClauses, CleanAlt, Ensures, stopped,
  went, bind-Ensures, weaken-Ensures, pure-Ensures, test-Ensures, nil-Ensures, error-Ensures,
  given-Ensures, assuming-Ensures, here-Ensures, failed-Ensures, expecting-Ensures, advance-Ensures,
}
use go_flux.Parser.Sound.{
  Any, Sound, object_key-Sound, skip_newlines-Sound, skip_peek_newlines-Sound,
  advance_unless_eof-Sound, enter_block-Sound, consume_rparen-Sound, for_binding-Sound,
  param_list-Sound,
}

-- A value that `return` may have: none, or a clean one.
abbrev CleanReturn : Expr → Type 0
CleanReturn e = (n : ℕ) → CleanStmt (return_stmt n e)

return-Clean : (e : Expr) → Clean e → CleanReturn e
unfolding Clean CleanStmt return_stmt
return-Clean no_expr h n = tt
return-Clean _ h n = h

nil-CleanReturn : CleanReturn no_expr
unfolding CleanStmt return_stmt
nil-CleanReturn n = tt

value-Ensures :
    {S : Type 0} {n : ℕ} {r : Option (Expr × Parser S)}
    → Ensures n Unit Clean r
    → Ensures n Unit CleanReturn r
value-Ensures stopped = stopped
value-Ensures (went e q l h) = went e q l (λ c k. return-Clean e (h c k))

abbrev pub CleanOption : Option Stmt → Type 0
CleanOption none = Unit
CleanOption (some s) = CleanStmt s

pub add_stmt-Clean :
    (s : Option Stmt) (b : Block) → CleanOption s → CleanBlock b → CleanBlock (add_stmt s b)
unfolding CleanBlock add_stmt
add_stmt-Clean none b h g = g
add_stmt-Clean (some s) b h g = (h, g)

module _ {S : Type 0} (next : S → Option (Token × S)) where
  mutual
    unfolding Parse.parse_expression Parse.parse_operand Parse.parse_operators Parse.parse_operator
        Parse.parse_prefix Parse.parse_infix Parse.parse_assign Parse.parse_call Parse.parse_member
        Parse.parse_index Parse.parse_array_or_range Parse.parse_range_end Parse.parse_elements
        Parse.close_array Parse.parse_object_literal Parse.parse_fields Parse.parse_field_end
        Parse.parse_expression_list Parse.parse_list_items Parse.parse_list_rest
        Parse.parse_func_expr Parse.parse_body Parse.parse_block Parse.parse_block_items
        Parse.parse_statement Parse.parse_statement_at Parse.parse_return Parse.parse_if
        Parse.parse_clauses Parse.parse_while Parse.parse_for Parse.parse_for_rest
        Parse.parse_func_decl Parse.parse_expr_statement expecting Clean CleanAll CleanFields
        CleanStmt CleanBlock CleanClauses CleanAlt

    expression-Sound : (f prec : ℕ) → Sound Clean (Parse.parse_expression next f prec)
    expression-Sound zero prec p = stopped
    expression-Sound (suc f) prec p = bind-Ensures (operand-Sound f p.cur.type p) λ left q.
        nil-Ensures left no_expr q (λ c. c.1)
          (given-Ensures (λ c. c.1) (operators-Sound f prec left q))

    operand-Sound : (f : ℕ) (t : TokenType) → Sound Clean (Parse.parse_operand next f t)
    operand-Sound zero t p = stopped
    operand-Sound (suc f) ident p = pure-Ensures λ c. tt
    operand-Sound (suc f) variable p = pure-Ensures λ c. tt
    operand-Sound (suc f) number p = pure-Ensures λ c. tt
    operand-Sound (suc f) string p = pure-Ensures λ c. tt
    operand-Sound (suc f) true_kw p = pure-Ensures λ c. tt
    operand-Sound (suc f) false_kw p = pure-Ensures λ c. tt
    operand-Sound (suc f) null p = pure-Ensures λ c. tt
    operand-Sound (suc f) func p = func_expr-Sound f p
    operand-Sound (suc f) l_paren p = bind-Ensures (advance-Ensures next p) λ u q.
        bind-Ensures (expression-Sound f lowest q) λ left r.
          expecting-Ensures r_paren no_expr r
            (bind-Ensures (advance-Ensures next r) λ v s. pure-Ensures λ c. c.0.1)
    operand-Sound (suc f) l_bracket p = array_or_range-Sound f p
    operand-Sound (suc f) l_brace p = object_literal-Sound f p
    operand-Sound (suc f) bang p = prefix-Sound f p
    operand-Sound (suc f) minus p = prefix-Sound f p
    operand-Sound (suc f) plus p = prefix-Sound f p
    operand-Sound (suc f) t p = failed-Ensures (unexpected t) no_expr p

    operators-Sound :
        (f prec : ℕ) (left : Expr)
        → Sound (λ a. Clean left → Clean a) (Parse.parse_operators next f prec left)
    operators-Sound zero prec left p = stopped
    operators-Sound (suc f) prec left p = assuming-Ensures (
        test-Ensures (Parse.goes_on prec p)
          (bind-Ensures (advance-Ensures next p) λ u q.
            bind-Ensures (operator-Sound f q.cur.type left q) λ more r.
              nil-Ensures more no_expr r (λ c. c.1 c.0.0)
                (given-Ensures (λ c. c.1 c.0.0) (operators-Sound f prec more r)))
          (pure-Ensures λ c. c))

    operator-Sound :
        (f : ℕ) (t : TokenType) (left : Expr)
        → Sound (λ a. Clean left → Clean a) (Parse.parse_operator next f t left)
    operator-Sound zero t left p = stopped
    operator-Sound (suc f) assign left p = assign-Sound f left p
    operator-Sound (suc f) define left p = assign-Sound f left p
    operator-Sound (suc f) plus left p = infix-Sound f left p
    operator-Sound (suc f) minus left p = infix-Sound f left p
    operator-Sound (suc f) star left p = infix-Sound f left p
    operator-Sound (suc f) slash left p = infix-Sound f left p
    operator-Sound (suc f) equal left p = infix-Sound f left p
    operator-Sound (suc f) not_equal left p = infix-Sound f left p
    operator-Sound (suc f) less left p = infix-Sound f left p
    operator-Sound (suc f) less_equal left p = infix-Sound f left p
    operator-Sound (suc f) greater left p = infix-Sound f left p
    operator-Sound (suc f) greater_equal left p = infix-Sound f left p
    operator-Sound (suc f) and_and left p = infix-Sound f left p
    operator-Sound (suc f) or_or left p = infix-Sound f left p
    operator-Sound (suc f) l_paren left p = call-Sound f left p
    operator-Sound (suc f) dot left p = member-Sound f left p
    operator-Sound (suc f) l_bracket left p = index-Sound f left p
    operator-Sound (suc f) t left p = pure-Ensures λ c h. h

    prefix-Sound : (f : ℕ) → Sound Clean (Parse.parse_prefix next f)
    prefix-Sound zero p = stopped
    prefix-Sound (suc f) p = bind-Ensures (advance-Ensures next p) λ u q.
        bind-Ensures (expression-Sound f _ q)
          λ right r. nil-Ensures right no_expr r (λ c. c.1) (pure-Ensures λ c. c.1)

    infix-Sound :
        (f : ℕ) (left : Expr) → Sound (λ a. Clean left → Clean a) (Parse.parse_infix next f left)
    infix-Sound zero left p = stopped
    infix-Sound (suc f) left p = bind-Ensures (advance-Ensures next p) λ u q.
        bind-Ensures (expression-Sound f _ q)
          λ right r. nil-Ensures right no_expr r (λ c. c.1) (pure-Ensures λ c h. (h, c.1))

    assign-Sound :
        (f : ℕ) (left : Expr) → Sound (λ a. Clean left → Clean a) (Parse.parse_assign next f left)
    assign-Sound zero left p = stopped
    assign-Sound (suc f) left p =
        bind-Ensures (advance-Ensures next p)
          λ u q. bind-Ensures (expression-Sound f lowest q) λ value r. pure-Ensures λ c h. (h, c.1)

    call-Sound :
        (f : ℕ) (callee : Expr)
        → Sound (λ a. Clean callee → Clean a) (Parse.parse_call next f callee)
    call-Sound zero callee p = stopped
    call-Sound (suc f) callee p =
        bind-Ensures (advance-Ensures next p)
          λ u q. bind-Ensures (list-Sound f r_paren q) λ args r. pure-Ensures λ c h. (h, c.1)

    member-Sound :
        (f : ℕ) (left : Expr) → Sound (λ a. Clean left → Clean a) (Parse.parse_member next f left)
    member-Sound zero left p = stopped
    member-Sound (suc f) left p =
        expecting-Ensures ident no_expr p
          (bind-Ensures (advance-Ensures next p) λ u q. pure-Ensures λ c h. h)

    index-Sound :
        (f : ℕ) (left : Expr) → Sound (λ a. Clean left → Clean a) (Parse.parse_index next f left)
    index-Sound zero left p = stopped
    index-Sound (suc f) left p = bind-Ensures (advance-Ensures next p) λ u q.
        bind-Ensures (expression-Sound f lowest q) λ i r.
          expecting-Ensures r_bracket no_expr r
            (bind-Ensures (advance-Ensures next r) λ v s. pure-Ensures λ c h. (h, c.0.1))

    array_or_range-Sound : (f : ℕ) → Sound Clean (Parse.parse_array_or_range next f)
    array_or_range-Sound zero p = stopped
    array_or_range-Sound (suc f) p = bind-Ensures (advance-Ensures next p) λ u q.
        test-Ensures (cur_is r_bracket q)
          (bind-Ensures (advance-Ensures next q) λ v r. pure-Ensures λ c. tt)
          (bind-Ensures (expression-Sound f lowest q) λ first r.
            test-Ensures (peek_is range r) (given-Ensures (λ c. c.1) (range_end-Sound f _ first r))
              (bind-Ensures (elements-Sound f r)
                λ rest s. given-Ensures (λ c. (c.0.1, c.1)) (close_array-Sound f _ _ s)))

    range_end-Sound :
        (f line : ℕ) (first : Expr)
        → Sound (λ a. Clean first → Clean a) (Parse.parse_range_end next f line first)
    range_end-Sound zero line first p = stopped
    range_end-Sound (suc f) line first p = bind-Ensures (advance-Ensures next p) λ u q.
        bind-Ensures (advance-Ensures next q) λ v r.
          bind-Ensures (expression-Sound f lowest r) λ last s.
            bind-Ensures
              (test-Ensures (peek_is r_bracket s) (advance-Ensures next s)
                (here-Ensures unclosed_range s))
              λ w t. pure-Ensures λ c h. (h, c.0.1)

    elements-Sound : (f : ℕ) → Sound CleanAll (Parse.parse_elements next f)
    elements-Sound zero p = stopped
    elements-Sound (suc f) p =
        test-Ensures (peek_is comma p)
          (bind-Ensures (advance-Ensures next p) λ u q. bind-Ensures (advance-Ensures next q) λ v r.
            test-Ensures (cur_is r_bracket r) (pure-Ensures λ c. tt) (
              bind-Ensures (expression-Sound f lowest r)
                λ e s. bind-Ensures (elements-Sound f s) λ rest t. pure-Ensures λ c. (c.0.1, c.1)))
          (pure-Ensures λ c. tt)

    close_array-Sound :
        (f line : ℕ) (es : Exprs)
        → Sound (λ a. CleanAll es → Clean a) (Parse.close_array next f line es)
    close_array-Sound zero line es p = stopped
    close_array-Sound (suc f) line es p =
        bind-Ensures
          (test-Ensures (cur_is r_bracket p) (advance-Ensures next p) (
            test-Ensures (peek_is r_bracket p) (advance-Ensures next p)
              (here-Ensures unclosed_array p)))
          λ u q. pure-Ensures λ c h. h

    object_literal-Sound : (f : ℕ) → Sound Clean (Parse.parse_object_literal next f)
    object_literal-Sound zero p = stopped
    object_literal-Sound (suc f) p = bind-Ensures (advance-Ensures next p) λ u q.
        test-Ensures (cur_is r_brace q)
          (bind-Ensures (advance-Ensures next q) λ v r. pure-Ensures λ c. tt)
          (bind-Ensures (skip_newlines-Sound next f q)
            λ v r. bind-Ensures (fields-Sound f r) λ fields s. pure-Ensures λ c. c.1)

    fields-Sound : (f : ℕ) → Sound CleanFields (Parse.parse_fields next f)
    fields-Sound zero p = stopped
    fields-Sound (suc f) p = bind-Ensures (skip_newlines-Sound next f p) λ u q.
        test-Ensures (cur_is r_brace q) (pure-Ensures λ c. tt) (
          bind-Ensures (object_key-Sound q) λ key r.
            bind-Ensures (skip_peek_newlines-Sound next f r) λ v s.
              expecting-Ensures colon no_fields s (
                bind-Ensures (advance-Ensures next s) λ w t.
                  bind-Ensures (advance-Ensures next t) λ w t.
                    bind-Ensures (skip_newlines-Sound next f t) λ w t.
                      bind-Ensures (expression-Sound f lowest t) λ value t.
                        bind-Ensures (skip_newlines-Sound next f t) λ w t.
                          bind-Ensures (skip_peek_newlines-Sound next f t) λ w t.
                            bind-Ensures (field_end-Sound f t)
                              λ rest t. pure-Ensures λ c. (c.0.0.0.1, c.1)))

    field_end-Sound : (f : ℕ) → Sound CleanFields (Parse.parse_field_end next f)
    field_end-Sound zero p = stopped
    field_end-Sound (suc f) p =
        test-Ensures (peek_is r_brace p)
          (bind-Ensures (advance-Ensures next p) λ u q. pure-Ensures λ c. tt)
          (test-Ensures (peek_is comma p)
            (bind-Ensures (advance-Ensures next p) λ u q.
              bind-Ensures (advance-Ensures next q) λ v r.
                test-Ensures (cur_is r_brace r) (pure-Ensures λ c. tt)
                  (weaken-Ensures (λ c. tt) (fields-Sound f r)))
            (failed-Ensures unclosed_object no_fields p))

    list-Sound :
        (f : ℕ) (close : TokenType) → Sound CleanAll (Parse.parse_expression_list next f close)
    list-Sound zero close p = stopped
    list-Sound (suc f) close p =
        test-Ensures (cur_is close p) (pure-Ensures λ c. tt) (items-Sound f close p)

    items-Sound : (f : ℕ) (close : TokenType) → Sound CleanAll (Parse.parse_list_items next f close)
    items-Sound zero close p = stopped
    items-Sound (suc f) close p = bind-Ensures (expression-Sound f lowest p) λ e q.
        nil-Ensures e no_exprs q (λ c. c.1)
          (bind-Ensures (rest-Sound f close q) λ rest r. pure-Ensures λ c. (c.0.1, c.1))

    rest-Sound : (f : ℕ) (close : TokenType) → Sound CleanAll (Parse.parse_list_rest next f close)
    rest-Sound zero close p = stopped
    rest-Sound (suc f) close p =
        test-Ensures (peek_is comma p)
          (bind-Ensures (advance-Ensures next p) λ u q. bind-Ensures (advance-Ensures next q) λ v r.
            test-Ensures (cur_is close r) (failed-Ensures expected_expression no_exprs r)
              (weaken-Ensures (λ c. tt) (items-Sound f close r)))
          (bind-Ensures {P = Any}
            (test-Ensures (peek_is close p) (advance-Ensures next p) (pure-Ensures λ c. tt))
            λ u q.
              bind-Ensures {P = Any}
                (test-Ensures (cur_is close q) (pure-Ensures λ c. tt)
                  (error-Ensures (λ q. q.peek.pos) (λ q. unclosed_list close) q))
                λ v r. pure-Ensures λ c. tt)

    func_expr-Sound : (f : ℕ) → Sound Clean (Parse.parse_func_expr next f)
    func_expr-Sound zero p = stopped
    func_expr-Sound (suc f) p = expecting-Ensures l_paren no_expr p (
        bind-Ensures (advance-Ensures next p) λ u q. bind-Ensures (advance-Ensures next q) λ u q.
          bind-Ensures (param_list-Sound next f q) λ params q.
            bind-Ensures (advance-Ensures next q)
              λ u q. bind-Ensures (body-Sound f q) λ body q. pure-Ensures λ c. c.1)

    body-Sound : (f : ℕ) → Sound CleanBlock (Parse.parse_body next f)
    body-Sound zero p = stopped
    body-Sound (suc f) p = bind-Ensures (skip_newlines-Sound next f p) λ u q.
        bind-Ensures (enter_block-Sound next q) λ u q. weaken-Ensures (λ c. tt) (block-Sound f q)

    block-Sound : (f : ℕ) → Sound CleanBlock (Parse.parse_block next f)
    block-Sound zero p = stopped
    block-Sound (suc f) p = bind-Ensures (advance-Ensures next p) λ u q.
        bind-Ensures (skip_newlines-Sound next f q) λ u q.
          bind-Ensures (statements-Sound f q) λ stmts q.
            bind-Ensures {P = Any}
              (test-Ensures (cur_is r_brace q) (advance-Ensures next q) (pure-Ensures λ c. tt))
              λ u q. pure-Ensures λ c. c.0.1

    statements-Sound : (f : ℕ) → Sound CleanBlock (Parse.parse_block_items next f)
    statements-Sound zero p = stopped
    statements-Sound (suc f) p = test-Ensures _ (pure-Ensures λ c. tt) (
        bind-Ensures (statement-Sound f p) λ s q. bind-Ensures (skip_newlines-Sound next f q) λ u q.
          bind-Ensures (statements-Sound f q)
            λ rest q. pure-Ensures λ c. add_stmt-Clean s rest c.0.0.1 c.1)

    pub statement-Sound : (f : ℕ) → Sound CleanOption (Parse.parse_statement next f)
    statement-Sound zero p = stopped
    statement-Sound (suc f) p = statement_at-Sound f p.cur.type p

    statement_at-Sound :
        (f : ℕ) (t : TokenType) → Sound CleanOption (Parse.parse_statement_at next f t)
    statement_at-Sound zero t p = stopped
    statement_at-Sound (suc f) func p = func_decl-Sound f p
    statement_at-Sound (suc f) return_kw p = return-Sound f p
    statement_at-Sound (suc f) if_kw p = if-Sound f p
    statement_at-Sound (suc f) while_kw p = while-Sound f p
    statement_at-Sound (suc f) for_kw p = for-Sound f p
    statement_at-Sound (suc f) l_brace p =
        bind-Ensures (block-Sound f p) λ body q. pure-Ensures λ c. c.1
    statement_at-Sound (suc f) t p = expr_statement-Sound f p

    return-Sound : (f : ℕ) → Sound CleanOption (Parse.parse_return next f)
    return-Sound zero p = stopped
    return-Sound (suc f) p = bind-Ensures (advance-Ensures next p) λ u q.
        bind-Ensures {P = CleanReturn}
          (test-Ensures (ends_statement q.cur.type) (pure-Ensures λ c. nil-CleanReturn)
            (value-Ensures (expression-Sound f lowest q)))
          λ value q. bind-Ensures (advance_unless_eof-Sound next q) λ u q. pure-Ensures λ c. c.0.1 _

    if-Sound : (f : ℕ) → Sound CleanOption (Parse.parse_if next f)
    if-Sound zero p = stopped
    if-Sound (suc f) p = expecting-Ensures l_paren none p (
        bind-Ensures (advance-Ensures next p) λ u q.
          bind-Ensures (expression-Sound f lowest q) λ condition q.
            bind-Ensures (consume_rparen-Sound next q) λ u q.
              bind-Ensures (body-Sound f q) λ body q.
                bind-Ensures (skip_newlines-Sound next f q) λ u q.
                  bind-Ensures (clauses-Sound f q) λ cs q.
                    bind-Ensures {P = CleanAlt}
                      (test-Ensures _
                        (bind-Ensures (advance-Ensures next q)
                          λ u q. bind-Ensures (body-Sound f q) λ b q. pure-Ensures λ c. c.1)
                        (pure-Ensures λ c. tt))
                      λ other q. pure-Ensures λ c. (c.0.0.0.0.0.1, c.0.0.0.1, c.0.1, c.1))

    clauses-Sound :
        (f : ℕ) → Sound (λ (cs : Clauses × Bool). CleanClauses cs.0) (Parse.parse_clauses next f)
    clauses-Sound zero p = stopped
    clauses-Sound (suc f) p =
        test-Ensures (cur_is else_if p)
          (expecting-Ensures l_paren (no_clauses, Bool.false) p
            (bind-Ensures (advance-Ensures next p) λ u q.
              bind-Ensures (expression-Sound f lowest q) λ condition q.
                bind-Ensures (consume_rparen-Sound next q) λ u q.
                  bind-Ensures (body-Sound f q) λ body q.
                    bind-Ensures (skip_newlines-Sound next f q) λ u q.
                      bind-Ensures (clauses-Sound f q)
                        λ cs q. pure-Ensures λ c. (c.0.0.0.0.1, c.0.0.1, c.1)))
          (pure-Ensures λ c. tt)

    while-Sound : (f : ℕ) → Sound CleanOption (Parse.parse_while next f)
    while-Sound zero p = stopped
    while-Sound (suc f) p = expecting-Ensures l_paren none p (
        bind-Ensures (advance-Ensures next p) λ u q.
          bind-Ensures (expression-Sound f lowest q) λ condition q.
            bind-Ensures (consume_rparen-Sound next q)
              λ u q. bind-Ensures (body-Sound f q) λ body q. pure-Ensures λ c. (c.0.0.1, c.1))

    for-Sound : (f : ℕ) → Sound CleanOption (Parse.parse_for next f)
    for-Sound zero p = stopped
    for-Sound (suc f) p = expecting-Ensures l_paren none p (
        bind-Ensures (advance-Ensures next p) λ u q. bind-Ensures (advance-Ensures next q) λ u q.
          bind-Ensures (for_binding-Sound next q) λ kv q.
            test-Ensures _
              (bind-Ensures {P = Any}
                (test-Ensures (cur_is in_kw q) (pure-Ensures λ c. tt) (advance-Ensures next q))
                λ u q. weaken-Ensures (λ c. tt) (for_rest-Sound f _ _ _ q))
              (failed-Ensures expected_in
                (some (for_stmt p.cur.pos.line kv.0 kv.1 no_expr no_stmts)) q))

    for_rest-Sound :
        (f line : ℕ) (key value : Bytes)
        → Sound CleanOption (Parse.parse_for_rest next f line key value)
    for_rest-Sound zero line key value p = stopped
    for_rest-Sound (suc f) line key value p = bind-Ensures (advance-Ensures next p) λ u q.
        bind-Ensures (expression-Sound f lowest q) λ iterable q.
          bind-Ensures (consume_rparen-Sound next q)
            λ u q. bind-Ensures (body-Sound f q) λ body q. pure-Ensures λ c. (c.0.0.1, c.1)

    func_decl-Sound : (f : ℕ) → Sound CleanOption (Parse.parse_func_decl next f)
    func_decl-Sound zero p = stopped
    func_decl-Sound (suc f) p = expecting-Ensures ident none p (
        bind-Ensures (advance-Ensures next p) λ u q. expecting-Ensures l_paren none q (
          bind-Ensures (advance-Ensures next q) λ u q. bind-Ensures (advance-Ensures next q) λ u q.
            bind-Ensures (param_list-Sound next f q) λ params q.
              bind-Ensures (advance-Ensures next q)
                λ u q. bind-Ensures (body-Sound f q) λ body q. pure-Ensures λ c. c.1))

    expr_statement-Sound : (f : ℕ) → Sound CleanOption (Parse.parse_expr_statement next f)
    expr_statement-Sound zero p = stopped
    expr_statement-Sound (suc f) p =
        bind-Ensures (expression-Sound f lowest p)
          λ e q. bind-Ensures (advance_unless_eof-Sound next q) λ u q. pure-Ensures λ c. c.0.1
