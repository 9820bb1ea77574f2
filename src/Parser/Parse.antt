-- ===== src/Parser/Parse.antt =====
-- internal/parser/parser.go: recursive descent over expressions and statements. Each call takes one
-- unit of fuel. A function whose source returns nil returns `no_expr`, or `none` for a statement.
use go_flux.Base.{ℕ, zero, suc, Bool, true, false, not, ◌&&◌, ◌||◌, Option, none, some, Bytes, ltb}
use go_flux.Token.{
  TokenType, eof, ident, variable, number, string, if_kw, else_if, else_kw, while_kw, for_kw, in_kw,
  func, return_kw, true_kw, false_kw, null, assign, define, plus, minus, star, slash, bang, equal,
  not_equal, less, less_equal, greater, greater_equal, and_and, or_or, range, comma, colon, dot,
  l_paren, r_paren, l_brace, r_brace, l_bracket, r_bracket, Token,
}
use go_flux.Ast.{
  Expr, no_expr, identifier, number_literal, string_literal, bool_literal, null_literal,
  array_literal, range_literal, object_literal, index, member, call, binary, unary, func_expr,
  Exprs, no_exprs, more_exprs, Fields, no_fields, more_fields, Stmt, block_stmt, expr_stmt, if_stmt,
  while_stmt, for_stmt, func_decl, Block, no_stmts, Clauses, no_clauses, more_clauses, no_alt, alt,
}
use go_flux.Parser.State.{
  Parser, M, pure, ◌>>=◌, ◌>>◌, test, cur_is, peek_is, cur_type, cur_literal, errorf, error_here,
  expecting, advance, skip_newlines, skip_peek_newlines, advance_unless_eof, enter_block,
  consume_rparen, unexpected, expected_in, unclosed_range, unclosed_array, expected_expression,
  unclosed_object, unclosed_list,
}
use go_flux.Parser.Pieces.{
  lowest, prefix_precedence, precedence, ends_expression, ends_statement, is_nil, return_stmt,
  add_stmt, parse_for_binding, parse_param_list, parse_object_key,
}

-- The test of the loop of `parseExpression`.
unfoldable pub goes_on : {S : Type 0} → ℕ → Parser S → Bool
unfolding ends_expression precedence
goes_on prec p = not (ends_expression p.peek.type) && ltb prec (precedence p.peek.type)

module _ {S : Type 0} (next : S → Option (Token × S)) where
  unfoldable mutual
    unfolding goes_on precedence is_nil

    -- `parseExpression`: the operand, and the loop over the operators behind it
    pub parse_expression : ℕ → ℕ → M S Expr
    parse_expression zero prec p = none
    parse_expression (suc f) prec p =
        (do
          left ← parse_operand f p.cur.type
          test (λ _. is_nil left) (pure no_expr) (parse_operators f prec left))
          p

    -- the switch on the first token
    pub parse_operand : ℕ → TokenType → M S Expr
    parse_operand zero t p = none
    parse_operand (suc f) ident p = some (identifier p.cur.pos.line p.cur.literal, p)
    parse_operand (suc f) variable p = some (Expr.variable p.cur.pos.line p.cur.literal, p)
    parse_operand (suc f) number p = some (number_literal p.cur.pos.line p.cur.literal, p)
    parse_operand (suc f) string p = some (string_literal p.cur.pos.line p.cur.literal, p)
    parse_operand (suc f) true_kw p = some (bool_literal p.cur.pos.line true, p)
    parse_operand (suc f) false_kw p = some (bool_literal p.cur.pos.line false, p)
    parse_operand (suc f) null p = some (null_literal p.cur.pos.line, p)
    parse_operand (suc f) func p = parse_func_expr f p
    parse_operand (suc f) l_paren p =
        (do
          advance next
          left ← parse_expression f lowest
          expecting r_paren no_expr do advance next; pure left)
          p
    parse_operand (suc f) l_bracket p = parse_array_or_range f p
    parse_operand (suc f) l_brace p = parse_object_literal f p
    parse_operand (suc f) bang p = parse_prefix f p
    parse_operand (suc f) minus p = parse_prefix f p
    parse_operand (suc f) plus p = parse_prefix f p
    parse_operand (suc f) t p = (do error_here (unexpected t); pure no_expr) p

    -- the loop
    pub parse_operators : ℕ → ℕ → Expr → M S Expr
    parse_operators zero prec left p = none
    parse_operators (suc f) prec left p =
        test (goes_on prec)
          (do
            advance next
            op ← cur_type
            more ← parse_operator f op left
            test (λ _. is_nil more) (pure no_expr) (parse_operators f prec more))
          (pure left) p

    -- the switch on an operator; each type with a precedence above `lowest` has its case
    pub parse_operator : ℕ → TokenType → Expr → M S Expr
    parse_operator zero t left p = none
    parse_operator (suc f) assign left p = parse_assign f left p
    parse_operator (suc f) define left p = parse_assign f left p
    parse_operator (suc f) plus left p = parse_infix f left p
    parse_operator (suc f) minus left p = parse_infix f left p
    parse_operator (suc f) star left p = parse_infix f left p
    parse_operator (suc f) slash left p = parse_infix f left p
    parse_operator (suc f) equal left p = parse_infix f left p
    parse_operator (suc f) not_equal left p = parse_infix f left p
    parse_operator (suc f) less left p = parse_infix f left p
    parse_operator (suc f) less_equal left p = parse_infix f left p
    parse_operator (suc f) greater left p = parse_infix f left p
    parse_operator (suc f) greater_equal left p = parse_infix f left p
    parse_operator (suc f) and_and left p = parse_infix f left p
    parse_operator (suc f) or_or left p = parse_infix f left p
    parse_operator (suc f) l_paren left p = parse_call f left p
    parse_operator (suc f) dot left p = parse_member f left p
    parse_operator (suc f) l_bracket left p = parse_index f left p
    parse_operator (suc f) t left p = some (left, p)

    pub parse_prefix : ℕ → M S Expr
    parse_prefix zero p = none
    parse_prefix (suc f) p =
        (do
          advance next
          right ← parse_expression f prefix_precedence
          test (λ _. is_nil right) (pure no_expr) (pure (unary p.cur.pos.line p.cur.type right)))
          p

    pub parse_infix : ℕ → Expr → M S Expr
    parse_infix zero left p = none
    parse_infix (suc f) left p =
        (do
          advance next
          right ← parse_expression f (precedence p.cur.type)
          test (λ _. is_nil right) (pure no_expr)
              (pure (binary p.cur.pos.line p.cur.type left right)))
          p

    pub parse_assign : ℕ → Expr → M S Expr
    parse_assign zero left p = none
    parse_assign (suc f) left p =
        (do
          advance next
          value ← parse_expression f lowest
          pure (Expr.assign p.cur.pos.line p.cur.type left value))
          p

    pub parse_call : ℕ → Expr → M S Expr
    parse_call zero callee p = none
    parse_call (suc f) callee p =
        (do
          advance next
          args ← parse_expression_list f r_paren
          pure (call p.cur.pos.line callee args))
          p

    pub parse_member : ℕ → Expr → M S Expr
    parse_member zero left p = none
    parse_member (suc f) left p =
        expecting ident no_expr
          (do advance next; x ← cur_literal; pure (member p.cur.pos.line left x)) p

    pub parse_index : ℕ → Expr → M S Expr
    parse_index zero left p = none
    parse_index (suc f) left p =
        (do
          advance next
          i ← parse_expression f lowest
          expecting r_bracket no_expr do advance next; pure (index p.cur.pos.line left i))
          p

    -- An empty array literal leaves the parser behind its `]`, not at it.
    pub parse_array_or_range : ℕ → M S Expr
    parse_array_or_range zero p = none
    parse_array_or_range (suc f) p =
        (do
          advance next
          test (cur_is r_bracket) (do advance next; pure (array_literal p.cur.pos.line no_exprs))
              do
                first ← parse_expression f lowest
                test (peek_is range) (parse_range_end f p.cur.pos.line first) do
                  rest ← parse_elements f
                  close_array f p.cur.pos.line (more_exprs first rest))
          p

    pub parse_range_end : ℕ → ℕ → Expr → M S Expr
    parse_range_end zero line first p = none
    parse_range_end (suc f) line first p =
        (do
          advance next
          advance next
          last ← parse_expression f lowest
          test (peek_is r_bracket) (advance next) (error_here unclosed_range)
          pure (range_literal line first last))
          p

    -- the loop over the elements behind the first
    pub parse_elements : ℕ → M S Exprs
    parse_elements zero p = none
    parse_elements (suc f) p =
        test (peek_is comma)
          (do
            advance next
            advance next
            test (cur_is r_bracket) (pure no_exprs)
                do e ← parse_expression f lowest; rest ← parse_elements f; pure (more_exprs e rest))
          (pure no_exprs) p

    pub close_array : ℕ → ℕ → Exprs → M S Expr
    close_array zero line es p = none
    close_array (suc f) line es p =
        (do
          test (cur_is r_bracket) (advance next)
              (test (peek_is r_bracket) (advance next) (error_here unclosed_array))
          pure (array_literal line es))
          p

    pub parse_object_literal : ℕ → M S Expr
    parse_object_literal zero p = none
    parse_object_literal (suc f) p =
        (do
          advance next
          test (cur_is r_brace) (do advance next; pure (object_literal p.cur.pos.line no_fields))
              do
                skip_newlines next f
                fields ← parse_fields f
                pure (object_literal p.cur.pos.line fields))
          p

    -- the loop over the fields
    pub parse_fields : ℕ → M S Fields
    parse_fields zero p = none
    parse_fields (suc f) p =
        (do
          skip_newlines next f
          test (cur_is r_brace) (pure no_fields) do
            key ← parse_object_key
            skip_peek_newlines next f
            expecting colon no_fields do
              advance next
              advance next
              skip_newlines next f
              value ← parse_expression f lowest
              skip_newlines next f
              skip_peek_newlines next f
              rest ← parse_field_end f
              pure (more_fields key value rest))
          p

    -- behind a field
    pub parse_field_end : ℕ → M S Fields
    parse_field_end zero p = none
    parse_field_end (suc f) p =
        test (peek_is r_brace) (do advance next; pure no_fields)
          (test (peek_is comma)
            (do advance next; advance next; test (cur_is r_brace) (pure no_fields) (parse_fields f))
            (do error_here unclosed_object; pure no_fields))
          p

    pub parse_expression_list : ℕ → TokenType → M S Exprs
    parse_expression_list zero close p = none
    parse_expression_list (suc f) close p =
        test (cur_is close) (pure no_exprs) (parse_list_items f close) p

    -- the loop of `parseExpressionList`
    pub parse_list_items : ℕ → TokenType → M S Exprs
    parse_list_items zero close p = none
    parse_list_items (suc f) close p =
        (do
          e ← parse_expression f lowest
          test (λ _. is_nil e) (pure no_exprs)
              do rest ← parse_list_rest f close; pure (more_exprs e rest))
          p

    pub parse_list_rest : ℕ → TokenType → M S Exprs
    parse_list_rest zero close p = none
    parse_list_rest (suc f) close p =
        test (peek_is comma)
          (do
            advance next
            advance next
            test (cur_is close) (do error_here expected_expression; pure no_exprs)
                (parse_list_items f close))
          (do
            test (peek_is close) (advance next) (pure tt)
            test (cur_is close) (pure tt) (errorf (λ q. q.peek.pos) (λ q. unclosed_list close))
            pure no_exprs)
          p

    pub parse_func_expr : ℕ → M S Expr
    parse_func_expr zero p = none
    parse_func_expr (suc f) p =
        expecting l_paren no_expr
          (do
            advance next
            advance next
            params ← parse_param_list next f
            advance next
            body ← parse_body f
            pure (func_expr p.cur.pos.line params body))
          p

    -- the block that a condition, a loop or a function's parameters are followed by
    pub parse_body : ℕ → M S Block
    parse_body zero p = none
    parse_body (suc f) p = (do skip_newlines next f; enter_block next; parse_block f) p

    pub parse_block : ℕ → M S Block
    parse_block zero p = none
    parse_block (suc f) p =
        (do
          advance next
          skip_newlines next f
          stmts ← parse_block_items f
          test (cur_is r_brace) (advance next) (pure tt)
          pure stmts)
          p

    -- the loop of `parseBlock`
    pub parse_block_items : ℕ → M S Block
    parse_block_items zero p = none
    parse_block_items (suc f) p =
        test (λ q. cur_is r_brace q || cur_is eof q) (pure no_stmts)
          (do
            s ← parse_statement f
            skip_newlines next f
            rest ← parse_block_items f
            pure (add_stmt s rest))
          p

    pub parse_statement : ℕ → M S (Option Stmt)
    parse_statement zero p = none
    parse_statement (suc f) p = parse_statement_at f p.cur.type p

    pub parse_statement_at : ℕ → TokenType → M S (Option Stmt)
    parse_statement_at zero t p = none
    parse_statement_at (suc f) func p = parse_func_decl f p
    parse_statement_at (suc f) return_kw p = parse_return f p
    parse_statement_at (suc f) if_kw p = parse_if f p
    parse_statement_at (suc f) while_kw p = parse_while f p
    parse_statement_at (suc f) for_kw p = parse_for f p
    parse_statement_at (suc f) l_brace p =
        (do body ← parse_block f; pure (some (block_stmt p.cur.pos.line body))) p
    parse_statement_at (suc f) t p = parse_expr_statement f p

    pub parse_return : ℕ → M S (Option Stmt)
    parse_return zero p = none
    parse_return (suc f) p =
        (do
          advance next
          value ← test (λ q. ends_statement q.cur.type) (pure no_expr) (parse_expression f lowest)
          advance_unless_eof next
          pure (some (return_stmt p.cur.pos.line value)))
          p

    pub parse_if : ℕ → M S (Option Stmt)
    parse_if zero p = none
    parse_if (suc f) p =
        expecting l_paren none
          (do
            advance next
            condition ← parse_expression f lowest
            consume_rparen next
            body ← parse_body f
            skip_newlines next f
            (clauses, whole) ← parse_clauses f
            other ←
                test (λ q. whole && cur_is else_kw q)
                  (do advance next; b ← parse_body f; pure (alt b)) (pure no_alt)
            pure (some (if_stmt p.cur.pos.line condition body clauses other)))
          p

    -- the loop over `elseif`; `false` is the early return from it
    pub parse_clauses : ℕ → M S (Clauses × Bool)
    parse_clauses zero p = none
    parse_clauses (suc f) p =
        test (cur_is else_if)
          (expecting l_paren (no_clauses, false)
            do
              advance next
              condition ← parse_expression f lowest
              consume_rparen next
              body ← parse_body f
              skip_newlines next f
              (rest, whole) ← parse_clauses f
              pure (more_clauses condition body rest, whole))
          (pure (no_clauses, true)) p

    pub parse_while : ℕ → M S (Option Stmt)
    parse_while zero p = none
    parse_while (suc f) p =
        expecting l_paren none
          (do
            advance next
            condition ← parse_expression f lowest
            consume_rparen next
            body ← parse_body f
            pure (some (while_stmt p.cur.pos.line condition body)))
          p

    pub parse_for : ℕ → M S (Option Stmt)
    parse_for zero p = none
    parse_for (suc f) p =
        expecting l_paren none
          (do
            advance next
            advance next
            (key, value) ← parse_for_binding next
            test (λ q. cur_is in_kw q || peek_is in_kw q)
                (do
                  test (cur_is in_kw) (pure tt) (advance next)
                  parse_for_rest f p.cur.pos.line key value)
                (do
                  error_here expected_in
                  pure (some (for_stmt p.cur.pos.line key value no_expr no_stmts))))
          p

    -- behind `in`
    pub parse_for_rest : ℕ → ℕ → Bytes → Bytes → M S (Option Stmt)
    parse_for_rest zero line key value p = none
    parse_for_rest (suc f) line key value p =
        (do
          advance next
          iterable ← parse_expression f lowest
          consume_rparen next
          body ← parse_body f
          pure (some (for_stmt line key value iterable body)))
          p

    pub parse_func_decl : ℕ → M S (Option Stmt)
    parse_func_decl zero p = none
    parse_func_decl (suc f) p =
        expecting ident none
          (do
            advance next
            name ← cur_literal
            expecting l_paren none do
              advance next
              advance next
              params ← parse_param_list next f
              advance next
              body ← parse_body f
              pure (some (func_decl p.cur.pos.line name params body)))
          p

    pub parse_expr_statement : ℕ → M S (Option Stmt)
    parse_expr_statement zero p = none
    parse_expr_statement (suc f) p =
        (do
          e ← parse_expression f lowest
          advance_unless_eof next
          pure (some (expr_stmt p.cur.pos.line e)))
          p
