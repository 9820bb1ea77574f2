-- ===== src/Parser/Pieces.antt =====
-- internal/parser/parser.go: precedences, the ends of expressions and statements, and the parts that
-- are read without recursion into expressions: bindings, parameters and keys.
use go_flux.Base.{ℕ, zero, suc, Bool, true, false, Option, none, some, List, [], ◌∷◌, Bytes}
use go_flux.Token.{
  TokenType, eof, newline, ident, variable, number, string, assign, define, plus, minus, star,
  slash, equal, not_equal, less, less_equal, greater, greater_equal, and_and, or_or, comma, dot,
  l_paren, r_paren, r_brace, l_bracket, r_bracket, Token,
}
use go_flux.Ast.{Expr, no_expr, ObjectKey, Stmt, return_value, return_null, Block, more_stmts}
use go_flux.Parser.State.{
  M, pure, ◌>>=◌, ◌>>◌, test, cur_is, peek_is, cur_literal, error_here, expecting, advance,
  expected_parameter, invalid_binding, invalid_key,
}

-- `lowest` is 1, and `assignPrecedence - 1` too.
abbrev pub lowest : ℕ
lowest = 1

abbrev pub prefix_precedence : ℕ
prefix_precedence = 9

-- The table `precedences`, and `lowest` for the types that it does not have.
unfoldable pub precedence : TokenType → ℕ
precedence assign = 2
precedence define = 2
precedence or_or = 3
precedence and_and = 4
precedence equal = 5
precedence not_equal = 5
precedence less = 6
precedence less_equal = 6
precedence greater = 6
precedence greater_equal = 6
precedence plus = 7
precedence minus = 7
precedence star = 8
precedence slash = 8
precedence l_paren = 10
precedence l_bracket = 10
precedence dot = 10
precedence _ = 1

-- `isEndOfExpression` and `isEndOfStatement`
unfoldable pub ends_expression : TokenType → Bool
ends_expression newline = true
ends_expression r_brace = true
ends_expression eof = true
ends_expression comma = true
ends_expression r_paren = true
ends_expression r_bracket = true
ends_expression _ = false

unfoldable pub ends_statement : TokenType → Bool
ends_statement newline = true
ends_statement r_brace = true
ends_statement eof = true
ends_statement _ = false

-- `left == nil`
unfoldable pub is_nil : Expr → Bool
is_nil no_expr = true
is_nil _ = false

-- The statement of `parseReturn`: a nil value is `return` without one.
unfoldable pub return_stmt : ℕ → Expr → Stmt
return_stmt line no_expr = return_null line
return_stmt line e = return_value line e

-- `if stmt != nil { append }`
unfoldable pub add_stmt : Option Stmt → Block → Block
add_stmt none b = b
add_stmt (some s) b = more_stmts s b

module _ {S : Type 0} (next : S → Option (Token × S)) where
  -- `parseForBinding`: the key and the name of the value
  unfoldable pub binding_at : TokenType → M S (Bytes × Bytes)
  unfolding expecting advance
  binding_at variable = do name ← cur_literal; advance next; pure ([], name)
  binding_at l_bracket =
      expecting variable ([], [])
        do
          advance next
          key ← cur_literal
          expecting comma ([], [])
              do
                advance next
                expecting variable ([], [])
                    do
                      advance next
                      value ← cur_literal
                      expecting r_bracket ([], []) do advance next; pure (key, value)
  binding_at _ = do error_here invalid_binding; pure ([], [])

  unfoldable pub parse_for_binding : M S (Bytes × Bytes)
  unfolding binding_at
  parse_for_binding p = binding_at p.cur.type p

  -- The loop of `parseParamList`, and `parseParamList`
  unfoldable pub more_params : ℕ → M S (List Bytes)
  unfolding advance
  more_params zero p = none
  more_params (suc fuel) p = elim (peek_is comma p) [
    | true ↦
        (do
          advance next
          advance next
          test (cur_is variable) (do x ← cur_literal; xs ← more_params fuel; pure (x ∷ xs))
              (do error_here expected_parameter; pure []))
          p
    | false ↦ some ([], p)
  ]

  unfoldable pub parse_param_list : ℕ → M S (List Bytes)
  unfolding more_params
  parse_param_list fuel = test (cur_is r_paren) (pure []) (
      test (cur_is variable) (do x ← cur_literal; xs ← more_params fuel; pure (x ∷ xs))
        (do error_here expected_parameter; pure []))

module _ {S : Type 0} where
  -- `parseObjectKey`
  unfoldable pub key_at : TokenType → Bytes → M S ObjectKey
  key_at ident x = pure (record { ident = x; str = none; num = none })
  key_at string x = pure (record { ident = []; str = some x; num = none })
  key_at number x = pure (record { ident = []; str = none; num = some x })
  key_at _ x = do error_here invalid_key; pure (record { ident = []; str = none; num = none })

  unfoldable pub parse_object_key : M S ObjectKey
  unfolding key_at
  parse_object_key p = key_at p.cur.type p.cur.literal p
