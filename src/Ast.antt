-- ===== src/Ast.antt =====
-- internal/ast/ast.go: the syntax tree. Every node but a block keeps the line of its `Pos()`;
-- the rest of the positions and spans is not modelled. A slice of nodes is a type of its own in
-- the block. `return` with and without a value are two constructors. `no_expr` is a nil Expression,
-- which the parser leaves where it has reported an error.
use go_flux.Base.{ℕ, suc, Bool, Bytes, List, Option}
use go_flux.Token.{TokenType}

pub record ObjectKey : Type 0 where
  pub ident : Bytes
  pub str : Option Bytes
  pub num : Option Bytes

mutual
  pub data Expr : Type 0 where
    no_expr : Expr
    identifier variable number_literal string_literal : ℕ → Bytes → Expr
    bool_literal : ℕ → Bool → Expr
    null_literal : ℕ → Expr
    array_literal : ℕ → Exprs → Expr
    range_literal : ℕ → Expr → Expr → Expr
    object_literal : ℕ → Fields → Expr
    index : ℕ → Expr → Expr → Expr
    member : ℕ → Expr → Bytes → Expr
    call : ℕ → Expr → Exprs → Expr
    assign : ℕ → TokenType → Expr → Expr → Expr
    binary : ℕ → TokenType → Expr → Expr → Expr
    unary : ℕ → TokenType → Expr → Expr
    func_expr : ℕ → List Bytes → Block → Expr

  pub data Exprs : Type 0 where
    no_exprs : Exprs
    more_exprs : Expr → Exprs → Exprs

  pub data Fields : Type 0 where
    no_fields : Fields
    more_fields : ObjectKey → Expr → Fields → Fields

  pub data Stmt : Type 0 where
    block_stmt : ℕ → Block → Stmt
    expr_stmt : ℕ → Expr → Stmt
    return_value : ℕ → Expr → Stmt
    return_null : ℕ → Stmt
    if_stmt : ℕ → Expr → Block → Clauses → Alt → Stmt
    while_stmt : ℕ → Expr → Block → Stmt
    for_stmt : ℕ → Bytes → Bytes → Expr → Block → Stmt
    func_decl : ℕ → Bytes → List Bytes → Block → Stmt

  pub data Block : Type 0 where
    no_stmts : Block
    more_stmts : Stmt → Block → Block

  -- the `elseif` clauses
  pub data Clauses : Type 0 where
    no_clauses : Clauses
    more_clauses : Expr → Block → Clauses → Clauses

  -- the `else` block, which may be nil
  pub data Alt : Type 0 where
    no_alt : Alt
    alt : Block → Alt

-- `expr.Pos().Line`
abbrev pub expr_line : Expr → ℕ
expr_line no_expr = 0
expr_line (identifier n x) = n
expr_line (variable n x) = n
expr_line (number_literal n x) = n
expr_line (string_literal n x) = n
expr_line (bool_literal n b) = n
expr_line (null_literal n) = n
expr_line (array_literal n es) = n
expr_line (range_literal n a b) = n
expr_line (object_literal n fs) = n
expr_line (index n a b) = n
expr_line (member n a p) = n
expr_line (call n c es) = n
expr_line (assign n o a b) = n
expr_line (binary n o a b) = n
expr_line (unary n o a) = n
expr_line (func_expr n ps b) = n

-- `stmt.Pos().Line`
abbrev pub stmt_line : Stmt → ℕ
stmt_line (block_stmt n b) = n
stmt_line (expr_stmt n e) = n
stmt_line (return_value n e) = n
stmt_line (return_null n) = n
stmt_line (if_stmt n c b cs a) = n
stmt_line (while_stmt n c b) = n
stmt_line (for_stmt n k v e b) = n
stmt_line (func_decl n x ps b) = n

abbrev pub exprs_length : Exprs → ℕ
exprs_length no_exprs = 0
exprs_length (more_exprs e es) = suc (exprs_length es)

abbrev pub fields_length : Fields → ℕ
fields_length no_fields = 0
fields_length (more_fields k e fs) = suc (fields_length fs)
