-- ===== src/Compiler/Compile.antt =====
-- internal/compiler/compiler.go: the compilation of expressions, statements and functions.
-- `strconv.ParseFloat` is the parameter `parse_float`, into the bit pattern of a float64.
use go_flux.Base.{
  ℕ, true, false, Option, none, some, List, [], ◌∷◌, Bytes, length, byte, insert, if◌then◌else◌,
  Result, ok, err, ◌>>=◌,
}
use go_flux.Ast.{
  Expr, no_expr, identifier, variable, number_literal, string_literal, bool_literal, null_literal,
  array_literal, range_literal, object_literal, index, member, call, assign, binary, unary,
  func_expr, Exprs, no_exprs, more_exprs, Fields, no_fields, more_fields, Stmt, block_stmt,
  expr_stmt, return_value, return_null, if_stmt, while_stmt, for_stmt, func_decl, Block, no_stmts,
  more_stmts, Clauses, no_clauses, more_clauses, Alt, no_alt, alt, exprs_length, fields_length,
}
use go_flux.Bytecode.Opcode.{Op}
use go_flux.Bytecode.Chunk.{Const, Prototype}
use go_flux.Compiler.Emit.{
  FuncCompiler, set_line, emit_op, emit_u16, emit_u8, add_const, emit_const, emit_global_get,
  emit_jump, patch_jump, emit_loop, ensure_local, resolve,
}
use go_flux.Compiler.Pieces.{
  CompileError, nil_node, top_level, unsupported_statement, invalid_target, Compiled,
  object_key_to_string, builtin_name, emit_builtin, emit_number, emit_unary, emit_binary,
  logical_jump, get_place, set_place, is_define, declare, is_assign, open_function, close_function,
  to_prototype, emit_closure, bind_loop,
}

module _ (parse_float : Bytes → Option ℕ) where
  unfoldable mutual
    unfolding emit_unary emit_binary emit_number emit_builtin get_place set_place declare
        open_function emit_closure bind_loop builtin_name is_assign object_key_to_string

    pub compile_expr : Expr → FuncCompiler → Compiled
    compile_expr no_expr fc = err nil_node
    compile_expr (number_literal n x) fc = emit_number (parse_float x) x (set_line n fc)
    compile_expr (string_literal n x) fc = ok (emit_const (Const.string x) (set_line n fc))
    compile_expr (bool_literal n true) fc = ok (emit_op Op.true_op (set_line n fc))
    compile_expr (bool_literal n false) fc = ok (emit_op Op.false_op (set_line n fc))
    compile_expr (null_literal n) fc = ok (emit_op Op.null (set_line n fc))
    compile_expr (array_literal n es) fc = do
      fc1 ← compile_exprs es (set_line n fc)
      ok (emit_u16 Op.array (exprs_length es) fc1)
    compile_expr (range_literal n a b) fc = do
      fc1 ← compile_expr a (set_line n fc)
      fc2 ← compile_expr b fc1
      ok (emit_op Op.range fc2)
    compile_expr (object_literal n fs) fc = do
      fc1 ← compile_fields fs (set_line n fc)
      ok (emit_u16 Op.object (fields_length fs) fc1)
    compile_expr (identifier n x) fc = ok (emit_global_get x (set_line n fc))
    compile_expr (variable n x) fc = ok (get_place (resolve x (set_line n fc)) x)
    compile_expr (unary n op a) fc = do fc1 ← compile_expr a (set_line n fc); emit_unary op fc1
    compile_expr (binary n op a b) fc = do
      fc1 ← compile_expr a (set_line n fc)
      elim (logical_jump op) [
        | some j ↦ do
          let end = emit_jump j fc1
          fc2 ← compile_expr b (emit_op Op.pop end.1)
          ok (patch_jump end.0 fc2)
        | none ↦ do fc2 ← compile_expr b fc1; emit_binary op fc2
      ]
    compile_expr (assign n op (variable m x) e) fc = do
      fc1 ← compile_expr e (declare (is_define op) x (set_line n fc))
      ok (set_place (resolve x fc1) x (is_define op))
    compile_expr (assign n op (member m a p) e) fc = do
      fc1 ← compile_expr a (set_line n fc)
      let prop = add_const (Const.string p) fc1
      fc2 ← compile_expr e prop.1
      ok (emit_u16 Op.set_prop prop.0 fc2)
    compile_expr (assign n op (index m a i) e) fc = do
      fc1 ← compile_expr a (set_line n fc)
      fc2 ← compile_expr i fc1
      fc3 ← compile_expr e fc2
      ok (emit_op Op.index_set fc3)
    compile_expr (assign n op a e) fc = err invalid_target
    compile_expr (call n c es) fc = elim (builtin_name c) [
      | some x ↦ do fc1 ← compile_exprs es (set_line n fc); emit_builtin x (exprs_length es) fc1
      | none ↦ do
        fc1 ← compile_expr c (set_line n fc)
        fc2 ← compile_exprs es fc1
        ok (emit_u8 Op.call (byte (exprs_length es)) fc2)
    ]
    compile_expr (member n a p) fc = do
      fc1 ← compile_expr a (set_line n fc)
      let prop = add_const (Const.string p) fc1
      ok (emit_u16 Op.get_prop prop.0 prop.1)
    compile_expr (index n a i) fc = do
      fc1 ← compile_expr a (set_line n fc)
      fc2 ← compile_expr i fc1
      ok (emit_op Op.index_get fc2)
    compile_expr (func_expr n ps b) fc = do
      let parent = set_line n fc
      inner ← open_function ps (parent.scope ∷ parent.enclosing) parent.source
      child ← compile_block b inner
      ok (emit_closure [] ps b child parent)

    pub compile_exprs : Exprs → FuncCompiler → Compiled
    compile_exprs no_exprs fc = ok fc
    compile_exprs (more_exprs e es) fc = do fc1 ← compile_expr e fc; compile_exprs es fc1

    pub compile_fields : Fields → FuncCompiler → Compiled
    compile_fields no_fields fc = ok fc
    compile_fields (more_fields k e fs) fc = do
      fc1 ← compile_expr e (emit_const (Const.string (object_key_to_string k)) fc)
      compile_fields fs fc1

    pub compile_stmt : Stmt → FuncCompiler → Compiled
    compile_stmt (expr_stmt n e) fc = do
      fc1 ← compile_expr e (set_line n fc)
      ok (if is_assign e then fc1 else emit_op Op.pop fc1)
    compile_stmt (return_value n e) fc = do
      fc1 ← compile_expr e (set_line n fc)
      ok (emit_op Op.return_op fc1)
    compile_stmt (return_null n) fc = ok (emit_op Op.return_op (emit_op Op.null (set_line n fc)))
    compile_stmt (if_stmt n c b cs a) fc = do
      fc1 ← compile_expr c (set_line n fc)
      let skip = emit_jump Op.jump_if_false fc1
      fc2 ← compile_block b (emit_op Op.pop skip.1)
      let over = emit_jump Op.jump fc2
      fc3 ← compile_clauses cs (emit_op Op.pop (patch_jump skip.0 over.1))
      fc4 ← compile_alt a fc3
      ok (patch_jump over.0 fc4)
    compile_stmt (while_stmt n c b) fc = do
      let start = length fc.code
      fc1 ← compile_expr c (set_line n fc)
      let exit = emit_jump Op.jump_if_false fc1
      fc2 ← compile_block b (emit_op Op.pop exit.1)
      ok (emit_op Op.pop (patch_jump exit.0 (emit_loop start fc2)))
    compile_stmt (for_stmt n key value e b) fc = do
      fc1 ← compile_expr e (set_line n fc)
      let prepared = emit_op Op.iter_prep fc1
      let next = emit_jump Op.iter_next prepared
      fc2 ← compile_block b (bind_loop key value next.1)
      ok (emit_op Op.pop (patch_jump next.0 (emit_loop (length prepared.code) fc2)))
    compile_stmt (func_decl n x ps b) fc = do
      let parent = set_line n fc
      inner ← open_function ps (parent.scope ∷ parent.enclosing) parent.source
      child ← compile_block b inner
      let named = ensure_local x (emit_closure x ps b child parent)
      ok (emit_u8 Op.set_local named.0 named.1)
    compile_stmt (block_stmt n b) fc = err unsupported_statement

    pub compile_block : Block → FuncCompiler → Compiled
    compile_block no_stmts fc = ok fc
    compile_block (more_stmts s b) fc = do fc1 ← compile_stmt s fc; compile_block b fc1

    pub compile_clauses : Clauses → FuncCompiler → Compiled
    compile_clauses no_clauses fc = ok fc
    compile_clauses (more_clauses c b cs) fc = do
      fc1 ← compile_expr c fc
      let skip = emit_jump Op.jump_if_false fc1
      fc2 ← compile_block b (emit_op Op.pop skip.1)
      let over = emit_jump Op.jump fc2
      compile_clauses cs (patch_jump over.0 (emit_op Op.pop (patch_jump skip.0 over.1)))

    pub compile_alt : Alt → FuncCompiler → Compiled
    compile_alt no_alt fc = ok fc
    compile_alt (alt b) fc = compile_block b fc

  -- `compileFunction`
  unfoldable pub compile_function :
      Bytes → Bytes → List Bytes → Block → Result CompileError Prototype
  unfolding compile_expr open_function close_function to_prototype
  compile_function source x ps b = do
    inner ← open_function ps [] source
    fc ← compile_block b inner
    ok (to_prototype x ps (close_function b fc))

  -- `Compile`, over the statements of the program; a later function of the same name replaces it.
  unfoldable pub compile :
      Bytes → List (Bytes × Prototype) → Block → Result CompileError (List (Bytes × Prototype))
  unfolding compile_function
  compile source functions no_stmts = ok functions
  compile source functions (more_stmts (func_decl n x ps b) rest) = do
    proto ← compile_function source x ps b
    compile source (insert x proto functions) rest
  compile source functions (more_stmts s rest) = err top_level
