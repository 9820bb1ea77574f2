-- ===== src/Compiler/Pieces.antt =====
-- internal/compiler/compiler.go and builtins.go: what the compilation of a node does beside the
-- compilation of its children.
use go_flux.Base.{
  ℕ, Bool, true, false, ◌||◌, not, Option, none, some, List, [], ◌∷◌, Bytes, length, byte, hi_byte,
  bytes_eq, ◌==◌, ltb, if◌then◌else◌, Result, ok, err,
}
use go_flux.Token.{
  TokenType, plus, minus, star, slash, bang, equal, not_equal, less, less_equal, greater,
  greater_equal, and_and, or_or, define,
}
use go_flux.Ast.{ObjectKey, Expr, identifier, assign, Block, no_stmts, more_stmts}
use go_flux.Bytecode.Opcode.{Op, opcode}
use go_flux.Bytecode.Chunk.{Upvalue, Const, Prototype, prototype}
use go_flux.Bytecode.Builtins.{lookup_by_name}
use go_flux.Compiler.Scope.{Scope, add_local, resolve_local}
use go_flux.Compiler.Emit.{
  FuncCompiler, new_func_compiler, emit_bytes, emit_byte, emit_op, emit_u8, add_const, emit_const,
  emit_global_get, emit_global_set, last_byte, ensure_local, Place, local, upvalue, global,
}

-- `nil_node` is the Go panic at the position of a nil Expression.
pub data CompileError : Type 0 where
  top_level too_many_parameters unsupported_unary unsupported_binary : CompileError
  unsupported_statement invalid_target nil_node : CompileError
  invalid_number unknown_builtin : Bytes → CompileError
  builtin_args : Bytes → ℕ → ℕ → CompileError

abbrev pub Compiled : Type 0
Compiled = Result CompileError FuncCompiler

unfoldable pub object_key_to_string : ObjectKey → Bytes
object_key_to_string k =
    if not (bytes_eq k.ident [])
    then k.ident
    else elim k.str [ some s ↦ s | none ↦ elim k.num [ some n ↦ n | none ↦ [] ] ]

-- `builtinName`
unfoldable pub builtin_name : Expr → Option Bytes
unfolding lookup_by_name
builtin_name (identifier n x) = elim (lookup_by_name x) [ some s ↦ some x | none ↦ none ]
builtin_name _ = none

unfoldable pub emit_builtin : Bytes → ℕ → FuncCompiler → Compiled
unfolding lookup_by_name
emit_builtin x argc fc = elim (lookup_by_name x) [
  | none ↦ err (unknown_builtin x)
  | some s ↦
      if argc == s.arity then ok (emit_byte s.opcode fc) else err (builtin_args x s.arity argc)
]

unfoldable pub emit_number : Option ℕ → Bytes → FuncCompiler → Compiled
emit_number (some n) x fc = ok (emit_const (Const.number n) fc)
emit_number none x fc = err (invalid_number x)

-- The switches on a unary and on a binary operator, behind the operands.
unfoldable pub emit_unary : TokenType → FuncCompiler → Compiled
emit_unary minus fc = ok (emit_op Op.neg fc)
emit_unary bang fc = ok (emit_op Op.not fc)
emit_unary plus fc = ok fc
emit_unary _ fc = err unsupported_unary

unfoldable pub emit_binary : TokenType → FuncCompiler → Compiled
emit_binary plus fc = ok (emit_op Op.add fc)
emit_binary minus fc = ok (emit_op Op.sub fc)
emit_binary star fc = ok (emit_op Op.mul fc)
emit_binary slash fc = ok (emit_op Op.div fc)
emit_binary equal fc = ok (emit_op Op.eq fc)
emit_binary not_equal fc = ok (emit_op Op.neq fc)
emit_binary less fc = ok (emit_op Op.lt fc)
emit_binary less_equal fc = ok (emit_op Op.lte fc)
emit_binary greater fc = ok (emit_op Op.gt fc)
emit_binary greater_equal fc = ok (emit_op Op.gte fc)
emit_binary _ fc = err unsupported_binary

-- The jump of a logical operator; `none` for the other operators.
abbrev pub logical_jump : TokenType → Option Op
logical_jump and_and = some Op.jump_if_false
logical_jump or_or = some Op.jump_if_true
logical_jump _ = none

unfoldable pub get_place : Place × FuncCompiler → Bytes → FuncCompiler
get_place (local slot, fc) x = emit_u8 Op.get_local slot fc
get_place (upvalue i, fc) x = emit_u8 Op.get_upvalue i fc
get_place (global, fc) x = emit_global_get x fc

unfoldable pub set_place : Place × FuncCompiler → Bytes → Bool → FuncCompiler
set_place (local slot, fc) x d = emit_u8 Op.set_local slot fc
set_place (upvalue i, fc) x d = emit_u8 Op.set_upvalue i fc
set_place (global, fc) x d = emit_global_set x d fc

abbrev pub is_define : TokenType → Bool
is_define define = true
is_define _ = false

-- `:=` declares its variable before its value is compiled.
unfoldable pub declare : Bool → Bytes → FuncCompiler → FuncCompiler
unfolding resolve_local
declare false x fc = fc
declare true x fc = elim (resolve_local x fc.scope) [
  | some slot ↦ fc
  | none ↦ record fc { scope = add_local x fc.scope }
]

unfoldable pub is_assign : Expr → Bool
is_assign (assign n o a b) = true
is_assign _ = false

unfoldable pub add_params : List Bytes → Scope → Scope
unfolding add_local
add_params [] s = s
add_params (p ∷ ps) s = add_params ps (add_local p s)

-- The compiler of a nested function, its parameters declared; more than 255 of them are refused.
unfoldable pub open_function : List Bytes → List Scope → Bytes → Compiled
unfolding add_params
open_function params enclosing source =
    let fc = new_func_compiler enclosing source in
    if ltb 255 (length params)
    then err too_many_parameters
    else ok (record fc { scope = add_params params fc.scope })

abbrev pub is_empty : Block → Bool
is_empty no_stmts = true
is_empty (more_stmts s b) = false

-- The implicit `return null`, unless the last byte of the code is that of a return.
unfoldable pub close_function : Block → FuncCompiler → FuncCompiler
unfolding last_byte
close_function body fc =
    if is_empty body || not (last_byte fc.code == opcode Op.return_op)
    then emit_op Op.return_op (emit_op Op.null fc)
    else fc

unfoldable pub to_prototype : Bytes → List Bytes → FuncCompiler → Prototype
to_prototype x params fc =
    prototype x fc.source (length params) fc.code fc.consts fc.lines fc.scope.upvalues
      fc.scope.next_loc

unfoldable pub upvalue_bytes : List Upvalue → Bytes
upvalue_bytes [] = []
upvalue_bytes (u ∷ us) = (if u.is_local then 1 else 0) ∷ u.index ∷ upvalue_bytes us

-- The parent takes back its scopes, as the nested function's captures have left them.
abbrev pub back_to : List Scope → FuncCompiler → FuncCompiler
back_to [] fc = fc
back_to (s ∷ es) fc = record fc { scope = s; enclosing = es }

-- Behind `compilePrototype`: the prototype becomes a constant, and OP_CLOSURE with a pair of bytes
-- for each upvalue is emitted.
unfoldable pub emit_closure :
    Bytes → List Bytes → Block → FuncCompiler → FuncCompiler → FuncCompiler
unfolding close_function to_prototype upvalue_bytes add_const
emit_closure x params body child parent =
    let done = close_function body child in
    let (i, fc) =
      add_const (Const.function (to_prototype x params done)) (back_to done.enclosing parent) in
    emit_bytes
      (opcode Op.closure
        ∷ hi_byte i
        ∷ byte i
        ∷ byte (length done.scope.upvalues)
        ∷ upvalue_bytes done.scope.upvalues)
      fc

-- The bindings of `for`: the key is dropped if it has no name.
unfoldable pub bind_loop : Bytes → Bytes → FuncCompiler → FuncCompiler
unfolding ensure_local
bind_loop key value fc =
    let (key_slot, fc1) = ensure_local key fc in
    let (both_slot, fc2) = ensure_local value fc1 in
    let (value_slot, fc3) = ensure_local value fc in
    if not (bytes_eq key [])
    then emit_u8 Op.set_local key_slot (emit_u8 Op.set_local both_slot fc2)
    else emit_op Op.pop (emit_u8 Op.set_local value_slot fc3)
