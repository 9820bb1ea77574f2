-- ===== src/Compiler/Emit.antt =====
-- internal/compiler/compiler.go: the state of a function's compilation, and the emission of
-- bytes, constants and jumps. The field `temp` and the routines `newTemp` and
-- `lastConstIndexBytes`, which nothing calls, are left out.
use go_flux.Base.{
  ℕ, ◌+◌, ◌-◌, Bool, false, ◌||◌, none, some, List, [], ◌∷◌, ◌++◌, Bytes, length, set, byte, uint16,
  hi_byte, ◌==◌, ltb, if◌then◌else◌,
}
use go_flux.Bytecode.Opcode.{Op, opcode}
use go_flux.Bytecode.Chunk.{Const, string, Consts, empty, size, add_last, LineInfo}
use go_flux.Compiler.Scope.{Scope, new_scope, add_local, resolve_local, resolve_upvalue}

pub record FuncCompiler : Type 0 where
  pub code : Bytes
  pub consts : Consts
  pub lines : List LineInfo
  pub scope : Scope
  pub enclosing : List Scope
  pub line : ℕ
  pub source : Bytes

-- `newFuncCompilerWithScope`, with the parent's scope and those around it; `newFuncCompiler` has none.
abbrev pub new_func_compiler : List Scope → Bytes → FuncCompiler
new_func_compiler enclosing source = record {
  code = [];
  consts = empty;
  lines = [];
  scope = new_scope;
  enclosing = enclosing;
  line = 0;
  source = source;
}

abbrev pub set_line : ℕ → FuncCompiler → FuncCompiler
set_line line fc = if ltb 0 line then record fc { line = line } else fc

-- Whether the last entry of the line table is for this offset.
unfoldable pub ends_at : ℕ → List LineInfo → Bool
ends_at off [] = false
ends_at off (i ∷ []) = i.offset == off
ends_at off (i ∷ j ∷ is) = ends_at off (j ∷ is)

-- What `recordLine` makes of the line table.
unfoldable pub recorded : FuncCompiler → List LineInfo
unfolding ends_at
recorded fc =
    if fc.line == 0 || ends_at (length fc.code) fc.lines
    then fc.lines
    else fc.lines ++ record { offset = length fc.code; line = fc.line } ∷ []

unfoldable pub emit_bytes : Bytes → FuncCompiler → FuncCompiler
unfolding recorded
emit_bytes bs fc = record fc { code = fc.code ++ bs; lines = recorded fc }

abbrev pub emit_byte : ℕ → FuncCompiler → FuncCompiler
emit_byte b fc = emit_bytes (b ∷ []) fc

abbrev pub emit_op : Op → FuncCompiler → FuncCompiler
emit_op op fc = emit_byte (opcode op) fc

-- `fc.emitBytes(op, byte(n>>8), byte(n))`
abbrev pub emit_u16 : Op → ℕ → FuncCompiler → FuncCompiler
emit_u16 op n fc = emit_bytes (opcode op ∷ hi_byte n ∷ byte n ∷ []) fc

-- `fc.emitBytes(op, slot)`
abbrev pub emit_u8 : Op → ℕ → FuncCompiler → FuncCompiler
emit_u8 op n fc = emit_bytes (opcode op ∷ n ∷ []) fc

-- The index returned is a uint16: it wraps.
unfoldable pub add_const : Const → FuncCompiler → ℕ × FuncCompiler
add_const v fc = let cs = add_last fc.consts v in (uint16 (size cs - 1), record fc { consts = cs })

unfoldable pub emit_const : Const → FuncCompiler → FuncCompiler
unfolding add_const
emit_const v fc = let (i, fc') = add_const v fc in emit_u16 Op.const i fc'

unfoldable pub emit_global_get : Bytes → FuncCompiler → FuncCompiler
unfolding add_const
emit_global_get x fc = let (i, fc') = add_const (string x) fc in emit_u16 Op.get_global i fc'

unfoldable pub emit_global_set : Bytes → Bool → FuncCompiler → FuncCompiler
unfolding add_const
emit_global_set x define fc =
    let (i, fc') = add_const (string x) fc in
    if define then emit_u16 Op.define_global i fc' else emit_u16 Op.set_global i fc'

-- A jump with a placeholder; the position of the placeholder comes first.
unfoldable pub emit_jump : Op → FuncCompiler → ℕ × FuncCompiler
unfolding emit_bytes
emit_jump op fc =
    let fc' = emit_byte 0xff (emit_byte 0xff (emit_op op fc)) in (length fc'.code - 2, fc')

-- The offset is cut to two bytes.
unfoldable pub patch_jump : ℕ → FuncCompiler → FuncCompiler
patch_jump pos fc =
    let offset = length fc.code in
    record fc { code = set (set fc.code pos (hi_byte offset)) (pos + 1) (byte offset) }

unfoldable pub emit_loop : ℕ → FuncCompiler → FuncCompiler
unfolding emit_bytes
emit_loop start fc = emit_byte (byte start) (emit_byte (hi_byte start) (emit_op Op.jump fc))

-- The last byte of the code, 0 if there is none.
unfoldable pub last_byte : Bytes → ℕ
last_byte [] = 0
last_byte (b ∷ []) = b
last_byte (b ∷ c ∷ bs) = last_byte (c ∷ bs)

-- `ensureLocal`
unfoldable pub ensure_local : Bytes → FuncCompiler → ℕ × FuncCompiler
unfolding resolve_local add_local
ensure_local x fc = elim (resolve_local x fc.scope) [
  | some slot ↦ (slot, fc)
  | none ↦ (fc.scope.next_loc, record fc { scope = add_local x fc.scope })
]

-- What a variable's name stands for, with the captures that finding it out makes.
pub data Place : Type 0 where
  local upvalue : ℕ → Place
  global : Place

unfoldable pub resolve : Bytes → FuncCompiler → Place × FuncCompiler
unfolding resolve_local resolve_upvalue
resolve x fc = elim (resolve_local x fc.scope) [
  | some slot ↦ (local slot, fc)
  | none ↦ elim (resolve_upvalue x fc.enclosing fc.scope) [
    | some (i, s, es) ↦ (upvalue i, record fc { scope = s; enclosing = es })
    | none ↦ (global, fc)
  ]
]
