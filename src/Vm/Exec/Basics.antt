-- ===== src/Vm/Exec/Basics.antt =====
-- internal/vm/vm.go: the cases of the switch of `Run` for constants, operators and variables. Each
-- takes the current frame, its operands unread, and the machine with the frames below it.
use go_flux.Base.{Bool, not, get_elem?, set, lookup, insert, Result, ok, err, ◌>>=◌}
use go_flux.Bytecode.Opcode.{Op}
use go_flux.Bytecode.Chunk.{Prototype, consts, const_at}
use go_flux.Vm.State.{
  Value, bool, number, Frame, Vm, Fault, Step, Platform, array_at, write_array, push, pop,
}
use go_flux.Vm.Values.{truthy, binary_op, found}
use go_flux.Vm.Upvalues.{get_upvalue, set_upvalue}
use go_flux.Vm.Frames.{resume, lift, in_range, read_u8, read_u16, string_const, const_to_value}

-- OP_CONST, OP_NULL, OP_TRUE, OP_FALSE and OP_POP
unfoldable pub exec_const : Prototype → Frame → Vm → Step Vm
unfolding read_u16 const_to_value
exec_const p fr vm = do
  (i, fr1) ← read_u16 p fr
  c ← in_range (const_at (consts p) i)
  ok (resume fr1 (push (const_to_value c) vm))

unfoldable pub exec_not : Frame → Vm → Step Vm
exec_not fr vm = let (a, vm1) = pop vm in ok (resume fr (push (bool (not (truthy a))) vm1))

unfoldable pub exec_logic : (Bool → Bool → Bool) → Frame → Vm → Step Vm
exec_logic combine fr vm =
    let (b, vm1) = pop vm in
    let (a, vm2) = pop vm1 in ok (resume fr (push (bool (combine (truthy a) (truthy b))) vm2))

-- OP_GET_LOCAL and OP_SET_LOCAL
unfoldable pub exec_get_local : Prototype → Frame → Vm → Step Vm
unfolding read_u8 found
exec_get_local p fr vm = do
  (slot, fr1) ← read_u8 p fr
  v ← lift (found Fault.local_slot_range (get_elem? (array_at vm.heap fr.locals) slot))
  ok (resume fr1 (push v vm))

unfoldable pub exec_set_local : Prototype → Frame → Vm → Step Vm
unfolding read_u8 found write_array
exec_set_local p fr vm = do
  (slot, fr1) ← read_u8 p fr
  old ← lift (found Fault.local_slot_range (get_elem? (array_at vm.heap fr.locals) slot))
  let v = pop vm
  let h = write_array vm.heap fr.locals (set (array_at vm.heap fr.locals) slot v.0)
  ok (resume fr1 (record (v.1) { heap = h }))

-- OP_GET_UPVALUE and OP_SET_UPVALUE
unfoldable pub exec_get_upvalue : Prototype → Frame → Vm → Step Vm
unfolding read_u8 found get_upvalue
exec_get_upvalue p fr vm = do
  (slot, fr1) ← read_u8 p fr
  uv ← lift (found Fault.upvalue_slot_range (get_elem? (fr.fn).upvalues slot))
  ok (resume fr1 (push (get_upvalue vm.heap uv) vm))

unfoldable pub exec_set_upvalue : Prototype → Frame → Vm → Step Vm
unfolding read_u8 found set_upvalue
exec_set_upvalue p fr vm = do
  (slot, fr1) ← read_u8 p fr
  uv ← lift (found Fault.upvalue_slot_range (get_elem? (fr.fn).upvalues slot))
  let v = pop vm
  ok (resume fr1 (record (v.1) { heap = set_upvalue vm.heap uv v.0 }))

-- OP_GET_GLOBAL, and OP_SET_GLOBAL and OP_DEFINE_GLOBAL, which do the same
unfoldable pub exec_get_global : Prototype → Frame → Vm → Step Vm
unfolding read_u16 string_const found
exec_get_global p fr vm = do
  (i, fr1) ← read_u16 p fr
  x ← string_const Fault.global_name_constant p i
  v ← lift (found (Fault.global_not_found x) (lookup x vm.globals))
  ok (resume fr1 (push v vm))

unfoldable pub exec_set_global : Prototype → Frame → Vm → Step Vm
unfolding read_u16 string_const
exec_set_global p fr vm = do
  (i, fr1) ← read_u16 p fr
  x ← string_const Fault.global_name_constant p i
  let v = pop vm
  ok (resume fr1 (record (v.1) { globals = insert x v.0 vm.globals }))

module _ (host : Platform) where
  -- the arithmetic and comparison operators
  unfoldable pub exec_binary : Op → Frame → Vm → Step Vm
  exec_binary op fr vm = do
    let b = pop vm
    let a = pop b.1
    v ← lift (binary_op host op a.0 b.0)
    ok (resume fr (push v a.1))

  negate : Value → Result Fault Value
  negate (number n) = ok (number (host.fneg n))
  negate _ = err Fault.operand_must_be_number

  -- OP_NEG, OP_NOT, OP_AND and OP_OR
  unfoldable pub exec_neg : Frame → Vm → Step Vm
  unfolding negate
  exec_neg fr vm = do let a = pop vm; v ← lift (negate a.0); ok (resume fr (push v a.1))
