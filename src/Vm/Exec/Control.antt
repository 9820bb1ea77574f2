-- ===== src/Vm/Exec/Control.antt =====
-- internal/vm/vm.go: the cases of the switch of `Run` for jumps, calls, returns and closures. A native
-- function is a parameter: it is given its number, the machine and the arguments, and returns an
-- error's text, or a value and the machine.
use go_flux.Base.{
  ℕ, zero, suc, ◌+◌, Bool, Option, none, some, List, [], ◌∷◌, Bytes, length, get_elem?, ◌==◌, ltb,
  if◌then◌else◌, Result, ok, err, ◌>>=◌,
}
use go_flux.Bytecode.Chunk.{Const, Prototype, consts, const_at, name, source}
use go_flux.Vm.State.{
  Value, null, function, Function, Frame, Vm, Fault, Step, fail, array_at, push, pop, peek,
}
use go_flux.Vm.Values.{to_function, found}
use go_flux.Vm.Exec.Containers.{pop_many}
use go_flux.Vm.Upvalues.{capture_upvalue}
use go_flux.Vm.Frames.{
  resume, lift, in_range, read_u8, read_u16, push_frame, set_args, finish_frame,
}

-- OP_JUMP, OP_JUMP_IF_FALSE and OP_JUMP_IF_TRUE; the condition stays on the stack.
unfoldable pub exec_jump : (Value → Bool) → Prototype → Frame → Vm → Step Vm
unfolding read_u16
exec_jump taken p fr vm = do
  (off, fr1) ← read_u16 p fr
  ok (resume (if taken (peek vm) then record fr1 { ip = off } else fr1) vm)

-- OP_RETURN
unfoldable pub exec_return : Frame → Vm → Step Vm
unfolding finish_frame
exec_return fr vm =
    let (v, vm1) = pop vm in
    if ltb fr.base (length vm.stack) then finish_frame v fr vm1 else finish_frame null fr vm

-- OP_CLOSURE: one captured variable, from the frame's locals or from its own upvalues.
unfoldable pub capture_one : Frame → ℕ → ℕ → Vm → Step (Option ℕ × Vm)
unfolding capture_upvalue found
capture_one fr is_local slot vm =
    if is_local == 1
    then (if ltb slot (length (array_at vm.heap fr.locals))
        then (let (i, vm1) = capture_upvalue fr.locals slot vm in ok (some i, vm1))
        else fail Fault.upvalue_local_range)
    else (do
      uv ← lift (found Fault.upvalue_index_range (get_elem? (fr.fn).upvalues slot))
      ok (uv, vm))

unfoldable pub capture_all : ℕ → Prototype → Frame → Vm → Step (List (Option ℕ) × Frame × Vm)
unfolding read_u8 capture_one
capture_all zero p fr vm = ok ([], fr, vm)
capture_all (suc n) p fr vm = do
  (is_local, fr1) ← read_u8 p fr
  (slot, fr2) ← read_u8 p fr1
  (uv, vm1) ← capture_one fr2 is_local slot vm
  (uvs, fr3, vm2) ← capture_all n p fr2 vm1
  ok (uv ∷ uvs, fr3, vm2)

unfoldable pub prototype_const : Prototype → ℕ → Step Prototype
prototype_const p i = do
  c ← in_range (const_at (consts p) i)
  elim c [ Const.function q ↦ ok q | _ ↦ fail Fault.closure_constant ]

unfoldable pub exec_closure : Prototype → Frame → Vm → Step Vm
unfolding read_u16 read_u8 prototype_const capture_all
exec_closure p fr vm = do
  (i, fr1) ← read_u16 p fr
  (count, fr2) ← read_u8 p fr1
  q ← prototype_const p i
  (uvs, fr3, vm1) ← capture_all count p fr2 vm
  ok (
      resume fr3 (
        push
          (function (
            some (record {
              proto = some q;
              upvalues = uvs;
              native = none;
              name = name q;
              source = source q;
            })))
          vm1))

-- Behind the call of a native function.
unfoldable pub native_done : Result Bytes (Value × Vm) → Step Vm
native_done (ok (v, vm)) = ok (push v vm)
native_done (err s) = fail (Fault.native_fault s)

module _ (native : ℕ → Vm → List Value → Result Bytes (Value × Vm)) where
  -- the two kinds of callee
  unfoldable pub call_function : Frame → Vm → List Value → Option ℕ → Function → Step Vm
  unfolding native_done push_frame set_args
  call_function fr vm args (some k) fn = native_done (native k (resume fr vm) args)
  call_function fr vm args none fn = do
    vm1 ← lift (push_frame fn (resume fr vm))
    ok (set_args args vm1)

  -- OP_CALL, its operand read
  unfoldable pub call_with : ℕ → Frame → Vm → Step Vm
  unfolding pop_many to_function call_function
  call_with argc fr vm =
      let (args, vm1) = pop_many argc [] vm in
      let (callee, vm2) = pop vm1 in
      let called = lift (to_function callee) >>= λ fn. call_function fr vm2 args fn.native fn in
      if ltb (length vm.stack) (argc + 1)
      then fail (Fault.stack_underflow argc (length vm.stack))
      else called

  unfoldable pub exec_call : Prototype → Frame → Vm → Step Vm
  unfolding read_u8 call_with
  exec_call p fr vm = do (argc, fr1) ← read_u8 p fr; call_with argc fr1 vm
