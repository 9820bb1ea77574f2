-- ===== src/Vm/Exec/Switch.antt =====
-- internal/vm/vm.go: the switch of `Run`.
use go_flux.Base.{ℕ, true, false, ◌&&◌, ◌||◌, not, List, Bytes, Result, ok}
use go_flux.Bytecode.Opcode.{Op}
use go_flux.Bytecode.Chunk.{Prototype}
use go_flux.Vm.State.{Value, null, bool, Frame, Vm, Step, Platform, push, pop}
use go_flux.Vm.Values.{truthy}
use go_flux.Vm.Exec.Basics.{
  exec_const, exec_binary, exec_neg, exec_not, exec_logic, exec_get_local, exec_set_local,
  exec_get_upvalue, exec_set_upvalue, exec_get_global, exec_set_global,
}
use go_flux.Vm.Exec.Containers.{
  exec_array, exec_object, exec_range, exec_index_get, exec_index_set, exec_get_prop, exec_set_prop,
  exec_iter_prep, exec_iter_next,
}
use go_flux.Vm.Exec.Control.{exec_jump, exec_call, exec_return, exec_closure}
use go_flux.Vm.Frames.{resume}

module _ (host : Platform) (native : ℕ → Vm → List Value → Result Bytes (Value × Vm)) where
  -- The switch.
  unfoldable pub exec : Op → Prototype → Frame → Vm → Step Vm
  unfolding exec_const exec_binary exec_neg exec_not exec_logic exec_get_local exec_set_local
      exec_get_upvalue exec_set_upvalue exec_get_global exec_set_global exec_array exec_object
      exec_range exec_index_get exec_index_set exec_get_prop exec_set_prop exec_jump exec_call
      exec_return exec_closure exec_iter_prep exec_iter_next
  exec Op.nop p fr vm = ok (resume fr vm)
  exec Op.debug p fr vm = ok (resume fr vm)
  exec Op.const p fr vm = exec_const p fr vm
  exec Op.null p fr vm = ok (resume fr (push null vm))
  exec Op.true_op p fr vm = ok (resume fr (push (bool true) vm))
  exec Op.false_op p fr vm = ok (resume fr (push (bool false) vm))
  exec Op.pop p fr vm = ok (resume fr (pop vm).1)
  exec Op.neg p fr vm = exec_neg host fr vm
  exec Op.not p fr vm = exec_not fr vm
  exec Op.and p fr vm = exec_logic (λ a b. a && b) fr vm
  exec Op.or p fr vm = exec_logic (λ a b. a || b) fr vm
  exec Op.get_local p fr vm = exec_get_local p fr vm
  exec Op.set_local p fr vm = exec_set_local p fr vm
  exec Op.get_upvalue p fr vm = exec_get_upvalue p fr vm
  exec Op.set_upvalue p fr vm = exec_set_upvalue p fr vm
  exec Op.get_global p fr vm = exec_get_global p fr vm
  exec Op.set_global p fr vm = exec_set_global p fr vm
  exec Op.define_global p fr vm = exec_set_global p fr vm
  exec Op.array p fr vm = exec_array p fr vm
  exec Op.object p fr vm = exec_object host p fr vm
  exec Op.range p fr vm = exec_range host fr vm
  exec Op.index_get p fr vm = exec_index_get host fr vm
  exec Op.index_set p fr vm = exec_index_set host fr vm
  exec Op.get_prop p fr vm = exec_get_prop p fr vm
  exec Op.set_prop p fr vm = exec_set_prop p fr vm
  exec Op.jump p fr vm = exec_jump (λ v. true) p fr vm
  exec Op.jump_if_false p fr vm = exec_jump (λ v. not (truthy v)) p fr vm
  exec Op.jump_if_true p fr vm = exec_jump truthy p fr vm
  exec Op.call p fr vm = exec_call native p fr vm
  exec Op.return_op p fr vm = exec_return fr vm
  exec Op.closure p fr vm = exec_closure p fr vm
  exec Op.iter_prep p fr vm = exec_iter_prep host fr vm
  exec Op.iter_next p fr vm = exec_iter_next host p fr vm
  exec op p fr vm = exec_binary host op fr vm
