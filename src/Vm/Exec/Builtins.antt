-- ===== src/Vm/Exec/Builtins.antt =====
-- internal/vm/builtins.go, and the handlers of the packages below internal/builtins.
use go_flux.Base.{length, ltb, if◌then◌else◌, Result, ok, err, ◌>>=◌}
use go_flux.Bytecode.Builtins.{Builtin, Spec}
use go_flux.Vm.State.{Value, bool, string, error, Frame, Vm, Fault, Step, fail, Platform, push, pop}
use go_flux.Vm.Values.{type_name, is_read_only, index_get, index_exists, value_exists}
use go_flux.Vm.Frames.{resume, lift}

-- The handlers of the built-in operations.
unfoldable pub error_of : Value → Result Fault Value
error_of (string s) = ok (error s)
error_of _ = err Fault.error_expects_string

module _ (host : Platform) where
  unfoldable pub handle : Builtin → Vm → Result Fault Vm
  unfolding error_of
  handle Builtin.typeof vm = let (v, vm1) = pop vm in ok (push (string (type_name v)) vm1)
  handle Builtin.readonly vm = let (v, vm1) = pop vm in ok (push (bool (is_read_only v)) vm1)
  handle Builtin.error vm = do let v = pop vm; e ← error_of v.0; ok (push e v.1)
  handle Builtin.index_exist vm =
      let (index, vm1) = pop vm in
      let (target, vm2) = pop vm1 in ok (push (bool (index_exists host vm.heap target index)) vm2)
  handle Builtin.index_read vm =
      let (default, vm1) = pop vm in
      let (index, vm2) = pop vm1 in
      let (target, vm3) = pop vm2 in
      ok (push (elim (index_get host vm.heap target index) [ ok v ↦ v | err f ↦ default ]) vm3)
  handle Builtin.value_exist vm =
      let (v, vm1) = pop vm in
      let (arr, vm2) = pop vm1 in ok (push (bool (value_exists host vm.heap arr v)) vm2)

  -- `runBuiltin`
  unfoldable pub run_builtin : Spec → Frame → Vm → Step Vm
  unfolding handle
  run_builtin s fr vm =
      let handled = lift (handle s.handler vm) >>= λ vm1. ok (resume fr vm1) in
      if ltb (length vm.stack) s.arity
      then fail (Fault.builtin_args s.name s.arity (length vm.stack))
      else handled
