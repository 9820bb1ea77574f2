-- ===== src/Vm/Run.antt =====
-- internal/vm/vm.go: a round of the loop of `Run`, the loop on fuel, `Run`, `Call` and the
-- operations of the host on a machine. The trace hook is not modelled.
use go_flux.Base.{
  ℕ, zero, suc, ◌+◌, Bool, true, false, ◌&&◌, Option, none, some, List, [], ◌∷◌, Bytes, length,
  get_elem?, replicate, lookup, insert, ltb, if◌then◌else◌, Result, ok, err, ◌>>=◌,
}
use go_flux.Bytecode.Opcode.{Op, decode}
use go_flux.Bytecode.Chunk.{Prototype, code, source, upvalues}
use go_flux.Bytecode.Builtins.{Spec, lookup_builtin}
use go_flux.Vm.State.{
  Value, null, function, Function, Frame, Vm, Fault, Stop, Step, fail, returned, failed, Platform,
}
use go_flux.Vm.Values.{to_function}
use go_flux.Vm.Frames.{lift, push_frame, set_args, finish_frame}
use go_flux.Vm.Exec.Switch.{exec}
use go_flux.Vm.Exec.Builtins.{run_builtin}

-- A run that stops, or goes on by `next`; `none` is the end of the fuel.
unfoldable pub follow : (Vm → Option Stop) → Step Vm → Option Stop
follow next (ok vm) = next vm
follow next (err s) = some s

-- `Run` up to its loop, for a function with a prototype.
unfoldable pub enter : Function → List Value → Vm → Step Vm
unfolding push_frame set_args
enter fn args vm = do vm1 ← lift (push_frame fn vm); ok (set_args args vm1)

-- `ResetState`
unfoldable pub reset_state : Vm → Vm
reset_state vm = record vm { stack = []; frames = []; open_upvalues = []; inst_count = 0 }

module _ (host : Platform) (native : ℕ → Vm → List Value → Result Bytes (Value × Vm)) where
  -- Behind the lookup of a built-in operation: the switch, with its default case.
  unfoldable pub exec_op : ℕ → Option Op → Prototype → Frame → Vm → Step Vm
  exec_op b none p fr vm = fail (Fault.unknown_opcode b)
  exec_op b (some op) p fr vm = exec host native op p fr vm

  unfoldable pub dispatch : ℕ → Option Spec → Prototype → Frame → Vm → Step Vm
  unfolding exec_op
  dispatch b (some s) p fr vm = run_builtin host s fr vm
  dispatch b none p fr vm = exec_op b (decode b) p fr vm

  -- The byte fetched is counted before it is executed.
  unfoldable pub fetched : ℕ → Prototype → Frame → Vm → Step Vm
  unfolding dispatch
  fetched b p fr vm =
      let counted = record vm { inst_count = vm.inst_count + 1 } in
      let step = dispatch b (lookup_builtin b) p (record fr { ip = fr.ip + 1 }) counted in
      if ltb 0 vm.inst_limit && ltb vm.inst_limit (vm.inst_count + 1)
      then fail Fault.instruction_limit
      else step

  -- `fr.ip >= len(code)` ends the frame with null.
  unfoldable pub fetch : Option ℕ → Prototype → Frame → Vm → Step Vm
  unfolding fetched finish_frame
  fetch none p fr vm = finish_frame null fr vm
  fetch (some b) p fr vm = fetched b p fr vm

  unfoldable pub run_frame : Option Prototype → Frame → Vm → Step Vm
  unfolding fetch
  run_frame none fr vm = fail Fault.missing_prototype
  run_frame (some p) fr vm = fetch (get_elem? (code p) fr.ip) p fr vm

  unfoldable pub round_at : List Frame → Vm → Step Vm
  unfolding run_frame
  round_at [] vm = err (returned null vm)
  round_at (fr ∷ below) vm =
      run_frame (fr.fn).proto (record fr { last_op = some fr.ip }) (record vm { frames = below })

  -- One round of the loop of `Run`.
  unfoldable pub round : Vm → Step Vm
  unfolding round_at
  round vm = round_at vm.frames vm

  unfoldable pub loop : ℕ → Vm → Option Stop
  unfolding round follow
  loop zero vm = none
  loop (suc fuel) vm = follow (loop fuel) (round vm)

  run_native : ℕ → List Value → Vm → Stop
  run_native k args vm = elim (native k vm args) [
    | ok (v, vm1) ↦ returned v vm1
    | err s ↦ failed (Fault.native_fault s)
  ]

  -- A native function, or the loop on the frame of another.
  unfoldable pub run_as : Option ℕ → ℕ → Function → List Value → Vm → Option Stop
  unfolding run_native loop enter
  run_as (some k) fuel fn args vm = some (run_native k args vm)
  run_as none fuel fn args vm = follow (loop fuel) (enter fn args vm)

  unfoldable pub run : ℕ → Function → List Value → Vm → Option Stop
  unfolding run_as reset_state
  run fuel fn args vm = run_as fn.native fuel fn args (reset_state vm)

  -- `Call`
  unfoldable pub call : ℕ → Bytes → List Value → Vm → Option Stop
  unfolding run to_function
  call fuel x args vm = elim (lookup x vm.globals) [
    | none ↦ some (failed (Fault.global_not_found x))
    | some v ↦ elim (to_function v) [ ok fn ↦ run fuel fn args vm | err f ↦ some (failed f) ]
  ]

-- `New`, `SetInstructionLimit` (a limit below 0 is 0 here), `DefineGlobal`, `HasFunction`
unfoldable pub new_vm : Vm
new_vm = record {
  stack = [];
  frames = [];
  globals = [];
  open_upvalues = [];
  max_frames = 256;
  inst_limit = 0;
  inst_count = 0;
  heap = record { arrays = []; objects = []; iterators = []; cells = [] };
}

unfoldable pub set_instruction_limit : ℕ → Vm → Vm
set_instruction_limit limit vm = record vm { inst_limit = limit }

unfoldable pub define_global : Bytes → Value → Vm → Vm
define_global x v vm = record vm { globals = insert x v vm.globals }

is_function : Option Value → Bool
is_function (some (function (some f))) = true
is_function _ = false

unfoldable pub has_function : Bytes → Vm → Bool
unfolding is_function
has_function x vm = is_function (lookup x vm.globals)

-- `LoadModule`
unfoldable pub load_module : List (Bytes × Prototype) → Vm → Vm
unfolding define_global
load_module [] vm = vm
load_module ((x, p) ∷ rest) vm = load_module rest (
    define_global x
      (function (
        some (record {
          proto = some p;
          upvalues = replicate (length (upvalues p)) none;
          native = none;
          name = x;
          source = source p;
        })))
      vm)
