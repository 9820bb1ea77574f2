-- ===== src/Vm/Limit/Rounds.antt =====
-- internal/vm/vm.go: calls, built-in operations and the switch of `Run`, and the counters and frames.
use go_flux.Base.{
  ℕ, ◌+◌, Bool, true, false, not, ◌&&◌, ◌||◌, ◌≡◌, refl, Option, none, some, List, [], ◌∷◌, Bytes,
  length, if◌then◌else◌, arith, Result, ok, err, ◌>>=◌, ◌∙◌, >>=-eq-ok, ok-injective, ltb, leb,
}
use go_flux.Bytecode.Opcode.{Op, decode}
use go_flux.Vm.Run.{exec_op, dispatch}
use go_flux.Bytecode.Chunk.{Prototype}
use go_flux.Bytecode.Builtins.{Builtin, Spec}
use go_flux.Vm.State.{Value, Function, Frame, Vm, Fault, Platform, pop, call_stack_overflow}
use go_flux.Vm.Values.{truthy}
use go_flux.Vm.Frames.{read_u8, resume, lift, push_frame, push_proto, fill_locals, set_args}
use go_flux.Vm.Exec.Containers.{pop_many}
use go_flux.Vm.Exec.Control.{exec_call, call_function, native_done}
use go_flux.Vm.Exec.Builtins.{error_of, handle, run_builtin}
use go_flux.Vm.Exec.Switch.{exec}
use go_flux.Vm.Limit.Keeps.{
  Same, Bounded, Keeps, stops, goes, Keeps-bind, Keeps-if, resumes, same, exec_const-Keeps,
  exec_binary-Keeps, exec_neg-Keeps, exec_not-Keeps, exec_logic-Keeps, exec_get_local-Keeps,
  exec_set_local-Keeps, exec_get_upvalue-Keeps, exec_set_upvalue-Keeps, exec_get_global-Keeps,
  exec_set_global-Keeps, exec_range-Keeps, exec_index_get-Keeps, exec_index_set-Keeps,
  exec_get_prop-Keeps, exec_set_prop-Keeps, exec_iter_prep-Keeps, exec_jump-Keeps,
}
use go_flux.Vm.Limit.Frames.{
  moved, pop_many-Same, lift-eq-ok, Keeps-bind_eq, Keeps-after, exec_array-Keeps, exec_object-Keeps,
  exec_iter_next-Keeps, exec_return-Keeps, exec_closure-Keeps,
}

-- A native function leaves the counters and the frames as it finds them.
abbrev pub NativeKeeps : (ℕ → Vm → List Value → Result Bytes (Value × Vm)) → Type 0
NativeKeeps native =
    (k : ℕ) (vm : Vm) (args : List Value) (v : Value) (w : Vm)
    → native k vm args ≡ ok (v, w)
    → Same vm w

-- A result that goes on leaves the limit and the count alone, and has one frame more.
abbrev pub Adds : Vm → Result Fault Vm → Type 0
Adds vm (err f) = Unit
Adds vm (ok w) = Bounded 1 vm w

if_Adds : (vm w : Vm) (f : Fault) (b : Bool) → Bounded 1 vm w → Adds vm (if b then err f else ok w)
if_Adds vm w f true h = tt
if_Adds vm w f false h = h

pub push_proto-Adds :
    (fn : Function) (p : Option Prototype) (vm : Vm) → Adds vm (push_proto fn p vm)
unfolding push_proto
push_proto-Adds fn none vm = tt
push_proto-Adds fn (some p) vm =
    if_Adds vm _ call_stack_overflow (leb vm.max_frames (length vm.frames))
      (record { limit = refl; count = refl; frames = omega arith })

pub fill_locals-Same :
    (frs : List Frame) (args : List Value) (vm : Vm) → Same vm (fill_locals frs args vm)
unfolding fill_locals
fill_locals-Same [] args vm = same
fill_locals-Same (fr ∷ below) args vm = same

pub Bounded-Same : {n : ℕ} {u v w : Vm} → Bounded n u v → Same v w → Bounded n u w
Bounded-Same b s = record {
  limit = s.limit ∙ b.limit;
  count = s.count ∙ b.count;
  frames = ground (arith, b.frames, s.frames);
}

entered :
    (fr : Frame) (vm : Vm) (args : List Value) (r : Result Fault Vm)
    → Adds (resume fr vm) r
    → Keeps 2 vm (lift r >>= λ w. ok (set_args args w))
unfolding set_args
entered fr vm args (err f) h = stops
entered fr vm args (ok w) h =
    let b = Bounded-Same h (fill_locals-Same w.frames args w) in
    goes (record { limit = b.limit; count = b.count; frames = omega (arith, b.frames) })

natively :
    (fr : Frame) (vm : Vm) (r : Result Bytes (Value × Vm))
    → ((v : Value) (w : Vm) → r ≡ ok (v, w) → Same (resume fr vm) w)
    → Keeps 2 vm (native_done r)
unfolding native_done
natively fr vm (err s) h = stops
natively fr vm (ok (v, w)) h =
    let s = h v w refl in
    goes (record { limit = s.limit; count = s.count; frames = ground (arith, s.frames) })

handle-Same :
    (host : Platform) (b : Builtin) (vm : Vm) {w : Vm} → handle host b vm ≡ ok w → Same vm w
unfolding handle
handle-Same host Builtin.error vm e =
    let (v, h, k) = >>=-eq-ok (error_of (pop vm).0) _ e in rw (← ok-injective k) same
handle-Same host _ vm e = rw (← ok-injective e) same

module _ (host : Platform) (native : ℕ → Vm → List Value → Result Bytes (Value × Vm))
    (natives : NativeKeeps native) where
  call_function-Keeps :
      (fr : Frame) (vm : Vm) (args : List Value) (k : Option ℕ) (fn : Function)
      → Keeps 2 vm (call_function native fr vm args k fn)
  unfolding call_function push_frame
  call_function-Keeps fr vm args (some k) fn =
      natively fr vm (native k (resume fr vm) args) (natives k (resume fr vm) args)
  call_function-Keeps fr vm args none fn =
      entered fr vm args _ (push_proto-Adds fn fn.proto (resume fr vm))

  exec_call-Keeps : (p : Prototype) (fr : Frame) (vm : Vm) → Keeps 2 vm (exec_call native p fr vm)
  unfolding exec_call
  exec_call-Keeps p fr vm = Keeps-bind (read_u8 p fr) λ a.
      Keeps-if (ltb (length vm.stack) (a.0 + 1)) stops (
        Keeps-bind _ λ fn. Keeps-after (moved (pop_many-Same a.0 [] vm)) (
          call_function-Keeps a.1 (pop (pop_many a.0 [] vm).1).1 (pop_many a.0 [] vm).0 fn.native
            fn))

  run_builtin-Keeps : (s : Spec) (fr : Frame) (vm : Vm) → Keeps 2 vm (run_builtin host s fr vm)
  unfolding run_builtin
  run_builtin-Keeps s fr vm = Keeps-if (ltb (length vm.stack) s.arity) stops (
      Keeps-bind_eq (lift (handle host s.handler vm))
        λ w e. resumes (handle-Same host s.handler vm (lift-eq-ok _ e)))

  exec-Keeps :
      (op : Op) (p : Prototype) (fr : Frame) (vm : Vm) → Keeps 2 vm (exec host native op p fr vm)
  unfolding exec
  exec-Keeps Op.nop p fr vm = resumes same
  exec-Keeps Op.debug p fr vm = resumes same
  exec-Keeps Op.const p fr vm = exec_const-Keeps p fr vm
  exec-Keeps Op.null p fr vm = resumes same
  exec-Keeps Op.true_op p fr vm = resumes same
  exec-Keeps Op.false_op p fr vm = resumes same
  exec-Keeps Op.pop p fr vm = resumes same
  exec-Keeps Op.neg p fr vm = exec_neg-Keeps host fr vm
  exec-Keeps Op.not p fr vm = exec_not-Keeps fr vm
  exec-Keeps Op.and p fr vm = exec_logic-Keeps (λ a b. a && b) fr vm
  exec-Keeps Op.or p fr vm = exec_logic-Keeps (λ a b. a || b) fr vm
  exec-Keeps Op.get_local p fr vm = exec_get_local-Keeps p fr vm
  exec-Keeps Op.set_local p fr vm = exec_set_local-Keeps p fr vm
  exec-Keeps Op.get_upvalue p fr vm = exec_get_upvalue-Keeps p fr vm
  exec-Keeps Op.set_upvalue p fr vm = exec_set_upvalue-Keeps p fr vm
  exec-Keeps Op.get_global p fr vm = exec_get_global-Keeps p fr vm
  exec-Keeps Op.set_global p fr vm = exec_set_global-Keeps p fr vm
  exec-Keeps Op.define_global p fr vm = exec_set_global-Keeps p fr vm
  exec-Keeps Op.array p fr vm = exec_array-Keeps p fr vm
  exec-Keeps Op.object p fr vm = exec_object-Keeps host p fr vm
  exec-Keeps Op.range p fr vm = exec_range-Keeps host fr vm
  exec-Keeps Op.index_get p fr vm = exec_index_get-Keeps host fr vm
  exec-Keeps Op.index_set p fr vm = exec_index_set-Keeps host fr vm
  exec-Keeps Op.get_prop p fr vm = exec_get_prop-Keeps p fr vm
  exec-Keeps Op.set_prop p fr vm = exec_set_prop-Keeps p fr vm
  exec-Keeps Op.jump p fr vm = exec_jump-Keeps (λ v. true) p fr vm
  exec-Keeps Op.jump_if_false p fr vm = exec_jump-Keeps (λ v. not (truthy v)) p fr vm
  exec-Keeps Op.jump_if_true p fr vm = exec_jump-Keeps truthy p fr vm
  exec-Keeps Op.call p fr vm = exec_call-Keeps p fr vm
  exec-Keeps Op.return_op p fr vm = exec_return-Keeps fr vm
  exec-Keeps Op.closure p fr vm = exec_closure-Keeps p fr vm
  exec-Keeps Op.iter_prep p fr vm = exec_iter_prep-Keeps host fr vm
  exec-Keeps Op.iter_next p fr vm = exec_iter_next-Keeps host p fr vm
  exec-Keeps op p fr vm = exec_binary-Keeps host op fr vm

  exec_op-Keeps :
      (b : ℕ) (o : Option Op) (p : Prototype) (fr : Frame) (vm : Vm)
      → Keeps 2 vm (exec_op host native b o p fr vm)
  unfolding exec_op
  exec_op-Keeps b none p fr vm = stops
  exec_op-Keeps b (some op) p fr vm = exec-Keeps op p fr vm

  -- An instruction leaves the limit and the count alone, and adds at most one frame.
  pub dispatch-Keeps :
      (b : ℕ) (s : Option Spec) (p : Prototype) (fr : Frame) (vm : Vm)
      → Keeps 2 vm (dispatch host native b s p fr vm)
  unfolding dispatch
  dispatch-Keeps b (some s) p fr vm = run_builtin-Keeps s fr vm
  dispatch-Keeps b none p fr vm = exec_op-Keeps b (decode b) p fr vm
