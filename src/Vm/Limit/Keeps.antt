-- ===== src/Vm/Limit/Keeps.antt =====
-- internal/vm/vm.go: the other instructions, and the counters and frames.
use go_flux.Base.{
  ℕ, ◌+◌, ◌≤◌, Bool, true, false, ◌≡◌, refl, List, length, if◌then◌else◌, arith, ok, err, ◌>>=◌,
}
use go_flux.Bytecode.Opcode.{Op}
use go_flux.Bytecode.Chunk.{Prototype}
use go_flux.Vm.State.{Value, Frame, Vm, Stop, Step, Platform, Heap, Object}
use go_flux.Vm.Frames.{resume}
use go_flux.Vm.Exec.Basics.{
  exec_const, exec_binary, exec_neg, exec_not, exec_logic, exec_get_local, exec_set_local,
  exec_get_upvalue, exec_set_upvalue, exec_get_global, exec_set_global,
}
use go_flux.Vm.Exec.Containers.{
  exec_range, exec_index_get, exec_index_set, exec_get_prop, exec_set_prop, exec_iter_prep,
}
use go_flux.Vm.Exec.Control.{exec_jump}

-- The counters of `w` are those of `vm`, and it has the same frames.
pub record Same (vm w : Vm) : Type 0 where
  pub limit : w.inst_limit ≡ vm.inst_limit
  pub count : w.inst_count ≡ vm.inst_count
  pub frames : w.frames ≡ vm.frames

pub record Bounded (n : ℕ) (vm w : Vm) : Type 0 where
  pub limit : w.inst_limit ≡ vm.inst_limit
  pub count : w.inst_count ≡ vm.inst_count
  pub frames : length w.frames ≤ length vm.frames + n

-- A step that goes on leaves the limit and the count alone, and adds at most `n` frames.
pub data Keeps (n : ℕ) (vm : Vm) : Step Vm → Type 0 where
  stops : {s : Stop} → Keeps n vm (err s)
  goes : {w : Vm} → Bounded n vm w → Keeps n vm (ok w)

pub Keeps-bind :
    {n : ℕ} {vm : Vm} {A : Type 0} (m : Step A) {f : A → Step Vm}
    → ((a : A) → Keeps n vm (f a))
    → Keeps n vm (m >>= f)
Keeps-bind (ok a) h = h a
Keeps-bind (err s) h = stops

-- An instruction that leaves the counters and puts its frame back.
pub resumes : {vm w : Vm} {fr : Frame} → Same vm w → Keeps 2 vm (ok (resume fr w))
resumes s = goes (record { limit = s.limit; count = s.count; frames = ground (arith, s.frames) })

pub same :
    {vm : Vm} {vs : List Value} {gs : Object} {us : List ℕ} {h : Heap}
    → Same vm (record vm { stack = vs; globals = gs; open_upvalues = us; heap = h })
same = record { limit = refl; count = refl; frames = refl }

pub Keeps-if :
    {n : ℕ} {vm : Vm} (b : Bool) {x y : Step Vm}
    → Keeps n vm x
    → Keeps n vm y
    → Keeps n vm (if b then x else y)
Keeps-if true h k = h
Keeps-if false h k = k

pub ruleset keeps = (Keeps-bind, Keeps-if, resumes, same, stops)

pub exec_const-Keeps : (p : Prototype) (fr : Frame) (vm : Vm) → Keeps 2 vm (exec_const p fr vm)
unfolding exec_const
exec_const-Keeps p fr vm = search (keeps)

pub exec_binary-Keeps :
    (host : Platform) (op : Op) (fr : Frame) (vm : Vm) → Keeps 2 vm (exec_binary host op fr vm)
unfolding exec_binary
exec_binary-Keeps host op fr vm = search (keeps)

pub exec_neg-Keeps : (host : Platform) (fr : Frame) (vm : Vm) → Keeps 2 vm (exec_neg host fr vm)
unfolding exec_neg
exec_neg-Keeps host fr vm = search (keeps)

pub exec_not-Keeps : (fr : Frame) (vm : Vm) → Keeps 2 vm (exec_not fr vm)
unfolding exec_not
exec_not-Keeps fr vm = search (keeps)

pub exec_logic-Keeps :
    (c : Bool → Bool → Bool) (fr : Frame) (vm : Vm) → Keeps 2 vm (exec_logic c fr vm)
unfolding exec_logic
exec_logic-Keeps c fr vm = search (keeps)

pub exec_get_local-Keeps :
    (p : Prototype) (fr : Frame) (vm : Vm) → Keeps 2 vm (exec_get_local p fr vm)
unfolding exec_get_local
exec_get_local-Keeps p fr vm = search (keeps)

pub exec_set_local-Keeps :
    (p : Prototype) (fr : Frame) (vm : Vm) → Keeps 2 vm (exec_set_local p fr vm)
unfolding exec_set_local
exec_set_local-Keeps p fr vm = search (keeps)

pub exec_get_upvalue-Keeps :
    (p : Prototype) (fr : Frame) (vm : Vm) → Keeps 2 vm (exec_get_upvalue p fr vm)
unfolding exec_get_upvalue
exec_get_upvalue-Keeps p fr vm = search (keeps)

pub exec_set_upvalue-Keeps :
    (p : Prototype) (fr : Frame) (vm : Vm) → Keeps 2 vm (exec_set_upvalue p fr vm)
unfolding exec_set_upvalue
exec_set_upvalue-Keeps p fr vm = search (keeps)

pub exec_get_global-Keeps :
    (p : Prototype) (fr : Frame) (vm : Vm) → Keeps 2 vm (exec_get_global p fr vm)
unfolding exec_get_global
exec_get_global-Keeps p fr vm = search (keeps)

pub exec_set_global-Keeps :
    (p : Prototype) (fr : Frame) (vm : Vm) → Keeps 2 vm (exec_set_global p fr vm)
unfolding exec_set_global
exec_set_global-Keeps p fr vm = search (keeps)

pub exec_range-Keeps : (host : Platform) (fr : Frame) (vm : Vm) → Keeps 2 vm (exec_range host fr vm)
unfolding exec_range
exec_range-Keeps host fr vm = search (keeps)

pub exec_index_get-Keeps :
    (host : Platform) (fr : Frame) (vm : Vm) → Keeps 2 vm (exec_index_get host fr vm)
unfolding exec_index_get
exec_index_get-Keeps host fr vm = search (keeps)

pub exec_index_set-Keeps :
    (host : Platform) (fr : Frame) (vm : Vm) → Keeps 2 vm (exec_index_set host fr vm)
unfolding exec_index_set
exec_index_set-Keeps host fr vm = search (keeps)

pub exec_get_prop-Keeps :
    (p : Prototype) (fr : Frame) (vm : Vm) → Keeps 2 vm (exec_get_prop p fr vm)
unfolding exec_get_prop
exec_get_prop-Keeps p fr vm = search (keeps) depth 9

pub exec_set_prop-Keeps :
    (p : Prototype) (fr : Frame) (vm : Vm) → Keeps 2 vm (exec_set_prop p fr vm)
unfolding exec_set_prop
exec_set_prop-Keeps p fr vm = search (keeps) depth 9

pub exec_iter_prep-Keeps :
    (host : Platform) (fr : Frame) (vm : Vm) → Keeps 2 vm (exec_iter_prep host fr vm)
unfolding exec_iter_prep
exec_iter_prep-Keeps host fr vm = search (keeps)

pub exec_jump-Keeps :
    (t : Value → Bool) (p : Prototype) (fr : Frame) (vm : Vm) → Keeps 2 vm (exec_jump t p fr vm)
unfolding exec_jump
exec_jump-Keeps t p fr vm = search (keeps)
