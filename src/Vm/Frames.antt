-- ===== src/Vm/Frames.antt =====
-- internal/vm/vm.go: frames, operands and constants. While an instruction runs, its frame is an
-- argument of its own and `vm.frames` holds the frames below it; `resume` puts the frame back.
use go_flux.Base.{
  ℕ, ◌+◌, ◌-◌, Option, none, some, List, [], ◌∷◌, Bytes, length, get_elem?, drop, replicate,
  join_bytes, ltb, leb, ◌==◌, if◌then◌else◌, Result, ok, err, ◌>>=◌,
}
use go_flux.Bytecode.Chunk.{
  Const, nil, bool, number, string, function, Prototype, code, consts, const_at, num_params,
  max_locals, name, source, upvalues,
}
use go_flux.Vm.State.{
  Value, null, Function, Frame, Vm, Fault, Stop, Step, fail, returned, failed, panicked, stale,
  array_at, write_array, new_array, push, invalid_function, call_stack_overflow,
}
use go_flux.Vm.Upvalues.{close_upvalues}

abbrev pub resume : Frame → Vm → Vm
resume fr vm = record vm { frames = fr ∷ vm.frames }

-- An error of a helper stops the run with its message.
abbrev pub lift {ℓ} : {A : Type ℓ} → Result Fault A → Result Stop A
lift (ok a) = ok a
lift (err f) = err (failed f)

abbrev pub in_range {ℓ} : {A : Type ℓ} → Option A → Result Stop A
in_range (some a) = ok a
in_range none = err panicked

-- An operand, and the frame behind it; the index is checked by Go.
unfoldable pub read_u8 : Prototype → Frame → Step (ℕ × Frame)
read_u8 p fr = do b ← in_range (get_elem? (code p) fr.ip); ok (b, record fr { ip = fr.ip + 1 })

unfoldable pub read_u16 : Prototype → Frame → Step (ℕ × Frame)
read_u16 p fr = do
  hi ← in_range (get_elem? (code p) fr.ip)
  lo ← in_range (get_elem? (code p) (fr.ip + 1))
  ok (join_bytes hi lo, record fr { ip = fr.ip + 2 })

-- `Consts[idx].(string)`
unfoldable pub string_const : Fault → Prototype → ℕ → Step Bytes
string_const f p i = do
  c ← in_range (const_at (consts p) i)
  elim c [ string s ↦ ok s | _ ↦ fail f ]

unfoldable pub max_locals_of : Option Prototype → ℕ
max_locals_of none = 0
max_locals_of (some p) = if ltb 0 (max_locals p) then max_locals p else num_params p

unfoldable pub push_proto : Function → Option Prototype → Vm → Result Fault Vm
unfolding max_locals_of new_array
push_proto fn none vm = err invalid_function
push_proto fn (some p) vm =
    let (r, h) = new_array (replicate (max_locals_of (some p)) null) vm.heap in
    let fr : Frame = record {
      fn = fn;
      ip = 0;
      locals = r;
      base = length vm.stack;
      last_op = none;
    } in
    if leb vm.max_frames (length vm.frames)
    then err call_stack_overflow
    else ok (record vm { frames = fr ∷ vm.frames; heap = h })

unfoldable pub push_frame : Function → Vm → Result Fault Vm
unfolding push_proto
push_frame fn vm = push_proto fn fn.proto vm

-- The arguments go into the first locals, as far as both reach.
unfoldable pub fill : List Value → List Value → List Value
fill [] ls = ls
fill (a ∷ args) [] = []
fill (a ∷ args) (l ∷ ls) = a ∷ fill args ls

unfoldable pub fill_locals : List Frame → List Value → Vm → Vm
unfolding fill write_array
fill_locals [] args vm = vm
fill_locals (fr ∷ below) args vm = record vm {
  heap = write_array vm.heap fr.locals (fill args (array_at vm.heap fr.locals));
}

unfoldable pub set_args : List Value → Vm → Vm
unfolding fill_locals
set_args args vm = fill_locals vm.frames args vm

-- `finishFrame`: the stack is cut back to the frame's base, and the caller gets the value, or the
-- run ends with it.
unfoldable pub finish_frame : Value → Frame → Vm → Step Vm
unfolding close_upvalues
finish_frame ret fr vm =
    let closed = close_upvalues fr.locals vm in
    let cut = record closed { stack = drop (length closed.stack - fr.base) closed.stack } in
    if ltb (length closed.stack) fr.base
    then err stale
    else if length vm.frames == 0
    then err (returned ret cut)
    else ok (push ret cut)

-- `constToValue`
unfoldable pub const_to_value : Const → Value
const_to_value nil = null
const_to_value (bool b) = Value.bool b
const_to_value (number n) = Value.number n
const_to_value (string s) = Value.string s
const_to_value (function p) = Value.function (
    some (record {
      proto = some p;
      upvalues = replicate (length (upvalues p)) none;
      native = none;
      name = name p;
      source = source p;
    }))
