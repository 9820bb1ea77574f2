-- ===== src/Tests/Machine.antt =====
-- The theorems of the compiler and the machine at concrete inputs.
use mathlib.Core.List.{Memᴰ}
use go_flux.Base.{
  ◌||◌, lookup, ◌≡◌, ◌↔◌, true, false, refl, none, some, List, [], ◌∷◌, codes, length, get_elem?,
  ok, ok-injective, ap, arith,
}
use go_flux.Base.Int.{pos}
use go_flux.Bytecode.Opcode.{Op}
use go_flux.Bytecode.Chunk.{Const, empty, Prototype, prototype, code, const_at}
use go_flux.Compiler.Emit.{
  FuncCompiler, new_func_compiler, emit_bytes, emit_jump, patch_jump, emit_const,
}
use go_flux.Compiler.Scope.{Scope, new_scope, resolve_upvalue}
use go_flux.Compiler.Captures.{captured_target, declared, resolve_upvalue-declared}
use go_flux.Compiler.Operands.{patch_jump-read_u16, emit_const-read_u16}
use go_flux.Vm.State.{
  Value, null, bool, number, array, UpvalueCell, Heap, Iterator, Function, Frame, Vm, Stop,
  write_array,
}
use go_flux.Vm.Upvalues.{read_slot, get_upvalue, set_upvalue, capture_upvalue, close_upvalues}
use go_flux.Vm.Frames.{read_u16, push_frame, finish_frame}
use go_flux.Vm.Values.{
  is_some, equal, is_ok, index_get, index_set, index_exists, build_range, to_iterator,
}
use go_flux.Vm.Run.{run, has_function, load_module}
use go_flux.Vm.Limit.Rounds.{NativeKeeps}
use go_flux.Vm.Limit.Termination.{run_total}
use go_flux.Vm.Sharing.{capture_upvalue_twice, capture_upvalue-get_upvalue, set_upvalue-get_upvalue}
use go_flux.Vm.Globals.{has_function-load_module}
use go_flux.Vm.Closing.{close_upvalues-get_upvalue, close_upvalues_outlives}
use go_flux.Vm.Containers.{index_set-index_get, index_exists_iff}
use go_flux.Vm.Ranges.{up, down, visited, build_range-up, build_range-down, to_iterator-visited}
use go_flux.Vm.Calls.{finish_frame-push_frame}
use go_flux.Vm.Equality.{Alike, equal_iff}
use go_flux.Tests.{platform, first_argument}

-- a machine with one array, which is a frame's locals, and an instruction limit of 5
abbrev locals : List Value
locals = null ∷ number 7 ∷ []

abbrev heap : Heap
heap = record { arrays = locals ∷ []; objects = []; iterators = []; cells = [] }

abbrev machine : Vm
machine = record {
  stack = number 1 ∷ [];
  frames = [];
  globals = [];
  open_upvalues = [];
  max_frames = 256;
  inst_limit = 5;
  inst_count = 0;
  heap = heap;
}

-- a function that jumps to its start for ever
abbrev spin : Function
spin = record {
  proto = some (prototype (codes "spin") [] 0 (48 ∷ 0 ∷ 0 ∷ []) empty [] [] 0);
  upvalues = [];
  native = none;
  name = codes "spin";
  source = [];
}

first_argument-NativeKeeps : NativeKeeps first_argument
first_argument-NativeKeeps k vm [] v w e = cc
first_argument-NativeKeeps k vm (x ∷ xs) v w e =
    let q = ok-injective e in
    rw (← ap (λ (r : Value × Vm). r.1) q) (record { limit = refl; count = refl; frames = refl })

run_total_example : (s : Stop) × (run platform first_argument 14 spin [] machine ≡ some s)
run_total_example =
    run_total platform first_argument first_argument-NativeKeeps 14 spin [] machine (omega arith)
      (omega arith)

-- the second local captured
abbrev cell : UpvalueCell
cell = record { location = some (0, 1); closed = null }

abbrev captured : Vm
captured = record machine {
  open_upvalues = 0 ∷ [];
  heap = record { arrays = locals ∷ []; objects = []; iterators = []; cells = cell ∷ [] };
}

capture_upvalue_twice_example :
    capture_upvalue 0 1 (capture_upvalue 0 1 machine).1 ≡ capture_upvalue 0 1 machine
capture_upvalue_twice_example = capture_upvalue_twice 0 1 machine

capture_upvalue-get_upvalue_example :
    get_upvalue (capture_upvalue 0 1 machine).1.heap (some (capture_upvalue 0 1 machine).0)
    ≡ read_slot heap (0, 1)
capture_upvalue-get_upvalue_example = capture_upvalue-get_upvalue 0 1 machine

close_upvalues-get_upvalue_example :
    get_upvalue (close_upvalues 0 captured).heap (some 0) ≡ get_upvalue captured.heap (some 0)
close_upvalues-get_upvalue_example = close_upvalues-get_upvalue 0 captured (some 0)

close_upvalues_outlives_example :
    get_upvalue (write_array (close_upvalues 0 captured).heap 0 (null ∷ null ∷ [])) (some 0)
    ≡ get_upvalue captured.heap (some 0)
close_upvalues_outlives_example =
    close_upvalues_outlives 0 0 captured cell (null ∷ null ∷ []) (omega arith) (Memᴰ.head refl) refl

-- `jump` over one byte
abbrev jump_over : FuncCompiler
jump_over = record (new_func_compiler [] []) { code = 48 ∷ 0xff ∷ 0xff ∷ 4 ∷ [] }

abbrev at_operand : Frame
at_operand = record { fn = spin; ip = 1; locals = 0; base = 0; last_op = some 0 }

abbrev jumping : Prototype
jumping = prototype [] [] 0 (48 ∷ 0 ∷ 4 ∷ 4 ∷ []) empty [] [] 0

patch_jump-read_u16_example :
    (get_elem? (code jumping) 0 ≡ some 48)
    × (read_u16 jumping at_operand ≡ ok (4, record at_operand { ip = 3 }))
unfolding emit_jump emit_bytes patch_jump
patch_jump-read_u16_example =
    patch_jump-read_u16 Op.jump (new_func_compiler [] []) jump_over (4 ∷ []) jumping at_operand refl
      (omega arith) refl refl

abbrev constant : Prototype
constant = prototype [] [] 0 (0 ∷ 0 ∷ 0 ∷ 57 ∷ []) empty [] [] 0

emit_const-read_u16_example :
    (get_elem? (code constant) 0 ≡ some 0)
    × (read_u16 constant at_operand ≡ ok (0, record at_operand { ip = 3 }))
    × (const_at (emit_const Const.nil (new_func_compiler [] [])).consts 0 ≡ some Const.nil)
unfolding emit_const emit_bytes
emit_const-read_u16_example =
    emit_const-read_u16 Const.nil (new_func_compiler [] []) (57 ∷ []) constant at_operand
      (omega arith) refl refl

index_set-index_get_example :
    index_get platform
      (write_array heap 0 (number 3 ∷ number 7 ∷ []))
      (array (some 0) false)
      (number 0)
    ≡ ok (number 3)
unfolding index_set write_array
index_set-index_get_example =
    index_set-index_get platform heap (write_array heap 0 (number 3 ∷ number 7 ∷ []))
      (array (some 0) false) (number 0) (number 3) (omega arith) refl

index_exists_iff_example :
    index_exists platform heap (array (some 0) false) (number 2)
    ≡ is_ok (index_get platform heap (array (some 0) false) (number 2))
index_exists_iff_example = index_exists_iff platform heap (array (some 0) false) (number 2)

build_range-up_example :
    (length (build_range platform (pos 2) (pos 5)) ≡ 4)
    × (get_elem? (build_range platform (pos 2) (pos 5)) 1 ≡ some (number 3))
    × (up 3 (pos 2) ≡ pos 5)
build_range-up_example = build_range-up platform (pos 2) (pos 5) 1 refl (omega arith)

build_range-down_example :
    (length (build_range platform (pos 5) (pos 2)) ≡ 4)
    × (get_elem? (build_range platform (pos 5) (pos 2)) 1 ≡ some (number 4))
    × (down 3 (pos 5) ≡ pos 2)
build_range-down_example = build_range-down platform (pos 5) (pos 2) 1 refl (omega arith)

abbrev iterating : Heap
iterating = record heap {
  iterators = record { arr = some 0; obj = none; keys = []; index = 0 } ∷ [];
}

to_iterator-visited_example :
    (it : Iterator) × (get_elem? iterating.iterators 0 ≡ some it)
    × (visited platform 3 iterating it ≡ locals)
unfolding to_iterator
to_iterator-visited_example =
    to_iterator-visited platform heap iterating 0 false 0 3 refl (omega arith)

equal_iff_example :
    (equal platform (array (some 0) false) (array (some 0) false) ≡ true)
    ↔ Alike platform (array (some 0) false) (array (some 0) false)
equal_iff_example = equal_iff platform (array (some 0) false) (array (some 0) false)

-- a call of `spin` from a frame, and its end with a value left on the stack
abbrev calling : Vm
calling = record machine { frames = at_operand ∷ [] }

abbrev spin_frame : Frame
spin_frame = record { fn = spin; ip = 0; locals = 1; base = 1; last_op = none }

abbrev called : Vm
called = record calling {
  frames = spin_frame ∷ at_operand ∷ [];
  heap = record heap { arrays = locals ∷ [] ∷ [] };
}

abbrev ending : Vm
ending = record called { stack = number 9 ∷ number 1 ∷ []; frames = at_operand ∷ [] }

finish_frame-push_frame_example :
    (v : Vm) × (finish_frame (bool true) spin_frame ending ≡ ok v)
    × (v.stack ≡ bool true ∷ number 1 ∷ [])
    × (v.frames ≡ at_operand ∷ [])
unfolding push_frame
finish_frame-push_frame_example =
    finish_frame-push_frame spin calling called ending spin_frame (bool true) (number 9 ∷ []) refl
      refl refl (omega arith) refl

set_upvalue-get_upvalue_example :
    get_upvalue (set_upvalue captured.heap (some 0) (number 8)) (some 0) ≡ number 8
set_upvalue-get_upvalue_example =
    set_upvalue-get_upvalue captured.heap 0 cell (number 8) refl (omega arith, omega arith)

has_function-load_module_example :
    has_function (codes "spin") (load_module ((codes "spin", jumping) ∷ []) machine) ≡ (
      is_some (lookup (codes "spin") ((codes "spin", jumping) ∷ []))
      || has_function (codes "spin") machine)
has_function-load_module_example =
    has_function-load_module (codes "spin") ((codes "spin", jumping) ∷ []) machine

-- A function in a function in one that declares `x` as its second local.
abbrev outermost : Scope
outermost = record { locals = (codes "x", 1) ∷ []; upvalues = []; next_loc = 2 }

resolve_upvalue-declared_example :
    captured_target (resolve_upvalue (codes "x") (new_scope ∷ outermost ∷ []) new_scope)
    ≡ declared (codes "x") (new_scope ∷ outermost ∷ [])
resolve_upvalue-declared_example =
    resolve_upvalue-declared (codes "x") (new_scope ∷ outermost ∷ []) new_scope
      (omega arith, (omega arith, (omega arith, tt)))
