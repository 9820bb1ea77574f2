-- ===== src/Vm/State.antt =====
-- internal/vm/value.go, vm.go and upvalue.go: values and the state of the machine. What a Go
-- pointer, slice or map shares is a cell of the heap, which a value refers to by its number; a nil
-- slice, map, function or iterator is `none`. A frame's locals are an array of the heap, so that an
-- upvalue's `location` is an array and a slot. A number is the bit pattern of a float64. A
-- `Function` is written once, when it is made, and is therefore a value.
use go_flux.Base.{
  ℕ, Bool, Option, none, some, List, [], ◌∷◌, ◌++◌, Bytes, length, get_elem?, set, Result, err,
}
use go_flux.Base.Int.{ℤ}
use go_flux.Bytecode.Chunk.{Prototype}

-- A native function is named by a number.
pub record Function : Type 0 where
  pub proto : Option Prototype
  pub upvalues : List (Option ℕ)
  pub native : Option ℕ
  pub name : Bytes
  pub source : Bytes

-- An array and an object carry their `ReadOnly` mark.
pub data Value : Type 0 where
  null : Value
  bool : Bool → Value
  number : ℕ → Value
  string : Bytes → Value
  array object : Option ℕ → Bool → Value
  function : Option Function → Value
  error : Bytes → Value
  iterator : Option ℕ → Value

abbrev pub Object : Type 0
Object = List (Bytes × Value)

-- `arr` and `obj` are the collections iterated over; at most one is not nil.
pub record Iterator : Type 0 where
  pub arr : Option ℕ
  pub obj : Option ℕ
  pub keys : List Bytes
  pub index : ℕ

-- The captured variable is live at `location`, or kept in `closed`.
pub record UpvalueCell : Type 0 where
  pub location : Option (ℕ × ℕ)
  pub closed : Value

pub record Heap : Type 0 where
  pub arrays : List (List Value)
  pub objects : List Object
  pub iterators : List Iterator
  pub cells : List UpvalueCell

pub record Frame : Type 0 where
  pub fn : Function
  pub ip : ℕ
  pub locals : ℕ
  pub base : ℕ
  pub last_op : Option ℕ

-- `last_op` is `none` where the source has -1. The stack and the frames have their tops in front.
pub record Vm : Type 0 where
  pub stack : List Value
  pub frames : List Frame
  pub globals : Object
  pub open_upvalues : List ℕ
  pub max_frames : ℕ
  pub inst_limit : ℕ
  pub inst_count : ℕ
  pub heap : Heap

-- The messages of the machine's errors, without the place that a RuntimeError adds to them.
pub data Fault : Type 0 where
  invalid_function call_stack_overflow missing_prototype instruction_limit : Fault
  operands_must_be_numbers operand_must_be_number unsupported_op : Fault
  local_slot_range upvalue_slot_range upvalue_local_range upvalue_index_range : Fault
  global_name_constant property_name_constant closure_constant : Fault
  not_a_function not_indexable not_iterable not_an_iterator iterator_is_nil : Fault
  index_must_be_number index_must_be_integer index_out_of_bounds : Fault
  key_must_be_string_or_number missing_key read_only property_on_non_object : Fault
  error_expects_string : Fault
  global_not_found missing_property : Bytes → Fault
  unknown_opcode : ℕ → Fault
  stack_underflow : ℕ → ℕ → Fault
  builtin_args : Bytes → ℕ → ℕ → Fault
  native_fault : Bytes → Fault

-- How a run ends: with the value of the last frame and the machine it leaves; with an error; with a
-- Go panic, for an operand or a constant that is not there; or at the border of the model, where a
-- frame has popped its caller's values and Go's reslicing would bring back stale ones.
pub data Stop : Type 0 where
  returned : Value → Vm → Stop
  failed : Fault → Stop
  panicked stale : Stop

-- A step goes on, or the run stops.
abbrev pub Step : Type 0 → Type 0
Step A = Result Stop A

abbrev pub fail {ℓ} : {A : Type ℓ} → Fault → Result Stop A
fail f = err (failed f)

-- What the code takes from Go's float64 and strconv, and the order in which `range` visits the
-- keys of a map.
pub record Platform : Type 0 where
  pub fadd : ℕ → ℕ → ℕ
  pub fsub : ℕ → ℕ → ℕ
  pub fmul : ℕ → ℕ → ℕ
  pub fdiv : ℕ → ℕ → ℕ
  pub fneg : ℕ → ℕ
  pub feq : ℕ → ℕ → Bool
  pub flt : ℕ → ℕ → Bool
  pub fle : ℕ → ℕ → Bool
  pub to_int : ℕ → ℤ
  pub of_int : ℤ → ℕ
  pub format_int : ℤ → Bytes
  pub format_float : ℕ → Bytes
  pub key_order : List Bytes → List Bytes

-- Reading and writing through references. A reference that the heap does not have reads as empty;
-- a nil slice or map does so too.
abbrev pub or_empty {ℓ} : {A : Type ℓ} → Option (List A) → List A
or_empty none = []
or_empty (some xs) = xs

abbrev pub array_at : Heap → ℕ → List Value
array_at h r = or_empty (get_elem? h.arrays r)

abbrev pub elements : Heap → Option ℕ → List Value
elements h none = []
elements h (some r) = array_at h r

abbrev pub fields : Heap → Option ℕ → Object
fields h none = []
fields h (some r) = or_empty (get_elem? h.objects r)

unfoldable pub write_array : Heap → ℕ → List Value → Heap
write_array h r xs = record h { arrays = set h.arrays r xs }

unfoldable pub write_object : Heap → ℕ → Object → Heap
write_object h r m = record h { objects = set h.objects r m }

-- New cells: the number comes first.
unfoldable pub new_array : List Value → Heap → ℕ × Heap
new_array xs h = (length h.arrays, record h { arrays = h.arrays ++ xs ∷ [] })

unfoldable pub new_object : Object → Heap → ℕ × Heap
new_object m h = (length h.objects, record h { objects = h.objects ++ m ∷ [] })

unfoldable pub new_iterator : Iterator → Heap → ℕ × Heap
new_iterator it h = (length h.iterators, record h { iterators = h.iterators ++ it ∷ [] })

-- `push`, `pop` and `peek`; an empty stack gives null.
abbrev pub push : Value → Vm → Vm
push v vm = record vm { stack = v ∷ vm.stack }

abbrev pub pop_stack : List Value → Value × List Value
pop_stack [] = (null, [])
pop_stack (v ∷ s) = (v, s)

abbrev pub pop : Vm → Value × Vm
pop vm = let (v, s) = pop_stack vm.stack in (v, record vm { stack = s })

abbrev pub peek : Vm → Value
peek vm = (pop_stack vm.stack).0
