-- ===== src/Bytecode/Opcode.antt =====
-- internal/bytecode/opcode.go: the opcodes, by the names that `exec` dispatches on.
use go_flux.Base.{ℕ, Option, none, some, List, [], ◌∷◌, ◌==◌, if◌then◌else◌}

pub data Op : Type 0 where
  const null true_op false_op pop : Op
  add sub mul div neg not : Op
  eq neq lt lte gt gte and or : Op
  get_global set_global define_global : Op
  get_local set_local get_upvalue set_upvalue : Op
  array object range index_get index_set get_prop set_prop : Op
  jump jump_if_false jump_if_true : Op
  call return_op closure : Op
  nop debug iter_prep iter_next : Op

-- The byte of an opcode: its place in the `iota` block, or its own value.
abbrev pub opcode : Op → ℕ
opcode const = 0
opcode null = 1
opcode true_op = 2
opcode false_op = 3
opcode pop = 4
opcode add = 8
opcode sub = 9
opcode mul = 10
opcode div = 11
opcode neg = 12
opcode not = 13
opcode eq = 16
opcode neq = 17
opcode lt = 18
opcode lte = 19
opcode gt = 20
opcode gte = 21
opcode and = 22
opcode or = 23
opcode get_global = 24
opcode set_global = 25
opcode define_global = 26
opcode get_local = 32
opcode set_local = 33
opcode get_upvalue = 34
opcode set_upvalue = 35
opcode array = 40
opcode object = 41
opcode range = 42
opcode index_get = 43
opcode index_set = 44
opcode get_prop = 45
opcode set_prop = 46
opcode jump = 48
opcode jump_if_false = 49
opcode jump_if_true = 50
opcode call = 56
opcode return_op = 57
opcode closure = 58
opcode nop = 0x40
opcode debug = 0x41
opcode iter_prep = 0x48
opcode iter_next = 0x49

-- The cases of the switch of `Run`, as a table from bytes; `none` is its default case.
abbrev every_op : List Op
every_op =
    const ∷ null ∷ true_op ∷ false_op ∷ pop ∷ add ∷ sub ∷ mul ∷ div ∷ neg ∷ not ∷ eq ∷ neq ∷ lt
    ∷ lte ∷ gt ∷ gte ∷ and ∷ or ∷ get_global ∷ set_global ∷ define_global ∷ get_local ∷ set_local
    ∷ get_upvalue ∷ set_upvalue ∷ array ∷ object ∷ range ∷ index_get ∷ index_set ∷ get_prop
    ∷ set_prop ∷ jump ∷ jump_if_false ∷ jump_if_true ∷ call ∷ return_op ∷ closure ∷ nop ∷ debug
    ∷ iter_prep ∷ iter_next ∷ []

find_op : ℕ → List Op → Option Op
find_op b [] = none
find_op b (o ∷ os) = if opcode o == b then some o else find_op b os

unfoldable pub decode : ℕ → Option Op
unfolding find_op
decode b = find_op b every_op
