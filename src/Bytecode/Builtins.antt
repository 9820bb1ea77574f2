-- ===== src/Bytecode/Builtins.antt =====
-- internal/runtime/builtins.go, and the `init` functions of internal/builtins: the built-in
-- operations with their script names, opcodes and arities.
use go_flux.Base.{ℕ, Option, none, some, List, [], ◌∷◌, Bytes, codes, bytes_eq, ◌==◌, if◌then◌else◌}

pub data Builtin : Type 0 where
  typeof error index_exist index_read value_exist readonly : Builtin

pub record Spec : Type 0 where
  pub name : Bytes
  pub opcode : ℕ
  pub arity : ℕ
  pub handler : Builtin

abbrev registered : List Spec
registered =
    record { name = codes "error"; opcode = 0x81; arity = 1; handler = error }
    ∷ record { name = codes "indexExist"; opcode = 0x82; arity = 2; handler = index_exist }
    ∷ record { name = codes "indexRead"; opcode = 0x83; arity = 3; handler = index_read }
    ∷ record { name = codes "readonly"; opcode = 0x85; arity = 1; handler = readonly }
    ∷ record { name = codes "typeof"; opcode = 0x80; arity = 1; handler = typeof }
    ∷ record { name = codes "valueExist"; opcode = 0x84; arity = 2; handler = value_exist }
    ∷ []

by_name : Bytes → List Spec → Option Spec
by_name n [] = none
by_name n (s ∷ ss) = if bytes_eq s.name n then some s else by_name n ss

by_opcode : ℕ → List Spec → Option Spec
by_opcode b [] = none
by_opcode b (s ∷ ss) = if s.opcode == b then some s else by_opcode b ss

unfoldable pub lookup_by_name : Bytes → Option Spec
unfolding by_name
lookup_by_name n = by_name n registered

unfoldable pub lookup_builtin : ℕ → Option Spec
unfolding by_opcode
lookup_builtin b = by_opcode b registered
