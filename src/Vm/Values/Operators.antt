-- ===== src/Vm/Values/Operators.antt =====
-- internal/vm/value.go and vm.go: truth, the names of types, equality, and the binary operators.
use go_flux.Base.{ℕ, Bool, true, false, not, some, Bytes, codes, bytes_eq, Result, ok, err}
use go_flux.Bytecode.Opcode.{Op}
use go_flux.Vm.State.{
  Value, null, bool, number, string, array, object, function, error, iterator, Function, Fault,
  Platform, operands_must_be_numbers, unsupported_op, not_a_function,
}

unfoldable pub truthy : Value → Bool
truthy null = false
truthy (bool b) = b
truthy _ = true

unfoldable pub bool_eq : Bool → Bool → Bool
bool_eq true b = b
bool_eq false b = not b

unfoldable pub type_name : Value → Bytes
type_name null = codes "null"
type_name (bool b) = codes "boolean"
type_name (number n) = codes "number"
type_name (string s) = codes "string"
type_name (array r ro) = codes "array"
type_name (object r ro) = codes "object"
type_name (function f) = codes "function"
type_name (error s) = codes "error"
type_name (iterator r) = codes "iterator"

unfoldable pub to_function : Value → Result Fault Function
to_function (function (some f)) = ok f
to_function _ = err not_a_function

module _ (host : Platform) where
  open host use {
    fadd, fsub, fmul, fdiv, feq, flt, fle, to_int, of_int, format_int, format_float, key_order,
  }

  -- `Equal`. Its last case compares the addresses of its own two parameters, which are never equal.
  unfoldable pub equal : Value → Value → Bool
  unfolding bool_eq
  equal null null = true
  equal (bool a) (bool b) = bool_eq a b
  equal (number a) (number b) = feq a b
  equal (string a) (string b) = bytes_eq a b
  equal (error a) (error b) = bytes_eq a b
  equal _ _ = false

  -- `binaryOp` on two numbers.
  unfoldable pub number_op : Op → ℕ → ℕ → Result Fault Value
  number_op Op.add a b = ok (number (fadd a b))
  number_op Op.sub a b = ok (number (fsub a b))
  number_op Op.mul a b = ok (number (fmul a b))
  number_op Op.div a b = ok (number (fdiv a b))
  number_op Op.lt a b = ok (bool (flt a b))
  number_op Op.lte a b = ok (bool (fle a b))
  number_op Op.gt a b = ok (bool (flt b a))
  number_op Op.gte a b = ok (bool (fle b a))
  number_op _ a b = err unsupported_op

  unfoldable pub numbers_only : Op → Value → Value → Result Fault Value
  unfolding number_op
  numbers_only op (number a) (number b) = number_op op a b
  numbers_only op _ _ = err operands_must_be_numbers

  unfoldable pub binary_op : Op → Value → Value → Result Fault Value
  unfolding numbers_only equal
  binary_op Op.eq a b = ok (bool (equal a b))
  binary_op Op.neq a b = ok (bool (not (equal a b)))
  binary_op Op.add a b = numbers_only Op.add a b
  binary_op Op.sub a b = numbers_only Op.sub a b
  binary_op Op.mul a b = numbers_only Op.mul a b
  binary_op Op.div a b = numbers_only Op.div a b
  binary_op Op.lt a b = numbers_only Op.lt a b
  binary_op Op.lte a b = numbers_only Op.lte a b
  binary_op Op.gt a b = numbers_only Op.gt a b
  binary_op Op.gte a b = numbers_only Op.gte a b
  binary_op _ a b = err unsupported_op
