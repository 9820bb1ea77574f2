-- ===== src/Api/Unmarshal.antt =====
-- api.go: `assignValue`, which `Unmarshal` and the calls of Go functions store values of the machine
-- by. A target is its type with the value in it, and stays as it is where the source has returned an
-- error before a store. Targets are settable here: Unmarshal's is behind a pointer, and fields that
-- are not exported are passed over. An interface is the empty one. A slice or an array in a target is
-- a `slice_value` and a map a `map_value`, since the target has the type.
use go_flux.Base.{
  ℕ, zero, suc, ◌-◌, ◌*◌, ◌%◌, ◌^◌, Bool, false, true, Option, none, some, List, [], ◌∷◌, ◌++◌,
  Bytes, codes, length, lookup, ltb, ◌==◌, if◌then◌else◌,
}
use go_flux.Base.Int.{ℤ, pos, negsuc}
use go_flux.Vm.State.{Value, bool, number, string, array, object, Object, Heap, elements, fields}
use go_flux.Api.Errors.{ArgError}
use go_flux.Api.Values.{kind, kind_name}
use go_flux.Api.Marshal.{
  Outcome, done, failed, out_of_fuel, GoValue, nil_value, bool_value, int_value, float_value,
  float32_value, string_value, slice_value, map_value, struct_value, GoValues, no_values,
  more_values, GoFields, no_entries, more_entries, GoMembers, no_members, more_members,
  unmarshal_to_go,
}

-- The kinds of targets. A signed integer type is given by its bits below the sign, an unsigned one by
-- its bits, and a float type by whether it is float32; a map by whether its keys are strings; and a
-- type of another kind by the kind's name.
mutual
  pub data GoType : Type 0 where
    any_type bool_type string_type : GoType
    int_type uint_type : ℕ → GoType
    float_type : Bool → GoType
    slice_type : GoType → GoType
    array_type : ℕ → GoType → GoType
    map_type : Bool → GoType → GoType
    struct_type : MemberTypes → GoType
    other_type : Bytes → GoType

  pub data MemberTypes : Type 0 where
    no_types : MemberTypes
    more_types : Bytes → Bool → GoType → MemberTypes → MemberTypes

-- Why an assignment stops
pub data Failure : Type 0 where
  argument : ArgError → Failure
  message : Bytes → Failure
  length_mismatch : ℕ → ℕ → Failure
  no_fuel : Failure

-- The target that is left, and the error, if any
abbrev pub Assigned : Type 0 → Type 0
Assigned A = A × Option Failure

abbrev pub mismatch : {A : Type 0} → Bytes → Value → A → Assigned A
mismatch want v old = (
  old,
  some (
      argument (record {
        name = [];
        want = want;
        got = kind_name (kind (record { v = v; owner = none }));
      })),
)

unfoldable pub replicate_value : ℕ → GoValue → GoValues
replicate_value zero x = no_values
replicate_value (suc n) x = more_values x (replicate_value n x)

unfoldable pub values_length : GoValues → ℕ
values_length no_values = 0
values_length (more_values x xs) = suc (values_length xs)

-- `reflect.Zero`, and what MakeSlice and New give; a type without a value here has nil
unfoldable mutual
  unfolding replicate_value

  pub zero_of : GoType → GoValue
  zero_of any_type = nil_value
  zero_of bool_type = bool_value false
  zero_of string_type = string_value []
  zero_of (int_type b) = int_value (pos 0)
  zero_of (uint_type b) = int_value (pos 0)
  zero_of (float_type false) = float_value 0
  zero_of (float_type true) = float32_value 0
  zero_of (slice_type t) = slice_value no_values
  zero_of (array_type n t) = slice_value (replicate_value n (zero_of t))
  zero_of (map_type by_string t) = map_value no_entries
  zero_of (struct_type ts) = struct_value (zeros_of ts)
  zero_of (other_type k) = nil_value

  pub zeros_of : MemberTypes → GoMembers
  zeros_of no_types = no_members
  zeros_of (more_types x exported t ts) = more_members x exported (zero_of t) (zeros_of ts)

-- The signed number that the lowest bits of another are: `half` is the weight of the sign.
abbrev pub from_bits : ℕ → ℕ → ℤ
from_bits half u = if ltb u half then pos u else negsuc (2 * half - 1 - u)

-- `SetInt` on a type with `b` bits below the sign
unfoldable pub set_int : ℕ → ℤ → ℤ
set_int b (pos n) = from_bits (2 ^ b) (n % (2 * 2 ^ b))
set_int b (negsuc n) = from_bits (2 ^ b) (2 * 2 ^ b - 1 - n % (2 * 2 ^ b))

-- An element, an entry or a member that has been assigned, and what the loop gives for the others:
-- an error ends the loop before them, and an element of a map with an error is not put in.
abbrev pub then_elements : Assigned GoValue → GoValues → Assigned GoValues → Assigned GoValues
then_elements (x, some e) olds rest = (more_values x olds, some e)
then_elements (x, none) olds (xs, e) = (more_values x xs, e)

abbrev pub then_entries : Bytes → Assigned GoValue → Assigned GoFields → Assigned GoFields
then_entries k (x, some e) rest = (no_entries, some e)
then_entries k (x, none) (xs, e) = (more_entries k x xs, e)

abbrev pub then_members :
    Bytes → Assigned GoValue → GoMembers → Assigned GoMembers → Assigned GoMembers
then_members x (v, some e) olds rest = (more_members x true v olds, some e)
then_members x (v, none) olds (ms, e) = (more_members x true v ms, e)

module _ (assign : Value → GoValue → Assigned GoValue) where
  -- The loops over the elements of a slice or an array, and over the entries of a map
  unfoldable pub assign_all : List Value → GoValues → Assigned GoValues
  assign_all [] olds = (olds, none)
  assign_all (v ∷ vs) no_values = (no_values, none)
  assign_all (v ∷ vs) (more_values old olds) =
      then_elements (assign v old) olds (assign_all vs olds)

  unfoldable pub assign_entries : GoValue → Object → Assigned GoFields
  assign_entries start [] = (no_entries, none)
  assign_entries start ((k, v) ∷ m) = then_entries k (assign v start) (assign_entries start m)

abbrev pub sliced : Assigned GoValues → Assigned GoValue
sliced (xs, e) = (slice_value xs, e)

abbrev pub mapped : Assigned GoFields → Assigned GoValue
mapped (m, e) = (map_value m, e)

abbrev pub structured : Assigned GoMembers → Assigned GoValue
structured (m, e) = (struct_value m, e)

abbrev pub from_raw : GoValue → Outcome GoValue → Assigned GoValue
from_raw old (done x) = (x, none)
from_raw old (failed e) = (old, some (message e))
from_raw old out_of_fuel = (old, some no_fuel)

-- The members of the value in a struct, and the elements of that in an array
abbrev pub members_of : GoValue → GoMembers
members_of (struct_value m) = m
members_of _ = no_members

abbrev pub values_of : GoValue → GoValues
values_of (slice_value xs) = xs
values_of _ = no_values

-- float64 as int64, as uint64 and as float32, and the decimal of a number
module _ (to_int64 : ℕ → ℤ) (to_uint64 : ℕ → ℕ) (to_float32 : ℕ → ℕ) (f : ℕ) (h : Heap) where
  abbrev pub set_float : Bool → ℕ → GoValue
  set_float true n = float32_value (to_float32 n)
  set_float false n = float_value n

  unfoldable mutual
    unfolding zero_of set_int unmarshal_to_go assign_all assign_entries kind kind_name
        replicate_value values_length lookup

    -- `assignValue`
    pub assign_value : GoType → Value → GoValue → Assigned GoValue
    assign_value any_type v old = from_raw old (unmarshal_to_go f h v)
    assign_value bool_type v old = elim v [
      | bool b ↦ (bool_value b, none)
      | other ↦ mismatch (codes "boolean") other old
    ]
    assign_value string_type v old = elim v [
      | string s ↦ (string_value s, none)
      | other ↦ mismatch (codes "string") other old
    ]
    assign_value (int_type b) v old = elim v [
      | number n ↦ (int_value (set_int b (to_int64 n)), none)
      | other ↦ mismatch (codes "number") other old
    ]
    assign_value (uint_type b) v old = elim v [
      | number n ↦ (int_value (pos (to_uint64 n % 2 ^ b)), none)
      | other ↦ mismatch (codes "number") other old
    ]
    assign_value (float_type short) v old = elim v [
      | number n ↦ (set_float short n, none)
      | other ↦ mismatch (codes "number") other old
    ]
    assign_value (slice_type t) v old = elim v [
      | array r ro ↦ sliced (
          assign_all (assign_value t) (elements h r)
            (replicate_value (length (elements h r)) (zero_of t)))
      | other ↦ mismatch (codes "array") other old
    ]
    assign_value (array_type n t) v old = elim v [
      | array r ro ↦
          if length (elements h r) == n
          then sliced (assign_all (assign_value t) (elements h r) (values_of old))
          else (old, some (length_mismatch (length (elements h r)) n))
      | other ↦ mismatch (codes "array") other old
    ]
    assign_value (map_type false t) v old = elim v [
      | object r ro ↦ (old, some (message (codes "map keys must be string")))
      | other ↦ mismatch (codes "object") other old
    ]
    assign_value (map_type true t) v old = elim v [
      | object r ro ↦ mapped (assign_entries (assign_value t) (zero_of t) (fields h r))
      | other ↦ mismatch (codes "object") other old
    ]
    assign_value (struct_type ts) v old = elim v [
      | object r ro ↦ structured (assign_members ts (fields h r) (members_of old))
      | other ↦ mismatch (codes "object") other old
    ]
    assign_value (other_type k) v old =
        (old, some (message (codes "unsupported unmarshal target kind " ++ k)))

    -- The loop over the fields of a struct: one that the object does not have stays.
    pub assign_members : MemberTypes → Object → GoMembers → Assigned GoMembers
    assign_members (more_types x true t ts) m (more_members y exported old olds) =
        elim (lookup x m) [
          | some v ↦ then_members x (assign_value t v old) olds (assign_members ts m olds)
          | none ↦ then_members x (old, none) olds (assign_members ts m olds)
        ]
    assign_members (more_types x false t ts) m (more_members y exported old olds) =
        let (ms, e) = assign_members ts m olds in (more_members y exported old ms, e)
    assign_members no_types m olds = (olds, none)
    assign_members (more_types x exported t ts) m no_members = (no_members, none)

  -- `convertVmValue`
  unfoldable pub convert_vm_value : Value → GoType → Assigned GoValue
  unfolding assign_value zero_of
  convert_vm_value v t = assign_value t v (zero_of t)
