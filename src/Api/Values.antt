-- ===== src/Api/Values.antt =====
-- api.go: `VmValue` and its accessors, `HostArgs`, and the handles of functions and iterators. The
-- machine that a value belongs to is named by a number.
use go_flux.Base.{
  ℕ, Bool, false, true, Option, none, some, List, [], ◌∷◌, Bytes, codes, get_elem?, set, lookup,
  Result, ok, err, ◌>>=◌,
}
use go_flux.Vm.State.{
  Value, null, bool, number, string, array, object, function, error, iterator, Object, Function,
  Iterator, Heap, Platform, elements, fields,
}
use go_flux.Vm.Values.{iterator_next}
use go_flux.Api.Errors.{ArgError}

pub record VmValue : Type 0 where
  pub v : Value
  pub owner : Option ℕ

pub data ValueKind : Type 0 where
  value_null value_bool value_number value_string value_array value_object : ValueKind
  value_function value_error value_iterator : ValueKind

-- `Kind`: the kinds of the machine and of the host stand in the same order.
unfoldable pub kind : VmValue → ValueKind
kind x = elim x.v [
  | null ↦ value_null
  | bool b ↦ value_bool
  | number n ↦ value_number
  | string s ↦ value_string
  | array r ro ↦ value_array
  | object r ro ↦ value_object
  | function f ↦ value_function
  | error s ↦ value_error
  | iterator i ↦ value_iterator
]

unfoldable pub kind_name : ValueKind → Bytes
kind_name value_null = codes "null"
kind_name value_bool = codes "boolean"
kind_name value_number = codes "number"
kind_name value_string = codes "string"
kind_name value_array = codes "array"
kind_name value_object = codes "object"
kind_name value_function = codes "function"
kind_name value_error = codes "error"
kind_name value_iterator = codes "iterator"

abbrev pub read_only_value : Value → Bool
read_only_value (array r ro) = ro
read_only_value (object r ro) = ro
read_only_value _ = false

-- `IsReadOnly`, `IsNull`
unfoldable pub is_read_only : VmValue → Bool
is_read_only x = read_only_value x.v

unfoldable pub is_null : VmValue → Bool
is_null x = elim x.v [ null ↦ true | _ ↦ false ]

-- `Bool`, `Number`, `String`, `ErrorString`; `none` where the second result is false
unfoldable pub to_bool : VmValue → Option Bool
to_bool x = elim x.v [ bool b ↦ some b | _ ↦ none ]

unfoldable pub to_number : VmValue → Option ℕ
to_number x = elim x.v [ number n ↦ some n | _ ↦ none ]

unfoldable pub to_string : VmValue → Option Bytes
to_string x = elim x.v [ string s ↦ some s | _ ↦ none ]

unfoldable pub error_string : VmValue → Option Bytes
error_string x = elim x.v [ error s ↦ some s | _ ↦ none ]

abbrev pub owned : Option ℕ → List Value → List VmValue
owned o [] = []
owned o (v ∷ vs) = (record { v = v; owner = o }) ∷ owned o vs

abbrev pub owned_fields : Option ℕ → Object → List (Bytes × VmValue)
owned_fields o [] = []
owned_fields o ((k, v) ∷ m) = (k, record { v = v; owner = o }) ∷ owned_fields o m

-- `Array`, `Object`
unfoldable pub to_array : Heap → VmValue → Option (List VmValue)
to_array h x = elim x.v [ array r ro ↦ some (owned x.owner (elements h r)) | _ ↦ none ]

unfoldable pub to_object : Heap → VmValue → Option (List (Bytes × VmValue))
to_object h x = elim x.v [ object r ro ↦ some (owned_fields x.owner (fields h r)) | _ ↦ none ]

-- `AsFunction`, `AsIterator`
pub record VmFunctionHandle : Type 0 where
  pub owner : Option ℕ
  pub fn : Option Function

pub record VmIteratorHandle : Type 0 where
  pub owner : Option ℕ
  pub it : Option ℕ

unfoldable pub as_function : VmValue → Option VmFunctionHandle
as_function x = elim x.v [ function f ↦ some (record { owner = x.owner; fn = f }) | _ ↦ none ]

unfoldable pub as_iterator : VmValue → Option VmIteratorHandle
as_iterator x = elim x.v [ iterator i ↦ some (record { owner = x.owner; it = i }) | _ ↦ none ]

-- The outcome of `Next` on a handle: the key and the value, or the end.
abbrev pub advanced :
    Option ℕ → ℕ → Heap → Option (Bytes × Value × Iterator) → Option (Bytes × VmValue) × Heap
advanced o i h none = (none, h)
advanced o i h (some (k, v, it)) =
    (some (k, record { v = v; owner = o }), record h { iterators = set h.iterators i it })

module _ (host : Platform) where
  -- `Next` of a VmIteratorHandle
  unfoldable pub handle_next :
      Heap → VmIteratorHandle → Result Bytes (Option (Bytes × VmValue) × Heap)
  unfolding iterator_next
  handle_next h x = elim x.it [
    | none ↦ err (codes "nil iterator handle")
    | some i ↦ elim (get_elem? h.iterators i) [
      | none ↦ err (codes "nil iterator handle")
      | some it ↦ ok (advanced x.owner i h (iterator_next host h it))
    ]
  ]

-- `HostArgs`
pub record HostArgs : Type 0 where
  pub args : List (Bytes × VmValue)

unfoldable pub get_value : HostArgs → Bytes → Result ArgError VmValue
unfolding lookup
get_value a name = elim (lookup name a.args) [
  | some v ↦ ok v
  | none ↦ err (record { name = name; want = codes "present"; got = [] })
]

-- An accessor's value, or the error that says what it wanted and what it got
unfoldable pub expect {ℓ} : {A : Type ℓ} → Bytes → Bytes → VmValue → Option A → Result ArgError A
unfolding kind kind_name
expect name want v (some a) = ok a
expect name want v none = err (record { name = name; want = want; got = kind_name (kind v) })

-- `Number`, `String`, `Bool`, `Array` and `Object` of HostArgs
unfoldable pub get_number : HostArgs → Bytes → Result ArgError ℕ
unfolding get_value expect to_number
get_number a name = do v ← get_value a name; expect name (codes "number") v (to_number v)

unfoldable pub get_string : HostArgs → Bytes → Result ArgError Bytes
unfolding get_value expect to_string
get_string a name = do v ← get_value a name; expect name (codes "string") v (to_string v)

unfoldable pub get_bool : HostArgs → Bytes → Result ArgError Bool
unfolding get_value expect to_bool
get_bool a name = do v ← get_value a name; expect name (codes "boolean") v (to_bool v)

unfoldable pub get_array : Heap → HostArgs → Bytes → Result ArgError (List VmValue)
unfolding get_value expect to_array
get_array h a name = do v ← get_value a name; expect name (codes "array") v (to_array h v)

unfoldable pub get_object : Heap → HostArgs → Bytes → Result ArgError (List (Bytes × VmValue))
unfolding get_value expect to_object
get_object h a name = do v ← get_value a name; expect name (codes "object") v (to_object h v)
