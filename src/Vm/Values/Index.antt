-- ===== src/Vm/Values/Index.antt =====
-- internal/vm/value.go and vm.go: reading, writing and testing through an index.
use go_flux.Base.{
  ℕ, Bool, true, false, ◌||◌, Option, none, some, List, [], ◌∷◌, Bytes, length, get_elem?, set,
  lookup, insert, ltb, if◌then◌else◌, Result, ok, err, ◌>>=◌,
}
use go_flux.Base.Int.{ℤ, pos, negsuc}
use go_flux.Vm.State.{
  Value, number, string, array, object, Heap, Fault, Platform, array_at, elements, fields,
  write_array, write_object, not_indexable, index_must_be_number, index_must_be_integer,
  index_out_of_bounds, key_must_be_string_or_number, missing_key, read_only,
}
use go_flux.Vm.Values.Operators.{equal}

unfoldable pub is_read_only : Value → Bool
is_read_only (array r ro) = ro
is_read_only (object r ro) = ro
is_read_only _ = false

unfoldable pub bounded : ℕ → ℤ → Result Fault ℕ
bounded length (pos i) = if ltb i length then ok i else err index_out_of_bounds
bounded length (negsuc i) = err index_out_of_bounds

unfoldable pub found {ℓ} : {A : Type ℓ} → Fault → Option A → Result Fault A
found f (some a) = ok a
found f none = err f

unfoldable pub store_element : Heap → Option ℕ → ℕ → Value → Result Fault Heap
unfolding write_array
store_element h none i v = err index_out_of_bounds
store_element h (some r) i v = ok (write_array h r (set (array_at h r) i v))

unfoldable pub store_field : Heap → Option ℕ → Bytes → Value → Result Fault Heap
unfolding write_object
store_field h none k v = err not_indexable
store_field h (some r) k v = ok (write_object h r (insert k v (fields h (some r))))

abbrev pub is_ok {ℓ} : {A : Type ℓ} → Result Fault A → Bool
is_ok (ok a) = true
is_ok (err f) = false

abbrev pub is_some {ℓ} : {A : Type ℓ} → Option A → Bool
is_some (some a) = true
is_some none = false

module _ (host : Platform) where
  open host use {
    fadd, fsub, fmul, fdiv, feq, flt, fle, to_int, of_int, format_int, format_float, key_order,
  }

  -- `expectIndex` with a negative length, which checks no bounds, and with a length.
  unfoldable pub expect_int : Value → Result Fault ℤ
  expect_int (number n) =
      if feq (of_int (to_int n)) n then ok (to_int n) else err index_must_be_integer
  expect_int _ = err index_must_be_number

  unfoldable pub expect_index : Value → ℕ → Result Fault ℕ
  unfolding expect_int bounded
  expect_index index length = do i ← expect_int index; bounded length i

  unfoldable pub expect_key_string : Value → Result Fault Bytes
  expect_key_string (string s) = ok s
  expect_key_string (number n) =
      ok (if feq (of_int (to_int n)) n then format_int (to_int n) else format_float n)
  expect_key_string _ = err key_must_be_string_or_number

  unfoldable pub index_get : Heap → Value → Value → Result Fault Value
  unfolding expect_index expect_key_string found
  index_get h (array r ro) index = do
    i ← expect_index index (length (elements h r))
    found index_out_of_bounds (get_elem? (elements h r) i)
  index_get h (object r ro) index = do
    k ← expect_key_string index
    found missing_key (lookup k (fields h r))
  index_get h _ index = err not_indexable

  -- A store into a nil slice is out of bounds before it is reached.
  unfoldable pub index_set : Heap → Value → Value → Value → Result Fault Heap
  unfolding expect_index expect_key_string store_element store_field
  index_set h (array r true) index v = err read_only
  index_set h (array r false) index v = do
    i ← expect_index index (length (elements h r))
    store_element h r i v
  index_set h (object r true) index v = err read_only
  index_set h (object r false) index v = do k ← expect_key_string index; store_field h r k v
  index_set h _ index v = err not_indexable

  unfoldable pub index_exists : Heap → Value → Value → Bool
  unfolding expect_index expect_key_string
  index_exists h (array r ro) index = is_ok (expect_index index (length (elements h r)))
  index_exists h (object r ro) index = elim (expect_key_string index) [
    | ok k ↦ is_some (lookup k (fields h r))
    | err f ↦ false
  ]
  index_exists h _ index = false

  unfoldable pub contains : List Value → Value → Bool
  unfolding equal
  contains [] v = false
  contains (x ∷ xs) v = equal host x v || contains xs v

  unfoldable pub value_exists : Heap → Value → Value → Bool
  unfolding contains
  value_exists h (array r ro) v = contains (elements h r) v
  value_exists h _ v = false
