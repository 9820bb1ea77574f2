-- ===== src/Vm/Values/Iterate.antt =====
-- internal/vm/value.go and vm.go: ranges and iterators.
use go_flux.Base.{
  ℕ, zero, suc, ◌+◌, Option, none, some, List, [], ◌∷◌, Bytes, get_elem?, lookup, if◌then◌else◌,
  Result, ok, err,
}
use go_flux.Base.Int.{ℤ, pos, next, previous, lt_int, distance}
use go_flux.Vm.State.{
  Value, null, number, array, object, iterator, Object, Iterator, Heap, Fault, Platform, array_at,
  fields, new_iterator, not_iterable, iterator_is_nil,
}

unfoldable pub keys_of : Object → List Bytes
keys_of [] = []
keys_of ((k, v) ∷ m) = k ∷ keys_of m

abbrev pub or_null : Option Value → Value
or_null (some v) = v
or_null none = null

module _ (host : Platform) where
  open host use {
    fadd, fsub, fmul, fdiv, feq, flt, fle, to_int, of_int, format_int, format_float, key_order,
  }

  -- `buildRange`: `rounds` steps up or down, both ends included.
  unfoldable pub count_up : ℕ → ℤ → List Value
  count_up zero i = number (of_int i) ∷ []
  count_up (suc n) i = number (of_int i) ∷ count_up n (next i)

  unfoldable pub count_down : ℕ → ℤ → List Value
  count_down zero i = number (of_int i) ∷ []
  count_down (suc n) i = number (of_int i) ∷ count_down n (previous i)

  unfoldable pub build_range : ℤ → ℤ → List Value
  unfolding count_up count_down
  build_range start end =
      if lt_int end start
      then count_down (distance end start) start
      else count_up (distance start end) start

  -- `toIterator`: the iterator's cell, new unless the value is an iterator already.
  unfoldable pub to_iterator : Heap → Value → Result Fault (ℕ × Heap)
  unfolding keys_of new_iterator
  to_iterator h (array r ro) =
      ok (new_iterator (record { arr = r; obj = none; keys = []; index = 0 }) h)
  to_iterator h (object r ro) = ok (
      new_iterator
        (record { arr = none; obj = r; keys = key_order (keys_of (fields h r)); index = 0 }) h)
  to_iterator h (iterator (some i)) = ok (i, h)
  to_iterator h (iterator none) = err iterator_is_nil
  to_iterator h _ = err not_iterable

  -- `Next`: the key, the value and the iterator moved on, or `none` at the end.
  unfoldable pub iterator_next : Heap → Iterator → Option (Bytes × Value × Iterator)
  iterator_next h it = elim it.arr [
    | some r ↦ elim (get_elem? (array_at h r) it.index) [
      | some v ↦ some (format_int (pos it.index), v, record it { index = it.index + 1 })
      | none ↦ none
    ]
    | none ↦ elim it.obj [
      | some r ↦ elim (get_elem? it.keys it.index) [
        | some k ↦
            some (k, or_null (lookup k (fields h (some r))), record it { index = it.index + 1 })
        | none ↦ none
      ]
      | none ↦ none
    ]
  ]
