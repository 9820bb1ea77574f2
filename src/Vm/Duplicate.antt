-- ===== src/Vm/Duplicate.antt =====
-- internal/vm/duplicate.go: the copy of a machine. The values of Go's memory are in one heap, that of
-- the machine: what is cloned is read there, and each clone is a new cell of it. A clone is put
-- into its map before what it holds is cloned, so that sharing and cycles are copied as they are.
-- A function is a value here, whose upvalues are cells, so that the map of functions has no
-- counterpart: a function met again has the same cloned upvalues. Go makes all arrays without
-- elements at one place, which its map takes for one array; nothing can be written there. A slice
-- and a map of Go are ranged over in their order in the heap.
pub mod Invariant
pub mod Cells
pub mod Writes
pub mod Copied
pub mod Copies
pub mod Copying
pub mod Rewriting
pub mod Loops
pub mod Parts
pub mod Closures
pub mod Kinds
pub mod Isolation
use go_flux.Base.{
  ℕ, zero, suc, false, Option, none, some, List, [], ◌∷◌, Bytes, length, get_elem?, set, replicate,
  insert, ◌==◌, if◌then◌else◌,
}
use go_flux.Vm.State.{
  Value, null, array, object, function, iterator, Object, Function, Iterator, UpvalueCell, Heap, Vm,
  array_at, elements, fields, write_array, write_object, new_array, new_object, new_iterator,
}
use go_flux.Vm.Upvalues.{get_upvalue, write_cell, new_cell}
use go_flux.Vm.Run.{new_vm}

-- A map from cells to their clones.
abbrev pub Memo : Type 0
Memo = List (ℕ × ℕ)

unfoldable pub clone_of : ℕ → Memo → Option ℕ
clone_of r [] = none
clone_of r ((q, c) ∷ m) = if q == r then some c else clone_of r m

-- `cloneState`, with the heap that the clones are made in
pub record CloneState : Type 0 where
  pub heap : Heap
  pub arrays : Memo
  pub objects : Memo
  pub iterators : Memo
  pub upvalues : Memo

abbrev pub new_clone_state : Heap → CloneState
new_clone_state h = record { heap = h; arrays = []; objects = []; iterators = []; upvalues = [] }

-- `none` is the end of the fuel.
abbrev pub M : Type 0 → Type 0
M A = CloneState → Option (A × CloneState)

abbrev pub pure : {A : Type 0} → A → M A
pure a st = some (a, st)

abbrev pub bind_result :
    {A B : Type 0} → Option (A × CloneState) → (A → M B) → Option (B × CloneState)
bind_result none f = none
bind_result (some (a, st)) f = f a st

infixl 1 ◌>>=◌ ◌>>◌
abbrev pub ◌>>=◌ : {A B : Type 0} → M A → (A → M B) → M B
m >>= f = λ st. bind_result (m st) f

abbrev pub ◌>>◌ : {A B : Type 0} → M A → M B → M B
m >> n = m >>= λ _. n

abbrev pub with_heap : CloneState → Heap → CloneState
with_heap st h = record st { heap = h }

-- `out[i] = w`, for an array and an object
unfoldable pub write_element : ℕ → ℕ → Value → M (Unit {0})
unfolding write_array
write_element out i w st =
    some (tt, with_heap st (write_array st.heap out (set (array_at st.heap out) i w)))

unfoldable pub write_field : ℕ → Bytes → Value → M (Unit {0})
unfolding write_object
write_field out k w st =
    some (tt, with_heap st (write_object st.heap out (insert k w (fields st.heap (some out)))))

-- `out.closed = w`
unfoldable pub write_closed : ℕ → Value → M (Unit {0})
unfolding write_cell
write_closed out w st =
    some (tt, with_heap st (write_cell st.heap out (record { location = none; closed = w })))

-- What `out` is, and its entry in the map
unfoldable pub make_array : ℕ → ℕ → M ℕ
unfolding new_array
make_array r n st =
    let (out, h) = new_array (replicate n null) st.heap in
    some (out, record st { heap = h; arrays = (r, out) ∷ st.arrays })

unfoldable pub make_object : ℕ → M ℕ
unfolding new_object
make_object r st =
    let (out, h) = new_object [] st.heap in
    some (out, record st { heap = h; objects = (r, out) ∷ st.objects })

unfoldable pub make_upvalue : ℕ → M ℕ
unfolding new_cell
make_upvalue i st =
    let (out, h) = new_cell (record { location = none; closed = null }) st.heap in
    some (out, record st { heap = h; upvalues = (i, out) ∷ st.upvalues })

unfoldable pub make_iterator : ℕ → ℕ → M ℕ
unfolding new_iterator
make_iterator i index st =
    let (out, h) =
      new_iterator (record { arr = none; obj = none; keys = []; index = index }) st.heap in
    some (out, record st { heap = h; iterators = (i, out) ∷ st.iterators })

unfoldable pub write_iterator : ℕ → Iterator → M (Unit {0})
write_iterator out it st =
    some (tt, with_heap st (record st.heap { iterators = set st.heap.iterators out it }))

-- `arr.Arr` and `obj.Obj`
abbrev pub array_ref : Value → Option ℕ
array_ref (array r ro) = r
array_ref _ = none

abbrev pub object_ref : Value → Option ℕ
object_ref (object r ro) = r
object_ref _ = none

-- `out.keys`, which is set for an object only
abbrev pub cloned_keys : Iterator → List Bytes
cloned_keys it = elim it.obj [ some r ↦ it.keys | none ↦ [] ]

module _ (clone_value : Value → M Value) where
  -- The loops over the elements and the fields of the source
  unfoldable pub clone_elements : ℕ → ℕ → List Value → M (Unit {0})
  unfolding write_element
  clone_elements out i [] = pure tt
  clone_elements out i (v ∷ vs) = do
    w ← clone_value v
    write_element out i w
    clone_elements out (suc i) vs

  unfoldable pub clone_fields : ℕ → Object → M (Unit {0})
  unfolding write_field
  clone_fields out [] = pure tt
  clone_fields out ((k, v) ∷ m) = do w ← clone_value v; write_field out k w; clone_fields out m

  -- Behind the look-up in a map of clones: the clone that is there, or a new one
  unfoldable pub array_clone : ℕ → Option ℕ → M ℕ
  unfolding make_array clone_elements
  array_clone r (some out) st = pure out st
  array_clone r none st =
      (do
        out ← make_array r (length (array_at st.heap r))
        clone_elements out 0 (array_at st.heap r)
        pure out)
        st

  unfoldable pub object_clone : ℕ → Option ℕ → M ℕ
  unfolding make_object clone_fields
  object_clone r (some out) st = pure out st
  object_clone r none st =
      (do out ← make_object r; clone_fields out (fields st.heap (some r)); pure out) st

  unfoldable pub upvalue_clone : ℕ → Option ℕ → M ℕ
  unfolding make_upvalue write_closed get_upvalue
  upvalue_clone i (some out) st = pure out st
  upvalue_clone i none st =
      (do
        out ← make_upvalue i
        w ← clone_value (get_upvalue st.heap (some i))
        write_closed out w
        pure out)
        st

  -- `cloneUpvalue`
  unfoldable pub clone_upvalue : Option ℕ → M (Option ℕ)
  unfolding upvalue_clone clone_of
  clone_upvalue none st = pure none st
  clone_upvalue (some i) st =
      (do out ← upvalue_clone i (clone_of i st.upvalues); pure (some out)) st

  unfoldable pub clone_upvalues : List (Option ℕ) → M (List (Option ℕ))
  unfolding clone_upvalue
  clone_upvalues [] = pure []
  clone_upvalues (u ∷ us) = do out ← clone_upvalue u; rest ← clone_upvalues us; pure (out ∷ rest)

  -- `cloneFunction`
  unfoldable pub clone_function : Function → M Function
  unfolding clone_upvalues
  clone_function fn = do us ← clone_upvalues fn.upvalues; pure (record fn { upvalues = us })

  -- `it.arr` and `it.obj` as arguments of cloneValue
  unfoldable pub clone_arr : Option ℕ → M (Option ℕ)
  clone_arr none = pure none
  clone_arr (some r) = do v ← clone_value (array (some r) false); pure (array_ref v)

  unfoldable pub clone_obj : Option ℕ → M (Option ℕ)
  clone_obj none = pure none
  clone_obj (some r) = do v ← clone_value (object (some r) false); pure (object_ref v)

  -- `cloneIterator` of an iterator that has no clone
  unfoldable pub iterator_of : ℕ → Iterator → M ℕ
  unfolding make_iterator clone_arr clone_obj write_iterator
  iterator_of i it = do
    out ← make_iterator i it.index
    a ← clone_arr it.arr
    o ← clone_obj it.obj
    write_iterator out (record { arr = a; obj = o; keys = cloned_keys it; index = it.index })
    pure out

  unfoldable pub iterator_clone : ℕ → Option ℕ → M (Option ℕ)
  unfolding iterator_of
  iterator_clone i (some out) st = pure (some out) st
  iterator_clone i none st = elim (get_elem? st.heap.iterators i) [
    | some it ↦ (do out ← iterator_of i it; pure (some out)) st
    | none ↦ pure none st
  ]

  -- The switch of `cloneValue`
  unfoldable pub clone_by_kind : Value → M Value
  unfolding array_clone object_clone clone_function iterator_clone clone_of
  clone_by_kind (array (some r) ro) st =
      (do out ← array_clone r (clone_of r st.arrays); pure (array (some out) ro)) st
  clone_by_kind (object (some r) ro) st =
      (do out ← object_clone r (clone_of r st.objects); pure (object (some out) ro)) st
  clone_by_kind (function (some fn)) st =
      (do out ← clone_function fn; pure (function (some out))) st
  clone_by_kind (iterator (some i)) st =
      (do out ← iterator_clone i (clone_of i st.iterators); pure (iterator out)) st
  clone_by_kind v st = pure v st

  -- The loop of `Duplicate` over the globals
  unfoldable pub clone_globals : Object → Object → M Object
  clone_globals [] copied = pure copied
  clone_globals ((x, v) ∷ globals) copied = do
    w ← clone_value v
    clone_globals globals (insert x w copied)

-- `cloneValue`
unfoldable pub clone_value : ℕ → Value → M Value
unfolding clone_by_kind
clone_value zero v st = none
clone_value (suc fuel) v st = clone_by_kind (clone_value fuel) v st

-- The new machine, `dup`
unfoldable pub duplicate_of : Vm → Object → CloneState → Vm
unfolding new_vm
duplicate_of vm globals st = record new_vm {
  max_frames = vm.max_frames;
  inst_limit = vm.inst_limit;
  globals = globals;
  heap = st.heap;
}

abbrev pub duplicated : Vm → Option (Object × CloneState) → Option Vm
duplicated vm none = none
duplicated vm (some (globals, st)) = some (duplicate_of vm globals st)

-- `Duplicate`
unfoldable pub duplicate : ℕ → Vm → Option Vm
unfolding clone_value clone_globals duplicate_of
duplicate fuel vm =
    duplicated vm (clone_globals (clone_value fuel) vm.globals [] (new_clone_state vm.heap))
