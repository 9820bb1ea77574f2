-- ===== src/Vm/Exec/Containers.antt =====
-- internal/vm/vm.go: the cases of the switch of `Run` for arrays, objects, indexing, properties and
-- iterators.
use go_flux.Base.{
  ℕ, zero, suc, Bool, false, none, Option, some, List, Bytes, [], ◌∷◌, get_elem?, set, lookup,
  insert, if◌then◌else◌, Result, ok, err, ◌>>=◌,
}
use go_flux.Bytecode.Chunk.{Prototype}
use go_flux.Vm.State.{
  Value, string, array, object, iterator, Object, Iterator, Frame, Heap, Vm, Fault, Step, fail,
  Platform, fields, write_object, new_array, new_object, push, pop, peek,
}
use go_flux.Vm.Values.{
  expect_int, expect_key_string, index_get, index_set, build_range, to_iterator, iterator_next,
  found,
}
use go_flux.Vm.Frames.{resume, lift, read_u16, string_const}

-- `count` values popped, the last popped first in the list.
unfoldable pub pop_many : ℕ → List Value → Vm → List Value × Vm
pop_many zero acc vm = (acc, vm)
pop_many (suc n) acc vm = let (v, vm') = pop vm in pop_many n (v ∷ acc) vm'

-- OP_ARRAY
unfoldable pub exec_array : Prototype → Frame → Vm → Step Vm
unfolding read_u16 pop_many new_array
exec_array p fr vm = do
  (count, fr1) ← read_u16 p fr
  let popped = pop_many count [] vm
  let made = new_array popped.0 vm.heap
  ok (resume fr1 (push (array (some made.0) false) (record (popped.1) { heap = made.1 })))

-- OP_GET_PROP and OP_SET_PROP; the map of an object that is not nil
object_ref : Fault → Value → Result Fault (ℕ × Bool)
object_ref f (object (some r) ro) = ok (r, ro)
object_ref f _ = err f

unfoldable pub exec_get_prop : Prototype → Frame → Vm → Step Vm
unfolding read_u16 string_const object_ref found
exec_get_prop p fr vm = do
  (i, fr1) ← read_u16 p fr
  x ← string_const Fault.property_name_constant p i
  let obj = pop vm
  (r, ro) ← lift (object_ref Fault.property_on_non_object obj.0)
  v ← lift (found (Fault.missing_property x) (lookup x (fields vm.heap (some r))))
  ok (resume fr1 (push v obj.1))

unfoldable pub exec_set_prop : Prototype → Frame → Vm → Step Vm
unfolding read_u16 string_const object_ref write_object
exec_set_prop p fr vm = do
  (i, fr1) ← read_u16 p fr
  x ← string_const Fault.property_name_constant p i
  let v = pop vm
  let obj = pop v.1
  (r, ro) ← lift (object_ref Fault.property_on_non_object obj.0)
  let h = write_object vm.heap r (insert x v.0 (fields vm.heap (some r)))
  if ro then fail Fault.read_only else ok (resume fr1 (record (obj.1) { heap = h }))

iterator_of : Heap → Value → Result Fault (ℕ × Iterator)
iterator_of h (iterator (some i)) = elim (get_elem? h.iterators i) [
  | some it ↦ ok (i, it)
  | none ↦ err Fault.not_an_iterator
]
iterator_of h _ = err Fault.not_an_iterator

unfoldable pub write_iterator : Heap → ℕ → Iterator → Heap
write_iterator h i it = record h { iterators = set h.iterators i it }

-- OP_ITER_NEXT behind the call of `Next`: a jump at the end, or the key and the value.
unfoldable pub iter_stepped : Frame → Vm → ℕ → ℕ → Option (Bytes × Value × Iterator) → Step Vm
unfolding write_iterator
iter_stepped fr vm off i none = ok (resume (record fr { ip = off }) vm)
iter_stepped fr vm off i (some (k, v, it)) =
    ok (resume fr (push v (push (string k) (record vm { heap = write_iterator vm.heap i it }))))

module _ (host : Platform) where
  -- OP_OBJECT: the fields are popped from the last to the first, and each is written as it comes.
  unfoldable pub pop_fields : ℕ → Object → Vm → Result Fault (Object × Vm)
  pop_fields zero m vm = ok (m, vm)
  pop_fields (suc n) m vm = do
    let v = pop vm
    let k = pop v.1
    x ← expect_key_string host k.0
    pop_fields n (insert x v.0 m) k.1

  unfoldable pub exec_object : Prototype → Frame → Vm → Step Vm
  unfolding read_u16 pop_fields new_object
  exec_object p fr vm = do
    (count, fr1) ← read_u16 p fr
    (m, vm1) ← lift (pop_fields count [] vm)
    let made = new_object m vm1.heap
    ok (resume fr1 (push (object (some made.0) false) (record vm1 { heap = made.1 })))

  -- OP_RANGE
  unfoldable pub exec_range : Frame → Vm → Step Vm
  unfolding new_array
  exec_range fr vm = do
    let end = pop vm
    let start = pop end.1
    i ← lift (expect_int host start.0)
    j ← lift (expect_int host end.0)
    let made = new_array (build_range host i j) vm.heap
    ok (resume fr (push (array (some made.0) false) (record (start.1) { heap = made.1 })))

  -- OP_INDEX_GET and OP_INDEX_SET
  unfoldable pub exec_index_get : Frame → Vm → Step Vm
  exec_index_get fr vm = do
    let index = pop vm
    let target = pop index.1
    v ← lift (index_get host vm.heap target.0 index.0)
    ok (resume fr (push v target.1))

  unfoldable pub exec_index_set : Frame → Vm → Step Vm
  exec_index_set fr vm = do
    let v = pop vm
    let index = pop v.1
    let target = pop index.1
    h ← lift (index_set host vm.heap target.0 index.0 v.0)
    ok (resume fr (record (target.1) { heap = h }))

  -- OP_ITER_PREP and OP_ITER_NEXT
  unfoldable pub exec_iter_prep : Frame → Vm → Step Vm
  exec_iter_prep fr vm = do
    let v = pop vm
    (i, h) ← lift (to_iterator host vm.heap v.0)
    ok (resume fr (push (iterator (some i)) (record (v.1) { heap = h })))

  unfoldable pub exec_iter_next : Prototype → Frame → Vm → Step Vm
  unfolding read_u16 iterator_of iter_stepped
  exec_iter_next p fr vm = do
    (off, fr1) ← read_u16 p fr
    (i, it) ← lift (iterator_of vm.heap (peek vm))
    iter_stepped fr1 vm off i (iterator_next host vm.heap it)
