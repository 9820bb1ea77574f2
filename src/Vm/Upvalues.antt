-- ===== src/Vm/Upvalues.antt =====
-- internal/vm/upvalue.go, and `captureUpvalue` and `closeUpvalues` of vm.go.
use go_flux.Base.{
  ℕ, Bool, false, ◌&&◌, Option, none, some, List, [], ◌∷◌, ◌++◌, length, get_elem?, set, ◌==◌,
  if◌then◌else◌,
}
use go_flux.Vm.State.{Value, null, UpvalueCell, Heap, Vm, array_at, write_array}

abbrev pub value_or_null : Option Value → Value
value_or_null (some v) = v
value_or_null none = null

-- `*location`
abbrev pub read_slot : Heap → ℕ × ℕ → Value
read_slot h (r, i) = value_or_null (get_elem? (array_at h r) i)

unfoldable pub cell_value : Heap → UpvalueCell → Value
cell_value h u = elim u.location [ some l ↦ read_slot h l | none ↦ u.closed ]

-- `get` and `set`; a nil upvalue reads as null and takes no write.
unfoldable pub get_upvalue : Heap → Option ℕ → Value
unfolding cell_value
get_upvalue h none = null
get_upvalue h (some i) = elim (get_elem? h.cells i) [ some u ↦ cell_value h u | none ↦ null ]

unfoldable pub write_cell : Heap → ℕ → UpvalueCell → Heap
write_cell h i u = record h { cells = set h.cells i u }

unfoldable pub set_cell : Heap → ℕ → UpvalueCell → Value → Heap
unfolding write_array write_cell
set_cell h i u v = elim u.location [
  | some (r, s) ↦ write_array h r (set (array_at h r) s v)
  | none ↦ write_cell h i (record u { closed = v })
]

unfoldable pub set_upvalue : Heap → Option ℕ → Value → Heap
unfolding set_cell
set_upvalue h none v = h
set_upvalue h (some i) v = elim (get_elem? h.cells i) [ some u ↦ set_cell h i u v | none ↦ h ]

unfoldable pub close_cell : Heap → UpvalueCell → UpvalueCell
close_cell h u = elim u.location [
  | some l ↦ record { location = none; closed = read_slot h l }
  | none ↦ u
]

-- `uv.location == slot`
unfoldable pub points_to : ℕ → ℕ → UpvalueCell → Bool
points_to r s u = elim u.location [ some (q, t) ↦ q == r && t == s | none ↦ false ]

unfoldable pub find_open : Heap → ℕ → ℕ → List ℕ → Option ℕ
unfolding points_to
find_open h r s [] = none
find_open h r s (i ∷ is) =
    if elim (get_elem? h.cells i) [ some u ↦ points_to r s u | none ↦ false ]
    then some i
    else find_open h r s is

unfoldable pub new_cell : UpvalueCell → Heap → ℕ × Heap
new_cell u h = (length h.cells, record h { cells = h.cells ++ u ∷ [] })

-- The open upvalue found for a slot of the locals array `r`, or a new one.
unfoldable pub captured_at : ℕ → ℕ → Vm → Option ℕ → ℕ × Vm
unfolding new_cell
captured_at r s vm (some i) = (i, vm)
captured_at r s vm none =
    let (i, h) = new_cell (record { location = some (r, s); closed = null }) vm.heap in
    (i, record vm { heap = h; open_upvalues = vm.open_upvalues ++ i ∷ [] })

unfoldable pub capture_upvalue : ℕ → ℕ → Vm → ℕ × Vm
unfolding find_open captured_at
capture_upvalue r s vm = captured_at r s vm (find_open vm.heap r s vm.open_upvalues)

-- `containsSlot`: the upvalue is live in the locals array `r`.
unfoldable pub lives_in : ℕ → UpvalueCell → Bool
lives_in r u = elim u.location [ some (q, t) ↦ q == r | none ↦ false ]

-- The loop of `closeUpvalues`: the heap with the frame's upvalues closed, and the others.
unfoldable pub close_loop : ℕ → Heap → List ℕ → Heap × List ℕ
unfolding lives_in close_cell write_cell
close_loop r h [] = (h, [])
close_loop r h (i ∷ is) = elim (get_elem? h.cells i) [
  | some u ↦
      let closed = close_loop r (write_cell h i (close_cell h u)) is in
      let rest = close_loop r h is in if lives_in r u then closed else (rest.0, i ∷ rest.1)
  | none ↦ let rest = close_loop r h is in (rest.0, i ∷ rest.1)
]

unfoldable pub close_upvalues : ℕ → Vm → Vm
unfolding close_loop
close_upvalues r vm =
    let (h, still_open) = close_loop r vm.heap vm.open_upvalues in
    if length (array_at vm.heap r) == 0
    then vm
    else record vm { heap = h; open_upvalues = still_open }
