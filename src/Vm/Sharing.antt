-- ===== src/Vm/Sharing.antt =====
-- internal/vm/vm.go, `captureUpvalue`, and internal/vm/upvalue.go, `get` and `set`.
use go_flux.Base.{
  some-injective, ℕ, true, ◌≡◌, refl, inl, inr, Option-cases, Option, none, some, List, [], ◌∷◌,
  ◌++◌, length, get_elem?, ◌&&◌, ◌==◌, Bool-cases, arith, get_elem?-append_head,
  get_elem?-append_cases, ◌<◌, set, get_elem?-set_self, get_elem?-eq-some,
}
use go_flux.Vm.State.{Value, null, UpvalueCell, Heap, Vm, write_array, array_at}
use go_flux.Vm.Upvalues.{
  set_cell, set_upvalue, write_cell, read_slot, cell_value, get_upvalue, points_to, find_open,
  new_cell, captured_at, capture_upvalue,
}

-- A cell for a slot points to it.
points_to_self :
    (r s : ℕ) (v : Value) → points_to r s (record { location = some (r, s); closed = v }) ≡ true
unfolding points_to
points_to_self r s v = ground arith

abbrev cell_for : ℕ → ℕ → UpvalueCell
cell_for r s = record { location = some (r, s); closed = null }

-- With a new cell for the slot at the end of the cells, the search finds it if it found none before.
find_open_new :
    (h : Heap) (r s : ℕ) (is : List ℕ)
    → find_open h r s is ≡ none
    → find_open (new_cell (cell_for r s) h).1 r s (is ++ length h.cells ∷ [])
      ≡ some (length h.cells)
unfolding find_open new_cell
find_open_new h r s [] e =
    rw (get_elem?-append_head h.cells [] (cell_for r s), points_to_self r s null)
find_open_new h r s (i ∷ is) e = elim (get_elem?-append_cases h.cells (cell_for r s) i) [
  | inl c ↦ rw c (ground (arith, find_open_new h r s is))
  | inr c ↦ rw (c, get_elem?-append_head h.cells [] (cell_for r s), points_to_self r s null)
]

captured_again :
    (r s : ℕ) (vm : Vm) (o : Option ℕ)
    → find_open vm.heap r s vm.open_upvalues ≡ o
    → let (i, w) = captured_at r s vm o in capture_upvalue r s w ≡ (i, w)
unfolding capture_upvalue captured_at
captured_again r s vm (some i) e = rw e
captured_again r s vm none e = rw (find_open_new vm.heap r s vm.open_upvalues e)

-- A slot that is captured again gives the same upvalue, and leaves the machine as it is.
pub capture_upvalue_twice :
    (r s : ℕ) (vm : Vm) → capture_upvalue r s (capture_upvalue r s vm).1 ≡ capture_upvalue r s vm
capture_upvalue_twice r s vm = unfold capture_upvalue in captured_again r s vm _ refl

-- An upvalue that the search finds is one for the slot.
find_open_points :
    (h : Heap) (r s i : ℕ) (is : List ℕ)
    → find_open h r s is ≡ some i
    → (u : UpvalueCell) × (get_elem? h.cells i ≡ some u) × (points_to r s u ≡ true)
unfolding find_open
find_open_points h r s i [] e = cc
find_open_points h r s i (j ∷ is) e = elim (Option-cases (get_elem? h.cells j)) [
  | inl g ↦ find_open_points h r s i is (rw (find_open, g) at e)
  | inr (u, g) ↦ elim (Bool-cases (points_to r s u)) [
    | inl p ↦ let q : j ≡ i = some-injective (rw (find_open, g, p) at e) in (u, rw (← q) g, p)
    | inr p ↦ find_open_points h r s i is (rw (find_open, g, p) at e)
  ]
]

cell_value_at :
    (h : Heap) (r s : ℕ) (u : UpvalueCell) (o : Option (ℕ × ℕ))
    → u.location ≡ o
    → points_to r s u ≡ true
    → cell_value h u ≡ read_slot h (r, s)
unfolding cell_value points_to
cell_value_at h r s u none e p = let q = rw (points_to, e) at p in cc
cell_value_at h r s u (some (q, t)) e p =
    let g : (q == r && t == s) ≡ true = rw (points_to, e) at p in
    let a : q ≡ r = ground (arith, g) in
    let b : t ≡ s = ground (arith, g) in rw (cell_value, e, a, b) refl

captured-get_upvalue :
    (r s : ℕ) (vm : Vm) (o : Option ℕ)
    → find_open vm.heap r s vm.open_upvalues ≡ o
    → get_upvalue (captured_at r s vm o).1.heap (some (captured_at r s vm o).0)
      ≡ read_slot vm.heap (r, s)
unfolding captured_at get_upvalue new_cell cell_value
captured-get_upvalue r s vm (some i) e =
    let (u, g, p) = find_open_points vm.heap r s i vm.open_upvalues e in
    rw (get_upvalue, g) (cell_value_at vm.heap r s u _ refl p)
captured-get_upvalue r s vm none e =
    rw (get_upvalue, get_elem?-append_head vm.heap.cells [] (cell_for r s)) refl

-- The upvalue that a capture gives reads the slot captured.
pub capture_upvalue-get_upvalue :
    (r s : ℕ) (vm : Vm)
    → get_upvalue (capture_upvalue r s vm).1.heap (some (capture_upvalue r s vm).0)
      ≡ read_slot vm.heap (r, s)
capture_upvalue-get_upvalue r s vm = unfold capture_upvalue in captured-get_upvalue r s vm _ refl

-- What an upvalue is written to is there: its slot, if its variable is live in a frame.
abbrev pub Writable : Heap → Option (ℕ × ℕ) → Type 0
Writable h none = Unit
Writable h (some (r, s)) = (r < length h.arrays) × (s < length (array_at h r))

set_cell-get_upvalue :
    (h : Heap) (i : ℕ) (u : UpvalueCell) (v : Value) (o : Option (ℕ × ℕ))
    → u.location ≡ o
    → get_elem? h.cells i ≡ some u
    → Writable h o
    → get_upvalue (set_cell h i u v) (some i) ≡ v
unfolding set_cell get_upvalue cell_value write_array write_cell
set_cell-get_upvalue h i u v none e g w =
    rw
      (
        set_cell,
        e,
        get_upvalue,
        get_elem?-set_self h.cells i (record u { closed = v }) (get_elem?-eq-some h.cells i g),
        cell_value,
        e,
      )
      refl
set_cell-get_upvalue h i u v (some (r, s)) e g (a, b) =
    rw
      (
        set_cell,
        e,
        get_upvalue,
        g,
        cell_value,
        e,
        set_cell,
        e,
        get_elem?-set_self h.arrays r (set (array_at h r) s v) a,
        get_elem?-set_self (array_at h r) s v b,
      )
      refl

-- What is set through an upvalue is read back through it, whether its variable is live or closed, if
-- the upvalue has its cell in the heap and a live variable has its slot.
pub set_upvalue-get_upvalue :
    (h : Heap) (i : ℕ) (u : UpvalueCell) (v : Value)
    → get_elem? h.cells i ≡ some u
    → Writable h u.location
    → get_upvalue (set_upvalue h (some i) v) (some i) ≡ v
unfolding set_upvalue
set_upvalue-get_upvalue h i u v g w = rw (set_upvalue, g) (set_cell-get_upvalue h i u v _ refl g w)
