-- ===== src/Vm/Closing.antt =====
-- internal/vm/vm.go, `closeUpvalues`, and internal/vm/upvalue.go, `close`.
use go_flux.Base.{
  ℕ, ◌<◌, false, ◌≡◌, refl, ◌∙◌, inl, inr, Option-cases, Option, none, some, List, [], ◌∷◌, length,
  get_elem?, set, ◌==◌, if_both, get_elem?_lt, length-set, Bool-cases, eq_or_ne, get_elem?-eq-some,
  arith, get_elem?-set_self, get_elem?-set_ne,
}
use mathlib.Core.List.{Memᴰ}
use go_flux.Vm.State.{Value, UpvalueCell, Heap, Vm, array_at, write_array}
use go_flux.Vm.Upvalues.{
  cell_value, get_upvalue, write_cell, close_cell, lives_in, close_loop, close_upvalues,
}

-- Closing a cell keeps its value.
cell_value-close_cell :
    (h : Heap) (u : UpvalueCell) → cell_value h (close_cell h u) ≡ cell_value h u
unfolding cell_value close_cell
cell_value-close_cell h u = elim (Option-cases u.location) [
  | inl e ↦ rw e refl
  | inr (l, e) ↦ rw e refl
]

-- What closing one cell keeps, the loop keeps.
close_loop-keeps {ℓ} :
    (P : Heap → Type ℓ) (r : ℕ)
    → ((h : Heap) (i : ℕ) (u : UpvalueCell)
        → get_elem? h.cells i ≡ some u
        → P h
        → P (write_cell h i (close_cell h u)))
    → (is : List ℕ) (h : Heap) → P h
    → P (close_loop r h is).0
unfolding close_loop
close_loop-keeps P r step [] h p = p
close_loop-keeps P r step (i ∷ is) h p = elim (Option-cases (get_elem? h.cells i)) [
  | inl e ↦ rw (close_loop, e) (close_loop-keeps P r step is h p)
  | inr (u, e) ↦
      rw (close_loop, e)
        (if_both (λ (q : Heap × List ℕ). P q.0) (lives_in r u)
          (close_loop-keeps P r step is _ (step h i u e p)) (close_loop-keeps P r step is h p))
]

-- The arrays are the same, and each upvalue reads as it did.
abbrev Reads : Heap → Heap → Type 0
Reads g h = (h.arrays ≡ g.arrays) × ((o : Option ℕ) → get_upvalue h o ≡ get_upvalue g o)

get_upvalue-write_cell :
    (h : Heap) (i : ℕ) (u : UpvalueCell)
    → get_elem? h.cells i ≡ some u
    → (o : Option ℕ) → get_upvalue (write_cell h i (close_cell h u)) o ≡ get_upvalue h o
unfolding get_upvalue write_cell
get_upvalue-write_cell h i u e none = refl
get_upvalue-write_cell h i u e (some j) = elim (eq_or_ne i j) [
  | inl q ↦
      rw
        (
          ← q,
          get_upvalue,
          get_elem?-set_self h.cells i (close_cell h u) (get_elem?-eq-some h.cells i e),
          e,
        )
        (cell_value-close_cell h u)
  | inr n ↦ rw (get_upvalue, get_elem?-set_ne h.cells i j (close_cell h u) n) refl
]

close_loop-Reads : (r : ℕ) (is : List ℕ) (h : Heap) → Reads h (close_loop r h is).0
unfolding write_cell
close_loop-Reads r is h =
    close_loop-keeps (Reads h) r (λ g i u e p. (p.0, λ o. get_upvalue-write_cell g i u e o ∙ p.1 o))
      is h (refl, λ o. refl)

-- Closing a frame's upvalues leaves what every upvalue reads as it was.
pub close_upvalues-get_upvalue :
    (r : ℕ) (vm : Vm) (o : Option ℕ)
    → get_upvalue (close_upvalues r vm).heap o ≡ get_upvalue vm.heap o
unfolding close_upvalues
close_upvalues-get_upvalue r vm o =
    if_both (λ (w : Vm). get_upvalue w.heap o ≡ get_upvalue vm.heap o)
      (length (array_at vm.heap r) == 0) refl ((close_loop-Reads r vm.open_upvalues vm.heap).1 o)

-- The upvalue's variable is not in the array `r`.
abbrev Apart : ℕ → ℕ → Heap → Type 0
Apart r i h = (u : UpvalueCell) × (get_elem? h.cells i ≡ some u) × (lives_in r u ≡ false)

lives_in-close_cell : (r : ℕ) (h : Heap) (u : UpvalueCell) → lives_in r (close_cell h u) ≡ false
unfolding lives_in close_cell
lives_in-close_cell r h u = elim (Option-cases u.location) [
  | inl e ↦ rw e refl
  | inr (l, e) ↦ rw e refl
]

Apart-write_cell :
    (r i j : ℕ) (h : Heap) (u : UpvalueCell)
    → get_elem? h.cells j ≡ some u
    → Apart r i h
    → Apart r i (write_cell h j (close_cell h u))
unfolding write_cell
Apart-write_cell r i j h u e (c, g, a) = elim (eq_or_ne j i) [
  | inl q ↦ (
    close_cell h u,
    rw (← q) (get_elem?-set_self h.cells j _ (get_elem?-eq-some h.cells j e)),
    lives_in-close_cell r h u,
  )
  | inr n ↦ (c, get_elem?-set_ne h.cells j i _ n ∙ g, a)
]

close_loop-Apart :
    (r i : ℕ) (is : List ℕ) (h : Heap) (u : UpvalueCell)
    → Memᴰ i is
    → get_elem? h.cells i ≡ some u
    → Apart r i (close_loop r h is).0
unfolding close_loop
close_loop-Apart r i [] h u m e = elim m [ ]
close_loop-Apart r i (j ∷ is) h u (Memᴰ.head q) e =
    let g : get_elem? h.cells j ≡ some u = rw (← q) e in
    let keep = close_loop-keeps (Apart r i) r (λ g k c. Apart-write_cell r i k g c) in
    rw (close_loop, g)
      (elim (Bool-cases (lives_in r u)) [
        | inl l ↦ rw l (
            keep is _ (
              close_cell h u,
              rw q (get_elem?-set_self h.cells j _ (get_elem?-eq-some h.cells j g)),
              lives_in-close_cell r h u,
            ))
        | inr l ↦ rw l (keep is h (u, e, l))
      ])
close_loop-Apart r i (j ∷ is) h u (Memᴰ.tail m) e = elim (Option-cases (get_elem? h.cells j)) [
  | inl g ↦ rw (close_loop, g) (close_loop-Apart r i is h u m e)
  | inr (c, g) ↦
      let (d, k) =
        get_elem?_lt (set h.cells j (close_cell h c)) i
          (rw (length-set h.cells j (close_cell h c)) (get_elem?-eq-some h.cells i e)) in
      rw (close_loop, g)
        (if_both (λ (q : Heap × List ℕ). Apart r i q.0) (lives_in r c)
          (close_loop-Apart r i is _ d m k) (close_loop-Apart r i is h u m e))
]

-- What is written to the array `r` is not seen by an upvalue whose variable is not in it.
cell_value-write_array :
    (r : ℕ) (h : Heap) (xs : List Value) (u : UpvalueCell) (o : Option (ℕ × ℕ))
    → u.location ≡ o
    → lives_in r u ≡ false
    → cell_value (write_array h r xs) u ≡ cell_value h u
unfolding cell_value write_array lives_in
cell_value-write_array r h xs u none e a = rw (cell_value, e) refl
cell_value-write_array r h xs u (some (q, s)) e a =
    let n : (q == r) ≡ false = rw (lives_in, e) at a in
    rw (cell_value, e, get_elem?-set_ne h.arrays r q xs (λ p. ground (arith, n, p))) refl

get_upvalue-write_array :
    (r i : ℕ) (h : Heap) (xs : List Value)
    → Apart r i h
    → get_upvalue (write_array h r xs) (some i) ≡ get_upvalue h (some i)
unfolding get_upvalue write_array
get_upvalue-write_array r i h xs (u, e, a) =
    rw (get_upvalue, e) (cell_value-write_array r h xs u _ refl a)

-- A captured variable outlives its frame: when the upvalues of a frame with at least one local are
-- closed, each upvalue that was open and has its cell in the heap reads as before, whatever the
-- frame's locals are overwritten with.
pub close_upvalues_outlives :
    (r i : ℕ) (vm : Vm) (u : UpvalueCell) (xs : List Value)
    → 0 < length (array_at vm.heap r)
    → Memᴰ i vm.open_upvalues
    → get_elem? vm.heap.cells i ≡ some u
    → get_upvalue (write_array (close_upvalues r vm).heap r xs) (some i)
      ≡ get_upvalue vm.heap (some i)
unfolding close_upvalues
close_upvalues_outlives r i vm u xs h m e =
    let b : (length (array_at vm.heap r) == 0) ≡ false = ground (arith, h) in
    rw (close_upvalues, b)
      (get_upvalue-write_array r i _ xs (close_loop-Apart r i vm.open_upvalues vm.heap u m e)
        ∙ (close_loop-Reads r vm.open_upvalues vm.heap).1 (some i))
