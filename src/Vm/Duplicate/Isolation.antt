-- ===== src/Vm/Duplicate/Isolation.antt =====
-- internal/vm/duplicate.go: `Duplicate` ends, with a copy that is apart from what is copied.
use go_flux.Base.{
  ℕ, zero, suc, ◌-◌, ◌+◌, ◌≤◌, ◌<◌, ◌≡◌, refl, sym, get_elem?, insert, insert_absent, Option, some,
  List, [], ◌∷◌, ◌++◌, append-nil, append_assoc, length, arith,
}
use mathlib.Core.Path.{subst}
use go_flux.Vm.State.{Value, Object, Heap, Vm, fields}
use go_flux.Vm.Duplicate.{
  M, CloneState, clone_of, clone_value, clone_globals, duplicate, duplicate_of, duplicated,
  new_clone_state,
}
use go_flux.Vm.Duplicate.Invariant.{
  Region, FieldsIn, IsClosed, there, beyond, IsCloning, left, Grown-self, unseen_none,
}
use go_flux.Vm.Duplicate.Cells.{FieldsIn-insert}
use go_flux.Vm.Duplicate.Copied.{Copied}
use go_flux.Vm.Duplicate.Copies.{FieldsCopy, Copy-more, Unfinished, IsCopying}
use go_flux.Vm.Duplicate.Loops.{
  Returns, returned, bind_lem, result_lem, KeysDiffer, NewIn, NewIn-empty, NewIn-insert, After,
  Clones,
}
use go_flux.Vm.Duplicate.Parts.{stays, with_result, behind}
use go_flux.Vm.Duplicate.Kinds.{clone_by_kind_lem}

-- What copying the globals `globals` behind `copied` has written
abbrev GlobalsCopy : Heap → Object → Object → Object → CloneState → Type 0
GlobalsCopy h globals copied all st =
    FieldsIn (beyond h) all × ((zs : Object) × (all ≡ copied ++ zs) × FieldsCopy st globals zs)

module _ (h : Heap) (closed : IsClosed (there h) h)
    (keys : (r : ℕ) → KeysDiffer (fields h (some r))) where
  clone_value_lem : (k : ℕ) → Clones h k (clone_value k)
  unfolding clone_value
  clone_value_lem zero g v st n p c q l lt = absurd (omega arith)
  clone_value_lem (suc k) g v st n p c q l lt =
      clone_by_kind_lem h g closed keys k (clone_value k) (clone_value_lem k) (n - 1) n
        (omega arith) (omega arith) (λ some_left. omega arith) v st p c q l

  globals_lem :
      (k : ℕ) (clone : Value → M Value)
      → Clones h k clone
      → (n : ℕ) → n < k
      → (g : Unfinished) (globals copied : Object) (st : CloneState) → KeysDiffer globals
      → NewIn globals copied
      → FieldsIn (there h) globals
      → FieldsIn (beyond h) copied
      → IsCloning h st
      → IsCopying h g st
      → left h st ≤ n
      → Returns
          (After h g st n (GlobalsCopy h globals copied))
          (clone_globals clone globals copied st)
  unfolding clone_globals
  globals_lem k clone spec n lt g [] copied st d w p i c q l =
      stays h g copied st c q l (i, ([], sym (append-nil copied), tt))
  globals_lem k clone spec n lt g ((x, v) ∷ globals) copied st d w p i c q l =
      bind_lem _ (spec g v st n p.0 c q l lt) λ y st1 a.
        result_lem
          (globals_lem k clone spec n lt g globals (insert x y copied) st1 d.1
            (NewIn-insert x y globals copied d.0 w.1) p.1
            (FieldsIn-insert (beyond h) x y copied a.holds.0 i) a.cloning a.copying a.rest)
          λ all st2 b.
            let (zs, is_all, copies) = b.holds.1 in
            with_result h g all (behind h g a b) (
              b.holds.0,
              (
                (x, y) ∷ zs,
                rw (insert_absent x y copied w.0, append_assoc copied ((x, y) ∷ []) zs) at is_all,
                (refl, Copy-more b.more v y a.holds.1, copies),
              ),
            )

-- The cells of a heap, and a heap whose cells another one still has as they were.
abbrev pub size : Heap → ℕ
size h = length h.arrays + length h.objects + length h.iterators + length h.cells

pub record Unchanged (h g : Heap) : Type 0 where
  pub arrays : (r : ℕ) → r < length h.arrays → get_elem? g.arrays r ≡ get_elem? h.arrays r
  pub objects : (r : ℕ) → r < length h.objects → get_elem? g.objects r ≡ get_elem? h.objects r
  pub iterators :
      (i : ℕ) → i < length h.iterators → get_elem? g.iterators i ≡ get_elem? h.iterators i
  pub cells : (i : ℕ) → i < length h.cells → get_elem? g.cells i ≡ get_elem? h.cells i

new_clone_state-IsCloning : (h : Heap) → IsCloning h (new_clone_state h)
unfolding clone_of
new_clone_state-IsCloning h = record {
  arrays = Grown-self h.arrays;
  objects = Grown-self h.objects;
  iterators = Grown-self h.iterators;
  cells = Grown-self h.cells;
  array_clones = λ r c e. cc;
  object_clones = λ r c e. cc;
  iterator_clones = λ r c e. cc;
  upvalue_clones = λ r c e. cc;
}

-- Every clone is finished.
abbrev pub all_finished : Unfinished
all_finished = record {
  array_open = λ r. ⊥;
  object_open = λ r. ⊥;
  iterator_open = λ i. ⊥;
  upvalue_open = λ i. ⊥;
}

Copied-nil :
    {A : Type 0} (Open : ℕ → Type 0) (Done : ℕ → A → Type 0) (xs : List A) → Copied Open Done [] xs
unfolding clone_of
Copied-nil Open Done xs = record {
  finished = λ r c e. cc;
  bound = λ r c e. cc;
  apart = λ q r c e f. cc;
}

new_clone_state-IsCopying : (h : Heap) → IsCopying h all_finished (new_clone_state h)
new_clone_state-IsCopying h = record {
  arrays = Copied-nil _ _ h.arrays;
  objects = Copied-nil _ _ h.objects;
  iterators = Copied-nil _ _ h.iterators;
  upvalues = Copied-nil _ _ h.cells;
}

IsCloning-Unchanged : (h : Heap) (st : CloneState) → IsCloning h st → Unchanged h st.heap
IsCloning-Unchanged h st c = record {
  arrays = c.arrays.same;
  objects = c.objects.same;
  iterators = c.iterators.same;
  cells = c.cells.same;
}

IsCloning-IsClosed : (h : Heap) (st : CloneState) → IsCloning h st → IsClosed (beyond h) st.heap
IsCloning-IsClosed h st c = record {
  arrays = c.arrays.added;
  objects = c.objects.added;
  iterators = c.iterators.added;
  cells = c.cells.added;
}

-- What a machine refers to is in a region that nothing in it leads out of.
pub record LivesIn (g : Region) (vm : Vm) : Type 0 where
  pub globals : FieldsIn g vm.globals
  pub memory : IsClosed g vm.heap

-- The maps of a machine have different keys, as Go's do.
pub record HasMaps (vm : Vm) : Type 0 where
  pub globals : KeysDiffer vm.globals
  pub objects : (r : ℕ) → KeysDiffer (fields vm.heap (some r))

-- `dup` is a copy of `vm` by the maps of clones: its globals are copies of the globals, under the same
-- names, and each clone, which is one cell's only, holds a copy of what that cell holds.
pub record IsCopy (vm dup : Vm) (clones : CloneState) : Type 0 where
  pub memory : clones.heap ≡ dup.heap
  pub globals : FieldsCopy clones vm.globals dup.globals
  pub cells : IsCopying vm.heap all_finished clones

duplicated_lem :
    (vm : Vm) {o : Option (Object × CloneState)} {st0 : CloneState} {n : ℕ}
    → Returns (After vm.heap all_finished st0 n (GlobalsCopy vm.heap vm.globals [])) o
    → (dup : Vm) × (duplicated vm o ≡ some dup)
      × LivesIn (beyond vm.heap) dup
      × Unchanged vm.heap dup.heap
      × ((clones : CloneState) × IsCopy vm dup clones)
unfolding duplicate_of
duplicated_lem vm (returned all st a) =
    let (zs, is_all, copies) = a.holds.1 in
    (
      duplicate_of vm all st,
      refl,
      record { globals = a.holds.0; memory = IsCloning-IsClosed vm.heap st a.cloning },
      IsCloning-Unchanged vm.heap st a.cloning,
      (
        st,
        record {
          memory = refl;
          globals = subst (FieldsCopy st vm.globals) (sym is_all) copies;
          cells = a.copying;
        },
      ),
    )

-- With more fuel than the heap has cells, Duplicate returns a copy of the machine: its globals and
-- what they lead to are copies, sharing and cycles included, in cells that were not there, and the
-- cells that were there are as they were, if what the machine refers to is in its heap and the keys
-- of each of its maps differ, as Go's do.
pub duplicate_isolated :
    (fuel : ℕ) (vm : Vm)
    → LivesIn (there vm.heap) vm
    → HasMaps vm
    → size vm.heap < fuel
    → (dup : Vm) × (duplicate fuel vm ≡ some dup)
      × LivesIn (beyond vm.heap) dup
      × Unchanged vm.heap dup.heap
      × ((clones : CloneState) × IsCopy vm dup clones)
unfolding duplicate
duplicate_isolated fuel vm lives maps enough = duplicated_lem vm (
    globals_lem vm.heap lives.memory maps.objects fuel (clone_value fuel)
      (clone_value_lem vm.heap lives.memory maps.objects fuel) (size vm.heap) enough all_finished
      vm.globals [] (new_clone_state vm.heap) maps.globals (NewIn-empty vm.globals) lives.globals tt
      (new_clone_state-IsCloning vm.heap) (new_clone_state-IsCopying vm.heap)
      (omega (
        arith,
        unseen_none (length vm.heap.arrays),
        unseen_none (length vm.heap.objects),
        unseen_none (length vm.heap.iterators),
        unseen_none (length vm.heap.cells),
      )))
