-- ===== src/Vm/Duplicate/Writes.antt =====
-- internal/vm/duplicate.go: writes to the cells of clones, and new ones.
use go_flux.Base.{ℕ, ◌≤◌, some, List, ◌∷◌, Bytes, length, set, insert}
use go_flux.Vm.State.{
  Value, Object, Iterator, UpvalueCell, Heap, array_at, fields, write_array, write_object,
  new_array, new_object, new_iterator,
}
use go_flux.Vm.Upvalues.{write_cell, new_cell}
use go_flux.Vm.Duplicate.{CloneState, with_heap}
use go_flux.Vm.Duplicate.Invariant.{
  ValueIn, ValuesIn, FieldsIn, IteratorIn, CellIn, beyond, Grown-append, Grown-set, IsCloning,
  ClonesFrom-cons,
}
use go_flux.Vm.Duplicate.Cells.{ValuesIn-set, FieldsIn-insert, new_values, new_fields}

module _ (h : Heap) (st : CloneState) (c : IsCloning h st) where
  -- Writes to a clone
  pub IsCloning-element :
      (out i : ℕ) (w : Value)
      → length h.arrays ≤ out
      → ValueIn (beyond h) w
      → IsCloning h (with_heap st (write_array st.heap out (set (array_at st.heap out) i w)))
  unfolding write_array
  IsCloning-element out i w ge p = record {
    arrays =
        Grown-set h.arrays st.heap.arrays out _ ge
          (ValuesIn-set (beyond h) (array_at st.heap out) i w p (new_values h st c out ge))
          c.arrays;
    objects = c.objects;
    iterators = c.iterators;
    cells = c.cells;
    array_clones = c.array_clones;
    object_clones = c.object_clones;
    iterator_clones = c.iterator_clones;
    upvalue_clones = c.upvalue_clones;
  }

  pub IsCloning-field :
      (out : ℕ) (k : Bytes) (w : Value)
      → length h.objects ≤ out
      → ValueIn (beyond h) w
      → IsCloning h
          (with_heap st (write_object st.heap out (insert k w (fields st.heap (some out)))))
  unfolding write_object
  IsCloning-field out k w ge p = record {
    objects =
        Grown-set h.objects st.heap.objects out _ ge
          (FieldsIn-insert (beyond h) k w (fields st.heap (some out)) p (new_fields h st c out ge))
          c.objects;
    arrays = c.arrays;
    iterators = c.iterators;
    cells = c.cells;
    array_clones = c.array_clones;
    object_clones = c.object_clones;
    iterator_clones = c.iterator_clones;
    upvalue_clones = c.upvalue_clones;
  }

  pub IsCloning-cell :
      (out : ℕ) (u : UpvalueCell)
      → length h.cells ≤ out
      → CellIn (beyond h) u
      → IsCloning h (with_heap st (write_cell st.heap out u))
  unfolding write_cell
  IsCloning-cell out u ge p = record {
    cells = Grown-set h.cells st.heap.cells out u ge p c.cells;
    arrays = c.arrays;
    objects = c.objects;
    iterators = c.iterators;
    array_clones = c.array_clones;
    object_clones = c.object_clones;
    iterator_clones = c.iterator_clones;
    upvalue_clones = c.upvalue_clones;
  }

  pub IsCloning-iterator :
      (out : ℕ) (it : Iterator)
      → length h.iterators ≤ out
      → IteratorIn (beyond h) it
      → IsCloning h (with_heap st (record st.heap { iterators = set st.heap.iterators out it }))
  IsCloning-iterator out it ge p = record {
    iterators = Grown-set h.iterators st.heap.iterators out it ge p c.iterators;
    arrays = c.arrays;
    objects = c.objects;
    cells = c.cells;
    array_clones = c.array_clones;
    object_clones = c.object_clones;
    iterator_clones = c.iterator_clones;
    upvalue_clones = c.upvalue_clones;
  }

  -- New cells, which are clones
  pub IsCloning-new_array :
      (r : ℕ) (xs : List Value)
      → ValuesIn (beyond h) xs
      → IsCloning h (record st {
        heap = (new_array xs st.heap).1;
        arrays = (r, length st.heap.arrays) ∷ st.arrays;
      })
  unfolding new_array
  IsCloning-new_array r xs p = record {
    arrays = Grown-append h.arrays st.heap.arrays xs p c.arrays;
    array_clones = ClonesFrom-cons _ r _ st.arrays c.arrays.longer c.array_clones;
    objects = c.objects;
    iterators = c.iterators;
    cells = c.cells;
    object_clones = c.object_clones;
    iterator_clones = c.iterator_clones;
    upvalue_clones = c.upvalue_clones;
  }

  pub IsCloning-new_object :
      (r : ℕ) (m : Object)
      → FieldsIn (beyond h) m
      → IsCloning h (record st {
        heap = (new_object m st.heap).1;
        objects = (r, length st.heap.objects) ∷ st.objects;
      })
  unfolding new_object
  IsCloning-new_object r m p = record {
    objects = Grown-append h.objects st.heap.objects m p c.objects;
    object_clones = ClonesFrom-cons _ r _ st.objects c.objects.longer c.object_clones;
    arrays = c.arrays;
    iterators = c.iterators;
    cells = c.cells;
    array_clones = c.array_clones;
    iterator_clones = c.iterator_clones;
    upvalue_clones = c.upvalue_clones;
  }

  pub IsCloning-new_cell :
      (i : ℕ) (u : UpvalueCell)
      → CellIn (beyond h) u
      → IsCloning h (record st {
        heap = (new_cell u st.heap).1;
        upvalues = (i, length st.heap.cells) ∷ st.upvalues;
      })
  unfolding new_cell
  IsCloning-new_cell i u p = record {
    cells = Grown-append h.cells st.heap.cells u p c.cells;
    upvalue_clones = ClonesFrom-cons _ i _ st.upvalues c.cells.longer c.upvalue_clones;
    arrays = c.arrays;
    objects = c.objects;
    iterators = c.iterators;
    array_clones = c.array_clones;
    object_clones = c.object_clones;
    iterator_clones = c.iterator_clones;
  }

  pub IsCloning-new_iterator :
      (i : ℕ) (it : Iterator)
      → IteratorIn (beyond h) it
      → IsCloning h (record st {
        heap = (new_iterator it st.heap).1;
        iterators = (i, length st.heap.iterators) ∷ st.iterators;
      })
  unfolding new_iterator
  IsCloning-new_iterator i it p = record {
    iterators = Grown-append h.iterators st.heap.iterators it p c.iterators;
    iterator_clones = ClonesFrom-cons _ i _ st.iterators c.iterators.longer c.iterator_clones;
    arrays = c.arrays;
    objects = c.objects;
    cells = c.cells;
    array_clones = c.array_clones;
    object_clones = c.object_clones;
    upvalue_clones = c.upvalue_clones;
  }
