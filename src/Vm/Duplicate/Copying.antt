-- ===== src/Vm/Duplicate/Copying.antt =====
-- internal/vm/duplicate.go: new clones among the clones that are there.
use go_flux.Base.{ℕ, ◌≡◌, none, List, ◌∷◌, length}
use go_flux.Vm.State.{
  Value, Object, Iterator, UpvalueCell, Heap, new_array, new_object, new_iterator,
}
use go_flux.Vm.Upvalues.{new_cell}
use go_flux.Vm.Duplicate.{Memo, clone_of, CloneState, with_heap}
use go_flux.Vm.Duplicate.Copied.{
  MoreClones-cons, Keeps-append, Copied, OrIs, Copied-weaken, Copied-append,
}
use go_flux.Vm.Duplicate.Copies.{
  Copy-more, ValuesCopy-more, FieldsCopy-more, IteratorCopy-more, More, Held, Unfinished, ArrayDone,
  ObjectDone, IteratorDone, UpvalueDone, IsCopying,
}

abbrev pub open_array : Unfinished → ℕ → Unfinished
open_array g r = record g { array_open = OrIs g.array_open r }

abbrev pub open_object : Unfinished → ℕ → Unfinished
open_object g r = record g { object_open = OrIs g.object_open r }

abbrev pub open_iterator : Unfinished → ℕ → Unfinished
open_iterator g i = record g { iterator_open = OrIs g.iterator_open i }

abbrev pub open_upvalue : Unfinished → ℕ → Unfinished
open_upvalue g i = record g { upvalue_open = OrIs g.upvalue_open i }

module _ (h : Heap) {st st' : CloneState} (f : More st st') (Open : ℕ → Type 0) (m : Memo) where
  pub arrays_more :
      (xs : List (List Value))
      → Copied Open (ArrayDone h st) m xs
      → Copied Open (ArrayDone h st') m xs
  arrays_more xs c =
      Copied-weaken Open (ArrayDone h st) m xs c (ArrayDone h st')
        λ r ws d. ValuesCopy-more f _ ws d

  pub objects_more :
      (xs : List Object) → Copied Open (ObjectDone h st) m xs → Copied Open (ObjectDone h st') m xs
  objects_more xs c =
      Copied-weaken Open (ObjectDone h st) m xs c (ObjectDone h st')
        λ r n d. FieldsCopy-more f _ n d

  pub iterators_more :
      (xs : List Iterator)
      → Copied Open (IteratorDone h st) m xs
      → Copied Open (IteratorDone h st') m xs
  iterators_more xs c =
      Copied-weaken Open (IteratorDone h st) m xs c (IteratorDone h st')
        λ i copy d. (d.0, d.1, IteratorCopy-more f d.0 copy d.2)

  pub upvalues_more :
      (xs : List UpvalueCell)
      → Copied Open (UpvalueDone h st) m xs
      → Copied Open (UpvalueDone h st') m xs
  upvalues_more xs c =
      Copied-weaken Open (UpvalueDone h st) m xs c (UpvalueDone h st')
        λ i u d. (d.0, Copy-more f _ u.closed d.1)

module _ (h : Heap) (g : Unfinished) (st : CloneState) (c : IsCopying h g st) where
  pub More-heap : (k : Heap) → More st (with_heap st k)
  More-heap k = record {
    arrays = λ q d p. p;
    objects = λ q d p. p;
    iterators = λ q d p. p;
    upvalues = λ q d p. p;
  }

  -- A new clone
  abbrev pub with_array : ℕ → List Value → CloneState
  with_array r x = record st {
    heap = (new_array x st.heap).1;
    arrays = (r, length st.heap.arrays) ∷ st.arrays;
  }

  pub More-with_array :
      (r : ℕ) (x : List Value) → clone_of r st.arrays ≡ none → More st (with_array r x)
  More-with_array r x e = record {
    arrays = MoreClones-cons r (length st.heap.arrays) st.arrays e;
    objects = λ q d p. p;
    iterators = λ q d p. p;
    upvalues = λ q d p. p;
  }

  pub Held-with_array : (r : ℕ) (x : List Value) → Held st.heap (with_array r x).heap
  unfolding new_array
  Held-with_array r x = record {
    arrays = Keeps-append st.heap.arrays x;
    objects = λ q y p. p;
    iterators = λ q y p. p;
    cells = λ q y p. p;
  }

  pub IsCopying-with_array :
      (r : ℕ) (x : List Value)
      → clone_of r st.arrays ≡ none
      → IsCopying h (open_array g r) (with_array r x)
  unfolding new_array
  IsCopying-with_array r x e =
      let f = More-with_array r x e in
      record {
        arrays =
            Copied-append g.array_open _ st.arrays st.heap.arrays
              (arrays_more h f g.array_open st.arrays st.heap.arrays c.arrays) r x;
        objects = objects_more h f g.object_open st.objects st.heap.objects c.objects;
        iterators = iterators_more h f g.iterator_open st.iterators st.heap.iterators c.iterators;
        upvalues = upvalues_more h f g.upvalue_open st.upvalues st.heap.cells c.upvalues;
      }

  abbrev pub with_object : ℕ → Object → CloneState
  with_object r x = record st {
    heap = (new_object x st.heap).1;
    objects = (r, length st.heap.objects) ∷ st.objects;
  }

  pub More-with_object :
      (r : ℕ) (x : Object) → clone_of r st.objects ≡ none → More st (with_object r x)
  More-with_object r x e = record {
    arrays = λ q d p. p;
    objects = MoreClones-cons r (length st.heap.objects) st.objects e;
    iterators = λ q d p. p;
    upvalues = λ q d p. p;
  }

  pub Held-with_object : (r : ℕ) (x : Object) → Held st.heap (with_object r x).heap
  unfolding new_object
  Held-with_object r x = record {
    arrays = λ q y p. p;
    objects = Keeps-append st.heap.objects x;
    iterators = λ q y p. p;
    cells = λ q y p. p;
  }

  pub IsCopying-with_object :
      (r : ℕ) (x : Object)
      → clone_of r st.objects ≡ none
      → IsCopying h (open_object g r) (with_object r x)
  unfolding new_object
  IsCopying-with_object r x e =
      let f = More-with_object r x e in
      record {
        arrays = arrays_more h f g.array_open st.arrays st.heap.arrays c.arrays;
        objects =
            Copied-append g.object_open _ st.objects st.heap.objects
              (objects_more h f g.object_open st.objects st.heap.objects c.objects) r x;
        iterators = iterators_more h f g.iterator_open st.iterators st.heap.iterators c.iterators;
        upvalues = upvalues_more h f g.upvalue_open st.upvalues st.heap.cells c.upvalues;
      }

  abbrev pub with_iterator : ℕ → Iterator → CloneState
  with_iterator r x = record st {
    heap = (new_iterator x st.heap).1;
    iterators = (r, length st.heap.iterators) ∷ st.iterators;
  }

  pub More-with_iterator :
      (r : ℕ) (x : Iterator) → clone_of r st.iterators ≡ none → More st (with_iterator r x)
  More-with_iterator r x e = record {
    arrays = λ q d p. p;
    objects = λ q d p. p;
    iterators = MoreClones-cons r (length st.heap.iterators) st.iterators e;
    upvalues = λ q d p. p;
  }

  pub Held-with_iterator : (r : ℕ) (x : Iterator) → Held st.heap (with_iterator r x).heap
  unfolding new_iterator
  Held-with_iterator r x = record {
    arrays = λ q y p. p;
    objects = λ q y p. p;
    iterators = Keeps-append st.heap.iterators x;
    cells = λ q y p. p;
  }

  pub IsCopying-with_iterator :
      (r : ℕ) (x : Iterator)
      → clone_of r st.iterators ≡ none
      → IsCopying h (open_iterator g r) (with_iterator r x)
  unfolding new_iterator
  IsCopying-with_iterator r x e =
      let f = More-with_iterator r x e in
      record {
        arrays = arrays_more h f g.array_open st.arrays st.heap.arrays c.arrays;
        objects = objects_more h f g.object_open st.objects st.heap.objects c.objects;
        iterators =
            Copied-append g.iterator_open _ st.iterators st.heap.iterators
              (iterators_more h f g.iterator_open st.iterators st.heap.iterators c.iterators) r x;
        upvalues = upvalues_more h f g.upvalue_open st.upvalues st.heap.cells c.upvalues;
      }

  abbrev pub with_upvalue : ℕ → UpvalueCell → CloneState
  with_upvalue r x = record st {
    heap = (new_cell x st.heap).1;
    upvalues = (r, length st.heap.cells) ∷ st.upvalues;
  }

  pub More-with_upvalue :
      (r : ℕ) (x : UpvalueCell) → clone_of r st.upvalues ≡ none → More st (with_upvalue r x)
  More-with_upvalue r x e = record {
    arrays = λ q d p. p;
    objects = λ q d p. p;
    iterators = λ q d p. p;
    upvalues = MoreClones-cons r (length st.heap.cells) st.upvalues e;
  }

  pub Held-with_upvalue : (r : ℕ) (x : UpvalueCell) → Held st.heap (with_upvalue r x).heap
  unfolding new_cell
  Held-with_upvalue r x = record {
    arrays = λ q y p. p;
    objects = λ q y p. p;
    iterators = λ q y p. p;
    cells = Keeps-append st.heap.cells x;
  }

  pub IsCopying-with_upvalue :
      (r : ℕ) (x : UpvalueCell)
      → clone_of r st.upvalues ≡ none
      → IsCopying h (open_upvalue g r) (with_upvalue r x)
  unfolding new_cell
  IsCopying-with_upvalue r x e =
      let f = More-with_upvalue r x e in
      record {
        arrays = arrays_more h f g.array_open st.arrays st.heap.arrays c.arrays;
        objects = objects_more h f g.object_open st.objects st.heap.objects c.objects;
        iterators = iterators_more h f g.iterator_open st.iterators st.heap.iterators c.iterators;
        upvalues =
            Copied-append g.upvalue_open _ st.upvalues st.heap.cells
              (upvalues_more h f g.upvalue_open st.upvalues st.heap.cells c.upvalues) r x;
      }
