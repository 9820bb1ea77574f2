-- ===== src/Vm/Duplicate/Rewriting.antt =====
-- internal/vm/duplicate.go: writes to clones that are open, among the clones that are there.
use go_flux.Base.{ℕ, ◌≡◌, some, List, set}
use go_flux.Vm.State.{Value, Object, Iterator, UpvalueCell, Heap}
use go_flux.Vm.Duplicate.{clone_of, CloneState, with_heap}
use go_flux.Vm.Duplicate.Copied.{Copied-set}
use go_flux.Vm.Duplicate.Copies.{Unfinished, IsCopying}
use go_flux.Vm.Duplicate.Copying.{
  arrays_more, objects_more, iterators_more, upvalues_more, More-heap,
}

module _ (h : Heap) (g : Unfinished) (st : CloneState) (c : IsCopying h g st) where
  -- A write to a clone that is open
  pub IsCopying-set_array :
      (r out : ℕ) (x : List Value)
      → g.array_open r
      → clone_of r st.arrays ≡ some out
      → IsCopying h g (with_heap st (record st.heap { arrays = set st.heap.arrays out x }))
  IsCopying-set_array r out x o e =
      let f = More-heap h g st c (record st.heap { arrays = set st.heap.arrays out x }) in
      record {
        arrays =
            Copied-set g.array_open _ st.arrays st.heap.arrays
              (arrays_more h f g.array_open st.arrays st.heap.arrays c.arrays) r out x o e;
        objects = objects_more h f g.object_open st.objects st.heap.objects c.objects;
        iterators = iterators_more h f g.iterator_open st.iterators st.heap.iterators c.iterators;
        upvalues = upvalues_more h f g.upvalue_open st.upvalues st.heap.cells c.upvalues;
      }

  pub IsCopying-set_object :
      (r out : ℕ) (x : Object)
      → g.object_open r
      → clone_of r st.objects ≡ some out
      → IsCopying h g (with_heap st (record st.heap { objects = set st.heap.objects out x }))
  IsCopying-set_object r out x o e =
      let f = More-heap h g st c (record st.heap { objects = set st.heap.objects out x }) in
      record {
        arrays = arrays_more h f g.array_open st.arrays st.heap.arrays c.arrays;
        objects =
            Copied-set g.object_open _ st.objects st.heap.objects
              (objects_more h f g.object_open st.objects st.heap.objects c.objects) r out x o e;
        iterators = iterators_more h f g.iterator_open st.iterators st.heap.iterators c.iterators;
        upvalues = upvalues_more h f g.upvalue_open st.upvalues st.heap.cells c.upvalues;
      }

  pub IsCopying-set_iterator :
      (r out : ℕ) (x : Iterator)
      → g.iterator_open r
      → clone_of r st.iterators ≡ some out
      → IsCopying h g (with_heap st (record st.heap { iterators = set st.heap.iterators out x }))
  IsCopying-set_iterator r out x o e =
      let f = More-heap h g st c (record st.heap { iterators = set st.heap.iterators out x }) in
      record {
        arrays = arrays_more h f g.array_open st.arrays st.heap.arrays c.arrays;
        objects = objects_more h f g.object_open st.objects st.heap.objects c.objects;
        iterators =
            Copied-set g.iterator_open _ st.iterators st.heap.iterators
              (iterators_more h f g.iterator_open st.iterators st.heap.iterators c.iterators) r out
              x o e;
        upvalues = upvalues_more h f g.upvalue_open st.upvalues st.heap.cells c.upvalues;
      }

  pub IsCopying-set_upvalue :
      (r out : ℕ) (x : UpvalueCell)
      → g.upvalue_open r
      → clone_of r st.upvalues ≡ some out
      → IsCopying h g (with_heap st (record st.heap { cells = set st.heap.cells out x }))
  IsCopying-set_upvalue r out x o e =
      let f = More-heap h g st c (record st.heap { cells = set st.heap.cells out x }) in
      record {
        arrays = arrays_more h f g.array_open st.arrays st.heap.arrays c.arrays;
        objects = objects_more h f g.object_open st.objects st.heap.objects c.objects;
        iterators = iterators_more h f g.iterator_open st.iterators st.heap.iterators c.iterators;
        upvalues =
            Copied-set g.upvalue_open _ st.upvalues st.heap.cells
              (upvalues_more h f g.upvalue_open st.upvalues st.heap.cells c.upvalues) r out x o e;
      }
