-- ===== src/Vm/Duplicate/Copies.antt =====
-- internal/vm/duplicate.go: when a value is a copy of another, by the maps of clones, and what holds of
-- the clones that are there.
use go_flux.Base.{ℕ, ◌≡◌, Option, none, some, List, [], ◌∷◌, get_elem?}
use go_flux.Vm.State.{
  Value, array, object, function, iterator, Object, Iterator, UpvalueCell, Heap, array_at, fields,
}
use go_flux.Vm.Upvalues.{get_upvalue}
use go_flux.Vm.Duplicate.{Memo, clone_of, CloneState, cloned_keys}
use go_flux.Vm.Duplicate.Copied.{MoreClones, Keeps, Copied}

abbrev pub RefCopy : Memo → Option ℕ → Option ℕ → Type 0
RefCopy m none none = Unit
RefCopy m (some r) (some c) = clone_of r m ≡ some c
RefCopy m _ _ = ⊥

abbrev pub UpvaluesCopy : Memo → List (Option ℕ) → List (Option ℕ) → Type 0
UpvaluesCopy m [] [] = Unit
UpvaluesCopy m (u ∷ us) (w ∷ ws) = RefCopy m u w × UpvaluesCopy m us ws
UpvaluesCopy m _ _ = ⊥

-- A copy refers to the clones of what the value refers to, and is the same otherwise.
abbrev pub Copy : CloneState → Value → Value → Type 0
Copy st (array r ro) (array c so) = RefCopy st.arrays r c × (so ≡ ro)
Copy st (object r ro) (object c so) = RefCopy st.objects r c × (so ≡ ro)
Copy st (iterator i) (iterator c) = RefCopy st.iterators i c
Copy st (function (some f)) (function (some g)) =
    UpvaluesCopy st.upvalues f.upvalues g.upvalues × (g ≡ record f { upvalues = g.upvalues })
Copy st v w = w ≡ v

abbrev pub ValuesCopy : CloneState → List Value → List Value → Type 0
ValuesCopy st [] [] = Unit
ValuesCopy st (v ∷ vs) (w ∷ ws) = Copy st v w × ValuesCopy st vs ws
ValuesCopy st _ _ = ⊥

abbrev pub FieldsCopy : CloneState → Object → Object → Type 0
FieldsCopy st [] [] = Unit
FieldsCopy st ((k, v) ∷ m) ((j, w) ∷ n) = (j ≡ k) × Copy st v w × FieldsCopy st m n
FieldsCopy st _ _ = ⊥

pub record IteratorCopy (st : CloneState) (it copy : Iterator) : Type 0 where
  pub arr : RefCopy st.arrays it.arr copy.arr
  pub obj : RefCopy st.objects it.obj copy.obj
  pub keys : copy.keys ≡ cloned_keys it
  pub index : copy.index ≡ it.index

-- The maps of clones have more entries.
pub record More (st st' : CloneState) : Type 0 where
  pub arrays : MoreClones st.arrays st'.arrays
  pub objects : MoreClones st.objects st'.objects
  pub iterators : MoreClones st.iterators st'.iterators
  pub upvalues : MoreClones st.upvalues st'.upvalues

pub More-self : (st : CloneState) → More st st
More-self st = record {
  arrays = λ r c e. e;
  objects = λ r c e. e;
  iterators = λ r c e. e;
  upvalues = λ r c e. e;
}

pub More-trans : {a b c : CloneState} → More a b → More b c → More a c
More-trans p q = record {
  arrays = λ r c e. q.arrays r c (p.arrays r c e);
  objects = λ r c e. q.objects r c (p.objects r c e);
  iterators = λ r c e. q.iterators r c (p.iterators r c e);
  upvalues = λ r c e. q.upvalues r c (p.upvalues r c e);
}

pub RefCopy-more :
    (m n : Memo) (f : MoreClones m n) (r c : Option ℕ) → RefCopy m r c → RefCopy n r c
RefCopy-more m n f none none p = p
RefCopy-more m n f (some r) (some c) p = f r c p
RefCopy-more m n f none (some c) p = p
RefCopy-more m n f (some r) none p = p

pub UpvaluesCopy-more :
    (m n : Memo) (f : MoreClones m n) (us ws : List (Option ℕ))
    → UpvaluesCopy m us ws
    → UpvaluesCopy n us ws
UpvaluesCopy-more m n f [] [] p = p
UpvaluesCopy-more m n f (u ∷ us) (w ∷ ws) p =
    (RefCopy-more m n f u w p.0, UpvaluesCopy-more m n f us ws p.1)
UpvaluesCopy-more m n f [] (w ∷ ws) p = p
UpvaluesCopy-more m n f (u ∷ us) [] p = p

module _ {st st' : CloneState} (f : More st st') where
  pub Copy-more : (v w : Value) → Copy st v w → Copy st' v w
  Copy-more (array r ro) (array c so) p = (RefCopy-more _ _ f.arrays r c p.0, p.1)
  Copy-more (object r ro) (object c so) p = (RefCopy-more _ _ f.objects r c p.0, p.1)
  Copy-more (iterator i) (iterator c) p = RefCopy-more _ _ f.iterators i c p
  Copy-more (function (some fn)) (function (some g)) p =
      (UpvaluesCopy-more _ _ f.upvalues fn.upvalues g.upvalues p.0, p.1)
  Copy-more _ _ p = p

  pub ValuesCopy-more : (vs ws : List Value) → ValuesCopy st vs ws → ValuesCopy st' vs ws
  ValuesCopy-more [] [] p = p
  ValuesCopy-more (v ∷ vs) (w ∷ ws) p = (Copy-more v w p.0, ValuesCopy-more vs ws p.1)
  ValuesCopy-more [] (w ∷ ws) p = p
  ValuesCopy-more (v ∷ vs) [] p = p

  pub FieldsCopy-more : (m n : Object) → FieldsCopy st m n → FieldsCopy st' m n
  FieldsCopy-more [] [] p = p
  FieldsCopy-more ((k, v) ∷ m) ((j, w) ∷ n) p = (p.0, Copy-more v w p.1, FieldsCopy-more m n p.2)
  FieldsCopy-more [] ((j, w) ∷ n) p = p
  FieldsCopy-more ((k, v) ∷ m) [] p = p

  pub IteratorCopy-more : (it copy : Iterator) → IteratorCopy st it copy → IteratorCopy st' it copy
  IteratorCopy-more it copy p = record {
    arr = RefCopy-more _ _ f.arrays it.arr copy.arr p.arr;
    obj = RefCopy-more _ _ f.objects it.obj copy.obj p.obj;
    keys = p.keys;
    index = p.index;
  }

-- A heap that has what another has
pub record Held (h g : Heap) : Type 0 where
  pub arrays : Keeps h.arrays g.arrays
  pub objects : Keeps h.objects g.objects
  pub iterators : Keeps h.iterators g.iterators
  pub cells : Keeps h.cells g.cells

pub Held-self : (h : Heap) → Held h h
Held-self h = record {
  arrays = λ r x e. e;
  objects = λ r x e. e;
  iterators = λ r x e. e;
  cells = λ r x e. e;
}

pub Held-trans : {a b c : Heap} → Held a b → Held b c → Held a c
Held-trans p q = record {
  arrays = λ r x e. q.arrays r x (p.arrays r x e);
  objects = λ r x e. q.objects r x (p.objects r x e);
  iterators = λ r x e. q.iterators r x (p.iterators r x e);
  cells = λ r x e. q.cells r x (p.cells r x e);
}

-- The cells whose clones are being made
pub record Unfinished : Type 1 where
  pub array_open : ℕ → Type 0
  pub object_open : ℕ → Type 0
  pub iterator_open : ℕ → Type 0
  pub upvalue_open : ℕ → Type 0

-- What a clone holds is a copy of what the heap `h` has in the cell that is cloned.
abbrev pub ArrayDone : Heap → CloneState → ℕ → List Value → Type 0
ArrayDone h st r xs = ValuesCopy st (array_at h r) xs

abbrev pub ObjectDone : Heap → CloneState → ℕ → Object → Type 0
ObjectDone h st r m = FieldsCopy st (fields h (some r)) m

abbrev pub IteratorDone : Heap → CloneState → ℕ → Iterator → Type 0
IteratorDone h st i copy =
    (it : Iterator) × (get_elem? h.iterators i ≡ some it) × IteratorCopy st it copy

abbrev pub UpvalueDone : Heap → CloneState → ℕ → UpvalueCell → Type 0
UpvalueDone h st i u = (u.location ≡ none) × Copy st (get_upvalue h (some i)) u.closed

pub record IsCopying (h : Heap) (g : Unfinished) (st : CloneState) : Type 0 where
  pub arrays : Copied g.array_open (ArrayDone h st) st.arrays st.heap.arrays
  pub objects : Copied g.object_open (ObjectDone h st) st.objects st.heap.objects
  pub iterators : Copied g.iterator_open (IteratorDone h st) st.iterators st.heap.iterators
  pub upvalues : Copied g.upvalue_open (UpvalueDone h st) st.upvalues st.heap.cells
