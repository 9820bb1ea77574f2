-- ===== src/Vm/Duplicate/Invariant.antt =====
-- internal/vm/duplicate.go: regions of the heap, and what holds while a machine is cloned.
use go_flux.Base.{
  Each-append, Each-set, ℕ, zero, suc, ◌+◌, ◌≤◌, ◌<◌, ◌≡◌, refl, Option, none, some, List, [], ◌∷◌,
  ◌++◌, length, length-append, length-set, get_elem?, set, get_elem?-set_ne, get_elem?-append_left,
  get_elem?-eq-some, eq_or_ne, inl, inr, arith,
}
use go_flux.Vm.State.{Value, array, object, function, iterator, Object, Iterator, UpvalueCell, Heap}
use go_flux.Vm.Duplicate.{Memo, clone_of, CloneState}

-- A part of the heap: some of its arrays, objects, iterators and upvalues.
pub record Region : Type 1 where
  pub array_in : ℕ → Type 0
  pub object_in : ℕ → Type 0
  pub iterator_in : ℕ → Type 0
  pub cell_in : ℕ → Type 0

abbrev pub In : (ℕ → Type 0) → Option ℕ → Type 0
In P none = Unit
In P (some r) = P r

abbrev pub UpvaluesIn : (ℕ → Type 0) → List (Option ℕ) → Type 0
UpvaluesIn P [] = Unit
UpvaluesIn P (u ∷ us) = In P u × UpvaluesIn P us

-- What a value, or a list of values, refers to is in the region.
abbrev pub ValueIn : Region → Value → Type 0
ValueIn g (array r ro) = In g.array_in r
ValueIn g (object r ro) = In g.object_in r
ValueIn g (iterator i) = In g.iterator_in i
ValueIn g (function (some fn)) = UpvaluesIn g.cell_in fn.upvalues
ValueIn g _ = Unit

abbrev pub ValuesIn : Region → List Value → Type 0
ValuesIn g [] = Unit
ValuesIn g (v ∷ vs) = ValueIn g v × ValuesIn g vs

abbrev pub FieldsIn : Region → Object → Type 0
FieldsIn g [] = Unit
FieldsIn g ((k, v) ∷ m) = ValueIn g v × FieldsIn g m

abbrev pub IteratorIn : Region → Iterator → Type 0
IteratorIn g it = In g.array_in it.arr × In g.object_in it.obj

-- An upvalue that is live in a frame refers to the frame's locals.
abbrev pub PlaceIn : Region → Value → Option (ℕ × ℕ) → Type 0
PlaceIn g v none = ValueIn g v
PlaceIn g v (some (r, s)) = g.array_in r

abbrev pub CellIn : Region → UpvalueCell → Type 0
CellIn g u = PlaceIn g u.closed u.location

-- A region that nothing in it leads out of.
pub record IsClosed (g : Region) (h : Heap) : Type 0 where
  pub arrays :
      (r : ℕ) (xs : List Value) → g.array_in r → get_elem? h.arrays r ≡ some xs → ValuesIn g xs
  pub objects : (r : ℕ) (m : Object) → g.object_in r → get_elem? h.objects r ≡ some m → FieldsIn g m
  pub iterators :
      (i : ℕ) (it : Iterator)
      → g.iterator_in i
      → get_elem? h.iterators i ≡ some it
      → IteratorIn g it
  pub cells : (i : ℕ) (u : UpvalueCell) → g.cell_in i → get_elem? h.cells i ≡ some u → CellIn g u

-- The cells that a heap has, and those that it does not have yet.
abbrev pub there : Heap → Region
there h = record {
  array_in = λ r. r < length h.arrays;
  object_in = λ r. r < length h.objects;
  iterator_in = λ i. i < length h.iterators;
  cell_in = λ i. i < length h.cells;
}

abbrev pub beyond : Heap → Region
beyond h = record {
  array_in = λ r. length h.arrays ≤ r;
  object_in = λ r. length h.objects ≤ r;
  iterator_in = λ i. length h.iterators ≤ i;
  cell_in = λ i. length h.cells ≤ i;
}

-- Elements at the end of a list that has not changed otherwise; `P` holds of each.
pub record Grown {A : Type 0} (P : A → Type 0) (before after : List A) : Type 0 where
  pub same : (i : ℕ) → i < length before → get_elem? after i ≡ get_elem? before i
  pub added : (i : ℕ) (x : A) → length before ≤ i → get_elem? after i ≡ some x → P x
  pub longer : length before ≤ length after

module _ {A : Type 0} {P : A → Type 0} where
  pub Grown-self : (xs : List A) → Grown P xs xs
  Grown-self xs = record {
    same = λ i h. refl;
    added = λ i x ge e. absurd (omega (arith, get_elem?-eq-some xs i e));
    longer = omega arith;
  }

  pub Grown-append : (xs ys : List A) (x : A) → P x → Grown P xs ys → Grown P xs (ys ++ x ∷ [])
  Grown-append xs ys x p h = record {
    same = λ i lt. rw (get_elem?-append_left ys (x ∷ []) i (omega (arith, h.longer))) (h.same i lt);
    added = λ i y ge e.
        Each-append (λ k z. length xs ≤ k → P z) ys x (λ le. p) (λ k z f le. h.added k z le f) i y e
          ge;
    longer = omega (arith, h.longer, length-append ys (x ∷ []));
  }

  pub Grown-set :
      (xs ys : List A) (k : ℕ) (x : A)
      → length xs ≤ k
      → P x
      → Grown P xs ys
      → Grown P xs (set ys k x)
  Grown-set xs ys k x from p h = record {
    same = λ i lt. rw (get_elem?-set_ne ys k i x (λ e. omega arith)) (h.same i lt);
    added = λ i y ge e.
        Each-set (λ j z. length xs ≤ j → P z) ys k x (λ le. p) (λ j z f le. h.added j z le f) i y e
          ge;
    longer = omega (arith, h.longer, length-set ys k x);
  }

-- The clones of a map are cells from `n` on.
abbrev pub ClonesFrom : ℕ → Memo → Type 0
ClonesFrom n m = (r c : ℕ) → clone_of r m ≡ some c → n ≤ c

-- What holds while the heap `h` is cloned: its own cells are as they were, and the new ones, which
-- the clones are, refer to new ones only.
pub record IsCloning (h : Heap) (st : CloneState) : Type 0 where
  pub arrays : Grown (ValuesIn (beyond h)) h.arrays st.heap.arrays
  pub objects : Grown (FieldsIn (beyond h)) h.objects st.heap.objects
  pub iterators : Grown (IteratorIn (beyond h)) h.iterators st.heap.iterators
  pub cells : Grown (CellIn (beyond h)) h.cells st.heap.cells
  pub array_clones : ClonesFrom (length h.arrays) st.arrays
  pub object_clones : ClonesFrom (length h.objects) st.objects
  pub iterator_clones : ClonesFrom (length h.iterators) st.iterators
  pub upvalue_clones : ClonesFrom (length h.cells) st.upvalues

-- A cell without a clone counts one.
no_clone : Option ℕ → ℕ
no_clone none = 1
no_clone (some c) = 0

-- The cells below `n` without a clone
pub unseen : ℕ → Memo → ℕ
unfolding no_clone
unseen zero m = 0
unseen (suc n) m = no_clone (clone_of n m) + unseen n m

-- The cells of the heap that have no clone yet.
abbrev pub left : Heap → CloneState → ℕ
left h st =
    unseen (length h.arrays) st.arrays
    + unseen (length h.objects) st.objects
    + unseen (length h.iterators) st.iterators
    + unseen (length h.cells) st.upvalues

pub unseen_none : (n : ℕ) → unseen n [] ≡ n
unfolding unseen no_clone clone_of
unseen_none zero = refl
unseen_none (suc n) = omega (arith, unseen_none n)

unseen_le : (n r c : ℕ) (m : Memo) → unseen n ((r, c) ∷ m) ≤ unseen n m
unfolding unseen no_clone clone_of
unseen_le zero r c m = omega arith
unseen_le (suc n) r c m = ground (arith, unseen_le n r c m)

-- A cell that gets its clone is one less without.
pub unseen_lt :
    (n r c : ℕ) (m : Memo) → r < n → clone_of r m ≡ none → unseen n ((r, c) ∷ m) < unseen n m
unfolding unseen no_clone clone_of
unseen_lt zero r c m h e = absurd (omega arith)
unseen_lt (suc n) r c m h e = elim (eq_or_ne r n) [
  | inl same ↦ ground (arith, unseen_le n r c m, same, e)
  | inr other ↦ ground (arith, unseen_lt n r c m (omega arith) e, other)
]

pub ClonesFrom-cons : (n r c : ℕ) (m : Memo) → n ≤ c → ClonesFrom n m → ClonesFrom n ((r, c) ∷ m)
unfolding clone_of
ClonesFrom-cons n r c m from h q d e = ground (arith, h q d)
