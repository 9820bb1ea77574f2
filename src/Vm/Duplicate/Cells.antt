-- ===== src/Vm/Duplicate/Cells.antt =====
-- internal/vm/duplicate.go: what is read while a machine is cloned.
use go_flux.Base.{
  ℕ, zero, suc, ◌≤◌, ◌<◌, ◌≡◌, refl, Option, none, some, List, [], ◌∷◌, Bytes, length, get_elem?,
  set, replicate, insert, Option-cases, bytes_eq, Bool-cases, inl, inr,
}
use go_flux.Vm.State.{Value, null, Object, Iterator, UpvalueCell, Heap, array_at, fields, or_empty}
use go_flux.Vm.Upvalues.{get_upvalue, cell_value, value_or_null}
use go_flux.Vm.Duplicate.{CloneState}
use go_flux.Vm.Duplicate.Invariant.{
  Region, ValueIn, ValuesIn, FieldsIn, IteratorIn, PlaceIn, IsClosed, there, beyond, IsCloning,
}

module _ (g : Region) where
  pub ValuesIn-set :
      (xs : List Value) (i : ℕ) (v : Value) → ValueIn g v → ValuesIn g xs → ValuesIn g (set xs i v)
  ValuesIn-set [] i v p h = tt
  ValuesIn-set (x ∷ xs) zero v p h = (p, h.1)
  ValuesIn-set (x ∷ xs) (suc i) v p h = (h.0, ValuesIn-set xs i v p h.1)

  pub ValuesIn-replicate : (n : ℕ) → ValuesIn g (replicate n null)
  ValuesIn-replicate zero = tt
  ValuesIn-replicate (suc n) = (tt, ValuesIn-replicate n)

  pub FieldsIn-insert :
      (k : Bytes) (v : Value) (m : Object) → ValueIn g v → FieldsIn g m → FieldsIn g (insert k v m)
  unfolding insert
  FieldsIn-insert k v [] p h = (p, tt)
  FieldsIn-insert k v ((j, w) ∷ m) p h = elim (Bool-cases (bytes_eq j k)) [
    | inl e ↦ rw e (p, h.1)
    | inr e ↦ rw e (h.0, FieldsIn-insert k v m p h.1)
  ]

  ValuesIn-get :
      (xs : List Value) (i : ℕ) → ValuesIn g xs → ValueIn g (value_or_null (get_elem? xs i))
  ValuesIn-get [] i h = tt
  ValuesIn-get (x ∷ xs) zero h = h.0
  ValuesIn-get (x ∷ xs) (suc i) h = ValuesIn-get xs i h.1

  values_of :
      (o : Option (List Value))
      → ((xs : List Value) → o ≡ some xs → ValuesIn g xs)
      → ValuesIn g (or_empty o)
  values_of none h = tt
  values_of (some xs) h = h xs refl

  fields_of :
      (o : Option Object) → ((m : Object) → o ≡ some m → FieldsIn g m) → FieldsIn g (or_empty o)
  fields_of none h = tt
  fields_of (some m) h = h m refl

module _ (h : Heap) (st : CloneState) (c : IsCloning h st) where
  pub new_values : (r : ℕ) → length h.arrays ≤ r → ValuesIn (beyond h) (array_at st.heap r)
  new_values r ge = values_of (beyond h) _ (λ xs e. c.arrays.added r xs ge e)

  pub new_fields : (r : ℕ) → length h.objects ≤ r → FieldsIn (beyond h) (fields st.heap (some r))
  new_fields r ge = fields_of (beyond h) _ (λ m e. c.objects.added r m ge e)

  pub old_values_same : (r : ℕ) → r < length h.arrays → array_at st.heap r ≡ array_at h r
  old_values_same r lt = rw (c.arrays.same r lt) refl

  pub old_fields_same : (r : ℕ) → r < length h.objects → fields st.heap (some r) ≡ fields h (some r)
  old_fields_same r lt = rw (c.objects.same r lt) refl

  -- The cells that are cloned are as they were.
  module _ (closed : IsClosed (there h) h) where
    pub old_values : (r : ℕ) → r < length h.arrays → ValuesIn (there h) (array_at st.heap r)
    old_values r lt =
        rw (c.arrays.same r lt) (values_of (there h) _ (λ xs e. closed.arrays r xs lt e))

    pub old_fields : (r : ℕ) → r < length h.objects → FieldsIn (there h) (fields st.heap (some r))
    old_fields r lt =
        rw (c.objects.same r lt) (fields_of (there h) _ (λ m e. closed.objects r m lt e))

    pub old_iterator :
        (i : ℕ) (it : Iterator)
        → i < length h.iterators
        → get_elem? st.heap.iterators i ≡ some it
        → IteratorIn (there h) it
    old_iterator i it lt e = closed.iterators i it lt (rw (c.iterators.same i lt) at e)

    old_place :
        (u : UpvalueCell) (l : Option (ℕ × ℕ))
        → u.location ≡ l
        → PlaceIn (there h) u.closed l
        → ValueIn (there h) (cell_value st.heap u)
    unfolding cell_value
    old_place u none e p = rw (cell_value, e) p
    old_place u (some (r, s)) e p =
        rw (cell_value, e) (ValuesIn-get (there h) (array_at st.heap r) s (old_values r p))

    pub old_upvalue :
        (i : ℕ) → i < length h.cells → ValueIn (there h) (get_upvalue st.heap (some i))
    unfolding get_upvalue
    old_upvalue i lt = elim (Option-cases (get_elem? st.heap.cells i)) [
      | inl e ↦ rw (get_upvalue, e) tt
      | inr (u, e) ↦
          rw (get_upvalue, e)
            (old_place u u.location refl (closed.cells i u lt (rw (c.cells.same i lt) at e)))
    ]

    place_same :
        (u : UpvalueCell) (l : Option (ℕ × ℕ))
        → u.location ≡ l
        → PlaceIn (there h) u.closed l
        → cell_value st.heap u ≡ cell_value h u
    unfolding cell_value
    place_same u none e p = rw (cell_value, e) refl
    place_same u (some (r, s)) e p = rw (cell_value, e, old_values_same r p) refl

    pub old_upvalue_same :
        (i : ℕ) → i < length h.cells → get_upvalue st.heap (some i) ≡ get_upvalue h (some i)
    unfolding get_upvalue
    old_upvalue_same i lt = elim (Option-cases (get_elem? h.cells i)) [
      | inl e ↦ rw (get_upvalue, c.cells.same i lt, e) refl
      | inr (u, e) ↦
          rw (get_upvalue, c.cells.same i lt, e)
            (place_same u u.location refl (closed.cells i u lt e))
    ]
