-- ===== src/Vm/Containers.antt =====
-- internal/vm/vm.go, `indexGet`, `indexSet` and `indexExists`.
use go_flux.Base.{
  ℕ, ◌<◌, false, ◌≡◌, refl, inl, inr, Option-cases, get_elem?_lt, none, some, List, Bytes, length,
  get_elem?, set, lookup, insert, lookup-insert_self, Result, ok, err, ◌>>=◌, >>=-eq-ok,
  ok-injective, get_elem?-set_self, length-set, arith,
}
use go_flux.Base.Int.{ℤ, pos, negsuc}
use go_flux.Vm.State.{
  Object, Value, array, object, Heap, Fault, Platform, array_at, elements, fields, write_array,
  write_object,
}
use go_flux.Vm.Values.{
  bounded, found, store_element, store_field, is_ok, is_some, expect_int, expect_index,
  expect_key_string, index_get, index_set, index_exists,
}

-- The heap has the cell that the value refers to.
abbrev Allocated : Heap → Value → Type 0
Allocated h (array (some r) ro) = r < length h.arrays
Allocated h (object (some r) ro) = r < length h.objects
Allocated h _ = Unit

array_at-write_array :
    (h : Heap) (r : ℕ) (xs : List Value)
    → r < length h.arrays
    → array_at (write_array h r xs) r ≡ xs
unfolding write_array
array_at-write_array h r xs a = rw (get_elem?-set_self h.arrays r xs a) refl

fields-write_object :
    (h : Heap) (r : ℕ) (m : Object)
    → r < length h.objects
    → fields (write_object h r m) (some r) ≡ m
unfolding write_object
fields-write_object h r m a = rw (get_elem?-set_self h.objects r m a) refl

-- An element that is within the bounds is there.
is_ok-found_element :
    (f : Fault) (xs : List Value) (m : Result Fault ℕ)
    → ((k : ℕ) → m ≡ ok k → k < length xs)
    → is_ok m ≡ is_ok (m >>= (λ k. found f (get_elem? xs k)))
unfolding found
is_ok-found_element f xs (err e) h = refl
is_ok-found_element f xs (ok k) h = let (v, e) = get_elem?_lt xs k (h k refl) in rw e refl

is_ok-found_field :
    (f : Fault) (m : Object) (r : Result Fault Bytes)
    → elim r [ ok k ↦ is_some (lookup k m) | err e ↦ false ]
      ≡ is_ok (r >>= (λ k. found f (lookup k m)))
unfolding found
is_ok-found_field f m (err e) = refl
is_ok-found_field f m (ok k) = elim (Option-cases (lookup k m)) [
  | inl e ↦ rw e refl
  | inr (v, e) ↦ rw e refl
]

module _ (host : Platform) where
  bounded_lt : (n : ℕ) (i : ℤ) (k : ℕ) → bounded n i ≡ ok k → k < n
  unfolding bounded
  bounded_lt n (pos i) k e = ground arith
  bounded_lt n (negsuc i) k e = cc

  expect_index_lt : (i : Value) (n k : ℕ) → expect_index host i n ≡ ok k → k < n
  unfolding expect_index
  expect_index_lt i n k e = let (j, p, q) = >>=-eq-ok (expect_int host i) _ e in bounded_lt n j k q

  -- Where the heap has the cell that a container refers to, and `indexSet` stores a value in it,
  -- `indexGet` with the same index gives that value back.
  pub index_set-index_get :
      (h g : Heap) (c i v : Value)
      → Allocated h c
      → index_set host h c i v ≡ ok g
      → index_get host g c i ≡ ok v
  unfolding index_set index_get store_element store_field found
  index_set-index_get h g (array (some r) false) i v a e =
      let (n, p, q) = >>=-eq-ok (expect_index host i (length (array_at h r))) _ e in
      rw
        (
          index_get,
          ← ok-injective q,
          array_at-write_array h r (set (array_at h r) n v) a,
          length-set (array_at h r) n v,
          p,
          get_elem?-set_self (array_at h r) n v (expect_index_lt i _ n p),
        )
        refl
  index_set-index_get h g (array none false) i v a e =
      let (n, p, q) = >>=-eq-ok (expect_index host i 0) _ e in cc
  index_set-index_get h g (object (some r) false) i v a e =
      let (n, p, q) = >>=-eq-ok (expect_key_string host i) _ e in
      rw
        (
          index_get,
          p,
          ← ok-injective q,
          fields-write_object h r (insert n v (fields h (some r))) a,
          lookup-insert_self n v (fields h (some r)),
        )
        refl
  index_set-index_get h g (object none false) i v a e =
      let (n, p, q) = >>=-eq-ok (expect_key_string host i) _ e in cc
  index_set-index_get h g _ i v a e = cc

  -- indexExists says whether indexGet gives a value, whatever the target is: where that is neither an
  -- array nor an object, it says no, without an error.
  pub index_exists_iff :
      (h : Heap) (c i : Value) → index_exists host h c i ≡ is_ok (index_get host h c i)
  unfolding index_exists index_get
  index_exists_iff h (array r ro) i =
      is_ok-found_element _ (elements h r) (expect_index host i _) (expect_index_lt i _)
  index_exists_iff h (object r ro) i = is_ok-found_field _ (fields h r) (expect_key_string host i)
  index_exists_iff h _ i = refl
