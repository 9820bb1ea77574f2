-- ===== src/Vm/Duplicate/Kinds.antt =====
-- internal/vm/duplicate.go: `cloneIterator` and the switch of `cloneValue`, for a `clone` of what is in
-- a value.
use go_flux.Base.{
  ℕ, suc, false, set, get_elem?, get_elem?_lt, get_elem?-append_head, get_elem?-set_self,
  get_elem?-set_ne, get_elem?-eq-some, ◌≤◌, ◌<◌, ◌≡◌, refl, sym, Option, none, some, [], length,
  inr, arith,
}
use go_flux.Vm.State.{
  Value, null, bool, number, string, array, object, function, error, iterator, Iterator, Heap,
  fields, new_iterator,
}
use go_flux.Vm.Duplicate.{
  M, CloneState, clone_of, make_iterator, write_iterator, array_ref, object_ref, cloned_keys,
  clone_arr, clone_obj, iterator_of, iterator_clone, clone_by_kind,
}
use go_flux.Vm.Duplicate.Invariant.{
  In, ValueIn, IteratorIn, IsClosed, there, beyond, IsCloning, left, unseen_lt,
}
use go_flux.Vm.Duplicate.Writes.{IsCloning-iterator, IsCloning-new_iterator}
use go_flux.Vm.Duplicate.Copied.{clone_of-cons, Copied-close}
use go_flux.Vm.Duplicate.Copies.{RefCopy, RefCopy-more, Copy, More-trans, Unfinished, IsCopying}
use go_flux.Vm.Duplicate.Copying.{
  open_iterator, More-heap, More-with_iterator, IsCopying-with_iterator, Held-with_iterator,
}
use go_flux.Vm.Duplicate.Rewriting.{IsCopying-set_iterator}
use go_flux.Vm.Duplicate.Loops.{Returns, returned, bind_lem, KeysDiffer, After, Clones}
use go_flux.Vm.Duplicate.Parts.{
  stays, with_result, behind, not_new, array_clone_lem, object_clone_lem,
}
use go_flux.Vm.Duplicate.Closures.{clone_function_lem}

array_ref_lem : (h : Heap) (v : Value) → ValueIn (beyond h) v → In (beyond h).array_in (array_ref v)
array_ref_lem h (array r ro) p = p
array_ref_lem h _ p = tt

object_ref_lem :
    (h : Heap) (v : Value) → ValueIn (beyond h) v → In (beyond h).object_in (object_ref v)
object_ref_lem h (object r ro) p = p
object_ref_lem h _ p = tt

array_ref-RefCopy :
    (st : CloneState) (r : ℕ) (w : Value)
    → Copy st (array (some r) false) w
    → RefCopy st.arrays (some r) (array_ref w)
array_ref-RefCopy st r (array c so) p = p.0
array_ref-RefCopy st r _ p = cc

object_ref-RefCopy :
    (st : CloneState) (r : ℕ) (w : Value)
    → Copy st (object (some r) false) w
    → RefCopy st.objects (some r) (object_ref w)
object_ref-RefCopy st r (object c so) p = p.0
object_ref-RefCopy st r _ p = cc

module _ (h : Heap) (g : Unfinished) (closed : IsClosed (there h) h)
    (keys : (r : ℕ) → KeysDiffer (fields h (some r))) (k : ℕ) (clone : Value → M Value)
    (spec : Clones h k clone) (n : ℕ) (below : n < k) where
  clone_arr_lem :
      (r : Option ℕ) (st : CloneState)
      → In (there h).array_in r
      → IsCloning h st
      → IsCopying h g st
      → left h st ≤ n
      → Returns
          (After h g st n (λ w st'. In (beyond h).array_in w × RefCopy st'.arrays r w))
          (clone_arr clone r st)
  unfolding clone_arr
  clone_arr_lem none st p c q l = stays h g none st c q l (tt, tt)
  clone_arr_lem (some r) st p c q l =
      bind_lem _ (spec g (array (some r) false) st n p c q l below) λ w st1 a.
        returned _ st1
          (with_result h g _ a (array_ref_lem h w a.holds.0, array_ref-RefCopy st1 r w a.holds.1))

  clone_obj_lem :
      (r : Option ℕ) (st : CloneState)
      → In (there h).object_in r
      → IsCloning h st
      → IsCopying h g st
      → left h st ≤ n
      → Returns
          (After h g st n (λ w st'. In (beyond h).object_in w × RefCopy st'.objects r w))
          (clone_obj clone r st)
  unfolding clone_obj
  clone_obj_lem none st p c q l = stays h g none st c q l (tt, tt)
  clone_obj_lem (some r) st p c q l =
      bind_lem _ (spec g (object (some r) false) st n p c q l below) λ w st1 a.
        returned _ st1
          (with_result h g _ a (object_ref_lem h w a.holds.0, object_ref-RefCopy st1 r w a.holds.1))

module _ (h : Heap) (g : Unfinished) (closed : IsClosed (there h) h)
    (keys : (r : ℕ) → KeysDiffer (fields h (some r))) (k : ℕ) (clone : Value → M Value)
    (spec : Clones h k clone) (n b : ℕ) (less : n ≤ b) (near : b ≤ suc n)
    (below : 0 < b → n < k) where
  iterator_of_lem :
      (i : ℕ) (it : Iterator) (st : CloneState)
      → clone_of i st.iterators ≡ none
      → i < length h.iterators
      → get_elem? h.iterators i ≡ some it
      → IteratorIn (there h) it
      → IsCloning h st
      → IsCopying h g st
      → left h st ≤ b
      → Returns
          (After h g st b
            (λ out st'. (beyond h).iterator_in out × (clone_of i st'.iterators ≡ some out)))
          (iterator_of clone i it st)
  unfolding iterator_of make_iterator new_iterator write_iterator
  iterator_of_lem i it st e lt here p c q l =
      let fewer = unseen_lt (length h.iterators) i (length st.heap.iterators) st.iterators lt e in
      let out = length (st.heap).iterators in
      let empty : Iterator = record { arr = none; obj = none; keys = []; index = it.index } in
      let gi = open_iterator g i in
      bind_lem _
        (clone_arr_lem h gi closed keys k clone spec n (below (omega (arith, fewer))) it.arr _ p.0
          (unfold new_iterator in IsCloning-new_iterator h st c i empty (tt, tt))
          (unfold new_iterator in IsCopying-with_iterator h g st q i empty e)
          (omega (arith, fewer)))
        λ r st1 a.
          bind_lem _
            (clone_obj_lem h gi closed keys k clone spec n (below (omega (arith, fewer))) it.obj st1
              p.1 a.cloning a.copying a.rest)
            λ o st2 done.
              let both = behind h gi a done in
              let at = (both.more).iterators i out (clone_of-cons i out st.iterators) in
              let full : Iterator = record {
                arr = r;
                obj = o;
                keys = cloned_keys it;
                index = it.index;
              } in
              let there_still =
                (both.held).iterators out empty
                  (get_elem?-append_head (st.heap).iterators [] empty) in
              let set_here =
                IsCopying-set_iterator h gi st2 done.copying i out full (inr refl) at in
              let f =
                More-heap h gi st2 done.copying
                  (record st2.heap { iterators = set (st2.heap).iterators out full }) in
              returned out _ (record {
                cloning =
                    IsCloning-iterator h st2 done.cloning out full c.iterators.longer
                      (a.holds.0, done.holds.0);
                copying = record {
                  arrays = set_here.arrays;
                  objects = set_here.objects;
                  iterators =
                      Copied-close g.iterator_open _ st2.iterators
                        (set (st2.heap).iterators out full) i out full set_here.iterators at
                        (get_elem?-set_self (st2.heap).iterators out full
                          (get_elem?-eq-some (st2.heap).iterators out there_still))
                        (
                          it,
                          here,
                          record {
                            arr = RefCopy-more _ _ (done.more).arrays it.arr r a.holds.1;
                            obj = done.holds.1;
                            keys = refl;
                            index = refl;
                          },
                        );
                  upvalues = set_here.upvalues;
                };
                more = More-trans (More-with_iterator h g st q i empty e) (More-trans both.more f);
                held = record {
                  arrays = (both.held).arrays;
                  objects = (both.held).objects;
                  iterators = λ j x y.
                      rw
                        (get_elem?-set_ne (st2.heap).iterators out j full
                          (λ z. not_new h g (st.heap).iterators j x y (sym z)))
                        ((both.held).iterators j x (
                          (unfold new_iterator in
                            (Held-with_iterator h g st q i empty).iterators j x y)));
                  cells = (both.held).cells;
                };
                rest = omega (arith, done.rest);
                holds = (c.iterators.longer, at);
              })

  iterator_clone_lem :
      (i : ℕ) (st : CloneState) (o : Option ℕ)
      → clone_of i st.iterators ≡ o
      → i < length h.iterators
      → IsCloning h st
      → IsCopying h g st
      → left h st ≤ b
      → Returns
          (After h g st b (λ w st'. In (beyond h).iterator_in w × RefCopy st'.iterators (some i) w))
          (iterator_clone clone i o st)
  unfolding iterator_clone
  iterator_clone_lem i st (some out) e lt c q l =
      stays h g (some out) st c q l (c.iterator_clones i out e, e)
  iterator_clone_lem i st none e lt c q l =
      let (it, here) = get_elem?_lt h.iterators i lt in
      let now = sym (c.iterators.same i lt) in
      rw (iterator_clone, c.iterators.same i lt, here)
        (bind_lem _ (iterator_of_lem i it st e lt here (closed.iterators i it lt here) c q l)
          λ out st1 a. returned (some out) st1 (with_result h g (some out) a a.holds))

  pub clone_by_kind_lem :
      (v : Value) (st : CloneState)
      → ValueIn (there h) v
      → IsCloning h st
      → IsCopying h g st
      → left h st ≤ b
      → Returns
          (After h g st b (λ w st'. ValueIn (beyond h) w × Copy st' v w))
          (clone_by_kind clone v st)
  unfolding clone_by_kind
  clone_by_kind_lem (array (some r) ro) st p c q l =
      bind_lem _
        (array_clone_lem h g closed keys k clone spec n b less near below r st _ refl p c q l)
        λ out st1 a. returned _ st1 (with_result h g _ a (a.holds.0, (a.holds.1, refl)))
  clone_by_kind_lem (object (some r) ro) st p c q l =
      bind_lem _
        (object_clone_lem h g closed keys k clone spec n b less near below r st _ refl p c q l)
        λ out st1 a. returned _ st1 (with_result h g _ a (a.holds.0, (a.holds.1, refl)))
  clone_by_kind_lem (function (some fn)) st p c q l =
      bind_lem _ (clone_function_lem h g closed keys k clone spec n b less near below fn st p c q l)
        λ out st1 a. returned _ st1 (with_result h g _ a (a.holds.0, (a.holds.1, a.holds.2)))
  clone_by_kind_lem (iterator (some i)) st p c q l =
      bind_lem _ (iterator_clone_lem i st _ refl p c q l)
        λ out st1 a. returned _ st1 (with_result h g _ a a.holds)
  clone_by_kind_lem (array none ro) st p c q l = stays h g _ st c q l (tt, (tt, refl))
  clone_by_kind_lem (object none ro) st p c q l = stays h g _ st c q l (tt, (tt, refl))
  clone_by_kind_lem (function none) st p c q l = stays h g _ st c q l (tt, refl)
  clone_by_kind_lem (iterator none) st p c q l = stays h g _ st c q l (tt, tt)
  clone_by_kind_lem null st p c q l = stays h g _ st c q l (tt, refl)
  clone_by_kind_lem (bool b) st p c q l = stays h g _ st c q l (tt, refl)
  clone_by_kind_lem (number b) st p c q l = stays h g _ st c q l (tt, refl)
  clone_by_kind_lem (string b) st p c q l = stays h g _ st c q l (tt, refl)
  clone_by_kind_lem (error b) st p c q l = stays h g _ st c q l (tt, refl)
