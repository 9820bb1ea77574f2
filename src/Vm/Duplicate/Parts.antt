-- ===== src/Vm/Duplicate/Parts.antt =====
-- internal/vm/duplicate.go: the routines that clone arrays and objects, for a `clone` of what is in
-- them.
use mathlib.Core.Path.{subst}
use go_flux.Base.{
  ℕ, suc, ◌≤◌, ◌<◌, ◌≡◌, ◌≢◌, refl, sym, Option, none, some, List, [], length, replicate, get_elem?,
  get_elem?-append_head, get_elem?-eq-some, inr, arith,
}
use go_flux.Vm.State.{Value, null, Heap, array_at, fields, new_array, new_object}
use go_flux.Vm.Duplicate.{
  M, CloneState, clone_of, make_array, make_object, array_clone, object_clone,
}
use go_flux.Vm.Duplicate.Invariant.{IsClosed, there, beyond, IsCloning, left, unseen_lt}
use go_flux.Vm.Duplicate.Cells.{
  ValuesIn-replicate, old_values_same, old_fields_same, old_values, old_fields,
}
use go_flux.Vm.Duplicate.Writes.{IsCloning-new_array, IsCloning-new_object}
use go_flux.Vm.Duplicate.Copied.{clone_of-cons, Copied-close}
use go_flux.Vm.Duplicate.Copies.{
  ValuesCopy, FieldsCopy, More-self, More-trans, Held-self, Held-trans, Unfinished, IsCopying,
}
use go_flux.Vm.Duplicate.Copying.{
  open_array, open_object, More-with_array, More-with_object, IsCopying-with_array,
  IsCopying-with_object, Held-with_array, Held-with_object,
}
use go_flux.Vm.Duplicate.Loops.{
  Returns, returned, bind_lem, KeysDiffer, NewIn-empty, After, Clones, clone_elements_lem,
  clone_fields_lem,
}

module _ (h : Heap) (g : Unfinished) where
  -- A routine that changes nothing, one whose result is put into another, and one behind another
  pub stays :
      {A : Type 0} {n : ℕ} {P : A → CloneState → Type 0} (a : A) (st : CloneState)
      → IsCloning h st
      → IsCopying h g st
      → left h st ≤ n
      → P a st
      → Returns (After h g st n P) (some (a, st))
  stays a st c q l p = returned a st (record {
    cloning = c;
    copying = q;
    more = More-self st;
    held = Held-self st.heap;
    rest = l;
    holds = p;
  })

  pub with_result :
      {A B : Type 0} {P : A → CloneState → Type 0} {Q : B → CloneState → Type 0} {n : ℕ}
      {st0 st : CloneState} {a : A} (b : B)
      → After h g st0 n P a st
      → Q b st
      → After h g st0 n Q b st
  with_result b a q = record {
    cloning = a.cloning;
    copying = a.copying;
    more = a.more;
    held = a.held;
    rest = a.rest;
    holds = q;
  }

  pub behind :
      {A B : Type 0} {P : A → CloneState → Type 0} {Q : B → CloneState → Type 0} {n m : ℕ}
      {st0 st1 st2 : CloneState} {a : A} {b : B}
      → After h g st0 n P a st1
      → After h g st1 m Q b st2
      → After h g st0 m Q b st2
  behind p q = record {
    cloning = q.cloning;
    copying = q.copying;
    more = More-trans p.more q.more;
    held = Held-trans p.held q.held;
    rest = q.rest;
    holds = q.holds;
  }

  -- What is there is not the new cell.
  pub not_new : {A : Type 0} (xs : List A) (i : ℕ) (x : A) → get_elem? xs i ≡ some x → i ≢ length xs
  not_new xs i x e same = omega (arith, get_elem?-eq-some xs i e)

  -- What has no clone yet is at most `b` cells, and behind a new clone at most `n`. The maps of `h` have
  -- different keys.
  module _ (closed : IsClosed (there h) h) (keys : (r : ℕ) → KeysDiffer (fields h (some r))) (k : ℕ)
      (clone : Value → M Value) (spec : Clones h k clone) (n b : ℕ) (less : n ≤ b)
      (near : b ≤ suc n) (below : 0 < b → n < k) where
    pub array_clone_lem :
        (r : ℕ) (st : CloneState) (o : Option ℕ)
        → clone_of r st.arrays ≡ o
        → r < length h.arrays
        → IsCloning h st
        → IsCopying h g st
        → left h st ≤ b
        → Returns
            (After h g st b
              (λ out st'. (beyond h).array_in out × (clone_of r st'.arrays ≡ some out)))
            (array_clone clone r o st)
    unfolding array_clone make_array new_array
    array_clone_lem r st (some out) e lt c q l = stays out st c q l (c.array_clones r out e, e)
    array_clone_lem r st none e lt c q l =
        let fewer = unseen_lt (length h.arrays) r (length st.heap.arrays) st.arrays lt e in
        let nulls = replicate (length (array_at st.heap r)) null in
        let out = length (st.heap).arrays in
        bind_lem _
          (clone_elements_lem h k clone spec n (below (omega (arith, fewer))) (open_array g r) r out
            (inr refl) c.arrays.longer 0 (array_at st.heap r) [] _ refl
            (clone_of-cons r out st.arrays) (get_elem?-append_head (st.heap).arrays [] nulls)
            (old_values h st c closed r lt)
            (unfold new_array in
              IsCloning-new_array h st c r nulls
                (ValuesIn-replicate (beyond h) (length (array_at st.heap r))))
            (unfold new_array in IsCopying-with_array h g st q r nulls e) (omega (arith, fewer)))
          λ u st2 a.
            let (zs, written, copies) = a.written in
            let at = (a.more).arrays r out (clone_of-cons r out st.arrays) in
            returned out st2 (record {
              cloning = a.cloning;
              copying = record {
                arrays =
                    Copied-close g.array_open _ st2.arrays (st2.heap).arrays r out zs
                      (a.copying).arrays at written
                      (subst (λ vs. ValuesCopy st2 vs zs) (old_values_same h st c r lt) copies);
                objects = (a.copying).objects;
                iterators = (a.copying).iterators;
                upvalues = (a.copying).upvalues;
              };
              more = More-trans (More-with_array h g st q r nulls e) a.more;
              held = record {
                arrays = λ i x f.
                    a.arrays i x (not_new (st.heap).arrays i x f)
                      ((unfold new_array in (Held-with_array h g st q r nulls).arrays i x f));
                objects = a.objects;
                iterators = a.iterators;
                cells = a.cells;
              };
              rest = omega (arith, a.rest);
              holds = (c.arrays.longer, at);
            })

    pub object_clone_lem :
        (r : ℕ) (st : CloneState) (o : Option ℕ)
        → clone_of r st.objects ≡ o
        → r < length h.objects
        → IsCloning h st
        → IsCopying h g st
        → left h st ≤ b
        → Returns
            (After h g st b
              (λ out st'. (beyond h).object_in out × (clone_of r st'.objects ≡ some out)))
            (object_clone clone r o st)
    unfolding object_clone make_object new_object
    object_clone_lem r st (some out) e lt c q l = stays out st c q l (c.object_clones r out e, e)
    object_clone_lem r st none e lt c q l =
        let fewer = unseen_lt (length h.objects) r (length st.heap.objects) st.objects lt e in
        let out = length (st.heap).objects in
        let same = old_fields_same h st c r lt in
        bind_lem _
          (clone_fields_lem h k clone spec n (below (omega (arith, fewer))) (open_object g r) r out
            (inr refl) c.objects.longer (fields st.heap (some r)) [] _
            (clone_of-cons r out st.objects) (get_elem?-append_head (st.heap).objects [] [])
            (subst KeysDiffer (sym same) (keys r)) (NewIn-empty (fields st.heap (some r)))
            (old_fields h st c closed r lt)
            (unfold new_object in IsCloning-new_object h st c r [] tt)
            (unfold new_object in IsCopying-with_object h g st q r [] e) (omega (arith, fewer)))
          λ u st2 a.
            let (zs, written, copies) = a.written in
            let at = (a.more).objects r out (clone_of-cons r out st.objects) in
            returned out st2 (record {
              cloning = a.cloning;
              copying = record {
                arrays = (a.copying).arrays;
                objects =
                    Copied-close g.object_open _ st2.objects (st2.heap).objects r out zs
                      (a.copying).objects at written (subst (λ m. FieldsCopy st2 m zs) same copies);
                iterators = (a.copying).iterators;
                upvalues = (a.copying).upvalues;
              };
              more = More-trans (More-with_object h g st q r [] e) a.more;
              held = record {
                arrays = a.arrays;
                objects = λ i x f.
                    a.objects i x (not_new (st.heap).objects i x f)
                      ((unfold new_object in (Held-with_object h g st q r []).objects i x f));
                iterators = a.iterators;
                cells = a.cells;
              };
              rest = omega (arith, a.rest);
              holds = (c.objects.longer, at);
            })
