-- ===== src/Vm/Duplicate/Closures.antt =====
-- internal/vm/duplicate.go: the routines that clone upvalues and functions, for a `clone` of what is in
-- them.
use mathlib.Core.Path.{subst}
use go_flux.Base.{
  ℕ, suc, ◌≤◌, ◌<◌, ◌≡◌, refl, sym, Option, none, some, List, [], ◌∷◌, length, set,
  get_elem?-append_head, get_elem?-set_self, get_elem?-set_ne, get_elem?-eq-some, inr, arith,
}
use go_flux.Vm.State.{Value, null, Function, UpvalueCell, Heap, fields}
use go_flux.Vm.Upvalues.{get_upvalue, write_cell, new_cell}
use go_flux.Vm.Duplicate.{
  M, CloneState, clone_of, write_closed, make_upvalue, upvalue_clone, clone_upvalue, clone_upvalues,
  clone_function,
}
use go_flux.Vm.Duplicate.Invariant.{
  In, UpvaluesIn, IsClosed, there, beyond, IsCloning, left, unseen_lt,
}
use go_flux.Vm.Duplicate.Cells.{old_upvalue_same, old_upvalue}
use go_flux.Vm.Duplicate.Writes.{IsCloning-cell, IsCloning-new_cell}
use go_flux.Vm.Duplicate.Copied.{clone_of-cons, Copied-close}
use go_flux.Vm.Duplicate.Copies.{
  RefCopy, RefCopy-more, UpvaluesCopy, Copy, Copy-more, More-trans, Unfinished, IsCopying,
}
use go_flux.Vm.Duplicate.Copying.{
  open_upvalue, More-heap, More-with_upvalue, IsCopying-with_upvalue, Held-with_upvalue,
}
use go_flux.Vm.Duplicate.Rewriting.{IsCopying-set_upvalue}
use go_flux.Vm.Duplicate.Loops.{Returns, returned, bind_lem, KeysDiffer, After, Clones}
use go_flux.Vm.Duplicate.Parts.{stays, with_result, behind, not_new}

module _ (h : Heap) (g : Unfinished) where
  -- What has no clone yet is at most `b` cells, and behind a new clone at most `n`. The maps of `h` have
  -- different keys.
  module _ (closed : IsClosed (there h) h) (keys : (r : ℕ) → KeysDiffer (fields h (some r))) (k : ℕ)
      (clone : Value → M Value) (spec : Clones h k clone) (n b : ℕ) (less : n ≤ b)
      (near : b ≤ suc n) (below : 0 < b → n < k) where
    upvalue_clone_lem :
        (i : ℕ) (st : CloneState) (o : Option ℕ)
        → clone_of i st.upvalues ≡ o
        → i < length h.cells
        → IsCloning h st
        → IsCopying h g st
        → left h st ≤ b
        → Returns
            (After h g st b
              (λ out st'. (beyond h).cell_in out × (clone_of i st'.upvalues ≡ some out)))
            (upvalue_clone clone i o st)
    unfolding upvalue_clone make_upvalue new_cell write_closed write_cell
    upvalue_clone_lem i st (some out) e lt c q l =
        stays h g out st c q l (c.upvalue_clones i out e, e)
    upvalue_clone_lem i st none e lt c q l =
        let fewer = unseen_lt (length h.cells) i (length st.heap.cells) st.upvalues lt e in
        let out = length (st.heap).cells in
        let empty : UpvalueCell = record { location = none; closed = null } in
        bind_lem _
          (spec (open_upvalue g i) (get_upvalue st.heap (some i)) _ n
            (old_upvalue h st c closed i lt)
            (unfold new_cell in IsCloning-new_cell h st c i empty tt)
            (unfold new_cell in IsCopying-with_upvalue h g st q i empty e) (omega (arith, fewer))
            (below (omega (arith, fewer))))
          λ w st2 a.
            let at = (a.more).upvalues i out (clone_of-cons i out st.upvalues) in
            let full : UpvalueCell = record { location = none; closed = w } in
            let there_still =
              (a.held).cells out empty (get_elem?-append_head (st.heap).cells [] empty) in
            let set_here =
              IsCopying-set_upvalue h (open_upvalue g i) st2 a.copying i out full (inr refl) at in
            let f =
              More-heap h (open_upvalue g i) st2 a.copying
                (record st2.heap { cells = set (st2.heap).cells out full }) in
            returned out _ (record {
              cloning =
                  unfold write_cell in
                  IsCloning-cell h st2 a.cloning out full c.cells.longer a.holds.0;
              copying = record {
                arrays = set_here.arrays;
                objects = set_here.objects;
                iterators = set_here.iterators;
                upvalues =
                    Copied-close g.upvalue_open _ st2.upvalues (set (st2.heap).cells out full) i out
                      full set_here.upvalues at
                      (get_elem?-set_self (st2.heap).cells out full
                        (get_elem?-eq-some (st2.heap).cells out there_still))
                      (
                        refl,
                        Copy-more f (get_upvalue h (some i)) w (
                            subst (λ v. Copy st2 v w) (old_upvalue_same h st c closed i lt)
                              a.holds.1),
                      );
              };
              more = More-trans (More-with_upvalue h g st q i empty e) (More-trans a.more f);
              held = record {
                arrays = (a.held).arrays;
                objects = (a.held).objects;
                iterators = (a.held).iterators;
                cells = λ j x p.
                    rw
                      (get_elem?-set_ne (st2.heap).cells out j full
                        (λ z. not_new h g (st.heap).cells j x p (sym z)))
                      ((a.held).cells j x
                        ((unfold new_cell in (Held-with_upvalue h g st q i empty).cells j x p)));
              };
              rest = omega (arith, a.rest);
              holds = (c.cells.longer, at);
            })

    clone_upvalue_lem :
        (u : Option ℕ) (st : CloneState)
        → In (there h).cell_in u
        → IsCloning h st
        → IsCopying h g st
        → left h st ≤ b
        → Returns
            (After h g st b (λ w st'. In (beyond h).cell_in w × RefCopy st'.upvalues u w))
            (clone_upvalue clone u st)
    unfolding clone_upvalue
    clone_upvalue_lem none st p c q l = stays h g none st c q l (tt, tt)
    clone_upvalue_lem (some i) st p c q l =
        bind_lem _ (upvalue_clone_lem i st _ refl p c q l)
          λ out st1 a. returned (some out) st1 (with_result h g (some out) a a.holds)

    clone_upvalues_lem :
        (us : List (Option ℕ)) (st : CloneState)
        → UpvaluesIn (there h).cell_in us
        → IsCloning h st
        → IsCopying h g st
        → left h st ≤ b
        → Returns
            (After h g st b
              (λ ws st'. UpvaluesIn (beyond h).cell_in ws × UpvaluesCopy st'.upvalues us ws))
            (clone_upvalues clone us st)
    unfolding clone_upvalues
    clone_upvalues_lem [] st p c q l = stays h g [] st c q l (tt, tt)
    clone_upvalues_lem (u ∷ us) st p c q l =
        bind_lem _ (clone_upvalue_lem u st p.0 c q l) λ w st1 a.
          bind_lem _ (clone_upvalues_lem us st1 p.1 a.cloning a.copying a.rest) λ ws st2 done.
            returned (w ∷ ws) st2 (
              with_result h g (w ∷ ws) (behind h g a done) (
                (a.holds.0, done.holds.0),
                (RefCopy-more _ _ (done.more).upvalues u w a.holds.1, done.holds.1),
              ))

    pub clone_function_lem :
        (fn : Function) (st : CloneState)
        → UpvaluesIn (there h).cell_in fn.upvalues
        → IsCloning h st
        → IsCopying h g st
        → left h st ≤ b
        → Returns
            (After h g st b (λ out st'.
              UpvaluesIn (beyond h).cell_in out.upvalues
              × UpvaluesCopy st'.upvalues fn.upvalues out.upvalues
              × (out ≡ record fn { upvalues = out.upvalues })))
            (clone_function clone fn st)
    unfolding clone_function
    clone_function_lem fn st p c q l =
        bind_lem _ (clone_upvalues_lem fn.upvalues st p c q l)
          λ us st1 a. returned _ st1 (with_result h g _ a (a.holds.0, a.holds.1, refl))
