-- ===== src/Vm/Duplicate/Loops.antt =====
-- internal/vm/duplicate.go: what the routines of a clone give, and the loops over elements and fields,
-- for a `clone` of what is in them.
use go_flux.Base.{
  ℕ, suc, ◌≤◌, ◌<◌, ◌≡◌, ◌≢◌, refl, sym, ap, false, Option, none, some, List, [], ◌∷◌, ◌++◌,
  append-nil, append_assoc, Bytes, bytes_eq, length, length-append, replicate, set, get_elem?,
  get_elem?-set_self, get_elem?-set_ne, get_elem?-eq-some, lookup, insert, lookup-insert,
  insert_absent, arith,
}
use go_flux.Vm.State.{Value, null, Object, Heap, or_empty, write_array, write_object}
use go_flux.Vm.Duplicate.{
  M, CloneState, bind_result, clone_of, write_element, write_field, clone_elements, clone_fields,
}
use go_flux.Vm.Duplicate.Invariant.{ValueIn, ValuesIn, FieldsIn, there, beyond, IsCloning, left}
use go_flux.Vm.Duplicate.Writes.{IsCloning-element, IsCloning-field}
use go_flux.Vm.Duplicate.Copied.{Keeps}
use go_flux.Vm.Duplicate.Copies.{
  Copy, ValuesCopy, FieldsCopy, More, More-self, More-trans, Copy-more, Held, Unfinished, IsCopying,
}
use go_flux.Vm.Duplicate.Copying.{More-heap}
use go_flux.Vm.Duplicate.Rewriting.{IsCopying-set_array, IsCopying-set_object}

-- A routine that returns, with a result and a state as `Q` says.
pub data Returns {A : Type 0} (Q : A → CloneState → Type 0) : Option (A × CloneState) → Type 0 where
  returned : (a : A) (st : CloneState) → Q a st → Returns Q (some (a, st))

pub bind_lem :
    {A B : Type 0} {Q : A → CloneState → Type 0} {R : B → CloneState → Type 0}
    {m : Option (A × CloneState)} (f : A → M B)
    → Returns Q m
    → ((a : A) (st : CloneState) → Q a st → Returns R (f a st))
    → Returns R (bind_result m f)
bind_lem f (returned a st q) next = next a st q

pub result_lem :
    {A : Type 0} {Q R : A → CloneState → Type 0} {m : Option (A × CloneState)}
    → Returns Q m
    → ((a : A) (st : CloneState) → Q a st → R a st)
    → Returns R m
result_lem (returned a st q) f = returned a st (f a st q)

-- The keys of a Go map are different, and an entry that is to be written is new.
abbrev pub Absent : Bytes → Object → Type 0
Absent k [] = Unit
Absent k ((j, v) ∷ m) = (bytes_eq k j ≡ false) × Absent k m

abbrev pub KeysDiffer : Object → Type 0
KeysDiffer [] = Unit
KeysDiffer ((k, v) ∷ m) = Absent k m × KeysDiffer m

abbrev pub NewIn : Object → Object → Type 0
NewIn [] out = Unit
NewIn ((k, v) ∷ m) out = (lookup k out ≡ none) × NewIn m out

pub NewIn-empty : (m : Object) → NewIn m []
unfolding lookup
NewIn-empty [] = tt
NewIn-empty ((k, v) ∷ m) = (refl, NewIn-empty m)

pub NewIn-insert :
    (k : Bytes) (w : Value) (m out : Object) → Absent k m → NewIn m out → NewIn m (insert k w out)
NewIn-insert k w [] out p q = tt
NewIn-insert k w ((j, x) ∷ m) out p q =
    (rw (lookup-insert k j w out, p.0) q.0, NewIn-insert k w m out p.1 q.1)

-- The next of the nulls at the end is written.
set_next :
    (ws : List Value) (n : ℕ) (w : Value)
    → set (ws ++ replicate (suc n) null) (length ws) w ≡ (ws ++ w ∷ []) ++ replicate n null
set_next [] n w = refl
set_next (x ∷ ws) n w = ap (λ (t : List Value). x ∷ t) (set_next ws n w)

written_next :
    (ws : List Value) (i n : ℕ) (w : Value) (arrays : List (List Value)) (out : ℕ)
    → length ws ≡ i
    → get_elem? arrays out ≡ some (ws ++ replicate (suc n) null)
    → get_elem? (set arrays out (set (or_empty (get_elem? arrays out)) i w)) out
      ≡ some ((ws ++ w ∷ []) ++ replicate n null)
written_next ws i n w arrays out len here =
    rw (get_elem?-set_self arrays out _ (get_elem?-eq-some arrays out here), here)
      (ap some (rw (← len) (set_next ws n w)))

field_written :
    (ws : Object) (x : Bytes) (w : Value) (objects : List Object) (out : ℕ)
    → get_elem? objects out ≡ some ws
    → get_elem? (set objects out (insert x w (or_empty (get_elem? objects out)))) out
      ≡ some (insert x w ws)
field_written ws x w objects out here =
    rw (get_elem?-set_self objects out _ (get_elem?-eq-some objects out here), here) refl

module _ (h : Heap) where
  -- Cloning goes on from `st0`, at most `n` cells have no clone yet, and the result is as `P` says.
  pub record After {A : Type 0} (g : Unfinished) (st0 : CloneState) (n : ℕ)
      (P : A → CloneState → Type 0) (a : A) (st : CloneState) : Type 0 where
    pub cloning : IsCloning h st
    pub copying : IsCopying h g st
    pub more : More st0 st
    pub held : Held st0.heap st.heap
    pub rest : left h st ≤ n
    pub holds : P a st

  -- For fewer than `k` cells without a clone, `clone` gives a copy, with new references only.
  abbrev pub Clones : ℕ → (Value → M Value) → Type 1
  Clones k clone =
      (g : Unfinished) (v : Value) (st : CloneState) (n : ℕ)
      → ValueIn (there h) v
      → IsCloning h st
      → IsCopying h g st
      → left h st ≤ n
      → n < k
      → Returns (After g st n (λ w st'. ValueIn (beyond h) w × Copy st' v w)) (clone v st)

  -- A loop that writes to the array `out`, behind `ws`, or to the object `out`: the others are as
  -- they were.
  pub record ArrayLoop (g : Unfinished) (st0 : CloneState) (n out : ℕ) (vs ws : List Value)
      (u : Unit {0}) (st : CloneState) : Type 0 where
    pub cloning : IsCloning h st
    pub copying : IsCopying h g st
    pub more : More st0 st
    pub arrays :
        (i : ℕ) (x : List Value)
        → i ≢ out
        → get_elem? (st0.heap).arrays i ≡ some x
        → get_elem? (st.heap).arrays i ≡ some x
    pub objects : Keeps (st0.heap).objects (st.heap).objects
    pub iterators : Keeps (st0.heap).iterators (st.heap).iterators
    pub cells : Keeps (st0.heap).cells (st.heap).cells
    pub rest : left h st ≤ n
    pub written :
        (zs : List Value) × (get_elem? (st.heap).arrays out ≡ some (ws ++ zs)) × ValuesCopy st vs zs

  pub record ObjectLoop (g : Unfinished) (st0 : CloneState) (n out : ℕ) (m ws : Object)
      (u : Unit {0}) (st : CloneState) : Type 0 where
    pub cloning : IsCloning h st
    pub copying : IsCopying h g st
    pub more : More st0 st
    pub objects :
        (i : ℕ) (x : Object)
        → i ≢ out
        → get_elem? (st0.heap).objects i ≡ some x
        → get_elem? (st.heap).objects i ≡ some x
    pub arrays : Keeps (st0.heap).arrays (st.heap).arrays
    pub iterators : Keeps (st0.heap).iterators (st.heap).iterators
    pub cells : Keeps (st0.heap).cells (st.heap).cells
    pub rest : left h st ≤ n
    pub written :
        (zs : Object) × (get_elem? (st.heap).objects out ≡ some (ws ++ zs)) × FieldsCopy st m zs

  module _ (k : ℕ) (clone : Value → M Value) (spec : Clones k clone) (n : ℕ) (below : n < k)
      (g : Unfinished) (r out : ℕ) where
    pub clone_elements_lem :
        (open_here : g.array_open r) (new : length h.arrays ≤ out) (i : ℕ) (vs ws : List Value)
        (st : CloneState)
        → length ws ≡ i
        → clone_of r st.arrays ≡ some out
        → get_elem? (st.heap).arrays out ≡ some (ws ++ replicate (length vs) null)
        → ValuesIn (there h) vs
        → IsCloning h st
        → IsCopying h g st
        → left h st ≤ n
        → Returns (ArrayLoop g st n out vs ws) (clone_elements clone out i vs st)
    unfolding clone_elements write_element write_array
    clone_elements_lem o ge i [] ws st len at here p c q l = returned tt st (record {
      cloning = c;
      copying = q;
      more = More-self st;
      arrays = λ i x ne e. e;
      objects = λ i x e. e;
      iterators = λ i x e. e;
      cells = λ i x e. e;
      rest = l;
      written = ([], here, tt);
    })
    clone_elements_lem o ge i (v ∷ vs) ws st len at here p c q l =
        bind_lem _ (spec g v st n p.0 c q l below) λ w st1 a.
          result_lem
            (clone_elements_lem o ge (suc i) vs (ws ++ w ∷ []) _
              (omega (arith, length-append ws (w ∷ []), len)) ((a.more).arrays r out at)
              (written_next ws i (length vs) w (st1.heap).arrays out len
                ((a.held).arrays out _ here))
              p.1 (unfold write_array in IsCloning-element h st1 a.cloning out i w ge a.holds.0)
              (IsCopying-set_array h g st1 a.copying r out _ o ((a.more).arrays r out at)) a.rest)
            λ u st3 b.
              let f : More st1 st3 = More-trans (More-heap h g st1 a.copying _) b.more in
              let (zs, there_now, copies) = b.written in
              record {
                cloning = b.cloning;
                copying = b.copying;
                more = More-trans a.more f;
                arrays = λ j x ne e. b.arrays j x ne (
                    rw (get_elem?-set_ne (st1.heap).arrays out j _ (λ z. ne (sym z)))
                      ((a.held).arrays j x e));
                objects = λ j x e. b.objects j x ((a.held).objects j x e);
                iterators = λ j x e. b.iterators j x ((a.held).iterators j x e);
                cells = λ j x e. b.cells j x ((a.held).cells j x e);
                rest = b.rest;
                written = (
                  w ∷ zs,
                  rw (append_assoc ws (w ∷ []) zs) at there_now,
                  (Copy-more f v w a.holds.1, copies),
                );
              }

    pub clone_fields_lem :
        (open_here : g.object_open r) (new : length h.objects ≤ out) (m ws : Object)
        (st : CloneState)
        → clone_of r st.objects ≡ some out
        → get_elem? (st.heap).objects out ≡ some ws
        → KeysDiffer m
        → NewIn m ws
        → FieldsIn (there h) m
        → IsCloning h st
        → IsCopying h g st
        → left h st ≤ n
        → Returns (ObjectLoop g st n out m ws) (clone_fields clone out m st)
    unfolding clone_fields write_field write_object
    clone_fields_lem o ge [] ws st at here d w p c q l = returned tt st (record {
      cloning = c;
      copying = q;
      more = More-self st;
      objects = λ i x ne e. e;
      arrays = λ i x e. e;
      iterators = λ i x e. e;
      cells = λ i x e. e;
      rest = l;
      written = ([], rw (append-nil ws) here, tt);
    })
    clone_fields_lem o ge ((x, v) ∷ m) ws st at here d new_keys p c q l =
        bind_lem _ (spec g v st n p.0 c q l below) λ w st1 a.
          result_lem
            (clone_fields_lem o ge m (insert x w ws) _ ((a.more).objects r out at)
              (field_written ws x w (st1.heap).objects out ((a.held).objects out _ here)) d.1
              (NewIn-insert x w m ws d.0 new_keys.1) p.1
              (unfold write_object in IsCloning-field h st1 a.cloning out x w ge a.holds.0)
              (IsCopying-set_object h g st1 a.copying r out _ o ((a.more).objects r out at)) a.rest)
            λ u st3 b.
              let f : More st1 st3 = More-trans (More-heap h g st1 a.copying _) b.more in
              let (zs, there_now, copies) = b.written in
              record {
                cloning = b.cloning;
                copying = b.copying;
                more = More-trans a.more f;
                objects = λ j y ne e. b.objects j y ne (
                    rw (get_elem?-set_ne (st1.heap).objects out j _ (λ z. ne (sym z)))
                      ((a.held).objects j y e));
                arrays = λ j y e. b.arrays j y ((a.held).arrays j y e);
                iterators = λ j y e. b.iterators j y ((a.held).iterators j y e);
                cells = λ j y e. b.cells j y ((a.held).cells j y e);
                rest = b.rest;
                written = (
                  (x, w) ∷ zs,
                  rw (insert_absent x w ws new_keys.0, append_assoc ws ((x, w) ∷ []) zs) at
                      there_now,
                  (refl, Copy-more f v w a.holds.1, copies),
                );
              }
