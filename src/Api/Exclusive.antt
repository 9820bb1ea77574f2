-- ===== src/Api/Exclusive.antt =====
-- api.go: in every state that the host and its goroutines get to, one goroutine at most is at the
-- machine, and it gets free again.
use go_flux.Base.{
  some-injective, ℕ, zero, suc, ◌≤◌, ◌≡◌, ◌≢◌, refl, ap, Bool, true, false, Option, none, some,
  List, Bytes, get_elem?, set, Result, Bool-cases, get_elem?-set_self, get_elem?-eq-some, eq_or_ne,
  inl, inr, ◌⊎◌, arith,
}
use mathlib.Core.Path.{subst}
use go_flux.Vm.State.{Value, Vm, Fault, Platform, returned, failed}
use go_flux.Vm.Run.{call}
use go_flux.Api.Calls.{
  Stage, running, sent, released, over, Call, CallResult, HostVm, new_host_vm, call_async, await,
  await_from, Step, calls_async, cancelled, returns, fails, releases, closes, awaits, reads,
  has_read, configures, Reach, begins, later,
}
use go_flux.Api.Guard.{
  holds, results, holders, flag, holders-append, holders-set, holders-get, holders-two,
  holders-find, IsGuarded, sends_append, sends_set,
}

flag_le : (b : Bool) → flag b ≤ 1
flag_le true = omega arith
flag_le false = omega arith

flag-false : (b : Bool) → flag b ≡ 0 → b ≡ false
flag-false true h = absurd (omega arith)
flag-false false h = refl

flag-true : (b : Bool) → flag b ≢ 0 → b ≡ true
flag-true true h = refl
flag-true false h = absurd (h refl)

-- A call that is awaited stays at its stage.
SameStage : Call → CallResult × Call → Type 0
SameStage c p = (p.1.stage ≡ c.stage) × (p.1.sends ≡ c.sends)

await_from_lem :
    (b : Option CallResult) (s : Stage) (c : Call) (p : CallResult × Call)
    → await_from b s c ≡ some p
    → SameStage c p
unfolding SameStage
await_from_lem (some r) s c p e = subst (SameStage c) (some-injective e) (refl, refl)
await_from_lem none over c p e = subst (SameStage c) (some-injective e) (refl, refl)
await_from_lem none (running ended name args) c p e = cc
await_from_lem none sent c p e = cc
await_from_lem none released c p e = cc

await_lem :
    (c d : Call) (r : CallResult)
    → await c ≡ some (r, d)
    → (d.stage ≡ c.stage) × (d.sends ≡ c.sends)
unfolding await SameStage
await_lem c d r e = await_from_lem c.buffer c.stage c (r, d) e

call_async-IsGuarded :
    (ended : Bool) (name : Bytes) (args : List Value) (h : HostVm)
    → IsGuarded h
    → IsGuarded (call_async ended name args h)
unfolding call_async
call_async-IsGuarded ended name args h g = elim (Bool-cases h.busy) [
  | inl e ↦
      rw (call_async, e)
        (record {
          guard = omega (arith, g.guard, ap flag e, holders-append h.calls _);
          sends = sends_append h g _ refl;
        })
  | inr e ↦
      rw (call_async, e)
        (record {
          guard = omega (arith, g.guard, ap flag e, holders-append h.calls _);
          sends = sends_append h g _ refl;
        })
]

module _ (P : Platform) (native : ℕ → Vm → List Value → Result Bytes (Value × Vm)) where
  Step-IsGuarded : (h k : HostVm) → Step P native h k → IsGuarded h → IsGuarded k
  Step-IsGuarded h k (calls_async ended name args) g = call_async-IsGuarded ended name args h g
  Step-IsGuarded h k (cancelled i c e s) g = record {
    guard = omega (arith, g.guard, ap holds s, holders-set h.calls i c _ e);
    sends = sends_set h g i c _ e (omega (arith, g.sends i c e, ap results s));
  }
  Step-IsGuarded h k (returns i c fuel e s r) g = record {
    guard = omega (arith, g.guard, ap holds s, holders-set h.calls i c _ e);
    sends = sends_set h g i c _ e (omega (arith, g.sends i c e, ap results s));
  }
  Step-IsGuarded h k (fails i c fuel vm e s r) g = record {
    guard = omega (arith, g.guard, ap holds s, holders-set h.calls i c _ e);
    sends = sends_set h g i c _ e (omega (arith, g.sends i c e, ap results s));
  }
  Step-IsGuarded h k (releases i c e s) g = record {
    guard = omega (
      arith,
      g.guard,
      ap holds s,
      flag_le h.busy,
      holders-get h.calls i c e,
      holders-set h.calls i c (record c { stage = released }) e,
    );
    sends = sends_set h g i c _ e (omega (arith, g.sends i c e, ap results s));
  }
  Step-IsGuarded h k (closes i c e s) g = record {
    guard = omega (arith, g.guard, ap holds s, holders-set h.calls i c _ e);
    sends = sends_set h g i c _ e (omega (arith, g.sends i c e, ap results s));
  }
  Step-IsGuarded h k (awaits i c d e a) g =
      let same = await_lem c d _ a in
      record {
        guard = omega (arith, g.guard, ap holds same.0, holders-set h.calls i c d e);
        sends = sends_set h g i c d e (omega (arith, g.sends i c e, ap results same.0, same.1));
      }
  Step-IsGuarded h k (reads e) g = record {
    guard = omega (arith, g.guard, ap flag e);
    sends = g.sends;
  }
  Step-IsGuarded h k (has_read n e) g = record {
    guard = omega (arith, g.guard, e, flag_le h.busy);
    sends = g.sends;
  }
  Step-IsGuarded h k (configures core propagate) g = record { guard = g.guard; sends = g.sends }

  Reach-IsGuarded : (start : Vm) (h : HostVm) → Reach P native start h → IsGuarded h
  unfolding new_host_vm
  Reach-IsGuarded start h begins = record { guard = omega arith; sends = λ i c e. cc }
  Reach-IsGuarded start k (later {h} r s) = Step-IsGuarded h k s (Reach-IsGuarded start h r)

  -- In every state that a new machine gets to, two goroutines with the flag are the same, none has it
  -- while Disassemble or Duplicate reads the machine, and the flag is up while one has it.
  pub calls_exclusive :
      (start : Vm) (h : HostVm)
      → Reach P native start h
      → (i j : ℕ) (c d : Call) → get_elem? h.calls i ≡ some c
      → get_elem? h.calls j ≡ some d
      → holds c.stage ≡ 1
      → holds d.stage ≡ 1
      → (i ≡ j) × (h.readers ≡ 0) × (h.busy ≡ true)
  calls_exclusive start h r i j c d e f p q =
      let g = Reach-IsGuarded start h r in
      let less = holders-get h.calls i c e in
      (
        elim (eq_or_ne i j) [
          | inl same ↦ same
          | inr other ↦
              absurd (
                omega (arith, g.guard, flag_le h.busy, holders-two h.calls i j c d e f other, p, q))
        ],
        omega (arith, g.guard, flag_le h.busy, less, p),
        flag-true h.busy (λ z. omega (arith, g.guard, less, p)),
      )

  pub data Steps : HostVm → HostVm → Type 0 where
    no_steps : {h : HostVm} → Steps h h
    step : {h g k : HostVm} → Step P native h g → Steps g k → Steps h k

  -- A run of a call that ends with a value or an error, or not at all since its context has ended
  abbrev pub RunEnds : Vm → Stage → Type 0
  RunEnds core (running true name args) = Unit
  RunEnds core (running false name args) =
      (fuel : ℕ) × (((v : Value) × (vm : Vm) × (call P native fuel name args core
            ≡ some (returned v vm)))
        ⊎ ((f : Fault) × (call P native fuel name args core ≡ some (failed f))))
  RunEnds core _ = Unit

  Frees : HostVm → Type 0
  Frees h = (k : HostVm) × Steps h k × (k.busy ≡ false)

  Frees-sent :
      (h : HostVm) (i : ℕ) (c : Call) → get_elem? h.calls i ≡ some c → c.stage ≡ sent → Frees h
  unfolding Frees
  Frees-sent h i c e s = (_, step (releases i c e s) no_steps, refl)

  after_put :
      (h : HostVm) (i : ℕ) (c d : Call)
      → get_elem? h.calls i ≡ some c
      → get_elem? (set h.calls i d) i ≡ some d
  after_put h i c d e = get_elem?-set_self h.calls i d (get_elem?-eq-some h.calls i e)

  Frees-stage :
      (h : HostVm) (i : ℕ) (c : Call) (s : Stage)
      → get_elem? h.calls i ≡ some c
      → c.stage ≡ s
      → holds s ≢ 0
      → RunEnds h.core s
      → Frees h
  unfolding Frees
  Frees-stage h i c (running true name args) e s n ends =
      (_, step (cancelled i c e s) (step (releases i _ (after_put h i c _ e) refl) no_steps), refl)
  Frees-stage h i c (running false name args) e s n (fuel, inl (v, vm, r)) = (
    _,
    step (returns i c fuel e s r) (step (releases i _ (after_put h i c _ e) refl) no_steps),
    refl,
  )
  Frees-stage h i c (running false name args) e s n (fuel, inr (f, r)) = (
    _,
    step (fails i c fuel h.core e s r) (step (releases i _ (after_put h i c _ e) refl) no_steps),
    refl,
  )
  Frees-stage h i c sent e s n ends = Frees-sent h i c e s
  Frees-stage h i c released e s n ends = absurd (n refl)
  Frees-stage h i c over e s n ends = absurd (n refl)

  reader_ends : (h : HostVm) → IsGuarded h → holders h.calls ≡ 0 → (n : ℕ) → h.readers ≡ n → Frees h
  unfolding Frees
  reader_ends h g z zero e = (h, no_steps, flag-false h.busy (omega (arith, g.guard)))
  reader_ends h g z (suc n) e = (_, step (has_read n e) no_steps, refl)

  -- From every state that a new machine gets to there are steps to one where it is free, if the run
  -- of each call that is to run ends with a value or an error.
  pub calls_end :
      (start : Vm) (h : HostVm)
      → Reach P native start h
      → ((i : ℕ) (c : Call) → get_elem? h.calls i ≡ some c → RunEnds h.core c.stage)
      → (k : HostVm) × Steps h k × (k.busy ≡ false)
  unfolding Frees
  calls_end start h r ends =
      let g = Reach-IsGuarded start h r in
      elim (eq_or_ne (holders h.calls) 0) [
        | inl none_holds ↦ reader_ends h g none_holds h.readers refl
        | inr some_holds ↦
            let (i, c, e, n) = holders-find h.calls some_holds in
            Frees-stage h i c c.stage e refl n (ends i c e)
      ]
