-- ===== src/Vm/Limit/Termination.antt =====
-- internal/vm/vm.go: the loop of `Run` under an instruction limit.
use go_flux.Base.{
  ℕ, zero, suc, ◌+◌, ◌-◌, ◌*◌, ◌≤◌, ◌<◌, ◌&&◌, ◌≡◌, refl, ◌∙◌, inl, inr, Option, none, some, List,
  [], ◌∷◌, Bytes, length, ltb, Bool-cases, arith, Result, ok, err, >>=-eq-ok, ok-injective,
  get_elem?,
}
use go_flux.Bytecode.Chunk.{Prototype, code}
use go_flux.Bytecode.Builtins.{lookup_builtin}
use go_flux.Vm.State.{Value, Function, Frame, Vm, Stop, Step, Platform}
use go_flux.Vm.Frames.{lift, push_frame, push_proto, set_args}
use go_flux.Vm.Run.{
  fetched, fetch, run_frame, round_at, round, follow, loop, enter, reset_state, run_as, run,
}
use go_flux.Vm.Limit.Keeps.{Bounded, Keeps, stops, goes}
use go_flux.Vm.Limit.Frames.{finish_frame-Keeps, lift-eq-ok}
use go_flux.Vm.Limit.Rounds.{
  NativeKeeps, dispatch-Keeps, Adds, push_proto-Adds, Bounded-Same, fill_locals-Same,
}

-- The rounds that the limit allows: two for each instruction that may still be counted (one that
-- calls, and one that ends the frame called), and one for each frame there is.
abbrev pub work : Vm → ℕ
work vm = 2 * (vm.inst_limit + 1 - vm.inst_count) + length vm.frames

-- A step that goes on leaves the limit alone and less work.
abbrev Falls : Vm → Step Vm → Type 0
Falls vm (err s) = Unit
Falls vm (ok w) = (w.inst_limit ≡ vm.inst_limit) × (work w < work vm)

counted :
    (vm below : Vm) (r : Step Vm)
    → (below.inst_limit ≡ vm.inst_limit)
      × (below.inst_count ≡ vm.inst_count + 1)
      × (length vm.frames ≡ suc (length below.frames))
    → vm.inst_count + 1 ≤ vm.inst_limit
    → Keeps 2 below r
    → Falls vm r
counted vm below (err s) h k stops = tt
counted vm below (ok w) (l, c, f) k (goes b) =
    (b.limit ∙ l, omega (arith, b.limit, b.count, b.frames, l, c, f))

finished :
    (vm below : Vm) (r : Step Vm)
    → (below.inst_limit ≡ vm.inst_limit)
      × (below.inst_count ≡ vm.inst_count)
      × (length vm.frames ≡ suc (length below.frames))
    → Keeps 0 below r
    → Falls vm r
finished vm below (err s) h stops = tt
finished vm below (ok w) (l, c, f) (goes b) =
    (b.limit ∙ l, omega (arith, b.limit, b.count, b.frames, l, c, f))

follow_total :
    (vm : Vm) (next : Vm → Option Stop) (r : Step Vm)
    → Falls vm r
    → ((w : Vm) → w.inst_limit ≡ vm.inst_limit → work w < work vm → (s : Stop) × (next w ≡ some s))
    → (s : Stop) × (follow next r ≡ some s)
unfolding follow
follow_total vm next (err s) f h = (s, refl)
follow_total vm next (ok w) (l, k) h = h w l k

-- A call that sets up its frame has one frame more, and counts nothing.
enter-Bounded :
    (fn : Function) (args : List Value) (vm : Vm) {w : Vm}
    → enter fn args vm ≡ ok w
    → Bounded 1 vm w
unfolding enter push_frame set_args
enter-Bounded fn args vm e =
    let (v, p, q) = >>=-eq-ok (lift (push_proto fn fn.proto vm)) _ e in
    let b : Adds vm (ok v) = rw (lift-eq-ok _ p) at (push_proto-Adds fn fn.proto vm) in
    rw (← ok-injective q) (Bounded-Same b (fill_locals-Same v.frames args v))

module _ (host : Platform) (native : ℕ → Vm → List Value → Result Bytes (Value × Vm))
    (natives : NativeKeeps native) where
  fetch-Falls :
      (vm : Vm) (o : Option ℕ) (p : Prototype) (fr : Frame) (below : List Frame)
      → 0 < vm.inst_limit
      → length vm.frames ≡ suc (length below)
      → Falls vm (fetch host native o p fr (record vm { frames = below }))
  unfolding fetch fetched
  fetch-Falls vm none p fr below h f =
      finished vm (record vm { frames = below }) _ (refl, refl, f) (finish_frame-Keeps _ fr _)
  fetch-Falls vm (some b) p fr below h f =
      elim (Bool-cases (ltb 0 vm.inst_limit && ltb vm.inst_limit (vm.inst_count + 1))) [
        | inl e ↦ rw e tt
        | inr e ↦ rw e (
            counted vm (record vm { inst_count = vm.inst_count + 1; frames = below }) _
              (refl, refl, f) (ground arith)
              (dispatch-Keeps host native natives b (lookup_builtin b) p _ _))
      ]

  run_frame-Falls :
      (vm : Vm) (o : Option Prototype) (fr : Frame) (below : List Frame)
      → 0 < vm.inst_limit
      → length vm.frames ≡ suc (length below)
      → Falls vm (run_frame host native o fr (record vm { frames = below }))
  unfolding run_frame
  run_frame-Falls vm none fr below h f = tt
  run_frame-Falls vm (some p) fr below h f =
      fetch-Falls vm (get_elem? (code p) fr.ip) p fr below h f

  round_at-Falls :
      (vm : Vm) (frs : List Frame)
      → vm.frames ≡ frs
      → 0 < vm.inst_limit
      → Falls vm (round_at host native frs vm)
  unfolding round_at
  round_at-Falls vm [] e h = tt
  round_at-Falls vm (fr ∷ below) e h =
      run_frame-Falls vm (fr.fn).proto (record fr { last_op = some fr.ip }) below h
        (ground (arith, e))

  -- Enough fuel for the work left gives a result.
  loop_total :
      (fuel : ℕ) (vm : Vm)
      → 0 < vm.inst_limit
      → work vm < fuel
      → (s : Stop) × (loop host native fuel vm ≡ some s)
  unfolding loop round
  loop_total zero vm h k = absurd (omega arith)
  loop_total (suc fuel) vm h k =
      follow_total vm (loop host native fuel) (round_at host native vm.frames vm)
        (round_at-Falls vm vm.frames refl h)
        (λ w l j. loop_total fuel w (omega (arith, l)) (omega arith))

  entered_total :
      (fuel : ℕ) (fn : Function) (args : List Value) (vm : Vm)
      → 0 < vm.inst_limit
      → 2 * vm.inst_limit + 3 < fuel
      → (r : Step Vm) → enter fn args (reset_state vm) ≡ r
      → (s : Stop) × (follow (loop host native fuel) r ≡ some s)
  unfolding follow reset_state
  entered_total fuel fn args vm h k (err s) e = (s, refl)
  entered_total fuel fn args vm h k (ok w) e =
      let b : Bounded 1 (reset_state vm) w = enter-Bounded fn args (reset_state vm) e in
      loop_total fuel w (omega (arith, b.limit)) (omega (arith, b.limit, b.count, b.frames))

  -- With an instruction limit `n` above 0 and a fuel above 2 * n + 3 rounds of the loop, `Run` ends
  -- before the fuel does, whatever the function, its arguments and the machine, if native functions
  -- leave the counters and the frames as they find them.
  pub run_total :
      (fuel : ℕ) (fn : Function) (args : List Value) (vm : Vm)
      → 0 < vm.inst_limit
      → 2 * vm.inst_limit + 3 < fuel
      → (s : Stop) × (run host native fuel fn args vm ≡ some s)
  unfolding run
  run_total fuel fn args vm h k = go fn.native
    where
      go :
          (o : Option ℕ)
          → (s : Stop) × (run_as host native o fuel fn args (reset_state vm) ≡ some s)
      go (some i) = (_, unfold run_as in refl)
      go none = unfold run_as in entered_total fuel fn args vm h k _ refl
