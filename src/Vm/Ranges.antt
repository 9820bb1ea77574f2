-- ===== src/Vm/Ranges.antt =====
-- internal/vm/vm.go, `buildRange`, and internal/vm/value.go, `toIterator` and `Next` on an array.
use go_flux.Base.{
  ℕ, zero, suc, ◌+◌, ◌-◌, ◌≤◌, ◌<◌, Bool, true, false, ◌≡◌, refl, sym, ◌∙◌, ap, inl, inr, none,
  some, Option-cases, List, [], ◌∷◌, length, get_elem?, drop, ok, arith, get_elem?-append_head,
  ok-injective, get_elem?_ge, drop_end, drop_next,
}
use go_flux.Base.Int.{ℤ, pos, negsuc, next, previous, lt_int, distance}
use go_flux.Vm.State.{Value, number, array, Heap, Iterator, Platform, array_at, new_iterator}
use go_flux.Vm.Values.{count_up, count_down, build_range, to_iterator, iterator_next}

-- `n` steps up, and down.
abbrev pub up : ℕ → ℤ → ℤ
up zero i = i
up (suc n) i = up n (next i)

abbrev pub down : ℕ → ℤ → ℤ
down zero i = i
down (suc n) i = down n (previous i)

up-pos : (n a : ℕ) → up n (pos a) ≡ pos (a + n)
up-pos zero a = ap pos (omega arith)
up-pos (suc n) a = up-pos n (a + 1) ∙ ap pos (omega arith)

up-negsuc : (a b n : ℕ) → n ≡ a - b → b ≤ a → up n (negsuc a) ≡ negsuc b
up-negsuc a b zero e h = ap negsuc (omega arith)
up-negsuc zero b (suc n) e h = absurd (omega arith)
up-negsuc (suc a) b (suc n) e h = up-negsuc a b n (omega arith) (omega arith)

up-zero : (a b : ℕ) → up (a + 1 + b) (negsuc a) ≡ pos b
up-zero zero b = let e : 1 + b ≡ suc b = omega arith in rw e (up-pos b 0 ∙ ap pos (omega arith))
up-zero (suc a) b = let e : suc a + 1 + b ≡ suc (a + 1 + b) = omega arith in rw e (up-zero a b)

down-negsuc : (n a : ℕ) → down n (negsuc a) ≡ negsuc (a + n)
down-negsuc zero a = ap negsuc (omega arith)
down-negsuc (suc n) a = down-negsuc n (a + 1) ∙ ap negsuc (omega arith)

down-pos : (a b n : ℕ) → n ≡ a - b → b ≤ a → down n (pos a) ≡ pos b
down-pos a b zero e h = ap pos (omega arith)
down-pos zero b (suc n) e h = absurd (omega arith)
down-pos (suc a) b (suc n) e h = down-pos a b n (omega arith) (omega arith)

down-zero : (a b : ℕ) → down (b + 1 + a) (pos a) ≡ negsuc b
down-zero zero b =
    let e : b + 1 + 0 ≡ suc b = omega arith in rw e (down-negsuc b 0 ∙ ap negsuc (omega arith))
down-zero (suc a) b = let e : b + 1 + suc a ≡ suc (b + 1 + a) = omega arith in rw e (down-zero a b)

-- The distance is what brings the one to the other.
up-distance : (a b : ℤ) → lt_int b a ≡ false → up (distance a b) a ≡ b
up-distance (pos a) (pos b) h = up-pos (b - a) a ∙ ap pos (ground arith)
up-distance (pos a) (negsuc b) h = cc
up-distance (negsuc a) (pos b) h = up-zero a b
up-distance (negsuc a) (negsuc b) h = up-negsuc a b (a - b) refl (ground arith)

down-distance : (a b : ℤ) → lt_int b a ≡ true → down (distance b a) a ≡ b
down-distance (pos a) (pos b) h = down-pos a b (a - b) refl (ground arith)
down-distance (pos a) (negsuc b) h = down-zero a b
down-distance (negsuc a) (pos b) h = cc
down-distance (negsuc a) (negsuc b) h = down-negsuc (b - a) a ∙ ap negsuc (ground arith)

module _ (host : Platform) where
  length-count_up : (n : ℕ) (i : ℤ) → length (count_up host n i) ≡ suc n
  unfolding count_up
  length-count_up zero i = refl
  length-count_up (suc n) i = ap suc (length-count_up n (next i))

  length-count_down : (n : ℕ) (i : ℤ) → length (count_down host n i) ≡ suc n
  unfolding count_down
  length-count_down zero i = refl
  length-count_down (suc n) i = ap suc (length-count_down n (previous i))

  get_elem?-count_up :
      (n k : ℕ) (i : ℤ)
      → k ≤ n
      → get_elem? (count_up host n i) k ≡ some (number (host.of_int (up k i)))
  unfolding count_up
  get_elem?-count_up zero zero i h = refl
  get_elem?-count_up zero (suc k) i h = absurd (omega arith)
  get_elem?-count_up (suc n) zero i h = refl
  get_elem?-count_up (suc n) (suc k) i h = get_elem?-count_up n k (next i) (omega arith)

  get_elem?-count_down :
      (n k : ℕ) (i : ℤ)
      → k ≤ n
      → get_elem? (count_down host n i) k ≡ some (number (host.of_int (down k i)))
  unfolding count_down
  get_elem?-count_down zero zero i h = refl
  get_elem?-count_down zero (suc k) i h = absurd (omega arith)
  get_elem?-count_down (suc n) zero i h = refl
  get_elem?-count_down (suc n) (suc k) i h = get_elem?-count_down n k (previous i) (omega arith)

  -- A range whose start is not above its end has one number for each step from the one to the
  -- other, both included: its element `k` is the number `k` steps above the start, and the number
  -- behind the last step is the end.
  pub build_range-up :
      (a b : ℤ) (k : ℕ)
      → lt_int b a ≡ false
      → k ≤ distance a b
      → (length (build_range host a b) ≡ suc (distance a b))
        × (get_elem? (build_range host a b) k ≡ some (number (host.of_int (up k a))))
        × (up (distance a b) a ≡ b)
  unfolding build_range
  build_range-up a b k h l =
      rw (build_range, h)
        (
          length-count_up (distance a b) a,
          get_elem?-count_up (distance a b) k a l,
          up-distance a b h,
        )

  -- A range whose start is above its end counts down, both included: its element `k` is the number
  -- `k` steps below the start, and the number behind the last step is the end.
  pub build_range-down :
      (a b : ℤ) (k : ℕ)
      → lt_int b a ≡ true
      → k ≤ distance b a
      → (length (build_range host a b) ≡ suc (distance b a))
        × (get_elem? (build_range host a b) k ≡ some (number (host.of_int (down k a))))
        × (down (distance b a) a ≡ b)
  unfolding build_range
  build_range-down a b k h l =
      rw (build_range, h)
        (
          length-count_down (distance b a) a,
          get_elem?-count_down (distance b a) k a l,
          down-distance a b h,
        )

  -- The values that `Next` gives, one after the other, in at most `n` rounds.
  abbrev pub visited : ℕ → Heap → Iterator → List Value
  visited zero h it = []
  visited (suc n) h it = elim (iterator_next host h it) [
    | some (k, v, it') ↦ v ∷ visited n h it'
    | none ↦ []
  ]

  visited-drop :
      (n r i : ℕ) (h : Heap)
      → length (array_at h r) < n + i
      → visited n h (record { arr = some r; obj = none; keys = []; index = i })
        ≡ drop i (array_at h r)
  unfolding iterator_next
  visited-drop zero r i h l =
      sym (drop_end (array_at h r) i (get_elem?_ge (array_at h r) i (omega arith)))
  visited-drop (suc n) r i h l = elim (Option-cases (get_elem? (array_at h r) i)) [
    | inl e ↦ rw (visited, iterator_next, e) (sym (drop_end (array_at h r) i e))
    | inr (v, e) ↦
        let s : i + 1 ≡ suc i = omega arith in
        rw (visited, iterator_next, e)
          (ap (λ xs. v ∷ xs) (visited-drop n r (i + 1) h (omega arith) ∙ rw s refl)
            ∙ sym (drop_next (array_at h r) i e))
  ]

  -- The iterator that `toIterator` makes of an array (not a nil one) gives the array's elements in
  -- their order and then ends, in one round more than there are elements.
  pub to_iterator-visited :
      (h g : Heap) (r : ℕ) (ro : Bool) (j fuel : ℕ)
      → to_iterator host h (array (some r) ro) ≡ ok (j, g)
      → length (array_at h r) < fuel
      → (it : Iterator) × (get_elem? g.iterators j ≡ some it) × (visited fuel g it ≡ array_at h r)
  unfolding to_iterator new_iterator
  to_iterator-visited h g r ro j fuel e l =
      let start : Iterator = record { arr = some r; obj = none; keys = []; index = 0 } in
      let q = ok-injective e in
      (
        start,
        rw (← ap (λ (p : ℕ × Heap). p.1) q, ← ap (λ (p : ℕ × Heap). p.0) q)
            (get_elem?-append_head h.iterators [] start),
        rw (← ap (λ (p : ℕ × Heap). p.1) q)
            (visited-drop fuel r 0 (new_iterator start h).1 (omega arith)),
      )
