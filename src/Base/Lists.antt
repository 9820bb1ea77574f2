-- ===== src/Base/Lists.antt =====
-- Lists measured and indexed by native numbers, and byte strings: a Go string is a list of bytes.
use Prim.Native.Nat.{ℕ, zero, suc, ◌+◌, ◌-◌, ◌<◌, ◌≤◌}
use Prim.Native.Char.{code}
use Prim.Native.String.{String}
use mathlib.Core.Path.{◌≡◌, refl, ap, subst}
use mathlib.Core.Bool.{Bool, true, false, ◌&&◌}
use mathlib.Core.Logic.{◌↔◌, ◌≢◌, ◌⊎◌, inl, inr}
use mathlib.Core.List.{List, [], ◌∷◌, ◌++◌}
use mathlib.Core.Option.{Option, none, some}
use native.Mathlib.Omega.{arith}
use go_flux.Base.Tests.{◌==◌, eq_or_ne, some-injective}

abbrev pub Bytes : Type 0
Bytes = List ℕ

-- The bytes of an ASCII text.
abbrev pub codes : String → Bytes
codes String.[] = []
codes (String.◌∷◌ c s) = code c ∷ codes s

unfoldable pub bytes_eq : Bytes → Bytes → Bool
bytes_eq [] [] = true
bytes_eq (x ∷ xs) (y ∷ ys) = x == y && bytes_eq xs ys
bytes_eq _ _ = false

pub bytes_eq_iff : (a b : Bytes) → (bytes_eq a b ≡ true) ↔ (a ≡ b)
unfolding bytes_eq
bytes_eq_iff (x ∷ a) (y ∷ b) = ground (arith, bytes_eq_iff a b)
bytes_eq_iff _ _ = ground arith

pub bytes_eq_self : (a : Bytes) → bytes_eq a a ≡ true
bytes_eq_self a = (bytes_eq_iff a a).1 refl

module _ {ℓ} {A : Type ℓ} where
  abbrev pub length : List A → ℕ
  length [] = 0
  length (x ∷ xs) = suc (length xs)

  abbrev pub get_elem? : List A → ℕ → Option A
  get_elem? [] i = none
  get_elem? (x ∷ xs) zero = some x
  get_elem? (x ∷ xs) (suc i) = get_elem? xs i

  abbrev pub set : List A → ℕ → A → List A
  set [] i v = []
  set (x ∷ xs) zero v = v ∷ xs
  set (x ∷ xs) (suc i) v = x ∷ set xs i v

  abbrev pub replicate : ℕ → A → List A
  replicate zero a = []
  replicate (suc n) a = a ∷ replicate n a

  abbrev pub drop : ℕ → List A → List A
  drop zero xs = xs
  drop (suc n) [] = []
  drop (suc n) (x ∷ xs) = drop n xs

module _ {ℓ} {A : Type ℓ} where
  pub length-append : (xs ys : List A) → length (xs ++ ys) ≡ length xs + length ys
  length-append [] ys = omega arith
  length-append (x ∷ xs) ys = omega (arith, length-append xs ys)

  pub length-set : (xs : List A) (i : ℕ) (v : A) → length (set xs i v) ≡ length xs
  length-set [] i v = refl
  length-set (x ∷ xs) zero v = refl
  length-set (x ∷ xs) (suc i) v = ap suc (length-set xs i v)

  pub length-replicate : (n : ℕ) (a : A) → length (replicate n a) ≡ n
  length-replicate zero a = refl
  length-replicate (suc n) a = ap suc (length-replicate n a)

  pub length-drop : (n : ℕ) (xs : List A) → length (drop n xs) ≡ length xs - n
  length-drop zero xs = omega arith
  length-drop (suc n) [] = omega arith
  length-drop (suc n) (x ∷ xs) = omega (arith, length-drop n xs)

  pub get_elem?-set_self :
      (xs : List A) (i : ℕ) (v : A) → i < length xs → get_elem? (set xs i v) i ≡ some v
  get_elem?-set_self [] i v h = elim h [ ]
  get_elem?-set_self (x ∷ xs) zero v h = refl
  get_elem?-set_self (x ∷ xs) (suc i) v h = get_elem?-set_self xs i v (omega arith)

  pub get_elem?-set_ne :
      (xs : List A) (i j : ℕ) (v : A) → i ≢ j → get_elem? (set xs i v) j ≡ get_elem? xs j
  get_elem?-set_ne [] i j v h = refl
  get_elem?-set_ne (x ∷ xs) zero zero v h = absurd (h refl)
  get_elem?-set_ne (x ∷ xs) zero (suc j) v h = refl
  get_elem?-set_ne (x ∷ xs) (suc i) zero v h = refl
  get_elem?-set_ne (x ∷ xs) (suc i) (suc j) v h = get_elem?-set_ne xs i j v (λ e. h (ap suc e))

  pub get_elem?_lt : (xs : List A) (i : ℕ) → i < length xs → (a : A) × (get_elem? xs i ≡ some a)
  get_elem?_lt [] i h = elim h [ ]
  get_elem?_lt (x ∷ xs) zero h = (x, refl)
  get_elem?_lt (x ∷ xs) (suc i) h = get_elem?_lt xs i (omega arith)

  pub get_elem?_ge : (xs : List A) (i : ℕ) → length xs ≤ i → get_elem? xs i ≡ none
  get_elem?_ge [] i h = refl
  get_elem?_ge (x ∷ xs) zero h = absurd (omega arith)
  get_elem?_ge (x ∷ xs) (suc i) h = get_elem?_ge xs i (omega arith)

  pub get_elem?-append :
      (xs ys : List A) (i : ℕ) → get_elem? (xs ++ ys) (length xs + i) ≡ get_elem? ys i
  get_elem?-append [] ys i = let e : 0 + i ≡ i = omega arith in rw e
  get_elem?-append (x ∷ xs) ys i =
      let e : suc (length xs) + i ≡ suc (length xs + i) = omega arith in
      rw e (get_elem?-append xs ys i)

  pub get_elem?-append_left :
      (xs ys : List A) (i : ℕ) → i < length xs → get_elem? (xs ++ ys) i ≡ get_elem? xs i
  get_elem?-append_left [] ys i h = elim h [ ]
  get_elem?-append_left (x ∷ xs) ys zero h = refl
  get_elem?-append_left (x ∷ xs) ys (suc i) h = get_elem?-append_left xs ys i (omega arith)

  pub get_elem?-append_head :
      (xs ys : List A) (v : A) → get_elem? (xs ++ v ∷ ys) (length xs) ≡ some v
  get_elem?-append_head [] ys v = refl
  get_elem?-append_head (x ∷ xs) ys v = get_elem?-append_head xs ys v

  -- One more element at the end changes what is at its own index only.
  pub get_elem?-append_cases :
      (xs : List A) (v : A) (i : ℕ)
      → (get_elem? (xs ++ v ∷ []) i ≡ get_elem? xs i) ⊎ (i ≡ length xs)
  get_elem?-append_cases [] v zero = inr refl
  get_elem?-append_cases [] v (suc i) = inl refl
  get_elem?-append_cases (x ∷ xs) v zero = inl refl
  get_elem?-append_cases (x ∷ xs) v (suc i) = elim (get_elem?-append_cases xs v i) [
    | inl e ↦ inl e
    | inr e ↦ inr (ap suc e)
  ]

  pub get_elem?-eq-some : (xs : List A) (i : ℕ) {v : A} → get_elem? xs i ≡ some v → i < length xs
  get_elem?-eq-some [] i e = cc
  get_elem?-eq-some (x ∷ xs) zero e = omega arith
  get_elem?-eq-some (x ∷ xs) (suc i) e = omega (arith, get_elem?-eq-some xs i e)

  pub drop_end : (xs : List A) (i : ℕ) → get_elem? xs i ≡ none → drop i xs ≡ []
  drop_end [] zero e = refl
  drop_end [] (suc i) e = refl
  drop_end (x ∷ xs) zero e = cc
  drop_end (x ∷ xs) (suc i) e = drop_end xs i e

  pub drop_next :
      (xs : List A) (i : ℕ) {v : A} → get_elem? xs i ≡ some v → drop i xs ≡ v ∷ drop (suc i) xs
  drop_next [] i e = cc
  drop_next (x ∷ xs) zero e = cc
  drop_next (x ∷ xs) (suc i) e = drop_next xs i e

-- What holds of each element at its index
abbrev pub Each {ℓ κ} : {A : Type ℓ} → (ℕ → A → Type κ) → List A → Type (ℓ ⊔ κ)
Each {A} P xs = (i : ℕ) (x : A) → get_elem? xs i ≡ some x → P i x

module _ {ℓ κ} {A : Type ℓ} (P : ℕ → A → Type κ) where
  pub Each-append : (xs : List A) (x : A) → P (length xs) x → Each P xs → Each P (xs ++ x ∷ [])
  Each-append xs x p h i y e = elim (get_elem?-append_cases xs x i) [
    | inl same ↦ h i y (rw same at e)
    | inr last ↦
        let e1 : get_elem? (xs ++ x ∷ []) (length xs) ≡ some y = rw last at e in
        let e2 : some x ≡ some y = rw (get_elem?-append_head xs [] x) at e1 in
        rw last (subst (P (length xs)) (some-injective e2) p)
  ]

  pub Each-set : (xs : List A) (k : ℕ) (x : A) → P k x → Each P xs → Each P (set xs k x)
  Each-set xs k x p h i y e = elim (eq_or_ne k i) [
    | inl at ↦
        let lt : k < length xs =
          omega (arith, length-set xs k x, get_elem?-eq-some (set xs k x) i e) in
        let e1 : get_elem? (set xs k x) k ≡ some y = rw (← at) at e in
        let e2 : some x ≡ some y = rw (get_elem?-set_self xs k x lt) at e1 in
        rw (← at) (subst (P k) (some-injective e2) p)
    | inr other ↦ h i y (rw (get_elem?-set_ne xs k i x other) at e)
  ]
