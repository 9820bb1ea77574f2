-- ===== src/Base/Tests.antt =====
-- Boolean tests on native numbers, the conditional, and the loop of Go's `for cond { body }`.
use Prim.Native.Nat.{ℕ, zero, suc, ◌≤◌, ◌<◌, compare, Ordering}
use mathlib.Core.Path.{◌≡◌, refl}
use mathlib.Core.Logic.{◌≢◌, ◌↔◌, ◌⊎◌, inl, inr}
use mathlib.Core.Bool.{Bool, true, false}
use mathlib.Core.Option.{Option, none, some}
use native.Mathlib.Omega.{arith}

abbrev pub ltb : ℕ → ℕ → Bool
ltb a b = elim (compare a b) [ Ordering.lt ↦ true | _ ↦ false ]

abbrev pub leb : ℕ → ℕ → Bool
leb a b = elim (compare a b) [ Ordering.gt ↦ false | _ ↦ true ]

infix 50 ◌==◌
abbrev pub ◌==◌ : ℕ → ℕ → Bool
a == b = elim (compare a b) [ Ordering.eq ↦ true | _ ↦ false ]

infix 1 if◌then◌else◌
abbrev pub if◌then◌else◌ {ℓ} : {A : Type ℓ} → Bool → A → A → A
if true then x else y = x
if false then x else y = y

pub ltb→lt : (a b : ℕ) → ltb a b ≡ true → a < b
ltb→lt a b h = ground arith

pub lt→ltb : (a b : ℕ) → a < b → ltb a b ≡ true
lt→ltb a b h = ground arith

pub ltb→le : (a b : ℕ) → ltb a b ≡ false → b ≤ a
ltb→le a b h = ground arith

pub le→ltb : (a b : ℕ) → b ≤ a → ltb a b ≡ false
le→ltb a b h = ground arith

pub ==_iff : (a b : ℕ) → ((a == b) ≡ true) ↔ (a ≡ b)
==_iff a b = ground arith

pub eq_or_ne : (a b : ℕ) → (a ≡ b) ⊎ (a ≢ b)
eq_or_ne a b = ground arith

-- To split on a computed value and keep the equation.
pub Bool-cases : (b : Bool) → (b ≡ true) ⊎ (b ≡ false)
Bool-cases true = inl refl
Bool-cases false = inr refl

pub Option-cases {ℓ} : {A : Type ℓ} (o : Option A) → (o ≡ none) ⊎ ((a : A) × (o ≡ some a))
Option-cases none = inl refl
Option-cases (some a) = inr (a, refl)

pub some-injective {ℓ} : {A : Type ℓ} {a b : A} → some a ≡ some b → a ≡ b
some-injective h = cc

module _ {ℓ} {S : Type ℓ} where
  -- `for test(s) { s = body(s) }`, for at most so many rounds.
  unfoldable pub while : (test : S → Bool) (body : S → S) → ℕ → S → S
  while test body zero s = s
  while test body (suc rounds) s = elim (test s) [
    | false ↦ s
    | true ↦ while test body rounds (body s)
  ]

  -- What holds of two values holds of the one that a test chooses.
  pub if_both {κ} : (Q : S → Type κ) (test : Bool) {s t : S} → Q s → Q t → Q (if test then s else t)
  if_both Q false {s} {t} on_true on_false = on_false
  if_both Q true {s} {t} on_true on_false = on_true

module _ {ℓ κ} {S : Type ℓ} {test : S → Bool} {body : S → S} (Inv : S → Type κ) (size : S → ℕ)
    (round_lem : (s : S) → test s ≡ true → Inv s → (size (body s) < size s) × Inv (body s)) where
  -- A loop whose rounds make its state smaller and keep an invariant: more rounds than the size of
  -- the first state are enough for its test to fail, and the invariant holds then.
  pub while-Inv :
      (rounds : ℕ) (s : S)
      → Inv s
      → size s < rounds
      → (test (while test body rounds s) ≡ false) × Inv (while test body rounds s)
  unfolding while
  while-Inv zero s inv enough = absurd (omega arith)
  while-Inv (suc rounds) s inv enough = elim (Bool-cases (test s)) [
    | inl goes ↦
        let (less, kept) = round_lem s goes inv in
        rw (while, goes) (while-Inv rounds (body s) kept (omega arith))
    | inr ends ↦ rw (while, ends) (ends, inv)
  ]
