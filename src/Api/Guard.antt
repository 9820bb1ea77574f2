-- ===== src/Api/Guard.antt =====
-- api.go: the busy flag lets one goroutine at the machine, and each call ends with one result.
use go_flux.Base.{
  Each-append, Each-set, some-injective, ℕ, zero, suc, ◌+◌, ◌≤◌, ◌≡◌, ◌≢◌, refl, Bool, true, false,
  some, List, [], ◌∷◌, ◌++◌, get_elem?, set, eq_or_ne, inl, inr, ap, arith,
}
use go_flux.Api.Calls.{Stage, running, sent, Call, HostVm}

-- Whether a goroutine at a stage holds the flag, and how many results it has sent.
abbrev pub holds : Stage → ℕ
holds (running ended name args) = 1
holds sent = 1
holds _ = 0

abbrev pub results : Stage → ℕ
results (running ended name args) = 0
results _ = 1

abbrev pub holders : List Call → ℕ
holders [] = 0
holders (c ∷ cs) = holds c.stage + holders cs

abbrev pub flag : Bool → ℕ
flag true = 1
flag false = 0

pub holders-append :
    (cs : List Call) (c : Call) → holders (cs ++ c ∷ []) ≡ holders cs + holds c.stage
holders-append [] c = omega arith
holders-append (d ∷ cs) c = omega (arith, holders-append cs c)

pub holders-set :
    (cs : List Call) (i : ℕ) (c d : Call)
    → get_elem? cs i ≡ some c
    → holders (set cs i d) + holds c.stage ≡ holders cs + holds d.stage
holders-set [] i c d e = cc
holders-set (b ∷ cs) zero c d e = omega (arith, ap (λ (x : Call). holds x.stage) (some-injective e))
holders-set (b ∷ cs) (suc i) c d e = omega (arith, holders-set cs i c d e)

-- What holds of a goroutine holds of those that hold the flag together.
pub holders-get :
    (cs : List Call) (i : ℕ) (c : Call) → get_elem? cs i ≡ some c → holds c.stage ≤ holders cs
holders-get [] i c e = cc
holders-get (b ∷ cs) zero c e = omega (arith, ap (λ (x : Call). holds x.stage) (some-injective e))
holders-get (b ∷ cs) (suc i) c e = omega (arith, holders-get cs i c e)

pub holders-two :
    (cs : List Call) (i j : ℕ) (c d : Call)
    → get_elem? cs i ≡ some c
    → get_elem? cs j ≡ some d
    → i ≢ j
    → holds c.stage + holds d.stage ≤ holders cs
holders-two [] i j c d e f n = cc
holders-two (b ∷ cs) zero zero c d e f n = absurd (n refl)
holders-two (b ∷ cs) zero (suc j) c d e f n =
    omega (arith, ap (λ (x : Call). holds x.stage) (some-injective e), holders-get cs j d f)
holders-two (b ∷ cs) (suc i) zero c d e f n =
    omega (arith, ap (λ (x : Call). holds x.stage) (some-injective f), holders-get cs i c e)
holders-two (b ∷ cs) (suc i) (suc j) c d e f n =
    omega (arith, holders-two cs i j c d e f (λ q. n (ap suc q)))

pub holders-find :
    (cs : List Call)
    → holders cs ≢ 0
    → (i : ℕ) × (c : Call) × (get_elem? cs i ≡ some c) × (holds c.stage ≢ 0)
holders-find [] h = absurd (h refl)
holders-find (b ∷ cs) h = elim (eq_or_ne (holds b.stage) 0) [
  | inl none_here ↦ let (i, c, e, q) = holders-find cs (λ z. h (omega arith)) in (suc i, c, e, q)
  | inr here ↦ (0, b, refl, here)
]

-- The flag counts those that hold it, and each call has sent what its stage says.
pub record IsGuarded (h : HostVm) : Type 0 where
  pub guard : holders h.calls + h.readers ≡ flag h.busy
  pub sends : (i : ℕ) (c : Call) → get_elem? h.calls i ≡ some c → c.sends ≡ results c.stage

module _ (h : HostVm) (g : IsGuarded h) where
  abbrev pub Sends : List Call → Type 0
  Sends cs = (i : ℕ) (c : Call) → get_elem? cs i ≡ some c → c.sends ≡ results c.stage

  pub sends_append : (c : Call) → c.sends ≡ results c.stage → Sends (h.calls ++ c ∷ [])
  sends_append c p = Each-append (λ i d. d.sends ≡ results d.stage) h.calls c p g.sends

  pub sends_set :
      (k : ℕ) (c d : Call)
      → get_elem? h.calls k ≡ some c
      → d.sends ≡ results d.stage
      → Sends (set h.calls k d)
  sends_set k c d e p = Each-set (λ i x. x.sends ≡ results x.stage) h.calls k d p g.sends
