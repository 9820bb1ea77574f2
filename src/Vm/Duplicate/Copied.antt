-- ===== src/Vm/Duplicate/Copied.antt =====
-- internal/vm/duplicate.go: a map of clones and the cells that they are, some of them still unfinished.
use go_flux.Base.{
  some-injective, ℕ, ◌<◌, ◌≡◌, sym, ◌∙◌, ◌==◌, Option, none, some, List, [], ◌∷◌, ◌++◌, length,
  length-append, length-set, get_elem?, set, get_elem?-append_left, get_elem?-set_ne,
  get_elem?-eq-some, eq_or_ne, ==_iff, Bool-cases, ◌⊎◌, inl, inr, arith,
}
use mathlib.Core.Path.{subst}
use go_flux.Vm.Duplicate.{Memo, clone_of}

-- What is there in a list stays there.
abbrev pub Keeps : {A : Type 0} → List A → List A → Type 0
Keeps {A} xs ys = (i : ℕ) (x : A) → get_elem? xs i ≡ some x → get_elem? ys i ≡ some x

-- Clones that are there stay those of their cells.
abbrev pub MoreClones : Memo → Memo → Type 0
MoreClones m n = (r c : ℕ) → clone_of r m ≡ some c → clone_of r n ≡ some c

pub clone_of-cons : (r c : ℕ) (m : Memo) → clone_of r ((r, c) ∷ m) ≡ some c
unfolding clone_of
clone_of-cons r c m = ground (arith, ==_iff r r)

-- The map with one more entry
clone_of-cases :
    (q r c d : ℕ) (m : Memo)
    → clone_of q ((r, c) ∷ m) ≡ some d
    → ((q ≡ r) × (d ≡ c)) ⊎ (clone_of q m ≡ some d)
unfolding clone_of
clone_of-cases q r c d m e = elim (Bool-cases (r == q)) [
  | inl same ↦
      let f : some c ≡ some d = rw (clone_of, same) at e in
      inl ((sym ((==_iff r q).0 same)), sym (some-injective f))
  | inr other ↦ inr (rw (clone_of, other) at e)
]

pub MoreClones-cons : (r c : ℕ) (m : Memo) → clone_of r m ≡ none → MoreClones m ((r, c) ∷ m)
unfolding clone_of
MoreClones-cons r c m none_yet q d e = elim (Bool-cases (r == q)) [
  | inl same ↦ let f : r ≡ q = (==_iff r q).0 same in absurd (contradiction (rw f at none_yet) e)
  | inr other ↦ rw (clone_of, other) e
]
  where
    contradiction : {a : Option ℕ} {b : ℕ} → a ≡ none → a ≡ some b → ⊥
    contradiction p q = cc

pub Keeps-append : {A : Type 0} (xs : List A) (x : A) → Keeps xs (xs ++ x ∷ [])
Keeps-append xs x i y e = rw (get_elem?-append_left xs (x ∷ []) i (get_elem?-eq-some xs i e)) e

-- Each clone is a cell of its own, and what it holds is as `Done` says of what is cloned, unless that is
-- `Open`.
pub record Copied {A : Type 0} (Open : ℕ → Type 0) (Done : ℕ → A → Type 0) (m : Memo) (xs : List A)
    : Type 0 where
  pub finished :
      (r c : ℕ) → clone_of r m ≡ some c → Open r ⊎ ((x : A) × (get_elem? xs c ≡ some x) × Done r x)
  pub bound : (r c : ℕ) → clone_of r m ≡ some c → c < length xs
  pub apart : (q r c : ℕ) → clone_of q m ≡ some c → clone_of r m ≡ some c → q ≡ r

-- One more cell is open.
abbrev pub OrIs : (ℕ → Type 0) → ℕ → ℕ → Type 0
OrIs Open r q = Open q ⊎ (q ≡ r)

module _ {A : Type 0} (Open : ℕ → Type 0) (Done : ℕ → A → Type 0) (m : Memo) (xs : List A)
    (h : Copied Open Done m xs) where
  pub Copied-weaken :
      (Done' : ℕ → A → Type 0) → ((r : ℕ) (x : A) → Done r x → Done' r x) → Copied Open Done' m xs
  Copied-weaken Done' f = record {
    finished =
        λ r c e. elim (h.finished r c e) [ inl o ↦ inl o | inr (x, g, d) ↦ inr (x, g, f r x d) ];
    bound = h.bound;
    apart = h.apart;
  }

  pub Copied-append :
      (r : ℕ) (x : A) → Copied (OrIs Open r) Done ((r, length xs) ∷ m) (xs ++ x ∷ [])
  Copied-append r x = record {
    finished = λ q c e. elim (clone_of-cases q r (length xs) c m e) [
      | inl (same, _) ↦ inl (inr same)
      | inr old ↦ elim (h.finished q c old) [
        | inl o ↦ inl (inl o)
        | inr (y, g, d) ↦ inr (y, Keeps-append xs x c y g, d)
      ]
    ];
    bound = λ q c e. elim (clone_of-cases q r (length xs) c m e) [
      | inl (_, at) ↦ omega (arith, at, length-append xs (x ∷ []))
      | inr old ↦ omega (arith, h.bound q c old, length-append xs (x ∷ []))
    ];
    apart = λ p q c e f. elim (clone_of-cases p r (length xs) c m e) [
      | inl (same, at) ↦ elim (clone_of-cases q r (length xs) c m f) [
        | inl (same', _) ↦ same ∙ sym same'
        | inr old ↦ absurd (omega (arith, at, h.bound q c old))
      ]
      | inr old ↦ elim (clone_of-cases q r (length xs) c m f) [
        | inl (_, at) ↦ absurd (omega (arith, at, h.bound p c old))
        | inr old' ↦ h.apart p q c old old'
      ]
    ];
  }

  pub Copied-set :
      (r out : ℕ) (x : A) → Open r → clone_of r m ≡ some out → Copied Open Done m (set xs out x)
  Copied-set r out x o at = record {
    finished = λ q c e. elim (eq_or_ne out c) [
      | inl same ↦ let f : r ≡ q = h.apart r q out at (rw (← same) at e) in inl (subst Open f o)
      | inr other ↦ elim (h.finished q c e) [
        | inl p ↦ inl p
        | inr (y, g, d) ↦ inr (y, rw (get_elem?-set_ne xs out c x other) g, d)
      ]
    ];
    bound = λ q c e. omega (arith, h.bound q c e, length-set xs out x);
    apart = h.apart;
  }

module _ {A : Type 0} (Open : ℕ → Type 0) (Done : ℕ → A → Type 0) (m : Memo) (xs : List A) where
  pub Copied-close :
      (r out : ℕ) (x : A)
      → Copied (OrIs Open r) Done m xs
      → clone_of r m ≡ some out
      → get_elem? xs out ≡ some x
      → Done r x
      → Copied Open Done m xs
  Copied-close r out x h at g d = record {
    finished = λ q c e. elim (h.finished q c e) [
      | inl (inl o) ↦ inl o
      | inl (inr same) ↦
          let f : some out ≡ some c = sym at ∙ (rw same at e) in
          inr (
            x,
            subst (λ k. get_elem? xs k ≡ some x) (some-injective f) g,
            subst (λ k. Done k x) (sym same) d,
          )
      | inr done ↦ inr done
    ];
    bound = h.bound;
    apart = h.apart;
  }
