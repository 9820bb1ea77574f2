-- ===== src/Lexer/Advance.antt =====
-- How far a cursor has read: what is reached from it by `read_char`, and how much is left.
use mathlib.Core.Bool.{false≢true}
use go_flux.Base.{
  ℕ, ◌+◌, ◌≤◌, ◌<◌, Bool, true, false, ◌≡◌, refl, sym, ◌∙◌, ◌⊎◌, inl, inr, Bytes, length, ◌==◌,
  if◌then◌else◌, arith, while, while-Inv,
}
use go_flux.Lexer.State.{Cursor, read_char, rounds}
use go_flux.Lexer.Scan.{read_while}

-- `d` is `c` after some bytes more were read, one at a time.
pub data Advances (c : Cursor) : Cursor → Type 0 where
  here : Advances c c
  further : {d : Cursor} → Advances c d → Advances c (read_char d)

pub Advances-trans : {c d e : Cursor} → Advances c d → Advances d e → Advances c e
Advances-trans h here = h
Advances-trans h (further k) = further (Advances-trans h k)

pub Advances-cases : {c d : Cursor} → Advances c d → (d ≡ c) ⊎ Advances (read_char c) d
Advances-cases here = inl refl
Advances-cases (further {d} h) = elim (Advances-cases h) [
  | inl e ↦ inr (rw e here)
  | inr k ↦ inr (further k)
]

pub Advances-read_char : (c : Cursor) → Advances c (read_char c)
Advances-read_char c = further here

-- The bytes left, the current one included.
abbrev pub left : Cursor → ℕ
left c = length c.unread + (if c.ch == 0 then 0 else 1)

pub left-read_char : (c : Cursor) → left (read_char c) ≤ left c
unfolding read_char
left-read_char c = ground arith

pub left-read_char_lt : (c : Cursor) → (c.ch == 0) ≡ false → left (read_char c) < left c
unfolding read_char
left-read_char_lt c h = ground arith

pub unread-read_char : (c : Cursor) → length (read_char c).unread ≤ length c.unread
unfolding read_char
unread-read_char c = ground arith

-- Unless it finds the end of the input, a read takes a byte.
pub unread-read_char_lt :
    (c : Cursor) → ((read_char c).ch == 0) ≡ false → length (read_char c).unread < length c.unread
unfolding read_char
unread-read_char_lt c h = ground arith

pub Advances-left : {c d : Cursor} → Advances c d → left d ≤ left c
Advances-left here = omega arith
Advances-left (further {d} h) = omega (arith, left-read_char d, Advances-left h)

pub Advances-left_lt :
    (c : Cursor) {d : Cursor} → (c.ch == 0) ≡ false → Advances (read_char c) d → left d < left c
Advances-left_lt c h k = omega (arith, left-read_char_lt c h, Advances-left k)

module _ (test : Cursor → Bool) (stops : (d : Cursor) → test d ≡ true → (d.ch == 0) ≡ false) where
  -- A loop that stops at the end of the input reads on until its test fails.
  pub while-Advances :
      (c : Cursor)
      → (test (while test read_char (rounds c) c) ≡ false)
        × Advances c (while test read_char (rounds c) c)
  while-Advances c =
      while-Inv (Advances c) left (λ d t h. (left-read_char_lt d (stops d t), further h)) (rounds c)
        c here (ground arith)

  -- Where its test holds at first, it takes at least the current byte.
  pub while-Advances_some :
      (c : Cursor) → test c ≡ true → Advances (read_char c) (while test read_char (rounds c) c)
  while-Advances_some c t =
      let (f, h) = while-Advances c in
      elim (Advances-cases h) [ inl e ↦ absurd (false≢true (rw e at (sym f) ∙ t)) | inr k ↦ k ]

module _ (test : ℕ → Bool) (stops : (ch : ℕ) → test ch ≡ true → (ch == 0) ≡ false) where
  -- So does a loop that collects what it reads.
  pub read_while-Advances :
      (c : Cursor) (sb : Bytes)
      → (test ((read_while test (c, sb)).0).ch ≡ false) × Advances c (read_while test (c, sb)).0
  unfolding read_while
  read_while-Advances c sb =
      while-Inv {S = Cursor × Bytes} (λ s. Advances c s.0) (λ s. left s.0)
        (λ s t h. (left-read_char_lt s.0 (stops (s.0).ch t), further h)) (rounds c) (c, sb) here
        (ground arith)

  -- Where its test holds at first, it takes at least the current byte.
  pub read_while-Advances_some :
      (c : Cursor) (sb : Bytes)
      → test c.ch ≡ true
      → Advances (read_char c) (read_while test (c, sb)).0
  read_while-Advances_some c sb t =
      let (f, h) = read_while-Advances c sb in
      elim (Advances-cases h) [ inl e ↦ absurd (false≢true (rw e at (sym f) ∙ t)) | inr k ↦ k ]
