-- ===== src/Lexer/Places.antt =====
-- internal/lexer/lexer.go: the positions of the tokens.
use go_flux.Base.{
  ℕ, zero, suc, ◌≤◌, ◌≡◌, refl, ap, ◌∙◌, append-nil, length, inl, inr, if_both, ◌+◌, List, [], ◌∷◌,
  Option, none, some, Bytes, arith,
}
use go_flux.Token.{Token, is_eof}
use go_flux.Lexer.State.{Cursor, Lexer, new, read_char, read_from}
use go_flux.Lexer.Next.{next_token}
use go_flux.Lexer.Advance.{Advances, here, further}
use go_flux.Lexer.Stream.{prepend, gather, tokens, tokens_end}
use go_flux.Lexer.Positions.{Tracks, Advances-Tracks, new-Tracks}
use go_flux.Lexer.Anchors.{place, Starts, Placed, next_token-Placed}

-- A token starts at a place of the input, which is that of a cursor that tracks it.
abbrev pub IsPlaced : Bytes → Token → Type 0
IsPlaced input t = (c : Cursor) × Tracks input c × (t.pos ≡ place c) × Starts t c.ch

-- Each token of a list is at a place of the input, none before the one in front of it; `from` is the
-- least offset that the first may have.
abbrev pub ArePlaced : Bytes → ℕ → List Token → Type 0
ArePlaced input from [] = Unit
ArePlaced input from (t ∷ ts) =
    IsPlaced input t × (from ≤ (t.pos).offset) × ArePlaced input (t.pos).offset ts

abbrev AllPlaced : Bytes → ℕ → Option (List Token) → Type 0
AllPlaced input from none = Unit
AllPlaced input from (some ts) = ArePlaced input from ts

module _ (input : Bytes) where
  pos-le-read_pos : (c : Cursor) → Tracks input c → c.pos ≤ c.read_pos
  pos-le-read_pos c h = elim h.pos_is [
    | inl k ↦ omega (arith, k.0)
    | inr (k, z, e) ↦
        let whole : input ≡ h.counts.done = h.counts.splits ∙ rw (e, append-nil) in
        let same : length input ≡ length h.counts.done = ap length whole in
        omega (arith, k, same, h.counts.read_pos_is)
  ]

  read_char-pos : (c : Cursor) → (read_char c).pos ≡ c.read_pos
  unfolding read_char read_from
  read_char-pos c = go c.unread
    where
      go : (u : Bytes) → (read_from u c).pos ≡ c.read_pos
      go [] = refl
      go (b ∷ bs) = refl

  Advances-pos : {c d : Cursor} → Advances c d → Tracks input c → c.pos ≤ d.pos
  Advances-pos here h = omega arith
  Advances-pos {c} (further {d} k) h =
      omega
        (arith, Advances-pos k h, pos-le-read_pos d (Advances-Tracks input k h), read_char-pos d)

  prepend-AllPlaced :
      (from : ℕ) (t : Token) (r : Option (List Token))
      → IsPlaced input t
      → from ≤ (t.pos).offset
      → AllPlaced input (t.pos).offset r
      → AllPlaced input from (prepend t r)
  prepend-AllPlaced from t none p q h = tt
  prepend-AllPlaced from t (some ts) p q h = (p, q, h)

  gather-AllPlaced :
      (from : ℕ) (c : Cursor) (next : Lexer → Option (List Token)) (r : Option (Token × Lexer))
      → Tracks input c
      → from ≤ c.pos
      → Placed c r
      → ((l : Lexer) (from : ℕ)
          → Tracks input l.cursor
          → from ≤ l.cursor.pos
          → AllPlaced input from (next l))
      → AllPlaced input from (gather next r)
  unfolding gather
  gather-AllPlaced from c next none h le p k = tt
  gather-AllPlaced from c next (some (t, l)) h le (d, to, on, e, b) k =
      let there = Advances-Tracks input to h in
      let is_placed : IsPlaced input t = (d, there, e, b) in
      let later : from ≤ (t.pos).offset = rw e (omega (arith, Advances-pos to h)) in
      if_both (AllPlaced input from) (is_eof t.type) (is_placed, later, tt)
        (prepend-AllPlaced from t (next l) is_placed later
          (k l (t.pos).offset (Advances-Tracks input on there) (rw e (Advances-pos on there))))

  tokens-AllPlaced :
      (fuel : ℕ) (l : Lexer) (from : ℕ)
      → Tracks input l.cursor
      → from ≤ l.cursor.pos
      → AllPlaced input from (tokens fuel l)
  unfolding tokens
  tokens-AllPlaced zero l from h le = tt
  tokens-AllPlaced (suc fuel) l from h le =
      gather-AllPlaced from l.cursor (tokens fuel) (next_token l) h le (next_token-Placed l)
        (tokens-AllPlaced fuel)

-- Lexing an input from `New` to its end gives tokens in the order of their offsets, each at a place
-- of the input. The byte at the offset is the first of the literal, the second for an operator of
-- two bytes, the quote of a string, the dollar of a variable, the newline of a newline token, and 0
-- for the end of the input; nothing is said of it for an illegal token. The line is one more than
-- the newlines up to and with that byte, and the column counts the bytes behind the last of these,
-- so that a newline token is on the line behind it, at column 0.
pub tokens-ArePlaced :
    (input : Bytes)
    → (ts : List Token) × (tokens (length input + 1) (new input) ≡ some ts) × ArePlaced input 0 ts
tokens-ArePlaced input =
    let (ts, e, end, few) = tokens_end input in
    let all =
      tokens-AllPlaced input (length input + 1) (new input) 0 (new-Tracks input) (omega arith) in
    (ts, e, rw e at all)
