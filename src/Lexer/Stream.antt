-- ===== src/Lexer/Stream.antt =====
-- internal/lexer/lexer.go: the tokens that repeated calls of `NextToken` give.
use mathlib.Core.Bool.{false≢true}
use go_flux.Base.{
  ℕ, zero, suc, ◌+◌, ◌<◌, false, ◌≡◌, refl, sym, ◌∙◌, Bool-cases, ◌⊎◌, inl, inr, List, [], ◌∷◌,
  Option, none, some, Bytes, length, if◌then◌else◌, arith,
}
use go_flux.Token.{eof, Token, is_eof, is_eof_iff}
use go_flux.Lexer.State.{Cursor, Lexer, start, new}
use go_flux.Lexer.Next.{next_token}
use go_flux.Lexer.Advance.{left}
use go_flux.Lexer.Progress.{Produces, next_token-Produces}

abbrev pub prepend : Token → Option (List Token) → Option (List Token)
prepend t none = none
prepend t (some ts) = some (t ∷ ts)

-- The token just read, and those behind it unless it is the end of the input.
unfoldable pub gather : (Lexer → Option (List Token)) → Option (Token × Lexer) → Option (List Token)
gather next none = none
gather next (some (t, l)) = if is_eof t.type then some (t ∷ []) else prepend t (next l)

-- At most `fuel` calls of `NextToken`; `none` if none of them returned the end of the input.
unfoldable pub tokens : ℕ → Lexer → Option (List Token)
unfolding gather
tokens zero l = none
tokens (suc fuel) l = gather (tokens fuel) (next_token l)

-- A list of tokens, cut off by the end of the input.
abbrev pub EndsWithEof : List Token → Type 0
EndsWithEof [] = ⊥
EndsWithEof (t ∷ []) = t.type ≡ eof
EndsWithEof (t ∷ u ∷ ts) = EndsWithEof (u ∷ ts)

abbrev Stream : ℕ → Option (List Token) → Type 0
Stream bound none = ⊥
Stream bound (some ts) = EndsWithEof ts × (length ts < bound)

prepend-Stream :
    (b : ℕ) (t : Token) (r : Option (List Token)) → Stream b r → Stream (suc b) (prepend t r)
prepend-Stream b t (some (u ∷ us)) (h, k) = (h, omega arith)
prepend-Stream b t (some []) (h, k) = absurd h
prepend-Stream b t none h = h

gather-Stream :
    (b : ℕ) (c : Cursor) (next : Lexer → Option (List Token)) (r : Option (Token × Lexer))
    → left c < suc b
    → Produces c r
    → ((l : Lexer) → left l.cursor < b → Stream (suc b) (next l))
    → Stream (suc (suc b)) (gather next r)
unfolding gather
gather-Stream b c next none h p k = absurd p
gather-Stream b c next (some (t, l)) h (a, p) k = elim (Bool-cases (is_eof t.type)) [
  | inl e ↦ rw e ((is_eof_iff t.type).0 e, omega arith)
  | inr e ↦ rw e (prepend-Stream (suc b) t (next l) (k l (smaller e p)))
]
  where
    smaller : is_eof t.type ≡ false → (t.type ≡ eof) ⊎ (left l.cursor < left c) → left l.cursor < b
    smaller e (inl q) = absurd (false≢true (sym e ∙ (is_eof_iff t.type).1 q))
    smaller e (inr q) = omega arith

tokens-Stream : (b : ℕ) (l : Lexer) → left l.cursor < b → Stream (suc b) (tokens b l)
unfolding tokens
tokens-Stream zero l h = absurd (omega arith)
tokens-Stream (suc b) l h =
    gather-Stream b l.cursor (tokens b) (next_token l) h (next_token-Produces l)
      (λ l' h'. tokens-Stream b l' h')

left-start : (input : Bytes) → left (start input) < length input + 1
unfolding start
left-start input = ground arith

-- Lexing an input of `n` bytes ends: the first `n + 1` calls of `NextToken` return at most
-- `n + 1` tokens, and the last of these is the end of the input.
pub tokens_end :
    (input : Bytes)
    → (ts : List Token) × (tokens (length input + 1) (new input) ≡ some ts)
      × EndsWithEof ts
      × (length ts < length input + 2)
tokens_end input = go _ refl (tokens-Stream (length input + 1) (new input) (new_left input))
  where
    new_left : (i : Bytes) → left (new i).cursor < length i + 1
    new_left i = unfold new in left-start i

    go :
        (r : Option (List Token))
        → tokens (length input + 1) (new input) ≡ r
        → Stream (suc (length input + 1)) r
        → (ts : List Token) × (tokens (length input + 1) (new input) ≡ some ts)
          × EndsWithEof ts
          × (length ts < length input + 2)
    go none e h = absurd h
    go (some ts) e (h, k) = (ts, e, h, omega arith)
