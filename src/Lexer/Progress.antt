-- ===== src/Lexer/Progress.antt =====
-- internal/lexer/lexer.go: what a call of `NextToken` reads, round by round of its loop.
use go_flux.Base.{
  ℕ, zero, suc, ◌<◌, false, ◌&&◌, ◌≡◌, refl, ◌⊎◌, inl, inr, [], Option, none, some, ◌==◌, arith,
  Bool-cases, if_both,
}
use go_flux.Token.{eof, newline, Token}
use go_flux.Lexer.State.{Cursor, Lexer, read_char, peek_char, make_token, rounds}
use go_flux.Lexer.Scan.{skip_whitespace}
use go_flux.Lexer.Next.{
  Round, emit, again, newline_eligible, consume_newline, round_of, dispatch, round, follow,
  next_loop, next_token,
}
use go_flux.Lexer.Advance.{
  Advances, here, further, Advances-trans, left, Advances-left, Advances-left_lt,
}
use go_flux.Lexer.Ends.{
  Ends, perform-Ends, classify-Fits, skip_whitespace-Advances, skip_line_comment-Advances,
  skip_block_comment-Advances,
}

-- What a round of the loop leaves: it read on, and took a byte unless it found the end.
abbrev pub RoundEnds : Cursor → Option Round → Type 0
RoundEnds c none = ⊥
RoundEnds c (some (emit t l)) = Advances c l.cursor × ((t.type ≡ eof) ⊎ (left l.cursor < left c))
RoundEnds c (some (again l)) = Advances c l.cursor × (left l.cursor < left c)

round_of-RoundEnds :
    (c : Cursor) (r : Option (Token × Lexer))
    → (c.ch == 0) ≡ false
    → Ends c r
    → RoundEnds c (round_of r)
round_of-RoundEnds c none n h = h
round_of-RoundEnds c (some (t, l)) n h =
    (Advances-trans (further here) h, inr (Advances-left_lt c n h))

again-RoundEnds :
    (l : Lexer) (c : Cursor)
    → (l.ch == 0) ≡ false
    → Advances (read_char l.cursor) c
    → RoundEnds l.cursor (some (again (record l { cursor = c })))
again-RoundEnds l c z h = (Advances-trans (further here) h, Advances-left_lt l.cursor z h)

consume_newline-RoundEnds :
    (l : Lexer) → (l.ch == 0) ≡ false → RoundEnds l.cursor (some (consume_newline l))
unfolding consume_newline
consume_newline-RoundEnds l z =
    if_both (λ r. RoundEnds l.cursor (some r))
      (l.paren_depth == 0 && l.bracket_depth == 0 && newline_eligible l.last_token)
      {s = emit (make_token newline [] l.cursor)
        (record l { cursor = read_char l.cursor; last_token = newline })}
      {t = again (record l { cursor = read_char l.cursor })}
      (further here, inr (Advances-left_lt l.cursor z here))
      (further here, Advances-left_lt l.cursor z here)

dispatch-RoundEnds : (l : Lexer) → RoundEnds l.cursor (dispatch l)
unfolding dispatch
dispatch-RoundEnds l = elim (Bool-cases (l.ch == b'\n')) [
  | inl e ↦ rw e (consume_newline-RoundEnds l (ground arith))
  | inr e ↦ rw e (elim (Bool-cases (l.ch == 0)) [
    | inl z ↦ rw z (here, inl refl)
    | inr z ↦ rw z (
        if_both (RoundEnds l.cursor) (l.ch == b'/' && peek_char l.cursor == b'/')
          (again-RoundEnds l _ z (skip_line_comment-Advances l.cursor z e))
          (if_both (RoundEnds l.cursor) (l.ch == b'/' && peek_char l.cursor == b'*')
            (again-RoundEnds l _ z (skip_block_comment-Advances l.cursor))
            (round_of-RoundEnds l.cursor _ z
              (perform-Ends _ l (classify-Fits l.ch (peek_char l.cursor) _ refl)))))
  ])
]

RoundEnds-trans : (c d : Cursor) (r : Option Round) → Advances c d → RoundEnds d r → RoundEnds c r
RoundEnds-trans c d none h k = k
RoundEnds-trans c d (some (emit t l)) h (k, inl e) = (Advances-trans h k, inl e)
RoundEnds-trans c d (some (emit t l)) h (k, inr e) =
    (Advances-trans h k, inr (omega (arith, Advances-left h)))
RoundEnds-trans c d (some (again l)) h (k, e) = (Advances-trans h k, omega (arith, Advances-left h))

pub round-RoundEnds : (l : Lexer) → RoundEnds l.cursor (round l)
unfolding round
round-RoundEnds l =
    RoundEnds-trans l.cursor (skip_whitespace l.cursor) _ (skip_whitespace-Advances l.cursor)
      (dispatch-RoundEnds (record l { cursor = skip_whitespace l.cursor }))

-- What a call of `NextToken` gives: it reads on, and takes a byte unless it found the end.
abbrev pub Produces : Cursor → Option (Token × Lexer) → Type 0
Produces c none = ⊥
Produces c (some (t, l)) = Advances c l.cursor × ((t.type ≡ eof) ⊎ (left l.cursor < left c))

Produces-trans :
    (c d : Cursor) (r : Option (Token × Lexer)) → Advances c d → Produces d r → Produces c r
Produces-trans c d none h k = k
Produces-trans c d (some (t, l)) h (k, inl e) = (Advances-trans h k, inl e)
Produces-trans c d (some (t, l)) h (k, inr e) =
    (Advances-trans h k, inr (omega (arith, Advances-left h)))

follow-Produces :
    (c : Cursor) (next : Lexer → Option (Token × Lexer))
    → ((l : Lexer) → left l.cursor < left c → Produces l.cursor (next l))
    → (r : Option Round) → RoundEnds c r
    → Produces c (follow next r)
unfolding follow
follow-Produces c next h none k = k
follow-Produces c next h (some (emit t l)) k = k
follow-Produces c next h (some (again l)) (k, s) = Produces-trans c l.cursor _ k (h l s)

next_loop-Produces :
    (fuel : ℕ) (l : Lexer) → left l.cursor < fuel → Produces l.cursor (next_loop fuel l)
unfolding next_loop
next_loop-Produces zero l h = absurd (omega arith)
next_loop-Produces (suc fuel) l h =
    follow-Produces l.cursor (next_loop fuel) (λ l' s. next_loop-Produces fuel l' (omega arith))
      (round l) (round-RoundEnds l)

-- `NextToken` returns, in every state of the lexer: it gives a token, it only reads on, and unless
-- the token is the end of the input it takes at least one byte.
pub next_token-Produces : (l : Lexer) → Produces l.cursor (next_token l)
unfolding next_token
next_token-Produces l = next_loop-Produces (rounds l.cursor) l (ground arith)
