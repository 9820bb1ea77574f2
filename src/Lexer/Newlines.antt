-- ===== src/Lexer/Newlines.antt =====
-- internal/lexer/lexer.go: newline tokens.
use go_flux.Base.{
  ℕ, zero, suc, true, ◌&&◌, ◌≡◌, ◌≢◌, refl, sym, ◌∙◌, ◌⊎◌, inl, inr, Option, none, some, Bytes,
  ◌==◌, arith, Bool-cases, if_both, lookup,
}
use go_flux.Token.{TokenType, eof, newline, Token, lookup_ident}
use go_flux.Lexer.State.{Cursor, Lexer, read_char, peek_char, is_letter, rounds}
use go_flux.Lexer.Scan.{
  skip_whitespace, read_identifier, read_variable, read_number, string_token, read_string,
}
use go_flux.Lexer.Next.{
  Round, emit, again, newline_eligible, consume_newline, Action, one, two, quoted, dollar, letter,
  classify, perform, round_of, dispatch, round, follow, next_loop, next_token,
}

-- A newline token ends a statement: no parenthesis or bracket is open, and the token before it is
-- one that a statement may end with.
pub record EndsStatement (l : Lexer) : Type 0 where
  pub no_paren : l.paren_depth ≡ 0
  pub no_bracket : l.bracket_depth ≡ 0
  pub eligible : newline_eligible l.last_token ≡ true

-- The rule for what `NextToken` returns at `l`; every token but the end of the input is also
-- remembered as the last one.
abbrev pub NewlineRule : Lexer → Option (Token × Lexer) → Type 0
NewlineRule l none = Unit
NewlineRule l (some (t, l')) =
    (t.type ≡ newline → EndsStatement l) × ((t.type ≡ eof) ⊎ (l'.last_token ≡ t.type))

-- The same for a round, which may also go on in the same state but for the cursor.
abbrev RoundRule : Lexer → Option Round → Type 0
RoundRule l none = Unit
RoundRule l (some (emit t l')) = NewlineRule l (some (t, l'))
RoundRule l (some (again l')) =
    (l'.paren_depth ≡ l.paren_depth)
    × (l'.bracket_depth ≡ l.bracket_depth)
    × (l'.last_token ≡ l.last_token)

-- A token that is no newline, and is remembered.
abbrev Plain : Option (Token × Lexer) → Type 0
Plain none = Unit
Plain (some (t, l')) = (t.type ≢ newline) × (l'.last_token ≡ t.type)

classify-one : (ch next : ℕ) (t : TokenType) → classify ch next ≡ one t → t ≢ newline
unfolding classify
classify-one ch next t h = ground arith

classify-two : (ch next : ℕ) (t : TokenType) → classify ch next ≡ two t → t ≢ newline
unfolding classify
classify-two ch next t h = ground arith

lookup_ident-ne-newline : (w : Bytes) → lookup_ident w ≢ newline
unfolding lookup_ident lookup
lookup_ident-ne-newline w = ground arith

string_token-Plain : (l : Lexer) (r : Option (Cursor × Option Bytes)) → Plain (string_token l r)
unfolding string_token
string_token-Plain l none = tt
string_token-Plain l (some (c, none)) = (cc, refl)
string_token-Plain l (some (c, some s)) = (cc, refl)

perform-Plain : (a : Action) (l : Lexer) (next : ℕ) → classify l.ch next ≡ a → Plain (perform a l)
unfolding perform read_string read_variable read_identifier read_number
perform-Plain (one t) l n h = (classify-one _ _ t h, refl)
perform-Plain (two t) l n h = (classify-two _ _ t h, refl)
perform-Plain quoted l n h = string_token-Plain l _
perform-Plain dollar l n h =
    if_both (λ (r : Token × Lexer). ((r.0).type ≢ newline) × ((r.1).last_token ≡ (r.0).type))
      (is_letter (read_char l.cursor).ch) (cc, refl) (cc, refl)
perform-Plain letter l n h = (lookup_ident-ne-newline _, refl)
perform-Plain _ l n h = (cc, refl)

round_of-RoundRule : (l : Lexer) (r : Option (Token × Lexer)) → Plain r → RoundRule l (round_of r)
round_of-RoundRule l none h = tt
round_of-RoundRule l (some (t, l')) (h, k) = (λ e. absurd (h e), inr k)

consume_newline-RoundRule : (l : Lexer) → RoundRule l (some (consume_newline l))
unfolding consume_newline
consume_newline-RoundRule l =
    elim (Bool-cases
      (l.paren_depth == 0 && l.bracket_depth == 0 && newline_eligible l.last_token)) [
        | inl e ↦ rw e (
          λ _. record {
            no_paren = ground arith;
            no_bracket = ground arith;
            eligible = ground arith;
          },
          inr refl,
        )
        | inr e ↦ rw e (refl, refl, refl)
      ]

dispatch-RoundRule : (l : Lexer) → RoundRule l (dispatch l)
unfolding dispatch
dispatch-RoundRule l = if_both (RoundRule l) (l.ch == b'\n') (consume_newline-RoundRule l) (
    if_both (RoundRule l) (l.ch == 0) (λ e. cc, inl refl)
      (if_both (RoundRule l) (l.ch == b'/' && peek_char l.cursor == b'/') (refl, refl, refl)
        (if_both (RoundRule l) (l.ch == b'/' && peek_char l.cursor == b'*') (refl, refl, refl)
          (round_of-RoundRule l _
            (perform-Plain (classify l.ch (peek_char l.cursor)) l (peek_char l.cursor) refl)))))

-- The rule speaks of the depths and the last token alone.
moved :
    (l m : Lexer) (r : Option (Token × Lexer))
    → (m.paren_depth ≡ l.paren_depth)
      × (m.bracket_depth ≡ l.bracket_depth)
      × (m.last_token ≡ l.last_token)
    → NewlineRule m r
    → NewlineRule l r
moved l m none s h = tt
moved l m (some (t, l')) (p, b, k) (h, j) = (
  λ e.
      let g = h e in
      record {
        no_paren = sym p ∙ g.no_paren;
        no_bracket = sym b ∙ g.no_bracket;
        eligible = rw (← k) g.eligible;
      },
  j,
)

moved_round :
    (l : Lexer) (c : Cursor) (r : Option Round)
    → RoundRule (record l { cursor = c }) r
    → RoundRule l r
moved_round l c none h = tt
moved_round l c (some (emit t l')) h =
    moved l (record l { cursor = c }) (some (t, l')) (refl, refl, refl) h
moved_round l c (some (again l')) h = h

round-RoundRule : (l : Lexer) → RoundRule l (round l)
unfolding round
round-RoundRule l =
    moved_round l (skip_whitespace l.cursor) _
      (dispatch-RoundRule (record l { cursor = skip_whitespace l.cursor }))

follow-NewlineRule :
    (l : Lexer) (next : Lexer → Option (Token × Lexer))
    → ((m : Lexer) → NewlineRule m (next m))
    → (r : Option Round) → RoundRule l r
    → NewlineRule l (follow next r)
unfolding follow
follow-NewlineRule l next h none k = tt
follow-NewlineRule l next h (some (emit t l')) k = k
follow-NewlineRule l next h (some (again m)) k = moved l m (next m) k (h m)

next_loop-NewlineRule : (fuel : ℕ) (l : Lexer) → NewlineRule l (next_loop fuel l)
unfolding next_loop
next_loop-NewlineRule zero l = tt
next_loop-NewlineRule (suc fuel) l =
    follow-NewlineRule l (next_loop fuel) (next_loop-NewlineRule fuel) (round l) (round-RoundRule l)

-- What `NextToken` returns obeys the rule.
pub next_token-NewlineRule : (l : Lexer) → NewlineRule l (next_token l)
unfolding next_token
next_token-NewlineRule l = next_loop-NewlineRule (rounds l.cursor) l

-- A newline token is returned only where no parenthesis and no bracket is open and the token that
-- the lexer remembers as its last is one that a statement may end with.
pub next_token-EndsStatement :
    (l : Lexer) {t : Token} {l' : Lexer}
    → next_token l ≡ some (t, l')
    → t.type ≡ newline
    → (l.paren_depth ≡ 0) × (l.bracket_depth ≡ 0) × (newline_eligible l.last_token ≡ true)
next_token-EndsStatement l {t} {l'} e h =
    let a : NewlineRule l (some (t, l')) = rw e at (next_token-NewlineRule l) in
    ((a.0 h).no_paren, (a.0 h).no_bracket, (a.0 h).eligible)

-- Two calls in a row never both return a newline token.
pub newlines_collapse :
    (l : Lexer) {t u : Token} {l' l'' : Lexer}
    → next_token l ≡ some (t, l')
    → next_token l' ≡ some (u, l'')
    → t.type ≡ newline
    → u.type ≢ newline
unfolding newline_eligible
newlines_collapse l {t} {u} {l'} {l''} e f h k =
    let a : NewlineRule l (some (t, l')) = rw e at (next_token-NewlineRule l) in
    let b : NewlineRule l' (some (u, l'')) = rw f at (next_token-NewlineRule l') in
    let last = (b.0 k).eligible in ground (arith, a.1, last, h)
