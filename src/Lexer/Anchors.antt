-- ===== src/Lexer/Anchors.antt =====
-- internal/lexer/lexer.go: at which byte a call of `NextToken` puts its token's position.
use go_flux.Base.{
  ltb, ℕ, zero, suc, ◌≡◌, refl, length, ◌&&◌, inl, inr, Bool-cases, if_both, while, lookup, ◌+◌,
  false, true, Bool, ◌++◌, [], ◌∷◌, Option, none, some, Bytes, ◌==◌, arith,
}
use go_flux.Token.{
  lookup_ident, TokenType, Token, Position, illegal, eof, newline, string, variable, define, equal,
  not_equal, less_equal, greater_equal, and_and, or_or, range,
}
use go_flux.Lexer.State.{
  char_text, Cursor, Lexer, read_char, peek_char, is_letter, is_digit, is_name, rounds,
}
use go_flux.Lexer.Scan.{
  skip_whitespace, read_identifier, read_variable, read_number, read_while, read_digits,
  string_token, read_string,
}
use go_flux.Lexer.Next.{
  Round, emit, again, newline_eligible, consume_newline, Action, two, open_paren, close_paren,
  open_bracket, close_bracket, quoted, dollar, letter, digit, one, classify, perform, round_of,
  dispatch, round, follow, next_loop, next_token,
}
use go_flux.Lexer.Advance.{Advances, here, further, Advances-trans}
use go_flux.Lexer.Ends.{
  Ends, perform-Ends, is_letter-is_name, classify-Fits, skip_whitespace-Advances,
}
use go_flux.Lexer.Progress.{RoundEnds, round-RoundEnds}

abbrev pub place : Cursor → Position
place c = record { offset = c.pos; line = c.line; column = c.column }

-- Where the position of a token of a type is: at the first byte of its literal, at the second of two,
-- at the byte in front of its literal, which is the same for all of its type, at the end of the
-- input, or not told.
pub data Anchor : Type 0 where
  first second untold : Anchor
  byte : ℕ → Anchor

unfoldable pub anchor : TokenType → Anchor
anchor illegal = untold
anchor eof = byte 0
anchor newline = byte b'\n'
anchor string = byte b'"'
anchor variable = byte b'$'
anchor define = second
anchor equal = second
anchor not_equal = second
anchor less_equal = second
anchor greater_equal = second
anchor and_and = second
anchor or_or = second
anchor range = second
anchor _ = first

-- What the byte at a token's position, which is 0 at the end of the input, has to do with its literal.
abbrev pub At : Anchor → Bytes → ℕ → Type 0
At first literal ch = (rest : Bytes) × (literal ≡ ch ∷ rest)
At second literal ch = (b : ℕ) × (literal ≡ b ∷ ch ∷ [])
At (byte b) literal ch = ch ≡ b
At untold literal ch = Unit

-- The byte at hand is the one that a token's position is at.
abbrev pub Starts : Token → ℕ → Type 0
Starts t ch = At (anchor t.type) t.literal ch

-- A token that starts at a cursor that is reached from `c`, and is not left behind.
abbrev pub Placed : Cursor → Option (Token × Lexer) → Type 0
Placed c none = Unit
Placed c (some (t, l)) =
    (d : Cursor) × Advances c d × Advances d l.cursor × (t.pos ≡ place d) × Starts t d.ch

abbrev RoundPlaced : Cursor → Option Round → Type 0
RoundPlaced c none = Unit
RoundPlaced c (some (emit t l)) = Placed c (some (t, l))
RoundPlaced c (some (again l)) = Unit

behind : {c d : Cursor} → Advances (read_char c) d → Advances c d
behind h = Advances-trans (further here) h

string_token-Placed :
    (l : Lexer) (r : Option (Cursor × Option Bytes))
    → l.ch ≡ b'"'
    → Ends l.cursor (string_token l r)
    → Placed l.cursor (string_token l r)
unfolding string_token anchor
string_token-Placed l none q h = tt
string_token-Placed l (some (c, none)) q h = (c, behind h, here, refl, tt)
string_token-Placed l (some (c, some s)) q h = (l.cursor, here, behind h, refl, q)

read_variable-Placed :
    (l : Lexer)
    → l.ch ≡ b'$'
    → Ends l.cursor (some (read_variable l))
    → Placed l.cursor (some (read_variable l))
unfolding read_variable anchor
read_variable-Placed l q = elim (Bool-cases (is_letter (read_char l.cursor).ch)) [
  | inl e ↦ rw e (λ h. (l.cursor, here, behind h, refl, q))
  | inr e ↦ rw e (λ h. (read_char l.cursor, further here, here, refl, tt))
]

-- A loop that reads on leaves the first byte of what it has read.
while-first :
    (test : ℕ → Bool) (n b : ℕ) (d : Cursor) (sb : Bytes)
    → (rest : Bytes) × ((while
          (λ (s : Cursor × Bytes). test (s.0).ch)
          (λ s. (read_char s.0, s.1 ++ (s.0).ch ∷ []))
          n
          (d, b ∷ sb)).1
        ≡ b ∷ rest)
unfolding while
while-first test zero b d sb = (sb, refl)
while-first test (suc n) b d sb = elim (Bool-cases (test d.ch)) [
  | inl k ↦ rw (while, k) (while-first test n b (read_char d) (sb ++ d.ch ∷ []))
  | inr k ↦ rw (while, k) (sb, refl)
]

-- A word that is read starts with the byte at hand.
read_while-first :
    (test : ℕ → Bool) (c : Cursor)
    → test c.ch ≡ true
    → (rest : Bytes) × ((read_while test (c, [])).1 ≡ c.ch ∷ rest)
unfolding read_while while
read_while-first test c e =
    let more : rounds c ≡ suc (length c.unread + 1) = omega arith in
    rw (read_while, more, while, e) (while-first test (length c.unread + 1) c.ch (read_char c) [])

read_digits-first :
    (c : Cursor) → is_digit c.ch ≡ true → (rest : Bytes) × ((read_digits c).1 ≡ c.ch ∷ rest)
unfolding read_digits read_while
read_digits-first c e =
    let whole = read_while is_digit (c, []) in
    let (rest, q) = read_while-first is_digit c e in
    if_both (λ (r : Cursor × Bytes). (rest : Bytes) × (r.1 ≡ c.ch ∷ rest))
      ((whole.0).ch == b'.' && is_digit (peek_char whole.0))
      (rw q (while-first is_digit _ c.ch (read_char whole.0) (rest ++ (whole.0).ch ∷ []))) (rest, q)

-- A token of one byte is at it, and the byte is its text, or it is illegal.
at_byte : Anchor → ℕ → Bool
at_byte first ch = ltb ch 128
at_byte untold ch = true
at_byte _ ch = false

At-byte : (a : Anchor) (ch : ℕ) → at_byte a ch ≡ true → At a (char_text ch) ch
unfolding at_byte
At-byte first ch e = rw e ([], refl)
At-byte untold ch e = tt
At-byte second ch e = cc
At-byte (byte b) ch e = cc

classify-one :
    (ch next : ℕ) (t : TokenType) → classify ch next ≡ one t → at_byte (anchor t) ch ≡ true
unfolding classify anchor at_byte
classify-one ch next t h = ground arith

classify-two : (ch next : ℕ) (t : TokenType) → classify ch next ≡ two t → anchor t ≡ second
unfolding classify anchor
classify-two ch next t h = ground arith

-- Brackets that count are their text.
counts : Action → Bool
counts open_paren = true
counts close_paren = true
counts open_bracket = true
counts close_bracket = true
counts _ = false

classify-counts :
    (ch next : ℕ) (a : Action) → classify ch next ≡ a → counts a ≡ true → ltb ch 128 ≡ true
unfolding classify counts
classify-counts ch next a h k = ground arith

classify-quoted : (ch next : ℕ) → classify ch next ≡ quoted → ch ≡ b'"'
unfolding classify
classify-quoted ch next h = ground arith

classify-dollar : (ch next : ℕ) → classify ch next ≡ dollar → ch ≡ b'$'
unfolding classify
classify-dollar ch next h = ground arith

anchor-lookup_ident : (w : Bytes) → anchor (lookup_ident w) ≡ first
unfolding lookup_ident lookup anchor
anchor-lookup_ident w = ground arith

read_identifier-Placed :
    (l : Lexer)
    → is_letter l.ch ≡ true
    → Ends l.cursor (some (read_identifier l))
    → Placed l.cursor (some (read_identifier l))
unfolding read_identifier read_while
read_identifier-Placed l e h =
    let word = (read_while is_name (l.cursor, [])).1 in
    let starts : At first word l.ch =
      read_while-first is_name l.cursor (is_letter-is_name l.ch e) in
    (l.cursor, here, behind h, refl, rw (anchor-lookup_ident word) starts)

text_is-byte : (ch : ℕ) → ltb ch 128 ≡ true → At first (char_text ch) ch
text_is-byte ch e = rw e ([], refl)

perform-Placed :
    (a : Action) (l : Lexer) (next : ℕ) → classify l.ch next ≡ a → Placed l.cursor (perform a l)
unfolding perform read_string read_number anchor counts
perform-Placed (one t) l n h =
    (l.cursor, here, further here, refl, At-byte (anchor t) l.ch (classify-one l.ch n t h))
perform-Placed (two t) l n h = (
  read_char l.cursor,
  further here,
  further here,
  refl,
  rw (classify-two l.ch n t h) (l.ch, refl),
)
perform-Placed quoted l n h =
    string_token-Placed l _ (classify-quoted l.ch n h) (perform-Ends quoted l tt)
perform-Placed dollar l n h =
    read_variable-Placed l (classify-dollar l.ch n h) (perform-Ends dollar l tt)
perform-Placed letter l n h =
    let e = classify-Fits l.ch n letter h in read_identifier-Placed l e (perform-Ends letter l e)
perform-Placed digit l n h =
    let e = classify-Fits l.ch n digit h in
    (l.cursor, here, behind (perform-Ends digit l e), refl, read_digits-first l.cursor e)
perform-Placed open_paren l n h = (
  l.cursor,
  here,
  further here,
  refl,
  text_is-byte l.ch (classify-counts l.ch n open_paren h refl),
)
perform-Placed close_paren l n h = (
  l.cursor,
  here,
  further here,
  refl,
  text_is-byte l.ch (classify-counts l.ch n close_paren h refl),
)
perform-Placed open_bracket l n h = (
  l.cursor,
  here,
  further here,
  refl,
  text_is-byte l.ch (classify-counts l.ch n open_bracket h refl),
)
perform-Placed close_bracket l n h = (
  l.cursor,
  here,
  further here,
  refl,
  text_is-byte l.ch (classify-counts l.ch n close_bracket h refl),
)

round_of-RoundPlaced :
    (c : Cursor) (r : Option (Token × Lexer)) → Placed c r → RoundPlaced c (round_of r)
round_of-RoundPlaced c none h = tt
round_of-RoundPlaced c (some (t, l)) h = h

consume_newline-RoundPlaced :
    (l : Lexer) → l.ch ≡ b'\n' → RoundPlaced l.cursor (some (consume_newline l))
unfolding consume_newline anchor
consume_newline-RoundPlaced l e =
    if_both (λ r. RoundPlaced l.cursor (some r))
      (l.paren_depth == 0 && l.bracket_depth == 0 && newline_eligible l.last_token)
      (l.cursor, here, further here, refl, e) tt

dispatch-RoundPlaced : (l : Lexer) → RoundPlaced l.cursor (dispatch l)
unfolding dispatch anchor
dispatch-RoundPlaced l = elim (Bool-cases (l.ch == b'\n')) [
  | inl e ↦ rw e (consume_newline-RoundPlaced l (ground arith))
  | inr e ↦ rw e (elim (Bool-cases (l.ch == 0)) [
    | inl z ↦ rw z (l.cursor, here, here, refl, ground arith)
    | inr z ↦ rw z (
        if_both (RoundPlaced l.cursor) (l.ch == b'/' && peek_char l.cursor == b'/') tt (
          if_both (RoundPlaced l.cursor) (l.ch == b'/' && peek_char l.cursor == b'*') tt (
            round_of-RoundPlaced l.cursor _
              (perform-Placed (classify l.ch (peek_char l.cursor)) l (peek_char l.cursor) refl))))
  ])
]

Placed-trans : (c d : Cursor) (r : Option (Token × Lexer)) → Advances c d → Placed d r → Placed c r
Placed-trans c d none h k = tt
Placed-trans c d (some (t, l)) h (at, k, j, e, b) = (at, Advances-trans h k, j, e, b)

round-RoundPlaced : (l : Lexer) → RoundPlaced l.cursor (round l)
unfolding round
round-RoundPlaced l =
    moved l.cursor (skip_whitespace l.cursor) _ (skip_whitespace-Advances l.cursor)
      (dispatch-RoundPlaced (record l { cursor = skip_whitespace l.cursor }))
  where
    moved : (c d : Cursor) (r : Option Round) → Advances c d → RoundPlaced d r → RoundPlaced c r
    moved c d none h k = tt
    moved c d (some (emit t l)) h k = Placed-trans c d (some (t, l)) h k
    moved c d (some (again l)) h k = tt

follow-Placed :
    (c : Cursor) (next : Lexer → Option (Token × Lexer))
    → ((l : Lexer) → Placed l.cursor (next l))
    → (r : Option Round) → RoundEnds c r
    → RoundPlaced c r
    → Placed c (follow next r)
unfolding follow
follow-Placed c next h none e k = tt
follow-Placed c next h (some (emit t l)) e k = k
follow-Placed c next h (some (again l)) (a, e) k = Placed-trans c l.cursor _ a (h l)

next_loop-Placed : (fuel : ℕ) (l : Lexer) → Placed l.cursor (next_loop fuel l)
unfolding next_loop
next_loop-Placed zero l = tt
next_loop-Placed (suc fuel) l =
    follow-Placed l.cursor (next_loop fuel) (next_loop-Placed fuel) (round l) (round-RoundEnds l)
      (round-RoundPlaced l)

pub next_token-Placed : (l : Lexer) → Placed l.cursor (next_token l)
unfolding next_token
next_token-Placed l = next_loop-Placed _ l
