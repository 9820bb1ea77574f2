-- ===== src/Lexer/Ends.antt =====
-- internal/lexer/lexer.go: where the scans of comments, names, numbers and strings end.
use go_flux.Base.{
  ℕ, zero, suc, ◌<◌, true, false, not, ◌&&◌, ◌≡◌, inl, inr, [], ◌∷◌, ◌++◌, Option, none, some,
  Bytes, length, ◌==◌, arith, Bool-cases, if_both, while,
}
use go_flux.Token.{Token}
use go_flux.Lexer.State.{Cursor, Lexer, read_char, peek_char, is_letter, is_digit, is_name, rounds}
use go_flux.Lexer.Scan.{
  is_blank, skip_whitespace, skip_line_comment, inside_block, skip_block_comment, read_while,
  read_identifier, read_variable, read_digits, read_number, unescape, scan_string, string_token,
  read_string,
}
use go_flux.Lexer.Next.{
  Action, one, two, open_paren, close_paren, open_bracket, close_bracket, quoted, dollar, letter,
  digit, classify, perform,
}
use go_flux.Lexer.Advance.{
  Advances, here, further, Advances-trans, Advances-read_char, unread-read_char,
  unread-read_char_lt, while-Advances, while-Advances_some, read_while-Advances,
  read_while-Advances_some,
}

is_name_stops : (ch : ℕ) → is_name ch ≡ true → (ch == 0) ≡ false
unfolding is_name
is_name_stops ch h = ground arith

is_digit_stops : (ch : ℕ) → is_digit ch ≡ true → (ch == 0) ≡ false
unfolding is_digit
is_digit_stops ch h = ground arith

pub skip_whitespace-Advances : (c : Cursor) → Advances c (skip_whitespace c)
unfolding skip_whitespace
skip_whitespace-Advances c = (while-Advances (λ d. is_blank d.ch) (λ d h. ground arith) c).1

pub skip_line_comment-Advances :
    (c : Cursor)
    → (c.ch == 0) ≡ false
    → (c.ch == b'\n') ≡ false
    → Advances (read_char c) (skip_line_comment c)
unfolding skip_line_comment
skip_line_comment-Advances c z n =
    while-Advances_some (λ d. not (d.ch == 0) && not (d.ch == b'\n')) (λ d h. ground arith) c
      (rw (z, n))

pub skip_block_comment-Advances : (c : Cursor) → Advances (read_char c) (skip_block_comment c)
unfolding skip_block_comment
skip_block_comment-Advances c =
    let body = read_char (read_char c) in
    let last = while inside_block read_char (rounds body) body in
    let h : Advances body last = (while-Advances inside_block (λ d h. ground arith) body).1 in
    let k = Advances-trans (Advances-read_char (read_char c)) h in
    if_both (Advances (read_char c)) (last.ch == 0) k (further (further k))

-- Where a scan that starts at `c` may end: behind the byte at `c`.
abbrev pub Ends : Cursor → Option (Token × Lexer) → Type 0
Ends c none = ⊥
Ends c (some (t, l)) = Advances (read_char c) l.cursor

Ends-trans :
    (c d : Cursor) (r : Option (Token × Lexer))
    → Advances (read_char c) (read_char d)
    → Ends d r
    → Ends c r
Ends-trans c d none h k = k
Ends-trans c d (some (t, l)) h k = Advances-trans h k

scan_string-Ends :
    (fuel : ℕ) (c : Cursor) (sb : Bytes) (l : Lexer)
    → length c.unread < fuel
    → Ends c (string_token l (scan_string fuel c sb))
unfolding scan_string string_token
scan_string-Ends zero c sb l h = absurd (omega arith)
scan_string-Ends (suc fuel) c sb l h = elim (Bool-cases ((read_char c).ch == 0)) [
  | inl ended ↦ rw ended here
  | inr more ↦
      let c1 = read_char c in
      let c2 = read_char c1 in
      let shorter = unread-read_char_lt c more in
      let escaped =
        scan_string-Ends fuel c2 (sb ++ unescape c2.ch ∷ []) l
          (omega (arith, unread-read_char c1)) in
      let plain = scan_string-Ends fuel c1 (sb ++ c1.ch ∷ []) l (omega arith) in
      rw more (
        if_both (λ r. Ends c (string_token l r)) (c1.ch == b'"') (further here)
          (if_both (λ r. Ends c (string_token l r)) (c1.ch == b'\\')
            (Ends-trans c c2 _ (further (further here)) escaped)
            (Ends-trans c c1 _ (further here) plain)))
]

read_digits-Advances :
    (c : Cursor) → is_digit c.ch ≡ true → Advances (read_char c) (read_digits c).0
unfolding read_digits
read_digits-Advances c d =
    let (whole, sb) = read_while is_digit (c, []) in
    let h : Advances (read_char c) whole =
      read_while-Advances_some is_digit is_digit_stops c [] d in
    if_both (λ (r : Cursor × Bytes). Advances (read_char c) r.0)
      (whole.ch == b'.' && is_digit (peek_char whole))
      (Advances-trans (further h) (read_while-Advances is_digit is_digit_stops _ _).1) h

-- What the byte at hand must be, for an action that reads it as part of a name or a number.
abbrev pub Fits : Action → ℕ → Type 0
Fits letter ch = is_letter ch ≡ true
Fits digit ch = is_digit ch ≡ true
Fits _ ch = Unit

classify-letter : (ch next : ℕ) → classify ch next ≡ letter → is_letter ch ≡ true
unfolding classify
classify-letter ch next h = ground arith

classify-digit : (ch next : ℕ) → classify ch next ≡ digit → is_digit ch ≡ true
unfolding classify
classify-digit ch next h = ground arith

pub classify-Fits : (ch next : ℕ) (a : Action) → classify ch next ≡ a → Fits a ch
classify-Fits ch next letter h = classify-letter ch next h
classify-Fits ch next digit h = classify-digit ch next h
classify-Fits ch next _ h = tt

pub is_letter-is_name : (ch : ℕ) → is_letter ch ≡ true → is_name ch ≡ true
unfolding is_name
is_letter-is_name ch h = rw h

pub perform-Ends : (a : Action) (l : Lexer) → Fits a l.ch → Ends l.cursor (perform a l)
unfolding perform read_string read_variable read_identifier read_number
perform-Ends (one t) l h = here
perform-Ends (two t) l h = further here
perform-Ends open_paren l h = here
perform-Ends close_paren l h = here
perform-Ends open_bracket l h = here
perform-Ends close_bracket l h = here
perform-Ends quoted l h = scan_string-Ends (rounds l.cursor) l.cursor [] l (omega arith)
perform-Ends dollar l h =
    if_both (λ (r : Token × Lexer). Advances (read_char l.cursor) (r.1).cursor)
      (is_letter (read_char l.cursor).ch)
      (read_while-Advances is_name is_name_stops (read_char l.cursor) []).1 here
perform-Ends letter l h =
    read_while-Advances_some is_name is_name_stops l.cursor [] (is_letter-is_name l.ch h)
perform-Ends digit l h = read_digits-Advances l.cursor h
