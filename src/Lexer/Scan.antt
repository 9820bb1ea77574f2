-- ===== src/Lexer/Scan.antt =====
-- internal/lexer/lexer.go: the loops that skip blanks and comments and read names, numbers and
-- strings. A `strings.Builder` is the byte string built so far.
use go_flux.Base.{
  ℕ, zero, suc, Bool, not, ◌&&◌, ◌||◌, [], ◌∷◌, ◌++◌, Option, none, some, ◌==◌, if◌then◌else◌,
  while, Bytes, codes,
}
use go_flux.Token.{illegal, variable, number, string, lookup_ident, Token}
use go_flux.Lexer.State.{
  Cursor, Lexer, read_char, peek_char, make_token, finish_token, is_letter, is_digit, is_name,
  rounds,
}

unfoldable pub is_blank : ℕ → Bool
is_blank ch = ch == b' ' || ch == b'\t' || ch == b'\r'

unfoldable pub skip_whitespace : Cursor → Cursor
unfolding is_blank
skip_whitespace c = while (λ d. is_blank d.ch) read_char (rounds c) c

unfoldable pub skip_line_comment : Cursor → Cursor
skip_line_comment c = while (λ d. not (d.ch == 0) && not (d.ch == b'\n')) read_char (rounds c) c

-- The test under which the loop of `skipBlockComment` goes on.
unfoldable pub inside_block : Cursor → Bool
inside_block c = not (c.ch == 0) && not (c.ch == b'*' && peek_char c == b'/')

-- Behind the loop: the end of the input, or `*/`, which is read.
unfoldable pub skip_block_comment : Cursor → Cursor
unfolding inside_block
skip_block_comment c =
    let body = read_char (read_char c) in
    let last = while inside_block read_char (rounds body) body in
    if last.ch == 0 then last else read_char (read_char last)

-- `for test(l.ch) { sb.WriteByte(l.ch); l.readChar() }`
unfoldable pub read_while : (ℕ → Bool) → Cursor × Bytes → Cursor × Bytes
read_while test (c, sb) =
    while (λ s. test (s.0).ch) (λ s. (read_char s.0, s.1 ++ (s.0).ch ∷ [])) (rounds c) (c, sb)

unfoldable pub read_identifier : Lexer → Token × Lexer
unfolding read_while
read_identifier l =
    let (c, lit) = read_while is_name (l.cursor, []) in
    finish_token (make_token (lookup_ident lit) lit l.cursor) (record l { cursor = c })

unfoldable pub read_variable : Lexer → Token × Lexer
unfolding read_while
read_variable l =
    let name = read_char l.cursor in
    let (c, lit) = read_while is_name (name, []) in
    if is_letter name.ch
    then finish_token (make_token variable lit l.cursor) (record l { cursor = c })
    else finish_token (make_token illegal (b'$' ∷ []) name) (record l { cursor = name })

unfoldable pub read_digits : Cursor → Cursor × Bytes
unfolding read_while
read_digits c =
    let (whole, sb) = read_while is_digit (c, []) in
    if whole.ch == b'.' && is_digit (peek_char whole)
    then read_while is_digit (read_char whole, sb ++ whole.ch ∷ [])
    else (whole, sb)

unfoldable pub read_number : Lexer → Token × Lexer
unfolding read_digits
read_number l =
    let (c, lit) = read_digits l.cursor in
    finish_token (make_token number lit l.cursor) (record l { cursor = c })

-- What the byte behind a backslash stands for.
unfoldable pub unescape : ℕ → ℕ
unescape ch =
    if ch == b'n'
    then b'\n'
    else if ch == b'r'
    then b'\r'
    else if ch == b't'
    then b'\t'
    else if ch == b'b'
    then 8
    else if ch == b'f'
    then 12
    else ch

-- The loop of `readString`: the cursor behind it, and the text unless the input ended first.
-- `none` is the end of the fuel.
unfoldable pub scan_string : ℕ → Cursor → Bytes → Option (Cursor × Option Bytes)
unfolding unescape
scan_string zero c sb = none
scan_string (suc fuel) c sb =
    let c1 = read_char c in
    let c2 = read_char c1 in
    let escaped = scan_string fuel c2 (sb ++ unescape c2.ch ∷ []) in
    let plain = scan_string fuel c1 (sb ++ c1.ch ∷ []) in
    if c1.ch == 0
    then some (c1, none)
    else if c1.ch == b'"'
    then some (c2, some sb)
    else if c1.ch == b'\\'
    then escaped
    else plain

-- Behind the loop of `readString`.
unfoldable pub string_token : Lexer → Option (Cursor × Option Bytes) → Option (Token × Lexer)
string_token l none = none
string_token l (some (c, none)) =
    some
      (finish_token (make_token illegal (codes "unterminated string") c) (record l { cursor = c }))
string_token l (some (c, some sb)) =
    some (finish_token (make_token string sb l.cursor) (record l { cursor = c }))

unfoldable pub read_string : Lexer → Option (Token × Lexer)
unfolding scan_string string_token
read_string l = string_token l (scan_string (rounds l.cursor) l.cursor [])
