-- ===== src/Lexer/State.antt =====
-- internal/lexer/lexer.go: the state and the routines that read one byte. The fields of `Lexer`
-- that `readChar` moves are its `cursor`; `unread` is the source's `input[readPos:]`, so that
-- `readPos >= len(input)` is `unread ≡ []`.
use go_flux.Base.{
  ℕ, ◌+◌, Bool, ◌&&◌, ◌||◌, [], ◌∷◌, ◌==◌, leb, ltb, ◌/◌, ◌%◌, if◌then◌else◌, Bytes, length,
}
use go_flux.Token.{TokenType, newline, Token}

pub record Cursor : Type 0 where
  pub unread : Bytes
  pub pos : ℕ
  pub read_pos : ℕ
  pub ch : ℕ
  pub line : ℕ
  pub column : ℕ

pub record Lexer : Type 0 where
  pub cursor : Cursor
  pub open cursor use *
  pub paren_depth : ℕ
  pub bracket_depth : ℕ
  pub last_token : TokenType

unfoldable pub read_from : Bytes → Cursor → Cursor
read_from [] c = record c { pos = c.read_pos; ch = 0 }
read_from (b ∷ bs) c = record {
  unread = bs;
  pos = c.read_pos;
  read_pos = c.read_pos + 1;
  ch = b;
  line = if b == b'\n' then c.line + 1 else c.line;
  column = if b == b'\n' then 0 else c.column + 1;
}

unfoldable pub read_char : Cursor → Cursor
unfolding read_from
read_char c = read_from c.unread c

peek_from : Bytes → ℕ
peek_from [] = 0
peek_from (b ∷ bs) = b

unfoldable pub peek_char : Cursor → ℕ
unfolding peek_from
peek_char c = peek_from c.unread

unfoldable pub start : Bytes → Cursor
unfolding read_char
start input =
    read_char (record { unread = input; pos = 0; read_pos = 0; ch = 0; line = 1; column = 0 })

-- `New`; the start counts as a newline boundary.
unfoldable pub new : Bytes → Lexer
unfolding start
new input = record {
  cursor = start input;
  paren_depth = 0;
  bracket_depth = 0;
  last_token = newline;
}

abbrev pub make_token : TokenType → Bytes → Cursor → Token
make_token t lit c = record {
  type = t;
  literal = lit;
  pos = record { offset = c.pos; line = c.line; column = c.column };
}

-- `string(l.ch)`: a byte is taken as a character, and is two bytes as text if it is not of ASCII.
abbrev pub char_text : ℕ → Bytes
char_text ch = if ltb ch 128 then ch ∷ [] else (192 + ch / 64) ∷ (128 + ch % 64) ∷ []

abbrev pub finish_token : Token → Lexer → Token × Lexer
finish_token tok l = (tok, record l { last_token = tok.type })

unfoldable pub is_letter : ℕ → Bool
is_letter ch = (leb b'a' ch && leb ch b'z') || (leb b'A' ch && leb ch b'Z') || ch == b'_'

unfoldable pub is_digit : ℕ → Bool
is_digit ch = leb b'0' ch && leb ch b'9'

-- The test of the loops that read names.
unfoldable pub is_name : ℕ → Bool
unfolding is_letter is_digit
is_name ch = is_letter ch || is_digit ch

-- Enough rounds for a loop that reads a byte in each: the bytes left, and the current one.
abbrev pub rounds : Cursor → ℕ
rounds c = length c.unread + 2
