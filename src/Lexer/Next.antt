-- ===== src/Lexer/Next.antt =====
-- internal/lexer/lexer.go: `NextToken`. The switch on the current byte is `classify`, which names
-- the case taken, and `perform`, which does what the cases do.
use go_flux.Base.{
  ℕ, zero, suc, ◌-◌, ◌+◌, Bool, true, false, ◌&&◌, [], ◌∷◌, Option, none, some, ◌==◌, if◌then◌else◌,
}
use go_flux.Token.{
  TokenType, illegal, eof, newline, ident, variable, number, string, return_kw, true_kw, false_kw,
  null, assign, define, plus, minus, star, slash, bang, equal, not_equal, less, less_equal, greater,
  greater_equal, and_and, or_or, range, comma, colon, dot, l_paren, r_paren, l_brace, r_brace,
  l_bracket, r_bracket, Token,
}
use go_flux.Lexer.State.{
  Lexer, read_char, peek_char, make_token, char_text, finish_token, is_letter, is_digit, rounds,
}
use go_flux.Lexer.Scan.{
  skip_whitespace, skip_line_comment, skip_block_comment, read_identifier, read_variable,
  read_number, read_string,
}

unfoldable pub newline_eligible : TokenType → Bool
newline_eligible ident = true
newline_eligible variable = true
newline_eligible number = true
newline_eligible string = true
newline_eligible true_kw = true
newline_eligible false_kw = true
newline_eligible null = true
newline_eligible r_paren = true
newline_eligible r_bracket = true
newline_eligible r_brace = true
newline_eligible return_kw = true
newline_eligible _ = false

-- What one round of the loop of `NextToken` does: return a token, or go round again.
pub data Round : Type 0 where
  emit : Token → Lexer → Round
  again : Lexer → Round

-- The branch on a newline: `consumeNewline`, and `continue` where it returns false.
unfoldable pub consume_newline : Lexer → Round
unfolding newline_eligible
consume_newline l =
    let tok = make_token newline [] l.cursor in
    let moved = record l { cursor = read_char l.cursor } in
    if l.paren_depth == 0 && l.bracket_depth == 0 && newline_eligible l.last_token
    then emit tok (record moved { last_token = newline })
    else again moved

-- The cases of the switch: a token of one byte or of two, a bracket that counts, a scan.
pub data Action : Type 0 where
  one two : TokenType → Action
  open_paren close_paren open_bracket close_bracket : Action
  quoted dollar letter digit : Action

unfoldable pub classify : ℕ → ℕ → Action
classify ch next =
    if ch == b'='
    then (if next == b'=' then two equal else one assign)
    else if ch == b':'
    then (if next == b'=' then two define else one colon)
    else if ch == b'+'
    then one plus
    else if ch == b'-'
    then one minus
    else if ch == b'*'
    then one star
    else if ch == b'/'
    then one slash
    else if ch == b'!'
    then (if next == b'=' then two not_equal else one bang)
    else if ch == b'<'
    then (if next == b'=' then two less_equal else one less)
    else if ch == b'>'
    then (if next == b'=' then two greater_equal else one greater)
    else if ch == b'&'
    then (if next == b'&' then two and_and else one illegal)
    else if ch == b'|'
    then (if next == b'|' then two or_or else one illegal)
    else if ch == b'.'
    then (if next == b'.' then two range else one dot)
    else if ch == b','
    then one comma
    else if ch == b'('
    then open_paren
    else if ch == b')'
    then close_paren
    else if ch == b'['
    then open_bracket
    else if ch == b']'
    then close_bracket
    else if ch == b'{'
    then one l_brace
    else if ch == b'}'
    then one r_brace
    else if ch == b'"'
    then quoted
    else if ch == b'$'
    then dollar
    else if is_letter ch
    then letter
    else if is_digit ch
    then digit
    else one illegal

-- A token of the current byte; the lexer behind it.
unfoldable pub single : TokenType → Lexer → Token × Lexer
single t l =
    finish_token (make_token t (char_text l.ch) l.cursor) (record l { cursor = read_char l.cursor })

-- A token of two bytes. It is made behind the first, so its position is that of the second.
unfoldable pub double : TokenType → Lexer → Token × Lexer
double t l =
    let second = read_char l.cursor in
    finish_token (make_token t (l.ch ∷ second.ch ∷ []) second)
      (record l { cursor = read_char second })

-- `if l.parenDepth > 0 { l.parenDepth-- }`: subtraction stops at 0.
unfoldable pub perform : Action → Lexer → Option (Token × Lexer)
unfolding single double
perform (one t) l = some (single t l)
perform (two t) l = some (double t l)
perform open_paren l = some (single l_paren (record l { paren_depth = l.paren_depth + 1 }))
perform close_paren l = some (single r_paren (record l { paren_depth = l.paren_depth - 1 }))
perform open_bracket l = some (single l_bracket (record l { bracket_depth = l.bracket_depth + 1 }))
perform close_bracket l = some (single r_bracket (record l { bracket_depth = l.bracket_depth - 1 }))
perform quoted l = read_string l
perform dollar l = some (read_variable l)
perform letter l = some (read_identifier l)
perform digit l = some (read_number l)

abbrev pub round_of : Option (Token × Lexer) → Option Round
round_of none = none
round_of (some (t, l)) = some (emit t l)

-- One round, behind the blanks.
unfoldable pub dispatch : Lexer → Option Round
unfolding consume_newline classify perform
dispatch l =
    if l.ch == b'\n'
    then some (consume_newline l)
    else if l.ch == 0
    then some (emit (make_token eof [] l.cursor) l)
    else if l.ch == b'/' && peek_char l.cursor == b'/'
    then some (again (record l { cursor = skip_line_comment l.cursor }))
    else if l.ch == b'/' && peek_char l.cursor == b'*'
    then some (again (record l { cursor = skip_block_comment l.cursor }))
    else round_of (perform (classify l.ch (peek_char l.cursor)) l)

unfoldable pub round : Lexer → Option Round
unfolding dispatch skip_whitespace
round l = dispatch (record l { cursor = skip_whitespace l.cursor })

-- `return`, or go round again by `next`.
unfoldable pub follow : (Lexer → Option (Token × Lexer)) → Option Round → Option (Token × Lexer)
follow next none = none
follow next (some (emit t l)) = some (t, l)
follow next (some (again l)) = next l

-- The loop of `NextToken`; `none` is the end of the fuel.
unfoldable pub next_loop : ℕ → Lexer → Option (Token × Lexer)
unfolding round follow
next_loop zero l = none
next_loop (suc fuel) l = follow (next_loop fuel) (round l)

unfoldable pub next_token : Lexer → Option (Token × Lexer)
unfolding next_loop
next_token l = next_loop (rounds l.cursor) l
