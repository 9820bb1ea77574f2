-- ===== src/Tests/Lexing.antt =====
-- The theorems of the lexer at concrete inputs.
use go_flux.Base.{
  ◌+◌, ◌<◌, ◌≡◌, ◌≢◌, true, refl, some, List, [], codes, length, while, lookup, bytes_eq,
}
use go_flux.Token.{lookup_ident, Token, ident, newline, string}
use go_flux.Lexer.State.{
  Cursor, Lexer, new, is_letter, is_name, read_char, make_token, finish_token,
}
use go_flux.Lexer.Scan.{read_identifier, read_string}
use go_flux.Lexer.Next.{newline_eligible, next_token}
use go_flux.Lexer.Progress.{Produces, next_token-Produces}
use go_flux.Lexer.Stream.{tokens, EndsWithEof, tokens_end}
use go_flux.Lexer.Strings.{read_string-escape}
use go_flux.Lexer.Places.{ArePlaced, tokens-ArePlaced}
use go_flux.Lexer.Positions.{Tracks, new-Tracks, next_token-Tracks}
use go_flux.Lexer.Newlines.{next_token-EndsStatement, newlines_collapse}

next_token-Produces_example :
    Produces (new (codes "$x := 1")).cursor (next_token (new (codes "$x := 1")))
next_token-Produces_example = next_token-Produces (new (codes "$x := 1"))

tokens_end_example :
    (ts : List Token) × (tokens (length (codes "f(1)\n") + 1) (new (codes "f(1)\n")) ≡ some ts)
    × EndsWithEof ts
    × (length ts < length (codes "f(1)\n") + 2)
tokens_end_example = tokens_end (codes "f(1)\n")

tokens-ArePlaced_example :
    (ts : List Token) × (tokens (length (codes "a\n== b") + 1) (new (codes "a\n== b")) ≡ some ts)
    × ArePlaced (codes "a\n== b") 0 ts
tokens-ArePlaced_example = tokens-ArePlaced (codes "a\n== b")

-- `a`, and the lexer behind it
abbrev name_a : Token
name_a = record {
  type = ident;
  literal = codes "a";
  pos = record { offset = 0; line = 1; column = 1 };
}

abbrev behind_a : Lexer
behind_a = record {
  cursor = record { unread = codes "\nb"; pos = 1; read_pos = 2; ch = b'\n'; line = 2; column = 0 };
  paren_depth = 0;
  bracket_depth = 0;
  last_token = ident;
}

-- the newline behind `a`, and the lexer behind it
abbrev end_of_a : Token
end_of_a = record {
  type = newline;
  literal = [];
  pos = record { offset = 1; line = 2; column = 0 };
}

abbrev behind_line : Lexer
behind_line = record {
  cursor = record { unread = codes "b"; pos = 2; read_pos = 3; ch = b'\n'; line = 3; column = 0 };
  paren_depth = 0;
  bracket_depth = 0;
  last_token = newline;
}

abbrev name_b : Token
name_b = record {
  type = ident;
  literal = codes "b";
  pos = record { offset = 3; line = 3; column = 1 };
}

abbrev at_end : Lexer
at_end = record {
  cursor = record { unread = []; pos = 4; read_pos = 4; ch = 0; line = 3; column = 1 };
  paren_depth = 0;
  bracket_depth = 0;
  last_token = ident;
}

next_token-Tracks_example : Tracks (codes "a\n\nb") behind_a.cursor
unfolding next_token new while is_letter read_identifier lookup_ident is_name lookup bytes_eq
next_token-Tracks_example =
    next_token-Tracks (codes "a\n\nb") (new (codes "a\n\nb")) {t = name_a} {l' = behind_a}
      (new-Tracks (codes "a\n\nb")) refl

next_token-EndsStatement_example :
    (behind_a.paren_depth ≡ 0)
    × (behind_a.bracket_depth ≡ 0)
    × (newline_eligible behind_a.last_token ≡ true)
unfolding next_token while read_char
next_token-EndsStatement_example =
    next_token-EndsStatement behind_a {t = end_of_a} {l' = behind_line} refl refl

newlines_collapse_example : name_b.type ≢ newline
unfolding next_token while read_char is_letter read_identifier lookup_ident is_name lookup bytes_eq
newlines_collapse_example =
    newlines_collapse behind_a {t = end_of_a} {u = name_b} {l' = behind_line} {l'' = at_end} refl
      refl refl

-- the text `a"`, quoted and followed by a space
abbrev quoted_text : Lexer
quoted_text = record {
  cursor = record {
    unread = codes "a\\\"\" ";
    pos = 0;
    read_pos = 1;
    ch = b'"';
    line = 1;
    column = 1;
  };
  paren_depth = 0;
  bracket_depth = 0;
  last_token = newline;
}

read_string-escape_example :
    (q : Cursor) × (q.unread ≡ codes " ")
    × (read_string quoted_text
        ≡ some (
            finish_token
              (make_token string (codes "a\"") quoted_text.cursor)
              (record quoted_text { cursor = read_char q })))
read_string-escape_example =
    read_string-escape (codes "a\"") (codes " ") quoted_text (refl, (refl, tt)) refl
