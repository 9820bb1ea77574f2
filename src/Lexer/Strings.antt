-- ===== src/Lexer/Strings.antt =====
-- internal/lexer/lexer.go, `readString`, on texts that are escaped and quoted.
use go_flux.Base.{
  ℕ, zero, suc, ◌<◌, ◌≤◌, true, false, ◌||◌, ◌≡◌, refl, ap, Option, some, [], ◌∷◌, ◌++◌, Bytes,
  length, ◌==◌, if◌then◌else◌, Bool-cases, inl, inr, arith, append-nil, append_assoc, length-append,
}
use go_flux.Token.{string}
use go_flux.Lexer.State.{Cursor, Lexer, read_char, read_from, make_token, finish_token, rounds}
use go_flux.Lexer.Scan.{unescape, scan_string, string_token, read_string}

-- A backslash before each quote and backslash.
abbrev pub escape : Bytes → Bytes
escape [] = []
escape (b ∷ s) = if b == b'"' || b == b'\\' then b'\\' ∷ b ∷ escape s else b ∷ escape s

abbrev pub NoNul : Bytes → Type 0
NoNul [] = Unit
NoNul (b ∷ s) = ((b == 0) ≡ false) × NoNul s

-- The text has been read up to its closing quote, which is followed by `rest`.
abbrev Closed : Bytes → Bytes → Option (Cursor × Option Bytes) → Type 0
Closed text rest r = (q : Cursor) × (q.unread ≡ rest) × (r ≡ some (read_char q, some text))

unescape_self : (b : ℕ) → (b == b'"' || b == b'\\') ≡ true → unescape b ≡ b
unfolding unescape
unescape_self b h = ground arith

read_char_next :
    (c : Cursor) (b : ℕ) (bs : Bytes)
    → c.unread ≡ b ∷ bs
    → ((read_char c).ch ≡ b) × ((read_char c).unread ≡ bs)
unfolding read_char read_from
read_char_next c b bs e = (rw (read_char, e) refl, rw (read_char, e) refl)

scan_string-escape :
    (s rest : Bytes) (fuel : ℕ) (c : Cursor) (sb : Bytes)
    → NoNul s
    → length s < fuel
    → c.unread ≡ escape s ++ b'"' ∷ rest
    → Closed (sb ++ s) rest (scan_string fuel c sb)
unfolding scan_string read_char
scan_string-escape s rest zero c sb n l e = absurd (omega arith)
scan_string-escape [] rest (suc fuel) c sb n l e =
    let (h, u) = read_char_next c b'"' rest e in
    (read_char c, u, rw (scan_string, h, append-nil sb) refl)
scan_string-escape (b ∷ s) rest (suc fuel) c sb (n, ns) l e =
    elim (Bool-cases (b == b'"' || b == b'\\')) [
      | inl t ↦
          let (h, u) = read_char_next c b'\\' (b ∷ escape s ++ b'"' ∷ rest) (rw (escape, t) at e) in
          let (k, v) = read_char_next (read_char c) b (escape s ++ b'"' ∷ rest) u in
          let (q, w, r) =
            scan_string-escape s rest fuel (read_char (read_char c)) (sb ++ b ∷ []) ns (omega arith)
              v in
          (q, w, rw (scan_string, h, k, unescape_self b t, r, append_assoc sb (b ∷ []) s) refl)
      | inr f ↦
          let (h, u) = read_char_next c b (escape s ++ b'"' ∷ rest) (rw (escape, f) at e) in
          let (q, w, r) =
            scan_string-escape s rest fuel (read_char c) (sb ++ b ∷ []) ns (omega arith) u in
          let quote : (b == b'"') ≡ false = ground (arith, f) in
          let slash : (b == b'\\') ≡ false = ground (arith, f) in
          (q, w, rw (scan_string, h, n, quote, slash, r, append_assoc sb (b ∷ []) s) refl)
    ]

length-escape : (s : Bytes) → length s ≤ length (escape s)
length-escape [] = omega arith
length-escape (b ∷ s) = ground (arith, length-escape s)

-- On an opening quote, a text without zero bytes that is escaped and closed by a quote is read back
-- as one string token with that text, at the position of the opening quote, and the lexer goes on
-- behind the closing quote.
pub read_string-escape :
    (s rest : Bytes) (l : Lexer)
    → NoNul s
    → l.unread ≡ escape s ++ b'"' ∷ rest
    → (q : Cursor) × (q.unread ≡ rest)
      × (read_string l
          ≡ some (finish_token (make_token string s l.cursor) (record l { cursor = read_char q })))
unfolding read_string string_token
read_string-escape s rest l n e =
    let long : length s < rounds l.cursor =
      ground (arith, length-escape s, ap length e, length-append (escape s) (b'"' ∷ rest)) in
    let (q, w, r) = scan_string-escape s rest (rounds l.cursor) l.cursor [] n long e in
    (q, w, rw (read_string, r) refl)
