-- ===== src/Token.antt =====
-- internal/token/token.go: token types, positions and the keyword table. A token type is an
-- enumeration where the source has string constants; a name that Go or this library reserves
-- ends in _kw here.
use go_flux.Base.{
  ℕ, Bool, true, false, ◌≡◌, ◌↔◌, arith, List, [], ◌∷◌, Option, none, some, ◌==◌, Bytes, codes,
  lookup,
}

pub data TokenType : Type 0 where
  illegal eof newline : TokenType
  ident variable number string : TokenType
  if_kw else_if else_kw while_kw for_kw in_kw func return_kw : TokenType
  true_kw false_kw null yield_kw iterate using : TokenType
  assign define plus minus star slash bang : TokenType
  equal not_equal less less_equal greater greater_equal and_and or_or range : TokenType
  comma colon dot l_paren r_paren l_brace r_brace l_bracket r_bracket : TokenType

-- Token types are told apart by a number of their own, as the source's are by their strings.
unfoldable pub tag : TokenType → ℕ
tag illegal = 0
tag eof = 1
tag newline = 2
tag ident = 3
tag variable = 4
tag number = 5
tag string = 6
tag if_kw = 7
tag else_if = 8
tag else_kw = 9
tag while_kw = 10
tag for_kw = 11
tag in_kw = 12
tag func = 13
tag return_kw = 14
tag true_kw = 15
tag false_kw = 16
tag null = 17
tag yield_kw = 18
tag iterate = 19
tag using = 20
tag assign = 21
tag define = 22
tag plus = 23
tag minus = 24
tag star = 25
tag slash = 26
tag bang = 27
tag equal = 28
tag not_equal = 29
tag less = 30
tag less_equal = 31
tag greater = 32
tag greater_equal = 33
tag and_and = 34
tag or_or = 35
tag range = 36
tag comma = 37
tag colon = 38
tag dot = 39
tag l_paren = 40
tag r_paren = 41
tag l_brace = 42
tag r_brace = 43
tag l_bracket = 44
tag r_bracket = 45

-- `t == u`
unfoldable pub is : TokenType → TokenType → Bool
unfolding tag
is t u = tag t == tag u

-- `t == token.EOF`
unfoldable pub is_eof : TokenType → Bool
is_eof eof = true
is_eof _ = false

pub is_eof_iff : (t : TokenType) → (is_eof t ≡ true) ↔ (t ≡ eof)
unfolding is_eof
is_eof_iff eof = ground arith
is_eof_iff _ = ground arith

pub record Position : Type 0 where
  pub offset : ℕ
  pub line : ℕ
  pub column : ℕ

pub record Token : Type 0 where
  pub type : TokenType
  pub literal : Bytes
  pub pos : Position

abbrev keywords : List (Bytes × TokenType)
keywords =
    (codes "if", if_kw)
    ∷ (codes "elseif", else_if)
    ∷ (codes "else", else_kw)
    ∷ (codes "while", while_kw)
    ∷ (codes "for", for_kw)
    ∷ (codes "in", in_kw)
    ∷ (codes "func", func)
    ∷ (codes "return", return_kw)
    ∷ (codes "true", true_kw)
    ∷ (codes "false", false_kw)
    ∷ (codes "null", null)
    ∷ (codes "yield", yield_kw)
    ∷ (codes "iterate", iterate)
    ∷ (codes "using", using)
    ∷ []

abbrev or_ident : Option TokenType → TokenType
or_ident (some t) = t
or_ident none = ident

unfoldable pub lookup_ident : Bytes → TokenType
lookup_ident name = or_ident (lookup name keywords)
