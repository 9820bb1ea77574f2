-- ===== src/Parser/Sound.antt =====
-- internal/parser/parser.go: the trees that come with no error.
use go_flux.Base.{ℕ, zero, suc, length, Option, none, [], Bytes}
use go_flux.Token.{
  TokenType, Token, ident, variable, number, string, l_bracket, newline, eof, comma, r_paren,
  r_bracket,
}
use go_flux.Parser.State.{
  Parser, M, expecting, skip_newlines, skip_peek_newlines, advance_unless_eof, enter_block,
  consume_rparen, cur_is, peek_is, expected_rparen, invalid_binding, expected_parameter,
  invalid_key,
}
use go_flux.Parser.Pieces.{
  binding_at, parse_for_binding, more_params, parse_param_list, key_at, parse_object_key,
}
use go_flux.Parser.Clean.{
  Ensures, stopped, bind-Ensures, weaken-Ensures, pure-Ensures, test-Ensures, here-Ensures,
  failed-Ensures, expecting-Ensures, advance-Ensures,
}

-- A routine of which nothing is asked but that it loses no error.
abbrev pub Any : {A : Type 0} → A → Type 0
Any a = Unit {0}

module _ {S : Type 0} where
  abbrev pub Sound : {A : Type 0} → (A → Type 0) → M S A → Type 0
  Sound P m = (p : Parser S) → Ensures (length p.errors) Unit P (m p)

  key_at-Sound : (t : TokenType) (x : Bytes) → Sound Any (key_at t x)
  unfolding key_at
  key_at-Sound ident x p = pure-Ensures λ c. tt
  key_at-Sound string x p = pure-Ensures λ c. tt
  key_at-Sound number x p = pure-Ensures λ c. tt
  key_at-Sound _ x p = failed-Ensures invalid_key (record { ident = []; str = none; num = none }) p

  pub object_key-Sound : Sound Any parse_object_key
  unfolding parse_object_key
  object_key-Sound p = key_at-Sound p.cur.type p.cur.literal p

  module _ (next : S → Option (Token × S)) where
    pub skip_newlines-Sound : (f : ℕ) → Sound Any (skip_newlines next f)
    unfolding skip_newlines
    skip_newlines-Sound zero p = stopped
    skip_newlines-Sound (suc f) p =
        test-Ensures (cur_is newline p)
          (bind-Ensures (advance-Ensures next p)
            λ u q. weaken-Ensures (λ c. tt) (skip_newlines-Sound f q))
          (pure-Ensures λ c. tt)

    pub skip_peek_newlines-Sound : (f : ℕ) → Sound Any (skip_peek_newlines next f)
    unfolding skip_peek_newlines
    skip_peek_newlines-Sound zero p = stopped
    skip_peek_newlines-Sound (suc f) p =
        test-Ensures (peek_is newline p)
          (bind-Ensures (advance-Ensures next p)
            λ u q. weaken-Ensures (λ c. tt) (skip_peek_newlines-Sound f q))
          (pure-Ensures λ c. tt)

    pub advance_unless_eof-Sound : Sound Any (advance_unless_eof next)
    unfolding advance_unless_eof
    advance_unless_eof-Sound p =
        test-Ensures (cur_is eof p) (pure-Ensures λ c. tt) (advance-Ensures next p)

    pub enter_block-Sound : Sound Any (enter_block next)
    unfolding enter_block
    enter_block-Sound p = test-Ensures _ (advance-Ensures next p) (pure-Ensures λ c. tt)

    pub consume_rparen-Sound : Sound Any (consume_rparen next)
    unfolding consume_rparen
    consume_rparen-Sound p = test-Ensures (cur_is r_paren p) (advance-Ensures next p) (
        test-Ensures (peek_is r_paren p)
          (bind-Ensures (advance-Ensures next p)
            λ u q. weaken-Ensures (λ c. tt) (advance-Ensures next q))
          (here-Ensures expected_rparen p))

    binding_at-Sound : (t : TokenType) → Sound Any (binding_at next t)
    unfolding binding_at expecting
    binding_at-Sound variable p = bind-Ensures (advance-Ensures next p) λ u q. pure-Ensures λ c. tt
    binding_at-Sound l_bracket p =
        expecting-Ensures variable ([], []) p
          (bind-Ensures (advance-Ensures next p) λ u q.
            expecting-Ensures comma ([], []) q
              (bind-Ensures (advance-Ensures next q) λ v r.
                expecting-Ensures variable ([], []) r
                  (bind-Ensures (advance-Ensures next r) λ w s.
                    expecting-Ensures r_bracket ([], []) s
                      (bind-Ensures (advance-Ensures next s) λ x t. pure-Ensures λ c. tt))))
    binding_at-Sound _ p = failed-Ensures invalid_binding ([], []) p

    pub for_binding-Sound : Sound Any (parse_for_binding next)
    unfolding parse_for_binding
    for_binding-Sound p = binding_at-Sound p.cur.type p

    more_params-Sound : (f : ℕ) → Sound Any (more_params next f)
    unfolding more_params
    more_params-Sound zero p = stopped
    more_params-Sound (suc f) p =
        test-Ensures (peek_is comma p)
          (bind-Ensures (advance-Ensures next p) λ u q. bind-Ensures (advance-Ensures next q) λ v r.
            test-Ensures (cur_is variable r)
              (bind-Ensures (more_params-Sound f r) λ xs s. pure-Ensures λ c. tt)
              (failed-Ensures expected_parameter [] r))
          (pure-Ensures λ c. tt)

    pub param_list-Sound : (f : ℕ) → Sound Any (parse_param_list next f)
    unfolding parse_param_list
    param_list-Sound f p = test-Ensures (cur_is r_paren p) (pure-Ensures λ c. tt) (
        test-Ensures (cur_is variable p)
          (bind-Ensures (more_params-Sound f p) λ xs q. pure-Ensures λ c. tt)
          (failed-Ensures expected_parameter [] p))
