-- ===== src/Parser/Steps.antt =====
-- internal/parser/parser.go: single steps of the parser, where the test that they make is known.
use go_flux.Base.{ℕ, suc, ◌≡◌, refl, Bool, true, false, Option, some}
use go_flux.Token.{TokenType, newline, Token}
use go_flux.Parser.State.{Parser, M, test, cur_is, peek_is, skip_newlines, expecting}

module _ {S A : Type 0} (c : Parser S → Bool) (m n : M S A) (p : Parser S) where
  pub test-true : c p ≡ true → test c m n p ≡ m p
  test-true h = rw (h, test) refl

  pub test-false : c p ≡ false → test c m n p ≡ n p
  test-false h = rw (h, test) refl

module _ {S : Type 0} (next : S → Option (Token × S)) where
  pub skip_newlines_none :
      (f : ℕ) (p : Parser S)
      → cur_is newline p ≡ false
      → skip_newlines next (suc f) p ≡ some (tt, p)
  unfolding skip_newlines
  skip_newlines_none f p h = rw (h, skip_newlines) refl

module _ {S A : Type 0} (t : TokenType) (a : A) (m : M S A) (p : Parser S) where
  pub expecting-true : peek_is t p ≡ true → expecting t a m p ≡ m p
  unfolding expecting
  expecting-true h = rw (h, test) refl
