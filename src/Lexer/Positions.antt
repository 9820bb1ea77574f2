-- ===== src/Lexer/Positions.antt =====
-- internal/lexer/lexer.go: offset, line and column against the bytes read.
use go_flux.Base.{
  ℕ, ◌+◌, ◌≡◌, refl, sym, ap, ◌∙◌, ◌⊎◌, inl, inr, [], ◌∷◌, ◌++◌, append_assoc, append-nil, some,
  Bytes, length, length-append, get_elem?, get_elem?-append, ◌==◌, if◌then◌else◌, arith,
}
use go_flux.Token.{Token}
use go_flux.Lexer.State.{Cursor, Lexer, new, read_char, read_from}
use go_flux.Lexer.Next.{next_token}
use go_flux.Lexer.Advance.{Advances, here, further}
use go_flux.Lexer.Progress.{next_token-Produces, Produces}

-- How often a newline stands in a text, and how many bytes stand behind the last one.
unfoldable pub newlines : Bytes → ℕ
newlines [] = 0
newlines (b ∷ bs) = (if b == b'\n' then 1 else 0) + newlines bs

unfoldable pub column_from : ℕ → Bytes → ℕ
column_from n [] = n
column_from n (b ∷ bs) = column_from (if b == b'\n' then 0 else n + 1) bs

newlines-concat :
    (s : Bytes) (b : ℕ) → newlines (s ++ b ∷ []) ≡ newlines s + (if b == b'\n' then 1 else 0)
unfolding newlines
newlines-concat [] b = omega arith
newlines-concat (x ∷ s) b = omega (arith, newlines-concat s b)

column_from-concat :
    (n : ℕ) (s : Bytes) (b : ℕ)
    → column_from n (s ++ b ∷ []) ≡ (if b == b'\n' then 0 else column_from n s + 1)
unfolding column_from
column_from-concat n [] b = refl
column_from-concat n (x ∷ s) b = column_from-concat (if x == b'\n' then 0 else n + 1) s b

-- The cursor stands in `input` behind the bytes `done`: `read_pos` counts them, and `line` and
-- `column` are the place of the last of them.
pub record Counts (input : Bytes) (c : Cursor) : Type 0 where
  pub done : Bytes
  pub splits : input ≡ done ++ c.unread
  pub read_pos_is : c.read_pos ≡ length done
  pub line_is : c.line ≡ 1 + newlines done
  pub column_is : c.column ≡ column_from 0 done

-- And `pos` is the index of the current byte, or the length of the input at its end.
pub record Tracks (input : Bytes) (c : Cursor) : Type 0 where
  pub counts : Counts input c
  pub pos_is :
      ((c.pos + 1 ≡ c.read_pos) × (get_elem? input c.pos ≡ some c.ch))
      ⊎ ((c.pos ≡ length input) × (c.ch ≡ 0) × (c.unread ≡ []))

module _ (input : Bytes) where
  read_from-Tracks :
      (c : Cursor) (u : Bytes) → c.unread ≡ u → Counts input c → Tracks input (read_from u c)
  unfolding read_from
  read_from-Tracks c [] e h =
      let whole : input ≡ h.done = h.splits ∙ rw (e, append-nil) in
      record {
        counts = record {
          done = h.done;
          splits = h.splits;
          read_pos_is = h.read_pos_is;
          line_is = h.line_is;
          column_is = h.column_is;
        };
        pos_is = inr (h.read_pos_is ∙ ap length (sym whole), refl, e);
      }
  read_from-Tracks c (b ∷ bs) e h =
      let cut : input ≡ h.done ++ (b ∷ bs) = h.splits ∙ ap (◌++◌ h.done) e in
      record {
        counts = record {
          done = h.done ++ b ∷ [];
          splits = cut ∙ rw append_assoc;
          read_pos_is = omega (arith, length-append h.done (b ∷ []), h.read_pos_is);
          line_is = ground (arith, newlines-concat h.done b, h.line_is);
          column_is = ground (arith, column_from-concat 0 h.done b, h.column_is);
        };
        pos_is = inl (refl, at h.done cut h.read_pos_is);
      }
    where
      at :
          (done : Bytes)
          → input ≡ done ++ (b ∷ bs)
          → c.read_pos ≡ length done
          → get_elem? input c.read_pos ≡ some b
      at done cut e =
          let z : c.read_pos ≡ length done + 0 = omega arith in
          rw (cut, z) (get_elem?-append done (b ∷ bs) 0)

  pub Advances-Tracks : {c d : Cursor} → Advances c d → Tracks input c → Tracks input d
  unfolding read_char
  Advances-Tracks here h = h
  Advances-Tracks (further {d} k) h = read_from-Tracks d d.unread refl (Advances-Tracks k h).counts

  -- At the start, of `New`.
  pub new-Tracks : Tracks input (new input).cursor
  unfolding new newlines column_from
  new-Tracks =
      read_from-Tracks _ input refl
        (record { done = []; splits = refl; read_pos_is = refl; line_is = refl; column_is = refl })

  -- Every call of `NextToken` keeps the position right: the bytes read and unread make up the
  -- input, the offset is the index of the current byte (or the input's length at its end), the line
  -- is one more than the newlines read, and the column counts the bytes behind the last of them.
  pub next_token-Tracks :
      (l : Lexer) {t : Token} {l' : Lexer}
      → Tracks input l.cursor
      → next_token l ≡ some (t, l')
      → Tracks input l'.cursor
  next_token-Tracks l {t} {l'} h e =
      let p : Produces l.cursor (some (t, l')) = rw e at (next_token-Produces l) in
      Advances-Tracks p.0 h
