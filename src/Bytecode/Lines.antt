-- ===== src/Bytecode/Lines.antt =====
-- The line tables of internal/bytecode/chunk.go, as internal/vm/diagnostics.go and
-- internal/bytecode/disasm.go read them.
use go_flux.Base.{ℕ, ◌≤◌, ◌<◌, ◌≡◌, refl, arith, List, [], ◌∷◌, ◌++◌, ltb, leb, if◌then◌else◌}
use go_flux.Bytecode.Chunk.{LineInfo}

-- The loop of `lineForOffset`, with the line found so far.
line_from : ℕ → List LineInfo → ℕ → ℕ
line_from line [] offset = line
line_from line (i ∷ is) offset =
    let rest = line_from i.line is offset in if ltb offset i.offset then line else rest

-- `lineForOffset`, at an offset that is not negative
unfoldable pub line_for_offset : List LineInfo → ℕ → ℕ
unfolding line_from
line_for_offset is offset = line_from 0 is offset

-- Every entry of the table is below an offset.
abbrev pub Below : ℕ → List LineInfo → Type 0
Below n [] = Unit
Below n (i ∷ is) = (i.offset < n) × Below n is

-- The entries are in the order of their offsets, from one on.
abbrev pub Ordered : ℕ → List LineInfo → Type 0
Ordered n [] = Unit
Ordered n (i ∷ is) = (n ≤ i.offset) × Ordered i.offset is

-- The line of the last entry that is not behind an offset.
unfoldable pub last_line : ℕ → List LineInfo → ℕ → ℕ
last_line line [] offset = line
last_line line (i ∷ is) offset = last_line (if leb i.offset offset then i.line else line) is offset

last_line-behind :
    (line n : ℕ) (is : List LineInfo) (offset : ℕ)
    → Ordered n is
    → offset < n
    → last_line line is offset ≡ line
unfolding last_line
last_line-behind line n [] offset h l = refl
last_line-behind line n (i ∷ is) offset h l =
    ground (arith, last_line-behind line i.offset is offset)

line_from-last_line :
    (line n : ℕ) (is : List LineInfo) (offset : ℕ)
    → Ordered n is
    → line_from line is offset ≡ last_line line is offset
unfolding line_from last_line
line_from-last_line line n [] offset h = refl
line_from-last_line line n (i ∷ is) offset h =
    ground (
      arith,
      line_from-last_line i.line i.offset is offset,
      last_line-behind line i.offset is offset,
    )

-- In a table in the order of its offsets, lineForOffset finds the line of the last entry that is not
-- behind the offset, and 0 if there is none.
pub line_for_offset-last_line :
    (is : List LineInfo) (offset : ℕ)
    → Ordered 0 is
    → line_for_offset is offset ≡ last_line 0 is offset
unfolding line_for_offset
line_for_offset-last_line is offset h = line_from-last_line 0 0 is offset h

-- What a new last entry changes.
module _ (n m : ℕ) where
  line_from-append_new :
      (line : ℕ) (is : List LineInfo) (offset : ℕ)
      → Below n is
      → n ≤ offset
      → line_from line (is ++ record { offset = n; line = m } ∷ []) offset ≡ m
  unfolding line_from
  line_from-append_new line [] offset h l = ground arith
  line_from-append_new line (i ∷ is) offset h l =
      ground (arith, line_from-append_new i.line is offset)

  line_from-append_old :
      (line : ℕ) (is : List LineInfo) (offset : ℕ)
      → offset < n
      → line_from line (is ++ record { offset = n; line = m } ∷ []) offset
        ≡ line_from line is offset
  unfolding line_from
  line_from-append_old line [] offset l = ground arith
  line_from-append_old line (i ∷ is) offset l =
      ground (arith, line_from-append_old i.line is offset)

  pub line_for_offset-append_new :
      (is : List LineInfo) (offset : ℕ)
      → Below n is
      → n ≤ offset
      → line_for_offset (is ++ record { offset = n; line = m } ∷ []) offset ≡ m
  unfolding line_for_offset
  line_for_offset-append_new is offset = line_from-append_new 0 is offset

  pub line_for_offset-append_old :
      (is : List LineInfo) (offset : ℕ)
      → offset < n
      → line_for_offset (is ++ record { offset = n; line = m } ∷ []) offset
        ≡ line_for_offset is offset
  unfolding line_for_offset
  line_for_offset-append_old is offset = line_from-append_old 0 is offset
