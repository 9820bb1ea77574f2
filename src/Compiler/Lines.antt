-- ===== src/Compiler/Lines.antt =====
-- internal/compiler/compiler.go: the line table that is recorded with the code, and the line that
-- diagnostics find in it.
use go_flux.Base.{
  ℕ, ◌+◌, ◌≤◌, ◌<◌, ◌≡◌, refl, arith, List, [], ◌∷◌, ◌++◌, Bytes, length, length-append, false,
}
use go_flux.Bytecode.Chunk.{LineInfo}
use go_flux.Bytecode.Lines.{
  Below, line_for_offset, line_for_offset-append_new, line_for_offset-append_old,
}
use go_flux.Compiler.Emit.{FuncCompiler, ends_at, recorded, emit_bytes}

ends_at-Below : (n : ℕ) (is : List LineInfo) → Below n is → ends_at n is ≡ false
unfolding ends_at
ends_at-Below n [] h = refl
ends_at-Below n (i ∷ []) h = ground arith
ends_at-Below n (i ∷ j ∷ is) h = ends_at-Below n (j ∷ is) h.1

Below-weaken : (m n : ℕ) (is : List LineInfo) → m ≤ n → Below m is → Below n is
Below-weaken m n [] l h = tt
Below-weaken m n (i ∷ is) l h = (omega arith, Below-weaken m n is l h.1)

Below-append :
    (m n k : ℕ) (is : List LineInfo)
    → m < n
    → Below n is
    → Below n (is ++ record { offset = m; line = k } ∷ [])
Below-append m n k [] l h = (l, tt)
Below-append m n k (i ∷ is) l h = (h.0, Below-append m n k is l h.1)

module _ (fc : FuncCompiler) (bs : Bytes) (below : Below (length fc.code) fc.lines)
    (on_line : 0 < fc.line) where
  recorded_lem : recorded fc ≡ fc.lines ++ record { offset = length fc.code; line = fc.line } ∷ []
  unfolding recorded
  recorded_lem = ground (arith, ends_at-Below (length fc.code) fc.lines below)

  -- If every entry of the line table is for code that is there, and a line is set, then bytes that
  -- are emitted are on that line, whatever the line of an earlier byte is stays what it was, and
  -- every entry is still for code that is there, provided that there is a byte.
  pub emit_bytes-line_for_offset :
      0 < length bs
      → ((k : ℕ) → line_for_offset (emit_bytes bs fc).lines (length fc.code + k) ≡ fc.line)
        × ((offset : ℕ)
            → offset < length fc.code
            → line_for_offset (emit_bytes bs fc).lines offset ≡ line_for_offset fc.lines offset)
        × Below (length (emit_bytes bs fc).code) (emit_bytes bs fc).lines
  unfolding emit_bytes
  emit_bytes-line_for_offset some_byte = rw recorded_lem (
    (λ k.
        line_for_offset-append_new (length fc.code) fc.line fc.lines (length fc.code + k) below
          (omega arith)),
    (λ offset l. line_for_offset-append_old (length fc.code) fc.line fc.lines offset l),
    Below-append (length fc.code) (length (fc.code ++ bs)) fc.line fc.lines
        (omega (arith, length-append fc.code bs))
        (Below-weaken (length fc.code) (length (fc.code ++ bs)) fc.lines
          (omega (arith, length-append fc.code bs)) below),
  )
