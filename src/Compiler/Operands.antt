-- ===== src/Compiler/Operands.antt =====
-- The operands that internal/compiler/compiler.go writes, as internal/vm/vm.go reads them.
use go_flux.Base.{
  ℕ, ◌+◌, ◌-◌, ◌<◌, ◌≡◌, ◌≢◌, refl, sym, some, [], ◌∷◌, ◌++◌, Bytes, length, get_elem?, set,
  hi_byte, byte, uint16, join_bytes, join_bytes_split, ok, length-append, length-set,
  get_elem?-set_self, get_elem?-set_ne, get_elem?-append, arith, append_assoc, ◌∙◌,
  get_elem?-append_head,
}
use go_flux.Bytecode.Opcode.{Op, opcode}
use go_flux.Bytecode.Chunk.{
  Prototype, code, Const, size, add_last, const_at, size-add_last, const_at-add_last,
}
use go_flux.Compiler.Emit.{FuncCompiler, emit_bytes, emit_jump, patch_jump, add_const, emit_const}
use go_flux.Vm.State.{Frame}
use go_flux.Vm.Frames.{read_u16}

-- What the two bytes at the instruction pointer are read as.
read_u16_bytes :
    (p : Prototype) (fr : Frame) (hi lo : ℕ)
    → get_elem? (code p) fr.ip ≡ some hi
    → get_elem? (code p) (fr.ip + 1) ≡ some lo
    → read_u16 p fr ≡ ok (join_bytes hi lo, record fr { ip = fr.ip + 2 })
unfolding read_u16
read_u16_bytes p fr hi lo h l = rw (h, l)

patched_high :
    (pos : ℕ) (fc : FuncCompiler)
    → pos + 1 < length fc.code
    → get_elem? (patch_jump pos fc).code pos ≡ some (hi_byte (length fc.code))
unfolding patch_jump
patched_high pos fc h =
    rw
      (get_elem?-set_ne (set fc.code pos (hi_byte (length fc.code))) (pos + 1) pos
        (byte (length fc.code)) (λ e. omega (arith, e)))
      (get_elem?-set_self fc.code pos (hi_byte (length fc.code)) (omega arith))

patched_low :
    (pos : ℕ) (fc : FuncCompiler)
    → pos + 1 < length fc.code
    → get_elem? (patch_jump pos fc).code (pos + 1) ≡ some (byte (length fc.code))
unfolding patch_jump
patched_low pos fc h =
    get_elem?-set_self (set fc.code pos (hi_byte (length fc.code))) (pos + 1)
      (byte (length fc.code)) (rw (length-set fc.code pos (hi_byte (length fc.code))) h)

-- Patching a jump writes its two operand bytes and nothing else.
patched_rest :
    (pos i : ℕ) (fc : FuncCompiler)
    → i ≢ pos
    → i ≢ pos + 1
    → get_elem? (patch_jump pos fc).code i ≡ get_elem? fc.code i
unfolding patch_jump
patched_rest pos i fc h k =
    rw
      (get_elem?-set_ne (set fc.code pos (hi_byte (length fc.code))) (pos + 1) i
        (byte (length fc.code)) (λ e. k (sym e)))
      (get_elem?-set_ne fc.code pos i (hi_byte (length fc.code)) (λ e. h (sym e)))

-- The code after a jump instruction with its placeholder.
code-emit_jump :
    (op : Op) (fc : FuncCompiler)
    → (emit_jump op fc).1.code ≡ fc.code ++ opcode op ∷ 0xff ∷ 0xff ∷ []
unfolding emit_jump emit_bytes
code-emit_jump op fc = simp append_assoc

position-emit_jump : (op : Op) (fc : FuncCompiler) → (emit_jump op fc).0 ≡ length fc.code + 1
unfolding emit_jump emit_bytes
position-emit_jump op fc = omega (
  arith,
  length-append ((fc.code ++ opcode op ∷ []) ++ 0xff ∷ []) (0xff ∷ []),
  length-append (fc.code ++ opcode op ∷ []) (0xff ∷ []),
  length-append fc.code (opcode op ∷ []),
)

-- A jump that is emitted, followed by any code, and then patched, is in the code with its opcode,
-- and the machine reads as its operand the offset at which it was patched, if that is below 65536.
pub patch_jump-read_u16 :
    (op : Op) (fc later : FuncCompiler) (bs : Bytes) (p : Prototype) (fr : Frame)
    → later.code ≡ (emit_jump op fc).1.code ++ bs
    → length later.code < 65536
    → code p ≡ (patch_jump (emit_jump op fc).0 later).code
    → fr.ip ≡ (emit_jump op fc).0
    → (get_elem? (code p) (length fc.code) ≡ some (opcode op))
      × (read_u16 p fr ≡ ok (length later.code, record fr { ip = fr.ip + 2 }))
patch_jump-read_u16 op fc later bs p fr l k c i =
    let at : (emit_jump op fc).0 ≡ length fc.code + 1 = position-emit_jump op fc in
    let whole : later.code ≡ fc.code ++ opcode op ∷ 0xff ∷ 0xff ∷ bs =
      l ∙ rw (code-emit_jump op fc, append_assoc) refl in
    let long : (emit_jump op fc).0 + 1 < length later.code =
      rw whole (omega (arith, at, length-append fc.code (opcode op ∷ 0xff ∷ 0xff ∷ bs))) in
    let head : get_elem? later.code (length fc.code) ≡ some (opcode op) =
      rw whole (get_elem?-append_head fc.code _ (opcode op)) in
    (
      rw c (patched_rest _ _ later (λ e. omega (arith, e, at)) (λ e. omega (arith, e, at)) ∙ head),
      read_u16_bytes p fr (hi_byte (length later.code)) (byte (length later.code))
            (rw (c, i) (patched_high _ later long)) (rw (c, i) (patched_low _ later long))
          ∙ rw (join_bytes_split (length later.code) k) refl,
    )

-- A constant that is emitted while the pool has fewer than 65536 of them is what the machine finds:
-- behind the opcode stands the index at which the pool holds the constant, whatever code follows.
pub emit_const-read_u16 :
    (v : Const) (fc : FuncCompiler) (bs : Bytes) (p : Prototype) (fr : Frame)
    → size fc.consts < 65536
    → code p ≡ (emit_const v fc).code ++ bs
    → fr.ip ≡ length fc.code + 1
    → (get_elem? (code p) (length fc.code) ≡ some (opcode Op.const))
      × (read_u16 p fr ≡ ok (size fc.consts, record fr { ip = fr.ip + 2 }))
      × (const_at (emit_const v fc).consts (size fc.consts) ≡ some v)
unfolding emit_const add_const emit_bytes
emit_const-read_u16 v fc bs p fr k c i =
    let n = size fc.consts in
    let index : uint16 (size (add_last fc.consts v) - 1) ≡ n =
      rw (size-add_last fc.consts v) (omega arith) in
    let whole : code p ≡ fc.code ++ opcode Op.const ∷ hi_byte n ∷ byte n ∷ bs =
      c ∙ rw (index, append_assoc) refl in
    let at : (j : ℕ)
        → get_elem? (code p) (length fc.code + j)
          ≡ get_elem? (opcode Op.const ∷ hi_byte n ∷ byte n ∷ bs) j =
      λ j. rw whole (get_elem?-append fc.code _ j) in
    let low : length fc.code + 1 + 1 ≡ length fc.code + 2 = omega arith in
    (
      rw whole (get_elem?-append_head fc.code _ (opcode Op.const)),
      read_u16_bytes p fr (hi_byte n) (byte n) (rw i (at 1)) (rw (i, low) (at 2))
          ∙ rw (join_bytes_split n k) refl,
      const_at-add_last fc.consts v,
    )
