-- ===== src/Vm/Reading.antt =====
-- internal/bytecode/disasm.go and internal/vm/vm.go: the operands that the two of them read.
use go_flux.Base.{ℕ, ◌+◌, ◌≡◌, refl, Option-cases, inl, inr, get_elem?, ok, err}
use go_flux.Bytecode.Chunk.{Prototype, code}
use go_flux.Bytecode.Disasm
use go_flux.Bytecode.Disasm.{Reading}
use go_flux.Vm.State.{Frame, Step, panicked}
use go_flux.Vm.Frames.{read_u8, read_u16}

-- A reading of the disassembler as one of the machine, which panics where the other has an error.
abbrev pub in_frame : Frame → Reading ℕ → Step (ℕ × Frame)
in_frame fr (ok (n, ip)) = ok (n, record fr { ip = ip })
in_frame fr (err e) = err panicked

-- The disassembler reads the operands that the machine reads: from the instruction pointer of a frame
-- each finds the same byte or the same two bytes as a number and goes on behind them, and where the
-- code ends before that, the one has an error and the other panics.
pub read-in_frame :
    (p : Prototype) (fr : Frame)
    → (read_u8 p fr ≡ in_frame fr (Disasm.read_u8 (code p) fr.ip))
      × (read_u16 p fr ≡ in_frame fr (Disasm.read_u16 (code p) fr.ip))
unfolding read_u8 read_u16 Disasm.read_u8 Disasm.read_u16
read-in_frame p fr = elim (Option-cases (get_elem? (code p) fr.ip)) [
  | inl e ↦ rw (e, Disasm.read_u8, Disasm.read_u16) (refl, refl)
  | inr (b, e) ↦ elim (Option-cases (get_elem? (code p) (fr.ip + 1))) [
    | inl g ↦ rw (e, Disasm.read_u8, Disasm.read_u16, g, Disasm.read_u16) (refl, refl)
    | inr (c, g) ↦ rw (e, Disasm.read_u8, Disasm.read_u16, g, Disasm.read_u16) (refl, refl)
  ]
]
