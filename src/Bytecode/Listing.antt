-- ===== src/Bytecode/Listing.antt =====
-- internal/bytecode/disasm.go: the names of opcodes, a line of the listing, the loop over a chunk, and
-- the prototypes in its constants.
use go_flux.Base.{
  ℕ, zero, suc, ◌+◌, Bool, true, false, Option, none, some, List, [], ◌∷◌, ◌++◌, Bytes, codes,
  length, get_elem?, ◌*◌, ◌||◌, ltb, leb, if◌then◌else◌, ok, err,
}
use go_flux.Bytecode.Opcode.{Op, decode}
use go_flux.Bytecode.Chunk.{
  function, Consts, empty, entry, Prototype, prototype, name, code, LineInfo,
}
use go_flux.Bytecode.Builtins.{Spec, lookup_builtin}
use go_flux.Bytecode.Lines.{line_for_offset}
use go_flux.Bytecode.Disasm.{Format, DisasmError, Reading, or_else, line_break, operands_of}

-- The cases of `opName` for the opcodes that are not built-in operations.
op_name : Op → Bytes
op_name Op.const = codes "OP_CONST"
op_name Op.null = codes "OP_NULL"
op_name Op.true_op = codes "OP_TRUE"
op_name Op.false_op = codes "OP_FALSE"
op_name Op.pop = codes "OP_POP"
op_name Op.add = codes "OP_ADD"
op_name Op.sub = codes "OP_SUB"
op_name Op.mul = codes "OP_MUL"
op_name Op.div = codes "OP_DIV"
op_name Op.neg = codes "OP_NEG"
op_name Op.not = codes "OP_NOT"
op_name Op.eq = codes "OP_EQ"
op_name Op.neq = codes "OP_NEQ"
op_name Op.lt = codes "OP_LT"
op_name Op.lte = codes "OP_LTE"
op_name Op.gt = codes "OP_GT"
op_name Op.gte = codes "OP_GTE"
op_name Op.and = codes "OP_AND"
op_name Op.or = codes "OP_OR"
op_name Op.get_global = codes "OP_GET_GLOBAL"
op_name Op.set_global = codes "OP_SET_GLOBAL"
op_name Op.define_global = codes "OP_DEFINE_GLOBAL"
op_name Op.get_local = codes "OP_GET_LOCAL"
op_name Op.set_local = codes "OP_SET_LOCAL"
op_name Op.get_upvalue = codes "OP_GET_UPVALUE"
op_name Op.set_upvalue = codes "OP_SET_UPVALUE"
op_name Op.array = codes "OP_ARRAY"
op_name Op.object = codes "OP_OBJECT"
op_name Op.range = codes "OP_RANGE"
op_name Op.index_get = codes "OP_INDEX_GET"
op_name Op.index_set = codes "OP_INDEX_SET"
op_name Op.get_prop = codes "OP_GET_PROP"
op_name Op.set_prop = codes "OP_SET_PROP"
op_name Op.jump = codes "OP_JUMP"
op_name Op.jump_if_false = codes "OP_JUMP_IF_FALSE"
op_name Op.jump_if_true = codes "OP_JUMP_IF_TRUE"
op_name Op.call = codes "OP_CALL"
op_name Op.return_op = codes "OP_RETURN"
op_name Op.closure = codes "OP_CLOSURE"
op_name Op.nop = codes "OP_NOP"
op_name Op.debug = codes "OP_DEBUG"
op_name Op.iter_prep = codes "OP_ITER_PREP"
op_name Op.iter_next = codes "OP_ITER_NEXT"

abbrev pub lines_of : Prototype → List LineInfo
lines_of (prototype n s k c cs ls us m) = ls

-- What is written, whether a section has been, and the prototypes visited.
pub record Writer : Type 0 where
  pub out : Bytes
  pub printed : Bool
  pub visited : List Prototype

abbrev pub write : Bytes → Writer → Writer
write text d = record d { out = d.out ++ text }

abbrev pub broken : Writer → Writer
broken d = if d.printed then write line_break d else d

unfoldable pub start_section : Writer → Writer
start_section d = record (broken d) { printed = true }

-- `PrintNative` and `PrintMissing`
unfoldable pub print_native : Bytes → Writer → Writer
unfolding start_section
print_native name d =
    write (codes "func " ++ (or_else name (codes "<native>") ++ (codes " [native]" ++ line_break)))
      (start_section d)

unfoldable pub print_missing : Bytes → Writer → Writer
unfolding start_section
print_missing name d =
    write
      (codes "func "
        ++ (or_else name (codes "<unknown>") ++ (codes " [missing prototype]" ++ line_break)))
      (start_section d)

-- The writer, and the error that ended the listing.
abbrev pub Written : Type 0
Written = Writer × Option DisasmError

-- What is written next, if there was no error.
abbrev pub and_then : Option Written → (Writer → Option Written) → Option Written
and_then none next = none
and_then (some (d, some e)) next = some (d, some e)
and_then (some (d, none)) next = next d

-- `if d.visited[proto] { return nil }` and `d.visited[proto] = true`
abbrev pub unless_visited : Bool → Prototype → Writer → (Writer → Option Written) → Option Written
unless_visited true p d next = some (d, none)
unless_visited false p d next = next (record d { visited = p ∷ d.visited })

-- The name of a prototype in the constants, which `label` is for the one that is asked for.
abbrev pub child_name : (ℕ → Bytes) → ℕ → Prototype → Bytes
child_name decimal i p = or_else (name p) (codes "<closure@const:" ++ (decimal i ++ codes ">"))

module _ (F : Format) where
  open F use {decimal, decimal4, hex, pad_left, pad_right, trim_space}

  -- `opName`: the name, and a comment
  named_op : ℕ → Option Op → Bytes × Bytes
  unfolding op_name
  named_op b none = (codes "OP_0x" ++ hex b, [])
  named_op b (some o) = (op_name o, [])

  labelled : ℕ → Option Spec → Bytes × Bytes
  unfolding named_op
  labelled b (some s) = (codes "OP_BUILTIN_" ++ s.name, codes "arity=" ++ decimal s.arity)
  labelled b none =
      if leb 0x80 b then (codes "OP_BUILTIN_0x" ++ hex b, []) else named_op b (decode b)

  unfoldable pub op_label : ℕ → Bytes × Bytes
  unfolding labelled
  op_label b = labelled b (lookup_builtin b)

  commented : Bytes → Bytes → Bytes
  commented detail [] = detail
  commented [] (c ∷ comment) = codes "; " ++ (c ∷ comment)
  commented (b ∷ detail) (c ∷ comment) = (b ∷ detail) ++ (codes " ; " ++ (c ∷ comment))

  spaced : Bytes → Bytes
  spaced [] = []
  spaced (b ∷ detail) = codes " " ++ (b ∷ detail)

  line_text : ℕ → Bytes
  line_text line = if ltb 0 line then decimal line else codes "-"

  unfoldable pub listing_line : ℕ → ℕ → Bytes × Bytes → Bytes → Bytes
  unfolding commented spaced line_text
  listing_line offset line (label, comment) operands =
      decimal4 offset
      ++ (codes " "
          ++ (pad_left (line_text line)
              ++ (codes " "
                  ++ (pad_right label
                      ++ (spaced (commented (trim_space operands) comment) ++ line_break)))))

  -- `disassembleChunk` from an offset on; `none` is the end of the fuel
  unfoldable mutual
    unfolding operands_of listing_line op_label

    pub chunk_from : ℕ → Prototype → ℕ → Writer → Option Written
    chunk_from zero p ip d = none
    chunk_from (suc fuel) p ip d = elim (get_elem? (code p) ip) [
      | none ↦ some (d, none)
      | some b ↦ chunk_rest fuel p ip b (operands_of F (decode b) p (ip + 1)) d
    ]

    pub chunk_rest : ℕ → Prototype → ℕ → ℕ → Reading Bytes → Writer → Option Written
    chunk_rest zero p ip b r d = none
    chunk_rest (suc fuel) p ip b (err e) d = some (d, some e)
    chunk_rest (suc fuel) p ip b (ok (operands, next)) d =
        chunk_from fuel p next
          (write (listing_line ip (line_for_offset (lines_of p) ip) (op_label b) operands) d)

  unfoldable pub header : Bytes → Prototype → Bytes
  header label (prototype n s k c cs ls us m) =
      codes "func "
      ++ (or_else label (or_else n (codes "<anon>"))
          ++ (codes " (params="
              ++ (decimal k
                  ++ (codes ", locals="
                      ++ (decimal m
                          ++ (codes ", upvalues="
                              ++ (decimal (length us)
                                  ++ (codes ") source="
                                      ++ (or_else s (codes "<unknown>") ++ line_break)))))))))

  -- `same` is the equality of pointers by which the set of visited prototypes tells them apart.
  module _ (same : Prototype → Prototype → Bool) where
    abbrev pub is_visited : Prototype → List Prototype → Bool
    is_visited p [] = false
    is_visited p (q ∷ qs) = same p q || is_visited p qs

    -- `DisassemblePrototype`, over the prototype and its constants; a chunk of n bytes takes 2 * n + 2
    -- calls of the loop.
    unfoldable mutual
      unfolding header chunk_from start_section

      pub list_prototype : Bytes → Prototype → Writer → Option Written
      list_prototype label (prototype n s k c cs ls us m) d =
          let p = prototype n s k c cs ls us m in
          unless_visited (is_visited p d.visited) p d λ d'.
            and_then (chunk_from (2 * length c + 2) p 0 (write (header label p) (start_section d')))
              (list_consts 0 cs)

      pub list_consts : ℕ → Consts → Writer → Option Written
      list_consts i empty d = some (d, none)
      list_consts i (entry (function p) cs) d =
          and_then (list_prototype (child_name decimal i p) p d) (list_consts (i + 1) cs)
      list_consts i (entry _ cs) d = list_consts (i + 1) cs d
