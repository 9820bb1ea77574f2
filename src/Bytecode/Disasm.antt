-- ===== src/Bytecode/Disasm.antt =====
-- internal/bytecode/disasm.go: operands and constants as text. What fmt and strconv print is a
-- parameter.
use go_flux.Base.{
  ℕ, zero, suc, ◌+◌, true, false, Option, none, some, List, [], ◌∷◌, ◌++◌, Bytes, codes, get_elem?,
  join_bytes, ◌==◌, if◌then◌else◌, Result, ok, err, ◌>>=◌,
}
use go_flux.Bytecode.Opcode.{Op}
use go_flux.Bytecode.Chunk.{
  Const, nil, bool, number, string, function, Prototype, name, code, consts, const_at,
}

-- `%d`, `%04d`, `%02X`, `%4s`, `%-16s`, `strings.TrimSpace`, `strconv.Quote` and `FormatFloat`
pub record Format : Type 0 where
  pub decimal : ℕ → Bytes
  pub decimal4 : ℕ → Bytes
  pub hex : ℕ → Bytes
  pub pad_left : Bytes → Bytes
  pub pad_right : Bytes → Bytes
  pub trim_space : Bytes → Bytes
  pub quote : Bytes → Bytes
  pub format_float : ℕ → Bytes

pub data DisasmError : Type 0 where
  end_of_code : DisasmError
  const_range : ℕ → DisasmError

-- A value and the `ip` behind it.
abbrev pub Reading : Type 0 → Type 0
Reading A = Result DisasmError (A × ℕ)

unfoldable pub read_u8 : Bytes → ℕ → Reading ℕ
read_u8 bs ip = elim (get_elem? bs ip) [ none ↦ err end_of_code | some b ↦ ok (b, ip + 1) ]

unfoldable pub read_u16 : Bytes → ℕ → Reading ℕ
read_u16 bs ip = elim (get_elem? bs ip) [
  | none ↦ err end_of_code
  | some hi ↦ elim (get_elem? bs (ip + 1)) [
    | none ↦ err end_of_code
    | some lo ↦ ok (join_bytes hi lo, ip + 2)
  ]
]

abbrev pub or_else : Bytes → Bytes → Bytes
or_else [] other = other
or_else (b ∷ bs) other = b ∷ bs

abbrev pub line_break : Bytes
line_break = b'\n' ∷ []

module _ (F : Format) where
  open F use {decimal, decimal4, hex, pad_left, pad_right, trim_space, quote, format_float}

  unfoldable pub format_const : Const → Bytes
  format_const nil = codes "null"
  format_const (bool true) = codes "true"
  format_const (bool false) = codes "false"
  format_const (number n) = format_float n
  format_const (string s) = quote s
  format_const (function p) = codes "proto " ++ or_else (name p) (codes "<anon>")

  unfoldable pub format_const_ref : Prototype → ℕ → Bytes
  unfolding format_const
  format_const_ref p i = elim (const_at (consts p) i) [
    | none ↦ codes "<invalid>"
    | some c ↦ format_const c
  ]

  -- The upvalues of a closure: `local n` or `upvalue n`, with commas between.
  abbrev pub upvalue_text : ℕ → ℕ → Bytes
  upvalue_text is_local slot =
      if is_local == 1 then codes "local " ++ decimal slot else codes "upvalue " ++ decimal slot

  abbrev join_texts : List Bytes → Bytes
  join_texts [] = []
  join_texts (t ∷ []) = t
  join_texts (t ∷ u ∷ ts) = t ++ (codes ", " ++ join_texts (u ∷ ts))

  unfoldable pub read_upvalues : Bytes → ℕ → ℕ → Reading (List Bytes)
  unfolding read_u8
  read_upvalues bs zero ip = ok ([], ip)
  read_upvalues bs (suc n) ip = do
    (is_local, ip1) ← read_u8 bs ip
    (slot, ip2) ← read_u8 bs ip1
    (rest, ip3) ← read_upvalues bs n ip2
    ok (upvalue_text is_local slot ∷ rest, ip3)

  abbrev bracketed : List Bytes → Bytes
  bracketed [] = []
  bracketed (t ∷ ts) = codes " [" ++ (join_texts (t ∷ ts) ++ codes "]")

  unfoldable pub named : Bytes → Prototype → ℕ → Reading Bytes
  unfolding read_u16 format_const_ref
  named label p ip = do
    (i, ip1) ← read_u16 (code p) ip
    ok (decimal i ++ (label ++ format_const_ref p i), ip1)

  unfoldable pub one_byte : Prototype → ℕ → Reading Bytes
  unfolding read_u8
  one_byte p ip = do (n, ip1) ← read_u8 (code p) ip; ok (decimal n, ip1)

  unfoldable pub two_bytes : Prototype → ℕ → Reading Bytes
  unfolding read_u16
  two_bytes p ip = do (n, ip1) ← read_u16 (code p) ip; ok (decimal n, ip1)

  unfoldable pub const_text : ℕ → Option Const → Result DisasmError Bytes
  unfolding format_const
  const_text i none = err (const_range i)
  const_text i (some c) =
      ok (decimal i ++ (codes " ; const[" ++ (decimal i ++ (codes "]=" ++ format_const c))))

  -- `decodeOperands`, for the opcode of a byte
  unfoldable pub operands_of : Option Op → Prototype → ℕ → Reading Bytes
  unfolding read_u8 read_u16 read_upvalues named one_byte two_bytes const_text
  operands_of (some Op.const) p ip = do
    (i, ip1) ← read_u16 (code p) ip
    text ← const_text i (const_at (consts p) i)
    ok (text, ip1)
  operands_of (some Op.get_global) p ip = named (codes " ; name=") p ip
  operands_of (some Op.set_global) p ip = named (codes " ; name=") p ip
  operands_of (some Op.define_global) p ip = named (codes " ; name=") p ip
  operands_of (some Op.get_prop) p ip = named (codes " ; prop=") p ip
  operands_of (some Op.set_prop) p ip = named (codes " ; prop=") p ip
  operands_of (some Op.get_local) p ip = one_byte p ip
  operands_of (some Op.set_local) p ip = one_byte p ip
  operands_of (some Op.get_upvalue) p ip = one_byte p ip
  operands_of (some Op.set_upvalue) p ip = one_byte p ip
  operands_of (some Op.call) p ip = one_byte p ip
  operands_of (some Op.array) p ip = two_bytes p ip
  operands_of (some Op.object) p ip = two_bytes p ip
  operands_of (some Op.jump) p ip = two_bytes p ip
  operands_of (some Op.jump_if_false) p ip = two_bytes p ip
  operands_of (some Op.jump_if_true) p ip = two_bytes p ip
  operands_of (some Op.iter_next) p ip = two_bytes p ip
  operands_of (some Op.closure) p ip = do
    (i, ip1) ← read_u16 (code p) ip
    (n, ip2) ← read_u8 (code p) ip1
    (ups, ip3) ← read_upvalues (code p) n ip2
    ok (decimal i ++ (codes " " ++ (decimal n ++ bracketed ups)), ip3)
  operands_of _ p ip = ok ([], ip)
