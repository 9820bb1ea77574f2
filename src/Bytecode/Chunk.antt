-- ===== src/Bytecode/Chunk.antt =====
-- internal/bytecode/chunk.go: chunks and prototypes. A number constant is the bit pattern of a
-- float64. The constant pool is `[]interface{}`, which holds prototypes too, so the pool and the
-- prototypes are declared together; a prototype's chunk is spelled out as its code, constants and
-- line table.
use go_flux.Base.{ℕ, zero, suc, Bool, Option, none, some, List, Bytes, ◌≡◌, refl, ap}

pub record Upvalue : Type 0 where
  pub is_local : Bool
  pub index : ℕ

pub record LineInfo : Type 0 where
  pub offset : ℕ
  pub line : ℕ

mutual
  pub data Const : Type 0 where
    nil : Const
    bool : Bool → Const
    number : ℕ → Const
    string : Bytes → Const
    function : Prototype → Const

  pub data Consts : Type 0 where
    empty : Consts
    entry : Const → Consts → Consts

  -- name, source, number of parameters, code, constants, lines, upvalues, number of locals
  pub data Prototype : Type 0 where
    prototype : Bytes → Bytes → ℕ → Bytes → Consts → List LineInfo → List Upvalue → ℕ → Prototype

abbrev pub name : Prototype → Bytes
name (prototype n s k c cs ls us m) = n

abbrev pub source : Prototype → Bytes
source (prototype n s k c cs ls us m) = s

abbrev pub num_params : Prototype → ℕ
num_params (prototype n s k c cs ls us m) = k

abbrev pub code : Prototype → Bytes
code (prototype n s k c cs ls us m) = c

abbrev pub consts : Prototype → Consts
consts (prototype n s k c cs ls us m) = cs

abbrev pub upvalues : Prototype → List Upvalue
upvalues (prototype n s k c cs ls us m) = us

abbrev pub max_locals : Prototype → ℕ
max_locals (prototype n s k c cs ls us m) = m

-- `len(Consts)`, `append(Consts, v)` and `Consts[i]`
abbrev pub size : Consts → ℕ
size empty = 0
size (entry c cs) = suc (size cs)

abbrev pub add_last : Consts → Const → Consts
add_last empty v = entry v empty
add_last (entry c cs) v = entry c (add_last cs v)

abbrev pub const_at : Consts → ℕ → Option Const
const_at empty i = none
const_at (entry c cs) zero = some c
const_at (entry c cs) (suc i) = const_at cs i

pub size-add_last : (cs : Consts) (v : Const) → size (add_last cs v) ≡ suc (size cs)
size-add_last empty v = refl
size-add_last (entry c cs) v = ap suc (size-add_last cs v)

pub const_at-add_last : (cs : Consts) (v : Const) → const_at (add_last cs v) (size cs) ≡ some v
const_at-add_last empty v = refl
const_at-add_last (entry c cs) v = const_at-add_last cs v
