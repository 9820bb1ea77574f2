-- ===== src/Tests/Tables.antt =====
-- The theorems on line tables, the disassembler, the places of errors and the loading of sources, at
-- concrete inputs.
use go_flux.Base.{
  Bool, Option, refl, ℕ, ◌+◌, ◌≡◌, ◌<◌, none, some, List, [], ◌∷◌, Bytes, codes, length, arith,
}
use go_flux.Bytecode.Chunk.{Prototype, prototype, empty, entry, string, function, LineInfo, code}
use go_flux.Bytecode.Lines.{Below, last_line, line_for_offset, line_for_offset-last_line}
use go_flux.Bytecode.Disasm
use go_flux.Bytecode.Disasm.{Format}
use go_flux.Bytecode.Listing.{Written}
use go_flux.Vm.Disassemble.{disassemble, disassemble_total}
use go_flux.Compiler.Emit.{FuncCompiler, new_func_compiler, emit_bytes}
use go_flux.Compiler.Lines.{emit_bytes-line_for_offset}
use go_flux.Vm.State.{Value, Frame, Vm}
use go_flux.Vm.Run.{new_vm}
use go_flux.Vm.Frames.{read_u8, read_u16}
use go_flux.Vm.Reading.{in_frame, read-in_frame}
use go_flux.Vm.Diagnostics.{GoError, other, wrap_error, wrap_error_twice}
use go_flux.Base.{Result, while, lookup, bytes_eq}
use go_flux.Token.{is, lookup_ident}
use go_flux.Lexer.State.{is_letter, is_name}
use go_flux.Lexer.Scan.{read_identifier}
use go_flux.Parser.State.{skip_newlines, expecting, advance, enter_block}
use go_flux.Parser.Parse.{parse_statement}
use go_flux.Parser.Pieces.{parse_param_list, add_stmt}
use go_flux.Vm.State.{Vm}
use go_flux.Load.{LoadError, load_source}
use go_flux.Load.Outcomes.{IsOutcome, load_source-IsOutcome}
use go_flux.Ast.{Block, no_stmts, more_stmts, func_decl}
use go_flux.Parser.Program.{new_parser, parse_program}
use go_flux.Lexer.Next.{next_token}
use go_flux.Lexer.State.{new}
use go_flux.Tests.{platform}

abbrev table : List LineInfo
table =
    record { offset = 0; line = 1 }
    ∷ record { offset = 3; line = 2 }
    ∷ record { offset = 7; line = 4 }
    ∷ []

line_for_offset-last_line_example : line_for_offset table 5 ≡ last_line 0 table 5
line_for_offset-last_line_example = line_for_offset-last_line table 5 (omega arith)

-- A compilation on line 5, with code for line 4 behind it.
abbrev on_line_five : FuncCompiler
on_line_five = record (new_func_compiler [] []) {
  code = 1 ∷ 4 ∷ [];
  lines = record { offset = 0; line = 4 } ∷ [];
  line = 5;
}

abbrev call_bytes : Bytes
call_bytes = 56 ∷ 1 ∷ []

emit_bytes-line_for_offset_example :
    ((k : ℕ) → line_for_offset (emit_bytes call_bytes on_line_five).lines (2 + k) ≡ 5)
    × ((offset : ℕ)
        → offset < 2
        → line_for_offset (emit_bytes call_bytes on_line_five).lines offset
          ≡ line_for_offset on_line_five.lines offset)
    × Below
        (length (emit_bytes call_bytes on_line_five).code)
        (emit_bytes call_bytes on_line_five).lines
emit_bytes-line_for_offset_example =
    emit_bytes-line_for_offset on_line_five call_bytes (omega arith) (omega arith) (omega arith)

abbrev plain : Format
plain = record {
  decimal = λ n. (b'0' + n) ∷ [];
  decimal4 = λ n. (b'0' + n) ∷ [];
  hex = λ n. n ∷ [];
  pad_left = λ t. t;
  pad_right = λ t. t;
  trim_space = λ t. t;
  quote = λ t. t;
  format_float = λ n. n ∷ [];
}

-- a function that returns its constant, and one whose code is cut off
abbrev inner : Prototype
inner = prototype (codes "g") [] 0 (0 ∷ 0 ∷ []) empty [] [] 0

abbrev outer : Prototype
outer =
    prototype (codes "f") (codes "f.flux") 0 (0 ∷ 0 ∷ 0 ∷ 57 ∷ [])
      (entry (string (codes "hi")) (entry (function inner) empty)) table [] 0

-- A machine with that function, and a native one.
abbrev with_functions : Vm
with_functions = record new_vm {
  globals =
      (
        codes "f",
        Value.function (
            some (record {
              proto = some outer;
              upvalues = [];
              native = none;
              name = codes "f";
              source = [];
            })),
      )
      ∷ (
        codes "puts",
        Value.function (
            some (record {
              proto = none;
              upvalues = [];
              native = some 0;
              name = codes "puts";
              source = [];
            })),
      )
      ∷ [];
}

disassemble_total_example :
    (w : Written) × (disassemble plain (λ p q. Bool.false) (λ names. names) with_functions ≡ some w)
disassemble_total_example =
    disassemble_total plain (λ p q. Bool.false) (λ names. names) with_functions

abbrev in_outer : Frame
in_outer = record {
  fn = record { proto = some outer; upvalues = []; native = none; name = codes "f"; source = [] };
  ip = 1;
  locals = 0;
  base = 0;
  last_op = some 0;
}

read-in_frame_example :
    (read_u8 outer in_outer ≡ in_frame in_outer (Disasm.read_u8 (code outer) 1))
    × (read_u16 outer in_outer ≡ in_frame in_outer (Disasm.read_u16 (code outer) 1))
read-in_frame_example = read-in_frame outer in_outer

abbrev missing : GoError
missing = other (codes "missing key")

wrap_error_twice_example :
    let (w, e') =
      wrap_error platform (in_outer ∷ []) (some 0) (some in_outer) Value.null (some missing) in
    wrap_error platform [] none none w e' ≡ (w, e')
wrap_error_twice_example =
    wrap_error_twice platform (in_outer ∷ []) [] (some 0) none (some in_outer) none Value.null
      missing

abbrev no_float : Bytes → Option ℕ
no_float bs = none

-- func f() { }
abbrev declares_f : Block
declares_f = more_stmts (func_decl 1 (codes "f") [] no_stmts) no_stmts

load_source-IsOutcome_example :
    (r : Result LoadError Vm) × (load_source no_float 20
        (codes "inline")
        (codes "func f() { }\n")
        with_functions
      ≡ some r)
    × IsOutcome no_float (codes "inline") with_functions declares_f [] r
unfolding new_parser parse_program next_token new while is lookup bytes_eq is_letter read_identifier
    is_name lookup_ident skip_newlines parse_statement expecting advance parse_param_list
    enter_block add_stmt
load_source-IsOutcome_example =
    load_source-IsOutcome no_float 20 (codes "inline") (codes "func f() { }\n") with_functions _ _
      declares_f refl refl
