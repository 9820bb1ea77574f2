-- ===== src/Tests.antt =====
-- Runs of the compiler and the machine on small programs, and the theorems at concrete inputs. The
-- platform of the tests has the natural numbers for its floats.
mod Lexing
mod Parsing
mod Tables
mod Hosting
mod Machine
use Prim.Native.String.{String}
use go_flux.Base.{
  ℕ, ◌≡◌, refl, ◌+◌, ◌-◌, ◌*◌, ◌/◌, true, false, Option, none, some, List, [], ◌∷◌, Bytes, codes,
  ◌==◌, ltb, leb, Result, ok, err,
}
use go_flux.Base.Int.{pos, negsuc}
use go_flux.Token.{TokenType, plus, define, assign}
use go_flux.Ast.{
  Expr, Stmt, Block, no_stmts, more_stmts, no_clauses, more_clauses, alt, number_literal,
  bool_literal, variable, binary, if_stmt, expr_stmt, return_value,
}
use go_flux.Bytecode.Chunk.{Prototype}
use go_flux.Bytecode.Builtins.{lookup_builtin}
use go_flux.Compiler.Compile.{compile_function}
use go_flux.Compiler.Pieces.{CompileError}
use go_flux.Vm.State.{Value, Vm, Platform, returned}
use go_flux.Vm.Run.{run, new_vm}

abbrev pub platform : Platform
platform = record {
  fadd = λ a b. a + b;
  fsub = λ a b. a - b;
  fmul = λ a b. a * b;
  fdiv = λ a b. a / b;
  fneg = λ a. a;
  feq = λ a b. a == b;
  flt = ltb;
  fle = leb;
  to_int = pos;
  of_int = elim [ pos n ↦ n | negsuc n ↦ 0 ];
  format_int = elim [ pos n ↦ n ∷ [] | negsuc n ↦ n ∷ n ∷ [] ];
  format_float = λ n. n ∷ [];
  key_order = λ ks. ks;
}

-- A native function that returns its first argument, and fails without one.
abbrev pub first_argument : ℕ → Vm → List Value → Result Bytes (Value × Vm)
first_argument k vm [] = err (codes "no argument")
first_argument k vm (v ∷ vs) = ok (v, vm)

-- A literal is the number of its first byte less that of `0`.
abbrev digit : Bytes → Option ℕ
digit [] = none
digit (b ∷ bs) = some (b - b'0')

result : Result CompileError Prototype → Option Value
result (err e) = none
result (ok p) =
    elim (run platform first_argument 100
      (record { proto = some p; upvalues = []; native = none; name = []; source = [] }) [] new_vm) [
        | some (returned v vm) ↦ some v
        | _ ↦ none
      ]

abbrev num : String → Expr
num s = number_literal 1 (codes s)

abbrev x_is : TokenType → String → Stmt
x_is op s = expr_stmt 1 (Expr.assign 1 op (variable 1 (codes "x")) (num s))

-- $x := 1; if (false) {} elseif (true) { $x = 2 } else { $x = 3 } return $x
abbrev elseif_program : Block
elseif_program = more_stmts (x_is define "1") (
    more_stmts
      (if_stmt 1 (bool_literal 1 false) no_stmts
        (more_clauses (bool_literal 1 true) (more_stmts (x_is assign "2") no_stmts) no_clauses)
        (alt (more_stmts (x_is assign "3") no_stmts)))
      (more_stmts (return_value 1 (binary 1 plus (variable 1 (codes "x")) (num "0"))) no_stmts))

-- The program runs the `else` block too, behind the `elseif` block that it takes.
test_elseif :
    result (compile_function digit [] (codes "f") [] elseif_program) ≡ some (Value.number 3)
unfolding compile_function run result new_vm lookup_builtin go_flux.Compiler.Emit.emit_bytes
    go_flux.Compiler.Emit.emit_const go_flux.Compiler.Emit.resolve go_flux.Base.lookup
    go_flux.Compiler.Emit.patch_jump go_flux.Compiler.Emit.emit_jump go_flux.Base.insert
    go_flux.Base.bytes_eq go_flux.Bytecode.Opcode.decode go_flux.Vm.Exec.Switch.exec
    go_flux.Vm.Values.truthy go_flux.Vm.Values.binary_op
test_elseif = refl
