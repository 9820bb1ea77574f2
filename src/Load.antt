-- ===== src/Load.antt =====
-- api.go, `LoadSource`: a source text is parsed, compiled and loaded into a machine. The fuel is the
-- parser's.
pub mod Outcomes
use go_flux.Base.{
  ℕ, Bool, true, ◌||◌, ◌≡◌, refl, ◌∙◌, Option, none, some, List, [], ◌∷◌, Bytes, lookup, Result, ok,
  err,
}
use go_flux.Ast.{Block}
use go_flux.Bytecode.Chunk.{Prototype}
use go_flux.Lexer.State.{Lexer, new}
use go_flux.Lexer.Next.{next_token}
use go_flux.Parser.State.{Parser, ParseError}
use go_flux.Parser.Program.{new_parser, parse_program}
use go_flux.Compiler.Pieces.{CompileError}
use go_flux.Compiler.Compile.{compile}
use go_flux.Vm.State.{Vm}
use go_flux.Vm.Values.{is_some}
use go_flux.Vm.Run.{has_function, load_module}
use go_flux.Vm.Globals.{has_function-load_module}

pub data LoadError : Type 0 where
  parse_errors : List ParseError → LoadError
  compile_error : CompileError → LoadError

abbrev pub loaded : Vm → Result CompileError (List (Bytes × Prototype)) → Result LoadError Vm
loaded vm (ok functions) = ok (load_module functions vm)
loaded vm (err e) = err (compile_error e)

module _ (parse_float : Bytes → Option ℕ) where
  -- `if errs := p.Errors(); len(errs) > 0`, and what follows
  compiled : Bytes → Vm → Block → List ParseError → Result LoadError Vm
  unfolding compile
  compiled name vm b [] = loaded vm (compile parse_float name [] b)
  compiled name vm b (e ∷ es) = err (parse_errors (e ∷ es))

  parsed : Bytes → Vm → Option (Block × Parser Lexer) → Option (Result LoadError Vm)
  unfolding compiled
  parsed name vm none = none
  parsed name vm (some (b, p)) = some (compiled name vm b p.errors)

  begun : ℕ → Bytes → Vm → Option (Parser Lexer) → Option (Result LoadError Vm)
  unfolding parsed parse_program next_token
  begun fuel name vm none = none
  begun fuel name vm (some p) = parsed name vm (parse_program next_token fuel p)

  unfoldable pub load_source : ℕ → Bytes → Bytes → Vm → Option (Result LoadError Vm)
  unfolding begun new_parser next_token new
  load_source fuel name source vm = begun fuel name vm (new_parser next_token (new source))
