-- ===== src/Load/Outcomes.antt =====
-- api.go, `LoadSource`: what comes of a source, by what the parser and the compiler make of it.
use mathlib.Core.Path.{subst}
use go_flux.Base.{
  ℕ, true, ◌||◌, ◌≡◌, ◌≢◌, refl, sym, ◌∙◌, ap, Option, none, some, some-injective, List, [], ◌∷◌,
  Bytes, length, lookup, Result, ok, err,
}
use go_flux.Ast.{Block}
use go_flux.Bytecode.Chunk.{Prototype}
use go_flux.Lexer.State.{Lexer, new}
use go_flux.Lexer.Next.{next_token}
use go_flux.Parser.State.{Parser, ParseError}
use go_flux.Parser.Program.{new_parser, parse_program}
use go_flux.Parser.Clean.{CleanBlock}
use go_flux.Parser.Safety.{new_parser-errors, parse_program-CleanBlock}
use go_flux.Compiler.Pieces.{CompileError}
use go_flux.Compiler.Compile.{compile}
use go_flux.Vm.State.{Vm}
use go_flux.Vm.Values.{is_some}
use go_flux.Vm.Run.{has_function}
use go_flux.Vm.Globals.{has_function-load_module, or_true}
use go_flux.Load.{
  LoadError, parse_errors, compile_error, loaded, compiled, parsed, begun, load_source,
}

module _ (parse_float : Bytes → Option ℕ) where
  -- What a source comes to in a machine, whose tree is `b` and whose errors are `es`: its errors, if
  -- there are any; otherwise the tree has no nil nodes, and there is the error of the compiler or a
  -- machine that has, beside the functions it had, those that the compiler gives.
  abbrev pub IsOutcome : Bytes → Vm → Block → List ParseError → Result LoadError Vm → Type 0
  IsOutcome name vm b es (err (parse_errors errors)) = (errors ≡ es) × (es ≢ [])
  IsOutcome name vm b es (err (compile_error e)) =
      (es ≡ []) × CleanBlock b × (compile parse_float name [] b ≡ err e)
  IsOutcome name vm b es (ok vm') =
      (es ≡ [])
      × CleanBlock b
      × ((functions : List (Bytes × Prototype)) × (compile parse_float name [] b ≡ ok functions)
          × ((x : Bytes)
              → has_function x vm' ≡ (is_some (lookup x functions) || has_function x vm)))

  compiled-IsOutcome :
      (name : Bytes) (vm : Vm) (b : Block) (es : List ParseError)
      → (es ≡ [] → CleanBlock b)
      → IsOutcome name vm b es (compiled parse_float name vm b es)
  unfolding compiled
  compiled-IsOutcome name vm b (e ∷ es) clean = (refl, cc)
  compiled-IsOutcome name vm b [] clean = go (compile parse_float name [] b) refl
    where
      go :
          (r : Result CompileError (List (Bytes × Prototype)))
          → compile parse_float name [] b ≡ r
          → IsOutcome name vm b [] (loaded vm r)
      go (ok functions) e =
          (refl, clean refl, (functions, e, λ x. has_function-load_module x functions vm))
      go (err c) e = (refl, clean refl, e)

  -- Where the parser returns, LoadSource does: with the parser's errors, if there are any; otherwise
  -- no expression in the tree is nil, and it returns the compiler's error, or a machine that has a
  -- function of a name just if the compiler gives one or the machine had one before.
  pub load_source-IsOutcome :
      (fuel : ℕ) (name source : Bytes) (vm : Vm) (p q : Parser Lexer) (b : Block)
      → new_parser next_token (new source) ≡ some p
      → parse_program next_token fuel p ≡ some (b, q)
      → (r : Result LoadError Vm) × (load_source parse_float fuel name source vm ≡ some r)
        × IsOutcome name vm b q.errors r
  unfolding load_source begun parsed
  load_source-IsOutcome fuel name source vm p q b e f =
      let start = new_parser-errors next_token (new source) p e in
      let clean = parse_program-CleanBlock next_token fuel p q b f in
      (
        compiled parse_float name vm b q.errors,
        rw (e, f) refl,
        compiled-IsOutcome name vm b q.errors (λ none. clean.1 (ap length (start ∙ sym none))),
      )

  -- A function that the machine had by its name is there after a source is loaded: it, or another of
  -- that name.
  load_source-has_function :
      (x : Bytes) (fuel : ℕ) (name source : Bytes) (vm vm' : Vm)
      → has_function x vm ≡ true
      → load_source parse_float fuel name source vm ≡ some (ok vm')
      → has_function x vm' ≡ true
  unfolding load_source begun parsed
  load_source-has_function x fuel name source vm vm' h l = begins _ refl l
    where
      kept :
          (b : Block) (es : List ParseError)
          → IsOutcome name vm b es (ok vm')
          → has_function x vm' ≡ true
      kept b es (n, c, (functions, e, has)) =
          has x ∙ ap (◌||◌ (is_some (lookup x functions))) h ∙ or_true _

      ends :
          (p : Parser Lexer) (r : Option (Block × Parser Lexer))
          → new_parser next_token (new source) ≡ some p
          → parse_program next_token fuel p ≡ r
          → parsed parse_float name vm r ≡ some (ok vm')
          → has_function x vm' ≡ true
      ends p none e f l = cc
      ends p (some (b, q)) e f l =
          let (r, s, o) = load_source-IsOutcome fuel name source vm p q b e f in
          let same : r ≡ ok vm' = some-injective (sym s ∙ rw (e, f) l) in
          kept b q.errors (subst (IsOutcome name vm b q.errors) same o)

      begins :
          (r : Option (Parser Lexer))
          → new_parser next_token (new source) ≡ r
          → begun parse_float fuel name vm r ≡ some (ok vm')
          → has_function x vm' ≡ true
      begins none e l = cc
      begins (some p) e l = ends p _ e refl l
