-- ===== src/Vm/Globals.antt =====
-- internal/vm/vm.go, `LoadModule`, `HasFunction` and `DefineGlobal`.
use go_flux.Base.{
  Bool, true, false, ◌||◌, ◌≡◌, refl, ◌∙◌, inl, inr, List, [], ◌∷◌, Bytes, bytes_eq, lookup,
  lookup-insert, Bool-cases,
}
use go_flux.Bytecode.Chunk.{Prototype}
use go_flux.Vm.State.{Vm}
use go_flux.Vm.Values.{is_some}
use go_flux.Vm.Run.{define_global, has_function, load_module}

pub or_true : (b : Bool) → (b || true) ≡ true
or_true true = refl
or_true false = refl

-- After a module is loaded, the machine has a function of a name just if the module has one or the
-- machine had one before.
pub has_function-load_module :
    (x : Bytes) (functions : List (Bytes × Prototype)) (vm : Vm)
    → has_function x (load_module functions vm)
      ≡ (is_some (lookup x functions) || has_function x vm)
unfolding has_function load_module define_global lookup
has_function-load_module x [] vm = refl
has_function-load_module x ((y, p) ∷ rest) vm = elim (Bool-cases (bytes_eq y x)) [
  | inl e ↦
      has_function-load_module x rest _
      ∙ rw (lookup, e, lookup-insert, e) (or_true (is_some (lookup x rest)))
  | inr e ↦ has_function-load_module x rest _ ∙ rw (lookup, e, lookup-insert, e) refl
]
