-- ===== src/Vm/Disassemble.antt =====
-- internal/vm/disasm.go: the listing of a machine's global functions. `sort.Strings` is a parameter,
-- and so is the equality of pointers to prototypes.
use go_flux.Base.{Bool, Option, none, some, List, [], ◌∷◌, Bytes, lookup, ◌≡◌, refl}
use go_flux.Bytecode.Chunk.{Prototype}
use go_flux.Bytecode.Disasm.{Format}
use go_flux.Bytecode.Listing.{
  Writer, Written, and_then, print_native, print_missing, list_prototype,
}
use go_flux.Bytecode.Total.{Ends, and_then-Ends, list_prototype_ends}
use go_flux.Vm.State.{function, Function, Object, Vm}

-- The functions among the globals, with their names.
unfoldable pub global_functions : Object → List (Bytes × Function)
global_functions [] = []
global_functions ((name, function (some fn)) ∷ gs) = (name, fn) ∷ global_functions gs
global_functions ((name, _) ∷ gs) = global_functions gs

unfoldable pub names_of : List (Bytes × Function) → List Bytes
names_of [] = []
names_of ((name, fn) ∷ fs) = name ∷ names_of fs

module _ (F : Format) (same : Prototype → Prototype → Bool) (sort : List Bytes → List Bytes) where
  -- A function without a prototype has its name only.
  unfoldable pub list_body : Bytes → Option Prototype → Option Bool → Writer → Option Written
  unfolding list_prototype print_native print_missing
  list_body name (some p) native d = list_prototype F same name p d
  list_body name none (some native) d = some (print_native name d, none)
  list_body name none none d = some (print_missing name d, none)

  is_native : Function → Option Bool
  is_native fn = elim fn.native [ some k ↦ some Bool.true | none ↦ none ]

  -- A name that the map does not have, which `sort` cannot bring in, has no function to list.
  list_named : Option Function → Bytes → Writer → Option Written
  unfolding list_body is_native
  list_named none name d = some (d, none)
  list_named (some fn) name d = list_body name fn.proto (is_native fn) d

  unfoldable pub list_names : List (Bytes × Function) → List Bytes → Writer → Option Written
  unfolding list_named lookup
  list_names fs [] d = some (d, none)
  list_names fs (name ∷ names) d =
      and_then (list_named (lookup name fs) name d) (list_names fs names)

  -- `Disassemble`
  unfoldable pub disassemble : Vm → Option Written
  unfolding list_names global_functions names_of
  disassemble vm =
      let fs = global_functions vm.globals in
      list_names fs (sort (names_of fs)) (record { out = []; printed = Bool.false; visited = [] })

  list_named-Ends : (f : Option Function) (name : Bytes) (d : Writer) → Ends (list_named f name d)
  unfolding list_named
  list_named-Ends none name d = ((d, none), refl)
  list_named-Ends (some fn) name d = listed fn.proto (is_native fn)
    where
      listed : (p : Option Prototype) (native : Option Bool) → Ends (list_body name p native d)
      listed (some p) native = list_prototype_ends F same name p d
      listed none (some native) = ((print_native name d, none), refl)
      listed none none = ((print_missing name d, none), refl)

  list_names-Ends :
      (fs : List (Bytes × Function)) (names : List Bytes) (d : Writer)
      → Ends (list_names fs names d)
  unfolding list_names
  list_names-Ends fs [] d = ((d, none), refl)
  list_names-Ends fs (name ∷ names) d =
      and_then-Ends (list_named (lookup name fs) name d) (list_names fs names)
        (list_named-Ends (lookup name fs) name d) (list_names-Ends fs names)

  -- Disassemble ends on every machine, with or without an error: whatever the code of its functions
  -- is, each round of the loop over it reads a byte.
  pub disassemble_total : (vm : Vm) → (w : Written) × (disassemble vm ≡ some w)
  unfolding disassemble
  disassemble_total vm =
      let fs = global_functions vm.globals in
      list_names-Ends fs (sort (names_of fs))
        (record { out = []; printed = Bool.false; visited = [] })
