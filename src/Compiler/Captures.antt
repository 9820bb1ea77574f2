-- ===== src/Compiler/Captures.antt =====
-- internal/compiler/scope.go, `resolveUpvalue`: which variable a captured name stands for.
use go_flux.Base.{
  ℕ, suc, ◌<◌, true, false, ◌≡◌, refl, sym, ◌∙◌, ap, inl, inr, Option, none, some, Option-cases,
  List, [], ◌∷◌, Bytes, length, get_elem?, get_elem?-append_head, length-append, arith,
}
use go_flux.Bytecode.Chunk.{Upvalue}
use go_flux.Compiler.Scope.{
  Scope, resolve_local, add_upvalue, last_upvalue, Captured, capture, resolve_upvalue,
}

-- One function further out.
abbrev pub outwards : Option (ℕ × ℕ) → Option (ℕ × ℕ)
outwards none = none
outwards (some (depth, slot)) = some (suc depth, slot)

-- The variable that upvalue `i` of a scope stands for, through the upvalues of the scopes around it:
-- how many functions further out it is declared, 0 for the next one, and its slot there.
abbrev pub target : ℕ → Scope → List Scope → Option (ℕ × ℕ)
target i s [] = none
target i s (e ∷ es) = elim (get_elem? s.upvalues i) [
  | some up ↦ elim up.is_local [
    | true ↦ some (0, up.index)
    | false ↦ outwards (target up.index e es)
  ]
  | none ↦ none
]

-- The innermost function around that declares a name, and the name's slot there.
abbrev pub declared : Bytes → List Scope → Option (ℕ × ℕ)
declared x [] = none
declared x (e ∷ es) = elim (resolve_local x e) [
  | some slot ↦ some (0, slot)
  | none ↦ outwards (declared x es)
]

abbrev pub captured_target : Option Captured → Option (ℕ × ℕ)
captured_target none = none
captured_target (some (i, s, es)) = target i s es

-- No function has 256 upvalues.
abbrev pub Few : List Scope → Type 0
Few [] = Unit
Few (s ∷ ss) = (length s.upvalues < 256) × Few ss

-- An upvalue that has been added is found at the index that stands for it.
get_elem?-add_upvalue :
    (up : Upvalue) (s : Scope)
    → length s.upvalues < 256
    → get_elem? (add_upvalue up s).upvalues (last_upvalue (add_upvalue up s)) ≡ some up
get_elem?-add_upvalue up s h =
    let e : last_upvalue (add_upvalue up s) ≡ length s.upvalues =
      rw (length-append s.upvalues (up ∷ [])) (omega (arith, h)) in
    rw e (get_elem?-append_head s.upvalues [] up)

target_local :
    (slot : ℕ) (s e : Scope) (es : List Scope)
    → length s.upvalues < 256
    → captured_target (some (capture true slot s (e ∷ es))) ≡ some (0, slot)
target_local slot s e es h =
    rw
      (
        captured_target,
        target,
        get_elem?-add_upvalue (record { is_local = true; index = slot }) s h,
      )
      refl

declared_here :
    (x : Bytes) (e : Scope) (es : List Scope) {slot : ℕ}
    → resolve_local x e ≡ some slot
    → declared x (e ∷ es) ≡ some (0, slot)
declared_here x e es l = rw (declared, l) refl

target_outer :
    (i : ℕ) (s e : Scope) (es : List Scope)
    → length s.upvalues < 256
    → captured_target (some (capture false i s (e ∷ es))) ≡ outwards (target i e es)
target_outer i s e es h =
    rw (captured_target, target, get_elem?-add_upvalue (record { is_local = false; index = i }) s h)
      refl

declared-outwards :
    (x : Bytes) (e : Scope) (es : List Scope)
    → resolve_local x e ≡ none
    → declared x (e ∷ es) ≡ outwards (declared x es)
declared-outwards x e es l = rw (declared, l) refl

-- What `resolveUpvalue` captures a name as leads, through the upvalues of the functions around, to
-- the variable that the innermost of them to declare the name has for it, and it captures nothing
-- where none declares it, if neither the function nor one around it has 256 upvalues yet.
pub resolve_upvalue-declared :
    (x : Bytes) (es : List Scope) (s : Scope)
    → Few (s ∷ es)
    → captured_target (resolve_upvalue x es s) ≡ declared x es
unfolding resolve_upvalue
resolve_upvalue-declared x [] s h = refl
resolve_upvalue-declared x (e ∷ es) s (h, hs) = elim (Option-cases (resolve_local x e)) [
  | inr (slot, l) ↦
      rw (resolve_upvalue, l) (target_local slot s e es h ∙ sym (declared_here x e es l))
  | inl l ↦
      let outer = resolve_upvalue-declared x es e hs in
      elim (Option-cases (resolve_upvalue x es e)) [
        | inl o ↦
            let none_outer : none ≡ declared x es = rw o at outer in
            rw (resolve_upvalue, l, o) (ap outwards none_outer ∙ sym (declared-outwards x e es l))
        | inr ((i, e', es'), o) ↦
            let found_outer : target i e' es' ≡ declared x es = rw o at outer in
            rw (resolve_upvalue, l, o)
              (target_outer i s e' es' h
                ∙ ap outwards found_outer
                ∙ sym (declared-outwards x e es l))
      ]
]
