-- ===== src/Compiler/Scope.antt =====
-- internal/compiler/scope.go: the scopes of nested functions. `enclosing` pointers become the list
-- of the enclosing scopes, innermost first, which the routines return as they change them.
use go_flux.Base.{
  ℕ, ◌+◌, ◌-◌, Bool, true, false, Option, none, some, List, [], ◌∷◌, ◌++◌, Bytes, length, byte,
  lookup, insert,
}
use go_flux.Bytecode.Chunk.{Upvalue}

pub record Scope : Type 0 where
  pub locals : List (Bytes × ℕ)
  pub upvalues : List Upvalue
  pub next_loc : ℕ

abbrev pub new_scope : Scope
new_scope = record { locals = []; upvalues = []; next_loc = 0 }

-- `nextLoc` is a uint8: it wraps.
unfoldable pub add_local : Bytes → Scope → Scope
add_local x s = record s { locals = insert x s.next_loc s.locals; next_loc = byte (s.next_loc + 1) }

unfoldable pub resolve_local : Bytes → Scope → Option ℕ
resolve_local x s = lookup x s.locals

-- `s.upvalues = append(s.upvalues, up)`, and `uint8(len(s.upvalues) - 1)` behind it.
abbrev pub add_upvalue : Upvalue → Scope → Scope
add_upvalue up s = record s { upvalues = s.upvalues ++ up ∷ [] }

abbrev pub last_upvalue : Scope → ℕ
last_upvalue s = byte (length s.upvalues - 1)

-- The index that a name is captured under in scope `s`, with `s` and its enclosing scopes as the
-- capture leaves them.
abbrev pub Captured : Type 0
Captured = ℕ × Scope × List Scope

abbrev pub capture : Bool → ℕ → Scope → List Scope → Captured
capture is_local i s es =
    let s' = add_upvalue (record { is_local = is_local; index = i }) s in (last_upvalue s', s', es)

unfoldable pub resolve_upvalue : Bytes → List Scope → Scope → Option Captured
unfolding resolve_local
resolve_upvalue x [] s = none
resolve_upvalue x (e ∷ es) s =
    let outer = resolve_upvalue x es e in
    elim (resolve_local x e) [
      | some slot ↦ some (capture true slot s (e ∷ es))
      | none ↦ elim outer [ some (i, e', es') ↦ some (capture false i s (e' ∷ es')) | none ↦ none ]
    ]
