-- ===== src/Api/Storable.antt =====
-- api.go: Go values of a target's type that a value of the machine can hold.
use native.Mathlib.Nat.{mod-eq_of_lt}
use go_flux.Base.{
  bytes_eq, bytes_eq_self, Bool-cases, inl, inr, ◌++◌, lookup, ℕ, ◌*◌, ◌%◌, ◌^◌, ◌≤◌, ◌<◌, ◌≡◌,
  refl, false, true, none, some, [], ◌∷◌, Bytes, arith,
}
use go_flux.Base.Int.{ℤ, pos, negsuc}
use go_flux.Vm.State.{Value, Object}
use go_flux.Api.Marshal.{
  struct_value, GoMembers, no_members, more_members, GoValue, bool_value, int_value, float_value,
  float32_value, string_value, slice_value, map_value, GoValues, no_values, more_values, GoFields,
  no_entries, more_entries,
}
use go_flux.Api.Plain.{Plain, raw_form, nodes, NotIn}
use go_flux.Api.Unmarshal.{
  struct_type, MemberTypes, no_types, more_types, any_type, GoType, bool_type, string_type,
  int_type, uint_type, float_type, slice_type, array_type, map_type, set_int, values_length,
}
use go_flux.Api.Types.{InRange}

-- An integer in the range of its type is stored as it is.
pub set_int-same : (b : ℕ) (i : ℤ) → InRange b i → set_int b i ≡ i
unfolding set_int
set_int-same b (pos n) h =
    let small : n % (2 * 2 ^ b) ≡ n = mod-eq_of_lt (omega arith) in rw small (ground arith)
set_int-same b (negsuc n) h =
    let small : n % (2 * 2 ^ b) ≡ n = mod-eq_of_lt (omega arith) in rw small (ground arith)

-- The members of a struct as entries
abbrev pub entries_of : GoMembers → GoFields
entries_of no_members = no_entries
entries_of (more_members x exported v m) = more_entries x v (entries_of m)

-- Each entry of the second object is what the first has under its key.
abbrev pub Holds : Object → Object → Type 0
Holds whole [] = Unit
Holds whole ((k, w) ∷ m) = (lookup k whole ≡ some w) × Holds whole m

pub lookup-behind :
    (k : Bytes) (w : Value) (out m : Object)
    → lookup k out ≡ none
    → lookup k (out ++ (k, w) ∷ m) ≡ some w
unfolding lookup
lookup-behind k w [] m e = rw (lookup, bytes_eq_self k) refl
lookup-behind k w ((j, v) ∷ out) m e = elim (Bool-cases (bytes_eq j k)) [
  | inl same ↦ let e1 : some v ≡ none = rw same at e in cc
  | inr other ↦
      let e1 : lookup k out ≡ none = rw other at e in
      rw (lookup, other) (lookup-behind k w out m e1)
]

-- A whole number that float64 has.
abbrev pub IsExact : ℤ → Type 0
IsExact (pos n) = n ≤ 2 ^ 53
IsExact (negsuc n) = n < 2 ^ 53

module _ (to_float32 : ℕ → ℕ) (of_int : ℤ → ℕ) (f : ℕ) where
  -- A value of a target's type that a machine can hold: its integers are exact as float64, its floats
  -- of type float32 are float32, and the keys of its maps are different, and the fields of its structs are
  -- exported and have different names. An interface has a value that is without Go types, and not more
  -- parts than the fuel of `Raw`.
  unfoldable mutual
    pub Storable : GoType → GoValue → Type 0
    Storable any_type x = Plain x × (raw_form of_int x ≡ x) × (nodes x ≤ f)
    Storable bool_type (bool_value b) = Unit
    Storable string_type (string_value s) = Unit
    Storable (int_type b) (int_value i) = InRange b i × IsExact i
    Storable (uint_type b) (int_value (pos n)) = (n < 2 ^ b) × (n ≤ 2 ^ 53)
    Storable (float_type false) (float_value n) = Unit
    Storable (float_type true) (float32_value n) = to_float32 n ≡ n
    Storable (slice_type t) (slice_value xs) = StorableAll t xs
    Storable (array_type n t) (slice_value xs) = StorableAll t xs × (values_length xs ≡ n)
    Storable (map_type true t) (map_value m) = StorableEntries t m
    Storable (struct_type ts) (struct_value m) = StorableMembers ts m
    Storable _ _ = ⊥

    pub StorableMembers : MemberTypes → GoMembers → Type 0
    StorableMembers no_types no_members = Unit
    StorableMembers (more_types x true t ts) (more_members y true v m) =
        (y ≡ x) × Storable t v × NotIn y (entries_of m) × StorableMembers ts m
    StorableMembers _ _ = ⊥

    pub StorableAll : GoType → GoValues → Type 0
    StorableAll t no_values = Unit
    StorableAll t (more_values x xs) = Storable t x × StorableAll t xs

    pub StorableEntries : GoType → GoFields → Type 0
    StorableEntries t no_entries = Unit
    StorableEntries t (more_entries k x m) = Storable t x × NotIn k m × StorableEntries t m
