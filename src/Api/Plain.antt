-- ===== src/Api/Plain.antt =====
-- api.go: Go values, what `Raw` gives for them, and heaps to which more is added.
use go_flux.Base.{
  ℕ, suc, ◌+◌, ◌≡◌, refl, false, none, some, List, [], ◌∷◌, ◌++◌, Bytes, bytes_eq, lookup, insert,
  lookup-insert, get_elem?, get_elem?-append_left, get_elem?-eq-some,
}
use go_flux.Base.Int.{ℤ}
use go_flux.Vm.State.{Value, Object, Heap, new_array, new_object}
use go_flux.Api.Marshal.{
  GoValue, nil_value, bool_value, float_value, string_value, error_value, any_slice, slice_value,
  any_map, map_value, int_value, float32_value, pointer_value, nil_pointer, GoValues, no_values,
  more_values, GoFields, no_entries, more_entries,
}

-- A key that a map's entries do not have.
abbrev pub NotIn : Bytes → GoFields → Type 0
NotIn k no_entries = Unit
NotIn k (more_entries j v m) = (bytes_eq k j ≡ false) × NotIn k m

-- Values of Go's own types: nil, booleans, numbers, strings, errors, slices, arrays and maps of these,
-- whose keys have different texts, and pointers to them.
unfoldable mutual
  pub Plain : GoValue → Type 0
  Plain nil_value = Unit
  Plain (bool_value b) = Unit
  Plain (int_value i) = Unit
  Plain (float_value n) = Unit
  Plain (float32_value n) = Unit
  Plain (string_value s) = Unit
  Plain (error_value s) = Unit
  Plain (any_slice xs) = PlainAll xs
  Plain (slice_value xs) = PlainAll xs
  Plain (any_map m) = PlainEntries m
  Plain (map_value m) = PlainEntries m
  Plain (pointer_value x) = Plain x
  Plain nil_pointer = Unit
  Plain _ = ⊥

  pub PlainAll : GoValues → Type 0
  PlainAll no_values = Unit
  PlainAll (more_values x xs) = Plain x × PlainAll xs

  pub PlainEntries : GoFields → Type 0
  PlainEntries no_entries = Unit
  PlainEntries (more_entries k x m) = Plain x × NotIn k m × PlainEntries m

-- The values in a value, itself included
unfoldable mutual
  pub nodes : GoValue → ℕ
  nodes (any_slice xs) = suc (nodes_all xs)
  nodes (slice_value xs) = suc (nodes_all xs)
  nodes (any_map m) = suc (nodes_entries m)
  nodes (map_value m) = suc (nodes_entries m)
  nodes (pointer_value x) = nodes x
  nodes _ = 1

  pub nodes_all : GoValues → ℕ
  nodes_all no_values = 0
  nodes_all (more_values x xs) = nodes x + nodes_all xs

  pub nodes_entries : GoFields → ℕ
  nodes_entries no_entries = 0
  nodes_entries (more_entries k x m) = nodes x + nodes_entries m

-- What is left of a value in the machine, which does not know Go's types: each number is a float64,
-- each slice or array a `[]any`, each map a `map[string]any`, and a pointer what it points to.
module _ (of_int : ℤ → ℕ) where
  unfoldable mutual
    pub raw_form : GoValue → GoValue
    raw_form (int_value i) = float_value (of_int i)
    raw_form (float32_value n) = float_value n
    raw_form (any_slice xs) = any_slice (raw_forms xs)
    raw_form (slice_value xs) = any_slice (raw_forms xs)
    raw_form (any_map m) = any_map (raw_entries m)
    raw_form (map_value m) = any_map (raw_entries m)
    raw_form (pointer_value x) = raw_form x
    raw_form nil_pointer = nil_value
    raw_form x = x

    pub raw_forms : GoValues → GoValues
    raw_forms no_values = no_values
    raw_forms (more_values x xs) = more_values (raw_form x) (raw_forms xs)

    pub raw_entries : GoFields → GoFields
    raw_entries no_entries = no_entries
    raw_entries (more_entries k x m) = more_entries k (raw_form x) (raw_entries m)

-- A heap that has what another has.
pub record Extends (h g : Heap) : Type 0 where
  pub arrays :
      (r : ℕ) (xs : List Value) → get_elem? h.arrays r ≡ some xs → get_elem? g.arrays r ≡ some xs
  pub objects :
      (r : ℕ) (m : Object) → get_elem? h.objects r ≡ some m → get_elem? g.objects r ≡ some m

pub Extends-self : (h : Heap) → Extends h h
Extends-self h = record { arrays = λ r xs e. e; objects = λ r m e. e }

pub Extends-trans : {h g k : Heap} → Extends h g → Extends g k → Extends h k
Extends-trans a b = record {
  arrays = λ r xs e. b.arrays r xs (a.arrays r xs e);
  objects = λ r m e. b.objects r m (a.objects r m e);
}

append_keeps :
    {A : Type 0} (xs : List A) (x : A) (r : ℕ) (y : A)
    → get_elem? xs r ≡ some y
    → get_elem? (xs ++ x ∷ []) r ≡ some y
append_keeps xs x r y e = rw (get_elem?-append_left xs (x ∷ []) r (get_elem?-eq-some xs r e)) e

pub Extends-new_array : (ws : List Value) (h : Heap) → Extends h (new_array ws h).1
unfolding new_array
Extends-new_array ws h = record { arrays = append_keeps h.arrays ws; objects = λ r m e. e }

pub Extends-new_object : (m : Object) (h : Heap) → Extends h (new_object m h).1
unfolding new_object
Extends-new_object m h = record { arrays = λ r xs e. e; objects = append_keeps h.objects m }

-- The keys that are still to be written are not there yet.
abbrev pub Free : GoFields → Object → Type 0
Free no_entries out = Unit
Free (more_entries k x m) out = (lookup k out ≡ none) × Free m out

pub Free-empty : (m : GoFields) → Free m []
unfolding lookup
Free-empty no_entries = tt
Free-empty (more_entries k x m) = (refl, Free-empty m)

pub Free-insert :
    (k : Bytes) (w : Value) (m : GoFields) (out : Object)
    → NotIn k m
    → Free m out
    → Free m (insert k w out)
Free-insert k w no_entries out p q = tt
Free-insert k w (more_entries j x m) out p q =
    (rw (lookup-insert k j w out, p.0) q.0, Free-insert k w m out p.1 q.1)
