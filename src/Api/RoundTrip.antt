-- ===== src/Api/RoundTrip.antt =====
-- api.go: what `Raw` makes of what `NewValue` makes of a Go value.
use go_flux.Base.{
  insert_absent, ℕ, suc, ◌≤◌, ◌≡◌, refl, false, none, [], ◌∷◌, ◌++◌, append-nil, append_assoc,
  Bytes, lookup, insert, Result, arith,
}
use go_flux.Vm.State.{Value, null, bool, number, string, error, Object, Heap, Platform}
use go_flux.Api.Marshal.{
  done, GoValue, nil_value, bool_value, int_value, float_value, string_value, error_value,
  any_slice, any_map, float32_value, slice_value, map_value, json_number, struct_value, vm_value,
  vm_values, function_value, custom, pointer_value, nil_pointer, unsupported_value, GoValues,
  no_values, more_values, GoFields, no_entries, more_entries, marshal, marshal_all, marshal_entries,
  raw_all, raw_fields, unmarshal_to_go, new_value,
}
use go_flux.Api.Plain.{
  Plain, PlainAll, PlainEntries, raw_form, raw_forms, raw_entries, nodes, nodes_all, nodes_entries,
  Extends, Extends-self, Extends-trans, Free, Free-empty, Free-insert,
}
use go_flux.Api.Marshals.{Marshals, all_of, entries_of, leaf, slice_lem, map_lem}

module _ (host : Platform) (parse_number : Bytes → Result Bytes ℕ) where
  -- The entries written behind what is there
  record Writes (m : GoFields) (out : Object) (h : Heap) : Type 0 where
    added : Object
    later : Heap
    written : marshal_entries host parse_number 0 false m out h ≡ done (out ++ added, later)
    grows : Extends h later
    entries :
        (g : Heap) (n : ℕ)
        → Extends later g
        → nodes_entries m ≤ n
        → entries_of n g added ≡ done (raw_entries host.of_int m)

  written_lem :
      (h : Heap) (m : GoFields)
      → Writes m [] h
      → Marshals h
          (marshal_entries host parse_number 0 false m [] h)
          entries_of
          (nodes_entries m)
          (raw_entries host.of_int m)
  written_lem h m made = record {
    result = made.added;
    after = made.later;
    returns = made.written;
    extends = made.grows;
    reads = made.entries;
  }

  all_lem :
      (h : Heap) (x : GoValue) (xs : GoValues)
      → Marshals h
          (marshal host parse_number 0 false x h)
          unmarshal_to_go
          (nodes x)
          (raw_form host.of_int x)
      → ((g : Heap)
          → Marshals g
              (marshal_all host parse_number 0 false xs g)
              all_of
              (nodes_all xs)
              (raw_forms host.of_int xs))
      → Marshals h
          (marshal_all host parse_number 0 false (more_values x xs) h)
          all_of
          (nodes_all (more_values x xs))
          (raw_forms host.of_int (more_values x xs))
  unfolding marshal raw_all nodes raw_form
  all_lem h x xs first others =
      let rest = others first.after in
      record {
        result = first.result ∷ rest.result;
        after = rest.after;
        returns = rw (marshal_all, first.returns, rest.returns) refl;
        extends = Extends-trans first.extends rest.extends;
        reads = λ g n ext enough.
            rw
              (
                raw_all,
                first.reads g n (Extends-trans rest.extends ext) (omega arith),
                rest.reads g n ext (omega arith),
              )
              refl;
      }

  entry_lem :
      (h : Heap) (k : Bytes) (x : GoValue) (m : GoFields) (out : Object)
      → lookup k out ≡ none
      → Marshals h
          (marshal host parse_number 0 false x h)
          unmarshal_to_go
          (nodes x)
          (raw_form host.of_int x)
      → ((g : Heap) (w : Value) → Writes m (insert k w out) g)
      → Writes (more_entries k x m) out h
  unfolding marshal raw_fields nodes raw_form
  entry_lem h k x m out absent first others =
      let rest = others first.after first.result in
      record {
        added = (k, first.result) ∷ rest.added;
        later = rest.later;
        written =
            rw
              (
                marshal_entries,
                first.returns,
                rest.written,
                insert_absent k first.result out absent,
              )
              (rw (append_assoc out ((k, first.result) ∷ []) rest.added) refl);
        grows = Extends-trans first.extends rest.grows;
        entries = λ g n ext enough.
            rw
              (
                raw_fields,
                first.reads g n (Extends-trans rest.grows ext) (omega arith),
                rest.entries g n ext (omega arith),
              )
              refl;
      }

  elements_lem :
      {h : Heap} (xs : GoValues)
      → Marshals h
          (marshal_all host parse_number 0 false xs h)
          all_of
          (nodes_all xs)
          (raw_forms host.of_int xs)
      → Marshals h
          (marshal host parse_number 0 false (slice_value xs) h)
          unmarshal_to_go
          (suc (nodes_all xs))
          (any_slice (raw_forms host.of_int xs))
  unfolding marshal
  elements_lem {h} xs made = slice_lem host parse_number h _ (nodes_all xs) _ made

  fields_lem :
      {h : Heap} (m : GoFields)
      → Writes m [] h
      → Marshals h
          (marshal host parse_number 0 false (map_value m) h)
          unmarshal_to_go
          (suc (nodes_entries m))
          (any_map (raw_entries host.of_int m))
  unfolding marshal
  fields_lem {h} m made = map_lem host parse_number h _ (nodes_entries m) _ (written_lem h m made)

  mutual
    unfolding marshal unmarshal_to_go nodes Plain raw_all raw_fields raw_form

    pub value_lem :
        (x : GoValue)
        → Plain x
        → (h : Heap)
        → Marshals h
            (marshal host parse_number 0 false x h)
            unmarshal_to_go
            (nodes x)
            (raw_form host.of_int x)
    value_lem nil_value p h = leaf h null nil_value (λ g n. refl)
    value_lem (bool_value b) p h = leaf h (bool b) (bool_value b) (λ g n. refl)
    value_lem (float_value k) p h = leaf h (number k) (float_value k) (λ g n. refl)
    value_lem (string_value s) p h = leaf h (string s) (string_value s) (λ g n. refl)
    value_lem (error_value s) p h = leaf h (error s) (error_value s) (λ g n. refl)
    value_lem (int_value i) p h = leaf h (number (host.of_int i)) _ (λ g n. refl)
    value_lem (float32_value k) p h = leaf h (number k) (float_value k) (λ g n. refl)
    value_lem nil_pointer p h = leaf h null nil_value (λ g n. refl)
    value_lem (pointer_value x) p h = value_lem x p h
    value_lem (any_slice xs) p h = elements_lem xs (values_lem xs p h)
    value_lem (slice_value xs) p h = elements_lem xs (values_lem xs p h)
    value_lem (any_map m) p h = fields_lem m (entries_lem m p [] (Free-empty m) h)
    value_lem (map_value m) p h = fields_lem m (entries_lem m p [] (Free-empty m) h)
    value_lem (json_number _) p h = elim p [ ]
    value_lem (struct_value _) p h = elim p [ ]
    value_lem (vm_value _) p h = elim p [ ]
    value_lem (vm_values _) p h = elim p [ ]
    value_lem (function_value _) p h = elim p [ ]
    value_lem (custom _) p h = elim p [ ]
    value_lem (unsupported_value _) p h = elim p [ ]

    values_lem :
        (xs : GoValues)
        → PlainAll xs
        → (h : Heap)
        → Marshals h
            (marshal_all host parse_number 0 false xs h)
            all_of
            (nodes_all xs)
            (raw_forms host.of_int xs)
    values_lem no_values p h = record {
      result = [];
      after = h;
      returns = refl;
      extends = Extends-self h;
      reads = λ g n ext enough. refl;
    }
    values_lem (more_values x xs) p h = all_lem h x xs (value_lem x p.0 h) (values_lem xs p.1)

    entries_lem :
        (m : GoFields) → PlainEntries m → (out : Object) → Free m out → (h : Heap) → Writes m out h
    entries_lem no_entries p out q h = record {
      added = [];
      later = h;
      written = rw (append-nil out) refl;
      grows = Extends-self h;
      entries = λ g n ext enough. refl;
    }
    entries_lem (more_entries k x m) p out q h =
        entry_lem h k x m out q.0 (value_lem x p.0 h)
          λ g w. entries_lem m p.2 (insert k w out) (Free-insert k w m out p.1 q.1) g

  -- With at least as much fuel as a Go value has parts, Raw gives for what NewValue has marshaled
  -- the value without its Go types, if it is made of nil, booleans, numbers, strings, errors,
  -- pointers, and slices, arrays and maps whose keys have different texts: its numbers as
  -- float64, its slices and arrays as []any, its maps as map[string]any under the texts of their
  -- keys, and what its pointers point to.
  pub new_value-unmarshal_to_go :
      (x : GoValue) (h : Heap) (n : ℕ)
      → Plain x
      → nodes x ≤ n
      → (w : Value) × (g : Heap) × (new_value host parse_number x h ≡ done (w, g))
        × (unmarshal_to_go n g w ≡ done (raw_form host.of_int x))
  unfolding new_value
  new_value-unmarshal_to_go x h n p enough =
      let made = value_lem x p h in
      (
        made.result,
        made.after,
        made.returns,
        made.reads made.after n (Extends-self made.after) enough,
      )
