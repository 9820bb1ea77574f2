-- ===== src/Tests/Hosting.antt =====
-- The theorems on the copies of machines, the host's values and its calls, at concrete inputs.
use mathlib.Core.Path.{subst}
use go_flux.Base.{
  some-injective, ℕ, suc, zero, ◌≡◌, ◌<◌, refl, true, false, none, some, List, [], ◌∷◌, Bytes,
  codes, get_elem?, Result, ok, arith,
}
use go_flux.Base.Int.{pos}
use go_flux.Vm.State.{Value, array, Vm, Heap}
use go_flux.Vm.Run.{new_vm}
use go_flux.Vm.Duplicate.{duplicate, CloneState}
use go_flux.Vm.Duplicate.Invariant.{ValuesIn, there, beyond}
use go_flux.Vm.Duplicate.Isolation.{LivesIn, Unchanged, HasMaps, IsCopy, duplicate_isolated}
use go_flux.Vm.Diagnostics.{GoError, runtime, text_of}
use go_flux.Api.Errors.{convert_runtime_error, host_error_text, convert_runtime_error-text}
use go_flux.Api.Marshal.{
  GoValue, done, nil_value, int_value, slice_value, more_values, no_values, map_value, more_entries,
  no_entries, new_value, unmarshal_to_go,
}
use go_flux.Api.RoundTrip.{new_value-unmarshal_to_go}
use go_flux.Api.Unmarshal.{int_type}
use go_flux.Api.Storable.{Storable}
use go_flux.Api.Marshal.{struct_value, more_members, no_members, any_slice, float_value}
use go_flux.Api.Unmarshal.{GoType, struct_type, more_types, no_types, any_type}
use go_flux.Api.Plain.{raw_form}
use go_flux.Vm.State.{Platform}
use go_flux.Base.Int.{ℤ, negsuc}
use go_flux.Base.{◌*◌, ◌+◌, ◌/◌, ◌%◌, ◌^◌, ◌≤◌, ◌==◌, if◌then◌else◌}
use go_flux.Api.Unmarshal.{map_type, slice_type}
use go_flux.Api.Calls.{
  Call, running, HostVm, new_host_vm, call_async, Reach, begins, later, calls_async,
}
use go_flux.Api.Exclusive.{calls_exclusive, calls_end, RunEnds, Steps}
use go_flux.Vm.State.{global_not_found}
use go_flux.Vm.Run.{call}
use go_flux.Base.{inr}
use go_flux.Tests.{platform, first_argument}

-- A machine with an array that holds itself twice
abbrev cyclic_heap : Heap
cyclic_heap = record {
  arrays = (array (some 0) false ∷ array (some 0) true ∷ []) ∷ [];
  objects = [];
  iterators = [];
  cells = [];
}

abbrev cyclic : Vm
cyclic = record new_vm { globals = (codes "a", array (some 0) false) ∷ []; heap = cyclic_heap }

cyclic_arrays :
    (r : ℕ) (xs : List Value)
    → r < 1
    → get_elem? cyclic_heap.arrays r ≡ some xs
    → ValuesIn (there cyclic_heap) xs
cyclic_arrays zero xs lt e =
    subst (ValuesIn (there cyclic_heap)) (some-injective e) (omega arith, (omega arith, tt))
cyclic_arrays (suc r) xs lt e = absurd (omega arith)

cyclic_lives : LivesIn (there cyclic_heap) cyclic
cyclic_lives = record {
  globals = (omega arith, tt);
  memory = record {
    arrays = cyclic_arrays;
    objects = λ r m lt e. absurd (omega arith);
    iterators = λ i it lt e. absurd (omega arith);
    cells = λ i u lt e. absurd (omega arith);
  };
}

cyclic_maps : HasMaps cyclic
cyclic_maps = record { globals = (tt, tt); objects = λ r. tt }

duplicate_isolated_example :
    (dup : Vm) × (duplicate 2 cyclic ≡ some dup)
    × LivesIn (beyond cyclic_heap) dup
    × Unchanged cyclic_heap dup.heap
    × ((clones : CloneState) × IsCopy cyclic dup clones)
duplicate_isolated_example = duplicate_isolated 2 cyclic cyclic_lives cyclic_maps (omega arith)

abbrev failure : GoError
failure = runtime (record {
  message = codes "division by zero";
  frame = record { function = codes "f"; source = codes "a.flux"; line = 3; ip = some 7 };
  stack = [];
  cause = none;
})

convert_runtime_error-text_example :
    host_error_text platform (convert_runtime_error failure) ≡ text_of platform failure
convert_runtime_error-text_example = convert_runtime_error-text platform failure

abbrev parse_number : Bytes → Result Bytes ℕ
parse_number s = ok 0

-- map[int]any{1: []uint16{7}, 2: nil}
abbrev sample : GoValue
sample = map_value (
    more_entries (codes "1") (slice_value (more_values (int_value (pos 7)) no_values))
      (more_entries (codes "2") nil_value no_entries))

new_value-unmarshal_to_go_example :
    (w : Value) × (g : Heap) × (new_value platform parse_number sample cyclic_heap ≡ done (w, g))
    × (unmarshal_to_go 4 g w ≡ done (raw_form platform.of_int sample))
unfolding go_flux.Base.bytes_eq
new_value-unmarshal_to_go_example =
    new_value-unmarshal_to_go platform parse_number sample cyclic_heap 4
      (unfold go_flux.Api.Plain.Plain in ((tt, tt), (refl, tt), (tt, tt, tt)))
      (unfold go_flux.Api.Plain.nodes in omega arith)

-- A platform whose numbers tell all integers apart
abbrev wide : Platform
wide = record platform { of_int = elim [ pos n ↦ 2 * n | negsuc n ↦ 2 * n + 1 ] }

abbrev whole : ℕ → ℤ
whole n = if n % 2 == 0 then pos (n / 2) else negsuc (n / 2)

-- struct { Low map[string][]int8; Any any } { map[string][]int8{"k": {5, -3}}, []any{7.0} }
abbrev typed : GoValue
typed = struct_value (
    more_members (codes "Low") true
      (map_value (
        more_entries (codes "k")
          (slice_value
            (more_values (int_value (pos 5)) (more_values (int_value (negsuc 2)) no_values)))
          no_entries))
      (more_members (codes "Any") true (any_slice (more_values (float_value 7) no_values))
        no_members))

abbrev typed_type : GoType
typed_type = struct_type (
    more_types (codes "Low") true (map_type true (slice_type (int_type 7)))
      (more_types (codes "Any") true any_type no_types))

-- A machine with a call of a function that it does not have, and one that was refused
abbrev two_calls : HostVm
two_calls = call_async false (codes "g") [] (call_async false (codes "f") [] (new_host_vm new_vm))

two_calls-Reach : Reach platform first_argument new_vm two_calls
two_calls-Reach =
    later (later begins (calls_async false (codes "f") [])) (calls_async false (codes "g") [])

abbrev first_call : Call
first_call = record { stage = running false (codes "f") []; buffer = none; sends = 0 }

first_call_there : get_elem? two_calls.calls 0 ≡ some first_call
unfolding call_async new_host_vm
first_call_there = refl

calls_exclusive_example : ◌≡◌ {A = ℕ} 0 0 × (two_calls.readers ≡ 0) × (two_calls.busy ≡ true)
calls_exclusive_example =
    calls_exclusive platform first_argument new_vm two_calls two_calls-Reach 0 0 first_call
      first_call first_call_there first_call_there refl refl

call_ends :
    (i : ℕ) (c : Call)
    → get_elem? two_calls.calls i ≡ some c
    → RunEnds platform first_argument two_calls.core c.stage
unfolding call_async new_host_vm call new_vm go_flux.Base.lookup
call_ends zero c e =
    subst (λ (x : Call). RunEnds platform first_argument new_vm x.stage) (some-injective e)
      (1, inr (global_not_found (codes "f"), refl))
call_ends (suc zero) c e =
    subst (λ (x : Call). RunEnds platform first_argument new_vm x.stage) (some-injective e) tt
call_ends (suc (suc i)) c e = cc

calls_end_example : (k : HostVm) × Steps platform first_argument two_calls k × (k.busy ≡ false)
calls_end_example = calls_end platform first_argument new_vm two_calls two_calls-Reach call_ends
