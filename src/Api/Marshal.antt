-- ===== src/Api/Marshal.antt =====
-- api.go: Go values and their conversion to values of the machine (`marshalGoValueWithOpts`) and back
-- (`unmarshalToGo`). `applyReadOnly` and `unmarshalToGo` go down containers, which may hold
-- themselves, on fuel; the source has no end of it.
use go_flux.Base.{
  ℕ, zero, suc, Bool, false, true, Option, none, some, List, [], ◌∷◌, ◌++◌, Bytes, codes, length,
  get_elem?, set, insert, Result, ok, err,
}
use go_flux.Base.Int.{ℤ}
use go_flux.Vm.State.{
  Value, null, bool, number, string, array, object, function, error, iterator, Object, Function,
  Heap, Platform, elements, fields, array_at, write_array, write_object, new_array, new_object,
}

-- What a conversion gives: a result, an error with its text, or the end of the fuel.
pub data Outcome {ℓ} (A : Type ℓ) : Type ℓ where
  done : A → Outcome A
  failed : Bytes → Outcome A
  out_of_fuel : Outcome A

infixl 1 ◌>>=◌
abbrev pub ◌>>=◌ {ℓ κ} : {A : Type ℓ} {B : Type κ} → Outcome A → (A → Outcome B) → Outcome B
done a >>= f = f a
failed e >>= f = failed e
out_of_fuel >>= f = out_of_fuel

-- A Go value, by the cases of the switch. `any_slice` is a `[]any` and `any_map` a `map[string]any`;
-- `slice_value` is a slice or an array of another type, and `map_value` a map of another type, whose
-- keys are the texts that they are converted to. The integer types are one, and a float32 is known by
-- the float64 of its value. A nil slice or map counts as an empty one, and an error is known by its
-- text. A field of a struct is exported or not. `custom` is a Marshaler, by what its method returns.
mutual
  pub data GoValue : Type 0 where
    nil_value : GoValue
    bool_value : Bool → GoValue
    int_value : ℤ → GoValue
    float_value float32_value : ℕ → GoValue
    string_value error_value json_number : Bytes → GoValue
    any_slice slice_value : GoValues → GoValue
    any_map map_value : GoFields → GoValue
    struct_value : GoMembers → GoValue
    vm_value : Value → GoValue
    vm_values : List Value → GoValue
    function_value : Function → GoValue
    custom : Result Bytes Value → GoValue
    pointer_value : GoValue → GoValue
    nil_pointer : GoValue
    unsupported_value : Bytes → GoValue

  pub data GoValues : Type 0 where
    no_values : GoValues
    more_values : GoValue → GoValues → GoValues

  pub data GoFields : Type 0 where
    no_entries : GoFields
    more_entries : Bytes → GoValue → GoFields → GoFields

  pub data GoMembers : Type 0 where
    no_members : GoMembers
    more_members : Bytes → Bool → GoValue → GoMembers → GoMembers

module _ (apply : Value → Heap → Outcome (Value × Heap)) where
  -- `v.Arr[i] = applyReadOnly(v.Arr[i], opts)`, and the same for the fields of an object
  abbrev pub put_element : ℕ → ℕ → Value × Heap → Heap
  put_element r i (w, h) = write_array h r (set (array_at h r) i w)

  abbrev pub put_field : ℕ → Bytes → Value × Heap → Heap
  put_field r k (w, h) = write_object h r (insert k w (fields h (some r)))

  abbrev pub at_index : Option Value → Value
  at_index (some v) = v
  at_index none = null

  unfoldable pub apply_elements : ℕ → ℕ → ℕ → Heap → Outcome Heap
  unfolding write_array
  apply_elements r i zero h = done h
  apply_elements r i (suc n) h = apply (at_index (get_elem? (array_at h r) i)) h >>= λ p.
      apply_elements r (suc i) n (put_element r i p)

  unfoldable pub apply_fields : ℕ → Object → Heap → Outcome Heap
  unfolding write_object
  apply_fields r [] h = done h
  apply_fields r ((k, v) ∷ m) h = apply v h >>= λ p. apply_fields r m (put_field r k p)

-- `applyReadOnly`, for the option that is set
unfoldable pub mark_read_only : ℕ → Value → Heap → Outcome (Value × Heap)
unfolding apply_elements apply_fields
mark_read_only zero v h = out_of_fuel
mark_read_only (suc f) (array none ro) h = done (array none true, h)
mark_read_only (suc f) (array (some r) ro) h =
    apply_elements (mark_read_only f) r 0 (length (array_at h r)) h >>= λ g.
    done (array (some r) true, g)
mark_read_only (suc f) (object none ro) h = done (object none true, h)
mark_read_only (suc f) (object (some r) ro) h =
    apply_fields (mark_read_only f) r (fields h (some r)) h >>= λ g. done (object (some r) true, g)
mark_read_only (suc f) v h = done (v, h)

-- `applyReadOnly`
unfoldable pub apply_read_only : ℕ → Bool → Value → Heap → Outcome (Value × Heap)
unfolding mark_read_only
apply_read_only f false v h = done (v, h)
apply_read_only f true v h = mark_read_only f v h

abbrev pub array_value : ℕ × Heap → Value × Heap
array_value (r, h) = (array (some r) false, h)

abbrev pub object_value : ℕ × Heap → Value × Heap
object_value (r, h) = (object (some r) false, h)

-- The loop over a `[]VmValue`
unfoldable pub apply_all : ℕ → Bool → List Value → Heap → Outcome (List Value × Heap)
unfolding apply_read_only
apply_all f ro [] h = done ([], h)
apply_all f ro (v ∷ vs) h =
    apply_read_only f ro v h >>= λ p. apply_all f ro vs p.1 >>= λ q. done (p.0 ∷ q.0, q.1)

module _ (host : Platform) (parse_number : Bytes → Result Bytes ℕ) (f : ℕ) (ro : Bool) where
  -- A new container, marked behind the switch's case
  unfoldable pub finish_array : List Value × Heap → Outcome (Value × Heap)
  unfolding new_array apply_read_only
  finish_array (ws, h) = let p = array_value (new_array ws h) in apply_read_only f ro p.0 p.1

  unfoldable pub finish_object : Object × Heap → Outcome (Value × Heap)
  unfolding new_object apply_read_only
  finish_object (m, h) = let p = object_value (new_object m h) in apply_read_only f ro p.0 p.1

  abbrev pub from_number : Result Bytes ℕ → Heap → Outcome (Value × Heap)
  from_number (ok n) h = done (number n, h)
  from_number (err e) h = failed e

  abbrev pub from_custom : Result Bytes Value → Heap → Outcome (Value × Heap)
  from_custom (ok v) h = apply_read_only f ro v h
  from_custom (err e) h = failed e

  -- `marshalGoValueWithOpts`, and its loops over elements, entries and the fields of a struct
  unfoldable mutual
    unfolding finish_array finish_object apply_read_only apply_all

    pub marshal : GoValue → Heap → Outcome (Value × Heap)
    marshal (custom r) h = from_custom r h
    marshal (vm_value v) h = apply_read_only f ro v h
    marshal nil_value h = done (null, h)
    marshal (bool_value b) h = done (bool b, h)
    marshal (int_value i) h = done (number (host.of_int i), h)
    marshal (float_value n) h = done (number n, h)
    marshal (float32_value n) h = done (number n, h)
    marshal (string_value s) h = done (string s, h)
    marshal (error_value s) h = done (error s, h)
    marshal (json_number s) h = from_number (parse_number s) h
    marshal (any_slice xs) h = marshal_all xs h >>= finish_array
    marshal (slice_value xs) h = marshal_all xs h >>= finish_array
    marshal (vm_values vs) h = apply_all f ro vs h >>= finish_array
    marshal (any_map m) h = marshal_entries m [] h >>= finish_object
    marshal (map_value m) h = marshal_entries m [] h >>= finish_object
    marshal (function_value fn) h = apply_read_only f ro (function (some fn)) h
    marshal (struct_value m) h = marshal_members m [] h >>= finish_object
    marshal (pointer_value v) h = marshal v h
    marshal nil_pointer h = done (null, h)
    marshal (unsupported_value type) h = failed (codes "unsupported value type " ++ type)

    pub marshal_all : GoValues → Heap → Outcome (List Value × Heap)
    marshal_all no_values h = done ([], h)
    marshal_all (more_values v vs) h =
        marshal v h >>= λ p. marshal_all vs p.1 >>= λ q. done (p.0 ∷ q.0, q.1)

    pub marshal_entries : GoFields → Object → Heap → Outcome (Object × Heap)
    marshal_entries no_entries out h = done (out, h)
    marshal_entries (more_entries k v m) out h =
        marshal v h >>= λ p. marshal_entries m (insert k p.0 out) p.1

    pub marshal_members : GoMembers → Object → Heap → Outcome (Object × Heap)
    marshal_members no_members out h = done (out, h)
    marshal_members (more_members x false v m) out h = marshal_members m out h
    marshal_members (more_members x true v m) out h =
        marshal v h >>= λ p. marshal_members m (insert x p.0 out) p.1

module _ (raw : Value → Outcome GoValue) where
  unfoldable pub raw_all : List Value → Outcome GoValues
  raw_all [] = done no_values
  raw_all (v ∷ vs) = raw v >>= λ x. raw_all vs >>= λ xs. done (more_values x xs)

  unfoldable pub raw_fields : Object → Outcome GoFields
  raw_fields [] = done no_entries
  raw_fields ((k, v) ∷ m) = raw v >>= λ x. raw_fields m >>= λ xs. done (more_entries k x xs)

-- `unmarshalToGo`
unfoldable pub unmarshal_to_go : ℕ → Heap → Value → Outcome GoValue
unfolding raw_all raw_fields
unmarshal_to_go zero h v = out_of_fuel
unmarshal_to_go (suc f) h null = done nil_value
unmarshal_to_go (suc f) h (bool b) = done (bool_value b)
unmarshal_to_go (suc f) h (number n) = done (float_value n)
unmarshal_to_go (suc f) h (string s) = done (string_value s)
unmarshal_to_go (suc f) h (array r ro) =
    raw_all (unmarshal_to_go f h) (elements h r) >>= λ xs. done (any_slice xs)
unmarshal_to_go (suc f) h (object r ro) =
    raw_fields (unmarshal_to_go f h) (fields h r) >>= λ m. done (any_map m)
unmarshal_to_go (suc f) h (error s) = done (error_value s)
unmarshal_to_go (suc f) h (function fn) =
    failed (codes "Raw() not supported on function values; use AsFunction")
unmarshal_to_go (suc f) h (iterator i) =
    failed (codes "Raw() not supported on iterator values; use AsIterator")

-- `NewValue` marshals without marking.
unfoldable pub new_value :
    Platform → (Bytes → Result Bytes ℕ) → GoValue → Heap → Outcome (Value × Heap)
unfolding marshal
new_value host parse_number v h = marshal host parse_number 0 false v h
