-- ===== src/Api/Marshals.antt =====
-- api.go: conversions that read back, of containers from their parts.
use go_flux.Base.{
  ℕ, zero, suc, ◌≤◌, ◌≡◌, refl, false, some, List, [], Bytes, length, get_elem?,
  get_elem?-append_head, Result, arith,
}
use go_flux.Vm.State.{Value, array, object, Object, Heap, Platform, new_array, new_object}
use go_flux.Api.Marshal.{
  Outcome, done, ◌>>=◌, GoValue, any_slice, any_map, GoValues, GoFields, apply_read_only,
  finish_array, finish_object, raw_all, raw_fields, unmarshal_to_go,
}
use go_flux.Api.Plain.{Extends, Extends-self, Extends-trans, Extends-new_array, Extends-new_object}

-- Marshaling ends with something that reads back as `x` in each heap with what the new one has.
pub record Marshals {A B : Type 0} (h : Heap) (o : Outcome (A × Heap))
    (read : ℕ → Heap → A → Outcome B) (enough : ℕ) (x : B) : Type 0 where
  pub result : A
  pub after : Heap
  pub returns : o ≡ done (result, after)
  pub extends : Extends h after
  pub reads : (g : Heap) (n : ℕ) → Extends after g → enough ≤ n → read n g result ≡ done x

abbrev pub all_of : ℕ → Heap → List Value → Outcome GoValues
all_of n g = raw_all (unmarshal_to_go n g)

abbrev pub entries_of : ℕ → Heap → Object → Outcome GoFields
entries_of n g = raw_fields (unmarshal_to_go n g)

pub leaf :
    (h : Heap) (w : Value) (x : GoValue)
    → ((g : Heap) (n : ℕ) → unmarshal_to_go (suc n) g w ≡ done x)
    → Marshals h (done (w, h)) unmarshal_to_go 1 x
leaf h w x e = record {
  result = w;
  after = h;
  returns = refl;
  extends = Extends-self h;
  reads = λ g n ext enough.
      elim n as (λ k. 1 ≤ k → unmarshal_to_go k g w ≡ done x) [
        | zero ↦ λ le. absurd (omega arith)
        | suc k ↦ λ le. e g k
      ]
        enough;
}

read_array :
    (g : Heap) (r n : ℕ) (ws : List Value) (xs : GoValues)
    → get_elem? g.arrays r ≡ some ws
    → all_of n g ws ≡ done xs
    → unmarshal_to_go (suc n) g (array (some r) false) ≡ done (any_slice xs)
unfolding unmarshal_to_go
read_array g r n ws xs e f = rw (unmarshal_to_go, e, f) refl

read_object :
    (g : Heap) (r n : ℕ) (ws : Object) (m : GoFields)
    → get_elem? g.objects r ≡ some ws
    → entries_of n g ws ≡ done m
    → unmarshal_to_go (suc n) g (object (some r) false) ≡ done (any_map m)
unfolding unmarshal_to_go
read_object g r n ws m e f = rw (unmarshal_to_go, e, f) refl

module _ (host : Platform) (parse_number : Bytes → Result Bytes ℕ) where
  pub slice_lem :
      (h : Heap) (o : Outcome (List Value × Heap)) (e : ℕ) (xs : GoValues)
      → Marshals h o all_of e xs
      → Marshals h
          (o >>= finish_array host parse_number 0 false)
          unmarshal_to_go
          (suc e)
          (any_slice xs)
  unfolding finish_array apply_read_only new_array
  slice_lem h o e xs made =
      let added : Extends made.after (new_array made.result made.after).1 =
        Extends-new_array made.result made.after in
      record {
        result = array (some (length (made.after).arrays)) false;
        after = (new_array made.result made.after).1;
        returns = rw (made.returns, finish_array) refl;
        extends = Extends-trans made.extends added;
        reads = λ g n ext enough.
            elim n
                as (λ k.
                  suc e ≤ k
                  → unmarshal_to_go k g (array (some (length (made.after).arrays)) false)
                    ≡ done (any_slice xs)) [
                      | zero ↦ λ le. absurd (omega arith)
                      | suc k ↦ λ le.
                          read_array g (length (made.after).arrays) k made.result xs
                            (ext.arrays _ _
                              (get_elem?-append_head (made.after).arrays [] made.result))
                            (made.reads g k (Extends-trans added ext) (omega arith))
                    ]
              enough;
      }

  pub map_lem :
      (h : Heap) (o : Outcome (Object × Heap)) (e : ℕ) (m : GoFields)
      → Marshals h o entries_of e m
      → Marshals h
          (o >>= finish_object host parse_number 0 false)
          unmarshal_to_go
          (suc e)
          (any_map m)
  unfolding finish_object apply_read_only new_object
  map_lem h o e m made =
      let added : Extends made.after (new_object made.result made.after).1 =
        Extends-new_object made.result made.after in
      record {
        result = object (some (length (made.after).objects)) false;
        after = (new_object made.result made.after).1;
        returns = rw (made.returns, finish_object) refl;
        extends = Extends-trans made.extends added;
        reads = λ g n ext enough.
            elim n
                as (λ k.
                  suc e ≤ k
                  → unmarshal_to_go k g (object (some (length (made.after).objects)) false)
                    ≡ done (any_map m)) [
                      | zero ↦ λ le. absurd (omega arith)
                      | suc k ↦ λ le.
                          read_object g (length (made.after).objects) k made.result m
                            (ext.objects _ _
                              (get_elem?-append_head (made.after).objects [] made.result))
                            (made.reads g k (Extends-trans added ext) (omega arith))
                    ]
              enough;
      }
