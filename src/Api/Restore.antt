-- ===== src/Api/Restore.antt =====
-- api.go: what `Unmarshal` assigns to a target, of what `NewValue` makes of a Go value of the target's
-- type.
use native.Mathlib.Nat.{mod-eq_of_lt}
use mathlib.Core.Path.{subst}
use go_flux.Base.{
  Bool, Option, insert_absent, append_assoc, append-nil, ◌++◌, lookup, insert, ℕ, suc, ◌^◌, ◌≤◌,
  ◌≡◌, refl, sym, ap, ◌∙◌, false, true, none, some, List, [], ◌∷◌, Bytes, length, get_elem?,
  get_elem?-append_head, Result, ◌==◌, arith,
}
use go_flux.Base.Int.{ℤ, pos}
use go_flux.Vm.State.{
  Value, bool, number, string, array, object, Object, Heap, Platform, new_array, new_object,
}
use go_flux.Api.Marshal.{
  struct_value, GoMembers, no_members, more_members, marshal_members, Outcome, done, ◌>>=◌, GoValue,
  bool_value, int_value, float_value, float32_value, string_value, slice_value, map_value, GoValues,
  no_values, more_values, GoFields, no_entries, more_entries, marshal, marshal_all, marshal_entries,
  finish_array, finish_object, apply_read_only,
}
use go_flux.Api.Plain.{
  Plain, raw_form, nodes, Free, Free-empty, Free-insert, Extends, Extends-self, Extends-trans,
  Extends-new_array, Extends-new_object,
}
use go_flux.Api.RoundTrip
use go_flux.Api.Unmarshal.{
  struct_type, MemberTypes, no_types, more_types, assign_members, then_members, members_of,
  any_type, GoType, bool_type, string_type, int_type, uint_type, float_type, slice_type, array_type,
  map_type, Assigned, assign_value, assign_all, assign_entries, zero_of, replicate_value,
  values_length, values_of,
}
use go_flux.Api.Types.{
  members_of_lem, MembersHave, values_of_lem, AllHave, HasType, replicate_value-AllHave,
  replicate_value-length, zero_of-HasType,
}
use go_flux.Api.Storable.{
  set_int-same, lookup-behind, entries_of, Holds, IsExact, Storable, StorableAll, StorableEntries,
  StorableMembers,
}

-- Marshaling ends with something that `Back` holds of in each heap with what the new one has.
record Restores {A : Type 0} (h : Heap) (o : Outcome (A × Heap)) (Back : Heap → A → Type 0)
    : Type 0 where
  result : A
  after : Heap
  returns : o ≡ done (result, after)
  extends : Extends h after
  back : (g : Heap) → Extends after g → Back g result

module _ (host : Platform) (parse_number : Bytes → Result Bytes ℕ) (to_int64 : ℕ → ℤ)
    (to_uint64 : ℕ → ℕ) (to_float32 : ℕ → ℕ)
    (exact_int : (i : ℤ) → IsExact i → to_int64 (host.of_int i) ≡ i)
    (exact_uint : (n : ℕ) → n ≤ 2 ^ 53 → to_uint64 (host.of_int (pos n)) ≡ n) (f : ℕ) where
  abbrev assign : Heap → GoType → Value → GoValue → Assigned GoValue
  assign g t v old = assign_value to_int64 to_uint64 to_float32 f g t v old

  -- What is assigned of a value, of elements and of entries, whatever the target has
  abbrev Gives : GoType → GoValue → Heap → Value → Type 0
  Gives t x g w = (old : GoValue) → HasType t old → assign g t w old ≡ (x, none)

  record GivesAll (t : GoType) (xs : GoValues) (g : Heap) (ws : List Value) : Type 0 where
    count : length ws ≡ values_length xs
    all :
        (olds : GoValues)
        → AllHave (HasType t) olds
        → values_length olds ≡ length ws
        → assign_all (assign g t) ws olds ≡ (xs, none)

  abbrev GivesEntries : GoType → GoFields → Heap → Object → Type 0
  GivesEntries t m g ws = assign_entries (assign g t) (zero_of t) ws ≡ (m, none)

  slice-Gives :
      (g : Heap) (r : ℕ) (t : GoType) (ws : List Value) (xs : GoValues)
      → get_elem? g.arrays r ≡ some ws
      → GivesAll t xs g ws
      → Gives (slice_type t) (slice_value xs) g (array (some r) false)
  unfolding assign_value
  slice-Gives g r t ws xs e h old p =
      rw
        (
          assign_value,
          e,
          h.all (replicate_value (length ws) (zero_of t))
              (replicate_value-AllHave (HasType t) (length ws) (zero_of t) (zero_of-HasType t))
              (replicate_value-length (length ws) (zero_of t)),
        )
        refl

  array-Gives :
      (g : Heap) (r n : ℕ) (t : GoType) (ws : List Value) (xs : GoValues)
      → get_elem? g.arrays r ≡ some ws
      → values_length xs ≡ n
      → GivesAll t xs g ws
      → Gives (array_type n t) (slice_value xs) g (array (some r) false)
  unfolding assign_value HasType
  array-Gives g r n t ws xs e k h old p =
      let q = values_of_lem n (HasType t) old p in
      let fits : (length ws == n) ≡ true = ground (arith, h.count, k) in
      rw (assign_value, e, fits, h.all (values_of old) q.0 (q.1 ∙ sym k ∙ sym h.count)) refl

  map-Gives :
      (g : Heap) (r : ℕ) (t : GoType) (ws : Object) (m : GoFields)
      → get_elem? g.objects r ≡ some ws
      → GivesEntries t m g ws
      → Gives (map_type true t) (map_value m) g (object (some r) false)
  unfolding assign_value
  map-Gives g r t ws m e h old p = rw (assign_value, e, h) refl

  -- A new array, and a new object
  array_made :
      (h : Heap) (t s : GoType) (xs : GoValues) (o : Outcome (List Value × Heap))
      → ((g : Heap) (r : ℕ) (ws : List Value)
          → get_elem? g.arrays r ≡ some ws
          → GivesAll t xs g ws
          → Gives s (slice_value xs) g (array (some r) false))
      → Restores h o (GivesAll t xs)
      → Restores h (o >>= finish_array host parse_number 0 false) (Gives s (slice_value xs))
  unfolding finish_array apply_read_only new_array
  array_made h t s xs o gives made =
      let added = Extends-new_array made.result made.after in
      record {
        result = array (some (length (made.after).arrays)) false;
        after = (new_array made.result made.after).1;
        returns = rw (made.returns, finish_array) refl;
        extends = Extends-trans made.extends added;
        back = λ g ext.
            gives g (length (made.after).arrays) made.result
              (ext.arrays _ _ (get_elem?-append_head (made.after).arrays [] made.result))
              (made.back g (Extends-trans added ext));
      }

  object_made :
      (h : Heap) (t : GoType) (m : GoFields) (o : Outcome (Object × Heap))
      → Restores h o (GivesEntries t m)
      → Restores h
          (o >>= finish_object host parse_number 0 false)
          (Gives (map_type true t) (map_value m))
  unfolding finish_object apply_read_only new_object
  object_made h t m o made =
      let added = Extends-new_object made.result made.after in
      record {
        result = object (some (length (made.after).objects)) false;
        after = (new_object made.result made.after).1;
        returns = rw (made.returns, finish_object) refl;
        extends = Extends-trans made.extends added;
        back = λ g ext.
            map-Gives g (length (made.after).objects) t made.result m
              (ext.objects _ _ (get_elem?-append_head (made.after).objects [] made.result))
              (made.back g (Extends-trans added ext));
      }

  leaf :
      (h : Heap) (t : GoType) (x : GoValue) (w : Value)
      → ((g : Heap) → Gives t x g w)
      → Restores h (done (w, h)) (Gives t x)
  leaf h t x w gives = record {
    result = w;
    after = h;
    returns = refl;
    extends = Extends-self h;
    back = λ g ext. gives g;
  }

  untyped_lem :
      (h : Heap) (x : GoValue)
      → Plain x
      → raw_form host.of_int x ≡ x
      → nodes x ≤ f
      → Restores h (marshal host parse_number 0 false x h) (Gives any_type x)
  unfolding assign_value
  untyped_lem h x p same enough =
      let made = RoundTrip.value_lem host parse_number x p h in
      record {
        result = made.result;
        after = made.after;
        returns = made.returns;
        extends = made.extends;
        back = λ g ext old q. rw (assign_value, made.reads g f ext enough, same) refl;
      }

  -- The entries written behind what is there
  record Writes (t : GoType) (m : GoFields) (out : Object) (h : Heap) : Type 0 where
    added : Object
    later : Heap
    written : marshal_entries host parse_number 0 false m out h ≡ done (out ++ added, later)
    grows : Extends h later
    entries : (g : Heap) → Extends later g → GivesEntries t m g added

  written_lem :
      (h : Heap) (t : GoType) (m : GoFields)
      → Writes t m [] h
      → Restores h (marshal_entries host parse_number 0 false m [] h) (GivesEntries t m)
  written_lem h t m made = record {
    result = made.added;
    after = made.later;
    returns = made.written;
    extends = made.grows;
    back = made.entries;
  }

  element_lem :
      (h : Heap) (t : GoType) (x : GoValue) (xs : GoValues)
      → Restores h (marshal host parse_number 0 false x h) (Gives t x)
      → ((g : Heap) → Restores g (marshal_all host parse_number 0 false xs g) (GivesAll t xs))
      → Restores h
          (marshal_all host parse_number 0 false (more_values x xs) h)
          (GivesAll t (more_values x xs))
  unfolding marshal assign_all values_length
  element_lem h t x xs first others =
      let rest = others first.after in
      record {
        result = first.result ∷ rest.result;
        after = rest.after;
        returns = rw (marshal_all, first.returns, rest.returns) refl;
        extends = Extends-trans first.extends rest.extends;
        back = λ g ext.
            let given = rest.back g ext in
            record {
              count = ap suc given.count;
              all = elim [
                | no_values ↦ λ p e. cc
                | more_values old olds ↦ λ p e.
                    rw
                      (
                        assign_all,
                        first.back g (Extends-trans rest.extends ext) old p.0,
                        given.all olds p.1 (omega (arith, e)),
                      )
                      refl
              ];
            };
      }

  entry_lem :
      (h : Heap) (t : GoType) (k : Bytes) (x : GoValue) (m : GoFields) (out : Object)
      → lookup k out ≡ none
      → Restores h (marshal host parse_number 0 false x h) (Gives t x)
      → ((g : Heap) (w : Value) → Writes t m (insert k w out) g)
      → Writes t (more_entries k x m) out h
  unfolding marshal assign_entries
  entry_lem h t k x m out absent first others =
      let rest = others first.after first.result in
      record {
        added = (k, first.result) ∷ rest.added;
        later = rest.later;
        written =
            rw
              (
                marshal_entries,
                first.returns,
                rest.written,
                insert_absent k first.result out absent,
              )
              (rw (append_assoc out ((k, first.result) ∷ []) rest.added) refl);
        grows = Extends-trans first.extends rest.grows;
        entries = λ g ext.
            rw
              (
                assign_entries,
                first.back g (Extends-trans rest.grows ext) (zero_of t) (zero_of-HasType t),
                rest.entries g ext,
              )
              refl;
      }

  -- The members written behind what is there
  record WritesMembers (ts : MemberTypes) (m : GoMembers) (out : Object) (h : Heap) : Type 0 where
    added : Object
    later : Heap
    written : marshal_members host parse_number 0 false m out h ≡ done (out ++ added, later)
    grows : Extends h later
    holds : Holds (out ++ added) added
    members :
        (g : Heap) (whole : Object) (olds : GoMembers)
        → Extends later g
        → Holds whole added
        → MembersHave ts olds
        → assign_members to_int64 to_uint64 to_float32 f g ts whole olds ≡ (m, none)

  -- A member that the object has
  member_step :
      (g : Heap) (x y : Bytes) (t : GoType) (ts : MemberTypes) (whole : Object) (shown : Bool)
      (old : GoValue) (olds : GoMembers) (w : Value)
      → lookup x whole ≡ some w
      → assign_members to_int64 to_uint64 to_float32 f g
          (more_types x true t ts)
          whole
          (more_members y shown old olds)
        ≡ then_members x
            (assign g t w old)
            olds
            (assign_members to_int64 to_uint64 to_float32 f g ts whole olds)
  unfolding assign_value
  member_step g x y t ts whole shown old olds w e =
      ap
        (λ (o : Option Value). elim o as (λ _. Assigned GoMembers) [
          | some v ↦
              then_members x (assign g t v old) olds
                (assign_members to_int64 to_uint64 to_float32 f g ts whole olds)
          | none ↦
              then_members x (old, none) olds
                (assign_members to_int64 to_uint64 to_float32 f g ts whole olds)
        ])
        e

  member_lem :
      (h : Heap) (x : Bytes) (t : GoType) (ts : MemberTypes) (v : GoValue) (m : GoMembers)
      (out : Object)
      → lookup x out ≡ none
      → Restores h (marshal host parse_number 0 false v h) (Gives t v)
      → ((g : Heap) (w : Value) → WritesMembers ts m (insert x w out) g)
      → WritesMembers (more_types x true t ts) (more_members x true v m) out h
  unfolding marshal assign_value HasType
  member_lem h x t ts v m out absent first others =
      let rest = others first.after first.result in
      let same : out ++ ((x, first.result) ∷ rest.added) ≡ insert x first.result out ++ rest.added =
        rw (insert_absent x first.result out absent) (sym (append_assoc out _ rest.added)) in
      record {
        added = (x, first.result) ∷ rest.added;
        later = rest.later;
        written = rw (marshal_members, first.returns, rest.written, same) refl;
        grows = Extends-trans first.extends rest.grows;
        holds = (
          lookup-behind x first.result out rest.added absent,
          subst (λ o. Holds o rest.added) (sym same) rest.holds,
        );
        members = λ g whole olds ext there have.
            elim olds
                as (λ olds.
                  MembersHave (more_types x true t ts) olds
                  → assign_members to_int64 to_uint64 to_float32 f g (more_types x true t ts) whole
                      olds
                    ≡ (more_members x true v m, none)) [
                      | no_members ↦ λ q. absurd q
                      | more_members y shown old others ↦ λ q.
                          member_step g x y t ts whole shown old others first.result there.0
                          ∙ rw
                              (
                                first.back g (Extends-trans rest.grows ext) old q.2,
                                rest.members g whole others ext there.1 q.3,
                              )
                              refl
                    ]
              have;
      }

  no_members_lem :
      (g : Heap) (whole : Object) (olds : GoMembers)
      → MembersHave no_types olds
      → assign_members to_int64 to_uint64 to_float32 f g no_types whole olds ≡ (no_members, none)
  unfolding assign_value HasType
  no_members_lem g whole no_members q = refl
  no_members_lem g whole (more_members x shown v m) q = absurd q

  struct_made :
      (h : Heap) (ts : MemberTypes) (m : GoMembers)
      → WritesMembers ts m [] h
      → Restores h
          (marshal host parse_number 0 false (struct_value m) h)
          (Gives (struct_type ts) (struct_value m))
  unfolding marshal finish_object apply_read_only new_object assign_value HasType
  struct_made h ts m made =
      let added = Extends-new_object made.added made.later in
      record {
        result = object (some (length (made.later).objects)) false;
        after = (new_object made.added made.later).1;
        returns = rw (made.written, finish_object) refl;
        extends = Extends-trans made.grows added;
        back = λ g ext old q.
            let e : get_elem? g.objects (length (made.later).objects) ≡ some made.added =
              ext.objects _ _ (get_elem?-append_head (made.later).objects [] made.added) in
            rw
              (
                assign_value,
                e,
                made.members g made.added (members_of old) (Extends-trans added ext) made.holds
                    (members_of_lem (MembersHave ts) old q),
              )
              refl;
      }

  mutual
    unfolding marshal assign_value assign_all assign_entries Storable HasType values_length

    value_lem :
        (t : GoType) (x : GoValue)
        → Storable to_float32 host.of_int f t x
        → (h : Heap) → Restores h (marshal host parse_number 0 false x h) (Gives t x)
    value_lem any_type x p h = untyped_lem h x p.0 p.1 p.2
    value_lem bool_type (bool_value b) p h =
        leaf h bool_type (bool_value b) (bool b) (λ g old q. refl)
    value_lem string_type (string_value s) p h =
        leaf h string_type (string_value s) (string s) (λ g old q. refl)
    value_lem (int_type b) (int_value i) p h =
        leaf h (int_type b) (int_value i) (number (host.of_int i))
          (λ g old q. rw (exact_int i p.1, set_int-same b i p.0) refl)
    value_lem (uint_type b) (int_value (pos n)) p h =
        leaf h (uint_type b) (int_value (pos n)) (number (host.of_int (pos n)))
          (λ g old q. rw (exact_uint n p.1, mod-eq_of_lt p.0) refl)
    value_lem (float_type false) (float_value n) p h =
        leaf h (float_type false) (float_value n) (number n) (λ g old q. refl)
    value_lem (float_type true) (float32_value n) p h =
        leaf h (float_type true) (float32_value n) (number n) (λ g old q. rw p refl)
    value_lem (slice_type t) (slice_value xs) p h =
        array_made h t (slice_type t) xs (marshal_all host parse_number 0 false xs h)
          (λ g r ws. slice-Gives g r t ws xs) (values_lem t xs p h)
    value_lem (array_type n t) (slice_value xs) p h =
        array_made h t (array_type n t) xs (marshal_all host parse_number 0 false xs h)
          (λ g r ws e. array-Gives g r n t ws xs e p.1) (values_lem t xs p.0 h)
    value_lem (map_type true t) (map_value m) p h =
        object_made h t m (marshal_entries host parse_number 0 false m [] h)
          (written_lem h t m (entries_lem t m p [] (Free-empty m) h))
    value_lem (struct_type ts) (struct_value m) p h =
        struct_made h ts m (members_lem ts m p [] (Free-empty (entries_of m)) h)
    value_lem _ _ p h = absurd p

    members_lem :
        (ts : MemberTypes) (m : GoMembers)
        → StorableMembers to_float32 host.of_int f ts m
        → (out : Object) → Free (entries_of m) out
        → (h : Heap) → WritesMembers ts m out h
    members_lem no_types no_members p out q h = record {
      added = [];
      later = h;
      written = rw (append-nil out) refl;
      grows = Extends-self h;
      holds = tt;
      members = λ g whole olds ext there have. no_members_lem g whole olds have;
    }
    members_lem (more_types x true t ts) (more_members y true v m) p out q h =
        subst (λ z. WritesMembers (more_types z true t ts) (more_members y true v m) out h) p.0
          (member_lem h y t ts v m out q.0 (value_lem t v p.1 h) λ g w.
            members_lem ts m p.3 (insert y w out) (Free-insert y w (entries_of m) out p.2 q.1) g)
    members_lem _ _ p out q h = absurd p

    values_lem :
        (t : GoType) (xs : GoValues)
        → StorableAll to_float32 host.of_int f t xs
        → (h : Heap) → Restores h (marshal_all host parse_number 0 false xs h) (GivesAll t xs)
    values_lem t no_values p h = record {
      result = [];
      after = h;
      returns = refl;
      extends = Extends-self h;
      back = λ g ext. record {
        count = refl;
        all = elim [ no_values ↦ λ p e. refl | more_values old olds ↦ λ p e. cc ];
      };
    }
    values_lem t (more_values x xs) p h =
        element_lem h t x xs (value_lem t x p.0 h) (values_lem t xs p.1)

    entries_lem :
        (t : GoType) (m : GoFields)
        → StorableEntries to_float32 host.of_int f t m
        → (out : Object) → Free m out
        → (h : Heap) → Writes t m out h
    entries_lem t no_entries p out q h = record {
      added = [];
      later = h;
      written = rw (append-nil out) refl;
      grows = Extends-self h;
      entries = λ g ext. refl;
    }
    entries_lem t (more_entries k x m) p out q h =
        entry_lem h t k x m out q.0 (value_lem t x p.0 h)
          λ g w. entries_lem t m p.2 (insert k w out) (Free-insert k w m out p.1 q.1) g
