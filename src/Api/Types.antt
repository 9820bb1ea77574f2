-- ===== src/Api/Types.antt =====
-- api.go: the values of a target's type.
use go_flux.Base.{ℕ, zero, suc, ◌^◌, ◌<◌, ◌≡◌, refl, ap, false, true, arith}
use go_flux.Base.Int.{ℤ, pos, negsuc}
use go_flux.Api.Marshal.{
  GoValue, bool_value, int_value, float_value, float32_value, string_value, slice_value, map_value,
  struct_value, GoValues, no_values, more_values, GoFields, no_entries, more_entries, GoMembers,
  no_members, more_members,
}
use go_flux.Api.Unmarshal.{
  GoType, any_type, bool_type, string_type, int_type, uint_type, float_type, slice_type, array_type,
  map_type, struct_type, other_type, MemberTypes, no_types, more_types, replicate_value,
  values_length, zero_of, zeros_of, values_of, members_of,
}

abbrev pub AllHave : (GoValue → Type 0) → GoValues → Type 0
AllHave P no_values = Unit
AllHave P (more_values x xs) = P x × AllHave P xs

abbrev pub EntriesHave : (GoValue → Type 0) → GoFields → Type 0
EntriesHave P no_entries = Unit
EntriesHave P (more_entries k x m) = P x × EntriesHave P m

abbrev pub InRange : ℕ → ℤ → Type 0
InRange b (pos n) = n < 2 ^ b
InRange b (negsuc n) = n < 2 ^ b

abbrev pub IsBool : GoValue → Type 0
IsBool (bool_value b) = Unit
IsBool _ = ⊥

abbrev pub IsString : GoValue → Type 0
IsString (string_value s) = Unit
IsString _ = ⊥

abbrev pub IsFloat : GoValue → Type 0
IsFloat (float_value n) = Unit
IsFloat _ = ⊥

abbrev pub IsFloat32 : GoValue → Type 0
IsFloat32 (float32_value n) = Unit
IsFloat32 _ = ⊥

abbrev pub IsInt : ℕ → GoValue → Type 0
IsInt b (int_value i) = InRange b i
IsInt b _ = ⊥

abbrev pub IsUint : ℕ → GoValue → Type 0
IsUint b (int_value (pos n)) = n < 2 ^ b
IsUint b _ = ⊥

abbrev pub IsSlice : (GoValue → Type 0) → GoValue → Type 0
IsSlice P (slice_value xs) = AllHave P xs
IsSlice P _ = ⊥

abbrev pub IsArray : ℕ → (GoValue → Type 0) → GoValue → Type 0
IsArray n P (slice_value xs) = AllHave P xs × (values_length xs ≡ n)
IsArray n P _ = ⊥

abbrev pub IsMap : (GoValue → Type 0) → GoValue → Type 0
IsMap P (map_value m) = EntriesHave P m
IsMap P _ = ⊥

abbrev pub IsStruct : (GoMembers → Type 0) → GoValue → Type 0
IsStruct P (struct_value m) = P m
IsStruct P _ = ⊥

-- A value of a type: an integer is in its range, an array as long as it says, and a struct has its
-- members in order. Nothing is said of interfaces and of the types of other kinds.
unfoldable mutual
  pub HasType : GoType → GoValue → Type 0
  HasType any_type x = Unit
  HasType bool_type x = IsBool x
  HasType string_type x = IsString x
  HasType (int_type b) x = IsInt b x
  HasType (uint_type b) x = IsUint b x
  HasType (float_type false) x = IsFloat x
  HasType (float_type true) x = IsFloat32 x
  HasType (slice_type t) x = IsSlice (HasType t) x
  HasType (array_type n t) x = IsArray n (HasType t) x
  HasType (map_type by_string t) x = IsMap (HasType t) x
  HasType (struct_type ts) x = IsStruct (MembersHave ts) x
  HasType (other_type k) x = Unit

  pub MembersHave : MemberTypes → GoMembers → Type 0
  MembersHave no_types no_members = Unit
  MembersHave (more_types x exported t ts) (more_members y shown v m) =
      (y ≡ x) × (shown ≡ exported) × HasType t v × MembersHave ts m
  MembersHave _ _ = ⊥

-- Powers of two are not 0.
pub pow_pos : (b : ℕ) → 0 < 2 ^ b
pow_pos zero = omega arith
pow_pos (suc b) = omega (arith, pow_pos b)

pub replicate_value-AllHave :
    (P : GoValue → Type 0) (n : ℕ) (x : GoValue) → P x → AllHave P (replicate_value n x)
unfolding replicate_value
replicate_value-AllHave P zero x p = tt
replicate_value-AllHave P (suc n) x p = (p, replicate_value-AllHave P n x p)

pub replicate_value-length : (n : ℕ) (x : GoValue) → values_length (replicate_value n x) ≡ n
unfolding replicate_value values_length
replicate_value-length zero x = refl
replicate_value-length (suc n) x = ap suc (replicate_value-length n x)

mutual
  unfolding zero_of HasType

  pub zero_of-HasType : (t : GoType) → HasType t (zero_of t)
  zero_of-HasType any_type = tt
  zero_of-HasType bool_type = tt
  zero_of-HasType string_type = tt
  zero_of-HasType (int_type b) = pow_pos b
  zero_of-HasType (uint_type b) = pow_pos b
  zero_of-HasType (float_type false) = tt
  zero_of-HasType (float_type true) = tt
  zero_of-HasType (slice_type t) = tt
  zero_of-HasType (array_type n t) = (
    replicate_value-AllHave (HasType t) n (zero_of t) (zero_of-HasType t),
    replicate_value-length n (zero_of t),
  )
  zero_of-HasType (map_type by_string t) = tt
  zero_of-HasType (struct_type ts) = zeros_of-MembersHave ts
  zero_of-HasType (other_type k) = tt

  zeros_of-MembersHave : (ts : MemberTypes) → MembersHave ts (zeros_of ts)
  zeros_of-MembersHave no_types = tt
  zeros_of-MembersHave (more_types x exported t ts) =
      (refl, refl, zero_of-HasType t, zeros_of-MembersHave ts)

pub values_of_lem :
    (n : ℕ) (P : GoValue → Type 0) (old : GoValue)
    → IsArray n P old
    → AllHave P (values_of old) × (values_length (values_of old) ≡ n)
values_of_lem n P (slice_value xs) p = p
values_of_lem n P _ p = absurd p

pub members_of_lem : (P : GoMembers → Type 0) (old : GoValue) → IsStruct P old → P (members_of old)
members_of_lem P (struct_value m) p = p
members_of_lem P _ p = absurd p
