-- ===== src/Vm/Equality.antt =====
-- internal/vm/value.go, `Equal`.
use go_flux.Base.{Bool, true, false, ◌≡◌, ◌↔◌, refl, sym, bytes_eq_iff}
use go_flux.Vm.State.{Value, null, bool, number, string, error, Platform}
use go_flux.Vm.Values.{equal, bool_eq}

-- What it is for two values to be equal: to be the same null, boolean, string or error, or to be two
-- numbers that float64 counts as equal. Values of other types are equal to nothing, not even to
-- themselves.
abbrev pub Alike : Platform → Value → Value → Type 0
Alike host null null = Unit
Alike host (bool a) (bool b) = a ≡ b
Alike host (number a) (number b) = host.feq a b ≡ true
Alike host (string a) (string b) = a ≡ b
Alike host (error a) (error b) = a ≡ b
Alike host _ _ = ⊥

bool_eq_iff : (a b : Bool) → (bool_eq a b ≡ true) ↔ (a ≡ b)
unfolding bool_eq
bool_eq_iff true b = (λ e. sym e, λ e. sym e)
bool_eq_iff false true = (λ e. cc, λ e. cc)
bool_eq_iff false false = (λ e. refl, λ e. refl)

-- `Equal` says whether two values are alike.
pub equal_iff : (host : Platform) (a b : Value) → (equal host a b ≡ true) ↔ Alike host a b
unfolding equal
equal_iff host null null = (λ e. tt, λ e. refl)
equal_iff host (bool a) (bool b) = bool_eq_iff a b
equal_iff host (number a) (number b) = (λ e. e, λ e. e)
equal_iff host (string a) (string b) = bytes_eq_iff a b
equal_iff host (error a) (error b) = bytes_eq_iff a b
equal_iff host _ _ = (λ e. cc, λ e. absurd e)
