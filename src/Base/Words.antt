-- ===== src/Base/Words.antt =====
-- Go's unsigned conversions, and the two-byte operands of the bytecode.
use Prim.Native.Nat.{ℕ, ◌+◌, ◌*◌, ◌/◌, ◌%◌, ◌<◌}
use mathlib.Core.Path.{◌≡◌}
use native.Mathlib.Omega.{arith}

-- `byte(n)` and `uint8(n)`
abbrev pub byte : ℕ → ℕ
byte n = n % 256

-- `uint16(n)`
abbrev pub uint16 : ℕ → ℕ
uint16 n = n % 65536

-- `byte(n >> 8)`
abbrev pub hi_byte : ℕ → ℕ
hi_byte n = byte (n / 256)

-- `int(hi)<<8 | int(lo)`: the low byte fits below the shifted one, so the or is a sum.
abbrev pub join_bytes : ℕ → ℕ → ℕ
join_bytes hi lo = hi * 256 + lo

pub join_bytes_split : (n : ℕ) → n < 65536 → join_bytes (hi_byte n) (byte n) ≡ n
join_bytes_split n h = omega arith
