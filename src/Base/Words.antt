-- ===== src/Base/Words.antt =====
-- Machine words as native numbers: the bounds of the unsigned types, and the arithmetic that Rust
-- writes `checked_add`, `checked_mul`, `wrapping_add` and `saturating_add`.
use Prim.Native.Nat.{ℕ, ◌+◌, ◌-◌, ◌*◌, ◌%◌, ◌^◌, min}
use mathlib.Core.Option.{Option, none, some}
use cartel.Base.Tests.{leb, if◌then◌else◌}

abbrev pub u8_size : ℕ
u8_size = 256

abbrev pub u32_size : ℕ
u32_size = 2 ^ 32

abbrev pub u64_size : ℕ
u64_size = 2 ^ 64

abbrev pub u8_max : ℕ
u8_max = 255

abbrev pub u32_max : ℕ
u32_max = 4294967295

abbrev pub u64_max : ℕ
u64_max = 18446744073709551615

abbrev pub i64_max : ℕ
i64_max = 9223372036854775807

-- `as u32` of a wider value
abbrev pub as_u32 : ℕ → ℕ
as_u32 n = n % u32_size

-- `a + b` and `a - b` on a u32, and `a + b` on a u64, wrapping as a release build does
abbrev pub add_u32 : ℕ → ℕ → ℕ
add_u32 a b = (a + b) % u32_size

abbrev pub sub_u32 : ℕ → ℕ → ℕ
sub_u32 a b = (a + u32_size - b) % u32_size

abbrev pub add_u64 : ℕ → ℕ → ℕ
add_u64 a b = (a + b) % u64_size

-- `a.checked_add(b)` and `a.checked_mul(b)` on a type whose greatest value is `max`
abbrev pub checked_add : ℕ → ℕ → ℕ → Option ℕ
checked_add top a b = if leb (a + b) top then some (a + b) else none

abbrev pub checked_mul : ℕ → ℕ → ℕ → Option ℕ
checked_mul top a b = if leb (a * b) top then some (a * b) else none

-- `NonZero::<uN>::MIN.saturating_add(n)`
abbrev pub one_plus_u32 : ℕ → ℕ
one_plus_u32 n = min (1 + n) u32_max

abbrev pub one_plus_u64 : ℕ → ℕ
one_plus_u64 n = min (1 + n) u64_max
