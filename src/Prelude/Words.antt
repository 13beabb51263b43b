-- ===== src/Prelude/Words.antt =====
-- Machine words as native numbers: the bounds, the byte orders of a u32, and big-endian 256 bits.
use spmp.Prelude.Lists.{Bytes}
use Prim.Native.Nat.{ℕ, ◌+◌, ◌-◌, ◌*◌, ◌/◌, ◌%◌, ◌^◌}
use mathlib.Core.Path.{◌≡◌}
use mathlib.Core.List.{[], ◌∷◌, foldl}
use mathlib.Core.Option.{Option, none, some}
use native.Mathlib.Omega.{arith}

abbrev pub u64_max : ℕ
u64_max = 2 ^ 64 - 1

abbrev pub u256_max : ℕ
u256_max = 2 ^ 256 - 1

-- `a.wrapping_add(b)` on u64.
abbrev pub wrapping_add : ℕ → ℕ → ℕ
wrapping_add a b = (a + b) % 2 ^ 64

-- `n as u32`
abbrev pub as_u32 : ℕ → ℕ
as_u32 n = n % 2 ^ 32

-- `u32::to_be_bytes` and `u32::to_le_bytes`
abbrev pub to_be_bytes : ℕ → Bytes
to_be_bytes n = (n / 2 ^ 24) ∷ (n / 2 ^ 16 % 256) ∷ (n / 2 ^ 8 % 256) ∷ (n % 256) ∷ []

abbrev pub to_le_bytes : ℕ → Bytes
to_le_bytes n = (n % 256) ∷ (n / 2 ^ 8 % 256) ∷ (n / 2 ^ 16 % 256) ∷ (n / 2 ^ 24) ∷ []

-- The value of four bytes; `none` where `try_into::<[u8; 4]>` fails.
abbrev pub from_be_bytes : Bytes → Option ℕ
from_be_bytes (a ∷ b ∷ c ∷ d ∷ []) = some (a * 2 ^ 24 + b * 2 ^ 16 + c * 2 ^ 8 + d)
from_be_bytes _ = none

abbrev pub from_le_bytes : Bytes → Option ℕ
from_le_bytes (a ∷ b ∷ c ∷ d ∷ []) = some (a + b * 2 ^ 8 + c * 2 ^ 16 + d * 2 ^ 24)
from_le_bytes _ = none

-- `U256::from_be_bytes`
abbrev pub u256_from_be_bytes : Bytes → ℕ
u256_from_be_bytes = foldl (λ acc b. acc * 256 + b) 0

-- The value that the four little-endian bytes of a u32 stand for.
pub le_value :
    (n : ℕ)
    → n % 256 + n / 2 ^ 8 % 256 * 2 ^ 8 + n / 2 ^ 16 % 256 * 2 ^ 16 + n / 2 ^ 24 * 2 ^ 24 ≡ n
le_value n = omega arith

pub from_le_bytes-to_le_bytes : (n : ℕ) → from_le_bytes (to_le_bytes n) ≡ some n
from_le_bytes-to_le_bytes n = rw (le_value n)
