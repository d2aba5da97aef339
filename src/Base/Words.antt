-- ===== src/Base/Words.antt =====
-- The arithmetic of `uint32_t` and `uint16_t` written out on numbers.
use Prim.Native.Nat.{ℕ, ◌+◌, ◌-◌, ◌*◌, ◌/◌, ◌%◌, ◌^◌, ◌<◌}
use mathlib.Core.Path.{◌≡◌}
use native.Mathlib.Omega.{arith}

abbrev pub u8 : ℕ → ℕ
u8 n = n % 2 ^ 8

abbrev pub u16 : ℕ → ℕ
u16 n = n % 2 ^ 16

abbrev pub u32 : ℕ → ℕ
u32 n = n % 2 ^ 32

-- `a - b` in 32 bits; `-` on numbers stops at 0, so the modulus is added first.
abbrev pub sub32 : ℕ → ℕ → ℕ
sub32 a b = (a + 2 ^ 32 - b) % 2 ^ 32

-- `~a` in 32 bits.
abbrev pub not32 : ℕ → ℕ
not32 a = 2 ^ 32 - 1 - a

-- `__builtin_bswap16`.
abbrev pub bswap16 : ℕ → ℕ
bswap16 v = v % 256 * 256 + v / 256 % 256

pub bswap16-bswap16 : (v : ℕ) → v < 2 ^ 16 → bswap16 (bswap16 v) ≡ v
bswap16-bswap16 v h = omega arith
