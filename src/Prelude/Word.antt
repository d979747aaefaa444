-- ===== src/Prelude/Word.antt =====
-- Machine integers as bit patterns: `int32_t`, `uint32_t` and `size_t`. A signed number is its
-- two's complement pattern below 2 ^ 32.
use Prim.Native.Nat.{ℕ, ◌+◌, ◌-◌, ◌*◌, ◌/◌, ◌%◌, ◌^◌, ◌<◌, ◌≤◌, bit_and, bit_or, bit_xor}
use mathlib.Core.Path.{◌≡◌}
use mathlib.Core.Bool.{Bool}
use native.Mathlib.Omega.{arith}
use atomix_js.Prelude.Tests.{ltb, leb, if◌then◌else◌}

abbrev pub u32_mod : ℕ
u32_mod = 0x1_0000_0000

abbrev pub sign_bit : ℕ
sign_bit = 0x8000_0000

abbrev pub u64_mod : ℕ
u64_mod = 0x1_0000_0000_0000_0000

-- Sum, difference, product and opposite wrap, as two's complement arithmetic does. C leaves their
-- overflow undefined.
unfoldable pub add32 : ℕ → ℕ → ℕ
add32 a b = (a + b) % u32_mod

unfoldable pub sub32 : ℕ → ℕ → ℕ
sub32 a b = (a % u32_mod + u32_mod - b % u32_mod) % u32_mod

unfoldable pub mul32 : ℕ → ℕ → ℕ
mul32 a b = a * b % u32_mod

unfoldable pub neg32 : ℕ → ℕ
neg32 a = (u32_mod - a % u32_mod) % u32_mod

unfoldable pub not32 : ℕ → ℕ
not32 a = u32_mod - 1 - a % u32_mod

unfoldable pub is_negative : ℕ → Bool
is_negative a = leb sign_bit a

unfoldable pub abs32 : ℕ → ℕ
unfolding is_negative
abs32 a = if is_negative a then u32_mod - a else a

-- The order of signed numbers: flip the sign bit, and compare the patterns.
unfoldable pub flip_sign : ℕ → ℕ
flip_sign a = (a + sign_bit) % u32_mod

unfoldable pub lt32 : ℕ → ℕ → Bool
unfolding flip_sign
lt32 a b = ltb (flip_sign a) (flip_sign b)

unfoldable pub le32 : ℕ → ℕ → Bool
unfolding flip_sign
le32 a b = leb (flip_sign a) (flip_sign b)

-- C's `%` truncates toward zero: the remainder has the sign of the dividend.
unfoldable pub rem32 : ℕ → ℕ → ℕ
unfolding abs32 is_negative neg32
rem32 a b = let r = abs32 a % abs32 b in if is_negative a then neg32 r else r

-- Shifts by a count below 32. `sar32` copies the sign, `shr32` shifts in zeros.
unfoldable pub shl32 : ℕ → ℕ → ℕ
shl32 a n = a * 2 ^ n % u32_mod

unfoldable pub shr32 : ℕ → ℕ → ℕ
shr32 a n = a / 2 ^ n

unfoldable pub sar32 : ℕ → ℕ → ℕ
unfolding is_negative
sar32 a n = if is_negative a then u32_mod - 1 - (u32_mod - 1 - a) / 2 ^ n else a / 2 ^ n

unfoldable pub and32 : ℕ → ℕ → ℕ
and32 a b = bit_and a b

unfoldable pub or32 : ℕ → ℕ → ℕ
or32 a b = bit_or a b

unfoldable pub xor32 : ℕ → ℕ → ℕ
xor32 a b = bit_xor a b

-- `size_t` subtraction and addition.
unfoldable pub sub64 : ℕ → ℕ → ℕ
sub64 a b = (a + u64_mod - b) % u64_mod

pub sub64_lem : (a b : ℕ) → b ≤ a → a < u64_mod → sub64 a b ≡ a - b
unfolding sub64
sub64_lem a b h k = omega arith
