-- ===== src/Common/Words.antt =====
-- Machine integers as native numbers below `2 ^ w`.
use Prim.Native.Nat.{ℕ, ◌+◌, ◌-◌, ◌*◌, ◌%◌, ◌^◌, min}
use mathlib.Core.Bool.{Bool, ◌&&◌}
use anss_os.Common.Tests.{ltb}

-- The greatest `u16`.
abbrev pub u16_max : ℕ
u16_max = 65535

-- `a + b` on `u16`, as a release build computes it.
abbrev pub add_u16 : ℕ → ℕ → ℕ
add_u16 a b = (a + b) % 2 ^ 16

abbrev pub saturating_add_u16 : ℕ → ℕ → ℕ
saturating_add_u16 a b = min (a + b) u16_max

abbrev pub saturating_mul_u16 : ℕ → ℕ → ℕ
saturating_mul_u16 a b = min (a * b) u16_max

-- An `i32` is its bit pattern. `x += 1` and `x -= 1` wrap.
abbrev pub inc_i32 : ℕ → ℕ
inc_i32 x = (x + 1) % 2 ^ 32

abbrev pub dec_i32 : ℕ → ℕ
dec_i32 x = (x + 2 ^ 32 - 1) % 2 ^ 32

-- `x > 0` on an `i32`
abbrev pub is_positive_i32 : ℕ → Bool
is_positive_i32 x = ltb 0 x && ltb x (2 ^ 31)
