-- ===== src/Prelude/Int.antt =====
-- Signed machine integers over the native numbers.
use Prim.Native.Nat.{ℕ, zero, suc, ◌/◌, ◌%◌, ◌-◌, ◌^◌, ◌<◌}
use mathlib.Core.Path.{◌≡◌}
use native.Mathlib.Omega.{arith}
use robot_fleet.Prelude.Tests.{ltb, if◌then◌else◌}

-- `negsuc n` is -(n + 1).
pub data ℤ : Type 0 where
  pos : ℕ → ℤ
  negsuc : ℕ → ℤ

-- `n as i64`, for a `u64`
unfoldable pub to_i64 : ℕ → ℤ
to_i64 n = if ltb n (2 ^ 63) then pos n else negsuc (2 ^ 64 - 1 - n)

-- `z as u64`, for an `i64`
unfoldable pub to_u64 : ℤ → ℕ
to_u64 (pos n) = n
to_u64 (negsuc n) = 2 ^ 64 - suc n

pub to_u64-to_i64 : (n : ℕ) → n < 2 ^ 64 → to_u64 (to_i64 n) ≡ n
unfolding to_u64 to_i64
to_u64-to_i64 n h = ground arith

-- `-n`
abbrev pub neg : ℕ → ℤ
neg zero = pos 0
neg (suc n) = negsuc n

-- `/` and `%` of two integers, the second above 0: the quotient is cut towards 0
unfoldable pub quot : ℤ → ℕ → ℤ
quot (pos n) k = pos (n / k)
quot (negsuc n) k = neg (suc n / k)

unfoldable pub rem : ℤ → ℕ → ℤ
rem (pos n) k = pos (n % k)
rem (negsuc n) k = neg (suc n % k)

-- an `i64`
abbrev pub IsI64 : ℤ → Type 0
IsI64 (pos n) = n < 2 ^ 63
IsI64 (negsuc n) = n < 2 ^ 63

pub to_i64-to_u64 : (z : ℤ) → IsI64 z → to_i64 (to_u64 z) ≡ z
unfolding to_u64 to_i64
to_i64-to_u64 (pos n) h = ground arith
to_i64-to_u64 (negsuc n) h = ground arith

pub to_u64-lt : (z : ℤ) → IsI64 z → to_u64 z < 2 ^ 64
unfolding to_u64
to_u64-lt (pos n) h = omega arith
to_u64-lt (negsuc n) h = omega arith
