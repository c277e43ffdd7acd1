-- ===== src/Base/Int64.antt =====
-- Go's int64 as a bit pattern below 2^64: wrapping sums and the signed order.
use Prim.Native.Nat.{ℕ, ◌+◌, ◌-◌, ◌%◌, ◌^◌, ◌≤◌, ◌<◌}
use mathlib.Core.Path.{◌≡◌}
use mathlib.Core.Bool.{Bool, true, not}
use native.Mathlib.Omega.{arith}
use mocktrue.Base.Tests.{ltb}

abbrev pub add64 : ℕ → ℕ → ℕ
add64 a b = (a + b) % 2 ^ 64

abbrev pub sub64 : ℕ → ℕ → ℕ
sub64 a b = (a + 2 ^ 64 - b) % 2 ^ 64

-- `a < b` and `a <= b` of signed numbers: adding 2^63 turns the order of the patterns into that of
-- the numbers.
unfoldable pub lt64 : ℕ → ℕ → Bool
lt64 a b = ltb ((a + 2 ^ 63) % 2 ^ 64) ((b + 2 ^ 63) % 2 ^ 64)

unfoldable pub le64 : ℕ → ℕ → Bool
le64 a b = not (lt64 b a)

-- The patterns of the numbers from 0 on.
abbrev pub IsNat64 : ℕ → Type 0
IsNat64 a = a < 2 ^ 63

pub lt64_value : (a b : ℕ) → IsNat64 a → IsNat64 b → lt64 a b ≡ ltb a b
unfolding lt64
lt64_value a b ha hb = ground arith

pub le64_value : (a b : ℕ) → IsNat64 a → IsNat64 b → le64 a b ≡ not (ltb b a)
unfolding le64 lt64
le64_value a b ha hb = ground arith

-- A pattern from 2^63 on is a negative number.
pub lt64_negative : (a b : ℕ) → 2 ^ 63 ≤ a → a < 2 ^ 64 → IsNat64 b → lt64 a b ≡ true
unfolding lt64
lt64_negative a b lo hi hb = ground arith
