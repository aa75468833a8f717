-- ===== src/Base/Word.antt =====
-- Conversions between the machine's 64-bit words and the numbers that they stand for.
use mathlib.Core.Path.{◌≡◌}
use native.Mathlib.Omega.{arith}
use Prim.Native.Nat.{ℕ, suc, ◌+◌, ◌-◌, ◌%◌, ◌^◌, ◌<◌, ◌≤◌}
use composable_centauri.Base.Int.{ℤ, pos, negsuc, ◌+ℤ◌, ◌-ℤ◌}
use composable_centauri.Base.Tests.{ltb, if◌then◌else◌}

-- The conversion of an int64 to a uint64.
unfoldable pub to_uint64 : ℤ → ℕ
to_uint64 (pos n) = n % 2 ^ 64
to_uint64 (negsuc n) = 2 ^ 64 - suc n

-- The conversion of a uint64 to an int64.
unfoldable pub to_int64 : ℕ → ℤ
to_int64 n = let m = n % 2 ^ 64 in if ltb m (2 ^ 63) then pos m else pos m -ℤ pos (2 ^ 64)

-- The sum of two int64.
unfoldable pub add_int64 : ℤ → ℤ → ℤ
unfolding to_uint64 to_int64
add_int64 a b = to_int64 (to_uint64 (a +ℤ b))

-- The difference of two uint64.
unfoldable pub sub_uint64 : ℕ → ℕ → ℕ
sub_uint64 a b = (a + (2 ^ 64 - b)) % 2 ^ 64

pub to_int64-small : (n : ℕ) → n < 2 ^ 63 → to_int64 n ≡ pos n
unfolding to_int64
to_int64-small n h = ground arith

pub to_uint64-small : (n : ℕ) → n < 2 ^ 64 → to_uint64 (pos n) ≡ n
unfolding to_uint64
to_uint64-small n h = omega arith

pub add_int64-small : (m n : ℕ) → m + n < 2 ^ 63 → add_int64 (pos m) (pos n) ≡ pos (m + n)
unfolding add_int64 to_uint64 to_int64 ◌+ℤ◌
add_int64-small m n h = ground arith

pub sub_uint64-small : (m n : ℕ) → n ≤ m → m < 2 ^ 64 → sub_uint64 m n ≡ m - n
unfolding sub_uint64
sub_uint64-small m n h k = omega arith
