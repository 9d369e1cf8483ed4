-- ===== src/Prelude/Int.antt =====
-- Go's signed `int` and `time.Duration` (nanoseconds): integers, with the wrap-around of 64 bits.
use Prim.Native.Nat.{ℕ, suc, ◌+◌, ◌-◌, ◌*◌, ◌%◌, ◌≤◌}
use mathlib.Core.Path.{◌≡◌, refl}
use mathlib.Core.Bool.{Bool, false}
use native.Mathlib.Omega.{arith}
use package.social.Prelude.Tests.{leb, ltb, ◌==◌, if◌then◌else◌}

-- `negsuc n` is -(n + 1).
pub data ℤ : Type 0 where
  pos : ℕ → ℤ
  negsuc : ℕ → ℤ

abbrev two63 : ℕ
two63 = 9223372036854775808

-- The 64-bit pattern of an integer, and the integer that a pattern stands for.
bits64 : ℤ → ℕ
bits64 (pos n) = n % (2 * two63)
bits64 (negsuc n) = 2 * two63 - 1 - n % (2 * two63)

from_bits64 : ℕ → ℤ
from_bits64 b = if ltb b two63 then pos b else negsuc (2 * two63 - 1 - b)

scale : ℕ → ℤ → ℤ
scale k (pos n) = pos (k * n)
scale k (negsuc n) = if k == 0 then pos 0 else negsuc (k * suc n - 1)

abbrev pub second : ℕ
second = 1000000000

-- `time.Duration(secs) * time.Second`
unfoldable pub seconds : ℤ → ℤ
unfolding bits64 from_bits64 scale
seconds n = from_bits64 (bits64 (scale second n))

-- `d > 0`
abbrev pub is_positive : ℤ → Bool
is_positive (pos n) = ltb 0 n
is_positive (negsuc n) = false

-- `t.Add(d)`. Instants are nanoseconds since Go's zero time; earlier ones are cut off there.
unfoldable pub add_time : ℕ → ℤ → ℕ
add_time t (pos n) = t + n
add_time t (negsuc n) = t - suc n

-- `t.Sub(u)`
unfoldable pub sub_time : ℕ → ℕ → ℤ
sub_time t u = if leb u t then pos (t - u) else negsuc (u - t - 1)

-- No wrap-around below 2^63 nanoseconds, some 292 years.
pub seconds-pos : (n : ℕ) → n ≤ 9223372036 → seconds (pos n) ≡ pos (second * n)
unfolding seconds
seconds-pos n h = ground arith

pub add-sub_time : (t u : ℕ) → add_time u (sub_time t u) ≡ t
unfolding add_time sub_time
add-sub_time t u = ground arith

seconds_wrap : seconds (pos 9223372037) ≡ negsuc 9223372036709551615
unfolding seconds
seconds_wrap = refl

seconds_negative : seconds (negsuc 4) ≡ negsuc 4999999999
unfolding seconds
seconds_negative = refl
