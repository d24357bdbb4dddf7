-- ===== src/Prelude/Int.antt =====
-- int64 values as signed integers, and the conversions between int64 and uint64.
use Prim.Native.Nat.{ℕ, ◌-◌, ◌%◌, ◌^◌, ◌<◌}
use mathlib.Core.Path.{◌≡◌}
use mathlib.Core.Bool.{Bool, true, false}
use native.Mathlib.Omega.{arith}
use immulog.Prelude.Tests.{ltb, ◌==◌, if◌then◌else◌}

-- `negsuc n` is -(n + 1).
pub data ℤ : Type 0 where
  pos : ℕ → ℤ
  negsuc : ℕ → ℤ

abbrev pub min_int64 : ℤ
min_int64 = negsuc (2 ^ 63 - 1)

abbrev pub IsInt64 : ℤ → Type 0
IsInt64 (pos n) = n < 2 ^ 63
IsInt64 (negsuc n) = n < 2 ^ 63

-- `a < b` on int64.
abbrev pub int_lt : ℤ → ℤ → Bool
int_lt (pos a) (pos b) = ltb a b
int_lt (pos a) (negsuc b) = false
int_lt (negsuc a) (pos b) = true
int_lt (negsuc a) (negsuc b) = ltb b a

-- `a == b` on int64.
abbrev pub int_eq : ℤ → ℤ → Bool
int_eq (pos a) (pos b) = a == b
int_eq (pos a) (negsuc b) = false
int_eq (negsuc a) (pos b) = false
int_eq (negsuc a) (negsuc b) = a == b

pub int_eq_refl : (z : ℤ) → int_eq z z ≡ true
int_eq_refl (pos n) = ground arith
int_eq_refl (negsuc n) = ground arith

pub int_eq→eq : (a b : ℤ) → int_eq a b ≡ true → a ≡ b
int_eq→eq (pos a) (pos b) h = ground arith
int_eq→eq (pos a) (negsuc b) h = cc
int_eq→eq (negsuc a) (pos b) h = cc
int_eq→eq (negsuc a) (negsuc b) h = ground arith

-- `uint64(z)`
unfoldable pub uint64_of_int : ℤ → ℕ
uint64_of_int (pos n) = n % 2 ^ 64
uint64_of_int (negsuc n) = 2 ^ 64 - 1 - n % 2 ^ 64

-- `int64(n)`
unfoldable pub int_of_uint64 : ℕ → ℤ
int_of_uint64 n = if ltb n (2 ^ 63) then pos n else negsuc (2 ^ 64 - 1 - n)

pub int_of_uint64_of_int : (z : ℤ) → IsInt64 z → int_of_uint64 (uint64_of_int z) ≡ z
unfolding int_of_uint64 uint64_of_int
int_of_uint64_of_int (pos n) h = ground arith
int_of_uint64_of_int (negsuc n) h = ground arith

pub uint64_of_int-lt : (z : ℤ) → uint64_of_int z < 2 ^ 64
unfolding uint64_of_int
uint64_of_int-lt (pos n) = omega arith
uint64_of_int-lt (negsuc n) = omega arith
