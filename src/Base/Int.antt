-- ===== src/Base/Int.antt =====
-- Go's conversions between uint64 and int64, which keep the bits.
use Prim.Native.Nat.{ℕ, ◌-◌, ◌%◌, ◌≤◌, ◌<◌}
use mathlib.Core.Path.{◌≡◌}
use mathlib.Core.Logic.{inl, inr}
use mathlib.Core.Bool.{Bool, true, false}
use native.Mathlib.Omega.{arith}
use literaft.Base.Tests.{ltb, leb, ◌==◌, if◌then◌else◌, Bool-cases}

pub data ℤ : Type 0 where
  pos : ℕ → ℤ
  negsuc : ℕ → ℤ

-- 2 ^ 63, 2 ^ 64 and 2 ^ 64 - 1.
abbrev pub i64_mod : ℕ
i64_mod = 9223372036854775808

abbrev pub u64_mod : ℕ
u64_mod = 18446744073709551616

abbrev pub u64_max : ℕ
u64_max = 18446744073709551615

unfoldable pub int64_of : ℕ → ℤ
int64_of n = if ltb n i64_mod then pos n else negsuc (u64_max - n)

unfoldable pub uint64_of : ℤ → ℕ
uint64_of (pos n) = n
uint64_of (negsuc n) = u64_max - n

-- The wrap-around of int64 arithmetic.
unfoldable pub wrap_int64 : ℤ → ℤ
unfolding int64_of
wrap_int64 (pos n) = int64_of (n % u64_mod)
wrap_int64 (negsuc n) = int64_of (u64_max - n % u64_mod)

abbrev pub leb_ℤ : ℤ → ℤ → Bool
leb_ℤ (pos a) (pos b) = leb a b
leb_ℤ (pos a) (negsuc b) = false
leb_ℤ (negsuc a) (pos b) = true
leb_ℤ (negsuc a) (negsuc b) = leb b a

abbrev pub eq_ℤ : ℤ → ℤ → Bool
eq_ℤ (pos a) (pos b) = a == b
eq_ℤ (pos a) (negsuc b) = false
eq_ℤ (negsuc a) (pos b) = false
eq_ℤ (negsuc a) (negsuc b) = a == b

pub int64_of_pos : (n : ℕ) → n < i64_mod → int64_of n ≡ pos n
unfolding int64_of
int64_of_pos n lt = ground arith

pub int64_of_neg : (n : ℕ) → i64_mod ≤ n → int64_of n ≡ negsuc (u64_max - n)
unfolding int64_of
int64_of_neg n ge = ground arith

pub uint64_of-int64_of : (n : ℕ) → n < u64_mod → uint64_of (int64_of n) ≡ n
unfolding uint64_of int64_of
uint64_of-int64_of n lt = elim (Bool-cases (ltb n i64_mod)) [
  | inl h ↦ rw h
  | inr h ↦ rw h (omega arith)
]

pub wrap_int64_pos : (n : ℕ) → n < i64_mod → wrap_int64 (pos n) ≡ pos n
unfolding wrap_int64 int64_of
wrap_int64_pos n lt = ground arith

pub wrap_int64_neg : (n : ℕ) → n < i64_mod → wrap_int64 (negsuc n) ≡ negsuc n
unfolding wrap_int64 int64_of
wrap_int64_neg n lt = ground arith
