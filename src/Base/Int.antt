-- ===== src/Base/Int.antt =====
-- C's signed integers as integers over the native numbers, and their two's complement words.
use Prim.Native.Nat.{ℕ, suc, ◌+◌, ◌-◌, ◌%◌, ◌^◌, ◌≤◌, ◌<◌}
use mathlib.Core.Path.{◌≡◌}
use mathlib.Core.Bool.{Bool, true, false}
use native.Mathlib.Omega.{arith}
use sleepy_penguin.Base.Tests.{ltb, leb, if◌then◌else◌}

-- `negsuc n` is -(n + 1).
pub data ℤ : Type 0 where
  pos : ℕ → ℤ
  negsuc : ℕ → ℤ

abbrev pub pos_part : ℤ → ℕ
pos_part (pos n) = n
pos_part (negsuc n) = 0

abbrev pub neg_part : ℤ → ℕ
neg_part (pos n) = 0
neg_part (negsuc n) = suc n

-- a - b, as an integer.
abbrev pub sub_ℕ : ℕ → ℕ → ℤ
sub_ℕ a b = if leb b a then pos (a - b) else negsuc (b - a - 1)

infixl 65 ◌+ℤ◌ ◌-ℤ◌
infix 50 ◌≤ℤ◌ ◌<ℤ◌
abbrev pub ◌+ℤ◌ : ℤ → ℤ → ℤ
a +ℤ b = sub_ℕ (pos_part a + pos_part b) (neg_part a + neg_part b)

abbrev pub ◌-ℤ◌ : ℤ → ℤ → ℤ
a -ℤ b = sub_ℕ (pos_part a + neg_part b) (neg_part a + pos_part b)

abbrev pub ◌≤ℤ◌ : ℤ → ℤ → Type 0
a ≤ℤ b = pos_part a + neg_part b ≤ pos_part b + neg_part a

abbrev pub ◌<ℤ◌ : ℤ → ℤ → Type 0
a <ℤ b = pos_part a + neg_part b < pos_part b + neg_part a

abbrev pub ltb_ℤ : ℤ → ℤ → Bool
ltb_ℤ a b = ltb (pos_part a + neg_part b) (pos_part b + neg_part a)

-- `x < 0`, `x <= 0`, `x > 0`.
abbrev pub is_negative : ℤ → Bool
is_negative (pos n) = false
is_negative (negsuc n) = true

abbrev pub is_positive : ℤ → Bool
is_positive (pos n) = ltb 0 n
is_positive (negsuc n) = false

-- The range of `int`.
abbrev pub IsInt : ℤ → Type 0
IsInt a = (pos_part a < 2 ^ 31) × (neg_part a ≤ 2 ^ 31)

-- `(uint64_t)x` of an `int`, and `(int)w` of a `uint64_t`.
unfoldable pub u64_of_int : ℤ → ℕ
u64_of_int (pos n) = n % 2 ^ 64
u64_of_int (negsuc n) = 2 ^ 64 - 1 - n % 2 ^ 64

unfoldable pub int_of_u64 : ℕ → ℤ
int_of_u64 w =
    if ltb (w % 2 ^ 32) (2 ^ 31) then pos (w % 2 ^ 32) else negsuc (2 ^ 32 - 1 - w % 2 ^ 32)

-- An `int` survives the trip through a `uint64_t`.
pub int_of_u64-u64_of_int : (a : ℤ) → IsInt a → int_of_u64 (u64_of_int a) ≡ a
unfolding int_of_u64 u64_of_int
int_of_u64-u64_of_int (pos n) h = ground arith
int_of_u64-u64_of_int (negsuc n) h = ground arith

abbrev pub is_zero : ℤ → Bool
is_zero (pos n) = leb n 0
is_zero (negsuc n) = false
