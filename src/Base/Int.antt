-- ===== src/Base/Int.antt =====
-- Signed integers over the native numbers, and the conversion from `int64_t` to `int`.
use Prim.Native.Nat.{ℕ, suc, ◌+◌, ◌-◌, ◌*◌, ◌%◌, ◌^◌, ◌≤◌, ◌<◌}
use mathlib.Core.Path.{◌≡◌}
use mathlib.Core.Bool.{Bool, true}
use native.Mathlib.Omega.{arith}
use pgquarry.Base.Tests.{ltb, leb, if◌then◌else◌}

-- `negsuc n` is -(n + 1).
pub data ℤ : Type 0 where
  pos : ℕ → ℤ
  negsuc : ℕ → ℤ

abbrev pub pos_part : ℤ → ℕ
pos_part (pos n) = n
pos_part (negsuc n) = 0

abbrev pub neg_part : ℤ → ℕ
neg_part (pos n) = 0
neg_part (negsuc n) = suc n

infix 50 ◌≤ℤ◌ ◌<ℤ◌
abbrev pub ◌≤ℤ◌ : ℤ → ℤ → Type 0
a ≤ℤ b = pos_part a + neg_part b ≤ pos_part b + neg_part a

abbrev pub ◌<ℤ◌ : ℤ → ℤ → Type 0
a <ℤ b = pos_part a + neg_part b < pos_part b + neg_part a

abbrev pub leb_ℤ : ℤ → ℤ → Bool
leb_ℤ a b = leb (pos_part a + neg_part b) (pos_part b + neg_part a)

abbrev pub ltb_ℤ : ℤ → ℤ → Bool
ltb_ℤ a b = ltb (pos_part a + neg_part b) (pos_part b + neg_part a)

-- The low 32 bits in two's complement.
abbrev pub low_word : ℤ → ℕ
low_word (pos n) = n % 2 ^ 32
low_word (negsuc n) = 2 ^ 32 - 1 - n % 2 ^ 32

-- `static_cast<int>` of an `int64_t`.
unfoldable pub narrow : ℤ → ℤ
narrow z = let w = low_word z in if ltb w (2 ^ 31) then pos w else negsuc (2 ^ 32 - 1 - w)

-- What an `int` can hold.
abbrev pub IsInt : ℤ → Type 0
IsInt (pos n) = n < 2 ^ 31
IsInt (negsuc n) = n < 2 ^ 31

pub narrow-IsInt : (z : ℤ) → IsInt (narrow z)
unfolding narrow
narrow-IsInt (pos n) = ground arith
narrow-IsInt (negsuc n) = ground arith

pub narrow_of_IsInt : (z : ℤ) → IsInt z → narrow z ≡ z
unfolding narrow
narrow_of_IsInt (pos n) h = ground arith
narrow_of_IsInt (negsuc n) h = ground arith

-- Beyond `int` the value wraps round.
pub narrow_wraps : (n k : ℕ) → n < 2 ^ 31 → narrow (pos (n + k * 2 ^ 32)) ≡ pos n
unfolding narrow
narrow_wraps n k h = ground arith

-- The upper half of the 32-bit words stands for the negative numbers.
pub narrow_negative : (n : ℕ) → 2 ^ 31 ≤ n → n < 2 ^ 32 → pos_part (narrow (pos n)) ≡ 0
unfolding narrow
narrow_negative n h k = ground (arith, h, k)

-- The part of a cast number that is not negative is not above the number.
pub narrow_le : (n : ℕ) → pos_part (narrow (pos n)) ≤ n
unfolding narrow
narrow_le n = ground arith

-- Whether an `int` can hold it.
abbrev pub is_int : ℤ → Bool
is_int (pos n) = ltb n (2 ^ 31)
is_int (negsuc n) = ltb n (2 ^ 31)

pub is_int_of_IsInt : (z : ℤ) → IsInt z → is_int z ≡ true
is_int_of_IsInt (pos n) h = ground (arith, h)
is_int_of_IsInt (negsuc n) h = ground (arith, h)
