-- ===== src/Base/Int.antt =====
-- Signed integers over the native numbers, and `int32_t` as a bit pattern.
use Prim.Native.Nat.{ℕ, zero, suc, ◌+◌, ◌-◌, ◌*◌, ◌/◌, ◌%◌, ◌≤◌}
use mathlib.Core.Bool.{Bool}
use nju_ics2020_pa.Base.Tests.{ltb, leb, if◌then◌else◌}

-- `negsuc n` is -(n + 1).
pub data ℤ : Type 0 where
  pos : ℕ → ℤ
  negsuc : ℕ → ℤ

abbrev pub pos_part : ℤ → ℕ
pos_part (pos n) = n
pos_part (negsuc n) = 0

abbrev pub neg_part : ℤ → ℕ
neg_part (pos n) = 0
neg_part (negsuc n) = suc n

-- a - b, as an integer.
abbrev pub sub_ℕ : ℕ → ℕ → ℤ
sub_ℕ a b = if leb b a then pos (a - b) else negsuc (b - a - 1)

infix 50 ◌≤ℤ◌
abbrev pub ◌≤ℤ◌ : ℤ → ℤ → Type 0
a ≤ℤ b = pos_part a + neg_part b ≤ pos_part b + neg_part a

abbrev pub ltb_ℤ : ℤ → ℤ → Bool
ltb_ℤ a b = ltb (pos_part a + neg_part b) (pos_part b + neg_part a)

abbrev pub leb_ℤ : ℤ → ℤ → Bool
leb_ℤ a b = leb (pos_part a + neg_part b) (pos_part b + neg_part a)

infixl 70 ◌*ℤ◌
unfoldable pub ◌*ℤ◌ : ℤ → ℤ → ℤ
a *ℤ b =
    sub_ℕ (pos_part a * pos_part b + neg_part a * neg_part b)
      (pos_part a * neg_part b + neg_part a * pos_part b)

-- The integer that a `w`-bit pattern stands for, with half = 2 ^ (w - 1).
abbrev pub signed : ℕ → ℕ → ℤ
signed half a = if ltb a half then pos a else negsuc (2 * half - a - 1)

-- A conversion to an unsigned type of `range` values.
abbrev pub wrap : ℕ → ℤ → ℕ
wrap range (pos n) = n % range
wrap range (negsuc n) = range - 1 - n % range

-- Arithmetic shift right: division by `d`, rounded down.
abbrev pub floor_div : ℤ → ℕ → ℤ
floor_div (pos n) d = pos (n / d)
floor_div (negsuc n) d = negsuc (n / d)

abbrev pub negate : ℕ → ℤ
negate zero = pos 0
negate (suc n) = negsuc n

-- C's `/` and `%` on signed numbers: the quotient is rounded to zero, the remainder has the sign of
-- the dividend. The divisor is not zero.
abbrev pub tdiv : ℤ → ℤ → ℤ
tdiv (pos a) (pos b) = pos (a / b)
tdiv (pos a) (negsuc b) = negate (a / suc b)
tdiv (negsuc a) (pos b) = negate (suc a / b)
tdiv (negsuc a) (negsuc b) = pos (suc a / suc b)

abbrev pub tmod : ℤ → ℤ → ℤ
tmod (pos a) (pos b) = pos (a % b)
tmod (pos a) (negsuc b) = pos (a % suc b)
tmod (negsuc a) (pos b) = negate (suc a % b)
tmod (negsuc a) (negsuc b) = negate (suc a % suc b)

-- Whether the integer is in the range of the signed type with this half.
abbrev pub fits : ℕ → ℤ → Bool
fits half (pos n) = ltb n half
fits half (negsuc n) = ltb n half
