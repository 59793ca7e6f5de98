-- ===== src/Rtl/COp.antt =====
-- nemu/src/engine/interpreter/c_op.h for a 32-bit guest: a word is a number below 2 ^ 32.
pub mod Relop
pub mod Arith
use nju_ics2020_pa.Base.{
  ℕ, zero, suc, ◌+◌, ◌-◌, ◌*◌, ◌/◌, ◌%◌, ◌^◌, Bool, true, false, not, ◌&&◌, ltb, leb, ◌==◌,
  if◌then◌else◌, Result, ok, stop, assertion, ◌>>=◌, ◌>>◌, defined, bit_and, bit_or, bit_xor,
}
use nju_ics2020_pa.Base.Int.{
  ℤ, pos, negsuc, signed, wrap, floor_div, tdiv, tmod, fits, ltb_ℤ, leb_ℤ, ◌*ℤ◌,
}

abbrev pub word_range : ℕ
word_range = 2 ^ 32

abbrev pub word_half : ℕ
word_half = 2 ^ 31

-- `(sword_t)a`
abbrev pub sword : ℕ → ℤ
sword = signed word_half

-- A `sword_t` as a word.
abbrev pub of_sword : ℤ → ℕ
of_sword = wrap word_range

abbrev pub c_shift_mask : ℕ
c_shift_mask = 0x1f

unfoldable pub c_add : ℕ → ℕ → ℕ
c_add a b = (a + b) % word_range

pub c_sub : ℕ → ℕ → ℕ
c_sub a b = (a + word_range - b) % word_range

pub c_and : ℕ → ℕ → ℕ
c_and a b = bit_and a b

pub c_or : ℕ → ℕ → ℕ
c_or a b = bit_or a b

pub c_xor : ℕ → ℕ → ℕ
c_xor a b = bit_xor a b

pub c_shl : ℕ → ℕ → ℕ
c_shl a b = a * 2 ^ bit_and b c_shift_mask % word_range

pub c_shr : ℕ → ℕ → ℕ
c_shr a b = a / 2 ^ bit_and b c_shift_mask

pub c_sar : ℕ → ℕ → ℕ
c_sar a b = of_sword (floor_div (sword a) (2 ^ bit_and b c_shift_mask))

unfoldable pub c_mul_lo : ℕ → ℕ → ℕ
c_mul_lo a b = a * b % word_range

-- The product of two `sword_t` is undefined where it is no `sword_t`.
pub c_imul_lo : ℕ → ℕ → Result ℕ
c_imul_lo a b = defined (fits word_half (sword a *ℤ sword b)) >> ok (of_sword (sword a *ℤ sword b))

unfoldable pub c_mul_hi : ℕ → ℕ → ℕ
c_mul_hi a b = a * b / word_range

pub c_imul_hi : ℕ → ℕ → ℕ
c_imul_hi a b = of_sword (floor_div (sword a *ℤ sword b) word_range)

-- Division by zero is undefined, and so is a signed quotient out of range.
pub c_div_q : ℕ → ℕ → Result ℕ
c_div_q a b = defined (not (b == 0)) >> ok (a / b)

pub c_div_r : ℕ → ℕ → Result ℕ
c_div_r a b = defined (not (b == 0)) >> ok (a % b)

pub c_idiv_q : ℕ → ℕ → Result ℕ
c_idiv_q a b =
    defined (not (b == 0) && fits word_half (tdiv (sword a) (sword b)))
    >> ok (of_sword (tdiv (sword a) (sword b)))

pub c_idiv_r : ℕ → ℕ → Result ℕ
c_idiv_r a b =
    defined (not (b == 0) && fits word_half (tdiv (sword a) (sword b)))
    >> ok (of_sword (tmod (sword a) (sword b)))

-- The codes of nemu/include/rtl/rtl.h: 1 inverts, 2 adds equality, 4 is signed and 8 unsigned order.
abbrev pub relop_ne : ℕ
relop_ne = 3

pub interpret_relop : ℕ → ℕ → ℕ → Result Bool
interpret_relop relop src1 src2 =
    if relop == 0
    then ok false
    else if relop == 1
    then ok true
    else if relop == 2
    then ok (src1 == src2)
    else if relop == relop_ne
    then ok (not (src1 == src2))
    else if relop == 4
    then ok (ltb_ℤ (sword src1) (sword src2))
    else if relop == 6
    then ok (leb_ℤ (sword src1) (sword src2))
    else if relop == 7
    then ok (ltb_ℤ (sword src2) (sword src1))
    else if relop == 5
    then ok (leb_ℤ (sword src2) (sword src1))
    else if relop == 8
    then ok (ltb src1 src2)
    else if relop == 10
    then ok (leb src1 src2)
    else if relop == 11
    then ok (ltb src2 src1)
    else if relop == 9
    then ok (leb src2 src1)
    else stop assertion
