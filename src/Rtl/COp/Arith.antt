-- ===== src/Rtl/COp/Arith.antt =====
-- Laws of the arithmetic.
use nju_ics2020_pa.Base.{
  ℕ, zero, suc, ◌+◌, ◌-◌, ◌*◌, ◌/◌, ◌%◌, ◌^◌, ◌<◌, ◌≤◌, ◌≡◌, refl, true, ltb, if◌then◌else◌, ok,
  stop, undefined, arith, ap, ◌∙◌, Bool-cases, inl, inr, ltb→lt, lt→ltb,
}
use native.Mathlib.Nat.{mod-lt, div-add-mod}
use nju_ics2020_pa.Base.Int.{ℤ, pos, negsuc, neg_part, ◌*ℤ◌, sub_ℕ, fits}
use nju_ics2020_pa.Rtl.COp.{
  sword, of_sword, word_range, word_half, c_add, c_sub, c_mul_lo, c_mul_hi, c_imul_lo, c_div_q,
  c_div_r, c_shl,
}
use nju_ics2020_pa.Base.Bits.{bit_and_low}

-- `*` and the upper half together are the whole product.
c_mul_whole : (a b : ℕ) → c_mul_hi a b * word_range + c_mul_lo a b ≡ a * b
unfolding c_mul_hi c_mul_lo
c_mul_whole a b = omega arith

sword-of_sword : (z : ℤ) → fits word_half z ≡ true → sword (of_sword z) ≡ z
sword-of_sword z h = ground arith

-- An integer wraps to any number that differs from it by a multiple of the range.
wrap-sub_ℕ : (p q m t : ℕ) → m + q ≡ p + word_range * t → of_sword (sub_ℕ p q) ≡ m % word_range
wrap-sub_ℕ p q m t h = ground arith

-- The part of a word's integer below zero, and how far the word is above the integer.
neg_of : (a : ℕ) → a < word_range → word_half ≤ a → a + neg_part (sword a) ≡ word_range
neg_of a ha h = ground arith

small_sword : (a : ℕ) → a < word_half → sword a ≡ pos a
small_sword a h = ground arith

big_sword : (a : ℕ) → word_half ≤ a → sword a ≡ negsuc (2 * word_half - a - 1)
big_sword a h = ground arith

-- A number and its distance from the range, times another number.
mul_distance : (a b c r : ℕ) → a + c ≡ r → a * b + c * b ≡ r * b
mul_distance a b c r h = omega (arith, ap (λ (x : ℕ). x * b) h)

mul_distances : (a b c d r t : ℕ) → a + c ≡ r → b + d ≡ r → t + r ≡ a + b → a * b ≡ c * d + r * t
mul_distances a b c d r t h k e = omega (
  arith,
  ap (λ (x : ℕ). a * x) k,
  ap (λ (x : ℕ). x * d) h,
  ap (λ (x : ℕ). r * x) e,
  ap (λ (x : ℕ). r * x) k,
)

-- Signed and unsigned products have the same low word.
pub product_low :
    (a b : ℕ) → a < word_range → b < word_range → of_sword (sword a *ℤ sword b) ≡ a * b % word_range
unfolding ◌*ℤ◌
product_low a b ha hb = elim (Bool-cases (ltb a word_half)) [
  | inl pa ↦ elim (Bool-cases (ltb b word_half)) [
    | inl pb ↦
        rw (small_sword a (ltb→lt _ _ pa), small_sword b (ltb→lt _ _ pb))
          (wrap-sub_ℕ _ _ (a * b) 0 (omega arith))
    | inr nb ↦
        rw (small_sword a (ltb→lt _ _ pa), big_sword b (ground arith))
          (wrap-sub_ℕ _ _ (a * b) a (
            omega
              (arith, mul_distance b a (suc (2 * word_half - b - 1)) word_range (ground arith))))
  ]
  | inr na ↦ elim (Bool-cases (ltb b word_half)) [
    | inl pb ↦
        rw (big_sword a (ground arith), small_sword b (ltb→lt _ _ pb))
          (wrap-sub_ℕ _ _ (a * b) b (
            omega
              (arith, mul_distance a b (suc (2 * word_half - a - 1)) word_range (ground arith))))
    | inr nb ↦
        rw (big_sword a (ground arith), big_sword b (ground arith))
          (wrap-sub_ℕ _ _ (a * b) (a + b - word_range) (
            omega (
              arith,
              mul_distances a b (suc (2 * word_half - a - 1)) (suc (2 * word_half - b - 1))
                  word_range (a + b - word_range) (ground arith) (ground arith) (ground arith),
            )))
  ]
]

-- Where the signed product of two words is itself a signed word, `c_imul_lo` gives the low word of the
-- unsigned product; everywhere else it is undefined.
pub c_imul_lo_lem :
    (a b : ℕ)
    → a < word_range
    → b < word_range
    → c_imul_lo a b
      ≡ (if fits word_half (sword a *ℤ sword b) then ok (c_mul_lo a b) else stop undefined)
unfolding c_imul_lo c_mul_lo
c_imul_lo_lem a b ha hb = rw (product_low a b ha hb) (ground arith)

-- What the division by a number does.
abbrev pub IsDivision : ℕ → ℕ → Type 0
IsDivision a zero = (c_div_q a zero ≡ stop undefined) × (c_div_r a zero ≡ stop undefined)
IsDivision a (suc d) =
    (q r : ℕ) × (c_div_q a (suc d) ≡ ok q)
    × (c_div_r a (suc d) ≡ ok r)
    × (r < suc d)
    × (q * suc d + r ≡ a)

-- For a divisor other than zero the unsigned quotient and remainder exist, the remainder is below the
-- divisor, and they give the dividend; for zero both are undefined.
pub c_div_lem : (a b : ℕ) → IsDivision a b
unfolding c_div_q c_div_r
c_div_lem a zero = (refl, refl)
c_div_lem a (suc d) = (
  a / suc d,
  a % suc d,
  ground arith,
  ground arith,
  omega (arith, mod-lt a {m = suc d} (omega arith)),
  omega (arith, div-add-mod a (suc d)),
)

-- Subtraction undoes addition.
pub c_sub-c_add : (a b : ℕ) → a < word_range → b < word_range → c_sub (c_add a b) b ≡ a
unfolding c_sub c_add
c_sub-c_add a b ha hb = omega arith

pub c_shl-small : (a b : ℕ) → b < 32 → c_shl a b ≡ a * 2 ^ b % word_range
unfolding c_shl
c_shl-small a b h = ap (λ (k : ℕ). a * 2 ^ k % word_range) (bit_and_low 5 b ∙ omega arith)

pos_product : (a b : ℕ) → pos a *ℤ pos b ≡ pos (a * b)
unfolding ◌*ℤ◌
pos_product a b = ground arith

byte_product : (a b : ℕ) → a < 256 → b < 256 → a * b < word_half
byte_product a b ha hb = grind arith

-- Of two bytes the signed product is the unsigned one.
pub c_imul_lo-byte : (a b : ℕ) → a < 256 → b < 256 → c_imul_lo a b ≡ ok (c_mul_lo a b)
c_imul_lo-byte a b ha hb =
    let small : ltb (a * b) word_half ≡ true = lt→ltb (a * b) word_half (byte_product a b ha hb) in
    c_imul_lo_lem a b (omega arith) (omega arith)
    ∙ rw (small_sword a (omega arith), small_sword b (omega arith), pos_product a b, small) refl
