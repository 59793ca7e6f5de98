-- ===== src/Base/Bits.antt =====
-- Masks of low ones, for every width.
use Prim.Native.Nat.{
  ℕ, zero, suc, ◌+◌, ◌-◌, ◌*◌, ◌/◌, ◌%◌, ◌^◌, ◌≤◌, min, bit_and, digits, bit_and-bitwise,
}
use mathlib.Core.Path.{◌≡◌, refl, ap}
use native.Mathlib.Nat.{pow-suc, one-le-pow, mul_comm, div-add-mod, div-div-eq-div-mul}
use native.Mathlib.Omega.{arith}

-- More fuel than the number has digits changes nothing.
and_fuel : (n m a b : ℕ) → a ≤ n → a ≤ m → digits (λ _. 0) min n a b ≡ digits (λ _. 0) min m a b
and_fuel zero zero a b p q = refl
and_fuel zero (suc m) zero b p q = refl
and_fuel (suc n) zero zero b p q = refl
and_fuel zero (suc m) (suc a) b p q = absurd (omega arith)
and_fuel (suc n) zero (suc a) b p q = absurd (omega arith)
and_fuel (suc n) (suc m) zero b p q = refl
and_fuel (suc n) (suc m) (suc a) b p q =
    omega (arith, and_fuel n m (suc a / 2) (b / 2) (omega arith) (omega arith))

bit_and_digit : (a b : ℕ) → bit_and a b ≡ bit_and (a / 2) (b / 2) * 2 + min (a % 2) (b % 2)
bit_and_digit zero b = omega (arith, bit_and-bitwise 0 b, bit_and-bitwise 0 (b / 2))
bit_and_digit (suc a) b = omega (
  arith,
  bit_and-bitwise (suc a) b,
  bit_and-bitwise (suc a / 2) (b / 2),
  and_fuel a (suc a / 2) (suc a / 2) (b / 2) (omega arith) (omega arith),
)

bit_and_none : (n a : ℕ) → a ≤ n → bit_and a 0 ≡ 0
bit_and_none n zero h = refl
bit_and_none zero (suc a) h = absurd (omega arith)
bit_and_none (suc n) (suc a) h =
    omega (arith, bit_and_digit (suc a) 0, bit_and_none n (suc a / 2) (omega arith))

low_digit : (k a : ℕ) → a % (2 * k) ≡ a / 2 % k * 2 + a % 2
low_digit k a = omega (
  arith,
  div-add-mod a (2 * k),
  div-add-mod (a / 2) k,
  ap (λ (q : ℕ). k * q) (div-div-eq-div-mul a 2 k),
)

low_step : (k a : ℕ) → a % 2 ^ suc k ≡ a / 2 % 2 ^ k * 2 + a % 2
low_step k a = rw (pow-suc, mul_comm (2 ^ k) 2) (low_digit (2 ^ k) a)

-- `a & (2 ^ k - 1)` is the remainder.
pub bit_and_low : (k a : ℕ) → bit_and a (2 ^ k - 1) ≡ a % 2 ^ k
bit_and_low zero a = omega (arith, bit_and_none a a (omega arith))
bit_and_low (suc k) a = ground (
  arith,
  bit_and_digit a (2 ^ suc k - 1),
  pow-suc 2 k,
  one-le-pow k 2,
  bit_and_low k (a / 2),
  low_step k a,
)
