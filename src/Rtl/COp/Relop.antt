-- ===== src/Rtl/COp/Relop.antt =====
-- The bits of a relation's code mean what nemu/include/rtl/rtl.h says.
use nju_ics2020_pa.Base.{
  ℕ, ◌+◌, ◌*◌, ◌<◌, ◌≡◌, refl, Bool, true, false, not, ◌||◌, ◌&&◌, ltb, ◌==◌, ok, arith,
}
use nju_ics2020_pa.Base.Int.{ltb_ℤ}
use nju_ics2020_pa.Rtl.COp.{interpret_relop, sword, word_range}

-- The order that the upper two bits choose.
pub data Order : Type 0 where
  none_ signed_ unsigned_ : Order

abbrev pub order_bits : Order → ℕ
order_bits none_ = 0
order_bits signed_ = 4
order_bits unsigned_ = 8

abbrev pub bit : Bool → ℕ
bit true = 1
bit false = 0

abbrev pub less : Order → ℕ → ℕ → Bool
less none_ a b = false
less signed_ a b = ltb_ℤ (sword a) (sword b)
less unsigned_ a b = ltb a b

abbrev pub flip : Bool → Bool → Bool
flip true b = not b
flip false b = b

-- The code of an order with the bits for equality and inversion: the relation is the order, or
-- equality where its bit is set, inverted where that bit is set.
pub interpret_relop-bits :
    (o : Order) (equal invert : Bool) (a b : ℕ)
    → a < word_range
    → b < word_range
    → interpret_relop (order_bits o + 2 * bit equal + bit invert) a b
      ≡ ok (flip invert (less o a b || (equal && a == b)))
unfolding interpret_relop
interpret_relop-bits none_ true true a b ha hb = ground arith
interpret_relop-bits none_ true false a b ha hb = ground arith
interpret_relop-bits none_ false true a b ha hb = refl
interpret_relop-bits none_ false false a b ha hb = refl
interpret_relop-bits signed_ true true a b ha hb = ground arith
interpret_relop-bits signed_ true false a b ha hb = ground arith
interpret_relop-bits signed_ false true a b ha hb = ground arith
interpret_relop-bits signed_ false false a b ha hb = ground arith
interpret_relop-bits unsigned_ true true a b ha hb = ground arith
interpret_relop-bits unsigned_ true false a b ha hb = ground arith
interpret_relop-bits unsigned_ false true a b ha hb = ground arith
interpret_relop-bits unsigned_ false false a b ha hb = ground arith
