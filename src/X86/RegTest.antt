-- ===== src/X86/RegTest.antt =====
-- reg_test of nemu/src/isa/x86/reg.c. The numbers that `rand` gives are arguments.
pub mod Passes
use nju_ics2020_pa.Base.{
  ℕ, zero, suc, ◌+◌, ◌/◌, ◌^◌, Bool, ◌==◌, update, bit_and, Result, ok, ◌>>=◌, ◌>>◌, assert,
}
use nju_ics2020_pa.Rtl.Machine.{Machine}
use nju_ics2020_pa.X86.Reg.{reg_w, reg_b}

module _ (sample : ℕ → ℕ) where
  -- The rounds from `i` on, with `n` of them left.
  pub sample_loop : ℕ → ℕ → (ℕ → ℕ) → Result (ℕ → ℕ)
  sample_loop zero i g = ok g
  sample_loop (suc n) i g = do
    let g' = update g i (sample i)
    w ← reg_w i g'
    assert (w == bit_and (sample i) 0xffff)
    sample_loop n (i + 1) g'

  -- `reg_b(r)` against the byte of the sample of register `i` from bit `shift` on.
  pub check_byte : ℕ → ℕ → ℕ → (ℕ → ℕ) → Result (Unit {0})
  check_byte r i shift g = do b ← reg_b r g; assert (b == bit_and (sample i / 2 ^ shift) 0xff)

  pub reg_test : {D : Type 0} → ℕ → Machine D → Result (Machine D)
  reg_test pc_sample m = do
    let m₁ = record m { pc = pc_sample }
    g ← sample_loop 8 0 m₁.gpr
    let m₂ = record m₁ { gpr = g }
    check_byte 0 0 0 g
    check_byte 4 0 8 g
    check_byte 3 3 0 g
    check_byte 7 3 8 g
    check_byte 1 1 0 g
    check_byte 5 1 8 g
    check_byte 2 2 0 g
    check_byte 6 2 8 g
    assert (sample 0 == g 0)
    assert (sample 1 == g 1)
    assert (sample 2 == g 2)
    assert (sample 3 == g 3)
    assert (sample 4 == g 4)
    assert (sample 5 == g 5)
    assert (sample 6 == g 6)
    assert (sample 7 == g 7)
    assert (pc_sample == m₂.pc)
    ok m₂
