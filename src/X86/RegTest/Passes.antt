-- ===== src/X86/RegTest/Passes.antt =====
-- The test of the registers passes.
use nju_ics2020_pa.Base.{
  ℕ, suc, ◌+◌, ◌/◌, ◌%◌, ◌^◌, ◌<◌, ◌≡◌, refl, ap, ◌∙◌, sym, lt→ltb, ==_refl, update, bit_and, ok,
  arith,
}
use nju_ics2020_pa.Base.Bits.{bit_and_low}
use nju_ics2020_pa.Rtl.Machine.{Machine}
use nju_ics2020_pa.X86.Reg.{reg_w, reg_b, byte_of}
use nju_ics2020_pa.X86.RegTest.{sample_loop, check_byte, reg_test}

module _ (sample : ℕ → ℕ) where
  sample_round :
      (n i : ℕ) (g : ℕ → ℕ)
      → i < 8
      → sample_loop sample (suc n) i g ≡ sample_loop sample n (i + 1) (update g i (sample i))
  unfolding sample_loop reg_w
  sample_round n i g h = rw (lt→ltb i 8 h, bit_and_low 16 (sample i)) (ground arith)

  abbrev sampled : (ℕ → ℕ) → ℕ → ℕ
  sampled g =
      update
        (update
          (update
            (update
              (update (update (update (update g 0 (sample 0)) 1 (sample 1)) 2 (sample 2)) 3
                (sample 3))
              4 (sample 4))
            5 (sample 5))
          6 (sample 6))
        7 (sample 7)

  loop-ok : (g : ℕ → ℕ) → sample_loop sample 8 0 g ≡ ok (sampled g)
  unfolding sample_loop
  loop-ok g =
      sample_round 7 0 g (omega arith)
      ∙ sample_round 6 1 _ (omega arith)
      ∙ sample_round 5 2 _ (omega arith)
      ∙ sample_round 4 3 _ (omega arith)
      ∙ sample_round 3 4 _ (omega arith)
      ∙ sample_round 2 5 _ (omega arith)
      ∙ sample_round 1 6 _ (omega arith)
      ∙ sample_round 0 7 _ (omega arith)

  byte_check :
      (r k j shift : ℕ) (g : ℕ → ℕ)
      → r < 8
      → r / 4 ≡ k
      → r % 4 ≡ j
      → byte_of k (g j) ≡ bit_and (sample j / 2 ^ shift) 0xff
      → check_byte sample r j shift g ≡ ok tt
  unfolding check_byte reg_b
  byte_check r k j shift g h hk hj e =
      rw (lt→ltb r 8 h, hk, hj, e, ==_refl (bit_and (sample j / 2 ^ shift) 0xff))

  low : (r : ℕ) (g : ℕ → ℕ) → r < 4 → g r ≡ sample r → check_byte sample r r 0 g ≡ ok tt
  low r g h e =
      byte_check r 0 r 0 g (omega arith) (omega arith) (omega arith)
        (ap (byte_of 0) e ∙ sym (bit_and_low 8 (sample r / 2 ^ 0)))

  high : (r : ℕ) (g : ℕ → ℕ) → r < 4 → g r ≡ sample r → check_byte sample (r + 4) r 8 g ≡ ok tt
  high r g h e =
      byte_check (r + 4) 1 r 8 g (omega arith) (omega arith) (omega arith)
        (ap (byte_of 1) e ∙ sym (bit_and_low 8 (sample r / 2 ^ 8)))

  sampled-eq : (i : ℕ) (g : ℕ → ℕ) → i < 8 → sampled g i ≡ sample i
  sampled-eq i g h = ground arith

  -- Whatever numbers it writes, the test passes: none of its assertions fails, and the eight registers and
  -- the program counter hold the numbers.
  pub reg_test_lem :
      {D : Type 0} (pc_sample : ℕ) (m : Machine D)
      → (g : ℕ → ℕ) × (reg_test sample pc_sample m ≡ ok (record m { pc = pc_sample; gpr = g }))
        × ((i : ℕ) → i < 8 → g i ≡ sample i)
  unfolding reg_test
  reg_test_lem pc_sample m = (
    sampled m.gpr,
    rw
        (
          loop-ok m.gpr,
          low 0 (sampled m.gpr) (omega arith) refl,
          high 0 (sampled m.gpr) (omega arith) refl,
          low 3 (sampled m.gpr) (omega arith) refl,
          high 3 (sampled m.gpr) (omega arith) refl,
          low 1 (sampled m.gpr) (omega arith) refl,
          high 1 (sampled m.gpr) (omega arith) refl,
          low 2 (sampled m.gpr) (omega arith) refl,
          high 2 (sampled m.gpr) (omega arith) refl,
          ==_refl (sample 0),
          ==_refl (sample 1),
          ==_refl (sample 2),
          ==_refl (sample 3),
          ==_refl (sample 4),
          ==_refl (sample 5),
          ==_refl (sample 6),
          ==_refl (sample 7),
          ==_refl pc_sample,
        )
        refl,
    λ i h. sampled-eq i m.gpr h,
  )
