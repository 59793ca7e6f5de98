-- ===== src/Difftest/Step.antt =====
-- Catching up with a reference that ran ahead.
use nju_ics2020_pa.Base.{
  ℕ, zero, suc, ◌-◌, ◌≤◌, ◌≡◌, ◌≢◌, refl, true, false, List, [], ◌∷◌, ◌++◌, ltb, ◌==◌, Result, ok,
  stop, assertion, ◌>>=◌, arith, ap, ◌∙◌, length, Bool-cases, inl, inr,
}
use nju_ics2020_pa.Difftest.{Difftest, Ref, checkregs, catch_up, difftest_step}

-- An instruction of the emulator: its address, the next one, and the registers behind it.
pub record Step (C : Type 0) : Type 0 where
  pub this_pc : ℕ
  pub next_pc : ℕ
  pub regs : C

module _ {R C : Type 0} (lib : Ref R C) where
  -- Instructions, each with its difference test.
  pub run : List (Step C) → Difftest R C → Result (Difftest R C)
  run [] d = ok d
  run (i ∷ is) d =
      difftest_step lib i.this_pc i.next_pc (record d { cpu = i.regs }) >>= λ d'. run is d'

  -- Where the reference is.
  abbrev pub target : Difftest R C → ℕ
  target d = lib.pc_of (lib.getregs d.ref)

  abbrev pub Misses : ℕ → List (Step C) → Type 0
  Misses pc [] = Unit {0}
  Misses pc (i ∷ is) = (pc ≢ i.next_pc) × Misses pc is

  step-miss :
      (i : Step C) (is : List (Step C)) (n : ℕ) (d : Difftest R C)
      → d.skip_dut_nr_instr ≡ suc (suc n)
      → target d ≢ i.next_pc
      → run (i ∷ is) d ≡ run is (record d { cpu = i.regs; skip_dut_nr_instr = suc n })
  unfolding run difftest_step catch_up
  step-miss i is n d k miss =
      let behind_ : ltb 0 d.skip_dut_nr_instr ≡ true = ground arith in
      let apart : (target d == i.next_pc) ≡ false = ground arith in
      let left : (suc n == 0) ≡ false = ground arith in
      let less : d.skip_dut_nr_instr - 1 ≡ suc n = omega (arith, k) in
      simp (behind_, apart, less, left) refl

  step-lost :
      (i : Step C) (is : List (Step C)) (d : Difftest R C)
      → d.skip_dut_nr_instr ≡ 1
      → target d ≢ i.next_pc
      → run (i ∷ is) d ≡ stop assertion
  unfolding run difftest_step catch_up
  step-lost i is d k miss =
      let behind_ : ltb 0 d.skip_dut_nr_instr ≡ true = ground arith in
      let apart : (target d == i.next_pc) ≡ false = ground arith in
      let left : (d.skip_dut_nr_instr - 1 == 0) ≡ true = ground arith in
      simp (behind_, apart, left) refl

  -- The order of the comparison and the reset does not matter.
  reset-checkregs :
      (r : C) (pc : ℕ) (d : Difftest R C)
      → record (checkregs lib r pc d) { skip_dut_nr_instr = 0 }
        ≡ checkregs lib r pc (record d { skip_dut_nr_instr = 0 })
  unfolding checkregs
  reset-checkregs r pc d = elim (Bool-cases (lib.checkregs r pc d.cpu)) [
    | inl same ↦ rw same refl
    | inr other ↦ rw other refl
  ]

  step-hit :
      (i : Step C) (n : ℕ) (d : Difftest R C)
      → d.skip_dut_nr_instr ≡ suc n
      → target d ≡ i.next_pc
      → run (i ∷ []) d
        ≡ ok (
            checkregs lib
              (lib.getregs d.ref)
              i.next_pc
              (record d { cpu = i.regs; skip_dut_nr_instr = 0 }))
  unfolding run difftest_step catch_up
  step-hit i n d k hit =
      let behind_ : ltb 0 d.skip_dut_nr_instr ≡ true = ground arith in
      let met : (target d == i.next_pc) ≡ true = ground arith in
      simp (behind_, met)
        (ap (λ (x : Difftest R C). ok x)
          (reset-checkregs (lib.getregs d.ref) i.next_pc (record d { cpu = i.regs })))

  -- While the emulator has instructions left to catch up with, and none of them leads to where the
  -- reference is, the test only counts. At the first one that leads there the registers are compared,
  -- and the count is reset.
  pub run-caught_up :
      (is : List (Step C)) (i : Step C) (n : ℕ) (d : Difftest R C)
      → d.skip_dut_nr_instr ≡ suc n
      → length is ≤ n
      → Misses (target d) is
      → target d ≡ i.next_pc
      → run (is ++ i ∷ []) d
        ≡ ok (
            checkregs lib
              (lib.getregs d.ref)
              i.next_pc
              (record d { cpu = i.regs; skip_dut_nr_instr = 0 }))
  run-caught_up [] i n d k room miss hit = step-hit i n d k hit
  run-caught_up (j ∷ is) i zero d k room miss hit = absurd (omega arith)
  run-caught_up (j ∷ is) i (suc n) d k room miss hit =
      step-miss j (is ++ i ∷ []) n d k miss.0
      ∙ run-caught_up is i n (record d { cpu = j.regs; skip_dut_nr_instr = suc n }) refl
          (omega arith) miss.1 hit

  abbrev pub last_regs : List (Step C) → C → C
  last_regs [] c = c
  last_regs (i ∷ is) c = last_regs is i.regs

  -- As long as instructions are left to catch up with, the test does no more than count.
  run-counts :
      (is : List (Step C)) (n : ℕ) (d : Difftest R C)
      → d.skip_dut_nr_instr ≡ suc n
      → length is ≤ n
      → Misses (target d) is
      → run is d ≡ ok (record d { cpu = last_regs is d.cpu; skip_dut_nr_instr = suc n - length is })
  unfolding run
  run-counts [] n d k room miss =
      ap (λ x. ok (record d { skip_dut_nr_instr = x })) (k ∙ omega arith)
  run-counts (i ∷ is) zero d k room miss = absurd (omega arith)
  run-counts (i ∷ is) (suc n) d k room miss =
      step-miss i is n d k miss.0
      ∙ run-counts is n (record d { cpu = i.regs; skip_dut_nr_instr = suc n }) refl (omega arith)
          miss.1
      ∙ ap (λ x. ok (record d { cpu = last_regs is i.regs; skip_dut_nr_instr = x })) (omega arith)

  lost :
      (is : List (Step C)) (i : Step C) (n : ℕ) (d : Difftest R C)
      → d.skip_dut_nr_instr ≡ suc n
      → length is ≡ n
      → Misses (target d) is
      → target d ≢ i.next_pc
      → run (is ++ i ∷ []) d ≡ stop assertion
  lost [] i zero d k all miss far = step-lost i [] d k far
  lost [] i (suc n) d k all miss far = absurd (omega arith)
  lost (j ∷ is) i zero d k all miss far = absurd (omega arith)
  lost (j ∷ is) i (suc n) d k all miss far =
      step-miss j (is ++ i ∷ []) n d k miss.0
      ∙ lost is i n (record d { cpu = j.regs; skip_dut_nr_instr = suc n }) refl (omega arith) miss.1
          far

  -- While the emulator has instructions left to catch up with, and none of them leads to where the
  -- reference is, the test does no more than count, up to the last but one: it compares nothing, stops
  -- nothing, and leaves the reference alone, and one instruction is left. If the last one does not lead
  -- there either, it panics.
  pub run-lost :
      (is : List (Step C)) (i : Step C) (n : ℕ) (d : Difftest R C)
      → d.skip_dut_nr_instr ≡ suc n
      → length is ≡ n
      → Misses (target d) is
      → target d ≢ i.next_pc
      → (run is d ≡ ok (record d { cpu = last_regs is d.cpu; skip_dut_nr_instr = 1 }))
        × (run (is ++ i ∷ []) d ≡ stop assertion)
  run-lost is i n d k all miss far = (
    run-counts is n d k (omega arith) miss
        ∙ ap (λ x. ok (record d { cpu = last_regs is d.cpu; skip_dut_nr_instr = x })) (omega arith),
    lost is i n d k all miss far,
  )
