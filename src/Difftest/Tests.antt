-- ===== src/Difftest/Tests.antt =====
-- A reference that ran ahead.
use nju_ics2020_pa.Base.{ℕ, ◌+◌, ◌≡◌, refl, false, [], ◌∷◌, ok, stop, assertion, arith, ◌==◌}
use nju_ics2020_pa.Rtl.Machine.{nemu_running}
use nju_ics2020_pa.Difftest.{Difftest, Ref, checkregs}
use nju_ics2020_pa.Difftest.Step.{Step, run, run-caught_up, run-lost}

-- The state of the reference is its program counter, and so are the registers.
abbrev lib : Ref ℕ ℕ
lib = record {
  exec = λ r. r + 4;
  getregs = λ r. r;
  setregs = λ c r. c;
  pc_of = λ c. c;
  checkregs = λ c pc d. c == d;
}

-- The reference is at 108, and two instructions may pass.
abbrev ahead : Difftest ℕ ℕ
ahead = record {
  is_skip_ref = false;
  skip_dut_nr_instr = 2;
  ref = 108;
  cpu = 100;
  nemu_state = record { state = nemu_running; halt_pc = 0; halt_ret = 0 };
}

abbrev at : ℕ → Step ℕ
at pc = record { this_pc = pc; next_pc = pc + 4; regs = pc + 4 }

run-caught_up_example :
    run lib (at 100 ∷ at 104 ∷ []) ahead
    ≡ ok (checkregs lib 108 108 (record ahead { cpu = 108; skip_dut_nr_instr = 0 }))
run-caught_up_example =
    run-caught_up lib (at 100 ∷ []) (at 104) 1 ahead refl (omega arith)
      ((λ e. absurd (omega (arith, e))), tt) refl

run-lost_example :
    (run lib (at 200 ∷ []) ahead ≡ ok (record ahead { cpu = 204; skip_dut_nr_instr = 1 }))
    × (run lib (at 200 ∷ at 204 ∷ []) ahead ≡ stop assertion)
run-lost_example =
    run-lost lib (at 200 ∷ []) (at 204) 1 ahead refl refl ((λ e. absurd (omega (arith, e))), tt)
      (λ e. absurd (omega (arith, e)))
