-- ===== src/Difftest.antt =====
-- nemu/src/monitor/difftest/dut.c: the difference test against a reference. `R` is the state of the
-- reference and `C` the registers. What the shared object provides is an argument,
-- and the numbers of instructions are not negative.
pub mod Step
mod Tests
use nju_ics2020_pa.Base.{
  ℕ, zero, suc, ◌+◌, ◌-◌, Bool, true, false, ltb, ◌==◌, if◌then◌else◌, Result, ok, stop, assertion,
}
use nju_ics2020_pa.Rtl.Machine.{NemuState, nemu_abort}

-- `is_skip_ref` and `skip_dut_nr_instr`, the reference, and the emulator's registers and state.
pub record Difftest (R C : Type 0) : Type 0 where
  pub is_skip_ref : Bool
  pub skip_dut_nr_instr : ℕ
  pub ref : R
  pub cpu : C
  pub nemu_state : NemuState

-- `ref_difftest_exec(1)`, `ref_difftest_getregs`, `ref_difftest_setregs`, the member `pc`, and
-- `isa_difftest_checkregs`.
pub record Ref (R C : Type 0) : Type 0 where
  pub exec : R → R
  pub getregs : R → C
  pub setregs : C → R → R
  pub pc_of : C → ℕ
  pub checkregs : C → ℕ → C → Bool

module _ {R C : Type 0} where
  pub difftest_skip_ref : Difftest R C → Difftest R C
  difftest_skip_ref d = record d { is_skip_ref = true; skip_dut_nr_instr = 0 }

  module _ (lib : Ref R C) where
    exec_loop : ℕ → R → R
    exec_loop zero r = r
    exec_loop (suc n) r = exec_loop n (lib.exec r)

    pub difftest_skip_dut : ℕ → ℕ → Difftest R C → Difftest R C
    difftest_skip_dut nr_ref nr_dut d = record d {
      skip_dut_nr_instr = d.skip_dut_nr_instr + nr_dut;
      ref = exec_loop nr_ref d.ref;
    }

    -- `checkregs` keeps `halt_ret`.
    pub checkregs : C → ℕ → Difftest R C → Difftest R C
    checkregs ref_r pc d =
        if lib.checkregs ref_r pc d.cpu
        then d
        else record d { nemu_state = record d.nemu_state { state = nemu_abort; halt_pc = pc } }

    -- The case that the emulator catches up with the reference.
    pub catch_up : ℕ → ℕ → Difftest R C → Result (Difftest R C)
    catch_up this_pc next_pc d =
        let ref_r = lib.getregs d.ref in
        if lib.pc_of ref_r == next_pc
        then ok (record (checkregs ref_r next_pc d) { skip_dut_nr_instr = 0 })
        else if d.skip_dut_nr_instr - 1 == 0
        then stop assertion
        else ok (record d { skip_dut_nr_instr = d.skip_dut_nr_instr - 1 })

    pub difftest_step : ℕ → ℕ → Difftest R C → Result (Difftest R C)
    difftest_step this_pc next_pc d =
        if ltb 0 d.skip_dut_nr_instr
        then catch_up this_pc next_pc d
        else if d.is_skip_ref
        then ok (record d { ref = lib.setregs d.cpu d.ref; is_skip_ref = false })
        else (let r = lib.exec d.ref in
            ok (checkregs (lib.getregs r) this_pc (record d { ref = r })))
