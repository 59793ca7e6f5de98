-- ===== src/Monitor.antt =====
-- nemu/src/monitor/cpu-exec.c: the main loop. Printing, the log and the measured time are left out.
pub mod Rounds
pub mod Stops
mod Tests
use nju_ics2020_pa.Base.{
  ℕ, zero, suc, ◌+◌, ◌%◌, ◌^◌, Bool, true, false, not, ◌&&◌, ◌||◌, ◌==◌, if◌then◌else◌, Result, ok,
  ◌>>=◌,
}
use nju_ics2020_pa.Rtl.Machine.{
  NemuState, Phase, nemu_stop, nemu_running, nemu_end, nemu_abort, nemu_quit,
}

-- `nemu_state`, `g_nr_guest_instr`, and the rest of the emulator.
pub record Emulator (S : Type 0) : Type 0 where
  pub nemu_state : NemuState
  pub nr_guest_instr : ℕ
  pub rest : S

-- What the loop calls. Without DEBUG no watchpoint changes, without HAS_IOE `device_update` is empty,
-- without DIFF_TEST `difftest_step` is.
pub record Calls (S : Type 0) : Type 0 where
  pub isa_exec_once : Emulator S → Result (Emulator S)
  pub difftest_step : Emulator S → Emulator S → Result (Emulator S)
  pub check_wp_changed : Emulator S → Result (Bool × Emulator S)
  pub device_update : Emulator S → Result (Emulator S)

abbrev pub is_running : Phase → Bool
is_running nemu_running = true
is_running _ = false

module _ {S : Type 0} where
  abbrev pub set_state : Phase → Emulator S → Emulator S
  set_state p s = record s { nemu_state = record s.nemu_state { state = p } }

  pub is_exit_status_bad : Emulator S → Bool
  is_exit_status_bad s = elim s.nemu_state.state [
    | nemu_end ↦ not (s.nemu_state.halt_ret == 0)
    | nemu_quit ↦ false
    | _ ↦ true
  ]

  -- The `switch` behind the loop.
  pub settle : Emulator S → Emulator S
  settle s = if is_running s.nemu_state.state then set_state nemu_stop s else s

  module _ (calls : Calls S) where
    -- The body of the loop, before the test at its end.
    pub round : Emulator S → Result (Emulator S)
    round s = do
      s₁ ← calls.isa_exec_once s
      s₂ ← calls.difftest_step s s₁
      (changed, s₃) ←
          calls.check_wp_changed (record s₂ { nr_guest_instr = (s₂.nr_guest_instr + 1) % 2 ^ 64 })
      calls.device_update (if changed then set_state nemu_stop s₃ else s₃)

    pub exec_loop : ℕ → Emulator S → Result (Emulator S)
    exec_loop zero s = ok s
    exec_loop (suc n) s = do
      s' ← round s
      elim (is_running s'.nemu_state.state) [ true ↦ exec_loop n s' | false ↦ ok s' ]

    pub cpu_exec : ℕ → Emulator S → Result (Emulator S)
    cpu_exec n s = elim s.nemu_state.state [
      | nemu_end ↦ ok s
      | nemu_abort ↦ ok s
      | _ ↦ exec_loop n (set_state nemu_running s) >>= λ s'. ok (settle s')
    ]
