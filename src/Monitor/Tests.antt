-- ===== src/Monitor/Tests.antt =====
-- The main loop on an emulator that counts.
use nju_ics2020_pa.Base.{
  true, false, inl, ap, sym, ok-injective, arith, ℕ, ◌+◌, ◌≡◌, ◌↔◌, refl, ok, ◌==◌, if◌then◌else◌,
}
use nju_ics2020_pa.Rtl.Machine.{nemu_stop, nemu_running, nemu_end}
use nju_ics2020_pa.Monitor.{Emulator, Calls, set_state, exec_loop, cpu_exec}
use nju_ics2020_pa.Monitor.Rounds.{Checks, quiet, Runs, rest, next, Outcome, exec_loop_lem}
use nju_ics2020_pa.Monitor.Stops.{KeepsPhase, Stands, Executes, cpu_exec-Executes, cpu_exec-watched}

abbrev at : ℕ → Emulator ℕ
at n = record {
  nemu_state = record { state = nemu_stop; halt_pc = 0; halt_ret = 0 };
  nr_guest_instr = n;
  rest = n;
}

-- The third instruction ends the program, and the watchpoint is hit there too.
abbrev counter : Calls ℕ
counter = record {
  isa_exec_once = λ s. ok (
      if s.rest == 2
      then record (set_state nemu_end s) { rest = 3 }
      else record s { rest = s.rest + 1 });
  difftest_step = λ s s'. ok s';
  check_wp_changed = λ s. ok (s.rest == 3, s);
  device_update = λ s. ok s;
}

exec_loop_lem_example :
    (exec_loop counter 2 (set_state nemu_running (at 0)) ≡ ok (set_state nemu_running (at 2)))
    ↔ Outcome counter 2 (set_state nemu_running (at 0)) (set_state nemu_running (at 2))
exec_loop_lem_example =
    exec_loop_lem counter 2 (set_state nemu_running (at 0)) (set_state nemu_running (at 2))

cpu_exec-Executes_example :
    (cpu_exec counter 2 (at 0) ≡ ok (at 2)) ↔ Executes counter 2 nemu_stop (at 0) (at 2)
cpu_exec-Executes_example = cpu_exec-Executes counter 2 (at 0) (at 2)

abbrev runs_at : ℕ → Emulator ℕ
runs_at n = set_state nemu_running (at n)

first : Checks counter (runs_at 0) false (runs_at 1)
first = record {
  after_instr = record (runs_at 0) { rest = 1 };
  after_test = record (runs_at 0) { rest = 1 };
  executes = refl;
  tests = refl;
  checks = refl;
}

second : Checks counter (runs_at 1) false (runs_at 2)
second = record {
  after_instr = record (runs_at 1) { rest = 2 };
  after_test = record (runs_at 1) { rest = 2 };
  executes = refl;
  tests = refl;
  checks = refl;
}

two_rounds : Runs counter 2 (runs_at 0) (runs_at 2)
two_rounds =
    next (quiet (runs_at 1) first refl) refl
      (next (quiet (runs_at 2) second refl) refl (rest (runs_at 2)))

counter-KeepsPhase : KeepsPhase counter
counter-KeepsPhase a b e = inl (ap (λ (x : Emulator ℕ). x.nemu_state.state) (sym (ok-injective e)))

third : Checks counter (runs_at 2) true (set_state nemu_end (at 3))
third = record {
  after_instr = record (set_state nemu_end (at 2)) { rest = 3 };
  after_test = record (set_state nemu_end (at 2)) { rest = 3 };
  executes = refl;
  tests = refl;
  checks = refl;
}

cpu_exec-watched_example : (cpu_exec counter 5 (at 0) ≡ ok (at 3)) × Stands counter nemu_stop
cpu_exec-watched_example =
    cpu_exec-watched counter 5 2 (at 0) (runs_at 2) (set_state nemu_end (at 3)) (at 3) refl
      counter-KeepsPhase (omega arith) two_rounds third refl
