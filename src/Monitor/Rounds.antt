-- ===== src/Monitor/Rounds.antt =====
-- Which rounds `cpu_exec` executes.
use nju_ics2020_pa.Base.{
  ℕ, zero, suc, ◌↔◌, ◌+◌, ◌-◌, ◌<◌, ◌≡◌, Bool, true, false, Result, ok, inl, inr, arith, >>=-eq-ok,
  ◌⊎◌, ◌≢◌, ◌%◌, ◌^◌, if◌then◌else◌, refl, subst, ap, ◌∙◌, sym, ok-injective,
}
use nju_ics2020_pa.Rtl.Machine.{Phase, nemu_stop, nemu_running, nemu_end, nemu_abort, nemu_quit}
use nju_ics2020_pa.Monitor.{Emulator, Calls, is_running, set_state, round, exec_loop}

-- A phase is running, or it is not.
pub running_cases :
    (p : Phase)
    → ((p ≡ nemu_running) × (is_running p ≡ true)) ⊎ ((p ≢ nemu_running) × (is_running p ≡ false))
running_cases nemu_running = inl (refl, refl)
running_cases nemu_stop = inr ((λ e. absurd (ground (arith, e))), refl)
running_cases nemu_end = inr ((λ e. absurd (ground (arith, e))), refl)
running_cases nemu_abort = inr ((λ e. absurd (ground (arith, e))), refl)
running_cases nemu_quit = inr ((λ e. absurd (ground (arith, e))), refl)

module _ {S : Type 0} where
  -- One more instruction is counted, in 64 bits.
  abbrev pub counted : Emulator S → Emulator S
  counted s = record s { nr_guest_instr = (s.nr_guest_instr + 1) % 2 ^ 64 }

  -- The emulator stands, and nothing else is changed.
  abbrev pub stopped : Emulator S → Emulator S
  stopped s = record s { nemu_state = record s.nemu_state { state = nemu_stop } }

pub not_running : (p : Phase) → p ≢ nemu_running → is_running p ≡ false
not_running p ne = elim (running_cases p) [ inl x ↦ elim (ne x.0) [ ] | inr x ↦ x.1 ]

module _ {S : Type 0} (calls : Calls S) where
  -- Behind the instruction, the difference test and the count, the watchpoints are checked, and whether
  -- one changed.
  pub record Checks (s : Emulator S) (changed : Bool) (u : Emulator S) : Type 0 where
    pub after_instr : Emulator S
    pub after_test : Emulator S
    pub executes : calls.isa_exec_once s ≡ ok after_instr
    pub tests : calls.difftest_step s after_instr ≡ ok after_test
    pub checks : calls.check_wp_changed (counted after_test) ≡ ok (changed, u)

  -- A round: with no change the devices see what the check left, and with one they see it stopped.
  pub data IsRound (s t : Emulator S) : Type 0 where
    quiet : (u : Emulator S) → Checks s false u → calls.device_update u ≡ ok t → IsRound s t
    hit : (u : Emulator S) → Checks s true u → calls.device_update (stopped u) ≡ ok t → IsRound s t

  round-IsRound : (s t : Emulator S) → round calls s ≡ ok t → IsRound s t
  unfolding round
  round-IsRound s t e =
      let (s₁, once, e₁) = >>=-eq-ok (calls.isa_exec_once s) _ e in
      let (s₂, diff, e₂) = >>=-eq-ok (calls.difftest_step s s₁) _ e₁ in
      let (x, watch, e₃) = >>=-eq-ok (calls.check_wp_changed (counted s₂)) _ e₂ in
      let checked : Checks s x.0 x.1 = record {
        after_instr = s₁;
        after_test = s₂;
        executes = once;
        tests = diff;
        checks = watch;
      } in
      by_change x.0 x.1 checked e₃
    where
      by_change :
          (b : Bool) (u : Emulator S)
          → Checks s b u
          → calls.device_update (if b then set_state nemu_stop u else u) ≡ ok t
          → IsRound s t
      by_change true u c d = hit u c d
      by_change false u c d = quiet u c d

  IsRound-round : (s t : Emulator S) → IsRound s t → round calls s ≡ ok t
  unfolding round
  IsRound-round s t (quiet u c d) = simp (c.executes, c.tests, c.checks, d) refl
  IsRound-round s t (hit u c d) = simp (c.executes, c.tests, c.checks, d) refl

  -- `k` rounds lead from `s` to `t`, and the emulator runs after each of them.
  pub data Runs : ℕ → Emulator S → Emulator S → Type 0 where
    rest : (s : Emulator S) → Runs 0 s s
    next :
        {k : ℕ} {s u t : Emulator S}
        → IsRound s u
        → u.nemu_state.state ≡ nemu_running
        → Runs k u t
        → Runs (suc k) s t

  -- What the loop of at most `n` rounds comes to: all of them run, or the last of fewer is the first
  -- one after which the emulator does not run.
  pub data Outcome (n : ℕ) (s t : Emulator S) : Type 0 where
    all : Runs n s t → Outcome n s t
    early :
        (k : ℕ) (u : Emulator S)
        → k < n
        → Runs k s u
        → IsRound u t
        → t.nemu_state.state ≢ nemu_running
        → Outcome n s t

  Outcome-next :
      {n : ℕ} {s u t : Emulator S}
      → IsRound s u
      → u.nemu_state.state ≡ nemu_running
      → Outcome n u t
      → Outcome (suc n) s t
  Outcome-next r h (all runs) = all (next r h runs)
  Outcome-next r h (early k v lt runs last halted) =
      early (suc k) v (omega arith) (next r h runs) last halted

  exec_loop-step :
      (n : ℕ) (s u : Emulator S) (b : Bool)
      → round calls s ≡ ok u
      → is_running u.nemu_state.state ≡ b
      → exec_loop calls (suc n) s ≡ elim b [ true ↦ exec_loop calls n u | false ↦ ok u ]
  unfolding exec_loop
  exec_loop-step n s u b r h = rw r (
      ap
        (λ (c : Bool). elim c as (λ _. Result (Emulator S)) [
          | true ↦ exec_loop calls n u
          | false ↦ ok u
        ])
        h)

  exec_loop-Outcome : (n : ℕ) (s t : Emulator S) → exec_loop calls n s ≡ ok t → Outcome n s t
  unfolding exec_loop
  exec_loop-Outcome zero s t e = all (subst (Runs 0 s) (ok-injective e) (rest s))
  exec_loop-Outcome (suc n) s t e =
      let (u, r, more) = >>=-eq-ok (round calls s) _ e in
      elim (running_cases u.nemu_state.state) [
        | inl (running, b) ↦
            Outcome-next (round-IsRound s u r) running
              (exec_loop-Outcome n u t (sym (exec_loop-step n s u true r b) ∙ e))
        | inr (halted, b) ↦
            let same : u ≡ t = ok-injective (sym (exec_loop-step n s u false r b) ∙ e) in
            early 0 s (omega arith) (rest s) (subst (IsRound s) same (round-IsRound s u r))
              (subst (λ (x : Emulator S). x.nemu_state.state ≢ nemu_running) same halted)
      ]

  Runs-exec_loop :
      (k : ℕ) (s u : Emulator S) (n : ℕ)
      → Runs k s u
      → exec_loop calls (k + n) s ≡ exec_loop calls n u
  Runs-exec_loop zero s u n (rest _) = ap (λ i. exec_loop calls i s) (omega arith)
  Runs-exec_loop (suc k) s u n (next {u = v} r h runs) =
      ap (λ i. exec_loop calls i s) (omega arith)
      ∙ exec_loop-step (k + n) s v true (IsRound-round s v r) (ap is_running h)
      ∙ Runs-exec_loop k v u n runs

  Outcome-exec_loop : (n : ℕ) (s t : Emulator S) → Outcome n s t → exec_loop calls n s ≡ ok t
  unfolding exec_loop
  Outcome-exec_loop n s t (all runs) =
      ap (λ i. exec_loop calls i s) (omega arith) ∙ Runs-exec_loop n s t 0 runs
  Outcome-exec_loop n s t (early k u lt runs last halted) =
      ap (λ i. exec_loop calls i s) (omega arith)
      ∙ Runs-exec_loop k s u (suc (n - k - 1)) runs
      ∙ exec_loop-step (n - k - 1) u t false (IsRound-round u t last)
          (not_running t.nemu_state.state halted)

  -- The loop of `cpu_exec` with at most `n` rounds ends with `t` exactly when `n` rounds lead there with
  -- the emulator running after each, or fewer do and the one behind them is the first after which it does
  -- not run. A round executes an instruction, tests, counts and checks, and where a watchpoint changed
  -- it stops the emulator before the devices are updated.
  pub exec_loop_lem : (n : ℕ) (s t : Emulator S) → (exec_loop calls n s ≡ ok t) ↔ Outcome n s t
  exec_loop_lem n s t = (exec_loop-Outcome n s t, Outcome-exec_loop n s t)
