-- ===== src/Monitor/Stops.antt =====
-- How `cpu_exec` ends.
use nju_ics2020_pa.Base.{
  ◌≢◌, ◌⊎◌, ◌<◌, subst, ℕ, ◌≡◌, refl, Bool, true, false, ok, ◌>>=◌, ◌↔◌, arith, >>=-eq-ok, inl, inr,
  ok-injective, sym, ◌∙◌, ap,
}
use nju_ics2020_pa.Rtl.Machine.{Phase, nemu_stop, nemu_running, nemu_end, nemu_abort, nemu_quit}
use nju_ics2020_pa.Monitor.{Emulator, Calls, is_running, set_state, exec_loop, settle, cpu_exec}
use nju_ics2020_pa.Monitor.Rounds.{
  Outcome, early, Runs, Checks, hit, stopped, running_cases, not_running, exec_loop_lem,
}

abbrev pub has_ended : Phase → Bool
has_ended nemu_end = true
has_ended nemu_abort = true
has_ended _ = false

module _ {S : Type 0} (calls : Calls S) where
  -- An ended program is not run again.
  cpu_exec-ended :
      (n : ℕ) (s : Emulator S) (p : Phase)
      → s.nemu_state.state ≡ p
      → has_ended p ≡ true
      → cpu_exec calls n s ≡ ok s
  unfolding cpu_exec
  cpu_exec-ended n s nemu_end e h = rw e refl
  cpu_exec-ended n s nemu_abort e h = rw e refl
  cpu_exec-ended n s nemu_stop e h = absurd (ground arith)
  cpu_exec-ended n s nemu_running e h = absurd (ground arith)
  cpu_exec-ended n s nemu_quit e h = absurd (ground arith)

  cpu_exec-runs :
      (n : ℕ) (s : Emulator S) (p : Phase)
      → s.nemu_state.state ≡ p
      → has_ended p ≡ false
      → cpu_exec calls n s ≡ (exec_loop calls n (set_state nemu_running s) >>= λ t. ok (settle t))
  unfolding cpu_exec
  cpu_exec-runs n s nemu_stop e h = rw e refl
  cpu_exec-runs n s nemu_running e h = rw e refl
  cpu_exec-runs n s nemu_quit e h = rw e refl
  cpu_exec-runs n s nemu_end e h = absurd (ground arith)
  cpu_exec-runs n s nemu_abort e h = absurd (ground arith)

  -- An emulator that still runs behind the last round stands, and every other one is left as it is.
  pub data Settled (u t : Emulator S) : Type 0 where
    stands : u.nemu_state.state ≡ nemu_running → t ≡ stopped u → Settled u t
    left : u.nemu_state.state ≢ nemu_running → t ≡ u → Settled u t

  settle-Settled : (u : Emulator S) → Settled u (settle u)
  unfolding settle
  settle-Settled u = elim (running_cases u.nemu_state.state) [
    | inl (running, b) ↦ stands running (rw b refl)
    | inr (halted, b) ↦ left halted (rw b refl)
  ]

  Settled-settle : (u t : Emulator S) → Settled u t → settle u ≡ t
  unfolding settle
  Settled-settle u t (stands running e) =
      let b : is_running u.nemu_state.state ≡ true = ap is_running running in rw b (sym e)
  Settled-settle u t (left halted e) = rw (not_running u.nemu_state.state halted) (sym e)

  abbrev pub running_of : Emulator S → Emulator S
  running_of s = record s { nemu_state = record s.nemu_state { state = nemu_running } }

  abbrev pub ByRounds : ℕ → Emulator S → Emulator S → Type 0
  ByRounds n s t = (u : Emulator S) × Outcome calls n (running_of s) u × Settled u t

  -- What `cpu_exec` of `n` instructions makes of an emulator, by the phase that it is in.
  abbrev pub Executes : ℕ → Phase → Emulator S → Emulator S → Type 0
  Executes n nemu_end s t = s ≡ t
  Executes n nemu_abort s t = s ≡ t
  Executes n _ s t = ByRounds n s t

  executes :
      (n : ℕ) (s t : Emulator S)
      → (exec_loop calls n (set_state nemu_running s) >>= λ u. ok (settle u)) ≡ ok t
      → ByRounds n s t
  executes n s t e =
      let (u, r, last) = >>=-eq-ok (exec_loop calls n (set_state nemu_running s)) _ e in
      (
        u,
        (exec_loop_lem calls n (set_state nemu_running s) u).0 r,
        subst (Settled u) (ok-injective last) (settle-Settled u),
      )

  executed :
      (n : ℕ) (s t u : Emulator S)
      → Outcome calls n (running_of s) u
      → Settled u t
      → (exec_loop calls n (set_state nemu_running s) >>= λ v. ok (settle v)) ≡ ok t
  executed n s t u out e =
      rw ((exec_loop_lem calls n (set_state nemu_running s) u).1 out)
        (ap (λ (x : Emulator S). ok x) (Settled-settle u t e))

  by_phase :
      (n : ℕ) (s t : Emulator S) (p : Phase)
      → s.nemu_state.state ≡ p
      → (cpu_exec calls n s ≡ ok t) ↔ Executes n p s t
  by_phase n s t nemu_end e = (
    λ h. ok-injective (sym (cpu_exec-ended n s nemu_end e refl) ∙ h),
    λ h. cpu_exec-ended n s nemu_end e refl ∙ ap (λ (x : Emulator S). ok x) h,
  )
  by_phase n s t nemu_abort e = (
    λ h. ok-injective (sym (cpu_exec-ended n s nemu_abort e refl) ∙ h),
    λ h. cpu_exec-ended n s nemu_abort e refl ∙ ap (λ (x : Emulator S). ok x) h,
  )
  by_phase n s t nemu_stop e = (
    λ h. executes n s t (sym (cpu_exec-runs n s nemu_stop e refl) ∙ h),
    λ h. cpu_exec-runs n s nemu_stop e refl ∙ executed n s t h.0 h.1 h.2,
  )
  by_phase n s t nemu_running e = (
    λ h. executes n s t (sym (cpu_exec-runs n s nemu_running e refl) ∙ h),
    λ h. cpu_exec-runs n s nemu_running e refl ∙ executed n s t h.0 h.1 h.2,
  )
  by_phase n s t nemu_quit e = (
    λ h. executes n s t (sym (cpu_exec-runs n s nemu_quit e refl) ∙ h),
    λ h. cpu_exec-runs n s nemu_quit e refl ∙ executed n s t h.0 h.1 h.2,
  )

  -- An emulator whose program has ended or was aborted is left as it is. Every other one is set running;
  -- `cpu_exec` ends with `t` exactly when its rounds, at most `n` and none behind the first after which
  -- the emulator does not run, lead to `t`, but for this: one that still runs then is given NEMU_STOP. In
  -- a round in which a watchpoint changed, the emulator is stopped before the devices are updated.
  pub cpu_exec-Executes :
      (n : ℕ) (s t : Emulator S) → (cpu_exec calls n s ≡ ok t) ↔ Executes n s.nemu_state.state s t
  cpu_exec-Executes n s t = by_phase n s t s.nemu_state.state refl

  -- The devices leave the phase as it is, or end the emulator's run.
  abbrev pub KeepsPhase : Type 0
  KeepsPhase =
      (a b : Emulator S)
      → calls.device_update a ≡ ok b
      → (b.nemu_state.state ≡ a.nemu_state.state) ⊎ (b.nemu_state.state ≡ nemu_quit)

  abbrev pub Stands : Phase → Type 0
  Stands p = (p ≡ nemu_stop) ⊎ (p ≡ nemu_quit)

  Stands-ne : (p : Phase) → Stands p → p ≢ nemu_running
  Stands-ne p (inl e) r = absurd (ground (arith, e, r))
  Stands-ne p (inr e) r = absurd (ground (arith, e, r))

  -- In an emulator that has not ended, with devices that leave the phase as it is or set NEMU_QUIT, the
  -- first of the `n` instructions at which a watchpoint changes is the last one executed, if the emulator
  -- ran up to there: `cpu_exec` returns with what the devices make of the stopped emulator, and with
  -- NEMU_STOP or NEMU_QUIT, also where that instruction ended or aborted the program.
  pub cpu_exec-watched :
      (n k : ℕ) (s u v t : Emulator S)
      → has_ended s.nemu_state.state ≡ false
      → KeepsPhase
      → k < n
      → Runs calls k (running_of s) u
      → Checks calls u true v
      → calls.device_update (stopped v) ≡ ok t
      → (cpu_exec calls n s ≡ ok t) × Stands t.nemu_state.state
  cpu_exec-watched n k s u v t going keeps lt runs checks dev =
      let stands_ : Stands t.nemu_state.state = keeps (stopped v) t dev in
      let ne : t.nemu_state.state ≢ nemu_running = Stands-ne t.nemu_state.state stands_ in
      (
        cpu_exec-runs n s s.nemu_state.state refl going
            ∙ executed n s t t (early k u lt runs (hit v checks dev) ne) (left ne refl),
        stands_,
      )
