-- ===== src/Device/Alarm/Order.antt =====
-- nemu/src/device/alarm.c: the handlers of the signal, against the list of those registered.
use nju_ics2020_pa.Base.{
  ℕ, zero, suc, ◌+◌, ◌%◌, ◌^◌, ◌≤◌, ◌<◌, ◌≡◌, refl, ap, subst, ◌∙◌, List, [], ◌∷◌, Result, ok,
  ◌>>=◌, length, update, lt→ltb, arith,
}
use nju_ics2020_pa.Device.Alarm.{
  Alarm, no_alarm, add_alarm_handle, call_loop, alarm_sig_handler, max_handler,
}

-- Several calls of `add_alarm_handle`.
pub add_all : List ℕ → Alarm → Result Alarm
add_all [] a = ok a
add_all (h ∷ hs) a = add_alarm_handle h a >>= add_all hs

pub call_all : {S : Type 0} → (ℕ → S → S) → List ℕ → S → S
call_all call [] s = s
call_all call (h ∷ hs) s = call_all call hs (call h s)

update_other : (f : ℕ → ℕ) (i n j h : ℕ) → j ≡ i + suc n → update f j h i ≡ f i
update_other f i n j h e = ground arith

update_same : (f : ℕ → ℕ) (i j h : ℕ) → j ≡ i + 0 → update f j h i ≡ h
update_same f i j h e = ground arith

add_lem :
    (h : ℕ) (a : Alarm)
    → a.idx < max_handler
    → add_alarm_handle h a ≡ ok (record a { handler = update a.handler a.idx h; idx = a.idx + 1 })
unfolding add_alarm_handle
add_lem h a room = rw (lt→ltb a.idx max_handler room)

module _ {S : Type 0} (call : ℕ → S → S) where
  -- A slot past the end of the loop is not read, and one at its end is called last.
  call_loop-update :
      (f : ℕ → ℕ) (i n j h : ℕ) (s : S)
      → j ≡ i + n
      → call_loop call (update f j h) i (suc n) s ≡ call h (call_loop call f i n s)
  unfolding call_loop
  call_loop-update f i zero j h s e = ap (λ x. call x s) (update_same f i j h e)
  call_loop-update f i (suc n) j h s e =
      ap (λ x. call_loop call (update f j h) (i + 1) (suc n) (call x s)) (update_other f i n j h e)
      ∙ call_loop-update f (i + 1) n j h (call (f i) s) (omega arith)

  added :
      (a : Alarm) (h : ℕ) (s : S)
      → call_loop call (update a.handler a.idx h) 0 (a.idx + 1) s
        ≡ call h (call_loop call a.handler 0 a.idx s)
  added a h s =
      subst
        (λ n.
          call_loop call (update a.handler a.idx h) 0 n s
          ≡ call h (call_loop call a.handler 0 a.idx s))
        (omega arith) (call_loop-update a.handler 0 a.idx a.idx h s (omega arith))

  -- What the loop does after more handlers are registered.
  add_all_lem :
      (hs : List ℕ) (a : Alarm)
      → a.idx + length hs ≤ max_handler
      → (b : Alarm) × (add_all hs a ≡ ok b)
        × (b.jiffy ≡ a.jiffy)
        × ((s : S)
            → call_loop call b.handler 0 b.idx s
              ≡ call_all call hs (call_loop call a.handler 0 a.idx s))
  unfolding add_all call_all
  add_all_lem [] a room = (a, refl, refl, λ s. refl)
  add_all_lem (h ∷ hs) a room =
      let a' : Alarm = record a { handler = update a.handler a.idx h; idx = a.idx + 1 } in
      let (b, e, j, run) = add_all_lem hs a' (omega arith) in
      (
        b,
        ap (λ r. r >>= add_all hs) (add_lem h a (omega arith)) ∙ e,
        j,
        λ s. run s ∙ ap (call_all call hs) (added a h s),
      )

  -- Up to eight handlers can be registered, none is refused, and a signal then calls each of them once,
  -- in the order of registration, and counts one jiffy.
  pub alarm_sig_handler_lem :
      (hs : List ℕ) (s : S)
      → length hs ≤ max_handler
      → (b : Alarm) × (add_all hs no_alarm ≡ ok b)
        × (alarm_sig_handler call b s ≡ (call_all call hs s, record b { jiffy = 1 }))
  unfolding alarm_sig_handler call_loop no_alarm
  alarm_sig_handler_lem hs s room =
      let (b, e, j, run) = add_all_lem hs no_alarm (omega arith) in
      (
        b,
        e,
        ap (λ x. (x, record b { jiffy = (b.jiffy + 1) % 2 ^ 32 })) (run s)
            ∙ ap (λ n. (call_all call hs s, record b { jiffy = (n + 1) % 2 ^ 32 })) j,
      )
