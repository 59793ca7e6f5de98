-- ===== src/Device/Alarm.antt =====
-- nemu/src/device/alarm.c. A handler is the value of its function pointer; what calling one does is a
-- parameter. The timer and its signal are the host's.
pub mod Order
mod Tests
use nju_ics2020_pa.Base.{
  ℕ, zero, suc, ◌+◌, ◌%◌, ◌/◌, ◌^◌, Result, ok, ◌>>=◌, ◌>>◌, assert, update, ltb,
}

abbrev pub timer_hz : ℕ
timer_hz = 60

abbrev pub max_handler : ℕ
max_handler = 8

pub record Alarm : Type 0 where
  pub handler : ℕ → ℕ
  pub idx : ℕ
  pub jiffy : ℕ

-- The static variables before the first call.
unfoldable pub no_alarm : Alarm
no_alarm = record { handler = λ _. 0; idx = 0; jiffy = 0 }

unfoldable pub add_alarm_handle : ℕ → Alarm → Result Alarm
add_alarm_handle h a = do
  assert (ltb a.idx max_handler)
  ok (record a { handler = update a.handler a.idx h; idx = a.idx + 1 })

pub uptime : Alarm → ℕ
uptime a = a.jiffy / timer_hz

module _ {S : Type 0} (call : ℕ → S → S) where
  -- The loop from i on, over the n handlers that are left.
  pub call_loop : (ℕ → ℕ) → ℕ → ℕ → S → S
  call_loop handler i zero s = s
  call_loop handler i (suc n) s = call_loop handler (i + 1) n (call (handler i) s)

  -- Handlers that themselves add handlers or raise the signal are left out.
  pub alarm_sig_handler : Alarm → S → S × Alarm
  alarm_sig_handler a s =
      (call_loop a.handler 0 a.idx s, record a { jiffy = (a.jiffy + 1) % 2 ^ 32 })
