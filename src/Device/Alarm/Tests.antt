-- ===== src/Device/Alarm/Tests.antt =====
-- The alarm with three handlers, one of them registered twice: a call notes its handler.
use nju_ics2020_pa.Base.{ℕ, List, [], ◌∷◌, ◌≡◌, arith, ok}
use nju_ics2020_pa.Device.Alarm.{Alarm, no_alarm, alarm_sig_handler}
use nju_ics2020_pa.Device.Alarm.Order.{add_all, call_all, alarm_sig_handler_lem}

abbrev note : ℕ → List ℕ → List ℕ
note h calls = h ∷ calls

abbrev handlers : List ℕ
handlers = 5 ∷ 7 ∷ 5 ∷ []

alarm_sig_handler_lem_example :
    (b : Alarm) × (add_all handlers no_alarm ≡ ok b)
    × (alarm_sig_handler note b [] ≡ (call_all note handlers [], record b { jiffy = 1 }))
alarm_sig_handler_lem_example = alarm_sig_handler_lem note handlers [] (omega arith)
