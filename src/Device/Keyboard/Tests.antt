-- ===== src/Device/Keyboard/Tests.antt =====
-- The keyboard on an example.
use nju_ics2020_pa.Base.{◌≡◌, true, false, [], ◌∷◌}
use nju_ics2020_pa.Device.Keyboard.{init_i8042}
use nju_ics2020_pa.Device.Keyboard.Fifo.{
  Event, key, read, run, spec_run, run-spec_run, init_i8042-IsQueue,
}
use nju_ics2020_pa.Base.{ℕ, List, ◌+◌}

abbrev keymap : ℕ → ℕ
keymap n = n + 1

-- Two keys, one of them released, and three reads.
abbrev events : List Event
events = key true 30 true ∷ read ∷ key true 30 false ∷ key false 7 true ∷ read ∷ read ∷ []

run-spec_run_example : run keymap events init_i8042 ≡ spec_run keymap events []
run-spec_run_example = run-spec_run keymap events init_i8042 [] init_i8042-IsQueue
