-- ===== src/Device/Update/Tests.antt =====
-- device_update on an example: a key is pressed, the window is closed, and the key is released.
use nju_ics2020_pa.Base.{ℕ, ◌+◌, true, List, [], ◌∷◌, ◌++◌, ◌≡◌, refl, ok, ◌>>=◌}
use nju_ics2020_pa.Rtl.Machine.{nemu_running}
use nju_ics2020_pa.Device.Keyboard.{init_i8042}
use nju_ics2020_pa.Device.Update.{
  Devices, SdlEvent, sdl_quit, sdl_keydown, sdl_keyup, quit, device_update,
}
use nju_ics2020_pa.Device.Update.Quit.{device_update-quit}

abbrev keymap : ℕ → ℕ
keymap c = c + 1

-- The screen counts its updates.
abbrev refresh : ℕ → ℕ
refresh n = n + 1

abbrev devices : Devices ℕ
devices = record {
  device_update_flag = true;
  nemu_state = record { state = nemu_running; halt_pc = 0; halt_ret = 0 };
  keyboard = init_i8042;
  screen = 0;
}

abbrev before : List SdlEvent
before = sdl_keydown 30 ∷ []

abbrev behind : List SdlEvent
behind = sdl_keyup 30 ∷ []

device_update-quit_example :
    device_update keymap refresh (before ++ sdl_quit ∷ behind) devices
    ≡ (device_update keymap refresh before devices >>= λ x. ok (quit x))
device_update-quit_example = device_update-quit keymap refresh before behind devices refl
