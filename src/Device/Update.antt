-- ===== src/Device/Update.antt =====
-- nemu/src/device/device.c: device_update, over the events that SDL has queued. The screen `S` and
-- vga_update_screen are parameters.
pub mod Quit
mod Tests
use nju_ics2020_pa.Base.{
  ℕ, ◌%◌, Bool, true, false, not, List, [], ◌∷◌, Result, ok, ◌>>=◌, if◌then◌else◌,
}
use nju_ics2020_pa.Rtl.Machine.{NemuState, Phase, nemu_running, nemu_quit}
use nju_ics2020_pa.Device.Keyboard.{Keyboard, send_key}

-- The types of events that device_update tells apart, a key with its scan code.
pub data SdlEvent : Type 0 where
  sdl_quit other_event : SdlEvent
  sdl_keydown sdl_keyup : ℕ → SdlEvent

pub record Devices (S : Type 0) : Type 0 where
  pub device_update_flag : Bool
  pub nemu_state : NemuState
  pub keyboard : Keyboard
  pub screen : S

abbrev pub is_running : Phase → Bool
is_running p = elim p [ nemu_running ↦ true | _ ↦ false ]

module _ {S : Type 0} where
  pub set_device_update_flag : Devices S → Devices S
  set_device_update_flag d = record d { device_update_flag = true }

  -- `nemu_state.state = NEMU_QUIT`
  abbrev pub quit : Devices S → Devices S
  quit d = record d { nemu_state = record (d.nemu_state) { state = nemu_quit } }

module _ {S : Type 0} (keymap : ℕ → ℕ) (vga_update_screen : S → S) where
  pub on_key : ℕ → Bool → Devices S → Result (Devices S)
  on_key scancode is_keydown d = do
    k ← send_key keymap (is_running (d.nemu_state.state)) (scancode % 256) is_keydown d.keyboard
    ok (record d { keyboard = k })

  pub on_event : SdlEvent → Devices S → Result (Devices S)
  on_event sdl_quit d = ok (quit d)
  on_event other_event d = ok d
  on_event (sdl_keydown scancode) d = on_key scancode true d
  on_event (sdl_keyup scancode) d = on_key scancode false d

  pub poll_events : List SdlEvent → Devices S → Result (Devices S)
  poll_events [] d = ok d
  poll_events (e ∷ es) d = on_event e d >>= poll_events es

  pub device_update : List SdlEvent → Devices S → Result (Devices S)
  device_update events d =
      if not d.device_update_flag
      then ok d
      else poll_events events
          (record d { device_update_flag = false; screen = vga_update_screen d.screen })
