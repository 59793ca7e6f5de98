-- ===== src/Device/Maps.antt =====
-- init_device and what it calls in nemu/src/device/{serial,timer,vga,keyboard,audio}.c: the devices' maps and
-- the callbacks behind them. SDL's calls and the host's timer are left out.
pub mod Keys
mod Tests
use nju_ics2020_pa.Base.{
  ℕ, ◌+◌, ◌*◌, ◌%◌, ◌^◌, Bool, true, false, Option, none, some, List, [], ◌∷◌, if◌then◌else◌,
  Result, ok, ◌>>=◌,
}
use nju_ics2020_pa.Base.Bytes.{Bytes, read_le, write_le}
use nju_ics2020_pa.Memory.IoMap.{Io, IoMap, Callback, new_space, add_mmio_map, add_pio_map}
use nju_ics2020_pa.Device.Alarm.{Alarm, add_alarm_handle}
use nju_ics2020_pa.Device.Keyboard.{Keyboard, key_none, i8042_data_io_handler}
use nju_ics2020_pa.Device.Ports.{Rtc, serial_io_handler, rtc_io_handler}

-- The variables that the callbacks use, and the bytes that went to `stderr`.
pub record Board : Type 0 where
  pub keyboard : Keyboard
  pub stderr : List ℕ

-- What the initialisation changes.
pub record Setup : Type 0 where
  pub io : Io Board
  pub pio : List (IoMap Board)
  pub mmio : List (IoMap Board)
  pub alarm : Alarm

-- The pointers are places in `io_space`.
unfoldable pub serial_callback : ℕ → Callback Board
serial_callback serial_base offset len is_write io = do
  stderr ← serial_io_handler offset len is_write (io.io_space serial_base) (io.dev.stderr)
  ok (record io { dev = record io.dev { stderr = stderr } })

abbrev rtc_at : ℕ → Bytes → Rtc
rtc_at p m = record { usec = read_le 4 m p; sec = read_le 4 m (p + 4) }

-- `now_usec` and `now_sec` are what `gettimeofday` gives.
unfoldable pub rtc_callback : ℕ → ℕ → ℕ → Callback Board
rtc_callback now_usec now_sec rtc_port_base offset len is_write io = do
  rtc ← rtc_io_handler now_usec now_sec offset len is_write (rtc_at rtc_port_base io.io_space)
  ok (
      if is_write then io else record io {
        io_space =
            write_le 4 (write_le 4 io.io_space rtc_port_base rtc.usec) (rtc_port_base + 4) rtc.sec;
      })

unfoldable pub i8042_callback : ℕ → Callback Board
i8042_callback i8042_data_port_base offset len is_write io = do
  k ← i8042_data_io_handler offset len is_write (io.dev.keyboard)
  ok (record io {
    io_space = write_le 4 io.io_space i8042_data_port_base k.data_port;
    dev = record io.dev { keyboard = k };
  })

-- audio_io_handler has no statement.
unfoldable pub audio_callback : Callback Board
audio_callback offset len is_write io = ok io

-- A device's registers, at a port and at an address.
abbrev pub add_maps : List ℕ → ℕ → ℕ → ℕ → ℕ → Option (Callback Board) → Setup → Result Setup
add_maps name port addr space len callback s = do
  pio ← add_pio_map name port space len callback s.pio
  mmio ← add_mmio_map name addr space len callback s.mmio
  ok (record s { pio = pio; mmio = mmio })

unfoldable pub init_serial : Setup → Result Setup
init_serial s = do
  (serial_base, io) ← new_space 8 s.io
  add_maps (b's' ∷ b'e' ∷ b'r' ∷ b'i' ∷ b'a' ∷ b'l' ∷ []) 0x3f8 0xa10003f8 serial_base 8
      (some (serial_callback serial_base)) (record s { io = io })

abbrev pub screen_w : ℕ
screen_w = 400

abbrev pub screen_h : ℕ
screen_h = 300

abbrev set_word : ℕ → ℕ → Io Board → Io Board
set_word p v io = record io { io_space = write_le 4 io.io_space p v }

unfoldable pub init_vga : Setup → Result Setup
init_vga s = do
  (vgactl_port_base, io₁) ← new_space 8 s.io
  let io₂ = set_word vgactl_port_base (screen_w * 2 ^ 16 + screen_h) io₁
  s₁ ←
      add_maps (b's' ∷ b'c' ∷ b'r' ∷ b'e' ∷ b'e' ∷ b'n' ∷ []) 0x100 0xa1000100 vgactl_port_base 8
        none (record s { io = io₂ })
  (vmem, io₃) ← new_space (screen_h * screen_w * 4) (s₁.io)
  mmio ←
      add_mmio_map (b'v' ∷ b'm' ∷ b'e' ∷ b'm' ∷ []) 0xa0000000 vmem (screen_h * screen_w * 4) none
        s₁.mmio
  ok (record s₁ { io = io₃; mmio = mmio })

unfoldable pub init_keyboard : Setup → Result Setup
init_keyboard s = do
  (i8042_data_port_base, io₁) ← new_space 4 s.io
  let io₂ = set_word i8042_data_port_base key_none io₁
  add_maps (b'k' ∷ b'e' ∷ b'y' ∷ b'b' ∷ b'o' ∷ b'a' ∷ b'r' ∷ b'd' ∷ []) 0x60 0xa1000060
      i8042_data_port_base 4 (some (i8042_callback i8042_data_port_base)) (record s { io = io₂ })

unfoldable pub init_audio : Setup → Result Setup
init_audio s = do
  (audio_base, io₁) ← new_space 24 s.io
  s₁ ←
      add_maps (b'a' ∷ b'u' ∷ b'd' ∷ b'i' ∷ b'o' ∷ []) 0x200 0xa1000200 audio_base 24
        (some audio_callback) (record s { io = io₁ })
  (sbuf, io₂) ← new_space 65536 (s₁.io)
  mmio ←
      add_mmio_map (b'a' ∷ b'u' ∷ b'd' ∷ b'i' ∷ b'o' ∷ b'-' ∷ b's' ∷ b'b' ∷ b'u' ∷ b'f' ∷ [])
        0xa0800000 sbuf 65536 none s₁.mmio
  ok (record s₁ { io = io₂; mmio = mmio })

-- The function pointers of the two handlers of the alarm are `timer_intr` and `set_flag`.
module _ (now_usec now_sec timer_intr set_flag : ℕ) where
  unfoldable pub init_timer : Setup → Result Setup
  init_timer s = do
    (rtc_port_base, io) ← new_space 8 s.io
    s₁ ←
        add_maps (b'r' ∷ b't' ∷ b'c' ∷ []) 0x48 0xa1000048 rtc_port_base 8
          (some (rtc_callback now_usec now_sec rtc_port_base)) (record s { io = io })
    alarm ← add_alarm_handle timer_intr s₁.alarm
    ok (record s₁ { alarm = alarm })

  unfoldable pub init_device : Setup → Result Setup
  init_device s = do
    s₁ ← init_serial s
    s₂ ← init_timer s₁
    s₃ ← init_vga s₂
    s₄ ← init_keyboard s₃
    s₅ ← init_audio s₄
    alarm ← add_alarm_handle set_flag s₅.alarm
    ok (record s₅ { alarm = alarm })
