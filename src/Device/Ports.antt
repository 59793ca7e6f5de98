-- ===== src/Device/Ports.antt =====
-- nemu/src/device/serial.c and timer.c: the handlers of the serial port and of the clock.
use nju_ics2020_pa.Base.{
  ℕ, ◌%◌, ◌^◌, Bool, not, ◌||◌, List, [], ◌∷◌, ◌==◌, ◌++◌, Result, ok, ◌>>◌, assert, if◌then◌else◌,
}

abbrev pub ch_offset : ℕ
ch_offset = 0

-- `stderr` holds the bytes written so far; `serial_base` is the byte at that pointer.
pub serial_io_handler : ℕ → ℕ → Bool → ℕ → List ℕ → Result (List ℕ)
serial_io_handler offset len is_write serial_base stderr = do
  assert (len == 1)
  assert (offset == ch_offset)
  assert is_write
  ok (stderr ++ (serial_base ∷ []))

-- The two words at `rtc_port_base`.
pub record Rtc : Type 0 where
  pub usec : ℕ
  pub sec : ℕ

-- `now_usec` and `now_sec` are what `gettimeofday` gives.
pub rtc_io_handler : ℕ → ℕ → ℕ → ℕ → Bool → Rtc → Result Rtc
rtc_io_handler now_usec now_sec offset len is_write r = do
  assert ((offset == 0) || (offset == 4))
  ok (if not is_write then record { usec = now_usec % 2 ^ 32; sec = now_sec % 2 ^ 32 } else r)
