-- ===== src/Device/Maps/Keys.antt =====
-- From the guest's reads to the handler of the keyboard.
use nju_ics2020_pa.Base.{
  ℕ, ◌+◌, ◌-◌, ◌%◌, ◌^◌, ◌≡◌, refl, ap, ◌∙◌, false, some, [], ◌∷◌, Result, ok, ◌>>=◌, arith,
  bit_and, bind_same,
}
use nju_ics2020_pa.Base.Bits.{bit_and_low}
use nju_ics2020_pa.Base.Bytes.{Bytes, read_le, write_le, read_le-write_le}
use nju_ics2020_pa.Memory.IoMap.{
  Io, IoMap, new_space, add_mmio_map, add_pio_map, map_inside, find_map_by_addr, check_bound,
  invoke_callback, map_read, pio_read_common,
}
use nju_ics2020_pa.Device.Alarm.{add_alarm_handle, no_alarm}
use nju_ics2020_pa.Device.Keyboard.{Keyboard, i8042_data_io_handler}
use nju_ics2020_pa.Device.Maps.{
  Board, Setup, i8042_callback, init_serial, init_vga, init_keyboard, init_audio, init_timer,
  init_device,
}

-- Before the initialisation, with a memory and a board of any contents.
abbrev pub blank : Bytes → Board → Setup
blank m b = record {
  io = record { io_space = m; p_space = 0; dev = b };
  pio = [];
  mmio = [];
  alarm = no_alarm;
}

-- The place of the data register: behind the pages of three devices and of the screen.
abbrev pub data_port_base : ℕ
data_port_base = 495616

-- A read of the data register: the handler's word, which stands in the devices' memory too.
abbrev pub key_word : Io Board → Result (ℕ × Io Board)
key_word io = do
  k ← i8042_data_io_handler 0 4 false (io.dev.keyboard)
  ok (
    k.data_port % 2 ^ 32,
    record io {
      io_space = write_le 4 io.io_space data_port_base k.data_port;
      dev = record io.dev { keyboard = k };
    },
  )

abbrev keyboard_map : ℕ → IoMap Board
keyboard_map addr = record {
  name = b'k' ∷ b'e' ∷ b'y' ∷ b'b' ∷ b'o' ∷ b'a' ∷ b'r' ∷ b'd' ∷ [];
  low = addr;
  high = addr + 3;
  space = data_port_base;
  callback = some (i8042_callback data_port_base);
}

word_back :
    (m : Bytes) (v : ℕ)
    → bit_and (read_le 4 (write_le 4 m data_port_base v) data_port_base) (2 ^ 32 - 1) ≡ v % 2 ^ 32
word_back m v =
    bit_and_low 32 (read_le 4 (write_le 4 m data_port_base v) data_port_base)
    ∙ ap (λ (x : ℕ). x % 2 ^ 32) (read_le-write_le 4 data_port_base v m)
    ∙ omega arith

abbrev after_key : Io Board → Keyboard → Io Board
after_key io k = record io {
  io_space = write_le 4 io.io_space data_port_base k.data_port;
  dev = record io.dev { keyboard = k };
}

abbrev masked : Io Board → Keyboard → Result (ℕ × Io Board)
masked io k =
    ok (bit_and (read_le 4 ((after_key io k).io_space) data_port_base) (2 ^ 32 - 1), after_key io k)

masked_word :
    (io : Io Board)
    → (i8042_data_io_handler 0 4 false (io.dev.keyboard) >>= masked io) ≡ key_word io
masked_word io =
    bind_same (i8042_data_io_handler 0 4 false (io.dev.keyboard)) (masked io)
      (λ k. ok (k.data_port % 2 ^ 32, after_key io k))
      (λ k. ap (λ x. ok (x, after_key io k)) (word_back io.io_space k.data_port))

port_read : (io : Io Board) → map_read 0x60 4 (some (keyboard_map 0x60)) io ≡ key_word io
unfolding map_read check_bound invoke_callback i8042_callback i8042_data_io_handler
port_read io = masked_word io

address_read :
    (io : Io Board) → map_read 0xa1000060 4 (some (keyboard_map 0xa1000060)) io ≡ key_word io
unfolding map_read check_bound invoke_callback i8042_callback i8042_data_io_handler
address_read io = masked_word io

-- Whatever the devices' memory holds before, init_device succeeds, and then a read of four bytes from the
-- keyboard's port or from its address does what the keyboard's handler does, and gives its word.
pub init_device-keys :
    (now_usec now_sec timer_intr set_flag : ℕ) (m : Bytes) (b : Board)
    → (s : Setup) × (init_device now_usec now_sec timer_intr set_flag (blank m b) ≡ ok s)
      × ((io : Io Board)
          → (pio_read_common 0x60 4 s.pio io ≡ key_word io)
            × (map_read 0xa1000060 4 (find_map_by_addr s.mmio 0xa1000060) io ≡ key_word io))
unfolding init_device init_serial init_timer init_vga init_keyboard init_audio new_space
    add_mmio_map add_pio_map add_alarm_handle pio_read_common find_map_by_addr map_inside no_alarm
init_device-keys u t a c m b = (_, refl, λ io. (port_read io, address_read io))
