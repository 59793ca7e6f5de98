-- ===== src/Device/Maps/Tests.antt =====
-- The devices' maps on an example.
use nju_ics2020_pa.Base.{◌≡◌, [], ok}
use nju_ics2020_pa.Memory.IoMap.{Io, find_map_by_addr, map_read, pio_read_common}
use nju_ics2020_pa.Device.Keyboard.{init_i8042}
use nju_ics2020_pa.Device.Maps.{Board, Setup, init_device}
use nju_ics2020_pa.Device.Maps.Keys.{blank, key_word, init_device-keys}

abbrev board : Board
board = record { keyboard = init_i8042; stderr = [] }

init_device-keys_example :
    (s : Setup) × (init_device 7 8 1 2 (blank (λ p. 0) board) ≡ ok s)
    × ((io : Io Board)
        → (pio_read_common 0x60 4 s.pio io ≡ key_word io)
          × (map_read 0xa1000060 4 (find_map_by_addr s.mmio 0xa1000060) io ≡ key_word io))
init_device-keys_example = init_device-keys 7 8 1 2 (λ p. 0) board
