-- ===== src/Memory/IoMap/Tests.antt =====
-- The maps of the devices on examples.
use nju_ics2020_pa.Base.{◌%◌, ◌^◌, ◌*◌, ◌<◌, ◌≡◌, refl, none, some, [], ◌∷◌, arith, ok}
use nju_ics2020_pa.Memory.IoMap.{Io, IoMap, new_space, map_read, map_write, io_space_max}
use nju_ics2020_pa.Memory.IoMap.Routing.{new_map, map_read-write}
use nju_ics2020_pa.Memory.IoMap.Space.{Packed, new_spaces, new_spaces-Packed}

abbrev io : Io (Unit {0})
io = record { io_space = λ p. 0; p_space = 0; dev = tt }

abbrev screen : IoMap (Unit {0})
screen = new_map [] 0xa0000000 0 0x75300 none

map_read-write_example :
    (io' : Io (Unit {0})) × (map_write 0xa0000010 0x1234 2 (some screen) io ≡ ok io')
    × (map_read 0xa0000010 2 (some screen) io' ≡ ok (0x1234 % 2 ^ (8 * 2), io'))
map_read-write_example =
    map_read-write 0xa0000010 2 0x1234 screen io (omega arith) (omega arith) (omega arith)
      (omega arith) (omega arith) refl

new_spaces-Packed_example : Packed 0 ((0, 8) ∷ (4096, 5000) ∷ []) 12288 × (12288 < io_space_max)
new_spaces-Packed_example =
    new_spaces-Packed (8 ∷ 5000 ∷ []) io (record io { p_space = 12288 })
      ((0, 8) ∷ (4096, 5000) ∷ []) refl (omega arith) (unfold new_spaces new_space in refl)
