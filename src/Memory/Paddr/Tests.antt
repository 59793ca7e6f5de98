-- ===== src/Memory/Paddr/Tests.antt =====
-- Accesses to memory on examples.
use nju_ics2020_pa.Base.{ℕ, ◌%◌, ◌≡◌, refl, none, [], ◌∷◌, arith, inr, ok, stop, undefined}
use nju_ics2020_pa.Base.Bytes.{byte_range, read_le, write_le}
use nju_ics2020_pa.Memory.IoMap.{Io, IoMap}
use nju_ics2020_pa.Memory.IoMap.Routing.{new_map}
use nju_ics2020_pa.Memory.Paddr.{Bus, paddr_read, paddr_write}
use nju_ics2020_pa.Memory.Paddr.Access.{
  IsGuest, paddr_write-ok, paddr_read-write, paddr_write-frame, paddr_crosses,
}

abbrev io : Io (Unit {0})
io = record { io_space = λ p. 0; p_space = 0; dev = tt }

abbrev screen : IoMap (Unit {0})
screen = new_map [] 0xa0000000 0 0x75300 none

abbrev bus : Bus (Unit {0})
bus = record { pmem = λ p. p % 256; io = io; mmio = screen ∷ []; pio = [] }

abbrev Guest : (addr : ℕ) → Type 0
Guest addr = IsGuest 0x80000000 addr 4

IsGuest-write : Guest 0x80000008
IsGuest-write = record { known = refl; low = omega arith; high = omega arith }

IsGuest-behind : Guest 0x80000010
IsGuest-behind = record { known = refl; low = omega arith; high = omega arith }

paddr_read-write_example :
    (bus' : Bus (Unit {0})) × (paddr_write 0x80000000 0x80000008 0xabcd 4 bus ≡ ok bus')
    × (paddr_read 0x80000000 0x80000008 4 bus' ≡ ok (0xabcd % byte_range 4, bus'))
paddr_read-write_example = paddr_read-write 0x80000000 0x80000008 4 0xabcd bus IsGuest-write

-- The word behind the one written.
paddr_write-frame_example :
    (paddr_read 0x80000000 0x80000010 4 (record bus { pmem = write_le 4 bus.pmem 8 0xabcd })
      ≡ ok (read_le 4 bus.pmem 16, record bus { pmem = write_le 4 bus.pmem 8 0xabcd }))
    × (io ≡ io)
    × (bus.mmio ≡ bus.mmio)
    × (bus.pio ≡ bus.pio)
paddr_write-frame_example =
    paddr_write-frame 0x80000000 0x80000008 4 0xabcd 0x80000010 4 bus _ IsGuest-write IsGuest-behind
      (inr (omega arith)) (paddr_write-ok 0x80000000 0x80000008 4 0xabcd bus IsGuest-write)

paddr_crosses_example :
    (paddr_read 0x80000000 0x87fffffe 4 bus ≡ stop undefined)
    × (paddr_write 0x80000000 0x87fffffe 5 4 bus ≡ stop undefined)
paddr_crosses_example =
    paddr_crosses 0x80000000 0x87fffffe 4 5 bus refl (omega arith) (omega arith) (omega arith)
