-- ===== src/Memory/Paddr/Fetch.antt =====
-- Fetches from the guest's memory.
use nju_ics2020_pa.Base.{ℕ, ◌-◌, ◌≡◌, ok}
use nju_ics2020_pa.Base.Bytes.{read_le, write_le}
use nju_ics2020_pa.Memory.Paddr.{Bus, vaddr_ifetch, vaddr_read, vaddr_write}
use nju_ics2020_pa.Memory.Paddr.Access.{IsGuest, paddr_read-ok, paddr_write-ok}

module _ {D : Type 0} (base addr len : ℕ) (bus : Bus D) (g : IsGuest base addr len) where
  pub vaddr_ifetch-ok :
      vaddr_ifetch base addr len bus ≡ ok (read_le len bus.pmem (addr - base), bus)
  unfolding vaddr_ifetch
  vaddr_ifetch-ok = rw (g.known) (paddr_read-ok base addr len bus g)

  pub vaddr_read-ok : vaddr_read base addr len bus ≡ ok (read_le len bus.pmem (addr - base), bus)
  unfolding vaddr_read
  vaddr_read-ok = rw (g.known) (paddr_read-ok base addr len bus g)

  pub vaddr_write-ok :
      (v : ℕ)
      → vaddr_write base addr v len bus
        ≡ ok (record bus { pmem = write_le len bus.pmem (addr - base) v })
  unfolding vaddr_write
  vaddr_write-ok v = rw (g.known) (paddr_write-ok base addr len v bus g)
