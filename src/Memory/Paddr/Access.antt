-- ===== src/Memory/Paddr/Access.antt =====
-- What reads and writes of the guest's memory do.
use nju_ics2020_pa.Base.{
  ℕ, ◌+◌, ◌-◌, ◌%◌, ◌^◌, ◌≤◌, ◌<◌, ◌≡◌, ◌≢◌, refl, true, false, ◌&&◌, ok, stop, assertion,
  undefined, arith, leb, none, subst, ok-injective, inl, inr, ap, ◌∙◌, sym, ◌⊎◌,
}
use nju_ics2020_pa.Base.Bytes.{
  read_le, write_le, read_le-write_le, byte_range, read_le-frame, write_le-below, write_le-above,
}
use nju_ics2020_pa.Memory.IoMap.{find_map_by_addr}
use nju_ics2020_pa.Memory.IoMap.Routing.{map_read-none, map_write-none}
use nju_ics2020_pa.Memory.Paddr.{
  Bus, pmem_size, is_len, in_pmem, pmem_read, pmem_write, paddr_read, paddr_write, guest_to_host,
  host_to_guest,
}

-- The `len` bytes from `addr` lie in the guest's memory.
pub record IsGuest (base addr len : ℕ) : Type 0 where
  pub known : is_len len ≡ true
  pub low : base ≤ addr
  pub high : addr + len ≤ base + pmem_size

is_len_pos : (len : ℕ) → is_len len ≡ true → 0 < len
is_len_pos len h = ground arith

module _ {D : Type 0} (base : ℕ) where
  pub paddr_read-ok :
      (addr len : ℕ) (bus : Bus D)
      → IsGuest base addr len
      → paddr_read base addr len bus ≡ ok (read_le len bus.pmem (addr - base), bus)
  unfolding paddr_read in_pmem pmem_read
  paddr_read-ok addr len bus g =
      let here : (leb base addr && leb addr (base + pmem_size - 1)) ≡ true =
        ground (arith, is_len_pos len g.known) in
      let room : leb (addr - base + len) pmem_size ≡ true = ground arith in rw (here, g.known, room)

  pub paddr_write-ok :
      (addr len v : ℕ) (bus : Bus D)
      → IsGuest base addr len
      → paddr_write base addr v len bus
        ≡ ok (record bus { pmem = write_le len bus.pmem (addr - base) v })
  unfolding paddr_write in_pmem pmem_write
  paddr_write-ok addr len v bus g =
      let here : (leb base addr && leb addr (base + pmem_size - 1)) ≡ true =
        ground (arith, is_len_pos len g.known) in
      let room : leb (addr - base + len) pmem_size ≡ true = ground arith in rw (here, g.known, room)

  -- An access to the guest's memory of 1, 2 or 4 bytes: the write succeeds, and a read of the same
  -- bytes gives what was written, cut to the length, and leaves everything as it is.
  pub paddr_read-write :
      (addr len v : ℕ) (bus : Bus D)
      → IsGuest base addr len
      → (bus' : Bus D) × (paddr_write base addr v len bus ≡ ok bus')
        × (paddr_read base addr len bus' ≡ ok (v % byte_range len, bus'))
  paddr_read-write addr len v bus g =
      let bus' : Bus D = record bus { pmem = write_le len bus.pmem (addr - base) v } in
      (
        bus',
        paddr_write-ok addr len v bus g,
        paddr_read-ok addr len bus' g
            ∙ ap (λ x. ok (x, bus')) (read_le-write_le len (addr - base) v bus.pmem),
      )

  -- After a write that succeeds, a read of other bytes of the guest's memory gives what it gave before,
  -- and the devices and the tables of maps are unchanged.
  pub paddr_write-frame :
      (addr len v b n : ℕ) (bus bus' : Bus D)
      → IsGuest base addr len
      → IsGuest base b n
      → (b + n ≤ addr) ⊎ (addr + len ≤ b)
      → paddr_write base addr v len bus ≡ ok bus'
      → (paddr_read base b n bus' ≡ ok (read_le n bus.pmem (b - base), bus'))
        × (bus'.io ≡ bus.io)
        × (bus'.mmio ≡ bus.mmio)
        × (bus'.pio ≡ bus.pio)
  paddr_write-frame addr len v b n bus bus' g k apart h =
      subst
        (λ (x : Bus D).
          (paddr_read base b n x ≡ ok (read_le n bus.pmem (b - base), x))
          × (x.io ≡ bus.io)
          × (x.mmio ≡ bus.mmio)
          × (x.pio ≡ bus.pio))
        same
        (
          paddr_read-ok b n after k
              ∙ ap (λ x. ok (x, after))
                  (read_le-frame n (b - base) bus.pmem _ λ q p₁ p₂. kept q p₁ p₂ apart),
          refl,
          refl,
          refl,
        )
    where
      after : Bus D
      after = record bus { pmem = write_le len bus.pmem (addr - base) v }

      same : after ≡ bus'
      same = ok-injective (sym (paddr_write-ok addr len v bus g) ∙ h)

      kept :
          (q : ℕ)
          → b - base ≤ q
          → q < b - base + n
          → (b + n ≤ addr) ⊎ (addr + len ≤ b)
          → write_le len bus.pmem (addr - base) v q ≡ bus.pmem q
      kept q p₁ p₂ (inl below) =
          write_le-below len (addr - base) q v bus.pmem (omega (arith, g.low, k.low))
      kept q p₁ p₂ (inr above) =
          write_le-above len (addr - base) q v bus.pmem (omega (arith, g.low, k.low))

  -- Where neither the guest's memory nor a map covers the address, both accesses run into an
  -- assertion.
  pub paddr_unmapped :
      (addr len v : ℕ) (bus : Bus D)
      → in_pmem base addr ≡ false
      → find_map_by_addr bus.mmio addr ≡ none
      → (paddr_read base addr len bus ≡ stop assertion)
        × (paddr_write base addr v len bus ≡ stop assertion)
  unfolding paddr_read paddr_write
  paddr_unmapped addr len v bus out unmapped = (
    rw (out, unmapped, map_read-none addr len bus.io),
    rw (out, unmapped, map_write-none addr len v bus.io),
  )

  -- An access of 1, 2 or 4 bytes that starts inside the guest's memory and ends behind it is outside
  -- the array `pmem`, so that both the read and the write are undefined.
  pub paddr_crosses :
      (addr len v : ℕ) (bus : Bus D)
      → is_len len ≡ true
      → base ≤ addr
      → addr < base + pmem_size
      → base + pmem_size < addr + len
      → (paddr_read base addr len bus ≡ stop undefined)
        × (paddr_write base addr v len bus ≡ stop undefined)
  unfolding paddr_read paddr_write in_pmem pmem_read pmem_write
  paddr_crosses addr len v bus known low inside across =
      let here : (leb base addr && leb addr (base + pmem_size - 1)) ≡ true = ground arith in
      let over : leb (addr - base + len) pmem_size ≡ false = ground arith in
      (rw (here, known, over), rw (here, known, over))

-- For a 32-bit address other than 0 and 2 ^ 31, `host_to_guest` does not undo `guest_to_host`.
pub host_to_guest-guest_to_host :
    (addr : ℕ)
    → addr < 2 ^ 32
    → addr ≢ 0
    → addr ≢ 2 ^ 31
    → host_to_guest (guest_to_host addr) ≢ addr
host_to_guest-guest_to_host addr fits h₁ h₂ = λ e. omega arith
