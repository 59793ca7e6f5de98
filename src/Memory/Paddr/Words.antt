-- ===== src/Memory/Paddr/Words.antt =====
-- The guest's memory stays one of bytes, and its reads give words.
use nju_ics2020_pa.Base.{
  ℕ, zero, suc, ◌+◌, ◌-◌, ◌*◌, ◌/◌, ◌%◌, ◌^◌, ◌≤◌, ◌<◌, ◌≡◌, refl, true, ok, arith, leb, Holds,
  Holds-bind, Holds-any, Holds-assert, Holds-defined, subst, Bool-cases, inl, inr, update,
}
use nju_ics2020_pa.Base.Bytes.{Bytes, read_le, write_le, byte_range, range-pow}
use nju_ics2020_pa.Memory.IoMap.{Io, find_map_by_addr, map_read, map_write}
use nju_ics2020_pa.Memory.IoMap.Width.{map_read-lt}
use nju_ics2020_pa.Memory.Paddr.{
  Bus, pmem_size, is_len, in_pmem, pmem_read, pmem_write, paddr_read, paddr_write, vaddr_read,
  vaddr_write, vaddr_ifetch,
}

abbrev pub IsBytes : Bytes → Type 0
IsBytes m = (p : ℕ) → m p < 256

read_le-lt : (n p : ℕ) (m : Bytes) → IsBytes m → read_le n m p < byte_range n
unfolding read_le
read_le-lt zero p m h = omega arith
read_le-lt (suc n) p m h = omega (arith, h p, read_le-lt n (suc p) m h)

write_le-IsBytes : (n p v : ℕ) (m : Bytes) → IsBytes m → IsBytes (write_le n m p v)
unfolding write_le
write_le-IsBytes zero p v m h = h
write_le-IsBytes (suc n) p v m h =
    write_le-IsBytes n (suc p) (v / 256) (update m p (v % 256)) λ q. ground (arith, h q)

-- A read of `len` bytes gives a number of that size.
abbrev pub Read : {D : Type 0} → ℕ → Bus D → ℕ × Bus D → Type 0
Read len bus (v, bus') = (v < 2 ^ (8 * len)) × (bus'.pmem ≡ bus.pmem)

is_len-le : (len : ℕ) → is_len len ≡ true → len ≤ 4
is_len-le len h = ground arith

module _ {D : Type 0} where
  module _ (base : ℕ) where
    pmem_read-lt :
        (addr len : ℕ) (bus : Bus D)
        → IsBytes bus.pmem
        → Holds (λ (v : ℕ). v < 2 ^ (8 * len)) (pmem_read base addr len bus)
    unfolding pmem_read
    pmem_read-lt addr len bus h = Holds-assert _ (is_len len) _ λ known.
        Holds-defined _ (leb (addr - base + len) pmem_size)
          (ok (read_le len bus.pmem (addr - base)))
          λ room.
            subst (λ r. read_le len bus.pmem (addr - base) < r)
              (range-pow len (is_len-le len known)) (read_le-lt len (addr - base) bus.pmem h)

    paddr_read-Read :
        (addr len : ℕ) (bus : Bus D)
        → IsBytes bus.pmem
        → Holds (Read len bus) (paddr_read base addr len bus)
    unfolding paddr_read
    paddr_read-Read addr len bus h = elim (Bool-cases (in_pmem base addr)) [
      | inl here ↦ rw here (
          Holds-bind (λ v. v < 2 ^ (8 * len)) (Read len bus) (pmem_read base addr len bus)
            (λ v. ok (v, bus)) (pmem_read-lt addr len bus h) λ v lt. (lt, refl))
      | inr there ↦ rw there (
          Holds-bind (λ (x : ℕ × Io D). x.0 < 2 ^ (8 * len)) (Read len bus)
            (map_read addr len (find_map_by_addr bus.mmio addr) bus.io) _
            (map_read-lt addr len (find_map_by_addr bus.mmio addr) bus.io) λ x lt. (lt, refl))
    ]

    pub vaddr_read-Read :
        (addr len : ℕ) (bus : Bus D)
        → IsBytes bus.pmem
        → Holds (Read len bus) (vaddr_read base addr len bus)
    unfolding vaddr_read
    vaddr_read-Read addr len bus h =
        Holds-assert (Read len bus) (is_len len) _ λ known. paddr_read-Read addr len bus h

    pub vaddr_ifetch-Read :
        (addr len : ℕ) (bus : Bus D)
        → IsBytes bus.pmem
        → Holds (Read len bus) (vaddr_ifetch base addr len bus)
    unfolding vaddr_ifetch
    vaddr_ifetch-Read addr len bus h =
        Holds-assert (Read len bus) (is_len len) _ λ known. paddr_read-Read addr len bus h

    pmem_write-IsBytes :
        (addr v len : ℕ) (bus : Bus D)
        → IsBytes bus.pmem
        → Holds (λ (b : Bus D). IsBytes b.pmem) (pmem_write base addr v len bus)
    unfolding pmem_write
    pmem_write-IsBytes addr v len bus h =
        Holds-assert (λ (b : Bus D). IsBytes b.pmem) (is_len len) _
          λ known.
            Holds-defined (λ (b : Bus D). IsBytes b.pmem) (leb (addr - base + len) pmem_size)
              (ok (record bus { pmem = write_le len bus.pmem (addr - base) v }))
              λ room. write_le-IsBytes len (addr - base) v bus.pmem h

    paddr_write-IsBytes :
        (addr v len : ℕ) (bus : Bus D)
        → IsBytes bus.pmem
        → Holds (λ (b : Bus D). IsBytes b.pmem) (paddr_write base addr v len bus)
    unfolding paddr_write
    paddr_write-IsBytes addr v len bus h = elim (Bool-cases (in_pmem base addr)) [
      | inl here ↦ rw here (pmem_write-IsBytes addr v len bus h)
      | inr there ↦ rw there (
          Holds-any (λ (b : Bus D). IsBytes b.pmem)
            (map_write addr v len (find_map_by_addr bus.mmio addr) bus.io)
            (λ io'. ok (record bus { io = io' })) λ io. h)
    ]

    pub vaddr_write-IsBytes :
        (addr v len : ℕ) (bus : Bus D)
        → IsBytes bus.pmem
        → Holds (λ (b : Bus D). IsBytes b.pmem) (vaddr_write base addr v len bus)
    unfolding vaddr_write
    vaddr_write-IsBytes addr v len bus h =
        Holds-assert (λ (b : Bus D). IsBytes b.pmem) (is_len len) _
          λ known. paddr_write-IsBytes addr v len bus h
