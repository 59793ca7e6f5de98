-- ===== src/Memory/Paddr.antt =====
-- nemu/src/memory/paddr.c and nemu/include/memory/vaddr.h, on a 32-bit guest: `isa_vaddr_check` is
-- always MEM_RET_OK, and a virtual address is a physical one.
pub mod Access
pub mod Words
pub mod Fetch
mod Tests
use nju_ics2020_pa.Base.{
  ℕ, zero, suc, ◌+◌, ◌-◌, ◌*◌, ◌/◌, ◌%◌, ◌^◌, Bool, true, false, ◌&&◌, ◌||◌, List, [], ◌∷◌, ◌++◌,
  ltb, leb, ◌==◌, if◌then◌else◌, Result, ok, stop, assertion, undefined, ◌>>=◌, ◌>>◌, assert,
  defined, of_option, length, Option, none, some,
}
use nju_ics2020_pa.Base.Bytes.{Bytes, read_le, write_le}
use nju_ics2020_pa.Memory.IoMap.{Io, IoMap, find_map_by_addr, map_read, map_write}

abbrev pub pmem_size : ℕ
pmem_size = 128 * 1024 * 1024

-- The guest's memory and what is beside it on the bus.
pub record Bus (D : Type 0) : Type 0 where
  pub pmem : Bytes
  pub io : Io D
  pub mmio : List (IoMap D)
  pub pio : List (IoMap D)

-- The host's view of `pmem`, from its first byte: `guest_to_host` and its inverse as offsets. The
-- subtraction is of `pmem` minus the pointer.
abbrev pub guest_to_host : ℕ → ℕ
guest_to_host addr = addr

abbrev pub host_to_guest : ℕ → ℕ
host_to_guest offset = (2 ^ 32 - offset % 2 ^ 32) % 2 ^ 32

-- The lengths that the `switch` knows.
abbrev pub is_len : ℕ → Bool
is_len len = len == 1 || (len == 2 || len == 4)

pub in_pmem : ℕ → ℕ → Bool
in_pmem pmem_base addr = leb pmem_base addr && leb addr (pmem_base + pmem_size - 1)

module _ {D : Type 0} where
  -- `*(word_t *)guest_to_host(addr)`
  pub host_word : Bus D → ℕ → Result ℕ
  host_word bus addr =
      defined (leb (guest_to_host addr + 4) pmem_size)
      >> ok (read_le 4 bus.pmem (guest_to_host addr))

  module _ (pmem_base : ℕ) where
    pub pmem_read : ℕ → ℕ → Bus D → Result ℕ
    pmem_read addr len bus = do
      assert (is_len len)
      defined (leb (addr - pmem_base + len) pmem_size)
      ok (read_le len bus.pmem (addr - pmem_base))

    pub pmem_write : ℕ → ℕ → ℕ → Bus D → Result (Bus D)
    pmem_write addr data_ len bus = do
      assert (is_len len)
      defined (leb (addr - pmem_base + len) pmem_size)
      ok (record bus { pmem = write_le len bus.pmem (addr - pmem_base) data_ })

    -- A read may change the devices.
    pub paddr_read : ℕ → ℕ → Bus D → Result (ℕ × Bus D)
    paddr_read addr len bus =
        if in_pmem pmem_base addr
        then (pmem_read addr len bus >>= λ v. ok (v, bus))
        else (map_read addr len (find_map_by_addr bus.mmio addr) bus.io >>= λ x.
            ok (x.0, record bus { io = x.1 }))

    pub paddr_write : ℕ → ℕ → ℕ → Bus D → Result (Bus D)
    paddr_write addr data_ len bus =
        if in_pmem pmem_base addr
        then pmem_write addr data_ len bus
        else (map_write addr data_ len (find_map_by_addr bus.mmio addr) bus.io >>= λ io'.
            ok (record bus { io = io' }))

    pub vaddr_read : ℕ → ℕ → Bus D → Result (ℕ × Bus D)
    vaddr_read addr len bus = assert (is_len len) >> paddr_read addr len bus

    pub vaddr_write : ℕ → ℕ → ℕ → Bus D → Result (Bus D)
    vaddr_write addr data_ len bus = assert (is_len len) >> paddr_write addr data_ len bus

    pub vaddr_ifetch : ℕ → ℕ → Bus D → Result (ℕ × Bus D)
    vaddr_ifetch addr len bus = assert (is_len len) >> paddr_read addr len bus
