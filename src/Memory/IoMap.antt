-- ===== src/Memory/IoMap.antt =====
-- nemu/src/device/io/{map,mmio,port-io}.c and nemu/include/device/map.h.
pub mod Space
pub mod Routing
pub mod Width
mod Tests
use nju_ics2020_pa.Base.{
  ℕ, zero, suc, ◌+◌, ◌-◌, ◌*◌, ◌/◌, ◌%◌, ◌^◌, Bool, true, false, ◌&&◌, List, [], ◌∷◌, ◌++◌, ltb,
  leb, ◌==◌, if◌then◌else◌, Result, ok, stop, assertion, ◌>>=◌, ◌>>◌, assert, defined, of_option,
  length, Option, none, some, bit_and,
}
use nju_ics2020_pa.Base.Bytes.{Bytes, read_le, write_le}

abbrev pub io_space_max : ℕ
io_space_max = 2 * 1024 * 1024

abbrev pub page_size : ℕ
page_size = 4096

-- The memory of the devices, how much of it is given out (`p_space - io_space`), and the state of the
-- devices themselves.
pub record Io (D : Type 0) : Type 0 where
  pub io_space : Bytes
  pub p_space : ℕ
  pub dev : D

-- A callback is given the offset, the length and whether it is a write.
abbrev pub Callback : Type 0 → Type 0
Callback D = ℕ → ℕ → Bool → Io D → Result (Io D)

-- `IOMap`; `space` is the place in `io_space`.
pub record IoMap (D : Type 0) : Type 0 where
  pub name : List ℕ
  pub low : ℕ
  pub high : ℕ
  pub space : ℕ
  pub callback : Option (Callback D)

abbrev pub nr_map_max : ℕ
nr_map_max = 16

abbrev port_io_space_max : ℕ
port_io_space_max = 65535

module _ {D : Type 0} where
  -- `(size + (PAGE_SIZE - 1)) & ~PAGE_MASK` drops the remainder by the page size. The sum is an `int`, whose
  -- overflow is undefined; no size is negative.
  unfoldable pub new_space : ℕ → Io D → Result (ℕ × Io D)
  new_space size io =
      let whole = (size + (page_size - 1)) / page_size * page_size in
      do
        defined (ltb (size + (page_size - 1)) (2 ^ 31))
        assert (ltb (io.p_space + whole) io_space_max)
        ok (io.p_space, record io { p_space = io.p_space + whole })

  unfoldable pub map_inside : IoMap D → ℕ → Bool
  map_inside map addr = leb map.low addr && leb addr map.high

  -- Without DIFF_TEST, `difftest_skip_ref()` is empty.
  unfoldable pub find_map_by_addr : List (IoMap D) → ℕ → Option (IoMap D)
  find_map_by_addr [] addr = none
  find_map_by_addr (m ∷ maps) addr =
      if map_inside m addr then some m else find_map_by_addr maps addr

  unfoldable pub check_bound : Option (IoMap D) → ℕ → Result (IoMap D)
  check_bound none addr = stop assertion
  check_bound (some m) addr = assert (leb addr m.high && leb m.low addr) >> ok m

  unfoldable pub invoke_callback : Option (Callback D) → Callback D
  invoke_callback none offset len is_write io = ok io
  invoke_callback (some c) offset len is_write io = c offset len is_write io

  -- A word is read whatever the length, and masked.
  unfoldable pub map_read : ℕ → ℕ → Option (IoMap D) → Io D → Result (ℕ × Io D)
  map_read addr len map io = do
    assert (leb 1 len && leb len 8)
    m ← check_bound map addr
    let offset = addr - m.low
    io' ← invoke_callback m.callback offset len false io
    defined (leb (m.space + offset + 4) io_space_max)
    ok (bit_and (read_le 4 io'.io_space (m.space + offset)) (2 ^ (8 * len) - 1), io')

  -- `memcpy` from a word of four bytes.
  pub map_write : ℕ → ℕ → ℕ → Option (IoMap D) → Io D → Result (Io D)
  map_write addr data_ len map io = do
    assert (leb 1 len && leb len 8)
    m ← check_bound map addr
    let offset = addr - m.low
    defined (leb len 4 && leb (m.space + offset + len) io_space_max)
    invoke_callback m.callback offset len true
        (record io { io_space = write_le len io.io_space (m.space + offset) data_ })

  -- `add_mmio_map`: the maps in the order of registration.
  unfoldable pub add_mmio_map :
      List ℕ → ℕ → ℕ → ℕ → Option (Callback D) → List (IoMap D) → Result (List (IoMap D))
  add_mmio_map name addr space len callback maps =
      assert (ltb (length maps) nr_map_max)
      >> ok (
          maps
          ++ record {
            name = name;
            low = addr;
            high = (addr + len + 2 ^ 32 - 1) % 2 ^ 32;
            space = space;
            callback = callback;
          }
            ∷ [])

  unfoldable pub add_pio_map :
      List ℕ → ℕ → ℕ → ℕ → Option (Callback D) → List (IoMap D) → Result (List (IoMap D))
  add_pio_map name addr space len callback maps =
      assert (leb (addr + len) port_io_space_max) >> add_mmio_map name addr space len callback maps

  unfoldable pub pio_read_common : ℕ → ℕ → List (IoMap D) → Io D → Result (ℕ × Io D)
  pio_read_common addr len maps io = do
    assert (leb (addr + len) port_io_space_max)
    m ← of_option assertion (find_map_by_addr maps addr)
    map_read addr len (some m) io

  pub pio_write_common : ℕ → ℕ → ℕ → List (IoMap D) → Io D → Result (Io D)
  pio_write_common addr data_ len maps io = do
    assert (leb (addr + len) port_io_space_max)
    m ← of_option assertion (find_map_by_addr maps addr)
    map_write addr data_ len (some m) io
