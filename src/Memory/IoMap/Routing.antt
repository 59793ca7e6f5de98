-- ===== src/Memory/IoMap/Routing.antt =====
-- Which map an address is routed to, and what `map_read` and `map_write` do there.
use nju_ics2020_pa.Base.{
  ℕ, ◌+◌, ◌-◌, ◌*◌, ◌%◌, ◌^◌, ◌≤◌, ◌<◌, ◌≡◌, refl, Bool, true, false, ◌&&◌, List, [], ◌∷◌, ◌++◌, ok,
  stop, assertion, arith, ltb, leb, Holds, Holds-ok, length, Option, none, some, if◌then◌else◌,
  Bool-cases, inl, inr, ap, ◌∙◌,
}
use nju_ics2020_pa.Base.Bits.{bit_and_low}
use nju_ics2020_pa.Base.Bytes.{read_le, write_le, read_word-write_le}
use nju_ics2020_pa.Memory.IoMap.{
  Io, IoMap, io_space_max, nr_map_max, map_inside, find_map_by_addr, add_mmio_map, check_bound,
  map_read, map_write, Callback, invoke_callback,
}

module _ {D : Type 0} where
  abbrev pub or_else : Option (IoMap D) → Option (IoMap D) → Option (IoMap D)
  or_else none b = b
  or_else (some a) b = some a

  find-append :
      (maps more : List (IoMap D)) (addr : ℕ)
      → find_map_by_addr (maps ++ more) addr
        ≡ or_else (find_map_by_addr maps addr) (find_map_by_addr more addr)
  unfolding find_map_by_addr
  find-append [] more addr = refl
  find-append (m ∷ maps) more addr = ground (arith, find-append maps more addr)

  -- The map that `add_mmio_map` registers.
  abbrev pub new_map : List ℕ → ℕ → ℕ → ℕ → Option (Callback D) → IoMap D
  new_map name addr space len callback = record {
    name = name;
    low = addr;
    high = (addr + len + 2 ^ 32 - 1) % 2 ^ 32;
    space = space;
    callback = callback;
  }

  find-new :
      (name : List ℕ) (addr space len : ℕ) (callback : Option (Callback D)) (a : ℕ)
      → 0 < len
      → addr + len ≤ 2 ^ 32
      → find_map_by_addr (new_map name addr space len callback ∷ []) a ≡ (
          if leb addr a && ltb a (addr + len)
          then some (new_map name addr space len callback)
          else none)
  unfolding find_map_by_addr map_inside
  find-new name addr space len callback a pos fits =
      ap (λ (b : Bool). if b then some (new_map name addr space len callback) else none) same
    where
      same :
          (leb addr a && leb a ((addr + len + 2 ^ 32 - 1) % 2 ^ 32))
          ≡ (leb addr a && ltb a (addr + len))
      same = ground arith

  -- After a registration of a range that ends below 2 ^ 32 and that succeeds, an address that an earlier map covers is routed as before; of
  -- the others exactly those in `[addr, addr + len)` are routed to the new map.
  pub add_mmio_map-find :
      (name : List ℕ) (addr space len : ℕ) (callback : Option (Callback D))
      (maps maps' : List (IoMap D)) (a : ℕ)
      → 0 < len
      → addr + len ≤ 2 ^ 32
      → add_mmio_map name addr space len callback maps ≡ ok maps'
      → find_map_by_addr maps' a
        ≡ or_else (find_map_by_addr maps a) (
            if leb addr a && ltb a (addr + len)
            then some (new_map name addr space len callback)
            else none)
  unfolding add_mmio_map
  add_mmio_map-find name addr space len callback maps maps' a pos fits h =
      Holds-ok (λ ms. find_map_by_addr ms a ≡ or_else (find_map_by_addr maps a) (route a))
        (add_mmio_map name addr space len callback maps) maps' added h
    where
      route : ℕ → Option (IoMap D)
      route b =
          if leb addr b && ltb b (addr + len)
          then some (new_map name addr space len callback)
          else none

      alone : find_map_by_addr (new_map name addr space len callback ∷ []) a ≡ route a
      alone = find-new name addr space len callback a pos fits

      added :
          Holds
            (λ ms. find_map_by_addr ms a ≡ or_else (find_map_by_addr maps a) (route a))
            (add_mmio_map name addr space len callback maps)
      added = elim (Bool-cases (ltb (length maps) nr_map_max)) [
        | inl room ↦ rw room (find-append maps _ a ∙ ap (or_else (find_map_by_addr maps a)) alone)
        | inr full ↦ rw full tt
      ]

  -- A map that is found covers the address.
  find-inside :
      (maps : List (IoMap D)) (a : ℕ) (m : IoMap D)
      → find_map_by_addr maps a ≡ some m
      → (m.low ≤ a) × (a ≤ m.high)
  unfolding find_map_by_addr map_inside
  find-inside [] a m h = absurd (ground arith)
  find-inside (n ∷ maps) a m h = ground (arith, find-inside maps a m)

  -- What a map's devices see of a read of `len` bytes, once their callback has run.
  map_read-ok :
      (a len : ℕ) (m : IoMap D) (io io' : Io D)
      → 1 ≤ len
      → len ≤ 4
      → m.low ≤ a
      → a ≤ m.high
      → m.space + (a - m.low) + 4 ≤ io_space_max
      → invoke_callback m.callback (a - m.low) len false io ≡ ok io'
      → map_read a len (some m) io
        ≡ ok (read_le 4 io'.io_space (m.space + (a - m.low)) % 2 ^ (8 * len), io')
  unfolding map_read check_bound
  map_read-ok a len m io io' h1 h4 low high fits c =
      let known : (leb 1 len && leb len 8) ≡ true = ground arith in
      let inside : (leb a m.high && leb m.low a) ≡ true = ground arith in
      let room : leb (m.space + (a - m.low) + 4) io_space_max ≡ true = ground arith in
      rw (known, inside, c, room) (ap (λ v. ok (v, io')) (bit_and_low (8 * len) _))

  map_write-plain :
      (a len v : ℕ) (m : IoMap D) (io : Io D)
      → 1 ≤ len
      → len ≤ 4
      → m.low ≤ a
      → a ≤ m.high
      → m.space + (a - m.low) + len ≤ io_space_max
      → m.callback ≡ none
      → map_write a v len (some m) io
        ≡ ok (record io { io_space = write_le len io.io_space (m.space + (a - m.low)) v })
  unfolding map_write check_bound invoke_callback
  map_write-plain a len v m io h1 h4 low high fits c =
      let known : (leb 1 len && leb len 8) ≡ true = ground arith in
      let inside : (leb a m.high && leb m.low a) ≡ true = ground arith in
      let room : (leb len 4 && leb (m.space + (a - m.low) + len) io_space_max) ≡ true =
        ground arith in
      rw (known, inside, room, c)

  -- No map, no access.
  pub map_read-none : (a len : ℕ) (io : Io D) → map_read a len none io ≡ stop assertion
  unfolding map_read check_bound
  map_read-none a len io = ground arith

  pub map_write-none : (a len v : ℕ) (io : Io D) → map_write a v len none io ≡ stop assertion
  unfolding map_write check_bound
  map_write-none a len v io = ground arith

  -- On a map without a callback whose bytes lie in the devices' memory, a write of 1 to 4 bytes succeeds,
  -- and a read of the same length at the same address gives what was written, cut to the length.
  pub map_read-write :
      (a len v : ℕ) (m : IoMap D) (io : Io D)
      → 1 ≤ len
      → len ≤ 4
      → m.low ≤ a
      → a ≤ m.high
      → m.space + (a - m.low) + 4 ≤ io_space_max
      → m.callback ≡ none
      → (io' : Io D) × (map_write a v len (some m) io ≡ ok io')
        × (map_read a len (some m) io' ≡ ok (v % 2 ^ (8 * len), io'))
  map_read-write a len v m io h1 h4 low high fits c =
      let io' : Io D = record io {
        io_space = write_le len io.io_space (m.space + (a - m.low)) v;
      } in
      (
        io',
        map_write-plain a len v m io h1 h4 low high (omega arith) c,
        map_read-ok a len m io' io' h1 h4 low high fits (silent m.callback c _ len false io')
            ∙ ap (λ x. ok (x, io'))
                (read_word-write_le len (m.space + (a - m.low)) v io.io_space h4),
      )
    where
      silent :
          (k : Option (Callback D))
          → k ≡ none
          → (o n : ℕ) (w : Bool) (x : Io D) → invoke_callback k o n w x ≡ ok x
      silent k e o n w x = unfold invoke_callback in rw e
