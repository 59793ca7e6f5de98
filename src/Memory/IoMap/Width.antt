-- ===== src/Memory/IoMap/Width.antt =====
-- The mask of `map_read` cuts what the device gives.
use native.Mathlib.Nat.{mod-lt, one-le-pow}
use nju_ics2020_pa.Base.{
  ℕ, ◌+◌, ◌-◌, ◌*◌, ◌^◌, ◌<◌, arith, leb, ◌&&◌, Option, ok, ◌>>◌, defined, bit_and, Holds,
  Holds-any, Holds-assert, Holds-defined, subst, sym, false,
}
use nju_ics2020_pa.Base.Bits.{bit_and_low}
use nju_ics2020_pa.Base.Bytes.{read_le}
use nju_ics2020_pa.Memory.IoMap.{Io, IoMap, map_read, invoke_callback, check_bound, io_space_max}

pow_pos : (k : ℕ) → 0 < 2 ^ k
pow_pos k = omega (arith, one-le-pow k 2)

module _ {D : Type 0} where
  abbrev Narrow : ℕ → ℕ × Io D → Type 0
  Narrow len (v, io) = v < 2 ^ (8 * len)

  -- What `map_read` does once the map is found.
  masked :
      (len at : ℕ) (io : Io D)
      → Holds (Narrow len) (
          defined (leb (at + 4) io_space_max)
          >> ok (bit_and (read_le 4 io.io_space at) (2 ^ (8 * len) - 1), io))
  masked len at io = Holds-defined (Narrow len) (leb (at + 4) io_space_max) _ λ room.
      subst (λ (v : ℕ). v < 2 ^ (8 * len)) (sym (bit_and_low (8 * len) (read_le 4 io.io_space at)))
        (mod-lt (read_le 4 io.io_space at) (pow_pos (8 * len)))

  pub map_read-lt :
      (addr len : ℕ) (map : Option (IoMap D)) (io : Io D)
      → Holds (λ (x : ℕ × Io D). x.0 < 2 ^ (8 * len)) (map_read addr len map io)
  unfolding map_read
  map_read-lt addr len map io = Holds-assert (Narrow len) (leb 1 len && leb len 8) _ λ known.
      Holds-any (Narrow len) (check_bound map addr) _ λ m.
        Holds-any (Narrow len) (invoke_callback m.callback (addr - m.low) len false io) _
          λ io'. masked len (m.space + (addr - m.low)) io'
