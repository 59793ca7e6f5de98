-- ===== src/Riscv32/Image.antt =====
-- The built-in image of nemu/src/isa/riscv32/init.c, executed.
use nju_ics2020_pa.Base.{ℕ, zero, suc, ◌*◌, ◌^◌, ◌≡◌, refl, ok, ◌∙◌, arith, Result, ◌>>=◌, update}
use nju_ics2020_pa.Base.Bytes.{Bytes, read_le, write_le}
use nju_ics2020_pa.Memory.Paddr.{Bus, vaddr_ifetch, vaddr_read}
use nju_ics2020_pa.Memory.Paddr.Access.{IsGuest}
use nju_ics2020_pa.Memory.Paddr.Fetch.{vaddr_ifetch-ok, vaddr_read-ok, vaddr_write-ok}
use nju_ics2020_pa.Rtl.Machine.{Machine, Decode, nemu_end}
use nju_ics2020_pa.Riscv32.{pmem_base, isa_exec_once, init_isa, restart, img, image_start}
use nju_ics2020_pa.Riscv32.Spec.{lui, lw, sw, trap, spec, retire, set_reg}
use nju_ics2020_pa.Riscv32.Step.{isa_exec_once-spec}

-- Rounds of execution, each with the same garbage in the decoder's variables.
pub rounds : {D : Type 0} → ℕ → Decode → Machine D → Result (Machine D)
rounds zero garbage m = ok m
rounds (suc n) garbage m = isa_exec_once garbage m >>= λ x. rounds n garbage x.1

module _ {D : Type 0} (garbage : Decode) (m : Machine D) where
  -- The memory with the image, and after the image's store.
  abbrev loaded : Bytes
  loaded = write_le 16 m.bus.pmem image_start img

  abbrev stored : Bytes
  stored = write_le 4 loaded 0 0

  abbrev with_pmem : Bytes → Bus D
  with_pmem p = record m.bus { pmem = p }

  abbrev m₀ : Machine D
  m₀ = record m { pc = 0x80100000; gpr = update m.gpr 0 0; bus = with_pmem loaded }

  abbrev m₁ : Machine D
  m₁ = retire (set_reg 5 (2 ^ 12 * 0x80000) m₀)

  abbrev m₂ : Machine D
  m₂ = retire (record m₁ { bus = with_pmem stored })

  abbrev m₃ : Machine D
  m₃ = retire (set_reg 10 0 m₂)

  abbrev m₄ : Machine D
  m₄ =
      retire
        (record m₃ { nemu_state = record { state = nemu_end; halt_pc = 0x8010000c; halt_ret = 0 } })

  -- A fetch of the image's word.
  fetch₀ :
      vaddr_ifetch pmem_base 0x80100000 4 (with_pmem loaded) ≡ ok (0x800002b7, with_pmem loaded)
  unfolding read_le write_le
  fetch₀ =
      vaddr_ifetch-ok pmem_base 0x80100000 4 (with_pmem loaded)
        (record { known = refl; low = omega arith; high = omega arith })

  fetch₁ :
      vaddr_ifetch pmem_base 0x80100004 4 (with_pmem loaded) ≡ ok (0x0002a023, with_pmem loaded)
  unfolding read_le write_le
  fetch₁ =
      vaddr_ifetch-ok pmem_base 0x80100004 4 (with_pmem loaded)
        (record { known = refl; low = omega arith; high = omega arith })

  fetch₂ :
      vaddr_ifetch pmem_base 0x80100008 4 (with_pmem stored) ≡ ok (0x0002a503, with_pmem stored)
  unfolding read_le write_le
  fetch₂ =
      vaddr_ifetch-ok pmem_base 0x80100008 4 (with_pmem stored)
        (record { known = refl; low = omega arith; high = omega arith })

  fetch₃ :
      vaddr_ifetch pmem_base 0x8010000c 4 (with_pmem stored) ≡ ok (0x0000006b, with_pmem stored)
  unfolding read_le write_le
  fetch₃ =
      vaddr_ifetch-ok pmem_base 0x8010000c 4 (with_pmem stored)
        (record { known = refl; low = omega arith; high = omega arith })

  abbrev base : IsGuest pmem_base 0x80000000 4
  base = record { known = refl; low = omega arith; high = omega arith }

  round₀ : isa_exec_once garbage m₀ ≡ ok (0x80100004, m₁)
  unfolding spec
  round₀ =
      isa_exec_once-spec garbage m₀ (with_pmem loaded) (lui 5 0x80000) (omega arith, omega arith)
        fetch₀

  round₁ : isa_exec_once garbage m₁ ≡ ok (0x80100008, m₂)
  unfolding spec
  round₁ =
      isa_exec_once-spec garbage m₁ (with_pmem loaded) (sw 0 5 0)
        (omega arith, omega arith, omega arith) fetch₁
      ∙ rw (vaddr_write-ok pmem_base 0x80000000 4 (with_pmem loaded) base 0) refl

  loads : vaddr_read pmem_base 0x80000000 4 (with_pmem stored) ≡ ok (0, with_pmem stored)
  unfolding read_le write_le
  loads = vaddr_read-ok pmem_base 0x80000000 4 (with_pmem stored) base

  round₂ : isa_exec_once garbage m₂ ≡ ok (0x8010000c, m₃)
  unfolding spec
  round₂ =
      isa_exec_once-spec garbage m₂ (with_pmem stored) (lw 10 5 0)
        (omega arith, omega arith, omega arith) fetch₂
      ∙ rw loads refl

  round₃ : isa_exec_once garbage m₃ ≡ ok (0x80100010, m₄)
  unfolding spec
  round₃ = isa_exec_once-spec garbage m₃ (with_pmem stored) (trap 0) (omega arith) fetch₃

  initial : init_isa m ≡ m₀
  unfolding init_isa restart
  initial = refl

  -- From any machine, the built-in image runs for four rounds and ends with the good trap: `nemu_state`
  -- is NEMU_END with the address of the trap and the value zero.
  pub init_isa-rounds :
      (m' : Machine D) × (rounds 4 garbage (init_isa m) ≡ ok m')
      × (m'.nemu_state ≡ record { state = nemu_end; halt_pc = 0x8010000c; halt_ret = 0 })
  unfolding rounds
  init_isa-rounds = (m₄, rw (initial, round₀, round₁, round₂, round₃) refl, refl)
