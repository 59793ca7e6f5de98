-- ===== src/Riscv32/Spec.antt =====
-- The instructions as the manual of RISC-V gives them, and what they do.
use nju_ics2020_pa.Base.{ℕ, ◌+◌, ◌*◌, ◌/◌, ◌%◌, ◌^◌, ◌<◌, update, Result, ok, ◌>>=◌}
use nju_ics2020_pa.Base.Int.{signed}
use nju_ics2020_pa.Memory.Paddr.{vaddr_read, vaddr_write}
use nju_ics2020_pa.Rtl.COp.{word_range, of_sword}
use nju_ics2020_pa.Rtl.Machine.{Machine, nemu_end}
use nju_ics2020_pa.Riscv32.{pmem_base}

-- `lui rd, imm`, `lw rd, imm(rs1)`, `sw rs2, imm(rs1)`, and the emulator's trap, with whatever its
-- upper bits are.
pub data Instr : Type 0 where
  lui : ℕ → ℕ → Instr
  lw sw : ℕ → ℕ → ℕ → Instr
  trap : ℕ → Instr

abbrev pub encode : Instr → ℕ
encode (lui rd imm) = 0b0110111 + 2 ^ 7 * rd + 2 ^ 12 * imm
encode (lw rd rs1 imm) = 0b0000011 + 2 ^ 7 * rd + 2 ^ 12 * 2 + 2 ^ 15 * rs1 + 2 ^ 20 * imm
encode (sw rs2 rs1 imm) =
    0b0100011
    + 2 ^ 7 * (imm % 2 ^ 5)
    + 2 ^ 12 * 2
    + 2 ^ 15 * rs1
    + 2 ^ 20 * rs2
    + 2 ^ 25 * (imm / 2 ^ 5)
encode (trap rest) = 0b1101011 + 2 ^ 7 * rest

-- The fields are in range.
abbrev pub IsInstr : Instr → Type 0
IsInstr (lui rd imm) = (rd < 2 ^ 5) × (imm < 2 ^ 20)
IsInstr (lw rd rs1 imm) = (rd < 2 ^ 5) × (rs1 < 2 ^ 5) × (imm < 2 ^ 12)
IsInstr (sw rs2 rs1 imm) = (rs2 < 2 ^ 5) × (rs1 < 2 ^ 5) × (imm < 2 ^ 12)
IsInstr (trap rest) = rest < 2 ^ 25

-- A signed immediate of 12 bits, as a word.
abbrev pub sext12 : ℕ → ℕ
sext12 imm = of_sword (signed (2 ^ 11) imm)

module _ {D : Type 0} where
  -- The end of an instruction: register 0 is zero, and the next instruction follows.
  abbrev pub retire : Machine D → Machine D
  retire m = record m { gpr = update m.gpr 0 0; pc = (m.pc + 4) % word_range }

  abbrev pub set_reg : ℕ → ℕ → Machine D → Machine D
  set_reg r v m = record m { gpr = update m.gpr r v }

  -- The address of a load or store.
  abbrev pub address : ℕ → ℕ → Machine D → ℕ
  address rs1 imm m = (m.gpr rs1 + sext12 imm) % word_range

  -- What an instruction does, after it was fetched.
  unfoldable pub spec : Instr → Machine D → Result (Machine D)
  spec (lui rd imm) m = ok (retire (set_reg rd (2 ^ 12 * imm) m))
  spec (lw rd rs1 imm) m = vaddr_read pmem_base (address rs1 imm m) 4 m.bus >>= λ x.
      ok (retire (set_reg rd x.0 (record m { bus = x.1 })))
  spec (sw rs2 rs1 imm) m =
      vaddr_write pmem_base (address rs1 imm m) (m.gpr rs2) 4 m.bus >>= λ bus'.
      ok (retire (record m { bus = bus' }))
  spec (trap rest) m = ok (
      retire (record m {
        nemu_state = record { state = nemu_end; halt_pc = m.pc; halt_ret = m.gpr 10 };
      }))
