-- ===== src/Mips32/Spec.antt =====
-- The instructions as the manual of MIPS32 gives them, and what they do.
use nju_ics2020_pa.Base.{ℕ, ◌+◌, ◌*◌, ◌%◌, ◌^◌, ◌<◌, ◌≡◌, arith, update, Result, ok, ◌>>=◌}
use nju_ics2020_pa.Base.Int.{signed}
use nju_ics2020_pa.Memory.Paddr.{vaddr_read, vaddr_write}
use nju_ics2020_pa.Rtl.COp.{word_range, of_sword}
use nju_ics2020_pa.Rtl.Machine.{Machine, nemu_end}
use nju_ics2020_pa.Mips32.{pmem_base, field, opcode, rs, rt, imm16}

-- `lui rt, imm` with any `rs`, `lw rt, imm(rs)`, `sw rt, imm(rs)`, and the emulator's trap, with
-- whatever its lower bits are.
pub data Instr : Type 0 where
  lui lw sw : ℕ → ℕ → ℕ → Instr
  trap : ℕ → Instr

-- A word of the format I.
abbrev pub format : ℕ → ℕ → ℕ → ℕ → ℕ
format op s t imm = imm + 2 ^ 16 * t + 2 ^ 21 * s + 2 ^ 26 * op

abbrev pub encode : Instr → ℕ
encode (lui t s imm) = format 0b001111 s t imm
encode (lw t s imm) = format 0b100011 s t imm
encode (sw t s imm) = format 0b101011 s t imm
encode (trap rest) = rest + 2 ^ 26 * 0b111100

abbrev pub InRange : ℕ → ℕ → ℕ → Type 0
InRange t s imm = (t < 2 ^ 5) × (s < 2 ^ 5) × (imm < 2 ^ 16)

abbrev pub IsInstr : Instr → Type 0
IsInstr (lui t s imm) = InRange t s imm
IsInstr (lw t s imm) = InRange t s imm
IsInstr (sw t s imm) = InRange t s imm
IsInstr (trap rest) = rest < 2 ^ 26

-- A signed immediate of 16 bits, as a word.
abbrev pub sext16 : ℕ → ℕ
sext16 imm = of_sword (signed (2 ^ 15) imm)

module _ {D : Type 0} where
  -- The end of an instruction: register 0 is zero, and the next instruction follows.
  abbrev pub retire : Machine D → Machine D
  retire m = record m { gpr = update m.gpr 0 0; pc = (m.pc + 4) % word_range }

  abbrev pub set_reg : ℕ → ℕ → Machine D → Machine D
  set_reg r v m = record m { gpr = update m.gpr r v }

  -- The address of a load or store.
  abbrev pub address : ℕ → ℕ → Machine D → ℕ
  address s imm m = (m.gpr s + sext16 imm) % word_range

  -- What an instruction does, after it was fetched.
  unfoldable pub spec : Instr → Machine D → Result (Machine D)
  spec (lui t s imm) m = ok (retire (set_reg t (2 ^ 16 * imm) m))
  spec (lw t s imm) m = vaddr_read pmem_base (address s imm m) 4 m.bus >>= λ x.
      ok (retire (set_reg t x.0 (record m { bus = x.1 })))
  spec (sw t s imm) m = vaddr_write pmem_base (address s imm m) (m.gpr t) 4 m.bus >>= λ bus'.
      ok (retire (record m { bus = bus' }))
  spec (trap rest) m = ok (
      retire
        (record m { nemu_state = record { state = nemu_end; halt_pc = m.pc; halt_ret = m.gpr 2 } }))

-- The fields of a word of the format I.
module _ (op s t imm : ℕ) (h : InRange t s imm) where
  pub opcode-format : op < 2 ^ 6 → opcode (format op s t imm) ≡ op
  unfolding field
  opcode-format k = omega arith

  pub rs-format : rs (format op s t imm) ≡ s
  unfolding field
  rs-format = omega arith

  pub rt-format : rt (format op s t imm) ≡ t
  unfolding field
  rt-format = omega arith

  pub imm-format : imm16 (format op s t imm) ≡ imm
  unfolding field
  imm-format = omega arith

pub opcode-trap : (rest : ℕ) → IsInstr (trap rest) → opcode (encode (trap rest)) ≡ 60
unfolding field
opcode-trap rest h = omega arith
