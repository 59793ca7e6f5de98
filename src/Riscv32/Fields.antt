-- ===== src/Riscv32/Fields.antt =====
-- The fields of an encoded instruction.
use nju_ics2020_pa.Base.{ℕ, ◌+◌, ◌*◌, ◌/◌, ◌%◌, ◌^◌, ◌≡◌, arith}
use nju_ics2020_pa.Rtl.COp.{word_range}
use nju_ics2020_pa.Riscv32.{
  field, opcode1_0, opcode6_2, rd, imm4_0, funct3, rs1, rs2, simm11_5, imm31_12,
}
use nju_ics2020_pa.Riscv32.Spec.{Instr, lui, lw, sw, trap, encode, IsInstr, sext12}

-- The two bits that every instruction ends in.
pub opcode1_0-encode : (i : Instr) → opcode1_0 (encode i) ≡ 3
unfolding field
opcode1_0-encode (lui rd imm) = omega arith
opcode1_0-encode (lw rd rs1 imm) = omega arith
opcode1_0-encode (sw rs2 rs1 imm) = omega arith
opcode1_0-encode (trap rest) = omega arith

abbrev pub opcode_of : Instr → ℕ
opcode_of (lui rd imm) = 0b01101
opcode_of (lw rd rs1 imm) = 0b00000
opcode_of (sw rs2 rs1 imm) = 0b01000
opcode_of (trap rest) = 0b11010

pub opcode6_2-encode : (i : Instr) → opcode6_2 (encode i) ≡ opcode_of i
unfolding field
opcode6_2-encode (lui rd imm) = omega arith
opcode6_2-encode (lw rd rs1 imm) = omega arith
opcode6_2-encode (sw rs2 rs1 imm) = omega arith
opcode6_2-encode (trap rest) = omega arith

module _ (d imm : ℕ) (h : IsInstr (lui d imm)) where
  pub rd-lui : rd (encode (lui d imm)) ≡ d
  unfolding field
  rd-lui = omega arith

  pub imm-lui : imm31_12 (encode (lui d imm)) ≡ imm
  unfolding field
  imm-lui = omega arith

module _ (d a imm : ℕ) (h : IsInstr (lw d a imm)) where
  pub rd-lw : rd (encode (lw d a imm)) ≡ d
  unfolding field
  rd-lw = omega arith

  pub rs1-lw : rs1 (encode (lw d a imm)) ≡ a
  unfolding field
  rs1-lw = omega arith

  pub funct3-lw : funct3 (encode (lw d a imm)) ≡ 2
  unfolding field
  funct3-lw = omega arith

  pub imm-lw : field 20 12 (encode (lw d a imm)) ≡ imm
  unfolding field
  imm-lw = omega arith

module _ (b a imm : ℕ) (h : IsInstr (sw b a imm)) where
  pub rs2-sw : rs2 (encode (sw b a imm)) ≡ b
  unfolding field
  rs2-sw = omega arith

  pub rs1-sw : rs1 (encode (sw b a imm)) ≡ a
  unfolding field
  rs1-sw = omega arith

  pub funct3-sw : funct3 (encode (sw b a imm)) ≡ 2
  unfolding field
  funct3-sw = omega arith

  high-sw : field 25 7 (encode (sw b a imm)) ≡ imm / 2 ^ 5
  unfolding field
  high-sw = omega arith

  low-sw : imm4_0 (encode (sw b a imm)) ≡ imm % 2 ^ 5
  unfolding field
  low-sw = omega arith

  -- The two parts of the immediate make its signed value.
  pub imm-sw :
      (simm11_5 (encode (sw b a imm)) * 2 ^ 5 + imm4_0 (encode (sw b a imm))) % word_range
      ≡ sext12 imm
  imm-sw = rw (high-sw, low-sw) (ground arith)
