-- ===== src/X86/Spec.antt =====
-- What the i386 manual says of `mov`, by its operands and their width, and how it is encoded. Not code.
use nju_ics2020_pa.Base.{
  ℕ, ◌+◌, ◌-◌, ◌/◌, ◌%◌, ◌^◌, ◌<◌, ltb, if◌then◌else◌, ◌*◌, List, [], ◌∷◌, ◌++◌, update, Result, ok,
  ◌>>=◌,
}
use nju_ics2020_pa.Memory.Paddr.{vaddr_read, vaddr_write}
use nju_ics2020_pa.Rtl.Machine.{Machine}
use nju_ics2020_pa.X86.Modrm.Address.{Addr, IsAddr, denote, little, modrm, encode}

pub data Width : Type 0 where
  byte short long : Width

abbrev pub size : Width → ℕ
size byte = 1
size short = 2
size long = 4

-- A register or a place in memory.
pub data Rm : Type 0 where
  reg : ℕ → Rm
  mem : Addr → Rm

pub data Mov : Type 0 where
  rm_from_reg : Rm → ℕ → Mov
  reg_from_rm : ℕ → Rm → Mov
  reg_from_imm : ℕ → ℕ → Mov
  rm_from_imm : Rm → ℕ → Mov

abbrev pub IsRm : Rm → Type 0
IsRm (reg r) = r < 8
IsRm (mem a) = IsAddr a

-- An immediate has the width of the operands.
abbrev pub limit : Width → ℕ
limit byte = 2 ^ 8
limit short = 2 ^ 16
limit long = 2 ^ 32

abbrev pub IsMov : Width → Mov → Type 0
IsMov w (rm_from_reg d r) = IsRm d × (r < 8)
IsMov w (reg_from_rm r s) = IsRm s × (r < 8)
IsMov w (reg_from_imm r v) = (r < 8) × (v < limit w)
IsMov w (rm_from_imm d v) = IsRm d × (v < limit w)

abbrev pub encode_rm : ℕ → Rm → List ℕ
encode_rm field (reg r) = modrm 3 field r ∷ []
encode_rm field (mem a) = encode field a

abbrev pub prefix : Width → List ℕ
prefix short = 0x66 ∷ []
prefix _ = []

-- The opcode, of which there is one for bytes and one for the other widths.
abbrev pub opcode : Width → Mov → ℕ
opcode byte (rm_from_reg d r) = 0x88
opcode byte (reg_from_rm r s) = 0x8a
opcode byte (reg_from_imm r v) = 0xb0 + r
opcode byte (rm_from_imm d v) = 0xc6
opcode _ (rm_from_reg d r) = 0x89
opcode _ (reg_from_rm r s) = 0x8b
opcode _ (reg_from_imm r v) = 0xb8 + r
opcode _ (rm_from_imm d v) = 0xc7

abbrev pub operands : Width → Mov → List ℕ
operands w (rm_from_reg d r) = encode_rm r d
operands w (reg_from_rm r s) = encode_rm r s
operands w (reg_from_imm r v) = little (size w) v
operands w (rm_from_imm d v) = encode_rm 0 d ++ little (size w) v

-- The two low bytes of a register, and the register with a new one there.
abbrev pub low_byte : ℕ → ℕ
low_byte x = x % 2 ^ 8

abbrev pub high_byte : ℕ → ℕ
high_byte x = x / 2 ^ 8 % 2 ^ 8

abbrev pub with_low : ℕ → ℕ → ℕ
with_low v x = x / 2 ^ 8 * 2 ^ 8 + v % 2 ^ 8

abbrev pub with_high : ℕ → ℕ → ℕ
with_high v x = x / 2 ^ 16 * 2 ^ 16 + v % 2 ^ 8 * 2 ^ 8 + low_byte x

-- The part of the registers that an operand of this width is. Bytes 0 to 3 are the lowest of the first four
-- registers, 4 to 7 the ones above them.
abbrev pub reg_value : Width → ℕ → (ℕ → ℕ) → ℕ
reg_value byte r g = if ltb r 4 then low_byte (g r) else high_byte (g (r - 4))
reg_value short r g = g r % 2 ^ 16
reg_value long r g = g r

abbrev pub set_reg : Width → ℕ → ℕ → (ℕ → ℕ) → ℕ → ℕ
set_reg byte r v g =
    if ltb r 4 then update g r (with_low v (g r)) else update g (r - 4) (with_high v (g (r - 4)))
set_reg short r v g = update g r (g r - g r % 2 ^ 16 + v % 2 ^ 16)
set_reg long r v g = update g r v

module _ {D : Type 0} where
  abbrev pub read_rm : Width → Rm → Machine D → Result (ℕ × Machine D)
  read_rm w (reg r) m = ok (reg_value w r m.gpr, m)
  read_rm w (mem a) m =
      vaddr_read 0 (denote a m.gpr) (size w) m.bus >>= λ x. ok (x.0, record m { bus = x.1 })

  abbrev pub write_rm : Width → Rm → ℕ → Machine D → Result (Machine D)
  write_rm w (reg r) v m = ok (record m { gpr = set_reg w r v m.gpr })
  write_rm w (mem a) v m =
      vaddr_write 0 (denote a m.gpr) v (size w) m.bus >>= λ b. ok (record m { bus = b })

  abbrev pub move : Width → Mov → Machine D → Result (Machine D)
  move w (rm_from_reg d r) m = write_rm w d (reg_value w r m.gpr) m
  move w (reg_from_rm r s) m = read_rm w s m >>= λ x. write_rm w (reg r) x.0 x.1
  move w (reg_from_imm r v) m = write_rm w (reg r) v m
  move w (rm_from_imm d v) m = write_rm w d v m
