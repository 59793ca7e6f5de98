-- ===== src/X86/Arith.antt =====
-- nemu/src/isa/x86/exec/arith.h and logic.h: the helpers that are written, and those that are a `TODO()`.
pub mod Wide
pub mod Signed
use nju_ics2020_pa.Base.{
  ℕ, ◌-◌, ◌*◌, ◌/◌, ◌^◌, Bool, not, ◌==◌, if◌then◌else◌, bit_and, Result, ok, stop, assertion,
  ◌>>=◌,
}
use nju_ics2020_pa.Rtl.COp.{word_range}
use nju_ics2020_pa.Rtl.Machine.{Exec, Slot, src1, src2, dest, Loc, gpr, tmp, same_loc, preg_of}
use nju_ics2020_pa.Rtl.Basic.{
  rtl_add, rtl_sub, rtl_or, rtl_andi, rtl_shli, rtl_shri, rtl_mv, rtl_sext, rtl_mul_lo, rtl_mul_hi,
  rtl_imul_lo, rtl_imul_hi, rtl_div_q, rtl_div_r, rtl_idiv_q, rtl_idiv_r, rtl_div64_q, rtl_div64_r,
  rtl_idiv64_q, rtl_idiv64_r,
}
use nju_ics2020_pa.X86.Reg.{rtl_lr, rtl_sr}
use nju_ics2020_pa.X86.Eflags.{
  rtl_is_sub_overflow, rtl_is_sub_carry, rtl_is_add_overflow, rtl_is_add_carry, rtl_set_flag,
  rtl_get_flag, rtl_update_zfsf, rtl_setcc,
}
use nju_ics2020_pa.X86.Modrm.{operand_write}

-- `s0`, `s1` and `s2`
abbrev pub s0 : Loc
s0 = tmp 0

abbrev pub s1 : Loc
s1 = tmp 1

abbrev pub s2 : Loc
s2 = tmp 2

-- Registers by their widths.
abbrev pub eax : ℕ
eax = 0

abbrev pub edx : ℕ
edx = 2

abbrev pub r_ah : ℕ
r_ah = 4

module _ {D : Type 0} where
  abbrev width_of : Slot → Exec D → ℕ
  width_of k e = (e.s.operand k).width

  -- `add`, `sub`, `cmp`, `inc`, `dec`, `neg`, and of logic.h `test`, `and`, `xor`, `or`, `not`, `sar`,
  -- `shl` and `shr`
  pub exec_unwritten : Exec D → Result (Exec D)
  exec_unwritten e = stop assertion

  pub exec_adc : Exec D → Result (Exec D)
  exec_adc e = do
    e₁ ← rtl_get_flag s0 e
    dsrc1 ← preg_of src1 e₁
    ddest ← preg_of dest e₁
    e₂ ← rtl_add s0 dsrc1 s0 e₁
    e₃ ← rtl_add s1 ddest s0 e₂
    e₄ ← rtl_update_zfsf s1 (width_of dest e₃) e₃
    e₅ ← rtl_is_add_overflow s2 s1 ddest dsrc1 (width_of dest e₄) e₄
    e₆ ← rtl_set_flag s2 e₅
    e₇ ←
        if not (width_of dest e₆ == 4)
        then rtl_andi s1 s1 ((word_range - 1) / 2 ^ ((4 - width_of dest e₆) * 8)) e₆
        else ok e₆
    e₈ ← rtl_is_add_carry s2 s1 s0 e₇
    e₉ ← rtl_is_add_carry s0 s0 dsrc1 e₈
    e₁₀ ← rtl_or s0 s0 s2 e₉
    e₁₁ ← rtl_set_flag s0 e₁₀
    operand_write dest s1 e₁₁

  pub exec_sbb : Exec D → Result (Exec D)
  exec_sbb e = do
    e₁ ← rtl_get_flag s0 e
    dsrc1 ← preg_of src1 e₁
    ddest ← preg_of dest e₁
    e₂ ← rtl_add s0 dsrc1 s0 e₁
    e₃ ← rtl_sub s1 ddest s0 e₂
    e₄ ← rtl_update_zfsf s1 (width_of dest e₃) e₃
    e₅ ← rtl_is_sub_overflow s2 s1 ddest dsrc1 (width_of dest e₄) e₄
    e₆ ← rtl_set_flag s2 e₅
    e₇ ← rtl_is_add_carry s2 s0 dsrc1 e₆
    e₈ ← rtl_is_sub_carry s0 ddest s0 e₇
    e₉ ← rtl_or s0 s0 s2 e₈
    e₁₀ ← rtl_set_flag s0 e₉
    operand_write dest s1 e₁₀

  -- A product of words: the low half of `s1`, and then the half above it.
  pub store_words : Exec D → Result (Exec D)
  store_words e = do e₁ ← rtl_sr eax s1 2 e; e₂ ← rtl_shri s1 s1 16 e₁; rtl_sr edx s1 2 e₂

  pub exec_mul : Exec D → Result (Exec D)
  exec_mul e = do
    ddest ← preg_of dest e
    e₁ ← rtl_lr s0 eax (width_of dest e) e
    e₂ ← rtl_mul_lo s1 ddest s0 e₁
    if width_of dest e == 1
        then rtl_sr eax s1 2 e₂
        else if width_of dest e == 2
        then store_words e₂
        else if width_of dest e == 4
        then (do e₃ ← rtl_mul_hi s0 ddest s0 e₂; e₄ ← rtl_sr edx s0 4 e₃; rtl_sr eax s1 4 e₄)
        else stop assertion

  -- The case of four bytes: `pdest` is `ddest`, or `s0` if that is the register which is written first.
  pub imul1_long : Loc → Exec D → Result (Exec D)
  imul1_long ddest e = do
    let aliased = same_loc ddest (gpr edx)
    let pdest = if aliased then s0 else ddest
    e₁ ← if aliased then rtl_mv s0 ddest e else ok e
    e₂ ← rtl_imul_hi (gpr edx) pdest (gpr eax) e₁
    rtl_imul_lo (gpr eax) pdest (gpr eax) e₂

  pub exec_imul1 : Exec D → Result (Exec D)
  exec_imul1 e = do
    ddest ← preg_of dest e
    if width_of dest e == 1
        then (do e₁ ← rtl_lr s0 eax 1 e; e₂ ← rtl_imul_lo s1 ddest s0 e₁; rtl_sr eax s1 2 e₂)
        else if width_of dest e == 2
        then (do e₁ ← rtl_lr s0 eax 2 e; e₂ ← rtl_imul_lo s1 ddest s0 e₁; store_words e₂)
        else if width_of dest e == 4
        then imul1_long ddest e
        else stop assertion

  pub exec_imul2 : Exec D → Result (Exec D)
  exec_imul2 e = do
    dsrc1 ← preg_of src1 e
    ddest ← preg_of dest e
    e₁ ← rtl_sext dsrc1 dsrc1 (width_of src1 e) e
    e₂ ← rtl_sext ddest ddest (width_of dest e₁) e₁
    e₃ ← rtl_imul_lo ddest ddest dsrc1 e₂
    operand_write dest ddest e₃

  pub exec_imul3 : Exec D → Result (Exec D)
  exec_imul3 e = do
    dsrc1 ← preg_of src1 e
    dsrc2 ← preg_of src2 e
    ddest ← preg_of dest e
    e₁ ← rtl_sext dsrc1 dsrc1 (width_of dest e) e
    e₂ ← rtl_sext dsrc2 dsrc2 (width_of dest e₁) e₁
    e₃ ← rtl_imul_lo ddest dsrc2 dsrc1 e₂
    operand_write dest ddest e₃

  -- The cases of `div` and `idiv`, over their operations for the quotient and the remainder.
  module _ (div_q div_r : Loc → Loc → Loc → Exec D → Result (Exec D)) where
    pub div_byte : Loc → Exec D → Result (Exec D)
    div_byte ddest e = do
      e₁ ← rtl_lr s0 eax 2 e
      e₂ ← div_q s1 s0 ddest e₁
      e₃ ← rtl_sr eax s1 1 e₂
      e₄ ← div_r s1 s0 ddest e₃
      rtl_sr r_ah s1 1 e₄

    pub div_short : Loc → Exec D → Result (Exec D)
    div_short ddest e = do
      e₁ ← rtl_lr s0 eax 2 e
      e₂ ← rtl_lr s1 edx 2 e₁
      e₃ ← rtl_shli s1 s1 16 e₂
      e₄ ← rtl_or s0 s0 s1 e₃
      e₅ ← div_q s1 s0 ddest e₄
      e₆ ← rtl_sr eax s1 2 e₅
      e₇ ← div_r s1 s0 ddest e₆
      rtl_sr edx s1 2 e₇

  module _ (div_q div_r : Loc → Loc → Loc → Loc → Exec D → Result (Exec D)) where
    pub div_long : Loc → Exec D → Result (Exec D)
    div_long ddest e = do
      let pdest = if same_loc ddest (gpr eax) then s0 else ddest
      e₁ ← rtl_mv s0 (gpr eax) e
      e₂ ← div_q (gpr eax) (gpr edx) s0 pdest e₁
      div_r (gpr edx) (gpr edx) s0 pdest e₂

  pub exec_div : Exec D → Result (Exec D)
  exec_div e = do
    ddest ← preg_of dest e
    if width_of dest e == 1
        then div_byte rtl_div_q rtl_div_r ddest e
        else if width_of dest e == 2
        then div_short rtl_div_q rtl_div_r ddest e
        else if width_of dest e == 4
        then div_long rtl_div64_q rtl_div64_r ddest e
        else stop assertion

  pub exec_idiv : Exec D → Result (Exec D)
  exec_idiv e = do
    ddest ← preg_of dest e
    if width_of dest e == 1
        then div_byte rtl_idiv_q rtl_idiv_r ddest e
        else if width_of dest e == 2
        then div_short rtl_idiv_q rtl_idiv_r ddest e
        else if width_of dest e == 4
        then div_long rtl_idiv64_q rtl_idiv64_r ddest e
        else stop assertion

  -- exec/logic.h
  pub exec_setcc : Exec D → Result (Exec D)
  exec_setcc e = do
    ddest ← preg_of dest e
    e₁ ← rtl_setcc ddest (bit_and (e.s.opcode) 0xf) e
    operand_write dest ddest e₁
