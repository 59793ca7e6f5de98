-- ===== src/X86/Arith/Signed.antt =====
-- The one-operand `imul` of bytes does not extend the signs.
use nju_ics2020_pa.Base.{◌/◌, ◌%◌, ◌<◌, ◌≡◌, refl, some, arith}
use nju_ics2020_pa.Rtl.COp.Arith.{c_imul_lo-byte}
use nju_ics2020_pa.Rtl.Machine.{Exec, Loc, rz, mbr, gpr, tmp, val, dest, load}
use nju_ics2020_pa.Rtl.Basic.{rtl_mul_lo, rtl_imul_lo}
use nju_ics2020_pa.X86.Reg.{rtl_lr, reg_b}
use nju_ics2020_pa.X86.Arith.{exec_mul, exec_imul1}
use nju_ics2020_pa.X86.Arith.Wide.{IsOperandLoc}

module _ {D : Type 0} where
  -- `imul` with one operand of a byte does what `mul` does: it multiplies the unsigned numbers.
  pub exec_imul1-mul :
      (p : Loc) (e : Exec D)
      → IsOperandLoc p
      → (e.s.operand dest).preg ≡ some p
      → (e.s.operand dest).width ≡ 1
      → load p e < 256
      → exec_imul1 e ≡ exec_mul e
  unfolding exec_imul1 exec_mul rtl_lr reg_b rtl_mul_lo rtl_imul_lo
  exec_imul1-mul (val k) e h hp hw small =
      rw (hp, hw, c_imul_lo-byte (load (val k) e) (e.cpu.gpr 0 / 1 % 256) small (omega arith)) refl
  exec_imul1-mul (gpr i) e h hp hw small =
      rw (hp, hw, c_imul_lo-byte (load (gpr i) e) (e.cpu.gpr 0 / 1 % 256) small (omega arith)) refl
  exec_imul1-mul rz e h hp hw small = absurd h
  exec_imul1-mul mbr e h hp hw small = absurd h
  exec_imul1-mul (tmp i) e h hp hw small = absurd h
