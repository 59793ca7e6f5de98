-- ===== src/X86/Step/Write.antt =====
-- exec_mov: what it writes, given the operands that the decoder leaves.
use nju_ics2020_pa.Base.{
  ◌-◌, ℕ, ◌+◌, ◌%◌, ◌<◌, ◌≡◌, refl, ap, ◌∙◌, sym, some, ◌==◌, ==_iff, lt→ltb, Bool-cases, inl, inr,
  update, ok, ◌>>=◌, arith,
}
use mathlib.Core.Path.{fun_ext}
use nju_ics2020_pa.Memory.Paddr.{vaddr_write}
use nju_ics2020_pa.Rtl.COp.{word_range, c_add}
use nju_ics2020_pa.Rtl.Machine.{
  Exec, Slot, Loc, rz, mbr, gpr, tmp, val, src1, dest, op_type_reg, op_type_mem, load,
}
use nju_ics2020_pa.Rtl.Basic.{rtl_mv, rtl_add, rtl_sm}
use nju_ics2020_pa.X86.Reg.{rtl_sr, set_b, set_w}
use nju_ics2020_pa.X86.Modrm.{pmem_base, operand_write, write_as}
use nju_ics2020_pa.X86.Move.{exec_mov}
use nju_ics2020_pa.X86.Step.Operands.{byte_place}
use nju_ics2020_pa.X86.Spec.{Width, byte, short, long, size, set_reg}

update_self : (g : ℕ → ℕ) (r v : ℕ) → g r ≡ v → update g r v ≡ g
update_self g r v e = fun_ext (λ i. ground arith)

plus_zero : (v : ℕ) → v < word_range → c_add v 0 ≡ v
unfolding c_add
plus_zero v h = omega arith

set_b-reg : (r v : ℕ) (g : ℕ → ℕ) → r < 8 → set_b r v g ≡ ok (set_reg byte r v g)
unfolding set_b
set_b-reg r v g h = elim (byte_place r h) [
  | inl (low, offset, index) ↦
      rw (lt→ltb r 8 h, low, offset, index) (ap (λ x. ok (update g r x)) (omega arith))
  | inr (high, offset, index) ↦
      rw (lt→ltb r 8 h, high, offset, index) (ap (λ x. ok (update g (r - 4) x)) (omega arith))
]

module _ {D : Type 0} where
  abbrev pub with_gpr : (ℕ → ℕ) → Exec D → Exec D
  with_gpr g e = record e { cpu = record e.cpu { gpr = g } }

  stored :
      (r v : ℕ) (p : Loc) (e : Exec D)
      → load p e ≡ v
      → v < word_range
      → ok (with_gpr (update e.cpu.gpr r (c_add (load p e) 0)) e)
        ≡ ok (with_gpr (update e.cpu.gpr r v) e)
  stored r v p e hv lt =
      ap (λ x. ok (with_gpr (update e.cpu.gpr r x) e)) (ap (λ x. c_add x 0) hv ∙ plus_zero v lt)

  -- A move of a word into a register, from itself too.
  rtl_mv-gpr :
      (r v : ℕ) (p : Loc) (e : Exec D)
      → load p e ≡ v
      → v < word_range
      → rtl_mv (gpr r) p e ≡ ok (with_gpr (update e.cpu.gpr r v) e)
  unfolding rtl_mv rtl_add
  rtl_mv-gpr r v rz e hv lt = stored r v rz e hv lt
  rtl_mv-gpr r v mbr e hv lt = stored r v mbr e hv lt
  rtl_mv-gpr r v (tmp i) e hv lt = stored r v (tmp i) e hv lt
  rtl_mv-gpr r v (val k) e hv lt = stored r v (val k) e hv lt
  rtl_mv-gpr r v (gpr i) e hv lt = elim (Bool-cases (r == i)) [
    | inl same ↦ rw same (
        ap (λ g. ok (with_gpr g e))
          (sym (update_self e.cpu.gpr r v (ap e.cpu.gpr ((==_iff r i).0 same) ∙ hv))))
    | inr apart ↦ rw apart (stored r v (gpr i) e hv lt)
  ]

  rtl_sr-ok :
      (w : Width) (r v : ℕ) (p : Loc) (e : Exec D)
      → r < 8
      → load p e ≡ v
      → v < word_range
      → rtl_sr r p (size w) e ≡ ok (with_gpr (set_reg w r v e.cpu.gpr) e)
  unfolding rtl_sr set_w
  rtl_sr-ok byte r v p e h hv lt = rw (hv, set_b-reg r v e.cpu.gpr h) refl
  rtl_sr-ok short r v p e h hv lt = rw (lt→ltb r 8 h, hv) refl
  rtl_sr-ok long r v p e h hv lt = rw (lt→ltb r 8 h) (rtl_mv-gpr r v p e hv lt)

  -- What the decoder leaves of the operand that is to be moved, and of the one that is to be written.
  pub record Source (k : Slot) (v : ℕ) (e : Exec D) : Type 0 where
    pub ptr : Loc
    pub preg : (e.s.operand k).preg ≡ some ptr
    pub value : load ptr e ≡ v

  pub record ToReg (w : Width) (r : ℕ) (e : Exec D) : Type 0 where
    pub type : (e.s.operand dest).type ≡ op_type_reg
    pub imm : (e.s.operand dest).imm ≡ r
    pub width : (e.s.operand dest).width ≡ size w

  pub record ToMem (w : Width) (addr : ℕ) (e : Exec D) : Type 0 where
    pub type : (e.s.operand dest).type ≡ op_type_mem
    pub width : (e.s.operand dest).width ≡ size w
    pub ptr : Loc
    pub mbase : e.s.isa.mbase ≡ some ptr
    pub address : (load ptr e + e.s.isa.moff) % word_range ≡ addr

  pub exec_mov-ToReg :
      (w : Width) (r v : ℕ) (e : Exec D)
      → r < 8
      → v < word_range
      → Source src1 v e
      → ToReg w r e
      → exec_mov e ≡ ok (with_gpr (set_reg w r v e.cpu.gpr) e)
  unfolding exec_mov operand_write write_as
  exec_mov-ToReg w r v e h lt s d =
      rw (s.preg, d.type, d.imm, d.width) (rtl_sr-ok w r v (s.ptr) e h (s.value) lt)

  pub exec_mov-ToMem :
      (w : Width) (addr v : ℕ) (e : Exec D)
      → Source src1 v e
      → ToMem w addr e
      → exec_mov e ≡ (
          vaddr_write pmem_base addr v (size w) e.cpu.bus >>= λ b.
          ok (record e { cpu = record e.cpu { bus = b } }))
  unfolding exec_mov operand_write write_as rtl_sm
  exec_mov-ToMem w addr v e s d = simp (s.preg, d.type, d.mbase, d.width, d.address, s.value)
