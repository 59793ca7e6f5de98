-- ===== src/Mips32/Helpers.antt =====
-- The execution helpers keep words and bytes what they are.
use nju_ics2020_pa.Base.{
  ℕ, ◌*◌, ◌^◌, ◌%◌, ◌<◌, ◌≡◌, ok, Holds, Holds-bind, Holds-any, Holds-assert, subst, sym,
}
use nju_ics2020_pa.Memory.Paddr.{is_len}
use nju_ics2020_pa.Rtl.COp.{word_range}
use nju_ics2020_pa.Rtl.Machine.{Exec, src1, src2, dest, preg_of, rtl_exit, instr_fetch}
use nju_ics2020_pa.Rtl.Basic.{rtl_li, rtl_lm, rtl_sm}
use nju_ics2020_pa.Rtl.Words.{
  IsExec, instr_fetch-IsExec, rtl_lm-IsExec, rtl_sm-IsExec, rtl_li-IsExec,
}
use nju_ics2020_pa.Mips32.{pmem_base, exec_lui, exec_ld, exec_st, exec_inv}

module _ {D : Type 0} where
  pub exec_inv-IsExec : (e : Exec D) → e.cpu.pc < word_range → IsExec e → Holds IsExec (exec_inv e)
  unfolding exec_inv rtl_exit
  exec_inv-IsExec e pc x =
      Holds-bind (λ (y : ℕ × Exec D). IsExec y.1) IsExec
        (instr_fetch pmem_base 4 (record e { s = record e.s { seq_pc = e.cpu.pc } })) _
        (instr_fetch-IsExec pmem_base (record e { s = record e.s { seq_pc = e.cpu.pc } })
          (record { regs = x.regs; memory = x.memory; next = pc; no_jump = x.no_jump }))
        λ (v, e₁) x₁.
          Holds-bind (λ (y : ℕ × Exec D). IsExec y.1) IsExec (instr_fetch pmem_base 4 e₁) _
            (instr_fetch-IsExec pmem_base e₁ x₁)
            λ (w, e₂) x₂. record {
              regs = x₂.regs;
              memory = x₂.memory;
              next = x₂.next;
              no_jump = x₂.no_jump;
            }

  pub exec_lui-IsExec : (e : Exec D) → IsExec e → Holds IsExec (exec_lui e)
  unfolding exec_lui
  exec_lui-IsExec e x =
      Holds-any IsExec (preg_of dest e)
        (λ ddest. rtl_li ddest ((e.s.operand src2).imm * 2 ^ 16 % word_range) e)
        λ p. rtl_li-IsExec p _ e x

  pub exec_ld-IsExec : (e : Exec D) → e.s.width ≡ 4 → IsExec e → Holds IsExec (exec_ld e)
  unfolding exec_ld
  exec_ld-IsExec e w x = Holds-any IsExec (preg_of dest e) _ λ d.
      Holds-any IsExec (preg_of src1 e) _ λ a.
        Holds-bind IsExec IsExec (rtl_lm pmem_base d a (e.s.operand src2).imm e.s.width e) _
          (subst (λ n. Holds IsExec (rtl_lm pmem_base d a (e.s.operand src2).imm n e)) (sym w)
            (rtl_lm-IsExec pmem_base d a (e.s.operand src2).imm e x))
          λ e' x'. Holds-assert IsExec (is_len e'.s.width) (ok e') λ known. x'

  pub exec_st-IsExec : (e : Exec D) → IsExec e → Holds IsExec (exec_st e)
  unfolding exec_st
  exec_st-IsExec e x = Holds-any IsExec (preg_of src1 e) _ λ a.
      Holds-any IsExec (preg_of dest e) _ λ d.
        Holds-bind IsExec IsExec (rtl_sm pmem_base a (e.s.operand src2).imm d e.s.width e) _
          (rtl_sm-IsExec pmem_base a d (e.s.operand src2).imm e.s.width e x)
          λ e' x'. Holds-assert IsExec (is_len e'.s.width) (ok e') λ known. x'
