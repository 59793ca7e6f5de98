-- ===== src/X86/Move.antt =====
-- nemu/src/isa/x86/exec: data-mov.h, control.h, system.h and special.c.
use nju_ics2020_pa.Base.{◌-◌, if◌then◌else◌, bit_and, Result, ok, stop, assertion, ◌>>=◌}
use nju_ics2020_pa.Rtl.COp.{word_range, relop_ne}
use nju_ics2020_pa.Rtl.Machine.{
  Exec, src1, dest, rz, nemu_end, nemu_abort, preg_of, rtl_exit, instr_fetch,
}
use nju_ics2020_pa.Rtl.Basic.{rtl_addi, rtl_sext, rtl_j, rtl_jr, rtl_jrelop}
use nju_ics2020_pa.X86.Eflags.{rtl_setcc}
use nju_ics2020_pa.X86.Modrm.{pmem_base, mbase_of, on_operand, operand_write}
use nju_ics2020_pa.X86.Arith.{s0}

module _ {D : Type 0} where
  -- `push`, `pop`, `pusha`, `popa`, `leave`, `call`, `ret`, `ret_imm`, `call_rm`, `lidt`, `mov_r2cr`,
  -- `mov_cr2r`, `int`, `iret`, `in` and `out` stop at a `TODO()`, and so do both cases of the next two.
  pub exec_cltd : Exec D → Result (Exec D)
  exec_cltd e = if e.s.isa.is_operand_size_16 then stop assertion else stop assertion

  pub exec_cwtl : Exec D → Result (Exec D)
  exec_cwtl e = if e.s.isa.is_operand_size_16 then stop assertion else stop assertion

  unfoldable pub exec_mov : Exec D → Result (Exec D)
  exec_mov e = do dsrc1 ← preg_of src1 e; operand_write dest dsrc1 e

  -- `id_dest->width = s->isa.is_operand_size_16 ? 2 : 4`
  abbrev size_dest : Exec D → Exec D
  size_dest e =
      on_operand dest (λ o. record o { width = if e.s.isa.is_operand_size_16 then 2 else 4 }) e

  pub exec_movsx : Exec D → Result (Exec D)
  exec_movsx e = do
    let e₁ = size_dest e
    ddest ← preg_of dest e₁
    dsrc1 ← preg_of src1 e₁
    e₂ ← rtl_sext ddest dsrc1 ((e₁.s.operand src1).width) e₁
    operand_write dest ddest e₂

  pub exec_movzx : Exec D → Result (Exec D)
  exec_movzx e = do let e₁ = size_dest e; dsrc1 ← preg_of src1 e₁; operand_write dest dsrc1 e₁

  pub exec_lea : Exec D → Result (Exec D)
  exec_lea e = do
    ddest ← preg_of dest e
    base ← mbase_of e
    e₁ ← rtl_addi ddest base (e.s.isa.moff) e
    operand_write dest ddest e₁

  pub exec_jmp : Exec D → Result (Exec D)
  exec_jmp e = rtl_j (e.s.jmp_pc) e

  pub exec_jcc : Exec D → Result (Exec D)
  exec_jcc e = do
    e₁ ← rtl_setcc s0 (bit_and (e.s.opcode) 0xf) e
    rtl_jrelop relop_ne s0 rz (e₁.s.jmp_pc) e₁

  pub exec_jmp_rm : Exec D → Result (Exec D)
  exec_jmp_rm e = do ddest ← preg_of dest e; rtl_jr ddest e

  pub exec_nop : Exec D → Result (Exec D)
  exec_nop e = ok e

  pub exec_inv : Exec D → Result (Exec D)
  exec_inv e = do
    (temp₀, e₁) ← instr_fetch pmem_base 4 (record e { s = record e.s { seq_pc = e.cpu.pc } })
    (temp₁, e₂) ← instr_fetch pmem_base 4 e₁
    ok (record e₂ { cpu = rtl_exit nemu_abort e.cpu.pc (word_range - 1) e₂.cpu })

  -- `difftest_skip_ref()` is empty without DIFF_TEST.
  unfoldable pub exec_nemu_trap : Exec D → Result (Exec D)
  exec_nemu_trap e = ok (record e { cpu = rtl_exit nemu_end e.cpu.pc (e.cpu.gpr 0) e.cpu })
