-- ===== src/Riscv32/Step.antt =====
-- One round of `isa_exec_once` does what the instruction at the program counter is to do.
use nju_ics2020_pa.Base.{
  ℕ, ◌+◌, ◌*◌, ◌%◌, ◌^◌, ◌<◌, ◌≡◌, refl, true, false, ltb, Result, ok, ◌>>=◌, arith, Result-cases,
  inl, inr, ◌∙◌,
}
use nju_ics2020_pa.Memory.Paddr.{Bus, vaddr_read, vaddr_write, vaddr_ifetch}
use nju_ics2020_pa.Rtl.COp.{word_range, c_add}
use nju_ics2020_pa.Rtl.Machine.{Machine, Exec, rtl_exit, Decode, instr_fetch, update_pc}
use nju_ics2020_pa.Rtl.Basic.{rtl_li, rtl_addi, rtl_lm, rtl_sm}
use nju_ics2020_pa.Riscv32.{
  pmem_base, isa_exec_once, fetch_decode_exec, exec_opcode, opcode6_2, decode_i, decode_s, decode_u,
  decode_op_i, decode_op_r, exec_load, exec_store, exec_lui, exec_ld, exec_st, exec_nemu_trap,
  set_width, reset_zero,
}
use nju_ics2020_pa.Riscv32.Spec.{Instr, lui, lw, sw, trap, encode, IsInstr, spec, address}
use nju_ics2020_pa.Riscv32.Fields.{
  opcode1_0-encode, opcode6_2-encode, rd-lui, imm-lui, rd-lw, rs1-lw, funct3-lw, imm-lw, rs1-sw,
  rs2-sw, funct3-sw, imm-sw,
}

zero_add : (v : ℕ) → v < 2 ^ 20 → c_add 0 (v * 2 ^ 12 % word_range) ≡ 2 ^ 12 * v
unfolding c_add
zero_add v h = omega arith

module _ {D : Type 0} (garbage : Decode) (m : Machine D) (bus' : Bus D) where
  -- The round, up to the `switch`.
  abbrev fetched : ℕ → Exec D
  fetched instr = record {
    cpu = record m { bus = bus' };
    s = record garbage { is_jmp = false; seq_pc = (m.pc + 4) % word_range; instr = instr };
  }

  abbrev finish : Exec D → Result (ℕ × Machine D)
  finish e = ok (e.s.seq_pc, reset_zero (update_pc e).cpu)

  isa_exec_once-encode :
      (i : Instr)
      → vaddr_ifetch pmem_base m.pc 4 m.bus ≡ ok (encode i, bus')
      → isa_exec_once garbage m
        ≡ (exec_opcode (opcode6_2 (encode i)) (fetched (encode i)) >>= finish)
  unfolding isa_exec_once fetch_decode_exec instr_fetch
  isa_exec_once-encode i h = rw (h, opcode1_0-encode i) refl

  abbrev after : Instr → Result (ℕ × Machine D)
  after i = spec i (record m { bus = bus' }) >>= λ m'. ok ((m.pc + 4) % word_range, m')

  step-lui :
      (d imm : ℕ)
      → IsInstr (lui d imm)
      → (exec_opcode (opcode6_2 (encode (lui d imm))) (fetched (encode (lui d imm))) >>= finish)
        ≡ after (lui d imm)
  unfolding exec_opcode decode_u decode_op_r decode_op_i exec_lui rtl_li rtl_addi reset_zero
      update_pc spec
  step-lui d imm h =
      let reg : ltb d 32 ≡ true = ground arith in
      rw (opcode6_2-encode (lui d imm), rd-lui d imm h, imm-lui d imm h, reg, zero_add imm h.1) refl

  step-lw :
      (d a imm : ℕ)
      → IsInstr (lw d a imm)
      → (exec_opcode (opcode6_2 (encode (lw d a imm))) (fetched (encode (lw d a imm))) >>= finish)
        ≡ after (lw d a imm)
  unfolding exec_opcode decode_i decode_op_r decode_op_i exec_load exec_ld set_width rtl_lm
      reset_zero update_pc spec
  step-lw d a imm h =
      let reg : ltb d 32 ≡ true = ground arith in
      let base : ltb a 32 ≡ true = ground arith in
      rw
        (
          opcode6_2-encode (lw d a imm),
          rs1-lw d a imm h,
          rd-lw d a imm h,
          base,
          reg,
          funct3-lw d a imm h,
          imm-lw d a imm h,
        )
        (elim (Result-cases (vaddr_read pmem_base (address a imm m) 4 bus')) [
          | inl (x, e) ↦ rw e refl
          | inr (x, e) ↦ rw e refl
        ])

  step-sw :
      (b a imm : ℕ)
      → IsInstr (sw b a imm)
      → (exec_opcode (opcode6_2 (encode (sw b a imm))) (fetched (encode (sw b a imm))) >>= finish)
        ≡ after (sw b a imm)
  unfolding exec_opcode decode_s decode_op_r decode_op_i exec_store exec_st set_width rtl_sm
      reset_zero update_pc spec
  step-sw b a imm h =
      let reg : ltb b 32 ≡ true = ground arith in
      let base : ltb a 32 ≡ true = ground arith in
      rw
        (
          opcode6_2-encode (sw b a imm),
          rs1-sw b a imm h,
          base,
          rs2-sw b a imm h,
          reg,
          funct3-sw b a imm h,
          imm-sw b a imm h,
        )
        (elim (Result-cases (vaddr_write pmem_base (address a imm m) (m.gpr b) 4 bus')) [
          | inl (x, e) ↦ rw e refl
          | inr (x, e) ↦ rw e refl
        ])

  step-trap :
      (rest : ℕ)
      → (exec_opcode (opcode6_2 (encode (trap rest))) (fetched (encode (trap rest))) >>= finish)
        ≡ after (trap rest)
  unfolding exec_opcode exec_nemu_trap rtl_exit reset_zero update_pc spec
  step-trap rest = rw (opcode6_2-encode (trap rest)) refl

  step-encode :
      (i : Instr)
      → IsInstr i
      → (exec_opcode (opcode6_2 (encode i)) (fetched (encode i)) >>= finish) ≡ after i
  step-encode (lui d imm) h = step-lui d imm h
  step-encode (lw d a imm) h = step-lw d a imm h
  step-encode (sw b a imm) h = step-sw b a imm h
  step-encode (trap rest) h = step-trap rest

  -- Where the word at the program counter is an encoded instruction, one round does what this
  -- instruction does, or runs into what its memory access runs into, and gives the address of the word
  -- behind it, whatever the decoder's variables held before.
  pub isa_exec_once-spec :
      (i : Instr)
      → IsInstr i
      → vaddr_ifetch pmem_base m.pc 4 m.bus ≡ ok (encode i, bus')
      → isa_exec_once garbage m
        ≡ (spec i (record m { bus = bus' }) >>= λ m'. ok ((m.pc + 4) % word_range, m'))
  isa_exec_once-spec i h f = isa_exec_once-encode i f ∙ step-encode i h
