-- ===== src/Mips32/Step.antt =====
-- One round of `isa_exec_once` does what the instruction at the program counter is to do.
use nju_ics2020_pa.Base.{
  ℕ, ◌+◌, ◌*◌, ◌%◌, ◌^◌, ◌<◌, ◌≡◌, refl, true, false, ltb, Result, ok, ◌>>=◌, arith, Result-cases,
  inl, inr, ◌∙◌,
}
use nju_ics2020_pa.Memory.Paddr.{Bus, vaddr_read, vaddr_write, vaddr_ifetch}
use nju_ics2020_pa.Rtl.COp.{word_range, c_add}
use nju_ics2020_pa.Rtl.Machine.{Machine, Exec, rtl_exit, Decode, instr_fetch, update_pc}
use nju_ics2020_pa.Rtl.Basic.{rtl_li, rtl_addi, rtl_lm, rtl_sm}
use nju_ics2020_pa.Mips32.{
  pmem_base, isa_exec_once, fetch_decode_exec, exec_opcode, opcode, decode_iu, decode_ld, decode_st,
  decode_op_i, decode_op_r, exec_lui, exec_ld, exec_st, exec_nemu_trap, set_width, reset_zero,
}
use nju_ics2020_pa.Mips32.Spec.{
  Instr, lui, lw, sw, trap, encode, IsInstr, spec, address, opcode-format, rs-format, rt-format,
  imm-format, opcode-trap,
}

shift_lem : (v : ℕ) → v < 2 ^ 16 → c_add 0 (v * 2 ^ 16 % word_range) ≡ 2 ^ 16 * v
unfolding c_add
shift_lem v h = omega arith

module _ {D : Type 0} (garbage : Decode) (m : Machine D) (bus' : Bus D) where
  -- The round, up to the `switch`.
  abbrev fetched : ℕ → Exec D
  fetched instr = record {
    cpu = record m { bus = bus' };
    s = record garbage { is_jmp = false; seq_pc = (m.pc + 4) % word_range; instr = instr };
  }

  abbrev finish : Exec D → Result (ℕ × Machine D)
  finish e = ok (e.s.seq_pc, reset_zero (update_pc e).cpu)

  isa_exec_once-fetch :
      (w : ℕ)
      → vaddr_ifetch pmem_base m.pc 4 m.bus ≡ ok (w, bus')
      → isa_exec_once garbage m ≡ (exec_opcode (opcode w) (fetched w) >>= finish)
  unfolding isa_exec_once fetch_decode_exec instr_fetch
  isa_exec_once-fetch w h = rw h refl

  abbrev after : Instr → Result (ℕ × Machine D)
  after i = spec i (record m { bus = bus' }) >>= λ m'. ok ((m.pc + 4) % word_range, m')

  step-lui :
      (t s imm : ℕ)
      → IsInstr (lui t s imm)
      → (exec_opcode (opcode (encode (lui t s imm))) (fetched (encode (lui t s imm))) >>= finish)
        ≡ after (lui t s imm)
  unfolding exec_opcode decode_iu decode_op_r decode_op_i exec_lui rtl_li rtl_addi reset_zero
      update_pc spec
  step-lui t s imm h =
      let reg : ltb t 32 ≡ true = ground arith in
      let base : ltb s 32 ≡ true = ground arith in
      rw
        (
          opcode-format 15 s t imm h (omega arith),
          rs-format 15 s t imm h,
          base,
          rt-format 15 s t imm h,
          reg,
          imm-format 15 s t imm h,
          shift_lem imm h.2,
        )
        refl

  step-lw :
      (t s imm : ℕ)
      → IsInstr (lw t s imm)
      → (exec_opcode (opcode (encode (lw t s imm))) (fetched (encode (lw t s imm))) >>= finish)
        ≡ after (lw t s imm)
  unfolding exec_opcode decode_ld decode_op_r decode_op_i exec_ld set_width rtl_lm reset_zero
      update_pc spec
  step-lw t s imm h =
      let reg : ltb t 32 ≡ true = ground arith in
      let base : ltb s 32 ≡ true = ground arith in
      rw
        (
          opcode-format 35 s t imm h (omega arith),
          rs-format 35 s t imm h,
          base,
          rt-format 35 s t imm h,
          reg,
          imm-format 35 s t imm h,
        )
        (elim (Result-cases (vaddr_read pmem_base (address s imm m) 4 bus')) [
          | inl (x, e) ↦ rw e refl
          | inr (x, e) ↦ rw e refl
        ])

  step-sw :
      (t s imm : ℕ)
      → IsInstr (sw t s imm)
      → (exec_opcode (opcode (encode (sw t s imm))) (fetched (encode (sw t s imm))) >>= finish)
        ≡ after (sw t s imm)
  unfolding exec_opcode decode_st decode_op_r decode_op_i exec_st set_width rtl_sm reset_zero
      update_pc spec
  step-sw t s imm h =
      let reg : ltb t 32 ≡ true = ground arith in
      let base : ltb s 32 ≡ true = ground arith in
      rw
        (
          opcode-format 43 s t imm h (omega arith),
          rs-format 43 s t imm h,
          base,
          rt-format 43 s t imm h,
          reg,
          imm-format 43 s t imm h,
        )
        (elim (Result-cases (vaddr_write pmem_base (address s imm m) (m.gpr t) 4 bus')) [
          | inl (x, e) ↦ rw e refl
          | inr (x, e) ↦ rw e refl
        ])

  step-trap :
      (rest : ℕ)
      → IsInstr (trap rest)
      → (exec_opcode (opcode (encode (trap rest))) (fetched (encode (trap rest))) >>= finish)
        ≡ after (trap rest)
  unfolding exec_opcode exec_nemu_trap rtl_exit reset_zero update_pc spec
  step-trap rest h = rw (opcode-trap rest h) refl

  step-encode :
      (i : Instr)
      → IsInstr i
      → (exec_opcode (opcode (encode i)) (fetched (encode i)) >>= finish) ≡ after i
  step-encode (lui t s imm) h = step-lui t s imm h
  step-encode (lw t s imm) h = step-lw t s imm h
  step-encode (sw t s imm) h = step-sw t s imm h
  step-encode (trap rest) h = step-trap rest h

  -- Where the word at the program counter of a MIPS32 guest is an encoded instruction, one round does
  -- what this instruction does, or runs into what its memory access runs into, and gives the address of
  -- the word behind it, whatever the decoder's variables held before.
  pub mips_exec_once-spec :
      (i : Instr)
      → IsInstr i
      → vaddr_ifetch pmem_base m.pc 4 m.bus ≡ ok (encode i, bus')
      → isa_exec_once garbage m
        ≡ (spec i (record m { bus = bus' }) >>= λ m'. ok ((m.pc + 4) % word_range, m'))
  mips_exec_once-spec i h f = isa_exec_once-fetch (encode i) f ∙ step-encode i h
