-- ===== src/Mips32/Invariant.antt =====
-- A MIPS32 machine of words stays one, whatever it executes.
use nju_ics2020_pa.Base.{
  ℕ, ◌<◌, ◌≡◌, refl, false, ◌==◌, ltb, Result, ◌>>=◌, arith, Holds, Holds-bind, Holds-assert, inl,
  inr, Bool-cases, subst, sym, ◌∙◌,
}
use nju_ics2020_pa.Memory.Paddr.{vaddr_ifetch}
use nju_ics2020_pa.Memory.Paddr.Words.{IsBytes, Read, vaddr_ifetch-Read}
use nju_ics2020_pa.Rtl.COp.{word_range}
use nju_ics2020_pa.Rtl.Machine.{
  Machine, Exec, Slot, src1, src2, dest, rtl_exit, Decode, instr_fetch, update_pc,
}
use nju_ics2020_pa.Rtl.Words.{IsMachine, IsExec, Decoded, Decoded-IsExec, update-lt}
use nju_ics2020_pa.Mips32.Helpers.{exec_inv-IsExec, exec_lui-IsExec, exec_ld-IsExec, exec_st-IsExec}
use nju_ics2020_pa.Mips32.{
  pmem_base, rs, isa_exec_once, fetch_decode_exec, exec_opcode, opcode, decode_iu, decode_ld,
  decode_st, decode_op_i, decode_op_r, exec_lui, exec_ld, exec_st, exec_special, exec_nemu_trap,
  set_width, reset_zero,
}

module _ {D : Type 0} where
  decode_op_r-Decoded :
      (k : Slot) (v : ℕ) (e e₀ : Exec D) → Decoded e₀ e → Holds (Decoded e₀) (decode_op_r k v e)
  unfolding decode_op_r
  decode_op_r-Decoded k v e e₀ h = Holds-assert (Decoded e₀) (ltb v 32) _ λ fits. h

  decode_op_i-Decoded :
      (k : Slot) (v : ℕ) (e e₀ : Exec D) → Decoded e₀ e → Decoded e₀ (decode_op_i k v e)
  unfolding decode_op_i
  decode_op_i-Decoded k v e e₀ h = h

  decode_iu-Decoded : (e : Exec D) → Holds (Decoded e) (decode_iu e)
  unfolding decode_iu
  decode_iu-Decoded e =
      Holds-bind (Decoded e) (Decoded e) (decode_op_r src1 (rs e.s.instr) e) _
        (decode_op_r-Decoded src1 (rs e.s.instr) e e (refl, refl, refl, refl, refl))
        λ e₁ h. decode_op_r-Decoded dest _ _ e (decode_op_i-Decoded src2 _ e₁ e h)

  decode_ld-Decoded : (e : Exec D) → Holds (Decoded e) (decode_ld e)
  unfolding decode_ld
  decode_ld-Decoded e =
      Holds-bind (Decoded e) (Decoded e) (decode_op_r src1 (rs e.s.instr) e) _
        (decode_op_r-Decoded src1 (rs e.s.instr) e e (refl, refl, refl, refl, refl))
        λ e₁ h. decode_op_r-Decoded dest _ _ e (decode_op_i-Decoded src2 _ e₁ e h)

  decode_st-Decoded : (e : Exec D) → Holds (Decoded e) (decode_st e)
  unfolding decode_st
  decode_st-Decoded e =
      Holds-bind (Decoded e) (Decoded e) (decode_op_r src1 (rs e.s.instr) e) _
        (decode_op_r-Decoded src1 (rs e.s.instr) e e (refl, refl, refl, refl, refl))
        λ e₁ h. decode_op_r-Decoded dest _ _ e (decode_op_i-Decoded src2 _ e₁ e h)

  wide-IsExec : (e : Exec D) → IsExec e → IsExec (set_width 4 e)
  unfolding set_width
  wide-IsExec e x = record { regs = x.regs; memory = x.memory; next = x.next; no_jump = x.no_jump }

  wide : (e : Exec D) → (set_width 4 e).s.width ≡ 4
  unfolding set_width
  wide e = refl

  -- A decoder and then the execution of what it decoded.
  decoded :
      (dec run : Exec D → Result (Exec D)) (e : Exec D)
      → IsExec e
      → Holds (Decoded e) (dec e)
      → ((e' : Exec D) → e'.s.width ≡ e.s.width → IsExec e' → Holds IsExec (run e'))
      → Holds IsExec (dec e >>= run)
  decoded dec run e x h k =
      Holds-bind (Decoded e) IsExec (dec e) run h λ e' d. k e' d.4 (Decoded-IsExec e e' d x)

  exec_special-IsExec :
      (e : Exec D) → e.cpu.pc < word_range → IsExec e → Holds IsExec (exec_special e)
  unfolding exec_special
  exec_special-IsExec e pc x = exec_inv-IsExec e pc x

  exec_opcode-IsExec :
      (op : ℕ) (e : Exec D) → e.cpu.pc < word_range → IsExec e → Holds IsExec (exec_opcode op e)
  unfolding exec_opcode exec_nemu_trap rtl_exit
  exec_opcode-IsExec op e pc x = elim (Bool-cases (op == 0)) [
    | inl hit ↦ rw hit (exec_special-IsExec e pc x)
    | inr n₁ ↦ elim (Bool-cases (op == 15)) [
      | inl hit ↦
          rw (n₁, hit)
            (decoded decode_iu exec_lui e x (decode_iu-Decoded e) λ e' w x'. exec_lui-IsExec e' x')
      | inr n₂ ↦ elim (Bool-cases (op == 35)) [
        | inl hit ↦
            rw (n₁, n₂, hit)
              (decoded decode_ld exec_ld (set_width 4 e) (wide-IsExec e x)
                (decode_ld-Decoded (set_width 4 e)) λ e' w x'. exec_ld-IsExec e' (w ∙ wide e) x')
        | inr n₃ ↦ elim (Bool-cases (op == 43)) [
          | inl hit ↦
              rw (n₁, n₂, n₃, hit)
                (decoded decode_st exec_st (set_width 4 e) (wide-IsExec e x)
                  (decode_st-Decoded (set_width 4 e)) λ e' w x'. exec_st-IsExec e' x')
          | inr n₄ ↦ elim (Bool-cases (op == 60)) [
            | inl hit ↦
                rw (n₁, n₂, n₃, n₄, hit)
                  (record { regs = x.regs; memory = x.memory; next = x.next; no_jump = x.no_jump })
            | inr n₅ ↦ rw (n₁, n₂, n₃, n₄, n₅) (exec_inv-IsExec e pc x)
          ]
        ]
      ]
    ]
  ]

  fetch_decode_exec-IsExec :
      (e : Exec D) → e.cpu.pc < word_range → IsExec e → Holds IsExec (fetch_decode_exec e)
  unfolding fetch_decode_exec instr_fetch
  fetch_decode_exec-IsExec e pc x =
      Holds-bind (λ (y : ℕ × Exec D). (y.1.cpu.pc < word_range) × IsExec y.1) IsExec
        (instr_fetch pmem_base 4 e) _ fetched
        λ (instr, e') h.
          exec_opcode-IsExec (opcode instr) (record e' { s = record e'.s { instr = instr } }) h.0
            (record {
              regs = h.1.regs;
              memory = h.1.memory;
              next = h.1.next;
              no_jump = h.1.no_jump;
            })
    where
      fetched :
          Holds
            (λ (y : ℕ × Exec D). (y.1.cpu.pc < word_range) × IsExec y.1)
            (instr_fetch pmem_base 4 e)
      fetched =
          Holds-bind (Read 4 e.cpu.bus) (λ (y : ℕ × Exec D). (y.1.cpu.pc < word_range) × IsExec y.1)
            (vaddr_ifetch pmem_base e.s.seq_pc 4 e.cpu.bus) _
            (vaddr_ifetch-Read pmem_base e.s.seq_pc 4 e.cpu.bus x.memory)
            λ (v, bus') r. (
              pc,
              record {
                regs = x.regs;
                memory = subst IsBytes (sym r.1) x.memory;
                next = omega arith;
                no_jump = x.no_jump;
              },
            )

  -- From a MIPS32 machine whose registers, program counter and memory hold words and bytes and whose register 0
  -- is zero, a round that does not stop leads to such a machine, whatever the decoder's variables held
  -- and whatever word it executes.
  pub mips_exec_once-IsMachine :
      (garbage : Decode) (m : Machine D)
      → IsMachine m
      → Holds (λ (x : ℕ × Machine D). IsMachine x.1) (isa_exec_once garbage m)
  unfolding isa_exec_once update_pc reset_zero
  mips_exec_once-IsMachine garbage m x =
      Holds-bind IsExec (λ (y : ℕ × Machine D). IsMachine y.1) (fetch_decode_exec start) _
        (fetch_decode_exec-IsExec start x.counter
          (record { regs = x.regs; memory = x.memory; next = x.counter; no_jump = refl }))
        λ e h. record {
          regs = λ i. update-lt e.cpu.gpr 0 0 i (omega arith) (h.regs i);
          zero_reg = ground arith;
          counter = rw (h.no_jump) h.next;
          memory = h.memory;
        }
    where
      start : Exec D
      start = record { cpu = m; s = record garbage { is_jmp = false; seq_pc = m.pc } }
