-- ===== src/Riscv32/Invariant.antt =====
-- A machine of words stays one, whatever it executes.
use nju_ics2020_pa.Base.{
  ℕ, ◌<◌, ◌≡◌, refl, false, ◌==◌, ltb, Result, ◌>>=◌, arith, Holds, Holds-bind, Holds-assert, inl,
  inr, Bool-cases, subst, sym,
}
use nju_ics2020_pa.Memory.Paddr.{vaddr_ifetch}
use nju_ics2020_pa.Memory.Paddr.Words.{IsBytes, Read, vaddr_ifetch-Read}
use nju_ics2020_pa.Rtl.COp.{word_range}
use nju_ics2020_pa.Rtl.Machine.{
  Machine, Exec, Slot, src1, src2, dest, rtl_exit, Decode, instr_fetch, update_pc,
}
use nju_ics2020_pa.Rtl.Words.{IsMachine, IsExec, Decoded, Decoded-IsExec, update-lt}
use nju_ics2020_pa.Riscv32.Helpers.{
  exec_inv-IsExec, exec_lui-IsExec, exec_ld-IsExec, exec_st-IsExec,
}
use nju_ics2020_pa.Riscv32.{
  pmem_base, rs1, funct3, isa_exec_once, fetch_decode_exec, exec_opcode, opcode1_0, opcode6_2,
  decode_i, decode_s, decode_u, decode_op_i, decode_op_r, exec_load, exec_store, exec_lui,
  exec_nemu_trap, set_width, reset_zero,
}

module _ {D : Type 0} where
  decode_op_r-Decoded :
      (k : Slot) (v : ℕ) (e e₀ : Exec D) → Decoded e₀ e → Holds (Decoded e₀) (decode_op_r k v e)
  unfolding decode_op_r
  decode_op_r-Decoded k v e e₀ h = Holds-assert (Decoded e₀) (ltb v 32) _ λ fits. h

  decode_op_i-Decoded :
      (k : Slot) (v : ℕ) (e e₀ : Exec D) → Decoded e₀ e → Decoded e₀ (decode_op_i k v e)
  unfolding decode_op_i
  decode_op_i-Decoded k v e e₀ h = h

  decode_i-Decoded : (e : Exec D) → Holds (Decoded e) (decode_i e)
  unfolding decode_i
  decode_i-Decoded e =
      Holds-bind (Decoded e) (Decoded e) (decode_op_r src1 (rs1 e.s.instr) e) _
        (decode_op_r-Decoded src1 (rs1 e.s.instr) e e (refl, refl, refl, refl, refl))
        λ e₁ h. decode_op_r-Decoded dest _ _ e (decode_op_i-Decoded src2 _ e₁ e h)

  decode_s-Decoded : (e : Exec D) → Holds (Decoded e) (decode_s e)
  unfolding decode_s
  decode_s-Decoded e =
      Holds-bind (Decoded e) (Decoded e) (decode_op_r src1 (rs1 e.s.instr) e) _
        (decode_op_r-Decoded src1 (rs1 e.s.instr) e e (refl, refl, refl, refl, refl))
        λ e₁ h. decode_op_r-Decoded dest _ _ e (decode_op_i-Decoded src2 _ e₁ e h)

  decode_u-Decoded : (e : Exec D) → Holds (Decoded e) (decode_u e)
  unfolding decode_u
  decode_u-Decoded e =
      decode_op_r-Decoded dest _ _ e (decode_op_i-Decoded src1 _ e e (refl, refl, refl, refl, refl))

  wide-IsExec : (e : Exec D) → IsExec e → IsExec (set_width 4 e)
  unfolding set_width
  wide-IsExec e x = record { regs = x.regs; memory = x.memory; next = x.next; no_jump = x.no_jump }

  wide : (e : Exec D) → (set_width 4 e).s.width ≡ 4
  unfolding set_width
  wide e = refl

  exec_load-IsExec : (e : Exec D) → e.cpu.pc < word_range → IsExec e → Holds IsExec (exec_load e)
  unfolding exec_load
  exec_load-IsExec e pc x = elim (Bool-cases (funct3 e.s.instr == 2)) [
    | inl word ↦ rw word (exec_ld-IsExec (set_width 4 e) (wide e) (wide-IsExec e x))
    | inr other ↦ rw other (exec_inv-IsExec e pc x)
  ]

  exec_store-IsExec : (e : Exec D) → e.cpu.pc < word_range → IsExec e → Holds IsExec (exec_store e)
  unfolding exec_store
  exec_store-IsExec e pc x = elim (Bool-cases (funct3 e.s.instr == 2)) [
    | inl word ↦ rw word (exec_st-IsExec (set_width 4 e) (wide-IsExec e x))
    | inr other ↦ rw other (exec_inv-IsExec e pc x)
  ]

  -- A decoder and then the execution of what it decoded.
  decoded :
      (dec run : Exec D → Result (Exec D)) (e : Exec D)
      → e.cpu.pc < word_range
      → IsExec e
      → Holds (Decoded e) (dec e)
      → ((e' : Exec D) → e'.cpu.pc < word_range → IsExec e' → Holds IsExec (run e'))
      → Holds IsExec (dec e >>= run)
  decoded dec run e pc x h k = Holds-bind (Decoded e) IsExec (dec e) run h λ e' d.
      k e' (subst (λ (c : Machine D). c.pc < word_range) (sym d.0) pc) (Decoded-IsExec e e' d x)

  exec_opcode-IsExec :
      (opcode : ℕ) (e : Exec D)
      → e.cpu.pc < word_range
      → IsExec e
      → Holds IsExec (exec_opcode opcode e)
  unfolding exec_opcode exec_nemu_trap rtl_exit
  exec_opcode-IsExec opcode e pc x = elim (Bool-cases (opcode == 0b00000)) [
    | inl hit ↦ rw hit (decoded decode_i exec_load e pc x (decode_i-Decoded e) exec_load-IsExec)
    | inr n₁ ↦ elim (Bool-cases (opcode == 0b01000)) [
      | inl hit ↦
          rw (n₁, hit) (decoded decode_s exec_store e pc x (decode_s-Decoded e) exec_store-IsExec)
      | inr n₂ ↦ elim (Bool-cases (opcode == 0b01101)) [
        | inl hit ↦
            rw (n₁, n₂, hit)
              (decoded decode_u exec_lui e pc x (decode_u-Decoded e)
                λ e' p x'. exec_lui-IsExec e' x')
        | inr n₃ ↦ elim (Bool-cases (opcode == 0b11010)) [
          | inl hit ↦
              rw (n₁, n₂, n₃, hit)
                (record { regs = x.regs; memory = x.memory; next = x.next; no_jump = x.no_jump })
          | inr n₄ ↦ rw (n₁, n₂, n₃, n₄) (exec_inv-IsExec e pc x)
        ]
      ]
    ]
  ]

  fetch_decode_exec-IsExec :
      (e : Exec D) → e.cpu.pc < word_range → IsExec e → Holds IsExec (fetch_decode_exec e)
  unfolding fetch_decode_exec instr_fetch
  fetch_decode_exec-IsExec e pc x =
      Holds-bind (λ (y : ℕ × Exec D). (y.1.cpu.pc < word_range) × IsExec y.1) IsExec
        (instr_fetch pmem_base 4 e) _ fetched
        λ (instr, e') h. Holds-assert IsExec (opcode1_0 instr == 0x3) _ λ known.
          exec_opcode-IsExec (opcode6_2 instr) (record e' { s = record e'.s { instr = instr } }) h.0
            (record {
              regs = h.1.regs;
              memory = h.1.memory;
              next = h.1.next;
              no_jump = h.1.no_jump;
            })
    where
      fetched :
          Holds
            (λ (y : ℕ × Exec D). (y.1.cpu.pc < word_range) × IsExec y.1)
            (instr_fetch pmem_base 4 e)
      fetched =
          Holds-bind (Read 4 e.cpu.bus) (λ (y : ℕ × Exec D). (y.1.cpu.pc < word_range) × IsExec y.1)
            (vaddr_ifetch pmem_base e.s.seq_pc 4 e.cpu.bus) _
            (vaddr_ifetch-Read pmem_base e.s.seq_pc 4 e.cpu.bus x.memory)
            λ (v, bus') r. (
              pc,
              record {
                regs = x.regs;
                memory = subst IsBytes (sym r.1) x.memory;
                next = omega arith;
                no_jump = x.no_jump;
              },
            )

  -- From a machine whose registers, program counter and memory hold words and bytes and whose register 0
  -- is zero, a round that does not stop leads to such a machine, whatever the decoder's variables held
  -- and whatever word it executes.
  pub isa_exec_once-IsMachine :
      (garbage : Decode) (m : Machine D)
      → IsMachine m
      → Holds (λ (x : ℕ × Machine D). IsMachine x.1) (isa_exec_once garbage m)
  unfolding isa_exec_once update_pc reset_zero
  isa_exec_once-IsMachine garbage m x =
      Holds-bind IsExec (λ (y : ℕ × Machine D). IsMachine y.1) (fetch_decode_exec start) _
        (fetch_decode_exec-IsExec start x.counter
          (record { regs = x.regs; memory = x.memory; next = x.counter; no_jump = refl }))
        λ e h. record {
          regs = λ i. update-lt e.cpu.gpr 0 0 i (omega arith) (h.regs i);
          zero_reg = ground arith;
          counter = rw (h.no_jump) h.next;
          memory = h.memory;
        }
    where
      start : Exec D
      start = record { cpu = m; s = record garbage { is_jmp = false; seq_pc = m.pc } }
