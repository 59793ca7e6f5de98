-- ===== src/X86/Step/Round.antt =====
-- A round of isa_exec_once on a `mov`.
use nju_ics2020_pa.Base.{
  ℕ, ◌+◌, ◌%◌, ◌≤◌, ◌<◌, ◌≡◌, ◌≢◌, refl, ap, ◌∙◌, sym, subst, false, some, ◌∷◌, ◌++◌, length,
  Result, ◌>>=◌, arith, bind_assoc,
}
use nju_ics2020_pa.Memory.Paddr.{pmem_size}
use nju_ics2020_pa.Memory.Paddr.Words.{IsBytes}
use nju_ics2020_pa.Rtl.COp.{word_range}
use nju_ics2020_pa.Rtl.Machine.{Machine, Decode, Exec, Slot, src1, src2, dest}
use nju_ics2020_pa.X86.Modrm.Address.{At}
use nju_ics2020_pa.X86.Modrm.Fetched.{at}
use nju_ics2020_pa.X86.Decode.{decode_mov_g2e, decode_mov_e2g, decode_mov_i2e, decode_mov_i2r}
use nju_ics2020_pa.X86.Move.{exec_mov}
use nju_ics2020_pa.X86.Exec.{set_width, exec_opcode, isa_exec_once, begun}
use nju_ics2020_pa.X86.Exec.Prefix.{Prefixed, after, ready, fetch_decode_exec-Prefixed}
use nju_ics2020_pa.X86.Spec.{
  Width, byte, short, long, size, reg, Mov, rm_from_reg, reg_from_rm, reg_from_imm, rm_from_imm,
  IsMov, prefix, opcode, operands, read_rm, write_rm, move,
}
use nju_ics2020_pa.X86.Step.Ready.{leave, done}
use nju_ics2020_pa.X86.Step.Moves.{Fresh, BytesAt, mov_g2e-ok}
use nju_ics2020_pa.X86.Step.Loads.{mov_e2g-ok}
use nju_ics2020_pa.X86.Step.Immediates.{mov_i2r-ok, mov_i2e-ok}

-- The argument of set_width, and the number of prefixes.
abbrev width_code : Width → ℕ
width_code byte = 1
width_code _ = 0

abbrev prefixes : Width → ℕ
prefixes short = 1
prefixes _ = 0

prefixes-small : (w : Width) → prefixes w ≤ 1
prefixes-small byte = omega arith
prefixes-small short = omega arith
prefixes-small long = omega arith

-- An opcode is a byte, and not the prefix.
opcode-code : (w : Width) (i : Mov) → IsMov w i → (opcode w i < 256) × (opcode w i ≢ 0x66)
opcode-code byte (rm_from_reg d r) h = (omega arith, omega arith)
opcode-code byte (reg_from_rm r s) h = (omega arith, omega arith)
opcode-code byte (reg_from_imm r v) h = (omega (arith, h.0), omega (arith, h.0))
opcode-code byte (rm_from_imm d v) h = (omega arith, omega arith)
opcode-code short (rm_from_reg d r) h = (omega arith, omega arith)
opcode-code short (reg_from_rm r s) h = (omega arith, omega arith)
opcode-code short (reg_from_imm r v) h = (omega (arith, h.0), omega (arith, h.0))
opcode-code short (rm_from_imm d v) h = (omega arith, omega arith)
opcode-code long (rm_from_reg d r) h = (omega arith, omega arith)
opcode-code long (reg_from_rm r s) h = (omega arith, omega arith)
opcode-code long (reg_from_imm r v) h = (omega (arith, h.0), omega (arith, h.0))
opcode-code long (rm_from_imm d v) h = (omega arith, omega arith)

module _ {D : Type 0} where
  abbrev decoder : Mov → Exec D → Result (Exec D)
  decoder (rm_from_reg d r) = decode_mov_g2e
  decoder (reg_from_rm r s) = decode_mov_e2g
  decoder (reg_from_imm r v) = decode_mov_i2r
  decoder (rm_from_imm d v) = decode_mov_i2e

  b0-exec :
      (r : ℕ) (e : Exec D)
      → r < 8
      → exec_opcode (0xb0 + r) e ≡ (decode_mov_i2r (set_width (some 1) e) >>= exec_mov)
  unfolding exec_opcode
  b0-exec r e h = ground arith

  b8-exec :
      (r : ℕ) (e : Exec D)
      → r < 8
      → exec_opcode (0xb8 + r) e ≡ (decode_mov_i2r (set_width (some 0) e) >>= exec_mov)
  unfolding exec_opcode
  b8-exec r e h = ground arith

  exec_opcode-mov :
      (w : Width) (i : Mov) (e : Exec D)
      → IsMov w i
      → exec_opcode (opcode w i) e ≡ (decoder i (set_width (some (width_code w)) e) >>= exec_mov)
  unfolding exec_opcode
  exec_opcode-mov byte (rm_from_reg d r) e h = refl
  exec_opcode-mov byte (reg_from_rm r s) e h = refl
  exec_opcode-mov byte (reg_from_imm r v) e h = b0-exec r e h.0
  exec_opcode-mov byte (rm_from_imm d v) e h = refl
  exec_opcode-mov short (rm_from_reg d r) e h = refl
  exec_opcode-mov short (reg_from_rm r s) e h = refl
  exec_opcode-mov short (reg_from_imm r v) e h = b8-exec r e h.0
  exec_opcode-mov short (rm_from_imm d v) e h = refl
  exec_opcode-mov long (rm_from_reg d r) e h = refl
  exec_opcode-mov long (reg_from_rm r s) e h = refl
  exec_opcode-mov long (reg_from_imm r v) e h = b8-exec r e h.0
  exec_opcode-mov long (rm_from_imm d v) e h = refl

  -- The state that the decoder of operands starts in.
  abbrev sized : Width → ℕ → ℕ → Exec D → Exec D
  sized w op q e = set_width (some (width_code w)) (ready op (after (prefixes w) false) q e)

  sized-Fresh :
      (w : Width) (op q : ℕ) (e : Exec D)
      → ((i : ℕ) → e.cpu.gpr i < word_range)
      → IsBytes e.cpu.bus.pmem
      → e.s.is_jmp ≡ false
      → Fresh w (sized w op q e)
  unfolding set_width
  sized-Fresh w op q e hr hm hj = record { widths = widths w; regs = hr; memory = hm; no_jump = hj }
    where
      widths : (w : Width) (j : Slot) → ((sized w op q e).s.operand j).width ≡ size w
      widths byte src1 = refl
      widths byte src2 = refl
      widths byte dest = refl
      widths short src1 = refl
      widths short src2 = refl
      widths short dest = refl
      widths long src1 = refl
      widths long src2 = refl
      widths long dest = refl

  -- The decoder and exec_mov move as the manual says.
  decoder-move :
      (w : Width) (i : Mov) (q : ℕ) (e : Exec D)
      → Fresh w e
      → IsMov w i
      → e.s.opcode ≡ opcode w i
      → BytesAt (operands w i) q e
      → (decoder i (at q e) >>= exec_mov >>= leave)
        ≡ (move w i e.cpu >>= done (q + length (operands w i)))
  decoder-move w (rm_from_reg d r) q e f h ho b = mov_g2e-ok w d r q e f h.0 h.1 b
  decoder-move w (reg_from_rm r s) q e f h ho b =
      mov_e2g-ok w s r q e f h.0 h.1 b
      ∙ sym (
          bind_assoc (read_rm w s e.cpu) (λ x. write_rm w (reg r) x.0 x.1)
            (done (q + length (operands w (reg_from_rm r s)))))
  decoder-move w (reg_from_imm r v) q e f h ho b = mov_i2r-ok w r v q e f h.0 (field w ho) h.1 b
    where
      field : (w : Width) → e.s.opcode ≡ opcode w (reg_from_imm r v) → e.s.opcode % 8 ≡ r
      field byte g = omega (arith, g, h.0)
      field short g = omega (arith, g, h.0)
      field long g = omega (arith, g, h.0)
  decoder-move w (rm_from_imm d v) q e f h ho b = mov_i2e-ok w d v q e f h.0 h.1 b

  sized-at : (w : Width) (op q : ℕ) (e : Exec D) → sized w op q e ≡ at q (sized w op q e)
  unfolding set_width
  sized-at w op q e = refl

  sized_cpu : (w : Width) (op q : ℕ) (e : Exec D) → (sized w op q e).cpu ≡ e.cpu
  unfolding set_width
  sized_cpu w op q e = refl

  sized_opcode : (w : Width) (op q : ℕ) (e : Exec D) → (sized w op q e).s.opcode ≡ op
  unfolding set_width
  sized_opcode w op q e = refl

  -- The encoded instruction is in memory, after which `n` is the next address.
  pub record EncodedAt (w : Width) (i : Mov) (m : Machine D) (n : ℕ) : Type 0 where
    pub bytes : At m.bus.pmem m.pc (prefix w ++ opcode w i ∷ operands w i)
    pub end : n ≡ m.pc + length (prefix w ++ opcode w i ∷ operands w i)
    pub room : n ≤ pmem_size

  opcode_at :
      (w : Width) (i : Mov) (m : Machine D) (n : ℕ)
      → EncodedAt w i m n
      → Prefixed m.bus.pmem m.pc (prefixes w) (opcode w i)
        × At m.bus.pmem (m.pc + prefixes w + 1) (operands w i)
        × (m.pc + prefixes w + 1 + length (operands w i) ≡ n)
  opcode_at byte i m n x = (
    x.bytes.0,
    subst (λ k. At m.bus.pmem k (operands byte i)) (omega arith) x.bytes.1,
    omega (arith, x.end),
  )
  opcode_at short i m n x = (
    (x.bytes.0, ap m.bus.pmem (omega arith) ∙ x.bytes.1.0),
    subst (λ k. At m.bus.pmem k (operands short i)) (omega arith) x.bytes.1.1,
    omega (arith, x.end),
  )
  opcode_at long i m n x = (
    x.bytes.0,
    subst (λ k. At m.bus.pmem k (operands long i)) (omega arith) x.bytes.1,
    omega (arith, x.end),
  )

  -- On a machine whose registers are words and whose memory is bytes, with two units of fuel: where the
  -- encoding of a `mov` stands at the program counter, a round of the interpreter does what the manual says
  -- of that `mov`, stops where a memory access of it stops, and goes on behind the encoding.
  pub isa_exec_once-move :
      (w : Width) (i : Mov) (fuel n : ℕ) (garbage : Decode) (m : Machine D)
      → ((k : ℕ) → m.gpr k < word_range)
      → IsBytes m.bus.pmem
      → IsMov w i
      → EncodedAt w i m n
      → 1 < fuel
      → isa_exec_once fuel garbage m ≡ (move w i m >>= done n)
  unfolding isa_exec_once
  isa_exec_once-move w i fuel n garbage m hr hm h x lt =
      let e = begun garbage m in
      let q = m.pc + prefixes w + 1 in
      let (op, bytes, next) = opcode_at w i m n x in
      let (small, ne) = opcode-code w i h in
      let e' = sized w (opcode w i) q e in
      ap (λ y. y >>= leave)
        (fetch_decode_exec-Prefixed (prefixes w) fuel (opcode w i) m.pc e op small ne
            (omega (arith, next, x.room)) (omega (arith, prefixes-small w, lt))
            (omega (arith, prefixes-small w))
          ∙ exec_opcode-mov w i (ready (opcode w i) (after (prefixes w) false) q e) h)
      ∙ ap (λ y. decoder i y >>= exec_mov >>= leave) (sized-at w (opcode w i) q e)
      ∙ decoder-move w i q e' (sized-Fresh w (opcode w i) q e hr hm refl) h
          (sized_opcode w (opcode w i) q e)
          (
            subst (λ (c : Machine D). At c.bus.pmem q (operands w i))
                (sym (sized_cpu w (opcode w i) q e)) bytes,
            omega (arith, next, x.room),
          )
      ∙ ap (λ c. move w i c >>= done (q + length (operands w i))) (sized_cpu w (opcode w i) q e)
      ∙ ap (λ k. move w i m >>= done k) next
