-- ===== src/X86/Step/Immediates.antt =====
-- `mov` of an immediate, up to the end of the round.
use nju_ics2020_pa.Base.{
  ℕ, zero, suc, ◌+◌, ◌/◌, ◌%◌, ◌≤◌, ◌<◌, ◌≡◌, refl, ap, ◌∙◌, sym, subst, true, false, none, List,
  [], ◌∷◌, ◌++◌, length, length-append, Result, ok, ◌>>=◌, arith,
}
use nju_ics2020_pa.Base.Bytes.{byte_range, Bytes}
use nju_ics2020_pa.Memory.Paddr.{pmem_size, is_len}
use nju_ics2020_pa.Rtl.COp.{word_range, c_add}
use nju_ics2020_pa.Rtl.Machine.{
  Machine, Exec, Loc, rz, mbr, gpr, tmp, val, src1, dest, op_type_imm, load, instr_fetch,
}
use nju_ics2020_pa.Rtl.Basic.{rtl_li, rtl_addi}
use nju_ics2020_pa.X86.Modrm.Address.{Addr, denote, little, encode, At}
use nju_ics2020_pa.X86.Modrm.Fetched.{at, fetch-little}
use nju_ics2020_pa.X86.Modrm.Locate.{Located, IsBase}
use nju_ics2020_pa.X86.Modrm.{pmem_base, operand_reg, on_operand}
use nju_ics2020_pa.X86.Decode.{
  decode_mov_i2e, decode_mov_i2r, decode_op_r, decode_op_i, operand_imm,
}
use nju_ics2020_pa.X86.Move.{exec_mov}
use nju_ics2020_pa.X86.Spec.{
  Width, byte, short, long, size, limit, Rm, reg, mem, IsRm, encode_rm, write_rm,
}
use nju_ics2020_pa.X86.Step.Operands.{
  reg_ready, noted, operand_reg-ok, operand_rm-reg, operand_rm-mem, set_val, set_preg,
}
use nju_ics2020_pa.X86.Step.Ready.{leave, done, Ready, exec_mov-Ready}
use nju_ics2020_pa.X86.Step.Moves.{Fresh, BytesAt}

is_len-size : (w : Width) → is_len (size w) ≡ true
is_len-size byte = refl
is_len-size short = refl
is_len-size long = refl

value_kept : (w : Width) (v : ℕ) → v < limit w → v % byte_range (size w) ≡ v
value_kept byte v h = omega arith
value_kept short v h = omega arith
value_kept long v h = omega arith

limit-lt : (w : Width) (v : ℕ) → v < limit w → v < word_range
limit-lt byte v h = omega arith
limit-lt short v h = omega arith
limit-lt long v h = h

zero_plus : (v : ℕ) → v < word_range → c_add 0 v ≡ v
unfolding c_add
zero_plus v h = omega arith

length-little : (n v : ℕ) → length (little n v) ≡ n
length-little zero v = refl
length-little (suc n) v = ap suc (length-little n (v / 256))

pub At-append :
    (m : Bytes) (p : ℕ) (xs ys : List ℕ) → At m p (xs ++ ys) → At m p xs × At m (p + length xs) ys
At-append m p [] ys h = (tt, subst (λ n. At m n ys) (omega arith) h)
At-append m p (x ∷ xs) ys h =
    let (a, b) = At-append m (suc p) xs ys h.1 in ((h.0, a), subst (λ n. At m n ys) (omega arith) b)

module _ {D : Type 0} where
  abbrev imm_ready : ℕ → Exec D → Exec D
  imm_ready v e =
      set_preg src1 (val src1)
        (set_val src1 v (on_operand src1 (λ o. record o { type = op_type_imm; imm = v }) e))

  imm_ok : (v : ℕ) (e : Exec D) → v < word_range → operand_imm src1 true v e ≡ ok (imm_ready v e)
  unfolding operand_imm rtl_li rtl_addi
  imm_ok v e h =
      ap
        (λ x. ok (
          set_preg src1 (val src1)
            (set_val src1 x (on_operand src1 (λ o. record o { type = op_type_imm; imm = v }) e))))
        (zero_plus v h)

  abbrev imm_operand : ℕ × Exec D → Result (Exec D)
  imm_operand x = operand_imm src1 true x.0 x.1

  imm-ok :
      (w : Width) (v q : ℕ) (e : Exec D)
      → v < limit w
      → (e.s.operand src1).width ≡ size w
      → At e.cpu.bus.pmem q (little (size w) v)
      → q + size w ≤ pmem_size
      → decode_op_i src1 true (at q e) ≡ ok (imm_ready v (at (q + size w) e))
  unfolding decode_op_i
  imm-ok w v q e h hw b room =
      ap (λ n. instr_fetch pmem_base n (at q e) >>= imm_operand) hw
      ∙ ap (λ r. r >>= imm_operand) (fetch-little (size w) v q e (is_len-size w) b room)
      ∙ ap (λ x. imm_operand (x, at (q + size w) e)) (value_kept w v h)
      ∙ imm_ok v (at (q + size w) e) (limit-lt w v h)

  -- The immediate behind a register operand.
  imm_reg-Ready :
      (w : Width) (v r n : ℕ) (e : Exec D)
      → (e.s.operand dest).width ≡ size w
      → e.s.is_jmp ≡ false
      → Ready w (reg r) v e.cpu n (imm_ready v (at n (reg_ready w dest false r e)))
  imm_reg-Ready long v r n e hw hj = record {
    source = record { ptr = val src1; preg = refl; value = refl };
    target = record { type = refl; imm = refl; width = hw };
    cpu = refl;
    next = refl;
    no_jump = hj;
  }
  imm_reg-Ready byte v r n e hw hj = record {
    source = record { ptr = val src1; preg = refl; value = refl };
    target = record { type = refl; imm = refl; width = hw };
    cpu = refl;
    next = refl;
    no_jump = hj;
  }
  imm_reg-Ready short v r n e hw hj = record {
    source = record { ptr = val src1; preg = refl; value = refl };
    target = record { type = refl; imm = refl; width = hw };
    cpu = refl;
    next = refl;
    no_jump = hj;
  }

  load-imm :
      (p : Loc) (v n : ℕ) (e : Exec D)
      → IsBase p
      → load p (imm_ready v (at n (set_preg dest (val dest) e))) ≡ load p e
  load-imm rz v n e h = refl
  load-imm mbr v n e h = refl
  load-imm (gpr i) v n e h = refl
  load-imm (tmp i) v n e h = absurd h
  load-imm (val j) v n e h = absurd h

  imm_mem-Ready :
      (w : Width) (v q n : ℕ) (a : Addr) (m : Machine D) (e₃ e' : Exec D)
      → Located dest a (at q e₃) e'
      → (e₃.s.operand dest).width ≡ size w
      → e₃.cpu ≡ m
      → e₃.s.is_jmp ≡ false
      → Ready w (mem a) v m n (imm_ready v (at n (set_preg dest (val dest) e')))
  imm_mem-Ready w v q n a m e₃ e' l hw hc hj = record {
    source = record { ptr = val src1; preg = refl; value = refl };
    target = record {
      type = ap (λ o. (o dest).type) (l.operand);
      width = ap (λ o. (o dest).width) (l.operand) ∙ hw;
      ptr = l.ptr;
      mbase = l.mbase;
      address =
          ap (λ x. (x + e'.s.isa.moff) % word_range) (load-imm (l.ptr) v n e' (l.is_base))
          ∙ l.address
          ∙ ap (λ (c : Machine D). denote a c.gpr) hc;
    };
    cpu = l.cpu ∙ hc;
    next = refl;
    no_jump = l.is_jmp ∙ hj;
  }

  reg_cpu : (w : Width) (r : ℕ) (e : Exec D) → (reg_ready w dest false r e).cpu ≡ e.cpu
  reg_cpu long r e = refl
  reg_cpu byte r e = refl
  reg_cpu short r e = refl

  reg_width :
      (w : Width) (r : ℕ) (e : Exec D)
      → ((reg_ready w dest false r e).s.operand src1).width ≡ (e.s.operand src1).width
  reg_width long r e = refl
  reg_width byte r e = refl
  reg_width short r e = refl

  reg_at :
      (w : Width) (r : ℕ) (e : Exec D)
      → reg_ready w dest false r e ≡ at (e.s.seq_pc) (reg_ready w dest false r e)
  reg_at long r e = refl
  reg_at byte r e = refl
  reg_at short r e = refl

  -- A register as target, and the immediate behind it.
  imm_reg-ok :
      (w : Width) (r v q : ℕ) (e : Exec D)
      → Fresh w e
      → r < 8
      → v < limit w
      → BytesAt (little (size w) v) q e
      → (decode_op_i src1 true (reg_ready w dest false r (at q e)) >>= exec_mov >>= leave)
        ≡ (write_rm w (reg r) v e.cpu >>= done (q + size w))
  imm_reg-ok w r v q e f hr hv b =
      ap (λ y. decode_op_i src1 true y >>= exec_mov >>= leave) (reg_at w r (at q e))
      ∙ ap (λ y. y >>= exec_mov >>= leave)
          (imm-ok w v q (reg_ready w dest false r (at q e)) hv
            (reg_width w r (at q e) ∙ f.widths src1)
            (subst (λ (c : Machine D). At c.bus.pmem q (little (size w) v))
              (sym (reg_cpu w r (at q e))) b.0)
            (omega (arith, b.1, length-little (size w) v)))
      ∙ exec_mov-Ready w (reg r) v e.cpu (q + size w) _ hr (limit-lt w v hv)
          (imm_reg-Ready w v r (q + size w) (at q e) (f.widths dest) (f.no_jump))

  -- The register is in the opcode.
  pub mov_i2r-ok :
      (w : Width) (r v q : ℕ) (e : Exec D)
      → Fresh w e
      → r < 8
      → e.s.opcode % 8 ≡ r
      → v < limit w
      → BytesAt (little (size w) v) q e
      → (decode_mov_i2r (at q e) >>= exec_mov >>= leave)
        ≡ (write_rm w (reg r) v e.cpu >>= done (q + length (little (size w) v)))
  unfolding decode_mov_i2r decode_op_r
  mov_i2r-ok w r v q e f hr ho hv b =
      let rest = λ (y : Result (Exec D)). y >>= decode_op_i src1 true >>= exec_mov >>= leave in
      ap (λ x. rest (operand_reg dest false x ((e.s.operand dest).width) (at q e))) ho
      ∙ ap (λ x. rest (operand_reg dest false r x (at q e))) (f.widths dest)
      ∙ ap rest (operand_reg-ok w dest false r (at q e) hr)
      ∙ imm_reg-ok w r v q e f hr hv b
      ∙ ap (λ n. write_rm w (reg r) v e.cpu >>= done (q + n)) (sym (length-little (size w) v))

  pub mov_i2e-ok :
      (w : Width) (d : Rm) (v q : ℕ) (e : Exec D)
      → Fresh w e
      → IsRm d
      → v < limit w
      → BytesAt (encode_rm 0 d ++ little (size w) v) q e
      → (decode_mov_i2e (at q e) >>= exec_mov >>= leave)
        ≡ (write_rm w d v e.cpu >>= done (q + length (encode_rm 0 d ++ little (size w) v)))
  unfolding decode_mov_i2e
  mov_i2e-ok w (reg d) v q e f hd hv b =
      let rest = λ (y : Result (Exec D)). y >>= decode_op_i src1 true >>= exec_mov >>= leave in
      ap rest (
        operand_rm-reg w dest false none false 0 d q e (omega arith) hd b.0.0 (omega (arith, b.1))
          (f.widths))
      ∙ imm_reg-ok w d v (q + 1) (noted 0 q e)
          (record { widths = f.widths; regs = f.regs; memory = f.memory; no_jump = f.no_jump }) hd
          hv
          (
            subst (λ n. At e.cpu.bus.pmem n (little (size w) v)) (omega arith) b.0.1,
            omega (arith, b.1),
          )
      ∙ ap (λ n. write_rm w (reg d) v e.cpu >>= done n) (omega (arith, length-little (size w) v))
  mov_i2e-ok w (mem a) v q e f hd hv b =
      let n = q + length (encode 0 a) in
      let rest = λ (y : Result (Exec D)). y >>= decode_op_i src1 true >>= exec_mov >>= leave in
      let (address, number) = At-append e.cpu.bus.pmem q (encode 0 a) (little (size w) v) b.0 in
      let len =
        length-append (encode 0 a) (little (size w) v)
        ∙ ap (λ k. length (encode 0 a) + k) (length-little (size w) v) in
      let x =
        operand_rm-mem w dest false none false 0 q a e
          (omega arith, hd, address, omega (arith, b.1, len)) (f.widths) in
      let l = x.located in
      let e' = set_preg dest (val dest) (x.found) in
      ap rest (x.result)
      ∙ ap (λ k. decode_op_i src1 true (at k e') >>= exec_mov >>= leave) (l.next)
      ∙ ap (λ y. y >>= exec_mov >>= leave)
          (imm-ok w v n e' hv (ap (λ o. (o src1).width) (l.operand) ∙ f.widths src1)
            (subst (λ (c : Machine D). At c.bus.pmem n (little (size w) v)) (sym (l.cpu)) number)
            (omega (arith, b.1, len)))
      ∙ exec_mov-Ready w (mem a) v e.cpu (n + size w) _ hd (limit-lt w v hv) (
          imm_mem-Ready w v n (n + size w) a e.cpu (noted 0 q e) (x.found) l (f.widths dest) refl
            (f.no_jump))
      ∙ ap (λ k. write_rm w (mem a) v e.cpu >>= done k) (omega (arith, len))
