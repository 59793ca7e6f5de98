-- ===== src/X86/Decode.antt =====
-- nemu/src/isa/x86/local-include/decode.h: the decoders of single operands and of instructions.
use nju_ics2020_pa.Base.{
  ℕ, ◌+◌, ◌%◌, Bool, true, false, ◌||◌, none, some, ◌==◌, if◌then◌else◌, bit_and, Result, ok, stop,
  assertion, ◌>>=◌, ◌>>◌, assert,
}
use nju_ics2020_pa.Rtl.COp.{word_range}
use nju_ics2020_pa.Rtl.Machine.{
  Exec, Slot, src1, src2, dest, rz, val, op_type_mem, op_type_imm, load, store, preg_of,
  instr_fetch,
}
use nju_ics2020_pa.Rtl.Basic.{rtl_li}
use nju_ics2020_pa.X86.Modrm.{
  pmem_base, operand_reg, operand_rm, on_operand, on_isa, set_mbase, load_mem,
}

-- R_EAX, R_ECX and R_DX
abbrev pub r_eax : ℕ
r_eax = 0

abbrev pub r_ecx : ℕ
r_ecx = 1

abbrev pub r_dx : ℕ
r_dx = 2

module _ {D : Type 0} where
  abbrev width_of : Slot → Exec D → ℕ
  width_of k e = (e.s.operand k).width

  -- The second argument of the decoders of operands is `load_val`.
  unfoldable pub operand_imm : Slot → Bool → ℕ → Exec D → Result (Exec D)
  operand_imm op load_val imm e = do
    let e₁ = on_operand op (λ o. record o { type = op_type_imm; imm = imm }) e
    if load_val
        then (rtl_li (val op) imm e₁ >>= λ e₂.
            ok (on_operand op (λ o. record o { preg = some (val op) }) e₂))
        else ok e₁

  unfoldable pub decode_op_i : Slot → Bool → Exec D → Result (Exec D)
  decode_op_i op load_val e = do
    (imm, e₁) ← instr_fetch pmem_base (width_of op e) e
    operand_imm op load_val imm e₁

  -- Ends in a `TODO()`.
  pub decode_op_si : Slot → Bool → Exec D → Result (Exec D)
  decode_op_si op load_val e = assert (width_of op e == 1 || width_of op e == 4) >> stop assertion

  pub decode_op_a : Slot → Bool → Exec D → Result (Exec D)
  decode_op_a op load_val e = operand_reg op load_val r_eax (width_of op e) e

  unfoldable pub decode_op_r : Slot → Bool → Exec D → Result (Exec D)
  decode_op_r op load_val e = operand_reg op load_val (e.s.opcode % 8) (width_of op e) e

  pub decode_op_o : Slot → Bool → Exec D → Result (Exec D)
  decode_op_o op load_val e = do
    let e₁ = on_operand op (λ o. record o { type = op_type_mem }) e
    (moff, e₂) ← instr_fetch pmem_base 4 e₁
    let e₃ = set_mbase rz (on_isa (λ i. record i { moff = moff }) e₂)
    if load_val
        then (load_mem op e₃ >>= λ e₄.
            ok (on_operand op (λ o. record o { preg = some (val op) }) e₄))
        else ok e₃

  abbrev set_op_width : Slot → ℕ → Exec D → Exec D
  set_op_width k w = on_operand k (λ o. record o { width = w })

  -- `if (id_dest->width == 2) *dsrc1 &= 0xffff;`
  pub cut_src1 : Exec D → Result (Exec D)
  cut_src1 e =
      if width_of dest e == 2
      then (preg_of src1 e >>= λ p. store p (bit_and (load p e) 0xffff) e)
      else ok e

  pub decode_g2e : Exec D → Result (Exec D)
  decode_g2e = operand_rm dest true (some src1) true

  unfoldable pub decode_mov_g2e : Exec D → Result (Exec D)
  decode_mov_g2e = operand_rm dest false (some src1) true

  pub decode_e2g : Exec D → Result (Exec D)
  decode_e2g = operand_rm src1 true (some dest) true

  unfoldable pub decode_mov_e2g : Exec D → Result (Exec D)
  decode_mov_e2g = operand_rm src1 true (some dest) false

  pub decode_lea_m2g : Exec D → Result (Exec D)
  decode_lea_m2g = operand_rm src1 false (some dest) false

  pub decode_i2a : Exec D → Result (Exec D)
  decode_i2a e = decode_op_a dest true e >>= decode_op_i src1 true

  pub decode_i_e2g : Exec D → Result (Exec D)
  decode_i_e2g e = operand_rm src2 true (some dest) false e >>= decode_op_i src1 true

  pub decode_i2e : Exec D → Result (Exec D)
  decode_i2e e = operand_rm dest true none false e >>= decode_op_i src1 true

  unfoldable pub decode_mov_i2e : Exec D → Result (Exec D)
  decode_mov_i2e e = operand_rm dest false none false e >>= decode_op_i src1 true

  pub decode_i2r : Exec D → Result (Exec D)
  decode_i2r e = decode_op_r dest true e >>= decode_op_i src1 true

  unfoldable pub decode_mov_i2r : Exec D → Result (Exec D)
  decode_mov_i2r e = decode_op_r dest false e >>= decode_op_i src1 true

  pub decode_i : Exec D → Result (Exec D)
  decode_i = decode_op_i dest true

  pub decode_r : Exec D → Result (Exec D)
  decode_r = decode_op_r dest true

  pub decode_e : Exec D → Result (Exec D)
  decode_e = operand_rm dest true none false

  pub decode_setcc_e : Exec D → Result (Exec D)
  decode_setcc_e = operand_rm dest false none false

  pub decode_gp7_e : Exec D → Result (Exec D)
  decode_gp7_e = operand_rm dest false none false

  pub decode_test_i : Exec D → Result (Exec D)
  decode_test_i = decode_op_i src1 true

  pub decode_si2e : Exec D → Result (Exec D)
  decode_si2e e = do
    assert (width_of dest e == 2 || width_of dest e == 4)
    e₁ ← operand_rm dest true none false e
    e₂ ← decode_op_si src1 true (set_op_width src1 1 e₁)
    cut_src1 e₂

  pub decode_si_e2g : Exec D → Result (Exec D)
  decode_si_e2g e = do
    assert (width_of dest e == 2 || width_of dest e == 4)
    e₁ ← operand_rm src2 true (some dest) false e
    e₂ ← decode_op_si src1 true (set_op_width src1 1 e₁)
    cut_src1 e₂

  pub decode_gp2_1_e : Exec D → Result (Exec D)
  decode_gp2_1_e e = operand_rm dest true none false e >>= operand_imm src1 true 1

  pub decode_gp2_cl2e : Exec D → Result (Exec D)
  decode_gp2_cl2e e = operand_rm dest true none false e >>= operand_reg src1 true r_ecx 4

  pub decode_gp2_ib2e : Exec D → Result (Exec D)
  decode_gp2_ib2e e = do
    e₁ ← operand_rm dest true none false e
    decode_op_i src1 true (set_op_width src1 1 e₁)

  pub decode_ib_g2e : Exec D → Result (Exec D)
  decode_ib_g2e e = do
    e₁ ← operand_rm dest true (some src2) true e
    decode_op_i src1 true (set_op_width src1 1 e₁)

  pub decode_cl_g2e : Exec D → Result (Exec D)
  decode_cl_g2e e = operand_rm dest true (some src2) true e >>= operand_reg src1 true r_ecx 4

  pub decode_o2a : Exec D → Result (Exec D)
  decode_o2a e = decode_op_o src1 true e >>= decode_op_a dest false

  pub decode_a2o : Exec D → Result (Exec D)
  decode_a2o e = decode_op_a src1 true e >>= decode_op_o dest false

  pub decode_j : Exec D → Result (Exec D)
  decode_j e = decode_op_si dest false e >>= λ e₁. ok (record e₁ {
    s = record e₁.s { jmp_pc = ((e₁.s.operand dest).imm + e₁.s.seq_pc) % word_range };
  })

  pub decode_push_si : Exec D → Result (Exec D)
  decode_push_si = decode_op_si dest true

  pub decode_in_i2a : Exec D → Result (Exec D)
  decode_in_i2a e = decode_op_i src1 true (set_op_width src1 1 e) >>= decode_op_a dest false

  pub decode_in_dx2a : Exec D → Result (Exec D)
  decode_in_dx2a e = operand_reg src1 true r_dx 2 e >>= decode_op_a dest false

  pub decode_out_a2i : Exec D → Result (Exec D)
  decode_out_a2i e = do e₁ ← decode_op_a src1 true e; decode_op_i dest true (set_op_width dest 1 e₁)

  pub decode_out_a2dx : Exec D → Result (Exec D)
  decode_out_a2dx e = decode_op_a src1 true e >>= operand_reg dest true r_dx 2
