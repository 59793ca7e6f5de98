-- ===== src/Rtl/Basic.antt =====
-- nemu/src/engine/interpreter/rtl-basic.h and nemu/include/rtl/pseudo.h for a 32-bit guest.
use nju_ics2020_pa.Base.{
  ℕ, ◌+◌, ◌*◌, ◌/◌, ◌%◌, ◌^◌, Bool, true, false, not, ◌&&◌, if◌then◌else◌, ◌==◌, Result, ok, stop,
  assertion, ◌>>=◌, ◌>>◌, defined,
}
use nju_ics2020_pa.Base.Int.{ℤ, signed, tdiv, tmod, fits}
use nju_ics2020_pa.Memory.Paddr.{vaddr_read, vaddr_write}
use nju_ics2020_pa.Rtl.COp.{
  word_range, sword, of_sword, c_add, c_sub, c_and, c_or, c_xor, c_shl, c_shr, c_sar, c_mul_lo,
  c_mul_hi, c_imul_lo, c_imul_hi, c_div_q, c_div_r, c_idiv_q, c_idiv_r, interpret_relop,
}
use nju_ics2020_pa.Rtl.Machine.{Exec, Loc, rz, same_loc, load, store}

abbrev bool_word : Bool → ℕ
bool_word true = 1
bool_word false = 0

-- An operation that is defined everywhere.
abbrev total : (ℕ → ℕ → ℕ) → ℕ → ℕ → Result ℕ
total c a b = ok (c a b)

-- The low `len` bytes with their sign, for the lengths that the `switch` knows.
pub sign_extend : ℕ → ℕ → Result ℕ
sign_extend len v =
    if len == 4
    then ok (of_sword (signed (2 ^ 31) v))
    else if len == 1
    then ok (of_sword (signed (2 ^ 7) (v % 2 ^ 8)))
    else if len == 2
    then ok (of_sword (signed (2 ^ 15) (v % 2 ^ 16)))
    else stop assertion

module _ {D : Type 0} where
  -- The bodies that the two macros make of an operation.
  abbrev compute_reg : (ℕ → ℕ → Result ℕ) → Loc → Loc → Loc → Exec D → Result (Exec D)
  compute_reg c dest src1 src2 e = do v ← c (load src1 e) (load src2 e); store dest v e

  -- The immediate is a `sword_t`, as a word.
  abbrev compute_imm : (ℕ → ℕ → Result ℕ) → Loc → Loc → ℕ → Exec D → Result (Exec D)
  compute_imm c dest src1 imm e = do v ← c (load src1 e) imm; store dest v e

  unfoldable pub rtl_add : Loc → Loc → Loc → Exec D → Result (Exec D)
  rtl_add = compute_reg (total c_add)

  pub rtl_sub : Loc → Loc → Loc → Exec D → Result (Exec D)
  rtl_sub = compute_reg (total c_sub)

  pub rtl_and : Loc → Loc → Loc → Exec D → Result (Exec D)
  rtl_and = compute_reg (total c_and)

  unfoldable pub rtl_or : Loc → Loc → Loc → Exec D → Result (Exec D)
  rtl_or = compute_reg (total c_or)

  pub rtl_xor : Loc → Loc → Loc → Exec D → Result (Exec D)
  rtl_xor = compute_reg (total c_xor)

  pub rtl_shl : Loc → Loc → Loc → Exec D → Result (Exec D)
  rtl_shl = compute_reg (total c_shl)

  pub rtl_shr : Loc → Loc → Loc → Exec D → Result (Exec D)
  rtl_shr = compute_reg (total c_shr)

  pub rtl_sar : Loc → Loc → Loc → Exec D → Result (Exec D)
  rtl_sar = compute_reg (total c_sar)

  unfoldable pub rtl_addi : Loc → Loc → ℕ → Exec D → Result (Exec D)
  rtl_addi = compute_imm (total c_add)

  pub rtl_subi : Loc → Loc → ℕ → Exec D → Result (Exec D)
  rtl_subi = compute_imm (total c_sub)

  pub rtl_andi : Loc → Loc → ℕ → Exec D → Result (Exec D)
  rtl_andi = compute_imm (total c_and)

  pub rtl_ori : Loc → Loc → ℕ → Exec D → Result (Exec D)
  rtl_ori = compute_imm (total c_or)

  pub rtl_xori : Loc → Loc → ℕ → Exec D → Result (Exec D)
  rtl_xori = compute_imm (total c_xor)

  unfoldable pub rtl_shli : Loc → Loc → ℕ → Exec D → Result (Exec D)
  rtl_shli = compute_imm (total c_shl)

  unfoldable pub rtl_shri : Loc → Loc → ℕ → Exec D → Result (Exec D)
  rtl_shri = compute_imm (total c_shr)

  pub rtl_sari : Loc → Loc → ℕ → Exec D → Result (Exec D)
  rtl_sari = compute_imm (total c_sar)

  pub rtl_setrelop : ℕ → Loc → Loc → Loc → Exec D → Result (Exec D)
  rtl_setrelop relop dest src1 src2 e = do
    b ← interpret_relop relop (load src1 e) (load src2 e)
    store dest (bool_word b) e

  pub rtl_setrelopi : ℕ → Loc → Loc → ℕ → Exec D → Result (Exec D)
  rtl_setrelopi relop dest src1 imm e = do
    b ← interpret_relop relop (load src1 e) imm
    store dest (bool_word b) e

  unfoldable pub rtl_mul_lo : Loc → Loc → Loc → Exec D → Result (Exec D)
  rtl_mul_lo = compute_reg (total c_mul_lo)

  unfoldable pub rtl_mul_hi : Loc → Loc → Loc → Exec D → Result (Exec D)
  rtl_mul_hi = compute_reg (total c_mul_hi)

  unfoldable pub rtl_imul_lo : Loc → Loc → Loc → Exec D → Result (Exec D)
  rtl_imul_lo = compute_reg c_imul_lo

  unfoldable pub rtl_imul_hi : Loc → Loc → Loc → Exec D → Result (Exec D)
  rtl_imul_hi = compute_reg (total c_imul_hi)

  unfoldable pub rtl_div_q : Loc → Loc → Loc → Exec D → Result (Exec D)
  rtl_div_q = compute_reg c_div_q

  unfoldable pub rtl_div_r : Loc → Loc → Loc → Exec D → Result (Exec D)
  rtl_div_r = compute_reg c_div_r

  pub rtl_idiv_q : Loc → Loc → Loc → Exec D → Result (Exec D)
  rtl_idiv_q = compute_reg c_idiv_q

  pub rtl_idiv_r : Loc → Loc → Loc → Exec D → Result (Exec D)
  rtl_idiv_r = compute_reg c_idiv_r

  -- Two words as one number of 64 bits.
  abbrev pub dividend : Loc → Loc → Exec D → ℕ
  dividend hi lo e = load hi e * word_range + load lo e

  unfoldable pub rtl_div64_q : Loc → Loc → Loc → Loc → Exec D → Result (Exec D)
  rtl_div64_q dest src1_hi src1_lo src2 e =
      let divisor = load src2 e in
      defined (not (divisor == 0))
      >> store dest (dividend src1_hi src1_lo e / divisor % word_range) e

  unfoldable pub rtl_div64_r : Loc → Loc → Loc → Loc → Exec D → Result (Exec D)
  rtl_div64_r dest src1_hi src1_lo src2 e =
      let divisor = load src2 e in
      defined (not (divisor == 0))
      >> store dest (dividend src1_hi src1_lo e % divisor % word_range) e

  -- `int64_t`
  abbrev sdividend : Loc → Loc → Exec D → ℤ
  sdividend hi lo e = signed (2 ^ 63) (dividend hi lo e)

  pub rtl_idiv64_q : Loc → Loc → Loc → Loc → Exec D → Result (Exec D)
  rtl_idiv64_q dest src1_hi src1_lo src2 e =
      let q = tdiv (sdividend src1_hi src1_lo e) (sword (load src2 e)) in
      defined (not (load src2 e == 0) && fits (2 ^ 63) q) >> store dest (of_sword q) e

  pub rtl_idiv64_r : Loc → Loc → Loc → Loc → Exec D → Result (Exec D)
  rtl_idiv64_r dest src1_hi src1_lo src2 e =
      let q = tdiv (sdividend src1_hi src1_lo e) (sword (load src2 e)) in
      defined (not (load src2 e == 0) && fits (2 ^ 63) q)
      >> store dest (of_sword (tmod (sdividend src1_hi src1_lo e) (sword (load src2 e)))) e

  module _ (pmem_base : ℕ) where
    -- `vaddr_read`, with the devices that it changes.
    abbrev read_mem : ℕ → ℕ → Exec D → Result (ℕ × Exec D)
    read_mem addr len e = vaddr_read pmem_base addr len e.cpu.bus >>= λ x.
        ok (x.0, record e { cpu = record e.cpu { bus = x.1 } })

    unfoldable pub rtl_lm : Loc → Loc → ℕ → ℕ → Exec D → Result (Exec D)
    rtl_lm dest addr offset len e = do
      (v, e') ← read_mem ((load addr e + offset) % word_range) len e
      store dest v e'

    unfoldable pub rtl_sm : Loc → ℕ → Loc → ℕ → Exec D → Result (Exec D)
    rtl_sm addr offset src1 len e =
        vaddr_write pmem_base ((load addr e + offset) % word_range) (load src1 e) len e.cpu.bus
        >>= λ bus'. ok (record e { cpu = record e.cpu { bus = bus' } })

    pub rtl_lms : Loc → Loc → ℕ → ℕ → Exec D → Result (Exec D)
    rtl_lms dest addr offset len e = do
      (v, e') ← read_mem ((load addr e + offset) % word_range) len e
      w ← sign_extend len v
      store dest w e'

  pub rtl_j : ℕ → Exec D → Result (Exec D)
  rtl_j target e = ok (record e { s = record e.s { jmp_pc = target; is_jmp = true } })

  pub rtl_jr : Loc → Exec D → Result (Exec D)
  rtl_jr target e = ok (record e { s = record e.s { jmp_pc = load target e; is_jmp = true } })

  pub rtl_jrelop : ℕ → Loc → Loc → ℕ → Exec D → Result (Exec D)
  rtl_jrelop relop src1 src2 target e = do
    is_jmp ← interpret_relop relop (load src1 e) (load src2 e)
    if is_jmp then rtl_j target e else ok e

  unfoldable pub rtl_li : Loc → ℕ → Exec D → Result (Exec D)
  rtl_li dest imm e = rtl_addi dest rz imm e

  unfoldable pub rtl_mv : Loc → Loc → Exec D → Result (Exec D)
  rtl_mv dest src1 e = if same_loc dest src1 then ok e else rtl_add dest src1 rz e

  -- The pseudo instructions that are a `TODO()`.
  pub rtl_not : Loc → Loc → Exec D → Result (Exec D)
  rtl_not dest src1 e = stop assertion

  pub rtl_neg : Loc → Loc → Exec D → Result (Exec D)
  rtl_neg dest src1 e = stop assertion

  pub rtl_sext : Loc → Loc → ℕ → Exec D → Result (Exec D)
  rtl_sext dest src1 width e = stop assertion

  pub rtl_zext : Loc → Loc → ℕ → Exec D → Result (Exec D)
  rtl_zext dest src1 width e = stop assertion

  pub rtl_msb : Loc → Loc → ℕ → Exec D → Result (Exec D)
  rtl_msb dest src1 width e = stop assertion
