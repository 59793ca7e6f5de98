-- ===== src/X86/Modrm.antt =====
-- nemu/src/isa/x86/decode.c, and operand_reg and operand_write of local-include/decode.h: operands in
-- registers and in memory. Printing is left out.
pub mod Address
pub mod Fetched
pub mod Locate
pub mod Decoded
use nju_ics2020_pa.Base.{
  ℕ, ◌+◌, ◌/◌, ◌%◌, ◌^◌, Bool, true, false, not, ◌||◌, Option, none, some, ltb, ◌==◌, if◌then◌else◌,
  Result, ok, stop, undefined, assertion, ◌>>=◌, ◌>>◌, assert, of_option,
}
use nju_ics2020_pa.Base.Int.{signed}
use nju_ics2020_pa.Rtl.COp.{of_sword}
use nju_ics2020_pa.Rtl.Machine.{
  Exec, Slot, Loc, rz, mbr, gpr, tmp, val, Operand, OpType, op_type_reg, op_type_mem, op_type_imm,
  IsaInfo, set_operand, instr_fetch,
}
use nju_ics2020_pa.Rtl.Basic.{rtl_add, rtl_shli, rtl_lm, rtl_sm}
use nju_ics2020_pa.X86.Reg.{rtl_lr, rtl_sr}

abbrev pub pmem_base : ℕ
pmem_base = 0

abbrev pub r_esp : ℕ
r_esp = 4

abbrev pub r_ebp : ℕ
r_ebp = 5

-- The bit fields of `ModR_M` and `SIB`: the same bits have two sets of names.
abbrev pub low_field : ℕ → ℕ
low_field v = v % 8

abbrev pub mid_field : ℕ → ℕ
mid_field v = v / 8 % 8

abbrev pub top_field : ℕ → ℕ
top_field v = v / 64 % 4

-- `(int8_t)v` as a word.
abbrev pub sign_byte : ℕ → ℕ
sign_byte v = of_sword (signed (2 ^ 7) (v % 2 ^ 8))

-- `base_reg == r`, where `none` is -1.
abbrev pub is_reg : Option ℕ → ℕ → Bool
is_reg none r = false
is_reg (some b) r = b == r

-- `base_reg` and `disp_size` after the tests of `m->mod`
pub base_and_size : ℕ → Option ℕ → Option ℕ × ℕ
base_and_size mod_ base =
    if mod_ == 0
    then (if is_reg base r_ebp then (none, 4) else (base, 0))
    else if mod_ == 1
    then (base, 1)
    else (base, 4)

pub base_loc : Option ℕ → Result Loc
base_loc none = ok rz
base_loc (some r) = assert (ltb r 8) >> ok (gpr r)

module _ {D : Type 0} where
  abbrev pub on_operand : Slot → (Operand → Operand) → Exec D → Exec D
  on_operand k f e = record e { s = set_operand k (f (e.s.operand k)) e.s }

  abbrev pub on_isa : (IsaInfo → IsaInfo) → Exec D → Exec D
  on_isa f e = record e { s = record e.s { isa = f (e.s.isa) } }

  unfoldable pub operand_reg : Slot → Bool → ℕ → ℕ → Exec D → Result (Exec D)
  operand_reg op load_val r width e = do
    let e₁ = on_operand op (λ o. record o { type = op_type_reg; imm = r }) e
    if width == 4
        then (assert (ltb r 8) >> ok (on_operand op (λ o. record o { preg = some (gpr r) }) e₁))
        else (do
          assert (width == 1 || width == 2)
          let e₂ = on_operand op (λ o. record o { preg = some (val op) }) e₁
          if load_val then rtl_lr (val op) r width e₂ else ok e₂)

  -- `base_reg`, `index_reg` and `scale`
  pub base_and_index : ℕ → Exec D → Result (Option ℕ × Option ℕ × ℕ × Exec D)
  base_and_index r_m e =
      if r_m == r_esp
      then (instr_fetch pmem_base 1 e >>= λ x. ok (
        some (low_field x.0),
        if mid_field x.0 == r_esp then none else some (mid_field x.0),
        top_field x.0,
        x.1,
      ))
      else ok (some r_m, none, 0, e)

  pub fetch_disp : ℕ → Exec D → Result (ℕ × Exec D)
  fetch_disp disp_size e =
      if not (disp_size == 0)
      then (instr_fetch pmem_base disp_size e >>= λ x.
          ok (if disp_size == 1 then sign_byte x.0 else x.0, x.1))
      else ok (0, e)

  abbrev pub set_mbase : Loc → Exec D → Exec D
  set_mbase p = on_isa (λ i. record i { mbase = some p })

  -- `s1` is `tmp 1`.
  pub add_index : Loc → Option ℕ → ℕ → Exec D → Result (Exec D)
  add_index base none scale e = ok e
  add_index base (some i) scale e = do
    assert (ltb i 8)
    e₁ ← rtl_shli (tmp 1) (gpr i) scale e
    e₂ ← rtl_add mbr base (tmp 1) e₁
    ok (set_mbase mbr e₂)

  -- From `s->isa.mbase = ...` on.
  pub locate : Slot → Option ℕ → Option ℕ → ℕ → ℕ → Exec D → Result (Exec D)
  locate rm base index scale disp e = do
    p ← base_loc base
    e₁ ← add_index p index scale (set_mbase p e)
    ok (
        on_operand rm (λ o. record o { type = op_type_mem })
          (on_isa (λ i. record i { moff = disp }) e₁))

  pub load_addr : ℕ → Slot → Exec D → Result (Exec D)
  load_addr m rm e = do
    assert (not (top_field m == 3))
    (base₀, index, scale, e₁) ← base_and_index (low_field m) e
    let (base, disp_size) = base_and_size (top_field m) base₀
    (disp, e₂) ← fetch_disp disp_size e₁
    locate rm base index scale disp e₂

  -- `s->isa.mbase`, which is to be followed.
  abbrev pub mbase_of : Exec D → Result Loc
  mbase_of e = of_option undefined (e.s.isa.mbase)

  -- `rtl_lm` from the address that was decoded.
  unfoldable pub load_mem : Slot → Exec D → Result (Exec D)
  load_mem op e = do
    base ← mbase_of e
    rtl_lm pmem_base (val op) base (e.s.isa.moff) ((e.s.operand op).width) e

  -- `reg` is `none` where the source passes NULL.
  unfoldable pub operand_rm : Slot → Bool → Option Slot → Bool → Exec D → Result (Exec D)
  operand_rm rm load_rm_val reg load_reg_val e = do
    (m, e₁) ← instr_fetch pmem_base 1 e
    let e₂ = on_isa (λ i. record i { ext_opcode = mid_field m }) e₁
    e₃ ← elim reg [
      | none ↦ ok e₂
      | some k ↦ operand_reg k load_reg_val (mid_field m) ((e₂.s.operand k).width) e₂
    ]
    if top_field m == 3
        then operand_reg rm load_rm_val (low_field m) ((e₃.s.operand rm).width) e₃
        else (do
          e₄ ← load_addr m rm e₃
          e₅ ← if load_rm_val then load_mem rm e₄ else ok e₄
          ok (on_operand rm (λ o. record o { preg = some (val rm) }) e₅))

  unfoldable pub write_as : OpType → Slot → Loc → Exec D → Result (Exec D)
  write_as op_type_reg k src e = rtl_sr ((e.s.operand k).imm) src ((e.s.operand k).width) e
  write_as op_type_mem k src e = do
    base ← mbase_of e
    rtl_sm pmem_base base (e.s.isa.moff) src ((e.s.operand k).width) e
  write_as op_type_imm k src e = stop assertion

  unfoldable pub operand_write : Slot → Loc → Exec D → Result (Exec D)
  operand_write k src e = write_as ((e.s.operand k).type) k src e
