-- ===== src/Mips32.antt =====
-- nemu/src/isa/mips32 and nemu/include/isa/mips32.h: decoding and execution of the guest's instructions.
-- `set_width(s, 0)`, the empty decoder and the printing of instructions do nothing.
pub mod Spec
pub mod Step
pub mod Helpers
pub mod Invariant
mod Tests
use nju_ics2020_pa.Base.{
  ℕ, zero, suc, ◌+◌, ◌-◌, ◌*◌, ◌/◌, ◌%◌, ◌^◌, Bool, true, false, Option, none, some, if◌then◌else◌,
  ◌==◌, ltb, update, Result, ok, stop, undefined, assertion, ◌>>=◌, ◌>>◌, of_option, assert,
  defined, List, [], ◌∷◌,
}
use nju_ics2020_pa.Base.Bytes.{write_le}
use nju_ics2020_pa.Base.Int.{signed}
use nju_ics2020_pa.Memory.Paddr.{Bus, is_len, guest_to_host}
use nju_ics2020_pa.Rtl.COp.{word_range, of_sword}
use nju_ics2020_pa.Rtl.Machine.{
  Exec, Machine, Slot, src1, src2, dest, gpr, Decode, op_type_imm, op_type_reg, set_operand,
  preg_of, nemu_end, nemu_abort, rtl_exit, instr_fetch, update_pc,
}
use nju_ics2020_pa.Rtl.Basic.{rtl_li, rtl_lm, rtl_sm}

abbrev pub image_start : ℕ
image_start = 0x100000

abbrev pub pmem_base : ℕ
pmem_base = 0x80000000

-- The bit fields of an instruction.
pub field : ℕ → ℕ → ℕ → ℕ
field low width instr = instr / 2 ^ low % 2 ^ width

abbrev pub opcode : ℕ → ℕ
opcode = field 26 6

abbrev pub rs : ℕ → ℕ
rs = field 21 5

abbrev pub rt : ℕ → ℕ
rt = field 16 5

abbrev pub imm16 : ℕ → ℕ
imm16 = field 0 16

-- The signed field, as a word.
abbrev pub simm : ℕ → ℕ
simm instr = of_sword (signed (2 ^ 15) (field 0 16 instr))

-- lui a0,0x8000; sw zero,0(a0); lw v0,0(a0); nemu_trap
abbrev pub img : ℕ
img = 0x3c048000 + 2 ^ 32 * (0xac800000 + 2 ^ 32 * (0x8c820000 + 2 ^ 32 * 0xf0000000))

module _ {D : Type 0} where
  pub set_width : ℕ → Exec D → Exec D
  set_width width e = if width == 0 then e else record e { s = record e.s { width = width } }

  pub decode_op_i : Slot → ℕ → Exec D → Exec D
  decode_op_i k v e = record e {
    s = set_operand k (record (e.s.operand k) { type = op_type_imm; imm = v }) e.s;
  }

  -- `reg` is in the union with `imm`.
  pub decode_op_r : Slot → ℕ → Exec D → Result (Exec D)
  decode_op_r k v e =
      assert (ltb v 32)
      >> ok (record e {
        s =
            set_operand k
              (record (e.s.operand k) { type = op_type_reg; imm = v; preg = some (gpr v) }) e.s;
      })

  pub decode_iu : Exec D → Result (Exec D)
  decode_iu e = do
    let instr = e.s.instr
    e₁ ← decode_op_r src1 (rs instr) e
    decode_op_r dest (rt instr) (decode_op_i src2 (imm16 instr) e₁)

  pub decode_ld : Exec D → Result (Exec D)
  decode_ld e = do
    let instr = e.s.instr
    e₁ ← decode_op_r src1 (rs instr) e
    decode_op_r dest (rt instr) (decode_op_i src2 (simm instr) e₁)

  pub decode_st : Exec D → Result (Exec D)
  decode_st e = do
    let instr = e.s.instr
    e₁ ← decode_op_r src1 (rs instr) e
    decode_op_r dest (rt instr) (decode_op_i src2 (simm instr) e₁)

  pub exec_inv : Exec D → Result (Exec D)
  exec_inv e = do
    (instr₀, e₁) ← instr_fetch pmem_base 4 (record e { s = record e.s { seq_pc = e.cpu.pc } })
    (instr₁, e₂) ← instr_fetch pmem_base 4 e₁
    ok (record e₂ { cpu = rtl_exit nemu_abort e.cpu.pc (word_range - 1) e₂.cpu })

  -- `difftest_skip_ref()` is empty without DIFF_TEST.
  pub exec_nemu_trap : Exec D → Result (Exec D)
  exec_nemu_trap e = ok (record e { cpu = rtl_exit nemu_end e.cpu.pc (e.cpu.gpr 2) e.cpu })

  pub exec_lui : Exec D → Result (Exec D)
  exec_lui e = do
    ddest ← preg_of dest e
    rtl_li ddest ((e.s.operand src2).imm * 2 ^ 16 % word_range) e

  pub exec_ld : Exec D → Result (Exec D)
  exec_ld e = do
    ddest ← preg_of dest e
    dsrc1 ← preg_of src1 e
    e' ← rtl_lm pmem_base ddest dsrc1 (e.s.operand src2).imm e.s.width e
    assert (is_len e'.s.width)
    ok e'

  pub exec_st : Exec D → Result (Exec D)
  exec_st e = do
    dsrc1 ← preg_of src1 e
    ddest ← preg_of dest e
    e' ← rtl_sm pmem_base dsrc1 (e.s.operand src2).imm ddest e.s.width e
    assert (is_len e'.s.width)
    ok e'

  -- No function of the special opcode is known.
  pub exec_special : Exec D → Result (Exec D)
  exec_special e = exec_inv e

  -- The `switch` on the opcode, whose numbers are octal.
  pub exec_opcode : ℕ → Exec D → Result (Exec D)
  exec_opcode op e =
      if op == 0
      then exec_special e
      else if op == 15
      then (decode_iu e >>= exec_lui)
      else if op == 35
      then (decode_ld (set_width 4 e) >>= exec_ld)
      else if op == 43
      then (decode_st (set_width 4 e) >>= exec_st)
      else if op == 60
      then exec_nemu_trap e
      else exec_inv e

  pub fetch_decode_exec : Exec D → Result (Exec D)
  fetch_decode_exec e = do
    (instr, e') ← instr_fetch pmem_base 4 e
    exec_opcode (opcode instr) (record e' { s = record e'.s { instr = instr } })

  pub reset_zero : Machine D → Machine D
  reset_zero m = record m { gpr = update m.gpr 0 0 }

  -- `garbage` is what the variable `s` holds before it is set. The result is `s.seq_pc`.
  pub isa_exec_once : Decode → Machine D → Result (ℕ × Machine D)
  isa_exec_once garbage m = do
    e ← fetch_decode_exec (record { cpu = m; s = record garbage { is_jmp = false; seq_pc = m.pc } })
    ok (e.s.seq_pc, reset_zero (update_pc e).cpu)

  pub restart : Machine D → Machine D
  restart m = record m { pc = pmem_base + image_start; gpr = update m.gpr 0 0 }

  pub init_isa : Machine D → Machine D
  init_isa m = restart (record m {
    bus = record m.bus { pmem = write_le 16 m.bus.pmem (guest_to_host image_start) img };
  })
