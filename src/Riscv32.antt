-- ===== src/Riscv32.antt =====
-- nemu/src/isa/riscv32 and nemu/include/isa/riscv32.h: decoding and execution of the guest's
-- instructions. `set_width(s, 0)`, the empty decoder and the printing of instructions do nothing.
pub mod Spec
pub mod Fields
pub mod Step
pub mod Helpers
pub mod Invariant
pub mod Image
mod Tests
use nju_ics2020_pa.Base.{
  ℕ, zero, suc, ◌+◌, ◌-◌, ◌*◌, ◌/◌, ◌%◌, ◌^◌, Bool, true, false, Option, none, some, if◌then◌else◌,
  ◌==◌, ltb, update, Result, ok, stop, undefined, assertion, ◌>>=◌, ◌>>◌, of_option, assert,
  defined, List, [], ◌∷◌,
}
use nju_ics2020_pa.Base.Bytes.{write_le}
use nju_ics2020_pa.Base.Int.{signed}
use nju_ics2020_pa.Memory.Paddr.{Bus, is_len, guest_to_host}
use nju_ics2020_pa.Rtl.COp.{word_range, of_sword}
use nju_ics2020_pa.Rtl.Machine.{
  Exec, Machine, Slot, src1, src2, dest, gpr, Decode, op_type_imm, op_type_reg, set_operand,
  preg_of, nemu_end, nemu_abort, rtl_exit, instr_fetch, update_pc,
}
use nju_ics2020_pa.Rtl.Basic.{rtl_li, rtl_lm, rtl_sm}

abbrev pub image_start : ℕ
image_start = 0x100000

abbrev pub pmem_base : ℕ
pmem_base = 0x80000000

-- The bit fields of an instruction.
pub field : ℕ → ℕ → ℕ → ℕ
field low width instr = instr / 2 ^ low % 2 ^ width

abbrev pub opcode1_0 : ℕ → ℕ
opcode1_0 = field 0 2

abbrev pub opcode6_2 : ℕ → ℕ
opcode6_2 = field 2 5

abbrev pub rd : ℕ → ℕ
rd = field 7 5

abbrev pub imm4_0 : ℕ → ℕ
imm4_0 = field 7 5

abbrev pub funct3 : ℕ → ℕ
funct3 = field 12 3

abbrev pub rs1 : ℕ → ℕ
rs1 = field 15 5

abbrev pub rs2 : ℕ → ℕ
rs2 = field 20 5

-- The signed fields, as words.
abbrev pub simm11_0 : ℕ → ℕ
simm11_0 instr = of_sword (signed (2 ^ 11) (field 20 12 instr))

abbrev pub simm11_5 : ℕ → ℕ
simm11_5 instr = of_sword (signed (2 ^ 6) (field 25 7 instr))

abbrev pub imm31_12 : ℕ → ℕ
imm31_12 = field 12 20

-- lui t0,0x80000; sw zero,0(t0); lw a0,0(t0); nemu_trap
abbrev pub img : ℕ
img = 0x800002b7 + 2 ^ 32 * (0x0002a023 + 2 ^ 32 * (0x0002a503 + 2 ^ 32 * 0x0000006b))

module _ {D : Type 0} where
  pub set_width : ℕ → Exec D → Exec D
  set_width width e = if width == 0 then e else record e { s = record e.s { width = width } }

  pub decode_op_i : Slot → ℕ → Exec D → Exec D
  decode_op_i k v e = record e {
    s = set_operand k (record (e.s.operand k) { type = op_type_imm; imm = v }) e.s;
  }

  -- `reg` is in the union with `imm`.
  pub decode_op_r : Slot → ℕ → Exec D → Result (Exec D)
  decode_op_r k v e =
      assert (ltb v 32)
      >> ok (record e {
        s =
            set_operand k
              (record (e.s.operand k) { type = op_type_reg; imm = v; preg = some (gpr v) }) e.s;
      })

  pub decode_i : Exec D → Result (Exec D)
  decode_i e = do
    let instr = e.s.instr
    e₁ ← decode_op_r src1 (rs1 instr) e
    let e₂ = decode_op_i src2 (simm11_0 instr) e₁
    decode_op_r dest (rd instr) e₂

  pub decode_u : Exec D → Result (Exec D)
  decode_u e =
      let instr = e.s.instr in
      decode_op_r dest (rd instr) (decode_op_i src1 (imm31_12 instr * 2 ^ 12 % word_range) e)

  -- `simm11_5 << 5` ends in five zeros.
  pub decode_s : Exec D → Result (Exec D)
  decode_s e = do
    let instr = e.s.instr
    e₁ ← decode_op_r src1 (rs1 instr) e
    let simm = (simm11_5 instr * 2 ^ 5 + imm4_0 instr) % word_range
    decode_op_r dest (rs2 instr) (decode_op_i src2 simm e₁)

  pub exec_inv : Exec D → Result (Exec D)
  exec_inv e = do
    (instr₀, e₁) ← instr_fetch pmem_base 4 (record e { s = record e.s { seq_pc = e.cpu.pc } })
    (instr₁, e₂) ← instr_fetch pmem_base 4 e₁
    ok (record e₂ { cpu = rtl_exit nemu_abort e.cpu.pc (word_range - 1) e₂.cpu })

  -- `difftest_skip_ref()` is empty without DIFF_TEST.
  pub exec_nemu_trap : Exec D → Result (Exec D)
  exec_nemu_trap e = ok (record e { cpu = rtl_exit nemu_end e.cpu.pc (e.cpu.gpr 10) e.cpu })

  pub exec_lui : Exec D → Result (Exec D)
  exec_lui e = do ddest ← preg_of dest e; rtl_li ddest (e.s.operand src1).imm e

  pub exec_ld : Exec D → Result (Exec D)
  exec_ld e = do
    ddest ← preg_of dest e
    dsrc1 ← preg_of src1 e
    e' ← rtl_lm pmem_base ddest dsrc1 (e.s.operand src2).imm e.s.width e
    assert (is_len e'.s.width)
    ok e'

  pub exec_st : Exec D → Result (Exec D)
  exec_st e = do
    dsrc1 ← preg_of src1 e
    ddest ← preg_of dest e
    e' ← rtl_sm pmem_base dsrc1 (e.s.operand src2).imm ddest e.s.width e
    assert (is_len e'.s.width)
    ok e'

  pub exec_load : Exec D → Result (Exec D)
  exec_load e = if funct3 e.s.instr == 2 then exec_ld (set_width 4 e) else exec_inv e

  pub exec_store : Exec D → Result (Exec D)
  exec_store e = if funct3 e.s.instr == 2 then exec_st (set_width 4 e) else exec_inv e

  -- The `switch` on `opcode6_2`.
  pub exec_opcode : ℕ → Exec D → Result (Exec D)
  exec_opcode opcode e =
      if opcode == 0b00000
      then (decode_i e >>= exec_load)
      else if opcode == 0b01000
      then (decode_s e >>= exec_store)
      else if opcode == 0b01101
      then (decode_u e >>= exec_lui)
      else if opcode == 0b11010
      then exec_nemu_trap e
      else exec_inv e

  pub fetch_decode_exec : Exec D → Result (Exec D)
  fetch_decode_exec e = do
    (instr, e') ← instr_fetch pmem_base 4 e
    assert (opcode1_0 instr == 0x3)
    exec_opcode (opcode6_2 instr) (record e' { s = record e'.s { instr = instr } })

  pub reset_zero : Machine D → Machine D
  reset_zero m = record m { gpr = update m.gpr 0 0 }

  -- `garbage` is what the variable `s` holds before it is set. The result is `s.seq_pc`.
  pub isa_exec_once : Decode → Machine D → Result (ℕ × Machine D)
  isa_exec_once garbage m = do
    e ← fetch_decode_exec (record { cpu = m; s = record garbage { is_jmp = false; seq_pc = m.pc } })
    ok (e.s.seq_pc, reset_zero (update_pc e).cpu)

  pub restart : Machine D → Machine D
  restart m = record m { pc = pmem_base + image_start; gpr = update m.gpr 0 0 }

  pub init_isa : Machine D → Machine D
  init_isa m = restart (record m {
    bus = record m.bus { pmem = write_le 16 m.bus.pmem (guest_to_host image_start) img };
  })
