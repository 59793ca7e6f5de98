-- ===== src/X86/Tests.antt =====
-- The x86 guest on examples: an instruction in memory, a product and a quotient, and the test of the registers.
use nju_ics2020_pa.Base.{
  ℕ, ◌+◌, ◌*◌, ◌%◌, ◌^◌, ◌<◌, ◌≡◌, refl, true, none, some, [], ◌==◌, if◌then◌else◌, ok, ◌>>=◌,
  arith,
}
use nju_ics2020_pa.Rtl.Machine.{Machine, Exec, gpr, dest, op_type_reg, nemu_running}
use nju_ics2020_pa.X86.Modrm.{load_addr}
use nju_ics2020_pa.X86.Modrm.Address.{Addr}
use nju_ics2020_pa.X86.Modrm.Fetched.{at}
use nju_ics2020_pa.X86.Modrm.Locate.{Located}
use nju_ics2020_pa.X86.Modrm.Decoded.{load_addr-Located}
use nju_ics2020_pa.X86.Arith.{exec_mul, exec_div, exec_imul1}
use nju_ics2020_pa.X86.Arith.Wide.{exec_mul_lem, exec_div_lem, Others}
use nju_ics2020_pa.X86.Arith.Signed.{exec_imul1-mul}
use nju_ics2020_pa.X86.Exec.{fetch_decode_exec, exec_opcode, isa_exec_once}
use nju_ics2020_pa.X86.Exec.Prefix.{ready, fetch_decode_exec-Prefixed}
use nju_ics2020_pa.X86.Spec.{short, mem, Mov, rm_from_imm, move}
use nju_ics2020_pa.X86.Step.Round.{isa_exec_once-move}
use nju_ics2020_pa.X86.RegTest.{reg_test}
use nju_ics2020_pa.X86.RegTest.Passes.{reg_test_lem}

-- `66 66 c7 84 99 00 e0 ff ff` from 0x100000 on.
abbrev pmem : ℕ → ℕ
pmem p =
    if p == 0x100000
    then 0x66
    else if p == 0x100001
    then 0x66
    else if p == 0x100002
    then 0xc7
    else if p == 0x100003
    then 0x84
    else if p == 0x100004
    then 0x99
    else if p == 0x100006
    then 0xe0
    else if p == 0x100007
    then 0xff
    else if p == 0x100008
    then 0xff
    else 0

abbrev machine : Machine (Unit {0})
machine = record {
  gpr = λ i. i + 3;
  pc = 0x100000;
  bus = record {
    pmem = pmem;
    io = record { io_space = λ p. 0; p_space = 0; dev = tt };
    mmio = [];
    pio = [];
  };
  nemu_state = record { state = nemu_running; halt_pc = 0; halt_ret = 0 };
}

-- The operand of `width` bytes stands in edx.
abbrev exec : ℕ → Exec (Unit {0})
exec width = record {
  cpu = machine;
  s = record {
    seq_pc = 0x100000;
    is_jmp = true;
    jmp_pc = 9;
    operand =
        λ k. record { type = op_type_reg; width = width; imm = 2; preg = some (gpr 2); val = 9 };
    width = 9;
    tmp_reg = λ i. 9;
    instr = 9;
    opcode = 9;
    isa = record { is_operand_size_16 = true; ext_opcode = 0; mbase = none; mbr = 0; moff = 0 };
  };
}

-- `-0x2000(%ecx,%ebx,4)`
abbrev addr : Addr
addr = record { base = some 1; index = some 3; scale = 2; disp = 0xffffe000 }

load_addr-Located_example :
    (e' : Exec (Unit {0})) × (load_addr (pmem 0x100003) dest (at 0x100004 (exec 4)) ≡ ok e')
    × Located dest addr (at 0x100009 (exec 4)) e'
load_addr-Located_example = load_addr-Located 0 0x100003 dest addr (exec 4) (
  omega arith,
  record { base_reg = omega arith; index_reg = omega arith; word = omega arith },
  omega arith,
  omega arith,
)

fetch_decode_exec-Prefixed_example :
    fetch_decode_exec 3 (at 0x100000 (exec 4))
    ≡ exec_opcode 0xc7 (ready 0xc7 true 0x100003 (exec 4))
fetch_decode_exec-Prefixed_example =
    fetch_decode_exec-Prefixed 2 3 0xc7 0x100000 (exec 4) (omega arith) (omega arith) (omega arith)
      (omega arith) (omega arith) (omega arith)

exec_mul_lem_example :
    (e' : Exec (Unit {0})) × (exec_mul (exec 4) ≡ ok e')
    × (e'.cpu.gpr 2 * 2 ^ 32 + e'.cpu.gpr 0 ≡ 15)
    × Others (exec 4) e'
exec_mul_lem_example =
    exec_mul_lem (gpr 2) (exec 4) (omega arith) refl refl (omega arith) (omega arith)

-- The divisor in ecx; edx is zero.
abbrev small : Exec (Unit {0})
small = record (exec 4) {
  cpu = record machine { gpr = λ i. if i == 2 then 0 else i + 3 };
  s = record ((exec 4).s) {
    operand = λ k. record { type = op_type_reg; width = 4; imm = 1; preg = some (gpr 1); val = 9 };
  };
}

exec_div_lem_example :
    (e' : Exec (Unit {0})) × (exec_div small ≡ ok e')
    × (e'.cpu.gpr 0 * 4 + e'.cpu.gpr 2 ≡ 3)
    × (e'.cpu.gpr 2 < 4)
    × Others small e'
exec_div_lem_example =
    exec_div_lem (gpr 1) small (omega arith) refl refl (omega arith) (omega arith) (omega arith)

exec_imul1-mul_example : exec_imul1 (exec 1) ≡ exec_mul (exec 1)
exec_imul1-mul_example = exec_imul1-mul (gpr 2) (exec 1) (omega arith) refl refl (omega arith)

reg_test_lem_example :
    (g : ℕ → ℕ) × (reg_test (λ i. i * 0x1010101) 77 machine
      ≡ ok (record machine { pc = 77; gpr = g }))
    × ((i : ℕ) → i < 8 → g i ≡ i * 0x1010101)
reg_test_lem_example = reg_test_lem (λ i. i * 0x1010101) 77 machine

-- `movw $0, -0x2000(%ecx,%ebx,4)`
abbrev store_zero : Mov
store_zero = rm_from_imm (mem addr) 0

abbrev moving : Machine (Unit {0})
moving = record machine { gpr = λ i. i % 8 + 0x3000; pc = 0x100001 }

pmem-IsBytes : (p : ℕ) → pmem p < 256
pmem-IsBytes p = ground arith

isa_exec_once-move_example :
    isa_exec_once 2 ((exec 4).s) moving
    ≡ (move short store_zero moving >>= λ m. ok (0x10000b, record m { pc = 0x10000b }))
isa_exec_once-move_example =
    isa_exec_once-move short store_zero 2 0x10000b ((exec 4).s) moving (λ k. omega arith)
      pmem-IsBytes
      (record { base_reg = omega arith; index_reg = omega arith; word = omega arith }, omega arith)
      (record { bytes = omega arith; end = refl; room = omega arith }) (omega arith)
