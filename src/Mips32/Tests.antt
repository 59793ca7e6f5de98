-- ===== src/Mips32/Tests.antt =====
-- A machine that executes the first instruction of the built-in image.
use nju_ics2020_pa.Base.{
  ℕ, ◌≡◌, refl, none, [], ok, arith, true, Holds, ◌>>=◌, if◌then◌else◌, ◌==◌, ◌<◌,
}
use nju_ics2020_pa.Base.Bytes.{read_le}
use nju_ics2020_pa.Memory.Paddr.{Bus, vaddr_ifetch}
use nju_ics2020_pa.Memory.Paddr.Fetch.{vaddr_ifetch-ok}
use nju_ics2020_pa.Rtl.Machine.{Machine, Decode, op_type_imm, nemu_running}
use nju_ics2020_pa.Mips32.{pmem_base, isa_exec_once}
use nju_ics2020_pa.Mips32.Spec.{lui, encode, spec}
use nju_ics2020_pa.Mips32.Step.{mips_exec_once-spec}
use nju_ics2020_pa.Rtl.Words.{IsMachine}
use nju_ics2020_pa.Mips32.Invariant.{mips_exec_once-IsMachine}

-- lui a0,0x8000 at the start of the memory, little-endian.
abbrev pmem : ℕ → ℕ
pmem p = if p == 1 then 0x80 else if p == 2 then 0x04 else if p == 3 then 0x3c else 0

abbrev bus : Bus (Unit {0})
bus = record {
  pmem = pmem;
  io = record { io_space = λ p. 0; p_space = 0; dev = tt };
  mmio = [];
  pio = [];
}

abbrev machine : Machine (Unit {0})
machine = record {
  gpr = λ i. 0;
  pc = 0x80000000;
  bus = bus;
  nemu_state = record { state = nemu_running; halt_pc = 0; halt_ret = 0 };
}

abbrev garbage : Decode
garbage = record {
  seq_pc = 9;
  is_jmp = true;
  jmp_pc = 9;
  operand = λ k. record { type = op_type_imm; width = 9; imm = 9; preg = none; val = 9 };
  width = 9;
  tmp_reg = λ i. 9;
  instr = 9;
  opcode = 9;
  isa = record { is_operand_size_16 = true; ext_opcode = 9; mbase = none; mbr = 9; moff = 9 };
}

fetched : vaddr_ifetch pmem_base 0x80000000 4 bus ≡ ok (encode (lui 4 0 0x8000), bus)
unfolding read_le
fetched =
    vaddr_ifetch-ok pmem_base 0x80000000 4 bus
      (record { known = refl; low = omega arith; high = omega arith })

mips_exec_once-spec_example :
    isa_exec_once garbage machine ≡ (spec (lui 4 0 0x8000) machine >>= λ m'. ok (0x80000004, m'))
mips_exec_once-spec_example =
    mips_exec_once-spec garbage machine bus (lui 4 0 0x8000) (omega arith, omega arith, omega arith)
      fetched

pmem-lt : (p : ℕ) → pmem p < 256
pmem-lt p = ground arith

mips_exec_once-IsMachine_example :
    Holds (λ (x : ℕ × Machine (Unit {0})). IsMachine x.1) (isa_exec_once garbage machine)
mips_exec_once-IsMachine_example =
    mips_exec_once-IsMachine garbage machine
      (record { regs = λ i. omega arith; zero_reg = refl; counter = omega arith; memory = pmem-lt })
