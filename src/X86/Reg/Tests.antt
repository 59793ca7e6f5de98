-- ===== src/X86/Reg/Tests.antt =====
-- The registers of x86 on examples.
use nju_ics2020_pa.Base.{ℕ, ◌≡◌, refl, [], ◌∷◌, some, ok, arith}
use nju_ics2020_pa.Rtl.Machine.{Machine, nemu_running}
use nju_ics2020_pa.X86.Reg.{reg_name, isa_reg_str2val}
use nju_ics2020_pa.X86.Reg.Names.{byte, reg, isa_reg_str2val-reg_name}

abbrev machine : Machine (Unit {0})
machine = record {
  gpr = λ i. 0x12345678;
  pc = 0x100000;
  bus = record {
    pmem = λ p. 0;
    io = record { io_space = λ p. 0; p_space = 0; dev = tt };
    mmio = [];
    pio = [];
  };
  nemu_state = record { state = nemu_running; halt_pc = 0; halt_ret = 0 };
}

isa_reg_str2val-reg_name_example :
    (v : ℕ) × (reg byte 4 machine.gpr ≡ ok v)
    × (isa_reg_str2val (b'A' ∷ b'h' ∷ []) machine ≡ some v)
isa_reg_str2val-reg_name_example =
    isa_reg_str2val-reg_name byte 4 (b'A' ∷ b'h' ∷ []) machine (omega arith)
      (unfold reg_name in refl)
