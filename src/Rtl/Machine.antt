-- ===== src/Rtl/Machine.antt =====
-- The state that the register-transfer operations work on: the guest's processor and memory, and
-- `DecodeExecState` of nemu/include/cpu/decode.h, for a 32-bit guest.
use nju_ics2020_pa.Base.{
  ℕ, ◌+◌, ◌%◌, Bool, true, false, Option, if◌then◌else◌, ◌==◌, update, Result, ok, stop, undefined,
  ◌>>=◌, of_option,
}
use nju_ics2020_pa.Memory.Paddr.{Bus, vaddr_ifetch}
use nju_ics2020_pa.Rtl.COp.{word_range}

-- `NEMU_STOP`, `NEMU_RUNNING`, ...
pub data Phase : Type 0 where
  nemu_stop nemu_running nemu_end nemu_abort nemu_quit : Phase

pub record NemuState : Type 0 where
  pub state : Phase
  pub halt_pc : ℕ
  pub halt_ret : ℕ

-- `cpu`, `pmem` with the devices, and `nemu_state`.
pub record Machine (D : Type 0) : Type 0 where
  pub gpr : ℕ → ℕ
  pub pc : ℕ
  pub bus : Bus D
  pub nemu_state : NemuState

-- `id_src1`, `id_src2` and `id_dest`.
pub data Slot : Type 0 where
  src1 src2 dest : Slot

-- What a `rtlreg_t *` points at: `rzero`, a register of the guest, a temporary register, the member
-- `val` of an operand, or `isa.mbr` of an x86 guest.
pub data Loc : Type 0 where
  rz mbr : Loc
  gpr tmp : ℕ → Loc
  val : Slot → Loc

pub data OpType : Type 0 where
  op_type_reg op_type_mem op_type_imm : OpType

-- `imm` is the union of `reg`, `imm` and `simm`. `preg` is `none` before it is set.
pub record Operand : Type 0 where
  pub type : OpType
  pub width : ℕ
  pub imm : ℕ
  pub preg : Option Loc
  pub val : ℕ

-- `x86_ISADecodeInfo` of nemu/include/isa/x86.h.
pub record IsaInfo : Type 0 where
  pub is_operand_size_16 : Bool
  pub ext_opcode : ℕ
  pub mbase : Option Loc
  pub mbr : ℕ
  pub moff : ℕ

-- `DecodeExecState`. `instr` is the member `isa.instr.val` of the guests with words of instructions, and
-- `isa` is that member of an x86 guest.
pub record Decode : Type 0 where
  pub seq_pc : ℕ
  pub is_jmp : Bool
  pub jmp_pc : ℕ
  pub operand : Slot → Operand
  pub width : ℕ
  pub tmp_reg : ℕ → ℕ
  pub instr : ℕ
  pub opcode : ℕ
  pub isa : IsaInfo

pub record Exec (D : Type 0) : Type 0 where
  pub cpu : Machine D
  pub s : Decode

abbrev pub same_slot : Slot → Slot → Bool
same_slot src1 src1 = true
same_slot src2 src2 = true
same_slot dest dest = true
same_slot _ _ = false

-- Whether two pointers are equal.
abbrev pub same_loc : Loc → Loc → Bool
same_loc rz rz = true
same_loc mbr mbr = true
same_loc (gpr i) (gpr j) = i == j
same_loc (tmp i) (tmp j) = i == j
same_loc (val k) (val l) = same_slot k l
same_loc _ _ = false

abbrev pub set_operand : Slot → Operand → Decode → Decode
set_operand k o s = record s { operand = λ j. if same_slot k j then o else s.operand j }

module _ {D : Type 0} where
  -- `*p`
  abbrev pub load : Loc → Exec D → ℕ
  load rz e = 0
  load mbr e = e.s.isa.mbr
  load (gpr i) e = e.cpu.gpr i
  load (tmp i) e = e.s.tmp_reg i
  load (val k) e = (e.s.operand k).val

  -- `*p = v`; `rzero` is constant.
  abbrev pub store : Loc → ℕ → Exec D → Result (Exec D)
  store rz v e = stop undefined
  store mbr v e = ok (record e { s = record e.s { isa = record (e.s.isa) { mbr = v } } })
  store (gpr i) v e = ok (record e { cpu = record e.cpu { gpr = update e.cpu.gpr i v } })
  store (tmp i) v e = ok (record e { s = record e.s { tmp_reg = update e.s.tmp_reg i v } })
  store (val k) v e = ok (record e { s = set_operand k (record (e.s.operand k) { val = v }) e.s })

  -- `ddest`, `dsrc1` and `dsrc2`
  abbrev pub preg_of : Slot → Exec D → Result Loc
  preg_of k e = of_option undefined (e.s.operand k).preg

  unfoldable pub rtl_exit : Phase → ℕ → ℕ → Machine D → Machine D
  rtl_exit state halt_pc halt_ret m = record m {
    nemu_state = record { state = state; halt_pc = halt_pc; halt_ret = halt_ret };
  }

  -- `instr_fetch(&s->seq_pc, len)`, without the debug build's log of the bytes.
  unfoldable pub instr_fetch : ℕ → ℕ → Exec D → Result (ℕ × Exec D)
  instr_fetch pmem_base len e = do
    (instr, bus') ← vaddr_ifetch pmem_base e.s.seq_pc len e.cpu.bus
    ok (
      instr,
      record {
        cpu = record e.cpu { bus = bus' };
        s = record e.s { seq_pc = (e.s.seq_pc + len) % word_range };
      },
    )

  unfoldable pub update_pc : Exec D → Exec D
  update_pc e = record e {
    cpu = record e.cpu { pc = if e.s.is_jmp then e.s.jmp_pc else e.s.seq_pc };
  }
