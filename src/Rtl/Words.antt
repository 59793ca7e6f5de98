-- ===== src/Rtl/Words.antt =====
-- Machines of words: what the operations keep, on 32-bit guests without jumps.
use nju_ics2020_pa.Base.{
  ℕ, ◌+◌, ◌%◌, ◌<◌, ◌≡◌, false, update, ok, arith, Holds, Holds-bind, subst, sym, ◌∙◌,
}
use nju_ics2020_pa.Memory.Paddr.{Bus, vaddr_read, vaddr_write, vaddr_ifetch}
use nju_ics2020_pa.Memory.Paddr.Words.{
  IsBytes, Read, vaddr_read-Read, vaddr_ifetch-Read, vaddr_write-IsBytes,
}
use nju_ics2020_pa.Rtl.COp.{word_range, c_add}
use nju_ics2020_pa.Rtl.Machine.{
  Exec, Loc, rz, mbr, gpr, tmp, val, load, store, Machine, instr_fetch,
}
use nju_ics2020_pa.Rtl.Basic.{rtl_li, rtl_addi, rtl_lm, rtl_sm}

pub update-lt :
    (g : ℕ → ℕ) (i v j : ℕ) → v < word_range → g j < word_range → update g i v j < word_range
update-lt g i v j h k = ground arith

module _ {D : Type 0} where
  -- Registers, program counter and memory hold what their types hold, and register 0 is zero.
  pub record IsMachine (m : Machine D) : Type 0 where
    pub regs : (i : ℕ) → m.gpr i < word_range
    pub zero_reg : m.gpr 0 ≡ 0
    pub counter : m.pc < word_range
    pub memory : IsBytes m.bus.pmem

  -- Registers, the next address and memory hold what their types hold, within an instruction of this
  -- guest, none of which jumps.
  pub record IsExec (e : Exec D) : Type 0 where
    pub regs : (i : ℕ) → e.cpu.gpr i < word_range
    pub memory : IsBytes e.cpu.bus.pmem
    pub next : e.s.seq_pc < word_range
    pub no_jump : e.s.is_jmp ≡ false

  -- What the decoders keep: they set operands only.
  abbrev pub Decoded : Exec D → Exec D → Type 0
  Decoded e e' =
      (e'.cpu ≡ e.cpu)
      × (e'.s.seq_pc ≡ e.s.seq_pc)
      × (e'.s.is_jmp ≡ e.s.is_jmp)
      × (e'.s.instr ≡ e.s.instr)
      × (e'.s.width ≡ e.s.width)

  pub Decoded-IsExec : (e e' : Exec D) → Decoded e e' → IsExec e → IsExec e'
  Decoded-IsExec e e' h x = record {
    regs = λ i. subst (λ (c : Machine D). c.gpr i < word_range) (sym h.0) (x.regs i);
    memory = subst (λ (c : Machine D). IsBytes c.bus.pmem) (sym h.0) x.memory;
    next = subst (λ n. n < word_range) (sym h.1) x.next;
    no_jump = h.2 ∙ x.no_jump;
  }

  store-IsExec :
      (p : Loc) (v : ℕ) (e : Exec D) → v < word_range → IsExec e → Holds IsExec (store p v e)
  store-IsExec rz v e h x = tt
  store-IsExec mbr v e h x = record {
    regs = x.regs;
    memory = x.memory;
    next = x.next;
    no_jump = x.no_jump;
  }
  store-IsExec (gpr i) v e h x = record {
    regs = λ j. update-lt e.cpu.gpr i v j h (x.regs j);
    memory = x.memory;
    next = x.next;
    no_jump = x.no_jump;
  }
  store-IsExec (tmp i) v e h x = record {
    regs = x.regs;
    memory = x.memory;
    next = x.next;
    no_jump = x.no_jump;
  }
  store-IsExec (val k) v e h x = record {
    regs = x.regs;
    memory = x.memory;
    next = x.next;
    no_jump = x.no_jump;
  }

  pub rtl_li-IsExec : (p : Loc) (imm : ℕ) (e : Exec D) → IsExec e → Holds IsExec (rtl_li p imm e)
  unfolding rtl_li rtl_addi c_add
  rtl_li-IsExec p imm e x = store-IsExec p _ e (omega arith) x

  module _ (pmem_base : ℕ) where
    pub instr_fetch-IsExec :
        (e : Exec D) → IsExec e → Holds (λ (x : ℕ × Exec D). IsExec x.1) (instr_fetch pmem_base 4 e)
    unfolding instr_fetch
    instr_fetch-IsExec e x =
        Holds-bind (Read 4 e.cpu.bus) (λ (y : ℕ × Exec D). IsExec y.1)
          (vaddr_ifetch pmem_base e.s.seq_pc 4 e.cpu.bus) _
          (vaddr_ifetch-Read pmem_base e.s.seq_pc 4 e.cpu.bus x.memory)
          λ (v, bus') r. record {
            regs = x.regs;
            memory = subst IsBytes (sym r.1) x.memory;
            next = omega arith;
            no_jump = x.no_jump;
          }

    pub rtl_lm-IsExec :
        (d a : Loc) (offset : ℕ) (e : Exec D)
        → IsExec e
        → Holds IsExec (rtl_lm pmem_base d a offset 4 e)
    unfolding rtl_lm
    rtl_lm-IsExec d a offset e x =
        Holds-bind (λ (y : ℕ × Exec D). (y.0 < word_range) × IsExec y.1) IsExec _ _
          (Holds-bind (Read 4 e.cpu.bus) (λ (y : ℕ × Exec D). (y.0 < word_range) × IsExec y.1)
            (vaddr_read pmem_base ((load a e + offset) % word_range) 4 e.cpu.bus)
            (λ y. ok (y.0, record e { cpu = record e.cpu { bus = y.1 } }))
            (vaddr_read-Read pmem_base ((load a e + offset) % word_range) 4 e.cpu.bus x.memory)
            λ (v, bus') r. (
              r.0,
              record {
                regs = x.regs;
                memory = subst IsBytes (sym r.1) x.memory;
                next = x.next;
                no_jump = x.no_jump;
              },
            ))
          λ (v, e') r. store-IsExec d v e' r.0 r.1

    pub rtl_sm-IsExec :
        (a d : Loc) (offset len : ℕ) (e : Exec D)
        → IsExec e
        → Holds IsExec (rtl_sm pmem_base a offset d len e)
    unfolding rtl_sm
    rtl_sm-IsExec a d offset len e x =
        Holds-bind (λ (b : Bus D). IsBytes b.pmem) IsExec
          (vaddr_write pmem_base ((load a e + offset) % word_range) (load d e) len e.cpu.bus) _
          (vaddr_write-IsBytes pmem_base ((load a e + offset) % word_range) (load d e) len e.cpu.bus
            x.memory)
          λ bus' h. record { regs = x.regs; memory = h; next = x.next; no_jump = x.no_jump }
