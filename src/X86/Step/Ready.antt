-- ===== src/X86/Step/Ready.antt =====
-- From decoded operands to the end of a round.
use nju_ics2020_pa.Base.{
  ℕ, ◌+◌, ◌%◌, ◌<◌, ◌≡◌, refl, ap, ◌∙◌, sym, false, some, Result, ok, ◌>>=◌, bind_assoc, bind_same,
  if◌then◌else◌,
}
use nju_ics2020_pa.Memory.Paddr.{Bus, vaddr_write}
use nju_ics2020_pa.Rtl.COp.{word_range}
use nju_ics2020_pa.Rtl.Machine.{
  Machine, Exec, Loc, rz, mbr, gpr, tmp, val, Slot, src1, src2, dest, load, update_pc,
}
use nju_ics2020_pa.X86.Modrm.{pmem_base}
use nju_ics2020_pa.X86.Modrm.Address.{Addr, denote}
use nju_ics2020_pa.X86.Modrm.Fetched.{at}
use nju_ics2020_pa.X86.Modrm.Locate.{Located, IsBase}
use nju_ics2020_pa.X86.Move.{exec_mov}
use nju_ics2020_pa.X86.Spec.{Width, size, Rm, reg, mem, IsRm, set_reg, write_rm}
use nju_ics2020_pa.X86.Step.Write.{Source, ToReg, ToMem, with_gpr, exec_mov-ToReg, exec_mov-ToMem}
use nju_ics2020_pa.X86.Step.Operands.{set_preg, with_bus}

-- A pointer to a register or to the operand's own copy.
abbrev pub IsSettled : Loc → Type 0
IsSettled (gpr i) = Unit {0}
IsSettled (val src1) = Unit {0}
IsSettled _ = ⊥

module _ {D : Type 0} where
  -- The end of a round: the next address and the machine.
  abbrev pub leave : Exec D → Result (ℕ × Machine D)
  leave e = ok (e.s.seq_pc, (update_pc e).cpu)

  abbrev pub done : ℕ → Machine D → Result (ℕ × Machine D)
  done n m = ok (n, record m { pc = n })

  leave-done :
      (e : Exec D) (m : Machine D) (n : ℕ)
      → e.cpu ≡ m
      → e.s.seq_pc ≡ n
      → e.s.is_jmp ≡ false
      → leave e ≡ done n m
  unfolding update_pc
  leave-done e m n hm hn hj =
      ap (λ j. ok (e.s.seq_pc, record e.cpu { pc = if j then e.s.jmp_pc else e.s.seq_pc })) hj
      ∙ ap (λ i. ok (i, record e.cpu { pc = i })) hn
      ∙ ap (λ c. done n c) hm

  abbrev pub ToRm : Width → Rm → (ℕ → ℕ) → Exec D → Type 0
  ToRm w (reg r) g e = ToReg w r e
  ToRm w (mem a) g e = ToMem w (denote a g) e

  -- The value and the place of a move, on a machine whose next instruction is at `n`.
  pub record Ready (w : Width) (d : Rm) (v : ℕ) (m : Machine D) (n : ℕ) (e : Exec D) : Type 0 where
    pub source : Source src1 v e
    pub target : ToRm w d m.gpr e
    pub cpu : e.cpu ≡ m
    pub next : e.s.seq_pc ≡ n
    pub no_jump : e.s.is_jmp ≡ false

  abbrev written : Width → ℕ → ℕ → Machine D → Machine D
  written w r v c = record c { gpr = set_reg w r v c.gpr }

  abbrev pub set_bus : Bus D → Machine D → Machine D
  set_bus b c = record c { bus = b }

  pub exec_mov-Ready :
      (w : Width) (d : Rm) (v : ℕ) (m : Machine D) (n : ℕ) (e : Exec D)
      → IsRm d
      → v < word_range
      → Ready w d v m n e
      → (exec_mov e >>= leave) ≡ (write_rm w d v m >>= done n)
  exec_mov-Ready w (reg r) v m n e h lt x =
      ap (λ y. y >>= leave) (exec_mov-ToReg w r v e h lt (x.source) (x.target))
      ∙ leave-done (with_gpr (set_reg w r v e.cpu.gpr) e) _ n (ap (written w r v) (x.cpu)) (x.next)
          (x.no_jump)
  exec_mov-Ready w (mem a) v m n e h lt x =
      let writes = λ (b : Bus D). vaddr_write pmem_base (denote a m.gpr) v (size w) b in
      ap (λ y. y >>= leave) (exec_mov-ToMem w (denote a m.gpr) v e (x.source) (x.target))
      ∙ bind_assoc (writes e.cpu.bus) (λ b. ok (with_bus b e)) leave
      ∙ ap (λ (c : Machine D). writes c.bus >>= λ b. leave (with_bus b e)) (x.cpu)
      ∙ bind_same (writes m.bus) (λ b. leave (with_bus b e)) (λ b. done n (set_bus b m))
          (λ b.
            leave-done (with_bus b e) (set_bus b m) n (ap (set_bus b) (x.cpu)) (x.next) (x.no_jump))
      ∙ sym (bind_assoc (writes m.bus) (λ b. ok (set_bus b m)) (done n))

  pub load-base :
      (p q : Loc) (k : Slot) (e : Exec D) → IsBase p → load p (set_preg k q e) ≡ load p e
  load-base rz q k e h = refl
  load-base mbr q k e h = refl
  load-base (gpr i) q k e h = refl
  load-base (tmp i) q k e h = absurd h
  load-base (val j) q k e h = absurd h

  -- The source is decoded, and then a place in memory is.
  pub Located-Ready :
      (w : Width) (a : Addr) (v n : ℕ) (m : Machine D) (p : Loc) (e₃ e' : Exec D)
      → Located dest a (at n e₃) e'
      → IsSettled p
      → (e₃.s.operand src1).preg ≡ some p
      → load p e₃ ≡ v
      → (e₃.s.operand dest).width ≡ size w
      → e₃.cpu ≡ m
      → e₃.s.is_jmp ≡ false
      → Ready w (mem a) v m n (set_preg dest (val dest) e')
  Located-Ready w a v n m p e₃ e' l h hp hv hw hc hj = record {
    source = record {
      ptr = p;
      preg = ap (λ o. (o src1).preg) (l.operand) ∙ hp;
      value = value p h hv;
    };
    target = record {
      type = ap (λ o. (o dest).type) (l.operand);
      width = ap (λ o. (o dest).width) (l.operand) ∙ hw;
      ptr = l.ptr;
      mbase = l.mbase;
      address =
          ap (λ x. (x + e'.s.isa.moff) % word_range)
            (load-base (l.ptr) (val dest) dest e' (l.is_base))
          ∙ l.address
          ∙ ap (λ (c : Machine D). denote a c.gpr) hc;
    };
    cpu = l.cpu ∙ hc;
    next = l.next;
    no_jump = l.is_jmp ∙ hj;
  }
    where
      value : (p : Loc) → IsSettled p → load p e₃ ≡ v → load p (set_preg dest (val dest) e') ≡ v
      value (gpr i) s g = ap (λ (c : Machine D). c.gpr i) (l.cpu) ∙ g
      value (val src1) s g = ap (λ o. (o src1).val) (l.operand) ∙ g
      value (val src2) s g = absurd s
      value (val dest) s g = absurd s
      value rz s g = absurd s
      value mbr s g = absurd s
      value (tmp i) s g = absurd s
