-- ===== src/X86/Step/Moves.antt =====
-- `mov` from a register: its decoder and exec_mov, up to the end of the round.
use nju_ics2020_pa.Base.{
  ℕ, ◌+◌, ◌≤◌, ◌<◌, ◌≡◌, refl, ap, ◌∙◌, true, false, some, List, length, Result, ◌>>=◌, arith,
}
use nju_ics2020_pa.Memory.Paddr.{pmem_size}
use nju_ics2020_pa.Memory.Paddr.Words.{IsBytes}
use nju_ics2020_pa.Rtl.COp.{word_range}
use nju_ics2020_pa.Rtl.Machine.{Exec, gpr, val, Slot, src1, dest}
use nju_ics2020_pa.X86.Modrm.Address.{Addr, At}
use nju_ics2020_pa.X86.Modrm.Fetched.{at}
use nju_ics2020_pa.X86.Decode.{decode_mov_g2e}
use nju_ics2020_pa.X86.Move.{exec_mov}
use nju_ics2020_pa.X86.Spec.{
  Width, byte, short, long, size, Rm, reg, mem, IsRm, encode_rm, reg_value, write_rm,
}
use nju_ics2020_pa.X86.Step.Operands.{
  reg_ready, noted, operand_rm-reg, operand_rm-mem, Addressed, set_preg,
}
use nju_ics2020_pa.X86.Step.Write.{ToReg}
use nju_ics2020_pa.X86.Step.Ready.{leave, done, Ready, exec_mov-Ready, Located-Ready}

module _ {D : Type 0} where
  -- A state before the operands are decoded: all of them have the width of the instruction.
  pub record Fresh (w : Width) (e : Exec D) : Type 0 where
    pub widths : (j : Slot) → (e.s.operand j).width ≡ size w
    pub regs : (i : ℕ) → e.cpu.gpr i < word_range
    pub memory : IsBytes e.cpu.bus.pmem
    pub no_jump : e.s.is_jmp ≡ false

  pub reg_value-lt :
      (w : Width) (r : ℕ) (e : Exec D) → Fresh w e → reg_value w r e.cpu.gpr < word_range
  reg_value-lt byte r e f = ground arith
  reg_value-lt short r e f = omega arith
  reg_value-lt long r e f = f.regs r

  abbrev pub BytesAt : List ℕ → ℕ → Exec D → Type 0
  BytesAt bs q e = At e.cpu.bus.pmem q bs × (q + length bs ≤ pmem_size)

  -- The state behind the source register and behind both registers.
  abbrev source_reg : Width → ℕ → ℕ → Exec D → Exec D
  source_reg w r q e = reg_ready w src1 true r (noted r q e)

  both-Ready :
      (w : Width) (r d q : ℕ) (e : Exec D)
      → Fresh w e
      → Ready w
          (reg d)
          (reg_value w r e.cpu.gpr)
          e.cpu
          (q + 1)
          (reg_ready w dest false d (source_reg w r q e))
  both-Ready long r d q e f = record {
    source = record { ptr = gpr r; preg = refl; value = refl };
    target = record { type = refl; imm = refl; width = f.widths dest };
    cpu = refl;
    next = refl;
    no_jump = f.no_jump;
  }
  both-Ready byte r d q e f = record {
    source = record { ptr = val src1; preg = refl; value = refl };
    target = record { type = refl; imm = refl; width = f.widths dest };
    cpu = refl;
    next = refl;
    no_jump = f.no_jump;
  }
  both-Ready short r d q e f = record {
    source = record { ptr = val src1; preg = refl; value = refl };
    target = record { type = refl; imm = refl; width = f.widths dest };
    cpu = refl;
    next = refl;
    no_jump = f.no_jump;
  }

  stored-Ready :
      (w : Width) (r q n : ℕ) (a : Addr) (e : Exec D) (res : Result (Exec D))
      → Fresh w e
      → (x : Addressed dest false a (source_reg w r q e) n res)
      → Ready w (mem a) (reg_value w r e.cpu.gpr) e.cpu n (set_preg dest (val dest) (x.found))
  stored-Ready long r q n a e res f x =
      Located-Ready long a _ n e.cpu (gpr r) (source_reg long r q e) (x.found) (x.located) tt refl
        refl (f.widths dest) refl (f.no_jump)
  stored-Ready byte r q n a e res f x =
      Located-Ready byte a _ n e.cpu (val src1) (source_reg byte r q e) (x.found) (x.located) tt
        refl refl (f.widths dest) refl (f.no_jump)
  stored-Ready short r q n a e res f x =
      Located-Ready short a _ n e.cpu (val src1) (source_reg short r q e) (x.found) (x.located) tt
        refl refl (f.widths dest) refl (f.no_jump)

  pub mov_g2e-ok :
      (w : Width) (d : Rm) (r q : ℕ) (e : Exec D)
      → Fresh w e
      → IsRm d
      → r < 8
      → BytesAt (encode_rm r d) q e
      → (decode_mov_g2e (at q e) >>= exec_mov >>= leave)
        ≡ (write_rm w d (reg_value w r e.cpu.gpr) e.cpu >>= done (q + length (encode_rm r d)))
  unfolding decode_mov_g2e
  mov_g2e-ok w (reg d) r q e f hd hr b =
      ap (λ y. y >>= exec_mov >>= leave)
        (operand_rm-reg w dest false (some src1) true r d q e hr hd b.0.0 b.1 (f.widths))
      ∙ exec_mov-Ready w (reg d) _ e.cpu (q + 1) _ hd (reg_value-lt w r e f)
          (both-Ready w r d q e f)
  mov_g2e-ok w (mem a) r q e f hd hr b =
      let x = operand_rm-mem w dest false (some src1) true r q a e (hr, hd, b.0, b.1) (f.widths) in
      ap (λ y. y >>= exec_mov >>= leave) (x.result)
      ∙ exec_mov-Ready w (mem a) _ e.cpu _ _ hd (reg_value-lt w r e f)
          (stored-Ready w r q _ a e _ f x)

  -- A register as target.
  pub dest-ToReg :
      (w : Width) (r : ℕ) (e : Exec D)
      → (e.s.operand dest).width ≡ size w
      → ToReg w r (reg_ready w dest false r e)
  dest-ToReg long r e h = record { type = refl; imm = refl; width = h }
  dest-ToReg byte r e h = record { type = refl; imm = refl; width = h }
  dest-ToReg short r e h = record { type = refl; imm = refl; width = h }
