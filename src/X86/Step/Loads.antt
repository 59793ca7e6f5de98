-- ===== src/X86/Step/Loads.antt =====
-- `mov` into a register: its decoder and exec_mov, up to the end of the round.
use nju_ics2020_pa.Base.{
  ℕ, ◌+◌, ◌*◌, ◌^◌, ◌<◌, ◌≡◌, refl, ap, ◌∙◌, sym, true, false, some, length, ok, ◌>>=◌, arith,
  bind_assoc, bind-Holds,
}
use nju_ics2020_pa.Memory.Paddr.{Bus, vaddr_read}
use nju_ics2020_pa.Memory.Paddr.Words.{Read, vaddr_read-Read}
use nju_ics2020_pa.Rtl.COp.{word_range}
use nju_ics2020_pa.Rtl.Machine.{Machine, Exec, gpr, val, src1, dest}
use nju_ics2020_pa.X86.Modrm.{pmem_base, load_mem}
use nju_ics2020_pa.X86.Modrm.Address.{Addr, denote, encode}
use nju_ics2020_pa.X86.Modrm.Fetched.{at}
use nju_ics2020_pa.X86.Decode.{decode_mov_e2g}
use nju_ics2020_pa.X86.Move.{exec_mov}
use nju_ics2020_pa.X86.Spec.{
  Width, byte, short, long, size, Rm, reg, mem, IsRm, encode_rm, reg_value, read_rm, write_rm,
}
use nju_ics2020_pa.X86.Step.Operands.{
  reg_ready, noted, operand_rm-reg, operand_rm-mem, set_val, set_preg, with_bus, load_mem-ok,
}
use nju_ics2020_pa.X86.Modrm.Locate.{Located}
use nju_ics2020_pa.X86.Step.Ready.{set_bus, leave, done, Ready, exec_mov-Ready}
use nju_ics2020_pa.X86.Step.Moves.{Fresh, BytesAt, reg_value-lt, dest-ToReg}

small_read : (w : Width) (v : ℕ) → v < 2 ^ (8 * size w) → v < word_range
small_read byte v h = omega arith
small_read short v h = omega arith
small_read long v h = omega arith

module _ {D : Type 0} where
  loaded-Ready :
      (w : Width) (r s q : ℕ) (e : Exec D)
      → Fresh w e
      → Ready w
          (reg r)
          (reg_value w s e.cpu.gpr)
          e.cpu
          (q + 1)
          (reg_ready w src1 true s (reg_ready w dest false r (noted r q e)))
  loaded-Ready long r s q e f = record {
    source = record { ptr = gpr s; preg = refl; value = refl };
    target = record { type = refl; imm = refl; width = f.widths dest };
    cpu = refl;
    next = refl;
    no_jump = f.no_jump;
  }
  loaded-Ready byte r s q e f = record {
    source = record { ptr = val src1; preg = refl; value = refl };
    target = record { type = refl; imm = refl; width = f.widths dest };
    cpu = refl;
    next = refl;
    no_jump = f.no_jump;
  }
  loaded-Ready short r s q e f = record {
    source = record { ptr = val src1; preg = refl; value = refl };
    target = record { type = refl; imm = refl; width = f.widths dest };
    cpu = refl;
    next = refl;
    no_jump = f.no_jump;
  }

  dest_cpu :
      (w : Width) (r q : ℕ) (e : Exec D) → (reg_ready w dest false r (noted r q e)).cpu ≡ e.cpu
  dest_cpu long r q e = refl
  dest_cpu byte r q e = refl
  dest_cpu short r q e = refl

  dest_jump :
      (w : Width) (r q : ℕ) (e : Exec D)
      → (reg_ready w dest false r (noted r q e)).s.is_jmp ≡ e.s.is_jmp
  dest_jump long r q e = refl
  dest_jump byte r q e = refl
  dest_jump short r q e = refl

  dest_width :
      (w : Width) (r q : ℕ) (e : Exec D)
      → ((reg_ready w dest false r (noted r q e)).s.operand src1).width ≡ (e.s.operand src1).width
  dest_width long r q e = refl
  dest_width byte r q e = refl
  dest_width short r q e = refl

  abbrev with_loaded : ℕ × Bus D → Exec D → Exec D
  with_loaded x e = set_preg src1 (val src1) (set_val src1 x.0 (with_bus x.1 e))

  fetched-Ready :
      (w : Width) (r q n : ℕ) (a : Addr) (e found : Exec D) (x : ℕ × Bus D)
      → Fresh w e
      → Located src1 a (at n (reg_ready w dest false r (noted r q e))) found
      → Ready w (reg r) x.0 (set_bus x.1 e.cpu) n (with_loaded x found)
  fetched-Ready w r q n a e found x f l =
      let t = dest-ToReg w r (noted r q e) (f.widths dest) in
      record {
        source = record { ptr = val src1; preg = refl; value = refl };
        target = record {
          type = ap (λ o. (o dest).type) (l.operand) ∙ t.type;
          imm = ap (λ o. (o dest).imm) (l.operand) ∙ t.imm;
          width = ap (λ o. (o dest).width) (l.operand) ∙ t.width;
        };
        cpu = ap (set_bus x.1) (l.cpu ∙ dest_cpu w r q e);
        next = l.next;
        no_jump = l.is_jmp ∙ dest_jump w r q e ∙ f.no_jump;
      }

  abbrev place : Addr → Exec D → ℕ
  place a e = denote a e.cpu.gpr

  -- What the address holds is loaded into the source.
  loads :
      (w : Width) (r q n : ℕ) (a : Addr) (e found : Exec D)
      → Fresh w e
      → Located src1 a (at n (reg_ready w dest false r (noted r q e))) found
      → (load_mem src1 found >>= λ e₅. ok (set_preg src1 (val src1) e₅))
        ≡ (vaddr_read pmem_base (place a e) (size w) e.cpu.bus >>= λ y. ok (with_loaded y found))
  loads w r q n a e found f l =
      let reads = vaddr_read {D = D} pmem_base (place a e) (size w) in
      let into = λ (y : ℕ × Bus D). ok (set_val src1 y.0 (with_bus y.1 found)) in
      let point = λ (e₅ : Exec D). ok (set_preg src1 (val src1) e₅) in
      ap (λ y. y >>= point)
        (load_mem-ok w src1 (place a e) (l.ptr) found (l.mbase)
          (l.address ∙ ap (λ (c : Machine D). denote a c.gpr) (dest_cpu w r q e))
          (ap (λ o. (o src1).width) (l.operand) ∙ dest_width w r q e ∙ f.widths src1))
      ∙ bind_assoc (reads found.cpu.bus) into point
      ∙ ap (λ (c : Machine D). reads c.bus >>= λ y. ok (with_loaded y found))
          (l.cpu ∙ dest_cpu w r q e)

  pub mov_e2g-ok :
      (w : Width) (s : Rm) (r q : ℕ) (e : Exec D)
      → Fresh w e
      → IsRm s
      → r < 8
      → BytesAt (encode_rm r s) q e
      → (decode_mov_e2g (at q e) >>= exec_mov >>= leave) ≡ (
          read_rm w s e.cpu >>= λ x.
          write_rm w (reg r) x.0 x.1 >>= done (q + length (encode_rm r s)))
  unfolding decode_mov_e2g
  mov_e2g-ok w (reg s) r q e f hs hr b =
      ap (λ y. y >>= exec_mov >>= leave)
        (operand_rm-reg w src1 true (some dest) false r s q e hr hs b.0.0 b.1 (f.widths))
      ∙ exec_mov-Ready w (reg r) _ e.cpu (q + 1) _ hr (reg_value-lt w s e f)
          (loaded-Ready w r s q e f)
  mov_e2g-ok w (mem a) r q e f hs hr b =
      let n = q + length (encode r a) in
      let x = operand_rm-mem w src1 true (some dest) false r q a e (hr, hs, b.0, b.1) (f.widths) in
      let reads = vaddr_read {D = D} pmem_base (place a e) (size w) e.cpu.bus in
      let decoded = λ (y : ℕ × Bus D). ok (with_loaded y (x.found)) in
      let written = λ (y : ℕ × Machine D). write_rm w (reg r) y.0 y.1 >>= done n in
      ap (λ y. y >>= exec_mov >>= leave) (x.result ∙ loads w r q n a e (x.found) f (x.located))
      ∙ ap (λ y. y >>= leave) (bind_assoc reads decoded exec_mov)
      ∙ bind_assoc reads (λ y. exec_mov (with_loaded y (x.found))) leave
      ∙ bind-Holds (Read (size w) e.cpu.bus) reads
          (λ y. exec_mov (with_loaded y (x.found)) >>= leave)
          (λ y. written (y.0, set_bus y.1 e.cpu))
          (vaddr_read-Read pmem_base (place a e) (size w) e.cpu.bus (f.memory))
          (λ y h.
            exec_mov-Ready w (reg r) y.0 (set_bus y.1 e.cpu) n (with_loaded y (x.found)) hr
              (small_read w y.0 h.0) (fetched-Ready w r q n a e (x.found) y f (x.located)))
      ∙ sym (bind_assoc reads (λ y. ok (y.0, set_bus y.1 e.cpu)) written)
