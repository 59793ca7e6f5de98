-- ===== src/X86/Exec/Prefix.antt =====
-- The prefix 0x66 before the opcode. The debug build notes every fetched byte with three characters in
-- `log_bytebuf`, which has 80: enough for 26 bytes, seven prefixes and the longest instruction of 11 bytes,
-- with the 8 that exec_inv reads. Longer runs of prefixes are not looked at.
use nju_ics2020_pa.Base.{
  ℕ, zero, suc, ◌+◌, ◌≤◌, ◌<◌, ◌≡◌, ◌≢◌, refl, ap, ◌∙◌, Bool, true, false, ◌==◌, arith,
}
use nju_ics2020_pa.Base.Bytes.{Bytes}
use nju_ics2020_pa.Memory.Paddr.{pmem_size}
use nju_ics2020_pa.Rtl.Machine.{Exec}
use nju_ics2020_pa.X86.Modrm.{on_isa}
use nju_ics2020_pa.X86.Modrm.Fetched.{at, fetch-byte}
use nju_ics2020_pa.X86.Exec.{fetch_decode_exec, exec_opcode}

-- `n` prefixes from `q` on, and then the opcode.
abbrev pub Prefixed : Bytes → ℕ → ℕ → ℕ → Type 0
Prefixed m q zero opcode = m q ≡ opcode
Prefixed m q (suc n) opcode = (m q ≡ 0x66) × Prefixed m (q + 1) n opcode

abbrev pub after : ℕ → Bool → Bool
after zero s = s
after (suc n) s = true

after-true : (n : ℕ) → after n true ≡ true
after-true zero = refl
after-true (suc n) = refl

module _ {D : Type 0} where
  -- What the opcode is executed in: its number, the size of operands, and the address behind it.
  abbrev pub ready : ℕ → Bool → ℕ → Exec D → Exec D
  ready opcode s q e =
      let e' = on_isa (λ i. record i { is_operand_size_16 = s }) (at q e) in
      record e' { s = record e'.s { opcode = opcode } }

  -- With at most seven prefixes, and a unit of fuel for each prefix and one for the opcode, prefixes and
  -- opcode are read, and the opcode is executed with operands of 16 bits if there was any prefix.
  pub fetch_decode_exec-Prefixed :
      (n fuel opcode q : ℕ) (e : Exec D)
      → Prefixed e.cpu.bus.pmem q n opcode
      → opcode < 256
      → opcode ≢ 0x66
      → q + n + 1 ≤ pmem_size
      → n < fuel
      → n ≤ 7
      → fetch_decode_exec fuel (at q e)
        ≡ exec_opcode opcode (ready opcode (after n (e.s.isa.is_operand_size_16)) (q + n + 1) e)
  unfolding fetch_decode_exec
  fetch_decode_exec-Prefixed n zero opcode q e h small ne room lt few = absurd (omega arith)
  fetch_decode_exec-Prefixed zero (suc fuel) opcode q e h small ne room lt few =
      let other : (opcode == 0x66) ≡ false = ground arith in
      rw (fetch-byte opcode q e small h (omega arith), other)
        (ap (λ x. exec_opcode opcode (ready opcode (e.s.isa.is_operand_size_16) x e)) (omega arith))
  fetch_decode_exec-Prefixed (suc n) (suc fuel) opcode q e h small ne room lt few =
      rw (fetch-byte 0x66 q e (omega arith) h.0 (omega arith)) (
        fetch_decode_exec-Prefixed n fuel opcode (q + 1) (ready 0x66 true (q + 1) e) h.1 small ne
          (omega arith) (omega arith) (omega arith)
        ∙ ap (λ s. exec_opcode opcode (ready opcode s (q + 1 + n + 1) e)) (after-true n)
        ∙ ap (λ x. exec_opcode opcode (ready opcode true x e)) (omega arith))
