-- ===== src/X86/Modrm/Fetched.antt =====
-- What is fetched behind the opcode: bytes and numbers, the SIB byte and the displacement.
use nju_ics2020_pa.Base.{
  ltb, ◌-◌, ℕ, zero, suc, ◌+◌, ◌/◌, ◌%◌, ◌^◌, ◌≤◌, ◌<◌, ◌≡◌, ◌≢◌, refl, ap, ◌∙◌, sym, subst, true,
  false, none, some, ◌==◌, ==_iff, if◌then◌else◌, length, ok, arith, Bool-cases, inl, inr, ◌⊎◌,
}
use nju_ics2020_pa.Base.Bytes.{Bytes, read_le, byte_range, byte_range_pos, div_mod_range}
use nju_ics2020_pa.Memory.Paddr.{is_len, pmem_size}
use nju_ics2020_pa.Memory.Paddr.Fetch.{vaddr_ifetch-ok}
use nju_ics2020_pa.Base.Int.{signed}
use nju_ics2020_pa.Rtl.COp.{word_range, of_sword}
use nju_ics2020_pa.Rtl.Machine.{Exec, instr_fetch}
use nju_ics2020_pa.X86.Modrm.{
  pmem_base, r_esp, r_ebp, sign_byte, base_and_index, base_and_size, fetch_disp, low_field,
  mid_field, top_field,
}
use nju_ics2020_pa.X86.Modrm.Address.{fits_byte, mode_with, little, mode, mode_bytes, At}

pub read_le-little :
    (n q v : ℕ) (m : Bytes) → At m q (little n v) → read_le n m q ≡ v % byte_range n
unfolding read_le
read_le-little zero q v m h = omega arith
read_le-little (suc n) q v m h = omega (
  arith,
  h.0,
  read_le-little n (suc q) (v / 256) m h.1,
  div_mod_range (byte_range n) v (byte_range_pos n),
)

-- A displacement that fits in a signed byte is the sign extension of its lowest byte.
sign_byte-fits : (d : ℕ) → d < word_range → fits_byte d ≡ true → sign_byte d ≡ d
sign_byte-fits d word fits = elim (Bool-cases (ltb d 128)) [
  | inl low ↦ let below : ltb (d % 256) 128 ≡ true = ground arith in rw below (ground arith)
  | inr other ↦
      let high : 2 ^ 32 - 128 ≤ d = ground arith in
      let above : ltb (d % 256) 128 ≡ false = ground arith in rw above (omega arith)
]

mode_with_cases :
    (d : ℕ) → d < word_range → ((mode_with d ≡ 1) × (sign_byte d ≡ d)) ⊎ (mode_with d ≡ 2)
mode_with_cases d word = elim (Bool-cases (fits_byte d)) [
  | inl fits ↦ inl (rw fits, sign_byte-fits d word fits)
  | inr wide ↦ inr (rw wide)
]

pub mode_cases :
    (b d : ℕ)
    → d < word_range
    → ((mode b d ≡ 0) × (d ≡ 0) × (b ≢ r_ebp))
      ⊎ (((mode b d ≡ 1) × (sign_byte d ≡ d)) ⊎ (mode b d ≡ 2))
mode_cases b d word = elim (Bool-cases (b == r_ebp)) [
  | inl ebp ↦ inr (rw ebp (mode_with_cases d word))
  | inr other ↦ elim (Bool-cases (d == 0)) [
    | inl z ↦ inl (rw (other, z), (==_iff _ _).0 z, ground arith)
    | inr nz ↦ inr (rw (other, nz) (mode_with_cases d word))
  ]
]

module _ {D : Type 0} where
  abbrev pub at : ℕ → Exec D → Exec D
  at q e = record e { s = record e.s { seq_pc = q } }

  -- A fetch from the guest's memory.
  pub fetch-ok :
      (len q : ℕ) (e : Exec D)
      → is_len len ≡ true
      → q + len ≤ pmem_size
      → instr_fetch pmem_base len (at q e) ≡ ok (read_le len e.cpu.bus.pmem q, at (q + len) e)
  unfolding instr_fetch
  fetch-ok len q e known room =
      rw
        (vaddr_ifetch-ok pmem_base q len e.cpu.bus
          (record { known = known; low = omega arith; high = omega arith }))
        (ap (λ n. ok (read_le len e.cpu.bus.pmem n, at ((q + len) % word_range) e)) (omega arith)
          ∙ ap (λ n. ok (read_le len e.cpu.bus.pmem q, at n e)) (omega arith))

  pub fetch-little :
      (len v q : ℕ) (e : Exec D)
      → is_len len ≡ true
      → At e.cpu.bus.pmem q (little len v)
      → q + len ≤ pmem_size
      → instr_fetch pmem_base len (at q e) ≡ ok (v % byte_range len, at (q + len) e)
  fetch-little len v q e known h room =
      fetch-ok len q e known room
      ∙ ap (λ x. ok (x, at (q + len) e)) (read_le-little len q v e.cpu.bus.pmem h)

  pub fetch-byte :
      (b q : ℕ) (e : Exec D)
      → b < 256
      → e.cpu.bus.pmem q ≡ b
      → q + 1 ≤ pmem_size
      → instr_fetch pmem_base 1 (at q e) ≡ ok (b, at (q + 1) e)
  fetch-byte b q e small h room =
      fetch-little 1 b q e refl (omega arith) room ∙ ap (λ x. ok (x, at (q + 1) e)) (omega arith)

  pub base_and_index-plain :
      (r : ℕ) (e : Exec D) → r ≢ r_esp → base_and_index r e ≡ ok (some r, none, 0, e)
  unfolding base_and_index
  base_and_index-plain r e h = ground arith

  pub base_and_index-sib :
      (sib q : ℕ) (e : Exec D)
      → sib < 256
      → e.cpu.bus.pmem q ≡ sib
      → q + 1 ≤ pmem_size
      → base_and_index r_esp (at q e)
        ≡ ok (
          some (low_field sib),
          if mid_field sib == r_esp then none else some (mid_field sib),
          top_field sib,
          at (q + 1) e,
        )
  unfolding base_and_index
  base_and_index-sib sib q e small h room = rw (fetch-byte sib q e small h room)

  -- Mode `m` with a base: the base stays, and the displacement is read.
  abbrev pub Displaced : ℕ → ℕ → ℕ → ℕ → Exec D → Type 0
  Displaced m b d q e =
      ((base_and_size m (some b)).0 ≡ some b)
      × (fetch_disp ((base_and_size m (some b)).1) (at q e)
          ≡ ok (d, at (q + length (mode_bytes m d)) e))

  none-Displaced : (b q : ℕ) (e : Exec D) → b ≢ r_ebp → Displaced 0 b 0 q e
  unfolding base_and_size fetch_disp
  none-Displaced b q e h =
      let other : (b == r_ebp) ≡ false = ground arith in
      rw other (refl, ap (λ n. ok (0, at n e)) (omega arith))

  byte-Displaced :
      (b d q : ℕ) (e : Exec D)
      → sign_byte d ≡ d
      → At e.cpu.bus.pmem q (little 1 d)
      → q + 1 ≤ pmem_size
      → Displaced 1 b d q e
  unfolding base_and_size fetch_disp
  byte-Displaced b d q e short h room = (
    refl,
    rw (fetch-little 1 d q e refl h room) (
        ap (λ x. ok (x, at (q + 1) e))
          (ap (λ (n : ℕ). of_sword (signed (2 ^ 7) n)) (omega arith) ∙ short)),
  )

  word-Displaced :
      (b d q : ℕ) (e : Exec D)
      → d < word_range
      → At e.cpu.bus.pmem q (little 4 d)
      → q + 4 ≤ pmem_size
      → Displaced 2 b d q e
  unfolding base_and_size fetch_disp
  word-Displaced b d q e word h room =
      (refl, rw (fetch-little 4 d q e refl h room) (ap (λ x. ok (x, at (q + 4) e)) (omega arith)))

  pub mode-Displaced :
      (b d q : ℕ) (e : Exec D)
      → d < word_range
      → At e.cpu.bus.pmem q (mode_bytes (mode b d) d)
      → q + length (mode_bytes (mode b d) d) ≤ pmem_size
      → Displaced (mode b d) b d q e
  mode-Displaced b d q e word h room = elim (mode_cases b d word) [
    | inl (m, z, ne) ↦
        subst (λ m. Displaced m b d q e) (sym m)
          (subst (λ x. Displaced 0 b x q e) (sym z) (none-Displaced b q e ne))
    | inr (inl (m, short)) ↦
        subst (λ m. Displaced m b d q e) (sym m)
          (byte-Displaced b d q e short (subst (λ m. At e.cpu.bus.pmem q (mode_bytes m d)) m h)
            (subst (λ m. q + length (mode_bytes m d) ≤ pmem_size) m room))
    | inr (inr m) ↦
        subst (λ m. Displaced m b d q e) (sym m)
          (word-Displaced b d q e word (subst (λ m. At e.cpu.bus.pmem q (mode_bytes m d)) m h)
            (subst (λ m. q + length (mode_bytes m d) ≤ pmem_size) m room))
  ]

  pub disp-free :
      (d q : ℕ) (e : Exec D)
      → d < word_range
      → At e.cpu.bus.pmem q (little 4 d)
      → q + 4 ≤ pmem_size
      → fetch_disp 4 (at q e) ≡ ok (d, at (q + 4) e)
  unfolding fetch_disp
  disp-free d q e word h room =
      rw (fetch-little 4 d q e refl h room) (ap (λ x. ok (x, at (q + 4) e)) (omega arith))
