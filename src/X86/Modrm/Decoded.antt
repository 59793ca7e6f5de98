-- ===== src/X86/Modrm/Decoded.antt =====
-- load_addr reads what the bytes encode.
use nju_ics2020_pa.Base.{
  ℕ, suc, ◌+◌, ◌≤◌, ◌<◌, ◌≡◌, ◌≢◌, refl, ap, ◌∙◌, sym, subst, false, Option, none, some, List, ◌∷◌,
  ◌==◌, if◌then◌else◌, length, ok, arith, Bool-cases, inl, inr,
}
use nju_ics2020_pa.Base.Bytes.{Bytes}
use nju_ics2020_pa.Memory.Paddr.{pmem_size}
use nju_ics2020_pa.Rtl.COp.{word_range}
use nju_ics2020_pa.Rtl.Machine.{Exec, Slot}
use nju_ics2020_pa.X86.Modrm.{
  r_esp, base_and_index, base_and_size, fetch_disp, locate, load_addr, low_field, mid_field,
  top_field,
}
use nju_ics2020_pa.X86.Modrm.Address.{
  fits_byte, mode_with, Addr, IsAddr, little, mode, mode_bytes, modrm, encode, At,
}
use nju_ics2020_pa.X86.Modrm.Fetched.{
  at, base_and_index-plain, base_and_index-sib, mode-Displaced, disp-free,
}
use nju_ics2020_pa.X86.Modrm.Locate.{Located, locate-Located}

mode-lt : (b d : ℕ) → mode b d < 3
mode-lt b d = elim (Bool-cases (b == 5)) [
  | inl ebp ↦ rw ebp (with_lt d)
  | inr other ↦ elim (Bool-cases (d == 0)) [
    | inl z ↦ rw (other, z) (omega arith)
    | inr nz ↦ rw (other, nz) (with_lt d)
  ]
]
  where
    with_lt : (d : ℕ) → mode_with d < 3
    with_lt d = elim (Bool-cases (fits_byte d)) [
      | inl fits ↦ rw fits (omega arith)
      | inr wide ↦ rw wide (omega arith)
    ]

pub modrm_low : (k r b : ℕ) → b < 8 → low_field (modrm k r b) ≡ b
modrm_low k r b h = omega arith

pub modrm_mid : (k r b : ℕ) → b < 8 → r < 8 → mid_field (modrm k r b) ≡ r
modrm_mid k r b h hr = omega arith

pub modrm_top : (k r b : ℕ) → b < 8 → r < 8 → k < 4 → top_field (modrm k r b) ≡ k
modrm_top k r b h hr hk = omega arith

pub modrm-lt : (k r b : ℕ) → b < 8 → r < 8 → k < 4 → modrm k r b < 256
modrm-lt k r b h hr hk = omega arith

abbrev index_of : ℕ → Option ℕ
index_of i = if i == 4 then none else some i

At-next : (m : Bytes) (q : ℕ) (bs : List ℕ) → At m (suc q) bs → At m (q + 1) bs
At-next m q bs = subst (λ p. At m p bs) (omega arith)

abbrev no_index : Option ℕ → ℕ → Addr
no_index base d = record { base = base; index = none; scale = 0; disp = d }

index_of-some : (i : ℕ) → i ≢ 4 → index_of i ≡ some i
index_of-some i h = ground arith

module _ {D : Type 0} where
  -- From the byte `m` on, load_addr finds `a` and ends at `n`.
  abbrev pub Reads : ℕ → Addr → ℕ → ℕ → Exec D → Type 0
  Reads m a q n e =
      (rm : Slot) → load_addr m rm (at q e) ≡ locate rm a.base a.index a.scale a.disp (at n e)

  reads :
      (m k b₀ : ℕ) (a : Addr) (q q' n : ℕ) (e : Exec D)
      → k < 3
      → top_field m ≡ k
      → base_and_index (low_field m) (at q e) ≡ ok (some b₀, a.index, a.scale, at q' e)
      → (base_and_size k (some b₀)).0 ≡ a.base
      → fetch_disp ((base_and_size k (some b₀)).1) (at q' e) ≡ ok (a.disp, at n e)
      → Reads m a q n e
  unfolding load_addr
  reads m k b₀ a q q' n e lt top index base disp rm =
      let apart : (k == 3) ≡ false = ground arith in rw (top, apart, index, base, disp)

  -- A base and no SIB byte.
  Reads-plain :
      (reg b d q : ℕ) (e : Exec D)
      → reg < 8
      → b < 8
      → b ≢ r_esp
      → d < word_range
      → At e.cpu.bus.pmem q (mode_bytes (mode b d) d)
      → q + length (mode_bytes (mode b d) d) ≤ pmem_size
      → Reads
          (modrm (mode b d) reg b)
          (record { base = some b; index = none; scale = 0; disp = d })
          q
          (q + length (mode_bytes (mode b d) d))
          e
  Reads-plain reg b d q e hr hb ne word h room =
      let x = mode-Displaced b d q e word h room in
      reads (modrm (mode b d) reg b) (mode b d) b _ q q _ e (mode-lt b d)
        (modrm_top (mode b d) reg b hb hr (omega (arith, mode-lt b d)))
        (ap (λ r. base_and_index r (at q e)) (modrm_low (mode b d) reg b hb)
          ∙ base_and_index-plain b (at q e) ne)
        x.0 x.1

  -- No base and no index.
  Reads-free :
      (reg d q : ℕ) (e : Exec D)
      → reg < 8
      → d < word_range
      → At e.cpu.bus.pmem q (little 4 d)
      → q + 4 ≤ pmem_size
      → Reads
          (modrm 0 reg 5)
          (record { base = none; index = none; scale = 0; disp = d })
          q
          (q + 4)
          e
  unfolding base_and_size
  Reads-free reg d q e hr word h room =
      reads (modrm 0 reg 5) 0 5 _ q q _ e (omega arith)
        (modrm_top 0 reg 5 (omega arith) hr (omega arith))
        (ap (λ r. base_and_index r (at q e)) (modrm_low 0 reg 5 (omega arith))
          ∙ base_and_index-plain 5 (at q e) (ground arith))
        refl (disp-free d q e word h room)

  sib_fields :
      (k reg s i b q : ℕ) (e : Exec D)
      → reg < 8
      → s < 4
      → i < 8
      → b < 8
      → e.cpu.bus.pmem q ≡ modrm s i b
      → q + 1 ≤ pmem_size
      → base_and_index (low_field (modrm k reg 4)) (at q e)
        ≡ ok (some b, index_of i, s, at (q + 1) e)
  sib_fields k reg s i b q e hr hs hi hb h room =
      ap (λ r. base_and_index r (at q e)) (modrm_low k reg 4 (omega arith))
      ∙ base_and_index-sib (modrm s i b) q e (modrm-lt s i b hb hi hs) h room
      ∙ rw (modrm_low s i b hb, modrm_mid s i b hb hi, modrm_top s i b hb hi hs) refl

  -- A SIB byte with a base.
  Reads-sib :
      (reg s i b d q : ℕ) (e : Exec D)
      → reg < 8
      → s < 4
      → i < 8
      → b < 8
      → d < word_range
      → At e.cpu.bus.pmem q (modrm s i b ∷ mode_bytes (mode b d) d)
      → q + 1 + length (mode_bytes (mode b d) d) ≤ pmem_size
      → Reads
          (modrm (mode b d) reg 4)
          (record { base = some b; index = index_of i; scale = s; disp = d })
          q
          (q + 1 + length (mode_bytes (mode b d) d))
          e
  Reads-sib reg s i b d q e hr hs hi hb word h room =
      let x =
        mode-Displaced b d (q + 1) e word (At-next e.cpu.bus.pmem q (mode_bytes (mode b d) d) h.1)
          (omega arith) in
      reads (modrm (mode b d) reg 4) (mode b d) b _ q (q + 1) _ e (mode-lt b d)
        (modrm_top (mode b d) reg 4 (omega arith) hr (omega (arith, mode-lt b d)))
        (sib_fields (mode b d) reg s i b q e hr hs hi hb h.0 (omega arith)) x.0 x.1

  -- A SIB byte without a base.
  Reads-sib_free :
      (reg s i d q : ℕ) (e : Exec D)
      → reg < 8
      → s < 4
      → i < 8
      → d < word_range
      → At e.cpu.bus.pmem q (modrm s i 5 ∷ little 4 d)
      → q + 1 + 4 ≤ pmem_size
      → Reads
          (modrm 0 reg 4)
          (record { base = none; index = index_of i; scale = s; disp = d })
          q
          (q + 1 + 4)
          e
  unfolding base_and_size
  Reads-sib_free reg s i d q e hr hs hi word h room =
      reads (modrm 0 reg 4) 0 5 _ q (q + 1) _ e (omega arith)
        (modrm_top 0 reg 4 (omega arith) hr (omega arith))
        (sib_fields 0 reg s i 5 q e hr hs hi (omega arith) h.0 (omega arith)) refl
        (disp-free d (q + 1) e word (At-next e.cpu.bus.pmem q (little 4 d) h.1) (omega arith))

  -- The bytes of an address behind the opcode, the first of which is fetched already.
  abbrev pub Encoded : ℕ → Addr → ℕ → Exec D → Type 0
  Encoded reg a q e =
      (reg < 8)
      × IsAddr a
      × At e.cpu.bus.pmem q (encode reg a)
      × (q + length (encode reg a) ≤ pmem_size)

  abbrev pub Decodes : ℕ → Addr → ℕ → Exec D → Type 0
  Decodes reg a q e =
      (m : ℕ) × (e.cpu.bus.pmem q ≡ m)
      × (m < 256)
      × (mid_field m ≡ reg)
      × (top_field m < 3)
      × Reads m a (q + 1) (q + length (encode reg a)) e

  packed :
      (k reg b q n : ℕ) (a : Addr) (e : Exec D)
      → k < 3
      → reg < 8
      → b < 8
      → e.cpu.bus.pmem q ≡ modrm k reg b
      → n ≡ q + length (encode reg a)
      → Reads (modrm k reg b) a (q + 1) n e
      → Decodes reg a q e
  packed k reg b q n a e hk hr hb h len r = (
    modrm k reg b,
    h,
    modrm-lt k reg b hb hr (omega arith),
    modrm_mid k reg b hb hr,
    rw (modrm_top k reg b hb hr (omega arith)) hk,
    subst (λ i. Reads (modrm k reg b) a (q + 1) i e) len r,
  )

  Decodes-base :
      (reg b d q : ℕ) (e : Exec D)
      → Encoded reg (no_index (some b) d) q e
      → Decodes reg (no_index (some b) d) q e
  Decodes-base reg b d q e (hr, x, h, room) = elim (Bool-cases (b == 4)) [
    | inl esp ↦
        let bytes : encode reg (no_index (some b) d)
            ≡ modrm (mode b d) reg 4 ∷ modrm 0 4 b ∷ mode_bytes (mode b d) d =
          rw esp refl in
        let y = subst (λ bs. At e.cpu.bus.pmem q bs) bytes h in
        packed (mode b d) reg 4 q _ _ e (mode-lt b d) hr (omega arith) y.0
          (omega (arith, ap (length {0}) bytes))
          (Reads-sib reg 0 4 b d (q + 1) e hr (omega arith) (omega arith) x.base_reg x.word
            (At-next e.cpu.bus.pmem q (modrm 0 4 b ∷ mode_bytes (mode b d) d) y.1)
            (omega (arith, ap (length {0}) bytes)))
    | inr other ↦
        let bytes : encode reg (no_index (some b) d)
            ≡ modrm (mode b d) reg b ∷ mode_bytes (mode b d) d =
          rw other refl in
        let y = subst (λ bs. At e.cpu.bus.pmem q bs) bytes h in
        packed (mode b d) reg b q _ _ e (mode-lt b d) hr x.base_reg y.0
          (omega (arith, ap (length {0}) bytes))
          (Reads-plain reg b d (q + 1) e hr x.base_reg (ground arith) x.word
            (At-next e.cpu.bus.pmem q (mode_bytes (mode b d) d) y.1)
            (omega (arith, ap (length {0}) bytes)))
  ]

  Decodes-free :
      (reg d q : ℕ) (e : Exec D)
      → Encoded reg (no_index none d) q e
      → Decodes reg (no_index none d) q e
  Decodes-free reg d q e (hr, x, h, room) =
      packed 0 reg 5 q (q + 1 + 4) _ e (omega arith) hr (omega arith) h.0 (omega arith) (
        Reads-free reg d (q + 1) e hr x.word (At-next e.cpu.bus.pmem q (little 4 d) h.1)
          (omega arith))

  pub decodes :
      (reg : ℕ) (base index : Option ℕ) (s d q : ℕ) (e : Exec D)
      → Encoded reg (record { base = base; index = index; scale = s; disp = d }) q e
      → Decodes reg (record { base = base; index = index; scale = s; disp = d }) q e
  decodes reg none none s d q e (hr, x, h, room) =
      subst (λ n. Decodes reg (record { base = none; index = none; scale = n; disp = d }) q e)
        (sym x.index_reg)
        (Decodes-free reg d q e
          (hr, record { base_reg = tt; index_reg = refl; word = x.word }, h, room))
  decodes reg (some b) none s d q e (hr, x, h, room) =
      subst (λ n. Decodes reg (record { base = some b; index = none; scale = n; disp = d }) q e)
        (sym x.index_reg)
        (Decodes-base reg b d q e
          (hr, record { base_reg = x.base_reg; index_reg = refl; word = x.word }, h, room))
  decodes reg none (some i) s d q e (hr, x, h, room) =
      packed 0 reg 4 q (q + 1 + 1 + 4) _ e (omega arith) hr (omega arith) h.0 (omega arith) (
        subst
          (λ j.
            Reads (modrm 0 reg 4) (record { base = none; index = j; scale = s; disp = d }) (q + 1)
              (q + 1 + 1 + 4) e)
          (index_of-some i x.index_reg.1)
          (Reads-sib_free reg s i d (q + 1) e hr x.index_reg.2 x.index_reg.0 x.word
            (At-next e.cpu.bus.pmem q (modrm s i 5 ∷ little 4 d) h.1) (omega arith)))
  decodes reg (some b) (some i) s d q e (hr, x, h, room) =
      let n = q + 1 + 1 + length (mode_bytes (mode b d) d) in
      packed (mode b d) reg 4 q n _ e (mode-lt b d) hr (omega arith) h.0 (omega arith) (
        subst
          (λ j.
            Reads (modrm (mode b d) reg 4)
              (record { base = some b; index = j; scale = s; disp = d }) (q + 1) n e)
          (index_of-some i x.index_reg.1)
          (Reads-sib reg s i b d (q + 1) e hr x.index_reg.2 x.index_reg.0 x.base_reg x.word
            (At-next e.cpu.bus.pmem q (modrm s i b ∷ mode_bytes (mode b d) d) h.1) (omega arith)))

  -- Wherever the bytes of an address stand in the guest's memory, load_addr, called behind the first of
  -- them, sets a base and an offset that denote this address, and leaves the program counter behind the
  -- last one and the guest as it was.
  pub load_addr-Located :
      (reg q : ℕ) (rm : Slot) (a : Addr) (e : Exec D)
      → Encoded reg a q e
      → (e' : Exec D) × (load_addr (e.cpu.bus.pmem q) rm (at (q + 1) e) ≡ ok e')
        × Located rm a (at (q + length (encode reg a)) e) e'
  load_addr-Located reg q rm a e x =
      let d = decodes reg a.base a.index a.scale a.disp q e x in
      let l = locate-Located rm a (at (q + length (encode reg a)) e) x.1 in
      (l.0, ap (λ m. load_addr m rm (at (q + 1) e)) d.1 ∙ d.5 rm ∙ l.1, l.2)
