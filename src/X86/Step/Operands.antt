-- ===== src/X86/Step/Operands.antt =====
-- The operand decoders on what an assembler has encoded.
use nju_ics2020_pa.Base.{
  ltb, ◌/◌, ◌%◌, ◌-◌, ◌⊎◌, ℕ, ◌+◌, ◌%◌, ◌≤◌, ◌<◌, ◌≡◌, refl, ap, ◌∙◌, sym, subst, Bool, true, false,
  Option, none, some, ◌==◌, lt→ltb, if◌then◌else◌, length, Result, ok, ◌>>=◌, Bool-cases, inl, inr,
  bind_assoc, of_option, undefined, arith,
}
use nju_ics2020_pa.Memory.Paddr.{Bus, pmem_size, vaddr_read}
use nju_ics2020_pa.Rtl.COp.{word_range}
use nju_ics2020_pa.Rtl.Machine.{
  Exec, Slot, Operand, Loc, gpr, val, src1, src2, dest, op_type_reg, load, store,
}
use nju_ics2020_pa.Rtl.Basic.{rtl_lm}
use nju_ics2020_pa.X86.Reg.{rtl_lr, reg_b, reg_w}
use nju_ics2020_pa.X86.Modrm.{
  pmem_base, on_operand, on_isa, operand_reg, operand_rm, load_addr, load_mem, low_field, mid_field,
  top_field,
}
use nju_ics2020_pa.X86.Modrm.Address.{Addr, modrm, encode, At}
use nju_ics2020_pa.X86.Modrm.Fetched.{at, fetch-byte}
use nju_ics2020_pa.X86.Modrm.Locate.{Located}
use nju_ics2020_pa.X86.Modrm.Decoded.{
  load_addr-Located, Encoded, decodes, modrm_low, modrm_mid, modrm_top,
}
use nju_ics2020_pa.X86.Spec.{Width, byte, short, long, size, reg_value}

encode_pos :
    (reg : ℕ) (base index : Option ℕ) (s d : ℕ)
    → 0 < length (encode reg (record { base = base; index = index; scale = s; disp = d }))
encode_pos reg none none s d = omega arith
encode_pos reg none (some i) s d = omega arith
encode_pos reg (some b) (some i) s d = omega arith
encode_pos reg (some b) none s d = elim (Bool-cases (b == 4)) [
  | inl esp ↦ rw esp (omega arith)
  | inr other ↦ rw other (omega arith)
]

-- The number of a byte in a register, by the half that it lies in.
pub byte_place :
    (r : ℕ)
    → r < 8
    → ((ltb r 4 ≡ true) × (r / 4 ≡ 0) × (r % 4 ≡ r))
      ⊎ ((ltb r 4 ≡ false) × (r / 4 ≡ 1) × (r % 4 ≡ r - 4))
byte_place r h = elim (Bool-cases (ltb r 4)) [
  | inl low ↦ inl (low, ground arith, ground arith)
  | inr high ↦ inr (high, ground arith, ground arith)
]

reg_b-value : (r : ℕ) (g : ℕ → ℕ) → r < 8 → reg_b r g ≡ ok (reg_value byte r g)
unfolding reg_b
reg_b-value r g h = elim (byte_place r h) [
  | inl (low, offset, index) ↦ rw (lt→ltb r 8 h, low, offset, index) (ap (λ x. ok x) (omega arith))
  | inr (high, offset, index) ↦ rw (lt→ltb r 8 h, high, offset, index) refl
]

module _ {D : Type 0} where
  abbrev pub set_val : Slot → ℕ → Exec D → Exec D
  set_val k v = on_operand k (λ o. record o { val = v })

  abbrev pub set_preg : Slot → Loc → Exec D → Exec D
  set_preg k p = on_operand k (λ o. record o { preg = some p })

  abbrev pub typed : Slot → ℕ → Exec D → Exec D
  typed k r = on_operand k (λ o. record o { type = op_type_reg; imm = r })

  -- A register as operand: a pointer to all of it, or a copy of its part.
  abbrev pub reg_ready : Width → Slot → Bool → ℕ → Exec D → Exec D
  reg_ready long k load_val r e = set_preg k (gpr r) (typed k r e)
  reg_ready byte k true r e =
      set_val k (reg_value byte r e.cpu.gpr) (set_preg k (val k) (typed k r e))
  reg_ready short k true r e =
      set_val k (reg_value short r e.cpu.gpr) (set_preg k (val k) (typed k r e))
  reg_ready byte k false r e = set_preg k (val k) (typed k r e)
  reg_ready short k false r e = set_preg k (val k) (typed k r e)

  pub operand_reg-ok :
      (w : Width) (k : Slot) (load_val : Bool) (r : ℕ) (e : Exec D)
      → r < 8
      → operand_reg k load_val r (size w) e ≡ ok (reg_ready w k load_val r e)
  unfolding operand_reg rtl_lr reg_w
  operand_reg-ok long k l r e h = rw (lt→ltb r 8 h) refl
  operand_reg-ok byte k true r e h = rw (reg_b-value r e.cpu.gpr h) refl
  operand_reg-ok byte k false r e h = refl
  operand_reg-ok short k true r e h = rw (lt→ltb r 8 h) refl
  operand_reg-ok short k false r e h = refl

  -- The state behind the first byte, with the middle field noted.
  abbrev pub noted : ℕ → ℕ → Exec D → Exec D
  noted reg q e = on_isa (λ i. record i { ext_opcode = reg }) (at (q + 1) e)

  -- The operand of the middle field, where there is one.
  abbrev pub with_reg : Width → Option Slot → Bool → ℕ → Exec D → Exec D
  with_reg w none load_val r e = e
  with_reg w (some k) load_val r e = reg_ready w k load_val r e

  -- An operand keeps its width if it is changed by what keeps widths.
  kept :
      (k j : Slot) (f : Operand → Operand) (e : Exec D)
      → (f (e.s.operand k)).width ≡ (e.s.operand k).width
      → ((on_operand k f e).s.operand j).width ≡ (e.s.operand j).width
  kept src1 src1 f e h = h
  kept src2 src2 f e h = h
  kept dest dest f e h = h
  kept _ _ f e h = refl

  abbrev WidthKept : Slot → Exec D → Exec D → Type 0
  WidthKept j e e' = (e'.s.operand j).width ≡ (e.s.operand j).width

  preg_width : (p : Loc) (k j : Slot) (e : Exec D) → WidthKept j e (set_preg k p e)
  preg_width p k j e = kept k j (λ o. record o { preg = some p }) e refl

  typed_width : (r : ℕ) (k j : Slot) (e : Exec D) → WidthKept j e (typed k r e)
  typed_width r k j e = kept k j (λ o. record o { type = op_type_reg; imm = r }) e refl

  val_width : (v : ℕ) (k j : Slot) (e : Exec D) → WidthKept j e (set_val k v e)
  val_width v k j e = kept k j (λ o. record o { val = v }) e refl

  ready_width :
      (w : Width) (k : Slot) (l : Bool) (r : ℕ) (e : Exec D) (j : Slot)
      → ((reg_ready w k l r e).s.operand j).width ≡ (e.s.operand j).width
  ready_width long k l r e j = preg_width (gpr r) k j (typed k r e) ∙ typed_width r k j e
  ready_width byte k false r e j = preg_width (val k) k j (typed k r e) ∙ typed_width r k j e
  ready_width short k false r e j = preg_width (val k) k j (typed k r e) ∙ typed_width r k j e
  ready_width byte k true r e j =
      val_width (reg_value byte r e.cpu.gpr) k j (reg_ready byte k false r e)
      ∙ preg_width (val k) k j (typed k r e)
      ∙ typed_width r k j e
  ready_width short k true r e j =
      val_width (reg_value short r e.cpu.gpr) k j (reg_ready short k false r e)
      ∙ preg_width (val k) k j (typed k r e)
      ∙ typed_width r k j e

  ready_cpu :
      (w : Width) (k : Slot) (l : Bool) (r : ℕ) (e : Exec D) → (reg_ready w k l r e).cpu ≡ e.cpu
  ready_cpu long k l r e = refl
  ready_cpu byte k true r e = refl
  ready_cpu byte k false r e = refl
  ready_cpu short k true r e = refl
  ready_cpu short k false r e = refl

  ready_at :
      (w : Width) (k : Slot) (l : Bool) (r : ℕ) (e : Exec D)
      → reg_ready w k l r e ≡ at (e.s.seq_pc) (reg_ready w k l r e)
  ready_at long k l r e = refl
  ready_at byte k true r e = refl
  ready_at byte k false r e = refl
  ready_at short k true r e = refl
  ready_at short k false r e = refl

  pub with_reg_width :
      (w : Width) (k : Option Slot) (l : Bool) (r : ℕ) (e : Exec D) (j : Slot)
      → ((with_reg w k l r e).s.operand j).width ≡ (e.s.operand j).width
  with_reg_width w none l r e j = refl
  with_reg_width w (some k) l r e j = ready_width w k l r e j

  with_reg_cpu :
      (w : Width) (k : Option Slot) (l : Bool) (r : ℕ) (e : Exec D)
      → (with_reg w k l r e).cpu ≡ e.cpu
  with_reg_cpu w none l r e = refl
  with_reg_cpu w (some k) l r e = ready_cpu w k l r e

  with_reg-at :
      (w : Width) (k : Option Slot) (l : Bool) (r : ℕ) (e : Exec D)
      → with_reg w k l r e ≡ at (e.s.seq_pc) (with_reg w k l r e)
  with_reg-at w none l r e = refl
  with_reg-at w (some k) l r e = ready_at w k l r e

  -- operand_rm behind the first byte and the operand of its middle field.
  abbrev rest_of : ℕ → Slot → Bool → Exec D → Result (Exec D)
  rest_of m rm l e₃ =
      if top_field m == 3
      then operand_reg rm l (low_field m) ((e₃.s.operand rm).width) e₃
      else (load_addr m rm e₃ >>= λ e₄.
          (if l then load_mem rm e₄ else ok e₄) >>= λ e₅. ok (set_preg rm (val rm) e₅))

  operand_rm-rest :
      (w : Width) (rm : Slot) (l : Bool) (k : Option Slot) (lk : Bool) (m reg q : ℕ) (e : Exec D)
      → reg < 8
      → m < 256
      → mid_field m ≡ reg
      → e.cpu.bus.pmem q ≡ m
      → q + 1 ≤ pmem_size
      → ((j : Slot) → (e.s.operand j).width ≡ size w)
      → operand_rm rm l k lk (at q e) ≡ rest_of m rm l (with_reg w k lk reg (noted reg q e))
  unfolding operand_rm
  operand_rm-rest w rm l none lk m reg q e hr small mid b room hw =
      rw (fetch-byte m q e small b room) (ap (λ x. rest_of m rm l (noted x q e)) mid)
  operand_rm-rest w rm l (some k) lk m reg q e hr small mid b room hw =
      rw (fetch-byte m q e small b room) (
        ap (λ x. operand_reg k lk x ((e.s.operand k).width) (noted x q e) >>= rest_of m rm l) mid
        ∙ ap (λ n. operand_reg k lk reg n (noted reg q e) >>= rest_of m rm l) (hw k)
        ∙ ap (λ r. r >>= rest_of m rm l) (operand_reg-ok w k lk reg (noted reg q e) hr))

  pub operand_rm-reg :
      (w : Width) (rm : Slot) (l : Bool) (k : Option Slot) (lk : Bool) (reg r q : ℕ) (e : Exec D)
      → reg < 8
      → r < 8
      → e.cpu.bus.pmem q ≡ modrm 3 reg r
      → q + 1 ≤ pmem_size
      → ((j : Slot) → (e.s.operand j).width ≡ size w)
      → operand_rm rm l k lk (at q e)
        ≡ ok (reg_ready w rm l r (with_reg w k lk reg (noted reg q e)))
  operand_rm-reg w rm l k lk reg r q e hr h b room hw =
      let e₃ = with_reg w k lk reg (noted reg q e) in
      operand_rm-rest w rm l k lk (modrm 3 reg r) reg q e hr (omega arith) (modrm_mid 3 reg r h hr)
        b room hw
      ∙ rw (modrm_top 3 reg r h hr (omega arith), modrm_low 3 reg r h)
          (ap (λ n. operand_reg rm l r n e₃) (with_reg_width w k lk reg (noted reg q e) rm ∙ hw rm)
            ∙ operand_reg-ok w rm l r e₃ h)

  -- An address as operand: what load_addr leaves is `found`.
  pub record Addressed (rm : Slot) (l : Bool) (a : Addr) (e₃ : Exec D) (q : ℕ) (r : Result (Exec D))
      : Type 0 where
    pub found : Exec D
    pub located : Located rm a (at q e₃) found
    pub result :
        r ≡ ((if l then load_mem rm found else ok found) >>= λ e₅. ok (set_preg rm (val rm) e₅))

  rest-Addressed :
      (m reg q : ℕ) (rm : Slot) (l : Bool) (a : Addr) (e : Exec D)
      → Encoded reg a q e
      → top_field m < 3
      → e.cpu.bus.pmem q ≡ m
      → Addressed rm l a e (q + length (encode reg a)) (rest_of m rm l (at (q + 1) e))
  rest-Addressed m reg q rm l a e x top b =
      let (e', runs, loc) = load_addr-Located reg q rm a e x in
      let mem : (top_field m == 3) ≡ false = ground arith in
      record {
        found = e';
        located = loc;
        result = rw mem (
            ap
              (λ r. r >>= λ e₄.
                (if l then load_mem rm e₄ else ok e₄) >>= λ e₅. ok (set_preg rm (val rm) e₅))
              (ap (λ y. load_addr y rm (at (q + 1) e)) (sym b) ∙ runs));
      }

  pub operand_rm-mem :
      (w : Width) (rm : Slot) (l : Bool) (k : Option Slot) (lk : Bool) (reg q : ℕ) (a : Addr)
      (e : Exec D)
      → Encoded reg a q e
      → ((j : Slot) → (e.s.operand j).width ≡ size w)
      → Addressed rm l a
          (with_reg w k lk reg (noted reg q e))
          (q + length (encode reg a))
          (operand_rm rm l k lk (at q e))
  operand_rm-mem w rm l k lk reg q a e x hw =
      let e₃ = with_reg w k lk reg (noted reg q e) in
      let cpu : e₃.cpu ≡ e.cpu = with_reg_cpu w k lk reg (noted reg q e) in
      let (m, b, small, mid, top, reads) = decodes reg a.base a.index a.scale a.disp q e x in
      let x₃ : Encoded reg a q e₃ =
        (x.0, x.1, subst (λ c. At c.bus.pmem q (encode reg a)) (sym cpu) x.2, x.3) in
      subst (λ r. Addressed rm l a e₃ (q + length (encode reg a)) r)
        (sym (
          operand_rm-rest w rm l k lk m reg q e x.0 small mid b
            (omega (arith, encode_pos reg a.base a.index a.scale a.disp, x.3)) hw
          ∙ ap (rest_of m rm l) (with_reg-at w k lk reg (noted reg q e))))
        (rest-Addressed m reg q rm l a e₃ x₃ top (ap (λ c. c.bus.pmem q) cpu ∙ b))

  abbrev pub with_bus : Bus D → Exec D → Exec D
  with_bus b e = record e { cpu = record e.cpu { bus = b } }

  abbrev read_at : ℕ → ℕ → Exec D → Result (ℕ × Exec D)
  read_at addr len e = vaddr_read pmem_base addr len e.cpu.bus >>= λ x. ok (x.0, with_bus x.1 e)

  -- A load into an operand of what stands at the address.
  pub load_mem-ok :
      (w : Width) (rm : Slot) (addr : ℕ) (ptr : Loc) (e : Exec D)
      → e.s.isa.mbase ≡ some ptr
      → (load ptr e + e.s.isa.moff) % word_range ≡ addr
      → (e.s.operand rm).width ≡ size w
      → load_mem rm e ≡ (
          vaddr_read pmem_base addr (size w) e.cpu.bus >>= λ x.
          ok (set_val rm x.0 (with_bus x.1 e)))
  unfolding load_mem rtl_lm
  load_mem-ok w rm addr ptr e hb ha hw =
      ap
        (λ o. of_option undefined o >>= λ base.
          rtl_lm pmem_base (val rm) base (e.s.isa.moff) ((e.s.operand rm).width) e)
        hb
      ∙ ap (λ n. rtl_lm pmem_base (val rm) ptr (e.s.isa.moff) n e) hw
      ∙ ap (λ a. read_at a (size w) e >>= λ y. store (val rm) y.0 y.1) ha
      ∙ bind_assoc (vaddr_read pmem_base addr (size w) e.cpu.bus) (λ x. ok (x.0, with_bus x.1 e))
          (λ y. store (val rm) y.0 y.1)
