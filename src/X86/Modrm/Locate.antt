-- ===== src/X86/Modrm/Locate.antt =====
-- load_addr finds the address that the bytes encode.
use nju_ics2020_pa.Base.{
  ℕ, ◌+◌, ◌*◌, ◌%◌, ◌^◌, ◌<◌, ◌≡◌, refl, sym, subst, Option, none, some, lt→ltb, ok, arith, update,
}
use nju_ics2020_pa.Rtl.COp.{word_range, c_add}
use nju_ics2020_pa.Rtl.COp.Arith.{c_shl-small}
use nju_ics2020_pa.Rtl.Machine.{Exec, Slot, Loc, rz, mbr, gpr, tmp, val, op_type_mem, load}
use nju_ics2020_pa.Rtl.Basic.{rtl_add, rtl_shli}
use nju_ics2020_pa.X86.Modrm.{on_operand, on_isa, set_mbase, base_loc, add_index, locate}
use nju_ics2020_pa.X86.Modrm.Address.{Addr, denote, IsIndex, IsBaseReg, IsAddr}

abbrev base_ptr : Option ℕ → Loc
base_ptr none = rz
base_ptr (some b) = gpr b

base_loc-ok : (base : Option ℕ) → IsBaseReg base → base_loc base ≡ ok (base_ptr base)
unfolding base_loc
base_loc-ok none h = refl
base_loc-ok (some b) h = rw (lt→ltb b 8 h)

-- Where an address can be: what an operand holds does not change it.
abbrev pub IsBase : Loc → Type 0
IsBase rz = Unit {0}
IsBase mbr = Unit {0}
IsBase (gpr i) = Unit {0}
IsBase (tmp i) = ⊥
IsBase (val k) = ⊥

base_ptr-IsBase : (base : Option ℕ) → IsBase (base_ptr base)
base_ptr-IsBase none = tt
base_ptr-IsBase (some b) = tt

mod_sum :
    (x y d : ℕ) → ((x + y % word_range) % word_range + d) % word_range ≡ (x + y + d) % word_range
mod_sum x y d = omega arith

module _ {D : Type 0} where
  -- A pointer and an offset that denote the address are set, and nothing else has changed but the
  -- operand's type and a temporary register.
  pub record Located (rm : Slot) (a : Addr) (e e' : Exec D) : Type 0 where
    pub ptr : Loc
    pub is_base : IsBase ptr
    pub mbase : e'.s.isa.mbase ≡ some ptr
    pub address : (load ptr e' + e'.s.isa.moff) % word_range ≡ denote a e.cpu.gpr
    pub cpu : e'.cpu ≡ e.cpu
    pub operand : e'.s.operand ≡ (on_operand rm (λ o. record o { type = op_type_mem }) e).s.operand
    pub next : e'.s.seq_pc ≡ e.s.seq_pc
    pub is_jmp : e'.s.is_jmp ≡ e.s.is_jmp

  abbrev Locates : Slot → Addr → Exec D → Type 0
  Locates rm a e =
      (e' : Exec D) × (locate rm a.base a.index a.scale a.disp e ≡ ok e') × Located rm a e e'

  abbrev found : Slot → Loc → ℕ → Exec D → Exec D
  found rm p d e =
      on_operand rm (λ o. record o { type = op_type_mem })
        (on_isa (λ i. record i { moff = d }) (set_mbase p e))

  none_address :
      (rm : Slot) (base : Option ℕ) (d : ℕ) (e : Exec D)
      → (load (base_ptr base) (found rm (base_ptr base) d e) + d) % word_range
        ≡ denote (record { base = base; index = none; scale = 0; disp = d }) e.cpu.gpr
  none_address rm none d e = omega arith
  none_address rm (some b) d e = omega arith

  locate-none :
      (rm : Slot) (base : Option ℕ) (d : ℕ) (e : Exec D)
      → IsBaseReg base
      → Locates rm (record { base = base; index = none; scale = 0; disp = d }) e
  unfolding locate add_index
  locate-none rm base d e h = (
    found rm (base_ptr base) d e,
    rw (base_loc-ok base h) refl,
    record {
      ptr = base_ptr base;
      is_base = base_ptr-IsBase base;
      mbase = refl;
      address = none_address rm base d e;
      cpu = refl;
      operand = refl;
      next = refl;
      is_jmp = refl;
    },
  )

  abbrev scaled : ℕ → ℕ → Exec D → Exec D
  scaled i s e = record e {
    s = record e.s { tmp_reg = update e.s.tmp_reg 1 (e.cpu.gpr i * 2 ^ s % word_range) };
  }

  abbrev summed : Loc → ℕ → ℕ → Exec D → Exec D
  summed p i s e =
      on_isa (λ x. record x { mbr = (load p e + e.cpu.gpr i * 2 ^ s % word_range) % word_range })
        (scaled i s e)

  add_index-some :
      (base : Option ℕ) (i s : ℕ) (e : Exec D)
      → i < 8
      → s < 4
      → add_index (base_ptr base) (some i) s (set_mbase (base_ptr base) e)
        ≡ ok (set_mbase mbr (summed (base_ptr base) i s e))
  unfolding add_index rtl_shli rtl_add c_add
  add_index-some none i s e lt ls =
      rw (lt→ltb i 8 lt, c_shl-small (e.cpu.gpr i) s (omega arith)) refl
  add_index-some (some b) i s e lt ls =
      rw (lt→ltb i 8 lt, c_shl-small (e.cpu.gpr i) s (omega arith)) refl

  some_address :
      (base : Option ℕ) (i s d : ℕ) (e : Exec D)
      → ((load (base_ptr base) e + e.cpu.gpr i * 2 ^ s % word_range) % word_range + d) % word_range
        ≡ denote (record { base = base; index = some i; scale = s; disp = d }) e.cpu.gpr
  some_address none i s d e = mod_sum 0 (e.cpu.gpr i * 2 ^ s) d
  some_address (some b) i s d e = mod_sum (e.cpu.gpr b) (e.cpu.gpr i * 2 ^ s) d

  locate-some :
      (rm : Slot) (base : Option ℕ) (i s d : ℕ) (e : Exec D)
      → IsBaseReg base
      → i < 8
      → s < 4
      → Locates rm (record { base = base; index = some i; scale = s; disp = d }) e
  unfolding locate
  locate-some rm base i s d e h lt ls = (
    found rm mbr d (summed (base_ptr base) i s e),
    rw (base_loc-ok base h, add_index-some base i s e lt ls) refl,
    record {
      ptr = mbr;
      is_base = tt;
      mbase = refl;
      address = some_address base i s d e;
      cpu = refl;
      operand = refl;
      next = refl;
      is_jmp = refl;
    },
  )

  pub locate-Located : (rm : Slot) (a : Addr) (e : Exec D) → IsAddr a → Locates rm a e
  locate-Located rm a e x = located a.base a.index a.scale a.disp x.base_reg x.index_reg
    where
      located :
          (base index : Option ℕ) (s d : ℕ)
          → IsBaseReg base
          → IsIndex index s
          → Locates rm (record { base = base; index = index; scale = s; disp = d }) e
      located base none s d hb hi =
          subst (λ n. Locates rm (record { base = base; index = none; scale = n; disp = d }) e)
            (sym hi) (locate-none rm base d e hb)
      located base (some i) s d hb hi = locate-some rm base i s d e hb hi.0 hi.2
