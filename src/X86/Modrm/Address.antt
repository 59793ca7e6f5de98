-- ===== src/X86/Modrm/Address.antt =====
-- Addresses in memory as an assembler writes them, `disp(base,index,2^scale)`, and their encoding in the
-- bytes behind the opcode. This is the i386 manual's table, not code.
use nju_ics2020_pa.Base.{
  ℕ, zero, suc, ◌+◌, ◌*◌, ◌/◌, ◌%◌, ◌^◌, ◌<◌, ◌≡◌, ◌≢◌, Option, none, some, List, [], ◌∷◌, ◌==◌,
  if◌then◌else◌, Bool, ltb, leb, ◌||◌, ◌-◌,
}
use nju_ics2020_pa.Base.Bytes.{Bytes}
use nju_ics2020_pa.Rtl.COp.{word_range}
use nju_ics2020_pa.X86.Modrm.{r_ebp}

-- The displacement is a word.
pub record Addr : Type 0 where
  pub base : Option ℕ
  pub index : Option ℕ
  pub scale : ℕ
  pub disp : ℕ

abbrev pub reg_or_zero : Option ℕ → (ℕ → ℕ) → ℕ
reg_or_zero none g = 0
reg_or_zero (some r) g = g r

-- The address that it denotes.
abbrev pub denote : Addr → (ℕ → ℕ) → ℕ
denote a g = (reg_or_zero a.base g + reg_or_zero a.index g * 2 ^ a.scale + a.disp) % word_range

-- The stack pointer is no index, and without an index there is no scale.
abbrev pub IsIndex : Option ℕ → ℕ → Type 0
IsIndex none s = s ≡ 0
IsIndex (some i) s = (i < 8) × (i ≢ 4) × (s < 4)

abbrev pub IsBaseReg : Option ℕ → Type 0
IsBaseReg none = Unit {0}
IsBaseReg (some b) = b < 8

pub record IsAddr (a : Addr) : Type 0 where
  pub base_reg : IsBaseReg a.base
  pub index_reg : IsIndex a.index a.scale
  pub word : a.disp < word_range

-- The bytes of a number, the lowest first.
abbrev pub little : ℕ → ℕ → List ℕ
little zero v = []
little (suc n) v = (v % 256) ∷ little n (v / 256)

-- The displacement, as a signed word, is between -128 and 127.
abbrev pub fits_byte : ℕ → Bool
fits_byte d = ltb d 128 || leb (2 ^ 32 - 128) d

-- The mode and the bytes of the displacement: none if it is zero, one if a signed byte will do. The
-- base 5 has no mode without a displacement.
abbrev pub mode_with : ℕ → ℕ
mode_with d = if fits_byte d then 1 else 2

abbrev pub mode : ℕ → ℕ → ℕ
mode b d = if b == r_ebp then mode_with d else if d == 0 then 0 else mode_with d

abbrev pub mode_bytes : ℕ → ℕ → List ℕ
mode_bytes m d = if m == 0 then [] else if m == 1 then little 1 d else little 4 d

abbrev pub modrm : ℕ → ℕ → ℕ → ℕ
modrm mod_ reg rm = mod_ * 64 + reg * 8 + rm

-- Without a base the mode is 0 and the base field 5, with four bytes.
abbrev pub with_sib : ℕ → Addr → ℕ → ℕ → List ℕ
with_sib reg a index scale = elim (a.base) [
  | none ↦ modrm 0 reg 4 ∷ modrm scale index 5 ∷ little 4 a.disp
  | some b ↦ modrm (mode b a.disp) reg 4 ∷ modrm scale index b ∷ mode_bytes (mode b a.disp) a.disp
]

abbrev pub without_index : ℕ → Addr → List ℕ
without_index reg a = elim (a.base) [
  | none ↦ modrm 0 reg 5 ∷ little 4 a.disp
  | some b ↦
      if b == 4
      then with_sib reg a 4 0
      else modrm (mode b a.disp) reg b ∷ mode_bytes (mode b a.disp) a.disp
]

-- The ModR/M byte with `reg` in its middle field, the SIB byte if there is one, and the displacement.
abbrev pub encode : ℕ → Addr → List ℕ
encode reg a = elim (a.index) [ none ↦ without_index reg a | some i ↦ with_sib reg a i a.scale ]

-- The bytes stand in the memory from `p` on.
abbrev pub At : Bytes → ℕ → List ℕ → Type 0
At m p [] = Unit {0}
At m p (b ∷ bs) = (m p ≡ b) × At m (suc p) bs
