-- ===== src/X86/Reg/Names.antt =====
-- Every register is found by its name, in capitals or not.
use mathlib.Core.List.{map}
use nju_ics2020_pa.Base.{
  ℕ, zero, suc, ◌<◌, ◌≡◌, refl, false, List, [], ◌∷◌, some, Result, ok, arith, ◌∙◌, sym,
  ok-injective,
}
use nju_ics2020_pa.Base.CString.{to_lower, same_text}
use nju_ics2020_pa.Rtl.Machine.{Machine}
use nju_ics2020_pa.X86.Reg.{
  reg_l, reg_w, reg_b, regsl, regsw, regsb, reg_name, reg_loop, isa_reg_str2val,
}

-- The widths that registers have, in bytes.
pub data Width : Type 0 where
  byte word long : Width

abbrev pub bytes : Width → ℕ
bytes byte = 1
bytes word = 2
bytes long = 4

-- What the macro for the width reads.
abbrev pub reg : Width → ℕ → (ℕ → ℕ) → Result ℕ
reg byte = reg_b
reg word = reg_w
reg long = reg_l

-- A name leads to its register.
abbrev Leads : Width → ℕ → Type 0
Leads w i =
    (name : List ℕ) × (reg_name i (bytes w) ≡ ok name)
    × (same_text name (b'p' ∷ b'c' ∷ []) ≡ false)
    × ((g : ℕ → ℕ) → (v : ℕ) × (reg w i g ≡ ok v) × (reg_loop 0 regsl regsw regsb name g ≡ some v))

leads : (w : Width) (i : ℕ) → i < 8 → Leads w i
unfolding reg_name reg_loop reg_l reg_w reg_b
leads byte zero h = (_, refl, refl, λ g. (_, refl, refl))
leads byte (suc zero) h = (_, refl, refl, λ g. (_, refl, refl))
leads byte (suc (suc zero)) h = (_, refl, refl, λ g. (_, refl, refl))
leads byte (suc (suc (suc zero))) h = (_, refl, refl, λ g. (_, refl, refl))
leads byte (suc (suc (suc (suc zero)))) h = (_, refl, refl, λ g. (_, refl, refl))
leads byte (suc (suc (suc (suc (suc zero))))) h = (_, refl, refl, λ g. (_, refl, refl))
leads byte (suc (suc (suc (suc (suc (suc zero)))))) h = (_, refl, refl, λ g. (_, refl, refl))
leads byte (suc (suc (suc (suc (suc (suc (suc zero))))))) h = (_, refl, refl, λ g. (_, refl, refl))
leads word zero h = (_, refl, refl, λ g. (_, refl, refl))
leads word (suc zero) h = (_, refl, refl, λ g. (_, refl, refl))
leads word (suc (suc zero)) h = (_, refl, refl, λ g. (_, refl, refl))
leads word (suc (suc (suc zero))) h = (_, refl, refl, λ g. (_, refl, refl))
leads word (suc (suc (suc (suc zero)))) h = (_, refl, refl, λ g. (_, refl, refl))
leads word (suc (suc (suc (suc (suc zero))))) h = (_, refl, refl, λ g. (_, refl, refl))
leads word (suc (suc (suc (suc (suc (suc zero)))))) h = (_, refl, refl, λ g. (_, refl, refl))
leads word (suc (suc (suc (suc (suc (suc (suc zero))))))) h = (_, refl, refl, λ g. (_, refl, refl))
leads long zero h = (_, refl, refl, λ g. (_, refl, refl))
leads long (suc zero) h = (_, refl, refl, λ g. (_, refl, refl))
leads long (suc (suc zero)) h = (_, refl, refl, λ g. (_, refl, refl))
leads long (suc (suc (suc zero))) h = (_, refl, refl, λ g. (_, refl, refl))
leads long (suc (suc (suc (suc zero)))) h = (_, refl, refl, λ g. (_, refl, refl))
leads long (suc (suc (suc (suc (suc zero))))) h = (_, refl, refl, λ g. (_, refl, refl))
leads long (suc (suc (suc (suc (suc (suc zero)))))) h = (_, refl, refl, λ g. (_, refl, refl))
leads long (suc (suc (suc (suc (suc (suc (suc zero))))))) h = (_, refl, refl, λ g. (_, refl, refl))
leads w (suc (suc (suc (suc (suc (suc (suc (suc i)))))))) h = absurd (omega arith)

-- The names that `reg_name` gives: whatever is spelled so when it is put into small letters is found by
-- `isa_reg_str2val`, with the value that the macro for the register's width reads.
pub isa_reg_str2val-reg_name :
    {D : Type 0} (w : Width) (i : ℕ) (s : List ℕ) (m : Machine D)
    → i < 8
    → reg_name i (bytes w) ≡ ok (map to_lower s)
    → (v : ℕ) × (reg w i m.gpr ≡ ok v) × (isa_reg_str2val s m ≡ some v)
unfolding isa_reg_str2val
isa_reg_str2val-reg_name w i s m h e =
    let (name, named, no_pc, found) = leads w i h in
    let (v, read, looked) = found m.gpr in
    let same : map to_lower s ≡ name = ok-injective (sym e ∙ named) in
    (v, read, rw (same, no_pc) looked)
