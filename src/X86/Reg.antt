-- ===== src/X86/Reg.antt =====
-- nemu/src/isa/x86/local-include/reg.h, local-include/rtl.h and reg.c: 32-bit registers, their low words
-- and bytes, and names.
pub mod Parts
pub mod Names
mod Tests
use mathlib.Core.List.{map}
use nju_ics2020_pa.Base.{
  ℕ, zero, suc, ◌+◌, ◌-◌, ◌*◌, ◌/◌, ◌%◌, ◌^◌, Bool, true, false, List, [], ◌∷◌, Option, none, some,
  ltb, ◌==◌, if◌then◌else◌, update, get_elem?, Result, ok, stop, undefined, assertion, ◌>>=◌, ◌>>◌,
  assert, of_option,
}
use nju_ics2020_pa.Base.CString.{to_lower, same_text}
use nju_ics2020_pa.Rtl.Machine.{Machine, Exec, Loc, gpr, load, store}
use nju_ics2020_pa.Rtl.Basic.{rtl_mv}

-- The bits of the byte `_8[offset]` of a word, and how much they weigh.
abbrev pub weight : ℕ → ℕ
weight zero = 1
weight (suc k) = 256

abbrev pub byte_of : ℕ → ℕ → ℕ
byte_of offset w = w / weight offset % 256

abbrev pub set_byte : ℕ → ℕ → ℕ → ℕ
set_byte offset v w = w - byte_of offset w * weight offset + v % 256 * weight offset

-- `reg_l`, `reg_w` and `reg_b`, as values.
unfoldable pub reg_l : ℕ → (ℕ → ℕ) → Result ℕ
reg_l index g = assert (ltb index 8) >> ok (g index)

unfoldable pub reg_w : ℕ → (ℕ → ℕ) → Result ℕ
reg_w index g = assert (ltb index 8) >> ok (g index % 2 ^ 16)

unfoldable pub reg_b : ℕ → (ℕ → ℕ) → Result ℕ
reg_b index g = assert (ltb index 8) >> ok (byte_of (index / 4) (g (index % 4)))

-- The same as targets of an assignment.
unfoldable pub set_w : ℕ → ℕ → (ℕ → ℕ) → Result (ℕ → ℕ)
set_w index v g =
    assert (ltb index 8) >> ok (update g index (g index - g index % 2 ^ 16 + v % 2 ^ 16))

unfoldable pub set_b : ℕ → ℕ → (ℕ → ℕ) → Result (ℕ → ℕ)
set_b index v g =
    assert (ltb index 8) >> ok (update g (index % 4) (set_byte (index / 4) v (g (index % 4))))

module _ {D : Type 0} where
  abbrev set_gpr : (ℕ → ℕ) → Exec D → Exec D
  set_gpr g e = record e { cpu = record e.cpu { gpr = g } }

  -- `rtl_host_lm` and `rtl_host_sm` on a register's own bytes.
  unfoldable pub rtl_lr : Loc → ℕ → ℕ → Exec D → Result (Exec D)
  rtl_lr dest r width e =
      if width == 4
      then (assert (ltb r 8) >> rtl_mv dest (gpr r) e)
      else if width == 1
      then (reg_b r e.cpu.gpr >>= λ v. store dest v e)
      else if width == 2
      then (reg_w r e.cpu.gpr >>= λ v. store dest v e)
      else stop assertion

  unfoldable pub rtl_sr : ℕ → Loc → ℕ → Exec D → Result (Exec D)
  rtl_sr r src1 width e =
      if width == 4
      then (assert (ltb r 8) >> rtl_mv (gpr r) src1 e)
      else if width == 1
      then (set_b r (load src1 e) e.cpu.gpr >>= λ g. ok (set_gpr g e))
      else if width == 2
      then (set_w r (load src1 e) e.cpu.gpr >>= λ g. ok (set_gpr g e))
      else stop assertion

abbrev pub regsl : List (List ℕ)
regsl =
    (b'e' ∷ b'a' ∷ b'x' ∷ [])
    ∷ (b'e' ∷ b'c' ∷ b'x' ∷ [])
    ∷ (b'e' ∷ b'd' ∷ b'x' ∷ [])
    ∷ (b'e' ∷ b'b' ∷ b'x' ∷ [])
    ∷ (b'e' ∷ b's' ∷ b'p' ∷ [])
    ∷ (b'e' ∷ b'b' ∷ b'p' ∷ [])
    ∷ (b'e' ∷ b's' ∷ b'i' ∷ [])
    ∷ (b'e' ∷ b'd' ∷ b'i' ∷ [])
    ∷ []

abbrev pub regsw : List (List ℕ)
regsw =
    (b'a' ∷ b'x' ∷ [])
    ∷ (b'c' ∷ b'x' ∷ [])
    ∷ (b'd' ∷ b'x' ∷ [])
    ∷ (b'b' ∷ b'x' ∷ [])
    ∷ (b's' ∷ b'p' ∷ [])
    ∷ (b'b' ∷ b'p' ∷ [])
    ∷ (b's' ∷ b'i' ∷ [])
    ∷ (b'd' ∷ b'i' ∷ [])
    ∷ []

abbrev pub regsb : List (List ℕ)
regsb =
    (b'a' ∷ b'l' ∷ [])
    ∷ (b'c' ∷ b'l' ∷ [])
    ∷ (b'd' ∷ b'l' ∷ [])
    ∷ (b'b' ∷ b'l' ∷ [])
    ∷ (b'a' ∷ b'h' ∷ [])
    ∷ (b'c' ∷ b'h' ∷ [])
    ∷ (b'd' ∷ b'h' ∷ [])
    ∷ (b'b' ∷ b'h' ∷ [])
    ∷ []

pub reg_name : ℕ → ℕ → Result (List ℕ)
reg_name index width =
    assert (ltb index 8)
    >> (if width == 4
        then of_option undefined (get_elem? regsl index)
        else if width == 1
        then of_option undefined (get_elem? regsb index)
        else if width == 2
        then of_option undefined (get_elem? regsw index)
        else stop assertion)

-- The rounds of the loop of `isa_reg_str2val` from `i` on, over the rest of the three tables.
pub reg_loop : ℕ → List (List ℕ) → List (List ℕ) → List (List ℕ) → List ℕ → (ℕ → ℕ) → Option ℕ
reg_loop i (l ∷ ls) (w ∷ ws) (b ∷ bs) s g =
    if same_text s l
    then some (g i)
    else if same_text s w
    then some (g i % 2 ^ 16)
    else if same_text s b
    then some (byte_of (i / 4) (g (i % 4)))
    else reg_loop (suc i) ls ws bs s g
reg_loop i _ _ _ s g = none

-- `none` is `*success = false`.
pub isa_reg_str2val : {D : Type 0} → List ℕ → Machine D → Option ℕ
isa_reg_str2val s m =
    let low = map to_lower s in
    if same_text low (b'p' ∷ b'c' ∷ []) then some m.pc else reg_loop 0 regsl regsw regsb low m.gpr
