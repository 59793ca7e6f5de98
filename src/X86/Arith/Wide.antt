-- ===== src/X86/Arith/Wide.antt =====
-- Multiplication and division of 32 bits: the aliasing of operand and result registers does no harm.
use nju_ics2020_pa.Base.{
  ℕ, ◌+◌, ◌*◌, ◌/◌, ◌%◌, ◌<◌, ◌≡◌, ◌≢◌, refl, false, ◌==◌, if◌then◌else◌, Bool-cases, inl, inr, ap,
  some, update, ok, ◌>>=◌, arith,
}
use native.Mathlib.Nat.{div-add-mod', div-lt_iff_lt-mul, mod-eq_of_lt, mod-lt}
use nju_ics2020_pa.Rtl.COp.{word_range, c_add, c_mul_lo, c_mul_hi}
use nju_ics2020_pa.Rtl.Machine.{Exec, Loc, rz, mbr, gpr, tmp, val, dest, load}
use nju_ics2020_pa.Rtl.Basic.{rtl_mv, rtl_add, rtl_mul_lo, rtl_mul_hi, rtl_div64_q, rtl_div64_r}
use nju_ics2020_pa.X86.Reg.{rtl_lr, rtl_sr}
use nju_ics2020_pa.X86.Arith.{exec_mul, exec_div, div_long, eax, edx}

-- Where an operand can be.
abbrev pub IsOperandLoc : Loc → Type 0
IsOperandLoc (gpr i) = i < 8
IsOperandLoc (val k) = Unit {0}
IsOperandLoc _ = ⊥

same_word : (v : ℕ) → v < word_range → c_add v 0 ≡ v
unfolding c_add
same_word v h = omega arith

-- The parts of a product of words are words.
low_part : (x : ℕ) → x % word_range < word_range
low_part x = omega arith

high_part : (a b : ℕ) → a < word_range → b < word_range → a * b / word_range < word_range
high_part a b ha hb = grind arith

small_quotient :
    (hi lo d : ℕ)
    → hi < d
    → d < word_range
    → lo < word_range
    → (hi * word_range + lo) / d % word_range * d + (hi * word_range + lo) % d % word_range
      ≡ hi * word_range + lo
small_quotient hi lo d h hd hl =
    let x = hi * word_range + lo in
    let q : x / d < word_range = (div-lt_iff_lt-mul (omega arith)).1 (omega arith) in
    let r : x % d < word_range = omega (arith, mod-lt x {m = d}) in
    rw (mod-eq_of_lt q, mod-eq_of_lt r) (div-add-mod' x d)

small_rest : (x d : ℕ) → 0 < d → d < word_range → x % d % word_range < d
small_rest x d h hd = grind arith

module _ {D : Type 0} where
  abbrev multiplied : ℕ → Exec D → Exec D
  multiplied x e = record {
    cpu = record e.cpu {
      gpr = update (update e.cpu.gpr edx (x / word_range)) eax (x % word_range);
    };
    s = record e.s {
      tmp_reg =
          update (update (update e.s.tmp_reg 0 (e.cpu.gpr eax)) 1 (x % word_range)) 0
            (x / word_range);
    };
  }

  mul-ok :
      (p : Loc) (e : Exec D)
      → IsOperandLoc p
      → (e.s.operand dest).preg ≡ some p
      → (e.s.operand dest).width ≡ 4
      → load p e < word_range
      → e.cpu.gpr eax < word_range
      → exec_mul e ≡ ok (multiplied (load p e * e.cpu.gpr eax) e)
  unfolding exec_mul rtl_lr rtl_sr rtl_mv rtl_add rtl_mul_lo rtl_mul_hi c_mul_lo c_mul_hi
  mul-ok (gpr i) e h hp hw wa wb =
      rw
        (
          hp,
          hw,
          same_word (e.cpu.gpr eax) wb,
          same_word (e.cpu.gpr i * e.cpu.gpr eax / word_range)
              (high_part (e.cpu.gpr i) (e.cpu.gpr eax) wa wb),
          same_word (e.cpu.gpr i * e.cpu.gpr eax % word_range)
              (low_part (e.cpu.gpr i * e.cpu.gpr eax)),
        )
        refl
  mul-ok (val k) e h hp hw wa wb =
      rw
        (
          hp,
          hw,
          same_word (e.cpu.gpr eax) wb,
          same_word ((e.s.operand k).val * e.cpu.gpr eax / word_range)
              (high_part ((e.s.operand k).val) (e.cpu.gpr eax) wa wb),
          same_word ((e.s.operand k).val * e.cpu.gpr eax % word_range)
              (low_part ((e.s.operand k).val * e.cpu.gpr eax)),
        )
        refl
  mul-ok rz e h hp hw wa wb = absurd h
  mul-ok mbr e h hp hw wa wb = absurd h
  mul-ok (tmp i) e h hp hw wa wb = absurd h

  abbrev pub Others : Exec D → Exec D → Type 0
  Others e e' = (i : ℕ) → i ≢ eax → i ≢ edx → e'.cpu.gpr i ≡ e.cpu.gpr i

  -- `mul` with an operand of 32 bits in a register or in memory puts the whole product of operand and eax
  -- into edx and eax, also where the operand is one of these registers, and changes no other register.
  pub exec_mul_lem :
      (p : Loc) (e : Exec D)
      → IsOperandLoc p
      → (e.s.operand dest).preg ≡ some p
      → (e.s.operand dest).width ≡ 4
      → load p e < word_range
      → e.cpu.gpr eax < word_range
      → (e' : Exec D) × (exec_mul e ≡ ok e')
        × (e'.cpu.gpr edx * word_range + e'.cpu.gpr eax ≡ load p e * e.cpu.gpr eax)
        × Others e e'
  exec_mul_lem p e h hp hw wa wb =
      let x = load p e * e.cpu.gpr eax in
      (multiplied x e, mul-ok p e h hp hw wa wb, omega arith, λ i n₁ n₂. ground arith)

  abbrev dividend_of : Exec D → ℕ
  dividend_of e = e.cpu.gpr edx * word_range + e.cpu.gpr eax

  abbrev divided : ℕ → Exec D → Exec D
  divided d e =
      let x = dividend_of e in
      record {
        cpu = record e.cpu {
          gpr = update (update e.cpu.gpr eax (x / d % word_range)) edx (x % d % word_range);
        };
        s = record e.s { tmp_reg = update e.s.tmp_reg 0 (e.cpu.gpr eax) };
      }

  abbrev saved : Exec D → Exec D
  saved e = record e { s = record e.s { tmp_reg = update e.s.tmp_reg 0 (e.cpu.gpr eax) } }

  abbrev quotient_set : ℕ → Exec D → Exec D
  quotient_set d e = record (saved e) {
    cpu = record e.cpu { gpr = update e.cpu.gpr eax (dividend_of e / d % word_range) };
  }

  save-ok : (e : Exec D) → e.cpu.gpr eax < word_range → rtl_mv (tmp 0) (gpr eax) e ≡ ok (saved e)
  unfolding rtl_mv rtl_add
  save-ok e h = rw (same_word (e.cpu.gpr eax) h) refl

  -- A pointer at which the divisor is found before both divisions.
  divide-ok :
      (p : Loc) (d : ℕ) (e : Exec D)
      → load p (saved e) ≡ d
      → load p (quotient_set d e) ≡ d
      → (d == 0) ≡ false
      → (rtl_div64_q (gpr eax) (gpr edx) (tmp 0) p (saved e)
          >>= rtl_div64_r (gpr edx) (gpr edx) (tmp 0) p)
        ≡ ok (divided d e)
  unfolding rtl_div64_q rtl_div64_r
  divide-ok p d e h₁ h₂ nz = rw (h₁, nz, h₂, nz) refl

  div-ok :
      (p : Loc) (e : Exec D)
      → IsOperandLoc p
      → (load p e == 0) ≡ false
      → e.cpu.gpr eax < word_range
      → div_long rtl_div64_q rtl_div64_r p e ≡ ok (divided (load p e) e)
  unfolding div_long
  div-ok (val k) e h nz wa = rw (save-ok e wa) (divide-ok (val k) (load (val k) e) e refl refl nz)
  div-ok (gpr i) e h nz wa = elim (Bool-cases (i == eax)) [
    | inl hit ↦
        let same : e.cpu.gpr eax ≡ e.cpu.gpr i = ap e.cpu.gpr (ground arith) in
        rw (save-ok e wa, hit) (divide-ok (tmp 0) (e.cpu.gpr i) e same same nz)
    | inr miss ↦
        let kept : (eax == i) ≡ false = ground arith in
        rw (save-ok e wa, miss)
          (divide-ok (gpr i) (e.cpu.gpr i) e refl
            (ap (λ b. if b then dividend_of e / e.cpu.gpr i % word_range else e.cpu.gpr i) kept) nz)
  ]
  div-ok rz e h nz wa = absurd h
  div-ok mbr e h nz wa = absurd h
  div-ok (tmp i) e h nz wa = absurd h

  -- `div` by an operand of 32 bits: where the quotient is a word, eax is the quotient of edx and eax as one
  -- number and edx is the remainder, also where the divisor is in one of these registers, and no other
  -- register changes.
  pub exec_div_lem :
      (p : Loc) (e : Exec D)
      → IsOperandLoc p
      → (e.s.operand dest).preg ≡ some p
      → (e.s.operand dest).width ≡ 4
      → e.cpu.gpr edx < load p e
      → load p e < word_range
      → e.cpu.gpr eax < word_range
      → (e' : Exec D) × (exec_div e ≡ ok e')
        × (e'.cpu.gpr eax * load p e + e'.cpu.gpr edx ≡ e.cpu.gpr edx * word_range + e.cpu.gpr eax)
        × (e'.cpu.gpr edx < load p e)
        × Others e e'
  unfolding exec_div
  exec_div_lem p e h hp hw lt wd wa = (
    divided (load p e) e,
    rw (hp, hw) (div-ok p e h (ground arith) wa),
    small_quotient (e.cpu.gpr edx) (e.cpu.gpr eax) (load p e) lt wd wa,
    small_rest (dividend_of e) (load p e) (omega arith) wd,
    λ i n₁ n₂. ground arith,
  )
