-- ===== src/X86/Reg/Parts.antt =====
-- The low words and bytes of the registers overlap with them as the union does.
use nju_ics2020_pa.Base.{
  ℕ, zero, suc, ◌/◌, ◌%◌, ◌^◌, ◌<◌, ◌≡◌, ◌≢◌, refl, ◌==◌, if◌then◌else◌, update, Result, ok, arith,
  ap, ◌∙◌, sym, Bool-cases, inl, inr, subst, lt→ltb, Bool, false,
}
use nju_ics2020_pa.X86.Reg.{byte_of, set_byte, reg_b, set_b}

byte-set_byte_same : (o v w : ℕ) → o < 2 → byte_of o (set_byte o v w) ≡ v % 256
byte-set_byte_same zero v w h = omega arith
byte-set_byte_same (suc zero) v w h = omega arith
byte-set_byte_same (suc (suc o)) v w h = absurd (omega arith)

byte-set_byte_other :
    (o k v w : ℕ) → o < 2 → k < 2 → o ≢ k → byte_of k (set_byte o v w) ≡ byte_of k w
byte-set_byte_other zero zero v w h j ne = absurd (ground arith)
byte-set_byte_other zero (suc zero) v w h j ne = omega arith
byte-set_byte_other (suc zero) zero v w h j ne = omega arith
byte-set_byte_other (suc zero) (suc zero) v w h j ne = absurd (ground arith)
byte-set_byte_other (suc (suc o)) k v w h j ne = absurd (omega arith)
byte-set_byte_other zero (suc (suc k)) v w h j ne = absurd (omega arith)
byte-set_byte_other (suc zero) (suc (suc k)) v w h j ne = absurd (omega arith)

-- The upper half of a register is in none of its bytes.
upper-set_byte : (o v w : ℕ) → o < 2 → set_byte o v w / 2 ^ 16 ≡ w / 2 ^ 16
upper-set_byte zero v w h = omega arith
upper-set_byte (suc zero) v w h = omega arith
upper-set_byte (suc (suc o)) v w h = absurd (omega arith)

-- What a write to a byte register does to all the registers.
pub record ByteWritten (i v : ℕ) (g : ℕ → ℕ) (r : Result (ℕ → ℕ)) : Type 0 where
  pub after : ℕ → ℕ
  pub returns : r ≡ ok after
  pub bytes : (j : ℕ) → j < 8 → reg_b j after ≡ (if i == j then ok (v % 256) else reg_b j g)
  pub upper : (k : ℕ) → after k / 2 ^ 16 ≡ g k / 2 ^ 16
  pub others : (k : ℕ) → k ≢ i % 4 → after k ≡ g k

module _ (i v : ℕ) (g : ℕ → ℕ) (h : i < 8) where
  abbrev written : ℕ → ℕ
  written = update g (i % 4) (set_byte (i / 4) v (g (i % 4)))

  written_here : written (i % 4) ≡ set_byte (i / 4) v (g (i % 4))
  written_here = ground arith

  written_there : (k : ℕ) → k ≢ i % 4 → written k ≡ g k
  written_there k ne = ground arith

  reg_b-ok : (j : ℕ) (f : ℕ → ℕ) → j < 8 → reg_b j f ≡ ok (byte_of (j / 4) (f (j % 4)))
  unfolding reg_b
  reg_b-ok j f lt = rw (lt→ltb j 8 lt) refl

  byte-written :
      (j : ℕ)
      → j < 8
      → byte_of (j / 4) (written (j % 4))
        ≡ (if i == j then v % 256 else byte_of (j / 4) (g (j % 4)))
  byte-written j lt = elim (Bool-cases (j % 4 == i % 4)) [
    | inr apart ↦
        let differ : (i == j) ≡ false = ground arith in
        rw differ (ap (byte_of (j / 4)) (written_there (j % 4) (ground arith)))
    | inl same ↦ elim (Bool-cases (i == j)) [
      | inl hit ↦ rw hit (
          subst (λ n. byte_of (n / 4) (written (n % 4)) ≡ v % 256) (ground arith)
            (ap (byte_of (i / 4)) written_here
              ∙ byte-set_byte_same (i / 4) v (g (i % 4)) (omega arith)))
      | inr miss ↦
          let e : j % 4 ≡ i % 4 = ground arith in
          rw miss (
            ap (λ n. byte_of (j / 4) (written n)) e
            ∙ ap (byte_of (j / 4)) written_here
            ∙ byte-set_byte_other (i / 4) (j / 4) v (g (i % 4)) (omega arith) (omega arith)
                (ground arith)
            ∙ ap (λ n. byte_of (j / 4) (g n)) (sym e))
    ]
  ]

  pushed : (b : Bool) (x y : ℕ) → ok (if b then x else y) ≡ (if b then ok x else ok y)
  pushed b x y = ground arith

  -- A write to one of the eight byte registers succeeds: this one holds the low byte of the value, the
  -- other seven and the upper half of every register are what they were, and so is every register that
  -- it is no part of.
  pub set_b-ByteWritten : ByteWritten i v g (set_b i v g)
  unfolding set_b
  set_b-ByteWritten = record {
    after = written;
    returns = rw (lt→ltb i 8 h) refl;
    bytes = λ j lt.
        reg_b-ok j written lt
        ∙ ap (λ (x : ℕ). ok x) (byte-written j lt)
        ∙ pushed (i == j) (v % 256) (byte_of (j / 4) (g (j % 4)))
        ∙ ap (λ (r : Result ℕ). if i == j then ok (v % 256) else r) (sym (reg_b-ok j g lt));
    upper = λ k. elim (Bool-cases (k == i % 4)) [
      | inl same ↦
          subst (λ n. written n / 2 ^ 16 ≡ g n / 2 ^ 16) (ground arith)
            (ap (λ (w : ℕ). w / 2 ^ 16) written_here
              ∙ upper-set_byte (i / 4) v (g (i % 4)) (omega arith))
      | inr apart ↦ ap (λ (w : ℕ). w / 2 ^ 16) (written_there k (ground arith))
    ];
    others = written_there;
  }
