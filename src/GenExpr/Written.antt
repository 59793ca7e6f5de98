-- ===== src/GenExpr/Written.antt =====
-- What a run of the generator leaves in the buffer.
pub mod Parts
use nju_ics2020_pa.Base.{
  ℕ, zero, suc, ◌+◌, ◌-◌, ◌/◌, ◌%◌, ◌≤◌, ◌<◌, ◌≡◌, refl, ap, sym, Bool, true, List, [], ◌∷◌, ◌++◌,
  length, length-append, ltb, leb, Result, ◌>>=◌, arith, Ends-map, Bool-cases, inl, inr,
}
use mathlib.Core.List.{append_assoc}
use nju_ics2020_pa.GenExpr.{
  Gen, max_index, put, decimal, ran_num_str, gen_num, rand_op, gen_rand_op, gen_case, gen_rand_expr,
}
use nju_ics2020_pa.GenExpr.Grammar.{
  Op, plus, minus, times, over, Tree, num, paren, bin, spaced, op_char, text, IsSmall,
}
use nju_ics2020_pa.GenExpr.Written.Parts.{
  Appended, Both, IsChar, Writes, choose-Ends, from_choice, gen-Writes, if_true-Writes,
  nothing-Appended, put-Writes,
}

abbrev pub IsText : List ℕ → Type 0
IsText s = (t : Tree) × IsSmall t × (text t ≡ s)

pub length-decimal : (fuel n : ℕ) → length (decimal fuel n) ≤ fuel
unfolding decimal
length-decimal zero n = omega arith
length-decimal (suc fuel) n = elim (Bool-cases (ltb n 10)) [
  | inl one ↦ rw one (omega arith)
  | inr more ↦ rw more (
      omega (
        arith,
        length-append (decimal fuel (n / 10)) ((b'0' + n % 10) ∷ []),
        length-decimal fuel (n / 10),
      ))
]

abbrev IsNum : List ℕ → Type 0
IsNum s = (n : ℕ) × (n < 1000) × (ran_num_str n ≡ s)

gen_num-Writes : (g : Gen) → g.buf_index < max_index → Writes g IsNum (gen_num g)
unfolding gen_num
gen_num-Writes g h = choose-Ends (Appended g IsNum) 1000 g _ (omega arith) (λ n rands lt.
    let s = ran_num_str n in
    let short : ltb (length s) 12 ≡ true =
      ground (arith, length-append (decimal 10 n) (b'U' ∷ []), length-decimal 10 n) in
    let g₁ : Gen = record g { rands = rands } in
    rw short (elim (Bool-cases (leb (max_index - 1) (g.buf_index + length s))) [
      | inl full ↦ rw full (nothing-Appended g g₁ IsNum refl refl h)
      | inr free ↦
          rw free (from_choice g rands IsNum _ (put-Writes s g₁ IsNum (n, lt, refl) (ground arith)))
    ]))

abbrev IsOp : List ℕ → Type 0
IsOp s = (o : Op) × (s ≡ op_char o ∷ [])

gen_rand_op-Writes : (g : Gen) → g.buf_index < max_index → Writes g IsOp (gen_rand_op g)
unfolding gen_rand_op
gen_rand_op-Writes g h = elim (Bool-cases (leb (max_index - 1) g.buf_index)) [
  | inl full ↦ rw full (nothing-Appended g g IsOp refl refl h)
  | inr free ↦ rw free (
      choose-Ends (Appended g IsOp) 4 g _ (omega arith)
        (λ c rands lt. draws c rands lt (ground arith)))
]
  where
    puts :
        (o : Op) (rands : List ℕ)
        → g.buf_index + 1 < max_index
        → Writes g IsOp (put (op_char o ∷ []) (record g { rands = rands }))
    puts o rands room =
        from_choice g rands IsOp _
          (put-Writes (op_char o ∷ []) (record g { rands = rands }) IsOp (o, refl) room)

    draws :
        (c : ℕ) (rands : List ℕ)
        → c < 4
        → g.buf_index + 1 < max_index
        → Writes g IsOp (rand_op c >>= λ d. put (d ∷ []) (record g { rands = rands }))
    draws zero rands lt room = puts plus rands room
    draws (suc zero) rands lt room = puts minus rands room
    draws (suc (suc zero)) rands lt room = puts times rands room
    draws (suc (suc (suc zero))) rands lt room = puts over rands room
    draws (suc (suc (suc (suc c)))) rands lt room = absurd (omega arith)

reads :
    (g : Gen) (P : List ℕ → Type 0) (r : Result (Bool × Gen))
    → Writes g P r
    → ((s : List ℕ) → P s → IsText s)
    → Writes g IsText r
reads g P r h k = Ends-map (Appended g P) (Appended g IsText) r h (λ x a. record {
  written = a.written;
  buf = a.buf;
  index = a.index;
  room = a.room;
  parsed = λ e. k (a.written) (a.parsed e);
})

gen_case-Writes :
    (again : Gen → Result (Bool × Gen)) (c : ℕ) (g : Gen)
    → ((g : Gen) → g.buf_index < max_index → Writes g IsText (again g))
    → c < 4
    → g.buf_index < max_index
    → Writes g IsText (gen_case again c g)
unfolding gen_case text
gen_case-Writes again zero g k lt h =
    reads g IsNum (gen_num g) (gen_num-Writes g h) (λ s (n, lt, e). (num n, lt, e))
gen_case-Writes again (suc zero) g k lt h =
    reads g (Both (Both (IsChar b'(') IsText) (IsChar b')')) _
      (if_true-Writes g (Both (IsChar b'(') IsText) (IsChar b')') _ _
        (if_true-Writes g (IsChar b'(') IsText _ _ (gen-Writes b'(' g h) k) (gen-Writes b')'))
      (λ s x. (
        paren (x.left.right.0),
        x.left.right.1,
        rw (sym (x.whole), sym (x.left.whole), x.left.left, x.right)
            (ap (λ y. b'(' ∷ (y ++ b')' ∷ [])) (x.left.right.2)),
      ))
gen_case-Writes again (suc (suc zero)) g k lt h =
    reads g (Both (Both IsText IsOp) IsText) _
      (if_true-Writes g (Both IsText IsOp) IsText _ _
        (if_true-Writes g IsText IsOp _ _ (k g h) gen_rand_op-Writes) k)
      (λ s x. (
        bin (x.left.right.0) (x.left.left.0) (x.right.0),
        (x.left.left.1, x.right.1),
        rw (sym (x.whole), sym (x.left.whole), x.left.right.1, sym (x.left.left.2), sym (x.right.2))
            (sym (
              append_assoc (text (x.left.left.0)) (op_char (x.left.right.0) ∷ [])
                (text (x.right.0)))),
      ))
gen_case-Writes again (suc (suc (suc c))) g k lt h =
    reads g (Both (IsChar b' ') IsText) _
      (if_true-Writes g (IsChar b' ') IsText _ _ (gen-Writes b' ' g h) k)
      (λ s x. (
        spaced (x.right.0),
        x.right.1,
        rw (sym (x.whole), x.left) (ap (λ y. b' ' ∷ y) (x.right.2)),
      ))

-- From a buffer that has room for a NUL, as far as fuel and random numbers reach, a call writes inside the
-- buffer and leaves room for a NUL, fails no assertion, and appends a string to what is there, which is a
-- text of the grammar where the call returns true.
pub gen_rand_expr-Writes :
    (fuel : ℕ) (g : Gen) → g.buf_index < max_index → Writes g IsText (gen_rand_expr fuel g)
unfolding gen_rand_expr
gen_rand_expr-Writes zero g h = tt
gen_rand_expr-Writes (suc fuel) g h =
    choose-Ends (Appended g IsText) 4 g _ (omega arith) (λ c rands lt.
      from_choice g rands IsText _ (
        gen_case-Writes (gen_rand_expr fuel) c (record g { rands = rands })
          (gen_rand_expr-Writes fuel) lt h))
