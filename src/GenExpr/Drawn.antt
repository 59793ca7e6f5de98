-- ===== src/GenExpr/Drawn.antt =====
-- Every tree of the grammar is drawn by some random numbers.
use mathlib.Core.List.{append_assoc}
use nju_ics2020_pa.Base.{
  ℕ, zero, suc, ◌+◌, ◌-◌, ◌%◌, ◌≤◌, ◌<◌, ◌≡◌, refl, ap, ◌∙◌, sym, true, false, List, [], ◌∷◌, ◌++◌,
  length, length-append, ltb, leb, ok, ◌>>=◌, arith,
}
use nju_ics2020_pa.Base.Bytes.{Bytes, copy, copy-append}
use nju_ics2020_pa.GenExpr.{
  Gen, max_index, choose, put, gen, decimal, ran_num_str, gen_num, rand_op, gen_rand_op, if_true,
  gen_case, gen_rand_expr,
}
use nju_ics2020_pa.GenExpr.Grammar.{
  Op, plus, minus, times, over, Tree, num, paren, bin, spaced, op_char, op_code, text, IsSmall,
  codes,
}
use nju_ics2020_pa.GenExpr.Written.{length-decimal}

abbrev pub state : Bytes → ℕ → List ℕ → Gen
state m p l = record { buf = m; buf_index = p; rands = l }

-- The state in which a string has been appended.
abbrev pub appended : List ℕ → Bytes → ℕ → List ℕ → Gen
appended s m p l = state (copy m p s) (p + length s) l

joined :
    (s t : List ℕ) (m : Bytes) (p : ℕ) (l : List ℕ)
    → appended t (copy m p s) (p + length s) l ≡ appended (s ++ t) m p l
joined s t m p l =
    ap (λ b. state b (p + length s + length t) l) (sym (copy-append s t m p))
    ∙ ap (λ i. state (copy m p (s ++ t)) i l) (omega (arith, length-append s t))

put-ok :
    (s : List ℕ) (m : Bytes) (p : ℕ) (l : List ℕ)
    → p + length s ≤ max_index
    → put s (state m p l) ≡ ok (true, appended s m p l)
unfolding put
put-ok s m p l h = let fits : leb (p + length s) max_index ≡ true = ground arith in rw fits refl

gen-ok :
    (c : ℕ) (m : Bytes) (p : ℕ) (l : List ℕ)
    → p + 1 < max_index
    → gen c (state m p l) ≡ ok (true, appended (c ∷ []) m p l)
unfolding gen
gen-ok c m p l h =
    let free : leb (max_index - 1) p ≡ false = ground arith in
    rw free (put-ok (c ∷ []) m p l (omega arith))

gen_num-ok :
    (n : ℕ) (m : Bytes) (p : ℕ) (l : List ℕ)
    → n < 1000
    → p + length (ran_num_str n) < max_index - 1
    → gen_num (state m p (n ∷ l)) ≡ ok (true, appended (ran_num_str n) m p l)
unfolding gen_num
gen_num-ok n m p l h room =
    let same : n % 1000 ≡ n = omega arith in
    let short : ltb (length (ran_num_str n)) 12 ≡ true =
      ground (arith, length-append (decimal 10 n) (b'U' ∷ []), length-decimal 10 n) in
    let free : leb (max_index - 1) (p + length (ran_num_str n)) ≡ false = ground arith in
    rw (same, short, free) (put-ok (ran_num_str n) m p l (omega arith))

gen_rand_op-ok :
    (o : Op) (m : Bytes) (p : ℕ) (l : List ℕ)
    → p + 1 < max_index
    → gen_rand_op (state m p (op_code o ∷ l)) ≡ ok (true, appended (op_char o ∷ []) m p l)
unfolding gen_rand_op
gen_rand_op-ok o m p l h =
    let free : leb (max_index - 1) p ≡ false = ground arith in rw free (chosen o)
  where
    chosen :
        (o : Op)
        → (choose 4 (state m p (op_code o ∷ l)) >>= λ x. rand_op x.0 >>= λ c. put (c ∷ []) x.1)
          ≡ ok (true, appended (op_char o ∷ []) m p l)
    chosen plus = put-ok (b'+' ∷ []) m p l (omega arith)
    chosen minus = put-ok (b'-' ∷ []) m p l (omega arith)
    chosen times = put-ok (b'*' ∷ []) m p l (omega arith)
    chosen over = put-ok (b'/' ∷ []) m p l (omega arith)

-- From the random numbers of a tree whose numbers are below 1000, with a unit of fuel for each, a call
-- returns true, has appended the text of the tree and used these numbers only, if there is room for the
-- text and for two characters more.
pub gen_rand_expr-text :
    (t : Tree) (fuel : ℕ) (m : Bytes) (p : ℕ) (rest : List ℕ)
    → IsSmall t
    → length (codes t) ≤ fuel
    → p + length (text t) < max_index - 1
    → gen_rand_expr fuel (state m p (codes t ++ rest)) ≡ ok (true, appended (text t) m p rest)
unfolding gen_rand_expr gen_case codes text
gen_rand_expr-text (num n) zero m p rest h enough room = absurd (omega arith)
gen_rand_expr-text (paren t) zero m p rest h enough room = absurd (omega arith)
gen_rand_expr-text (bin o l r) zero m p rest h enough room = absurd (omega arith)
gen_rand_expr-text (spaced t) zero m p rest h enough room = absurd (omega arith)
gen_rand_expr-text (num n) (suc fuel) m p rest h enough room = gen_num-ok n m p rest h room
gen_rand_expr-text (paren t) (suc fuel) m p rest h enough room =
    let len = length-append (text t) (b')' ∷ []) in
    let m₁ = copy m p (b'(' ∷ []) in
    let m₂ = copy m₁ (p + 1) (text t) in
    rw
      (
        gen-ok b'(' m p (codes t ++ rest) (omega arith),
        gen_rand_expr-text t fuel m₁ (p + 1) rest h (omega arith) (omega (arith, len)),
        gen-ok b')' m₂ (p + 1 + length (text t)) rest (omega (arith, len)),
      )
      (ap (λ g. ok (true, g))
        (joined (text t) (b')' ∷ []) m₁ (p + 1) rest
          ∙ joined (b'(' ∷ []) (text t ++ b')' ∷ []) m p rest))
gen_rand_expr-text (spaced t) (suc fuel) m p rest h enough room =
    rw
      (
        gen-ok b' ' m p (codes t ++ rest) (omega arith),
        gen_rand_expr-text t fuel (copy m p (b' ' ∷ [])) (p + 1) rest h (omega arith) (omega arith),
      )
      (ap (λ g. ok (true, g)) (joined (b' ' ∷ []) (text t) m p rest))
gen_rand_expr-text (bin o l r) (suc fuel) m p rest h enough room =
    let len = length-append (text l) (op_char o ∷ text r) in
    let codes_len = length-append (codes l) (op_code o ∷ codes r) in
    let m₁ = copy m p (text l) in
    let p₁ = p + length (text l) in
    ap (λ y. gen_rand_expr (suc fuel) (state m p (2 ∷ y)))
      (append_assoc (codes l) (op_code o ∷ codes r) rest)
    ∙ ap (λ y. if_true (if_true y gen_rand_op) (gen_rand_expr fuel))
        (gen_rand_expr-text l fuel m p (op_code o ∷ codes r ++ rest) h.0 (omega (arith, codes_len))
          (omega (arith, len)))
    ∙ ap (λ y. if_true y (gen_rand_expr fuel))
        (gen_rand_op-ok o m₁ p₁ (codes r ++ rest) (omega (arith, len)))
    ∙ gen_rand_expr-text r fuel (copy m₁ p₁ (op_char o ∷ [])) (p₁ + 1) rest h.1
        (omega (arith, codes_len)) (omega (arith, len))
    ∙ ap (λ g. ok (true, g))
        (joined (op_char o ∷ []) (text r) m₁ p₁ rest
          ∙ joined (text l) (op_char o ∷ text r) m p rest)
