-- ===== src/GenExpr/Evaluated.antt =====
-- The generator and the debugger: what expr computes of a text that is generated.
use mathlib.Core.List.{append-nil, reverse, reverse_aux, reverse_aux-append, reverse-reverse}
use nju_ics2020_pa.Base.{
  ℕ, zero, suc, ◌+◌, ◌*◌, ◌/◌, ◌%◌, ◌≤◌, ◌<◌, ◌≡◌, refl, ap, ◌∙◌, sym, true, false, List, [], ◌∷◌,
  ◌++◌, length, ltb, ◌==◌, Result, ok, ◌>>=◌, arith, Bool-cases, inl, inr, some,
}
use nju_ics2020_pa.Base.Int.{pos}
use nju_ics2020_pa.Base.CString.{
  is_digit, digit_value, digits_value, skip_prefix, strtol, is_space, clamp_pos, long_max,
}
use nju_ics2020_pa.Expr.Token.{Token, tk_lbrkt, tk_rbrkt}
use nju_ics2020_pa.Expr.Lexer.{make_token, token_loop}
use nju_ics2020_pa.Expr.{expr}
use nju_ics2020_pa.Expr.Eval.{Env, eval, eval_atom}
use nju_ics2020_pa.Expr.Eval.Grammar.{Ast, leaf, BinOp, op_type, print, denote, op_value, IsParsed}
use nju_ics2020_pa.Expr.Eval.Correct.{eval-denote}
use nju_ics2020_pa.GenExpr.{decimal}
use nju_ics2020_pa.GenExpr.Grammar.{
  Op, plus, minus, times, over, Tree, num, paren, bin, spaced, text, IsSmall,
}
use nju_ics2020_pa.GenExpr.Written.{length-decimal}
use nju_ics2020_pa.GenExpr.Lexed.Rounds.{mark, Leads, max_tokens, number}
use nju_ics2020_pa.GenExpr.Lexed.Numerals.{AllDigits, decimal-AllDigits}
use nju_ics2020_pa.GenExpr.Lexed.{push, op_token, text-Step}

abbrev pub op_of : Op → BinOp
op_of plus = BinOp.plus
op_of minus = BinOp.sub
op_of times = BinOp.mux
op_of over = BinOp.div

-- The tree of the evaluator, without the spaces.
abbrev pub ast : Tree → Ast
ast (num n) = leaf (number (decimal 10 n))
ast (paren t) = Ast.paren (ast t)
ast (bin o l r) = Ast.bin (op_of o) (ast l) (ast r)
ast (spaced t) = ast t

-- The value that C gives the tree, with arithmetic of 32 bits; a division by zero is an assertion.
unfoldable pub value : Tree → Result ℕ
value (num n) = ok n
value (paren t) = value t
value (bin o l r) = do a ← value l; b ← value r; op_value (op_of o) a b
value (spaced t) = value t

abbrev digit_range : ℕ → ℕ
digit_range zero = 1
digit_range (suc n) = 10 * digit_range n

digit_value_ok : (n : ℕ) → n < 10 → digit_value (b'0' + n) ≡ n
digit_value_ok n h = ground arith

digit-lt : (c : ℕ) → is_digit c ≡ true → ltb (digit_value c) 10 ≡ true
digit-lt c h = rw h (ground arith)

digits_value-append :
    (s : List ℕ) (acc n : ℕ)
    → AllDigits s
    → n < 10
    → digits_value 10 acc (s ++ (b'0' + n) ∷ []) ≡ digits_value 10 acc s * 10 + n
unfolding digits_value
digits_value-append [] acc n h lt =
    let low : ltb (digit_value (b'0' + n)) 10 ≡ true = ground (arith, digit_value_ok n lt) in
    rw low (ap (λ d. acc * 10 + d) (digit_value_ok n lt))
digits_value-append (c ∷ s) acc n h lt =
    let low : ltb (digit_value c) 10 ≡ true = digit-lt c h.0 in
    rw low (digits_value-append s (acc * 10 + digit_value c) n h.1 lt)

digits_value-decimal : (fuel n : ℕ) → n < digit_range fuel → digits_value 10 0 (decimal fuel n) ≡ n
unfolding digits_value decimal
digits_value-decimal zero n h = omega arith
digits_value-decimal (suc fuel) n h = elim (Bool-cases (ltb n 10)) [
  | inl one ↦ rw one (digits_value-append [] 0 n tt (ground arith) ∙ omega arith)
  | inr more ↦ rw more (
      digits_value-append (decimal fuel (n / 10)) 0 (n % 10) (decimal-AllDigits fuel (n / 10))
        (omega arith)
      ∙ omega (arith, digits_value-decimal fuel (n / 10) (omega arith)))
]

skip_prefix-decimal : (s : List ℕ) → skip_prefix 10 s ≡ s
skip_prefix-decimal [] = refl
skip_prefix-decimal (a ∷ []) = refl
skip_prefix-decimal (a ∷ b ∷ []) = refl
skip_prefix-decimal (a ∷ b ∷ c ∷ s) = refl

strtol-digits :
    (s : List ℕ) (n : ℕ) → AllDigits s → digits_value 10 0 s ≡ n → n < 1000 → strtol 10 s ≡ pos n
unfolding strtol
strtol-digits [] n h e small = ap pos e
strtol-digits (c ∷ s) n h e small =
    let tight : is_space c ≡ false = ground (arith, h.0) in
    let plain : (c == b'-') ≡ false = ground (arith, h.0) in
    let unsigned : (c == b'+') ≡ false = ground (arith, h.0) in
    let fits : ltb long_max n ≡ false = ground arith in
    rw (tight, plain, unsigned)
      (ap (λ d. clamp_pos (digits_value 10 0 d)) (skip_prefix-decimal (c ∷ s))
        ∙ ap clamp_pos e
        ∙ rw fits refl)

eval_atom-number : (env : Env) (n : ℕ) → n < 1000 → eval_atom env (number (decimal 10 n)) ≡ ok n
unfolding eval_atom
eval_atom-number env n h =
    let short : ltb (length (decimal 10 n)) 32 ≡ true = ground (arith, length-decimal 10 n) in
    rw
      (
        short,
        strtol-digits (decimal 10 n) n (decimal-AllDigits 10 n)
            (digits_value-decimal 10 n (omega arith)) h,
      )
      (ap (λ (x : ℕ). ok x) (omega arith))

same_op : (o : Op) → mark (op_token o) ≡ mark (op_type (op_of o))
same_op plus = refl
same_op minus = refl
same_op times = refl
same_op over = refl

denote-value : (env : Env) (t : Tree) → IsSmall t → denote env (ast t) ≡ value t
unfolding denote value
denote-value env (num n) h = eval_atom-number env n h
denote-value env (paren t) h = denote-value env t h
denote-value env (bin o l r) h =
    ap (λ x. x >>= λ a. denote env (ast r) >>= λ b. op_value (op_of o) a b) (denote-value env l h.0)
    ∙ ap (λ x. value l >>= λ a. x >>= λ b. op_value (op_of o) a b) (denote-value env r h.1)
denote-value env (spaced t) h = denote-value env t h

push-reverse : (t : Tree) (ts : List Token) → push t ts ≡ reverse_aux (print (ast t)) ts
unfolding push print
push-reverse (num n) ts = refl
push-reverse (paren t) ts =
    ap (λ l. mark tk_rbrkt ∷ l) (push-reverse t (mark tk_lbrkt ∷ ts))
    ∙ sym (reverse_aux-append (print (ast t)) (mark tk_rbrkt ∷ []) (mark tk_lbrkt ∷ ts))
push-reverse (bin o l r) ts =
    push-reverse r (mark (op_token o) ∷ push l ts)
    ∙ ap (λ k. reverse_aux (print (ast r)) (k ∷ push l ts)) (same_op o)
    ∙ ap (λ k. reverse_aux (print (ast r)) (mark (op_type (op_of o)) ∷ k)) (push-reverse l ts)
    ∙ sym (reverse_aux-append (print (ast l)) (mark (op_type (op_of o)) ∷ print (ast r)) ts)
push-reverse (spaced t) ts = push-reverse t ts

length-reverse_aux : (l r : List Token) → length (reverse_aux l r) ≡ length l + length r
length-reverse_aux [] r = omega arith
length-reverse_aux (x ∷ l) r = length-reverse_aux l (x ∷ r) ∙ omega arith

make_token-text :
    (t : Tree) → length (text t) ≤ max_tokens → make_token (text t) ≡ ok (some (push t []))
unfolding make_token token_loop
make_token-text t few =
    ap (λ s. make_token s) (sym (append-nil (text t)))
    ∙ ends (text-Step t 0 [] [] (omega (arith, few)) (length (text t ++ [])) (omega arith))
  where
    ends :
        Leads (length (text t ++ [])) [] (text t ++ []) (push t []) []
        → make_token (text t ++ []) ≡ ok (some (push t []))
    ends l = l.runs

-- Where a tree of the generator has numbers below 1000 and is the one that C reads from its text, and the
-- text has at most 63715 characters, expr computes the value that C gives the expression, and runs into its
-- assertion where it divides by zero, whatever the registers and the memory hold.
pub expr-value :
    (env : Env) (t : Tree)
    → IsSmall t
    → IsParsed (ast t)
    → length (text t) ≤ max_tokens
    → expr env (text t) ≡ (value t >>= λ v. ok (some v))
unfolding expr
expr-value env t small parsed few = rw (make_token-text t few) (
    ap (λ r. r >>= λ v. ok (some v))
      (ap (eval env (length (push t []) + 1)) back
        ∙ eval-denote env (ast t) (length (push t []) + 1) parsed (omega (arith, length-push_print))
        ∙ denote-value env t small))
  where
    back : reverse (push t []) ≡ print (ast t)
    back = ap reverse (push-reverse t []) ∙ reverse-reverse (print (ast t))

    length-push_print : length (push t []) ≡ length (print (ast t))
    length-push_print =
        ap (λ (l : List Token). length l) (push-reverse t [])
        ∙ length-reverse_aux (print (ast t)) []
        ∙ omega arith
