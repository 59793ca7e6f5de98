-- ===== src/Expr/Eval/MainOp.antt =====
-- The search for the main operator on the tokens of an expression.
use mathlib.Core.List.{append_assoc, append-nil}
use nju_ics2020_pa.Base.{
  ℕ, suc, ◌+◌, ◌≤◌, ◌<◌, ◌≡◌, refl, false, List, [], ◌∷◌, ◌++◌, ltb, ◌==◌, ok, length, arith,
  length-append, ap, sym, ◌∙◌, subst, Option, none, some,
}
use nju_ics2020_pa.Expr.Token.{
  TokenType, tk_lbrkt, tk_rbrkt, Token, token_is_vaild_op, get_precedence, priority_is_higher,
  priority_is_higher-ok,
}
use nju_ics2020_pa.Expr.Eval.{Scan, scan, scan_step}
use nju_ics2020_pa.Expr.Eval.Grammar.{
  Ast, leaf, paren, bin, BinOp, op_type, op_level, level, mark, print, IsParsed, op_valid,
  precedence-op_level, precedence_lt,
}

abbrev pub at : ℕ → Option (ℕ × TokenType) → Scan
at n m = record { need_brkt = n; main_op = m }

abbrev Main : Type 0
Main = Option (ℕ × TokenType)

step-leaf :
    (i : ℕ) (t : TokenType) (s : Scan) → token_is_vaild_op t ≡ false → scan_step i t s ≡ ok s
unfolding scan_step
step-leaf i t s h = rw h

step-close : (i n : ℕ) (m : Main) → scan_step i tk_rbrkt (at n m) ≡ ok (at (n + 1) m)
unfolding scan_step
step-close i n m = refl

step-open : (i n : ℕ) (m : Main) → scan_step i tk_lbrkt (at (suc n) m) ≡ ok (at n m)
unfolding scan_step
step-open i n m =
    let deep : (suc n == 0) ≡ false = ground arith in rw deep (ap (λ k. ok (at k m)) (omega arith))

step-skip :
    (i n : ℕ) (o : BinOp) (m : Main) → scan_step i (op_type o) (at (suc n) m) ≡ ok (at (suc n) m)
unfolding scan_step
step-skip i n o m = ground arith

step-first :
    (i : ℕ) (o : BinOp) → scan_step i (op_type o) (at 0 none) ≡ ok (at 0 (some (i, op_type o)))
unfolding scan_step
step-first i o = ground arith

higher_lem :
    (a b : BinOp)
    → priority_is_higher (op_type a) (op_type b)
      ≡ ok (ltb (get_precedence (op_type a)) (get_precedence (op_type b)))
higher_lem a b = priority_is_higher-ok (op_type a) (op_type b) (op_valid a) (op_valid b)

step-keep :
    (i k : ℕ) (a b : BinOp)
    → op_level b ≤ op_level a
    → scan_step i (op_type b) (at 0 (some (k, op_type a))) ≡ ok (at 0 (some (k, op_type a)))
unfolding scan_step
step-keep i k a b h = ground (arith, higher_lem a b, precedence-op_level b a h)

step-replace :
    (i k : ℕ) (a b : BinOp)
    → op_level a < op_level b
    → scan_step i (op_type b) (at 0 (some (k, op_type a))) ≡ ok (at 0 (some (i, op_type b)))
unfolding scan_step
step-replace i k a b h = ground (arith, higher_lem a b, precedence_lt a b h)

scan-cons :
    (i : ℕ) (t : Token) (ts : List Token) (s : Scan)
    → scan (suc i) ts ≡ ok s
    → scan i (t ∷ ts) ≡ scan_step i t.type s
unfolding scan
scan-cons i t ts s h = rw h

scan-at : (i j : ℕ) (ts : List Token) (s : Scan) → i ≡ j → scan i ts ≡ ok s → scan j ts ≡ ok s
scan-at i j ts s e h = subst (λ k. scan k ts ≡ ok s) e h

add_one : (n : ℕ) → n + 1 ≡ suc n
add_one n = omega arith

-- Two parts of a token list, scanned one after the other.
scan-paren :
    (i : ℕ) (e : Ast) (rest : List Token) (s : Scan)
    → scan i (mark tk_lbrkt ∷ (print e ++ mark tk_rbrkt ∷ rest)) ≡ ok s
    → scan i (print (paren e) ++ rest) ≡ ok s
unfolding print
scan-paren i e rest s h =
    ap (λ l. scan i (mark tk_lbrkt ∷ l)) (append_assoc (print e) (mark tk_rbrkt ∷ []) rest) ∙ h

scan-bin :
    (i : ℕ) (o : BinOp) (l r : Ast) (rest : List Token) (s : Scan)
    → scan i (print l ++ mark (op_type o) ∷ (print r ++ rest)) ≡ ok s
    → scan i (print (bin o l r) ++ rest) ≡ ok s
unfolding print
scan-bin i o l r rest s h =
    ap (scan i) (append_assoc (print l) (mark (op_type o) ∷ print r) rest) ∙ h

pub length-paren : (e : Ast) → length (print (paren e)) ≡ length (print e) + 2
unfolding print
length-paren e = omega (arith, length-append (print e) (mark tk_rbrkt ∷ []))

pub length-bin :
    (o : BinOp) (l r : Ast) → length (print (bin o l r)) ≡ length (print l) + length (print r) + 1
unfolding print
length-bin o l r = omega (arith, length-append (print l) (mark (op_type o) ∷ print r))

length-leaf : (t : Token) → length (print (leaf t)) ≡ 1
unfolding print
length-leaf t = refl

-- Under open brackets an expression changes nothing.
scan-inside :
    (e : Ast) (i j n : ℕ) (m : Main) (rest : List Token)
    → IsParsed e
    → i + length (print e) ≡ j
    → scan j rest ≡ ok (at (suc n) m)
    → scan i (print e ++ rest) ≡ ok (at (suc n) m)
scan-inside (leaf t) i j n m rest h e k =
    unfold print in
    scan-cons i t rest (at (suc n) m) (scan-at j (suc i) rest _ (omega (arith, length-leaf t)) k)
    ∙ step-leaf i t.type (at (suc n) m) h
scan-inside (paren a) i j n m rest h e k = scan-paren i a rest (at (suc n) m) (
    scan-cons i (mark tk_lbrkt) (print a ++ mark tk_rbrkt ∷ rest) (at (suc (suc n)) m) (
      scan-inside a (suc i) (suc i + length (print a)) (suc n) m (mark tk_rbrkt ∷ rest) h refl (
        scan-cons _ (mark tk_rbrkt) rest (at (suc n) m)
          (scan-at j _ rest _ (omega (arith, length-paren a)) k)
        ∙ step-close _ (suc n) m
        ∙ ap (λ c. ok (at c m)) (add_one (suc n))))
    ∙ step-open i (suc n) m)
scan-inside (bin o l r) i j n m rest h e k = scan-bin i o l r rest (at (suc n) m) (
    scan-inside l i (i + length (print l)) n m (mark (op_type o) ∷ (print r ++ rest)) h.2 refl (
      scan-cons _ (mark (op_type o)) (print r ++ rest) (at (suc n) m) (
        scan-inside r (suc (i + length (print l))) j n m rest h.3 (omega (arith, length-bin o l r))
          k)
      ∙ step-skip _ n o m))

scan-brackets :
    (a : Ast) (i j : ℕ) (m : Main) (rest : List Token)
    → IsParsed a
    → i + length (print (paren a)) ≡ j
    → scan j rest ≡ ok (at 0 m)
    → scan i (print (paren a) ++ rest) ≡ ok (at 0 m)
scan-brackets a i j m rest h e k = scan-paren i a rest (at 0 m) (
    scan-cons i (mark tk_lbrkt) (print a ++ mark tk_rbrkt ∷ rest) (at 1 m) (
      scan-inside a (suc i) (suc i + length (print a)) 0 m (mark tk_rbrkt ∷ rest) h refl (
        scan-cons _ (mark tk_rbrkt) rest (at 0 m)
          (scan-at j _ rest _ (omega (arith, length-paren a)) k)
        ∙ step-close _ 0 m
        ∙ ap (λ c. ok (at c m)) (add_one 0)))
    ∙ step-open i 0 m)

-- An operator at least as loose as every operator of the expression stays the best.
scan-keep :
    (e : Ast) (i j k : ℕ) (o : BinOp) (rest : List Token)
    → IsParsed e
    → level e ≤ op_level o
    → i + length (print e) ≡ j
    → scan j rest ≡ ok (at 0 (some (k, op_type o)))
    → scan i (print e ++ rest) ≡ ok (at 0 (some (k, op_type o)))
scan-keep (leaf t) i j k o rest h lv e p =
    unfold print in
    scan-cons i t rest _ (scan-at j (suc i) rest _ (omega (arith, length-leaf t)) p)
    ∙ step-leaf i t.type (at 0 (some (k, op_type o))) h
scan-keep (paren a) i j k o rest h lv e p = scan-brackets a i j (some (k, op_type o)) rest h e p
scan-keep (bin b l r) i j k o rest h lv e p = scan-bin i b l r rest (at 0 (some (k, op_type o))) (
    scan-keep l i (i + length (print l)) k o (mark (op_type b) ∷ (print r ++ rest)) h.2
      (omega (arith, h.0)) refl
      (scan-cons _ (mark (op_type b)) (print r ++ rest) (at 0 (some (k, op_type o))) (
          scan-keep r (suc (i + length (print l))) j k o rest h.3 (omega (arith, h.1))
            (omega (arith, length-bin b l r)) p)
        ∙ step-keep _ k o b lv))

-- The main operator of a tree whose first token is at `i`.
abbrev pub top : ℕ → Ast → Main
top i (leaf t) = none
top i (paren e) = none
top i (bin o l r) = some (i + length (print l), op_type o)

step-top :
    (i k : ℕ) (o : BinOp) (r : Ast)
    → level r < op_level o
    → scan_step i (op_type o) (at 0 (top k r)) ≡ ok (at 0 (some (i, op_type o)))
step-top i k o (leaf t) h = step-first i o
step-top i k o (paren e) h = step-first i o
step-top i k o (bin b l r) h = step-replace i _ b o h

scan-top :
    (e : Ast) (i j : ℕ) (rest : List Token)
    → IsParsed e
    → i + length (print e) ≡ j
    → scan j rest ≡ ok (at 0 none)
    → scan i (print e ++ rest) ≡ ok (at 0 (top i e))
scan-top (leaf t) i j rest h e p =
    unfold print in
    scan-cons i t rest (at 0 none) (scan-at j (suc i) rest _ (omega (arith, length-leaf t)) p)
    ∙ step-leaf i t.type (at 0 none) h
scan-top (paren a) i j rest h e p = scan-brackets a i j none rest h e p
scan-top (bin o l r) i j rest h e p = scan-bin i o l r rest (at 0 (top i (bin o l r))) (
    scan-keep l i (i + length (print l)) _ o (mark (op_type o) ∷ (print r ++ rest)) h.2 h.0 refl (
      scan-cons _ (mark (op_type o)) (print r ++ rest) _
        (scan-top r (suc (i + length (print l))) j rest h.3 (omega (arith, length-bin o l r)) p)
      ∙ step-top _ _ o r h.1))

-- The search over the tokens of an expression with an operator outside brackets ends at the one that
-- is evaluated last.
pub scan-bin_top :
    (o : BinOp) (l r : Ast)
    → IsParsed (bin o l r)
    → scan 0 (print (bin o l r)) ≡ ok (at 0 (some (length (print l), op_type o)))
unfolding scan
scan-bin_top o l r h =
    ap (scan 0) (sym (append-nil (print (bin o l r))))
    ∙ scan-top (bin o l r) 0 (length (print (bin o l r))) [] h (omega arith) refl
    ∙ ap (λ k. ok (at 0 (some (k, op_type o)))) (omega arith)
