-- ===== src/Expr/Eval/Brackets.antt =====
-- `check_parentheses` on the tokens of an expression.
use mathlib.Core.List.{append_assoc, append-nil}
use nju_ics2020_pa.Base.{
  ℕ, suc, ◌+◌, ◌-◌, ◌≤◌, ◌<◌, ◌≡◌, refl, Bool, true, false, not, ◌&&◌, List, [], ◌∷◌, ◌++◌, leb,
  ◌==◌, if◌then◌else◌, ok, length, take, drop, arith, length-append, ap, sym, ◌∙◌, inl, inr,
  Bool-cases, subst, take-append-left, length-drop,
}
use nju_ics2020_pa.Expr.Token.{tk_lbrkt, tk_rbrkt, Token, token_is_vaild_op, same_type}
use nju_ics2020_pa.Expr.Eval.{bracket_loop, check_parentheses, inside, first_type, last_type}
use nju_ics2020_pa.Expr.Eval.Grammar.{
  Ast, leaf, paren, bin, BinOp, op_type, mark, print, IsParsed, length-print_pos,
}

bracket_loop-nil : bracket_loop 0 [] ≡ true
unfolding bracket_loop
bracket_loop-nil = refl

bracket_loop-open :
    (n : ℕ) (ts : List Token) → bracket_loop n (mark tk_lbrkt ∷ ts) ≡ bracket_loop (suc n) ts
unfolding bracket_loop
bracket_loop-open n ts = refl

pred-suc : (n : ℕ) → suc n - 1 ≡ n
pred-suc n = omega arith

bracket_loop-close :
    (n : ℕ) (ts : List Token) → bracket_loop (suc n) (mark tk_rbrkt ∷ ts) ≡ bracket_loop n ts
unfolding bracket_loop
bracket_loop-close n ts =
    let more : (suc n == 0) ≡ false = ground arith in
    rw more (ap (λ k. bracket_loop k ts) (pred-suc n))

bracket_loop-op :
    (n : ℕ) (o : BinOp) (ts : List Token)
    → bracket_loop n (mark (op_type o) ∷ ts) ≡ bracket_loop n ts
unfolding bracket_loop
bracket_loop-op n o ts = ground arith

bracket_loop-leaf :
    (n : ℕ) (t : Token) (ts : List Token)
    → token_is_vaild_op t.type ≡ false
    → bracket_loop n (t ∷ ts) ≡ bracket_loop n ts
unfolding bracket_loop
bracket_loop-leaf n t ts h = ground arith

-- The tokens of an expression leave the number of open brackets as it is.
pub bracket_loop-print :
    (n : ℕ) (e : Ast) (rest : List Token)
    → IsParsed e
    → bracket_loop n (print e ++ rest) ≡ bracket_loop n rest
unfolding print
bracket_loop-print n (leaf t) rest h = bracket_loop-leaf n t rest h
bracket_loop-print n (paren e) rest h =
    bracket_loop-open n _
    ∙ ap (bracket_loop (suc n)) (append_assoc (print e) (mark tk_rbrkt ∷ []) rest)
    ∙ bracket_loop-print (suc n) e (mark tk_rbrkt ∷ rest) h
    ∙ bracket_loop-close n rest
bracket_loop-print n (bin o l r) rest h =
    ap (bracket_loop n) (append_assoc (print l) (mark (op_type o) ∷ print r) rest)
    ∙ bracket_loop-print n l (mark (op_type o) ∷ (print r ++ rest)) h.2
    ∙ bracket_loop-op n o _
    ∙ bracket_loop-print n r rest h.3

-- A closing bracket too many is found wherever it stands.
bracket_loop-close_zero : (ts : List Token) → bracket_loop 0 (mark tk_rbrkt ∷ ts) ≡ false
unfolding bracket_loop
bracket_loop-close_zero ts = refl

drop_one-append : (xs ys : List Token) → 0 < length xs → drop 1 (xs ++ ys) ≡ drop 1 xs ++ ys
drop_one-append [] ys h = absurd (omega arith)
drop_one-append (x ∷ xs) ys h = refl

first_type-append : (xs ys : List Token) → 0 < length xs → first_type (xs ++ ys) ≡ first_type xs
first_type-append [] ys h = absurd (omega arith)
first_type-append (x ∷ xs) ys h = refl

-- Where an expression starts with `(`, the loop that skips it meets its partner with none open.
bracket_loop-skip_first :
    (e : Ast) (rest : List Token)
    → IsParsed e
    → same_type (first_type (print e)) tk_lbrkt ≡ true
    → bracket_loop 0 (drop 1 (print e) ++ rest) ≡ false
unfolding print
bracket_loop-skip_first (leaf u) rest h k = absurd (ground arith)
bracket_loop-skip_first (paren a) rest h k =
    ap (bracket_loop 0) (append_assoc (print a) (mark tk_rbrkt ∷ []) rest)
    ∙ bracket_loop-print 0 a (mark tk_rbrkt ∷ rest) h
    ∙ bracket_loop-close_zero rest
bracket_loop-skip_first (bin o l r) rest h k =
    let tail = mark (op_type o) ∷ print r in
    ap (λ ts. bracket_loop 0 (ts ++ rest)) (drop_one-append (print l) tail (length-print_pos l))
    ∙ ap (bracket_loop 0) (append_assoc (drop 1 (print l)) tail rest)
    ∙ bracket_loop-skip_first l (tail ++ rest) h.2
        (rw (← first_type-append (print l) tail (length-print_pos l)) k)

-- Counts that come out even do not with one more closing bracket.
bracket_loop-unclosed :
    (n : ℕ) (ts : List Token) (t : Token)
    → same_type t.type tk_rbrkt ≡ true
    → bracket_loop n ts ≡ true
    → bracket_loop n (ts ++ t ∷ []) ≡ false
unfolding bracket_loop
bracket_loop-unclosed n [] t k h = ground arith
bracket_loop-unclosed n (u ∷ ts) t k h = ground (
  arith,
  bracket_loop-unclosed (suc n) ts t,
  bracket_loop-unclosed (n - 1) ts t,
  bracket_loop-unclosed n ts t,
)

-- An expression that does not start with a bracket is even from its second token on.
bracket_loop-drop_first :
    (t : Token) (ts : List Token)
    → same_type t.type tk_lbrkt ≡ false
    → bracket_loop 0 (t ∷ ts) ≡ true
    → bracket_loop 0 ts ≡ true
unfolding bracket_loop
bracket_loop-drop_first t ts k h = ground arith

take-append : (xs ys : List Token) (n : ℕ) → take (length xs + n) (xs ++ ys) ≡ xs ++ take n ys
take-append [] ys n = ap (λ k. take k ys) (omega arith)
take-append (x ∷ xs) ys n =
    ap (λ k. take k (x ∷ (xs ++ ys))) (suc-add (length xs) n)
    ∙ ap (λ l. x ∷ l) (take-append xs ys n)
  where
    suc-add : (a b : ℕ) → suc a + b ≡ suc (a + b)
    suc-add a b = omega arith

-- A list of two or more tokens, by its ends.
pub record Ends (ts : List Token) : Type 0 where
  pub first : Token
  pub middle : List Token
  pub last : Token
  pub whole : ts ≡ first ∷ (middle ++ last ∷ [])

Ends-pair : (t u : Token) (ts : List Token) → Ends (t ∷ u ∷ ts)
Ends-pair t u [] = record { first = t; middle = []; last = u; whole = refl }
Ends-pair t u (v ∷ ts) =
    let rest = Ends-pair u v ts in
    record {
      first = t;
      middle = rest.first ∷ rest.middle;
      last = rest.last;
      whole = ap (λ l. t ∷ l) rest.whole;
    }

last_type-append : (xs : List Token) (t : Token) → last_type (xs ++ t ∷ []) ≡ t.type
last_type-append [] t = refl
last_type-append (x ∷ []) t = refl
last_type-append (x ∷ y ∷ xs) t = last_type-append (y ∷ xs) t

inside-ends : (t u : Token) (ts : List Token) → inside (t ∷ (ts ++ u ∷ [])) ≡ ts
inside-ends t u ts =
    ap (λ n. take n (ts ++ u ∷ [])) (omega (arith, length-append ts (u ∷ [])))
    ∙ take-append-left ts (u ∷ [])

ends_lem : (ts : List Token) → 2 ≤ length ts → Ends ts
ends_lem [] h = absurd (omega arith)
ends_lem (t ∷ []) h = absurd (omega arith)
ends_lem (t ∷ u ∷ ts) h = Ends-pair t u ts

-- What `check_parentheses` returns once its assertion holds.
abbrev surrounded : List Token → Bool
surrounded ts =
    if not (same_type (first_type ts) tk_lbrkt) && not (same_type (last_type ts) tk_rbrkt)
    then false
    else bracket_loop 0 (inside ts)

check_parentheses-ok : (ts : List Token) → 3 ≤ length ts → check_parentheses ts ≡ ok (surrounded ts)
unfolding check_parentheses
check_parentheses-ok ts h = let big : leb 3 (length ts) ≡ true = ground arith in rw big

surrounded-open :
    (ts : List Token)
    → same_type (first_type ts) tk_lbrkt ≡ true
    → surrounded ts ≡ bracket_loop 0 (inside ts)
surrounded-open ts h = rw h

surrounded-ends :
    (t u : Token) (m : List Token)
    → surrounded (t ∷ (m ++ u ∷ [])) ≡ (
        if not (same_type t.type tk_lbrkt) && not (same_type u.type tk_rbrkt)
        then false
        else bracket_loop 0 m)
surrounded-ends t u m =
    ap
      (λ x.
        if not (same_type t.type tk_lbrkt) && not (same_type x tk_rbrkt)
        then false
        else bracket_loop 0 (inside (t ∷ (m ++ u ∷ []))))
      (last_type-append (t ∷ m) u)
    ∙ ap
        (λ x.
          if not (same_type t.type tk_lbrkt) && not (same_type u.type tk_rbrkt)
          then false
          else bracket_loop 0 x)
        (inside-ends t u m)

-- An expression in brackets is recognised.
pub check_parentheses-paren : (e : Ast) → IsParsed e → check_parentheses (print (paren e)) ≡ ok true
unfolding print
check_parentheses-paren e h =
    check_parentheses-ok (print (paren e))
      (omega (arith, length-append (print e) (mark tk_rbrkt ∷ []), length-print_pos e))
    ∙ ap (λ (b : Bool). ok b)
        (surrounded-ends (mark tk_lbrkt) (mark tk_rbrkt) (print e)
          ∙ ap (bracket_loop 0) (sym (append-nil (print e)))
          ∙ bracket_loop-print 0 e [] h
          ∙ bracket_loop-nil)

pub inside-paren : (e : Ast) → inside (print (paren e)) ≡ print e
unfolding print
inside-paren e = inside-ends (mark tk_lbrkt) (mark tk_rbrkt) (print e)

module _ (o : BinOp) (l r : Ast) (h : IsParsed (bin o l r)) where
  abbrev tail : List Token
  tail = mark (op_type o) ∷ print r

  inside-bin : inside (print l ++ tail) ≡ drop 1 (print l) ++ take (length (print r)) tail
  inside-bin =
      ap (take (length (print l ++ tail) - 2)) (drop_one-append (print l) tail (length-print_pos l))
      ∙ ap (λ n. take n (drop 1 (print l) ++ tail))
          (omega (arith, length-append (print l) tail, length-drop 1 (print l), length-print_pos l))
      ∙ take-append (drop 1 (print l)) tail (length (print r))

  surrounded-bin_open :
      same_type (first_type (print l ++ tail)) tk_lbrkt ≡ true
      → surrounded (print l ++ tail) ≡ false
  surrounded-bin_open k =
      surrounded-open (print l ++ tail) k
      ∙ ap (bracket_loop 0) inside-bin
      ∙ bracket_loop-skip_first l (take (length (print r)) tail) h.2
          (rw (← first_type-append (print l) tail (length-print_pos l)) k)

  even : bracket_loop 0 (print l ++ tail) ≡ true
  unfolding print bracket_loop
  even =
      ap (bracket_loop 0) (sym (append-nil (print l ++ tail)))
      ∙ bracket_loop-print 0 (bin o l r) [] h

  surrounded-bin_shut :
      (e : Ends (print l ++ tail))
      → same_type e.first.type tk_lbrkt ≡ false
      → surrounded (print l ++ tail) ≡ false
  surrounded-bin_shut e k = ground (
    arith,
    ap surrounded e.whole,
    surrounded-ends e.first e.last e.middle,
    bracket_loop-unclosed 0 e.middle e.last,
    bracket_loop-drop_first e.first (e.middle ++ e.last ∷ []),
    even,
    ap (bracket_loop 0) e.whole,
  )

  -- Two operands joined by an operator are not taken for one expression in brackets.
  pub check_parentheses-bin : check_parentheses (print (bin o l r)) ≡ ok false
  unfolding print
  check_parentheses-bin =
      let long : 3 ≤ length (print l ++ tail) =
        omega (arith, length-append (print l) tail, length-print_pos l, length-print_pos r) in
      let e = ends_lem (print l ++ tail) (omega arith) in
      check_parentheses-ok (print l ++ tail) long
      ∙ ap (λ (b : Bool). ok b)
          (elim (Bool-cases (same_type e.first.type tk_lbrkt)) [
            | inl open_ ↦
                surrounded-bin_open
                  (subst (λ ts. same_type (first_type ts) tk_lbrkt ≡ true) (sym e.whole) open_)
            | inr other ↦ surrounded-bin_shut e other
          ])
