-- ===== src/Expr/Eval/Correct.antt =====
-- `eval` computes the value of the expression that its tokens spell.
use nju_ics2020_pa.Base.{
  ℕ, zero, suc, ◌≤◌, ◌≡◌, refl, List, [], ◌∷◌, ◌++◌, Result, ◌>>=◌, length, take, drop, arith, ap,
  ◌∙◌, take-append-left,
}
use nju_ics2020_pa.Expr.Token.{Token}
use nju_ics2020_pa.Expr.Eval.{Env, eval, eval_many, apply_op}
use nju_ics2020_pa.Expr.Eval.Grammar.{
  Ast, leaf, paren, bin, BinOp, plus, sub, mux, div, eq, neq, and, op_type, op_value, mark, print,
  denote, IsParsed, length-print_pos,
}
use nju_ics2020_pa.Expr.Eval.Brackets.{check_parentheses-bin, check_parentheses-paren, inside-paren}
use nju_ics2020_pa.Expr.Eval.MainOp.{scan-bin_top, length-bin, length-paren}

pub eval-many :
    (env : Env) (fuel : ℕ) (ts : List Token)
    → 2 ≤ length ts
    → eval env (suc fuel) ts ≡ eval_many (eval env fuel) ts
unfolding eval
eval-many env fuel [] h = absurd (omega arith)
eval-many env fuel (t ∷ []) h = absurd (omega arith)
eval-many env fuel (t ∷ u ∷ ts) h = refl

apply_op-op_value : (o : BinOp) (a b : ℕ) → apply_op (op_type o) a b ≡ op_value o a b
unfolding apply_op
apply_op-op_value plus a b = refl
apply_op-op_value sub a b = refl
apply_op-op_value mux a b = refl
apply_op-op_value div a zero = refl
apply_op-op_value div a (suc b) = ground arith
apply_op-op_value eq a b = refl
apply_op-op_value neq a b = refl
apply_op-op_value and a b = refl

eval_many-paren :
    (rec : List Token → Result ℕ) (e : Ast)
    → IsParsed e
    → eval_many rec (print (paren e)) ≡ rec (print e)
unfolding eval_many
eval_many-paren rec e h = rw (check_parentheses-paren e h) (ap rec (inside-paren e))

drop-suc-append : (xs ys : List Token) (t : Token) → drop (suc (length xs)) (xs ++ t ∷ ys) ≡ ys
drop-suc-append [] ys t = refl
drop-suc-append (x ∷ xs) ys t = drop-suc-append xs ys t

take-print : (o : BinOp) (l r : Ast) → take (length (print l)) (print (bin o l r)) ≡ print l
unfolding print
take-print o l r = take-append-left (print l) (mark (op_type o) ∷ print r)

drop-print : (o : BinOp) (l r : Ast) → drop (suc (length (print l))) (print (bin o l r)) ≡ print r
unfolding print
drop-print o l r = drop-suc-append (print l) (print r) (mark (op_type o))

eval_many-bin :
    (rec : List Token → Result ℕ) (o : BinOp) (l r : Ast) (vl vr : Result ℕ)
    → IsParsed (bin o l r)
    → rec (print l) ≡ vl
    → rec (print r) ≡ vr
    → eval_many rec (print (bin o l r)) ≡ (vl >>= λ a. vr >>= λ b. op_value o a b)
unfolding eval_many
eval_many-bin rec o l r vl vr h el er =
    rw
      (
        check_parentheses-bin o l r h,
        scan-bin_top o l r h,
        take-print o l r,
        drop-print o l r,
        el,
        er,
      )
      (simp apply_op-op_value)

-- With one unit of fuel for each token, the evaluator computes the value of the expression, or runs
-- into the assertion or the undefined access that computing this value runs into first.
pub eval-denote :
    (env : Env) (e : Ast) (fuel : ℕ)
    → IsParsed e
    → length (print e) ≤ fuel
    → eval env fuel (print e) ≡ denote env e
unfolding eval denote
eval-denote env e zero h enough = absurd (omega (arith, length-print_pos e))
eval-denote env (leaf t) (suc fuel) h enough = unfold print in refl
eval-denote env (paren a) (suc fuel) h enough =
    eval-many env fuel (print (paren a)) (omega (arith, length-paren a))
    ∙ eval_many-paren (eval env fuel) a h
    ∙ eval-denote env a fuel h (omega (arith, length-paren a))
eval-denote env (bin o l r) (suc fuel) h enough =
    eval-many env fuel (print (bin o l r))
      (omega (arith, length-bin o l r, length-print_pos l, length-print_pos r))
    ∙ eval_many-bin (eval env fuel) o l r (denote env l) (denote env r) h
        (eval-denote env l fuel h.2 (omega (arith, length-bin o l r)))
        (eval-denote env r fuel h.3 (omega (arith, length-bin o l r)))
