-- ===== src/GenExpr/Tests.antt =====
-- The generator of expressions on examples.
use nju_ics2020_pa.Base.{
  ltb, length, if◌then◌else◌, ℕ, ◌≡◌, refl, true, none, some, List, [], ◌∷◌, ◌++◌, ok, stop,
  undefined, ◌>>=◌, arith,
}
use nju_ics2020_pa.Base.Bytes.{copy}
use nju_ics2020_pa.Expr.{expr}
use nju_ics2020_pa.Expr.Eval.{Env}
use nju_ics2020_pa.GenExpr.{
  Build, refused, number, gen_rand_expr, gen_case, gen_rand_op, gen_num, gen, put, decimal, started,
}
use nju_ics2020_pa.GenExpr.Grammar.{plus, times, Tree, num, paren, bin, spaced, text, codes}
use nju_ics2020_pa.GenExpr.Written.Parts.{Writes}
use nju_ics2020_pa.GenExpr.Written.{IsText, gen_rand_expr-Writes}
use nju_ics2020_pa.GenExpr.Drawn.{state, appended, gen_rand_expr-text}
use nju_ics2020_pa.GenExpr.Evaluated.{value, expr-value}

-- `2U+ (3U*40U)`
abbrev tree : Tree
tree = bin plus (num 2) (spaced (paren (bin times (num 3) (num 40))))

-- `2+(3*40)` in the random numbers, and some more.
abbrev rands : List ℕ
rands = 6 ∷ 4 ∷ 1002 ∷ 0 ∷ 3 ∷ 1 ∷ 2 ∷ 0 ∷ 3 ∷ 2 ∷ 0 ∷ 40 ∷ 9 ∷ 9 ∷ []

gen_rand_expr_run :
    (m : ℕ → ℕ)
    → gen_rand_expr 5 (state m 7 rands) ≡ ok (true, appended (text tree) m 7 (9 ∷ 9 ∷ []))
unfolding gen_rand_expr gen_case gen_rand_op gen_num gen put decimal copy text
gen_rand_expr_run m = refl

abbrev env : Env
env = record { reg_str2val = λ s. none; host_word = λ a. stop undefined }

expr-value_example : expr env (text tree) ≡ (value tree >>= λ v. ok (some v))
expr-value_example =
    expr-value env tree (omega arith, (omega arith, omega arith))
      (omega arith, omega arith, refl, (omega arith, omega arith, refl, refl))
      (unfold text decimal in omega arith)

gen_rand_expr-Writes_example : Writes (started rands) IsText (gen_rand_expr 5 (started rands))
gen_rand_expr-Writes_example = gen_rand_expr-Writes 5 (started rands) (omega arith)

gen_rand_expr-text_example :
    gen_rand_expr 12 (state (λ i. 0) 7 (codes tree ++ 9 ∷ []))
    ≡ ok (true, appended (text tree) (λ i. 0) 7 (9 ∷ []))
gen_rand_expr-text_example =
    gen_rand_expr-text tree 12 (λ i. 0) 7 (9 ∷ []) (omega arith, (omega arith, omega arith))
      (unfold codes in omega arith) (unfold text decimal in omega arith)

-- A compiler that takes short programs.
abbrev host : List ℕ → Build
host s = if ltb (length s) 200 then number 122 else refused
