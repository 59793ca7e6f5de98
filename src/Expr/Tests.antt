-- ===== src/Expr/Tests.antt =====
-- The evaluator on examples.
use nju_ics2020_pa.Base.{ℕ, ◌≡◌, refl, some, List, [], ◌∷◌, arith, stop, undefined}
use nju_ics2020_pa.Expr.Token.{Token, tk_plus, tk_lbrkt, tk_num, tk_reg, TokenType}
use nju_ics2020_pa.Expr.Eval.{Env, eval}
use nju_ics2020_pa.Expr.Eval.Grammar.{Ast, leaf, paren, bin, plus, mux, print, denote}
use nju_ics2020_pa.Expr.Eval.Correct.{eval-denote}
use nju_ics2020_pa.Expr.Eval.Total.{Ends, eval-Ends}

abbrev env : Env
env = record { reg_str2val = λ s. some 7; host_word = λ a. stop undefined }

abbrev num : ℕ → Token
num c = record { type = tk_num; str = c ∷ [] }

abbrev reg : Token
reg = record { type = tk_reg; str = b'e' ∷ b'a' ∷ b'x' ∷ [] }

abbrev op : TokenType → Token
op t = record { type = t; str = [] }

-- $eax + 2 * (3 + 1)
abbrev tree : Ast
tree =
    bin plus (leaf reg)
      (bin mux (leaf (num b'2')) (paren (bin plus (leaf (num b'3')) (leaf (num b'1')))))

eval-denote_example : eval env 9 (print tree) ≡ denote env tree
eval-denote_example =
    eval-denote env tree 9
      (
        omega arith,
        omega arith,
        refl,
        (omega arith, omega arith, refl, (omega arith, omega arith, refl, refl)),
      )
      (unfold print in omega arith)

-- `(1 +` is no expression.
abbrev broken : List Token
broken = op tk_lbrkt ∷ num b'1' ∷ op tk_plus ∷ []

eval-Ends_example : Ends (eval env 4 broken)
eval-Ends_example = eval-Ends env 4 broken (λ a e. absurd (ground arith)) (omega arith)
