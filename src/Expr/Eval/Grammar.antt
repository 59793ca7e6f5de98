-- ===== src/Expr/Eval/Grammar.antt =====
-- What the evaluator is to compute: expressions as trees, their tokens and their values.
use nju_ics2020_pa.Base.{
  ℕ, zero, suc, ◌+◌, ◌≤◌, ◌<◌, ◌≡◌, refl, true, false, List, [], ◌∷◌, ◌++◌, Result, ◌>>=◌, length,
  arith, length-append, assertion, stop, ok, if◌then◌else◌, ◌==◌, not, ◌%◌, ◌*◌, ◌/◌, ◌^◌, ◌-◌,
  ◌&&◌,
}
use nju_ics2020_pa.Expr.Token.{
  TokenType, tk_plus, tk_sub, tk_mux, tk_div, tk_lbrkt, tk_rbrkt, tk_eq, tk_neq, tk_and, Token,
  get_precedence, token_is_vaild_op,
}
use nju_ics2020_pa.Expr.Eval.{Env, eval_atom}

pub data BinOp : Type 0 where
  plus sub mux div eq neq and : BinOp

abbrev pub op_type : BinOp → TokenType
op_type plus = tk_plus
op_type sub = tk_sub
op_type mux = tk_mux
op_type div = tk_div
op_type eq = tk_eq
op_type neq = tk_neq
op_type and = tk_and

-- An operand is a token that is no operator.
pub data Ast : Type 0 where
  leaf : Token → Ast
  paren : Ast → Ast
  bin : BinOp → Ast → Ast → Ast

abbrev pub mark : TokenType → Token
mark t = record { type = t; str = [] }

unfoldable pub print : Ast → List Token
print (leaf t) = t ∷ []
print (paren e) = mark tk_lbrkt ∷ (print e ++ mark tk_rbrkt ∷ [])
print (bin o l r) = print l ++ mark (op_type o) ∷ print r

-- The levels of C for these operators, from the tightest: `* /`, then `+ -`, `== !=` and `&&`.
abbrev pub op_level : BinOp → ℕ
op_level mux = 1
op_level div = 1
op_level plus = 2
op_level sub = 2
op_level eq = 3
op_level neq = 3
op_level and = 4

abbrev pub level : Ast → ℕ
level (leaf t) = 0
level (paren e) = 0
level (bin o l r) = op_level o

-- The tree that C reads from its tokens: operators of one level group to the left.
abbrev pub IsParsed : Ast → Type 0
IsParsed (leaf t) = token_is_vaild_op t.type ≡ false
IsParsed (paren e) = IsParsed e
IsParsed (bin o l r) = (level l ≤ op_level o) × (level r < op_level o) × IsParsed l × IsParsed r

-- Arithmetic of `uint32_t`; division by zero is the program's assertion.
abbrev pub op_value : BinOp → ℕ → ℕ → Result ℕ
op_value plus a b = ok ((a + b) % 2 ^ 32)
op_value sub a b = ok ((a + 2 ^ 32 - b) % 2 ^ 32)
op_value mux a b = ok (a * b % 2 ^ 32)
op_value div a zero = stop assertion
op_value div a (suc b) = ok (a / suc b)
op_value eq a b = ok (if a == b then 1 else 0)
op_value neq a b = ok (if a == b then 0 else 1)
op_value and a b = ok (if not (a == 0) && not (b == 0) then 1 else 0)

unfoldable pub denote : Env → Ast → Result ℕ
denote env (leaf t) = eval_atom env t
denote env (paren e) = denote env e
denote env (bin o l r) = do a ← denote env l; b ← denote env r; op_value o a b

pub length-print_pos : (e : Ast) → 0 < length (print e)
unfolding print
length-print_pos (leaf t) = omega arith
length-print_pos (paren e) = omega arith
length-print_pos (bin o l r) = omega (arith, length-append (print l) (mark (op_type o) ∷ print r))

pub op_valid : (o : BinOp) → token_is_vaild_op (op_type o) ≡ true
op_valid plus = refl
op_valid sub = refl
op_valid mux = refl
op_valid div = refl
op_valid eq = refl
op_valid neq = refl
op_valid and = refl

-- The precedences of the table order the operators as the levels do.
pub precedence-op_level :
    (a b : BinOp)
    → op_level a ≤ op_level b
    → get_precedence (op_type a) ≤ get_precedence (op_type b)
precedence-op_level a b h = ground arith

pub precedence_lt :
    (a b : BinOp)
    → op_level a < op_level b
    → get_precedence (op_type a) < get_precedence (op_type b)
precedence_lt a b h = ground arith
