-- ===== src/GenExpr/Grammar.antt =====
-- The grammar of what is generated, and the random numbers that lead to a tree of it. Not code.
use nju_ics2020_pa.Base.{ℕ, ◌<◌, List, [], ◌∷◌, ◌++◌}
use nju_ics2020_pa.GenExpr.{ran_num_str}

pub data Op : Type 0 where
  plus minus times over : Op

pub data Tree : Type 0 where
  num : ℕ → Tree
  paren : Tree → Tree
  bin : Op → Tree → Tree → Tree
  spaced : Tree → Tree

abbrev pub op_char : Op → ℕ
op_char plus = b'+'
op_char minus = b'-'
op_char times = b'*'
op_char over = b'/'

unfoldable pub text : Tree → List ℕ
text (num n) = ran_num_str n
text (paren t) = b'(' ∷ (text t ++ b')' ∷ [])
text (bin o l r) = text l ++ op_char o ∷ text r
text (spaced t) = b' ' ∷ text t

-- Numbers have at most three digits.
abbrev pub IsSmall : Tree → Type 0
IsSmall (num n) = n < 1000
IsSmall (paren t) = IsSmall t
IsSmall (bin o l r) = IsSmall l × IsSmall r
IsSmall (spaced t) = IsSmall t

abbrev pub op_code : Op → ℕ
op_code plus = 0
op_code minus = 1
op_code times = 2
op_code over = 3

-- The random numbers.
unfoldable pub codes : Tree → List ℕ
codes (num n) = 0 ∷ n ∷ []
codes (paren t) = 1 ∷ codes t
codes (bin o l r) = 2 ∷ codes l ++ op_code o ∷ codes r
codes (spaced t) = 3 ∷ codes t
