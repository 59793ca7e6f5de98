-- ===== src/GenExpr.antt =====
-- nemu/tools/gen-expr/gen-expr.c: random expressions, and their values by the C compiler.
pub mod Grammar
pub mod Written
pub mod Main
pub mod Drawn
pub mod Lexed
pub mod Evaluated
mod Tests
use nju_ics2020_pa.Base.{
  ℕ, zero, suc, ◌+◌, ◌-◌, ◌/◌, ◌%◌, Bool, true, false, Option, none, some, List, [], ◌∷◌, ◌++◌,
  length, ltb, leb, ◌==◌, if◌then◌else◌, update, Result, ok, stop, assertion, undefined,
  out_of_fuel, ◌>>=◌, ◌>>◌, defined,
}
use nju_ics2020_pa.Base.Bytes.{Bytes, copy}

-- The static variables, and what `rand` is to return. A run looks at finitely many of these numbers, and
-- stops with `out_of_fuel` where the list ends.
pub record Gen : Type 0 where
  pub buf : Bytes
  pub buf_index : ℕ
  pub rands : List ℕ

abbrev pub max_index : ℕ
max_index = 65536

abbrev pub choose : ℕ → Gen → Result (ℕ × Gen)
choose n g = elim (g.rands) [
  | [] ↦ stop out_of_fuel
  | r ∷ rands ↦ ok (r % n, record g { rands = rands })
]

-- `memcpy(buf + buf_index, s, len); buf_index += len`, and `buf[buf_index++] = c` for one character.
unfoldable pub put : List ℕ → Gen → Result (Bool × Gen)
put s g =
    defined (leb (g.buf_index + length s) max_index)
    >> ok (true, record g { buf = copy g.buf g.buf_index s; buf_index = g.buf_index + length s })

unfoldable pub gen : ℕ → Gen → Result (Bool × Gen)
gen c g = if leb (max_index - 1) g.buf_index then ok (false, g) else put (c ∷ []) g

-- `%d` of a number that is not negative, of at most `fuel` digits.
unfoldable pub decimal : ℕ → ℕ → List ℕ
decimal zero n = []
decimal (suc fuel) n =
    let rest = decimal fuel (n / 10) in
    if ltb n 10 then (b'0' + n) ∷ [] else rest ++ (b'0' + n % 10) ∷ []

-- A number of 32 bits has at most ten digits.
abbrev pub ran_num_str : ℕ → List ℕ
ran_num_str n = decimal 10 n ++ b'U' ∷ []

unfoldable pub gen_num : Gen → Result (Bool × Gen)
gen_num g = do
  (ran_num, g₁) ← choose 1000 g
  let s = ran_num_str ran_num
  defined (ltb (length s) 12)
  if leb (max_index - 1) (g₁.buf_index + length s) then ok (false, g₁) else put s g₁

abbrev pub rand_op : ℕ → Result ℕ
rand_op zero = ok b'+'
rand_op (suc zero) = ok b'-'
rand_op (suc (suc zero)) = ok b'*'
rand_op (suc (suc (suc zero))) = ok b'/'
rand_op _ = stop assertion

unfoldable pub gen_rand_op : Gen → Result (Bool × Gen)
gen_rand_op g =
    if leb (max_index - 1) g.buf_index
    then ok (false, g)
    else (choose 4 g >>= λ x. rand_op x.0 >>= λ c. put (c ∷ []) x.1)

-- `if (false == ...) return false;`, and then the next call.
abbrev pub if_true : Result (Bool × Gen) → (Gen → Result (Bool × Gen)) → Result (Bool × Gen)
if_true r next = r >>= λ x. elim x.0 [ true ↦ next x.1 | false ↦ ok (false, x.1) ]

-- The `switch`, with the recursive calls as an argument.
unfoldable pub gen_case : (Gen → Result (Bool × Gen)) → ℕ → Gen → Result (Bool × Gen)
gen_case again zero g = gen_num g
gen_case again (suc zero) g = if_true (if_true (gen b'(' g) again) (gen b')')
gen_case again (suc (suc zero)) g = if_true (if_true (again g) gen_rand_op) again
gen_case again (suc (suc (suc c))) g = if_true (gen b' ' g) again

-- Fuel bounds the depth of the recursion.
unfoldable pub gen_rand_expr : ℕ → Gen → Result (Bool × Gen)
gen_rand_expr zero g = stop out_of_fuel
gen_rand_expr (suc fuel) g = choose 4 g >>= λ x. gen_case (gen_rand_expr fuel) x.0 x.1

-- `buf_index = 0; memset(buf, 0, 65535 * sizeof(char));`
abbrev pub reset : Gen → Gen
reset g = record g { buf = λ i. if ltb i 65535 then 0 else g.buf i; buf_index = 0 }

-- `while(gen_rand_expr() == false)`, with as much fuel for the rounds as for the recursion.
unfoldable pub gen_until : ℕ → ℕ → Gen → Result Gen
gen_until fuel zero g = stop out_of_fuel
gen_until fuel (suc rounds) g = gen_rand_expr fuel g >>= λ x. elim x.0 [
  | true ↦ ok x.1
  | false ↦ gen_until fuel rounds (reset x.1)
]

-- The C string at `p`, in an array that has `n` characters from there on.
unfoldable pub string_at : ℕ → Bytes → ℕ → Result (List ℕ)
string_at zero m p = stop undefined
string_at (suc n) m p =
    let rest = string_at n m (suc p) in if m p == 0 then ok [] else (rest >>= λ s. ok (m p ∷ s))

-- `code_format`, up to its `%s` and from there on.
abbrev pub code_head : List ℕ
code_head =
    b'#' ∷ b'i' ∷ b'n' ∷ b'c' ∷ b'l' ∷ b'u' ∷ b'd' ∷ b'e' ∷ b' ' ∷ b'<' ∷ b's' ∷ b't' ∷ b'd' ∷ b'i'
    ∷ b'o' ∷ b'.' ∷ b'h' ∷ b'>' ∷ 10 ∷ b'i' ∷ b'n' ∷ b't' ∷ b' ' ∷ b'm' ∷ b'a' ∷ b'i' ∷ b'n' ∷ b'('
    ∷ b')' ∷ b' ' ∷ b'{' ∷ b' ' ∷ b' ' ∷ b' ' ∷ b'u' ∷ b'n' ∷ b's' ∷ b'i' ∷ b'g' ∷ b'n' ∷ b'e'
    ∷ b'd' ∷ b' ' ∷ b'r' ∷ b'e' ∷ b's' ∷ b'u' ∷ b'l' ∷ b't' ∷ b' ' ∷ b'=' ∷ b' ' ∷ []

abbrev pub code_tail : List ℕ
code_tail =
    b';' ∷ b' ' ∷ b' ' ∷ b' ' ∷ b'p' ∷ b'r' ∷ b'i' ∷ b'n' ∷ b't' ∷ b'f' ∷ b'(' ∷ 34 ∷ b'%' ∷ b'u'
    ∷ 34 ∷ b',' ∷ b' ' ∷ b'r' ∷ b'e' ∷ b's' ∷ b'u' ∷ b'l' ∷ b't' ∷ b')' ∷ b';' ∷ b' ' ∷ b' ' ∷ b' '
    ∷ b'r' ∷ b'e' ∷ b't' ∷ b'u' ∷ b'r' ∷ b'n' ∷ b' ' ∷ b'0' ∷ b';' ∷ b' ' ∷ b'}' ∷ []

-- `sprintf(code_buf, code_format, buf)`
abbrev pub code : List ℕ → List ℕ
code s = code_head ++ s ++ code_tail

abbrev pub with_line : Option (ℕ × List ℕ) → List (ℕ × List ℕ) → List (ℕ × List ℕ)
with_line none lines = lines
with_line (some l) lines = l ∷ lines

-- What the host makes of a program: the source is not opened for writing, `gcc` fails, no pipe to what it
-- built is opened, no number is read from that pipe, or `result` is read.
pub data Build : Type 0 where
  no_source : Build
  refused : Build
  no_pipe : Build
  no_number : Build
  number : ℕ → Build

module _ (host : List ℕ → Build) where
  -- The body of the `for` loop: the printed line, if any. Where no number is read, `result` is printed
  -- without a value.
  unfoldable pub expr_round : ℕ → Gen → Result (Option (ℕ × List ℕ) × Gen)
  expr_round fuel g = do
    g₁ ← gen_until fuel fuel g
    s ← string_at 65536 g₁.buf 0
    defined (ltb (length (code s)) (65536 + 128))
    elim (host (code s)) [
      | no_source ↦ stop assertion
      | refused ↦ ok (none, reset g₁)
      | no_pipe ↦ stop assertion
      | no_number ↦ stop undefined
      | number result ↦ ok (some (result, s), reset g₁)
    ]

  -- The `for` loop: the lines that are printed.
  unfoldable pub main_loop : ℕ → ℕ → Gen → Result (List (ℕ × List ℕ))
  main_loop fuel zero g = ok []
  main_loop fuel (suc loop) g = do
    (line, g₁) ← expr_round fuel g
    lines ← main_loop fuel loop g₁
    ok (with_line line lines)

-- The static variables at the start.
abbrev pub started : List ℕ → Gen
started rands = record { buf = λ i. 0; buf_index = 0; rands = rands }
