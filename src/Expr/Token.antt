-- ===== src/Expr/Token.antt =====
-- The token types of expr.c, its table of rules, and precedences.
use nju_ics2020_pa.Base.{
  ℕ, ◌≡◌, Bool, true, ◌&&◌, ◌||◌, List, [], ◌∷◌, ltb, ◌==◌, if◌then◌else◌, Result, ok, stop,
  out_of_fuel, ◌≢◌, arith, ◌>>◌, assert,
}
use nju_ics2020_pa.Base.CString.{is_digit, is_alpha}

-- The enumeration; `TK_OP_START` and `TK_OP_END` only mark its middle part.
pub data TokenType : Type 0 where
  tk_notype tk_plus tk_sub tk_mux tk_div tk_lbrkt tk_rbrkt tk_eq tk_neq tk_and : TokenType
  tk_reg tk_deref tk_num tk_hex_num tk_invaild : TokenType

-- The values of the enumerators.
abbrev pub token_code : TokenType → ℕ
token_code tk_notype = 256
token_code tk_plus = 258
token_code tk_sub = 259
token_code tk_mux = 260
token_code tk_div = 261
token_code tk_lbrkt = 262
token_code tk_rbrkt = 263
token_code tk_eq = 264
token_code tk_neq = 265
token_code tk_and = 266
token_code tk_reg = 268
token_code tk_deref = 269
token_code tk_num = 270
token_code tk_hex_num = 271
token_code tk_invaild = 272

abbrev tk_op_start : ℕ
tk_op_start = 257

abbrev tk_op_end : ℕ
tk_op_end = 267

abbrev pub token_is_vaild_op : TokenType → Bool
token_is_vaild_op t = ltb tk_op_start (token_code t) && ltb (token_code t) tk_op_end

-- `struct token`: the bytes of `str` up to its NUL.
pub record Token : Type 0 where
  pub type : TokenType
  pub str : List ℕ

-- The regular expressions of the table are rows of characters of a class, once, one or more times
-- (`+`), or at most once (`?`).
pub data Piece : Type 0 where
  once many optional : (ℕ → Bool) → Piece

pub record Rule : Type 0 where
  pub regex : List Piece
  pub token_type : TokenType
  pub precedence : ℕ

abbrev pub char : ℕ → Piece
char c = once (λ d. d == c)

abbrev pub rule : List Piece → TokenType → ℕ → Rule
rule r t p = record { regex = r; token_type = t; precedence = p }

abbrev pub uchar_max : ℕ
uchar_max = 255

-- `0[xX][0-9]+U?`
abbrev hex_regex : List Piece
hex_regex =
    char b'0' ∷ once (λ c. c == b'x' || c == b'X') ∷ many is_digit ∷ optional (λ c. c == b'U') ∷ []

abbrev pub rules : List Rule
rules =
    rule (many (λ c. c == b' ') ∷ []) tk_notype uchar_max
    ∷ rule (char b'+' ∷ []) tk_plus 4
    ∷ rule (char b'-' ∷ []) tk_sub 4
    ∷ rule (char b'*' ∷ []) tk_mux 3
    ∷ rule (char b'/' ∷ []) tk_div 3
    ∷ rule (char b'(' ∷ []) tk_lbrkt 1
    ∷ rule (char b')' ∷ []) tk_rbrkt 1
    ∷ rule (char b'=' ∷ char b'=' ∷ []) tk_eq 7
    ∷ rule (char b'!' ∷ char b'=' ∷ []) tk_neq 7
    ∷ rule (char b'&' ∷ char b'&' ∷ []) tk_and 11
    ∷ rule (char b'$' ∷ many is_alpha ∷ []) tk_reg uchar_max
    ∷ rule hex_regex tk_hex_num uchar_max
    ∷ rule (many is_digit ∷ optional (λ c. c == b'U') ∷ []) tk_num uchar_max
    ∷ []

abbrev pub same_type : TokenType → TokenType → Bool
same_type a b = token_code a == token_code b

abbrev find_precedence : List Rule → TokenType → ℕ
find_precedence [] t = uchar_max
find_precedence (r ∷ rs) t = if same_type r.token_type t then r.precedence else find_precedence rs t

abbrev pub get_precedence : TokenType → ℕ
get_precedence = find_precedence rules

pub priority_is_higher : TokenType → TokenType → Result Bool
priority_is_higher op1 op2 = do
  assert (token_is_vaild_op op1)
  assert (token_is_vaild_op op2)
  ok (ltb (get_precedence op1) (get_precedence op2))

pub priority_is_higher-ok :
    (a b : TokenType)
    → token_is_vaild_op a ≡ true
    → token_is_vaild_op b ≡ true
    → priority_is_higher a b ≡ ok (ltb (get_precedence a) (get_precedence b))
unfolding priority_is_higher
priority_is_higher-ok a b h k = rw (h, k)

pub priority_is_higher-ne-fuel : (a b : TokenType) → priority_is_higher a b ≢ stop out_of_fuel
unfolding priority_is_higher
priority_is_higher-ne-fuel a b = ground arith
