-- ===== src/Expr/Eval.antt =====
-- `check_parentheses` and `eval`. The tokens `tokens[p..q]` are a list: `p > q` is the empty list, and
-- `p == q` a list of one.
pub mod Grammar
pub mod Brackets
pub mod MainOp
pub mod Correct
pub mod Total
use nju_ics2020_pa.Base.{
  ℕ, zero, suc, ◌+◌, ◌-◌, ◌*◌, ◌/◌, ◌%◌, ◌^◌, Bool, true, false, ◌&&◌, ◌||◌, not, List, [], ◌∷◌,
  ◌++◌, ltb, leb, ◌==◌, if◌then◌else◌, Result, ok, stop, assertion, undefined, out_of_fuel, ◌>>=◌,
  ◌>>◌, assert, defined, of_option, length, take, drop, Option, none, some,
}
use nju_ics2020_pa.Base.CString.{strtol, to_u32}
use nju_ics2020_pa.Expr.Token.{
  TokenType, tk_notype, tk_plus, tk_sub, tk_mux, tk_div, tk_lbrkt, tk_rbrkt, tk_eq, tk_neq, tk_and,
  tk_reg, tk_deref, tk_num, tk_hex_num, tk_invaild, Token, token_is_vaild_op, same_type,
  priority_is_higher,
}

-- What an expression reads of the machine: `isa_reg_str2val`, with `none` for a name that is no
-- register, and the word at `guest_to_host(addr)`.
pub record Env : Type 0 where
  pub reg_str2val : List ℕ → Option ℕ
  pub host_word : ℕ → Result ℕ

-- The loop over the tokens inside, with `top` brackets open.
pub bracket_loop : ℕ → List Token → Bool
bracket_loop top [] = top == 0
bracket_loop top (t ∷ ts) =
    let open_ = bracket_loop (suc top) ts in
    let close = bracket_loop (top - 1) ts in
    let other = bracket_loop top ts in
    if same_type t.type tk_lbrkt
    then open_
    else if same_type t.type tk_rbrkt
    then (if top == 0 then false else close)
    else other

abbrev pub first_type : List Token → TokenType
first_type [] = tk_invaild
first_type (t ∷ ts) = t.type

abbrev pub last_type : List Token → TokenType
last_type [] = tk_invaild
last_type (t ∷ []) = t.type
last_type (t ∷ u ∷ ts) = last_type (u ∷ ts)

-- The tokens between the first and the last.
abbrev pub inside : List Token → List Token
inside ts = take (length ts - 2) (drop 1 ts)

pub check_parentheses : List Token → Result Bool
check_parentheses ts = do
  assert (leb 3 (length ts))
  ok (
      if not (same_type (first_type ts) tk_lbrkt) && not (same_type (last_type ts) tk_rbrkt)
      then false
      else bracket_loop 0 (inside ts))

-- The state of the search for the main operator: brackets to be opened, and the position and type of
-- the best operator so far.
pub record Scan : Type 0 where
  pub need_brkt : ℕ
  pub main_op : Option (ℕ × TokenType)

-- One round, at the token of type `t` and position `i`.
pub scan_step : ℕ → TokenType → Scan → Result Scan
scan_step i t s =
    if not (token_is_vaild_op t)
    then ok s
    else if same_type t tk_rbrkt
    then ok (record s { need_brkt = s.need_brkt + 1 })
    else if not (s.need_brkt == 0)
    then ok (if same_type t tk_lbrkt then record s { need_brkt = s.need_brkt - 1 } else s)
    else elim s.main_op [
      | none ↦ ok (record s { main_op = some (i, t) })
      | some (k, op) ↦ do
        higher ← priority_is_higher op t
        ok (if higher then record s { main_op = some (i, t) } else s)
    ]

-- The loop from the last token to the first, where `i` is the position of the first.
pub scan : ℕ → List Token → Result Scan
scan i [] = ok (record { need_brkt = 0; main_op = none })
scan i (t ∷ ts) = do s ← scan (suc i) ts; scan_step i t.type s

pub apply_op : TokenType → ℕ → ℕ → Result ℕ
apply_op tk_plus a b = ok ((a + b) % 2 ^ 32)
apply_op tk_sub a b = ok ((a + 2 ^ 32 - b) % 2 ^ 32)
apply_op tk_mux a b = ok (a * b % 2 ^ 32)
apply_op tk_div a b = assert (not (b == 0)) >> ok (a / b)
apply_op tk_eq a b = ok (if a == b then 1 else 0)
apply_op tk_neq a b = ok (if a == b then 0 else 1)
apply_op tk_and a b = ok (if not (a == 0) && not (b == 0) then 1 else 0)
apply_op _ a b = stop assertion

-- The cases of two tokens or more, where `rec` is `eval` itself.
pub eval_many : (List Token → Result ℕ) → List Token → Result ℕ
eval_many rec ts = do
  surrounded ← check_parentheses ts
  elim surrounded [
    | true ↦ rec (inside ts)
    | false ↦ do
      s ← scan 0 ts
      (pos, op) ← of_option assertion s.main_op
      val1 ← rec (take pos ts)
      val2 ← rec (drop (suc pos) ts)
      apply_op op val1 val2
  ]

module _ (env : Env) where
  abbrev pub atom_value : TokenType → List ℕ → Result ℕ
  atom_value tk_num s = ok (to_u32 (strtol 10 s))
  atom_value tk_hex_num s = ok (to_u32 (strtol 16 s))
  atom_value tk_reg s = of_option assertion (env.reg_str2val s)
  atom_value tk_deref s = env.host_word (to_u32 (strtol 16 s))
  atom_value _ s = stop assertion

  -- The case of one token. `strcpy` into `char str[32]` wants a string of at most 31 characters.
  unfoldable pub eval_atom : Token → Result ℕ
  eval_atom t = defined (ltb (length t.str) 32) >> atom_value t.type t.str

  -- Each call is on fewer tokens than the one above it.
  pub eval : ℕ → List Token → Result ℕ
  eval zero ts = stop out_of_fuel
  eval (suc fuel) [] = stop assertion
  eval (suc fuel) (t ∷ []) = eval_atom t
  eval (suc fuel) (t ∷ u ∷ ts) = eval_many (eval fuel) (t ∷ u ∷ ts)
