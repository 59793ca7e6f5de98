-- ===== src/Expr/Lexer.antt =====
-- `make_token`.
use nju_ics2020_pa.Base.{
  ℕ, zero, suc, ◌+◌, ◌-◌, ◌*◌, Bool, ◌||◌, List, [], ◌∷◌, ◌++◌, ltb, leb, ◌==◌, if◌then◌else◌,
  Result, ok, stop, out_of_fuel, ◌>>=◌, ◌>>◌, assert, defined, length, take, drop, Option, none,
  some,
}
use nju_ics2020_pa.Expr.Token.{
  TokenType, tk_notype, tk_mux, tk_rbrkt, tk_reg, tk_deref, tk_num, tk_hex_num, Token, Piece, once,
  many, optional, Rule, rules, same_type,
}

-- How many characters of a class a text begins with.
abbrev pub span : (ℕ → Bool) → List ℕ → ℕ
span p [] = 0
span p (c ∷ s) = if p c then suc (span p s) else 0

-- The length of the match at the start of a text. No class of the table overlaps with the one that
-- follows it, so the longest match takes each piece as far as it goes.
abbrev pub match_len : List Piece → List ℕ → Option ℕ
match_len [] s = some 0
match_len (once p ∷ r) [] = none
match_len (once p ∷ r) (c ∷ s) =
    if p c then elim (match_len r s) [ none ↦ none | some n ↦ some (suc n) ] else none
match_len (many p ∷ r) s =
    if span p s == 0
    then none
    else elim (match_len r (drop (span p s) s)) [ none ↦ none | some n ↦ some (span p s + n) ]
match_len (optional p ∷ r) [] = match_len r []
match_len (optional p ∷ r) (c ∷ s) =
    if p c
    then elim (match_len r s) [ none ↦ none | some n ↦ some (suc n) ]
    else match_len r (c ∷ s)

-- The first rule that matches here, with the length of its match.
abbrev pub find_rule : List Rule → List ℕ → Option (TokenType × ℕ)
find_rule [] s = none
find_rule (r ∷ rs) s = elim (match_len r.regex s) [
  | none ↦ find_rule rs s
  | some n ↦ some (r.token_type, n)
]

abbrev token : TokenType → List ℕ → Token
token t s = record { type = t; str = s }

abbrev pub tokens_max_size : ℕ
tokens_max_size = 65536

abbrev sizeof_token : ℕ
sizeof_token = 36

-- `memset(tokens[nr_token].str, 0, TOKENS_MAX_SIZE)` has to stay inside the array of tokens. What it
-- clears behind `nr_token` is written again before it is read.
abbrev pub memset_fits : List Token → Bool
memset_fits ts =
    leb (sizeof_token * length ts + 4 + tokens_max_size) (sizeof_token * tokens_max_size)

-- The type of `*`, by the token before it.
unfoldable pub star_type : List Token → TokenType
star_type [] = tk_deref
star_type (t ∷ ts) =
    if same_type t.type tk_rbrkt || (same_type t.type tk_num || same_type t.type tk_hex_num)
    then tk_mux
    else tk_deref

-- A number without its `U`.
abbrev pub strip_u : List ℕ → List ℕ
strip_u [] = []
strip_u (c ∷ []) = if c == b'U' then [] else c ∷ []
strip_u (c ∷ d ∷ s) = c ∷ strip_u (d ∷ s)

-- A hexadecimal number: behind a `*` it becomes the string of that token, over what is there.
abbrev pub add_hex : List ℕ → List Token → List Token
add_hex s [] = token tk_hex_num s ∷ []
add_hex s (t ∷ ts) =
    if same_type t.type tk_deref
    then token t.type (s ++ drop (length s) t.str) ∷ ts
    else token tk_hex_num s ∷ t ∷ ts

-- The `switch` of the loop. The tokens are listed from the last to the first.
unfoldable pub add_token : TokenType → List ℕ → List Token → Result (List Token)
unfolding star_type
add_token tk_notype s ts = ok ts
add_token tk_mux s ts = ok (token (star_type ts) [] ∷ ts)
add_token tk_reg s ts = defined (leb (length s - 1) 32) >> ok (token tk_reg (drop 1 s) ∷ ts)
add_token tk_num s ts = assert (ltb (length s) 32) >> ok (token tk_num (strip_u s) ∷ ts)
add_token tk_hex_num s ts = assert (ltb (length s) 10) >> ok (add_hex s ts)
add_token t s ts = ok (token t [] ∷ ts)

-- The rounds of the `while` loop; each takes at least one character.
unfoldable pub token_loop : ℕ → List Token → List ℕ → Result (Option (List Token))
unfolding add_token
token_loop fuel ts [] = ok (some ts)
token_loop zero ts (c ∷ s) = stop out_of_fuel
token_loop (suc fuel) ts (c ∷ s) = elim (find_rule rules (c ∷ s)) [
  | none ↦ ok none
  | some (t, n) ↦ do
    defined (memset_fits ts)
    ts' ← add_token t (take n (c ∷ s)) ts
    token_loop fuel ts' (drop n (c ∷ s))
]

-- `ok none` is `return false`.
unfoldable pub make_token : List ℕ → Result (Option (List Token))
unfolding token_loop
make_token e = token_loop (length e) [] e
