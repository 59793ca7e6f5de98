-- ===== src/GenExpr/Lexed/Numerals.antt =====
-- Rounds of the loop of make_token: numbers with their `U`.
use nju_ics2020_pa.Base.{
  ℕ, zero, suc, ◌+◌, ◌/◌, ◌%◌, ◌≤◌, ◌<◌, ◌≡◌, refl, ap, ◌∙◌, true, false, ◌||◌, List, [], ◌∷◌, ◌++◌,
  length, length-append, ltb, ◌==◌, ok, arith, Bool-cases, inl, inr, take, drop, drop-append-left,
  none, some,
}
use nju_ics2020_pa.Base.CString.{is_digit}
use nju_ics2020_pa.Expr.Token.{tk_num, Token, once, many, optional, rules}
use nju_ics2020_pa.Expr.Lexer.{span, match_len, find_rule, strip_u, add_token, token_loop}
use nju_ics2020_pa.GenExpr.{decimal}
use nju_ics2020_pa.GenExpr.Lexed.Rounds.{
  Leads-trans, Step, found, many_match, max_tokens, number, round_ok, spaces, spaces-Step,
}

abbrev pub AllDigits : List ℕ → Type 0
AllDigits [] = Unit {0}
AllDigits (c ∷ s) = (is_digit c ≡ true) × AllDigits s

AllDigits-append : (s t : List ℕ) → AllDigits s → AllDigits t → AllDigits (s ++ t)
AllDigits-append [] t h k = k
AllDigits-append (c ∷ s) t h k = (h.0, AllDigits-append s t h.1 k)

pub decimal-AllDigits : (fuel n : ℕ) → AllDigits (decimal fuel n)
unfolding decimal
decimal-AllDigits zero n = tt
decimal-AllDigits (suc fuel) n = elim (Bool-cases (ltb n 10)) [
  | inl one ↦ rw one (ground arith, tt)
  | inr more ↦ rw more (
      AllDigits-append (decimal fuel (n / 10)) ((b'0' + n % 10) ∷ [])
        (decimal-AllDigits fuel (n / 10)) (ground arith, tt))
]

pub decimal_pos : (fuel n : ℕ) → 0 < length (decimal (suc fuel) n)
unfolding decimal
decimal_pos fuel n = elim (Bool-cases (ltb n 10)) [
  | inl one ↦ rw one (omega arith)
  | inr more ↦ rw more (omega (arith, length-append (decimal fuel (n / 10)) ((b'0' + n % 10) ∷ [])))
]

span-digits : (s r : List ℕ) → AllDigits s → span is_digit (s ++ b'U' ∷ r) ≡ length s
span-digits [] r h = refl
span-digits (c ∷ s) r h = rw h.0 (ap suc (span-digits s r h.1))

other_char : (d c : ℕ) → is_digit d ≡ true → is_digit c ≡ false → (d == c) ≡ false
other_char d c h k = ground arith

no_x :
    (s r : List ℕ)
    → AllDigits s
    → match_len
        (once (λ c. c == b'x' || c == b'X') ∷ many is_digit ∷ optional (λ c. c == b'U') ∷ [])
        (s ++ b'U' ∷ r)
      ≡ none
no_x [] r h = refl
no_x (c ∷ s) r h = rw (other_char c b'x' h.0 refl, other_char c b'X' h.0 refl) refl

digits_match :
    (d : ℕ) (s r : List ℕ)
    → AllDigits (d ∷ s)
    → match_len (many is_digit ∷ optional (λ c. c == b'U') ∷ []) (d ∷ s ++ b'U' ∷ r)
      ≡ some (suc (length (d ∷ s)))
digits_match d s r h =
    many_match is_digit (optional (λ c. c == b'U') ∷ []) (d ∷ s ++ b'U' ∷ r) (length (d ∷ s)) 1
      (span-digits (d ∷ s) r h) (omega arith)
      (ap (match_len (optional (λ c. c == b'U') ∷ [])) (drop-append-left (d ∷ s) (b'U' ∷ r)))
    ∙ ap (λ (n : ℕ). some n) (omega arith)

digits_rule :
    (d : ℕ) (s r : List ℕ)
    → AllDigits (d ∷ s)
    → find_rule rules (d ∷ s ++ b'U' ∷ r) ≡ some (tk_num, suc (length (d ∷ s)))
digits_rule d s r h =
    rw
      (
        find_rule,
        match_len,
        other_char d b' ' h.0 refl,
        other_char d b'+' h.0 refl,
        other_char d b'-' h.0 refl,
        other_char d b'*' h.0 refl,
        other_char d b'/' h.0 refl,
        other_char d b'(' h.0 refl,
        other_char d b')' h.0 refl,
        other_char d b'=' h.0 refl,
        other_char d b'!' h.0 refl,
        other_char d b'&' h.0 refl,
        other_char d b'$' h.0 refl,
      )
      (elim (Bool-cases (d == b'0')) [
        | inl z ↦ rw (z, no_x s r h.1) (ap (found tk_num none) (digits_match d s r h))
        | inr z ↦ rw z (ap (found tk_num none) (digits_match d s r h))
      ])

take-unit : (s r : List ℕ) (c : ℕ) → take (suc (length s)) (s ++ c ∷ r) ≡ s ++ c ∷ []
take-unit [] r c = refl
take-unit (d ∷ s) r c = ap (λ t. d ∷ t) (take-unit s r c)

drop-unit : (s r : List ℕ) (c : ℕ) → drop (suc (length s)) (s ++ c ∷ r) ≡ r
drop-unit [] r c = refl
drop-unit (d ∷ s) r c = drop-unit s r c

strip_u-unit : (s : List ℕ) → strip_u (s ++ b'U' ∷ []) ≡ s
strip_u-unit [] = refl
strip_u-unit (c ∷ []) = refl
strip_u-unit (c ∷ d ∷ s) = ap (λ t. c ∷ t) (strip_u-unit (d ∷ s))

add_token-number :
    (s : List ℕ) (ts : List Token)
    → length s ≤ 10
    → add_token tk_num (s ++ b'U' ∷ []) ts ≡ ok (number s ∷ ts)
unfolding add_token
add_token-number s ts short =
    let fits : ltb (length (s ++ b'U' ∷ [])) 32 ≡ true =
      ground (arith, length-append s (b'U' ∷ [])) in
    rw fits (ap (λ t. ok (number t ∷ ts)) (strip_u-unit s))

pub number-Step :
    (k : ℕ) (s r : List ℕ) (ts : List Token)
    → AllDigits s
    → 0 < length s
    → length s ≤ 10
    → length ts ≤ max_tokens
    → Step ts (spaces k (s ++ b'U' ∷ r)) (number s ∷ ts) r
number-Step k [] r ts h pos short few fuel enough = absurd (omega arith)
number-Step k (d ∷ s) r ts h pos short few fuel enough =
    Leads-trans (spaces-Step k d (s ++ b'U' ∷ r) ts (other_char d b' ' h.0 refl) few fuel enough)
      digits
  where
    digits : Step ts (d ∷ s ++ b'U' ∷ r) (number (d ∷ s) ∷ ts) r
    digits zero enough = absurd (omega arith)
    digits (suc fuel) enough = record {
      left = fuel;
      enough = omega (arith, length-append s (b'U' ∷ r));
      runs =
          round_ok d fuel (suc (length (d ∷ s))) tk_num (s ++ b'U' ∷ r) ts (number (d ∷ s) ∷ ts)
            (digits_rule d s r h)
            (ap (λ t. add_token tk_num t ts) (take-unit (d ∷ s) r b'U')
              ∙ add_token-number (d ∷ s) ts short)
            few
          ∙ ap (token_loop fuel (number (d ∷ s) ∷ ts)) (drop-unit (d ∷ s) r b'U');
    }
