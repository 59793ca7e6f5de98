-- ===== src/GenExpr/Lexed/Rounds.antt =====
-- Rounds of the loop of make_token: spaces, and tokens of one character.
use nju_ics2020_pa.Base.{
  ℕ, zero, suc, ◌+◌, ◌≤◌, ◌<◌, ◌≡◌, refl, ap, ◌∙◌, Bool, true, false, List, [], ◌∷◌, length, ◌==◌,
  ok, arith, take, drop, Option, none, some,
}
use nju_ics2020_pa.Expr.Token.{TokenType, tk_notype, tk_num, Token, Piece, many, rules}
use nju_ics2020_pa.Expr.Lexer.{span, match_len, find_rule, memset_fits, add_token, token_loop}

abbrev pub mark : TokenType → Token
mark t = record { type = t; str = [] }

abbrev pub number : List ℕ → Token
number s = record { type = tk_num; str = s }

-- The largest number of tokens behind which another one may be added.
abbrev pub max_tokens : ℕ
max_tokens = 63715

-- The loop goes on with these tokens and this text, and has fuel for it.
pub record Leads (fuel : ℕ) (ts : List Token) (s : List ℕ) (ts' : List Token) (s' : List ℕ)
    : Type 0 where
  pub left : ℕ
  pub enough : length s' ≤ left
  pub runs : token_loop fuel ts s ≡ token_loop left ts' s'

pub Leads-trans :
    {fuel : ℕ} {ts ts₁ ts₂ : List Token} {s s₁ s₂ : List ℕ} (a : Leads fuel ts s ts₁ s₁)
    → ((left : ℕ) → length s₁ ≤ left → Leads left ts₁ s₁ ts₂ s₂)
    → Leads fuel ts s ts₂ s₂
Leads-trans a k =
    let b = k (a.left) (a.enough) in
    record { left = b.left; enough = b.enough; runs = a.runs ∙ b.runs }

abbrev pub Step : List Token → List ℕ → List Token → List ℕ → Type 0
Step ts s ts' s' = (fuel : ℕ) → length s ≤ fuel → Leads fuel ts s ts' s'

abbrev pub spaces : ℕ → List ℕ → List ℕ
spaces zero s = s
spaces (suc k) s = b' ' ∷ spaces k s

span-spaces :
    (k c : ℕ) (s : List ℕ) → (c == b' ') ≡ false → span (λ d. d == b' ') (spaces k (c ∷ s)) ≡ k
span-spaces zero c s h = rw h refl
span-spaces (suc k) c s h = ap suc (span-spaces k c s h)

drop-spaces : (k : ℕ) (s : List ℕ) → drop k (spaces k s) ≡ s
drop-spaces zero s = refl
drop-spaces (suc k) s = drop-spaces k s

length-spaces : (k : ℕ) (s : List ℕ) → length (spaces k s) ≡ k + length s
length-spaces zero s = omega arith
length-spaces (suc k) s = omega (arith, length-spaces k s)

-- One round of the loop.
pub round_ok :
    (c fuel n : ℕ) (t : TokenType) (s : List ℕ) (ts ts' : List Token)
    → find_rule rules (c ∷ s) ≡ some (t, n)
    → add_token t (take n (c ∷ s)) ts ≡ ok ts'
    → length ts ≤ max_tokens
    → token_loop (suc fuel) ts (c ∷ s) ≡ token_loop fuel ts' (drop n (c ∷ s))
unfolding token_loop
round_ok c fuel n t s ts ts' f a few =
    let fits : memset_fits ts ≡ true = ground arith in rw (token_loop, f, fits, a) refl

pub many_match :
    (p : ℕ → Bool) (r : List Piece) (s : List ℕ) (k j : ℕ)
    → span p s ≡ k
    → 0 < k
    → match_len r (drop k s) ≡ some j
    → match_len (many p ∷ r) s ≡ some (k + j)
many_match p r s k j h pos m =
    let some_ : (k == 0) ≡ false = ground arith in
    rw (match_len, h, some_, m) (ap (λ x. some (x + j)) h)

-- What the rule for these pieces finds, where the next rules would find `others`.
abbrev pub found : TokenType → Option (TokenType × ℕ) → Option ℕ → Option (TokenType × ℕ)
found t others none = others
found t others (some n) = some (t, n)

spaces_rule :
    (k c : ℕ) (s : List ℕ)
    → (c == b' ') ≡ false
    → find_rule rules (spaces (suc k) (c ∷ s)) ≡ some (tk_notype, suc k)
spaces_rule k c s h =
    ap (found tk_notype (find_rule (drop 1 rules) (spaces (suc k) (c ∷ s)))) (
      many_match (λ d. d == b' ') [] (spaces (suc k) (c ∷ s)) (suc k) 0
        (ap suc (span-spaces k c s h)) (omega arith) refl)
    ∙ ap (λ (n : ℕ). some (tk_notype, n)) (omega arith)

pub spaces-Step :
    (k c : ℕ) (s : List ℕ) (ts : List Token)
    → (c == b' ') ≡ false
    → length ts ≤ max_tokens
    → Step ts (spaces k (c ∷ s)) ts (c ∷ s)
unfolding add_token
spaces-Step zero c s ts h few fuel enough = record { left = fuel; enough = enough; runs = refl }
spaces-Step (suc k) c s ts h few zero enough = absurd (omega arith)
spaces-Step (suc k) c s ts h few (suc fuel) enough = record {
  left = fuel;
  enough = omega (arith, length-spaces k (c ∷ s));
  runs =
      round_ok b' ' fuel (suc k) tk_notype (spaces k (c ∷ s)) ts ts (spaces_rule k c s h) refl few
      ∙ ap (token_loop fuel ts) (drop-spaces k (c ∷ s));
}

pub char-Step :
    (c : ℕ) (t : TokenType) (s : List ℕ) (ts ts' : List Token)
    → find_rule rules (c ∷ s) ≡ some (t, 1)
    → add_token t (c ∷ []) ts ≡ ok ts'
    → length ts ≤ max_tokens
    → Step ts (c ∷ s) ts' s
char-Step c t s ts ts' f a few zero enough = absurd (omega arith)
char-Step c t s ts ts' f a few (suc fuel) enough = record {
  left = fuel;
  enough = omega arith;
  runs = round_ok c fuel 1 t s ts ts' f a few;
}
