-- ===== src/GenExpr/Lexed.antt =====
-- make_token on the texts that are generated.
pub mod Rounds
pub mod Numerals
use mathlib.Core.List.{append_assoc}
use nju_ics2020_pa.Base.{
  ℕ, zero, suc, ◌+◌, ◌≤◌, ◌≡◌, refl, ap, sym, subst, List, [], ◌∷◌, ◌++◌, length, length-append, ok,
  arith, some,
}
use nju_ics2020_pa.Expr.Token.{
  TokenType, tk_plus, tk_sub, tk_mux, tk_div, tk_lbrkt, tk_rbrkt, Token, rules,
}
use nju_ics2020_pa.Expr.Lexer.{find_rule, star_type, add_token}
use nju_ics2020_pa.GenExpr.{decimal}
use nju_ics2020_pa.GenExpr.Grammar.{
  Op, plus, minus, times, over, Tree, num, paren, bin, spaced, op_char, text,
}
use nju_ics2020_pa.GenExpr.Written.{length-decimal}
use nju_ics2020_pa.GenExpr.Lexed.Rounds.{
  Leads-trans, Step, char-Step, mark, max_tokens, number, spaces, spaces-Step,
}
use nju_ics2020_pa.GenExpr.Lexed.Numerals.{decimal-AllDigits, decimal_pos, number-Step}

abbrev pub op_token : Op → TokenType
op_token plus = tk_plus
op_token minus = tk_sub
op_token times = tk_mux
op_token over = tk_div

-- The tokens of a tree on top of those before it, from the last to the first.
unfoldable pub push : Tree → List Token → List Token
push (num n) ts = number (decimal 10 n) ∷ ts
push (paren t) ts = mark tk_rbrkt ∷ push t (mark tk_lbrkt ∷ ts)
push (bin o l r) ts = push r (mark (op_token o) ∷ push l ts)
push (spaced t) ts = push t ts

star_type-push : (t : Tree) (ts : List Token) → star_type (push t ts) ≡ tk_mux
unfolding push star_type
star_type-push (num n) ts = refl
star_type-push (paren t) ts = refl
star_type-push (bin o l r) ts = star_type-push r (mark (op_token o) ∷ push l ts)
star_type-push (spaced t) ts = star_type-push t ts

length-push : (t : Tree) (ts : List Token) → length (push t ts) ≤ length ts + length (text t)
unfolding push text
length-push (num n) ts = omega (arith, length-append (decimal 10 n) (b'U' ∷ []))
length-push (paren t) ts =
    omega (arith, length-push t (mark tk_lbrkt ∷ ts), length-append (text t) (b')' ∷ []))
length-push (bin o l r) ts = omega (
  arith,
  length-push r (mark (op_token o) ∷ push l ts),
  length-push l ts,
  length-append (text l) (op_char o ∷ text r),
)
length-push (spaced t) ts = omega (arith, length-push t ts)

op_rule : (o : Op) (s : List ℕ) → find_rule rules (op_char o ∷ s) ≡ some (op_token o, 1)
op_rule plus s = refl
op_rule minus s = refl
op_rule times s = refl
op_rule over s = refl

-- A `*` behind an operand multiplies.
add_token-op :
    (o : Op) (l : Tree) (ts : List Token)
    → add_token (op_token o) (op_char o ∷ []) (push l ts) ≡ ok (mark (op_token o) ∷ push l ts)
unfolding add_token
add_token-op plus l ts = refl
add_token-op minus l ts = refl
add_token-op times l ts = ap (λ t. ok (mark t ∷ push l ts)) (star_type-push l ts)
add_token-op over l ts = refl

add_token-bracket :
    (c : ℕ) (ts : List Token)
    → (add_token tk_lbrkt (c ∷ []) ts ≡ ok (mark tk_lbrkt ∷ ts))
      × (add_token tk_rbrkt (c ∷ []) ts ≡ ok (mark tk_rbrkt ∷ ts))
unfolding add_token
add_token-bracket c ts = (refl, refl)

spaces-suc : (k : ℕ) (s : List ℕ) → spaces k (b' ' ∷ s) ≡ spaces (suc k) s
spaces-suc zero s = refl
spaces-suc (suc k) s = ap (λ t. b' ' ∷ t) (spaces-suc k s)

Step-from :
    {s s' : List ℕ} {ts ts' : List Token} {r : List ℕ} → s ≡ s' → Step ts s' ts' r → Step ts s ts' r
Step-from {ts} {ts'} {r} e h = subst (λ x. Step ts x ts' r) (sym e) h

-- The loop puts the tokens of a tree on those before it, whatever spaces and whatever text are around.
pub text-Step :
    (t : Tree) (k : ℕ) (r : List ℕ) (ts : List Token)
    → length ts + length (text t) ≤ max_tokens
    → Step ts (spaces k (text t ++ r)) (push t ts) r
unfolding text push
text-Step (num n) k r ts few =
    Step-from (ap (spaces k) (append_assoc (decimal 10 n) (b'U' ∷ []) r)) (
      number-Step k (decimal 10 n) r ts (decimal-AllDigits 10 n) (decimal_pos 9 n)
        (length-decimal 10 n) (omega arith))
text-Step (paren t) k r ts few = λ fuel enough.
    let len = length-append (text t) (b')' ∷ []) in
    Leads-trans
      (spaces-Step k b'(' ((text t ++ b')' ∷ []) ++ r) ts refl (omega (arith, len)) fuel enough)
      (λ f₁ e₁.
        Leads-trans
          (char-Step b'(' tk_lbrkt ((text t ++ b')' ∷ []) ++ r) ts (mark tk_lbrkt ∷ ts) refl
            ((add_token-bracket b'(' ts).0) (omega (arith, len)) f₁ e₁)
          (λ f₂ e₂.
            Leads-trans
              (Step-from (append_assoc (text t) (b')' ∷ []) r)
                (text-Step t 0 (b')' ∷ r) (mark tk_lbrkt ∷ ts) (omega (arith, len))) f₂ e₂)
              (λ f₃ e₃.
                char-Step b')' tk_rbrkt r (push t (mark tk_lbrkt ∷ ts))
                  (mark tk_rbrkt ∷ push t (mark tk_lbrkt ∷ ts)) refl
                  ((add_token-bracket b')' (push t (mark tk_lbrkt ∷ ts))).1)
                  (omega (arith, len, length-push t (mark tk_lbrkt ∷ ts))) f₃ e₃)))
text-Step (bin o l r') k r ts few = λ fuel enough.
    let len = length-append (text l) (op_char o ∷ text r') in
    Leads-trans
      (Step-from (ap (spaces k) (append_assoc (text l) (op_char o ∷ text r') r))
        (text-Step l k (op_char o ∷ text r' ++ r) ts (omega (arith, len))) fuel enough)
      (λ f₁ e₁.
        Leads-trans
          (char-Step (op_char o) (op_token o) (text r' ++ r) (push l ts)
            (mark (op_token o) ∷ push l ts) (op_rule o (text r' ++ r)) (add_token-op o l ts)
            (omega (arith, len, length-push l ts)) f₁ e₁)
          (λ f₂ e₂.
            text-Step r' 0 r (mark (op_token o) ∷ push l ts) (omega (arith, len, length-push l ts))
              f₂ e₂))
text-Step (spaced t) k r ts few =
    Step-from (spaces-suc k (text t ++ r)) (text-Step t (suc k) r ts (omega arith))
