-- ===== src/Expr/Eval/Total.antt =====
-- The fuel of `eval` is enough on every list of tokens, well-formed or not.
use nju_ics2020_pa.Base.{
  ℕ, zero, suc, ◌+◌, ◌-◌, ◌≤◌, ◌<◌, ◌≡◌, ◌≢◌, refl, Bool, true, false, List, [], ◌∷◌, Result, ok,
  stop, assertion, out_of_fuel, ◌>>=◌, length, take, drop, arith, sym, Option, none, some,
  of_option, length-drop, inl, inr, ◌⊎◌, subst, >>=-eq-ok,
}
use nju_ics2020_pa.Base.CString.{strtol, to_u32}
use nju_ics2020_pa.Expr.Token.{Token, TokenType, priority_is_higher-ne-fuel}
use nju_ics2020_pa.Expr.Eval.{
  Env, eval, eval_many, eval_atom, check_parentheses, Scan, scan, scan_step, inside, apply_op,
}

-- Every way to end but the model's own.
abbrev pub Ends : {A : Type 0} → Result A → Type 0
Ends m = m ≢ stop out_of_fuel

Ends-bind :
    {A B : Type 0} (m : Result A) (f : A → Result B)
    → Ends m
    → ((a : A) → m ≡ ok a → Ends (f a))
    → Ends (m >>= f)
Ends-bind (ok a) f h k = k a refl
Ends-bind (stop e) f h k = λ e'. h (ground arith)

length-take-le : {A : Type 0} (n : ℕ) (xs : List A) → length (take n xs) ≤ n
length-take-le zero xs = omega arith
length-take-le (suc n) [] = omega arith
length-take-le (suc n) (x ∷ xs) = omega (arith, length-take-le n xs)

length-inside : (ts : List Token) → length (inside ts) ≤ length ts - 2
length-inside ts = length-take-le (length ts - 2) (drop 1 ts)

apply_op-Ends : (t : TokenType) (a b : ℕ) → Ends (apply_op t a b)
unfolding apply_op
apply_op-Ends t a b = ground arith

check_parentheses-Ends : (ts : List Token) → Ends (check_parentheses ts)
unfolding check_parentheses
check_parentheses-Ends ts = ground arith

-- The operator found stands among the tokens from `i` on, `n` of them.
abbrev Within : ℕ → ℕ → Option (ℕ × TokenType) → Type 0
Within i n none = Unit {0}
Within i n (some (k, t)) = (i ≤ k) × (k < i + n)

scan_step-Ends :
    (i n : ℕ) (t : TokenType) (m : Option (ℕ × TokenType))
    → Ends (scan_step i t (record { need_brkt = n; main_op = m }))
unfolding scan_step
scan_step-Ends i n t none = ground arith
scan_step-Ends i n t (some (k, op)) = ground (arith, priority_is_higher-ne-fuel op t)

scan_step-main :
    (i n : ℕ) (t : TokenType) (m : Option (ℕ × TokenType)) (s' : Scan)
    → scan_step i t (record { need_brkt = n; main_op = m }) ≡ ok s'
    → (s'.main_op ≡ m) ⊎ (s'.main_op ≡ some (i, t))
unfolding scan_step
scan_step-main i n t none s' e = ground arith
scan_step-main i n t (some (k, op)) s' e = ground arith

Within-suc : (i n : ℕ) (m : Option (ℕ × TokenType)) → Within (suc i) n m → Within i (suc n) m
Within-suc i n none h = tt
Within-suc i n (some (k, t)) h = (omega arith, omega arith)

scan_step-Within :
    (i n : ℕ) (t : TokenType) (s s' : Scan)
    → Within (suc i) n s.main_op
    → scan_step i t s ≡ ok s'
    → Within i (suc n) s'.main_op
scan_step-Within i n t s s' h e = elim (scan_step-main i s.need_brkt t s.main_op s' e) [
  | inl same ↦ rw same (Within-suc i n s.main_op h)
  | inr new ↦ rw new (omega arith, omega arith)
]

scan-Ends : (i : ℕ) (ts : List Token) → Ends (scan i ts)
unfolding scan
scan-Ends i [] = ground arith
scan-Ends i (t ∷ ts) =
    Ends-bind (scan (suc i) ts) (scan_step i t.type) (scan-Ends (suc i) ts)
      λ s e. scan_step-Ends i s.need_brkt t.type s.main_op

scan-Within :
    (i : ℕ) (ts : List Token) (s : Scan) → scan i ts ≡ ok s → Within i (length ts) s.main_op
unfolding scan
scan-Within i [] s e =
    let found : s.main_op ≡ none = ground arith in subst (Within i 0) (sym found) tt
scan-Within i (t ∷ ts) s' e =
    let (s, e₁, e₂) = >>=-eq-ok (scan (suc i) ts) (scan_step i t.type) e in
    scan_step-Within i (length ts) t.type s s' (scan-Within (suc i) ts s e₁) e₂

eval_many-Ends :
    (rec : List Token → Result ℕ) (ts : List Token)
    → 2 ≤ length ts
    → ((us : List Token) → length us < length ts → Ends (rec us))
    → Ends (eval_many rec ts)
unfolding eval_many
eval_many-Ends rec ts long smaller =
    Ends-bind (check_parentheses ts) _ (check_parentheses-Ends ts) λ b e. split b
  where
    parts :
        (s : Scan)
        → scan 0 ts ≡ ok s
        → (o : Option (ℕ × TokenType)) → s.main_op ≡ o
        → Ends (
            of_option assertion o >>= λ x.
            rec (take x.0 ts) >>= λ a. rec (drop (suc x.0) ts) >>= λ b. apply_op x.1 a b)
    parts s e none q = ground arith
    parts s e (some (k, t)) q =
        let within : Within 0 (length ts) (some (k, t)) =
          subst (Within 0 (length ts)) q (scan-Within 0 ts s e) in
        Ends-bind (rec (take k ts)) _
          (smaller (take k ts) (omega (arith, length-take-le k ts, within.1)))
          λ a e₁.
            Ends-bind (rec (drop (suc k) ts)) _
              (smaller (drop (suc k) ts) (omega (arith, length-drop (suc k) ts)))
              λ b e₂. apply_op-Ends t a b

    split :
        (b : Bool)
        → Ends (elim b as (λ _. Result ℕ) [
          | true ↦ rec (inside ts)
          | false ↦ scan 0 ts >>= λ s. of_option assertion s.main_op >>= λ x.
              rec (take x.0 ts) >>= λ a. rec (drop (suc x.0) ts) >>= λ b. apply_op x.1 a b
        ])
    split true = smaller (inside ts) (omega (arith, length-inside ts))
    split false = Ends-bind (scan 0 ts) _ (scan-Ends 0 ts) λ s e. parts s e s.main_op refl

-- On any list of tokens, also one that spells no expression, the evaluator does not run out of fuel
-- when it has one unit more than there are tokens, as long as the reads of the host's memory do not:
-- its recursion ends.
pub eval-Ends :
    (env : Env) (fuel : ℕ) (ts : List Token)
    → ((a : ℕ) → Ends (env.host_word a))
    → length ts < fuel
    → Ends (eval env fuel ts)
unfolding eval eval_atom
eval-Ends env zero ts host enough = absurd (omega arith)
eval-Ends env (suc fuel) [] host enough = ground arith
eval-Ends env (suc fuel) (t ∷ []) host enough = ground (arith, host (to_u32 (strtol 16 t.str)))
eval-Ends env (suc fuel) (t ∷ u ∷ ts) host enough =
    eval_many-Ends (eval env fuel) (t ∷ u ∷ ts) (omega arith)
      λ us h. eval-Ends env fuel us host (omega arith)
