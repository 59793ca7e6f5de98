-- ===== src/GenExpr/Written/Parts.antt =====
-- What the calls of the generator append, and how that of two calls is put together.
use nju_ics2020_pa.Base.{
  ℕ, ◌+◌, ◌-◌, ◌%◌, ◌<◌, ◌≡◌, refl, ap, ◌∙◌, sym, subst, Bool, true, false, List, [], ◌∷◌, ◌++◌,
  length, length-append, leb, Result, ok, stop, out_of_fuel, ◌>>=◌, arith, Ends, Ends-bind,
  Ends-map, Bool-cases, inl, inr,
}
use native.Mathlib.Nat.{mod-lt}
use nju_ics2020_pa.Base.Bytes.{copy, copy-append}
use nju_ics2020_pa.GenExpr.{Gen, max_index, choose, put, gen, if_true}

-- The buffer grows by a string with `P` if the call returns true, and by some string if not; there is room
-- for a NUL.
pub record Appended (g : Gen) (P : List ℕ → Type 0) (x : Bool × Gen) : Type 0 where
  pub written : List ℕ
  pub buf : x.1.buf ≡ copy g.buf g.buf_index written
  pub index : x.1.buf_index ≡ g.buf_index + length written
  pub room : x.1.buf_index < max_index
  pub parsed : x.0 ≡ true → P written

abbrev pub Writes : Gen → (List ℕ → Type 0) → Result (Bool × Gen) → Type 0
Writes g P r = Ends (Appended g P) r

pub record Both (P Q : List ℕ → Type 0) (s : List ℕ) : Type 0 where
  pub a : List ℕ
  pub b : List ℕ
  pub whole : a ++ b ≡ s
  pub left : P a
  pub right : Q b

true-false : {P : Type 0} → false ≡ true → P
true-false e = absurd (subst (λ b. elim b [ true ↦ ⊥ | false ↦ Unit {0} ]) e tt)

pub nothing-Appended :
    (g g' : Gen) (P : List ℕ → Type 0)
    → g'.buf ≡ g.buf
    → g'.buf_index ≡ g.buf_index
    → g.buf_index < max_index
    → Appended g P (false, g')
unfolding copy
nothing-Appended g g' P hb hi room = record {
  written = [];
  buf = hb;
  index = omega (arith, hi);
  room = omega (arith, hi);
  parsed = true-false;
}

pub put-Writes :
    (s : List ℕ) (g : Gen) (P : List ℕ → Type 0)
    → P s
    → g.buf_index + length s < max_index
    → Writes g P (put s g)
unfolding put
put-Writes s g P h room =
    let fits : leb (g.buf_index + length s) max_index ≡ true = ground arith in
    rw fits (record { written = s; buf = refl; index = refl; room = room; parsed = λ _. h })

abbrev pub IsChar : ℕ → List ℕ → Type 0
IsChar c s = s ≡ c ∷ []

pub gen-Writes : (c : ℕ) (g : Gen) → g.buf_index < max_index → Writes g (IsChar c) (gen c g)
unfolding gen
gen-Writes c g h = elim (Bool-cases (leb (max_index - 1) g.buf_index)) [
  | inl full ↦ rw full (nothing-Appended g g (IsChar c) refl refl h)
  | inr free ↦ rw free (put-Writes (c ∷ []) g (IsChar c) refl (ground arith))
]

-- A random number below n.
pub choose-Ends {ℓ} :
    {B : Type ℓ} (P : B → Type 0) (n : ℕ) (g : Gen) (k : ℕ × Gen → Result B)
    → 0 < n
    → ((c : ℕ) (rands : List ℕ) → c < n → Ends P (k (c, record g { rands = rands })))
    → Ends P (choose n g >>= k)
choose-Ends P n g k pos h = drawn (g.rands)
  where
    drawn :
        (l : List ℕ)
        → Ends P
            (elim l [ [] ↦ stop out_of_fuel | r ∷ rs ↦ ok (r % n, record g { rands = rs }) ] >>= k)
    drawn [] = tt
    drawn (r ∷ rs) = h (r % n) rs (mod-lt r pos)

pub if_true-Writes :
    (g : Gen) (P Q : List ℕ → Type 0) (r : Result (Bool × Gen)) (next : Gen → Result (Bool × Gen))
    → Writes g P r
    → ((g' : Gen) → g'.buf_index < max_index → Writes g' Q (next g'))
    → Writes g (Both P Q) (if_true r next)
if_true-Writes g P Q r next h k = Ends-bind (Appended g P) (Appended g (Both P Q)) r _ h goes_on
  where
    joined :
        (g' : Gen) (y : Bool × Gen)
        → Appended g P (true, g')
        → Appended g' Q y
        → Appended g (Both P Q) y
    joined g' y a b = record {
      written = a.written ++ b.written;
      buf =
          b.buf
          ∙ ap (λ i. copy g'.buf i (b.written)) (a.index)
          ∙ ap (λ m. copy m (g.buf_index + length (a.written)) (b.written)) (a.buf)
          ∙ sym (copy-append (a.written) (b.written) g.buf g.buf_index);
      index = omega (arith, b.index, a.index, length-append (a.written) (b.written));
      room = b.room;
      parsed = λ e. record {
        a = a.written;
        b = b.written;
        whole = refl;
        left = a.parsed refl;
        right = b.parsed e;
      };
    }

    goes_on :
        (x : Bool × Gen)
        → Appended g P x
        → Writes g (Both P Q) (elim x.0 [ true ↦ next x.1 | false ↦ ok (false, x.1) ])
    goes_on (true, g') a =
        Ends-map (Appended g' Q) (Appended g (Both P Q)) (next g') (k g' (a.room))
          (λ y. joined g' y a)
    goes_on (false, g') a = record {
      written = a.written;
      buf = a.buf;
      index = a.index;
      room = a.room;
      parsed = true-false;
    }

-- A choice changes nothing that is written.
pub from_choice :
    (g : Gen) (rands : List ℕ) (P : List ℕ → Type 0) (r : Result (Bool × Gen))
    → Writes (record g { rands = rands }) P r
    → Writes g P r
from_choice g rands P r h =
    Ends-map (Appended (record g { rands = rands }) P) (Appended g P) r h (λ x a. record {
      written = a.written;
      buf = a.buf;
      index = a.index;
      room = a.room;
      parsed = a.parsed;
    })
