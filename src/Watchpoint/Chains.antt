-- ===== src/Watchpoint/Chains.antt =====
-- The abstract view of the pool: the slots of each list, in order.
use nju_ics2020_pa.Base.{
  ℕ, ◌+◌, ◌<◌, ◌≡◌, ◌≢◌, Option, none, some, List, [], ◌∷◌, arith, ltb, ◌==◌, if◌then◌else◌, length,
  inl, inr, Bool-cases, sym, subst, ◌∙◌,
}
use nju_ics2020_pa.Watchpoint.{nr_wp, owned, Wp, Pool, set_next}

-- From `p` the `next` pointers lead through the slots `xs` to NULL.
abbrev pub Chain : (ℕ → Wp) → Option ℕ → List ℕ → Type 0
Chain f p [] = p ≡ none
Chain f p (x ∷ xs) = (p ≡ some x) × Chain f (f x).next xs

abbrev pub count : ℕ → List ℕ → ℕ
count i [] = 0
count i (x ∷ xs) = (if i == x then 1 else 0) + count i xs

abbrev pub erase : ℕ → List ℕ → List ℕ
erase w [] = []
erase w (x ∷ xs) = if x == w then xs else x ∷ erase w xs

-- Both lists end, and every slot of the pool is on exactly one of them, once.
pub record IsPool (s : Pool) (used free : List ℕ) : Type 0 where
  pub used_chain : Chain s.wp_pool s.head used
  pub free_chain : Chain s.wp_pool s.free_ free
  pub partition : (i : ℕ) → count i used + count i free ≡ (if ltb i nr_wp then 1 else 0)
  pub size : length used + length free ≡ nr_wp
  pub numbered : (i : ℕ) → i < nr_wp → (s.wp_pool i).wp_no ≡ i

-- Every watchpoint in use has its expression.
abbrev pub IsArmed : (ℕ → Wp) → List ℕ → Type 0
IsArmed f [] = Unit {0}
IsArmed f (x ∷ xs) = ((t : List ℕ) × ((f x).watch_expr ≡ owned t)) × IsArmed f xs

pub count-erase :
    (i w : ℕ) (xs : List ℕ)
    → 0 < count w xs
    → count i (erase w xs) + (if i == w then 1 else 0) ≡ count i xs
count-erase i w [] h = absurd (omega arith)
count-erase i w (x ∷ xs) h = ground (arith, count-erase i w xs)

pub length-erase : (w : ℕ) (xs : List ℕ) → 0 < count w xs → length (erase w xs) + 1 ≡ length xs
length-erase w [] h = absurd (omega arith)
length-erase w (x ∷ xs) h = ground (arith, length-erase w xs)

-- `p->next = n` changes no other member and no other slot.
pub next-set_next_self : (f : ℕ → Wp) (p : ℕ) (n : Option ℕ) → (set_next f p n p).next ≡ n
next-set_next_self f p n = ground arith

pub next-set_next_ne :
    (f : ℕ → Wp) (p q : ℕ) (n : Option ℕ) → p ≢ q → (set_next f p n q).next ≡ (f q).next
next-set_next_ne f p q n ne = ground arith

pub set_next-no : (f : ℕ → Wp) (p q : ℕ) (n : Option ℕ) → (set_next f p n q).wp_no ≡ (f q).wp_no
set_next-no f p q n = ground arith

pub set_next-expr :
    (f : ℕ → Wp) (p q : ℕ) (n : Option ℕ) → (set_next f p n q).watch_expr ≡ (f q).watch_expr
set_next-expr f p q n = ground arith

pub set_next-value :
    (f : ℕ → Wp) (p q : ℕ) (n : Option ℕ) → (set_next f p n q).watch_value ≡ (f q).watch_value
set_next-value f p q n = ground arith

-- A chain survives a change that keeps the `next` of its own slots.
pub Chain-frame :
    (f g : ℕ → Wp) (p : Option ℕ) (xs : List ℕ)
    → ((y : ℕ) → 0 < count y xs → (g y).next ≡ (f y).next)
    → Chain f p xs
    → Chain g p xs
Chain-frame f g p [] same h = h
Chain-frame f g p (x ∷ xs) same h = (
  h.0,
  Chain-frame f g (g x).next xs (λ y m. same y (omega arith))
      (subst (λ q. Chain f q xs) (sym (same x (ground arith))) h.1),
)

pub IsArmed-frame :
    (f g : ℕ → Wp) (xs : List ℕ)
    → ((y : ℕ) → 0 < count y xs → (g y).watch_expr ≡ (f y).watch_expr)
    → IsArmed f xs
    → IsArmed g xs
IsArmed-frame f g [] same h = tt
IsArmed-frame f g (x ∷ xs) same h =
    ((h.0.0, same x (ground arith) ∙ h.0.1), IsArmed-frame f g xs (λ y m. same y (omega arith)) h.1)

pub IsArmed-erase : (f : ℕ → Wp) (w : ℕ) (xs : List ℕ) → IsArmed f xs → IsArmed f (erase w xs)
IsArmed-erase f w [] h = tt
IsArmed-erase f w (x ∷ xs) h = elim (Bool-cases (x == w)) [
  | inl hit ↦ rw hit h.1
  | inr miss ↦ rw miss (h.0, IsArmed-erase f w xs h.1)
]

-- A member of an armed list has a string.
pub IsArmed-at :
    (f : ℕ → Wp) (w : ℕ) (xs : List ℕ)
    → 0 < count w xs
    → IsArmed f xs
    → (t : List ℕ) × ((f w).watch_expr ≡ owned t)
IsArmed-at f w [] m h = absurd (omega arith)
IsArmed-at f w (x ∷ xs) m h = elim (Bool-cases (w == x)) [
  | inl same ↦ (h.0.0, subst (λ y. (f y).watch_expr ≡ owned h.0.0) (ground arith) h.0.1)
  | inr other ↦ IsArmed-at f w xs (ground arith) h.1
]

-- A slot on a list of the pool is in the array.
pub IsPool-lt :
    {s : Pool} {used free : List ℕ} (w : ℕ)
    → IsPool s used free
    → 0 < count w used + count w free
    → w < nr_wp
IsPool-lt w p m = ground (arith, p.partition w)
