-- ===== src/Watchpoint/Lists.antt =====
-- `init_wp_pool`, `new_wp`, `no_to_wp` and `watchpoint_display` on the lists that a pool stands for.
use nju_ics2020_pa.Base.{
  ℕ, zero, suc, ◌+◌, ◌≤◌, ◌<◌, ◌≡◌, refl, Option, none, some, List, [], ◌∷◌, arith, ltb, ◌==◌,
  if◌then◌else◌, length, inl, inr, Bool-cases, sym, subst, ◌∙◌, ap, Result, ok, stop, assertion,
}
use nju_ics2020_pa.Base.Int.{ℤ, pos, negsuc}
use nju_ics2020_pa.Watchpoint.{
  nr_wp, Wp, Pool, set_next, deref, init_loop, init_wp_pool, new_wp, no_loop, no_to_wp,
}
use nju_ics2020_pa.Watchpoint.Chains.{
  Chain, count, IsPool, Chain-frame, IsPool-lt, next-set_next_self, next-set_next_ne, set_next-no,
  set_next-expr, set_next-value,
}
use nju_ics2020_pa.Watchpoint.Unlink.{deref-ok}

-- The slots from `i` on, `n` of them.
abbrev pub slots : ℕ → ℕ → List ℕ
slots zero i = []
slots (suc n) i = i ∷ slots n (suc i)

length-slots : (n i : ℕ) → length (slots n i) ≡ n
length-slots zero i = refl
length-slots (suc n) i = ap suc (length-slots n (suc i))

pub count-slots :
    (n i j : ℕ) → count j (slots n i) ≡ (if ltb j i then 0 else if ltb j (i + n) then 1 else 0)
count-slots zero i j = ground arith
count-slots (suc n) i j = ground (arith, count-slots n (suc i) j)

slots-partition : (n i : ℕ) → count i [] + count i (slots n 0) ≡ (if ltb i n then 1 else 0)
slots-partition n i = ground (arith, count-slots n 0 i)

init_loop-below : (n i j : ℕ) (f : ℕ → Wp) → j < i → init_loop n i f j ≡ f j
unfolding init_loop
init_loop-below zero i j f h = refl
init_loop-below (suc n) i j f h = init_loop-below n (suc i) j _ (omega arith) ∙ ground arith

init_loop-next :
    (n i j : ℕ) (f : ℕ → Wp) → i ≤ j → j < i + n → (init_loop n i f j).next ≡ some (suc j)
unfolding init_loop
init_loop-next zero i j f h k = absurd (omega arith)
init_loop-next (suc n) i j f h k = elim (Bool-cases (i == j)) [
  | inl here ↦ ap (λ (w : Wp). w.next) (init_loop-below n (suc i) j _ (ground arith)) ∙ ground arith
  | inr later ↦ init_loop-next n (suc i) j _ (ground arith) (omega arith)
]

init_loop-no : (n i j : ℕ) (f : ℕ → Wp) → i ≤ j → j < i + n → (init_loop n i f j).wp_no ≡ j
unfolding init_loop
init_loop-no zero i j f h k = absurd (omega arith)
init_loop-no (suc n) i j f h k = elim (Bool-cases (i == j)) [
  | inl here ↦
      ap (λ (w : Wp). w.wp_no) (init_loop-below n (suc i) j _ (ground arith)) ∙ ground arith
  | inr later ↦ init_loop-no n (suc i) j _ (ground arith) (omega arith)
]

-- A run of slots, each of which points at the one behind it, the last one at NULL.
pub slots-Chain :
    (n i : ℕ) (f : ℕ → Wp)
    → ((j : ℕ) → i ≤ j → j < i + n → (f j).next ≡ some (suc j))
    → (f (i + n)).next ≡ none
    → Chain f (some i) (slots (suc n) i)
slots-Chain zero i f step last = (refl, subst (λ k. (f k).next ≡ none) (omega arith) last)
slots-Chain (suc n) i f step last = (
  refl,
  subst (λ p. Chain f p (slots (suc n) (suc i))) (sym (step i (omega arith) (omega arith)))
      (slots-Chain n (suc i) f (λ j h k. step j (omega arith) (omega arith))
        (subst (λ k. (f k).next ≡ none) (omega arith) last)),
)

-- Whatever the pool was, after `init_wp_pool` no watchpoint is in use, and the free list holds every slot in order.
pub init_wp_pool-IsPool : (s : Pool) → IsPool (init_wp_pool s) [] (slots nr_wp 0)
unfolding init_wp_pool
init_wp_pool-IsPool s = record {
  used_chain = refl;
  free_chain =
      slots-Chain 31 0 (init_wp_pool s).wp_pool
        (λ j h k.
          next-set_next_ne (init_loop 32 0 s.wp_pool) 31 j none (λ e. absurd (omega arith))
          ∙ init_loop-next 32 0 j s.wp_pool h (omega arith))
        (next-set_next_self (init_loop 32 0 s.wp_pool) 31 none);
  partition = λ i. slots-partition 32 i;
  size = refl;
  numbered = λ i k.
      set_next-no (init_loop 32 0 s.wp_pool) 31 i none
      ∙ init_loop-no 32 0 i s.wp_pool (omega arith) k;
}

-- What `new_wp` gives: the first free slot, now in front of the watchpoints in use.
pub record IsNew (s : Pool) (w : ℕ) (used free : List ℕ) (r : Result (ℕ × Pool)) : Type 0 where
  pub after : Pool
  pub returns : r ≡ ok (w, after)
  pub pool : IsPool after (w ∷ used) free
  pub same_expr : (i : ℕ) → (after.wp_pool i).watch_expr ≡ (s.wp_pool i).watch_expr
  pub same_value : (i : ℕ) → (after.wp_pool i).watch_value ≡ (s.wp_pool i).watch_value

-- With a free slot `new_wp` takes the first one, puts it in front of the watchpoints in use and keeps
-- every slot on exactly one list; no expression and no value changes.
pub new_wp-IsNew :
    (s : Pool) (w : ℕ) (used free : List ℕ)
    → IsPool s used (w ∷ free)
    → IsNew s w used free (new_wp s)
unfolding new_wp deref
new_wp-IsNew s w used free p = record {
  after = after;
  returns = rw (p.free_chain.0, deref-ok s w (IsPool-lt w p (ground arith)));
  pool = record {
    used_chain = (
      refl,
      subst (λ n. Chain after.wp_pool n used) (sym (next-set_next_self s.wp_pool w _))
          (Chain-frame s.wp_pool after.wp_pool s.head used
            (λ y k. next-set_next_ne s.wp_pool w y _ (λ e. absurd (ground (arith, p.partition w))))
            p.used_chain),
    );
    free_chain =
        Chain-frame s.wp_pool after.wp_pool _ free
          (λ y k. next-set_next_ne s.wp_pool w y _ (λ e. absurd (ground (arith, p.partition w))))
          p.free_chain.1;
    partition = λ i. ground (arith, p.partition i);
    size = omega (arith, p.size);
    numbered = λ i k. set_next-no s.wp_pool w i _ ∙ p.numbered i k;
  };
  same_expr = λ i. set_next-expr s.wp_pool w i _;
  same_value = λ i. set_next-value s.wp_pool w i _;
}
  where
    after : Pool
    after = record s {
      wp_pool = set_next s.wp_pool w s.head;
      head = some w;
      free_ = (s.wp_pool w).next;
    }

-- Without a free slot `new_wp` runs into its assertion.
new_wp-full : (s : Pool) (used : List ℕ) → IsPool s used [] → new_wp s ≡ stop assertion
unfolding new_wp
new_wp-full s used p = rw (p.free_chain)

no_loop-lem :
    (fuel n : ℕ) (s : Pool) (p : Option ℕ) (xs : List ℕ)
    → length xs < fuel
    → ((i : ℕ) → 0 < count i xs → i < nr_wp)
    → ((i : ℕ) → i < nr_wp → (s.wp_pool i).wp_no ≡ i)
    → Chain s.wp_pool p xs
    → no_loop fuel n p s ≡ ok (if ltb 0 (count n xs) then some n else none)
unfolding no_loop
no_loop-lem zero n s p xs room fits numbered chain = absurd (omega arith)
no_loop-lem (suc fuel) n s p [] room fits numbered chain = rw chain
no_loop-lem (suc fuel) n s p (x ∷ xs) room fits numbered chain =
    let inside : x < nr_wp = fits x (ground arith) in
    rw (chain.0, deref-ok s x inside, numbered x inside)
      (elim (Bool-cases (x == n)) [
        | inl hit ↦ rw hit (ground arith)
        | inr miss ↦ rw miss (
            no_loop-lem fuel n s (s.wp_pool x).next xs (omega arith) (λ i m. fits i (omega arith))
              numbered chain.1
            ∙ ground arith)
      ])

-- On a well-formed pool `no_to_wp` finds the slot with a number exactly when that watchpoint is in use; it finds none for
-- every other number, a negative one too.
pub no_to_wp_lem :
    (n : ℤ) (s : Pool) (used free : List ℕ)
    → IsPool s used free
    → no_to_wp n s
      ≡ ok (elim n [ pos i ↦ if ltb 0 (count i used) then some i else none | negsuc i ↦ none ])
unfolding no_to_wp
no_to_wp_lem (negsuc i) s used free p = refl
no_to_wp_lem (pos i) s used free p = elim (Bool-cases (ltb nr_wp i)) [
  | inl big ↦ rw big (ground (arith, p.partition i))
  | inr small ↦ rw small (
      no_loop-lem 33 i s s.head used (omega (arith, p.size)) (λ j m. IsPool-lt j p (omega arith))
        p.numbered p.used_chain)
]
