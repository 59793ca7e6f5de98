-- ===== src/Watchpoint/Unlink.antt =====
-- `free_wp`: a watchpoint in use moves to the free list.
use nju_ics2020_pa.Base.{
  ℕ, zero, suc, ◌≤◌, ◌<◌, ◌≡◌, ◌≢◌, refl, true, false, some, List, [], ◌∷◌, arith, ltb, ◌==◌,
  if◌then◌else◌, length, update, inl, inr, Bool-cases, sym, subst, ◌∙◌, ap, Result, ok, ==_refl,
}
use nju_ics2020_pa.Watchpoint.{
  nr_wp, freed, owned, Wp, Pool, set_next, deref, walk, unlink, free_wp, text,
}
use nju_ics2020_pa.Watchpoint.Chains.{
  Chain, count, erase, IsPool, IsArmed, count-erase, length-erase, Chain-frame, IsArmed-frame,
  IsArmed-at, IsArmed-erase, IsPool-lt, next-set_next_self, next-set_next_ne, set_next-no,
  set_next-expr, set_next-value,
}

pub deref-ok : (s : Pool) (p : ℕ) → p < nr_wp → deref s p ≡ ok (s.wp_pool p)
unfolding deref
deref-ok s p h = ground arith

-- The walk along the slots `x ∷ xs` stops at the predecessor of `w`, and taking `w` out there erases
-- it from the chain.
pub record Found (s : Pool) (w x : ℕ) (xs : List ℕ) (r : Result ℕ) : Type 0 where
  pub pre : ℕ
  pub returns : r ≡ ok pre
  pub on_chain : 0 < count pre (x ∷ xs)
  pub before : (s.wp_pool pre).next ≡ some w
  pub relinked : Chain (set_next s.wp_pool pre (s.wp_pool w).next) (some x) (x ∷ erase w xs)

module _ (s : Pool) (w : ℕ) where
  walk-here :
      (fuel x y : ℕ) (ys : List ℕ)
      → (y == w) ≡ true
      → x < nr_wp
      → (s.wp_pool x).next ≡ some y
      → count x ys ≡ 0
      → Chain s.wp_pool (s.wp_pool y).next ys
      → Found s w x (y ∷ ys) (walk (suc fuel) x w s)
  unfolding walk
  walk-here fuel x y ys hit fits e out chain = record {
    pre = x;
    returns = rw (deref-ok s x fits, e, hit);
    on_chain = ground arith;
    before = e ∙ ap (λ (n : ℕ). some n) (ground arith);
    relinked = rw hit (
      refl,
      let same : y ≡ w = ground arith in
          Chain-frame s.wp_pool (set_next s.wp_pool x (s.wp_pool w).next) _ ys (λ z m. ground arith)
            (subst (λ n. Chain s.wp_pool n ys)
              (ap (λ k. (s.wp_pool k).next) same ∙ sym (next-set_next_self s.wp_pool x _)) chain),
    );
  }

  walk-on :
      (fuel x y : ℕ) (ys : List ℕ)
      → (y == w) ≡ false
      → x < nr_wp
      → (s.wp_pool x).next ≡ some y
      → count x (y ∷ ys) ≡ 0
      → Found s w y ys (walk fuel y w s)
      → Found s w x (y ∷ ys) (walk (suc fuel) x w s)
  unfolding walk
  walk-on fuel x y ys miss fits e out rest = record {
    pre = rest.pre;
    returns = rw (deref-ok s x fits, e, miss) rest.returns;
    on_chain = ground (arith, rest.on_chain);
    before = rest.before;
    relinked = rw miss (refl, (next-set_next_ne s.wp_pool rest.pre x _ apart ∙ e, rest.relinked.1));
  }
    where
      apart : rest.pre ≢ x
      apart same = absurd (ground (arith, rest.on_chain, out, same))

  pub walk-Found :
      (fuel x : ℕ) (xs : List ℕ)
      → length xs < fuel
      → ((i : ℕ) → count i (x ∷ xs) ≤ (if ltb i nr_wp then 1 else 0))
      → 0 < count w xs
      → Chain s.wp_pool (some x) (x ∷ xs)
      → Found s w x xs (walk fuel x w s)
  unfolding walk
  walk-Found fuel x [] room once m chain = absurd (omega arith)
  walk-Found zero x (y ∷ ys) room once m chain = absurd (omega arith)
  walk-Found (suc fuel) x (y ∷ ys) room once m chain = elim (Bool-cases (y == w)) [
    | inl hit ↦
        walk-here fuel x y ys hit (ground (arith, once x)) chain.1.0 (ground (arith, once x))
          chain.1.1
    | inr miss ↦
        walk-on fuel x y ys miss (ground (arith, once x)) chain.1.0 (ground (arith, once x)) (
          walk-Found fuel y ys (omega arith) (λ i. ground (arith, once i)) (ground arith)
            (refl, chain.1.1))
  ]

-- What taking `w` out of the list of the watchpoints in use leaves and changes.
pub record Unlinked (s : Pool) (w : ℕ) (used : List ℕ) (r : Result Pool) : Type 0 where
  pub after : Pool
  pub returns : r ≡ ok after
  pub chain : Chain after.wp_pool after.head (erase w used)
  pub same_free : after.free_ ≡ s.free_
  pub same_no : (i : ℕ) → (after.wp_pool i).wp_no ≡ (s.wp_pool i).wp_no
  pub same_expr : (i : ℕ) → (after.wp_pool i).watch_expr ≡ (s.wp_pool i).watch_expr
  pub same_value : (i : ℕ) → (after.wp_pool i).watch_value ≡ (s.wp_pool i).watch_value
  pub outside : (i : ℕ) → count i used ≡ 0 → (after.wp_pool i).next ≡ (s.wp_pool i).next

module _ (s : Pool) (w x : ℕ) (xs : List ℕ) (fits : w < nr_wp) (head : s.head ≡ some x)
    (chain : Chain s.wp_pool (some x) (x ∷ xs)) where
  unlink-first : (x == w) ≡ true → Unlinked s w (x ∷ xs) (unlink x w s)
  unfolding unlink
  unlink-first hit = record {
    after = record s { head = (s.wp_pool w).next };
    returns = rw (deref-ok s w fits, hit);
    chain = rw hit (subst (λ k. Chain s.wp_pool (s.wp_pool k).next xs) (ground arith) chain.1);
    same_free = refl;
    same_no = λ i. refl;
    same_expr = λ i. refl;
    same_value = λ i. refl;
    outside = λ i o. refl;
  }

  unlink-later :
      (x == w) ≡ false
      → (found : Found s w x xs (walk nr_wp x w s)) → found.pre < nr_wp
      → Unlinked s w (x ∷ xs) (unlink x w s)
  unfolding unlink
  unlink-later miss found inside = record {
    after = record s { wp_pool = set_next s.wp_pool found.pre (s.wp_pool w).next };
    returns = rw (
      deref-ok s w fits,
      miss,
      found.returns,
      deref-ok s found.pre inside,
      found.before,
      ==_refl,
    );
    chain = rw (miss, head) found.relinked;
    same_free = refl;
    same_no = λ i. set_next-no s.wp_pool found.pre i _;
    same_expr = λ i. set_next-expr s.wp_pool found.pre i _;
    same_value = λ i. set_next-value s.wp_pool found.pre i _;
    outside = λ i o.
        next-set_next_ne s.wp_pool found.pre i _ (λ same. absurd (ground (arith, found.on_chain)));
  }

  pub unlink-Unlinked :
      length (x ∷ xs) ≤ nr_wp
      → ((i : ℕ) → count i (x ∷ xs) ≤ (if ltb i nr_wp then 1 else 0))
      → 0 < count w (x ∷ xs)
      → Unlinked s w (x ∷ xs) (unlink x w s)
  unlink-Unlinked room once m = elim (Bool-cases (x == w)) [
    | inl hit ↦ unlink-first hit
    | inr miss ↦
        let found = walk-Found s w nr_wp x xs (omega arith) once (ground arith) chain in
        unlink-later miss found (ground (arith, once found.pre, found.on_chain))
  ]

-- What `free_wp` leaves: the watchpoint is on the free list, the others keep what they hold.
pub record IsFreed (s : Pool) (w : ℕ) (used free : List ℕ) (r : Result Pool) : Type 0 where
  pub after : Pool
  pub returns : r ≡ ok after
  pub pool : IsPool after (erase w used) (w ∷ free)
  pub armed : IsArmed after.wp_pool (erase w used)
  pub released : (after.wp_pool w).watch_expr ≡ freed
  pub same_expr : (i : ℕ) → i ≢ w → (after.wp_pool i).watch_expr ≡ (s.wp_pool i).watch_expr
  pub same_value : (i : ℕ) → i ≢ w → (after.wp_pool i).watch_value ≡ (s.wp_pool i).watch_value

-- The string of a watchpoint that has one.
pub text-owned :
    (s : Pool) (w : ℕ) (t : List ℕ)
    → (s.wp_pool w).watch_expr ≡ owned t
    → text (s.wp_pool w).watch_expr ≡ ok t
unfolding text
text-owned s w t h = rw h

-- `free(wp->watch_expr); wp->watch_value = 0;`
abbrev cleared : Pool → ℕ → Pool
cleared s w = record s {
  wp_pool = update s.wp_pool w (record (s.wp_pool w) { watch_expr = freed; watch_value = 0 });
}

next-cleared : (s : Pool) (w i : ℕ) → ((cleared s w).wp_pool i).next ≡ (s.wp_pool i).next
next-cleared s w i = ground arith

no-cleared : (s : Pool) (w i : ℕ) → ((cleared s w).wp_pool i).wp_no ≡ (s.wp_pool i).wp_no
no-cleared s w i = ground arith

cleared-ne : (s : Pool) (w i : ℕ) → i ≢ w → (cleared s w).wp_pool i ≡ s.wp_pool i
cleared-ne s w i ne = ground arith

expr-cleared_self : (s : Pool) (w : ℕ) → ((cleared s w).wp_pool w).watch_expr ≡ freed
expr-cleared_self s w = ground arith

-- The last two statements of `free_wp`.
abbrev pushed : Pool → ℕ → Pool
pushed s w = record s { wp_pool = set_next s.wp_pool w s.free_; free_ = some w }

module _ (s : Pool) (w : ℕ) (used free : List ℕ) (p : IsPool s used free) (m : 0 < count w used)
    (armed : IsArmed s.wp_pool used) where
  free_out : count w free ≡ 0
  free_out = ground (arith, p.partition w)

  apart : (i : ℕ) → 0 < count i free → w ≢ i
  apart i k e = absurd (ground (arith, free_out))

  erased : (i : ℕ) → 0 < count i (erase w used) → w ≢ i
  erased i k e = absurd (ground (arith, p.partition w, count-erase w w used))

  pushed-IsPool :
      {r : Result Pool} (u : Unlinked (cleared s w) w used r)
      → IsPool (pushed u.after w) (erase w used) (w ∷ free)
  pushed-IsPool u = record {
    used_chain =
        Chain-frame u.after.wp_pool (pushed u.after w).wp_pool u.after.head (erase w used)
          (λ y k. next-set_next_ne u.after.wp_pool w y _ (erased y k)) u.chain;
    free_chain = (
      refl,
      Chain-frame s.wp_pool (pushed u.after w).wp_pool _ free
          (λ y k.
            next-set_next_ne u.after.wp_pool w y _ (apart y k)
            ∙ u.outside y (ground (arith, p.partition y))
            ∙ next-cleared s w y)
          (subst (λ n. Chain s.wp_pool n free)
            (sym u.same_free ∙ sym (next-set_next_self u.after.wp_pool w _)) p.free_chain),
    );
    partition = λ i. ground (arith, p.partition i, count-erase i w used);
    size = omega (arith, p.size, length-erase w used);
    numbered =
        λ i k. set_next-no u.after.wp_pool w i _ ∙ u.same_no i ∙ no-cleared s w i ∙ p.numbered i k;
  }

  pushed-expr :
      {r : Result Pool} (u : Unlinked (cleared s w) w used r) (i : ℕ)
      → i ≢ w
      → ((pushed u.after w).wp_pool i).watch_expr ≡ (s.wp_pool i).watch_expr
  pushed-expr u i ne =
      set_next-expr u.after.wp_pool w i _
      ∙ u.same_expr i
      ∙ ap (λ (v : Wp). v.watch_expr) (cleared-ne s w i ne)

  pushed-IsArmed :
      {r : Result Pool} (u : Unlinked (cleared s w) w used r)
      → IsArmed (pushed u.after w).wp_pool (erase w used)
  pushed-IsArmed u =
      IsArmed-frame s.wp_pool (pushed u.after w).wp_pool (erase w used)
        (λ y k. pushed-expr u y (λ e. erased y k (sym e))) (IsArmed-erase s.wp_pool w used armed)

  free_wp-returns :
      (h : ℕ) (u : Unlinked (cleared s w) w used (unlink h w (cleared s w)))
      → s.head ≡ some h
      → free_wp (some w) s ≡ ok (pushed u.after w)
  unfolding free_wp
  free_wp-returns h u e =
      let (t, has_text) = IsArmed-at s.wp_pool w used m armed in
      simp (e, deref-ok s w (IsPool-lt w p (omega arith)), text-owned s w t has_text)
        (rw (← e, u.returns))

  IsFreed-by :
      (h : ℕ) (u : Unlinked (cleared s w) w used (unlink h w (cleared s w)))
      → s.head ≡ some h
      → IsFreed s w used free (free_wp (some w) s)
  IsFreed-by h u e = record {
    after = pushed u.after w;
    returns = free_wp-returns h u e;
    pool = pushed-IsPool u;
    armed = pushed-IsArmed u;
    released = set_next-expr u.after.wp_pool w w _ ∙ u.same_expr w ∙ expr-cleared_self s w;
    same_expr = λ i ne. pushed-expr u i ne;
    same_value = λ i ne.
        set_next-value u.after.wp_pool w i _
        ∙ u.same_value i
        ∙ ap (λ (v : Wp). v.watch_value) (cleared-ne s w i ne);
  }

free_wp-from :
    (s : Pool) (w : ℕ) (used free : List ℕ)
    → IsPool s used free
    → Chain s.wp_pool s.head used
    → 0 < count w used
    → IsArmed s.wp_pool used
    → IsFreed s w used free (free_wp (some w) s)
free_wp-from s w [] free p chain m armed = absurd (omega arith)
free_wp-from s w (x ∷ xs) free p chain m armed =
    IsFreed-by s w (x ∷ xs) free p m armed x
      (unlink-Unlinked (cleared s w) w x xs (IsPool-lt w p (omega arith)) chain.0
        (Chain-frame s.wp_pool (cleared s w).wp_pool (some x) (x ∷ xs) (λ y k. next-cleared s w y)
          (refl, chain.1))
        (omega (arith, p.size)) (λ i. ground (arith, p.partition i)) m)
      chain.0

-- Freeing a watchpoint in use, where all of those have their expressions, succeeds: it moves from its place in the list of those in use to the
-- front of the free list, the other watchpoints keep their order, their expressions and their values,
-- its expression is given back, and every slot is still on exactly one list.
pub free_wp-IsFreed :
    (s : Pool) (w : ℕ) (used free : List ℕ)
    → IsPool s used free
    → IsArmed s.wp_pool used
    → 0 < count w used
    → IsFreed s w used free (free_wp (some w) s)
free_wp-IsFreed s w used free p armed m = free_wp-from s w used free p p.used_chain m armed
