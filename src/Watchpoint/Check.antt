-- ===== src/Watchpoint/Check.antt =====
-- `check_wp_changed` and `watchpoint_display`: one pass over the watchpoints in use.
use nju_ics2020_pa.Base.{
  ℕ, zero, suc, ◌≤◌, ◌<◌, ◌≡◌, refl, Bool, true, false, Option, some, List, [], ◌∷◌, arith, ltb,
  ◌==◌, if◌then◌else◌, length, update, sym, subst, ◌∙◌, ap, Result, ok, ◌||◌, not,
}
use nju_ics2020_pa.Watchpoint.{nr_wp, owned, Wp, Pool, check_one, check_loop, check_wp_changed}
use nju_ics2020_pa.Watchpoint.Chains.{Chain, count, IsPool, Chain-frame}
use nju_ics2020_pa.Watchpoint.Unlink.{deref-ok, text-owned}

-- Each watchpoint of the list has an expression, and its value now is `now` of its slot.
abbrev pub Evaluates : (List ℕ → Result (Option ℕ)) → (ℕ → Wp) → (ℕ → ℕ) → List ℕ → Type 0
Evaluates expr f now [] = Unit {0}
Evaluates expr f now (x ∷ xs) =
    ((t : List ℕ) × ((f x).watch_expr ≡ owned t) × (expr t ≡ ok (some (now x))))
    × Evaluates expr f now xs

abbrev pub changed_in : (ℕ → Wp) → (ℕ → ℕ) → List ℕ → Bool
changed_in f now [] = false
changed_in f now (x ∷ xs) = if now x == (f x).watch_value then changed_in f now xs else true

-- `g` is `f`, but for the values of the slots in `xs`, which are those of `now`.
pub record IsRefreshed (f g : ℕ → Wp) (now : ℕ → ℕ) (xs : List ℕ) : Type 0 where
  pub same_next : (i : ℕ) → (g i).next ≡ (f i).next
  pub same_no : (i : ℕ) → (g i).wp_no ≡ (f i).wp_no
  pub same_expr : (i : ℕ) → (g i).watch_expr ≡ (f i).watch_expr
  pub inside : (i : ℕ) → 0 < count i xs → (g i).watch_value ≡ now i
  pub outside : (i : ℕ) → count i xs ≡ 0 → (g i).watch_value ≡ (f i).watch_value

abbrev refresh : (ℕ → Wp) → ℕ → ℕ → ℕ → Wp
refresh f x v = update f x (record (f x) { watch_value = v })

-- The pool after `check_one`.
abbrev refreshed : Pool → (ℕ → ℕ) → ℕ → Pool
refreshed s now x =
    if now x == (s.wp_pool x).watch_value
    then s
    else record s { wp_pool = refresh s.wp_pool x (now x) }

refreshed-IsRefreshed :
    (s : Pool) (now : ℕ → ℕ) (x : ℕ)
    → IsRefreshed s.wp_pool (refreshed s now x).wp_pool now (x ∷ [])
refreshed-IsRefreshed s now x = record {
  same_next = λ i. ground arith;
  same_no = λ i. ground arith;
  same_expr = λ i. ground arith;
  inside = λ i m. ground arith;
  outside = λ i m. ground arith;
}

IsRefreshed-cons :
    (f g h : ℕ → Wp) (now : ℕ → ℕ) (x : ℕ) (xs : List ℕ)
    → count x xs ≡ 0
    → IsRefreshed f g now (x ∷ [])
    → IsRefreshed g h now xs
    → IsRefreshed f h now (x ∷ xs)
IsRefreshed-cons f g h now x xs once a b = record {
  same_next = λ i. b.same_next i ∙ a.same_next i;
  same_no = λ i. b.same_no i ∙ a.same_no i;
  same_expr = λ i. b.same_expr i ∙ a.same_expr i;
  inside = λ i m. ground (arith, b.inside i, b.outside i, a.inside i);
  outside = λ i m. ground (arith, b.outside i, a.outside i);
}

Evaluates-frame :
    (expr : List ℕ → Result (Option ℕ)) (f g : ℕ → Wp) (now : ℕ → ℕ) (xs : List ℕ)
    → ((i : ℕ) → (g i).watch_expr ≡ (f i).watch_expr)
    → Evaluates expr f now xs
    → Evaluates expr g now xs
Evaluates-frame expr f g now [] same h = tt
Evaluates-frame expr f g now (x ∷ xs) same h =
    ((h.0.0, same x ∙ h.0.1, h.0.2), Evaluates-frame expr f g now xs same h.1)

changed_step :
    (b changed rest : Bool)
    → ((if not b then true else changed) || rest) ≡ (changed || (if b then rest else true))
changed_step b changed rest = ground arith

changed_in-frame :
    (f g : ℕ → Wp) (now : ℕ → ℕ) (xs : List ℕ)
    → ((i : ℕ) → 0 < count i xs → (g i).watch_value ≡ (f i).watch_value)
    → changed_in g now xs ≡ changed_in f now xs
changed_in-frame f g now [] same = refl
changed_in-frame f g now (x ∷ xs) same =
    rw (same x (ground arith), changed_in-frame f g now xs (λ i m. same i (omega arith)))

module _ (expr : List ℕ → Result (Option ℕ)) where
  check_one_lem :
      (s : Pool) (now : ℕ → ℕ) (x : ℕ) (t : List ℕ)
      → x < nr_wp
      → (s.wp_pool x).watch_expr ≡ owned t
      → expr t ≡ ok (some (now x))
      → check_one expr x s ≡ ok (not (now x == (s.wp_pool x).watch_value), refreshed s now x)
  unfolding check_one
  check_one_lem s now x t fits e v =
      simp (deref-ok s x fits, text-owned s x t e, v)
        (ap (λ (r : Bool × Pool). ok r) (ground arith))

  -- A pass over `xs` from `p`.
  pub record Checked (s : Pool) (now : ℕ → ℕ) (xs : List ℕ) (changed : Bool)
      (r : Result (Bool × Pool)) : Type 0 where
    pub after : Pool
    pub returns : r ≡ ok ((changed || changed_in s.wp_pool now xs), after)
    pub refreshed : IsRefreshed s.wp_pool after.wp_pool now xs
    pub same_head : after.head ≡ s.head
    pub same_free : after.free_ ≡ s.free_

  check_loop-step :
      (fuel : ℕ) (s : Pool) (now : ℕ → ℕ) (x : ℕ) (t : List ℕ) (xs : List ℕ) (changed : Bool)
      → x < nr_wp
      → (s.wp_pool x).watch_expr ≡ owned t
      → expr t ≡ ok (some (now x))
      → count x xs ≡ 0
      → Checked
          (refreshed s now x)
          now
          xs
          (if not (now x == (s.wp_pool x).watch_value) then true else changed)
          (check_loop expr fuel
            (s.wp_pool x).next
            (if not (now x == (s.wp_pool x).watch_value) then true else changed)
            (refreshed s now x))
      → Checked s now (x ∷ xs) changed (check_loop expr (suc fuel) (some x) changed s)
  unfolding check_loop
  check_loop-step fuel s now x t xs changed fits e v once rest = record {
    after = rest.after;
    returns =
        rw
          (
            check_one_lem s now x t fits e v,
            deref-ok (refreshed s now x) x fits,
            (refreshed-IsRefreshed s now x).same_next x,
          )
          (rest.returns
            ∙ ap (λ (b : Bool). ok (b, rest.after))
                (ap
                    (λ (r : Bool).
                      (if not (now x == (s.wp_pool x).watch_value) then true else changed) || r)
                    still
                  ∙ changed_step (now x == (s.wp_pool x).watch_value) changed _));
    refreshed =
        IsRefreshed-cons s.wp_pool (refreshed s now x).wp_pool rest.after.wp_pool now x xs once
          (refreshed-IsRefreshed s now x) rest.refreshed;
    same_head = rest.same_head ∙ ground arith;
    same_free = rest.same_free ∙ ground arith;
  }
    where
      still : changed_in (refreshed s now x).wp_pool now xs ≡ changed_in s.wp_pool now xs
      still =
          changed_in-frame s.wp_pool (refreshed s now x).wp_pool now xs
            λ i m. (refreshed-IsRefreshed s now x).outside i (ground arith)

  check_loop-Checked :
      (fuel : ℕ) (s : Pool) (now : ℕ → ℕ) (p : Option ℕ) (xs : List ℕ) (changed : Bool)
      → length xs < fuel
      → ((i : ℕ) → count i xs ≤ (if ltb i nr_wp then 1 else 0))
      → Chain s.wp_pool p xs
      → Evaluates expr s.wp_pool now xs
      → Checked s now xs changed (check_loop expr fuel p changed s)
  unfolding check_loop
  check_loop-Checked zero s now p xs changed room once chain ev = absurd (omega arith)
  check_loop-Checked (suc fuel) s now p [] changed room once chain ev = record {
    after = s;
    returns = rw chain (ap (λ (b : Bool). ok (b, s)) (ground arith));
    refreshed = record {
      same_next = λ i. refl;
      same_no = λ i. refl;
      same_expr = λ i. refl;
      inside = λ i m. absurd (omega arith);
      outside = λ i m. refl;
    };
    same_head = refl;
    same_free = refl;
  }
  check_loop-Checked (suc fuel) s now p (x ∷ xs) changed room once chain ev =
      let now_s = refreshed s now x in
      let kept = refreshed-IsRefreshed s now x in
      subst (λ q. Checked s now (x ∷ xs) changed (check_loop expr (suc fuel) q changed s))
        (sym chain.0)
        (check_loop-step fuel s now x ev.0.0 xs changed (ground (arith, once x)) ev.0.1 ev.0.2
          (ground (arith, once x))
          (check_loop-Checked fuel now_s now (s.wp_pool x).next xs _ (omega arith)
            (λ i. ground (arith, once i))
            (Chain-frame s.wp_pool now_s.wp_pool (s.wp_pool x).next xs (λ y m. kept.same_next y)
              chain.1)
            (Evaluates-frame expr s.wp_pool now_s.wp_pool now xs kept.same_expr ev.1)))

  -- With an expression for every watchpoint in use, each of which has a value now,
  -- `check_wp_changed` reports a change exactly when the value of one of them differs from the one
  -- recorded; then every one of them has its value now recorded, and nothing else in the pool differs.
  pub check_wp_changed-Checked :
      (s : Pool) (now : ℕ → ℕ) (used free : List ℕ)
      → IsPool s used free
      → Evaluates expr s.wp_pool now used
      → Checked s now used false (check_wp_changed expr s)
  unfolding check_wp_changed
  check_wp_changed-Checked s now used free p ev =
      check_loop-Checked 33 s now s.head used false (omega (arith, p.size))
        (λ i. ground (arith, p.partition i)) p.used_chain ev
