-- ===== src/Watchpoint/Tests.antt =====
-- The watchpoints on examples.
use nju_ics2020_pa.Base.{
  ℕ, ◌+◌, ◌<◌, ◌≡◌, ◌≤◌, suc, ap, false, refl, Option, none, some, List, [], ◌∷◌, arith, ltb, ◌==◌,
  if◌then◌else◌, Result, ok, length,
}
use nju_ics2020_pa.Watchpoint.{null, owned, Pool, new_wp, free_wp, check_wp_changed}
use nju_ics2020_pa.Watchpoint.Chains.{count, IsPool, IsArmed}
use nju_ics2020_pa.Watchpoint.Unlink.{IsFreed, free_wp-IsFreed}
use nju_ics2020_pa.Watchpoint.Lists.{slots, slots-Chain, count-slots, IsNew, new_wp-IsNew}
use nju_ics2020_pa.Watchpoint.Check.{Checked, check_wp_changed-Checked}

-- Watchpoints 1 and 0 in use, in this order, and the others free.
abbrev two : Pool
two = record {
  wp_pool = λ i. record {
    wp_no = i;
    next =
        if i == 1 then some 0 else if i == 0 then none else if i == 31 then none else some (i + 1);
    watch_expr = if ltb i 2 then owned (b'$' ∷ b'a' ∷ []) else null;
    watch_value = if i == 1 then 2 else 5;
  };
  head = some 1;
  free_ = some 2;
}

two-next : (j : ℕ) → 2 ≤ j → j < 31 → (two.wp_pool j).next ≡ some (suc j)
two-next j h k =
    let one : (j == 1) ≡ false = ground arith in
    let zero_ : (j == 0) ≡ false = ground arith in
    let last : (j == 31) ≡ false = ground arith in rw (one, zero_, last) (ap some (omega arith))

two-partition :
    (i c : ℕ)
    → c ≡ (if ltb i 2 then 0 else if ltb i 32 then 1 else 0)
    → count i (1 ∷ 0 ∷ []) + c ≡ (if ltb i 32 then 1 else 0)
two-partition i c h = ground arith

two-IsPool : IsPool two (1 ∷ 0 ∷ []) (slots 30 2)
two-IsPool = record {
  used_chain = (refl, (refl, refl));
  free_chain = slots-Chain 29 2 two.wp_pool two-next refl;
  partition = λ i. two-partition i _ (count-slots 30 2 i);
  size = refl;
  numbered = λ i h. refl;
}

two-IsArmed : IsArmed two.wp_pool (1 ∷ 0 ∷ [])
two-IsArmed = ((_, refl), ((_, refl), tt))

free_wp-IsFreed_example : IsFreed two 0 (1 ∷ 0 ∷ []) (slots 30 2) (free_wp (some 0) two)
free_wp-IsFreed_example =
    free_wp-IsFreed two 0 (1 ∷ 0 ∷ []) (slots 30 2) two-IsPool two-IsArmed (omega arith)

new_wp-IsNew_example : IsNew two 2 (1 ∷ 0 ∷ []) (slots 29 3) (new_wp two)
new_wp-IsNew_example = new_wp-IsNew two 2 (1 ∷ 0 ∷ []) (slots 29 3) two-IsPool

-- An evaluator that counts the characters.
abbrev count_chars : List ℕ → Result (Option ℕ)
count_chars t = ok (some (length t))

check_wp_changed-Checked_example :
    Checked count_chars two (λ _. 2) (1 ∷ 0 ∷ []) false (check_wp_changed count_chars two)
check_wp_changed-Checked_example =
    check_wp_changed-Checked count_chars two (λ _. 2) (1 ∷ 0 ∷ []) (slots 30 2) two-IsPool
      ((_, refl, refl), ((_, refl, refl), tt))
