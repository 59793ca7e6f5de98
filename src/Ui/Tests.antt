-- ===== src/Ui/Tests.antt =====
-- The debugger's commands on examples.
use nju_ics2020_pa.Base.{ℕ, refl, none, some, List, [], ◌∷◌, ok, stop, undefined, arith}
use nju_ics2020_pa.Watchpoint.{null, init_wp_pool}
use nju_ics2020_pa.Watchpoint.Lists.{slots, init_wp_pool-IsPool}
use nju_ics2020_pa.Ui.{Ui, Calls, delete_loop, run_w}
use nju_ics2020_pa.Ui.Watch.{Added, Refused, run_w-Added, run_w-Refused}
use nju_ics2020_pa.Ui.Delete.{Deleted, numbers, without_all, delete_loop-Deleted}

abbrev ui : Ui ℕ
ui = record {
  pool = init_wp_pool (record {
    wp_pool = λ i. record { wp_no = 9; next = none; watch_expr = null; watch_value = 9 };
    head = none;
    free_ = none;
  });
  rest = 0;
}

-- Every expression of one character has the value 5, and the lexer refuses the others.
abbrev calls : Calls ℕ
calls = record {
  cpu_exec = λ n u. ok u;
  expr = λ s t. elim t as (λ _. _) [ c ∷ [] ↦ ok (some 5) | _ ↦ ok none ];
  host_word = λ s a. stop undefined;
}

run_w-Added_example : Added ui 0 (b'5' ∷ []) 5 [] (slots 31 1) (run_w calls (some (b'5' ∷ [])) ui)
run_w-Added_example =
    run_w-Added ui 0 (b'5' ∷ []) [] (slots 31 1) (init_wp_pool-IsPool _) tt calls 5 refl

run_w-Refused_example : Refused ui 0 [] (slots 31 1) (run_w calls (some (b'?' ∷ b'?' ∷ [])) ui)
run_w-Refused_example =
    run_w-Refused ui 0 (b'?' ∷ b'?' ∷ []) [] (slots 31 1) (init_wp_pool-IsPool _) tt calls refl

added : Added ui 0 (b'5' ∷ []) 5 [] (slots 31 1) (run_w calls (some (b'5' ∷ [])) ui)
added = run_w-Added ui 0 (b'5' ∷ []) [] (slots 31 1) (init_wp_pool-IsPool _) tt calls 5 refl

-- `d 3 0`: there is no watchpoint 3.
abbrev line : List ℕ
line = b'3' ∷ b' ' ∷ b'0' ∷ []

delete_loop-Deleted_example :
    Deleted (without_all (numbers 3 line) (0 ∷ [])) (delete_loop 3 line added.after)
delete_loop-Deleted_example =
    delete_loop-Deleted 3 line added.after (0 ∷ []) (slots 31 1) (omega arith) added.pool
      added.armed
