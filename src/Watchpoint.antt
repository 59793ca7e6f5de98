-- ===== src/Watchpoint.antt =====
-- nemu/src/monitor/debug/watchpoint.c: the pool of watchpoints and its two linked lists.
-- A `WP *` is `none` for NULL and `some i` for `&wp_pool[i]`.
pub mod Chains
pub mod Unlink
pub mod Lists
pub mod Check
mod Tests
use nju_ics2020_pa.Base.{
  ℕ, zero, suc, ◌+◌, ◌-◌, Bool, true, false, Option, none, some, List, [], ◌∷◌, ltb, ◌==◌,
  if◌then◌else◌, update, Result, ok, stop, assertion, undefined, out_of_fuel, ◌>>=◌, ◌>>◌, assert,
  defined, of_option,
}
use nju_ics2020_pa.Base.Int.{ℤ, pos, negsuc}

abbrev pub nr_wp : ℕ
nr_wp = 32

-- What `char *watch_expr` points at: nothing, a string that `malloc` gave, or one given back.
pub data WatchExpr : Type 0 where
  null freed : WatchExpr
  owned : List ℕ → WatchExpr

-- `WP`; `wp_no` is its member `NO`.
pub record Wp : Type 0 where
  pub wp_no : ℕ
  pub next : Option ℕ
  pub watch_expr : WatchExpr
  pub watch_value : ℕ

-- The static variables of the file.
pub record Pool : Type 0 where
  pub wp_pool : ℕ → Wp
  pub head : Option ℕ
  pub free_ : Option ℕ

abbrev pub same_wp : Option ℕ → ℕ → Bool
same_wp none w = false
same_wp (some p) w = p == w

abbrev pub set_next : (ℕ → Wp) → ℕ → Option ℕ → ℕ → Wp
set_next f p n = update f p (record (f p) { next = n })

init_loop : ℕ → ℕ → (ℕ → Wp) → ℕ → Wp
init_loop zero i f = f
init_loop (suc left) i f =
    init_loop left (suc i)
      (update f i (record { wp_no = i; next = some (suc i); watch_expr = null; watch_value = 0 }))

pub init_wp_pool : Pool → Pool
init_wp_pool s = record {
  wp_pool = set_next (init_loop nr_wp 0 s.wp_pool) (nr_wp - 1) none;
  head = none;
  free_ = some 0;
}

-- `*p`, which is defined only at the elements of `wp_pool`.
pub deref : Pool → ℕ → Result Wp
deref s p = defined (ltb p nr_wp) >> ok (s.wp_pool p)

pub new_wp : Pool → Result (ℕ × Pool)
new_wp s = do
  p ← of_option assertion s.free_
  w ← deref s p
  ok (p, record s { wp_pool = set_next s.wp_pool p s.head; head = some p; free_ = w.next })

-- The string of a watchpoint, as `printf` and `expr` read it.
pub text : WatchExpr → Result (List ℕ)
text (owned t) = ok t
text null = stop undefined
text freed = stop undefined

-- `while (pre->next != wp && NULL != pre->next) pre = pre->next;`
pub walk : ℕ → ℕ → ℕ → Pool → Result ℕ
walk zero pre w s = stop out_of_fuel
walk (suc fuel) pre w s = do
  v ← deref s pre
  elim v.next [ none ↦ ok pre | some n ↦ if n == w then ok pre else walk fuel n w s ]

-- Taking `w` out of the list from `head`.
pub unlink : ℕ → ℕ → Pool → Result Pool
unlink h w s = do
  v ← deref s w
  if h == w then ok (record s { head = v.next }) else do
    pre ← walk nr_wp h w s
    before ← deref s pre
    assert (same_wp before.next w)
    ok (record s { wp_pool = set_next s.wp_pool pre v.next })

pub free_wp : Option ℕ → Pool → Result Pool
free_wp wp s = do
  w ← of_option assertion wp
  h ← of_option assertion s.head
  v ← deref s w
  _ ← text v.watch_expr
  s' ←
      unlink h w (record s {
        wp_pool = update s.wp_pool w (record v { watch_expr = freed; watch_value = 0 });
      })
  ok (record s' { wp_pool = set_next s'.wp_pool w s'.free_; free_ = some w })

no_loop : ℕ → ℕ → Option ℕ → Pool → Result (Option ℕ)
no_loop zero no' p s = stop out_of_fuel
no_loop (suc fuel) no' none s = ok none
no_loop (suc fuel) no' (some p) s = do
  w ← deref s p
  if w.wp_no == no' then ok (some p) else no_loop fuel no' w.next s

-- No `NO` is negative, so a negative number walks the list and finds nothing.
pub no_to_wp : ℤ → Pool → Result (Option ℕ)
no_to_wp (negsuc n) s = ok none
no_to_wp (pos n) s = if ltb nr_wp n then ok none else no_loop (suc nr_wp) n s.head s

-- A line that `watchpoint_display` prints: number, expression, value.
abbrev pub Line : Type 0
Line = ℕ × List ℕ × ℕ

display_loop : ℕ → Option ℕ → Pool → Result (List Line)
display_loop zero p s = stop out_of_fuel
display_loop (suc fuel) none s = ok []
display_loop (suc fuel) (some p) s = do
  w ← deref s p
  t ← text w.watch_expr
  rest ← display_loop fuel w.next s
  ok ((w.wp_no, t, w.watch_value) ∷ rest)

pub watchpoint_display : Pool → Result (List Line)
watchpoint_display s = display_loop (suc nr_wp) s.head s

-- `expr` of expr.c: `ok none` is `*success = false`.
module _ (expr : List ℕ → Result (Option ℕ)) where
  -- The body of the loop at `p`: whether the value changed, and the new pool.
  pub check_one : ℕ → Pool → Result (Bool × Pool)
  check_one p s = do
    w ← deref s p
    e ← text w.watch_expr
    o ← expr e
    new_v ← of_option assertion o
    ok (
        if new_v == w.watch_value
        then (false, s)
        else (true, record s { wp_pool = update s.wp_pool p (record w { watch_value = new_v }) }))

  pub check_loop : ℕ → Option ℕ → Bool → Pool → Result (Bool × Pool)
  check_loop zero p changed s = stop out_of_fuel
  check_loop (suc fuel) none changed s = ok (changed, s)
  check_loop (suc fuel) (some p) changed s = do
    hit ← check_one p s
    w ← deref hit.1 p
    check_loop fuel w.next (if hit.0 then true else changed) hit.1

  pub check_wp_changed : Pool → Result (Bool × Pool)
  check_wp_changed s = check_loop (suc nr_wp) s.head false s
