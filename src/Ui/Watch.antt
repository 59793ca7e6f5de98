-- ===== src/Ui/Watch.antt =====
-- The command `w` on the lists that a pool stands for.
use nju_ics2020_pa.Base.{
  ℕ, ◌<◌, ◌≡◌, ◌≢◌, refl, Bool, true, false, List, ◌∷◌, none, some, if◌then◌else◌, Result, ok,
  arith, ap, subst, ◌∙◌, ==_refl,
}
use nju_ics2020_pa.Watchpoint.{Pool, owned, new_wp, free_wp}
use nju_ics2020_pa.Watchpoint.Chains.{count, erase, IsPool, IsArmed, Chain-frame, IsArmed-frame}
use nju_ics2020_pa.Watchpoint.Lists.{IsNew, new_wp-IsNew}
use nju_ics2020_pa.Watchpoint.Unlink.{IsFreed, free_wp-IsFreed}
use nju_ics2020_pa.Ui.{Ui, Calls, Reply, nothing, error, set_expr, set_value, run_w}

-- Members that `w` does not set.
next-set_expr :
    (s : Pool) (w i : ℕ) (t : List ℕ) → ((set_expr w t s).wp_pool i).next ≡ (s.wp_pool i).next
next-set_expr s w i t = ground arith

no-set_expr :
    (s : Pool) (w i : ℕ) (t : List ℕ) → ((set_expr w t s).wp_pool i).wp_no ≡ (s.wp_pool i).wp_no
no-set_expr s w i t = ground arith

value-set_expr :
    (s : Pool) (w i : ℕ) (t : List ℕ)
    → ((set_expr w t s).wp_pool i).watch_value ≡ (s.wp_pool i).watch_value
value-set_expr s w i t = ground arith

expr-set_expr_ne :
    (s : Pool) (w i : ℕ) (t : List ℕ)
    → i ≢ w
    → ((set_expr w t s).wp_pool i).watch_expr ≡ (s.wp_pool i).watch_expr
expr-set_expr_ne s w i t ne = ground arith

expr-set_expr : (s : Pool) (w : ℕ) (t : List ℕ) → ((set_expr w t s).wp_pool w).watch_expr ≡ owned t
expr-set_expr s w t = ground arith

next-set_value : (s : Pool) (w i v : ℕ) → ((set_value w v s).wp_pool i).next ≡ (s.wp_pool i).next
next-set_value s w i v = ground arith

no-set_value : (s : Pool) (w i v : ℕ) → ((set_value w v s).wp_pool i).wp_no ≡ (s.wp_pool i).wp_no
no-set_value s w i v = ground arith

expr-set_value :
    (s : Pool) (w i v : ℕ) → ((set_value w v s).wp_pool i).watch_expr ≡ (s.wp_pool i).watch_expr
expr-set_value s w i v = ground arith

value-set_value_ne :
    (s : Pool) (w i v : ℕ)
    → i ≢ w
    → ((set_value w v s).wp_pool i).watch_value ≡ (s.wp_pool i).watch_value
value-set_value_ne s w i v ne = ground arith

value-set_value : (s : Pool) (w v : ℕ) → ((set_value w v s).wp_pool w).watch_value ≡ v
value-set_value s w v = ground arith

set_expr-IsPool :
    (s : Pool) (w : ℕ) (t : List ℕ) (used free : List ℕ)
    → IsPool s used free
    → IsPool (set_expr w t s) used free
set_expr-IsPool s w t used free p = record {
  used_chain =
      Chain-frame s.wp_pool (set_expr w t s).wp_pool s.head used (λ y m. next-set_expr s w y t)
        p.used_chain;
  free_chain =
      Chain-frame s.wp_pool (set_expr w t s).wp_pool s.free_ free (λ y m. next-set_expr s w y t)
        p.free_chain;
  partition = p.partition;
  size = p.size;
  numbered = λ i h. no-set_expr s w i t ∙ p.numbered i h;
}

set_value-IsPool :
    (s : Pool) (w v : ℕ) (used free : List ℕ)
    → IsPool s used free
    → IsPool (set_value w v s) used free
set_value-IsPool s w v used free p = record {
  used_chain =
      Chain-frame s.wp_pool (set_value w v s).wp_pool s.head used (λ y m. next-set_value s w y v)
        p.used_chain;
  free_chain =
      Chain-frame s.wp_pool (set_value w v s).wp_pool s.free_ free (λ y m. next-set_value s w y v)
        p.free_chain;
  partition = p.partition;
  size = p.size;
  numbered = λ i h. no-set_value s w i v ∙ p.numbered i h;
}

erase-first : (w : ℕ) (xs : List ℕ) → erase w (w ∷ xs) ≡ xs
erase-first w xs = ap (λ (b : Bool). if b then xs else w ∷ erase w xs) (==_refl w)

-- What `w` does on a pool whose first free slot is `w`, by what `expr` gives.
pub record Added {S : Type 0} (u : Ui S) (w : ℕ) (args : List ℕ) (v : ℕ) (used free : List ℕ)
    (r : Result (Bool × Reply × Ui S)) : Type 0 where
  pub after : Pool
  pub returns : r ≡ ok (true, nothing, record u { pool = after })
  pub pool : IsPool after (w ∷ used) free
  pub armed : IsArmed after.wp_pool (w ∷ used)
  pub text : (after.wp_pool w).watch_expr ≡ owned args
  pub value : (after.wp_pool w).watch_value ≡ v
  pub same_expr : (i : ℕ) → i ≢ w → (after.wp_pool i).watch_expr ≡ (u.pool.wp_pool i).watch_expr
  pub same_value : (i : ℕ) → i ≢ w → (after.wp_pool i).watch_value ≡ (u.pool.wp_pool i).watch_value

pub record Refused {S : Type 0} (u : Ui S) (w : ℕ) (used free : List ℕ)
    (r : Result (Bool × Reply × Ui S)) : Type 0 where
  pub after : Pool
  pub returns : r ≡ ok (false, error, record u { pool = after })
  pub pool : IsPool after used (w ∷ free)
  pub armed : IsArmed after.wp_pool used
  pub same_expr : (i : ℕ) → i ≢ w → (after.wp_pool i).watch_expr ≡ (u.pool.wp_pool i).watch_expr
  pub same_value : (i : ℕ) → i ≢ w → (after.wp_pool i).watch_value ≡ (u.pool.wp_pool i).watch_value

module _ {S : Type 0} (u : Ui S) (w : ℕ) (args used free : List ℕ)
    (p : IsPool u.pool used (w ∷ free)) (armed : IsArmed u.pool.wp_pool used) where
  -- The pool with the new watchpoint and its expression.
  taken : IsNew u.pool w used free (new_wp u.pool)
  taken = new_wp-IsNew u.pool w used free p

  abbrev texted : Pool
  texted = set_expr w args taken.after

  texted-IsPool : IsPool texted (w ∷ used) free
  texted-IsPool = set_expr-IsPool taken.after w args (w ∷ used) free taken.pool

  texted_expr : (i : ℕ) → i ≢ w → (texted.wp_pool i).watch_expr ≡ (u.pool.wp_pool i).watch_expr
  texted_expr i ne = expr-set_expr_ne taken.after w i args ne ∙ taken.same_expr i

  texted_value : (i : ℕ) → (texted.wp_pool i).watch_value ≡ (u.pool.wp_pool i).watch_value
  texted_value i = value-set_expr taken.after w i args ∙ taken.same_value i

  fresh : (i : ℕ) → 0 < count i used → i ≢ w
  fresh i m e = absurd (ground (arith, p.partition w, p.partition i))

  texted-IsArmed : IsArmed texted.wp_pool (w ∷ used)
  texted-IsArmed = (
    (args, expr-set_expr taken.after w args),
    IsArmed-frame u.pool.wp_pool texted.wp_pool used (λ y m. texted_expr y (fresh y m)) armed,
  )

  module _ (calls : Calls S) where
    -- Where the expression has the value `v`, the command `w` puts the first free slot in front of the
    -- watchpoints in use, with the text of the command and this value; the others stay as they are.
    pub run_w-Added :
        (v : ℕ)
        → calls.expr u.rest args ≡ ok (some v)
        → Added u w args v used free (run_w calls (some args) u)
    unfolding run_w
    run_w-Added v e = record {
      after = set_value w v texted;
      returns = rw (taken.returns, e) refl;
      pool = set_value-IsPool texted w v (w ∷ used) free texted-IsPool;
      armed =
          IsArmed-frame texted.wp_pool (set_value w v texted).wp_pool (w ∷ used)
            (λ y m. expr-set_value texted w y v) texted-IsArmed;
      text = expr-set_value texted w w v ∙ expr-set_expr taken.after w args;
      value = value-set_value texted w v;
      same_expr = λ i ne. expr-set_value texted w i v ∙ texted_expr i ne;
      same_value = λ i ne. value-set_value_ne texted w i v ne ∙ texted_value i;
    }

    freed : IsFreed texted w (w ∷ used) free (free_wp (some w) texted)
    freed = free_wp-IsFreed texted w (w ∷ used) free texted-IsPool texted-IsArmed (ground arith)

    -- Where the lexer refuses the expression, the command `w` gives the slot back and returns a negative
    -- number; the lists are what they were, and so are the expressions and the values of the other slots.
    pub run_w-Refused :
        calls.expr u.rest args ≡ ok none → Refused u w used free (run_w calls (some args) u)
    unfolding run_w
    run_w-Refused e = record {
      after = freed.after;
      returns = rw (taken.returns, e, freed.returns) refl;
      pool = subst (λ xs. IsPool freed.after xs (w ∷ free)) (erase-first w used) freed.pool;
      armed = subst (IsArmed freed.after.wp_pool) (erase-first w used) freed.armed;
      same_expr = λ i ne. freed.same_expr i ne ∙ texted_expr i ne;
      same_value = λ i ne. freed.same_value i ne ∙ texted_value i;
    }
