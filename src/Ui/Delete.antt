-- ===== src/Ui/Delete.antt =====
-- The command `d` on the lists that a pool stands for.
use nju_ics2020_pa.Base.{
  ℕ, zero, suc, ◌-◌, ◌≤◌, ◌<◌, ◌≡◌, refl, List, [], ◌∷◌, none, some, ltb, Result, ok, ◌>>=◌, arith,
  ap, length, Bool-cases, Option-cases, inl, inr,
}
use nju_ics2020_pa.Base.Int.{ℤ, pos, negsuc}
use nju_ics2020_pa.Watchpoint.{Pool, free_wp, no_to_wp}
use nju_ics2020_pa.Watchpoint.Chains.{count, erase, IsPool, IsArmed}
use nju_ics2020_pa.Watchpoint.Lists.{no_to_wp_lem}
use nju_ics2020_pa.Watchpoint.Unlink.{IsFreed, free_wp-IsFreed}
use nju_ics2020_pa.Ui.{skip, token_of, behind, strtok, to_int, delete_one, delete_loop}

-- The watchpoints in use without the one of this number; a number that is not in use changes nothing.
abbrev pub without : ℤ → List ℕ → List ℕ
without (pos n) used = erase n used
without (negsuc n) used = used

-- The tokens of a line, as numbers.
pub numbers : ℕ → List ℕ → List ℤ
numbers zero line = []
numbers (suc n) line = elim (strtok b' ' line) [
  | none ↦ []
  | some (arg, more) ↦ to_int arg ∷ numbers n more
]

abbrev pub without_all : List ℤ → List ℕ → List ℕ
without_all [] used = used
without_all (z ∷ zs) used = without_all zs (without z used)

-- A pool with these watchpoints in use, all with their expressions, and any order of the free ones.
pub record Deleted (used : List ℕ) (r : Result Pool) : Type 0 where
  pub after : Pool
  pub free : List ℕ
  pub returns : r ≡ ok after
  pub pool : IsPool after used free
  pub armed : IsArmed after.wp_pool used

erase-missing : (n : ℕ) (xs : List ℕ) → count n xs ≡ 0 → erase n xs ≡ xs
erase-missing n [] h = refl
erase-missing n (x ∷ xs) h = ground (arith, erase-missing n xs)

skip-le : (d : ℕ) (s : List ℕ) → length (skip d s) ≤ length s
skip-le d [] = omega arith
skip-le d (c ∷ s) = ground (arith, skip-le d s)

behind-le : (d : ℕ) (s : List ℕ) → length (behind d s) ≤ length s - 1
behind-le d [] = omega arith
behind-le d (c ∷ s) = ground (arith, behind-le d s)

-- What is behind a token is shorter than the line.
strtok-lt : (d : ℕ) (s : List ℕ) (x : List ℕ × List ℕ) → strtok d s ≡ some x → length x.1 < length s
strtok-lt d s x e = found (skip d s) refl
  where
    found : (t : List ℕ) → skip d s ≡ t → length x.1 < length s
    found [] q =
        let no_token : strtok d s ≡ none = rw (q, strtok) refl in
        absurd (ground (arith, no_token, e))
    found (c ∷ t) q =
        let token : strtok d s ≡ some (token_of d (c ∷ t), behind d (c ∷ t)) =
          rw (q, strtok) refl in
        let same : x.1 ≡ behind d (c ∷ t) = ground (arith, token, e) in
        omega (arith, ap length same, behind-le d (c ∷ t), skip-le d s, ap length q)

delete-number :
    (z : ℤ) (s : Pool) (used free : List ℕ)
    → IsPool s used free
    → IsArmed s.wp_pool used
    → Deleted (without z used) (
        no_to_wp z s >>= λ wp. elim wp as (λ _. Result Pool) [
          | none ↦ ok s
          | some w ↦ free_wp (some w) s
        ])
delete-number (negsuc n) s used free p armed =
    rw (no_to_wp_lem (negsuc n) s used free p)
      (record { after = s; free = free; returns = refl; pool = p; armed = armed })
delete-number (pos n) s used free p armed = elim (Bool-cases (ltb 0 (count n used))) [
  | inl hit ↦
      let f : IsFreed s n used free (free_wp (some n) s) =
        free_wp-IsFreed s n used free p armed (ground arith) in
      rw (no_to_wp_lem (pos n) s used free p, hit)
        (record {
          after = f.after;
          free = n ∷ free;
          returns = f.returns;
          pool = f.pool;
          armed = f.armed;
        })
  | inr miss ↦
      rw (no_to_wp_lem (pos n) s used free p, miss, erase-missing n used (ground arith))
        (record { after = s; free = free; returns = refl; pool = p; armed = armed })
]

delete_one-Deleted :
    (arg : List ℕ) (s : Pool) (used free : List ℕ)
    → IsPool s used free
    → IsArmed s.wp_pool used
    → Deleted (without (to_int arg) used) (delete_one arg s)
unfolding delete_one
delete_one-Deleted arg s used free p armed = delete-number (to_int arg) s used free p armed

strtok-empty : strtok b' ' [] ≡ none
strtok-empty = refl

-- The loop over the arguments of `d`, with a unit of fuel for each character, deletes the watchpoints of
-- all their numbers that are in use, whatever the numbers are, and keeps every other one with its place.
pub delete_loop-Deleted :
    (fuel : ℕ) (line : List ℕ) (s : Pool) (used free : List ℕ)
    → length line ≤ fuel
    → IsPool s used free
    → IsArmed s.wp_pool used
    → Deleted (without_all (numbers fuel line) used) (delete_loop fuel line s)
unfolding delete_loop numbers
delete_loop-Deleted zero [] s used free room p armed = record {
  after = s;
  free = free;
  returns = refl;
  pool = p;
  armed = armed;
}
delete_loop-Deleted zero (c ∷ line) s used free room p armed = absurd (omega arith)
delete_loop-Deleted (suc n) line s used free room p armed = elim (Option-cases (strtok b' ' line)) [
  | inl end ↦
      rw (end, delete_loop, numbers)
        (record { after = s; free = free; returns = refl; pool = p; armed = armed })
  | inr ((arg, more), e) ↦
      let one = delete_one-Deleted arg s used free p armed in
      let rest =
        delete_loop-Deleted n more one.after (without (to_int arg) used) one.free
          (omega (arith, strtok-lt b' ' line (arg, more) e)) one.pool one.armed in
      rw (e, delete_loop, numbers)
        (record {
          after = rest.after;
          free = rest.free;
          returns = rw (one.returns) rest.returns;
          pool = rest.pool;
          armed = rest.armed;
        })
]
