-- ===== src/Base/Bytes.antt =====
-- Little-endian numbers in a memory of bytes.
use Prim.Native.Nat.{ℕ, zero, suc, ◌+◌, ◌-◌, ◌*◌, ◌/◌, ◌%◌, ◌^◌, ◌≤◌, ◌<◌}
use mathlib.Core.Path.{◌≡◌, refl, ap, ◌∙◌, sym, subst}
use mathlib.Core.List.{List, [], ◌∷◌, ◌++◌}
use native.Mathlib.Omega.{arith}
use native.Mathlib.Nat.{
  zero-add, add-zero, add-suc, suc-add, mod-mod, add-mul-mod_self_left, div-add-mod,
  div-div-eq-div-mul,
}
use nju_ics2020_pa.Base.Arrays.{update, length}

abbrev pub Bytes : Type 0
Bytes = ℕ → ℕ

unfoldable pub read_le : ℕ → Bytes → ℕ → ℕ
read_le zero m p = 0
read_le (suc n) m p = m p + 256 * read_le n m (suc p)

unfoldable pub write_le : ℕ → Bytes → ℕ → ℕ → Bytes
write_le zero m p v = m
write_le (suc n) m p v = write_le n (update m p (v % 256)) (suc p) (v / 256)

update_self : (m : Bytes) (p v : ℕ) → update m p v p ≡ v
update_self m p v = ground arith

-- The number of values of `n` bytes.
abbrev pub byte_range : ℕ → ℕ
byte_range zero = 1
byte_range (suc n) = 256 * byte_range n

pub write_le-below : (n p q v : ℕ) (m : Bytes) → q < p → write_le n m p v q ≡ m q
unfolding write_le
write_le-below zero p q v m h = refl
write_le-below (suc n) p q v m h =
    write_le-below n (suc p) q (v / 256) _ (omega arith) ∙ ground arith

pub write_le-above : (n p q v : ℕ) (m : Bytes) → p + n ≤ q → write_le n m p v q ≡ m q
unfolding write_le
write_le-above zero p q v m h = refl
write_le-above (suc n) p q v m h =
    write_le-above n (suc p) q (v / 256) _ (omega arith) ∙ ground arith

pub read_le-frame :
    (n p : ℕ) (m m' : Bytes)
    → ((q : ℕ) → p ≤ q → q < p + n → m' q ≡ m q)
    → read_le n m' p ≡ read_le n m p
unfolding read_le
read_le-frame zero p m m' same = refl
read_le-frame (suc n) p m m' same = rw (
  same p (omega arith) (omega arith),
  read_le-frame n (suc p) m m' (λ q h k. same q (omega arith) (omega arith)),
)

pub byte_range_pos : (n : ℕ) → 0 < byte_range n
byte_range_pos zero = omega arith
byte_range_pos (suc n) = omega (arith, byte_range_pos n)

pub div_mod_range : (k v : ℕ) → 0 < k → v % 256 + 256 * (v / 256 % k) ≡ v % (256 * k)
div_mod_range k v h = omega (
  arith,
  div-add-mod v (256 * k),
  div-add-mod (v / 256) k,
  ap (λ (q : ℕ). k * q) (div-div-eq-div-mul v 256 k),
)

-- What was written is read back, as far as it fits.
pub read_le-write_le : (n p v : ℕ) (m : Bytes) → read_le n (write_le n m p v) p ≡ v % byte_range n
unfolding read_le write_le
read_le-write_le zero p v m = omega arith
read_le-write_le (suc n) p v m = omega (
  arith,
  write_le-below n (suc p) p (v / 256) (update m p (v % 256)) (omega arith),
  update_self m p (v % 256),
  read_le-write_le n (suc p) (v / 256) (update m p (v % 256)),
  div_mod_range (byte_range n) v (byte_range_pos n),
)

-- The low bytes of a longer read.
pub read_le-split :
    (k j p : ℕ) (m : Bytes)
    → read_le (k + j) m p ≡ read_le k m p + byte_range k * read_le j m (p + k)
unfolding read_le
read_le-split zero j p m =
    ap (λ n. read_le n m p) (zero-add j) ∙ omega (arith, ap (λ q. read_le j m q) (add-zero p))
read_le-split (suc k) j p m =
    ap (λ n. read_le n m p) (suc-add k j)
    ∙ omega (
      arith,
      read_le-split k j (suc p) m,
      ap (λ q. byte_range k * read_le j m q) (add-suc p k ∙ sym (suc-add p k)),
    )

pub range-pow : (k : ℕ) → k ≤ 4 → byte_range k ≡ 2 ^ (8 * k)
range-pow zero h = refl
range-pow (suc zero) h = refl
range-pow (suc (suc zero)) h = refl
range-pow (suc (suc (suc zero))) h = refl
range-pow (suc (suc (suc (suc zero)))) h = refl
range-pow (suc (suc (suc (suc (suc k))))) h = absurd (omega arith)

pub mod_of_split : (a b k : ℕ) → (a % k + k * b) % k ≡ a % k
mod_of_split a b k = add-mul-mod_self_left (a % k) k b ∙ mod-mod a k

-- A read of four bytes, cut to the length that was written there, gives what was written.
pub read_word-write_le :
    (k p v : ℕ) (m : Bytes) → k ≤ 4 → read_le 4 (write_le k m p v) p % 2 ^ (8 * k) ≡ v % 2 ^ (8 * k)
read_word-write_le k p v m h =
    subst (λ r. read_le 4 (write_le k m p v) p % r ≡ v % r) (range-pow k h)
      (ap (λ n. read_le n (write_le k m p v) p % byte_range k) (omega (arith, h))
        ∙ ap (λ (x : ℕ). x % byte_range k)
            (read_le-split k (4 - k) p (write_le k m p v)
              ∙ ap (λ (x : ℕ). x + byte_range k * read_le (4 - k) (write_le k m p v) (p + k))
                  (read_le-write_le k p v m))
        ∙ mod_of_split v _ (byte_range k))

-- `memcpy` of bytes.
unfoldable pub copy : Bytes → ℕ → List ℕ → Bytes
copy m p [] = m
copy m p (b ∷ bs) = copy (update m p b) (suc p) bs

pub copy-below : (s : List ℕ) (m : Bytes) (p q : ℕ) → q < p → copy m p s q ≡ m q
unfolding copy
copy-below [] m p q h = refl
copy-below (b ∷ bs) m p q h = copy-below bs (update m p b) (suc p) q (omega arith) ∙ ground arith

pub copy-above : (s : List ℕ) (m : Bytes) (p q : ℕ) → p + length s ≤ q → copy m p s q ≡ m q
unfolding copy
copy-above [] m p q h = refl
copy-above (b ∷ bs) m p q h = copy-above bs (update m p b) (suc p) q (omega arith) ∙ ground arith

pub copy-append :
    (s t : List ℕ) (m : Bytes) (p : ℕ) → copy m p (s ++ t) ≡ copy (copy m p s) (p + length s) t
unfolding copy
copy-append [] t m p = ap (λ q. copy m q t) (omega arith)
copy-append (b ∷ bs) t m p =
    copy-append bs t (update m p b) (suc p)
    ∙ ap (λ q. copy (copy (update m p b) (suc p) bs) q t) (omega arith)
