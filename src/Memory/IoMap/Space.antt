-- ===== src/Memory/IoMap/Space.antt =====
-- `new_space`: regions of the devices' memory.
use nju_ics2020_pa.Base.{
  ◌^◌, ℕ, ◌+◌, ◌-◌, ◌*◌, ◌/◌, ◌%◌, ◌≤◌, ◌<◌, ◌≡◌, refl, List, [], ◌∷◌, Result, ok, ◌>>=◌, arith,
  ltb, Holds, Holds-bind, Holds-defined, Holds-assert, ◌>>◌, assert, Holds-ok, ltb→lt,
}
use nju_ics2020_pa.Memory.IoMap.{Io, new_space, page_size, io_space_max}

-- A region: its first byte and its size.
abbrev pub Region : Type 0
Region = ℕ × ℕ

-- `new_space` for each size in turn.
unfoldable pub new_spaces : {D : Type 0} → List ℕ → Io D → Result (List Region × Io D)
new_spaces [] io = ok ([], io)
new_spaces (n ∷ sizes) io = do
  (r, io') ← new_space n io
  (rest, io'') ← new_spaces sizes io'
  ok ((r, n) ∷ rest, io'')

-- The regions lie one behind the other from `lo` to `hi`, each at the start of a page.
abbrev pub Packed : ℕ → List Region → ℕ → Type 0
Packed lo [] hi = lo ≤ hi
Packed lo ((r, n) ∷ rs) hi = (lo ≤ r) × (r % page_size ≡ 0) × Packed (r + n) rs hi

Packed-down :
    (lo lo' : ℕ) (rs : List Region) (hi : ℕ) → lo' ≤ lo → Packed lo rs hi → Packed lo' rs hi
Packed-down lo lo' [] hi le h = omega arith
Packed-down lo lo' ((r, n) ∷ rs) hi le h = (omega arith, h.1, h.2)

-- The rounded size, as `new_space` computes it.
abbrev whole : ℕ → ℕ
whole size = (size + (page_size - 1)) / page_size * page_size

abbrev Taken : {D : Type 0} → ℕ → Io D → ℕ × Io D → Type 0
Taken size io (r, io') =
    (r ≡ io.p_space) × (io'.p_space ≡ io.p_space + whole size) × (io'.p_space < io_space_max)

new_space-Taken : {D : Type 0} (size : ℕ) (io : Io D) → Holds (Taken size io) (new_space size io)
unfolding new_space
new_space-Taken {D} size io =
    let result : Result (ℕ × Io D) =
      ok (io.p_space, record io { p_space = io.p_space + whole size }) in
    let room = ltb (io.p_space + whole size) io_space_max in
    Holds-defined (Taken size io) (ltb (size + (page_size - 1)) (2 ^ 31)) (assert room >> result)
      (λ _. Holds-assert (Taken size io) room result (λ h. (refl, refl, ltb→lt _ _ h)))

abbrev AllTaken : {D : Type 0} → Io D → List Region × Io D → Type 0
AllTaken io (rs, io') = Packed io.p_space rs io'.p_space × (io'.p_space % page_size ≡ 0)

new_spaces-AllTaken :
    {D : Type 0} (sizes : List ℕ) (io : Io D)
    → io.p_space % page_size ≡ 0
    → Holds (AllTaken io) (new_spaces sizes io)
unfolding new_spaces
new_spaces-AllTaken [] io al = (omega arith, al)
new_spaces-AllTaken (n ∷ sizes) io al =
    Holds-bind (Taken n io) (AllTaken io) (new_space n io) _ (new_space-Taken n io)
      λ (r, io') taken.
        Holds-bind (AllTaken io') (AllTaken io) (new_spaces sizes io') _
          (new_spaces-AllTaken sizes io' (omega arith))
          λ (rs, io'') rest. (
            (
              omega arith,
              omega arith,
              Packed-down io'.p_space (r + n) rs io''.p_space (omega arith) rest.0,
            ),
            rest.1,
          )

new_spaces-lt :
    {D : Type 0} (sizes : List ℕ) (io : Io D)
    → io.p_space < io_space_max
    → Holds (λ (x : List Region × Io D). x.1.p_space < io_space_max) (new_spaces sizes io)
unfolding new_spaces
new_spaces-lt [] io h = h
new_spaces-lt (n ∷ sizes) io h =
    Holds-bind (Taken n io) _ (new_space n io) _ (new_space-Taken n io) λ (r, io') taken.
      Holds-bind (λ (x : List Region × Io _). x.1.p_space < io_space_max) _ (new_spaces sizes io') _
        (new_spaces-lt sizes io' taken.2) λ x rest. rest

-- From a start at a page, with room left, and where every call succeeds, the regions that `new_space`
-- gives out one after the other start at pages, do not overlap and stay inside the devices' memory, which
-- has room left.
pub new_spaces-Packed :
    {D : Type 0} (sizes : List ℕ) (io io' : Io D) (rs : List Region)
    → io.p_space % page_size ≡ 0
    → io.p_space < io_space_max
    → new_spaces sizes io ≡ ok (rs, io')
    → Packed io.p_space rs io'.p_space × (io'.p_space < io_space_max)
new_spaces-Packed sizes io io' rs al room h = (
  (Holds-ok (AllTaken io) (new_spaces sizes io) (rs, io') (new_spaces-AllTaken sizes io al) h).0,
  Holds-ok (λ (x : List Region × Io _). x.1.p_space < io_space_max) (new_spaces sizes io) (rs, io')
      (new_spaces-lt sizes io room) h,
)
