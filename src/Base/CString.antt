-- ===== src/Base/CString.antt =====
-- What the program uses of C's standard library on strings: character classes, `strtol` and casts.
-- A string is the list of its bytes, without the NUL.
use Prim.Native.Nat.{ℕ, zero, suc, ◌+◌, ◌-◌, ◌*◌, ◌%◌, ◌^◌}
use mathlib.Core.Bool.{Bool, true, false, ◌&&◌, ◌||◌}
use mathlib.Core.List.{List, [], ◌∷◌}
use nju_ics2020_pa.Base.Tests.{ltb, leb, ◌==◌, if◌then◌else◌}
use nju_ics2020_pa.Base.Int.{ℤ, pos, negsuc}

abbrev pub in_range : ℕ → ℕ → ℕ → Bool
in_range lo hi c = leb lo c && leb c hi

abbrev pub is_digit : ℕ → Bool
is_digit c = in_range b'0' b'9' c

abbrev pub is_alpha : ℕ → Bool
is_alpha c = in_range b'A' b'Z' c || in_range b'a' b'z' c

-- `isspace` in the C locale.
abbrev pub is_space : ℕ → Bool
is_space c = c == b' ' || in_range 9 13 c

abbrev pub to_lower : ℕ → ℕ
to_lower c = if in_range b'A' b'Z' c then c + 32 else c

-- `strcmp(a, b) == 0`
abbrev pub same_text : List ℕ → List ℕ → Bool
same_text [] [] = true
same_text [] (c ∷ t) = false
same_text (c ∷ s) [] = false
same_text (c ∷ s) (d ∷ t) = c == d && same_text s t

-- The value of a digit in bases up to 36; 36 for what is none.
abbrev pub digit_value : ℕ → ℕ
digit_value c =
    if is_digit c
    then c - b'0'
    else if in_range b'a' b'z' c
    then c - b'a' + 10
    else if in_range b'A' b'Z' c
    then c - b'A' + 10
    else 36

-- The number that the leading digits make.
unfoldable pub digits_value : ℕ → ℕ → List ℕ → ℕ
digits_value base acc [] = acc
digits_value base acc (c ∷ s) =
    let rest = digits_value base (acc * base + digit_value c) s in
    if ltb (digit_value c) base then rest else acc

abbrev pub skip_spaces : List ℕ → List ℕ
skip_spaces [] = []
skip_spaces (c ∷ s) = if is_space c then skip_spaces s else c ∷ s

-- The optional `0x` of base 16, which counts only before a hexadecimal digit.
abbrev pub skip_prefix : ℕ → List ℕ → List ℕ
skip_prefix base (z ∷ x ∷ d ∷ s) =
    if base == 16 && (z == b'0' && (to_lower x == b'x' && ltb (digit_value d) 16))
    then d ∷ s
    else z ∷ x ∷ d ∷ s
skip_prefix base s = s

abbrev pub long_max : ℕ
long_max = 2 ^ 63 - 1

abbrev pub clamp_pos : ℕ → ℤ
clamp_pos n = if ltb long_max n then pos long_max else pos n

abbrev pub clamp_neg : ℕ → ℤ
clamp_neg zero = pos 0
clamp_neg (suc n) = if ltb long_max n then negsuc long_max else negsuc n

abbrev pub magnitude : ℕ → List ℕ → ℕ
magnitude base s = digits_value base 0 (skip_prefix base s)

abbrev pub signed_value : ℕ → List ℕ → ℤ
signed_value base [] = pos 0
signed_value base (c ∷ s) =
    if c == b'-'
    then clamp_neg (magnitude base s)
    else if c == b'+'
    then clamp_pos (magnitude base s)
    else clamp_pos (magnitude base (c ∷ s))

-- `strtol(s, NULL, base)` for base 10 and 16, on a 64-bit `long`.
unfoldable pub strtol : ℕ → List ℕ → ℤ
unfolding digits_value
strtol base s = signed_value base (skip_spaces s)

-- A conversion to `uint32_t`.
abbrev pub to_u32 : ℤ → ℕ
to_u32 (pos n) = n % 2 ^ 32
to_u32 (negsuc n) = 2 ^ 32 - 1 - n % 2 ^ 32
