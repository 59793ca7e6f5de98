-- ===== src/GenExpr/Main.antt =====
-- main of the generator: what it prints.
use nju_ics2020_pa.Base.{ℕ, ◌<◌, ◌≡◌, Option, none, some, List, [], ◌∷◌, length, ok}
use nju_ics2020_pa.Base.Bytes.{Bytes}
use nju_ics2020_pa.GenExpr.{Build, refused, number, Gen, max_index, reset, string_at, code}
use nju_ics2020_pa.GenExpr.Grammar.{Tree, text, IsSmall}

-- No NUL in a string.
abbrev pub NoNul : List ℕ → Type 0
NoNul [] = Unit {0}
NoNul (c ∷ s) = (0 < c) × NoNul s

-- The buffer before the first expression and after each.
abbrev pub IsClear : Gen → Type 0
IsClear g = (g.buf_index ≡ 0) × ((i : ℕ) → g.buf i ≡ 0)

-- The buffer holds a text and is clear behind it.
pub record Holding (g : Gen) : Type 0 where
  pub tree : Tree
  pub small : IsSmall tree
  pub fits : length (text tree) < max_index
  pub string : string_at max_index g.buf 0 ≡ ok (text tree)
  pub clear : IsClear (reset g)

-- `gcc` refuses a program or builds one that prints a number, and no file is missing.
abbrev pub Answers : Build → Type 0
Answers refused = Unit {0}
Answers (number v) = Unit {0}
Answers _ = ⊥

module _ (host : List ℕ → Build) where
  -- A printed line: a text of the grammar, and what the compiled program prints.
  abbrev pub IsLine : ℕ × List ℕ → Type 0
  IsLine l = (t : Tree) × IsSmall t × (l.1 ≡ text t) × (host (code (text t)) ≡ number l.0)

  abbrev pub AllLines : List (ℕ × List ℕ) → Type 0
  AllLines [] = Unit {0}
  AllLines (l ∷ lines) = IsLine l × AllLines lines

  abbrev MaybeLine : Option (ℕ × List ℕ) → Type 0
  MaybeLine none = Unit {0}
  MaybeLine (some l) = IsLine l
