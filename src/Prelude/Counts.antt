-- ===== src/Prelude/Counts.antt =====
-- How often a number stands in a list, and the list without one occurrence of it.
use Prim.Native.Nat.{ℕ, ◌+◌, ◌<◌}
use mathlib.Core.Path.{◌≡◌}
use mathlib.Core.List.{List, [], ◌∷◌, ◌++◌}
use native.Mathlib.Omega.{arith}
use is.Prelude.Tests.{if◌then◌else◌, ◌==◌}
use is.Prelude.Lists.{length}

abbrev pub one : ℕ → ℕ → ℕ
one c d = if c == d then 1 else 0

unfoldable pub count : ℕ → List ℕ → ℕ
count c [] = 0
count c (d ∷ ds) = one c d + count c ds

pub count-append : (c : ℕ) (ds es : List ℕ) → count c (ds ++ es) ≡ count c ds + count c es
unfolding count
count-append c [] es = omega arith
count-append c (d ∷ ds) es = omega (arith, count-append c ds es)

-- The first occurrence is taken out.
unfoldable pub drop_one : ℕ → List ℕ → List ℕ
drop_one c [] = []
drop_one c (d ∷ ds) = if c == d then ds else d ∷ drop_one c ds

pub count-drop_one :
    (c d : ℕ) (ds : List ℕ) → 0 < count d ds → one c d + count c (drop_one d ds) ≡ count c ds
unfolding count drop_one
count-drop_one c d [] h = ground arith
count-drop_one c d (e ∷ ds) h = ground (arith, count-drop_one c d ds)

pub length-drop_one :
    (d : ℕ) (ds : List ℕ) → 0 < count d ds → length (drop_one d ds) + 1 ≡ length ds
unfolding count drop_one
length-drop_one d [] h = ground arith
length-drop_one d (e ∷ ds) h = ground (arith, length-drop_one d ds)
