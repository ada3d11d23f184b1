-- ===== src/Libs/Str/Find.antt =====
-- The searches of libs/string.c.
use os_qemu.Prelude.{ℕ, ◌≡◌, ◌≢◌, arith, none, some, List, [], ◌∷◌, ◌++◌}
use os_qemu.Libs.Str.{strchr, strfind}
use os_qemu.Libs.Str.Length.{IsText}

-- No byte of the list is `c`.
abbrev pub IsWithout : ℕ → List ℕ → Type 0
IsWithout c [] = Unit {0}
IsWithout c (a ∷ s) = (a ≢ c) × IsWithout c s

-- A byte that is in the string: both searches stop at its first place.
pub finds_first :
    (pre s : List ℕ) (c : ℕ)
    → IsText pre
    → c ≢ 0
    → IsWithout c pre
    → (strchr (pre ++ c ∷ s) c ≡ some (some (c ∷ s))) × (strfind (pre ++ c ∷ s) c ≡ some (c ∷ s))
unfolding strchr strfind
finds_first [] s c t n w = ground arith
finds_first (a ∷ pre) s c t n w = ground (arith, finds_first pre s c t.1 n w.1)

-- A byte that is not: `strchr` returns NULL and `strfind` stops at the null byte.
pub finds_none :
    (s rest : List ℕ) (c : ℕ)
    → IsText s
    → IsWithout c s
    → (strchr (s ++ 0 ∷ rest) c ≡ some none) × (strfind (s ++ 0 ∷ rest) c ≡ some (0 ∷ rest))
unfolding strchr strfind
finds_none [] rest c t w = ground arith
finds_none (a ∷ s) rest c t w = ground (arith, finds_none s rest c t.1 w.1)
