-- ===== src/Libs/Str/Copy.antt =====
-- What the copies of libs/string.c write, and what they leave.
use os_qemu.Prelude.{
  ℕ, zero, suc, ◌-◌, ◌≤◌, ◌<◌, ◌≡◌, refl, arith, none, some, List, [], ◌∷◌, ◌++◌, length, drop,
  take, replicate,
}
use os_qemu.Libs.Str.{strcpy, strncpy, strcpy_at, strcat}
use os_qemu.Libs.Str.Length.{IsText, lengths_text}

-- Where the destination has room, `strcpy` writes the string and its null byte and leaves what lies
-- behind.
pub strcpy-text :
    (dst s rest : List ℕ)
    → IsText s
    → length s < length dst
    → strcpy dst (s ++ 0 ∷ rest) ≡ some (s ++ 0 ∷ drop (suc (length s)) dst)
unfolding strcpy
strcpy-text [] s rest t h = elim h [ ]
strcpy-text (d ∷ ds) [] rest t h = refl
strcpy-text (d ∷ ds) (c ∷ s) rest t h = ground (arith, strcpy-text ds s rest t.1)

-- Where it has none, the copy runs past the end.
pub strcpy-overflow :
    (dst s rest : List ℕ) → IsText s → length dst ≤ length s → strcpy dst (s ++ 0 ∷ rest) ≡ none
unfolding strcpy
strcpy-overflow [] s rest t h = refl
strcpy-overflow (d ∷ ds) [] rest t h = elim h [ ]
strcpy-overflow (d ∷ ds) (c ∷ s) rest t h = ground (arith, strcpy-overflow ds s rest t.1)

strncpy-zeros :
    (dst rest : List ℕ) (n : ℕ)
    → n ≤ length dst
    → strncpy dst (0 ∷ rest) n ≡ some (replicate n 0 ++ drop n dst)
unfolding strncpy
strncpy-zeros dst rest zero h = refl
strncpy-zeros [] rest (suc n) h = elim h [ ]
strncpy-zeros (d ∷ ds) rest (suc n) h = ground (arith, strncpy-zeros ds rest n)

-- `strncpy` writes exactly `n` bytes: the string as far as it goes, and null bytes behind it.
pub strncpy-text :
    (dst s rest : List ℕ) (n : ℕ)
    → IsText s
    → n ≤ length dst
    → strncpy dst (s ++ 0 ∷ rest) n ≡ some (take n s ++ (replicate (n - length s) 0 ++ drop n dst))
unfolding strncpy
strncpy-text dst s rest zero t h = ground arith
strncpy-text [] s rest (suc n) t h = elim h [ ]
strncpy-text (d ∷ ds) [] rest (suc n) t h = ground (arith, strncpy-zeros ds rest n)
strncpy-text (d ∷ ds) (c ∷ s) rest (suc n) t h = ground (arith, strncpy-text ds s rest n t.1)

strcpy_at-text :
    (old tail s rest : List ℕ)
    → IsText s
    → length s < length tail
    → strcpy_at (length old) (old ++ tail) (s ++ 0 ∷ rest)
      ≡ some (old ++ (s ++ 0 ∷ drop (suc (length s)) tail))
unfolding strcpy_at
strcpy_at-text [] tail s rest t h = strcpy-text tail s rest t h
strcpy_at-text (o ∷ old) tail s rest t h = ground (arith, strcpy_at-text old tail s rest t h)

-- `strcat` puts the string over the null byte of the destination, and leaves both joined.
pub strcat-text :
    (old tail s rest : List ℕ)
    → IsText old
    → IsText s
    → length s ≤ length tail
    → strcat (old ++ 0 ∷ tail) (s ++ 0 ∷ rest) ≡ some (old ++ (s ++ 0 ∷ drop (length s) tail))
unfolding strcat
strcat-text old tail s rest o t h =
    ground (arith, (lengths_text old tail 0 o).0, strcpy_at-text old (0 ∷ tail) s rest t)
