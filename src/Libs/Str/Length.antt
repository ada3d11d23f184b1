-- ===== src/Libs/Str/Length.antt =====
-- The lengths of C strings.
use os_qemu.Prelude.{ℕ, ◌+◌, ◌≤◌, ◌≡◌, ◌≢◌, arith, some, List, [], ◌∷◌, ◌++◌, length}
use Prim.Native.Nat.{min}
use os_qemu.Libs.Str.{strlen_loop, strlen, strnlen_loop, strnlen}

-- The bytes of a string: none is null.
abbrev pub IsText : List ℕ → Type 0
IsText [] = Unit {0}
IsText (c ∷ s) = (c ≢ 0) × IsText s

strlen_loop-text :
    (s rest : List ℕ) (cnt : ℕ) → IsText s → strlen_loop (s ++ 0 ∷ rest) cnt ≡ some (cnt + length s)
unfolding strlen_loop
strlen_loop-text [] rest cnt t = ground arith
strlen_loop-text (c ∷ s) rest cnt t = ground (arith, strlen_loop-text s rest (cnt + 1) t.1)

strnlen_loop-text :
    (s rest : List ℕ) (len cnt : ℕ)
    → IsText s
    → cnt ≤ len
    → strnlen_loop (s ++ 0 ∷ rest) len cnt ≡ some (min len (cnt + length s))
unfolding strnlen_loop
strnlen_loop-text [] rest len cnt t h = ground arith
strnlen_loop-text (c ∷ s) rest len cnt t h =
    ground (arith, strnlen_loop-text s rest len (cnt + 1) t.1)

-- `strlen` counts the bytes before the null byte, and `strnlen` the same up to its limit.
pub lengths_text :
    (s rest : List ℕ) (len : ℕ)
    → IsText s
    → (strlen (s ++ 0 ∷ rest) ≡ some (length s))
      × (strnlen (s ++ 0 ∷ rest) len ≡ some (min len (length s)))
unfolding strlen strnlen
lengths_text s rest len t =
    ground (arith, strlen_loop-text s rest 0 t, strnlen_loop-text s rest len 0 t)
