-- ===== src/Libs/Str/Compare.antt =====
-- What the comparisons of libs/string.c say of two strings.
use os_qemu.Prelude.{
  ℕ, zero, suc, ◌≡◌, ◌↔◌, refl, ◌==◌, arith, some, List, [], ◌∷◌, ◌++◌, take, if◌then◌else◌,
}
use os_qemu.Prelude.Int.{ℤ, pos, sub_ℕ}
use os_qemu.Libs.Str.{strcmp, strncmp}
use os_qemu.Libs.Str.Length.{IsText}

-- The difference of the first bytes that differ; a string that ends counts as a null byte.
unfoldable pub text_diff : List ℕ → List ℕ → ℤ
text_diff [] [] = pos 0
text_diff [] (b ∷ y) = sub_ℕ 0 b
text_diff (a ∷ x) [] = sub_ℕ a 0
text_diff (a ∷ x) (b ∷ y) = if a == b then text_diff x y else sub_ℕ a b

pub strcmp-text :
    (x y p q : List ℕ)
    → IsText x
    → IsText y
    → strcmp (x ++ 0 ∷ p) (y ++ 0 ∷ q) ≡ some (text_diff x y)
unfolding strcmp text_diff
strcmp-text [] [] p q s t = refl
strcmp-text [] (b ∷ y) p q s t = ground arith
strcmp-text (a ∷ x) [] p q s t = ground arith
strcmp-text (a ∷ x) (b ∷ y) p q s t = ground (arith, strcmp-text x y p q s.1 t.1)

pub text_diff-zero : (x y : List ℕ) → IsText x → IsText y → (text_diff x y ≡ pos 0) → x ≡ y
unfolding text_diff
text_diff-zero [] [] s t e = refl
text_diff-zero [] (b ∷ y) s t e = ground arith
text_diff-zero (a ∷ x) [] s t e = ground arith
text_diff-zero (a ∷ x) (b ∷ y) s t e = ground (arith, text_diff-zero x y s.1 t.1)

text_diff_self : (x : List ℕ) → text_diff x x ≡ pos 0
unfolding text_diff
text_diff_self [] = refl
text_diff_self (a ∷ x) = ground (arith, text_diff_self x)

-- `strcmp` returns zero exactly on equal strings.
pub strcmp_zero :
    (x y p q : List ℕ)
    → IsText x
    → IsText y
    → (strcmp (x ++ 0 ∷ p) (y ++ 0 ∷ q) ≡ some (pos 0)) ↔ (x ≡ y)
strcmp_zero x y p q s t = (
  λ e. text_diff-zero x y s t (ground (arith, strcmp-text x y p q s t)),
  λ e. rw (strcmp-text x y p q s t, e, text_diff_self y),
)

-- `strncmp` compares as `strcmp` does the strings cut to their first `n` bytes.
pub strncmp-text :
    (x y p q : List ℕ) (n : ℕ)
    → IsText x
    → IsText y
    → strncmp (x ++ 0 ∷ p) (y ++ 0 ∷ q) n ≡ some (text_diff (take n x) (take n y))
unfolding strncmp text_diff
strncmp-text [] [] p q zero s t = refl
strncmp-text [] [] p q (suc n) s t = refl
strncmp-text [] (b ∷ y) p q zero s t = refl
strncmp-text [] (b ∷ y) p q (suc n) s t = ground arith
strncmp-text (a ∷ x) [] p q zero s t = refl
strncmp-text (a ∷ x) [] p q (suc n) s t = ground arith
strncmp-text (a ∷ x) (b ∷ y) p q zero s t = refl
strncmp-text (a ∷ x) (b ∷ y) p q (suc n) s t = ground (arith, strncmp-text x y p q n s.1 t.1)
