-- ===== src/Fs/Bitmap/Search.antt =====
-- The search of `bitmap_alloc` of kern/fs/sfs/bitmap.c for a free block.
use os_qemu.Prelude.{
  ℕ, zero, suc, ◌+◌, ◌/◌, ◌%◌, ◌^◌, ◌≤◌, ◌<◌, ◌≡◌, ◌≢◌, inl, inr, refl, subst, ◌==◌, Bool, true,
  false, Option, none, some, arith, ℕ_discrete, Bool-cases,
}
use os_qemu.Prelude.Errors.{Result, ok, err, panic, no_mem}
use os_qemu.Prelude.Scan.{Scan, nowhere, first}
use os_qemu.Fs.Bitmap.{Bitmap, test_bit, find_bit, find_word}
use os_qemu.Fs.Bitmap.Bits.{no_bits, find_bit-Scan}

-- Whether the map has the block for free.
abbrev pub is_free : Bitmap → ℕ → Bool
is_free b i = test_bit (b.words (i / 32)) (i % 32)

-- The words of the map are words.
abbrev pub IsWords : Bitmap → Type 0
IsWords b = (ix : ℕ) → ix < b.nwords → b.words ix < 2 ^ 32

pub test_bit_zero : (k : ℕ) → test_bit 0 k ≡ false
unfolding test_bit
test_bit_zero zero = refl
test_bit_zero (suc k) = test_bit_zero k

-- What the search over the words comes to.
pub data Found (lo hi : ℕ) (words : ℕ → ℕ) : Result (ℕ × ℕ) → Type 0 where
  all_zero : ((j : ℕ) → lo ≤ j → j < hi → words j ≡ 0) → Found lo hi words (err no_mem)
  at_bit :
      (ix k : ℕ)
      → lo ≤ ix
      → ix < hi
      → k < 32
      → test_bit (words ix) k ≡ true
      → ((j : ℕ) → j < k → test_bit (words ix) j ≡ false)
      → ((j : ℕ) → lo ≤ j → j < ix → words j ≡ 0)
      → Found lo hi words (ok (ix, k))

module _ (lo hi : ℕ) (words : ℕ → ℕ) where
  zero_from :
      (b : ℕ)
      → words lo ≡ 0
      → ((j : ℕ) → lo + 1 ≤ j → j < b → words j ≡ 0)
      → (j : ℕ) → lo ≤ j
      → j < b
      → words j ≡ 0
  zero_from b z f j h h' = elim (ℕ_discrete lo j) [
    | yes e ↦ subst (λ x. words x ≡ 0) e z
    | no e ↦ f j (omega arith) h'
  ]

  Found-next : (r : Result (ℕ × ℕ)) → words lo ≡ 0 → Found (lo + 1) hi words r → Found lo hi words r
  Found-next (err e) z (all_zero f) = all_zero (zero_from hi z f)
  Found-next (ok a) z (at_bit ix k h h' lt e g f) =
      at_bit ix k (omega arith) h' lt e g (zero_from ix z f)
  Found-next panic z f = elim f [ ]

  Found-here :
      (o : Option ℕ)
      → lo < hi
      → words lo < 2 ^ 32
      → words lo ≢ 0
      → Scan 0 32 (test_bit (words lo)) o
      → Found lo hi words (elim o [ none ↦ panic | some offset ↦ ok (lo, offset) ])
  Found-here none lt small n (nowhere f) =
      absurd (n (no_bits 32 (words lo) small (λ k h. f k (omega arith) h)))
  Found-here (some k) lt small n (first i h h' e f) =
      at_bit lo i (omega arith) lt h' e (λ j g. f j (omega arith) g) (λ j a b. absurd (omega arith))

pub find_word-Found :
    (n lo : ℕ) (words : ℕ → ℕ)
    → ((j : ℕ) → lo ≤ j → j < lo + n → words j < 2 ^ 32)
    → Found lo (lo + n) words (find_word n lo words)
unfolding find_word
find_word-Found zero lo words small = all_zero (λ j h h'. absurd (omega arith))
find_word-Found (suc n) lo words small = elim (Bool-cases (words lo == 0)) [
  | inl e ↦ rw e (
      Found-next lo (lo + suc n) words (find_word n (lo + 1) words) (ground arith) (
        subst (λ hi. Found (lo + 1) hi words (find_word n (lo + 1) words)) (omega arith)
          (find_word-Found n (lo + 1) words (λ j h h'. small j (omega arith) (omega arith)))))
  | inr e ↦ rw e (
      Found-here lo (lo + suc n) words (find_bit 32 0 (words lo)) (omega arith)
        (small lo (omega arith) (omega arith)) (ground arith) (find_bit-Scan 32 0 (words lo)))
]
