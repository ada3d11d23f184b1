-- ===== src/Fs/Bitmap/Bits.antt =====
-- The bits of a word of kern/fs/sfs/bitmap.c.
use os_qemu.Prelude.{
  ℕ, zero, suc, ◌+◌, ◌/◌, ◌%◌, ◌^◌, ◌<◌, ◌≡◌, ◌≢◌, refl, ◌==◌, not, false, arith, Bool-cases, subst,
  inl, inr,
}
use os_qemu.Prelude.Scan.{Scan, nowhere, Scan-here, Scan-next}
use os_qemu.Fs.Bitmap.{test_bit, flip_bit, find_bit}

flip_half :
    (w k : ℕ) → (flip_bit w (suc k) / 2 ≡ flip_bit (w / 2) k) × (flip_bit w (suc k) % 2 ≡ w % 2)
unfolding flip_bit
flip_half w k = (omega arith, omega arith)

flip_low : (w : ℕ) → (flip_bit w 0 / 2 ≡ w / 2) × ((flip_bit w 0 % 2 == 1) ≡ not (w % 2 == 1))
unfolding flip_bit
flip_low w = ground arith

-- `flip_bit` turns its own bit over, and leaves the others.
pub test_bit-flip_bit : (k w : ℕ) → test_bit (flip_bit w k) k ≡ not (test_bit w k)
unfolding test_bit
test_bit-flip_bit zero w = (flip_low w).1
test_bit-flip_bit (suc k) w = rw (flip_half w k).0 (test_bit-flip_bit k (w / 2))

pub test_bit-flip_other : (k j w : ℕ) → j ≢ k → test_bit (flip_bit w k) j ≡ test_bit w j
unfolding test_bit
test_bit-flip_other zero zero w n = absurd (n refl)
test_bit-flip_other zero (suc j) w n = rw (flip_low w).0 refl
test_bit-flip_other (suc k) zero w n = rw (flip_half w k).1 refl
test_bit-flip_other (suc k) (suc j) w n =
    rw (flip_half w k).0 (test_bit-flip_other k j (w / 2) (omega arith))

-- A word that has no bit is 0.
pub no_bits : (n w : ℕ) → w < 2 ^ n → ((k : ℕ) → k < n → test_bit w k ≡ false) → w ≡ 0
unfolding test_bit
no_bits zero w h f = omega arith
no_bits (suc n) w h f =
    let half = no_bits n (w / 2) (omega arith) (λ k lt. f (suc k) (omega arith)) in
    let low = f 0 (omega arith) in ground arith

pub flip_bit-lt : (n k w : ℕ) → k < n → w < 2 ^ n → flip_bit w k < 2 ^ n
unfolding flip_bit
flip_bit-lt zero k w h h' = absurd (omega arith)
flip_bit-lt (suc n) zero w h h' = let same = (flip_low w).0 in omega arith
flip_bit-lt (suc n) (suc k) w h h' =
    let half = flip_bit-lt n k (w / 2) (omega arith) (omega arith) in omega arith

pub find_bit-Scan : (n lo w : ℕ) → Scan lo (lo + n) (test_bit w) (find_bit n lo w)
unfolding find_bit
find_bit-Scan zero lo w = nowhere (λ j h h'. absurd (omega arith))
find_bit-Scan (suc n) lo w = elim (Bool-cases (test_bit w lo)) [
  | inl e ↦ rw e (Scan-here lo (lo + suc n) (test_bit w) (omega arith) e)
  | inr e ↦ rw e (
      Scan-next lo (lo + suc n) (test_bit w) (find_bit n (lo + 1) w) e (
        subst (λ hi. Scan (lo + 1) hi (test_bit w) (find_bit n (lo + 1) w)) (omega arith)
          (find_bit-Scan n (lo + 1) w)))
]
