-- ===== src/Fs/Bitmap/Free.antt =====
-- What kern/fs/sfs/bitmap.c allocates and frees.
use os_qemu.Prelude.{
  ℕ, ◌+◌, ◌*◌, ◌/◌, ◌%◌, ◌≤◌, ◌<◌, ◌≡◌, ◌≢◌, ◌⊎◌, inl, inr, refl, sym, ◌∙◌, subst, ◌==◌, not, true,
  false, arith, ℕ_discrete,
}
use os_qemu.Prelude.Errors.{Result, ok, err, panic, no_mem}
use os_qemu.Fs.Bitmap.{Bitmap, test_bit, flip_bit, set_word, find_word, bitmap_alloc, bitmap_free}
use os_qemu.Fs.Bitmap.Bits.{test_bit-flip_bit, test_bit-flip_other, flip_bit-lt}
use os_qemu.Fs.Bitmap.Search.{
  is_free, IsWords, test_bit_zero, Found, all_zero, at_bit, find_word-Found,
}

-- The map with one bit turned over.
abbrev pub flipped : Bitmap → ℕ → ℕ → Bitmap
flipped b ix k = record b { words = set_word b.words ix (flip_bit (b.words ix) k) }

division : (ix k : ℕ) → k < 32 → ((ix * 32 + k) / 32 ≡ ix) × ((ix * 32 + k) % 32 ≡ k)
division ix k lt = (omega arith, omega arith)

==_refl : (n : ℕ) → (n == n) ≡ true
==_refl n = ground arith

==_ne : (m n : ℕ) → m ≢ n → (m == n) ≡ false
==_ne m n h = ground arith

pub is_free-flipped :
    (b : Bitmap) (ix k : ℕ)
    → k < 32
    → (is_free (flipped b ix k) (ix * 32 + k) ≡ not (test_bit (b.words ix) k))
      × (is_free b (ix * 32 + k) ≡ test_bit (b.words ix) k)
is_free-flipped b ix k lt =
    let (d, m) = division ix k lt in
    (rw (d, m, ==_refl ix) (test_bit-flip_bit k (b.words ix)), rw (d, m) refl)

pub is_free-flipped_other :
    (b : Bitmap) (ix k j : ℕ) → k < 32 → j ≢ ix * 32 + k → is_free (flipped b ix k) j ≡ is_free b j
is_free-flipped_other b ix k j lt n = elim (ℕ_discrete (j / 32) ix) [
  | yes e ↦ rw (e, ==_refl ix) (test_bit-flip_other k (j % 32) (b.words ix) (λ h. n (omega arith)))
  | no e ↦ rw (==_ne (j / 32) ix e) refl
]

pub IsWords-flipped :
    (b : Bitmap) (ix k : ℕ) → IsWords b → ix < b.nwords → k < 32 → IsWords (flipped b ix k)
IsWords-flipped b ix k w lt lk j h = elim (ℕ_discrete j ix) [
  | yes e ↦ rw (e, ==_refl ix) (flip_bit-lt 32 k (b.words ix) lk (w ix lt))
  | no e ↦ rw (==_ne j ix e) (w j h)
]

before :
    (b : Bitmap) (ix k : ℕ)
    → ((j : ℕ) → 0 ≤ j → j < ix → b.words j ≡ 0)
    → ((j : ℕ) → j < k → test_bit (b.words ix) j ≡ false)
    → k < 32
    → (j : ℕ) → j < ix * 32 + k
    → is_free b j ≡ false
before b ix k f g small j lt = elim (ℕ_discrete (j / 32) ix) [
  | yes e ↦ rw e (g (j % 32) (omega arith))
  | no e ↦ rw (f (j / 32) (omega arith) (omega arith)) (test_bit_zero (j % 32))
]

-- What an allocation does: no block is free, or the first that is becomes used.
abbrev pub Allocated : Bitmap → Result (ℕ × Bitmap) → Type 0
Allocated b r =
    ((r ≡ err no_mem) × ((i : ℕ) → i < b.nwords * 32 → is_free b i ≡ false))
    ⊎ ((i : ℕ) × (b' : Bitmap) × (r ≡ ok (i, b'))
        × (i < b.nwords * 32)
        × (is_free b i ≡ true)
        × ((j : ℕ) → j < i → is_free b j ≡ false)
        × (is_free b' i ≡ false)
        × ((j : ℕ) → j ≢ i → is_free b' j ≡ is_free b j)
        × IsWords b')

-- On a map of words an allocation never fails an assertion. It returns the first free block, which is
-- used afterwards and the only one to change; it returns `-E_NO_MEM` only when no block is free.
pub bitmap_alloc-Allocated : (b : Bitmap) → IsWords b → Allocated b (bitmap_alloc b)
unfolding bitmap_alloc
bitmap_alloc-Allocated b w = by_word (find_word b.nwords 0 b.words) (
    subst (λ hi. Found 0 hi b.words (find_word b.nwords 0 b.words)) (omega arith)
      (find_word-Found b.nwords 0 b.words (λ j h h'. w j (omega arith))))
  where
    by_word :
        (r : Result (ℕ × ℕ))
        → Found 0 b.nwords b.words r
        → Allocated b (elim r [
          | err e ↦ err e
          | panic ↦ panic
          | ok at ↦ ok (at.0 * 32 + at.1, flipped b at.0 at.1)
        ])
    by_word panic f = elim f [ ]
    by_word (err e) (all_zero f) =
        inl (refl, λ i h. rw (f (i / 32) (omega arith) (omega arith)) (test_bit_zero (i % 32)))
    by_word (ok a) (at_bit ix k h h' lt e g f) =
        let (n, o) = is_free-flipped b ix k lt in
        inr (
          ix * 32 + k,
          flipped b ix k,
          refl,
          omega arith,
          o ∙ e,
          before b ix k f g lt,
          n ∙ rw e refl,
          λ j m. is_free-flipped_other b ix k j lt m,
          IsWords-flipped b ix k w h' lt,
        )

pub bitmap_free-used :
    (b : Bitmap) (i : ℕ)
    → i < b.nbits
    → is_free b i ≡ false
    → bitmap_free b i ≡ ok (flipped b (i / 32) (i % 32))
unfolding bitmap_free
bitmap_free-used b i lt e = ground (arith, e)

-- Freeing a used block of the map makes it free and leaves the others.
pub bitmap_free_lem :
    (b : Bitmap) (i : ℕ)
    → i < b.nbits
    → is_free b i ≡ false
    → (b' : Bitmap) × (bitmap_free b i ≡ ok b')
      × (is_free b' i ≡ true)
      × ((j : ℕ) → j ≢ i → is_free b' j ≡ is_free b j)
bitmap_free_lem b i lt e =
    let (n, o) = is_free-flipped b (i / 32) (i % 32) (omega arith) in
    let at : i / 32 * 32 + i % 32 ≡ i = omega arith in
    (
      flipped b (i / 32) (i % 32),
      bitmap_free-used b i lt e,
      subst (λ x. is_free (flipped b (i / 32) (i % 32)) x ≡ true) at (n ∙ rw e refl),
      λ j m. is_free-flipped_other b (i / 32) (i % 32) j (omega arith) (omega arith),
    )

-- A block of the map that was just allocated can be freed, and then every block is as it was.
pub bitmap_free-bitmap_alloc :
    (b b' : Bitmap) (i : ℕ)
    → IsWords b
    → bitmap_alloc b ≡ ok (i, b')
    → i < b'.nbits
    → (b'' : Bitmap) × (bitmap_free b' i ≡ ok b'') × ((j : ℕ) → is_free b'' j ≡ is_free b j)
bitmap_free-bitmap_alloc b b' i w e lt = elim (bitmap_alloc-Allocated b w) [
  | inl h ↦ absurd (ground (arith, e, h.0))
  | inr (k, c, r, bound, was, low, now, same, ws) ↦
      let same_out : ok (k, c) ≡ ok (i, b') = sym r ∙ e in
      let k_i : k ≡ i = ground (arith, same_out) in
      let c_b : c ≡ b' = cc same_out in
      let used : is_free b' i ≡ false = rw (sym c_b, sym k_i) now in
      let (b'', free, set, others) = bitmap_free_lem b' i lt used in
      (
        b'',
        free,
        λ j. elim (ℕ_discrete j i) [
          | yes h ↦ rw h (set ∙ sym (rw (sym k_i) was))
          | no h ↦ others j h ∙ rw (sym c_b) (same j (omega arith))
        ],
      )
]

abbrev allocated_at : Bitmap → Result (ℕ × ℕ) → Result (ℕ × Bitmap)
allocated_at b r = elim r [
  | err e ↦ err e
  | panic ↦ panic
  | ok at ↦ ok (at.0 * 32 + at.1, flipped b at.0 at.1)
]

-- An allocation keeps the size of the map.
pub bitmap_alloc-size :
    (b b' : Bitmap) (i : ℕ)
    → bitmap_alloc b ≡ ok (i, b')
    → (b'.nbits ≡ b.nbits) × (b'.nwords ≡ b.nwords)
unfolding bitmap_alloc
bitmap_alloc-size b b' i e = by_word (find_word b.nwords 0 b.words) e
  where
    by_word :
        (r : Result (ℕ × ℕ))
        → allocated_at b r ≡ ok (i, b')
        → (b'.nbits ≡ b.nbits) × (b'.nwords ≡ b.nwords)
    by_word panic h = absurd (ground arith)
    by_word (err x) h = absurd (ground arith)
    by_word (ok a) h = (ground (arith, h), ground (arith, h))
