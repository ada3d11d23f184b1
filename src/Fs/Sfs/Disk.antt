-- ===== src/Fs/Sfs/Disk.antt =====
-- The free blocks of kern/fs/sfs/sfs_inode.c: `sfs_block_alloc` and `sfs_block_free` over a disk that
-- works, and the count of `super.unused_blocks`.
use os_qemu.Prelude.{
  ℕ, zero, suc, ◌+◌, ◌-◌, ◌*◌, ◌/◌, ◌%◌, ◌^◌, ◌≤◌, ◌<◌, ◌≡◌, ◌≢◌, ◌⊎◌, inl, inr, refl, sym, ◌∙◌, ap,
  subst, ◌==◌, ltb, true, false, arith, ℕ_discrete, if◌then◌else◌, none,
}
use os_qemu.Prelude.Errors.{Result, ok, err, no_mem}
use os_qemu.Fs.Vfs.{ret, fail}
use os_qemu.Fs.Bitmap.{Bitmap, bitmap_alloc, bitmap_test, bitmap_translate}
use os_qemu.Fs.Bitmap.Search.{is_free, IsWords}
use os_qemu.Fs.Bitmap.Free.{
  flipped, bitmap_alloc-Allocated, bitmap_alloc-size, bitmap_free-used, IsWords-flipped,
  is_free-flipped, is_free-flipped_other,
}
use os_qemu.Fs.Sfs.{
  blksize, Block, Device, Sfs, block_offset, read_block, write_block, sfs_clear_block,
  sfs_block_inuse, assert_inuse, sfs_block_alloc, sfs_block_free,
}

-- A device that works: a block that is read is what the disk holds, one that is written is held
-- afterwards, and the others stay.
pub record Works {D : Type 0} (ops : Device D) : Type 0 where
  pub content : D → ℕ → Block
  pub stored : D → ℕ → Block → D
  pub dop_read_lem :
      (n : ℕ) (d : D) → n < 2 ^ 20 → ops.dop_read (n * blksize) d ≡ (ret (content d n), d)
  pub dop_write_lem :
      (n : ℕ) (b : Block) (d : D)
      → n < 2 ^ 20
      → ops.dop_write (n * blksize) b d ≡ (none, stored d n b)
  pub content-stored :
      (n i : ℕ) (b : Block) (d : D) → i < blksize → content (stored d n b) n i ≡ b i
  pub content-stored_other :
      (n m : ℕ) (b : Block) (d : D) → m ≢ n → content (stored d n b) m ≡ content d m

-- The blocks below `n` that are free.
abbrev pub count_free : ℕ → Bitmap → ℕ
count_free zero b = 0
count_free (suc n) b = (if is_free b n then 1 else 0) + count_free n b

-- The map has a bit for every block, just blocks of the disk are free in it, never the one of the
-- superblock, and they are as many as the superblock counts.
pub record SfsInv {D : Type 0} (s : Sfs D) : Type 0 where
  pub words : IsWords s.freemap
  pub whole : s.freemap.nbits ≡ s.freemap.nwords * 32
  pub fits : s.blocks ≤ s.freemap.nbits
  pub few : s.blocks ≤ 2 ^ 20
  pub in_range :
      (i : ℕ) → i < s.freemap.nbits → is_free s.freemap i ≡ true → (i ≢ 0) × (i < s.blocks)
  pub counted : s.unused_blocks ≡ count_free s.blocks s.freemap

-- A block of the disk that is not free.
abbrev pub Used : {D : Type 0} → Sfs D → ℕ → Type 0
Used s i = (i ≢ 0) × (i < s.blocks) × (is_free s.freemap i ≡ false)

count_free-le : (n : ℕ) (b : Bitmap) → count_free n b ≤ n
count_free-le zero b = omega arith
count_free-le (suc n) b = ground (arith, count_free-le n b)

count_free-same :
    (n : ℕ) (b b' : Bitmap)
    → ((j : ℕ) → j < n → is_free b' j ≡ is_free b j)
    → count_free n b' ≡ count_free n b
count_free-same zero b b' f = refl
count_free-same (suc n) b b' f =
    rw (f n (omega arith), count_free-same n b b' (λ j h. f j (omega arith))) refl

count_free-one :
    (n i : ℕ) (b b' : Bitmap)
    → i < n
    → is_free b i ≡ true
    → is_free b' i ≡ false
    → ((j : ℕ) → j ≢ i → is_free b' j ≡ is_free b j)
    → count_free n b ≡ count_free n b' + 1
count_free-one zero i b b' h e e' f = absurd (omega arith)
count_free-one (suc n) i b b' h e e' f = elim (ℕ_discrete i n) [
  | yes q ↦
      let same = count_free-same n b b' (λ j lt. f j (omega arith)) in
      rw (sym q, e, e') (rw q (omega (arith, same)))
  | no q ↦
      let ih = count_free-one n i b b' (omega arith) e e' f in
      rw (f n (λ k. q (sym k))) (omega (arith, ih))
]

bitmap_test-eq : (b : Bitmap) (i : ℕ) → i < b.nbits → bitmap_test b i ≡ ok (is_free b i)
unfolding bitmap_test bitmap_translate
bitmap_test-eq b i lt = ground arith

module _ {D : Type 0} where
  -- The assertion on a block that is used does not fail.
  pub assert_inuse-Used {ℓ} :
      {A : Type ℓ} (s : Sfs D) (i : ℕ) (r : Result A) → SfsInv s → Used s i → assert_inuse i s r ≡ r
  unfolding assert_inuse sfs_block_inuse
  assert_inuse-Used s i r inv u =
      let fits = inv.fits in
      let lt = u.1 in
      let n : (i == 0) ≡ false = let ne = u.0 in ground arith in
      let b : ltb i s.blocks ≡ true = ground arith in
      rw (n, b, bitmap_test-eq s.freemap i (omega arith), u.2) refl

  pub SfsInv-dev : (s : Sfs D) (d : D) → SfsInv s → SfsInv (record s { dev = d })
  SfsInv-dev s d inv = record {
    words = inv.words;
    whole = inv.whole;
    fits = inv.fits;
    few = inv.few;
    in_range = inv.in_range;
    counted = inv.counted;
  }

  -- What a freed block leaves.
  pub record Freed (s : Sfs D) (i : ℕ) (s' : Sfs D) : Type 0 where
    pub free : is_free s'.freemap i ≡ true
    pub others : (j : ℕ) → j ≢ i → is_free s'.freemap j ≡ is_free s.freemap j
    pub same_blocks : s'.blocks ≡ s.blocks
    pub same_dev : s'.dev ≡ s.dev
    pub inv : SfsInv s'

  -- A used block can be freed: then it alone has become free, the disk holds what it held, and the
  -- count of free blocks is right.
  pub sfs_block_free-Freed :
      (s : Sfs D) (i : ℕ)
      → SfsInv s
      → Used s i
      → (s' : Sfs D) × (sfs_block_free i s ≡ ok s') × Freed s i s'
  unfolding sfs_block_free
  sfs_block_free-Freed s i inv u =
      let fits = inv.fits in
      let whole = inv.whole in
      let few = inv.few in
      let b' = flipped s.freemap (i / 32) (i % 32) in
      let lt : i < s.freemap.nbits = let h = u.1 in omega arith in
      let (n, o) = is_free-flipped s.freemap (i / 32) (i % 32) (omega arith) in
      let at : i / 32 * 32 + i % 32 ≡ i = omega arith in
      let now : is_free b' i ≡ true = subst (λ x. is_free b' x ≡ true) at (n ∙ rw u.2 refl) in
      let others : (j : ℕ) → j ≢ i → is_free b' j ≡ is_free s.freemap j =
        λ j m. is_free-flipped_other s.freemap (i / 32) (i % 32) j (omega arith) (omega arith) in
      let one = count_free-one s.blocks i b' s.freemap u.1 now u.2 (λ j m. sym (others j m)) in
      let le = count_free-le s.blocks b' in
      let counted = inv.counted in
      let sum : (s.unused_blocks + 1) % 2 ^ 32 ≡ count_free s.blocks b' = omega arith in
      (
        record s {
          freemap = b';
          unused_blocks = (s.unused_blocks + 1) % 2 ^ 32;
          super_dirty = true;
        },
        assert_inuse-Used s i _ inv u ∙ rw (bitmap_free-used s.freemap i lt u.2) refl,
        record {
          free = now;
          others = others;
          same_blocks = refl;
          same_dev = refl;
          inv = record {
            words =
                IsWords-flipped s.freemap (i / 32) (i % 32) inv.words (omega arith) (omega arith);
            whole = whole;
            fits = fits;
            few = few;
            in_range = λ j h e. elim (ℕ_discrete j i) [
              | yes q ↦ rw q (u.0, u.1)
              | no q ↦ inv.in_range j h (sym (others j q) ∙ e)
            ];
            counted = sum;
          };
        },
      )

module _ {D : Type 0} (ops : Device D) (w : Works ops) where
  offset_lem : (n : ℕ) → n < 2 ^ 20 → block_offset n ≡ n * blksize
  offset_lem n h = omega arith

  pub read_block_lem :
      (s : Sfs D) (n : ℕ)
      → SfsInv s
      → n ≢ 0
      → n < s.blocks
      → read_block ops n true s ≡ ok (ret (w.content s.dev n), s)
  unfolding read_block
  read_block_lem s n inv ne lt =
      let few = inv.few in
      let small : n < 2 ^ 20 = omega arith in
      let e : (n == 0) ≡ false = ground arith in
      let b : ltb n s.blocks ≡ true = ground arith in
      rw (offset_lem n small, w.dop_read_lem n s.dev small, e, b) refl

  pub write_block_lem :
      (s : Sfs D) (n : ℕ) (b : Block)
      → s.blocks ≤ 2 ^ 20
      → n ≢ 0
      → n < s.blocks
      → write_block ops b n true s ≡ ok (none, record s { dev = w.stored s.dev n b })
  unfolding write_block
  write_block_lem s n b few ne lt =
      let small : n < 2 ^ 20 = omega arith in
      let e : (n == 0) ≡ false = ground arith in
      let l : ltb n s.blocks ≡ true = ground arith in
      rw (offset_lem n small, w.dop_write_lem n b s.dev small, e, l) refl

  -- What an allocated block leaves.
  pub record Got (s : Sfs D) (i : ℕ) (s' : Sfs D) : Type 0 where
    pub was_free : is_free s.freemap i ≡ true
    pub used : Used s' i
    pub others : (j : ℕ) → j ≢ i → is_free s'.freemap j ≡ is_free s.freemap j
    pub same_blocks : s'.blocks ≡ s.blocks
    pub cleared : s'.dev ≡ w.stored s.dev i (λ x. 0)
    pub inv : SfsInv s'

  -- What an allocation comes to.
  abbrev pub BlockAllocated : Sfs D → Type 0
  BlockAllocated s =
      ((sfs_block_alloc ops s ≡ ok (fail no_mem, s))
        × ((i : ℕ) → i < s.freemap.nbits → is_free s.freemap i ≡ false))
      ⊎ ((i : ℕ) × (s' : Sfs D) × (sfs_block_alloc ops s ≡ ok (ret i, s')) × Got s i s')

  module _ (s : Sfs D) (inv : SfsInv s) where
    module _ (i : ℕ) (b : Bitmap) (e : bitmap_alloc s.freemap ≡ ok (i, b))
        (bound : i < s.freemap.nbits) (was : is_free s.freemap i ≡ true) (now : is_free b i ≡ false)
        (others : (j : ℕ) → j ≢ i → is_free b j ≡ is_free s.freemap j) (words : IsWords b) where
      abbrev taken : Sfs D
      taken = record s { freemap = b; unused_blocks = s.unused_blocks - 1; super_dirty = true }

      taken-SfsInv : SfsInv taken
      taken-SfsInv =
          let (n, m) = bitmap_alloc-size s.freemap b i e in
          let (z, lt) = inv.in_range i bound was in
          let one = count_free-one s.blocks i s.freemap b lt was now others in
          let counted = inv.counted in
          let whole = inv.whole in
          record {
            words = words;
            whole = n ∙ whole ∙ sym (ap (λ (k : ℕ). k * 32) m);
            fits = let f = inv.fits in rw n f;
            few = inv.few;
            in_range = λ j h f. elim (ℕ_discrete j i) [
              | yes q ↦ rw q (z, lt)
              | no q ↦ inv.in_range j (rw (sym n) h) (sym (others j q) ∙ f)
            ];
            counted = omega arith;
          }

      alloc_taken : BlockAllocated s
      unfolding sfs_block_alloc sfs_clear_block
      alloc_taken =
          let (z, lt) = inv.in_range i bound was in
          let u : Used taken i = (z, lt, now) in
          let one = count_free-one s.blocks i s.freemap b lt was now others in
          let counted = inv.counted in
          let some_free : (s.unused_blocks == 0) ≡ false = ground arith in
          let clear = write_block_lem taken i (λ x. 0) inv.few z lt in
          inr (
            i,
            record taken { dev = w.stored s.dev i (λ x. 0) },
            rw (e, sfs_block_alloc, some_free)
                (assert_inuse-Used taken i _ taken-SfsInv u ∙ rw clear refl),
            record {
              was_free = was;
              used = u;
              others = others;
              same_blocks = refl;
              cleared = refl;
              inv = SfsInv-dev taken (w.stored s.dev i (λ x. 0)) taken-SfsInv;
            },
          )

    alloc_full : bitmap_alloc s.freemap ≡ err no_mem → sfs_block_alloc ops s ≡ ok (fail no_mem, s)
    unfolding sfs_block_alloc
    alloc_full e = rw (e, sfs_block_alloc) refl

    -- On a disk that works no assertion of an allocation fails: it returns a block that was free, used
    -- now and filled with zeros, the other blocks and the count of free blocks staying right; or, if no
    -- block is free, `-E_NO_MEM` and nothing changes.
    pub sfs_block_alloc_lem : BlockAllocated s
    sfs_block_alloc_lem =
        let whole = inv.whole in
        elim (bitmap_alloc-Allocated s.freemap inv.words) [
          | inl h ↦ inl (alloc_full h.0, λ i lt. h.1 i (omega arith))
          | inr (i, b, r, bound, was, low, now, same, ws) ↦
              alloc_taken i b r (omega arith) was now same ws
        ]
