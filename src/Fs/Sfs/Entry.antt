-- ===== src/Fs/Sfs/Entry.antt =====
-- The entries of an indirect block of kern/fs/sfs/sfs_inode.c, over a disk that works.
use os_qemu.Prelude.{
  ℕ, ◌+◌, ◌-◌, ◌*◌, ◌^◌, ◌<◌, ◌≡◌, ◌≢◌, ◌⊎◌, inl, inr, refl, sym, ◌∙◌, ap, ltb, leb, ◌&&◌, true,
  false, arith, none,
}
use os_qemu.Prelude.Errors.{ok, no_mem}
use os_qemu.Fs.Vfs.{ret}
use os_qemu.Fs.Bitmap.Search.{is_free}
use os_qemu.Fs.Sfs.{
  blksize, Block, Device, Sfs, word_of, bytes_of, overlay, in_block, sfs_rbuf, sfs_wbuf,
}
use os_qemu.Fs.Sfs.Bmap.{failed_cleanup, enter_block}
use os_qemu.Fs.Sfs.Disk.{
  Works, SfsInv, Used, SfsInv-dev, read_block_lem, write_block_lem, sfs_block_alloc_lem,
}

pub word_of-eq :
    (b c : Block) → b 0 ≡ c 0 → b 1 ≡ c 1 → b 2 ≡ c 2 → b 3 ≡ c 3 → word_of b ≡ word_of c
word_of-eq b c e₀ e₁ e₂ e₃ = rw (e₀, e₁, e₂, e₃) refl

-- The bytes of a `uint32_t` make it up again.
pub word_of-bytes_of : (w : ℕ) → w < 2 ^ 32 → word_of (bytes_of w) ≡ w
word_of-bytes_of w h = omega arith

-- Free and used blocks differ.
pub Used-ne : {D : Type 0} (s : Sfs D) (i m : ℕ) → is_free s.freemap i ≡ true → Used s m → m ≢ i
Used-ne s i m f u e =
    let g = u.2 in let h : is_free s.freemap i ≡ false = rw (sym e) g in ground (arith, f, h)

module _ {D : Type 0} (ops : Device D) (w : Works ops) where
  -- The entry `k` of the block `ent`.
  abbrev pub entry : D → ℕ → ℕ → ℕ
  entry d ent k = word_of (λ i. w.content d ent (k * 4 + i))

  -- The disk with the entry `k` of `ent` set.
  abbrev pub with_entry : D → ℕ → ℕ → ℕ → D
  with_entry d ent k ino = w.stored d ent (overlay (bytes_of ino) 4 (k * 4) (w.content d ent))

  pub entry-with_entry :
      (d : D) (ent k ino : ℕ) → k < 1024 → ino < 2 ^ 32 → entry (with_entry d ent k ino) ent k ≡ ino
  entry-with_entry d ent k ino lt small =
      let b = overlay (bytes_of ino) 4 (k * 4) (w.content d ent) in
      let at : (i : ℕ) → i < 4 → w.content (w.stored d ent b) ent (k * 4 + i) ≡ bytes_of ino i =
        λ i h.
          let sub : k * 4 + i - k * 4 ≡ i = omega arith in
          let lo : leb (k * 4) (k * 4 + i) ≡ true = ground arith in
          let hi : ltb (k * 4 + i) (k * 4 + 4) ≡ true = ground arith in
          w.content-stored ent (k * 4 + i) b d (omega arith) ∙ rw (lo, hi, sub) refl in
      word_of-eq (λ i. w.content (w.stored d ent b) ent (k * 4 + i)) (bytes_of ino)
        (at 0 (omega arith)) (at 1 (omega arith)) (at 2 (omega arith)) (at 3 (omega arith))
      ∙ word_of-bytes_of ino small

  pub entry-with_entry_other :
      (d : D) (ent k j ino : ℕ)
      → k < 1024
      → j < 1024
      → j ≢ k
      → entry (with_entry d ent k ino) ent j ≡ entry d ent j
  entry-with_entry_other d ent k j ino lt lt' ne =
      let b = overlay (bytes_of ino) 4 (k * 4) (w.content d ent) in
      let at : (i : ℕ)
          → i < 4
          → w.content (w.stored d ent b) ent (j * 4 + i) ≡ w.content d ent (j * 4 + i) =
        λ i h.
          let out : (leb (k * 4) (j * 4 + i) && ltb (j * 4 + i) (k * 4 + 4)) ≡ false =
            ground arith in
          w.content-stored ent (j * 4 + i) b d (omega arith) ∙ rw out refl in
      word_of-eq (λ i. w.content (w.stored d ent b) ent (j * 4 + i))
        (λ i. w.content d ent (j * 4 + i)) (at 0 (omega arith)) (at 1 (omega arith))
        (at 2 (omega arith)) (at 3 (omega arith))

  module _ (s : Sfs D) (inv : SfsInv s) (ent k : ℕ) (u : Used s ent) (lt : k < 1024) where
    in_block-entry : in_block (k * 4) 4 ≡ true
    in_block-entry = ground arith

    pub sfs_rbuf-entry :
        sfs_rbuf ops 4 ent (k * 4) s ≡ ok (ret (λ i. w.content s.dev ent (k * 4 + i)), s)
    unfolding sfs_rbuf
    sfs_rbuf-entry = rw (in_block-entry, read_block_lem ops w s ent inv u.0 u.1) refl

    pub sfs_wbuf-entry :
        (ino : ℕ)
        → sfs_wbuf ops (bytes_of ino) 4 ent (k * 4) s
          ≡ ok (none, record s { dev = with_entry s.dev ent k ino })
    unfolding sfs_wbuf
    sfs_wbuf-entry ino =
        rw (in_block-entry, read_block_lem ops w s ent inv u.0 u.1)
          (write_block_lem ops w s ent (overlay (bytes_of ino) 4 (k * 4) (w.content s.dev ent))
            inv.few u.0 u.1)

  -- What a new block leaves that is entered as the entry `k` of `ent`.
  pub record Entered (s : Sfs D) (ent k i : ℕ) (s' : Sfs D) : Type 0 where
    pub was_free : is_free s.freemap i ≡ true
    pub used : Used s' i
    pub others : (j : ℕ) → j ≢ i → is_free s'.freemap j ≡ is_free s.freemap j
    pub same_blocks : s'.blocks ≡ s.blocks
    pub inv : SfsInv s'
    pub zeros : (x : ℕ) → x < blksize → w.content s'.dev i x ≡ 0
    pub kept : (m : ℕ) → m ≢ i → m ≢ ent → w.content s'.dev m ≡ w.content s.dev m
    pub entered : entry s'.dev ent k ≡ i
    pub entries : (j : ℕ) → j < 1024 → j ≢ k → entry s'.dev ent j ≡ entry s.dev ent j

  pub enter_block_lem :
      (s : Sfs D) (old ent k : ℕ)
      → SfsInv s
      → Used s ent
      → k < 1024
      → ((enter_block ops old ent (k * 4) s ≡ failed_cleanup no_mem old ent s)
          × ((j : ℕ) → j < s.blocks → is_free s.freemap j ≡ false))
        ⊎ ((i : ℕ) × (s' : Sfs D) × (enter_block ops old ent (k * 4) s ≡ ok (ret (ent, i), s'))
            × Entered s ent k i s')
  unfolding enter_block
  enter_block_lem s old ent k inv u lt = elim (sfs_block_alloc_lem ops w s inv) [
    | inl (e, f) ↦ inl (rw e refl, λ j h. f j (let whole = inv.whole in omega arith))
    | inr (i, t, e, g) ↦
        let ne : ent ≢ i = Used-ne s i ent g.was_free u in
        let u' : Used t ent = (u.0, rw (g.same_blocks) (u.1), g.others ent ne ∙ u.2) in
        let wr = sfs_wbuf-entry t g.inv ent k u' lt i in
        let kept : w.content t.dev ent ≡ w.content s.dev ent =
          ap (λ d. w.content d ent) g.cleared ∙ w.content-stored_other i ent (λ x. 0) s.dev ne in
        let few = g.inv.few in
        let bound = g.used.1 in
        let d = with_entry t.dev ent k i in
        let away : (m : ℕ) → m ≢ ent → w.content d m ≡ w.content t.dev m = λ m n.
          w.content-stored_other ent m (overlay (bytes_of i) 4 (k * 4) (w.content t.dev ent)) t.dev
            n in
        inr (
          i,
          record t { dev = d },
          rw e (rw wr refl),
          record {
            was_free = g.was_free;
            used = g.used;
            others = g.others;
            same_blocks = g.same_blocks;
            inv = SfsInv-dev t d g.inv;
            zeros = λ x h.
                ap (λ b. b x) (away i (λ q. ne (sym q)))
                ∙ ap (λ (a : D). w.content a i x) g.cleared
                ∙ w.content-stored i x (λ y. 0) s.dev h;
            kept = λ m n n'.
                away m n'
                ∙ ap (λ (a : D). w.content a m) g.cleared
                ∙ w.content-stored_other i m (λ y. 0) s.dev n;
            entered = entry-with_entry t.dev ent k i lt (omega arith);
            entries = λ j h n.
                entry-with_entry_other t.dev ent k j i lt h n
                ∙ ap (λ (b : Block). word_of (λ x. b (j * 4 + x))) kept;
          },
        )
  ]
