-- ===== src/Fs/Sfs/Append.antt =====
-- A block added at the end of a file by `sfs_bmap_load_nolock` of kern/fs/sfs/sfs_inode.c.
use os_qemu.Prelude.{
  ℕ, ◌+◌, ◌%◌, ◌^◌, ◌≤◌, ◌<◌, ◌≡◌, ◌≢◌, ◌⊎◌, inl, inr, refl, sym, ◌∙◌, ap, ◌==◌, leb, true, arith,
  ℕ_discrete,
}
use os_qemu.Prelude.Errors.{Error, ok}
use os_qemu.Fs.Vfs.{ret, fail}
use os_qemu.Fs.Bitmap.Search.{is_free}
use os_qemu.Fs.Sfs.{blksize, Device, Sfs}
use os_qemu.Fs.Sfs.Bmap.{DiskInode, SfsInode, sfs_bmap_get_nolock, sfs_bmap_load_nolock}
use os_qemu.Fs.Sfs.Disk.{Works, SfsInv, Used, assert_inuse-Used}
use os_qemu.Fs.Sfs.Entry.{entry, Used-ne}
use os_qemu.Fs.Sfs.Chain.{max_blocks, block_at, FileInv}

module _ {D : Type 0} (ops : Device D) (w : Works ops) where
  -- What makes a file one block longer, by the block `i`.
  pub record Extends (s : Sfs D) (din : DiskInode) (i : ℕ) (s' : Sfs D) (din' : DiskInode)
      : Type 0 where
    pub was_free : is_free s.freemap i ≡ true
    pub used : Used s' i
    pub still : (m : ℕ) → Used s m → Used s' m
    pub longer : din'.blocks ≡ din.blocks + 1
    pub before :
        (k : ℕ) → k < din.blocks → block_at ops w s'.dev din' k ≡ block_at ops w s.dev din k
    pub at_end : block_at ops w s'.dev din' din.blocks ≡ i
    pub indirect : (din'.indirect ≡ 0) ⊎ Used s' din'.indirect
    pub indirect_needed : 12 ≤ din.blocks → din'.indirect ≢ 0
    pub apart : i ≢ din'.indirect
    pub apart_before : (k : ℕ) → k < din.blocks → block_at ops w s.dev din k ≢ din'.indirect
    pub unset : (k : ℕ) → din.blocks < k → k < 12 → din'.direct k ≡ 0
    pub unset_entry :
        (k : ℕ)
        → din.blocks < k + 12
        → k < 1024
        → din'.indirect ≢ 0
        → entry ops w s'.dev din'.indirect k ≡ 0
    pub inv : SfsInv s'
    pub zeros : (x : ℕ) → x < blksize → w.content s'.dev i x ≡ 0
    pub kept : (m : ℕ) → Used s m → m ≢ din.indirect → w.content s'.dev m ≡ w.content s.dev m

  module _ (s s' : Sfs D) (din din' : DiskInode) (i : ℕ) (f : FileInv ops w s din)
      (max : din.blocks < max_blocks) (x : Extends s din i s' din') where
    old_block : (k : ℕ) → k < din.blocks → block_at ops w s'.dev din' k ≢ i
    old_block k lt =
        rw (x.before k lt) (Used-ne s i (block_at ops w s.dev din k) x.was_free (f.used k lt))

    last_or_before : (k : ℕ) → k < din'.blocks → (k ≡ din.blocks) ⊎ (k < din.blocks)
    last_or_before k lt =
        let l = x.longer in
        elim (ℕ_discrete k din.blocks) [ yes e ↦ inl e | no n ↦ inr (omega arith) ]

    extended-Used : (k : ℕ) → k < din'.blocks → Used s' (block_at ops w s'.dev din' k)
    extended-Used k lt = elim (last_or_before k lt) [
      | inl e ↦ rw (e, x.at_end) x.used
      | inr l ↦ rw (x.before k l) (x.still (block_at ops w s.dev din k) (f.used k l))
    ]

    extended_distinct :
        (k l : ℕ)
        → k < din'.blocks
        → l < din'.blocks
        → k ≢ l
        → block_at ops w s'.dev din' k ≢ block_at ops w s'.dev din' l
    extended_distinct k l hk hl n = elim (last_or_before k hk) [
      | inl e ↦ elim (last_or_before l hl) [
        | inl e' ↦ absurd (n (e ∙ sym e'))
        | inr lt ↦ λ q. old_block l lt (sym q ∙ ap (block_at ops w s'.dev din') e ∙ x.at_end)
      ]
      | inr lt ↦ elim (last_or_before l hl) [
        | inl e' ↦ λ q. old_block k lt (q ∙ ap (block_at ops w s'.dev din') e' ∙ x.at_end)
        | inr lt' ↦ λ q. f.distinct k l lt lt' n (sym (x.before k lt) ∙ q ∙ x.before l lt')
      ]
    ]

    extended_apart : (k : ℕ) → k < din'.blocks → block_at ops w s'.dev din' k ≢ din'.indirect
    extended_apart k lt = elim (last_or_before k lt) [
      | inl e ↦ λ q. x.apart (sym (ap (block_at ops w s'.dev din') e ∙ x.at_end) ∙ q)
      | inr l ↦ λ q. x.apart_before k l (sym (x.before k l) ∙ q)
    ]

    pub FileInv-Extends : FileInv ops w s' din'
    FileInv-Extends =
        let longer = x.longer in
        record {
          max = omega arith;
          used = extended-Used;
          distinct = extended_distinct;
          apart = extended_apart;
          indirect = x.indirect;
          indirect_needed = λ h. x.indirect_needed (omega arith);
          unset = λ k h h'. x.unset k (omega arith) h';
          unset_entry = λ k h h' n. x.unset_entry k (omega arith) h' n;
        }

  module _ (s : Sfs D) (sin : SfsInode) where
    -- The end of `sfs_bmap_load_nolock` behind the map.
    pub load_failed :
        (e : Error) (sin' : SfsInode) (s' : Sfs D)
        → sfs_bmap_get_nolock ops sin sin.din.blocks true s ≡ ok (fail e, sin', s')
        → sfs_bmap_load_nolock ops sin sin.din.blocks s ≡ ok (fail e, sin', s')
    unfolding sfs_bmap_load_nolock
    load_failed e sin' s' g =
        let le : leb sin.din.blocks sin.din.blocks ≡ true = ground arith in
        let eq : (sin.din.blocks == sin.din.blocks) ≡ true = ground arith in rw (le, eq, g) refl

    pub load_got :
        (i : ℕ) (sin' : SfsInode) (s' : Sfs D)
        → sfs_bmap_get_nolock ops sin sin.din.blocks true s ≡ ok (ret i, sin', s')
        → SfsInv s'
        → Used s' i
        → sin'.din.blocks ≡ sin.din.blocks
        → sin.din.blocks < max_blocks
        → sfs_bmap_load_nolock ops sin sin.din.blocks s
          ≡ ok (ret i, record sin' { din = record (sin'.din) { blocks = sin.din.blocks + 1 } }, s')
    unfolding sfs_bmap_load_nolock
    load_got i sin' s' g inv u same lt =
        let le : leb sin.din.blocks sin.din.blocks ≡ true = ground arith in
        let eq : (sin.din.blocks == sin.din.blocks) ≡ true = ground arith in
        let sum : (sin'.din.blocks + 1) % 2 ^ 32 ≡ sin.din.blocks + 1 = omega arith in
        rw (le, eq, g) (assert_inuse-Used s' i _ inv u ∙ rw (eq, sum) refl)
