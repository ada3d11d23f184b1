-- ===== src/Fs/Sfs/Shrink.antt =====
-- The last block of a file given back by `sfs_bmap_truncate_nolock` of kern/fs/sfs/sfs_inode.c.
use os_qemu.Prelude.{ℕ, ◌+◌, ◌-◌, ◌≤◌, ◌<◌, ◌≡◌, ◌≢◌, inl, inr, sym, ◌∙◌, true, arith}
use os_qemu.Fs.Bitmap.Search.{is_free}
use os_qemu.Fs.Sfs.{Device, Sfs}
use os_qemu.Fs.Sfs.Bmap.{DiskInode}
use os_qemu.Fs.Sfs.Disk.{Works, SfsInv, Used}
use os_qemu.Fs.Sfs.Entry.{entry}
use os_qemu.Fs.Sfs.Chain.{block_at, FileInv}

module _ {D : Type 0} (ops : Device D) (w : Works ops) where
  -- What is left when the last block of a file is given back: the disk, and the map of the file.
  pub record Shrinks (s : Sfs D) (din : DiskInode) (s' : Sfs D) (din' : DiskInode) : Type 0 where
    pub freed : is_free s'.freemap (block_at ops w s.dev din (din.blocks - 1)) ≡ true
    pub others :
        (j : ℕ)
        → j ≢ block_at ops w s.dev din (din.blocks - 1)
        → is_free s'.freemap j ≡ is_free s.freemap j
    pub same_blocks : s'.blocks ≡ s.blocks
    pub shorter : din'.blocks ≡ din.blocks - 1
    pub indirect : din'.indirect ≡ din.indirect
    pub before :
        (k : ℕ) → k < din.blocks - 1 → block_at ops w s'.dev din' k ≡ block_at ops w s.dev din k
    pub unset : (k : ℕ) → din.blocks - 1 ≤ k → k < 12 → din'.direct k ≡ 0
    pub unset_entry :
        (k : ℕ)
        → din.blocks - 1 ≤ k + 12
        → k < 1024
        → din.indirect ≢ 0
        → entry ops w s'.dev din.indirect k ≡ 0
    pub inv : SfsInv s'
    pub kept : (m : ℕ) → m ≢ din.indirect → w.content s'.dev m ≡ w.content s.dev m

  module _ (s s' : Sfs D) (din din' : DiskInode) (f : FileInv ops w s din)
      (some_block : din.blocks ≢ 0) (x : Shrinks s din s' din') where
    still : (m : ℕ) → m ≢ block_at ops w s.dev din (din.blocks - 1) → Used s m → Used s' m
    still m n u = (u.0, rw x.same_blocks (u.1), x.others m n ∙ u.2)

    pub FileInv-Shrinks : FileInv ops w s' din'
    FileInv-Shrinks =
        let sh = x.shorter in
        let max = f.max in
        record {
          max = omega arith;
          used = λ k h.
              let lt : k < din.blocks - 1 = omega arith in
              rw (x.before k lt) (
                still (block_at ops w s.dev din k)
                  (f.distinct k (din.blocks - 1) (omega arith) (omega arith) (omega arith))
                  (f.used k (omega arith)));
          distinct = λ k l h h' n.
              let lt : k < din.blocks - 1 = omega arith in
              let lt' : l < din.blocks - 1 = omega arith in
              rw (x.before k lt, x.before l lt') (f.distinct k l (omega arith) (omega arith) n);
          apart = λ k h.
              let lt : k < din.blocks - 1 = omega arith in
              rw (x.before k lt, x.indirect) (f.apart k (omega arith));
          indirect = rw x.indirect (elim f.indirect [
            | inl z ↦ inl z
            | inr u ↦
                inr (still din.indirect (λ q. f.apart (din.blocks - 1) (omega arith) (sym q)) u)
          ]);
          indirect_needed = λ h. rw x.indirect (f.indirect_needed (omega arith));
          unset = λ k h h'. x.unset k (omega arith) h';
          unset_entry =
              λ k h h' n. rw x.indirect (x.unset_entry k (omega arith) h' (rw (sym x.indirect) n));
        }
