-- ===== src/Fs/Sfs/Grow.antt =====
-- A block added to a file among its direct blocks, `sfs_bmap_get_nolock` of kern/fs/sfs/sfs_inode.c.
use os_qemu.Prelude.{
  ℕ, ◌+◌, ◌*◌, ◌<◌, ◌≡◌, ◌≢◌, inl, inr, refl, sym, ◌∙◌, ap, ◌==◌, ltb, true, false, arith,
}
use os_qemu.Prelude.Errors.{ok, no_mem}
use os_qemu.Fs.Vfs.{ret, fail}
use os_qemu.Fs.Bitmap.Search.{is_free}
use os_qemu.Fs.Sfs.{Block, Device, Sfs, word_of, sfs_block_alloc}
use os_qemu.Fs.Sfs.Bmap.{DiskInode, SfsInode, set_direct, dirtied, sfs_bmap_get_nolock}
use os_qemu.Fs.Sfs.Disk.{Works, SfsInv, Used, Got}
use os_qemu.Fs.Sfs.Entry.{Used-ne}
use os_qemu.Fs.Sfs.Chain.{block_at-direct, FileInv, get_out-Used, indirect-Used}
use os_qemu.Fs.Sfs.Append.{Extends}

module _ {D : Type 0} (ops : Device D) (w : Works ops) where
  -- What is used stays used when another block is taken.
  pub Used-still :
      (s s' : Sfs D) (i : ℕ)
      → is_free s.freemap i ≡ true
      → s'.blocks ≡ s.blocks
      → ((j : ℕ) → j ≢ i → is_free s'.freemap j ≡ is_free s.freemap j)
      → (m : ℕ) → Used s m
      → Used s' m
  Used-still s s' i free same others m u =
      (u.0, rw same (u.1), others m (Used-ne s i m free u) ∙ u.2)

  module _ (s : Sfs D) (sin : SfsInode) (inv : SfsInv s) (f : FileInv ops w s sin.din)
      (few : sin.din.blocks < 12) where
    abbrev pub din : DiskInode
    din = sin.din

    pub no_room :
        sfs_block_alloc ops s ≡ ok (fail no_mem, s)
        → sfs_bmap_get_nolock ops sin din.blocks true s ≡ ok (fail no_mem, sin, s)
    unfolding sfs_bmap_get_nolock
    no_room e =
        let l : ltb din.blocks 12 ≡ true = ground arith in
        rw (l, f.unset din.blocks (omega arith) few, e) refl

    module _ (i : ℕ) (t : Sfs D) (e : sfs_block_alloc ops s ≡ ok (ret i, t))
        (g : Got ops w s i t) where
      abbrev pub grown : SfsInode
      grown = dirtied sin (record din { direct = set_direct din.direct din.blocks i })

      pub get_new : sfs_bmap_get_nolock ops sin din.blocks true s ≡ ok (ret i, grown, t)
      unfolding sfs_bmap_get_nolock
      get_new =
          let l : ltb din.blocks 12 ≡ true = ground arith in
          rw (l, f.unset din.blocks (omega arith) few, e)
            (get_out-Used ops w i grown t g.inv g.used)

      still : (m : ℕ) → Used s m → Used t m
      still = Used-still s t i g.was_free g.same_blocks g.others

      kept : (m : ℕ) → Used s m → w.content t.dev m ≡ w.content s.dev m
      kept m u =
          ap (λ (d : D). w.content d m) g.cleared
          ∙ w.content-stored_other i m (λ x. 0) s.dev (Used-ne s i m g.was_free u)

      direct_other : (k : ℕ) → k ≢ din.blocks → set_direct din.direct din.blocks i k ≡ din.direct k
      direct_other k n = let e : (k == din.blocks) ≡ false = ground arith in rw e refl

      direct_self : set_direct din.direct din.blocks i din.blocks ≡ i
      direct_self = let e : (din.blocks == din.blocks) ≡ true = ground arith in rw e refl

      abbrev pub longer : DiskInode
      longer = record (grown.din) { blocks = din.blocks + 1 }

      pub grown-Extends : Extends ops w s din i t longer
      grown-Extends = record {
        was_free = g.was_free;
        used = g.used;
        still = still;
        longer = refl;
        before = λ k lt.
            block_at-direct ops w t.dev longer k (omega arith)
            ∙ direct_other k (omega arith)
            ∙ sym (block_at-direct ops w s.dev din k (omega arith));
        at_end = block_at-direct ops w t.dev longer din.blocks few ∙ direct_self;
        indirect = elim f.indirect [ inl z ↦ inl z | inr u ↦ inr (still din.indirect u) ];
        indirect_needed = λ h. absurd (omega arith);
        apart = elim f.indirect [
          | inl z ↦ λ q. (g.used.0) (q ∙ z)
          | inr u ↦ λ q. Used-ne s i din.indirect g.was_free u (sym q)
        ];
        apart_before = f.apart;
        unset = λ k h h'. direct_other k (omega arith) ∙ f.unset k (omega arith) h';
        unset_entry = λ k h h' n.
            ap (λ (b : Block). word_of (λ x. b (k * 4 + x)))
              (kept din.indirect (indirect-Used ops w s inv sin f n))
            ∙ f.unset_entry k (omega arith) h' n;
        inv = g.inv;
        zeros = λ x h.
            ap (λ (d : D). w.content d i x) g.cleared ∙ w.content-stored i x (λ y. 0) s.dev h;
        kept = λ m u n. kept m u;
      }
