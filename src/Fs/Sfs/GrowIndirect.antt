-- ===== src/Fs/Sfs/GrowIndirect.antt =====
-- The block of entries that a file gets with its thirteenth block, kern/fs/sfs/sfs_inode.c.
use os_qemu.Prelude.{
  ℕ, ◌+◌, ◌-◌, ◌*◌, ◌≤◌, ◌<◌, ◌≡◌, ◌≢◌, inr, refl, sym, ◌∙◌, ap, ◌==◌, true, false, arith,
  ℕ_discrete,
}
use os_qemu.Prelude.Errors.{ok, no_mem}
use os_qemu.Fs.Vfs.{ret, fail}
use os_qemu.Fs.Bitmap.Search.{is_free}
use os_qemu.Fs.Sfs.{Device, Sfs, sfs_block_alloc, sfs_block_free}
use os_qemu.Fs.Sfs.Bmap.{
  DiskInode, SfsInode, dirtied, failed_cleanup, enter_block, sfs_bmap_get_sub_nolock,
  sfs_bmap_get_nolock,
}
use os_qemu.Fs.Sfs.Disk.{Works, SfsInv, Used, Got, Freed, sfs_block_free-Freed}
use os_qemu.Fs.Sfs.Entry.{entry, Used-ne, Entered}
use os_qemu.Fs.Sfs.Chain.{max_blocks, block_at, block_at-direct, block_at-entry, FileInv}
use os_qemu.Fs.Sfs.Append.{Extends}
use os_qemu.Fs.Sfs.Grow.{Used-still}
use os_qemu.Fs.Sfs.GrowEntry.{get_failed, get_other}

module _ {D : Type 0} (ops : Device D) (w : Works ops) (s : Sfs D) (sin : SfsInode) (inv : SfsInv s)
    (f : FileInv ops w s sin.din) (many : 12 ≤ sin.din.blocks) (max : sin.din.blocks < max_blocks)
    (none_yet : sin.din.indirect ≡ 0) where
  abbrev pub din : DiskInode
  din = sin.din

  pub twelve : din.blocks ≡ 12
  twelve = elim (ℕ_discrete din.blocks 12) [
    | yes e ↦ e
    | no n ↦ absurd (f.indirect_needed (omega arith) none_yet)
  ]

  first_entry : din.blocks - 12 ≡ 0
  first_entry = let t = twelve in omega arith

  sub_none :
      sfs_block_alloc ops s ≡ ok (fail no_mem, s)
      → sfs_bmap_get_sub_nolock ops din.indirect (din.blocks - 12) true s ≡ ok (fail no_mem, s)
  unfolding sfs_bmap_get_sub_nolock
  sub_none e = rw (first_entry, none_yet, e) refl

  pub no_entries :
      sfs_block_alloc ops s ≡ ok (fail no_mem, s)
      → sfs_bmap_get_nolock ops sin din.blocks true s ≡ ok (fail no_mem, sin, s)
  no_entries e = get_failed ops w s sin no_mem s many max (sub_none e)

  module _ (ent : ℕ) (t : Sfs D) (e : sfs_block_alloc ops s ≡ ok (ret ent, t))
      (g : Got ops w s ent t) where
    sub_some :
        sfs_bmap_get_sub_nolock ops din.indirect (din.blocks - 12) true s
        ≡ enter_block ops 0 ent (0 * 4) t
    unfolding sfs_bmap_get_sub_nolock
    sub_some = rw (first_entry, none_yet, e) (rw (first_entry, none_yet) refl)

    other : (ent == 0) ≡ false
    other = let n = g.used.0 in ground arith

    cleanup :
        (s' : Sfs D)
        → sfs_block_free ent t ≡ ok s'
        → failed_cleanup no_mem 0 ent t ≡ ok (fail no_mem, s')
    unfolding failed_cleanup
    cleanup s' h = rw (other, h) refl

    -- Where the block itself is not to be had, the block of entries is given back.
    pub entries_given_back :
        enter_block ops 0 ent (0 * 4) t ≡ failed_cleanup no_mem 0 ent t
        → (s' : Sfs D) × (sfs_bmap_get_nolock ops sin din.blocks true s ≡ ok (fail no_mem, sin, s'))
          × Freed t ent s'
    entries_given_back h =
        let (s', q, fr) = sfs_block_free-Freed t ent g.inv g.used in
        (s', get_failed ops w s sin no_mem s' many max (sub_some ∙ h ∙ cleanup s' q), fr)

    module _ (i : ℕ) (t' : Sfs D) (x : Entered ops w t ent 0 i t') where
      abbrev pub grown : SfsInode
      grown = dirtied sin (record din { indirect = ent })

      abbrev pub longer : DiskInode
      longer = record (grown.din) { blocks = din.blocks + 1 }

      pub entries_got :
          enter_block ops 0 ent (0 * 4) t ≡ ok (ret (ent, i), t')
          → sfs_bmap_get_nolock ops sin din.blocks true s ≡ ok (ret i, grown, t')
      entries_got h =
          get_other ops w s sin ent i t' many max (sub_some ∙ h) none_yet g.used.0 x.inv x.used

      ne : ent ≢ i
      ne = Used-ne t i ent x.was_free g.used

      still : (m : ℕ) → Used s m → Used t' m
      still m u =
          Used-still ops w t t' i x.was_free x.same_blocks x.others m
            (Used-still ops w s t ent g.was_free g.same_blocks g.others m u)

      free_before : is_free s.freemap i ≡ true
      free_before = sym (g.others i (λ q. ne (sym q))) ∙ x.was_free

      kept : (m : ℕ) → Used s m → w.content t'.dev m ≡ w.content s.dev m
      kept m u =
          let n = Used-ne s ent m g.was_free u in
          x.kept m (Used-ne s i m free_before u) n
          ∙ ap (λ (d : D). w.content d m) g.cleared
          ∙ w.content-stored_other ent m (λ y. 0) s.dev n

      empty_entry : (k : ℕ) → k < 1024 → entry ops w t.dev ent k ≡ 0
      empty_entry k lt =
          let z : (y : ℕ) → y < 4 → w.content t.dev ent (k * 4 + y) ≡ 0 = λ y h.
            ap (λ (d : D). w.content d ent (k * 4 + y)) g.cleared
            ∙ w.content-stored ent (k * 4 + y) (λ x. 0) s.dev (omega arith) in
          rw (z 0 (omega arith), z 1 (omega arith), z 2 (omega arith), z 3 (omega arith)) refl

      pub entries-Extends : Extends ops w s din i t' longer
      entries-Extends =
          let tw = twelve in
          record {
            was_free = free_before;
            used = x.used;
            still = still;
            longer = refl;
            before = λ k lt.
                block_at-direct ops w t'.dev longer k (omega arith)
                ∙ sym (block_at-direct ops w s.dev din k (omega arith));
            at_end =
                block_at-entry ops w t'.dev longer din.blocks many
                ∙ ap (entry ops w t'.dev ent) first_entry
                ∙ x.entered;
            indirect = inr (Used-still ops w t t' i x.was_free x.same_blocks x.others ent g.used);
            indirect_needed = λ h. g.used.0;
            apart = λ q. ne (sym q);
            apart_before =
                λ k lt. Used-ne s ent (block_at ops w s.dev din k) g.was_free (f.used k lt);
            unset = λ k h h'. absurd (omega arith);
            unset_entry = λ k h h' n. x.entries k h' (omega arith) ∙ empty_entry k h';
            inv = x.inv;
            zeros = x.zeros;
            kept = λ m u n. kept m u;
          }
