-- ===== src/Fs/Sfs/GrowEntry.antt =====
-- A block added to a file in its block of entries, `sfs_bmap_get_nolock` of kern/fs/sfs/sfs_inode.c.
use os_qemu.Prelude.{
  ℕ, ◌+◌, ◌-◌, ◌*◌, ◌≤◌, ◌<◌, ◌≡◌, ◌≢◌, inl, inr, refl, sym, ◌∙◌, ◌==◌, ltb, true, false, arith,
  Bool-cases,
}
use os_qemu.Prelude.Errors.{Error, ok, no_mem}
use os_qemu.Fs.Vfs.{ret, fail}
use os_qemu.Fs.Sfs.{Device, Sfs}
use os_qemu.Fs.Sfs.Bmap.{
  DiskInode, SfsInode, dirtied, failed_cleanup, enter_block, sfs_bmap_get_sub_nolock,
  sfs_bmap_get_nolock,
}
use os_qemu.Fs.Sfs.Disk.{Works, SfsInv, Used}
use os_qemu.Fs.Sfs.Entry.{Used-ne, sfs_rbuf-entry, Entered}
use os_qemu.Fs.Sfs.Chain.{
  max_blocks, block_at, block_at-direct, block_at-entry, FileInv, get_out-Used, indirect-Used,
}
use os_qemu.Fs.Sfs.Append.{Extends}
use os_qemu.Fs.Sfs.Grow.{Used-still}

module _ {D : Type 0} (ops : Device D) (w : Works ops) where
  -- The end of `sfs_bmap_get_nolock` with an entry that is already in the block.
  module _ (s : Sfs D) (sin : SfsInode) where
    pub get_failed :
        (e : Error) (s' : Sfs D)
        → 12 ≤ sin.din.blocks
        → sin.din.blocks < max_blocks
        → sfs_bmap_get_sub_nolock ops sin.din.indirect (sin.din.blocks - 12) true s
          ≡ ok (fail e, s')
        → sfs_bmap_get_nolock ops sin sin.din.blocks true s ≡ ok (fail e, sin, s')
    unfolding sfs_bmap_get_nolock
    get_failed e s' le lt g =
        let l : ltb sin.din.blocks 12 ≡ false = ground arith in
        let l' : ltb (sin.din.blocks - 12) 1024 ≡ true = ground arith in rw (l, l', g) refl

    pub get_same :
        (i : ℕ) (s' : Sfs D)
        → 12 ≤ sin.din.blocks
        → sin.din.blocks < max_blocks
        → sfs_bmap_get_sub_nolock ops sin.din.indirect (sin.din.blocks - 12) true s
          ≡ ok (ret (sin.din.indirect, i), s')
        → SfsInv s'
        → Used s' i
        → sfs_bmap_get_nolock ops sin sin.din.blocks true s ≡ ok (ret i, sin, s')
    unfolding sfs_bmap_get_nolock
    get_same i s' le lt g inv u =
        let l : ltb sin.din.blocks 12 ≡ false = ground arith in
        let l' : ltb (sin.din.blocks - 12) 1024 ≡ true = ground arith in
        let same : (sin.din.indirect == sin.din.indirect) ≡ true = ground arith in
        rw (l, l', g, same) (get_out-Used ops w i sin s' inv u)

    pub get_other :
        (ent i : ℕ) (s' : Sfs D)
        → 12 ≤ sin.din.blocks
        → sin.din.blocks < max_blocks
        → sfs_bmap_get_sub_nolock ops sin.din.indirect (sin.din.blocks - 12) true s
          ≡ ok (ret (ent, i), s')
        → sin.din.indirect ≡ 0
        → ent ≢ 0
        → SfsInv s'
        → Used s' i
        → sfs_bmap_get_nolock ops sin sin.din.blocks true s
          ≡ ok (ret i, dirtied sin (record (sin.din) { indirect = ent }), s')
    unfolding sfs_bmap_get_nolock
    get_other ent i s' le lt g z n inv u =
        let l : ltb sin.din.blocks 12 ≡ false = ground arith in
        let l' : ltb (sin.din.blocks - 12) 1024 ≡ true = ground arith in
        let ne : (ent == sin.din.indirect) ≡ false = ground arith in
        let zero : (sin.din.indirect == 0) ≡ true = ground arith in
        rw (l, l', g, ne, zero)
          (get_out-Used ops w i (dirtied sin (record (sin.din) { indirect = ent })) s' inv u)

  module _ (s : Sfs D) (sin : SfsInode) (inv : SfsInv s) (f : FileInv ops w s sin.din)
      (many : 12 ≤ sin.din.blocks) (max : sin.din.blocks < max_blocks)
      (there : sin.din.indirect ≢ 0) where
    abbrev pub din : DiskInode
    din = sin.din

    abbrev k : ℕ
    k = din.blocks - 12

    u_ent : Used s din.indirect
    u_ent = indirect-Used ops w s inv sin f there

    sub_enter :
        sfs_bmap_get_sub_nolock ops din.indirect k true s
        ≡ enter_block ops din.indirect din.indirect (k * 4) s
    unfolding sfs_bmap_get_sub_nolock
    sub_enter =
        let l : ltb k 1024 ≡ true = ground arith in
        let n : (din.indirect == 0) ≡ false = ground arith in
        let z = f.unset_entry k (omega arith) (omega arith) there in
        rw (l, n, sfs_rbuf-entry ops w s inv din.indirect k u_ent (omega arith), z) refl

    pub entry_full :
        enter_block ops din.indirect din.indirect (k * 4) s
          ≡ failed_cleanup no_mem din.indirect din.indirect s
        → sfs_bmap_get_nolock ops sin din.blocks true s ≡ ok (fail no_mem, sin, s)
    unfolding failed_cleanup
    entry_full e =
        let same : (din.indirect == din.indirect) ≡ true = ground arith in
        get_failed s sin no_mem s many max (sub_enter ∙ e ∙ rw same refl)

    module _ (i : ℕ) (t : Sfs D) (x : Entered ops w s din.indirect k i t) where
      pub entry_got :
          enter_block ops din.indirect din.indirect (k * 4) s ≡ ok (ret (din.indirect, i), t)
          → sfs_bmap_get_nolock ops sin din.blocks true s ≡ ok (ret i, sin, t)
      entry_got e = get_same s sin i t many max (sub_enter ∙ e) x.inv x.used

      abbrev pub longer : DiskInode
      longer = record din { blocks = din.blocks + 1 }

      still : (m : ℕ) → Used s m → Used t m
      still = Used-still ops w s t i x.was_free x.same_blocks x.others

      before : (j : ℕ) → j < din.blocks → block_at ops w t.dev longer j ≡ block_at ops w s.dev din j
      before j lt = elim (Bool-cases (ltb j 12)) [
        | inl e ↦
            let lo : j < 12 = ground arith in
            block_at-direct ops w t.dev longer j lo ∙ sym (block_at-direct ops w s.dev din j lo)
        | inr e ↦
            let hi : 12 ≤ j = ground arith in
            block_at-entry ops w t.dev longer j hi
            ∙ x.entries (j - 12) (omega arith) (omega arith)
            ∙ sym (block_at-entry ops w s.dev din j hi)
      ]

      pub entry-Extends : Extends ops w s din i t longer
      entry-Extends = record {
        was_free = x.was_free;
        used = x.used;
        still = still;
        longer = refl;
        before = before;
        at_end = block_at-entry ops w t.dev longer din.blocks many ∙ x.entered;
        indirect = inr (still din.indirect u_ent);
        indirect_needed = λ h. there;
        apart = λ q. Used-ne s i din.indirect x.was_free u_ent (sym q);
        apart_before = f.apart;
        unset = λ j h h'. absurd (omega arith);
        unset_entry = λ j h h' n. x.entries j h' (omega arith) ∙ f.unset_entry j (omega arith) h' n;
        inv = x.inv;
        zeros = x.zeros;
        kept = λ m u n. x.kept m (Used-ne s i m x.was_free u) n;
      }
