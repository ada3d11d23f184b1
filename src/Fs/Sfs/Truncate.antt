-- ===== src/Fs/Sfs/Truncate.antt =====
-- `sfs_bmap_truncate_nolock` of kern/fs/sfs/sfs_inode.c, over a disk that works.
use os_qemu.Prelude.{
  ℕ, ◌+◌, ◌-◌, ◌*◌, ◌≤◌, ◌<◌, ◌≡◌, ◌≢◌, inl, inr, refl, sym, ◌∙◌, ap, ◌==◌, ltb, true, false, arith,
  none, Bool-cases, ℕ_discrete,
}
use os_qemu.Prelude.Errors.{ok}
use os_qemu.Fs.Bitmap.Search.{is_free}
use os_qemu.Fs.Sfs.{bytes_of, overlay, Device, Sfs, sfs_block_free}
use os_qemu.Fs.Sfs.Bmap.{DiskInode, SfsInode, set_direct, dirtied}
use os_qemu.Fs.Sfs.Disk.{Works, SfsInv, Used, assert_inuse-Used, Freed, sfs_block_free-Freed}
use os_qemu.Fs.Sfs.Entry.{entry, sfs_rbuf-entry}
use os_qemu.Fs.Sfs.Chain.{block_at, block_at-direct, block_at-entry, FileInv, indirect-Used}
use os_qemu.Fs.Sfs.Bmap.{sfs_bmap_free_sub_nolock, sfs_bmap_free_nolock, sfs_bmap_truncate_nolock}
use os_qemu.Fs.Sfs.Disk.{SfsInv-dev}
use os_qemu.Fs.Sfs.Entry.{with_entry, sfs_wbuf-entry, entry-with_entry, entry-with_entry_other}
use os_qemu.Fs.Sfs.Shrink.{Shrinks, FileInv-Shrinks}

module _ {D : Type 0} (ops : Device D) (w : Works ops) where
  -- What giving the last block back comes to.
  abbrev pub Shorter : Sfs D → SfsInode → Type 0
  Shorter s sin =
      (sin' : SfsInode) × (s' : Sfs D) × (sfs_bmap_truncate_nolock ops sin s ≡ ok (none, sin', s'))
      × (sin'.din.blocks + 1 ≡ sin.din.blocks)
      × (is_free s'.freemap (block_at ops w s.dev sin.din (sin.din.blocks - 1)) ≡ true)
      × ((j : ℕ)
          → j ≢ block_at ops w s.dev sin.din (sin.din.blocks - 1)
          → is_free s'.freemap j ≡ is_free s.freemap j)
      × ((k : ℕ)
          → k < sin.din.blocks - 1
          → block_at ops w s'.dev sin'.din k ≡ block_at ops w s.dev sin.din k)
      × ((m : ℕ) → m ≢ sin.din.indirect → w.content s'.dev m ≡ w.content s.dev m)
      × SfsInv s'
      × FileInv ops w s' sin'.din

  module _ (s : Sfs D) (sin : SfsInode) (inv : SfsInv s) (f : FileInv ops w s sin.din)
      (some_block : sin.din.blocks ≢ 0) where
    abbrev din : DiskInode
    din = sin.din

    abbrev last : ℕ
    last = din.blocks - 1

    u_last : Used s (block_at ops w s.dev din last)
    u_last = f.used last (omega arith)

    Shorter-by :
        (sin' : SfsInode) (s' : Sfs D)
        → sfs_bmap_free_nolock ops sin last s ≡ ok (none, sin', s')
        → sin'.din.blocks ≡ din.blocks
        → Shrinks ops w s din s' (record (sin'.din) { blocks = last })
        → Shorter s sin
    unfolding sfs_bmap_truncate_nolock
    Shorter-by sin' s' e same x =
        let n : (din.blocks == 0) ≡ false = ground arith in
        (
          dirtied sin' (record (sin'.din) { blocks = last }),
          s',
          rw (n, e, same) refl,
          omega arith,
          x.freed,
          x.others,
          x.before,
          x.kept,
          x.inv,
          FileInv-Shrinks ops w s s' din (record (sin'.din) { blocks = last }) f some_block x,
        )

    module _ (few : last < 12) where
      at_last : block_at ops w s.dev din last ≡ din.direct last
      at_last = block_at-direct ops w s.dev din last few

      abbrev cut : SfsInode
      cut = dirtied sin (record din { direct = set_direct din.direct last 0 })

      abbrev shorter : DiskInode
      shorter = record (cut.din) { blocks = last }

      free_direct :
          (s' : Sfs D)
          → sfs_block_free (din.direct last) s ≡ ok s'
          → sfs_bmap_free_nolock ops sin last s ≡ ok (none, cut, s')
      unfolding sfs_bmap_free_nolock
      free_direct s' e =
          let l : ltb last 12 ≡ true = ground arith in
          let u : Used s (din.direct last) = rw (sym at_last) u_last in
          let n : (din.direct last == 0) ≡ false = let z = u.0 in ground arith in rw (l, n, e) refl

      other : (k : ℕ) → k ≢ last → set_direct din.direct last 0 k ≡ din.direct k
      other k n = let e : (k == last) ≡ false = ground arith in rw e refl

      self : (k : ℕ) → k ≡ last → set_direct din.direct last 0 k ≡ 0
      self k q = let e : (k == last) ≡ true = ground arith in rw e refl

      direct_Shrinks : (s' : Sfs D) → Freed s (din.direct last) s' → Shrinks ops w s din s' shorter
      direct_Shrinks s' fr = record {
        freed = rw at_last fr.free;
        others = rw at_last fr.others;
        same_blocks = fr.same_blocks;
        shorter = refl;
        indirect = refl;
        before = λ k lt.
            block_at-direct ops w s'.dev shorter k (omega arith)
            ∙ other k (omega arith)
            ∙ sym (block_at-direct ops w s.dev din k (omega arith));
        unset = λ k h h'. elim (ℕ_discrete k last) [
          | yes q ↦ self k q
          | no q ↦ other k q ∙ f.unset k (omega arith) h'
        ];
        unset_entry = λ k h h' n.
            ap (λ (d : D). entry ops w d din.indirect k) fr.same_dev
            ∙ f.unset_entry k (omega arith) h' n;
        inv = fr.inv;
        kept = λ m n. ap (λ (d : D). w.content d m) fr.same_dev;
      }

      by_direct : Shorter s sin
      by_direct =
          let (s', e, fr) =
            sfs_block_free-Freed s (din.direct last) inv (rw (sym at_last) u_last) in
          Shorter-by cut s' (free_direct s' e) refl (direct_Shrinks s' fr)

    module _ (many : 12 ≤ last) where
      abbrev k : ℕ
      k = last - 12

      in_map : k < 1024
      in_map = let max = f.max in omega arith

      at_entry : block_at ops w s.dev din last ≡ entry ops w s.dev din.indirect k
      at_entry = block_at-entry ops w s.dev din last many

      there : din.indirect ≢ 0
      there = f.indirect_needed (omega arith)

      u_ind : Used s din.indirect
      u_ind = indirect-Used ops w s inv sin f there

      u_entry : Used s (entry ops w s.dev din.indirect k)
      u_entry = rw (sym at_entry) u_last

      abbrev wiped : Sfs D
      wiped = record s { dev = with_entry ops w s.dev din.indirect k 0 }

      wiped-SfsInv : SfsInv wiped
      wiped-SfsInv = SfsInv-dev s (with_entry ops w s.dev din.indirect k 0) inv

      free_sub :
          (s' : Sfs D)
          → sfs_block_free (entry ops w s.dev din.indirect k) wiped ≡ ok s'
          → sfs_bmap_free_sub_nolock ops din.indirect k s ≡ ok (none, s')
      unfolding sfs_bmap_free_sub_nolock
      free_sub s' e =
          let l : ltb k 1024 ≡ true = let lt = in_map in ground arith in
          let n : (entry ops w s.dev din.indirect k == 0) ≡ false =
            let z = u_entry.0 in ground arith in
          assert_inuse-Used s din.indirect _ inv u_ind
          ∙ rw
              (
                l,
                sfs_rbuf-entry ops w s inv din.indirect k u_ind in_map,
                n,
                sfs_wbuf-entry ops w s inv din.indirect k u_ind in_map 0,
                e,
              )
              refl

      free_entry :
          (s' : Sfs D)
          → sfs_block_free (entry ops w s.dev din.indirect k) wiped ≡ ok s'
          → sfs_bmap_free_nolock ops sin last s ≡ ok (none, sin, s')
      unfolding sfs_bmap_free_nolock
      free_entry s' e =
          let l : ltb last 12 ≡ false = ground arith in
          let l' : ltb k 1024 ≡ true = let lt = in_map in ground arith in
          let n : (din.indirect == 0) ≡ false = let z = there in ground arith in
          rw (l, l', n, free_sub s' e) refl

      module _ (s' : Sfs D) (fr : Freed wiped (entry ops w s.dev din.indirect k) s') where
        entry_self : entry ops w s'.dev din.indirect k ≡ 0
        entry_self =
            ap (λ (d : D). entry ops w d din.indirect k) fr.same_dev
            ∙ entry-with_entry ops w s.dev din.indirect k 0 in_map (omega arith)

        entry_other :
            (j : ℕ)
            → j < 1024
            → j ≢ k
            → entry ops w s'.dev din.indirect j ≡ entry ops w s.dev din.indirect j
        entry_other j h n =
            ap (λ (d : D). entry ops w d din.indirect j) fr.same_dev
            ∙ entry-with_entry_other ops w s.dev din.indirect k j 0 in_map h n

        same_block :
            (j : ℕ)
            → j < last
            → block_at ops w s'.dev (record din { blocks = last }) j ≡ block_at ops w s.dev din j
        same_block j lt =
            let max = f.max in
            elim (Bool-cases (ltb j 12)) [
              | inl e ↦
                  let lo : j < 12 = ground arith in
                  block_at-direct ops w s'.dev (record din { blocks = last }) j lo
                  ∙ sym (block_at-direct ops w s.dev din j lo)
              | inr e ↦
                  let hi : 12 ≤ j = ground arith in
                  block_at-entry ops w s'.dev (record din { blocks = last }) j hi
                  ∙ entry_other (j - 12) (omega arith) (omega arith)
                  ∙ sym (block_at-entry ops w s.dev din j hi)
            ]

        entry_Shrinks : Shrinks ops w s din s' (record din { blocks = last })
        entry_Shrinks = record {
          freed = rw at_entry fr.free;
          others = rw at_entry fr.others;
          same_blocks = fr.same_blocks;
          shorter = refl;
          indirect = refl;
          before = same_block;
          unset = λ j h h'. absurd (omega arith);
          unset_entry = λ j h h' n. elim (ℕ_discrete j k) [
            | yes q ↦ ap (entry ops w s'.dev din.indirect) q ∙ entry_self
            | no q ↦ entry_other j h' q ∙ f.unset_entry j (omega arith) h' n
          ];
          inv = fr.inv;
          kept = λ m n.
              ap (λ (d : D). w.content d m) fr.same_dev
              ∙ w.content-stored_other din.indirect m
                  (overlay (bytes_of 0) 4 (k * 4) (w.content s.dev din.indirect)) s.dev n;
        }

      by_entry : Shorter s sin
      by_entry =
          let (s', e, fr) =
            sfs_block_free-Freed wiped (entry ops w s.dev din.indirect k) wiped-SfsInv u_entry in
          Shorter-by sin s' (free_entry s' e) refl (entry_Shrinks s' fr)

    -- On a disk that works, a file in order that is not empty gives its last block back with no
    -- failure: the block is free and is no longer in the map, the other blocks of the disk and of the
    -- file stay, no content but that of the block of entries changes, and the file, the free map and
    -- its count are in order.
    pub sfs_bmap_truncate_nolock-shrinks : Shorter s sin
    sfs_bmap_truncate_nolock-shrinks = elim (Bool-cases (ltb last 12)) [
      | inl e ↦ by_direct (ground arith)
      | inr e ↦ by_entry (ground arith)
    ]
