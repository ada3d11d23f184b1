-- ===== src/Fs/Sfs/Inode/Calls.antt =====
-- The calls of kern/fs/sfs/sfs_inode.c that work on inodes in memory: seeking past the end, reclaiming,
-- and the lookup of a name.
use os_qemu.Prelude.{
  ℕ, ◌-◌, ◌==◌, not, ltb, leb, Bool, ◌||◌, if◌then◌else◌, Option, none, some, List, get_or,
}
use os_qemu.Prelude.Errors.{Error, Result, ok, panic, ◌>>=◌, inval, busy, notdir}
use os_qemu.Fs.Vfs.{Ret, ret, fail}
use os_qemu.Fs.Sfs.{Device, sfs_block_free}
use os_qemu.Fs.Sfs.Bmap.{max_file_size, sfs_truncfile}
use os_qemu.Fs.Sfs.Dir.{sfs_dirent_search_nolock}
use os_qemu.Fs.Sfs.Inode.{Cache, with_sfs, with_sin, sfs_remove_links, sfs_load_inode, sfs_fsync}

module _ {D : Type 0} where
  -- `vop_truncate`, which a directory does not have. Its check of the counts is that of the call of
  -- `vop_tryseek` or `vop_reclaim` that led here, with the same counts.
  unfoldable pub vop_truncate : Device D → ℕ → ℕ → Cache D → Result (Option Error × Cache D)
  vop_truncate ops node len c =
      if (c.sin node).din.kind == 2
      then panic
      else sfs_truncfile ops (c.sin node) len c.sfs
        >>= (λ r. ok (r.0, with_sin node r.1 (with_sfs c r.2)))

  -- `pos` is an `off_t`, 64 bits in two's complement.
  unfoldable pub sfs_tryseek : Device D → ℕ → ℕ → Cache D → Result (Option Error × Cache D)
  sfs_tryseek ops node pos c =
      if leb max_file_size pos
      then ok (some inval, c)
      else if ltb (c.sin node).din.size pos
      then vop_truncate ops node pos c
      else ok (none, c)

  -- The end of `sfs_reclaim`: out of the lists, and the blocks of a file without links given back.
  unfoldable pub reclaim_links : ℕ → Cache D → Result (Option Error × Cache D)
  reclaim_links node c =
      let sin = c.sin node in
      let out = sfs_remove_links node c in
      if sin.din.nlinks == 0
      then sfs_block_free sin.ino out.sfs >>= (λ s.
        (if sin.din.indirect == 0 then ok s else sfs_block_free sin.din.indirect s)
        >>= (λ t. ok (none, with_sfs out t)))
      else ok (none, out)

  unfoldable pub reclaim_sync : Device D → ℕ → Cache D → Result (Option Error × Cache D)
  reclaim_sync ops node c =
      if not (c.sin node).dirty
      then reclaim_links node c
      else sfs_fsync ops node c
        >>= (λ r. elim r.0 [ some e ↦ ok (some e, r.1) | none ↦ reclaim_links node r.1 ])

  unfoldable pub sfs_reclaim : Device D → ℕ → Cache D → Result (Option Error × Cache D)
  sfs_reclaim ops node c =
      let sin = c.sin node in
      let less = with_sin node (record sin { reclaim_count = sin.reclaim_count - 1 }) c in
      if sin.reclaim_count == 0
      then panic
      else if not (sin.reclaim_count == 1) || not (c.ref_count node == 0)
      then ok (some busy, less)
      else if sin.din.nlinks == 0
      then vop_truncate ops node 0 less
        >>= (λ r. elim r.0 [ some e ↦ ok (some e, r.1) | none ↦ reclaim_sync ops node r.1 ])
      else reclaim_sync ops node less

  -- `room` and `fresh` are for the memory of the entry, of the inode and of what it is in.
  unfoldable pub sfs_lookup_once :
      Device D → Bool × Bool → ℕ → ℕ → List ℕ → Cache D → Result (Ret (ℕ × ℕ) × Cache D)
  sfs_lookup_once ops room fresh dir name c =
      sfs_dirent_search_nolock ops room.0 (c.sin dir) name c.sfs >>= (λ r.
        let c' = with_sin dir r.2 (with_sfs c r.3) in
        elim r.0 [
          | fail e ↦ ok (fail e, c')
          | ret at ↦ sfs_load_inode ops room.1 fresh at.0 c' >>= (λ l. elim l.0 [
            | fail e ↦ ok (fail e, l.1)
            | ret node ↦ ok (ret (node, at.1), l.1)
          ])
        ])

  -- The reference to the directory that `sfs_lookup` takes is given back at its end.
  unfoldable pub sfs_lookup :
      Device D → Bool × Bool → ℕ → ℕ → List ℕ → Cache D → Result (Ret ℕ × Cache D)
  sfs_lookup ops room fresh dir path c =
      let first = get_or path 0 0 in
      if first == 0 || first == 47
      then panic
      else if not ((c.sin dir).din.kind == 2)
      then ok (fail notdir, c)
      else sfs_lookup_once ops room fresh dir path c
        >>= (λ r. elim r.0 [ fail e ↦ ok (fail e, r.1) | ret at ↦ ok (ret at.0, r.1) ])

  -- The types of libs/stat.h: S_IFDIR, S_IFREG and S_IFLNK.
  unfoldable pub sfs_gettype : ℕ → Cache D → Result (Ret ℕ × Cache D)
  sfs_gettype node c =
      let kind = (c.sin node).din.kind in
      if kind == 2
      then ok (ret 8192, c)
      else if kind == 1
      then ok (ret 4096, c)
      else if kind == 3
      then ok (ret 12288, c)
      else panic

  -- `sfs_get_root` of sfs_fs.c; SFS_BLKN_ROOT is 1.
  unfoldable pub sfs_get_root : Device D → Bool → ℕ → Cache D → Result (ℕ × Cache D)
  sfs_get_root ops room fresh c =
      sfs_load_inode ops room fresh 1 c
      >>= (λ r. elim r.0 [ fail e ↦ panic | ret node ↦ ok (node, r.1) ])
