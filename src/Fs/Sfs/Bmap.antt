-- ===== src/Fs/Sfs/Bmap.antt =====
-- The block map of an inode, kern/fs/sfs/sfs_inode.c: from `sfs_bmap_get_sub_nolock` to
-- `sfs_bmap_truncate_nolock`, and `sfs_truncfile`.
use os_qemu.Prelude.{
  ℕ, zero, suc, ◌+◌, ◌-◌, ◌*◌, ◌/◌, ◌%◌, ◌^◌, ◌==◌, not, ltb, leb, Bool, true, ◌&&◌, ◌||◌,
  if◌then◌else◌, Option, none, some,
}
use os_qemu.Prelude.Errors.{Error, Result, ok, panic, ◌>>=◌, inval}
use os_qemu.Fs.Vfs.{Ret, ret, fail}
use os_qemu.Fs.Sfs.{
  blksize, Device, Sfs, word_of, bytes_of, sfs_rbuf, sfs_wbuf, assert_inuse, sfs_block_alloc,
  sfs_block_free,
}

-- SFS_NDIRECT, SFS_BLK_NENTRY and SFS_MAX_FILE_SIZE
abbrev pub ndirect : ℕ
ndirect = 12

abbrev pub blk_nentry : ℕ
blk_nentry = 1024

abbrev pub max_file_size : ℕ
max_file_size = 134217728

-- `struct sfs_disk_inode`; SFS_TYPE_DIR is 2.
pub record DiskInode : Type 0 where
  pub size : ℕ
  pub kind : ℕ
  pub nlinks : ℕ
  pub blocks : ℕ
  pub direct : ℕ → ℕ
  pub indirect : ℕ

-- `struct sfs_inode`
pub record SfsInode : Type 0 where
  pub din : DiskInode
  pub ino : ℕ
  pub dirty : Bool
  pub reclaim_count : ℕ

abbrev pub set_direct : (ℕ → ℕ) → ℕ → ℕ → ℕ → ℕ
set_direct f i ino x = if x == i then ino else f x

-- `din->... = ...; sin->dirty = 1`
abbrev pub dirtied : SfsInode → DiskInode → SfsInode
dirtied sin din = record sin { din = din; dirty = true }

module _ {D : Type 0} where
  -- `failed_cleanup` of `sfs_bmap_get_sub_nolock`
  unfoldable pub failed_cleanup : Error → ℕ → ℕ → Sfs D → Result (Ret (ℕ × ℕ) × Sfs D)
  failed_cleanup e old ent s =
      if ent == old then ok (fail e, s) else sfs_block_free ent s >>= (λ s'. ok (fail e, s'))

  -- The part that allocates the block and enters it.
  unfoldable pub enter_block : Device D → ℕ → ℕ → ℕ → Sfs D → Result (Ret (ℕ × ℕ) × Sfs D)
  enter_block ops old ent offset s = sfs_block_alloc ops s >>= (λ a. elim a.0 [
    | fail e ↦ failed_cleanup e old ent a.1
    | ret ino ↦ sfs_wbuf ops (bytes_of ino) 4 ent offset a.1 >>= (λ w. elim w.0 [
      | some e ↦ sfs_block_free ino w.1 >>= failed_cleanup e old ent
      | none ↦ ok (ret (ent, ino), w.1)
    ])
  ])

  -- The values are `*entp` and `*ino_store`.
  unfoldable pub sfs_bmap_get_sub_nolock :
      Device D → ℕ → ℕ → Bool → Sfs D → Result (Ret (ℕ × ℕ) × Sfs D)
  sfs_bmap_get_sub_nolock ops entp index create s =
      let offset = index * 4 in
      if not (ltb index blk_nentry)
      then panic
      else if not (entp == 0)
      then sfs_rbuf ops 4 entp offset s >>= (λ r. elim r.0 [
        | fail e ↦ ok (fail e, r.1)
        | ret b ↦
            if not (word_of b == 0) || not create
            then ok (ret (entp, word_of b), r.1)
            else enter_block ops entp entp offset r.1
      ])
      else if not create
      then ok (ret (entp, 0), s)
      else sfs_block_alloc ops s >>= (λ a. elim a.0 [
        | fail e ↦ ok (fail e, a.1)
        | ret ent ↦ enter_block ops entp ent offset a.1
      ])

  -- The label `out` of `sfs_bmap_get_nolock`.
  unfoldable pub get_out : ℕ → SfsInode → Sfs D → Result (Ret ℕ × SfsInode × Sfs D)
  get_out ino sin s =
      if ino == 0 then ok (ret ino, sin, s) else assert_inuse ino s (ok (ret ino, sin, s))

  unfoldable pub sfs_bmap_get_nolock :
      Device D → SfsInode → ℕ → Bool → Sfs D → Result (Ret ℕ × SfsInode × Sfs D)
  sfs_bmap_get_nolock ops sin index create s =
      let din = sin.din in
      if ltb index ndirect
      then if din.direct index == 0 && create
        then sfs_block_alloc ops s >>= (λ a. elim a.0 [
          | fail e ↦ ok (fail e, sin, a.1)
          | ret ino ↦
              get_out ino (dirtied sin (record din { direct = set_direct din.direct index ino }))
                a.1
        ])
        else get_out (din.direct index) sin s
      else if ltb (index - ndirect) blk_nentry
      then sfs_bmap_get_sub_nolock ops din.indirect (index - ndirect) create s >>= (λ g. elim g.0 [
        | fail e ↦ ok (fail e, sin, g.1)
        | ret r ↦
            if r.0 == din.indirect
            then get_out r.1 sin g.1
            else if din.indirect == 0
            then get_out r.1 (dirtied sin (record din { indirect = r.0 })) g.1
            else panic
      ])
      else panic

  unfoldable pub sfs_bmap_free_sub_nolock : Device D → ℕ → ℕ → Sfs D → Result (Option Error × Sfs D)
  sfs_bmap_free_sub_nolock ops ent index s = assert_inuse ent s (
      if not (ltb index blk_nentry)
      then panic
      else sfs_rbuf ops 4 ent (index * 4) s >>= (λ r. elim r.0 [
        | fail e ↦ ok (some e, r.1)
        | ret b ↦
            if word_of b == 0
            then ok (none, r.1)
            else sfs_wbuf ops (bytes_of 0) 4 ent (index * 4) r.1 >>= (λ w. elim w.0 [
              | some e ↦ ok (some e, w.1)
              | none ↦ sfs_block_free (word_of b) w.1 >>= (λ s'. ok (none, s'))
            ])
      ]))

  unfoldable pub sfs_bmap_free_nolock :
      Device D → SfsInode → ℕ → Sfs D → Result (Option Error × SfsInode × Sfs D)
  sfs_bmap_free_nolock ops sin index s =
      let din = sin.din in
      if ltb index ndirect
      then if din.direct index == 0
        then ok (none, sin, s)
        else sfs_block_free (din.direct index) s >>= (λ s'.
          ok (none, dirtied sin (record din { direct = set_direct din.direct index 0 }), s'))
      else if ltb (index - ndirect) blk_nentry && not (din.indirect == 0)
      then sfs_bmap_free_sub_nolock ops din.indirect (index - ndirect) s
        >>= (λ r. ok (r.0, sin, r.1))
      else ok (none, sin, s)

  unfoldable pub sfs_bmap_load_nolock :
      Device D → SfsInode → ℕ → Sfs D → Result (Ret ℕ × SfsInode × Sfs D)
  sfs_bmap_load_nolock ops sin index s =
      let create = index == sin.din.blocks in
      if leb index sin.din.blocks
      then sfs_bmap_get_nolock ops sin index create s >>= (λ g. elim g.0 [
        | fail e ↦ ok (fail e, g.1, g.2)
        | ret ino ↦
            let more : SfsInode = record g.1 {
              din = record (g.1.din) { blocks = (g.1.din.blocks + 1) % 2 ^ 32 };
            } in
            assert_inuse ino g.2 (ok (ret ino, (if create then more else g.1), g.2))
      ])
      else panic

  unfoldable pub sfs_bmap_truncate_nolock :
      Device D → SfsInode → Sfs D → Result (Option Error × SfsInode × Sfs D)
  sfs_bmap_truncate_nolock ops sin s =
      if sin.din.blocks == 0
      then panic
      else sfs_bmap_free_nolock ops sin (sin.din.blocks - 1) s >>= (λ r. elim r.0 [
        | some e ↦ ok (some e, r.1, r.2)
        | none ↦ ok (none, dirtied r.1 (record (r.1.din) { blocks = r.1.din.blocks - 1 }), r.2)
      ])

  -- The two loops of `sfs_truncfile`.
  unfoldable pub enlarge :
      Device D → ℕ → SfsInode → ℕ → Sfs D → Result (Option Error × SfsInode × Sfs D)
  enlarge ops zero sin nblks s = ok (none, sin, s)
  enlarge ops (suc n) sin nblks s = sfs_bmap_load_nolock ops sin nblks s >>= (λ r. elim r.0 [
    | fail e ↦ ok (some e, r.1, r.2)
    | ret ino ↦ enlarge ops n r.1 (nblks + 1) r.2
  ])

  unfoldable pub reduce : Device D → ℕ → SfsInode → Sfs D → Result (Option Error × SfsInode × Sfs D)
  reduce ops zero sin s = ok (none, sin, s)
  reduce ops (suc n) sin s =
      sfs_bmap_truncate_nolock ops sin s
      >>= (λ r. elim r.0 [ some e ↦ ok (some e, r.1, r.2) | none ↦ reduce ops n r.1 r.2 ])

  -- `len` is an `off_t` that is not negative.
  unfoldable pub sfs_truncfile :
      Device D → SfsInode → ℕ → Sfs D → Result (Option Error × SfsInode × Sfs D)
  sfs_truncfile ops sin len s =
      let tblks = (len + blksize - 1) / blksize in
      let nblks = sin.din.blocks in
      let resized =
        if ltb nblks tblks
        then enlarge ops (tblks - nblks) sin nblks s
        else reduce ops (nblks - tblks) sin s in
      if ltb max_file_size len
      then ok (some inval, sin, s)
      else if sin.din.size == len
      then if tblks == nblks then ok (none, sin, s) else panic
      else resized >>= (λ r. elim r.0 [
        | some e ↦ ok (some e, r.1, r.2)
        | none ↦
            if r.1.din.blocks == tblks
            then ok (none, dirtied r.1 (record (r.1.din) { size = len }), r.2)
            else panic
      ])
