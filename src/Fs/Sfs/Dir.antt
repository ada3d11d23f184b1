-- ===== src/Fs/Sfs/Dir.antt =====
-- The directories of kern/fs/sfs/sfs_inode.c: each entry has a block of its own, and the functions go
-- through the blocks of a directory. They hold the semaphore of its inode, so each is one step.
pub mod Scan
pub mod Listing
use os_qemu.Prelude.{
  ℕ, zero, suc, ◌+◌, ◌-◌, ◌/◌, ◌%◌, ◌^◌, ◌==◌, not, ltb, leb, Bool, false, ◌&&◌, ◌||◌,
  if◌then◌else◌, Option, none, some, List, [], ◌∷◌,
}
use os_qemu.Prelude.Errors.{Error, Result, ok, panic, ◌>>=◌, no_mem, noent, inval, isdir}
use os_qemu.Libs.Str.{strlen}
use os_qemu.Fs.Device.{same_name}
use os_qemu.Fs.Vfs.{Ret, ret, fail, accmode, bit, o_append}
use os_qemu.Fs.Sfs.{Block, Device, Sfs, word_of, assert_inuse, sfs_rbuf}
use os_qemu.Fs.Sfs.Bmap.{SfsInode, max_file_size, sfs_bmap_load_nolock, sfs_truncfile}

-- SFS_MAX_FNAME_LEN, sfs_dentry_size, and the size of an entry.
abbrev pub max_fname_len : ℕ
max_fname_len = 255

abbrev pub dentry_size : ℕ
dentry_size = 256

abbrev pub entry_size : ℕ
entry_size = 260

-- `struct sfs_disk_entry`
pub record DiskEntry : Type 0 where
  pub ino : ℕ
  pub name : List ℕ

-- `n` bytes of a block from `i` on, and a null byte.
unfoldable pub text_at : ℕ → ℕ → Block → List ℕ
text_at zero i b = 0 ∷ []
text_at (suc n) i b = b i ∷ text_at n (i + 1) b

-- An entry by its bytes, with the last byte of the name set.
abbrev pub entry_of : Block → DiskEntry
entry_of b = record { ino = word_of b; name = text_at max_fname_len 4 b }

-- `assert(strlen(name) <= SFS_MAX_FNAME_LEN)`; the names end inside their memory.
abbrev pub fits_entry : List ℕ → Bool
fits_entry name = elim (strlen name) [ none ↦ false | some n ↦ leb n max_fname_len ]

module _ {D : Type 0} where
  unfoldable pub sfs_dirent_read_nolock :
      Device D → SfsInode → ℕ → Sfs D → Result (Ret DiskEntry × SfsInode × Sfs D)
  sfs_dirent_read_nolock ops sin slot s =
      if not (sin.din.kind == 2 && ltb slot sin.din.blocks)
      then panic
      else sfs_bmap_load_nolock ops sin slot s >>= (λ l. elim l.0 [
        | fail e ↦ ok (fail e, l.1, l.2)
        | ret ino ↦ assert_inuse ino l.2 (
            sfs_rbuf ops entry_size ino 0 l.2 >>= (λ r. elim r.0 [
              | fail e ↦ ok (fail e, l.1, r.1)
              | ret b ↦ ok (ret (entry_of b), l.1, r.1)
            ]))
      ])

  -- The loop of `sfs_dirent_search_nolock`, with `n` slots to go.
  unfoldable pub search_loop :
      Device D → List ℕ → ℕ → ℕ → ℕ → SfsInode → Sfs D → Result (Ret (ℕ × ℕ) × ℕ × SfsInode × Sfs D)
  search_loop ops name zero i empty sin s = ok (fail noent, empty, sin, s)
  search_loop ops name (suc n) i empty sin s = sfs_dirent_read_nolock ops sin i s >>= (λ r.
      elim r.0 [
        | fail e ↦ ok (fail e, empty, r.1, r.2)
        | ret entry ↦
            let none_here = search_loop ops name n (i + 1) i r.1 r.2 in
            let next = search_loop ops name n (i + 1) empty r.1 r.2 in
            if entry.ino == 0
            then none_here
            else if same_name name entry.name
            then ok (ret (entry.ino, i), empty, r.1, r.2)
            else next
      ])

  -- `room` says whether `kmalloc` finds memory for an entry.
  unfoldable pub sfs_dirent_search_nolock :
      Device D → Bool → SfsInode → List ℕ → Sfs D → Result (Ret (ℕ × ℕ) × ℕ × SfsInode × Sfs D)
  sfs_dirent_search_nolock ops room sin name s =
      if not (fits_entry name)
      then panic
      else if not room
      then ok (fail no_mem, sin.din.blocks, sin, s)
      else search_loop ops name sin.din.blocks 0 sin.din.blocks sin s

  -- The loop of `sfs_dirent_findino_nolock`; the entry that it finds is the value.
  unfoldable pub findino_loop :
      Device D → ℕ → ℕ → ℕ → SfsInode → Sfs D → Result (Ret DiskEntry × SfsInode × Sfs D)
  findino_loop ops ino zero i sin s = ok (fail noent, sin, s)
  findino_loop ops ino (suc n) i sin s = sfs_dirent_read_nolock ops sin i s >>= (λ r. elim r.0 [
    | fail e ↦ ok (fail e, r.1, r.2)
    | ret entry ↦
        let next = findino_loop ops ino n (i + 1) r.1 r.2 in
        if entry.ino == ino then ok (ret entry, r.1, r.2) else next
  ])

  unfoldable pub sfs_dirent_findino_nolock :
      Device D → SfsInode → ℕ → Sfs D → Result (Ret DiskEntry × SfsInode × Sfs D)
  sfs_dirent_findino_nolock ops sin ino s = findino_loop ops ino sin.din.blocks 0 sin s

  -- The loop of `sfs_getdirentry_sub_nolock`.
  unfoldable pub getdirentry_loop :
      Device D → ℕ → ℕ → ℕ → SfsInode → Sfs D → Result (Ret DiskEntry × SfsInode × Sfs D)
  getdirentry_loop ops zero i slot sin s = ok (fail noent, sin, s)
  getdirentry_loop ops (suc n) i slot sin s = sfs_dirent_read_nolock ops sin i s >>= (λ r.
      elim r.0 [
        | fail e ↦ ok (fail e, r.1, r.2)
        | ret entry ↦
            let next = getdirentry_loop ops n (i + 1) slot r.1 r.2 in
            let later = getdirentry_loop ops n (i + 1) (slot - 1) r.1 r.2 in
            if entry.ino == 0 then next else if slot == 0 then ok (ret entry, r.1, r.2) else later
      ])

  unfoldable pub sfs_getdirentry_sub_nolock :
      Device D → SfsInode → ℕ → Sfs D → Result (Ret DiskEntry × SfsInode × Sfs D)
  sfs_getdirentry_sub_nolock ops sin slot s = getdirentry_loop ops sin.din.blocks 0 slot sin s

-- `sfs_opendir`
unfoldable pub sfs_opendir : ℕ → Option Error
sfs_opendir open_flags =
    if not (accmode open_flags == 0)
    then some isdir
    else if bit open_flags o_append
    then some isdir
    else none
