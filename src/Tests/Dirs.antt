-- ===== src/Tests/Dirs.antt =====
-- Directories and inodes in memory at concrete inputs.
use os_qemu.Prelude.{ℕ, ◌≡◌, ◌≢◌, refl, ◌==◌, ◌||◌, true, if◌then◌else◌, none, List, [], ◌∷◌, arith}
use os_qemu.Prelude.Errors.{ok}
use os_qemu.Fs.Vfs.{Ret, ret}
use os_qemu.Fs.Bitmap.{test_bit}
use os_qemu.Fs.Sfs.{Sfs}
use os_qemu.Fs.Sfs.Bmap.{SfsInode}
use os_qemu.Fs.Sfs.Disk.{SfsInv, Used, SfsInv-dev}
use os_qemu.Fs.Sfs.Chain.{FileInv}
use os_qemu.Fs.Sfs.Dir.{DiskEntry, fits_entry, sfs_dirent_search_nolock, sfs_getdirentry_sub_nolock}
use os_qemu.Fs.Sfs.Dir.Scan.{Searched, sfs_dirent_search_nolock-Searched}
use os_qemu.Fs.Sfs.Dir.Listing.{Nth, sfs_getdirentry_sub_nolock-Nth}
use os_qemu.Fs.Sfs.Inode.{Cache, din_of, bytes_of_din, sfs_load_inode, sfs_fsync}
use os_qemu.Fs.Sfs.Inode.Store.{InBounds, Stored, sfs_fsync-Stored}
use os_qemu.Fs.Sfs.Inode.Unique.{loaded, din_at, Loaded, sfs_load_inode-Loaded}
use os_qemu.Libs.Str.{strlen, strlen_loop}
use os_qemu.Tests.Disk.{
  Disk, disk, disk_works, small_fs, two_blocks, small_fs-SfsInv, two_blocks-FileInv,
}

-- The file of two blocks as a directory.
abbrev two_entries : SfsInode
two_entries = record two_blocks { din = record (two_blocks.din) { kind = 2 } }

two_entries-FileInv : FileInv disk disk_works small_fs two_entries.din
two_entries-FileInv =
    let f = two_blocks-FileInv in
    record {
      max = f.max;
      used = f.used;
      distinct = f.distinct;
      apart = f.apart;
      indirect = f.indirect;
      indirect_needed = f.indirect_needed;
      unset = f.unset;
      unset_entry = f.unset_entry;
    }

abbrev one_letter : List ℕ
one_letter = 97 ∷ 0 ∷ []

one_letter_fits : fits_entry one_letter ≡ true
unfolding strlen strlen_loop
one_letter_fits = refl

abbrev SearchedOnce : Type 0
SearchedOnce =
    (r : Ret (ℕ × ℕ)) × (last : ℕ) × (sfs_dirent_search_nolock disk true two_entries one_letter
        small_fs
      ≡ ok (r, last, two_entries, small_fs))
    × Searched disk disk_works small_fs small_fs-SfsInv two_entries two_entries-FileInv refl
        one_letter 0 2 r last

sfs_dirent_search_nolock-Searched_example : SearchedOnce
sfs_dirent_search_nolock-Searched_example =
    sfs_dirent_search_nolock-Searched disk disk_works small_fs small_fs-SfsInv two_entries
      two_entries-FileInv refl one_letter one_letter_fits

sfs_getdirentry_sub_nolock-Nth_example :
    (r : Ret DiskEntry) × (sfs_getdirentry_sub_nolock disk two_entries 1 small_fs
      ≡ ok (r, two_entries, small_fs))
    × Nth disk disk_works small_fs small_fs-SfsInv two_entries two_entries-FileInv refl 0 2 1 r
sfs_getdirentry_sub_nolock-Nth_example =
    sfs_getdirentry_sub_nolock-Nth disk disk_works small_fs small_fs-SfsInv two_entries
      two_entries-FileInv refl 1

-- The disk with the inode of the file in block 4.
abbrev with_inode : Disk
with_inode n i = if n == 4 then bytes_of_din two_blocks.din i else n

abbrev fs_with_inode : Sfs Disk
fs_with_inode = record small_fs { dev = with_inode }

fs_with_inode-SfsInv : SfsInv fs_with_inode
fs_with_inode-SfsInv = SfsInv-dev small_fs with_inode small_fs-SfsInv

block_four-Used : Used fs_with_inode 4
unfolding test_bit
block_four-Used = ((λ e. omega arith), omega arith, refl)

abbrev no_inodes : Cache Disk
no_inodes = record {
  sfs = fs_with_inode;
  sin = λ x. record two_blocks { dirty = true };
  ref_count = λ x. 0;
  inode_list = [];
  hash_list = λ h. [];
}

four_links : (din_at disk disk_works fs_with_inode 4).nlinks ≢ 0
unfolding din_of bytes_of_din disk_works
four_links e = omega arith

four_kind :
    ((din_at disk disk_works fs_with_inode 4).kind == 2
      || (din_at disk disk_works fs_with_inode 4).kind == 1)
    ≡ true
unfolding din_of bytes_of_din disk_works
four_kind = refl

abbrev LoadedFour : Type 0
LoadedFour =
    (n : ℕ) × (c' : Cache Disk) × (sfs_load_inode disk true 900 4 no_inodes ≡ ok (ret n, c'))
    × Loaded no_inodes 4 n c'
    × (loaded no_inodes 4 ≡ none → (c'.sin n).din ≡ din_at disk disk_works fs_with_inode 4)

sfs_load_inode-Loaded_example : LoadedFour
sfs_load_inode-Loaded_example =
    sfs_load_inode-Loaded disk disk_works no_inodes 4 900 fs_with_inode-SfsInv block_four-Used
      four_links four_kind (λ e. omega arith) (λ h. tt)

two_blocks-InBounds : InBounds two_blocks.din
two_blocks-InBounds = record {
  size = omega arith;
  kind = omega arith;
  nlinks = omega arith;
  blocks = omega arith;
  direct = λ k h. ground arith;
  indirect = omega arith;
}

sfs_fsync-Stored_example :
    (c' : Cache Disk) × (sfs_fsync disk 900 no_inodes ≡ ok (none, c'))
    × Stored disk disk_works no_inodes 900 c'
sfs_fsync-Stored_example =
    sfs_fsync-Stored disk disk_works no_inodes 900 fs_with_inode-SfsInv block_four-Used
      two_blocks-InBounds refl
