-- ===== src/Tests/Disk.antt =====
-- The file system on a disk at concrete inputs.
use os_qemu.Prelude.{
  ℕ, zero, suc, ◌*◌, ◌/◌, ◌<◌, ◌≡◌, ◌≢◌, ◌⊎◌, inl, inr, refl, ◌==◌, ltb, not, Bool, true, false,
  ◌&&◌, ◌||◌, if◌then◌else◌, none, arith, ℕ_discrete,
}
use os_qemu.Libs.Mem.{Memory}
use os_qemu.Fs.Vfs.{ret}
use os_qemu.Fs.Bitmap.{Bitmap, test_bit}
use os_qemu.Fs.Bitmap.Search.{is_free}
use os_qemu.Fs.Sfs.{blksize, Block, Device, Sfs}
use os_qemu.Fs.Sfs.Bmap.{SfsInode}
use os_qemu.Fs.Sfs.Disk.{Works, SfsInv, Used, count_free}
use os_qemu.Fs.Sfs.Chain.{FileInv, block_at}
use os_qemu.Fs.Sfs.Load.{NoRoom, Longer, sfs_bmap_load_nolock-grows}
use os_qemu.Fs.Sfs.Truncate.{Shorter, sfs_bmap_truncate_nolock-shrinks}
use os_qemu.Fs.Sfs.ReadCall.{
  ReadInPlace, ReadMisplaced, sfs_io_nolock-reads, sfs_io_nolock-misplaced,
}

abbrev pub Disk : Type 0
Disk = ℕ → Block

abbrev pub written : Disk → ℕ → Block → Disk
written d n b x = if x == n then b else d x

abbrev pub disk : Device Disk
disk = record {
  dop_read = λ offset d. (ret (d (offset / blksize)), d);
  dop_write = λ offset b d. (none, written d (offset / blksize) b);
}

pub block_of : (n : ℕ) → n * 4096 / 4096 ≡ n
block_of n = omega arith

unfoldable pub disk_works : Works disk
disk_works = record {
  content = λ d n. d n;
  stored = written;
  dop_read_lem = λ n d h. rw (block_of n) refl;
  dop_write_lem = λ n b d h. rw (block_of n) refl;
  content-stored = λ n i b d h. let e : (n == n) ≡ true = ground arith in rw e refl;
  content-stored_other = λ n m b d h. let e : (m == n) ≡ false = ground arith in rw e refl;
}

-- A disk of 32 blocks, of which just the block 7 is free.
abbrev bits : Bitmap
bits = record { nbits = 32; nwords = 1; words = λ x. 128 }

abbrev pub small_fs : Sfs Disk
small_fs = record {
  blocks = 32;
  unused_blocks = 1;
  super_dirty = false;
  freemap = bits;
  dev = λ n i. n;
}

abbrev all_below : ℕ → (ℕ → Bool) → Bool
all_below zero p = true
all_below (suc n) p = p n && all_below n p

below_all : (n : ℕ) (p : ℕ → Bool) → all_below n p ≡ true → (i : ℕ) → i < n → p i ≡ true
below_all zero p h i lt = absurd (omega arith)
below_all (suc n) p h i lt = elim (ℕ_discrete i n) [
  | yes e ↦ rw e (ground (arith, h))
  | no e ↦ below_all n p (ground (arith, h)) i (omega arith)
]

abbrev free_in_range : ℕ → Bool
free_in_range i = not (is_free bits i) || (not (i == 0) && ltb i 32)

free_in_range_all : all_below 32 free_in_range ≡ true
unfolding test_bit
free_in_range_all = refl

one_free : count_free 32 bits ≡ 1
unfolding test_bit
one_free = refl

in_range : (i : ℕ) → i < 32 → is_free bits i ≡ true → (i ≢ 0) × (i < 32)
in_range i h e =
    let t : free_in_range i ≡ true = below_all 32 free_in_range free_in_range_all i h in
    (ground (arith, e, t), h)

pub small_fs-SfsInv : SfsInv small_fs
small_fs-SfsInv = record {
  words = λ x h. omega arith;
  whole = refl;
  fits = omega arith;
  few = omega arith;
  in_range = in_range;
  counted = rw one_free refl;
}

-- A file of two blocks and 5000 bytes.
abbrev pub two_blocks : SfsInode
two_blocks = record {
  din = record {
    size = 5000;
    kind = 1;
    nlinks = 1;
    blocks = 2;
    direct = λ k. if k == 0 then 5 else if k == 1 then 6 else 0;
    indirect = 0;
  };
  ino = 4;
  dirty = false;
  reclaim_count = 1;
}

pub used : (k : ℕ) → k < 2 → Used small_fs (block_at disk disk_works small_fs.dev two_blocks.din k)
unfolding test_bit
used zero h = ((λ e. omega arith), omega arith, refl)
used (suc zero) h = ((λ e. omega arith), omega arith, refl)
used (suc (suc k)) h = absurd (omega arith)

pub two_blocks-FileInv : FileInv disk disk_works small_fs two_blocks.din
two_blocks-FileInv = record {
  max = omega arith;
  used = used;
  distinct = λ k l h h' n e. ground arith;
  apart = λ k h e. ground arith;
  indirect = inl refl;
  indirect_needed = λ h. absurd (omega arith);
  unset = λ k h h'. ground arith;
  unset_entry = λ k h h' n. absurd (n refl);
}

sfs_bmap_load_nolock-grows_example :
    NoRoom disk disk_works small_fs two_blocks ⊎ Longer disk disk_works small_fs two_blocks
sfs_bmap_load_nolock-grows_example =
    sfs_bmap_load_nolock-grows disk disk_works small_fs two_blocks small_fs-SfsInv
      two_blocks-FileInv (omega arith)

sfs_bmap_truncate_nolock-shrinks_example : Shorter disk disk_works small_fs two_blocks
sfs_bmap_truncate_nolock-shrinks_example =
    sfs_bmap_truncate_nolock-shrinks disk disk_works small_fs two_blocks small_fs-SfsInv
      two_blocks-FileInv (λ e. omega arith)

abbrev blank : Memory
blank x = 0

-- The 96 bytes up to the end of the first block.
sfs_io_nolock-reads_example : ReadInPlace disk disk_works small_fs two_blocks 4000 96 100 blank
sfs_io_nolock-reads_example =
    sfs_io_nolock-reads disk disk_works small_fs two_blocks small_fs-SfsInv two_blocks-FileInv
      (λ e. omega arith) (omega arith) 4000 96 100 blank (omega arith) (λ e. omega arith)
      (omega arith) (inr refl)

-- 100 bytes, of which four are in the second block.
sfs_io_nolock-misplaced_example :
    ReadMisplaced disk disk_works small_fs two_blocks 4000 100 100 blank
sfs_io_nolock-misplaced_example =
    sfs_io_nolock-misplaced disk disk_works small_fs two_blocks small_fs-SfsInv two_blocks-FileInv
      (λ e. omega arith) (omega arith) 4000 100 100 blank (omega arith) (λ e. omega arith)
      (omega arith) (omega arith) (λ e. omega arith)
