-- ===== src/Fs/Sfs.antt =====
-- kern/fs/sfs/sfs_io.c, and the blocks of kern/fs/sfs/sfs_inode.c: reading and writing blocks of the
-- disk, taking and giving back blocks. The functions hold the semaphores of the file system while they
-- use `sfs_buffer`, so each is one step, and what the buffer holds is given by the calls themselves.
pub mod Bmap
pub mod Disk
pub mod Entry
pub mod Chain
pub mod Append
pub mod Grow
pub mod GrowEntry
pub mod GrowIndirect
pub mod Load
pub mod Shrink
pub mod Truncate
pub mod Io
pub mod Read
pub mod ReadFile
pub mod ReadCall
pub mod Dir
pub mod Inode
use os_qemu.Prelude.{
  ℕ, zero, suc, ◌+◌, ◌-◌, ◌*◌, ◌/◌, ◌%◌, ◌^◌, ◌==◌, not, ltb, leb, Bool, true, false, ◌&&◌, ◌||◌,
  if◌then◌else◌, Option, none, some,
}
use os_qemu.Prelude.Errors.{Error, Result, ok, err, panic, ◌>>=◌}
use os_qemu.Fs.Vfs.{Ret, ret, fail}
use os_qemu.Fs.Bitmap.{Bitmap, bitmap_alloc, bitmap_free, bitmap_test}

-- SFS_BLKSIZE and SFS_BLKN_SUPER
abbrev pub blksize : ℕ
blksize = 4096

abbrev pub blkn_super : ℕ
blkn_super = 0

-- The bytes of a block.
abbrev pub Block : Type 0
Block = ℕ → ℕ

-- `d_io` of the device: to read or to write the block at an offset in bytes.
pub record Device (D : Type 0) : Type 0 where
  pub dop_read : ℕ → D → Ret Block × D
  pub dop_write : ℕ → Block → D → Option Error × D

-- `struct sfs_fs`: of `super` the two counts, the map of free blocks, and what the device keeps.
pub record Sfs (D : Type 0) : Type 0 where
  pub blocks : ℕ
  pub unused_blocks : ℕ
  pub super_dirty : Bool
  pub freemap : Bitmap
  pub dev : D

-- The `uint32_t` that four bytes are, and its bytes.
abbrev pub word_of : Block → ℕ
word_of b = b 0 + 256 * b 1 + 65536 * b 2 + 16777216 * b 3

abbrev pub bytes_of : ℕ → Block
bytes_of w i =
    if i == 0
    then w % 256
    else if i == 1
    then w / 256 % 256
    else if i == 2
    then w / 65536 % 256
    else w / 16777216 % 256

-- `memcpy(sfs->sfs_buffer + offset, buf, len)`
abbrev pub overlay : Block → ℕ → ℕ → Block → Block
overlay buf len offset b i = if leb offset i && ltb i (offset + len) then buf (i - offset) else b i

-- The offset of a block, a `uint32_t`, and the assertion of `sfs_rbuf` and `sfs_wbuf`.
abbrev pub block_offset : ℕ → ℕ
block_offset blkno = blkno * blksize % 2 ^ 32

abbrev pub in_block : ℕ → ℕ → Bool
in_block offset len = ltb offset blksize && leb (offset + len) blksize

module _ {D : Type 0} where
  -- `sfs_rwblock_nolock` with `write` 0 and 1, and its assertion.
  abbrev pub is_block : Bool → ℕ → Sfs D → Bool
  is_block check blkno s = (not (blkno == 0) || not check) && ltb blkno s.blocks

  unfoldable pub read_block : Device D → ℕ → Bool → Sfs D → Result (Ret Block × Sfs D)
  read_block ops blkno check s =
      let (r, d) = ops.dop_read (block_offset blkno) s.dev in
      if is_block check blkno s then ok (r, record s { dev = d }) else panic

  unfoldable pub write_block : Device D → Block → ℕ → Bool → Sfs D → Result (Option Error × Sfs D)
  write_block ops buf blkno check s =
      let (r, d) = ops.dop_write (block_offset blkno) buf s.dev in
      if is_block check blkno s then ok (r, record s { dev = d }) else panic

  -- What is copied to the buffer is the result.
  unfoldable pub sfs_rbuf : Device D → ℕ → ℕ → ℕ → Sfs D → Result (Ret Block × Sfs D)
  sfs_rbuf ops len blkno offset s =
      if in_block offset len
      then read_block ops blkno true s >>= (λ r.
        ok (elim r.0 [ fail e ↦ (fail e, r.1) | ret b ↦ (ret (λ i. b (offset + i)), r.1) ]))
      else panic

  unfoldable pub sfs_wbuf : Device D → Block → ℕ → ℕ → ℕ → Sfs D → Result (Option Error × Sfs D)
  sfs_wbuf ops buf len blkno offset s =
      if in_block offset len
      then read_block ops blkno true s >>= (λ r. elim r.0 [
        | fail e ↦ ok (some e, r.1)
        | ret b ↦ write_block ops (overlay buf len offset b) blkno true r.1
      ])
      else panic

  -- The loop of `sfs_clear_block`. With no block at all the code returns a variable that was never
  -- set; no caller asks for none.
  unfoldable pub sfs_clear_block : Device D → ℕ → ℕ → Sfs D → Result (Option Error × Sfs D)
  sfs_clear_block ops blkno zero s = ok (none, s)
  sfs_clear_block ops blkno (suc n) s = write_block ops (λ i. 0) blkno true s >>= (λ r. elim r.0 [
    | some e ↦ ok (some e, r.1)
    | none ↦ sfs_clear_block ops ((blkno + 1) % 2 ^ 32) n r.1
  ])

  -- The loop of `sfs_rwblock` for writing, over the blocks of `buf`.
  unfoldable pub sfs_wblock : Device D → (ℕ → Block) → ℕ → ℕ → Sfs D → Result (Option Error × Sfs D)
  sfs_wblock ops buf blkno zero s = ok (none, s)
  sfs_wblock ops buf blkno (suc n) s = write_block ops (buf 0) blkno true s >>= (λ r. elim r.0 [
    | some e ↦ ok (some e, r.1)
    | none ↦ sfs_wblock ops (λ i. buf (i + 1)) ((blkno + 1) % 2 ^ 32) n r.1
  ])

  unfoldable pub sfs_block_inuse : ℕ → Sfs D → Result Bool
  sfs_block_inuse ino s =
      if not (ino == 0) && ltb ino s.blocks
      then bitmap_test s.freemap ino >>= (λ b. ok (not b))
      else panic

  -- `assert(sfs_block_inuse(sfs, ino))`
  unfoldable pub assert_inuse {ℓ} : {A : Type ℓ} → ℕ → Sfs D → Result A → Result A
  assert_inuse ino s r = sfs_block_inuse ino s >>= (λ b. if b then r else panic)

  unfoldable pub sfs_block_alloc : Device D → Sfs D → Result (Ret ℕ × Sfs D)
  sfs_block_alloc ops s = elim (bitmap_alloc s.freemap) [
    | panic ↦ panic
    | err e ↦ ok (fail e, s)
    | ok a ↦
        let t : Sfs D = record s {
          freemap = a.1;
          unused_blocks = s.unused_blocks - 1;
          super_dirty = true;
        } in
        if s.unused_blocks == 0
        then panic
        else assert_inuse a.0 t (
            sfs_clear_block ops a.0 1 t
            >>= (λ r. elim r.0 [ some e ↦ ok (fail e, r.1) | none ↦ ok (ret a.0, r.1) ]))
  ]

  unfoldable pub sfs_block_free : ℕ → Sfs D → Result (Sfs D)
  sfs_block_free ino s = assert_inuse ino s (
      bitmap_free s.freemap ino >>= (λ b. ok (record s {
        freemap = b;
        unused_blocks = (s.unused_blocks + 1) % 2 ^ 32;
        super_dirty = true;
      })))
