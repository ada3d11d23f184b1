-- ===== src/Fs/Sfs/Io.antt =====
-- `sfs_io_nolock` and `sfs_io` of kern/fs/sfs/sfs_inode.c: reading and writing a file from an offset
-- on, by a part of its first block, whole blocks, and a part of its last one.
use os_qemu.Prelude.{
  ℕ, zero, suc, ◌+◌, ◌-◌, ◌*◌, ◌/◌, ◌%◌, ◌^◌, ◌==◌, not, ltb, leb, Bool, true, ◌&&◌, ◌||◌,
  if◌then◌else◌, Option, none, some,
}
use os_qemu.Prelude.Errors.{Error, Result, ok, panic, ◌>>=◌, inval}
use os_qemu.Libs.Mem.{Memory}
use os_qemu.Fs.Iobuf.{Iobuf, iobuf_skip}
use os_qemu.Fs.Vfs.{Ret, ret, fail}
use os_qemu.Fs.Sfs.{blksize, Device, Sfs, overlay, read_block, sfs_rbuf, sfs_wbuf, sfs_wblock}
use os_qemu.Fs.Sfs.Bmap.{SfsInode, dirtied, max_file_size, sfs_bmap_load_nolock}

-- What a read or a write works on.
pub record IoState (D : Type 0) : Type 0 where
  pub memory : Memory
  pub sin : SfsInode
  pub sfs : Sfs D

-- What the parts of a read or write call: the block map, `sfs_buf_op` with a buffer, a length, a
-- block and an offset in it, and `sfs_block_op` with a buffer and one block.
pub record IoOps (S : Type 0) : Type 0 where
  pub bmap_load : ℕ → S → Result (Ret ℕ × S)
  pub buf_op : ℕ → ℕ → ℕ → ℕ → S → Result (Option Error × S)
  pub block_op : ℕ → ℕ → S → Result (Option Error × S)

module _ {D : Type 0} (ops : Device D) where
  unfoldable pub load_block : ℕ → IoState D → Result (Ret ℕ × IoState D)
  load_block index t =
      sfs_bmap_load_nolock ops t.sin index t.sfs
      >>= (λ r. ok (r.0, record t { sin = r.1; sfs = r.2 }))

  -- `sfs_rbuf`, with its buffer in memory.
  unfoldable pub rbuf_to : ℕ → ℕ → ℕ → ℕ → IoState D → Result (Option Error × IoState D)
  rbuf_to buf len ino offset t = sfs_rbuf ops len ino offset t.sfs >>= (λ r. elim r.0 [
    | fail e ↦ ok (some e, record t { sfs = r.1 })
    | ret b ↦ ok (none, record t { sfs = r.1; memory = overlay b len buf t.memory })
  ])

  unfoldable pub wbuf_from : ℕ → ℕ → ℕ → ℕ → IoState D → Result (Option Error × IoState D)
  wbuf_from buf len ino offset t =
      sfs_wbuf ops (λ i. t.memory (buf + i)) len ino offset t.sfs
      >>= (λ r. ok (r.0, record t { sfs = r.1 }))

  -- `sfs_rblock` and `sfs_wblock` with one block.
  unfoldable pub rblock_to : ℕ → ℕ → IoState D → Result (Option Error × IoState D)
  rblock_to buf ino t = read_block ops ino true t.sfs >>= (λ r. elim r.0 [
    | fail e ↦ ok (some e, record t { sfs = r.1 })
    | ret b ↦ ok (none, record t { sfs = r.1; memory = overlay b blksize buf t.memory })
  ])

  unfoldable pub wblock_from : ℕ → ℕ → IoState D → Result (Option Error × IoState D)
  wblock_from buf ino t =
      sfs_wblock ops (λ k i. t.memory (buf + k * blksize + i)) ino 1 t.sfs
      >>= (λ r. ok (r.0, record t { sfs = r.1 }))

  abbrev pub io_ops : Bool → IoOps (IoState D)
  io_ops write = record {
    bmap_load = load_block;
    buf_op = if write then wbuf_from else rbuf_to;
    block_op = if write then wblock_from else rblock_to;
  }

module _ {S : Type 0} (io : IoOps S) where
  -- The third part, for `rest` bytes. `buf` has moved on with what is done, and `alen` is added to it
  -- once more.
  unfoldable pub io_last : ℕ → ℕ → ℕ → ℕ → S → Result (Option Error × ℕ × S)
  io_last rest blkno buf alen t =
      if rest == 0
      then ok (none, alen, t)
      else io.bmap_load blkno t >>= (λ l. elim l.0 [
        | fail e ↦ ok (some e, alen, l.1)
        | ret ino ↦ io.buf_op (buf + alen) rest ino 0 l.1 >>= (λ r. elim r.0 [
          | some e ↦ ok (some e, alen, r.1)
          | none ↦ ok (none, alen + rest, r.1)
        ])
      ])

  -- The second part, with `nblks` blocks to go.
  unfoldable pub io_blocks : ℕ → ℕ → ℕ → ℕ → ℕ → S → Result (Option Error × ℕ × S)
  io_blocks zero rest blkno buf alen t = io_last rest blkno buf alen t
  io_blocks (suc n) rest blkno buf alen t = io.bmap_load blkno t >>= (λ l. elim l.0 [
    | fail e ↦ ok (some e, alen, l.1)
    | ret ino ↦ io.block_op buf ino l.1 >>= (λ r. elim r.0 [
      | some e ↦ ok (some e, alen, r.1)
      | none ↦ io_blocks n rest (blkno + 1) (buf + blksize) (alen + blksize) r.1
    ])
  ])

  -- The three parts: the error, the bytes moved, and the state.
  unfoldable pub io_parts : ℕ → ℕ → ℕ → S → Result (Option Error × ℕ × S)
  io_parts offset endpos buf t =
      let blkno = offset / blksize in
      let nblks = endpos / blksize - blkno in
      let blkoff = offset % blksize in
      let rest = endpos % blksize in
      let first = if nblks == 0 then endpos - offset else blksize - blkoff in
      if blkoff == 0
      then io_blocks nblks rest blkno buf 0 t
      else io.bmap_load blkno t >>= (λ l. elim l.0 [
        | fail e ↦ ok (some e, 0, l.1)
        | ret ino ↦ io.buf_op buf first ino blkoff l.1 >>= (λ r. elim r.0 [
          | some e ↦ ok (some e, 0, r.1)
          | none ↦
              if nblks == 0
              then ok (none, first, r.1)
              else io_blocks (nblks - 1) rest (blkno + 1) (buf + first) first r.1
        ])
      ])

module _ {D : Type 0} where
  -- The label `out`.
  unfoldable pub io_out : ℕ → Option Error × ℕ × IoState D → Option Error × ℕ × IoState D
  io_out offset r =
      let t = r.2 in
      if ltb t.sin.din.size (offset + r.1)
      then (
        r.0,
        r.1,
        record t { sin = dirtied t.sin (record (t.sin.din) { size = (offset + r.1) % 2 ^ 32 }) },
      )
      else r

  -- `offset` is an `off_t`, as in an `Iobuf`; the results are the error, `*alenp` and the state.
  unfoldable pub sfs_io_nolock :
      Device D → ℕ → ℕ → ℕ → Bool → IoState D → Result (Option Error × ℕ × IoState D)
  sfs_io_nolock ops buf offset alen write t =
      let asked = (offset + alen) % 2 ^ 64 in
      let below = if ltb max_file_size asked then max_file_size else asked in
      let size = t.sin.din.size in
      let endpos = if not write && ltb size below then size else below in
      if t.sin.din.kind == 2
      then panic
      else if leb max_file_size offset || leb (2 ^ 63) asked || ltb asked offset
      then ok (some inval, 0, t)
      else if offset == asked || (not write && leb size offset)
      then ok (none, 0, t)
      else io_parts (io_ops ops write) offset endpos buf t >>= (λ r. ok (io_out offset r))

  -- The semaphore of the inode is held, so this is one step.
  unfoldable pub sfs_io :
      Device D → Iobuf → Bool → IoState D → Result (Option Error × Iobuf × IoState D)
  sfs_io ops iob write t =
      sfs_io_nolock ops iob.io_base iob.io_offset iob.io_resid write t
      >>= (λ r. (if r.1 == 0 then ok iob else iobuf_skip iob r.1) >>= (λ iob'. ok (r.0, iob', r.2)))
