-- ===== src/Tests/Fs.antt =====
-- Files at concrete inputs.
use os_qemu.Prelude.{
  ℕ, ◌+◌, ◌-◌, ◌≡◌, ◌≢◌, ◌==◌, refl, true, if◌then◌else◌, Option, none, some, [], ◌∷◌, arith, inl,
  inr, Bool-cases,
}
use os_qemu.Prelude.Int.{pos}
use os_qemu.Prelude.Errors.{Error, Result, ok}
use os_qemu.Libs.Mem.Blocks.{in_block}
use os_qemu.Fs.Iobuf.{Iobuf, iobuf_init, Moved, iobuf_move}
use os_qemu.Fs.Iobuf.Move.{Advanced, iobuf_move-Advanced}
use os_qemu.Fs.Vfs.{Vfs, Vops, ret, inode_check, vop_op, vfs_close}
use os_qemu.Fs.File.{fd_none, fd_opened, Fs, file_close}
use os_qemu.Fs.File.Calls.{file_read}
use os_qemu.Fs.File.Table.{AtRest, TableInv}
use os_qemu.Fs.File.Close.{file_close-TableInv}
use os_qemu.Fs.File.Transfer.{Transferred, file_read-Through}
use os_qemu.Fs.Device.{Vdev, same_name, find_mount}
use os_qemu.Fs.Bitmap.{Bitmap, bitmap_alloc}
use os_qemu.Fs.Bitmap.Search.{IsWords}
use os_qemu.Fs.Bitmap.Free.{Allocated, bitmap_alloc-Allocated}

-- A file system that transfers four bytes at most, of a file of 100 bytes.
abbrev transfer_four : ℕ → Iobuf → Vfs ℕ → Result (Option Error × Iobuf × Vfs ℕ)
transfer_four node iob v = ok (none, record iob { io_resid = iob.io_resid - 4 }, v)

abbrev four_bytes : Vops ℕ
four_bytes = record {
  fsop_get_root = λ fs v. ok (51, v);
  vop_lookup = λ dir path v. ok (ret 50, v);
  vop_gettype = λ node v. ok (ret 4096, v);
  vop_create = λ dir name excl v. ok (ret 50, v);
  vop_open = λ node flags v. ok (none, v);
  vop_truncate = λ node len v. ok (none, v);
  vop_close = λ node v. ok v;
  vop_reclaim = λ node v. ok v;
  vop_read = transfer_four;
  vop_write = transfer_four;
  vop_getdirentry = transfer_four;
  vop_fstat = λ node v. ok (ret 100, v);
  vop_fsync = λ node v. ok (none, v);
  vop_tryseek = λ node offset v. ok (none, v);
}

-- Descriptor 3 is open on the inode 50.
abbrev one_open : Fs ℕ
one_open = record {
  files_count = 1;
  fd_array = λ i. record {
    status = if i == 3 then fd_opened else fd_none;
    readable = true;
    writable = true;
    fd = i;
    offset = 10;
    node = 50;
    opens = if i == 3 then 1 else 0;
  };
  vfs = record {
    ref_count = λ n. 2;
    open_count = λ n. 1;
    in_fs = λ n. 1;
    pwd = 51;
    bootfs_node = 51;
    devices = [];
    disk = 0;
  };
}

one_open-TableInv : TableInv one_open
one_open-TableInv = record {
  counted = λ e. absurd (omega arith);
  at_rest = λ i lt. rests i;
  numbered = λ i lt. refl;
}
  where
    rests : (i : ℕ) → AtRest (one_open.fd_array i)
    rests i = elim (Bool-cases (i == 3)) [
      | inl e ↦ rw e (inr (refl, refl, λ h. absurd (omega arith)))
      | inr e ↦ rw e (inl (refl, refl))
    ]

file_read-Through_example :
    Transferred one_open 3
      (
        none,
        record (iobuf_init 1000 8 10) { io_resid = (iobuf_init 1000 8 10).io_resid - 4 },
        one_open.vfs,
      )
      (file_read four_bytes (pos 3) 1000 8 one_open)
unfolding inode_check
file_read-Through_example =
    file_read-Through four_bytes one_open 3 1000 8 one_open-TableInv (omega arith) refl refl

-- The inode with a reference less and not open any more.
abbrev dropped : Vfs ℕ
dropped = record (one_open.vfs) {
  ref_count = λ x. if x == 50 then 1 else 2;
  open_count = λ x. if x == 50 then 0 else 1;
}

closes : vfs_close four_bytes 50 one_open.vfs ≡ ok dropped
unfolding vfs_close vop_op inode_check
closes = refl

file_close-TableInv_example :
    (s' : Fs ℕ) × (file_close four_bytes (pos 3) one_open ≡ ok (none, s'))
    × ((s'.fd_array 3).status ≡ fd_none)
    × ((j : ℕ) → j ≢ 3 → s'.fd_array j ≡ one_open.fd_array j)
    × (s'.vfs ≡ dropped)
    × TableInv s'
file_close-TableInv_example =
    file_close-TableInv four_bytes one_open 3 dropped one_open-TableInv (omega arith) refl closes

-- The blocks 1 and 34 are free.
abbrev two_free : Bitmap
two_free = record { nbits = 60; nwords = 2; words = λ x. if x == 0 then 2 else 4 }

two_free-IsWords : IsWords two_free
two_free-IsWords ix h = ground arith

bitmap_alloc-Allocated_example : Allocated two_free (bitmap_alloc two_free)
bitmap_alloc-Allocated_example = bitmap_alloc-Allocated two_free two_free-IsWords

abbrev one_free : Bitmap
one_free = record two_free { words = λ x. if x == 0 then 0 else two_free.words x }

alloc_run : bitmap_alloc two_free ≡ ok (1, one_free)
unfolding bitmap_alloc
alloc_run = refl

-- Sixteen bytes of a buffer with four used.
abbrev half_used : Iobuf
half_used = record { io_base = 104; io_offset = 14; io_len = 16; io_resid = 12 }

iobuf_move-Advanced_example :
    (r : Moved) × (iobuf_move half_used 100 20 true (λ a. a) ≡ ok r)
    × Advanced half_used 20 r
    × ((a : ℕ)
        → r.memory a ≡ (
            if in_block (if true then 104 else 100) r.copied a
            then (if true then 100 else 104) + (a - (if true then 104 else 100))
            else a))
iobuf_move-Advanced_example = iobuf_move-Advanced half_used 100 20 true (λ a. a) (omega arith)

-- The device "d", with nothing mounted.
abbrev disk : Vdev
disk = record { devname = 100 ∷ 0 ∷ []; devnode = 60; fs = 0; mountable = true }

disk_found : find_mount (100 ∷ 0 ∷ []) (disk ∷ []) ≡ some disk
unfolding find_mount same_name
disk_found = refl
