-- ===== src/Fs/Vfs.antt =====
-- kern/fs/vfs/inode.c and `vfs_close` of kern/fs/vfs/vfsfile.c: the counts of an inode.
use os_qemu.Prelude.{
  ℕ, ◌+◌, ◌-◌, ◌/◌, ◌%◌, ◌==◌, not, ltb, leb, Bool, true, false, ◌&&◌, if◌then◌else◌, Option, List,
}
use os_qemu.Prelude.Errors.{Error, Result, ok, panic, ◌>>=◌, noent}
use os_qemu.Fs.Iobuf.{Iobuf}
use os_qemu.Fs.Device.{Vdev}

-- The inodes: a pointer to one is a number, 0 is NULL, and what a file system keeps is the `disk`. Where
-- a path can start: the directory of the current process, the boot file system and the devices.
pub record Vfs (D : Type 0) : Type 0 where
  pub ref_count : ℕ → ℕ
  pub open_count : ℕ → ℕ
  pub in_fs : ℕ → ℕ
  pub pwd : ℕ
  pub bootfs_node : ℕ
  pub devices : List Vdev
  pub disk : D

-- What a call returns: a value or an error, and the state it leaves.
pub data Ret (A : Type 0) : Type 0 where
  ret : A → Ret A
  fail : Error → Ret A

-- The operations of the file system below, which an inode names in its table `in_ops`, and the root
-- of a file system. Each can stop the kernel, by an assertion of its own or since the table of the inode
-- does not have it or its magic number is wrong.
pub record Vops (D : Type 0) : Type 0 where
  pub fsop_get_root : ℕ → Vfs D → Result (ℕ × Vfs D)
  pub vop_lookup : ℕ → List ℕ → Vfs D → Result (Ret ℕ × Vfs D)
  pub vop_gettype : ℕ → Vfs D → Result (Ret ℕ × Vfs D)
  pub vop_create : ℕ → List ℕ → Bool → Vfs D → Result (Ret ℕ × Vfs D)
  pub vop_open : ℕ → ℕ → Vfs D → Result (Option Error × Vfs D)
  pub vop_truncate : ℕ → ℕ → Vfs D → Result (Option Error × Vfs D)
  pub vop_close : ℕ → Vfs D → Result (Vfs D)
  pub vop_reclaim : ℕ → Vfs D → Result (Vfs D)
  pub vop_read : ℕ → Iobuf → Vfs D → Result (Option Error × Iobuf × Vfs D)
  pub vop_write : ℕ → Iobuf → Vfs D → Result (Option Error × Iobuf × Vfs D)
  pub vop_getdirentry : ℕ → Iobuf → Vfs D → Result (Option Error × Iobuf × Vfs D)
  pub vop_fstat : ℕ → Vfs D → Result (Ret ℕ × Vfs D)
  pub vop_fsync : ℕ → Vfs D → Result (Option Error × Vfs D)
  pub vop_tryseek : ℕ → ℕ → Vfs D → Result (Option Error × Vfs D)

abbrev pub is_noent : Error → Bool
is_noent e = elim e [ noent ↦ true | _ ↦ false ]

abbrev pub set_count : (ℕ → ℕ) → ℕ → ℕ → ℕ → ℕ
set_count f node n x = if x == node then n else f x

-- The bits of `open_flags`.
abbrev pub accmode : ℕ → ℕ
accmode flags = flags % 4

abbrev pub bit : ℕ → ℕ → Bool
bit flags mask = flags / mask % 2 == 1

abbrev pub o_creat : ℕ
o_creat = 4

abbrev pub o_excl : ℕ
o_excl = 8

abbrev pub o_trunc : ℕ
o_trunc = 16

abbrev pub o_append : ℕ
o_append = 32

-- MAX_INODE_COUNT
abbrev pub max_inode_count : ℕ
max_inode_count = 0x10000

module _ {D : Type 0} where
  -- The assertions of `inode_check` on the pointer and the counts; that a count is not negative is in
  -- its type.
  unfoldable pub inode_check : ℕ → Vfs D → Bool
  inode_check node v =
      not (node == 0)
      && leb (v.open_count node) (v.ref_count node)
      && ltb (v.ref_count node) max_inode_count
      && ltb (v.open_count node) max_inode_count

  -- A call of an operation of an inode, as `__vop_op` makes it.
  unfoldable pub vop_op {ℓ} : {A : Type ℓ} → ℕ → Vfs D → Result A → Result A
  vop_op node v call = if inode_check node v then call else panic

  unfoldable pub inode_ref_inc : ℕ → Vfs D → Vfs D
  inode_ref_inc node v = record v { ref_count = set_count v.ref_count node (v.ref_count node + 1) }

  unfoldable pub inode_open_inc : ℕ → Vfs D → Vfs D
  inode_open_inc node v = record v {
    open_count = set_count v.open_count node (v.open_count node + 1);
  }

  unfoldable pub inode_ref_dec : Vops D → ℕ → Vfs D → Result (Vfs D)
  inode_ref_dec ops node v =
      let v' : Vfs D = record v { ref_count = set_count v.ref_count node (v.ref_count node - 1) } in
      if v.ref_count node == 0
      then panic
      else if v.ref_count node == 1
      then vop_op node v' (ops.vop_reclaim node v')
      else ok v'

  unfoldable pub inode_open_dec : Vops D → ℕ → Vfs D → Result (Vfs D)
  inode_open_dec ops node v =
      let v' : Vfs D = record v {
        open_count = set_count v.open_count node (v.open_count node - 1);
      } in
      if v.open_count node == 0
      then panic
      else if v.open_count node == 1
      then vop_op node v' (ops.vop_close node v')
      else ok v'

  unfoldable pub vfs_close : Vops D → ℕ → Vfs D → Result (Vfs D)
  unfolding inode_open_dec inode_ref_dec
  vfs_close ops node v = inode_open_dec ops node v >>= inode_ref_dec ops node
