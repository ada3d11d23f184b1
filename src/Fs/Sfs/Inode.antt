-- ===== src/Fs/Sfs/Inode.antt =====
-- The inodes in memory of kern/fs/sfs/sfs_inode.c: each is in the list of all and in the chain of the
-- hash of its number. The functions hold the semaphores of the file system and of the inode, so each is
-- one step.
pub mod Store
pub mod Unique
pub mod Calls
pub mod Counted
pub mod Vnode
use os_qemu.Prelude.{
  ℕ, ◌+◌, ◌-◌, ◌*◌, ◌/◌, ◌%◌, ◌==◌, not, ltb, leb, Bool, true, false, ◌&&◌, ◌||◌, if◌then◌else◌,
  Option, none, some, List, [], ◌∷◌, get_or,
}
use os_qemu.Prelude.Errors.{Error, Result, ok, panic, ◌>>=◌, no_mem, inval, busy, notdir}
use os_qemu.Fs.Vfs.{Ret, ret, fail, set_count}
use os_qemu.Fs.Sfs.{
  Block, Device, Sfs, word_of, bytes_of, sfs_rbuf, sfs_wbuf, assert_inuse, sfs_block_free,
}
use os_qemu.Fs.Sfs.Bmap.{DiskInode, SfsInode, max_file_size, sfs_truncfile}
use os_qemu.Fs.Sfs.Dir.{sfs_dirent_search_nolock}
use os_qemu.Proc.Table.{hash32, hash_shift, list_unlink, set_chain}

-- The size of `struct sfs_disk_inode`, and the inode that its bytes are: two counts of 16 bits stand
-- between words of 32 bits.
abbrev pub inode_size : ℕ
inode_size = 64

abbrev pub half_of : Block → ℕ
half_of b = b 0 + 256 * b 1

unfoldable pub din_of : Block → DiskInode
din_of b = record {
  size = word_of b;
  kind = half_of (λ i. b (4 + i));
  nlinks = half_of (λ i. b (6 + i));
  blocks = word_of (λ i. b (8 + i));
  direct = λ k. word_of (λ i. b (12 + 4 * k + i));
  indirect = word_of (λ i. b (60 + i));
}

unfoldable pub bytes_of_din : DiskInode → Block
bytes_of_din din i =
    if ltb i 4
    then bytes_of din.size i
    else if ltb i 6
    then bytes_of din.kind (i - 4)
    else if ltb i 8
    then bytes_of din.nlinks (i - 6)
    else if ltb i 12
    then bytes_of din.blocks (i - 8)
    else if ltb i 60
    then bytes_of (din.direct ((i - 12) / 4)) ((i - 12) % 4)
    else bytes_of din.indirect (i - 60)

-- The file system with its inodes in memory, by their addresses: what each has, its references, and the
-- lists `inode_list` and `hash_list`.
pub record Cache (D : Type 0) : Type 0 where
  pub sfs : Sfs D
  pub sin : ℕ → SfsInode
  pub ref_count : ℕ → ℕ
  pub inode_list : List ℕ
  pub hash_list : ℕ → List ℕ

abbrev pub set_sin : (ℕ → SfsInode) → ℕ → SfsInode → ℕ → SfsInode
set_sin f node sin x = if x == node then sin else f x

-- The loop of `lookup_sfs_nolock`.
unfoldable pub find_inode : (ℕ → SfsInode) → ℕ → List ℕ → Option ℕ
find_inode sin ino [] = none
find_inode sin ino (node ∷ nodes) =
    let rest = find_inode sin ino nodes in if (sin node).ino == ino then some node else rest

module _ {D : Type 0} where
  abbrev pub chain : ℕ → Cache D → List ℕ
  chain ino c = c.hash_list (hash32 ino hash_shift)

  abbrev pub with_sfs : Cache D → Sfs D → Cache D
  with_sfs c s = record c { sfs = s }

  abbrev pub with_sin : ℕ → SfsInode → Cache D → Cache D
  with_sin node sin c = record c { sin = set_sin c.sin node sin }

  unfoldable pub sfs_set_links : ℕ → Cache D → Cache D
  sfs_set_links node c =
      let h = hash32 (c.sin node).ino hash_shift in
      record c {
        inode_list = node ∷ c.inode_list;
        hash_list = set_chain c.hash_list h (node ∷ c.hash_list h);
      }

  unfoldable pub sfs_remove_links : ℕ → Cache D → Cache D
  sfs_remove_links node c =
      let h = hash32 (c.sin node).ino hash_shift in
      record c {
        inode_list = list_unlink node c.inode_list;
        hash_list = set_chain c.hash_list h (list_unlink node (c.hash_list h));
      }

  -- What the loop of `lookup_sfs_nolock` does with the inode that it finds.
  unfoldable pub take_inode : ℕ → Cache D → Cache D
  take_inode node c =
      let sin = c.sin node in
      let more = record sin { reclaim_count = sin.reclaim_count + 1 } in
      record c {
        ref_count = set_count c.ref_count node (c.ref_count node + 1);
        sin = if c.ref_count node + 1 == 1 then set_sin c.sin node more else c.sin;
      }

  -- `fresh` is what `alloc_inode` returns, 0 for NULL.
  unfoldable pub sfs_create_inode : DiskInode → ℕ → ℕ → Cache D → Result (Ret ℕ × Cache D)
  sfs_create_inode din ino fresh c =
      if fresh == 0
      then ok (fail no_mem, c)
      else if not (din.kind == 2 || din.kind == 1)
      then panic
      else ok (
        ret fresh,
        record c {
          ref_count = set_count c.ref_count fresh 1;
          sin =
              set_sin c.sin fresh
                (record { din = din; ino = ino; dirty = false; reclaim_count = 1 });
        },
      )

  -- The part of `sfs_load_inode` for an inode that is not in memory. `room` says whether `kmalloc` finds
  -- memory for the inode.
  unfoldable pub read_inode : Device D → Bool → ℕ → ℕ → Cache D → Result (Ret ℕ × Cache D)
  read_inode ops room fresh ino c =
      if not room
      then ok (fail no_mem, c)
      else assert_inuse ino c.sfs (
          sfs_rbuf ops inode_size ino 0 c.sfs >>= (λ r. elim r.0 [
            | fail e ↦ ok (fail e, with_sfs c r.1)
            | ret b ↦
                if (din_of b).nlinks == 0
                then panic
                else sfs_create_inode (din_of b) ino fresh (with_sfs c r.1) >>= (λ n. elim n.0 [
                  | fail e ↦ ok (fail e, n.1)
                  | ret node ↦ ok (ret node, sfs_set_links node n.1)
                ])
          ]))

  unfoldable pub sfs_load_inode : Device D → Bool → ℕ → ℕ → Cache D → Result (Ret ℕ × Cache D)
  sfs_load_inode ops room fresh ino c = elim (find_inode c.sin ino (chain ino c)) [
    | some node ↦ ok (ret node, take_inode node c)
    | none ↦ read_inode ops room fresh ino c
  ]

  unfoldable pub sfs_fsync : Device D → ℕ → Cache D → Result (Option Error × Cache D)
  sfs_fsync ops node c =
      let sin = c.sin node in
      let clean = record sin { dirty = false } in
      if not sin.dirty
      then ok (none, c)
      else sfs_wbuf ops (bytes_of_din sin.din) inode_size sin.ino 0 c.sfs >>= (λ w. elim w.0 [
        | none ↦ ok (none, with_sin node clean (with_sfs c w.1))
        | some e ↦ ok (some e, with_sfs c w.1)
      ])
