-- ===== src/Fs/Sfs/Chain.antt =====
-- The blocks of a file by the map of its inode, kern/fs/sfs/sfs_inode.c, and looking one up.
use os_qemu.Prelude.{
  ℕ, ◌+◌, ◌-◌, ◌≤◌, ◌<◌, ◌≡◌, ◌≢◌, ◌⊎◌, inl, inr, refl, ◌∙◌, ◌==◌, ltb, leb, true, false, arith,
  if◌then◌else◌, Bool-cases,
}
use os_qemu.Prelude.Errors.{ok, panic}
use os_qemu.Fs.Vfs.{ret}
use os_qemu.Fs.Sfs.{Device, Sfs}
use os_qemu.Fs.Sfs.Bmap.{
  DiskInode, SfsInode, get_out, sfs_bmap_get_sub_nolock, sfs_bmap_get_nolock, sfs_bmap_load_nolock,
}
use os_qemu.Fs.Sfs.Disk.{Works, SfsInv, Used, assert_inuse-Used}
use os_qemu.Fs.Sfs.Entry.{entry, sfs_rbuf-entry}

-- SFS_NDIRECT and the entries of a block.
abbrev pub max_blocks : ℕ
max_blocks = 1036

module _ {D : Type 0} (ops : Device D) (w : Works ops) where
  -- The block `k` of a file.
  abbrev pub block_at : D → DiskInode → ℕ → ℕ
  block_at d din k = if ltb k 12 then din.direct k else entry ops w d din.indirect (k - 12)

  -- The blocks of a file are used and none is there twice, the block of entries among them; behind
  -- the last one the map is empty.
  pub record FileInv (s : Sfs D) (din : DiskInode) : Type 0 where
    pub max : din.blocks ≤ max_blocks
    pub used : (k : ℕ) → k < din.blocks → Used s (block_at s.dev din k)
    pub distinct :
        (k l : ℕ)
        → k < din.blocks
        → l < din.blocks
        → k ≢ l
        → block_at s.dev din k ≢ block_at s.dev din l
    pub apart : (k : ℕ) → k < din.blocks → block_at s.dev din k ≢ din.indirect
    pub indirect : (din.indirect ≡ 0) ⊎ Used s din.indirect
    pub indirect_needed : 12 < din.blocks → din.indirect ≢ 0
    pub unset : (k : ℕ) → din.blocks ≤ k → k < 12 → din.direct k ≡ 0
    pub unset_entry :
        (k : ℕ)
        → din.blocks ≤ k + 12
        → k < 1024
        → din.indirect ≢ 0
        → entry ops w s.dev din.indirect k ≡ 0

  pub block_at-direct : (d : D) (din : DiskInode) (k : ℕ) → k < 12 → block_at d din k ≡ din.direct k
  block_at-direct d din k h = let l : ltb k 12 ≡ true = ground arith in rw l refl

  pub block_at-entry :
      (d : D) (din : DiskInode) (k : ℕ)
      → 12 ≤ k
      → block_at d din k ≡ entry ops w d din.indirect (k - 12)
  block_at-entry d din k h = let l : ltb k 12 ≡ false = ground arith in rw l refl

  pub get_out-Used :
      (ino : ℕ) (sin : SfsInode) (s : Sfs D)
      → SfsInv s
      → Used s ino
      → get_out ino sin s ≡ ok (ret ino, sin, s)
  unfolding get_out
  get_out-Used ino sin s inv u =
      let z : (ino == 0) ≡ false = let n = u.0 in ground arith in
      rw z (assert_inuse-Used s ino _ inv u)

  module _ (s : Sfs D) (inv : SfsInv s) (sin : SfsInode) where
    pub indirect-Used : FileInv s sin.din → sin.din.indirect ≢ 0 → Used s sin.din.indirect
    indirect-Used f n = elim f.indirect [ inl e ↦ absurd (n e) | inr u ↦ u ]

    get_direct :
        (k : ℕ)
        → k < 12
        → Used s (sin.din.direct k)
        → sfs_bmap_get_nolock ops sin k false s ≡ ok (ret (sin.din.direct k), sin, s)
    unfolding sfs_bmap_get_nolock
    get_direct k lt u =
        let l : ltb k 12 ≡ true = ground arith in
        let z : (sin.din.direct k == 0) ≡ false = let n = u.0 in ground arith in
        rw (l, z) (get_out-Used (sin.din.direct k) sin s inv u)

    get_entry :
        (k : ℕ)
        → k < 1024
        → Used s sin.din.indirect
        → Used s (entry ops w s.dev sin.din.indirect k)
        → sfs_bmap_get_sub_nolock ops sin.din.indirect k false s
          ≡ ok (ret (sin.din.indirect, entry ops w s.dev sin.din.indirect k), s)
    unfolding sfs_bmap_get_sub_nolock
    get_entry k lt ui u =
        let l : ltb k 1024 ≡ true = ground arith in
        let z : (sin.din.indirect == 0) ≡ false = let n = ui.0 in ground arith in
        let e : (entry ops w s.dev sin.din.indirect k == 0) ≡ false = let n = u.0 in ground arith in
        rw (l, z, sfs_rbuf-entry ops w s inv sin.din.indirect k ui lt, e) refl

    get_indirect :
        (k : ℕ)
        → 12 ≤ k
        → k < max_blocks
        → Used s sin.din.indirect
        → Used s (entry ops w s.dev sin.din.indirect (k - 12))
        → sfs_bmap_get_nolock ops sin k false s
          ≡ ok (ret (entry ops w s.dev sin.din.indirect (k - 12)), sin, s)
    unfolding sfs_bmap_get_nolock
    get_indirect k le lt ui u =
        let l : ltb k 12 ≡ false = ground arith in
        let l' : ltb (k - 12) 1024 ≡ true = ground arith in
        let same : (sin.din.indirect == sin.din.indirect) ≡ true = ground arith in
        rw (l, l', get_entry (k - 12) (omega arith) ui u, same)
          (get_out-Used (entry ops w s.dev sin.din.indirect (k - 12)) sin s inv u)

    get_there :
        (k : ℕ)
        → FileInv s sin.din
        → k < sin.din.blocks
        → sfs_bmap_get_nolock ops sin k false s ≡ ok (ret (block_at s.dev sin.din k), sin, s)
    get_there k f lt =
        let max = f.max in
        elim (Bool-cases (ltb k 12)) [
          | inl e ↦
              let lo : k < 12 = ground arith in
              let same = block_at-direct s.dev sin.din k lo in
              rw same (get_direct k lo (rw same at (f.used k lt)))
          | inr e ↦
              let le : 12 ≤ k = ground arith in
              let same = block_at-entry s.dev sin.din k le in
              rw same (
                get_indirect k le (omega arith) (indirect-Used f (f.indirect_needed (omega arith)))
                  (rw same at (f.used k lt)))
        ]

    -- A block of the file is found by the map, and nothing changes.
    pub sfs_bmap_load_nolock_lem :
        (k : ℕ)
        → FileInv s sin.din
        → k < sin.din.blocks
        → sfs_bmap_load_nolock ops sin k s ≡ ok (ret (block_at s.dev sin.din k), sin, s)
    unfolding sfs_bmap_load_nolock
    sfs_bmap_load_nolock_lem k f lt =
        let le : leb k sin.din.blocks ≡ true = ground arith in
        let ne : (k == sin.din.blocks) ≡ false = ground arith in
        rw (le, ne, get_there k f lt)
          (assert_inuse-Used s (block_at s.dev sin.din k) _ inv (f.used k lt) ∙ rw ne refl)

-- Asking for the block at an index from 1036 on, which is at most the number of blocks of the file,
-- stops the kernel, on any device.
pub sfs_bmap_load_nolock-panics :
    {D : Type 0} (ops : Device D) (sin : SfsInode) (s : Sfs D) (k : ℕ)
    → max_blocks ≤ k
    → k ≤ sin.din.blocks
    → sfs_bmap_load_nolock ops sin k s ≡ panic
unfolding sfs_bmap_load_nolock sfs_bmap_get_nolock
sfs_bmap_load_nolock-panics ops sin s k lo hi =
    let a : leb k sin.din.blocks ≡ true = ground arith in
    let b : ltb k 12 ≡ false = ground arith in
    let c : ltb (k - 12) 1024 ≡ false = ground arith in rw (a, b, c) refl
