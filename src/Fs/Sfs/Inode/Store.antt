-- ===== src/Fs/Sfs/Inode/Store.antt =====
-- Writing an inode of kern/fs/sfs/sfs_inode.c to the disk, and reading it back.
use os_qemu.Prelude.{
  ℕ, ◌+◌, ◌-◌, ◌*◌, ◌/◌, ◌%◌, ◌^◌, ◌<◌, ◌≡◌, ◌≢◌, refl, ◌∙◌, ◌==◌, ltb, leb, true, false, ◌&&◌,
  none, arith,
}
use os_qemu.Prelude.Errors.{ok}
use os_qemu.Fs.Sfs.{Block, Device, bytes_of, overlay, sfs_wbuf}
use os_qemu.Fs.Sfs.Bmap.{DiskInode}
use os_qemu.Fs.Sfs.Disk.{Works, SfsInv, Used, SfsInv-dev, read_block_lem, write_block_lem}
use os_qemu.Fs.Sfs.Entry.{word_of-eq, word_of-bytes_of}
use os_qemu.Fs.Sfs.Inode.{
  Cache, half_of, din_of, bytes_of_din, inode_size, with_sin, with_sfs, sfs_fsync,
}

-- The fields hold what they are wide enough for.
pub record InBounds (d : DiskInode) : Type 0 where
  pub size : d.size < 2 ^ 32
  pub kind : d.kind < 2 ^ 16
  pub nlinks : d.nlinks < 2 ^ 16
  pub blocks : d.blocks < 2 ^ 32
  pub direct : (k : ℕ) → k < 12 → d.direct k < 2 ^ 32
  pub indirect : d.indirect < 2 ^ 32

-- The same inode: it has twelve direct blocks.
pub record SameDin (d e : DiskInode) : Type 0 where
  pub size : d.size ≡ e.size
  pub kind : d.kind ≡ e.kind
  pub nlinks : d.nlinks ≡ e.nlinks
  pub blocks : d.blocks ≡ e.blocks
  pub direct : (k : ℕ) → k < 12 → d.direct k ≡ e.direct k
  pub indirect : d.indirect ≡ e.indirect

half_of-bytes_of : (w : ℕ) → w < 2 ^ 16 → half_of (bytes_of w) ≡ w
half_of-bytes_of w h = omega arith

half_of-eq : (b c : Block) → b 0 ≡ c 0 → b 1 ≡ c 1 → half_of b ≡ half_of c
half_of-eq b c e₀ e₁ = rw (e₀, e₁) refl

module _ (d : DiskInode) (b : Block) (e : (i : ℕ) → i < 64 → b i ≡ bytes_of_din d i) where
  bytes-direct : (k j : ℕ) → k < 12 → j < 4 → b (12 + 4 * k + j) ≡ bytes_of (d.direct k) j
  unfolding bytes_of_din
  bytes-direct k j h h' =
      let i = 12 + 4 * k + j in
      let t₁ : ltb i 4 ≡ false = ground arith in
      let t₂ : ltb i 6 ≡ false = ground arith in
      let t₃ : ltb i 8 ≡ false = ground arith in
      let t₄ : ltb i 12 ≡ false = ground arith in
      let t₅ : ltb i 60 ≡ true = ground arith in
      let q : (i - 12) / 4 ≡ k = omega arith in
      let r : (i - 12) % 4 ≡ j = omega arith in
      e i (omega arith) ∙ rw (t₁, t₂, t₃, t₄, t₅, q, r) refl

  pub din_of-bytes_of_din : InBounds d → SameDin (din_of b) d
  unfolding din_of bytes_of_din
  din_of-bytes_of_din h = record {
    size =
        word_of-eq b (bytes_of d.size) (e 0 (omega arith)) (e 1 (omega arith)) (e 2 (omega arith))
          (e 3 (omega arith))
        ∙ word_of-bytes_of d.size h.size;
    kind =
        half_of-eq (λ i. b (4 + i)) (bytes_of d.kind) (e 4 (omega arith)) (e 5 (omega arith))
        ∙ half_of-bytes_of d.kind h.kind;
    nlinks =
        half_of-eq (λ i. b (6 + i)) (bytes_of d.nlinks) (e 6 (omega arith)) (e 7 (omega arith))
        ∙ half_of-bytes_of d.nlinks h.nlinks;
    blocks =
        word_of-eq (λ i. b (8 + i)) (bytes_of d.blocks) (e 8 (omega arith)) (e 9 (omega arith))
          (e 10 (omega arith)) (e 11 (omega arith))
        ∙ word_of-bytes_of d.blocks h.blocks;
    direct = λ k lt.
        word_of-eq (λ i. b (12 + 4 * k + i)) (bytes_of (d.direct k))
          (bytes-direct k 0 lt (omega arith)) (bytes-direct k 1 lt (omega arith))
          (bytes-direct k 2 lt (omega arith)) (bytes-direct k 3 lt (omega arith))
        ∙ word_of-bytes_of (d.direct k) (h.direct k lt);
    indirect =
        word_of-eq (λ i. b (60 + i)) (bytes_of d.indirect) (e 60 (omega arith)) (e 61 (omega arith))
          (e 62 (omega arith)) (e 63 (omega arith))
        ∙ word_of-bytes_of d.indirect h.indirect;
  }

module _ {D : Type 0} (ops : Device D) (w : Works ops) where
  -- What writing an inode leaves: it is clean, the disk holds it, and nothing else is different.
  pub record Stored (c : Cache D) (node : ℕ) (c' : Cache D) : Type 0 where
    pub clean : (c'.sin node).dirty ≡ false
    pub kept : (c'.sin node).din ≡ (c.sin node).din
    pub held :
        SameDin (din_of (λ i. w.content c'.sfs.dev (c.sin node).ino (0 + i))) (c.sin node).din
    pub other_blocks :
        (n : ℕ) → n ≢ (c.sin node).ino → w.content c'.sfs.dev n ≡ w.content c.sfs.dev n
    pub other_inodes : (x : ℕ) → x ≢ node → c'.sin x ≡ c.sin x
    pub inv : SfsInv c'.sfs

  -- On a disk that works, writing a dirty inode succeeds: the bytes on the disk are the inode again when
  -- they are read, the inode is clean, and the other blocks and inodes stay as they are. The fields of
  -- the inode hold what they are wide enough for.
  pub sfs_fsync-Stored :
      (c : Cache D) (node : ℕ)
      → SfsInv c.sfs
      → Used c.sfs (c.sin node).ino
      → InBounds (c.sin node).din
      → (c.sin node).dirty ≡ true
      → (c' : Cache D) × (sfs_fsync ops node c ≡ ok (none, c')) × Stored c node c'
  unfolding sfs_fsync sfs_wbuf
  sfs_fsync-Stored c node inv u h dirty =
      let sin = c.sin node in
      let b = overlay (bytes_of_din sin.din) inode_size 0 (w.content c.sfs.dev sin.ino) in
      let dev = w.stored c.sfs.dev sin.ino b in
      let at : (i : ℕ) → i < 64 → w.content dev sin.ino (0 + i) ≡ bytes_of_din sin.din i = λ i lt.
        let z : 0 + i ≡ i = omega arith in
        let lo : (leb 0 i && ltb i (0 + 64)) ≡ true = ground arith in
        let s : i - 0 ≡ i = omega arith in
        rw z (w.content-stored sin.ino i b c.sfs.dev (omega arith) ∙ rw (lo, s) refl) in
      let self : (node == node) ≡ true = ground arith in
      (
        with_sin node (record sin { dirty = false }) (with_sfs c (record (c.sfs) { dev = dev })),
        rw
            (
              dirty,
              read_block_lem ops w c.sfs sin.ino inv u.0 u.1,
              write_block_lem ops w c.sfs sin.ino b inv.few u.0 u.1,
            )
            refl,
        record {
          clean = rw self refl;
          kept = rw self refl;
          held = din_of-bytes_of_din sin.din (λ i. w.content dev sin.ino (0 + i)) at h;
          other_blocks = λ n ne. w.content-stored_other sin.ino n b c.sfs.dev ne;
          other_inodes = λ x ne. let q : (x == node) ≡ false = ground arith in rw q refl;
          inv = SfsInv-dev c.sfs dev inv;
        },
      )
