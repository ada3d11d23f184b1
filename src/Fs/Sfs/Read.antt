-- ===== src/Fs/Sfs/Read.antt =====
-- What `sfs_io_nolock` of kern/fs/sfs/sfs_inode.c reads, over a disk that works.
use os_qemu.Prelude.{
  ℕ, zero, suc, ◌+◌, ◌-◌, ◌*◌, ◌/◌, ◌%◌, ◌≤◌, ◌<◌, ◌≡◌, inl, inr, refl, sym, ◌∙◌, ap, ap₂, fun_ext,
  ◌==◌, ltb, leb, true, false, ◌&&◌, none, arith, ℕ_discrete, Bool-cases,
}
use os_qemu.Prelude.Errors.{ok}
use os_qemu.Libs.Mem.{Memory}
use os_qemu.Fs.Vfs.{ret}
use os_qemu.Fs.Sfs.{blksize, Device, Sfs, overlay, in_block, sfs_rbuf}
use os_qemu.Fs.Sfs.Bmap.{DiskInode, SfsInode}
use os_qemu.Fs.Sfs.Disk.{Works, SfsInv, read_block_lem}
use os_qemu.Fs.Sfs.Chain.{block_at, FileInv, sfs_bmap_load_nolock_lem}
use os_qemu.Fs.Sfs.Io.{IoState, IoOps, load_block, rbuf_to, rblock_to, io_ops, io_last, io_blocks}

-- Two reads that follow each other are one.
pub overlay-overlay :
    (f g : ℕ → ℕ) (a b c p : ℕ) (m : Memory)
    → ((i : ℕ) → g i ≡ f (a + i))
    → a + b ≡ c
    → overlay g b (p + a) (overlay f a p m) ≡ overlay f c p m
overlay-overlay f g a b c p m h e = fun_ext (λ x. at x)
  where
    at : (x : ℕ) → overlay g b (p + a) (overlay f a p m) x ≡ overlay f c p m x
    at x =
        let q = h (x - (p + a)) in
        elim (Bool-cases (leb (p + a) x)) [
          | inl le ↦
              let s : a + (x - (p + a)) ≡ x - p = ground arith in
              let r : g (x - (p + a)) ≡ f (x - p) = q ∙ ap f s in ground (arith, r)
          | inr gt ↦ ground arith
        ]

module _ {D : Type 0} (ops : Device D) (w : Works ops) where
  -- The byte of a file at a position.
  abbrev pub byte_at : D → DiskInode → ℕ → ℕ
  byte_at d din p = w.content d (block_at ops w d din (p / blksize)) (p % blksize)

  module _ (s : Sfs D) (sin : SfsInode) (inv : SfsInv s) (f : FileInv ops w s sin.din) where
    abbrev pub io : IoOps (IoState D)
    io = io_ops ops false

    abbrev pub at : Memory → IoState D
    at m = record { memory = m; sin = sin; sfs = s }

    abbrev pub block : ℕ → ℕ
    block k = block_at ops w s.dev sin.din k

    pub load_at :
        (m : Memory) (k : ℕ)
        → k < sin.din.blocks
        → load_block ops k (at m) ≡ ok (ret (block k), at m)
    unfolding load_block
    load_at m k lt = rw (sfs_bmap_load_nolock_lem ops w s inv sin k f lt) refl

    pub rbuf_at :
        (m : Memory) (buf len k offset : ℕ)
        → k < sin.din.blocks
        → offset < blksize
        → offset + len ≤ blksize
        → rbuf_to ops buf len (block k) offset (at m)
          ≡ ok (none, at (overlay (λ i. w.content s.dev (block k) (offset + i)) len buf m))
    unfolding rbuf_to sfs_rbuf
    rbuf_at m buf len k offset lt lo hi =
        let fit : in_block offset len ≡ true = ground arith in
        let u = f.used k lt in rw (fit, read_block_lem ops w s (block k) inv u.0 u.1) refl

    rblock_at :
        (m : Memory) (buf k : ℕ)
        → k < sin.din.blocks
        → rblock_to ops buf (block k) (at m)
          ≡ ok (none, at (overlay (w.content s.dev (block k)) blksize buf m))
    unfolding rblock_to
    rblock_at m buf k lt =
        let u = f.used k lt in rw (read_block_lem ops w s (block k) inv u.0 u.1) refl

    abbrev pub byte : ℕ → ℕ
    byte = byte_at s.dev sin.din

    pub agree :
        (g h : ℕ → ℕ) (n p : ℕ) (m : Memory)
        → ((i : ℕ) → i < n → g i ≡ h i)
        → overlay g n p m ≡ overlay h n p m
    agree g h n p m e = fun_ext (λ x. elim (Bool-cases (leb p x && ltb x (p + n))) [
      | inl t ↦ rw t (e (x - p) (ground arith))
      | inr t ↦ rw t refl
    ])

    pub nothing : (g : ℕ → ℕ) (p : ℕ) (m : Memory) → overlay g 0 p m ≡ m
    nothing g p m = fun_ext (λ x. ground arith)

    pub in_one : (k i : ℕ) → i < blksize → w.content s.dev (block k) i ≡ byte (k * blksize + i)
    in_one k i lt =
        let q : (k * blksize + i) / blksize ≡ k = omega arith in
        let r : (k * blksize + i) % blksize ≡ i = omega arith in
        sym (ap₂ (λ (a b : ℕ). w.content s.dev (block a) b) q r)

    pub last_at :
        (m : Memory) (rest k buf alen : ℕ)
        → rest < blksize
        → k * blksize + rest ≤ sin.din.blocks * blksize
        → io_last io rest k buf alen (at m)
          ≡ ok (none, alen + rest, at (overlay (λ i. byte (k * blksize + i)) rest (buf + alen) m))
    unfolding io_last
    last_at m rest k buf alen lt le = elim (ℕ_discrete rest 0) [
      | yes z ↦
          let e : (rest == 0) ≡ true = ground arith in
          let a : alen + 0 ≡ alen = omega arith in
          rw (z, a) (rw (nothing (λ i. byte (k * blksize + i)) (buf + alen) m) refl)
      | no n ↦
          let e : (rest == 0) ≡ false = ground arith in
          let there : k < sin.din.blocks = omega arith in
          rw (e, load_at m k there)
            (rw (rbuf_at m (buf + alen) rest k 0 there (omega arith) (omega arith)) (
              ap (λ a. ok (none, alen + rest, at a))
                (agree (λ i. w.content s.dev (block k) (0 + i)) (λ i. byte (k * blksize + i)) rest
                  (buf + alen) m
                  (λ i h. let z : 0 + i ≡ i = omega arith in rw z (in_one k i (omega arith))))))
    ]

    pub blocks_at :
        (n rest k buf alen : ℕ) (m : Memory)
        → rest < blksize
        → (k + n) * blksize + rest ≤ sin.din.blocks * blksize
        → io_blocks io n rest k buf alen (at m)
          ≡ io_last io rest
              (k + n)
              (buf + n * blksize)
              (alen + n * blksize)
              (at (overlay (λ i. byte (k * blksize + i)) (n * blksize) buf m))
    unfolding io_blocks
    blocks_at zero rest k buf alen m lt le =
        let e₁ : k + 0 ≡ k = omega arith in
        let e₂ : buf + 0 * blksize ≡ buf = omega arith in
        let e₃ : alen + 0 * blksize ≡ alen = omega arith in
        rw (e₁, e₂, e₃) (rw (nothing (λ i. byte (k * blksize + i)) buf m) refl)
    blocks_at (suc n) rest k buf alen m lt le =
        let there : k < sin.din.blocks = omega arith in
        let e₁ : k + suc n ≡ k + 1 + n = omega arith in
        let e₂ : buf + suc n * blksize ≡ buf + blksize + n * blksize = omega arith in
        let e₃ : alen + suc n * blksize ≡ alen + blksize + n * blksize = omega arith in
        let one =
          agree (w.content s.dev (block k)) (λ i. byte (k * blksize + i)) blksize buf m
            (λ i h. in_one k i h) in
        let two =
          overlay-overlay (λ i. byte (k * blksize + i)) (λ i. byte ((k + 1) * blksize + i)) blksize
            (n * blksize) (suc n * blksize) buf m (λ i. ap byte (omega arith)) (omega arith) in
        rw (load_at m k there) (
          rw (rblock_at m buf k there) (
            blocks_at n rest (k + 1) (buf + blksize) (alen + blksize)
              (overlay (w.content s.dev (block k)) blksize buf m) lt (omega arith)
            ∙ rw (e₁, e₂, e₃, one, two) refl))
