-- ===== src/Fs/Sfs/ReadFile.antt =====
-- `sfs_io_nolock` of kern/fs/sfs/sfs_inode.c for reading: where the bytes of the file come to stand.
use os_qemu.Prelude.{
  ℕ, ◌+◌, ◌-◌, ◌*◌, ◌/◌, ◌%◌, ◌≤◌, ◌<◌, ◌≡◌, ◌≢◌, refl, sym, ◌∙◌, ap, ◌==◌, true, false, none,
  arith, ℕ_discrete,
}
use os_qemu.Prelude.Errors.{ok}
use os_qemu.Libs.Mem.{Memory}
use os_qemu.Fs.Sfs.{blksize, Device, Sfs, overlay}
use os_qemu.Fs.Sfs.Bmap.{DiskInode, SfsInode}
use os_qemu.Fs.Sfs.Disk.{Works, SfsInv}
use os_qemu.Fs.Sfs.Chain.{FileInv}
use os_qemu.Fs.Sfs.Io.{IoState, io_ops, io_blocks, io_parts}
use os_qemu.Fs.Sfs.Read.{
  byte_at, overlay-overlay, at, block, load_at, rbuf_at, last_at, blocks_at, agree, nothing, in_one,
}

-- The bytes of a read that come before its last part, if that is not the only one.
abbrev pub before_last : ℕ → ℕ → ℕ
before_last offset endpos = endpos / blksize * blksize - offset

module _ {D : Type 0} (ops : Device D) (w : Works ops) where
  -- The memory behind a read of `offset` to `endpos`: the last part stands further on than it should,
  -- by the length of the parts before it.
  abbrev pub read_memory : D → DiskInode → ℕ → ℕ → ℕ → Memory → Memory
  read_memory d din offset endpos buf m =
      let done = before_last offset endpos in
      overlay (λ i. byte_at ops w d din (offset + done + i)) (endpos - offset - done)
        (buf + done + done) (overlay (λ i. byte_at ops w d din (offset + i)) done buf m)

  module _ (s : Sfs D) (sin : SfsInode) (inv : SfsInv s) (f : FileInv ops w s sin.din) where
    abbrev st : Memory → IoState D
    st = at ops w s sin inv f

    abbrev byte : ℕ → ℕ
    byte = byte_at ops w s.dev sin.din

    module _ (offset endpos buf : ℕ) (m : Memory) (order : offset < endpos)
        (there : endpos ≤ sin.din.blocks * blksize) where
      abbrev k : ℕ
      k = offset / blksize

      abbrev n : ℕ
      n = endpos / blksize - offset / blksize

      abbrev done : ℕ
      done = before_last offset endpos

      abbrev ReadDone : Type 0
      ReadDone =
          io_parts (io_ops ops false) offset endpos buf (st m)
          ≡ ok (none, endpos - offset, st (read_memory s.dev sin.din offset endpos buf m))

      -- The second and third part together, with `first` bytes done.
      rest_at :
          (first nblks b : ℕ) (m' : Memory)
          → b * blksize ≡ offset + first
          → b + nblks ≡ endpos / blksize
          → first + nblks * blksize ≡ done
          → m' ≡ overlay (λ i. byte (offset + i)) first buf m
          → io_blocks (io_ops ops false) nblks (endpos % blksize) b (buf + first) first (st m')
            ≡ ok (none, endpos - offset, st (read_memory s.dev sin.din offset endpos buf m))
      rest_at first nblks b m' e₁ e₂ e₃ e₄ =
          let r = endpos % blksize in
          let whole = overlay (λ i. byte (offset + i)) done buf m in
          let sum : first + nblks * blksize + r ≡ endpos - offset = omega arith in
          let place : buf + first + nblks * blksize + (first + nblks * blksize)
              ≡ buf + done + done =
            omega arith in
          let size : endpos - offset - done ≡ r = omega arith in
          let joined =
            overlay-overlay (λ i. byte (offset + i)) (λ i. byte (b * blksize + i)) first
              (nblks * blksize) done buf m (λ i. ap byte (omega arith)) e₃ in
          blocks_at ops w s sin inv f nblks r b (buf + first) first m' (omega arith) (omega arith)
          ∙ last_at ops w s sin inv f
              (overlay (λ i. byte (b * blksize + i)) (nblks * blksize) (buf + first) m') r
              (b + nblks) (buf + first + nblks * blksize) (first + nblks * blksize) (omega arith)
              (omega arith)
          ∙ rw (sum, place, size, e₄)
              (rw joined (
                ap (λ a. ok (none, endpos - offset, st a))
                  (agree ops w s sin inv f (λ i. byte ((b + nblks) * blksize + i))
                    (λ i. byte (offset + done + i)) r (buf + done + done) whole
                    (λ i h. ap byte (omega arith)))))

      aligned : offset % blksize ≡ 0 → ReadDone
      unfolding io_parts
      aligned z =
          let e : (offset % blksize == 0) ≡ true = ground arith in
          let b : buf + 0 ≡ buf = omega arith in
          rw e (
            ap (λ (p : ℕ). io_blocks (io_ops ops false) n (endpos % blksize) k p 0 (st m)) (sym b)
            ∙ rest_at 0 n k m (omega arith) (omega arith) (omega arith)
                (sym (nothing ops w s sin inv f (λ i. byte (offset + i)) buf m)))

      first_part :
          (len : ℕ)
          → offset % blksize + len ≤ blksize
          → overlay
              (λ i. w.content s.dev (block ops w s sin inv f k) (offset % blksize + i))
              len
              buf
              m
            ≡ overlay (λ i. byte (offset + i)) len buf m
      first_part len le =
          agree ops w s sin inv f
            (λ i. w.content s.dev (block ops w s sin inv f k) (offset % blksize + i))
            (λ i. byte (offset + i)) len buf m
            (λ i h.
              in_one ops w s sin inv f k (offset % blksize + i) (omega arith)
              ∙ ap byte (omega arith))

      one_block : offset % blksize ≢ 0 → n ≡ 0 → ReadDone
      unfolding io_parts
      one_block z z' =
          let e : (offset % blksize == 0) ≡ false = ground arith in
          let e' : (n == 0) ≡ true = ground arith in
          let d : done ≡ 0 = omega arith in
          let o : offset + 0 ≡ offset = omega arith in
          let b : buf + 0 + 0 ≡ buf = omega arith in
          let l : endpos - offset - 0 ≡ endpos - offset = omega arith in
          rw (e, load_at ops w s sin inv f m k (omega arith), e')
            (rw
              (
                rbuf_at ops w s sin inv f m buf (endpos - offset) k (offset % blksize) (omega arith)
                    (omega arith) (omega arith),
                e',
              )
              (ap (λ a. ok (none, endpos - offset, st a))
                (first_part (endpos - offset) (omega arith)
                  ∙ rw (d, o, b, l, nothing ops w s sin inv f (λ i. byte (offset + i)) buf m)
                      refl)))

      several_blocks : offset % blksize ≢ 0 → n ≢ 0 → ReadDone
      unfolding io_parts
      several_blocks z z' =
          let e : (offset % blksize == 0) ≡ false = ground arith in
          let e' : (n == 0) ≡ false = ground arith in
          let first = blksize - offset % blksize in
          rw (e, load_at ops w s sin inv f m k (omega arith), e')
            (rw
              (
                rbuf_at ops w s sin inv f m buf first k (offset % blksize) (omega arith)
                    (omega arith) (omega arith),
                e',
              )
              (rest_at first (n - 1) (k + 1)
                (overlay (λ i. w.content s.dev (block ops w s sin inv f k) (offset % blksize + i))
                  first buf m)
                (omega arith) (omega arith) (omega arith) (first_part first (omega arith))))

      pub io_parts-reads : ReadDone
      io_parts-reads = elim (ℕ_discrete (offset % blksize) 0) [
        | yes z ↦ aligned z
        | no z ↦ elim (ℕ_discrete n 0) [ yes z' ↦ one_block z z' | no z' ↦ several_blocks z z' ]
      ]
