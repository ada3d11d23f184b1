-- ===== src/Fs/Sfs/ReadCall.antt =====
-- A whole call of `sfs_io_nolock` of kern/fs/sfs/sfs_inode.c that reads, over a disk that works.
use os_qemu.Prelude.{
  ℕ, ◌+◌, ◌-◌, ◌*◌, ◌/◌, ◌%◌, ◌^◌, ◌≤◌, ◌<◌, ◌≡◌, ◌≢◌, ◌⊎◌, inl, inr, refl, ◌∙◌, ap, ◌==◌, ltb, leb,
  true, false, ◌&&◌, if◌then◌else◌, none, arith,
}
use os_qemu.Prelude.Errors.{ok, ◌>>=◌}
use os_qemu.Libs.Mem.{Memory}
use os_qemu.Fs.Sfs.{blksize, Device, Sfs, overlay}
use os_qemu.Fs.Sfs.Bmap.{SfsInode, max_file_size}
use os_qemu.Fs.Sfs.Disk.{Works, SfsInv}
use os_qemu.Fs.Sfs.Chain.{FileInv}
use os_qemu.Fs.Sfs.Io.{IoState, io_ops, io_parts, io_out, sfs_io_nolock}
use os_qemu.Fs.Sfs.Read.{byte_at, nothing}
use os_qemu.Fs.Sfs.ReadFile.{before_last, read_memory, io_parts-reads}

module _ {D : Type 0} (ops : Device D) (w : Works ops) (s : Sfs D) (sin : SfsInode)
    (offset len buf : ℕ) (m : Memory) where
  -- Where the read ends.
  abbrev pub end_of : ℕ
  end_of = if ltb sin.din.size (offset + len) then sin.din.size else offset + len

  abbrev st : Memory → IoState D
  st m' = record { memory = m'; sin = sin; sfs = s }

  -- The read stays in one block, or ends with one.
  abbrev pub InPlace : Type 0
  InPlace = (end_of / blksize ≡ offset / blksize) ⊎ (end_of % blksize ≡ 0)

  -- What is read in place.
  abbrev pub ReadInPlace : Type 0
  ReadInPlace =
      sfs_io_nolock ops buf offset len false (st m)
      ≡ ok (
        none,
        end_of - offset,
        st (overlay (λ i. byte_at ops w s.dev sin.din (offset + i)) (end_of - offset) buf m),
      )

  -- What is read out of place.
  abbrev pub ReadMisplaced : Type 0
  ReadMisplaced =
      (m' : Memory) × (sfs_io_nolock ops buf offset len false (st m)
        ≡ ok (none, end_of - offset, st m'))
      × ((i : ℕ)
          → i < end_of % blksize
          → m' (buf + 2 * before_last offset end_of + i)
            ≡ byte_at ops w s.dev sin.din (offset + before_last offset end_of + i))
      × ((i : ℕ)
          → before_last offset end_of ≤ i
          → i < 2 * before_last offset end_of
          → m' (buf + i) ≡ m (buf + i))

module _ {D : Type 0} (ops : Device D) (w : Works ops) (s : Sfs D) (sin : SfsInode) (inv : SfsInv s)
    (f : FileInv ops w s sin.din) (file : sin.din.kind ≢ 2)
    (covered : sin.din.size ≤ sin.din.blocks * blksize) (offset len buf : ℕ) (m : Memory)
    (inside : offset < sin.din.size) (nonzero : len ≢ 0) (short : len < 2 ^ 32) where
  abbrev end_at : ℕ
  end_at = end_of ops w s sin offset len buf m

  abbrev start : Memory → IoState D
  start = st ops w s sin offset len buf m

  small : sin.din.size ≤ 4243456
  small = let max = f.max in omega arith

  ends : (offset < end_at) × (end_at ≤ sin.din.size)
  ends = ground arith

  parts :
      sfs_io_nolock ops buf offset len false (start m)
      ≡ (io_parts (io_ops ops false) offset end_at buf (start m) >>= (λ r. ok (io_out offset r)))
  unfolding sfs_io_nolock
  parts =
      let sm = small in
      let sum : (offset + len) % 2 ^ 64 ≡ offset + len = omega arith in
      let file' : (sin.din.kind == 2) ≡ false = ground arith in
      let c₁ : leb max_file_size offset ≡ false = ground arith in
      let c₂ : leb (2 ^ 63) (offset + len) ≡ false = ground arith in
      let c₃ : ltb (offset + len) offset ≡ false = ground arith in
      let c₄ : (offset == offset + len) ≡ false = ground arith in
      let c₅ : leb sin.din.size offset ≡ false = ground arith in
      let cut : (if ltb sin.din.size
              (if ltb max_file_size (offset + len) then max_file_size else offset + len)
            then sin.din.size
            else (if ltb max_file_size (offset + len) then max_file_size else offset + len))
          ≡ end_at =
        ground arith in
      rw (sum, file', c₁, c₂, c₃, c₄, c₅, cut) refl

  no_growth :
      (m' : Memory)
      → io_out offset (none, end_at - offset, start m') ≡ (none, end_at - offset, start m')
  unfolding io_out
  no_growth m' =
      let (lo, hi) = ends in
      let e : ltb sin.din.size (offset + (end_at - offset)) ≡ false = ground arith in rw e refl

  call :
      sfs_io_nolock ops buf offset len false (start m)
      ≡ ok (none, end_at - offset, start (read_memory ops w s.dev sin.din offset end_at buf m))
  call =
      let (lo, hi) = ends in
      parts
      ∙ rw (io_parts-reads ops w s sin inv f offset end_at buf m lo (omega arith))
          (ap (λ r. ok r) (no_growth (read_memory ops w s.dev sin.din offset end_at buf m)))

  in_place :
      InPlace ops w s sin offset len buf m
      → read_memory ops w s.dev sin.din offset end_at buf m
        ≡ overlay (λ i. byte_at ops w s.dev sin.din (offset + i)) (end_at - offset) buf m
  in_place (inl same) =
      let d : before_last offset end_at ≡ 0 = omega arith in
      let o : offset + 0 ≡ offset = omega arith in
      let b : buf + 0 + 0 ≡ buf = omega arith in
      let l : end_at - offset - 0 ≡ end_at - offset = omega arith in
      rw
        (
          d,
          o,
          b,
          l,
          nothing ops w s sin inv f (λ i. byte_at ops w s.dev sin.din (offset + i)) buf m,
        )
        refl
  in_place (inr z) =
      let (lo, hi) = ends in
      let d : before_last offset end_at ≡ end_at - offset = omega arith in
      let l : end_at - offset - (end_at - offset) ≡ 0 = omega arith in
      rw (d, l)
        (nothing ops w s sin inv f
          (λ i. byte_at ops w s.dev sin.din (offset + (end_at - offset) + i))
          (buf + (end_at - offset) + (end_at - offset))
          (overlay (λ i. byte_at ops w s.dev sin.din (offset + i)) (end_at - offset) buf m))

  -- A read from a position inside a file in order, on a disk that works, that stays in one block or
  -- ends with one, returns no error and the number of bytes up to the length asked for or the end of
  -- the file: just these bytes of the file stand in the buffer in their order, no other memory changes,
  -- and the inode and the file system stay.
  pub sfs_io_nolock-reads :
      InPlace ops w s sin offset len buf m → ReadInPlace ops w s sin offset len buf m
  sfs_io_nolock-reads p = call ∙ ap (λ m'. ok (none, end_at - offset, start m')) (in_place p)

  -- A read inside a file that goes over the end of a block and does not end with one returns no error
  -- and the number of bytes too. But the bytes of the last block are put behind the place in the
  -- buffer where they belong, further by the number of those that came before them, and the memory
  -- from where they belong up to there stays as it was.
  pub sfs_io_nolock-misplaced :
      offset / blksize < end_at / blksize
      → end_at % blksize ≢ 0
      → ReadMisplaced ops w s sin offset len buf m
  sfs_io_nolock-misplaced over n =
      let done = before_last offset end_at in
      let byte = byte_at ops w s.dev sin.din in
      let tail : end_at - offset - done ≡ end_at % blksize = omega arith in
      let front = overlay (λ i. byte (offset + i)) done buf m in
      (
        read_memory ops w s.dev sin.din offset end_at buf m,
        call,
        λ i h.
            let x = buf + 2 * done + i in
            let t : (leb (buf + done + done) x
                  && ltb x (buf + done + done + (end_at - offset - done)))
                ≡ true =
              ground arith in
            let q : x - (buf + done + done) ≡ i = omega arith in rw (t, q) refl,
        λ i h h'.
            let x = buf + i in
            let t : (leb (buf + done + done) x
                  && ltb x (buf + done + done + (end_at - offset - done)))
                ≡ false =
              ground arith in
            let t' : (leb buf x && ltb x (buf + done)) ≡ false = ground arith in rw (t, t') refl,
      )
