-- ===== src/Fs/File/Transfer.antt =====
-- `file_read` and `file_write` of kern/fs/file.c on a whole table.
use os_qemu.Prelude.{
  ℕ, ◌+◌, ◌-◌, ◌%◌, ◌^◌, ◌<◌, ◌≡◌, ◌≢◌, inl, inr, refl, sym, subst, ◌∙◌, Bool, Bool-cases, true,
  false, Option, some, arith,
}
use os_qemu.Prelude.Int.{pos}
use os_qemu.Prelude.Errors.{Error, Result, ok, err, panic}
use os_qemu.Fs.Iobuf.{Iobuf, iobuf_init, iobuf_used}
use os_qemu.Fs.Vfs.{Vfs, Vops, inode_check, vop_op}
use os_qemu.Fs.File.{fd_opened, File, Fs, nentry, set, fd2file, fd_array_acquire, fd_array_release}
use os_qemu.Fs.File.Calls.{advance, transfer, transfer_held, file_read, file_write}
use os_qemu.Fs.File.Table.{TableInv}
use os_qemu.Fs.File.Close.{fd2file-opened, held_once, TableInv-set}

abbrev pub acquired : {D : Type 0} → ℕ → Fs D → Fs D
acquired i s = set s i (record (s.fd_array i) { opens = (s.fd_array i).opens + 1 })

abbrev pub released : {D : Type 0} → ℕ → Fs D → Fs D
released i s = set s i (record (s.fd_array i) { opens = (s.fd_array i).opens - 1 })

module _ {D : Type 0} (i : ℕ) (s : Fs D) (opened : (s.fd_array i).status ≡ fd_opened) where
  pub acquire-opened : fd_array_acquire i s ≡ ok (acquired i s)
  unfolding fd_array_acquire
  acquire-opened = ground arith

  pub acquired_entry :
      (((acquired i s).fd_array i).status ≡ fd_opened)
      × (((acquired i s).fd_array i).opens ≡ (s.fd_array i).opens + 1)
      × (((acquired i s).fd_array i).fd ≡ (s.fd_array i).fd)
      × (((acquired i s).fd_array i).node ≡ (s.fd_array i).node)
      × (((acquired i s).fd_array i).offset ≡ (s.fd_array i).offset)
  acquired_entry = ground arith

  pub release-held :
      (ops : Vops D) → (s.fd_array i).opens ≡ 2 → fd_array_release ops i s ≡ ok (released i s)
  unfolding fd_array_release
  release-held ops e = ground arith

  pub released_entry :
      (((released i s).fd_array i).status ≡ fd_opened)
      × (((released i s).fd_array i).opens ≡ (s.fd_array i).opens - 1)
      × (((released i s).fd_array i).fd ≡ (s.fd_array i).fd)
      × (((released i s).fd_array i).node ≡ (s.fd_array i).node)
      × (((released i s).fd_array i).offset ≡ (s.fd_array i).offset)
  released_entry = ground arith

  pub advanced_entry :
      (n : ℕ)
      → (((advance i n s).fd_array i).status ≡ fd_opened)
        × (((advance i n s).fd_array i).opens ≡ (s.fd_array i).opens)
        × (((advance i n s).fd_array i).fd ≡ (s.fd_array i).fd)
        × (((advance i n s).fd_array i).node ≡ (s.fd_array i).node)
        × (((advance i n s).fd_array i).offset ≡ ((s.fd_array i).offset + n) % 2 ^ 64)
  advanced_entry n = ground arith

  pub advanced_other :
      (n j : ℕ)
      → j ≢ i
      → ((advance i n s).fd_array j ≡ s.fd_array j)
        × ((acquired i s).fd_array j ≡ s.fd_array j)
        × ((released i s).fd_array j ≡ s.fd_array j)
  advanced_other n j m = ground arith

  pub advanced_rest :
      (n : ℕ) → ((advance i n s).files_count ≡ s.files_count) × ((advance i n s).vfs ≡ s.vfs)
  advanced_rest n = ground arith

-- What an open file transfers, and the state that it leaves.
abbrev pub Transferred :
    {D : Type 0}
    → Fs D
    → ℕ
    → Option Error × Iobuf × Vfs D
    → Result (Option Error × ℕ × Fs D)
    → Type 0
Transferred {D} s i out r =
    (s' : Fs D) × (r ≡ ok (out.0, iobuf_used out.1, s'))
    × ((s'.fd_array i).offset ≡ ((s.fd_array i).offset + iobuf_used out.1) % 2 ^ 64)
    × ((s'.fd_array i).status ≡ fd_opened)
    × ((s'.fd_array i).node ≡ (s.fd_array i).node)
    × ((j : ℕ) → j ≢ i → s'.fd_array j ≡ s.fd_array j)
    × (s'.vfs ≡ out.2)
    × TableInv s'

-- What a transfer comes to by whether the inode passes its check and by what its operation comes to.
abbrev pub Through :
    {D : Type 0}
    → Fs D
    → ℕ
    → Bool
    → Result (Option Error × Iobuf × Vfs D)
    → Result (Option Error × ℕ × Fs D)
    → Type 0
Through s i false q r = r ≡ panic
Through s i true panic r = r ≡ panic
Through s i true (err e) r = r ≡ err e
Through s i true (ok out) r = Transferred s i out r

module _ {D : Type 0} (vop : ℕ → Iobuf → Vfs D → Result (Option Error × Iobuf × Vfs D))
    (ops : Vops D) (i base len : ℕ) where
  abbrev out : Fs D → Result (Option Error × Iobuf × Vfs D)
  out s = vop (s.fd_array i).node (iobuf_init base len (s.fd_array i).offset) s.vfs

  abbrev after : Option Error × Iobuf × Vfs D → Fs D → Fs D
  after x t = advance i (iobuf_used x.1) (record t { vfs = x.2 })

  transfer_held-unchecked :
      (t : Fs D)
      → inode_check (t.fd_array i).node t.vfs ≡ false
      → transfer_held vop ops base len i t ≡ panic
  unfolding transfer_held vop_op
  transfer_held-unchecked t c = rw c refl

  transfer_held-panic : (t : Fs D) → out t ≡ panic → transfer_held vop ops base len i t ≡ panic
  unfolding transfer_held vop_op
  transfer_held-panic t e = elim (Bool-cases (inode_check (t.fd_array i).node t.vfs)) [
    | inl c ↦ rw (c, e) refl
    | inr c ↦ rw c refl
  ]

  transfer_held-err :
      (t : Fs D) (x : Error)
      → inode_check (t.fd_array i).node t.vfs ≡ true
      → out t ≡ err x
      → transfer_held vop ops base len i t ≡ err x
  unfolding transfer_held vop_op
  transfer_held-err t x c e = rw (c, e) refl

  transfer_held-released :
      (t w : Fs D) (x : Option Error × Iobuf × Vfs D)
      → inode_check (t.fd_array i).node t.vfs ≡ true
      → out t ≡ ok x
      → fd_array_release ops i (after x t) ≡ ok w
      → transfer_held vop ops base len i t ≡ ok (x.0, iobuf_used x.1, w)
  unfolding transfer_held vop_op
  transfer_held-released t w x c e h = rw (c, e, h) refl

  transfer-opened :
      (allowed : File → Bool) (s t : Fs D)
      → fd2file (pos i) s ≡ ok (some i)
      → allowed (s.fd_array i) ≡ true
      → fd_array_acquire i s ≡ ok t
      → transfer vop allowed ops (pos i) base len s ≡ transfer_held vop ops base len i t
  unfolding transfer
  transfer-opened allowed s t f may e = rw (f, may, e) refl

  -- The transfer of a file that is held.
  held-Transferred :
      (s : Fs D) (x : Option Error × Iobuf × Vfs D)
      → TableInv s
      → i < nentry
      → (s.fd_array i).status ≡ fd_opened
      → inode_check ((acquired i s).fd_array i).node s.vfs ≡ true
      → out (acquired i s) ≡ ok x
      → Transferred s i x (transfer_held vop ops base len i (acquired i s))
  held-Transferred s x inv lt opened c same =
      let (o, n) = held_once s inv i lt opened in
      let t = acquired i s in
      let (a_st, a_op, a_fd, a_nd, a_of) = acquired_entry i s opened in
      let u : Fs D = record t { vfs = x.2 } in
      let k = iobuf_used x.1 in
      let (b_st, b_op, b_fd, b_nd, b_of) = advanced_entry i u a_st k in
      let (rest, vfs) = advanced_rest i u a_st k in
      let w = released i (after x t) in
      let (c_st, c_op, c_fd, c_nd, c_of) = released_entry i (after x t) b_st in
      let run =
        transfer_held-released t w x c same (release-held i (after x t) b_st ops (ground arith)) in
      let others : (j : ℕ) → j ≢ i → w.fd_array j ≡ s.fd_array j = λ j m.
        (advanced_other i (after x t) b_st 0 j m).2
        ∙ (advanced_other i u a_st k j m).0
        ∙ (advanced_other i s opened 0 j m).1 in
      let node = c_nd ∙ b_nd ∙ a_nd in
      (
        w,
        run,
        c_of ∙ b_of ∙ rw a_of refl,
        c_st,
        node,
        others,
        vfs,
        TableInv-set s w i inv rest others (inr (c_st, ground arith, rw node n))
            (c_fd ∙ b_fd ∙ a_fd ∙ inv.numbered i lt),
      )

  held-Through :
      (s : Fs D) (check : Bool) (q : Result (Option Error × Iobuf × Vfs D))
      → TableInv s
      → i < nentry
      → (s.fd_array i).status ≡ fd_opened
      → inode_check ((acquired i s).fd_array i).node s.vfs ≡ check
      → out (acquired i s) ≡ q
      → Through s i check q (transfer_held vop ops base len i (acquired i s))
  held-Through s false q inv lt opened c e = transfer_held-unchecked (acquired i s) c
  held-Through s true panic inv lt opened c e = transfer_held-panic (acquired i s) e
  held-Through s true (err x) inv lt opened c e = transfer_held-err (acquired i s) x c e
  held-Through s true (ok x) inv lt opened c e = held-Transferred s x inv lt opened c e

  pub transfer-Through :
      (allowed : File → Bool) (s : Fs D)
      → TableInv s
      → i < nentry
      → (s.fd_array i).status ≡ fd_opened
      → allowed (s.fd_array i) ≡ true
      → Through s i
          (inode_check (s.fd_array i).node s.vfs)
          (out s)
          (transfer vop allowed ops (pos i) base len s)
  transfer-Through allowed s inv lt opened may =
      let t = acquired i s in
      let (a_st, a_op, a_fd, a_nd, a_of) = acquired_entry i s opened in
      let run =
        transfer-opened allowed s t (fd2file-opened s inv i lt opened) may
          (acquire-opened i s opened) in
      let same : out t ≡ out s = rw (a_nd, a_of) refl in
      let check : inode_check (t.fd_array i).node s.vfs ≡ inode_check (s.fd_array i).node s.vfs =
        rw a_nd refl in
      subst (Through s i (inode_check (s.fd_array i).node s.vfs) (out s)) (sym run)
        (held-Through s (inode_check (s.fd_array i).node s.vfs) (out s) inv lt opened check same)

-- Reading from a descriptor of a whole table that is open for reading. Where the inode passes
-- `inode_check` and `vop_read` returns, for the buffer at the file's offset, the read returns what it
-- returns, an error included, with the number of bytes read, and moves the offset by that, modulo
-- 2 ^ 64; the file stays open and is let go, and the table whole, the other entries as they are, and
-- the inodes as `vop_read` leaves them. An inode that fails the check, or a `vop_read` that stops the
-- kernel, stops it here too; nothing else does.
pub file_read-Through :
    {D : Type 0} (ops : Vops D) (s : Fs D) (i base len : ℕ)
    → TableInv s
    → i < nentry
    → (s.fd_array i).status ≡ fd_opened
    → (s.fd_array i).readable ≡ true
    → Through s i
        (inode_check (s.fd_array i).node s.vfs)
        (out ops.vop_read ops i base len s)
        (file_read ops (pos i) base len s)
unfolding file_read
file_read-Through ops s i base len inv lt opened may =
    transfer-Through ops.vop_read ops i base len (λ f. f.readable) s inv lt opened may

-- Writing to a descriptor of a whole table that is open for writing does likewise with `vop_write`.
pub file_write-Through :
    {D : Type 0} (ops : Vops D) (s : Fs D) (i base len : ℕ)
    → TableInv s
    → i < nentry
    → (s.fd_array i).status ≡ fd_opened
    → (s.fd_array i).writable ≡ true
    → Through s i
        (inode_check (s.fd_array i).node s.vfs)
        (out ops.vop_write ops i base len s)
        (file_write ops (pos i) base len s)
unfolding file_write
file_write-Through ops s i base len inv lt opened may =
    transfer-Through ops.vop_write ops i base len (λ f. f.writable) s inv lt opened may
