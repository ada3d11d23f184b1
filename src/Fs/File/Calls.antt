-- ===== src/Fs/File/Calls.antt =====
-- kern/fs/file.c, from `file_read` to `file_dup`: what is done with an open file.
use os_qemu.Prelude.{ℕ, ◌+◌, ◌%◌, ◌^◌, ◌==◌, Bool, if◌then◌else◌, Option, none, some}
use os_qemu.Prelude.Int.{ℤ}
use os_qemu.Prelude.Errors.{Error, Result, ok, ◌>>=◌, inval}
use os_qemu.Fs.Iobuf.{Iobuf, iobuf_init, iobuf_used}
use os_qemu.Fs.Vfs.{Vfs, Vops, Ret, ret, fail, vop_op}
use os_qemu.Fs.File.{
  File, Fs, is_opened, set, fd2file, fd_array_alloc, fd_array_acquire, fd_array_release,
  fd_array_dup,
}

-- `struct dirent`, its offset.
abbrev pub Dirent : Type 0
Dirent = ℕ

-- FS_MAX_FNAME_LEN and a byte: the length of a name in a `struct dirent`.
abbrev pub name_size : ℕ
name_size = 256

module _ {D : Type 0} where
  -- `file->pos += copied`, if the file has not been closed in between.
  abbrev pub advance : ℕ → ℕ → Fs D → Fs D
  advance i copied s =
      let f = s.fd_array i in
      if is_opened f.status then set s i (record f { offset = (f.offset + copied) % 2 ^ 64 }) else s

  -- What `file_read` and `file_write` do with the file held; the result is the error and
  -- `*copied_store`.
  unfoldable pub transfer_held :
      (ℕ → Iobuf → Vfs D → Result (Option Error × Iobuf × Vfs D))
      → Vops D
      → ℕ
      → ℕ
      → ℕ
      → Fs D
      → Result (Option Error × ℕ × Fs D)
  transfer_held vop ops base len i t =
      let node = (t.fd_array i).node in
      vop_op node t.vfs (vop node (iobuf_init base len (t.fd_array i).offset) t.vfs) >>= (λ moved.
        let used = iobuf_used moved.1 in
        let u : Fs D = record t { vfs = moved.2 } in
        fd_array_release ops i (advance i used u) >>= (λ w. ok (moved.0, used, w)))

  unfoldable pub transfer :
      (ℕ → Iobuf → Vfs D → Result (Option Error × Iobuf × Vfs D))
      → (File → Bool)
      → Vops D
      → ℤ
      → ℕ
      → ℕ
      → Fs D
      → Result (Option Error × ℕ × Fs D)
  transfer vop allowed ops fd base len s = fd2file fd s >>= (λ found. elim found [
    | none ↦ ok (some inval, 0, s)
    | some i ↦
        if allowed (s.fd_array i)
        then fd_array_acquire i s >>= transfer_held vop ops base len i
        else ok (some inval, 0, s)
  ])

  unfoldable pub file_read : Vops D → ℤ → ℕ → ℕ → Fs D → Result (Option Error × ℕ × Fs D)
  unfolding transfer
  file_read ops fd base len s = transfer ops.vop_read (λ f. f.readable) ops fd base len s

  unfoldable pub file_write : Vops D → ℤ → ℕ → ℕ → Fs D → Result (Option Error × ℕ × Fs D)
  unfolding transfer
  file_write ops fd base len s = transfer ops.vop_write (λ f. f.writable) ops fd base len s

  -- A call on the inode of an open file, between taking hold of the file and letting it go.
  unfoldable pub held_open :
      Vops D → ℤ → (ℕ → Fs D → Result (Option Error × Fs D)) → Fs D → Result (Option Error × Fs D)
  unfolding fd2file fd_array_acquire fd_array_release
  held_open ops fd call s = fd2file fd s >>= (λ found. elim found [
    | none ↦ ok (some inval, s)
    | some i ↦
        fd_array_acquire i s
        >>= call i
        >>= (λ done. fd_array_release ops i done.1 >>= (λ w. ok (done.0, w)))
  ])

  -- The end of `file_seek`.
  abbrev pub seek_to : Vops D → ℕ → ℕ → Fs D → Result (Option Error × Fs D)
  seek_to ops pos i t =
      let node = (t.fd_array i).node in
      vop_op node t.vfs (ops.vop_tryseek node pos t.vfs) >>= (λ sought.
        let u : Fs D = record t { vfs = sought.1 } in
        elim sought.0 [
          | some e ↦ ok (some e, u)
          | none ↦ ok (none, set u i (record (u.fd_array i) { offset = pos }))
        ])

  -- `pos` is an `off_t`, as `File.offset` is. LSEEK_SET is 0, LSEEK_CUR 1 and LSEEK_END 2.
  unfoldable pub file_seek : Vops D → ℤ → ℕ → ℕ → Fs D → Result (Option Error × Fs D)
  unfolding held_open
  file_seek ops fd pos whence s =
      held_open ops fd
        (λ i t.
          let f = t.fd_array i in
          if whence == 0
          then seek_to ops pos i t
          else if whence == 1
          then seek_to ops ((pos + f.offset) % 2 ^ 64) i t
          else if whence == 2
          then vop_op f.node t.vfs (ops.vop_fstat f.node t.vfs) >>= (λ stat.
            let u : Fs D = record t { vfs = stat.1 } in
            elim stat.0 [
              | fail e ↦ ok (some e, u)
              | ret size ↦ seek_to ops ((pos + size) % 2 ^ 64) i u
            ])
          else ok (some inval, t))
        s

  -- The value is `st_size` of the `struct stat`, the only field that file.c reads.
  unfoldable pub file_fstat : Vops D → ℤ → Fs D → Result (Ret ℕ × Fs D)
  unfolding fd2file fd_array_acquire fd_array_release
  file_fstat ops fd s = fd2file fd s >>= (λ found. elim found [
    | none ↦ ok (fail inval, s)
    | some i ↦ fd_array_acquire i s >>= (λ t.
        let node = (t.fd_array i).node in
        vop_op node t.vfs (ops.vop_fstat node t.vfs)
        >>= (λ stat. fd_array_release ops i (record t { vfs = stat.1 }) >>= (λ w. ok (stat.0, w))))
  ])

  unfoldable pub file_fsync : Vops D → ℤ → Fs D → Result (Option Error × Fs D)
  unfolding held_open
  file_fsync ops fd s =
      held_open ops fd
        (λ i t.
          let node = (t.fd_array i).node in
          vop_op node t.vfs (ops.vop_fsync node t.vfs)
          >>= (λ synced. ok (synced.0, record t { vfs = synced.1 })))
        s

  -- The buffer is `direntp->name`; the offset that `*direntp` holds after is returned too.
  unfoldable pub file_getdirentry :
      Vops D → ℤ → ℕ → Dirent → Fs D → Result (Option Error × Dirent × Fs D)
  unfolding fd2file fd_array_acquire fd_array_release iobuf_init
  file_getdirentry ops fd name offset s = fd2file fd s >>= (λ found. elim found [
    | none ↦ ok (some inval, offset, s)
    | some i ↦ fd_array_acquire i s >>= (λ t.
        let node = (t.fd_array i).node in
        vop_op node t.vfs (ops.vop_getdirentry node (iobuf_init name name_size offset) t.vfs)
        >>= (λ read.
            let after : ℕ = elim read.0 [
              | none ↦ (offset + iobuf_used read.1) % 2 ^ 64
              | some e ↦ offset
            ] in
            fd_array_release ops i (record t { vfs = read.2 }) >>= (λ w. ok (read.0, after, w))))
  ])

  unfoldable pub file_dup : ℤ → ℤ → Fs D → Result (Ret ℕ × Fs D)
  unfolding fd2file fd_array_alloc fd_array_dup
  file_dup fd1 fd2 s = fd2file fd1 s >>= (λ found. elim found [
    | none ↦ ok (fail inval, s)
    | some from ↦ fd_array_alloc fd2 s >>= (λ a. elim a.0 [
      | fail e ↦ ok (fail e, a.1)
      | ret to ↦ fd_array_dup to from a.1 >>= (λ s'. ok (ret (s'.fd_array to).fd, s'))
    ])
  ])
