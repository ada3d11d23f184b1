-- ===== src/Fs/File.antt =====
-- kern/fs/file.c: the open files of a process. A pointer into `fd_array` is the index.
pub mod Calls
pub mod Table
pub mod Close
pub mod Transfer
use os_qemu.Prelude.{
  ℕ, zero, suc, ◌+◌, ◌-◌, ◌%◌, ◌^◌, ◌==◌, not, ltb, Bool, true, false, ◌&&◌, ◌||◌, if◌then◌else◌,
  Option, none, some, List,
}
use os_qemu.Prelude.Int.{ℤ, pos, negsuc}
use os_qemu.Prelude.Errors.{Error, Result, ok, err, panic, ◌>>=◌, inval, max_open, busy}
use os_qemu.Fs.Iobuf.{Iobuf, iobuf_init, iobuf_used}
use os_qemu.Fs.Open.{vfs_open}
use os_qemu.Fs.Vfs.{
  Vfs, Vops, Ret, ret, fail, vop_op, inode_ref_inc, inode_open_inc, vfs_close, accmode, bit,
  o_append,
}

pub data Status : Type 0 where
  fd_none fd_init fd_opened fd_closed : Status

-- `struct file`; the offset is an `off_t`, 64 bits in two's complement.
pub record File : Type 0 where
  pub status : Status
  pub readable : Bool
  pub writable : Bool
  pub fd : ℕ
  pub offset : ℕ
  pub node : ℕ
  pub opens : ℕ

-- `current->filesp`, and the inodes.
pub record Fs (D : Type 0) : Type 0 where
  pub files_count : ℕ
  pub fd_array : ℕ → File
  pub vfs : Vfs D

-- FILES_STRUCT_NENTRY: the page less the 48 bytes of `struct files_struct`, by the 40 of `struct file`.
abbrev pub nentry : ℕ
nentry = 101

-- NO_FD is -0x9527.
abbrev pub no_fd : ℤ
no_fd = negsuc 0x9526

abbrev pub is_none : Status → Bool
is_none s = elim s [ fd_none ↦ true | fd_init ↦ false | fd_opened ↦ false | fd_closed ↦ false ]

abbrev pub is_init : Status → Bool
is_init s = elim s [ fd_none ↦ false | fd_init ↦ true | fd_opened ↦ false | fd_closed ↦ false ]

abbrev pub is_opened : Status → Bool
is_opened s = elim s [ fd_none ↦ false | fd_init ↦ false | fd_opened ↦ true | fd_closed ↦ false ]

abbrev pub is_closed : Status → Bool
is_closed s = elim s [ fd_none ↦ false | fd_init ↦ false | fd_opened ↦ false | fd_closed ↦ true ]

abbrev pub set_file : (ℕ → File) → ℕ → File → ℕ → File
set_file files i f x = if x == i then f else files x

-- The loop of `fd_array_init`, with `n` entries to go, at `fd`.
unfoldable pub fd_array_init : ℕ → ℕ → (ℕ → File) → ℕ → File
fd_array_init zero fd files = files
fd_array_init (suc n) fd files =
    fd_array_init n (fd + 1)
      (set_file files fd (record (files fd) { opens = 0; status = fd_none; fd = fd }))

-- The loop of `fd_array_alloc`, with `n` entries to go.
unfoldable pub find_free : ℕ → ℕ → (ℕ → File) → Option ℕ
find_free zero fd files = none
find_free (suc n) fd files =
    let rest = find_free n (fd + 1) files in if is_none (files fd).status then some fd else rest

module _ {D : Type 0} where
  abbrev pub set : Fs D → ℕ → File → Fs D
  set s i f = record s { fd_array = set_file s.fd_array i f }

  -- The part of `fd_array_alloc` from the label `found` on.
  unfoldable pub take_file : ℕ → Fs D → Result (Ret ℕ × Fs D)
  take_file i s =
      if (s.fd_array i).opens == 0
      then ok (ret i, set s i (record (s.fd_array i) { status = fd_init; node = 0 }))
      else panic

  unfoldable pub fd_array_alloc : ℤ → Fs D → Result (Ret ℕ × Fs D)
  unfolding take_file
  fd_array_alloc fd s = if s.files_count == 0 then panic else elim fd [
    | negsuc n ↦
        if n == 0x9526
        then elim (find_free nentry 0 s.fd_array) [
          | none ↦ ok (fail max_open, s)
          | some i ↦ take_file i s
        ]
        else ok (fail inval, s)
    | pos i ↦
        if ltb i nentry
        then if is_none (s.fd_array i).status then take_file i s else ok (fail busy, s)
        else ok (fail inval, s)
  ]

  unfoldable pub fd_array_free : Vops D → ℕ → Fs D → Result (Fs D)
  unfolding vfs_close
  fd_array_free ops i s =
      let f = s.fd_array i in
      let free : Fs D → Fs D = λ s'. set s' i (record (s'.fd_array i) { status = fd_none }) in
      if (is_init f.status || is_closed f.status) && f.opens == 0
      then if is_closed f.status
        then (vfs_close ops f.node s.vfs >>= (λ v. ok (free (record s { vfs = v }))))
        else ok (free s)
      else panic

  unfoldable pub fd_array_acquire : ℕ → Fs D → Result (Fs D)
  fd_array_acquire i s =
      let f = s.fd_array i in
      if is_opened f.status then ok (set s i (record f { opens = f.opens + 1 })) else panic

  unfoldable pub fd_array_release : Vops D → ℕ → Fs D → Result (Fs D)
  unfolding fd_array_free
  fd_array_release ops i s =
      let f = s.fd_array i in
      let s' = set s i (record f { opens = f.opens - 1 }) in
      if (is_opened f.status || is_closed f.status) && ltb 0 f.opens
      then if f.opens == 1 then fd_array_free ops i s' else ok s'
      else panic

  unfoldable pub fd_array_open : ℕ → Fs D → Result (Fs D)
  fd_array_open i s =
      let f = s.fd_array i in
      if is_init f.status && not (f.node == 0)
      then ok (set s i (record f { status = fd_opened; opens = f.opens + 1 }))
      else panic

  unfoldable pub fd_array_close : Vops D → ℕ → Fs D → Result (Fs D)
  unfolding fd_array_free
  fd_array_close ops i s =
      let f = s.fd_array i in
      let s' = set s i (record f { status = fd_closed; opens = f.opens - 1 }) in
      if is_opened f.status && ltb 0 f.opens
      then if f.opens == 1 then fd_array_free ops i s' else ok s'
      else panic

  unfoldable pub fd_array_dup : ℕ → ℕ → Fs D → Result (Fs D)
  unfolding fd_array_open inode_ref_inc inode_open_inc
  fd_array_dup to from s =
      let t = s.fd_array to in
      let f = s.fd_array from in
      if is_init t.status && is_opened f.status
      then fd_array_open to
          (record (set s to (record t {
            offset = f.offset;
            readable = f.readable;
            writable = f.writable;
            node = f.node;
          })) { vfs = inode_open_inc f.node (inode_ref_inc f.node s.vfs) })
      else panic

  -- A descriptor that is open, or `none`, which every caller makes `-E_INVAL`.
  unfoldable pub fd2file : ℤ → Fs D → Result (Option ℕ)
  fd2file (negsuc n) s = ok none
  fd2file (pos i) s =
      if ltb i nentry
      then if s.files_count == 0
        then panic
        else if is_opened (s.fd_array i).status && (s.fd_array i).fd == i
        then ok (some i)
        else ok none
      else ok none

  unfoldable pub file_testfd : ℤ → Bool → Bool → Fs D → Result Bool
  unfolding fd2file
  file_testfd fd readable writable s = fd2file fd s >>= (λ found. ok (elim found [
    | none ↦ false
    | some i ↦
        not (readable && not (s.fd_array i).readable)
        && not (writable && not (s.fd_array i).writable)
  ]))

  -- The end of `file_open`, with the offset known.
  unfoldable pub open_file : ℕ → Bool → Bool → ℕ → ℕ → Fs D → Result (Ret ℕ × Fs D)
  unfolding fd_array_open
  open_file i readable writable offset node s =
      let f = record (s.fd_array i) {
        offset = offset;
        node = node;
        readable = readable;
        writable = writable;
      } in
      fd_array_open i (set s i f) >>= (λ s'. ok (ret (s'.fd_array i).fd, s'))

  unfoldable pub file_open : Vops D → ℕ → List ℕ → ℕ → Fs D → Result (Ret ℕ × Fs D)
  unfolding fd_array_alloc fd_array_free vfs_open vfs_close open_file
  file_open ops stale path flags s =
      let readable = accmode flags == 0 || accmode flags == 2 in
      let writable = accmode flags == 1 || accmode flags == 2 in
      let give_up : ℕ → Error → Fs D → Result (Ret ℕ × Fs D) =
        λ i e s'. fd_array_free ops i s' >>= (λ s''. ok (fail e, s'')) in
      if accmode flags == 3
      then ok (fail inval, s)
      else fd_array_alloc no_fd s >>= (λ a. elim a.0 [
        | fail e ↦ ok (fail e, a.1)
        | ret i ↦ vfs_open ops stale path flags a.1.vfs >>= (λ o. elim o.0 [
          | fail e ↦ give_up i e (record a.1 { vfs = o.1 })
          | ret node ↦
              let t = record (record a.1 { vfs = o.1 }) {
                fd_array = set_file a.1.fd_array i (record (a.1.fd_array i) { offset = 0 });
              } in
              if bit flags o_append
              then vop_op node o.1 (ops.vop_fstat node o.1) >>= (λ stat. elim stat.0 [
                | fail e ↦ vfs_close ops node stat.1 >>= (λ v. give_up i e (record t { vfs = v }))
                | ret size ↦ open_file i readable writable size node (record t { vfs = stat.1 })
              ])
              else open_file i readable writable 0 node t
        ])
      ])

  unfoldable pub file_close : Vops D → ℤ → Fs D → Result (Option Error × Fs D)
  unfolding fd2file fd_array_close
  file_close ops fd s = fd2file fd s >>= (λ found. elim found [
    | none ↦ ok (some inval, s)
    | some i ↦ fd_array_close ops i s >>= (λ s'. ok (none, s'))
  ])
