-- ===== src/Fs/Path.antt =====
-- kern/fs/vfs/vfslookup.c, kern/fs/vfs/vfspath.c, the boot file system of kern/fs/vfs/vfs.c, and
-- `vfs_get_root` of kern/fs/vfs/vfsdev.c: where a path starts. A path is the list of the bytes from its
-- address on, and ends inside of it.
pub mod Forms
pub mod Counts
pub mod Lookup
pub mod Chdir
use os_qemu.Prelude.{
  ℕ, zero, suc, ◌+◌, ◌-◌, ◌/◌, ◌%◌, ◌==◌, not, ltb, Bool, true, false, ◌&&◌, ◌||◌, if◌then◌else◌,
  Option, none, some, List, [], ◌∷◌, drop, set, get_or,
}
use os_qemu.Prelude.Errors.{Error, Result, ok, panic, ◌>>=◌, inval, noent, notdir, no_dev, na_dev}
use os_qemu.Libs.Str.{strchr}
use os_qemu.Fs.Device.{Vdev, find_dev}
use os_qemu.Fs.Vfs.{Vfs, Ret, ret, fail, Vops, vop_op, inode_ref_inc, inode_ref_dec}

abbrev pub slash : ℕ
slash = 47

abbrev pub colon : ℕ
colon = 58

-- The first loop of `get_device` from the index `i` on: the variables `slash` and `colon` behind it,
-- `none` for -1.
unfoldable pub scan_path : List ℕ → ℕ → Option ℕ × Option ℕ
scan_path [] i = (none, none)
scan_path (c ∷ cs) i =
    let rest = scan_path cs (i + 1) in
    if c == 0
    then (none, none)
    else if c == colon
    then (none, some i)
    else if c == slash
    then (some i, none)
    else rest

-- `while (*p == '/') p ++`
unfoldable pub skip_slashes : List ℕ → List ℕ
skip_slashes [] = []
skip_slashes (c ∷ cs) = let rest = skip_slashes cs in if c == slash then rest else c ∷ cs

-- `*path`
abbrev pub first : List ℕ → ℕ
first path = get_or path 0 0

-- What `get_device` returns: the rest of the path and the inode, beside what it has made of the
-- memory of the path.
abbrev pub Started : Type 0 → Type 0
Started D = Ret (List ℕ × ℕ) × List ℕ × Vfs D

-- S_ISDIR
abbrev pub is_dir : ℕ → Bool
is_dir type = type / 4096 % 8 == 2

module _ {D : Type 0} where
  unfoldable pub vfs_get_curdir : Vfs D → Ret ℕ × Vfs D
  vfs_get_curdir v = if v.pwd == 0 then (fail noent, v) else (ret v.pwd, inode_ref_inc v.pwd v)

  unfoldable pub vfs_get_bootfs : Vfs D → Ret ℕ × Vfs D
  vfs_get_bootfs v =
      if v.bootfs_node == 0
      then (fail noent, v)
      else (ret v.bootfs_node, inode_ref_inc v.bootfs_node v)

  -- The body of the test in the loop of `vfs_get_root`, for the device that has the name.
  unfoldable pub device_root : Vops D → Vdev → Vfs D → Result (Ret ℕ × Vfs D)
  device_root ops d v =
      if not (d.fs == 0)
      then ops.fsop_get_root d.fs v
        >>= (λ root. ok (if root.0 == 0 then fail na_dev else ret root.0, root.1))
      else if d.mountable
      then ok (fail na_dev, v)
      else if d.devnode == 0
      then panic
      else ok (ret d.devnode, inode_ref_inc d.devnode v)

  unfoldable pub vfs_get_root : Vops D → List ℕ → Vfs D → Result (Ret ℕ × Vfs D)
  vfs_get_root ops name v = elim (find_dev name v.devices) [
    | none ↦ ok (fail no_dev, v)
    | some d ↦ device_root ops d v
  ]

  abbrev pub start : List ℕ → List ℕ → Ret ℕ × Vfs D → Started D
  start subpath path r = (elim r.0 [ fail e ↦ fail e | ret node ↦ ret (subpath, node) ], path, r.1)

  -- The part of `get_device` behind `vfs_get_curdir(&node)`.
  unfoldable pub root_from : Vops D → Ret ℕ × Vfs D → Result (Ret ℕ × Vfs D)
  root_from ops (fail e, v) = ok (fail e, v)
  root_from ops (ret node, v) =
      if v.in_fs node == 0
      then panic
      else ops.fsop_get_root (v.in_fs node) v
        >>= (λ root. inode_ref_dec ops node root.1 >>= (λ u. ok (ret root.0, u)))

  -- The part of `get_device` for a path without a device's name that starts with a slash or a colon.
  unfoldable pub get_root_of : Vops D → List ℕ → Vfs D → Result (Started D)
  get_root_of ops path v =
      let subpath = skip_slashes (drop 1 path) in
      if first path == slash
      then ok (start subpath path (vfs_get_bootfs v))
      else if first path == colon
      then root_from ops (vfs_get_curdir v) >>= (λ r. ok (start subpath path r))
      else panic

  -- `get_device` behind its first loop.
  unfoldable pub with_marks : Vops D → List ℕ → Option ℕ × Option ℕ → Vfs D → Result (Started D)
  with_marks ops path (s, some (suc i)) v =
      let named = set path (suc i) 0 in
      let subpath = skip_slashes (drop (suc (suc i)) path) in
      vfs_get_root ops named v >>= (λ r. ok (start subpath named r))
  with_marks ops path (s, some zero) v = get_root_of ops path v
  with_marks ops path (some zero, none) v = get_root_of ops path v
  with_marks ops path (some (suc i), none) v = ok (start path path (vfs_get_curdir v))
  with_marks ops path (none, none) v = ok (start path path (vfs_get_curdir v))

  unfoldable pub get_device : Vops D → List ℕ → Vfs D → Result (Started D)
  get_device ops path v = with_marks ops path (scan_path path 0) v

  -- `vfs_lookup` behind its call of `get_device`.
  unfoldable pub lookup_from : Vops D → Started D → Result (Ret ℕ × List ℕ × Vfs D)
  lookup_from ops (fail e, path, v) = ok (fail e, path, v)
  lookup_from ops (ret at, path, v) =
      if not (first at.0 == 0)
      then vop_op at.1 v (ops.vop_lookup at.1 at.0 v)
        >>= (λ found. inode_ref_dec ops at.1 found.1 >>= (λ u. ok (found.0, path, u)))
      else ok (ret at.1, path, v)

  -- The result has the memory of the path, which the call may have changed.
  unfoldable pub vfs_lookup : Vops D → List ℕ → Vfs D → Result (Ret ℕ × List ℕ × Vfs D)
  vfs_lookup ops path v = get_device ops path v >>= lookup_from ops

  unfoldable pub vfs_lookup_parent : Vops D → List ℕ → Vfs D → Result (Ret (List ℕ × ℕ) × Vfs D)
  vfs_lookup_parent ops path v = get_device ops path v >>= (λ r. ok (r.0, r.2))

  abbrev pub set_pwd : ℕ → Vfs D → Vfs D
  set_pwd node v = record v { pwd = node }

  -- `if (old != NULL) vop_ref_dec(old)`
  abbrev pub drop_node : Vops D → ℕ → Vfs D → Result (Vfs D)
  drop_node ops old v = if old == 0 then ok v else inode_ref_dec ops old v

  -- The part of `vfs_set_curdir` for a directory that is not NULL, with what `vop_gettype` returns.
  unfoldable pub enter_dir : Vops D → ℕ → ℕ → Ret ℕ × Vfs D → Result (Option Error × Vfs D)
  enter_dir ops old dir (fail e, v) = ok (some e, v)
  enter_dir ops old dir (ret type, v) =
      if is_dir type
      then drop_node ops old (set_pwd dir (inode_ref_inc dir v)) >>= (λ u. ok (none, u))
      else ok (some notdir, v)

  -- The semaphore of the files is held, so this is one step.
  unfoldable pub vfs_set_curdir : Vops D → ℕ → Vfs D → Result (Option Error × Vfs D)
  vfs_set_curdir ops dir v =
      if v.pwd == dir
      then ok (none, v)
      else if dir == 0
      then drop_node ops v.pwd (set_pwd dir v) >>= (λ u. ok (none, u))
      else vop_op dir v (ops.vop_gettype dir v) >>= enter_dir ops v.pwd dir

  -- `vfs_chdir` behind its call of `vfs_lookup`.
  unfoldable pub chdir_to : Vops D → Ret ℕ × List ℕ × Vfs D → Result (Option Error × Vfs D)
  chdir_to ops (fail e, path, v) = ok (some e, v)
  chdir_to ops (ret node, path, v) =
      vfs_set_curdir ops node v >>= (λ r. inode_ref_dec ops node r.1 >>= (λ u. ok (r.0, u)))

  unfoldable pub vfs_chdir : Vops D → List ℕ → Vfs D → Result (Option Error × Vfs D)
  vfs_chdir ops path v = vfs_lookup ops path v >>= chdir_to ops

  unfoldable pub change_bootfs : Vops D → ℕ → Vfs D → Result (Vfs D)
  change_bootfs ops node v = drop_node ops v.bootfs_node (record v { bootfs_node = node })

  -- `none` is NULL.
  unfoldable pub vfs_set_bootfs : Vops D → Option (List ℕ) → Vfs D → Result (Option Error × Vfs D)
  vfs_set_bootfs ops none v = change_bootfs ops 0 v >>= (λ u. ok (none, u))
  vfs_set_bootfs ops (some name) v = elim (strchr name colon) [
    | some (some s) ↦
        if get_or s 1 0 == 0
        then vfs_chdir ops name v >>= (λ r. elim r.0 [
          | some e ↦ ok (some e, r.1)
          | none ↦
              let (dir, w) = vfs_get_curdir r.1 in
              elim dir [
                | fail e ↦ ok (some e, w)
                | ret node ↦ change_bootfs ops node w >>= (λ u. ok (none, u))
              ]
        ])
        else ok (some inval, v)
    | some none ↦ ok (some inval, v)
    | none ↦ ok (some inval, v)
  ]
