-- ===== src/Fs/Device.antt =====
-- kern/fs/vfs/vfsdev.c: the list of devices. A name is a C string, and a mounted file system a number,
-- 0 being NULL. The functions hold the list's semaphore throughout, so each is one step.
pub mod Mount
use os_qemu.Prelude.{
  ℕ, zero, suc, ◌+◌, ◌==◌, not, ltb, Bool, true, false, ◌&&◌, ◌||◌, if◌then◌else◌, Option, none,
  some, List, [], ◌∷◌,
}
use os_qemu.Prelude.Int.{ℤ, pos, negsuc}
use os_qemu.Prelude.Errors.{
  Error, Result, ok, err, panic, no_mem, exists, too_big, no_dev, na_dev, busy, inval,
}
use os_qemu.Libs.Str.{strlen, strcmp}

-- `vfs_dev_t`
pub record Vdev : Type 0 where
  pub devname : List ℕ
  pub devnode : ℕ
  pub fs : ℕ
  pub mountable : Bool

-- `strcmp(a, b) == 0`; the names end inside their memory.
unfoldable pub same_name : List ℕ → List ℕ → Bool
unfolding strcmp
same_name a b = elim (strcmp a b) [
  | none ↦ false
  | some d ↦ elim d [ pos n ↦ n == 0 | negsuc n ↦ false ]
]

-- FS_MAX_DNAME_LEN
abbrev pub max_dname_len : ℕ
max_dname_len = 31

-- The loop of `vfs_get_root`.
unfoldable pub find_dev : List ℕ → List Vdev → Option Vdev
find_dev name [] = none
find_dev name (v ∷ vs) =
    let rest = find_dev name vs in if same_name name v.devname then some v else rest

unfoldable pub vfs_get_devname : ℕ → List Vdev → Option (List ℕ)
vfs_get_devname fs [] = none
vfs_get_devname fs (v ∷ vs) =
    let rest = vfs_get_devname fs vs in if v.fs == fs then some v.devname else rest

-- True where no device has the name.
unfoldable pub check_devname_conflict : List ℕ → List Vdev → Bool
check_devname_conflict name [] = true
check_devname_conflict name (v ∷ vs) =
    let rest = check_devname_conflict name vs in if same_name v.devname name then false else rest

-- A name that does not end in its memory has no length; no caller has one.
abbrev pub too_long : List ℕ → Bool
too_long name = elim (strlen name) [ none ↦ true | some n ↦ ltb max_dname_len n ]

-- `room` says whether `strdup` and `kmalloc` find memory, and
-- `is_device` is the test of an inode's type.
unfoldable pub vfs_do_add :
    (ℕ → Bool) → List ℕ → ℕ → ℕ → Bool → Bool → List Vdev → Result (List Vdev)
vfs_do_add is_device name devnode fs mountable room vs =
    if not ((devnode == 0 && not mountable) || (not (devnode == 0) && is_device devnode))
    then panic
    else if too_long name
    then err too_big
    else if not room
    then err no_mem
    else if not (check_devname_conflict name vs)
    then err exists
    else ok (record { devname = name; devnode = devnode; fs = fs; mountable = mountable } ∷ vs)

unfoldable pub vfs_add_fs : (ℕ → Bool) → List ℕ → ℕ → Bool → List Vdev → Result (List Vdev)
unfolding vfs_do_add
vfs_add_fs is_device name fs room vs = vfs_do_add is_device name 0 fs false room vs

unfoldable pub vfs_add_dev : (ℕ → Bool) → List ℕ → ℕ → Bool → Bool → List Vdev → Result (List Vdev)
unfolding vfs_do_add
vfs_add_dev is_device name devnode mountable room vs =
    vfs_do_add is_device name devnode 0 mountable room vs

-- The device that `find_mount` finds; its place in the list is where `set_fs` writes.
unfoldable pub find_mount : List ℕ → List Vdev → Option Vdev
find_mount name [] = none
find_mount name (v ∷ vs) =
    let rest = find_mount name vs in
    if v.mountable && same_name v.devname name then some v else rest

-- The list with another file system on the device that `find_mount` finds.
unfoldable pub set_fs : List ℕ → ℕ → List Vdev → List Vdev
set_fs name fs [] = []
set_fs name fs (v ∷ vs) =
    let rest = set_fs name fs vs in
    if v.mountable && same_name v.devname name then record v { fs = fs } ∷ vs else v ∷ rest

-- `mountfunc` gets the device's inode and returns a file system or an error.
unfoldable pub vfs_mount : List ℕ → (ℕ → Result ℕ) → List Vdev → Result (List Vdev)
vfs_mount name mountfunc vs = elim (find_mount name vs) [
  | none ↦ err no_dev
  | some v ↦ if not (v.fs == 0) then err busy else elim (mountfunc v.devnode) [
    | ok fs ↦ if fs == 0 then panic else ok (set_fs name fs vs)
    | err e ↦ err e
    | panic ↦ panic
  ]
]

-- `sync` and `unmount` are `fsop_sync` and `fsop_unmount`, with the error that they return.
unfoldable pub vfs_unmount :
    (ℕ → Option Error) → (ℕ → Option Error) → List ℕ → List Vdev → Result (List Vdev)
vfs_unmount sync unmount name vs = elim (find_mount name vs) [
  | none ↦ err no_dev
  | some v ↦ if v.fs == 0 then err inval else elim (sync v.fs) [
    | some e ↦ err e
    | none ↦ elim (unmount v.fs) [ some e ↦ err e | none ↦ ok (set_fs name 0 vs) ]
  ]
]

-- What `vfs_unmount_all` does with one device: a failure is only warned of.
unfoldable pub unmount_one : (ℕ → Option Error) → (ℕ → Option Error) → Vdev → Vdev
unmount_one sync unmount v =
    if v.mountable && not (v.fs == 0)
    then elim (sync v.fs) [
      | some e ↦ v
      | none ↦ elim (unmount v.fs) [ some e ↦ v | none ↦ record v { fs = 0 } ]
    ]
    else v

unfoldable pub vfs_unmount_all : (ℕ → Option Error) → (ℕ → Option Error) → List Vdev → List Vdev
unfolding unmount_one
vfs_unmount_all sync unmount [] = []
vfs_unmount_all sync unmount (v ∷ vs) = unmount_one sync unmount v ∷ vfs_unmount_all sync unmount vs
