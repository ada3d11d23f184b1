-- ===== src/Fs/Device/Mount.antt =====
-- Mounting and unmounting file systems, in kern/fs/vfs/vfsdev.c.
use os_qemu.Prelude.{
  ℕ, ◌≡◌, ◌≢◌, sym, ◌&&◌, Bool, true, if◌then◌else◌, Option, none, some, List, [], ◌∷◌, ap, subst,
  arith, Bool-cases, inl, inr,
}
use os_qemu.Prelude.Errors.{Error, Result, ok, err, busy}
use os_qemu.Fs.Device.{Vdev, same_name, find_mount, set_fs, vfs_mount, vfs_unmount}

abbrev with_fs : ℕ → Vdev → Vdev
with_fs fs v = record v { fs = fs }

abbrev fs_of : Vdev → ℕ
fs_of v = v.fs

-- What `find_mount` finds afterwards, and that undoing the change restores the list.
set_fs-found :
    (name : List ℕ) (fs : ℕ) (v : Vdev) (vs : List Vdev)
    → find_mount name vs ≡ some v
    → (find_mount name (set_fs name fs vs) ≡ some (record v { fs = fs }))
      × (set_fs name v.fs (set_fs name fs vs) ≡ vs)
unfolding find_mount set_fs
set_fs-found name fs v [] e = absurd (ground (arith, e))
set_fs-found name fs v (x ∷ xs) e = elim (Bool-cases (x.mountable && same_name x.devname name)) [
  | inl h ↦
      let own : x ≡ v = cc (some_found x v (find_mount name xs) h e) in
      (
        rw (h, h) (ap (λ w. some (with_fs fs w)) own),
        rw (h, h) (ap (λ k. with_fs k x ∷ xs) (ap fs_of (sym own))),
      )
  | inr h ↦
      let (found, back) = set_fs-found name fs v xs (rw h at e) in
      (rw (h, h) found, rw (h, h) (ap (λ us. x ∷ us) back))
]
  where
    some_found :
        (x v : Vdev) (rest : Option Vdev) {b : Bool}
        → b ≡ true
        → (if b then some x else rest) ≡ some v
        → some x ≡ some v
    some_found x v rest h e = rw h at e

-- A file system that has been mounted on a device without one makes the device busy, and, where
-- `fsop_sync` and `fsop_unmount` succeed, unmounting it restores the list of devices.
pub vfs_unmount-vfs_mount :
    (name : List ℕ) (mountfunc : ℕ → Result ℕ) (sync unmount : ℕ → Option Error) (v : Vdev) (fs : ℕ)
    (vs : List Vdev)
    → find_mount name vs ≡ some v
    → v.fs ≡ 0
    → mountfunc v.devnode ≡ ok fs
    → fs ≢ 0
    → sync fs ≡ none
    → unmount fs ≡ none
    → (vs' : List Vdev) × (vfs_mount name mountfunc vs ≡ ok vs')
      × (vfs_mount name mountfunc vs' ≡ err busy)
      × (vfs_unmount sync unmount name vs' ≡ ok vs)
unfolding vfs_mount vfs_unmount
vfs_unmount-vfs_mount name mountfunc sync unmount v fs vs e z m n s u =
    let (found, back) = set_fs-found name fs v vs e in
    let back' : set_fs name 0 (set_fs name fs vs) ≡ vs =
      subst (λ k. set_fs name k (set_fs name fs vs) ≡ vs) z back in
    (
      set_fs name fs vs,
      ground (arith, e, z, m, n),
      ground (arith, found, n),
      ground (arith, found, n, s, u, back'),
    )
