-- ===== src/Tests/Paths.antt =====
-- Paths at concrete inputs.
use os_qemu.Prelude.{
  ℕ, ◌+◌, ◌≡◌, ◌≢◌, ◌==◌, refl, true, false, if◌then◌else◌, Option, none, List, [], ◌∷◌, ◌++◌,
  arith, Bool-cases, inl, inr, replicate,
}
use os_qemu.Prelude.Errors.{Error, Result, ok, no_dev}
use os_qemu.Fs.Device.{find_dev}
use os_qemu.Fs.Iobuf.{Iobuf}
use os_qemu.Fs.Vfs.{
  Vfs, Vops, set_count, Ret, ret, fail, inode_check, vop_op, inode_ref_inc, inode_ref_dec,
}
use os_qemu.Fs.Path.{
  slash, Started, start, scan_path, skip_slashes, root_from, get_root_of, with_marks, get_device,
  vfs_get_curdir, vfs_get_root, lookup_from, vfs_lookup, enter_dir, vfs_set_curdir, chdir_to,
  vfs_chdir,
}
use os_qemu.Fs.Path.Forms.{
  Form, in_device, path_of, IsForm, outcome, get_device-form_of, get_device-again,
}
use os_qemu.Fs.Path.Counts.{taken, Lawful}
use os_qemu.Fs.Path.Lookup.{vfs_lookup-Gains}
use os_qemu.Fs.Path.Chdir.{held, Arrived, vfs_chdir-Moved}
use os_qemu.Fs.Sfs.Inode.{Cache, find_inode, take_inode, sfs_load_inode}
use os_qemu.Fs.Sfs.Inode.Calls.{sfs_get_root, sfs_gettype}
use os_qemu.Fs.Sfs.Inode.Vnode.{sfs_vops, sfs_vops-Lawful}
use os_qemu.Tests.Disk.{Disk, disk, small_fs}

abbrev Inodes : Type 0
Inodes = Cache Disk

abbrev no_transfer : ℕ → Iobuf → Vfs Inodes → Result (Option Error × Iobuf × Vfs Inodes)
no_transfer node iob v = ok (none, iob, v)

-- A file system with the root 51, where every name is that of the directory 50.
abbrev one_dir : Vops Inodes
one_dir = record {
  fsop_get_root = λ fs v. ok (51, inode_ref_inc 51 v);
  vop_lookup = λ dir path v. ok (ret 50, inode_ref_inc 50 v);
  vop_gettype = λ node v. ok (ret 8192, v);
  vop_create = λ dir name excl v. ok (ret 50, v);
  vop_open = λ node flags v. ok (none, v);
  vop_truncate = λ node len v. ok (none, v);
  vop_close = λ node v. ok v;
  vop_reclaim = λ node v. ok v;
  vop_read = no_transfer;
  vop_write = no_transfer;
  vop_getdirentry = no_transfer;
  vop_fstat = λ node v. ok (ret 100, v);
  vop_fsync = λ node v. ok (none, v);
  vop_tryseek = λ node offset v. ok (none, v);
}

-- The directories: the root at 51, number 1, and one at 52, both without entries.
abbrev two_dirs : Inodes
two_dirs = record {
  sfs = small_fs;
  sin = λ node. record {
    din = record { size = 0; kind = 2; nlinks = 2; blocks = 0; direct = λ k. 0; indirect = 0 };
    ino = if node == 51 then 1 else 4;
    dirty = false;
    reclaim_count = 1;
  };
  ref_count = λ n. 0;
  inode_list = 52 ∷ 51 ∷ [];
  hash_list = λ h. 51 ∷ [];
}

abbrev in_root : Vfs Inodes
in_root = record {
  ref_count = λ n. if n == 51 then 1 else if n == 52 then 2 else 0;
  open_count = λ n. 0;
  in_fs = λ n. 1;
  pwd = 52;
  bootfs_node = 51;
  devices = [];
  disk = two_dirs;
}

-- The memory at 900 is what `alloc_inode` returns, if no inode is there.
abbrev alloc : Vfs Inodes → ℕ
alloc v = if v.ref_count 900 == 0 then 900 else 0

abbrev on_sfs : Vops Inodes
on_sfs = sfs_vops disk (λ v. (true, true)) alloc one_dir

on_sfs-Lawful : Lawful on_sfs
on_sfs-Lawful = sfs_vops-Lawful disk (λ v. (true, true)) alloc one_dir alloc_new
  where
    alloc_new : (v : Vfs Inodes) → alloc v ≢ 0 → v.ref_count (alloc v) ≡ 0
    alloc_new v = elim (Bool-cases (v.ref_count 900 == 0)) [
      | inl e ↦ rw e (λ n. ground arith)
      | inr e ↦ rw e (λ n. absurd (n refl))
    ]

-- "d:/a", and "a".
abbrev on_device : List ℕ
on_device = 100 ∷ 58 ∷ 47 ∷ 97 ∷ 0 ∷ []

abbrev in_curdir : List ℕ
in_curdir = 97 ∷ 0 ∷ []

on_device-IsForm : IsForm (in_device (100 ∷ []) 1 (97 ∷ 0 ∷ []))
unfolding IsForm
on_device-IsForm = (
  ((λ e. ground arith), (λ e. ground arith), (λ e. ground arith), tt),
  (λ e. ground arith),
  λ e. ground arith,
)

get_device-form_of_example :
    (f : Form) × IsForm f
    × (path_of f ≡ on_device)
    × (get_device one_dir on_device in_root ≡ outcome one_dir f in_root)
get_device-form_of_example = get_device-form_of one_dir in_root on_device

-- ":", the root of the file system of the current directory.
abbrev root_path : List ℕ
root_path = 58 ∷ 0 ∷ []

-- The counts with the current directory held and the root loaded.
abbrev loaded : ℕ → ℕ
loaded = set_count (set_count in_root.ref_count 52 3) 51 2

abbrev root_gained : Vfs Inodes
root_gained = record in_root {
  ref_count = set_count loaded 52 2;
  disk = record two_dirs { ref_count = loaded };
}

root_found : vfs_lookup on_sfs root_path in_root ≡ ok (ret 51, root_path, root_gained)
unfolding vfs_lookup get_device with_marks scan_path get_root_of root_from vfs_get_curdir
    skip_slashes sfs_vops sfs_get_root sfs_load_inode find_inode take_inode inode_ref_inc
    inode_ref_dec lookup_from
root_found = refl

vfs_lookup-Gains_example :
    ((x : ℕ) → x ≢ 0 → root_gained.ref_count x ≡ in_root.ref_count x + taken (ret 51) x)
    × (root_gained.pwd ≡ in_root.pwd)
vfs_lookup-Gains_example =
    vfs_lookup-Gains on_sfs on_sfs-Lawful root_path in_root (ret 51, root_path, root_gained)
      root_found

-- The root is the current directory.
abbrev at_root : Vfs Inodes
at_root = record root_gained {
  ref_count = set_count (set_count (set_count root_gained.ref_count 51 3) 52 1) 51 2;
  pwd = 51;
  disk = record two_dirs { ref_count = root_gained.ref_count };
}

root_entered : vfs_chdir on_sfs root_path in_root ≡ ok (none, at_root)
unfolding vfs_chdir vfs_lookup get_device with_marks scan_path get_root_of root_from vfs_get_curdir
    skip_slashes sfs_vops sfs_get_root sfs_load_inode find_inode take_inode inode_ref_inc
    inode_ref_dec lookup_from chdir_to vfs_set_curdir enter_dir vop_op inode_check sfs_gettype
root_entered = refl

vfs_chdir-Moved_example :
    ((x : ℕ) → x ≢ 0 → at_root.ref_count x + held 52 x ≡ in_root.ref_count x + held 51 x)
    × (at_root.pwd ≢ 0 → at_root.ref_count 51 ≢ 0)
    × ((l : Ret ℕ × List ℕ × Vfs Inodes) × (vfs_lookup on_sfs root_path in_root ≡ ok l)
        × Arrived in_root l.0 (none, at_root))
vfs_chdir-Moved_example =
    vfs_chdir-Moved on_sfs on_sfs-Lawful root_path in_root (none, at_root) root_entered
      (λ n e. ground arith)

-- Without devices the first call returns an error, and has cut the path all the same.
abbrev cut_short : Started Inodes
cut_short = (fail no_dev, 100 ∷ 0 ∷ 47 ∷ 97 ∷ 0 ∷ [], in_root)

no_device :
    get_device one_dir (path_of (in_device (100 ∷ []) 1 (97 ∷ 0 ∷ []))) in_root ≡ ok cut_short
unfolding path_of get_device with_marks scan_path skip_slashes vfs_get_root find_dev
no_device = refl

get_device-again_example :
    (cut_short.1 ≡ (100 ∷ []) ++ 0 ∷ (replicate 1 slash ++ 97 ∷ 0 ∷ []))
    × (get_device one_dir cut_short.1 in_root
        ≡ ok (start cut_short.1 cut_short.1 (vfs_get_curdir in_root)))
get_device-again_example =
    get_device-again one_dir in_root in_root (100 ∷ []) 1 (97 ∷ 0 ∷ []) on_device-IsForm cut_short
      no_device
