-- ===== src/Fs/Sfs/Inode/Vnode.antt =====
-- The operations that the inodes of an SFS name, `sfs_node_dirops` of kern/fs/sfs/sfs_inode.c and
-- `fs_get_root` of kern/fs/sfs/sfs_fs.c: what they do to the references that the inode layer counts.
use os_qemu.Prelude.{
  ℕ, ◌+◌, ◌≡◌, ◌≢◌, ◌==◌, not, ◌||◌, refl, arith, Bool, List, Option-cases, Bool-cases, inl, inr,
  get_or, if◌then◌else◌,
}
use os_qemu.Prelude.Errors.{Result, ok, panic, ◌>>=◌}
use os_qemu.Fs.Vfs.{Vfs, Ret, ret, fail, Vops}
use os_qemu.Fs.Path.Counts.{one, taken, Gains, Lawful}
use os_qemu.Fs.Sfs.{Block, Device, Sfs}
use os_qemu.Fs.Sfs.Bmap.{DiskInode, SfsInode}
use os_qemu.Fs.Sfs.Inode.{
  Cache, chain, with_sfs, with_sin, find_inode, sfs_set_links, take_inode, din_of, sfs_create_inode,
  read_inode, sfs_load_inode,
}
use os_qemu.Fs.Sfs.Inode.Calls.{sfs_reclaim, sfs_lookup_once, sfs_lookup, sfs_gettype, sfs_get_root}
use os_qemu.Fs.Sfs.Inode.Counted.{
  After, now_After, panic_After, After-ok, After-all, After-bind, After-any, Ret-cases, Kept, Given,
  assert_inuse-After, sfs_reclaim-Kept,
}

module _ {D : Type 0} where
  -- The count of the inode in the entry that is found grows by one.
  abbrev GivenAt : Cache D → Ret (ℕ × ℕ) × Cache D → Type 0
  GivenAt c r = Given c ((elim r.0 [ fail e ↦ fail e | ret at ↦ ret at.0 ]), r.1)

  sfs_create_inode-Given :
      (din : DiskInode) (ino fresh : ℕ) (c : Cache D)
      → (fresh ≢ 0 → c.ref_count fresh ≡ 0)
      → After (Given c) (sfs_create_inode din ino fresh c)
  unfolding sfs_create_inode
  sfs_create_inode-Given din ino fresh c z = elim (Bool-cases (fresh == 0)) [
    | inl e ↦ rw e (now_After _ _ (λ x. omega arith))
    | inr e ↦ elim (Bool-cases (not (din.kind == 2 || din.kind == 1))) [
      | inl e' ↦ rw (e, e') (panic_After _)
      | inr e' ↦
          rw (e, e')
            (now_After _ _ (λ x. elim (Bool-cases (x == fresh)) [
              | inl h ↦
                  let same : x ≡ fresh = ground arith in
                  let zero = z (λ k. ground arith) in rw (h, same, zero) refl
              | inr h ↦ rw h (omega arith)
            ]))
    ]
  ]

  module _ (ops : Device D) where
    read_inode-Given :
        (room : Bool) (fresh ino : ℕ) (c : Cache D)
        → (fresh ≢ 0 → c.ref_count fresh ≡ 0)
        → After (Given c) (read_inode ops room fresh ino c)
    unfolding read_inode sfs_set_links
    read_inode-Given room fresh ino c z =
        let made : Ret ℕ × Cache D → Result (Ret ℕ × Cache D) = λ n. elim n.0 [
          | fail e ↦ ok (fail e, n.1)
          | ret node ↦ ok (ret node, sfs_set_links node n.1)
        ] in
        let read : Ret Block × Sfs D → Result (Ret ℕ × Cache D) = λ r. elim r.0 [
          | fail e ↦ ok (fail e, with_sfs c r.1)
          | ret b ↦
              if (din_of b).nlinks == 0
              then panic
              else sfs_create_inode (din_of b) ino fresh (with_sfs c r.1) >>= made
        ] in
        let linked : (n : Ret ℕ × Cache D) → Given c n → After (Given c) (made n) = λ n g.
          elim (Ret-cases n.0) [
            | inl (y, e) ↦ rw e (now_After _ _ (λ x. let p = g x in rw e at p))
            | inr (node, e) ↦ rw e (now_After _ _ (λ x. let p = g x in rw e at p))
          ] in
        let going : (r : Ret Block × Sfs D) → After (Given c) (read r) = λ r. elim (Ret-cases r.0) [
          | inl (y, e) ↦ rw e (now_After _ _ (λ x. omega arith))
          | inr (b, e) ↦ elim (Bool-cases ((din_of b).nlinks == 0)) [
            | inl e' ↦ rw (e, e') (panic_After _)
            | inr e' ↦
                rw (e, e')
                  (After-bind (Given c) (Given c) _ made
                    (sfs_create_inode-Given (din_of b) ino fresh (with_sfs c r.1) z) linked)
          ]
        ] in
        elim (Bool-cases room) [
          | inr e ↦ rw e (now_After _ _ (λ x. omega arith))
          | inl e ↦
              rw e (assert_inuse-After (Given c) ino c.sfs _ (After-any (Given c) _ read going))
        ]

    sfs_load_inode-Given :
        (room : Bool) (fresh ino : ℕ) (c : Cache D)
        → (fresh ≢ 0 → c.ref_count fresh ≡ 0)
        → After (Given c) (sfs_load_inode ops room fresh ino c)
    unfolding sfs_load_inode take_inode
    sfs_load_inode-Given room fresh ino c z =
        elim (Option-cases (find_inode c.sin ino (chain ino c))) [
          | inl e ↦ rw (e, sfs_load_inode) (read_inode-Given room fresh ino c z)
          | inr (node, e) ↦
              rw (e, sfs_load_inode)
                (now_After _ _ (λ x. elim (Bool-cases (x == node)) [
                  | inl h ↦ let same : x ≡ node = ground arith in rw (h, same) refl
                  | inr h ↦ rw h (omega arith)
                ]))
        ]

    sfs_lookup_once-Given :
        (room : Bool × Bool) (fresh dir : ℕ) (name : List ℕ) (c : Cache D)
        → (fresh ≢ 0 → c.ref_count fresh ≡ 0)
        → After (GivenAt c) (sfs_lookup_once ops room fresh dir name c)
    unfolding sfs_lookup_once
    sfs_lookup_once-Given room fresh dir name c z =
        let after : Ret (ℕ × ℕ) × ℕ × SfsInode × Sfs D → Cache D =
          λ r. with_sin dir r.2 (with_sfs c r.3) in
        let loaded : ℕ × ℕ → Ret ℕ × Cache D → Result (Ret (ℕ × ℕ) × Cache D) =
          λ at l. elim l.0 [ fail e ↦ ok (fail e, l.1) | ret node ↦ ok (ret (node, at.1), l.1) ] in
        let searched : Ret (ℕ × ℕ) × ℕ × SfsInode × Sfs D → Result (Ret (ℕ × ℕ) × Cache D) = λ r.
          elim r.0 [
            | fail e ↦ ok (fail e, after r)
            | ret at ↦ sfs_load_inode ops room.1 fresh at.0 (after r) >>= loaded at
          ] in
        let given : (at : ℕ × ℕ) (l : Ret ℕ × Cache D)
            → Given c l
            → After (GivenAt c) (loaded at l) =
          λ at l g. elim (Ret-cases l.0) [
            | inl (y, e) ↦ rw e (now_After _ _ (λ x. let p = g x in rw e at p))
            | inr (node, e) ↦ rw e (now_After _ _ (λ x. let p = g x in rw e at p))
          ] in
        After-any (GivenAt c) _ searched (λ r. elim (Ret-cases r.0) [
          | inl (y, e) ↦ rw e (now_After _ _ (λ x. omega arith))
          | inr (at, e) ↦ rw e (
              After-bind (Given c) (GivenAt c) _ (loaded at)
                (sfs_load_inode-Given room.1 fresh at.0 (after r) z) (given at))
        ])

    sfs_lookup-Given :
        (room : Bool × Bool) (fresh dir : ℕ) (path : List ℕ) (c : Cache D)
        → (fresh ≢ 0 → c.ref_count fresh ≡ 0)
        → After (Given c) (sfs_lookup ops room fresh dir path c)
    unfolding sfs_lookup
    sfs_lookup-Given room fresh dir path c z =
        let first = get_or path 0 0 in
        let found : Ret (ℕ × ℕ) × Cache D → Result (Ret ℕ × Cache D) =
          λ r. elim r.0 [ fail e ↦ ok (fail e, r.1) | ret at ↦ ok (ret at.0, r.1) ] in
        let given : (r : Ret (ℕ × ℕ) × Cache D) → GivenAt c r → After (Given c) (found r) = λ r g.
          elim (Ret-cases r.0) [
            | inl (y, e) ↦ rw e (now_After _ _ (λ x. let p = g x in rw e at p))
            | inr (at, e) ↦ rw e (now_After _ _ (λ x. let p = g x in rw e at p))
          ] in
        elim (Bool-cases (first == 0 || first == 47)) [
          | inl e ↦ rw e (panic_After _)
          | inr e ↦ elim (Bool-cases (not ((c.sin dir).din.kind == 2))) [
            | inl e' ↦ rw (e, e') (now_After _ _ (λ x. omega arith))
            | inr e' ↦
                rw (e, e')
                  (After-bind (GivenAt c) (Given c) _ found
                    (sfs_lookup_once-Given room fresh dir path c z) given)
          ]
        ]

    sfs_get_root-Given :
        (room : Bool) (fresh : ℕ) (c : Cache D)
        → (fresh ≢ 0 → c.ref_count fresh ≡ 0)
        → After
            (λ r. (x : ℕ) → r.1.ref_count x ≡ c.ref_count x + one r.0 x)
            (sfs_get_root ops room fresh c)
    unfolding sfs_get_root
    sfs_get_root-Given room fresh c z =
        let rooted : Ret ℕ × Cache D → Result (ℕ × Cache D) =
          λ r. elim r.0 [ fail e ↦ panic | ret node ↦ ok (node, r.1) ] in
        After-bind (Given c) _ _ rooted (sfs_load_inode-Given room fresh 1 c z) (λ r g.
          elim (Ret-cases r.0) [
            | inl (y, e) ↦ rw e (panic_After _)
            | inr (node, e) ↦ rw e (now_After _ _ (λ x. let p = g x in rw e at p))
          ])

    sfs_gettype-Kept : (node : ℕ) (c : Cache D) → After (Kept c) (sfs_gettype node c)
    unfolding sfs_gettype
    sfs_gettype-Kept node c =
        let kind = (c.sin node).din.kind in
        elim (Bool-cases (kind == 2)) [
          | inl e ↦ rw e (now_After _ _ (λ x. refl))
          | inr e ↦ elim (Bool-cases (kind == 1)) [
            | inl e' ↦ rw (e, e') (now_After _ _ (λ x. refl))
            | inr e' ↦ elim (Bool-cases (kind == 3)) [
              | inl z ↦ rw (e, e', z) (now_After _ _ (λ x. refl))
              | inr z ↦ rw (e, e', z) (panic_After _)
            ]
          ]
        ]

-- The counts of the inode layer and those of the inodes in memory are the same fields.
abbrev pub cache_of : {D : Type 0} → Vfs (Cache D) → Cache D
cache_of v = record (v.disk) { ref_count = v.ref_count }

abbrev pub with_cache : {D : Type 0} → Vfs (Cache D) → Cache D → Vfs (Cache D)
with_cache v c = record v { ref_count = c.ref_count; disk = c }

-- The operations that an inode of an SFS names for a lookup, its type and its end, and the root of an
-- SFS; the others are those of `others`. `room` says whether there is memory, `alloc` is what
-- `alloc_inode` returns; an error of `sfs_reclaim` is only printed.
unfoldable pub sfs_vops :
    {D : Type 0}
    → Device D
    → (Vfs (Cache D) → Bool × Bool)
    → (Vfs (Cache D) → ℕ)
    → Vops (Cache D)
    → Vops (Cache D)
sfs_vops ops room alloc others = record others {
  fsop_get_root = λ fs v.
      sfs_get_root ops (room v).1 (alloc v) (cache_of v) >>= (λ r. ok (r.0, with_cache v r.1));
  vop_lookup = λ dir path v.
      sfs_lookup ops (room v) (alloc v) dir path (cache_of v) >>= (λ r. ok (r.0, with_cache v r.1));
  vop_gettype = λ node v. sfs_gettype node (cache_of v) >>= (λ r. ok (r.0, with_cache v r.1));
  vop_reclaim = λ node v. sfs_reclaim ops node (cache_of v) >>= (λ r. ok (with_cache v r.1));
}

module _ {D : Type 0} (ops : Device D) (room : Vfs (Cache D) → Bool × Bool)
    (alloc : Vfs (Cache D) → ℕ) (others : Vops (Cache D))
    (fresh : (v : Vfs (Cache D)) → alloc v ≢ 0 → v.ref_count (alloc v) ≡ 0) where
  -- What is so after the call on the inodes in memory is so after the operation.
  through :
      {A : Type 0} (P : A × Vfs (Cache D) → Type 0) (v : Vfs (Cache D)) (q : Result (A × Cache D))
      (r : A × Vfs (Cache D))
      → After (λ a. P (a.0, with_cache v a.1)) q
      → (q >>= (λ a. ok (a.0, with_cache v a.1))) ≡ ok r
      → P r
  through P v q r h e =
      After-ok P _ r
        (After-bind (λ a. P (a.0, with_cache v a.1)) P q (λ a. ok (a.0, with_cache v a.1)) h
          (λ a k. now_After P _ k))
        e

  -- The operations of an SFS, where they return, take the references that they give and no other, where
  -- a new inode, if there is memory for one, comes without references.
  pub sfs_vops-Lawful : Lawful (sfs_vops ops room alloc others)
  unfolding sfs_vops
  sfs_vops-Lawful = record {
    root = λ fs v r e.
        through (λ r. Gains (one r.0) v r.1) v (sfs_get_root ops (room v).1 (alloc v) (cache_of v))
          r
          (After-all _ _ _ (sfs_get_root-Given ops (room v).1 (alloc v) (cache_of v) (fresh v))
            (λ a g. record { counts = λ x n. g x; pwd = refl }))
          e;
    lookup = λ dir path v r e.
        through (λ r. Gains (taken r.0) v r.1) v
          (sfs_lookup ops (room v) (alloc v) dir path (cache_of v)) r
          (After-all _ _ _ (sfs_lookup-Given ops (room v) (alloc v) dir path (cache_of v) (fresh v))
            (λ a g. record { counts = λ x n. g x; pwd = refl }))
          e;
    gettype = λ node v r e.
        through (λ r. Gains (λ x. 0) v r.1) v (sfs_gettype node (cache_of v)) r
          (After-all _ _ _ (sfs_gettype-Kept ops node (cache_of v))
            (λ a g. record { counts = λ x n. let p = g x in omega arith; pwd = refl }))
          e;
    reclaim = λ node v w e.
        After-ok (λ u. Gains (λ x. 0) v u) _ w
          (After-bind (Kept (cache_of v)) (λ u. Gains (λ x. 0) v u)
            (sfs_reclaim ops node (cache_of v)) (λ a. ok (with_cache v a.1))
            (sfs_reclaim-Kept ops node (cache_of v))
            (λ a g.
              now_After _ _ (record { counts = λ x n. let p = g x in omega arith; pwd = refl })))
          e;
  }
