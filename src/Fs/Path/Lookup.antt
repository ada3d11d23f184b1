-- ===== src/Fs/Path/Lookup.antt =====
-- kern/fs/vfs/vfslookup.c: the references that a lookup leaves.
use os_qemu.Prelude.{
  ℕ, zero, suc, ◌+◌, ◌≡◌, ◌≢◌, ◌==◌, refl, subst, sym, ◌∙◌, arith, if◌then◌else◌, Option, none,
  some, List, drop, set, Bool-cases, inl, inr,
}
use os_qemu.Prelude.Errors.{
  Result, ok, err, panic, ◌>>=◌, bind-ok, ok-injective, stopped, na_dev, no_dev,
}
use os_qemu.Fs.Device.{Vdev, find_dev}
use os_qemu.Fs.Vfs.{Vfs, Ret, ret, fail, Vops, vop_op, inode_ref_inc, inode_ref_dec}
use os_qemu.Fs.Path.{
  slash, colon, first, skip_slashes, scan_path, vfs_get_curdir, vfs_get_bootfs, device_root,
  vfs_get_root, Started, start, root_from, get_root_of, with_marks, get_device, lookup_from,
  vfs_lookup,
}
use os_qemu.Fs.Path.Counts.{
  one, taken, taken_start, Gains, Lawful, inc-Gains, same-Gains, Gains-Loses, Gains-Gains,
  vop_op-ok, dec-Loses,
}

module _ {D : Type 0} where
  -- A call that returns its reference, where it returns.
  abbrev Found : Vfs D → Result (Ret ℕ × Vfs D) → Type 0
  Found v q = (a : Ret ℕ × Vfs D) → q ≡ ok a → Gains (taken a.0) v a.1

  abbrev Begun : Vfs D → Result (Started D) → Type 0
  Begun v q = (r : Started D) → q ≡ ok r → Gains (taken_start r.0) v r.2

  now-Found :
      (v : Vfs D) (b : Ret ℕ × Vfs D) (q : Result (Ret ℕ × Vfs D))
      → q ≡ ok b
      → Gains (taken b.0) v b.1
      → Found v q
  now-Found v b q run g a e =
      subst (λ (x : Ret ℕ × Vfs D). Gains (taken x.0) v x.1) (ok-injective b a (sym run ∙ e)) g

  never-Found : (v : Vfs D) (q : Result (Ret ℕ × Vfs D)) → q ≡ panic → Found v q
  never-Found v q run a e = absurd (stopped a (sym run ∙ e))

  now-Begun : (v : Vfs D) (b : Started D) → Gains (taken_start b.0) v b.2 → Begun v (ok b)
  now-Begun v b g a e =
      subst (λ (x : Started D). Gains (taken_start x.0) v x.2) (ok-injective b a e) g

  vfs_get_curdir-Gains : (v : Vfs D) → Gains (taken (vfs_get_curdir v).0) v (vfs_get_curdir v).1
  unfolding vfs_get_curdir
  vfs_get_curdir-Gains v = elim (Bool-cases (v.pwd == 0)) [
    | inl e ↦ rw e (same-Gains v)
    | inr e ↦ rw e (inc-Gains v.pwd v)
  ]

  vfs_get_bootfs-Gains : (v : Vfs D) → Gains (taken (vfs_get_bootfs v).0) v (vfs_get_bootfs v).1
  unfolding vfs_get_bootfs
  vfs_get_bootfs-Gains v = elim (Bool-cases (v.bootfs_node == 0)) [
    | inl e ↦ rw e (same-Gains v)
    | inr e ↦ rw e (inc-Gains v.bootfs_node v)
  ]

  start-Begun :
      (v : Vfs D) (subpath path : List ℕ) (q : Result (Ret ℕ × Vfs D))
      → Found v q
      → Begun v (q >>= (λ r. ok (start subpath path r)))
  start-Begun v subpath path (ok (fail e, w)) h r q =
      now-Begun v (fail e, path, w) (h (fail e, w) refl) r q
  start-Begun v subpath path (ok (ret node, w)) h r q =
      now-Begun v (ret (subpath, node), path, w) (h (ret node, w) refl) r q
  start-Begun v subpath path (err x) h r q = ground arith
  start-Begun v subpath path panic h r q = absurd (stopped r q)

  started-Begun :
      (v : Vfs D) (subpath path : List ℕ) (r : Ret ℕ × Vfs D)
      → Gains (taken r.0) v r.1
      → Begun v (ok (start subpath path r))
  started-Begun v subpath path r g = start-Begun v subpath path (ok r) (now-Found v r (ok r) refl g)

module _ {D : Type 0} (ops : Vops D) (law : Lawful ops) where
  -- The root of a device's file system, `root` being what `fsop_get_root` gives.
  rooted-Found :
      (fs : ℕ) (v : Vfs D) (q : Result (ℕ × Vfs D))
      → ops.fsop_get_root fs v ≡ q
      → Found v (q >>= (λ root. ok (if root.0 == 0 then fail na_dev else ret root.0, root.1)))
  rooted-Found fs v (ok root) e a q =
      let gain = law.root fs v root e in
      elim (Bool-cases (root.0 == 0)) [
        | inl z ↦
            let null : root.0 ≡ 0 = ground arith in
            now-Found v (fail na_dev, root.1) _ (rw z refl)
              (record {
                counts = λ x n.
                    let p = gain.counts x n in
                    let o : one root.0 x ≡ 0 = ground arith in omega arith;
                pwd = gain.pwd;
              })
              a q
        | inr z ↦ now-Found v (ret root.0, root.1) _ (rw z refl) gain a q
      ]
  rooted-Found fs v (err x) e a e' = ground arith
  rooted-Found fs v panic e a e' = absurd (stopped a e')

  device_root-Found : (d : Vdev) (v : Vfs D) → Found v (device_root ops d v)
  unfolding device_root
  device_root-Found d v = elim (Bool-cases (d.fs == 0)) [
    | inr e ↦ rw e (rooted-Found d.fs v (ops.fsop_get_root d.fs v) refl)
    | inl e ↦ elim (Bool-cases d.mountable) [
      | inl e' ↦ rw (e, e') (now-Found v (fail na_dev, v) (ok (fail na_dev, v)) refl (same-Gains v))
      | inr e' ↦ elim (Bool-cases (d.devnode == 0)) [
        | inl z ↦ rw (e, e', z) (never-Found v panic refl)
        | inr z ↦
            rw (e, e', z)
              (now-Found v (ret d.devnode, inode_ref_inc d.devnode v)
                (ok (ret d.devnode, inode_ref_inc d.devnode v)) refl (inc-Gains d.devnode v))
      ]
    ]
  ]

  may_root-Found :
      (o : Option Vdev) (v : Vfs D)
      → Found v (elim o [ none ↦ ok (fail no_dev, v) | some d ↦ device_root ops d v ])
  may_root-Found none v = now-Found v (fail no_dev, v) (ok (fail no_dev, v)) refl (same-Gains v)
  may_root-Found (some d) v = device_root-Found d v

  vfs_get_root-Found : (name : List ℕ) (v : Vfs D) → Found v (vfs_get_root ops name v)
  unfolding vfs_get_root
  vfs_get_root-Found name v = may_root-Found (find_dev name v.devices) v

  left_root :
      (v w : Vfs D) (node : ℕ) (a : Ret ℕ × Vfs D)
      → Gains (one node) v w
      → (ops.fsop_get_root (w.in_fs node) w
          >>= (λ root. inode_ref_dec ops node root.1 >>= (λ u. ok (ret root.0, u))))
        ≡ ok a
      → Gains (taken a.0) v a.1
  left_root v w node a g e =
      let (root, got, then_dec) = bind-ok (ops.fsop_get_root (w.in_fs node) w) _ a e in
      let (u, dropped, same) = bind-ok (inode_ref_dec ops node root.1) _ a then_dec in
      let gain = law.root (w.in_fs node) w root got in
      let f : ℕ → ℕ = λ x. one node x + one root.0 x in
      let both : Gains f v root.1 = Gains-Gains (one node) (one root.0) f g gain (λ x. refl) in
      subst (λ (x : Ret ℕ × Vfs D). Gains (taken x.0) v x.1) (ok-injective (ret root.0, u) a same)
        (Gains-Loses f (one root.0) node both (dec-Loses ops law node root.1 u dropped)
          (λ x. omega arith))

  root_from-Found :
      (v : Vfs D) (r : Ret ℕ × Vfs D) → Gains (taken r.0) v r.1 → Found v (root_from ops r)
  unfolding root_from
  root_from-Found v (fail e, w) g = now-Found v (fail e, w) (ok (fail e, w)) refl g
  root_from-Found v (ret node, w) g = elim (Bool-cases (w.in_fs node == 0)) [
    | inl z ↦ rw z (never-Found v panic refl)
    | inr z ↦ rw z (λ a e. left_root v w node a g e)
  ]

  get_root_of-Begun : (path : List ℕ) (v : Vfs D) → Begun v (get_root_of ops path v)
  unfolding get_root_of
  get_root_of-Begun path v =
      let subpath = skip_slashes (drop 1 path) in
      elim (Bool-cases (first path == slash)) [
        | inl e ↦ rw e (started-Begun v subpath path (vfs_get_bootfs v) (vfs_get_bootfs-Gains v))
        | inr e ↦ elim (Bool-cases (first path == colon)) [
          | inl e' ↦
              rw (e, e')
                (start-Begun v subpath path (root_from ops (vfs_get_curdir v))
                  (root_from-Found v (vfs_get_curdir v) (vfs_get_curdir-Gains v)))
          | inr e' ↦ rw (e, e') (λ r q. absurd (stopped r q))
        ]
      ]

  with_marks-Begun :
      (path : List ℕ) (m : Option ℕ × Option ℕ) (v : Vfs D) → Begun v (with_marks ops path m v)
  unfolding with_marks
  with_marks-Begun path (s, some (suc i)) v =
      start-Begun v _ _ _ (vfs_get_root-Found (set path (suc i) 0) v)
  with_marks-Begun path (s, some zero) v = get_root_of-Begun path v
  with_marks-Begun path (some zero, none) v = get_root_of-Begun path v
  with_marks-Begun path (some (suc i), none) v =
      started-Begun v path path (vfs_get_curdir v) (vfs_get_curdir-Gains v)
  with_marks-Begun path (none, none) v =
      started-Begun v path path (vfs_get_curdir v) (vfs_get_curdir-Gains v)

  get_device-Begun : (path : List ℕ) (v : Vfs D) → Begun v (get_device ops path v)
  unfolding get_device
  get_device-Begun path v = with_marks-Begun path (scan_path path 0) v

  -- The part of `lookup_from` that calls `vop_lookup`.
  looked_up :
      (v w : Vfs D) (node : ℕ) (subpath path : List ℕ) (l : Ret ℕ × List ℕ × Vfs D)
      → Gains (one node) v w
      → (vop_op node w (ops.vop_lookup node subpath w)
          >>= (λ found. inode_ref_dec ops node found.1 >>= (λ u. ok (found.0, path, u))))
        ≡ ok l
      → Gains (taken l.0) v l.2
  looked_up v w node subpath path l g e =
      let (found, got, then_dec) = bind-ok (vop_op node w (ops.vop_lookup node subpath w)) _ l e in
      let (u, dropped, same) = bind-ok (inode_ref_dec ops node found.1) _ l then_dec in
      let gain =
        law.lookup node subpath w found
          (vop_op-ok node w (ops.vop_lookup node subpath w) found got) in
      let f : ℕ → ℕ = λ x. one node x + taken found.0 x in
      let both : Gains f v found.1 = Gains-Gains (one node) (taken found.0) f g gain (λ x. refl) in
      subst (λ (x : Ret ℕ × List ℕ × Vfs D). Gains (taken x.0) v x.2)
        (ok-injective (found.0, path, u) l same)
        (Gains-Loses f (taken found.0) node both (dec-Loses ops law node found.1 u dropped)
          (λ x. omega arith))

  lookup_from-Gains :
      (v : Vfs D) (r : Started D) (l : Ret ℕ × List ℕ × Vfs D)
      → Gains (taken_start r.0) v r.2
      → lookup_from ops r ≡ ok l
      → Gains (taken l.0) v l.2
  unfolding lookup_from
  lookup_from-Gains v (fail e, path, w) l g q =
      subst (λ (x : Ret ℕ × List ℕ × Vfs D). Gains (taken x.0) v x.2)
        (ok-injective (fail e, path, w) l q) g
  lookup_from-Gains v (ret at, path, w) l g q = elim (Bool-cases (first at.0 == 0)) [
    | inl z ↦
        let run : lookup_from ops (ret at, path, w) ≡ ok (ret at.1, path, w) = rw z refl in
        subst (λ (x : Ret ℕ × List ℕ × Vfs D). Gains (taken x.0) v x.2)
          (ok-injective (ret at.1, path, w) l (sym run ∙ q)) g
    | inr z ↦ looked_up v w at.1 at.0 path l g (rw z at q)
  ]

  -- A lookup that returns has taken one reference, on the inode that it returns, and none where it
  -- fails: the counts of all other inodes are as they were, those of the directory that it starts from and of the
  -- roots that it comes by included, and the current directory is the same. The operations of the file
  -- systems, where they return, take the references that they give and no other, as those of
  -- the simple file system do (`sfs_vops-Lawful`).
  pub vfs_lookup-Gains :
      (path : List ℕ) (v : Vfs D) (l : Ret ℕ × List ℕ × Vfs D)
      → vfs_lookup ops path v ≡ ok l
      → ((x : ℕ) → x ≢ 0 → l.2.ref_count x ≡ v.ref_count x + taken l.0 x) × (l.2.pwd ≡ v.pwd)
  unfolding vfs_lookup
  vfs_lookup-Gains path v l e =
      let (r, started, rest) = bind-ok (get_device ops path v) _ l e in
      let g = lookup_from-Gains v r l (get_device-Begun path v r started) rest in (g.counts, g.pwd)
