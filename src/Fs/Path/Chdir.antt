-- ===== src/Fs/Path/Chdir.antt =====
-- kern/fs/vfs/vfspath.c: the reference of the current directory.
use os_qemu.Prelude.{
  ℕ, ◌+◌, ◌≡◌, ◌≢◌, ◌==◌, refl, subst, ap, sym, ◌∙◌, arith, if◌then◌else◌, Option, none, some, List,
  Bool-cases, inl, inr,
}
use os_qemu.Prelude.Errors.{Error, Result, ok, ◌>>=◌, bind-ok, ok-injective, notdir}
use os_qemu.Fs.Vfs.{Vfs, Ret, ret, fail, Vops, vop_op, inode_ref_inc, inode_ref_dec}
use os_qemu.Fs.Path.{
  is_dir, set_pwd, drop_node, enter_dir, vfs_set_curdir, chdir_to, vfs_lookup, vfs_chdir,
}
use os_qemu.Fs.Path.Counts.{one, taken, Gains, Lawful, inc-Gains, vop_op-ok, dec-Loses}
use os_qemu.Fs.Path.Lookup.{vfs_lookup-Gains}

-- The reference that the current directory counts for.
abbrev pub held : ℕ → ℕ → ℕ
held pwd x = if pwd == 0 then 0 else one pwd x

held_self : (pwd : ℕ) → pwd ≢ 0 → held pwd pwd ≡ 1
held_self pwd ne = ground arith

held_one : (pwd : ℕ) → pwd ≢ 0 → (x : ℕ) → held pwd x ≡ one pwd x
held_one pwd ne x = ground arith

held_other : (pwd x : ℕ) → x ≢ pwd → held pwd x ≡ 0
held_other pwd x ne = ground arith

module _ {D : Type 0} where
  -- The counts change by the references of the current directory alone.
  abbrev Moved : Vfs D → Vfs D → Type 0
  Moved v u = (x : ℕ) → x ≢ 0 → u.ref_count x + held v.pwd x ≡ v.ref_count x + held u.pwd x

  same-Moved : {w t : Vfs D} → Gains (λ x. 0) w t → Moved w t
  same-Moved {w = w} {t = t} g x n =
      let p = g.counts x n in
      let q : held t.pwd x ≡ held w.pwd x = ap (λ n. held n x) g.pwd in omega arith

  -- Where a change of the directory has come to.
  abbrev Reached : ℕ → Vfs D → Option Error × Vfs D → Type 0
  Reached dir w (none, u) = u.pwd ≡ dir
  Reached dir w (some e, u) = u.pwd ≡ w.pwd

  abbrev Changed : ℕ → Vfs D → Option Error × Vfs D → Type 0
  Changed dir w r = Moved w r.1 × Reached dir w r

  -- The directory is that of the lookup, or where something has failed the one before.
  abbrev pub Arrived : Vfs D → Ret ℕ → Option Error × Vfs D → Type 0
  Arrived v (fail e) r = (r.0 ≡ some e) × (r.1.pwd ≡ v.pwd)
  Arrived v (ret node) (none, u) = u.pwd ≡ node
  Arrived v (ret node) (some e, u) = u.pwd ≡ v.pwd

  Moved-held :
      (v u : Vfs D)
      → Moved v u
      → (v.pwd ≢ 0 → v.ref_count v.pwd ≢ 0)
      → u.pwd ≢ 0
      → u.ref_count u.pwd ≢ 0
  Moved-held v u m h ne z = elim (Bool-cases (u.pwd == v.pwd)) [
    | inl e ↦
        let same : u.pwd ≡ v.pwd = ground arith in
        let was : v.ref_count u.pwd ≢ 0 =
          subst (λ n. v.ref_count n ≢ 0) (sym same) (h (subst (λ n. n ≢ 0) same ne)) in
        let p = m u.pwd ne in
        let q : held v.pwd u.pwd ≡ held u.pwd u.pwd = ap (λ n. held n u.pwd) (sym same) in
        was (omega arith)
    | inr e ↦
        let p = m u.pwd ne in
        let q = held_self u.pwd ne in
        let r = held_other v.pwd u.pwd (λ e'. ground arith) in omega arith
  ]

  arrived :
      (v w : Vfs D) (r : Option Error × Vfs D) (u : Vfs D) (node : ℕ)
      → w.pwd ≡ v.pwd
      → u.pwd ≡ r.1.pwd
      → Reached node w r
      → Arrived v (ret node) (r.0, u)
  arrived v w (none, t) u node p q reached = q ∙ reached
  arrived v w (some e, t) u node p q reached = q ∙ reached ∙ p

module _ {D : Type 0} (ops : Vops D) (law : Lawful ops) where
  drop_node-lem :
      (old : ℕ) (v u : Vfs D)
      → drop_node ops old v ≡ ok u
      → ((x : ℕ) → x ≢ 0 → u.ref_count x + held old x ≡ v.ref_count x) × (u.pwd ≡ v.pwd)
  drop_node-lem old v u e = elim (Bool-cases (old == 0)) [
    | inl z ↦
        let run : drop_node ops old v ≡ ok v = rw z refl in
        let none_held : (x : ℕ) → held old x ≡ 0 = λ x. rw z refl in
        subst
          (λ (w : Vfs D).
            ((x : ℕ) → x ≢ 0 → w.ref_count x + held old x ≡ v.ref_count x) × (w.pwd ≡ v.pwd))
          (ok-injective v u (sym run ∙ e)) ((λ x n. let p = none_held x in omega arith), refl)
    | inr z ↦
        let run : drop_node ops old v ≡ inode_ref_dec ops old v = rw z refl in
        let lost = dec-Loses ops law old v u (sym run ∙ e) in
        (
          (λ x n.
              let p = lost.counts x n in let q = held_one old (λ k. ground arith) x in omega arith),
          lost.pwd,
        )
  ]

  -- Making `dir`, with a reference of its own, the current directory.
  entered :
      (dir : ℕ) (w t u : Vfs D)
      → dir ≢ 0
      → Gains (λ x. 0) w t
      → drop_node ops w.pwd (set_pwd dir (inode_ref_inc dir t)) ≡ ok u
      → Changed dir w (none, u)
  entered dir w t u ne g e =
      let inc = inc-Gains dir t in
      let (lost, kept) = drop_node-lem w.pwd (set_pwd dir (inode_ref_inc dir t)) u e in
      (
        (λ x n.
            let p = lost x n in
            let q = inc.counts x n in
            let r = g.counts x n in
            let o = held_one dir ne x in
            let k : held u.pwd x ≡ held dir x = ap (λ n. held n x) kept in omega arith),
        kept,
      )

  enter_dir-Changed :
      (dir : ℕ) (w : Vfs D) (q : Ret ℕ × Vfs D) (r : Option Error × Vfs D)
      → dir ≢ 0
      → Gains (λ x. 0) w q.1
      → enter_dir ops w.pwd dir q ≡ ok r
      → Changed dir w r
  unfolding enter_dir
  enter_dir-Changed dir w (fail x, t) r ne g e =
      subst (Changed dir w) (ok-injective (some x, t) r e) (same-Moved g, g.pwd)
  enter_dir-Changed dir w (ret type, t) r ne g e = elim (Bool-cases (is_dir type)) [
    | inr z ↦
        let run : enter_dir ops w.pwd dir (ret type, t) ≡ ok (some notdir, t) = rw z refl in
        subst (Changed dir w) (ok-injective (some notdir, t) r (sym run ∙ e)) (same-Moved g, g.pwd)
    | inl z ↦
        let go : Result (Option Error × Vfs D) =
          drop_node ops w.pwd (set_pwd dir (inode_ref_inc dir t)) >>= (λ u. ok (none, u)) in
        let run : enter_dir ops w.pwd dir (ret type, t) ≡ go = rw z refl in
        let (u, dropped, same) =
          bind-ok (drop_node ops w.pwd (set_pwd dir (inode_ref_inc dir t))) _ r (sym run ∙ e) in
        subst (Changed dir w) (ok-injective (none, u) r same) (entered dir w t u ne g dropped)
  ]

  left_current :
      (w u : Vfs D) (r : Option Error × Vfs D)
      → drop_node ops w.pwd (set_pwd 0 w) ≡ ok u
      → (none, u) ≡ r
      → Changed 0 w r
  left_current w u r e same =
      let (lost, kept) = drop_node-lem w.pwd (set_pwd 0 w) u e in
      subst (Changed 0 w) same (
        (λ x n.
            let p = lost x n in
            let k : held u.pwd x ≡ held 0 x = ap (λ n. held n x) kept in omega arith),
        kept,
      )

  vfs_set_curdir-Changed :
      (dir : ℕ) (w : Vfs D) (r : Option Error × Vfs D)
      → vfs_set_curdir ops dir w ≡ ok r
      → Changed dir w r
  unfolding vfs_set_curdir
  vfs_set_curdir-Changed dir w r e = elim (Bool-cases (w.pwd == dir)) [
    | inl z ↦
        let here : w.pwd ≡ dir = ground arith in
        let run : vfs_set_curdir ops dir w ≡ ok (none, w) = rw z refl in
        subst (Changed dir w) (ok-injective (none, w) r (sym run ∙ e)) ((λ x n. refl), here)
    | inr z ↦ elim (Bool-cases (dir == 0)) [
      | inl z' ↦
          let null : dir ≡ 0 = ground arith in
          let go : Result (Option Error × Vfs D) =
            drop_node ops w.pwd (set_pwd dir w) >>= (λ u. ok (none, u)) in
          let run : vfs_set_curdir ops dir w ≡ go = rw (z, z') refl in
          let (u, dropped, same) =
            bind-ok (drop_node ops w.pwd (set_pwd dir w)) _ r (sym run ∙ e) in
          subst (λ d. Changed d w r) (sym null)
            (left_current w u r (subst (λ d. drop_node ops w.pwd (set_pwd d w) ≡ ok u) null dropped)
              (ok-injective (none, u) r same))
      | inr z' ↦
          let typed = vop_op dir w (ops.vop_gettype dir w) in
          let run : vfs_set_curdir ops dir w ≡ (typed >>= enter_dir ops w.pwd dir) =
            rw (z, z') refl in
          let (q, got, rest) = bind-ok typed _ r (sym run ∙ e) in
          enter_dir-Changed dir w q r (λ k. ground arith)
            (law.gettype dir w q (vop_op-ok dir w (ops.vop_gettype dir w) q got)) rest
    ]
  ]

  chdir_to-Arrived :
      (v : Vfs D) (l : Ret ℕ × List ℕ × Vfs D) (r : Option Error × Vfs D)
      → ((x : ℕ) → x ≢ 0 → l.2.ref_count x ≡ v.ref_count x + taken l.0 x)
      → l.2.pwd ≡ v.pwd
      → chdir_to ops l ≡ ok r
      → Moved v r.1 × Arrived v l.0 r
  unfolding chdir_to
  chdir_to-Arrived v (fail x, path, w) r c p e =
      subst (λ (y : Option Error × Vfs D). Moved v y.1 × Arrived v (fail x) y)
        (ok-injective (some x, w) r e)
        (same-Moved {w = v} {t = w} (record { counts = c; pwd = p }), (refl, p))
  chdir_to-Arrived v (ret node, path, w) r c p e =
      let (t, set_to, then_dec) = bind-ok (vfs_set_curdir ops node w) _ r e in
      let (u, dropped, same) = bind-ok (inode_ref_dec ops node t.1) _ r then_dec in
      let (m, reached) = vfs_set_curdir-Changed node w t set_to in
      let lost = dec-Loses ops law node t.1 u dropped in
      subst (λ (y : Option Error × Vfs D). Moved v y.1 × Arrived v (ret node) y)
        (ok-injective (t.0, u) r same)
        (
          (λ x n.
              let a = c x n in
              let b = m x n in
              let d = lost.counts x n in
              let k : held w.pwd x ≡ held v.pwd x = ap (λ n. held n x) p in
              let k' : held u.pwd x ≡ held t.1.pwd x = ap (λ n. held n x) lost.pwd in omega arith),
          arrived v w t u node p lost.pwd reached,
        )

  -- A change of the directory that returns, whether it succeeds or fails, has changed no count of an inode but for
  -- the reference of the current directory, which goes from the old one to the inode that the path is
  -- looked up to. It succeeds only with that inode as the directory; where the lookup fails its error is
  -- returned, and on any failure, that of a path to something else than a directory included, the
  -- directory stays. A current directory that had a reference leaves one that has. The operations of
  -- the file systems, where they return, take the references that they give and no other, as those of
  -- the simple file system do (`sfs_vops-Lawful`).
  pub vfs_chdir-Moved :
      (path : List ℕ) (v : Vfs D) (r : Option Error × Vfs D)
      → vfs_chdir ops path v ≡ ok r
      → (v.pwd ≢ 0 → v.ref_count v.pwd ≢ 0)
      → ((x : ℕ) → x ≢ 0 → r.1.ref_count x + held v.pwd x ≡ v.ref_count x + held r.1.pwd x)
        × (r.1.pwd ≢ 0 → r.1.ref_count r.1.pwd ≢ 0)
        × ((l : Ret ℕ × List ℕ × Vfs D) × (vfs_lookup ops path v ≡ ok l) × Arrived v l.0 r)
  unfolding vfs_chdir
  vfs_chdir-Moved path v r e h =
      let (l, found, rest) = bind-ok (vfs_lookup ops path v) _ r e in
      let (counts, same) = vfs_lookup-Gains ops law path v l found in
      let (moved, there) = chdir_to-Arrived v l r counts same rest in
      (moved, Moved-held v r.1 moved h, (l, found, there))
