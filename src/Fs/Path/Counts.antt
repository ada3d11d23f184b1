-- ===== src/Fs/Path/Counts.antt =====
-- kern/fs/vfs/vfslookup.c: a lookup takes one reference, on the inode that it returns, and gives back
-- those that it takes on its way.
use os_qemu.Prelude.{
  ℕ, ◌+◌, ◌-◌, ◌≡◌, ◌≢◌, ◌==◌, refl, sym, ap, ◌∙◌, subst, arith, if◌then◌else◌, List, Bool-cases,
  inl, inr,
}
use os_qemu.Prelude.Errors.{Result, ok, ok-injective, panic, stopped}
use os_qemu.Fs.Vfs.{
  Vfs, Ret, ret, fail, Vops, set_count, inode_check, vop_op, inode_ref_inc, inode_ref_dec,
}

abbrev pub one : ℕ → ℕ → ℕ
one node x = if x == node then 1 else 0

-- The reference that comes with a result.
abbrev pub taken : Ret ℕ → ℕ → ℕ
taken (fail e) x = 0
taken (ret node) x = one node x

abbrev pub taken_start : Ret (List ℕ × ℕ) → ℕ → ℕ
taken_start (fail e) x = 0
taken_start (ret at) x = one at.1 x

one_less :
    (f : ℕ → ℕ) (node : ℕ)
    → f node ≢ 0
    → (x : ℕ) → set_count f node (f node - 1) x + one node x ≡ f x
one_less f node ne x = elim (Bool-cases (x == node)) [
  | inl e ↦ rw e (let p : x ≡ node = ground arith in let q : f x ≡ f node = ap f p in ground arith)
  | inr e ↦ rw e (ground arith)
]

module _ {D : Type 0} where
  -- For the inodes, which are not NULL.
  pub record Gains (f : ℕ → ℕ) (v w : Vfs D) : Type 0 where
    pub counts : (x : ℕ) → x ≢ 0 → w.ref_count x ≡ v.ref_count x + f x
    pub pwd : w.pwd ≡ v.pwd

  pub record Loses (node : ℕ) (v w : Vfs D) : Type 0 where
    pub counts : (x : ℕ) → x ≢ 0 → w.ref_count x + one node x ≡ v.ref_count x
    pub pwd : w.pwd ≡ v.pwd

  -- What is asked of the operations of a file system, where they return: a lookup and the root of a
  -- file system come with a reference on the inode that they give and change no other count, and asking
  -- for a type or reclaiming changes none.
  pub record Lawful (ops : Vops D) : Type 0 where
    pub root :
        (fs : ℕ) (v : Vfs D) (r : ℕ × Vfs D) → ops.fsop_get_root fs v ≡ ok r → Gains (one r.0) v r.1
    pub lookup :
        (dir : ℕ) (path : List ℕ) (v : Vfs D) (r : Ret ℕ × Vfs D)
        → ops.vop_lookup dir path v ≡ ok r
        → Gains (taken r.0) v r.1
    pub gettype :
        (node : ℕ) (v : Vfs D) (r : Ret ℕ × Vfs D)
        → ops.vop_gettype node v ≡ ok r
        → Gains (λ x. 0) v r.1
    pub reclaim : (node : ℕ) (v w : Vfs D) → ops.vop_reclaim node v ≡ ok w → Gains (λ x. 0) v w

  pub inc-Gains : (node : ℕ) (v : Vfs D) → Gains (one node) v (inode_ref_inc node v)
  unfolding inode_ref_inc
  inc-Gains node v = record { counts = λ x n. ground arith; pwd = refl }

  pub same-Gains : (v : Vfs D) → Gains (λ x. 0) v v
  same-Gains v = record { counts = λ x n. omega arith; pwd = refl }

  pub Gains-Loses :
      {v w u : Vfs D} (f g : ℕ → ℕ) (node : ℕ)
      → Gains f v w
      → Loses node w u
      → ((x : ℕ) → f x ≡ g x + one node x)
      → Gains g v u
  Gains-Loses f g node a b e = record {
    counts = λ x n. let p = a.counts x n in let q = b.counts x n in let r = e x in omega arith;
    pwd = b.pwd ∙ a.pwd;
  }

  pub Gains-Gains :
      {v w u : Vfs D} (f g h : ℕ → ℕ)
      → Gains f v w
      → Gains g w u
      → ((x : ℕ) → h x ≡ f x + g x)
      → Gains h v u
  Gains-Gains f g h a b e = record {
    counts = λ x n. let p = a.counts x n in let q = b.counts x n in let r = e x in omega arith;
    pwd = b.pwd ∙ a.pwd;
  }

  -- A checked call that returns is one of the operation.
  pub vop_op-ok {ℓ} :
      {A : Type ℓ} (node : ℕ) (v : Vfs D) (q : Result A) (a : A) → vop_op node v q ≡ ok a → q ≡ ok a
  unfolding vop_op
  vop_op-ok node v q a e = elim (Bool-cases (inode_check node v)) [
    | inl c ↦ let run : vop_op node v q ≡ q = rw c refl in sym run ∙ e
    | inr c ↦ let run : vop_op node v q ≡ panic = rw c refl in absurd (stopped a (sym run ∙ e))
  ]

  pub dec-Loses :
      (ops : Vops D)
      → Lawful ops
      → (node : ℕ) (v u : Vfs D) → inode_ref_dec ops node v ≡ ok u
      → Loses node v u
  unfolding inode_ref_dec
  dec-Loses ops law node v u e =
      let less : Vfs D = record v {
        ref_count = set_count v.ref_count node (v.ref_count node - 1);
      } in
      elim (Bool-cases (v.ref_count node == 0)) [
        | inl z ↦
            let run : inode_ref_dec ops node v ≡ panic = rw z refl in
            absurd (stopped u (sym run ∙ e))
        | inr z ↦
            let held : v.ref_count node ≢ 0 = λ q. ground arith in
            elim (Bool-cases (v.ref_count node == 1)) [
              | inl z' ↦
                  let run : inode_ref_dec ops node v
                      ≡ vop_op node less (ops.vop_reclaim node less) =
                    rw (z, z') refl in
                  let killed =
                    law.reclaim node less u
                      (vop_op-ok node less (ops.vop_reclaim node less) u (sym run ∙ e)) in
                  record {
                    counts = λ x n.
                        let p = killed.counts x n in
                        let q = one_less v.ref_count node held x in omega arith;
                    pwd = killed.pwd;
                  }
              | inr z' ↦
                  let run : inode_ref_dec ops node v ≡ ok less = rw (z, z') refl in
                  subst (λ w. Loses node v w) (ok-injective less u (sym run ∙ e))
                    (record { counts = λ x n. one_less v.ref_count node held x; pwd = refl })
            ]
      ]
