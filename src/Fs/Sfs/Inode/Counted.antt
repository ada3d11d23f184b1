-- ===== src/Fs/Sfs/Inode/Counted.antt =====
-- The operations of kern/fs/sfs/sfs_inode.c and the root of kern/fs/sfs/sfs_fs.c as those that the
-- inodes of an SFS name, and what they do to the references.
use os_qemu.Prelude.{
  ℕ, ◌+◌, ◌-◌, ◌≡◌, ◌⊎◌, ◌==◌, not, ◌||◌, refl, ◌∙◌, subst, arith, false, Option, none, some,
  Option-cases, Bool-cases, inl, inr, if◌then◌else◌,
}
use os_qemu.Prelude.Errors.{Error, Result, ok, err, panic, ◌>>=◌, ok-injective, stopped}
use os_qemu.Fs.Vfs.{Ret, ret, fail}
use os_qemu.Fs.Path.Counts.{taken}
use os_qemu.Fs.Sfs.{Device, Sfs, assert_inuse, sfs_block_inuse, sfs_block_free}
use os_qemu.Fs.Sfs.Inode.{Cache, with_sfs, with_sin, sfs_remove_links, sfs_fsync}
use os_qemu.Fs.Sfs.Inode.Calls.{vop_truncate, reclaim_links, reclaim_sync, sfs_reclaim}

-- What holds of a result, where there is one.
unfoldable pub After : {A : Type 0} → (A → Type 0) → Result A → Type 0
After P (ok a) = P a
After P (err e) = Unit {0}
After P panic = Unit {0}

pub now_After : {A : Type 0} (P : A → Type 0) (a : A) → P a → After P (ok a)
unfolding After
now_After P a h = h

pub panic_After : {A : Type 0} (P : A → Type 0) → After P panic
unfolding After
panic_After P = tt

pub After-ok : {A : Type 0} (P : A → Type 0) (q : Result A) (a : A) → After P q → q ≡ ok a → P a
unfolding After
After-ok P (ok b) a h e = subst P (ok-injective b a e) h
After-ok P (err x) a h e = ground arith
After-ok P panic a h e = absurd (stopped a e)

pub After-all :
    {A : Type 0} (P Q : A → Type 0) (q : Result A) → After P q → ((a : A) → P a → Q a) → After Q q
unfolding After
After-all P Q (ok a) h k = k a h
After-all P Q (err x) h k = tt
After-all P Q panic h k = tt

pub After-bind :
    {A B : Type 0} (P : A → Type 0) (Q : B → Type 0) (q : Result A) (f : A → Result B)
    → After P q
    → ((a : A) → P a → After Q (f a))
    → After Q (q >>= f)
unfolding After
After-bind P Q (ok a) f h k = k a h
After-bind P Q (err x) f h k = tt
After-bind P Q panic f h k = tt

pub After-any :
    {A B : Type 0} (Q : B → Type 0) (q : Result A) (f : A → Result B)
    → ((a : A) → After Q (f a))
    → After Q (q >>= f)
unfolding After
After-any Q (ok a) f k = k a
After-any Q (err x) f k = tt
After-any Q panic f k = tt

pub Ret-cases : {A : Type 0} (r : Ret A) → ((e : Error) × (r ≡ fail e)) ⊎ ((a : A) × (r ≡ ret a))
Ret-cases (fail e) = inl (e, refl)
Ret-cases (ret a) = inr (a, refl)

module _ {D : Type 0} where
  -- No count changes.
  abbrev pub Kept : {A : Type 0} → Cache D → A × Cache D → Type 0
  Kept c r = (x : ℕ) → r.1.ref_count x ≡ c.ref_count x

  -- The count of the inode that is returned grows by one, and no other.
  abbrev pub Given : Cache D → Ret ℕ × Cache D → Type 0
  Given c r = (x : ℕ) → r.1.ref_count x ≡ c.ref_count x + taken r.0 x

  pub assert_inuse-After :
      {A : Type 0} (P : A → Type 0) (ino : ℕ) (s : Sfs D) (q : Result A)
      → After P q
      → After P (assert_inuse ino s q)
  unfolding assert_inuse
  assert_inuse-After P ino s q h =
      After-any P (sfs_block_inuse ino s) _
        (λ b. elim (Bool-cases b) [ inl e ↦ rw e h | inr e ↦ rw e (panic_After _) ])

  module _ (ops : Device D) where
    sfs_fsync-Kept : (node : ℕ) (c : Cache D) → After (Kept c) (sfs_fsync ops node c)
    unfolding sfs_fsync
    sfs_fsync-Kept node c =
        let clean = record (c.sin node) { dirty = false } in
        let written : Option Error × Sfs D → Result (Option Error × Cache D) = λ w. elim w.0 [
          | none ↦ ok (none, with_sin node clean (with_sfs c w.1))
          | some e ↦ ok (some e, with_sfs c w.1)
        ] in
        let stays : (w : Option Error × Sfs D) → After (Kept c) (written w) = λ w.
          elim (Option-cases w.0) [
            | inl n ↦ rw n (now_After _ _ (λ x. refl))
            | inr (y, n) ↦ rw n (now_After _ _ (λ x. refl))
          ] in
        elim (Bool-cases (c.sin node).dirty) [
          | inr e ↦ rw e (now_After _ _ (λ x. refl))
          | inl e ↦ rw e (After-any (Kept c) _ written stays)
        ]

    vop_truncate-Kept : (node len : ℕ) (c : Cache D) → After (Kept c) (vop_truncate ops node len c)
    unfolding vop_truncate
    vop_truncate-Kept node len c = elim (Bool-cases ((c.sin node).din.kind == 2)) [
      | inl e ↦ rw e (panic_After _)
      | inr e ↦ rw e (After-any (Kept c) _ _ (λ r. now_After _ _ (λ x. refl)))
    ]

    reclaim_links-Kept : (node : ℕ) (c : Cache D) → After (Kept c) (reclaim_links node c)
    unfolding reclaim_links sfs_remove_links
    reclaim_links-Kept node c =
        let sin = c.sin node in
        let out = sfs_remove_links node c in
        let freed : Sfs D → Result (Option Error × Cache D) = λ s.
          (if sin.din.indirect == 0 then ok s else sfs_block_free sin.din.indirect s)
          >>= (λ t. ok (none, with_sfs out t)) in
        elim (Bool-cases (sin.din.nlinks == 0)) [
          | inr e ↦ rw e (now_After _ _ (λ x. refl))
          | inl e ↦ rw e (
              After-any (Kept c) _ freed (λ s.
                After-any (Kept c) _ (λ t. ok (none, with_sfs out t))
                  (λ t. now_After _ _ (λ x. refl))))
        ]

    -- Going on from a state with the same counts.
    Kept-from :
        (c d : Cache D) (q : Result (Option Error × Cache D))
        → ((x : ℕ) → d.ref_count x ≡ c.ref_count x)
        → After (Kept d) q
        → After (Kept c) q
    Kept-from c d q h k = After-all (Kept d) (Kept c) q k (λ r kept x. kept x ∙ h x)

    reclaim_sync-Kept : (node : ℕ) (c : Cache D) → After (Kept c) (reclaim_sync ops node c)
    unfolding reclaim_sync
    reclaim_sync-Kept node c = elim (Bool-cases (c.sin node).dirty) [
      | inr e ↦ rw e (reclaim_links-Kept node c)
      | inl e ↦ rw e (
          After-bind (Kept c) (Kept c) _ _ (sfs_fsync-Kept node c) (λ r k. elim (Option-cases r.0) [
            | inl n ↦
                rw n (Kept-from c r.1 (reclaim_links node r.1) k (reclaim_links-Kept node r.1))
            | inr (y, n) ↦ rw n (now_After _ _ k)
          ]))
    ]

    pub sfs_reclaim-Kept : (node : ℕ) (c : Cache D) → After (Kept c) (sfs_reclaim ops node c)
    unfolding sfs_reclaim
    sfs_reclaim-Kept node c =
        let sin = c.sin node in
        let less = with_sin node (record sin { reclaim_count = sin.reclaim_count - 1 }) c in
        elim (Bool-cases (sin.reclaim_count == 0)) [
          | inl e ↦ rw e (panic_After _)
          | inr e ↦
              elim (Bool-cases (not (sin.reclaim_count == 1) || not (c.ref_count node == 0))) [
                | inl e' ↦ rw (e, e') (now_After _ _ (λ x. refl))
                | inr e' ↦ elim (Bool-cases (sin.din.nlinks == 0)) [
                  | inr z ↦
                      rw (e, e', z)
                        (Kept-from c less (reclaim_sync ops node less) (λ x. refl)
                          (reclaim_sync-Kept node less))
                  | inl z ↦
                      rw (e, e', z)
                        (After-bind (Kept less) (Kept c) _ _ (vop_truncate-Kept node 0 less) (λ r k.
                          elim (Option-cases r.0) [
                            | inl n ↦ rw n (
                                Kept-from c r.1 (reclaim_sync ops node r.1) k
                                  (reclaim_sync-Kept node r.1))
                            | inr (y, n) ↦ rw n (now_After _ _ k)
                          ]))
                ]
              ]
        ]
