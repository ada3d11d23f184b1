-- ===== src/Proc/Life/Reap.antt =====
-- What `do_wait` of kern/process/proc.c does with a child that is a zombie, and when there is none.
use os_qemu.Prelude.{
  ℕ, zero, suc, ◌≤◌, ◌<◌, ◌≡◌, ◌≢◌, ◌⊎◌, inl, inr, refl, sym, ◌∙◌, ap, subst, ◌==◌, not, ltb, Bool,
  true, false, if◌then◌else◌, Option, none, some, List, [], ◌∷◌, ◌++◌, length, arith, Bool-cases,
}
use os_qemu.Prelude.Errors.{ok, ◌>>=◌, bad_proc}
use os_qemu.Libs.Dlist.Ring.{Fresh, first_of}
use os_qemu.Sched.Proc.{sleeping, is_zombie, set_proc, wt_child}
use os_qemu.Proc.Table.{Table, hash32, hash_shift, unhash_proc, remove_links, find_proc}
use os_qemu.Proc.Table.Hash.{Once, OnlyOne, find_proc-unhash_proc}
use os_qemu.Proc.Table.Family.{Siblings, ParentOf, Children}
use os_qemu.Proc.Table.Leave.{remove_links-Children}
use os_qemu.Proc.Life.{
  Kernel, Resources, kernbase, put_kstack, free_proc, find_zombie, search_child, reap, reaped,
  refused, asleep, do_wait,
}
use os_qemu.Proc.Life.Orphans.{OptrChain, Siblings-OptrChain}

module _ {M : Type 0} where
  -- What the search over the children comes to.
  data Zombie (k : Kernel M) (xs : List ℕ) : Option ℕ → Type 0 where
    no_zombie :
        ((p : ℕ) (ys zs : List ℕ) → xs ≡ ys ++ p ∷ zs → is_zombie (k.sched.procs p).state ≡ false)
        → Zombie k xs none
    first_zombie :
        (p : ℕ) (ys zs : List ℕ)
        → xs ≡ ys ++ p ∷ zs
        → is_zombie (k.sched.procs p).state ≡ true
        → Zombie k xs (some p)

  find_zombie-Zombie :
      (fuel : ℕ) (k : Kernel M) (xs : List ℕ)
      → length xs < fuel
      → OptrChain k.table xs
      → Fresh 0 xs
      → Zombie k xs (find_zombie fuel (first_of xs 0) k)
  unfolding find_zombie
  find_zombie-Zombie zero k xs lt o z = absurd (omega arith)
  find_zombie-Zombie (suc fuel) k [] lt o z = no_zombie none_there
    where
      none_there :
          (p : ℕ) (ys zs : List ℕ) → [] ≡ ys ++ p ∷ zs → is_zombie (k.sched.procs p).state ≡ false
      none_there p [] zs e = absurd (ground arith)
      none_there p (y ∷ ys) zs e = absurd (ground arith)
  find_zombie-Zombie (suc fuel) k (x ∷ xs) lt o z =
      let n : (x == 0) ≡ false = let ne = z.0 in ground arith in
      elim (Bool-cases (is_zombie (k.sched.procs x).state)) [
        | inl y ↦ rw (n, y) (first_zombie x [] xs refl y)
        | inr y ↦
            rw (n, y, o.0)
              (past y (find_zombie fuel (first_of xs 0) k)
                (find_zombie-Zombie fuel k xs (omega arith) o.1 z.1))
      ]
    where
      past :
          is_zombie (k.sched.procs x).state ≡ false
          → (r : Option ℕ) → Zombie k xs r
          → Zombie k (x ∷ xs) r
      past n none (no_zombie f) = no_zombie ahead
        where
          ahead :
              (p : ℕ) (ys zs : List ℕ)
              → x ∷ xs ≡ ys ++ p ∷ zs
              → is_zombie (k.sched.procs p).state ≡ false
          ahead p [] zs e = let q : x ≡ p = ground (arith, e) in rw (sym q) n
          ahead p (y ∷ ys) zs e = f p ys zs (cc e)
      past n (some q) (first_zombie p ys zs e h) = first_zombie p (x ∷ ys) zs (ap (λ l. x ∷ l) e) h

Siblings-same :
    (t t' : Table) (y : ℕ) (xs : List ℕ)
    → ((x : ℕ) → t'.yptr x ≡ t.yptr x)
    → ((x : ℕ) → t'.optr x ≡ t.optr x)
    → Siblings t y xs
    → Siblings t' y xs
Siblings-same t t' y [] f g h = tt
Siblings-same t t' y (x ∷ xs) f g h = (f x ∙ h.0, g x ∙ h.1, Siblings-same t t' x xs f g h.2)

ParentOf-same :
    (t t' : Table) (p : ℕ) (xs : List ℕ)
    → ((x : ℕ) → t'.parent x ≡ t.parent x)
    → ParentOf t p xs
    → ParentOf t' p xs
ParentOf-same t t' p [] f h = tt
ParentOf-same t t' p (x ∷ xs) f h = (f x ∙ h.0, ParentOf-same t t' p xs f h.1)

-- Taking a process off its chain leaves the families.
unhash_proc-Children :
    (p parent : ℕ) (t : Table) (xs : List ℕ)
    → Children t parent xs
    → Children (unhash_proc p t) parent xs
unfolding unhash_proc
unhash_proc-Children p parent t xs c = record {
  youngest = c.youngest;
  linked = Siblings-same t (unhash_proc p t) 0 xs (λ x. refl) (λ x. refl) c.linked;
  distinct = c.distinct;
  present = c.present;
  parents = ParentOf-same t (unhash_proc p t) parent xs (λ x. refl) c.parents;
}

parent_unhash : (p x : ℕ) (t : Table) → (unhash_proc p t).parent x ≡ t.parent x
unfolding unhash_proc
parent_unhash p x t = refl

find_proc-remove_links : (p n : ℕ) (t : Table) → find_proc (remove_links p t) n ≡ find_proc t n
unfolding find_proc remove_links
find_proc-remove_links p n t = refl

pub child_parent :
    (t : Table) (parent p : ℕ) (xs ys : List ℕ)
    → ParentOf t parent (xs ++ p ∷ ys)
    → t.parent p ≡ parent
child_parent t parent p [] ys h = h.0
child_parent t parent p (x ∷ xs) ys h = child_parent t parent p xs ys h.1

module _ {M : Type 0} (res : Resources M) where
  -- A child that can be taken away: its stack is one of the kernel's, it stands once on its chain with
  -- a number of its own, and is neither the idle process nor `initproc`.
  pub record Reapable (k : Kernel M) (p : ℕ) : Type 0 where
    pub stack : kernbase ≤ k.kstack p
    pub hashed : Once p (k.table.hash_list (hash32 (k.table.pid p) hash_shift))
    pub own_pid :
        OnlyOne k.table.pid p
          (k.table.pid p)
          (k.table.hash_list (hash32 (k.table.pid p) hash_shift))
    pub not_idle : p ≢ k.sched.idleproc
    pub not_init : p ≢ k.initproc

  -- A child that is gone.
  pub record Gone (k : Kernel M) (p : ℕ) (others : List ℕ) (k' : Kernel M) : Type 0 where
    pub family : Children k'.table k.sched.current others
    pub found :
        (n : ℕ) → find_proc k'.table n ≡ (if n == k.table.pid p then 0 else find_proc k.table n)
    pub freed : k'.live p ≡ false
    pub same_sched : k'.sched ≡ k.sched

  reap-Gone :
      (k : Kernel M) (p : ℕ) (xs ys : List ℕ)
      → Children k.table k.sched.current (xs ++ p ∷ ys)
      → Reapable k p
      → (k' : Kernel M) × (reap res p k ≡ ok (k.exit_code p, k')) × Gone k p (xs ++ ys) k'
  unfolding reap put_kstack
  reap-Gone k p xs ys c r =
      let i : (p == k.sched.idleproc) ≡ false = let n = r.not_idle in ground arith in
      let j : (p == k.initproc) ≡ false = let n = r.not_init in ground arith in
      let s : ltb (k.kstack p) kernbase ≡ false = let n = r.stack in ground arith in
      let same = child_parent k.table k.sched.current p xs ys c.parents in
      let unhashed : Children (unhash_proc p k.table) ((unhash_proc p k.table).parent p)
          (xs ++ p ∷ ys) =
        rw (parent_unhash p p k.table, same)
          (unhash_proc-Children p k.sched.current k.table (xs ++ p ∷ ys) c) in
      let left = remove_links-Children p (unhash_proc p k.table) xs ys unhashed in
      let unlinked : Kernel M = record k {
        table = remove_links p (unhash_proc p k.table);
        memory = res.free_kstack (k.kstack p) k.memory;
      } in
      (
        free_proc res p unlinked,
        rw (i, j, s) refl,
        record {
          family =
              subst (λ q. Children (remove_links p (unhash_proc p k.table)) q (xs ++ ys))
                (parent_unhash p p k.table ∙ same) left;
          found = λ n.
              find_proc-remove_links p n (unhash_proc p k.table)
              ∙ find_proc-unhash_proc p n k.table r.hashed r.own_pid;
          freed = ground arith;
          same_sched = refl;
        },
      )

  -- What a round of `do_wait` for any child comes to.
  abbrev pub WaitRound : ℕ → List ℕ → Kernel M → Type 0
  WaitRound fuel xs k =
      ((xs ≡ []) × (do_wait res fuel true 0 k ≡ ok (refused bad_proc k)))
      ⊎ (((xs ≢ [])
            × ((p : ℕ) (ys zs : List ℕ)
                → xs ≡ ys ++ p ∷ zs
                → is_zombie (k.sched.procs p).state ≡ false)
            × ((k' : Kernel M) × (do_wait res fuel true 0 k ≡ ok (asleep k'))
                × ((k'.sched.procs k.sched.current).state ≡ sleeping)
                × ((k'.sched.procs k.sched.current).wait_state ≡ wt_child)
                × (k'.table ≡ k.table)))
          ⊎ ((p : ℕ) × (ys : List ℕ) × (zs : List ℕ) × (xs ≡ ys ++ p ∷ zs)
              × (is_zombie (k.sched.procs p).state ≡ true)
              × ((k' : Kernel M) × (do_wait res fuel true 0 k ≡ ok (reaped (k.exit_code p) k'))
                  × Gone k p (ys ++ zs) k')))

  module _ (fuel : ℕ) (xs : List ℕ) (k : Kernel M) (enough : length xs < fuel)
      (c : Children k.table k.sched.current xs)
      (can : (p : ℕ) (ys zs : List ℕ)
        → xs ≡ ys ++ p ∷ zs
        → is_zombie (k.sched.procs p).state ≡ true
        → Reapable k p) where
    search_eq :
        search_child fuel 0 k ≡ (not (first_of xs 0 == 0), find_zombie fuel (first_of xs 0) k)
    unfolding search_child
    search_eq = rw c.youngest refl

    wait_none :
        (b : Bool)
        → search_child fuel 0 k ≡ (b, none)
        → do_wait res fuel true 0 k ≡ (
            if b
            then ok (
                asleep (record k {
                  sched =
                      set_proc k.sched.current
                        (record (k.sched.procs k.sched.current) {
                          state = sleeping;
                          wait_state = wt_child;
                        })
                        k.sched;
                }))
            else ok (refused bad_proc k))
    unfolding do_wait
    wait_none b e = rw (e, do_wait) (rw e refl)

    wait_some :
        (b : Bool) (p : ℕ)
        → search_child fuel 0 k ≡ (b, some p)
        → do_wait res fuel true 0 k ≡ (reap res p k >>= (λ r. ok (reaped r.0 r.1)))
    unfolding do_wait
    wait_some b p e = rw (e, do_wait) refl

    by_search :
        (o : Option ℕ)
        → find_zombie fuel (first_of xs 0) k ≡ o
        → Zombie k xs o
        → (zs : List ℕ) → xs ≡ zs
        → WaitRound fuel xs k
    by_search none e (no_zombie f) [] q = inl (q, wait_none false (search_eq ∙ rw (e, q) refl))
    by_search none e (no_zombie f) (z ∷ zs) q =
        let there : (first_of xs 0 == 0) ≡ false =
          let p : Fresh 0 (z ∷ zs) = subst (Fresh 0) q c.present in
          let n = p.0 in rw q (ground arith) in
        inr (
          inl (
            (λ h. ground (arith, sym q ∙ h)),
            f,
            (
              record k {
                sched =
                    set_proc k.sched.current
                      (record (k.sched.procs k.sched.current) {
                        state = sleeping;
                        wait_state = wt_child;
                      })
                      k.sched;
              },
              wait_none true (search_eq ∙ rw (e, there) refl),
              ground arith,
              ground arith,
              refl,
            ),
          ))
    by_search (some o) e (first_zombie p ys zs s h) l q =
        let r = can p ys zs s h in
        let (k', run, g) = reap-Gone k p ys zs (rw (sym s) c) r in
        inr (
          inr (
            p,
            ys,
            zs,
            s,
            h,
            (k', wait_some (not (first_of xs 0 == 0)) p (search_eq ∙ rw e refl) ∙ rw run refl, g),
          ))

    -- A round of `do_wait` for any child, where the address for the code is not refused and the links
    -- of the family are in order: with no child it
    -- returns `-E_BAD_PROC`; with children none of which is a zombie it puts the process to sleep,
    -- waiting for a child; else it returns the code of a zombie among the children, which leaves the
    -- family with the others in order, is no longer found by its number while the others are, and is
    -- freed. A zombie child is neither the idle process nor `initproc`, has a stack of the kernel and
    -- a number of its own.
    pub do_wait-WaitRound : WaitRound fuel xs k
    do_wait-WaitRound =
        by_search (find_zombie fuel (first_of xs 0) k) refl
          (find_zombie-Zombie fuel k xs enough (Siblings-OptrChain k.table 0 xs c.linked) c.present)
          xs refl
