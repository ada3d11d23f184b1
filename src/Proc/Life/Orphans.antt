-- ===== src/Proc/Life/Orphans.antt =====
-- The loop of `do_exit` of kern/process/proc.c, which hands the children of a process to `initproc`.
use os_qemu.Prelude.{
  ℕ, zero, suc, ◌<◌, ◌≡◌, ◌≢◌, inl, inr, refl, sym, ◌∙◌, ◌==◌, ◌&&◌, true, false, some, List, [],
  ◌∷◌, length, arith, Bool-cases,
}
use os_qemu.Prelude.Errors.{ok}
use os_qemu.Libs.Dlist.Ring.{Fresh, Distinct, first_of}
use os_qemu.Sched.Proc.{Sched, is_zombie, wt_child}
use os_qemu.Sched.Core.{wakeup_proc, sched_class_enqueue}
use os_qemu.Sched.Stride.{stride_enqueue}
use os_qemu.Sched.Core.Queue.{QueueInv, wakeup_proc-QueueInv}
use os_qemu.Proc.Table.{Table}
use os_qemu.Proc.Table.Family.{Siblings, ParentOf, Children, Siblings-agree, first_ne}
use os_qemu.Proc.Life.{Kernel, adopt_links, adopt, reparent}

-- The elder to younger links lead from each to the next.
abbrev pub OptrChain : Table → List ℕ → Type 0
OptrChain t [] = Unit {0}
OptrChain t (x ∷ xs) = (t.optr x ≡ first_of xs 0) × OptrChain t xs

pub Siblings-OptrChain : (t : Table) (y : ℕ) (xs : List ℕ) → Siblings t y xs → OptrChain t xs
Siblings-OptrChain t y [] h = tt
Siblings-OptrChain t y (x ∷ xs) h = (h.1, Siblings-OptrChain t x xs h.2)

-- The lists have no member in common.
abbrev pub Apart : List ℕ → List ℕ → Type 0
Apart [] ys = Unit {0}
Apart (x ∷ xs) ys = Fresh x ys × Apart xs ys

Apart-cons : (x : ℕ) (xs ys : List ℕ) → Fresh x xs → Apart xs ys → Apart xs (x ∷ ys)
Apart-cons x [] ys f a = tt
Apart-cons x (y ∷ xs) ys f a = ((λ e. f.0 (sym e), a.0), Apart-cons x xs ys f.1 a.1)

-- The members of `xs`, the last first, and then those of `ys`.
abbrev pub rev_onto : List ℕ → List ℕ → List ℕ
rev_onto [] ys = ys
rev_onto (x ∷ xs) ys = rev_onto xs (x ∷ ys)

module _ (c i x : ℕ) (t : Table) (ci : c ≢ i) where
  adopted :
      ((adopt_links c i x t).cptr i ≡ x)
      × ((adopt_links c i x t).cptr c ≡ t.optr x)
      × ((adopt_links c i x t).optr x ≡ t.cptr i)
      × ((adopt_links c i x t).parent x ≡ i)
      × (t.cptr i ≢ x → (adopt_links c i x t).yptr x ≡ 0)
      × (t.cptr i ≢ 0 → (adopt_links c i x t).yptr (t.cptr i) ≡ x)
  unfolding adopt_links
  adopted = (
    ground arith,
    ground arith,
    ground arith,
    ground arith,
    (λ n. ground arith),
    (λ n. ground arith),
  )

module _ (c i x : ℕ) (t : Table) (ys : List ℕ) (ci : c ≢ i) (x_there : x ≢ 0) (fresh : Fresh x ys)
    (kids : Children t i ys) where
  abbrev t' : Table
  t' = adopt_links c i x t

  others :
      (y : ℕ)
      → y ≢ x
      → (t'.optr y ≡ t.optr y) × (y ≢ t.cptr i → t'.yptr y ≡ t.yptr y) × (t'.parent y ≡ t.parent y)
  unfolding adopt_links
  others y n = ground arith

  chain : (xs : List ℕ) → Fresh x xs → OptrChain t xs → OptrChain t' xs
  chain [] f h = tt
  chain (y ∷ xs) f h = ((others y f.0).0 ∙ h.0, chain xs f.1 h.1)

  linked :
      (zs : List ℕ)
      → t.cptr i ≡ first_of zs 0
      → Siblings t 0 zs
      → Distinct zs
      → Fresh 0 zs
      → Fresh x zs
      → Siblings t' x zs
  linked [] e h d z f = tt
  linked (y ∷ zs) e h d z f =
      let young = (adopted c i x t ci).5 (λ q. z.0 (sym e ∙ q)) in
      (
        rw (sym e) young,
        (others y f.0).0 ∙ h.1,
        Siblings-agree t t' y zs x y (λ u a b. (others u a).1 (λ q. b (q ∙ e)))
            (λ u a b. (others u a).0) f.1 d.0 h.2,
      )

  parents : (zs : List ℕ) → ParentOf t i zs → ParentOf t' i zs
  unfolding adopt_links
  parents [] h = tt
  parents (y ∷ zs) h = (ground (arith, h.0), parents zs h.1)

  pub adopt_links-Children : Children t' i (x ∷ ys)
  adopt_links-Children = record {
    youngest = (adopted c i x t ci).0;
    linked = (
      (adopted c i x t ci).4 (λ q. first_ne x ys x_there fresh (sym kids.youngest ∙ q)),
      (adopted c i x t ci).2 ∙ kids.youngest,
      linked ys kids.youngest kids.linked kids.distinct kids.present fresh,
    );
    distinct = (fresh, kids.distinct);
    present = (x_there, kids.present);
    parents = ((adopted c i x t ci).3, parents ys kids.parents);
  }

-- Waking a process that is no zombie leaves the process that runs.
pub wakeup_proc-current : (p : ℕ) (s s' : Sched) → wakeup_proc p s ≡ ok s' → s'.current ≡ s.current
unfolding wakeup_proc sched_class_enqueue stride_enqueue
wakeup_proc-current p s s' e = ground (arith, e)

module _ {M : Type 0} where
  -- What handing one child over leaves.
  record Adopted (x : ℕ) (k k' : Kernel M) : Type 0 where
    table : k'.table ≡ adopt_links k.sched.current k.initproc x k.table
    current : k'.sched.current ≡ k.sched.current
    initproc : k'.initproc ≡ k.initproc
    queue : QueueInv k'.sched
    alive : is_zombie (k'.sched.procs k'.initproc).state ≡ false

  adopt-Adopted :
      (x : ℕ) (k : Kernel M)
      → QueueInv k.sched
      → is_zombie (k.sched.procs k.initproc).state ≡ false
      → (k' : Kernel M) × (adopt x k ≡ ok k') × Adopted x k k'
  unfolding adopt
  adopt-Adopted x k q z =
      let linked : Kernel M = record k {
        table = adopt_links k.sched.current k.initproc x k.table;
      } in
      elim (Bool-cases
        (is_zombie (k.sched.procs x).state && (k.sched.procs k.initproc).wait_state == wt_child)) [
          | inr n ↦ (
            linked,
            rw n refl,
            record { table = refl; current = refl; initproc = refl; queue = q; alive = z },
          )
          | inl y ↦
              let (s, e, q', r) = wakeup_proc-QueueInv k.initproc k.sched q z in
              (
                record linked { sched = s },
                rw (y, e) refl,
                record {
                  table = refl;
                  current = wakeup_proc-current k.initproc k.sched s e;
                  initproc = refl;
                  queue = q';
                  alive = ground (arith, r);
                },
              )
        ]

  -- What the loop leaves: the process has no child, and `initproc` has those that it had before
  -- those of its own, the last one handed over first.
  abbrev pub HandedOver : ℕ → List ℕ → List ℕ → Kernel M → Type 0
  HandedOver fuel xs ys k =
      (k' : Kernel M) × (reparent fuel k ≡ some (ok k'))
      × (k'.table.cptr k.sched.current ≡ 0)
      × Children k'.table k.initproc (rev_onto xs ys)
      × (k'.sched.current ≡ k.sched.current)
      × (k'.initproc ≡ k.initproc)
      × QueueInv k'.sched

  hand_over :
      (fuel : ℕ) (xs ys : List ℕ) (k : Kernel M)
      → length xs < fuel
      → k.sched.current ≢ k.initproc
      → k.table.cptr k.sched.current ≡ first_of xs 0
      → OptrChain k.table xs
      → Distinct xs
      → Fresh 0 xs
      → Apart xs ys
      → Children k.table k.initproc ys
      → QueueInv k.sched
      → is_zombie (k.sched.procs k.initproc).state ≡ false
      → HandedOver fuel xs ys k
  unfolding reparent
  hand_over zero xs ys k lt n e o d z a c q w = absurd (omega arith)
  hand_over (suc fuel) [] ys k lt n e o d z a c q w =
      let t : (k.table.cptr k.sched.current == 0) ≡ true = ground arith in
      (k, rw t refl, e, c, refl, refl, q)
  hand_over (suc fuel) (x ∷ xs) ys k lt n e o d z a c q w =
      let t : (x == 0) ≡ false = let ne = z.0 in ground arith in
      let (k', step, g) = adopt-Adopted x k q w in
      let cur = g.current in
      let ini = g.initproc in
      let next : k'.table.cptr k'.sched.current ≡ first_of xs 0 =
        rw (cur, g.table) ((adopted k.sched.current k.initproc x k.table n).1 ∙ o.0) in
      let kids : Children k'.table k'.initproc (x ∷ ys) =
        rw (ini, g.table)
          (adopt_links-Children k.sched.current k.initproc x k.table ys n z.0 a.0 c) in
      let links : OptrChain k'.table xs =
        rw g.table (chain k.sched.current k.initproc x k.table ys n z.0 a.0 c xs d.0 o.1) in
      let (k'', run, none_left, all, cur', ini', q') =
        hand_over fuel xs (x ∷ ys) k' (omega arith) (rw (cur, ini) n) next links d.1 z.1
          (Apart-cons x xs ys d.0 a.1) kids g.queue g.alive in
      (
        k'',
        rw (e, t, step) run,
        rw (sym cur) none_left,
        rw (sym ini) all,
        cur' ∙ cur,
        ini' ∙ ini,
        q',
      )

  -- With more rounds allowed than the process that runs has children, the loop of `do_exit` comes to
  -- its end and stops the kernel nowhere: the process has no child left, and each one it had is a
  -- child of `initproc`, with the links in order, the last one first and before those `initproc` had;
  -- the same process runs, and the run queue is exact. Before, the links of both families are in
  -- order and the queue is exact, `initproc` is another process, no zombie and no parent of these
  -- children.
  pub reparent-HandedOver :
      (fuel : ℕ) (xs ys : List ℕ) (k : Kernel M)
      → length xs < fuel
      → k.sched.current ≢ k.initproc
      → Children k.table k.sched.current xs
      → Children k.table k.initproc ys
      → Apart xs ys
      → QueueInv k.sched
      → is_zombie (k.sched.procs k.initproc).state ≡ false
      → HandedOver fuel xs ys k
  reparent-HandedOver fuel xs ys k lt n c c' a q z =
      hand_over fuel xs ys k lt n c.youngest (Siblings-OptrChain k.table 0 xs c.linked) c.distinct
        c.present a c' q z
