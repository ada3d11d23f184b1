-- ===== src/Proc/Life/Forked.antt =====
-- `do_fork` of kern/process/proc.c where everything the new process needs is to be had.
use os_qemu.Prelude.{
  ℕ, ◌+◌, ◌<◌, ◌≡◌, ◌≢◌, inl, inr, refl, sym, ◌∙◌, ap, ◌==◌, Bool, true, false, if◌then◌else◌, some,
  List, ◌∷◌, map, length, length-map, arith, Bool-cases,
}
use os_qemu.Prelude.Errors.{ok}
use os_qemu.Libs.Dlist.Ring.{Fresh}
use os_qemu.Fs.Vfs.{ret}
use os_qemu.Sched.SkewHeap.{SkewHeap, null, node}
use os_qemu.Sched.SkewHeap.Order.{All, count}
use os_qemu.Sched.Proc.{Proc, Sched, is_zombie, is_runnable, set_proc, update}
use os_qemu.Sched.Core.{wakeup_proc}
use os_qemu.Sched.Core.Queue.{waiting, IsOwned, QueueInv}
use os_qemu.Proc.Pid.{max_pid, Pids, get_pid}
use os_qemu.Proc.Pid.Unused.{Unused, PidInv, get_pid-Unused}
use os_qemu.Proc.Pid.Pigeonhole.{Unused-exists}
use os_qemu.Proc.Table.{Table, put, hash32, hash_shift, find_proc}
use os_qemu.Proc.Table.Family.{Children}
use os_qemu.Proc.Life.{
  Kernel, Resources, max_process, pid_fuel, fresh_proc, init_proc, cleanup_kstack, enter_proc,
  fork_entered,
}
use os_qemu.Proc.Life.Fork.{
  Apart, entered-Children, entered_found, entered_lists, entered_pids, pids-Apart,
}

-- A process that is not in the queue can be set anew.
not_queued :
    (procs : ℕ → Proc) (p : ℕ) (b : Proc) (h : SkewHeap)
    → count p h ≡ 0
    → All (IsOwned procs) h
    → All (IsOwned (update procs p b)) h
unfolding count
not_queued procs p b null z all = tt
not_queued procs p b (node l q r) z all =
    let n : q ≢ p = ground (arith, z) in
    let e : (q == p) ≡ false = ground arith in
    (
      rw e all.0,
      not_queued procs p b l (ground (arith, z)) all.1,
      not_queued procs p b r (ground (arith, z)) all.2,
    )

QueueInv-new :
    (p : ℕ) (b : Proc) (s : Sched)
    → count p s.rq.lab6_run_pool ≡ 0
    → is_runnable b.state ≡ false
    → QueueInv s
    → QueueInv (set_proc p b s)
QueueInv-new p b s z n q = record {
  exact = λ k. q.exact k ∙ waits k;
  owned = not_queued s.procs p b s.rq.lab6_run_pool z q.owned;
  counted = q.counted;
}
  where
    waits : (k : ℕ) → waiting s k ≡ waiting (set_proc p b s) k
    waits k =
        let e = q.exact k in
        elim (Bool-cases (k == p)) [
          | inl h ↦
              let same : k ≡ p = ground arith in
              let none_there : waiting s k ≡ 0 = sym e ∙ rw same z in
              none_there ∙ rw (h, n) (ground arith)
          | inr h ↦ rw h refl
        ]

module _ {M : Type 0} where
  -- What `do_fork` finds in order: the number of processes, the static variables of `get_pid`, the
  -- children of the process that runs and the run queue; and that process waits for nothing.
  pub record Forkable (k : Kernel M) (xs : List ℕ) : Type 0 where
    pub counted : k.table.nr_process ≡ length k.table.proc_list
    pub room : k.table.nr_process < max_process
    pub pids : PidInv (map k.table.pid k.table.proc_list) k.pids
    pub kids : Children k.table k.sched.current xs
    pub queue : QueueInv k.sched
    pub awake : (k.sched.procs k.sched.current).wait_state ≡ 0

  -- The memory at `p` is no process yet.
  pub record NewAt (k : Kernel M) (xs : List ℕ) (p : ℕ) : Type 0 where
    pub there : p ≢ 0
    pub not_current : k.sched.current ≢ p
    pub no_child : Fresh p xs
    pub no_process : Fresh p k.table.proc_list
    pub not_hashed : (h : ℕ) → Fresh p (k.table.hash_list h)
    pub not_waiting : count p k.sched.rq.lab6_run_pool ≡ 0

  -- A new process with the number `pid` at `p`.
  pub record Child (k : Kernel M) (xs : List ℕ) (p pid : ℕ) (k' : Kernel M) : Type 0 where
    pub positive : 0 < pid
    pub bounded : pid < max_pid
    pub unused : Unused pid (map k.table.pid k.table.proc_list)
    pub found : (n : ℕ) → find_proc k'.table n ≡ (if n == pid then p else find_proc k.table n)
    pub family : Children k'.table k.sched.current (p ∷ xs)
    pub listed : k'.table.proc_list ≡ p ∷ k.table.proc_list
    pub counted : k'.table.nr_process ≡ k.table.nr_process + 1
    pub pids : PidInv (map k'.table.pid k'.table.proc_list) k'.pids
    pub runs : is_runnable (k'.sched.procs p).state ≡ true
    pub queue : QueueInv k'.sched

  memory-enter_proc : (p : ℕ) (s : Pids) (k : Kernel M) → (enter_proc p s k).memory ≡ k.memory
  unfolding enter_proc
  memory-enter_proc p s k = refl

module _ {M : Type 0} (res : Resources M) where
  fork_entered-eq :
      (flags p : ℕ) (k : Kernel M) (s : Pids) (r : Sched) (copied : Bool) (m₃ : M)
      → get_pid pid_fuel (map k.table.pid k.table.proc_list) k.pids ≡ some s
      → wakeup_proc p (enter_proc p s k).sched ≡ ok r
      → res.copy_files flags p (enter_proc p s k).memory ≡ (copied, m₃)
      → fork_entered res flags p k ≡ (
          if copied
          then ok (ret s.last_pid, record (record (enter_proc p s k) { sched = r }) { memory = m₃ })
          else cleanup_kstack res
              (ret s.last_pid)
              p
              (record (record (enter_proc p s k) { sched = r }) { memory = m₃ }))
  unfolding fork_entered
  fork_entered-eq flags p k s r copied m₃ e w c = rw (e, fork_entered) (rw w (rw c refl))

  module _ (flags : ℕ) (k : Kernel M) (xs : List ℕ) (p stack : ℕ) (m m₁ m₂ : M)
      (ok_to : Forkable k xs) (new : NewAt k xs p) where
    -- The state once the new process has its stack and its memory.
    abbrev pub started : Kernel M
    started =
        let k' = init_proc p (record k { memory = m }) in
        let child : Kernel M = record k' {
          table = record (k'.table) { parent = put k'.table.parent p k.sched.current };
        } in
        record child { kstack = put child.kstack p stack; memory = m₂ }

    abbrev numbered : ℕ → Table
    numbered pid = record (started.table) { pid = put started.table.pid p pid }

    started-Apart : (pid : ℕ) → Apart p k.table (numbered pid)
    unfolding init_proc
    started-Apart pid = record {
      pid = λ x n. ground arith;
      parent = λ x n. ground arith;
      cptr = λ x n. ground arith;
      yptr = λ x n. ground arith;
      optr = λ x n. ground arith;
      proc_list = refl;
      nr_process = refl;
    }

    started_own :
        (pid : ℕ)
        → ((numbered pid).parent p ≡ k.sched.current)
          × ((numbered pid).pid p ≡ pid)
          × ((h : ℕ) → (numbered pid).hash_list h ≡ k.table.hash_list h)
    unfolding init_proc
    started_own pid = (ground arith, ground arith, λ h. refl)

    old_pids : map started.table.pid started.table.proc_list ≡ map k.table.pid k.table.proc_list
    unfolding init_proc
    old_pids =
        pids-Apart p k.table started.table
          (record {
            pid = λ x n. ground arith;
            parent = λ x n. ground arith;
            cptr = λ x n. ground arith;
            yptr = λ x n. ground arith;
            optr = λ x n. ground arith;
            proc_list = refl;
            nr_process = refl;
          })
          new.no_process

    -- The number that the new process gets.
    pub chosen :
        (s : Pids) × (get_pid pid_fuel (map k.table.pid k.table.proc_list) k.pids ≡ some s)
        × (0 < s.last_pid)
        × (s.last_pid < max_pid)
        × Unused s.last_pid (map k.table.pid k.table.proc_list)
        × PidInv (s.last_pid ∷ map k.table.pid k.table.proc_list) s
    unfolding pid_fuel
    chosen =
        let counted = ok_to.counted in
        let room = ok_to.room in
        let len = length-map k.table.proc_list k.table.pid in
        let (q, lo, hi, u) = Unused-exists 8191 (map k.table.pid k.table.proc_list) (omega arith) in
        get_pid-Unused q pid_fuel (map k.table.pid k.table.proc_list) k.pids lo (omega arith) u
          ok_to.pids (omega arith)

    module _ (s : Pids) where
      abbrev pub listed : Kernel M
      listed = enter_proc p s started

      pub listed_queue : QueueInv listed.sched
      unfolding enter_proc init_proc
      listed_queue =
          QueueInv-new p (record ((set_proc p fresh_proc k.sched).procs p) { pid = s.last_pid })
            (set_proc p fresh_proc k.sched) new.not_waiting (ground arith)
            (QueueInv-new p fresh_proc k.sched new.not_waiting refl ok_to.queue)

      pub listed_alive : is_zombie (listed.sched.procs p).state ≡ false
      unfolding enter_proc init_proc
      listed_alive = ground arith

      module _ (r : Sched) where
        abbrev pub woken : Kernel M
        woken = record listed { sched = r }

        pub fork_entered-woken :
            (copied : Bool) (m₃ : M)
            → get_pid pid_fuel (map k.table.pid k.table.proc_list) k.pids ≡ some s
            → wakeup_proc p listed.sched ≡ ok r
            → res.copy_files flags p m₂ ≡ (copied, m₃)
            → fork_entered res flags p started ≡ (
                if copied
                then ok (ret s.last_pid, record woken { memory = m₃ })
                else cleanup_kstack res (ret s.last_pid) p (record woken { memory = m₃ }))
        unfolding init_proc
        fork_entered-woken copied m₃ e w c =
            fork_entered-eq flags p started s r copied m₃ (rw old_pids e) w
              (ap (λ (x : M). res.copy_files flags p x) (memory-enter_proc p s started) ∙ c)

        pub Child-done :
            (m₃ : M)
            → 0 < s.last_pid
            → s.last_pid < max_pid
            → Unused s.last_pid (map k.table.pid k.table.proc_list)
            → PidInv (s.last_pid ∷ map k.table.pid k.table.proc_list) s
            → is_runnable (r.procs p).state ≡ true
            → QueueInv r
            → Child k xs p s.last_pid (record woken { memory = m₃ })
        unfolding enter_proc
        Child-done m₃ lo hi u inv run q =
            let n = s.last_pid in
            let a = started-Apart n in
            let (parent, number, hashed) = started_own n in
            let c = k.sched.current in
            let lists = entered_lists p c n k.table (numbered n) xs a parent number in
            record {
              positive = lo;
              bounded = hi;
              unused = u;
              found = λ x.
                  entered_found p c n k.table (numbered n) xs a parent number x lo hi
                    (hashed (hash32 x hash_shift)) (new.not_hashed (hash32 x hash_shift));
              family =
                  entered-Children p c n k.table (numbered n) xs a parent number new.not_current
                    new.there new.no_child ok_to.kids;
              listed = lists.0;
              counted = lists.1;
              pids =
                  rw (entered_pids p c n k.table (numbered n) xs a parent number new.no_process)
                    inv;
              runs = run;
              queue = q;
            }
