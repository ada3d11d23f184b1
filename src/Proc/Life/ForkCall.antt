-- ===== src/Proc/Life/ForkCall.antt =====
-- A whole call of `do_fork` of kern/process/proc.c, and what it does where something is not to be had.
use os_qemu.Prelude.{
  ℕ, ◌≤◌, ◌≡◌, ◌≢◌, refl, ◌∙◌, ◌==◌, ltb, leb, Bool, true, false, if◌then◌else◌, List, arith,
}
use os_qemu.Prelude.Errors.{ok, panic, no_mem}
use os_qemu.Fs.Vfs.{ret, fail}
use os_qemu.Sched.Core.Queue.{wakeup_proc-QueueInv}
use os_qemu.Proc.Table.{put}
use os_qemu.Proc.Life.{
  Kernel, Resources, mark, max_process, init_proc, cleanup_kstack, enter_proc, put_kstack, kernbase,
  fork_entered, fork_proc, do_fork,
}
use os_qemu.Proc.Life.Forked.{
  Forkable, NewAt, Child, started, listed, woken, chosen, listed_queue, listed_alive,
  fork_entered-woken, Child-done,
}

module _ {M : Type 0} (res : Resources M) (flags : ℕ) (k : Kernel M) (xs : List ℕ) (p : ℕ) (m : M)
    (ok_to : Forkable k xs) (new : NewAt k xs p) (got : res.kmalloc k.memory ≡ (p, m)) where
  -- The state with the new process set up.
  abbrev created : Kernel M
  created =
      let k' = init_proc p (record k { memory = m }) in
      record k' { table = record (k'.table) { parent = put k'.table.parent p k.sched.current } }

  fork_created : do_fork res flags k ≡ fork_proc res flags p created
  unfolding do_fork init_proc
  fork_created =
      let room = ok_to.room in
      let awake = ok_to.awake in
      let c : leb max_process k.table.nr_process ≡ false = ground arith in
      let z : (p == 0) ≡ false = let n = new.there in ground arith in
      let e : (k.sched.current == p) ≡ false = let n = new.not_current in ground arith in
      rw (c, got) (rw (z, e, awake) refl)

  -- Where there is no stack for a new process the cleanup asks for the page of a stack at address 0,
  -- and `do_fork` stops the kernel, in place of returning `-E_NO_MEM`.
  pub do_fork-panics : (m₁ : M) → res.alloc_kstack m ≡ (0, m₁) → do_fork res flags k ≡ panic
  unfolding fork_proc cleanup_kstack put_kstack init_proc
  do_fork-panics m₁ e = let z : (p == p) ≡ true = ground arith in fork_created ∙ rw e (rw z refl)

  module _ (stack : ℕ) (m₁ : M) (stacked : res.alloc_kstack m ≡ (stack, m₁))
      (nonzero : stack ≢ 0) where
    no_zero : (stack == 0) ≡ false
    no_zero = ground arith

    -- Where the memory cannot be copied, `do_fork` returns `-E_NO_MEM` and enters no process; the
    -- memory for the process is given back, but the stack is not.
    pub do_fork-leaks :
        (m₂ : M)
        → res.copy_mm flags p m₁ ≡ (false, m₂)
        → (k' : Kernel M) × (do_fork res flags k ≡ ok (fail no_mem, k'))
          × (k'.memory ≡ res.kfree p m₂)
          × (k'.live p ≡ false)
          × (k'.table.proc_list ≡ k.table.proc_list)
          × (k'.table.nr_process ≡ k.table.nr_process)
          × (k'.table.hash_list ≡ k.table.hash_list)
    unfolding fork_proc init_proc
    do_fork-leaks m₂ e = (
      record created {
        kstack = put created.kstack p stack;
        live = mark created.live p false;
        memory = res.kfree p m₂;
      },
      fork_created ∙ rw stacked (rw (no_zero, e) refl),
      refl,
      ground arith,
      refl,
      refl,
      refl,
    )

    module _ (m₂ : M) (copied : res.copy_mm flags p m₁ ≡ (true, m₂)) where
      fork_started :
          do_fork res flags k
          ≡ fork_entered res flags p (started res flags k xs p stack m m₁ m₂ ok_to new)
      unfolding fork_proc init_proc
      fork_started = fork_created ∙ rw stacked (rw (no_zero, copied) refl)

      -- What is known of a new process when its files have been copied or not.
      forked :
          (b : Bool) (m₃ : M)
          → res.copy_files flags p m₂ ≡ (b, m₃)
          → (pid : ℕ) × (k' : Kernel M) × (do_fork res flags k
              ≡ (if b then ok (ret pid, k') else cleanup_kstack res (ret pid) p k'))
            × Child k xs p pid k'
            × (k'.kstack p ≡ stack)
            × (k'.memory ≡ m₃)
      unfolding enter_proc
      forked b m₃ e =
          let (s, g, lo, hi, u, inv) = chosen res flags k xs p stack m m₁ m₂ ok_to new in
          let (r, w, q, run) =
            wakeup_proc-QueueInv p (listed res flags k xs p stack m m₁ m₂ ok_to new s).sched
              (listed_queue res flags k xs p stack m m₁ m₂ ok_to new s)
              (listed_alive res flags k xs p stack m m₁ m₂ ok_to new s) in
          (
            s.last_pid,
            record (woken res flags k xs p stack m m₁ m₂ ok_to new s r) { memory = m₃ },
            fork_started
                ∙ fork_entered-woken res flags k xs p stack m m₁ m₂ ok_to new s r b m₃ g w e,
            Child-done res flags k xs p stack m m₁ m₂ ok_to new s r m₃ lo hi u inv run q,
            ground arith,
            refl,
          )

      -- Where there are less than MAX_PROCESS processes, the one that runs waits for nothing, the tables
      -- and the run queue are in order and the memory at the new process is none of them, and where its
      -- memory, its stack and its files are to be had and a number is unused, `do_fork` returns
      -- its number, positive, in range and used by no process before: just by it is the new process
      -- found, every other search comes out as before, it is the youngest child of the process that
      -- runs, ahead of the others, it is listed and counted, it can run, and the run queue and the
      -- static variables of `get_pid` are in order.
      pub do_fork-Child :
          (m₃ : M)
          → res.copy_files flags p m₂ ≡ (true, m₃)
          → (pid : ℕ) × (k' : Kernel M) × (do_fork res flags k ≡ ok (ret pid, k'))
            × Child k xs p pid k'
      do_fork-Child m₃ e = let (pid, k', run, c, st, mem) = forked true m₃ e in (pid, k', run, c)

      -- Where the files cannot be copied, `do_fork` returns the number of the new process all the
      -- same, and leaves it entered, found, runnable and in its family, while the memory for it and
      -- its stack, one of the kernel's, are given back.
      pub do_fork-dangling :
          (m₃ : M)
          → kernbase ≤ stack
          → res.copy_files flags p m₂ ≡ (false, m₃)
          → (pid : ℕ) × (k' : Kernel M) × (do_fork res flags k ≡ ok (ret pid, k'))
            × Child k xs p pid k'
            × (k'.live p ≡ false)
            × (k'.memory ≡ res.kfree p (res.free_kstack stack m₃))
      unfolding cleanup_kstack put_kstack
      do_fork-dangling m₃ high e =
          let (pid, k', run, c, st, mem) = forked false m₃ e in
          let l : ltb stack kernbase ≡ false = ground arith in
          (
            pid,
            record k' {
              live = mark k'.live p false;
              memory = res.kfree p (res.free_kstack stack m₃);
            },
            run ∙ rw (st, l, mem) refl,
            record {
              positive = c.positive;
              bounded = c.bounded;
              unused = c.unused;
              found = c.found;
              family = c.family;
              listed = c.listed;
              counted = c.counted;
              pids = c.pids;
              runs = c.runs;
              queue = c.queue;
            },
            ground arith,
            refl,
          )
