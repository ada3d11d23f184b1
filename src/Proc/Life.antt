-- ===== src/Proc/Life.antt =====
-- kern/process/proc.c: the life of a process, from `do_fork` over `do_exit` to `do_wait`, over the
-- scheduler and the table of processes. What a process has of memory and of files is a parameter.
pub mod Fork
pub mod Forked
pub mod ForkCall
pub mod Orphans
pub mod Reap
pub mod Kill
use os_qemu.Prelude.{
  ℕ, zero, suc, ◌+◌, ◌-◌, ◌*◌, ◌/◌, ◌%◌, ◌^◌, ◌==◌, not, ltb, leb, Bool, true, false, ◌&&◌, ◌||◌,
  if◌then◌else◌, Option, none, some, List, map,
}
use os_qemu.Prelude.Errors.{
  Error, Result, ok, err, panic, ◌>>=◌, no_mem, no_free_proc, bad_proc, killed, inval,
}
use os_qemu.Fs.Vfs.{Ret, ret, fail}
use os_qemu.Sched.Timer.{Timer, add_timer, del_timer}
use os_qemu.Sched.Proc.{
  uninit, sleeping, zombie, Proc, Sched, is_zombie, update, set_proc, wt_child, wt_timer,
  is_interrupted,
}
use os_qemu.Sched.Core.{wakeup_proc, schedule}
use os_qemu.Proc.Pid.{Pids, max_pid, get_pid}
use os_qemu.Proc.Table.{Table, put, set_links, remove_links, hash_proc, unhash_proc, find_proc}

-- MAX_PROCESS and KERNBASE
abbrev pub max_process : ℕ
max_process = 4096

abbrev pub kernbase : ℕ
kernbase = 0xffff_ffff_c020_0000

-- The globals of proc.c. Of a process `flags` is PF_EXITING alone, `exit_code` an `int` in 32 bits,
-- and `live` tells that its `struct proc_struct` is allocated; `memory` is what the rest of the kernel
-- keeps for the processes.
pub record Kernel (M : Type 0) : Type 0 where
  pub sched : Sched
  pub table : Table
  pub pids : Pids
  pub initproc : ℕ
  pub exiting : ℕ → Bool
  pub exit_code : ℕ → ℕ
  pub kstack : ℕ → ℕ
  pub live : ℕ → Bool
  pub memory : M

-- What proc.c calls for the memory and the files of a process: `kmalloc` for a `struct proc_struct`
-- and `alloc_pages` for a stack, where 0 is NULL, giving both back, `copy_mm` and `copy_files`, which
-- tell whether they returned 0, and the part of `do_exit` that releases both.
pub record Resources (M : Type 0) : Type 0 where
  pub kmalloc : M → ℕ × M
  pub alloc_kstack : M → ℕ × M
  pub free_kstack : ℕ → M → M
  pub kfree : ℕ → M → M
  pub copy_mm : ℕ → ℕ → M → Bool × M
  pub copy_files : ℕ → ℕ → M → Bool × M
  pub exit_mm : ℕ → M → M

abbrev pub mark : (ℕ → Bool) → ℕ → Bool → ℕ → Bool
mark f p b x = if x == p then b else f x

-- The fuel of `get_pid`: twice MAX_PID jumps are enough.
unfoldable pub pid_fuel : ℕ
pid_fuel = 2 * max_pid

abbrev pub fresh_proc : Proc
fresh_proc = record {
  state = uninit;
  pid = 2 ^ 32 - 1;
  runs = 0;
  need_resched = false;
  wait_state = 0;
  has_rq = false;
  time_slice = 0;
  lab6_stride = 0;
  lab6_priority = 0;
}

-- The links that the loop of `do_exit` sets for the child `p`.
unfoldable pub adopt_links : ℕ → ℕ → ℕ → Table → Table
adopt_links current initproc p t =
    let cptr = put t.cptr current (t.optr p) in
    let older = cptr initproc in
    let yptr = put t.yptr p 0 in
    record t {
      yptr = if older == 0 then yptr else put yptr older p;
      optr = put t.optr p older;
      parent = put t.parent p initproc;
      cptr = put cptr initproc p;
    }

module _ {M : Type 0} where
  -- The end of `alloc_proc`, with the memory for the process.
  unfoldable pub init_proc : ℕ → Kernel M → Kernel M
  init_proc p k = record k {
    sched = set_proc p fresh_proc k.sched;
    table = record (k.table) {
      pid = put k.table.pid p (2 ^ 32 - 1);
      parent = put k.table.parent p 0;
      cptr = put k.table.cptr p 0;
      yptr = put k.table.yptr p 0;
      optr = put k.table.optr p 0;
    };
    exiting = mark k.exiting p false;
    kstack = put k.kstack p 0;
    live = mark k.live p true;
  }

  -- `kva2page` stops the kernel at an address below KERNBASE.
  unfoldable pub put_kstack : Resources M → ℕ → Kernel M → Result (Kernel M)
  put_kstack res p k =
      if ltb (k.kstack p) kernbase
      then panic
      else ok (record k { memory = res.free_kstack (k.kstack p) k.memory })

  -- `kfree(proc)`
  abbrev pub free_proc : Resources M → ℕ → Kernel M → Kernel M
  free_proc res p k = record k { live = mark k.live p false; memory = res.kfree p k.memory }

  -- The labels `bad_fork_cleanup_kstack` and `bad_fork_cleanup_proc`, for `ret`.
  unfoldable pub cleanup_kstack : Resources M → Ret ℕ → ℕ → Kernel M → Result (Ret ℕ × Kernel M)
  cleanup_kstack res r p k = put_kstack res p k >>= (λ k'. ok (r, free_proc res p k'))

  -- The part of `do_fork` with interrupts off: the number and the links.
  unfoldable pub enter_proc : ℕ → Pids → Kernel M → Kernel M
  enter_proc p s k =
      let t : Table = record (k.table) { pid = put k.table.pid p s.last_pid } in
      record k {
        pids = s;
        sched = set_proc p (record (k.sched.procs p) { pid = s.last_pid }) k.sched;
        table = set_links p (hash_proc p t);
      }

  -- The part of `do_fork` from the number on; a search for a number that does not come to an end
  -- would stop the kernel.
  unfoldable pub fork_entered : Resources M → ℕ → ℕ → Kernel M → Result (Ret ℕ × Kernel M)
  fork_entered res flags p k = elim (get_pid pid_fuel (map k.table.pid k.table.proc_list) k.pids) [
    | none ↦ panic
    | some s ↦
        let k' = enter_proc p s k in
        wakeup_proc p k'.sched >>= (λ t.
          let woken : Kernel M = record k' { sched = t } in
          let (copied, m) = res.copy_files flags p woken.memory in
          let after : Kernel M = record woken { memory = m } in
          if copied
          then ok (ret s.last_pid, after)
          else cleanup_kstack res (ret s.last_pid) p after)
  ]

  -- The part of `do_fork` from the stack on. The registers that `copy_thread` sets are the machine's.
  unfoldable pub fork_proc : Resources M → ℕ → ℕ → Kernel M → Result (Ret ℕ × Kernel M)
  fork_proc res flags p k =
      let (stack, m) = res.alloc_kstack k.memory in
      let stacked : Kernel M = record k { kstack = put k.kstack p stack; memory = m } in
      let (copied, m') = res.copy_mm flags p m in
      let copy : Kernel M = record stacked { memory = m' } in
      if stack == 0
      then cleanup_kstack res (fail no_mem) p (record k { memory = m })
      else if copied
      then fork_entered res flags p copy
      else ok (fail no_mem, free_proc res p copy)

  unfoldable pub do_fork : Resources M → ℕ → Kernel M → Result (Ret ℕ × Kernel M)
  do_fork res flags k =
      let (p, m) = res.kmalloc k.memory in
      let k' = init_proc p (record k { memory = m }) in
      let child : Kernel M = record k' {
        table = record (k'.table) { parent = put k'.table.parent p k.sched.current };
      } in
      if leb max_process k.table.nr_process
      then ok (fail no_free_proc, k)
      else if p == 0
      then ok (fail no_mem, record k { memory = m })
      else if not ((k'.sched.procs k.sched.current).wait_state == 0)
      then panic
      else fork_proc res flags p child

  -- One round of the loop of `do_exit`, for the child `p`.
  unfoldable pub adopt : ℕ → Kernel M → Result (Kernel M)
  adopt p k =
      let k' : Kernel M = record k { table = adopt_links k.sched.current k.initproc p k.table } in
      if is_zombie (k.sched.procs p).state && (k.sched.procs k.initproc).wait_state == wt_child
      then wakeup_proc k.initproc k.sched >>= (λ s. ok (record k' { sched = s }))
      else ok k'

  -- The loop of `do_exit`; `none` where the fuel does not last.
  unfoldable pub reparent : ℕ → Kernel M → Option (Result (Kernel M))
  reparent zero k = none
  reparent (suc n) k =
      let p = k.table.cptr k.sched.current in
      if p == 0
      then some (ok k)
      else elim (adopt p k) [ panic ↦ some panic | err e ↦ some (err e) | ok k' ↦ reparent n k' ]

  -- `do_exit` up to the loop.
  unfoldable pub become_zombie : Resources M → ℕ → Kernel M → Result (Kernel M)
  become_zombie res code k =
      let c = k.sched.current in
      let s = set_proc c (record (k.sched.procs c) { state = zombie }) k.sched in
      let k' : Kernel M = record k {
        sched = s;
        exit_code = put k.exit_code c code;
        memory = res.exit_mm c k.memory;
      } in
      let parent = k.table.parent c in
      if c == k.sched.idleproc || c == k.initproc
      then panic
      else if (s.procs parent).wait_state == wt_child
      then wakeup_proc parent s >>= (λ t. ok (record k' { sched = t }))
      else ok k'

  -- `do_exit`: the state in which another process runs.
  unfoldable pub do_exit : Resources M → ℕ → ℕ → Kernel M → Option (Result (Kernel M))
  do_exit res fuel code k = elim (become_zombie res code k) [
    | panic ↦ some panic
    | err e ↦ some (err e)
    | ok k' ↦ elim (reparent fuel k') [
      | none ↦ none
      | some r ↦ some (r >>= (λ k''. schedule k''.sched >>= (λ s. ok (record k'' { sched = s }))))
    ]
  ]

  -- The loop of `do_wait` over the children, from `p` on: a zombie among them.
  unfoldable pub find_zombie : ℕ → ℕ → Kernel M → Option ℕ
  find_zombie zero p k = none
  find_zombie (suc n) p k =
      let rest = find_zombie n (k.table.optr p) k in
      if p == 0 then none else if is_zombie (k.sched.procs p).state then some p else rest

  -- What the search of `do_wait` comes to: `haskid`, and the child that it found.
  unfoldable pub search_child : ℕ → ℕ → Kernel M → Bool × Option ℕ
  search_child fuel pid k =
      let p = find_proc k.table pid in
      if not (pid == 0)
      then if not (p == 0) && k.table.parent p == k.sched.current
        then (true, (if is_zombie (k.sched.procs p).state then some p else none))
        else (false, none)
      else (
        not (k.table.cptr k.sched.current == 0),
        find_zombie fuel (k.table.cptr k.sched.current) k,
      )

  -- The label `found`: the code that is stored, and the state.
  unfoldable pub reap : Resources M → ℕ → Kernel M → Result (ℕ × Kernel M)
  reap res p k =
      let k' : Kernel M = record k { table = remove_links p (unhash_proc p k.table) } in
      if p == k.sched.idleproc || p == k.initproc
      then panic
      else put_kstack res p k' >>= (λ k''. ok (k.exit_code p, free_proc res p k''))

-- What a round of `do_wait` ends in: the code of a child that is gone, an error, or waiting.
pub data Waited (M : Type 0) : Type 0 where
  reaped : ℕ → Kernel M → Waited M
  refused : Error → Kernel M → Waited M
  asleep : Kernel M → Waited M

-- What a process that waited does when it runs again.
pub data Again (M : Type 0) : Type 0 where
  goes_on : Result (Waited M) → Again M
  exits : Option (Result (Kernel M)) → Again M

module _ {M : Type 0} where
  -- A round of `do_wait` from the label `repeat` up to `schedule()`; `fuel` bounds the children, and
  -- `checked` is false where `code_store` is an address that `user_mem_check` refuses.
  unfoldable pub do_wait : Resources M → ℕ → Bool → ℕ → Kernel M → Result (Waited M)
  do_wait res fuel checked pid k =
      let (haskid, found) = search_child fuel pid k in
      let c = k.sched.current in
      let sleeper = record (k.sched.procs c) { state = sleeping; wait_state = wt_child } in
      if not checked then ok (refused inval k) else elim found [
        | some p ↦ reap res p k >>= (λ r. ok (reaped r.0 r.1))
        | none ↦
            if haskid
            then ok (asleep (record k { sched = set_proc c sleeper k.sched }))
            else ok (refused bad_proc k)
      ]

  -- `do_wait` behind `schedule()`: a process that is exiting ends with -E_KILLED, 9, any other goes
  -- another round.
  unfoldable pub wait_again : Resources M → ℕ → ℕ → Kernel M → Again M
  wait_again res fuel pid k =
      if k.exiting k.sched.current
      then exits (do_exit res fuel (2 ^ 32 - 9) k)
      else goes_on (do_wait res fuel true pid k)

  -- The number is not negative.
  unfoldable pub do_kill : ℕ → Kernel M → Result (Option Error × Kernel M)
  do_kill pid k =
      let p = find_proc k.table pid in
      let k' : Kernel M = record k { exiting = mark k.exiting p true } in
      if p == 0
      then ok (some inval, k)
      else if k.exiting p
      then ok (some killed, k)
      else if is_interrupted (k.sched.procs p).wait_state
      then wakeup_proc p k.sched >>= (λ s. ok (none, record k' { sched = s }))
      else ok (none, k')

  unfoldable pub do_yield : Kernel M → Kernel M
  do_yield k =
      let c = k.sched.current in
      record k { sched = set_proc c (record (k.sched.procs c) { need_resched = true }) k.sched }

  -- `do_sleep` up to `schedule()`, for a timer at the address `id`; `none` where it returns at once.
  unfoldable pub do_sleep : ℕ → ℕ → Kernel M → Result (Option (Kernel M))
  do_sleep id time k =
      let c = k.sched.current in
      let sleeper = record (k.sched.procs c) { state = sleeping; wait_state = wt_timer } in
      if time == 0
      then ok none
      else add_timer (record { id = id; expires = time; proc = c }) k.sched.timer_list >>= (λ ts.
        ok (some (record k { sched = record (set_proc c sleeper k.sched) { timer_list = ts } })))

  -- `do_sleep` when the process runs again.
  unfoldable pub sleep_end : ℕ → Kernel M → Kernel M
  sleep_end id k = record k {
    sched = record (k.sched) { timer_list = del_timer id k.sched.timer_list };
  }

  unfoldable pub lab6_set_priority : ℕ → Kernel M → Kernel M
  lab6_set_priority priority k =
      let c = k.sched.current in
      let a = record (k.sched.procs c) { lab6_priority = if priority == 0 then 1 else priority } in
      record k { sched = set_proc c a k.sched }
