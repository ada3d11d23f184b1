-- ===== src/Tests/Life.antt =====
-- The life of a process at concrete inputs.
use os_qemu.Prelude.{ℕ, ◌+◌, ◌≡◌, inl, ◌==◌, refl, if◌then◌else◌, true, false, not, [], ◌∷◌, arith}
use os_qemu.Prelude.Errors.{ok}
use os_qemu.Fs.Vfs.{ret}
use os_qemu.Sched.SkewHeap.{null}
use os_qemu.Sched.SkewHeap.Order.{count, size}
use os_qemu.Sched.Proc.{sleeping, runnable, zombie, Sched, is_zombie}
use os_qemu.Sched.Core.Queue.{QueueInv}
use os_qemu.Proc.Table.{Table, find_proc, search_chain}
use os_qemu.Proc.Table.Family.{Children}
use os_qemu.Proc.Life.{Kernel, Resources, kernbase, do_fork}
use os_qemu.Proc.Life.Orphans.{HandedOver, reparent-HandedOver}
use os_qemu.Proc.Life.Reap.{WaitRound, Reapable, do_wait-WaitRound}
use os_qemu.Proc.Life.Kill.{Killed, do_kill-Killed}
use os_qemu.Proc.Life.Forked.{Forkable, NewAt, Child}
use os_qemu.Proc.Life.ForkCall.{do_fork-Child, do_fork-dangling}

-- Process 4 runs, with the children 6, a zombie, and 5; `initproc` is 1, the idle process 9.
abbrev four_runs : Sched
four_runs = record {
  procs = λ p. record {
    state = if p == 4 then runnable else if p == 6 then zombie else sleeping;
    pid = p;
    runs = 0;
    need_resched = false;
    wait_state = 0;
    has_rq = true;
    time_slice = 3;
    lab6_stride = 0;
    lab6_priority = 1;
  };
  current = 4;
  idleproc = 9;
  timer_list = [];
  rq = record { proc_num = 0; max_time_slice = 5; lab6_run_pool = null };
}

abbrev parents_and_children : Table
parents_and_children = record {
  pid = λ p. p;
  parent = λ p. if p == 5 then 4 else if p == 6 then 4 else 1;
  cptr = λ p. if p == 4 then 6 else if p == 1 then 4 else 0;
  yptr = λ p. if p == 5 then 6 else 0;
  optr = λ p. if p == 6 then 5 else 0;
  proc_list = 6 ∷ 5 ∷ 4 ∷ 1 ∷ [];
  hash_list = λ h. 6 ∷ [];
  nr_process = 4;
}

abbrev kernel : Kernel ℕ
kernel = record {
  sched = four_runs;
  table = parents_and_children;
  pids = record { last_pid = 6; next_safe = 8192 };
  initproc = 1;
  exiting = λ p. false;
  exit_code = λ p. 3;
  kstack = λ p. kernbase;
  live = λ p. true;
  memory = 0;
}

four_runs-QueueInv : QueueInv four_runs
unfolding count size
four_runs-QueueInv = record { exact = λ k. ground arith; owned = tt; counted = refl }

four-Children : Children parents_and_children 4 (6 ∷ 5 ∷ [])
four-Children = record {
  youngest = refl;
  linked = (refl, refl, (refl, refl, tt));
  distinct = (((λ e. omega arith), tt), (tt, tt));
  present = ((λ e. omega arith), ((λ e. omega arith), tt));
  parents = (refl, (refl, tt));
}

init-Children : Children parents_and_children 1 (4 ∷ [])
init-Children = record {
  youngest = refl;
  linked = (refl, refl, tt);
  distinct = (tt, tt);
  present = ((λ e. omega arith), tt);
  parents = (refl, tt);
}

reparent-HandedOver_example : HandedOver 3 (6 ∷ 5 ∷ []) (4 ∷ []) kernel
reparent-HandedOver_example =
    reparent-HandedOver 3 (6 ∷ 5 ∷ []) (4 ∷ []) kernel (omega arith) (λ e. omega arith)
      four-Children init-Children (((λ e. omega arith), tt), (((λ e. omega arith), tt), tt))
      four_runs-QueueInv refl

-- The process 5 alone on every chain.
abbrev five_hashed : Kernel ℕ
five_hashed = record kernel { table = record parents_and_children { hash_list = λ h. 5 ∷ [] } }

five_alive : is_zombie (four_runs.procs (find_proc five_hashed.table 5)).state ≡ false
unfolding find_proc search_chain
five_alive = refl

do_kill-Killed_example : Killed 5 five_hashed
do_kill-Killed_example = do_kill-Killed 5 five_hashed (λ n e. (four_runs-QueueInv, five_alive))

-- Memory as a count of what was asked for; the flag 0 has the files copied, 1 has them not, and with 2
-- the memory is not copied.
abbrev resources : ℕ → Resources ℕ
resources stack = record {
  kmalloc = λ m. (50, m + 1);
  alloc_kstack = λ m. (stack, m + 1);
  free_kstack = λ a m. m;
  kfree = λ p m. m;
  copy_mm = λ flags p m. (not (flags == 2), m + 1);
  copy_files = λ flags p m. (flags == 0, m + 1);
  exit_mm = λ p m. m;
}

-- Of the children just 6 is a zombie.
six : (p : ℕ) → is_zombie (four_runs.procs p).state ≡ true → p ≡ 6
six p z = ground (arith, z)

six-Reapable : (p : ℕ) → p ≡ 6 → Reapable (resources kernbase) kernel p
six-Reapable p e = rw e (record {
  stack = omega arith;
  hashed = ((λ q. tt), tt);
  own_pid = ((λ q. q), tt);
  not_idle = λ q. omega arith;
  not_init = λ q. omega arith;
})

do_wait-WaitRound_example : WaitRound (resources kernbase) 3 (6 ∷ 5 ∷ []) kernel
do_wait-WaitRound_example =
    do_wait-WaitRound (resources kernbase) 3 (6 ∷ 5 ∷ []) kernel (omega arith) four-Children
      (λ p ys zs e z. six-Reapable p (six p z))

kernel-Forkable : Forkable kernel (6 ∷ 5 ∷ [])
kernel-Forkable = record {
  counted = refl;
  room = omega arith;
  pids = record {
    clear = (inl (omega arith), (inl (omega arith), (inl (omega arith), (inl (omega arith), tt))));
    bound = omega arith;
  };
  kids = four-Children;
  queue = four_runs-QueueInv;
  awake = refl;
}

fifty-NewAt : NewAt kernel (6 ∷ 5 ∷ []) 50
unfolding count
fifty-NewAt = record {
  there = λ e. omega arith;
  not_current = λ e. omega arith;
  no_child = ((λ e. omega arith), ((λ e. omega arith), tt));
  no_process =
      ((λ e. omega arith), ((λ e. omega arith), ((λ e. omega arith), ((λ e. omega arith), tt))));
  not_hashed = λ h. ((λ e. omega arith), tt);
  not_waiting = refl;
}

do_fork-Child_example :
    (pid : ℕ) × (k' : Kernel ℕ) × (do_fork (resources kernbase) 0 kernel ≡ ok (ret pid, k'))
    × Child kernel (6 ∷ 5 ∷ []) 50 pid k'
do_fork-Child_example =
    do_fork-Child (resources kernbase) 0 kernel (6 ∷ 5 ∷ []) 50 1 kernel-Forkable fifty-NewAt refl
      kernbase 2 refl (λ e. omega arith) 3 refl 4 refl

do_fork-dangling_example :
    (pid : ℕ) × (k' : Kernel ℕ) × (do_fork (resources kernbase) 1 kernel ≡ ok (ret pid, k'))
    × Child kernel (6 ∷ 5 ∷ []) 50 pid k'
    × (k'.live 50 ≡ false)
    × (k'.memory ≡ (resources kernbase).kfree 50 ((resources kernbase).free_kstack kernbase 4))
do_fork-dangling_example =
    do_fork-dangling (resources kernbase) 1 kernel (6 ∷ 5 ∷ []) 50 1 kernel-Forkable fifty-NewAt
      refl kernbase 2 refl (λ e. omega arith) 3 refl 4 (omega arith) refl
