-- ===== src/Tests/Sync.antt =====
-- Semaphores at concrete inputs.
use os_qemu.Prelude.{◌≡◌, ◌==◌, refl, true, false, if◌then◌else◌, [], ◌∷◌, arith}
use os_qemu.Sched.SkewHeap.{null}
use os_qemu.Sched.Proc.{sleeping, runnable, Sched, wt_ksem}
use os_qemu.Prelude.Errors.{ok, err, panic}
use os_qemu.Sched.Stride.{stride_enqueue}
use os_qemu.Sched.Core.{wakeup_proc, sched_class_enqueue}
use os_qemu.Sync.Wait.{Sync, wait_queue_first, head_of, wakeup_wait, wait_queue_del, take_out, wake}
use os_qemu.Sync.Sem.{up_as, up}
use os_qemu.Sync.Sem.Served.{Run, done, by_up, Served, Run-Served}
use os_qemu.Sync.Sem.Inv.{SemInv}
use os_qemu.Sync.Sem.Wake.{Upped, up-Upped}
use os_qemu.Sync.Sem.Sleep.{Downed, down-Downed}

-- Process 2 sleeps at a semaphore, 1 runs.
abbrev pub two_procs : Sched
two_procs = record {
  procs = λ p. record {
    state = if p == 2 then sleeping else runnable;
    pid = p;
    runs = 0;
    need_resched = false;
    wait_state = if p == 2 then wt_ksem else 0;
    has_rq = true;
    time_slice = 3;
    lab6_stride = 0;
    lab6_priority = 1;
  };
  current = 1;
  idleproc = 9;
  timer_list = [];
  rq = record { proc_num = 0; max_time_slice = 5; lab6_run_pool = null };
}

-- It sleeps at the semaphore 5 by the entry 20.
abbrev pub one_waiter : Sync
one_waiter = record {
  waits = λ w. record { proc = 2; wakeup_flags = 0; wait_queue = 5; linked = true };
  queues = λ q. if q == 5 then 20 ∷ [] else [];
  values = λ q. 0;
  sched = two_procs;
}

one_waiter-SemInv : SemInv one_waiter 5
one_waiter-SemInv = record {
  idle = λ n. absurd (n refl);
  waiters = ((refl, refl, refl, refl), tt, tt);
}

up-Upped_example : Upped 5 one_waiter
up-Upped_example = up-Upped 5 one_waiter one_waiter-SemInv

down-Downed_example : Downed 5 21 one_waiter
down-Downed_example =
    down-Downed 5 21 one_waiter one_waiter-SemInv (λ e. absurd (omega arith))
      ((λ e. omega arith), (λ e. omega arith), tt)

unfoldable served_state : Sync
served_state = elim (up 5 one_waiter) [ ok t ↦ t | err e ↦ one_waiter | panic ↦ one_waiter ]

up_run : up 5 one_waiter ≡ ok served_state
unfolding served_state up up_as wait_queue_first head_of wakeup_wait wait_queue_del take_out wake
    wakeup_proc sched_class_enqueue stride_enqueue
up_run = refl

one_up : Run 5 1 one_waiter served_state
one_up = by_up 0 one_waiter served_state served_state up_run (done served_state)

Run-Served_example : Served 5 20 1 one_waiter served_state one_up
Run-Served_example = Run-Served 5 20 1 one_waiter served_state [] [] one_up refl (omega arith)
