-- ===== src/Tests/Sched.antt =====
-- Scheduling at concrete inputs.
use os_qemu.Prelude.{
  ℕ, ◌+◌, ◌^◌, ◌≤◌, ◌<◌, ◌≡◌, refl, ◌==◌, true, false, if◌then◌else◌, List, [], ◌∷◌, arith,
}
use os_qemu.Prelude.Errors.{ok}
use os_qemu.Sched.Timer.{Timer, insert_timer}
use os_qemu.Sched.SkewHeap.{null, node}
use os_qemu.Sched.SkewHeap.Order.{All, count, size}
use os_qemu.Sched.Proc.{ProcState, uninit, sleeping, runnable, Proc, Sched}
use os_qemu.Sched.Core.{wakeup_proc, schedule, take_next, run_timer_list}
use os_qemu.Sched.Core.Queue.{QueueInv, Awake, wakeup_proc-QueueInv}
use os_qemu.Sched.Core.Switch.{Switched, schedule-Switched}
use os_qemu.Sched.Core.Expire.{Returns}
use os_qemu.Sched.Core.Tick.{Ticked, run_timer_list-Ticked}
use os_qemu.Sched.Core.Fair.{IsNear, IsFair, stepped, take_next-IsFair}

abbrev proc_in : ProcState → Proc
proc_in st = record {
  state = st;
  pid = 0;
  runs = 0;
  need_resched = false;
  wait_state = 0;
  has_rq = true;
  time_slice = 3;
  lab6_stride = 0;
  lab6_priority = 4;
}

-- Process 1 runs, 2 waits in the queue, 3 sleeps and 9 is idle.
abbrev small : Sched
small = record {
  procs = λ p.
      if p == 1
      then proc_in runnable
      else if p == 2
      then proc_in runnable
      else if p == 3
      then proc_in sleeping
      else proc_in uninit;
  current = 1;
  idleproc = 9;
  timer_list =
      record { id = 7; expires = 1; proc = 3 } ∷ record { id = 8; expires = 2; proc = 3 } ∷ [];
  rq = record { proc_num = 1; max_time_slice = 5; lab6_run_pool = node null 2 null };
}

small-QueueInv : QueueInv small
unfolding count size
small-QueueInv = record { exact = λ k. ground arith; owned = (refl, tt, tt); counted = refl }

size_small : size small.rq.lab6_run_pool + 1 < 2 ^ 32
unfolding size
size_small = omega arith

schedule-Switched_example : Switched small (schedule small)
schedule-Switched_example = schedule-Switched small small-QueueInv size_small

wakeup_proc-QueueInv_example : Awake 3 (wakeup_proc 3 small)
wakeup_proc-QueueInv_example = wakeup_proc-QueueInv 3 small small-QueueInv refl

run_timer_list-Ticked_example : Returns (Ticked 10 small) (run_timer_list small)
run_timer_list-Ticked_example =
    run_timer_list-Ticked 10 small (omega arith) ((refl, refl), ((refl, refl), tt))

-- The unbounded strides are those of the processes.
abbrev zero_strides : ℕ → ℕ
zero_strides p = 0

small-IsFair : IsFair zero_strides 0 small
small-IsFair = record {
  near = ((refl, omega arith, omega arith), tt, tt);
  order = (tt, tt, tt, tt);
}

one_root : count 2 null + count 2 null ≡ 0
unfolding count
one_root = refl

take_next-IsFair_example :
    (t : Sched) × (take_next small ≡ ok (2, t))
    × All (λ y. 0 ≤ 0) small.rq.lab6_run_pool
    × IsFair (stepped zero_strides 2 4) 0 t
    × IsNear (stepped zero_strides 2 4) 0 t.procs 2
take_next-IsFair_example =
    take_next-IsFair zero_strides 0 small null null 2 refl one_root refl (omega arith) small-IsFair

abbrev timers : List Timer
timers = record { id = 7; expires = 3; proc = 1 } ∷ record { id = 8; expires = 2; proc = 2 } ∷ []

abbrev new_timer : Timer
new_timer = record { id = 9; expires = 4; proc = 3 }

-- A run of `insert_timer`: the timer goes between the two, and the second counts from it.
insert_timer_run :
    insert_timer new_timer timers
    ≡ record { id = 7; expires = 3; proc = 1 }
      ∷ record { id = 9; expires = 1; proc = 3 }
      ∷ record { id = 8; expires = 1; proc = 2 }
      ∷ []
unfolding insert_timer
insert_timer_run = refl
