-- ===== src/Sched/Proc.antt =====
-- kern/process/proc.h and kern/schedule/sched.h: what the scheduler reads and writes of a process,
-- the run queue, and the kernel state that the functions of kern/schedule/sched.c share.
use os_qemu.Prelude.{ℕ, ◌==◌, ◌%◌, ◌/◌, ◌^◌, Bool, true, false, List, if◌then◌else◌}
use os_qemu.Sched.Timer.{Timer}
use os_qemu.Sched.SkewHeap.{SkewHeap}

pub data ProcState : Type 0 where
  uninit sleeping runnable zombie : ProcState

-- `struct proc_struct`, as far as scheduling goes. `has_rq` says that `proc->rq` is the run queue,
-- of which there is one.
pub record Proc : Type 0 where
  pub state : ProcState
  pub pid : ℕ
  pub runs : ℕ
  pub need_resched : Bool
  pub wait_state : ℕ
  pub has_rq : Bool
  pub time_slice : ℕ
  pub lab6_stride : ℕ
  pub lab6_priority : ℕ

-- `struct run_queue`; the stride scheduler leaves `run_list` empty.
pub record RunQueue : Type 0 where
  pub proc_num : ℕ
  pub max_time_slice : ℕ
  pub lab6_run_pool : SkewHeap

-- The globals of the scheduler. A process is known by a number, its address; 0 is NULL.
pub record Sched : Type 0 where
  pub procs : ℕ → Proc
  pub current : ℕ
  pub idleproc : ℕ
  pub timer_list : List Timer
  pub rq : RunQueue

abbrev pub is_runnable : ProcState → Bool
is_runnable runnable = true
is_runnable _ = false

abbrev pub is_zombie : ProcState → Bool
is_zombie zombie = true
is_zombie _ = false

-- `proc->... = ...`: the store with the record at one address replaced.
abbrev pub update {ℓ} : {A : Type ℓ} → (ℕ → A) → ℕ → A → ℕ → A
update f p a q = if q == p then a else f q

abbrev pub set_proc : ℕ → Proc → Sched → Sched
set_proc p a s = record s { procs = update s.procs p a }

-- `WT_CHILD`, `WT_INTERRUPTED`, `WT_KSEM`, `WT_TIMER` and `WT_KBD`.
abbrev pub wt_child : ℕ
wt_child = 0x8000_0001

abbrev pub wt_interrupted : ℕ
wt_interrupted = 0x8000_0000

abbrev pub wt_ksem : ℕ
wt_ksem = 0x100

abbrev pub wt_timer : ℕ
wt_timer = 0x8000_0002

abbrev pub wt_kbd : ℕ
wt_kbd = 0x8000_0004

-- `wait_state & WT_INTERRUPTED`
abbrev pub is_interrupted : ℕ → Bool
is_interrupted w = w / 2 ^ 31 % 2 == 1
