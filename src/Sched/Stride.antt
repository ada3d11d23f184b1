-- ===== src/Sched/Stride.antt =====
-- kern/schedule/default_sched_stride.c: the stride scheduler's run queue.
use os_qemu.Prelude.{
  ℕ, ◌+◌, ◌-◌, ◌/◌, ◌%◌, ◌^◌, ◌==◌, ltb, true, ◌&&◌, ◌||◌, if◌then◌else◌, Option, none, some,
}
use os_qemu.Prelude.Int.{ℤ, pos, negsuc}
use os_qemu.Prelude.Errors.{Result, ok, panic}
use os_qemu.Sched.SkewHeap.{null, node, skew_heap_insert, skew_heap_remove}
use os_qemu.Sched.Proc.{Proc, RunQueue, Sched, update, set_proc}

abbrev pub big_stride : ℕ
big_stride = 2 ^ 30

-- `int32_t c = p->lab6_stride - q->lab6_stride`, and its sign: the difference of two uint32_t
-- wraps, and stands for a negative number from 2^31 on.
unfoldable pub stride_comp : ℕ → ℕ → ℤ
stride_comp p q =
    let c = (p + 2 ^ 32 - q) % 2 ^ 32 in
    if c == 0 then pos 0 else if ltb c (2 ^ 31) then pos 1 else negsuc 0

abbrev pub proc_stride_comp_f : (ℕ → Proc) → ℕ → ℕ → ℤ
proc_stride_comp_f procs a b = stride_comp (procs a).lab6_stride (procs b).lab6_stride

unfoldable pub stride_init : RunQueue → RunQueue
stride_init rq = record rq { lab6_run_pool = null; proc_num = 0 }

abbrev pub with_slice : RunQueue → Proc → Proc
with_slice rq p = record p {
  time_slice =
      if p.time_slice == 0 || ltb rq.max_time_slice p.time_slice
      then rq.max_time_slice
      else p.time_slice;
  has_rq = true;
}

unfoldable pub stride_enqueue : ℕ → Sched → Sched
unfolding skew_heap_insert
stride_enqueue p s = record s {
  procs = update s.procs p (with_slice s.rq (s.procs p));
  rq = record (s.rq) {
    lab6_run_pool = skew_heap_insert (proc_stride_comp_f s.procs) s.rq.lab6_run_pool p;
    proc_num = (s.rq.proc_num + 1) % 2 ^ 32;
  };
}

unfoldable pub stride_dequeue : ℕ → Sched → Result Sched
stride_dequeue p s =
    if (s.procs p).has_rq && ltb 0 s.rq.proc_num
    then ok (record s {
      rq = record (s.rq) {
        lab6_run_pool = skew_heap_remove (proc_stride_comp_f s.procs) s.rq.lab6_run_pool p;
        proc_num = s.rq.proc_num - 1;
      };
    })
    else panic

-- `proc->lab6_priority ? BIG_STRIDE / proc->lab6_priority : BIG_STRIDE`
unfoldable pub pass : ℕ → ℕ
pass priority = if priority == 0 then big_stride else big_stride / priority

abbrev pub step_stride : Proc → Proc
step_stride p = record p { lab6_stride = (p.lab6_stride + pass p.lab6_priority) % 2 ^ 32 }

unfoldable pub stride_pick_next : Sched → Option ℕ × Sched
stride_pick_next s = elim s.rq.lab6_run_pool [
  | null ↦ (none, s)
  | node l p r ↦ (some p, set_proc p (step_stride (s.procs p)) s)
]

unfoldable pub stride_proc_tick : ℕ → Sched → Sched
stride_proc_tick p s =
    let left = (s.procs p).time_slice - 1 in
    set_proc p
      (record (s.procs p) {
        time_slice = left;
        need_resched = if left == 0 then true else (s.procs p).need_resched;
      })
      s
