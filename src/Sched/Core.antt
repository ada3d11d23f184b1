-- ===== src/Sched/Core.antt =====
-- kern/schedule/sched.c: waking, switching and the clock tick, over the stride scheduler. Each
-- function runs with interrupts off, so each is one step.
pub mod Queue
pub mod Switch
pub mod Expire
pub mod Tick
pub mod Fair
use os_qemu.Prelude.{
  ℕ, ◌+◌, ◌-◌, ◌==◌, not, ltb, Bool, true, false, ◌&&◌, ◌||◌, List, [], ◌∷◌, if◌then◌else◌, Option,
  none, some,
}
use os_qemu.Prelude.Errors.{Result, ok, panic, ◌>>=◌}
use os_qemu.Sched.Timer.{Timer, del_timer, add_timer}
use os_qemu.Sched.Proc.{
  ProcState, runnable, Proc, RunQueue, Sched, is_runnable, is_zombie, update, set_proc,
  is_interrupted,
}
use os_qemu.Sched.Stride.{
  stride_init, stride_enqueue, stride_dequeue, stride_pick_next, stride_proc_tick,
}

abbrev pub max_time_slice : ℕ
max_time_slice = 5

unfoldable pub sched_class_enqueue : ℕ → Sched → Sched
sched_class_enqueue p s = if p == s.idleproc then s else stride_enqueue p s

unfoldable pub sched_class_proc_tick : ℕ → Sched → Sched
sched_class_proc_tick p s =
    if p == s.idleproc
    then set_proc p (record (s.procs p) { need_resched = true }) s
    else stride_proc_tick p s

unfoldable pub sched_init : Sched → Sched
unfolding stride_init
sched_init s = record s {
  timer_list = [];
  rq = stride_init (record (s.rq) { max_time_slice = max_time_slice });
}

-- Waking a runnable process only warns.
unfoldable pub wakeup_proc : ℕ → Sched → Result Sched
wakeup_proc p s =
    if is_zombie (s.procs p).state
    then panic
    else if is_runnable (s.procs p).state
    then ok s
    else (let woken = set_proc p (record (s.procs p) { state = runnable; wait_state = 0 }) s in
        ok (if p == s.current then woken else sched_class_enqueue p woken))

-- `proc_run`: the page table, the TLB and the registers are the machine's.
unfoldable pub proc_run : ℕ → Sched → Sched
proc_run p s = record s { current = p }

-- `next->runs ++` and the switch.
unfoldable pub run_next : ℕ → Sched → Sched
unfolding proc_run
run_next p s =
    let counted = set_proc p (record (s.procs p) { runs = (s.procs p).runs + 1 }) s in
    if p == s.current then counted else proc_run p counted

-- `schedule` up to the choice of the next process: the current one goes back to the queue if it
-- can run.
unfoldable pub put_back : Sched → Sched
unfolding sched_class_enqueue
put_back s =
    let cleared = set_proc s.current (record (s.procs s.current) { need_resched = false }) s in
    if is_runnable (s.procs s.current).state then sched_class_enqueue s.current cleared else cleared

-- `pick_next` and `dequeue`; with nothing to run, the idle process.
unfoldable pub take_next : Sched → Result (ℕ × Sched)
take_next s =
    let (choice, s') = stride_pick_next s in
    elim choice [ none ↦ ok (s'.idleproc, s') | some p ↦ (do t ← stride_dequeue p s'; ok (p, t)) ]

unfoldable pub schedule : Sched → Result Sched
unfolding put_back take_next run_next
schedule s = do (p, t) ← take_next (put_back s); ok (run_next p t)

-- The loop of `run_timer_list` over the timers from `timer` on. `le` has moved on before a timer is
-- deleted.
unfoldable pub expire_timers : List Timer → Sched → Result Sched
expire_timers [] s = ok s
expire_timers (t ∷ ts) s =
    if t.expires == 0
    then (if not ((s.procs t.proc).wait_state == 0)
          && not (is_interrupted (s.procs t.proc).wait_state)
        then panic
        else (do
          woken ← wakeup_proc t.proc s
          expire_timers ts (record woken { timer_list = del_timer t.id woken.timer_list })))
    else ok s

abbrev pub tick_current : Sched → Sched
tick_current s = if s.current == 0 then s else sched_class_proc_tick s.current s

abbrev pub start_ticks : List Timer → Sched → Result Sched
start_ticks [] s = ok s
start_ticks (t ∷ ts) s =
    if t.expires == 0
    then panic
    else (let ticked = record t { expires = t.expires - 1 } ∷ ts in
        expire_timers ticked (record s { timer_list = ticked }))

unfoldable pub run_timer_list : Sched → Result Sched
unfolding expire_timers sched_class_proc_tick
run_timer_list s = do t ← start_ticks s.timer_list s; ok (tick_current t)
