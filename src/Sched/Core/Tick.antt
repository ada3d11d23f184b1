-- ===== src/Sched/Core/Tick.antt =====
-- The clock tick of kern/schedule/sched.c against the deadlines of the timers.
use os_qemu.Prelude.{
  ℕ, ◌+◌, ◌-◌, ◌≡◌, refl, ◌==◌, false, arith, List, [], ◌∷◌, ◌∙◌, ap, sym, subst, ◌≢◌,
}
use os_qemu.Prelude.Errors.{Result, ok, err, panic, ◌>>=◌}
use os_qemu.Sched.Timer.{Timer}
use os_qemu.Sched.Timer.Deadlines.{deadlines, later, due_procs, deadlines-drop_spent}
use os_qemu.Sched.Proc.{Sched}
use os_qemu.Sched.Stride.{stride_proc_tick}
use os_qemu.Sched.Core.{
  sched_class_proc_tick, expire_timers, run_timer_list, tick_current, start_ticks,
}
use os_qemu.Sched.Core.Expire.{
  Returns, AllWakeable, AllRun, Expired, expire_timers-Expired, AllRun-kept,
}

-- What a tick at `now` makes of the deadlines: those that lie behind `now + 1` stand as they stood,
-- the others are gone, and their processes can run.
pub record Ticked (now : ℕ) (s t : Sched) : Type 0 where
  pub timers : deadlines (now + 1) t.timer_list ≡ later (now + 1) (deadlines now s.timer_list)
  pub runs : AllRun t (due_procs (now + 1) (deadlines now s.timer_list))

tick_current-Ticked : (now : ℕ) (s t : Sched) → Ticked now s t → Ticked now s (tick_current t)
unfolding sched_class_proc_tick stride_proc_tick
tick_current-Ticked now s t h = record {
  timers =
      subst (λ ts. deadlines (now + 1) ts ≡ later (now + 1) (deadlines now s.timer_list))
        (ground arith) h.timers;
  runs = AllRun-kept t (tick_current t) _ (λ q r. ground arith) h.runs;
}

finish_tick :
    (now : ℕ) (t : Timer) (ts : List Timer) (s u : Sched) (r : Result Sched)
    → t.expires ≢ 0
    → s.timer_list ≡ t ∷ ts
    → Returns (Expired (record t { expires = t.expires - 1 } ∷ ts) u) r
    → Returns (Ticked now s) (r >>= λ v. ok (tick_current v))
finish_tick now t ts s u (err x) n e h = h
finish_tick now t ts s u panic n e h = h
finish_tick now t ts s u (ok v) n e h =
    let (rest, procs) =
      deadlines-drop_spent (now + 1) (record t { expires = t.expires - 1 } ∷ ts) in
    let same : deadlines (now + 1) (record t { expires = t.expires - 1 } ∷ ts)
        ≡ deadlines now s.timer_list =
      rw e (let q : now + 1 + (t.expires - 1) ≡ now + t.expires = omega arith in rw q) in
    tick_current-Ticked now s v (record {
      timers = ap (deadlines (now + 1)) h.timers ∙ rest ∙ ap (later (now + 1)) same;
      runs = subst (AllRun v) (procs ∙ ap (due_procs (now + 1)) same) h.runs;
    })

no_timers : (now : ℕ) (s : Sched) → s.timer_list ≡ [] → Ticked now s s
unfolding later due_procs
no_timers now s e = record { timers = rw e; runs = rw e tt }

-- The first timer has ticks left, as `run_timer_list` asserts.
abbrev pub IsArmed : List Timer → Type 0
IsArmed [] = Unit {0}
IsArmed (t ∷ ts) = t.expires ≢ 0

run_timer_list_lem :
    (s : Sched) (ts : List Timer)
    → s.timer_list ≡ ts
    → run_timer_list s ≡ (start_ticks ts s >>= λ t. ok (tick_current t))
unfolding run_timer_list
run_timer_list_lem s ts e = ap (λ us. start_ticks us s >>= λ t. ok (tick_current t)) e

-- The clock tick at `now`, where the first timer is armed and timers stand for processes that may be
-- woken: it does not stop the kernel, the deadlines behind `now + 1` stand as they stood and the
-- others are gone, and the processes of those can run.
pub run_timer_list-Ticked :
    (now : ℕ) (s : Sched)
    → IsArmed s.timer_list
    → AllWakeable s s.timer_list
    → Returns (Ticked now s) (run_timer_list s)
run_timer_list-Ticked now s armed awake = by_list s.timer_list refl armed awake
  where
    by_list :
        (ts : List Timer)
        → s.timer_list ≡ ts
        → IsArmed ts
        → AllWakeable s ts
        → Returns (Ticked now s) (run_timer_list s)
    by_list [] e a w =
        subst (Returns (Ticked now s)) (sym (run_timer_list_lem s [] e))
          (tick_current-Ticked now s s (no_timers now s e))
    by_list (t ∷ ts) e a w =
        let live : (t.expires == 0) ≡ false = ground arith in
        let u = record s { timer_list = record t { expires = t.expires - 1 } ∷ ts } in
        subst (Returns (Ticked now s)) (sym (run_timer_list_lem s (t ∷ ts) e)) (
          rw live (
            finish_tick now t ts s u (expire_timers u.timer_list u) a e
              (expire_timers-Expired u.timer_list u refl w)))
