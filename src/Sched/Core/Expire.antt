-- ===== src/Sched/Core/Expire.antt =====
-- The timers that the clock tick of kern/schedule/sched.c finds expired.
use os_qemu.Prelude.{
  ℕ, ◌≡◌, refl, ◌==◌, Bool, true, false, arith, Bool-cases, inl, inr, List, [], ◌∷◌, not, ◌&&◌, ◌∙◌,
  ap, sym, subst,
}
use os_qemu.Prelude.Errors.{Result, ok, err, panic, ◌>>=◌}
use os_qemu.Sched.Timer.{Timer, del_timer}
use os_qemu.Sched.Timer.Deadlines.{drop_spent, spent_procs}
use os_qemu.Sched.Proc.{Proc, Sched, is_runnable, is_zombie, is_interrupted}
use os_qemu.Sched.Stride.{stride_enqueue}
use os_qemu.Sched.Core.{wakeup_proc, sched_class_enqueue, expire_timers}

-- The run ends, and leaves a state with `P`.
abbrev pub Returns : (Sched → Type 0) → Result Sched → Type 0
Returns P (ok t) = P t
Returns P (err e) = ⊥
Returns P panic = ⊥

-- `wait_state` is set and has no WT_INTERRUPTED.
abbrev pub deep_sleep : Proc → Bool
deep_sleep p = not (p.wait_state == 0) && not (is_interrupted p.wait_state)

-- A timer may wake the process: it is no zombie, and waits for nothing that only its owner ends.
abbrev pub IsWakeable : Sched → ℕ → Type 0
IsWakeable s p = (is_zombie (s.procs p).state ≡ false) × (deep_sleep (s.procs p) ≡ false)

abbrev pub AllWakeable : Sched → List Timer → Type 0
AllWakeable s [] = Unit {0}
AllWakeable s (t ∷ ts) = IsWakeable s t.proc × AllWakeable s ts

pub AllWakeable-map :
    (s t : Sched) (ts : List Timer)
    → ((q : ℕ) → IsWakeable s q → IsWakeable t q)
    → AllWakeable s ts
    → AllWakeable t ts
AllWakeable-map s t [] f h = tt
AllWakeable-map s t (x ∷ ts) f h = (f x.proc h.0, AllWakeable-map s t ts f h.1)

abbrev pub Runs : Sched → ℕ → Type 0
Runs s p = is_runnable (s.procs p).state ≡ true

-- Waking leaves the timers alone, makes its process runnable and no other process less so.
pub record Woke (p : ℕ) (s t : Sched) : Type 0 where
  pub timers : t.timer_list ≡ s.timer_list
  pub runs : Runs t p
  pub kept : (q : ℕ) → Runs s q → Runs t q
  pub wakeable : (q : ℕ) → IsWakeable s q → IsWakeable t q

pub wakeup_proc-Woke :
    (p : ℕ) (s : Sched) → is_zombie (s.procs p).state ≡ false → Returns (Woke p s) (wakeup_proc p s)
unfolding wakeup_proc sched_class_enqueue stride_enqueue
wakeup_proc-Woke p s z = rw z (elim (Bool-cases (is_runnable (s.procs p).state)) [
  | inl r ↦ rw r (record { timers = refl; runs = r; kept = λ q h. h; wakeable = λ q h. h })
  | inr r ↦ rw r (record {
    timers = ground arith;
    runs = ground arith;
    kept = λ q h. ground arith;
    wakeable = λ q h. ground arith;
  })
])

abbrev pub AllRun : Sched → List ℕ → Type 0
AllRun s [] = Unit {0}
AllRun s (p ∷ ps) = Runs s p × AllRun s ps

pub AllRun-kept :
    (s t : Sched) (ps : List ℕ) → ((q : ℕ) → Runs s q → Runs t q) → AllRun s ps → AllRun t ps
AllRun-kept s t [] k h = tt
AllRun-kept s t (p ∷ ps) k h = (k p h.0, AllRun-kept s t ps k h.1)

pub drop_spent_nil : drop_spent [] ≡ []
unfolding drop_spent
drop_spent_nil = refl

pub spent_procs_nil : spent_procs [] ≡ []
unfolding spent_procs
spent_procs_nil = refl

pub record Expired (ts : List Timer) (s t : Sched) : Type 0 where
  pub timers : t.timer_list ≡ drop_spent ts
  pub runs : AllRun t (spent_procs ts)
  pub kept : (q : ℕ) → Runs s q → Runs t q

pub Returns-map :
    (P Q : Sched → Type 0) (r : Result Sched)
    → ((t : Sched) → P t → Q t)
    → Returns P r
    → Returns Q r
Returns-map P Q (ok t) f h = f t h
Returns-map P Q (err e) f h = h
Returns-map P Q panic f h = h

pub spent_head :
    (t : Timer) (ts : List Timer)
    → (t.expires == 0) ≡ true
    → (drop_spent (t ∷ ts) ≡ drop_spent ts)
      × (spent_procs (t ∷ ts) ≡ t.proc ∷ spent_procs ts)
      × (del_timer t.id (t ∷ ts) ≡ ts)
unfolding drop_spent spent_procs del_timer
spent_head t ts z = ground arith

pub live_head :
    (t : Timer) (ts : List Timer)
    → (t.expires == 0) ≡ false
    → (drop_spent (t ∷ ts) ≡ t ∷ ts) × (spent_procs (t ∷ ts) ≡ [])
unfolding drop_spent spent_procs
live_head t ts z = ground arith

abbrev unlink : Timer → Sched → Sched
unlink t s = record s { timer_list = del_timer t.id s.timer_list }

expire_next :
    (t : Timer) (ts : List Timer) (s : Sched)
    → (t.expires == 0) ≡ true
    → s.timer_list ≡ t ∷ ts
    → AllWakeable s ts
    → ((u : Sched)
        → u.timer_list ≡ ts
        → AllWakeable u ts
        → Returns (Expired ts u) (expire_timers ts u))
    → (w : Result Sched) → Returns (Woke t.proc s) w
    → Returns (Expired (t ∷ ts) s) (w >>= λ u. expire_timers ts (unlink t u))
expire_next t ts s z e a more panic h = h
expire_next t ts s z e a more (err x) h = h
expire_next t ts s z e a more (ok u) h =
    let (dropped, spent, gone) = spent_head t ts z in
    Returns-map (Expired ts (unlink t u)) (Expired (t ∷ ts) s) (expire_timers ts (unlink t u))
      (λ v x. record {
        timers = x.timers ∙ sym dropped;
        runs = subst (AllRun v) (sym spent) (x.kept t.proc h.runs, x.runs);
        kept = λ q r. x.kept q (h.kept q r);
      })
      (more (unlink t u) (ap (del_timer t.id) (h.timers ∙ e) ∙ gone)
        (AllWakeable-map s (unlink t u) ts h.wakeable a))

pub expire_timers-Expired :
    (ts : List Timer) (s : Sched)
    → s.timer_list ≡ ts
    → AllWakeable s ts
    → Returns (Expired ts s) (expire_timers ts s)
unfolding expire_timers
expire_timers-Expired [] s e a = record {
  timers = e ∙ sym drop_spent_nil;
  runs = subst (AllRun s) (sym spent_procs_nil) tt;
  kept = λ q h. h;
}
expire_timers-Expired (t ∷ ts) s e a = elim (Bool-cases (t.expires == 0)) [
  | inr n ↦ rw n (record {
    timers = e ∙ sym (live_head t ts n).0;
    runs = subst (AllRun s) (sym (live_head t ts n).1) tt;
    kept = λ q h. h;
  })
  | inl z ↦
      rw (z, a.0.1)
        (expire_next t ts s z e a.1 (expire_timers-Expired ts) (wakeup_proc t.proc s)
          (wakeup_proc-Woke t.proc s a.0.0))
]
