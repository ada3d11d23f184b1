-- ===== src/Sched/Core/Switch.antt =====
-- `schedule` of kern/schedule/sched.c against the run queue's invariant.
use os_qemu.Prelude.{
  ℕ, ◌+◌, ◌-◌, ◌%◌, ◌^◌, ◌≤◌, ◌<◌, ◌≡◌, refl, ◌==◌, true, false, if◌then◌else◌, arith, Bool-cases,
  inl, inr, ◌⊎◌, suc, ap,
}
use os_qemu.Prelude.Errors.{Result, ok, err, panic, ◌>>=◌}
use os_qemu.Sched.SkewHeap.{SkewHeap, null, node, skew_heap_merge, skew_heap_remove}
use os_qemu.Sched.SkewHeap.Order.{
  All, count, size, count-skew_heap_merge, size-skew_heap_merge, skew_heap_merge-All,
}
use os_qemu.Sched.Proc.{Sched, is_runnable, update, set_proc}
use os_qemu.Sched.Stride.{
  proc_stride_comp_f, stride_enqueue, stride_dequeue, stride_pick_next, step_stride,
}
use os_qemu.Sched.Core.{put_back, take_next, sched_class_enqueue, run_next, schedule}
use os_qemu.Sched.Core.Queue.{
  IsOwned, Holds, QueueInv, Holds-eq, set_proc-Holds, put_back-Holds, ready, Taken, IsOwned-update,
  enqueue_lem,
}

-- The state once the root `p` of the pool is picked and dequeued, and `rest` merged.
abbrev pub dequeued : ℕ → SkewHeap → Sched → Sched
dequeued p rest s = record (set_proc p (step_stride (s.procs p)) s) {
  rq = record (s.rq) { lab6_run_pool = rest; proc_num = s.rq.proc_num - 1 };
}

abbrev pub merged : ℕ → SkewHeap → SkewHeap → Sched → SkewHeap
merged p l r s =
    skew_heap_merge (proc_stride_comp_f (update s.procs p (step_stride (s.procs p)))) l r

-- `pick_next` and `dequeue` take the root.
pub take_next_root :
    (s : Sched) (l r : SkewHeap) (p : ℕ)
    → s.rq.lab6_run_pool ≡ node l p r
    → (s.procs p).has_rq ≡ true
    → 0 < s.rq.proc_num
    → take_next s ≡ ok (p, dequeued p (merged p l r s) s)
unfolding take_next stride_pick_next stride_dequeue skew_heap_remove
take_next_root s l r p e o n = ground arith

pub take_next_empty : (s : Sched) → s.rq.lab6_run_pool ≡ null → take_next s ≡ ok (s.idleproc, s)
unfolding take_next stride_pick_next
take_next_empty s e = ground arith

-- The queue's facts at a root.
pool_node :
    (need : ℕ → ℕ) (s : Sched) (l r : SkewHeap) (p : ℕ)
    → s.rq.lab6_run_pool ≡ node l p r
    → Holds need s
    → ((k : ℕ) → (if p == k then 1 else 0) + count k l + count k r ≡ need k)
      × All (IsOwned s.procs) (node l p r)
      × (s.rq.proc_num ≡ suc (size l + size r) % 2 ^ 32)
unfolding count size
pool_node need s l r p e h = (
  λ k. omega (arith, h.exact k, ap (count k) e),
  rw e at h.owned,
  omega (arith, h.counted, ap size e),
)

dequeued-Holds :
    (need : ℕ → ℕ) (s : Sched) (l r : SkewHeap) (p : ℕ)
    → s.rq.lab6_run_pool ≡ node l p r
    → Holds need s
    → ((k : ℕ) → need k ≤ 1)
    → size l + size r + 1 < 2 ^ 32
    → Holds (λ k. if k == p then 0 else need k) (dequeued p (merged p l r s) s)
dequeued-Holds need s l r p e h one fits =
    let (counts, owns, num) = pool_node need s l r p e h in
    let after = update s.procs p (step_stride (s.procs p)) in
    record {
      exact = λ k.
          ground (arith, counts k, one k, count-skew_heap_merge (proc_stride_comp_f after) k l r);
      owned =
          skew_heap_merge-All (proc_stride_comp_f after) (IsOwned after) l r
            (IsOwned-update s.procs p (step_stride (s.procs p)) l (λ o. o) owns.1)
            (IsOwned-update s.procs p (step_stride (s.procs p)) r (λ o. o) owns.2);
      counted = omega (arith, num, size-skew_heap_merge (proc_stride_comp_f after) l r);
    }

take_next-Taken :
    (need : ℕ → ℕ) (s : Sched) (h : SkewHeap)
    → s.rq.lab6_run_pool ≡ h
    → need s.idleproc ≡ 0
    → ((k : ℕ) → need k ≤ 1)
    → size h < 2 ^ 32
    → Holds need s
    → Taken need s (take_next s)
unfolding size
take_next-Taken need s null e i one fits h =
    rw (take_next_empty s e) (Holds-eq _ _ s (λ k. ground (arith, i)) h, refl, λ k. refl, inl refl)
take_next-Taken need s (node l p r) e i one fits h =
    let (counts, owns, num) = pool_node need s l r p e h in
    rw (take_next_root s l r p e owns.0 (omega arith)) (
      dequeued-Holds need s l r p e h one (omega arith),
      refl,
      λ k. ground arith,
      inr (ground (arith, counts p, one p)),
    )

-- Switching to a process that the queue has given up makes the queue exact for it.
run_next-QueueInv :
    (s : Sched) (p : ℕ) (need : ℕ → ℕ)
    → Holds (λ k. if k == p then 0 else need k) s
    → ((k : ℕ) → need k ≡ ready s k)
    → QueueInv (run_next p s)
unfolding run_next
run_next-QueueInv s p need h e = elim (Bool-cases (p == s.current)) [
  | inl c ↦ rw c (
      Holds-eq _ _ _ (λ k. ground (arith, e k))
        (set_proc-Holds _ p (record (s.procs p) { runs = (s.procs p).runs + 1 }) s (λ o. o) h))
  | inr c ↦ rw c (
      let h' =
        set_proc-Holds _ p (record (s.procs p) { runs = (s.procs p).runs + 1 }) s (λ o. o) h in
      record {
        exact = λ k. ground (arith, e k, h'.exact k);
        owned = h'.owned;
        counted = h'.counted;
      })
]

current-run_next :
    (p : ℕ) (s : Sched)
    → ((run_next p s).current ≡ p)
      × (is_runnable ((run_next p s).procs p).state ≡ is_runnable (s.procs p).state)
unfolding run_next
current-run_next p s = ground arith

size-put_back : (s : Sched) → size (put_back s).rq.lab6_run_pool ≤ size s.rq.lab6_run_pool + 1
unfolding put_back sched_class_enqueue
size-put_back s = ground (
  arith,
  (enqueue_lem s.current (record s {
    procs = update s.procs s.current (record (s.procs s.current) { need_resched = false });
  })).1,
)

idleproc-put_back : (s : Sched) → (put_back s).idleproc ≡ s.idleproc
unfolding put_back sched_class_enqueue stride_enqueue
idleproc-put_back s = ground arith

-- What `schedule` leaves: the queue exact, and a process that can run, or the idle one, running.
abbrev pub Switched : Sched → Result Sched → Type 0
Switched s (ok t) =
    QueueInv t × ((t.current ≡ s.idleproc) ⊎ (is_runnable (t.procs t.current).state ≡ true))
Switched s (err e) = ⊥
Switched s panic = ⊥

finish :
    (s s' : Sched) (r : Result (ℕ × Sched))
    → s'.idleproc ≡ s.idleproc
    → Taken (ready s') s' r
    → Switched s (r >>= λ (p, t). ok (run_next p t))
finish s s' (ok (p, t)) i (h, idle, states, who) = (
  run_next-QueueInv t p (ready s') h (λ k. ground (arith, states k)),
  ground (arith, current-run_next p t, states p),
)
finish s s' (err e) i taken = elim taken [ ]
finish s s' panic i taken = elim taken [ ]

-- Where the run queue holds exactly the waiting processes, and their number fits its counter,
-- `schedule` does not stop the kernel, keeps the queue exact, and runs a process that can run or
-- else the idle process.
pub schedule-Switched :
    (s : Sched) → QueueInv s → size s.rq.lab6_run_pool + 1 < 2 ^ 32 → Switched s (schedule s)
unfolding schedule
schedule-Switched s inv fits =
    finish s (put_back s) (take_next (put_back s)) (idleproc-put_back s) (
      take_next-Taken (ready (put_back s)) (put_back s) _ refl (ground arith) (λ k. ground arith)
        (omega (arith, size-put_back s)) (put_back-Holds s inv))
