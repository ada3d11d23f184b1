-- ===== src/Sched/Core/Queue.antt =====
-- The run queue of kern/schedule/sched.c holds exactly the processes that wait to run.
use os_qemu.Prelude.{
  ℕ, ◌+◌, ◌%◌, ◌^◌, ◌≡◌, refl, ◌==◌, true, false, if◌then◌else◌, arith, ◌||◌, ◌∙◌, ◌⊎◌, Bool-cases,
  inl, inr,
}
use os_qemu.Prelude.Errors.{Result, ok, err, panic}
use os_qemu.Sched.SkewHeap.{SkewHeap, null, node}
use os_qemu.Sched.SkewHeap.Order.{
  All, count, size, count-skew_heap_merge, size-skew_heap_merge, skew_heap_merge-All, All-map,
}
use os_qemu.Sched.Proc.{Proc, Sched, is_runnable, is_zombie, runnable, update, set_proc}
use os_qemu.Sched.Stride.{proc_stride_comp_f, stride_enqueue, with_slice}
use os_qemu.Sched.Core.{sched_class_enqueue, wakeup_proc, put_back}

-- One entry for a process that can run, is not running and is not the idle process; else none.
abbrev pub waiting : Sched → ℕ → ℕ
waiting s k =
    if k == s.current || k == s.idleproc then 0 else if is_runnable (s.procs k).state then 1 else 0

abbrev pub IsOwned : (ℕ → Proc) → ℕ → Type 0
IsOwned procs p = (procs p).has_rq ≡ true

-- The queue holds each process as often as `need` says, and its bookkeeping fits.
pub record Holds (need : ℕ → ℕ) (s : Sched) : Type 0 where
  pub exact : (k : ℕ) → count k s.rq.lab6_run_pool ≡ need k
  pub owned : All (IsOwned s.procs) s.rq.lab6_run_pool
  pub counted : s.rq.proc_num ≡ size s.rq.lab6_run_pool % 2 ^ 32

abbrev pub QueueInv : Sched → Type 0
QueueInv s = Holds (waiting s) s

pub Holds-eq :
    (need need' : ℕ → ℕ) (s : Sched) → ((k : ℕ) → need k ≡ need' k) → Holds need s → Holds need' s
Holds-eq need need' s e h = record {
  exact = λ k. h.exact k ∙ e k;
  owned = h.owned;
  counted = h.counted;
}

pub IsOwned-update :
    (procs : ℕ → Proc) (p : ℕ) (a : Proc) (h : SkewHeap)
    → ((procs p).has_rq ≡ true → a.has_rq ≡ true)
    → All (IsOwned procs) h
    → All (IsOwned (update procs p a)) h
IsOwned-update procs p a h keep all =
    All-map (IsOwned procs) (IsOwned (update procs p a)) h
      (λ y o. elim (Bool-cases (y == p)) [ inl e ↦ ground (arith, keep) | inr e ↦ ground arith ])
      all

-- What `stride_enqueue` does to the queue.
pub enqueue_lem :
    (p : ℕ) (s : Sched)
    → ((k : ℕ)
        → count k (stride_enqueue p s).rq.lab6_run_pool
          ≡ count k s.rq.lab6_run_pool + (if p == k then 1 else 0))
      × (size (stride_enqueue p s).rq.lab6_run_pool ≡ size s.rq.lab6_run_pool + 1)
unfolding stride_enqueue count size
enqueue_lem p s = (
  λ k. omega (
    arith,
    count-skew_heap_merge (proc_stride_comp_f s.procs) k s.rq.lab6_run_pool (node null p null),
  ),
  omega (
    arith,
    size-skew_heap_merge (proc_stride_comp_f s.procs) s.rq.lab6_run_pool (node null p null),
  ),
)

enqueue-IsOwned :
    (p : ℕ) (s : Sched)
    → All (IsOwned s.procs) s.rq.lab6_run_pool
    → All (IsOwned (stride_enqueue p s).procs) (stride_enqueue p s).rq.lab6_run_pool
unfolding stride_enqueue
enqueue-IsOwned p s all =
    skew_heap_merge-All (proc_stride_comp_f s.procs) (IsOwned (stride_enqueue p s).procs)
      s.rq.lab6_run_pool (node null p null)
      (IsOwned-update s.procs p (with_slice s.rq (s.procs p)) s.rq.lab6_run_pool (λ _. refl) all)
      (ground arith, tt, tt)

enqueue_num : (p : ℕ) (s : Sched) → (stride_enqueue p s).rq.proc_num ≡ (s.rq.proc_num + 1) % 2 ^ 32
unfolding stride_enqueue
enqueue_num p s = refl

pub set_proc-Holds :
    (need : ℕ → ℕ) (p : ℕ) (a : Proc) (s : Sched)
    → ((s.procs p).has_rq ≡ true → a.has_rq ≡ true)
    → Holds need s
    → Holds need (set_proc p a s)
set_proc-Holds need p a s keep h = record {
  exact = h.exact;
  owned = IsOwned-update s.procs p a s.rq.lab6_run_pool keep h.owned;
  counted = h.counted;
}

enqueue-Holds :
    (need : ℕ → ℕ) (p : ℕ) (s : Sched)
    → Holds need s
    → Holds (λ k. need k + (if p == k then 1 else 0)) (stride_enqueue p s)
enqueue-Holds need p s h = record {
  exact = λ k. omega (arith, (enqueue_lem p s).0 k, h.exact k);
  owned = enqueue-IsOwned p s h.owned;
  counted = omega (arith, enqueue_num p s, (enqueue_lem p s).1, h.counted);
}

abbrev woken : ℕ → Sched → Sched
woken p s = set_proc p (record (s.procs p) { state = runnable; wait_state = 0 }) s

woken-Holds : (p : ℕ) (s : Sched) → QueueInv s → Holds (waiting s) (woken p s)
woken-Holds p s inv = set_proc-Holds (waiting s) p _ s (λ o. o) inv

waiting-stride_enqueue : (p k : ℕ) (s : Sched) → waiting (stride_enqueue p s) k ≡ waiting s k
unfolding stride_enqueue
waiting-stride_enqueue p k s = ground arith

-- A call that comes to an end with the queue exact and the process `p` able to run.
abbrev pub Awake : ℕ → Result Sched → Type 0
Awake p r = (t : Sched) × (r ≡ ok t) × QueueInv t × (is_runnable (t.procs p).state ≡ true)

enqueued_runs :
    (p : ℕ) (s : Sched) → is_runnable ((stride_enqueue p (woken p s)).procs p).state ≡ true
unfolding stride_enqueue
enqueued_runs p s = ground arith

-- Waking a process that is no zombie does not stop the kernel and makes the process runnable, and the
-- run queue, which held every waiting process once and its own bookkeeping right, still does.
pub wakeup_proc-QueueInv :
    (p : ℕ) (s : Sched)
    → QueueInv s
    → is_zombie (s.procs p).state ≡ false
    → Awake p (wakeup_proc p s)
unfolding wakeup_proc sched_class_enqueue
wakeup_proc-QueueInv p s inv z = rw z (elim (Bool-cases (is_runnable (s.procs p).state)) [
  | inl r ↦ rw r (s, refl, inv, r)
  | inr r ↦ rw r (elim (Bool-cases (p == s.current)) [
    | inl c ↦ rw c (
      woken p s,
      refl,
      Holds-eq _ _ (woken p s) (λ k. ground arith) (woken-Holds p s inv),
      ground arith,
    )
    | inr c ↦ rw c (elim (Bool-cases (p == s.idleproc)) [
      | inl i ↦ rw i (
        woken p s,
        refl,
        Holds-eq _ _ (woken p s) (λ k. ground arith) (woken-Holds p s inv),
        ground arith,
      )
      | inr i ↦ rw i (
        stride_enqueue p (woken p s),
        refl,
        Holds-eq _ _ (stride_enqueue p (woken p s))
            (λ k. ground (arith, waiting-stride_enqueue p k (woken p s)))
            (enqueue-Holds _ p (woken p s) (woken-Holds p s inv)),
        enqueued_runs p s,
      )
    ])
  ])
])

-- Between `put_back` and the switch: every process that can run but the idle one.
abbrev pub ready : Sched → ℕ → ℕ
ready s k = if k == s.idleproc then 0 else if is_runnable (s.procs k).state then 1 else 0

ready-stride_enqueue : (p k : ℕ) (s : Sched) → ready (stride_enqueue p s) k ≡ ready s k
unfolding stride_enqueue
ready-stride_enqueue p k s = ground arith

abbrev cleared : Sched → Sched
cleared s = set_proc s.current (record (s.procs s.current) { need_resched = false }) s

cleared-Holds : (s : Sched) → QueueInv s → Holds (waiting s) (cleared s)
cleared-Holds s inv = set_proc-Holds (waiting s) s.current _ s (λ o. o) inv

pub put_back-Holds : (s : Sched) → QueueInv s → Holds (ready (put_back s)) (put_back s)
unfolding put_back sched_class_enqueue
put_back-Holds s inv = elim (Bool-cases (is_runnable (s.procs s.current).state)) [
  | inr r ↦ rw r (Holds-eq _ _ (cleared s) (λ k. ground arith) (cleared-Holds s inv))
  | inl r ↦ rw r (elim (Bool-cases (s.current == s.idleproc)) [
    | inl i ↦ rw i (Holds-eq _ _ (cleared s) (λ k. ground arith) (cleared-Holds s inv))
    | inr i ↦ rw i (
        Holds-eq _ _ (stride_enqueue s.current (cleared s))
          (λ k. ground (arith, ready-stride_enqueue s.current k (cleared s)))
          (enqueue-Holds _ s.current (cleared s) (cleared-Holds s inv)))
  ])
]

-- What `take_next` hands over: a process that was in the queue, or the idle one, and the queue
-- without it.
abbrev pub Taken : (ℕ → ℕ) → Sched → Result (ℕ × Sched) → Type 0
Taken need s (ok (p, t)) =
    Holds (λ k. if k == p then 0 else need k) t
    × (t.idleproc ≡ s.idleproc)
    × ((k : ℕ) → is_runnable (t.procs k).state ≡ is_runnable (s.procs k).state)
    × ((p ≡ s.idleproc) ⊎ (need p ≡ 1))
Taken need s (err e) = ⊥
Taken need s panic = ⊥
