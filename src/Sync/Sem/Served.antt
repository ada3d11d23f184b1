-- ===== src/Sync/Sem/Served.antt =====
-- Who waits at a semaphore of kern/sync/sem.c is let go in turn, whatever happens in between.
use os_qemu.Prelude.{
  ℕ, zero, suc, ◌<◌, ◌≡◌, refl, sym, ◌∙◌, ap, subst, ◌==◌, ◌&&◌, not, ltb, true, false, List, [],
  ◌∷◌, ◌++◌, length, arith, Bool-cases, inl, inr,
}
use os_qemu.Prelude.Errors.{bind-ok, ok-injective, ok}
use os_qemu.Sched.Proc.{
  ProcState, uninit, sleeping, zombie, runnable, Sched, is_zombie, is_runnable, set_proc, wt_ksem,
}
use os_qemu.Sched.Stride.{stride_enqueue}
use os_qemu.Sched.Core.{wakeup_proc, sched_class_enqueue}
use os_qemu.Sync.Wait.{
  Sync, take_out, wait_queue_first, wait_queue_del, wake, wakeup_wait, wait_init, wait_queue_add,
  wait_current_set,
}
use os_qemu.Sync.Sem.{Down, through, blocked, up_as, up, down_begin, down}

runnable_state : (p : ProcState) → is_runnable p ≡ true → p ≡ runnable
runnable_state uninit e = ground arith
runnable_state sleeping e = ground arith
runnable_state runnable e = refl
runnable_state zombie e = ground arith

wakeup_proc-awake :
    (p : ℕ) (s : Sched)
    → is_zombie (s.procs p).state ≡ false
    → (t : Sched) × (wakeup_proc p s ≡ ok t) × ((t.procs p).state ≡ runnable)
unfolding wakeup_proc sched_class_enqueue stride_enqueue
wakeup_proc-awake p s z =
    let woken = set_proc p (record (s.procs p) { state = runnable; wait_state = 0 }) s in
    elim (Bool-cases (is_runnable (s.procs p).state)) [
      | inl r ↦ (s, rw (z, r) refl, runnable_state (s.procs p).state r)
      | inr r ↦ elim (Bool-cases (p == s.current)) [
        | inl c ↦ (woken, rw (z, r, c) refl, ground arith)
        | inr c ↦ elim (Bool-cases (p == s.idleproc)) [
          | inl i ↦ (woken, rw (z, r, c, i) refl, ground arith)
          | inr i ↦ (stride_enqueue p woken, rw (z, r, c, i) refl, ground arith)
        ]
      ]
    ]

stopped : (p : ℕ) (s t : Sched) → is_zombie (s.procs p).state ≡ true → ¬ (wakeup_proc p s ≡ ok t)
unfolding wakeup_proc
stopped p s t z e = ground (arith, rw z at e)

wakeup_proc-runs : (p : ℕ) (s t : Sched) → wakeup_proc p s ≡ ok t → (t.procs p).state ≡ runnable
wakeup_proc-runs p s t e = elim (Bool-cases (is_zombie (s.procs p).state)) [
  | inl z ↦ absurd (stopped p s t z e)
  | inr z ↦
      let (T, run, state) = wakeup_proc-awake p s z in
      subst (λ u. (u.procs p).state ≡ runnable) (ok-injective T t (sym run ∙ e)) state
]

wake-runs :
    (w flags : ℕ) (s t : Sync)
    → wake w flags s ≡ ok t
    → ((t.sched.procs (s.waits w).proc).state ≡ runnable) × (t.queues ≡ s.queues)
unfolding wake
wake-runs w flags s t e =
    let (T, run, eq) = bind-ok (wakeup_proc (s.waits w).proc s.sched) _ t e in
    let same = ok-injective _ t eq in
    (
      subst (λ u. (u.sched.procs (s.waits w).proc).state ≡ runnable) same
          (wakeup_proc-runs (s.waits w).proc s.sched T run),
      ap (λ u. u.queues) (sym same),
    )

wait_queue_del-ok :
    (q w : ℕ) (ws : List ℕ) (s t : Sync)
    → s.queues q ≡ w ∷ ws
    → wait_queue_del q w s ≡ ok t
    → (t.queues q ≡ ws) × ((t.waits w).proc ≡ (s.waits w).proc)
unfolding wait_queue_del take_out
wait_queue_del-ok q w ws s t e d =
    elim (Bool-cases ((s.waits w).linked && (s.waits w).wait_queue == q)) [
      | inr l ↦ ground (arith, rw l at d)
      | inl l ↦
          let same = ok-injective _ t (rw l at d) in
          subst (λ u. (u.queues q ≡ ws) × ((u.waits w).proc ≡ (s.waits w).proc)) same
            (rw e (ground arith))
    ]

-- When `up` returns, the first waiter is out of the queue and its process can run.
up-serves :
    (q w : ℕ) (ws : List ℕ) (s t : Sync)
    → s.queues q ≡ w ∷ ws
    → up q s ≡ ok t
    → (t.queues q ≡ ws) × ((t.sched.procs (s.waits w).proc).state ≡ runnable)
unfolding up up_as wait_queue_first wakeup_wait
up-serves q w ws s t e u =
    elim (Bool-cases ((s.sched.procs (s.waits w).proc).wait_state == wt_ksem)) [
      | inr b ↦ ground (arith, rw (e, up_as, b) at u)
      | inl b ↦
          let del = rw (e, up_as, b, wakeup_wait) at u in
          let (s1, out, woken) = bind-ok (wait_queue_del q w s) _ t del in
          let (left, own) = wait_queue_del-ok q w ws s s1 e out in
          let (state, queues) = wake-runs w wt_ksem s1 t woken in
          (ap (λ f. f q) queues ∙ left, subst (λ n. (t.sched.procs n).state ≡ runnable) own state)
    ]

append_assoc {ℓ} : {A : Type ℓ} (xs ys zs : List A) → (xs ++ ys) ++ zs ≡ xs ++ (ys ++ zs)
append_assoc [] ys zs = refl
append_assoc (x ∷ xs) ys zs = ap (λ l. x ∷ l) (append_assoc xs ys zs)

added : (q v : ℕ) (s t : Sync) → wait_queue_add q v s ≡ ok t → t.queues q ≡ s.queues q ++ v ∷ []
unfolding wait_queue_add
added q v s t e = elim (Bool-cases (not (s.waits v).linked && not ((s.waits v).proc == 0))) [
  | inr b ↦ ground (arith, rw b at e)
  | inl b ↦
      let same = ok-injective _ t (rw b at e) in
      subst (λ u. u.queues q ≡ s.queues q ++ v ∷ []) same (ground arith)
]

set-appends :
    (q v f : ℕ) (s t : Sync) → wait_current_set q v f s ≡ ok t → t.queues q ≡ s.queues q ++ v ∷ []
unfolding wait_current_set wait_init
set-appends q v f s t e = elim (Bool-cases (s.sched.current == 0)) [
  | inl b ↦ ground (arith, rw b at e)
  | inr b ↦
      let p = s.sched.current in
      let i = wait_init v p s in
      let asleep = record (i.sched.procs p) { state = sleeping; wait_state = f } in
      let s1 : Sync = record i { sched = set_proc p asleep i.sched } in added q v s1 t (rw b at e)
]

blocked_state : Sync → Down → Sync
blocked_state s (through t) = s
blocked_state s (blocked t) = t

down-appends :
    (q v : ℕ) (s t : Sync) → down q v s ≡ ok (blocked t) → t.queues q ≡ s.queues q ++ v ∷ []
unfolding down down_begin blocked_state
down-appends q v s t e = elim (Bool-cases (ltb 0 (s.values q))) [
  | inl b ↦ ground (arith, ok-injective _ (blocked t) (rw (b, down_begin) at e))
  | inr b ↦
      let (a, run, eq) = bind-ok (wait_current_set q v wt_ksem s) _ _ (rw (b, down_begin) at e) in
      let same : a ≡ t = ap (blocked_state s) (ok-injective (blocked a) (blocked t) eq) in
      subst (λ u. u.queues q ≡ s.queues q ++ v ∷ []) same (set-appends q v wt_ksem s a run)
]

-- What happens at the semaphore `q`, one call after the other, `n` calls of `up` among it: `down` that
-- waits, and whatever leaves the queue alone, as a `down` does that comes through.
pub data Run (q : ℕ) : ℕ → Sync → Sync → Type 0 where
  done : (s : Sync) → Run q zero s s
  by_up : (n : ℕ) (s t u : Sync) → up q s ≡ ok t → Run q n t u → Run q (suc n) s u
  by_wait : (n v : ℕ) (s t u : Sync) → down q v s ≡ ok (blocked t) → Run q n t u → Run q n s u
  by_other : (n : ℕ) (s t u : Sync) → t.queues q ≡ s.queues q → Run q n t u → Run q n s u

-- Somewhere in the run the entry `w` is the first of the queue, and an `up` takes it out and leaves its
-- process able to run.
pub data Served (q w : ℕ) : (n : ℕ) (s u : Sync) → Run q n s u → Type 0 where
  now :
      (n : ℕ) (s t u : Sync) (ws : List ℕ) (e : up q s ≡ ok t) (r : Run q n t u)
      → s.queues q ≡ w ∷ ws
      → t.queues q ≡ ws
      → (t.sched.procs (s.waits w).proc).state ≡ runnable
      → Served q w (suc n) s u (by_up n s t u e r)
  after_up :
      (n : ℕ) (s t u : Sync) (e : up q s ≡ ok t) (r : Run q n t u)
      → Served q w n t u r
      → Served q w (suc n) s u (by_up n s t u e r)
  after_wait :
      (n v : ℕ) (s t u : Sync) (e : down q v s ≡ ok (blocked t)) (r : Run q n t u)
      → Served q w n t u r
      → Served q w n s u (by_wait n v s t u e r)
  after_other :
      (n : ℕ) (s t u : Sync) (e : t.queues q ≡ s.queues q) (r : Run q n t u)
      → Served q w n t u r
      → Served q w n s u (by_other n s t u e r)

-- Whoever waits with `k` entries before it is let go by the time `k` + 1 calls of `up` have returned,
-- whatever else happens at the semaphore in between: no later `down` gets past it.
pub Run-Served :
    (q w : ℕ) (n : ℕ) (s u : Sync) (xs ys : List ℕ) (r : Run q n s u)
    → s.queues q ≡ xs ++ w ∷ ys
    → length xs < n
    → Served q w n s u r
Run-Served q w _ _ _ xs ys (done s) e lt = absurd (omega arith)
Run-Served q w _ _ _ [] ys (by_up n s t u run r) e lt =
    let (left, state) = up-serves q w ys s t e run in now n s t u ys run r e left state
Run-Served q w _ _ _ (x ∷ xs) ys (by_up n s t u run r) e lt =
    let (left, state) = up-serves q x (xs ++ w ∷ ys) s t e run in
    after_up n s t u run r (Run-Served q w n t u xs ys r left (omega arith))
Run-Served q w _ _ _ xs ys (by_wait n v s t u run r) e lt =
    let more : t.queues q ≡ xs ++ w ∷ (ys ++ v ∷ []) =
      down-appends q v s t run ∙ ap (λ l. l ++ v ∷ []) e ∙ append_assoc xs (w ∷ ys) (v ∷ []) in
    after_wait n v s t u run r (Run-Served q w n t u xs (ys ++ v ∷ []) r more lt)
Run-Served q w _ _ _ xs ys (by_other n s t u same r) e lt =
    after_other n s t u same r (Run-Served q w n t u xs ys r (same ∙ e) lt)
