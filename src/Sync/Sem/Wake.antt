-- ===== src/Sync/Sem/Wake.antt =====
-- `up` of kern/sync/sem.c.
use os_qemu.Prelude.{
  ℕ, ◌+◌, ◌≡◌, ◌≢◌, ◌⊎◌, inl, inr, refl, sym, ◌∙◌, ◌==◌, true, false, if◌then◌else◌, List, [], ◌∷◌,
  arith,
}
use os_qemu.Prelude.Errors.{ok}
use os_qemu.Sched.Proc.{runnable, Sched, wt_ksem}
use os_qemu.Sched.Core.{wakeup_proc}
use os_qemu.Sync.Wait.{
  Sync, set_wait, set_queue, take_out, wait_queue_del, wait_queue_first, wake, wakeup_wait,
}
use os_qemu.Sync.Sem.{set_value, up_as, up, down_end, down_resume}
use os_qemu.Sync.Sem.Inv.{Waiters, SemInv, wakeup_proc-sleeping, Waiters-kept}

module _ (q w : ℕ) (s : Sync) where
  -- `s` with the first waiter taken out.
  abbrev popped : List ℕ → Sync
  popped ws = record s {
    waits = set_wait s.waits w (record (s.waits w) { linked = false });
    queues = set_queue s.queues q ws;
  }

  wait_queue_del-head :
      (ws : List ℕ)
      → s.queues q ≡ w ∷ ws
      → (s.waits w).linked ≡ true
      → (s.waits w).wait_queue ≡ q
      → wait_queue_del q w s ≡ ok (popped ws)
  unfolding wait_queue_del take_out
  wait_queue_del-head ws e l h =
      let own : (if w == w then ws else w ∷ ws) ≡ ws = ground arith in rw (l, h, e) (ground arith)

  abbrev woken_up : Sched → Sync
  woken_up t = record s {
    waits = set_wait s.waits w (record (s.waits w) { wakeup_flags = wt_ksem });
    sched = t;
  }

  wake-woken_up :
      (t : Sched) → wakeup_proc (s.waits w).proc s.sched ≡ ok t → wake w wt_ksem s ≡ ok (woken_up t)
  unfolding wake
  wake-woken_up t e = rw e refl

  up-first :
      (ws : List ℕ) (s' t : Sync)
      → s.queues q ≡ w ∷ ws
      → (s.sched.procs (s.waits w).proc).wait_state ≡ wt_ksem
      → wait_queue_del q w s ≡ ok s'
      → wake w wt_ksem s' ≡ ok t
      → up q s ≡ ok t
  unfolding up up_as wait_queue_first wakeup_wait
  up-first ws s' t e h d k = rw (e, up_as, h, wakeup_wait, d) k

  up-nobody :
      s.queues q ≡ [] → up q s ≡ ok (record s { values = set_value s.values q (s.values q + 1) })
  unfolding up up_as wait_queue_first
  up-nobody e = rw (e, up_as) refl

  popped_entry :
      (ws : List ℕ)
      → (((popped ws).waits w).proc ≡ (s.waits w).proc) × (((popped ws).waits w).linked ≡ false)
  popped_entry ws = ground arith

-- The entry of the one who was let go, and the others.
woken_entry :
    (q w : ℕ) (s : Sync) (ws : List ℕ) (t : Sched)
    → (((woken_up q w (popped q w s ws) t).waits w).linked ≡ false)
      × (((woken_up q w (popped q w s ws) t).waits w).wakeup_flags ≡ wt_ksem)
      × ((x : ℕ) → x ≢ w → (woken_up q w (popped q w s ws) t).waits x ≡ s.waits x)
woken_entry q w s ws t = (ground arith, ground arith, λ x n. ground arith)

down_resume-woken :
    (q w : ℕ) (s : Sync)
    → (s.waits w).linked ≡ false
    → (s.waits w).wakeup_flags ≡ wt_ksem
    → down_resume q w s ≡ ok s
unfolding down_resume down_end
down_resume-woken q w s l f = rw (l, f) refl

cons_ne : (w : ℕ) (ws : List ℕ) → w ∷ ws ≢ []
cons_ne w ws e = ground (arith, e)

-- What `up` comes to.
abbrev pub Upped : ℕ → Sync → Type 0
Upped q s =
    ((s.queues q ≡ [])
      × ((t : Sync) × (up q s ≡ ok t)
          × (t.values q ≡ s.values q + 1)
          × (t.queues q ≡ [])
          × SemInv t q))
    ⊎ ((w : ℕ) × (ws : List ℕ) × (t : Sync) × (s.queues q ≡ w ∷ ws)
        × (up q s ≡ ok t)
        × (t.queues q ≡ ws)
        × (t.values q ≡ s.values q)
        × ((t.sched.procs (s.waits w).proc).state ≡ runnable)
        × SemInv t q
        × (down_resume q w t ≡ ok t))

nobody : (q : ℕ) (s : Sync) → SemInv s q → s.queues q ≡ [] → Upped q s
nobody q s inv e =
    let t : Sync = record s { values = set_value s.values q (s.values q + 1) } in
    inl (e, (t, up-nobody q 0 s e, ground arith, e, record { idle = λ n. e; waiters = rw e tt }))

somebody : (q w : ℕ) (ws : List ℕ) (s : Sync) → SemInv s q → s.queues q ≡ w ∷ ws → Upped q s
somebody q w ws s inv e =
    let (here, apart, others) : Waiters s q (w ∷ ws) = rw e at inv.waiters in
    let p = (s.waits w).proc in
    let s1 = popped q w s ws in
    let (T, run, state, procs) = wakeup_proc-sleeping p s.sched here.2 in
    let (own, off) = popped_entry q w s ws in
    let t = woken_up q w s1 T in
    let (unlinked, flags, waits) = woken_entry q w s ws T in
    let del = wait_queue_del-head q w s ws e here.0 here.1 in
    let left : t.queues q ≡ ws = ground arith in
    let still = Waiters-kept s t w p waits procs q ws apart others in
    inr (
      w,
      ws,
      t,
      e,
      up-first q w s ws s1 t e here.3 del (wake-woken_up q w s1 T (rw own run)),
      left,
      refl,
      state,
      record { idle = λ n. absurd (cons_ne w ws (sym e ∙ inv.idle n)); waiters = rw left still },
      down_resume-woken q w t unlinked flags,
    )

-- On a semaphore in order `up` never fails an assertion. With nobody waiting it adds one to the value;
-- otherwise it lets the one go who has waited longest, whose process can run again and whose `down`
-- comes through without touching the semaphore, and the value stays. The semaphore stays in order.
pub up-Upped : (q : ℕ) (s : Sync) → SemInv s q → Upped q s
up-Upped q s inv = by_queue (s.queues q) refl
  where
    by_queue : (ws : List ℕ) → s.queues q ≡ ws → Upped q s
    by_queue [] e = nobody q s inv e
    by_queue (w ∷ ws) e = somebody q w ws s inv e
