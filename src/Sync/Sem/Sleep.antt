-- ===== src/Sync/Sem/Sleep.antt =====
-- `down` of kern/sync/sem.c up to the switch to another process.
use os_qemu.Prelude.{
  ℕ, ◌+◌, ◌-◌, ◌≡◌, ◌≢◌, ◌⊎◌, inl, inr, refl, true, [], ◌∷◌, ◌++◌, arith, ℕ_discrete, subst,
}
use os_qemu.Prelude.Errors.{ok}
use os_qemu.Sched.Proc.{sleeping, Proc, set_proc, wt_ksem}
use os_qemu.Sync.Wait.{Sync, set_wait, set_queue, wait_init, wait_queue_add, wait_current_set}
use os_qemu.Sync.Sem.{set_value, through, blocked, down_begin, down}
use os_qemu.Sync.Sem.Inv.{IsWaiting, Apart, SemInv, Waiters-snoc}

module _ (q w : ℕ) (s : Sync) where
  abbrev fallen_asleep : Proc
  fallen_asleep = record (s.sched.procs s.sched.current) { state = sleeping; wait_state = wt_ksem }

  -- `s` with the current process gone to sleep, and its entry at the end of the queue.
  abbrev queued : Sync
  queued =
      let t = wait_init w s.sched.current s in
      record t {
        waits = set_wait t.waits w (record (t.waits w) { wait_queue = q; linked = true });
        queues = set_queue s.queues q (s.queues q ++ w ∷ []);
        sched = set_proc s.sched.current fallen_asleep s.sched;
      }

  wait_current_set-queued : s.sched.current ≢ 0 → wait_current_set q w wt_ksem s ≡ ok queued
  unfolding wait_current_set wait_queue_add wait_init
  wait_current_set-queued n = ground arith

  queued_entry :
      ((queued.waits w).proc ≡ s.sched.current)
      × IsWaiting queued q w
      × (queued.queues q ≡ s.queues q ++ w ∷ [])
      × ((x : ℕ) → x ≢ w → queued.waits x ≡ s.waits x)
      × ((x : ℕ) → x ≢ s.sched.current → queued.sched.procs x ≡ s.sched.procs x)
  unfolding wait_init
  queued_entry = (
    ground arith,
    (ground arith, ground arith, ground arith, ground arith),
    ground arith,
    λ x n. ground arith,
    λ x n. ground arith,
  )

-- What `down` comes to.
abbrev pub Downed : ℕ → ℕ → Sync → Type 0
Downed q w s =
    ((s.values q ≢ 0)
      × ((t : Sync) × (down q w s ≡ ok (through t))
          × (t.values q + 1 ≡ s.values q)
          × (t.sched ≡ s.sched)
          × SemInv t q))
    ⊎ ((s.values q ≡ 0)
        × ((t : Sync) × (down q w s ≡ ok (blocked t))
            × (t.values q ≡ 0)
            × (t.queues q ≡ s.queues q ++ w ∷ [])
            × ((t.sched.procs s.sched.current).state ≡ sleeping)
            × SemInv t q))

-- On a semaphore in order `down` never fails an assertion. It takes one of a positive value and comes
-- through, or, the value being 0, it puts the current process to sleep at the end of the queue, if
-- that process and the entry are not in the queue yet. The semaphore stays in order.
pub down-Downed :
    (q w : ℕ) (s : Sync)
    → SemInv s q
    → s.sched.current ≢ 0
    → Apart s w s.sched.current (s.queues q)
    → Downed q w s
unfolding down down_begin wait_init
down-Downed q w s inv n apart = elim (ℕ_discrete (s.values q) 0) [
  | no v ↦
      let t : Sync = record s { values = set_value s.values q (s.values q - 1) } in
      let e = inv.idle v in
      inl (v, (t, ground arith, ground arith, refl, record { idle = λ m. e; waiters = rw e tt }))
  | yes z ↦
      let (proc, here, queue, waits, procs) = queued_entry q w s in
      let t = queued q w s in
      let asleep = subst (λ p. (t.sched.procs p).state ≡ sleeping) proc here.2 in
      inr (
        z,
        (
          t,
          ground (arith, wait_current_set-queued q w s n),
          z,
          queue,
          asleep,
          record {
            idle = λ m. absurd (m z);
            waiters = rw queue (
                Waiters-snoc s t w s.sched.current waits procs q (s.queues q) apart inv.waiters proc
                  here);
          },
        ),
      )
]
