-- ===== src/Proc/Life/Kill.antt =====
-- `do_kill` of kern/process/proc.c.
use os_qemu.Prelude.{
  ℕ, ◌≡◌, ◌≢◌, ◌⊎◌, inl, inr, refl, ◌==◌, true, false, none, some, arith, Bool-cases, ℕ_discrete,
}
use os_qemu.Prelude.Errors.{ok, killed, inval}
use os_qemu.Sched.Proc.{is_zombie, is_runnable, is_interrupted}
use os_qemu.Sched.Core.Queue.{QueueInv, wakeup_proc-QueueInv}
use os_qemu.Proc.Table.{find_proc}
use os_qemu.Proc.Life.{Kernel, mark, do_kill}

module _ {M : Type 0} (pid : ℕ) (k : Kernel M) where
  abbrev victim : ℕ
  victim = find_proc k.table pid

  -- What `do_kill` comes to.
  abbrev pub Killed : Type 0
  Killed =
      ((victim ≡ 0) × (do_kill pid k ≡ ok (some inval, k)))
      ⊎ (((victim ≢ 0) × (k.exiting victim ≡ true) × (do_kill pid k ≡ ok (some killed, k)))
          ⊎ ((victim ≢ 0)
              × (k.exiting victim ≡ false)
              × ((k' : Kernel M) × (do_kill pid k ≡ ok (none, k'))
                  × (k'.exiting victim ≡ true)
                  × ((x : ℕ) → x ≢ victim → k'.exiting x ≡ k.exiting x)
                  × (is_interrupted (k.sched.procs victim).wait_state ≡ true
                      → is_runnable (k'.sched.procs victim).state ≡ true)
                  × (is_interrupted (k.sched.procs victim).wait_state ≡ false → k'.sched ≡ k.sched)
                  × (k'.table ≡ k.table)
                  × QueueInv k'.sched)))

  module _ (q : QueueInv k.sched) (alive : is_zombie (k.sched.procs victim).state ≡ false)
      (n : victim ≢ 0) (e : k.exiting victim ≡ false) where
    abbrev marked : Kernel M
    marked = record k { exiting = mark k.exiting victim true }

    zero_not : (victim == 0) ≡ false
    zero_not = ground arith

    shot : is_interrupted (k.sched.procs victim).wait_state ≡ true → Killed
    unfolding do_kill
    shot i =
        let (s, w, q', r) = wakeup_proc-QueueInv victim k.sched q alive in
        inr (
          inr (
            n,
            e,
            (
              record marked { sched = s },
              rw (zero_not, e, i, w) refl,
              ground arith,
              (λ x d. ground arith),
              (λ h. r),
              (λ h. absurd (ground (arith, i, h))),
              refl,
              q',
            ),
          ))

    left_asleep : is_interrupted (k.sched.procs victim).wait_state ≡ false → Killed
    unfolding do_kill
    left_asleep i = inr (
        inr (
          n,
          e,
          (
            marked,
            rw (zero_not, e, i) refl,
            ground arith,
            (λ x d. ground arith),
            (λ h. absurd (ground (arith, i, h))),
            (λ h. refl),
            refl,
            q,
          ),
        ))

  nobody : victim ≡ 0 → Killed
  unfolding do_kill
  nobody z = inl (z, let e : (victim == 0) ≡ true = ground arith in rw e refl)

  twice : victim ≢ 0 → k.exiting victim ≡ true → Killed
  unfolding do_kill
  twice n e = inr (inl (n, e, let z : (victim == 0) ≡ false = ground arith in rw (z, e) refl))

  -- The run queue is exact, and the process is no zombie.
  abbrev pub CanWake : Type 0
  CanWake = QueueInv k.sched × (is_zombie (k.sched.procs victim).state ≡ false)

  -- `do_kill` of a number that no process has returns `-E_INVAL`, of a process that is exiting
  -- already, a zombie included, `-E_KILLED`, and changes nothing. Else it marks just this process as
  -- exiting and returns 0: a process whose wait can be interrupted can run afterwards, for any other
  -- the scheduler stays, and the queue is exact. Only for a process that is there and not yet exiting
  -- is it required that it is no zombie and that the run queue is exact.
  pub do_kill-Killed : (victim ≢ 0 → k.exiting victim ≡ false → CanWake) → Killed
  do_kill-Killed can = elim (ℕ_discrete victim 0) [
    | yes z ↦ nobody z
    | no n ↦ elim (Bool-cases (k.exiting victim)) [
      | inl e ↦ twice n e
      | inr e ↦ elim (Bool-cases (is_interrupted (k.sched.procs victim).wait_state)) [
        | inl i ↦ shot (can n e).0 (can n e).1 n e i
        | inr i ↦ left_asleep (can n e).0 (can n e).1 n e i
      ]
    ]
  ]
