-- ===== src/Sync/Sem/Inv.antt =====
-- The invariant of a semaphore of kern/sync/sem.c.
use os_qemu.Prelude.{
  ℕ, ◌≡◌, ◌≢◌, inl, inr, sym, ◌∙◌, ◌==◌, true, List, [], ◌∷◌, ◌++◌, arith, Bool-cases,
}
use os_qemu.Prelude.Errors.{ok}
use os_qemu.Sched.Proc.{sleeping, runnable, Sched, set_proc, wt_ksem}
use os_qemu.Sched.Stride.{stride_enqueue}
use os_qemu.Sched.Core.{wakeup_proc, sched_class_enqueue}
use os_qemu.Sync.Wait.{Sync}

-- A process that waits at the semaphore `q` by the entry `w`.
abbrev pub IsWaiting : Sync → ℕ → ℕ → Type 0
IsWaiting s q w =
    ((s.waits w).linked ≡ true)
    × ((s.waits w).wait_queue ≡ q)
    × ((s.sched.procs (s.waits w).proc).state ≡ sleeping)
    × ((s.sched.procs (s.waits w).proc).wait_state ≡ wt_ksem)

-- None of the entries is `w`, and none of the processes `p`.
abbrev pub Apart : Sync → ℕ → ℕ → List ℕ → Type 0
Apart s w p [] = Unit {0}
Apart s w p (x ∷ xs) = (x ≢ w) × ((s.waits x).proc ≢ p) × Apart s w p xs

abbrev pub Waiters : Sync → ℕ → List ℕ → Type 0
Waiters s q [] = Unit {0}
Waiters s q (w ∷ ws) = IsWaiting s q w × Apart s w (s.waits w).proc ws × Waiters s q ws

-- Nobody waits while the value is positive, and who waits sleeps, once.
pub record SemInv (s : Sync) (q : ℕ) : Type 0 where
  pub idle : s.values q ≢ 0 → s.queues q ≡ []
  pub waiters : Waiters s q (s.queues q)

pub wakeup_proc-sleeping :
    (p : ℕ) (s : Sched)
    → (s.procs p).state ≡ sleeping
    → (t : Sched) × (wakeup_proc p s ≡ ok t)
      × ((t.procs p).state ≡ runnable)
      × ((x : ℕ) → x ≢ p → t.procs x ≡ s.procs x)
unfolding wakeup_proc sched_class_enqueue stride_enqueue
wakeup_proc-sleeping p s e =
    let woken = set_proc p (record (s.procs p) { state = runnable; wait_state = 0 }) s in
    elim (Bool-cases (p == s.current)) [
      | inl c ↦ (woken, ground (arith, e, c), ground arith, λ x n. ground arith)
      | inr c ↦ elim (Bool-cases (p == s.idleproc)) [
        | inl i ↦ (woken, ground (arith, e, c, i), ground arith, λ x n. ground arith)
        | inr i ↦
            (stride_enqueue p woken, ground (arith, e, c, i), ground arith, λ x n. ground arith)
      ]
    ]

module _ (s t : Sync) (w p : ℕ) (f : (x : ℕ) → x ≢ w → t.waits x ≡ s.waits x)
    (g : (x : ℕ) → x ≢ p → t.sched.procs x ≡ s.sched.procs x) where
  Apart-kept : (v o : ℕ) (ws : List ℕ) → Apart s w p ws → Apart s v o ws → Apart t v o ws
  Apart-kept v o [] a h = tt
  Apart-kept v o (x ∷ ws) a h = (h.0, rw (f x a.0) h.1, Apart-kept v o ws a.2 h.2)

  IsWaiting-kept : (q x : ℕ) → x ≢ w → (s.waits x).proc ≢ p → IsWaiting s q x → IsWaiting t q x
  IsWaiting-kept q x n m h = rw (f x n, g (s.waits x).proc m) h

  -- Waiters stay so when nothing of theirs is written.
  pub Waiters-kept : (q : ℕ) (ws : List ℕ) → Apart s w p ws → Waiters s q ws → Waiters t q ws
  Waiters-kept q [] a h = tt
  Waiters-kept q (x ∷ ws) a h = (
    IsWaiting-kept q x a.0 a.1 h.0,
    rw (f x a.0) (Apart-kept x (s.waits x).proc ws a.2 h.1),
    Waiters-kept q ws a.2 h.2,
  )

  Apart-snoc :
      (v o x : ℕ) (ws : List ℕ)
      → Apart t v o ws
      → x ≢ v
      → (t.waits x).proc ≢ o
      → Apart t v o (ws ++ x ∷ [])
  Apart-snoc v o x [] a n m = (n, m, tt)
  Apart-snoc v o x (y ∷ ws) a n m = (a.0, a.1, Apart-snoc v o x ws a.2 n m)

  -- A new waiter at the end.
  pub Waiters-snoc :
      (q : ℕ) (ws : List ℕ)
      → Apart s w p ws
      → Waiters s q ws
      → (t.waits w).proc ≡ p
      → IsWaiting t q w
      → Waiters t q (ws ++ w ∷ [])
  Waiters-snoc q [] a h e i = (i, tt, tt)
  Waiters-snoc q (x ∷ ws) a h e i = (
    IsWaiting-kept q x a.0 a.1 h.0,
    rw (f x a.0) (
        Apart-snoc x (s.waits x).proc w ws (Apart-kept x (s.waits x).proc ws a.2 h.1)
          (λ r. a.0 (sym r)) (λ r. a.1 (sym r ∙ e))),
    Waiters-snoc q ws a.2 h.2 e i,
  )
