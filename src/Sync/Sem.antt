-- ===== src/Sync/Sem.antt =====
-- kern/sync/sem.c: semaphores. `__down` goes through `schedule()`, so it is two steps: what it does
-- before, and what it does when the process runs again.
pub mod Inv
pub mod Wake
pub mod Sleep
pub mod Served
use os_qemu.Prelude.{
  ℕ, ◌+◌, ◌-◌, ◌==◌, not, ltb, Bool, true, false, if◌then◌else◌, Option, none, some,
}
use os_qemu.Prelude.Errors.{Result, ok, err, panic, ◌>>=◌}
use os_qemu.Sched.Proc.{Proc, Sched, wt_ksem}
use os_qemu.Sync.Wait.{
  Wait, Sync, wait_queue_init, wait_queue_first, wakeup_wait, wait_current_set, wait_in_queue,
  wait_queue_del,
}

abbrev pub set_value : (ℕ → ℕ) → ℕ → ℕ → ℕ → ℕ
set_value f q n x = if x == q then n else f x

unfoldable pub sem_init : ℕ → ℕ → Sync → Sync
unfolding wait_queue_init
sem_init q value s = wait_queue_init q (record s { values = set_value s.values q value })

-- `__up`
unfoldable pub up_as : ℕ → ℕ → Sync → Result Sync
up_as wait_state q s = elim (wait_queue_first q s) [
  | none ↦ ok (record s { values = set_value s.values q (s.values q + 1) })
  | some w ↦
      if (s.sched.procs (s.waits w).proc).wait_state == wait_state
      then wakeup_wait q w wait_state true s
      else panic
]

-- Whether a `__down` came through, or has to wait.
pub data Down : Type 0 where
  through : Sync → Down
  blocked : Sync → Down

-- `__down` up to `schedule()`, for an entry `w` on the stack of the current process.
unfoldable pub down_begin : ℕ → ℕ → ℕ → Sync → Result Down
down_begin wait_state q w s =
    if ltb 0 (s.values q)
    then ok (through (record s { values = set_value s.values q (s.values q - 1) }))
    else wait_current_set q w wait_state s >>= (λ t. ok (blocked t))

-- `__down` behind `schedule()`: the flags that it returns.
unfoldable pub down_end : ℕ → ℕ → ℕ → Sync → Result (ℕ × Sync)
down_end wait_state q w s =
    let left = if wait_in_queue w s then wait_queue_del q w s else ok s in
    let flags = (s.waits w).wakeup_flags in
    left >>= (λ t. ok ((if flags == wait_state then 0 else flags), t))

unfoldable pub up : ℕ → Sync → Result Sync
unfolding up_as
up q s = up_as wt_ksem q s

unfoldable pub down : ℕ → ℕ → Sync → Result Down
unfolding down_begin
down q w s = down_begin wt_ksem q w s

-- The end of `down`, with its assertion.
unfoldable pub down_resume : ℕ → ℕ → Sync → Result Sync
unfolding down_end
down_resume q w s = down_end wt_ksem q w s >>= (λ r. if r.0 == 0 then ok r.1 else panic)

unfoldable pub try_down : ℕ → Sync → Bool × Sync
try_down q s =
    if ltb 0 (s.values q)
    then (true, record s { values = set_value s.values q (s.values q - 1) })
    else (false, s)
