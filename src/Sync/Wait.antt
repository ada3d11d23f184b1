-- ===== src/Sync/Wait.antt =====
-- kern/sync/wait.c: the queues of waiting processes. A queue and an entry of one are known by their
-- numbers, and the links of the entries are the lists.
use os_qemu.Prelude.{
  ℕ, ◌==◌, not, Bool, true, false, ◌&&◌, if◌then◌else◌, Option, none, some, List, [], ◌∷◌, ◌++◌,
}
use os_qemu.Prelude.Errors.{Result, ok, panic, ◌>>=◌}
use os_qemu.Sched.Proc.{sleeping, Sched, set_proc, wt_interrupted}
use os_qemu.Sched.Core.{wakeup_proc}

-- `wait_t`; `linked` says that `wait_link` is in the list of `wait_queue`.
pub record Wait : Type 0 where
  pub proc : ℕ
  pub wakeup_flags : ℕ
  pub wait_queue : ℕ
  pub linked : Bool

-- The entries, the queues, the values of the semaphores, each of which has the queue of its own
-- number, and the scheduler.
pub record Sync : Type 0 where
  pub waits : ℕ → Wait
  pub queues : ℕ → List ℕ
  pub values : ℕ → ℕ
  pub sched : Sched

abbrev pub set_wait : (ℕ → Wait) → ℕ → Wait → ℕ → Wait
set_wait f w a x = if x == w then a else f x

abbrev pub set_queue : (ℕ → List ℕ) → ℕ → List ℕ → ℕ → List ℕ
set_queue f q xs x = if x == q then xs else f x

-- `list_del` on the list of a queue.
unfoldable pub take_out : ℕ → List ℕ → List ℕ
take_out w [] = []
take_out w (x ∷ xs) = let rest = take_out w xs in if x == w then xs else x ∷ rest

unfoldable pub wait_init : ℕ → ℕ → Sync → Sync
wait_init w proc s = record s {
  waits =
      set_wait s.waits w
        (record (s.waits w) { proc = proc; wakeup_flags = wt_interrupted; linked = false });
}

unfoldable pub wait_queue_init : ℕ → Sync → Sync
wait_queue_init q s = record s { queues = set_queue s.queues q [] }

unfoldable pub wait_queue_add : ℕ → ℕ → Sync → Result Sync
wait_queue_add q w s =
    if not (s.waits w).linked && not ((s.waits w).proc == 0)
    then ok (record s {
      waits = set_wait s.waits w (record (s.waits w) { wait_queue = q; linked = true });
      queues = set_queue s.queues q (s.queues q ++ w ∷ []);
    })
    else panic

unfoldable pub wait_queue_del : ℕ → ℕ → Sync → Result Sync
wait_queue_del q w s =
    if (s.waits w).linked && (s.waits w).wait_queue == q
    then ok (record s {
      waits = set_wait s.waits w (record (s.waits w) { linked = false });
      queues = set_queue s.queues q (take_out w (s.queues q));
    })
    else panic

unfoldable pub head_of : List ℕ → Option ℕ
head_of [] = none
head_of (x ∷ xs) = some x

unfoldable pub tail_of : List ℕ → Option ℕ
tail_of [] = none
tail_of (x ∷ xs) = let rest = tail_of xs in elim xs [ [] ↦ some x | y ∷ ys ↦ rest ]

-- The entry behind another, and the one before it, `before` being the one before the list.
unfoldable pub next_of : ℕ → List ℕ → Option ℕ
unfolding head_of
next_of w [] = none
next_of w (x ∷ xs) = let rest = next_of w xs in if x == w then head_of xs else rest

unfoldable pub prev_of : ℕ → Option ℕ → List ℕ → Option ℕ
prev_of w before [] = none
prev_of w before (x ∷ xs) = let rest = prev_of w (some x) xs in if x == w then before else rest

unfoldable pub wait_queue_next : ℕ → ℕ → Sync → Result (Option ℕ)
unfolding next_of
wait_queue_next q w s =
    if (s.waits w).linked && (s.waits w).wait_queue == q then ok (next_of w (s.queues q)) else panic

unfoldable pub wait_queue_prev : ℕ → ℕ → Sync → Result (Option ℕ)
unfolding prev_of
wait_queue_prev q w s =
    if (s.waits w).linked && (s.waits w).wait_queue == q
    then ok (prev_of w none (s.queues q))
    else panic

unfoldable pub wait_queue_first : ℕ → Sync → Option ℕ
unfolding head_of
wait_queue_first q s = head_of (s.queues q)

unfoldable pub wait_queue_last : ℕ → Sync → Option ℕ
unfolding tail_of
wait_queue_last q s = tail_of (s.queues q)

unfoldable pub wait_queue_empty : ℕ → Sync → Bool
wait_queue_empty q s = elim (s.queues q) [ [] ↦ true | x ∷ xs ↦ false ]

abbrev pub wait_in_queue : ℕ → Sync → Bool
wait_in_queue w s = (s.waits w).linked

-- The end of `wakeup_wait`.
unfoldable pub wake : ℕ → ℕ → Sync → Result Sync
wake w flags s =
    let waits = set_wait s.waits w (record (s.waits w) { wakeup_flags = flags }) in
    wakeup_proc (s.waits w).proc s.sched >>= (λ t. ok (record s { waits = waits; sched = t }))

unfoldable pub wakeup_wait : ℕ → ℕ → ℕ → Bool → Sync → Result Sync
wakeup_wait q w flags del s = if del then wait_queue_del q w s >>= wake w flags else wake w flags s

unfoldable pub wakeup_first : ℕ → ℕ → Bool → Sync → Result Sync
unfolding wait_queue_first wakeup_wait
wakeup_first q flags del s = elim (wait_queue_first q s) [
  | none ↦ ok s
  | some w ↦ wakeup_wait q w flags del s
]

-- Either loop of `wakeup_queue` goes over the entries that the queue holds at the call, in order: one
-- that is deleted leaves the next as the first.
unfoldable pub wakeup_all : List ℕ → ℕ → ℕ → Bool → Sync → Result Sync
unfolding wakeup_wait
wakeup_all [] q flags del s = ok s
wakeup_all (w ∷ ws) q flags del s = wakeup_wait q w flags del s >>= wakeup_all ws q flags del

unfoldable pub wakeup_queue : ℕ → ℕ → Bool → Sync → Result Sync
unfolding wakeup_all
wakeup_queue q flags del s = wakeup_all (s.queues q) q flags del s

unfoldable pub wait_current_set : ℕ → ℕ → ℕ → Sync → Result Sync
unfolding wait_init wait_queue_add
wait_current_set q w wait_state s =
    let p = s.sched.current in
    let t = wait_init w p s in
    let asleep = record (t.sched.procs p) { state = sleeping; wait_state = wait_state } in
    if p == 0 then panic else wait_queue_add q w (record t { sched = set_proc p asleep t.sched })
