-- ===== src/Sched/Timer.antt =====
-- kern/schedule/sched.c: the timer list. Each timer holds the ticks that pass after the one
-- before it, so that a tick touches the first timer only.
pub mod Deadlines
use os_qemu.Prelude.{
  ℕ, ◌+◌, ◌-◌, Bool, false, ◌&&◌, ◌||◌, List, [], ◌∷◌, ltb, ◌==◌, if◌then◌else◌, not,
}
use os_qemu.Prelude.Errors.{Result, ok, panic}

-- `timer_t`; `id` is the address of the timer, by which the list knows it.
pub record Timer : Type 0 where
  pub id : ℕ
  pub expires : ℕ
  pub proc : ℕ

-- `!list_empty(&(timer->timer_link))`
unfoldable pub is_linked : ℕ → List Timer → Bool
is_linked k [] = false
is_linked k (t ∷ ts) = t.id == k || is_linked k ts

-- The loop of `add_timer`: the links from the current one on.
unfoldable pub insert_timer : Timer → List Timer → List Timer
insert_timer t [] = t ∷ []
insert_timer t (n ∷ ns) =
    if ltb t.expires n.expires
    then t ∷ record n { expires = n.expires - t.expires } ∷ ns
    else n ∷ insert_timer (record t { expires = t.expires - n.expires }) ns

-- A `proc` of 0 is NULL.
unfoldable pub add_timer : Timer → List Timer → Result (List Timer)
add_timer t ts =
    if ltb 0 t.expires && (not (t.proc == 0) && not (is_linked t.id ts))
    then ok (insert_timer t ts)
    else panic

-- The ticks that `del_timer` hands to the timer behind the one that leaves.
unfoldable pub hand_on : ℕ → List Timer → List Timer
hand_on e [] = []
hand_on e (n ∷ ns) = record n { expires = n.expires + e } ∷ ns

-- A timer that is not is_linked is left alone.
unfoldable pub del_timer : ℕ → List Timer → List Timer
unfolding hand_on
del_timer k [] = []
del_timer k (t ∷ ts) =
    if t.id == k then (if t.expires == 0 then ts else hand_on t.expires ts) else t ∷ del_timer k ts
