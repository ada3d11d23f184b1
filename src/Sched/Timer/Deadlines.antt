-- ===== src/Sched/Timer/Deadlines.antt =====
-- The timer list against a queue of absolute deadlines.
use os_qemu.Prelude.{ℕ, ◌+◌, ◌-◌, ◌<◌, ◌≡◌, refl, List, [], ◌∷◌, ltb, ◌==◌, if◌then◌else◌, arith}
use os_qemu.Sched.Timer.{Timer, insert_timer, hand_on, del_timer}

-- A timer with the tick at which it is due.
pub record Due : Type 0 where
  pub id : ℕ
  pub at : ℕ
  pub proc : ℕ

-- The deadlines of a list that starts at tick `now`.
abbrev pub deadlines : ℕ → List Timer → List Due
deadlines now [] = []
deadlines now (t ∷ ts) =
    record { id = t.id; at = now + t.expires; proc = t.proc } ∷ deadlines (now + t.expires) ts

-- Into a queue by deadline, behind those that are due no later.
unfoldable pub insert_due : Due → List Due → List Due
insert_due d [] = d ∷ []
insert_due d (e ∷ es) = if ltb d.at e.at then d ∷ e ∷ es else e ∷ insert_due d es

unfoldable pub remove_due : ℕ → List Due → List Due
remove_due k [] = []
remove_due k (e ∷ es) = if e.id == k then es else e ∷ remove_due k es

-- Adding a timer adds its deadline, behind those that are due no later, and moves no other
-- deadline.
pub deadlines-insert_timer :
    (now : ℕ) (t : Timer) (ts : List Timer)
    → deadlines now (insert_timer t ts)
      ≡ insert_due (record { id = t.id; at = now + t.expires; proc = t.proc }) (deadlines now ts)
unfolding insert_timer insert_due
deadlines-insert_timer now t [] = refl
deadlines-insert_timer now t (n ∷ ns) = ground (
  arith,
  deadlines-insert_timer (now + n.expires) (record t { expires = t.expires - n.expires }) ns,
)

deadlines-hand_on :
    (now e : ℕ) (ts : List Timer) → deadlines now (hand_on e ts) ≡ deadlines (now + e) ts
unfolding hand_on
deadlines-hand_on now e [] = refl
deadlines-hand_on now e (n ∷ ns) =
    let q : now + (n.expires + e) ≡ now + e + n.expires = omega arith in rw q

-- Deleting a timer takes its deadline out and moves no other deadline.
pub deadlines-del_timer :
    (now k : ℕ) (ts : List Timer) → deadlines now (del_timer k ts) ≡ remove_due k (deadlines now ts)
unfolding del_timer remove_due
deadlines-del_timer now k [] = refl
deadlines-del_timer now k (t ∷ ts) =
    ground (arith, deadlines-hand_on now t.expires ts, deadlines-del_timer (now + t.expires) k ts)

-- The deadlines that lie behind tick `b`.
unfoldable pub later : ℕ → List Due → List Due
later b [] = []
later b (e ∷ es) = if ltb b e.at then e ∷ later b es else later b es

-- The processes whose deadlines do not.
unfoldable pub due_procs : ℕ → List Due → List ℕ
due_procs b [] = []
due_procs b (e ∷ es) = if ltb b e.at then due_procs b es else e.proc ∷ due_procs b es

-- The timers behind the leading ones that are spent, and the processes of those.
unfoldable pub drop_spent : List Timer → List Timer
drop_spent [] = []
drop_spent (t ∷ ts) = if t.expires == 0 then drop_spent ts else t ∷ ts

unfoldable pub spent_procs : List Timer → List ℕ
spent_procs [] = []
spent_procs (t ∷ ts) = if t.expires == 0 then t.proc ∷ spent_procs ts else []

later_all :
    (b c : ℕ) (ts : List Timer)
    → b < c
    → (later b (deadlines c ts) ≡ deadlines c ts) × (due_procs b (deadlines c ts) ≡ [])
unfolding later due_procs
later_all b c [] h = (refl, refl)
later_all b c (t ∷ ts) h = ground (arith, later_all b (c + t.expires) ts)

pub deadlines-drop_spent :
    (b : ℕ) (ts : List Timer)
    → (deadlines b (drop_spent ts) ≡ later b (deadlines b ts))
      × (spent_procs ts ≡ due_procs b (deadlines b ts))
unfolding later due_procs drop_spent spent_procs
deadlines-drop_spent b [] = (refl, refl)
deadlines-drop_spent b (t ∷ ts) =
    ground (arith, deadlines-drop_spent b ts, later_all b (b + t.expires) ts)
