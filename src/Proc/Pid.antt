-- ===== src/Proc/Pid.antt =====
-- `get_pid` of kern/process/proc.c.
pub mod Unused
pub mod Pigeonhole
use os_qemu.Prelude.{
  ℕ, zero, suc, ◌+◌, ◌==◌, ltb, leb, Bool, true, false, ◌&&◌, if◌then◌else◌, Option, none, some,
  List, [], ◌∷◌,
}

-- MAX_PROCESS is 4096, and MAX_PID twice that.
abbrev pub max_pid : ℕ
max_pid = 8192

-- The two static variables of `get_pid`.
pub record Pids : Type 0 where
  pub last_pid : ℕ
  pub next_safe : ℕ

-- The loop from the label `repeat` on: `rest` are the processes still to go of all, given by their
-- numbers. The fuel counts the jumps to `repeat`.
unfoldable pub pid_loop : ℕ → List ℕ → List ℕ → ℕ → ℕ → Option Pids
pid_loop f all [] last safe = some (record { last_pid = last; next_safe = safe })
pid_loop zero all (p ∷ rest) last safe =
    let on = pid_loop zero all rest (last + 1) safe in
    let safer = pid_loop zero all rest last p in
    let same = pid_loop zero all rest last safe in
    if p == last
    then if leb safe (last + 1) then none else on
    else if ltb last p && ltb p safe
    then safer
    else same
pid_loop (suc f) all (p ∷ rest) last safe =
    let again = pid_loop f all all (if leb max_pid (last + 1) then 1 else last + 1) max_pid in
    let on = pid_loop (suc f) all rest (last + 1) safe in
    let safer = pid_loop (suc f) all rest last p in
    let same = pid_loop (suc f) all rest last safe in
    if p == last
    then if leb safe (last + 1) then again else on
    else if ltb last p && ltb p safe
    then safer
    else same

-- `all` are the numbers of the processes in `proc_list`; the number is `last_pid` of the result.
unfoldable pub get_pid : ℕ → List ℕ → Pids → Option Pids
unfolding pid_loop
get_pid fuel all s =
    let last = s.last_pid + 1 in
    if leb max_pid last
    then pid_loop fuel all all 1 max_pid
    else if leb s.next_safe last
    then pid_loop fuel all all last max_pid
    else some (record s { last_pid = last })
