-- ===== src/Tests/Proc.antt =====
-- The table of processes at concrete inputs.
use os_qemu.Prelude.{ℕ, ◌+◌, ◌<◌, ◌≡◌, ◌==◌, refl, if◌then◌else◌, some, List, [], ◌∷◌, arith, inl}
use os_qemu.Proc.Pid.{max_pid, Pids, get_pid}
use os_qemu.Proc.Pid.Unused.{Unused, PidInv, get_pid-Unused}
use os_qemu.Proc.Table.{Table, remove_links}
use os_qemu.Proc.Table.Family.{Children}
use os_qemu.Proc.Table.Leave.{remove_links-Children}

-- The numbers have come to the end once, and 1 to 3 are in use.
abbrev wrapped : Pids
wrapped = record { last_pid = 8191; next_safe = 8192 }

abbrev in_use : List ℕ
in_use = 3 ∷ 1 ∷ 2 ∷ []

wrapped-PidInv : PidInv in_use wrapped
wrapped-PidInv = record {
  clear = (inl (omega arith), (inl (omega arith), (inl (omega arith), tt)));
  bound = omega arith;
}

get_pid-Unused_example :
    (t : Pids) × (get_pid 20000 in_use wrapped ≡ some t)
    × (0 < t.last_pid)
    × (t.last_pid < max_pid)
    × Unused t.last_pid in_use
    × PidInv (t.last_pid ∷ in_use) t
get_pid-Unused_example =
    get_pid-Unused 7 20000 in_use wrapped (omega arith) (omega arith)
      (
        (λ e. absurd (omega arith)),
        ((λ e. absurd (omega arith)), ((λ e. absurd (omega arith)), tt)),
      )
      wrapped-PidInv (omega arith)

-- A run of `get_pid`, with two jumps.
get_pid_run : get_pid 4 in_use wrapped ≡ some (record { last_pid = 4; next_safe = 8192 })
unfolding get_pid
get_pid_run = refl

-- Process 2 is a child of process 1, and 3 has yet to be entered.
abbrev family : Table
family = record {
  pid = λ p. p + 40;
  parent = λ p. 1;
  cptr = λ p. if p == 1 then 2 else 0;
  yptr = λ p. 0;
  optr = λ p. 0;
  proc_list = 2 ∷ 1 ∷ [];
  hash_list = λ h. [];
  nr_process = 2;
}

family-Children : Children family 1 (2 ∷ [])
family-Children = record {
  youngest = refl;
  linked = (refl, refl, tt);
  distinct = (tt, tt);
  present = ((λ e. absurd (omega arith)), tt);
  parents = (refl, tt);
}

remove_links-Children_example : Children (remove_links 2 family) 1 []
remove_links-Children_example = remove_links-Children 2 family [] [] family-Children

-- Process 3 on every chain.
abbrev hashed : Table
hashed = record family { hash_list = λ h. 3 ∷ [] }
