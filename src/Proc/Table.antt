-- ===== src/Proc/Table.antt =====
-- kern/process/proc.c: the list of processes, the relations between them, and the search by number.
-- A process is known by its address, 0 is NULL; libs/hash.c: the hash.
pub mod Hash
pub mod Family
pub mod Leave
use os_qemu.Prelude.{
  ℕ, ◌+◌, ◌-◌, ◌*◌, ◌/◌, ◌%◌, ◌^◌, ◌==◌, ltb, Bool, true, false, ◌&&◌, if◌then◌else◌, List, [], ◌∷◌,
}
use os_qemu.Proc.Pid.{max_pid}

-- Of each process its number and its relations; `list_add` puts a process at the head of a list.
pub record Table : Type 0 where
  pub pid : ℕ → ℕ
  pub parent : ℕ → ℕ
  pub cptr : ℕ → ℕ
  pub yptr : ℕ → ℕ
  pub optr : ℕ → ℕ
  pub proc_list : List ℕ
  pub hash_list : ℕ → List ℕ
  pub nr_process : ℕ

-- HASH_SHIFT
abbrev pub hash_shift : ℕ
hash_shift = 10

-- The product and the shift of a `uint32_t`.
unfoldable pub hash32 : ℕ → ℕ → ℕ
hash32 val bits = val * 0x9e37_0001 % 2 ^ 32 / 2 ^ (32 - bits)

abbrev pub put : (ℕ → ℕ) → ℕ → ℕ → ℕ → ℕ
put f p v x = if x == p then v else f x

-- `list_del`
unfoldable pub list_unlink : ℕ → List ℕ → List ℕ
list_unlink p [] = []
list_unlink p (x ∷ xs) = let rest = list_unlink p xs in if x == p then xs else x ∷ rest

unfoldable pub set_links : ℕ → Table → Table
set_links proc t =
    let older = t.cptr (t.parent proc) in
    let yptr = put t.yptr proc 0 in
    record t {
      proc_list = proc ∷ t.proc_list;
      yptr = if older == 0 then yptr else put yptr older proc;
      optr = put t.optr proc older;
      cptr = put t.cptr (t.parent proc) proc;
      nr_process = t.nr_process + 1;
    }

unfoldable pub remove_links : ℕ → Table → Table
remove_links proc t =
    let older = t.optr proc in
    let yptr = if older == 0 then t.yptr else put t.yptr older (t.yptr proc) in
    let younger = yptr proc in
    record t {
      proc_list = list_unlink proc t.proc_list;
      yptr = yptr;
      optr = if younger == 0 then t.optr else put t.optr younger older;
      cptr = if younger == 0 then put t.cptr (t.parent proc) older else t.cptr;
      nr_process = t.nr_process - 1;
    }

abbrev pub set_chain : (ℕ → List ℕ) → ℕ → List ℕ → ℕ → List ℕ
set_chain f h xs x = if x == h then xs else f x

unfoldable pub hash_proc : ℕ → Table → Table
hash_proc proc t =
    let h = hash32 (t.pid proc) hash_shift in
    record t { hash_list = set_chain t.hash_list h (proc ∷ t.hash_list h) }

-- The process is on the chain of its number.
unfoldable pub unhash_proc : ℕ → Table → Table
unhash_proc proc t =
    let h = hash32 (t.pid proc) hash_shift in
    record t { hash_list = set_chain t.hash_list h (list_unlink proc (t.hash_list h)) }

-- The loop of `find_proc`.
unfoldable pub search_chain : (ℕ → ℕ) → List ℕ → ℕ → ℕ
search_chain of [] pid = 0
search_chain of (p ∷ ps) pid = let rest = search_chain of ps pid in if of p == pid then p else rest

-- `pid` is not negative.
unfoldable pub find_proc : Table → ℕ → ℕ
find_proc t pid =
    if ltb 0 pid && ltb pid max_pid
    then search_chain t.pid (t.hash_list (hash32 pid hash_shift)) pid
    else 0
