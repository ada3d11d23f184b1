-- ===== src/Proc/Table/Hash.antt =====
-- `find_proc` of kern/process/proc.c.
use os_qemu.Prelude.{ℕ, ◌<◌, ◌≡◌, ◌≢◌, refl, ◌==◌, if◌then◌else◌, List, [], ◌∷◌, arith, ℕ_discrete}
use os_qemu.Proc.Pid.{max_pid}
use os_qemu.Proc.Table.{
  Table, hash32, hash_shift, list_unlink, set_chain, hash_proc, unhash_proc, search_chain,
  find_proc,
}

-- Apart from `p` no process of a chain has the number `n`.
abbrev pub OnlyOne : (ℕ → ℕ) → ℕ → ℕ → List ℕ → Type 0
OnlyOne of p n [] = Unit {0}
OnlyOne of p n (x ∷ xs) = (of x ≡ n → x ≡ p) × OnlyOne of p n xs

-- A process is not on a chain.
abbrev pub Absent : ℕ → List ℕ → Type 0
Absent p [] = Unit {0}
Absent p (x ∷ xs) = (x ≢ p) × Absent p xs

-- A process is on a chain once.
abbrev pub Once : ℕ → List ℕ → Type 0
Once p [] = Unit {0}
Once p (x ∷ xs) = (x ≡ p → Absent p xs) × Once p xs

module _ (of : ℕ → ℕ) (p : ℕ) (chains : ℕ → List ℕ) where
  search_here :
      (n h : ℕ) (xs : List ℕ) → n ≡ of p → search_chain of (set_chain chains h (p ∷ xs) h) n ≡ p
  unfolding search_chain
  search_here n h xs e = ground arith

  search_past :
      (n h k : ℕ)
      → n ≢ of p
      → search_chain of (set_chain chains h (p ∷ chains h) k) n ≡ search_chain of (chains k) n
  unfolding search_chain
  search_past n h k ne = elim (ℕ_discrete k h) [ yes e ↦ rw e (ground arith) | no e ↦ ground arith ]

-- A process that `hash_proc` enters is found by its number, and the search for any other comes out as
-- before.
pub find_proc-hash_proc :
    (p n : ℕ) (t : Table)
    → 0 < t.pid p
    → t.pid p < max_pid
    → find_proc (hash_proc p t) n ≡ (if n == t.pid p then p else find_proc t n)
unfolding find_proc hash_proc
find_proc-hash_proc p n t lo hi = elim (ℕ_discrete n (t.pid p)) [
  | yes e ↦
      let here =
        search_here t.pid p t.hash_list n (hash32 (t.pid p) hash_shift)
          (t.hash_list (hash32 (t.pid p) hash_shift)) e in
      rw e (ground (arith, here))
  | no e ↦ ground (
    arith,
    search_past t.pid p t.hash_list n (hash32 (t.pid p) hash_shift) (hash32 n hash_shift) e,
  )
]

module _ (of : ℕ → ℕ) (p : ℕ) where
  Absent-list_unlink :
      (xs : List ℕ) → Absent p xs → OnlyOne of p (of p) xs → search_chain of xs (of p) ≡ 0
  unfolding search_chain
  Absent-list_unlink [] a o = refl
  Absent-list_unlink (x ∷ xs) a o = ground (arith, Absent-list_unlink xs a.1 o.1, o.0, a.0)

  search-unlink_own :
      (xs : List ℕ)
      → Once p xs
      → OnlyOne of p (of p) xs
      → search_chain of (list_unlink p xs) (of p) ≡ 0
  unfolding search_chain list_unlink
  search-unlink_own [] c o = refl
  search-unlink_own (x ∷ xs) c o = elim (ℕ_discrete x p) [
    | yes e ↦ ground (arith, Absent-list_unlink xs (c.0 e) o.1)
    | no e ↦ ground (arith, search-unlink_own xs c.1 o.1, o.0)
  ]

  search-unlink_other :
      (n : ℕ) (xs : List ℕ) → n ≢ of p → search_chain of (list_unlink p xs) n ≡ search_chain of xs n
  unfolding search_chain list_unlink
  search-unlink_other n [] e = refl
  search-unlink_other n (x ∷ xs) e = elim (ℕ_discrete x p) [
    | yes h ↦ ground arith
    | no h ↦ ground (arith, search-unlink_other n xs e)
  ]

-- A process that `unhash_proc` takes off its chain is not found any more, if it stood there once and
-- no other process has its number; the search for any other number comes out as before.
pub find_proc-unhash_proc :
    (p n : ℕ) (t : Table)
    → Once p (t.hash_list (hash32 (t.pid p) hash_shift))
    → OnlyOne t.pid p (t.pid p) (t.hash_list (hash32 (t.pid p) hash_shift))
    → find_proc (unhash_proc p t) n ≡ (if n == t.pid p then 0 else find_proc t n)
unfolding find_proc unhash_proc
find_proc-unhash_proc p n t c o = elim (ℕ_discrete n (t.pid p)) [
  | yes e ↦
      rw e
        (ground (arith, search-unlink_own t.pid p (t.hash_list (hash32 (t.pid p) hash_shift)) c o))
  | no e ↦ elim (ℕ_discrete (hash32 n hash_shift) (hash32 (t.pid p) hash_shift)) [
    | yes h ↦
        let same = search-unlink_other t.pid p n (t.hash_list (hash32 (t.pid p) hash_shift)) e in
        rw h (ground (arith, e, same))
    | no h ↦ ground (arith, e, h)
  ]
]
