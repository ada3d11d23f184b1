-- ===== src/Proc/Life/Fork.antt =====
-- The table of processes when a new one is entered by `do_fork` of kern/process/proc.c.
use os_qemu.Prelude.{
  ℕ, ◌+◌, ◌<◌, ◌≡◌, ◌≢◌, refl, ◌∙◌, ap, ap₂, subst, ◌==◌, if◌then◌else◌, List, [], ◌∷◌, map,
}
use os_qemu.Libs.Dlist.Ring.{Fresh}
use os_qemu.Proc.Pid.{max_pid}
use os_qemu.Proc.Table.{Table, hash32, hash_shift, search_chain, set_links, hash_proc, find_proc}
use os_qemu.Proc.Table.Hash.{find_proc-hash_proc}
use os_qemu.Proc.Table.Family.{Siblings, ParentOf, Children, set_links-Children}

-- Two tables that agree but on the process `p` and on the chains.
pub record Apart (p : ℕ) (t t' : Table) : Type 0 where
  pub pid : (x : ℕ) → x ≢ p → t'.pid x ≡ t.pid x
  pub parent : (x : ℕ) → x ≢ p → t'.parent x ≡ t.parent x
  pub cptr : (x : ℕ) → x ≢ p → t'.cptr x ≡ t.cptr x
  pub yptr : (x : ℕ) → x ≢ p → t'.yptr x ≡ t.yptr x
  pub optr : (x : ℕ) → x ≢ p → t'.optr x ≡ t.optr x
  pub proc_list : t'.proc_list ≡ t.proc_list
  pub nr_process : t'.nr_process ≡ t.nr_process

module _ (p : ℕ) (t t' : Table) (a : Apart p t t') where
  Siblings-Apart : (y : ℕ) (xs : List ℕ) → Fresh p xs → Siblings t y xs → Siblings t' y xs
  Siblings-Apart y [] f h = tt
  Siblings-Apart y (x ∷ xs) f h =
      (a.yptr x f.0 ∙ h.0, a.optr x f.0 ∙ h.1, Siblings-Apart x xs f.1 h.2)

  ParentOf-Apart : (q : ℕ) (xs : List ℕ) → Fresh p xs → ParentOf t q xs → ParentOf t' q xs
  ParentOf-Apart q [] f h = tt
  ParentOf-Apart q (x ∷ xs) f h = (a.parent x f.0 ∙ h.0, ParentOf-Apart q xs f.1 h.1)

  pub Children-Apart :
      (parent : ℕ) (xs : List ℕ)
      → parent ≢ p
      → Fresh p xs
      → Children t parent xs
      → Children t' parent xs
  Children-Apart parent xs n f c = record {
    youngest = a.cptr parent n ∙ c.youngest;
    linked = Siblings-Apart 0 xs f c.linked;
    distinct = c.distinct;
    present = c.present;
    parents = ParentOf-Apart parent xs f c.parents;
  }

  map-Apart : (xs : List ℕ) → Fresh p xs → map t'.pid xs ≡ map t.pid xs
  map-Apart [] f = refl
  map-Apart (x ∷ xs) f = ap₂ ◌∷◌ (a.pid x f.0) (map-Apart xs f.1)

  pub pids-Apart : Fresh p t.proc_list → map t'.pid t'.proc_list ≡ map t.pid t.proc_list
  pids-Apart f = rw a.proc_list (map-Apart t.proc_list f)

  search-Apart :
      (n : ℕ) (xs : List ℕ) → Fresh p xs → search_chain t'.pid xs n ≡ search_chain t.pid xs n
  unfolding search_chain
  search-Apart n [] f = refl
  search-Apart n (x ∷ xs) f = rw (a.pid x f.0, search-Apart n xs f.1) refl

  pub find_proc-Apart :
      (n : ℕ)
      → t'.hash_list (hash32 n hash_shift) ≡ t.hash_list (hash32 n hash_shift)
      → Fresh p (t.hash_list (hash32 n hash_shift))
      → find_proc t' n ≡ find_proc t n
  unfolding find_proc
  find_proc-Apart n h f = rw (h, search-Apart n (t.hash_list (hash32 n hash_shift)) f) refl

hash_proc-Apart : (p : ℕ) (t t' : Table) → Apart p t t' → Apart p t (hash_proc p t')
unfolding hash_proc
hash_proc-Apart p t t' a = record {
  pid = a.pid;
  parent = a.parent;
  cptr = a.cptr;
  yptr = a.yptr;
  optr = a.optr;
  proc_list = a.proc_list;
  nr_process = a.nr_process;
}

find_proc-set_links : (p n : ℕ) (t : Table) → find_proc (set_links p t) n ≡ find_proc t n
unfolding find_proc set_links
find_proc-set_links p n t = refl

module _ (p c pid : ℕ) (t t' : Table) (xs : List ℕ) (a : Apart p t t') (child : t'.parent p ≡ c)
    (number : t'.pid p ≡ pid) where
  abbrev entered : Table
  entered = set_links p (hash_proc p t')

  pub entered-Children : c ≢ p → p ≢ 0 → Fresh p xs → Children t c xs → Children entered c (p ∷ xs)
  unfolding hash_proc
  entered-Children n z f k =
      let there : Children (hash_proc p t') (t'.parent p) xs =
        rw child (Children-Apart p t (hash_proc p t') (hash_proc-Apart p t t' a) c xs n f k) in
      subst (λ q. Children entered q (p ∷ xs)) child
        (set_links-Children p (hash_proc p t') xs there z f)

  pub entered_found :
      (n : ℕ)
      → 0 < pid
      → pid < max_pid
      → t'.hash_list (hash32 n hash_shift) ≡ t.hash_list (hash32 n hash_shift)
      → Fresh p (t.hash_list (hash32 n hash_shift))
      → find_proc entered n ≡ (if n == pid then p else find_proc t n)
  entered_found n lo hi h f =
      find_proc-set_links p n (hash_proc p t')
      ∙ find_proc-hash_proc p n t' (rw number lo) (rw number hi)
      ∙ rw (number, find_proc-Apart p t t' a n h f) refl

  pub entered_lists :
      (entered.proc_list ≡ p ∷ t.proc_list) × (entered.nr_process ≡ t.nr_process + 1)
  unfolding set_links hash_proc
  entered_lists = (ap (λ l. p ∷ l) a.proc_list, ap (λ (n : ℕ). n + 1) a.nr_process)

  pub entered_pids :
      Fresh p t.proc_list → map entered.pid entered.proc_list ≡ pid ∷ map t.pid t.proc_list
  unfolding set_links hash_proc
  entered_pids f = ap₂ ◌∷◌ number (pids-Apart p t t' a f)
