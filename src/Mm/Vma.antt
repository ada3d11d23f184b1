-- ===== src/Mm/Vma.antt =====
-- kern/mm/vmm.c: the virtual memory areas of a process.
pub mod Order
pub mod Find
pub mod Insert
pub mod Map
pub mod Access
use os_qemu.Prelude.{
  ℕ, zero, suc, ◌+◌, ◌-◌, ◌/◌, ◌%◌, ◌^◌, ◌==◌, not, ltb, leb, Bool, true, false, ◌&&◌, ◌||◌,
  if◌then◌else◌, Option, none, some, List, [], ◌∷◌,
}
use os_qemu.Prelude.Errors.{Result, ok, err, panic, ◌>>=◌, inval, no_mem}

-- `struct vma_struct`. An area is not written to once it is in the list, so a pointer to one is the
-- area itself.
pub record Vma : Type 0 where
  pub vm_start : ℕ
  pub vm_end : ℕ
  pub vm_flags : ℕ

-- `struct mm_struct`, as far as the areas go.
pub record Mm : Type 0 where
  pub mmap_list : List Vma
  pub mmap_cache : Option Vma
  pub map_count : ℕ

abbrev pub pgsize : ℕ
pgsize = 4096

abbrev pub userbase : ℕ
userbase = 0x0020_0000

abbrev pub usertop : ℕ
usertop = 0x8000_0000

-- `ROUNDDOWN` and `ROUNDUP` to a page; the sum of the latter wraps.
abbrev pub round_down : ℕ → ℕ
round_down a = a - a % pgsize

abbrev pub round_up : ℕ → ℕ
round_up a = round_down ((a + pgsize - 1) % 2 ^ 64)

-- `USER_ACCESS`
abbrev pub user_access : ℕ → ℕ → Bool
user_access start end = leb userbase start && (ltb start end && leb end usertop)

unfoldable pub mm_create : Mm
mm_create = record { mmap_list = []; mmap_cache = none; map_count = 0 }

abbrev pub contains : Vma → ℕ → Bool
contains v addr = leb v.vm_start addr && ltb addr v.vm_end

-- The loop of `find_vma`.
unfoldable pub search_list : List Vma → ℕ → Option Vma
search_list [] addr = none
search_list (v ∷ vs) addr = if contains v addr then some v else search_list vs addr

-- The area that `find_vma` returns.
unfoldable pub found_vma : Mm → ℕ → Option Vma
unfolding search_list
found_vma mm addr = elim mm.mmap_cache [
  | none ↦ search_list mm.mmap_list addr
  | some v ↦ if contains v addr then some v else search_list mm.mmap_list addr
]

-- It becomes the cached one.
unfoldable pub find_vma : Mm → ℕ → Option Vma × Mm
unfolding found_vma
find_vma mm addr = elim (found_vma mm addr) [
  | none ↦ (none, mm)
  | some v ↦ (some v, record mm { mmap_cache = some v })
]

abbrev pub fits_before : Vma → Vma → Bool
fits_before prev next =
    ltb prev.vm_start prev.vm_end
    && (leb prev.vm_end next.vm_start && ltb next.vm_start next.vm_end)

-- `check_vma_overlap`, whose assertions stop the kernel; at the head of the list nothing is checked.
unfoldable pub check_after : Option Vma → Vma → Bool
check_after none v = true
check_after (some prev) v = fits_before prev v

-- The search for the place, and what follows it: `prev` is the area at `le_prev`.
unfoldable pub insert_behind : Option Vma → Vma → List Vma → Result (List Vma)
unfolding check_after
insert_behind prev v [] = if check_after prev v then ok (v ∷ []) else panic
insert_behind prev v (n ∷ ns) =
    if ltb v.vm_start n.vm_start
    then (if check_after prev v && fits_before v n then ok (v ∷ n ∷ ns) else panic)
    else (do rest ← insert_behind (some n) v ns; ok (n ∷ rest))

unfoldable pub insert_vma_struct : Mm → Vma → Result Mm
insert_vma_struct mm v =
    if ltb v.vm_start v.vm_end
    then (do
      list ← insert_behind none v mm.mmap_list
      ok (record mm { mmap_list = list; map_count = mm.map_count + 1 }))
    else panic

-- `room` says whether `kmalloc` has memory for the area. The state is the one behind the call; after
-- a panic there is none to speak of.
unfoldable pub map_range : Mm → ℕ → ℕ → ℕ → Bool → Mm × Result Vma
map_range mm start end vm_flags room =
    let (hit, mm') = find_vma mm start in
    let area : Vma = record { vm_start = start; vm_end = end; vm_flags = vm_flags } in
    let busy : Bool = elim hit [ none ↦ false | some v ↦ ltb v.vm_start end ] in
    if busy
    then (mm', err inval)
    else if not room
    then (mm', err no_mem)
    else elim (insert_vma_struct mm' area) [
      | ok mm'' ↦ (mm'', ok area)
      | err e ↦ (mm', err e)
      | panic ↦ (mm', panic)
    ]

unfoldable pub mm_map : Mm → ℕ → ℕ → ℕ → Bool → Mm × Result Vma
mm_map mm addr len vm_flags room =
    let start = round_down addr in
    let end = round_up ((addr + len) % 2 ^ 64) in
    if user_access start end then map_range mm start end vm_flags room else (mm, err inval)

-- `vma->vm_flags & VM_READ`, `VM_WRITE` and `VM_STACK`.
abbrev pub vm_read : ℕ → Bool
vm_read flags = flags % 2 == 1

abbrev pub vm_write : ℕ → Bool
vm_write flags = flags / 2 % 2 == 1

abbrev pub vm_stack : ℕ → Bool
vm_stack flags = flags / 8 % 2 == 1

abbrev pub permits : Bool → Vma → Bool
permits write v = if write then vm_write v.vm_flags else vm_read v.vm_flags

-- A write into the lowest page of a stack is refused.
abbrev pub hits_guard : Bool → ℕ → Vma → Bool
hits_guard write start v = write && (vm_stack v.vm_flags && ltb start (v.vm_start + pgsize))

-- The loop of `user_mem_check`, on fuel; the list is only cached on the way. `none` is no fuel left.
unfoldable pub check_range : ℕ → Mm → Bool → ℕ → ℕ → Option (Bool × Mm)
check_range zero mm write start end = none
check_range (suc f) mm write start end =
    if ltb start end
    then (let (hit, mm') = find_vma mm start in
        elim hit [
          | none ↦ some (false, mm')
          | some v ↦
              let rest = check_range f mm' write v.vm_end end in
              if ltb start v.vm_start
              then some (false, mm')
              else if not (permits write v) || hits_guard write start v
              then some (false, mm')
              else rest
        ])
    else some (true, mm)

abbrev pub kernbase : ℕ
kernbase = 0xffff_ffff_c020_0000

abbrev pub kerntop : ℕ
kerntop = kernbase + 0x7e0_0000

-- `KERN_ACCESS`
abbrev pub kern_access : ℕ → ℕ → Bool
kern_access start end = leb kernbase start && (ltb start end && leb end kerntop)

-- A kernel thread has no areas.
unfoldable pub user_mem_check : Option Mm → ℕ → ℕ → Bool → Option (Bool × Option Mm)
user_mem_check none addr len write = some (kern_access addr ((addr + len) % 2 ^ 64), none)
user_mem_check (some mm) addr len write =
    let end = (addr + len) % 2 ^ 64 in
    if user_access addr end
    then elim (check_range (suc (end - addr)) mm write addr end) [
      | none ↦ none
      | some (b, mm') ↦ some (b, some mm')
    ]
    else some (false, some mm)
