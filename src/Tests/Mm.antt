-- ===== src/Tests/Mm.antt =====
-- Memory management at concrete inputs.
use os_qemu.Prelude.{
  ℕ, ◌+◌, ◌≤◌, ◌<◌, ◌≡◌, ◌==◌, ltb, ◌++◌, refl, true, false, if◌then◌else◌, none, some, [], ◌∷◌,
  arith, inl, inr,
}
use os_qemu.Prelude.Errors.{ok, panic}
use os_qemu.Libs.Dlist.{Links, list_del}
use os_qemu.Libs.Dlist.Ring.{IsRing}
use os_qemu.Mm.Vma.{
  check_range, find_vma, Vma, Mm, contains, search_list, insert_vma_struct, mm_map, user_mem_check,
}
use os_qemu.Mm.Vma.Order.{MmInv}
use os_qemu.Mm.Vma.Insert.{insert_vma_struct_lem}
use os_qemu.Mm.Vma.Map.{mm_map_panics}
use os_qemu.Mm.Vma.Access.{IsAllowed, Checked, user_mem_check-Checked}
use os_qemu.Mm.Pages.{
  Page, FreeArea, release_pages, take_block, best_fit_alloc_pages, default_free_pages,
}
use os_qemu.Mm.Pages.Choice.{Allotted, best_fit_alloc_pages-Allotted}
use os_qemu.Mm.Pages.Joined.{Joined}
use os_qemu.Libs.Dlist.Ring.{last_of}
use os_qemu.Mm.Pages.Take.{Taken, take_block-IsRing}
use os_qemu.Mm.Pages.Merge.{joined, ends_at, default_free_pages-IsRing}
use os_qemu.Mm.Pages.Release.{default_free_pages-unmerged}

-- A readable area of two pages.
abbrev code_area : Vma
code_area = record { vm_start = 0x0080_0000; vm_end = 0x0080_2000; vm_flags = 5 }

abbrev one_area : Mm
one_area = record { mmap_list = code_area ∷ []; mmap_cache = some code_area; map_count = 1 }

one_area-MmInv : MmInv one_area
one_area-MmInv = record {
  sorted = (omega arith, omega arith, tt);
  cached = inl refl;
  counted = refl;
}

abbrev heap_area : Vma
heap_area = record { vm_start = 0x0090_0000; vm_end = 0x0090_1000; vm_flags = 3 }

insert_vma_struct_lem_example :
    (mm' : Mm) × (insert_vma_struct one_area heap_area ≡ ok mm')
    × MmInv mm'
    × ((addr : ℕ)
        → search_list mm'.mmap_list addr ≡ (
            if contains heap_area addr
            then some heap_area
            else search_list one_area.mmap_list addr))
insert_vma_struct_lem_example =
    insert_vma_struct_lem one_area heap_area one_area-MmInv (omega arith) (inr (omega arith), tt)

abbrev wide_area : Vma
wide_area = record { vm_start = 0x0070_0000; vm_end = 0x0090_0000; vm_flags = 3 }

code_found : search_list one_area.mmap_list 0x0080_0000 ≡ some code_area
unfolding search_list
code_found = refl

nothing_found : search_list one_area.mmap_list 0x007f_f000 ≡ none
unfolding search_list
nothing_found = refl

mm_map_panics_example : (mm_map one_area 0x007f_f000 0x2000 3 true).1 ≡ panic
mm_map_panics_example =
    mm_map_panics one_area 0x007f_f000 0x2000 3 code_area one_area-MmInv refl nothing_found
      (inl refl) (omega arith, omega arith)

-- A stack of four pages, in which the first is the guard.
abbrev stack_area : Vma
stack_area = record { vm_start = 0x7fff_c000; vm_end = 0x8000_0000; vm_flags = 11 }

abbrev one_stack : Mm
one_stack = record { mmap_list = stack_area ∷ []; mmap_cache = none; map_count = 1 }

one_stack-MmInv : MmInv one_stack
one_stack-MmInv = record { sorted = (omega arith, omega arith, tt); cached = tt; counted = refl }

user_mem_check-Checked_example :
    Checked one_stack.mmap_list 0x7fff_d000 0x1800 true
      (user_mem_check (some one_stack) 0x7fff_d000 0x1800 true)
user_mem_check-Checked_example =
    user_mem_check-Checked one_stack 0x7fff_d000 0x1800 true one_stack-MmInv (omega arith)

-- The check says yes there, and no where the guard is written to.
above_guard :
    user_mem_check (some one_stack) 0x7fff_d000 0x1800 true
    ≡ some (true, some (record one_stack { mmap_cache = some stack_area }))
unfolding user_mem_check check_range find_vma search_list
above_guard = refl

in_guard :
    user_mem_check (some one_stack) 0x7fff_cfff 0x1800 true
    ≡ some (false, some (record one_stack { mmap_cache = some stack_area }))
unfolding user_mem_check check_range find_vma search_list
in_guard = refl

code-IsAllowed :
    (a : ℕ) → 0x0080_0010 ≤ a → a < 0x0080_0010 + 0x1800 → IsAllowed one_area.mmap_list false a
unfolding search_list
code-IsAllowed a lo hi = (code_area, ground arith, refl, λ t k. ground arith)

-- The free list holds the block at page 5.
abbrev one_block : Links
one_block = record { prev = λ x. if x == 5 then 0 else 5; next = λ x. if x == 5 then 0 else 5 }

one_block-IsRing : IsRing one_block 0 (5 ∷ [])
one_block-IsRing = record {
  links = (refl, refl, (refl, refl));
  distinct = (tt, tt);
  apart = ((λ e. absurd (omega arith)), tt);
}

-- Pages 5 to 7 are a free block.
abbrev some_free : FreeArea
some_free = record {
  pages = λ p. record {
    ref = 0;
    reserved = false;
    is_head = p == 5;
    property = if p == 5 then 3 else 0;
  };
  free_list = one_block;
  nr_free = 3;
}

abbrev freed_pages : ℕ → Page
freed_pages p =
    if p == 9
    then record { ref = 0; reserved = false; is_head = false; property = 0 }
    else if p == 8
    then record { ref = 0; reserved = false; is_head = false; property = 0 }
    else some_free.pages p

released : release_pages 2 8 some_free.pages ≡ some freed_pages
unfolding release_pages
released = refl

abbrev freed_before : ℕ → Page
freed_before p =
    if p == 4
    then record { ref = 0; reserved = false; is_head = false; property = 0 }
    else if p == 3
    then record { ref = 0; reserved = false; is_head = false; property = 0 }
    else some_free.pages p

released_before : release_pages 2 3 some_free.pages ≡ some freed_before
unfolding release_pages
released_before = refl

-- The two pages before the block are freed and joined to it.
default_free_pages-IsRing_example :
    (b : FreeArea) × (default_free_pages 9 3 2 some_free ≡ some b)
    × IsRing b.free_list 0 (joined [] 3 5 [] (ends_at some_free.pages [] 3) (3 + 2 == 5))
    × (b.nr_free ≡ 3 + 2)
    × Joined freed_before b.pages (last_of 0 []) 3 2 5 (ends_at some_free.pages [] 3) (3 + 2 == 5)
default_free_pages-IsRing_example =
    default_free_pages-IsRing 9 3 2 5 [] [] some_free freed_before one_block-IsRing
      (λ e. absurd (omega arith)) (λ e. absurd (omega arith)) tt ((λ e. absurd (omega arith)), tt)
      tt (omega arith) (omega arith) (λ e. absurd (omega arith)) released_before

-- The two pages behind them are freed and do not join the block.
default_free_pages-unmerged_example :
    (b : FreeArea) × (default_free_pages 9 8 2 some_free ≡ some b)
    × ((b.pages 5).property ≡ 3)
    × ((b.pages 8).property ≡ 2)
    × ((b.pages 8).is_head ≡ true)
    × (b.free_list.next 5 ≡ 8)
    × ((list_del b.free_list 8).next 5 ≡ 8)
    × (b.nr_free ≡ 3 + 2)
default_free_pages-unmerged_example =
    default_free_pages-unmerged 9 8 2 5 [] some_free freed_pages one_block-IsRing
      (λ e. absurd (omega arith)) (λ e. absurd (omega arith)) tt tt (omega arith) (omega arith)
      (λ e. absurd (omega arith)) released

best_fit_alloc_pages-Allotted_example :
    Allotted some_free 2 (5 ∷ []) (best_fit_alloc_pages 3 2 some_free)
best_fit_alloc_pages-Allotted_example =
    best_fit_alloc_pages-Allotted 3 2 (5 ∷ []) some_free one_block-IsRing (omega arith)
      (λ e. absurd (omega arith)) (omega arith)

take_block-IsRing_example :
    IsRing (take_block 5 2 some_free).free_list 0 ([] ++ (if ltb 2 3 then (5 + 2) ∷ [] else []))
    × Taken some_free 5 2 (take_block 5 2 some_free)
take_block-IsRing_example =
    take_block-IsRing some_free 5 2 [] [] one_block-IsRing (omega arith) (λ e. absurd (omega arith))
      tt (λ e. absurd (omega arith))
