-- ===== src/Mm/Pages.antt =====
-- kern/mm/default_pmm.c, and kern/mm/best_fit_pmm.c of lab2: physical pages by first fit and by best
-- fit. A page is known by its number, which is never 0: 0 is the head of the free list.
pub mod Insert
pub mod Joined
pub mod Merge
pub mod Choice
pub mod Take
pub mod Release
use os_qemu.Prelude.{
  ℕ, zero, suc, ◌+◌, ◌-◌, ◌==◌, not, ltb, leb, Bool, true, false, ◌&&◌, ◌||◌, if◌then◌else◌, Option,
  none, some,
}
use os_qemu.Libs.Dlist.{Links, list_init, list_add, list_add_before, list_del, list_empty}

-- `struct Page`; of the flags only PG_reserved and PG_property are used.
pub record Page : Type 0 where
  pub ref : ℕ
  pub reserved : Bool
  pub is_head : Bool
  pub property : ℕ

-- `free_area_t` with the page descriptors.
pub record FreeArea : Type 0 where
  pub pages : ℕ → Page
  pub free_list : Links
  pub nr_free : ℕ

abbrev pub set_page : (ℕ → Page) → ℕ → Page → ℕ → Page
set_page pages p a q = if q == p then a else pages q

unfoldable pub default_init : FreeArea → FreeArea
unfolding list_init
default_init a = record a { free_list = list_init a.free_list 0; nr_free = 0 }

-- The loop over the pages of a new block; `none` is a failed assertion.
unfoldable pub claim_pages : ℕ → ℕ → (ℕ → Page) → Option (ℕ → Page)
claim_pages zero p pages = some pages
claim_pages (suc n) p pages =
    if (pages p).reserved
    then claim_pages n (p + 1)
        (set_page pages p (record { ref = 0; reserved = false; is_head = false; property = 0 }))
    else none

-- The search for the place of a block in a list that is not empty, on fuel, from the link `le`.
unfoldable pub link_sorted : ℕ → ℕ → ℕ → Links → Option Links
link_sorted zero base le l = none
link_sorted (suc f) base le l =
    let page = l.next le in
    let behind = link_sorted f base page (list_add l page base) in
    let further = link_sorted f base page l in
    if page == 0
    then some l
    else if ltb base page
    then some (list_add_before l page base)
    else if l.next page == 0
    then behind
    else further

unfoldable pub link_block : ℕ → ℕ → Links → Option Links
unfolding link_sorted
link_block fuel base l =
    if list_empty l 0 then some (list_add l 0 base) else link_sorted fuel base 0 l

-- `base->property = n; SetPageProperty(base); nr_free += n;` and the linking.
abbrev pub head_block : ℕ → ℕ → (ℕ → Page) → ℕ → Page
head_block base n pages = set_page pages base (record (pages base) { property = n; is_head = true })

unfoldable pub default_init_memmap : ℕ → ℕ → ℕ → FreeArea → Option FreeArea
unfolding claim_pages link_block
default_init_memmap fuel base n a = if n == 0 then none else elim (claim_pages n base a.pages) [
  | none ↦ none
  | some pages ↦ elim (link_block fuel base a.free_list) [
    | none ↦ none
    | some l ↦
        some (record { pages = head_block base n pages; free_list = l; nr_free = a.nr_free + n })
  ]
]

-- The first block of at least `n` pages behind the link `le`; `some 0` is no block.
unfoldable pub first_fit : ℕ → ℕ → ℕ → FreeArea → Option ℕ
first_fit zero n le a = none
first_fit (suc f) n le a =
    let p = a.free_list.next le in
    let rest = first_fit f n p a in
    if p == 0 then some 0 else if leb n (a.pages p).property then some p else rest

-- The smallest of the blocks of at least `n` pages, the first of those; `page` and `min_size` are
-- the best so far.
unfoldable pub best_fit : ℕ → ℕ → ℕ → ℕ → ℕ → FreeArea → Option ℕ
best_fit zero n le page min_size a = none
best_fit (suc f) n le page min_size a =
    let p = a.free_list.next le in
    let better = best_fit f n p p (a.pages p).property a in
    let rest = best_fit f n p page min_size a in
    if p == 0
    then some page
    else if leb n (a.pages p).property && ltb (a.pages p).property min_size
    then better
    else rest

-- Taking `n` pages from the front of a block: what is left becomes a block in its place.
unfoldable pub take_block : ℕ → ℕ → FreeArea → FreeArea
take_block page n a =
    let prev = a.free_list.prev page in
    let l = list_del a.free_list page in
    let left = (a.pages page).property - n in
    let pages =
      if ltb n (a.pages page).property
      then set_page a.pages (page + n)
          (record (a.pages (page + n)) { property = left; is_head = true })
      else a.pages in
    record {
      pages = set_page pages page (record (pages page) { is_head = false });
      free_list = if ltb n (a.pages page).property then list_add l prev (page + n) else l;
      nr_free = a.nr_free - n;
    }

-- `none` is a failed assertion or no fuel, `some (0, a)` is NULL.
unfoldable pub default_alloc_pages : ℕ → ℕ → FreeArea → Option (ℕ × FreeArea)
unfolding first_fit take_block
default_alloc_pages fuel n a =
    if n == 0 then none else if ltb a.nr_free n then some (0, a) else elim (first_fit fuel n 0 a) [
      | none ↦ none
      | some page ↦ some (if page == 0 then (0, a) else (page, take_block page n a))
    ]

unfoldable pub best_fit_alloc_pages : ℕ → ℕ → FreeArea → Option (ℕ × FreeArea)
unfolding best_fit take_block
best_fit_alloc_pages fuel n a =
    if n == 0
    then none
    else if ltb a.nr_free n
    then some (0, a)
    else elim (best_fit fuel n 0 0 (a.nr_free + 1) a) [
      | none ↦ none
      | some page ↦ some (if page == 0 then (0, a) else (page, take_block page n a))
    ]

unfoldable pub release_pages : ℕ → ℕ → (ℕ → Page) → Option (ℕ → Page)
release_pages zero p pages = some pages
release_pages (suc n) p pages =
    if (pages p).reserved || (pages p).is_head
    then none
    else release_pages n (p + 1)
        (set_page pages p (record (pages p) { ref = 0; reserved = false; is_head = false }))

-- The block `q` is joined to the block `p`.
abbrev pub join_blocks : ℕ → ℕ → (ℕ → Page) → ℕ → Page
join_blocks p q pages =
    let longer =
      set_page pages p (record (pages p) { property = (pages p).property + (pages q).property }) in
    set_page longer q (record (longer q) { is_head = false })

-- Joining to the block that `list_prev` names; the number of the block that `base` stands in after.
unfoldable pub merge_left : ℕ → FreeArea → ℕ × FreeArea
merge_left base a =
    let p = a.free_list.prev base in
    if not (p == 0) && (p + (a.pages p).property == base)
    then (p, record a { pages = join_blocks p base a.pages; free_list = list_del a.free_list base })
    else (base, a)

unfoldable pub merge_right : ℕ → FreeArea → FreeArea
merge_right base a =
    let p = a.free_list.next base in
    if not (p == 0) && (base + (a.pages base).property == p)
    then record a { pages = join_blocks base p a.pages; free_list = list_del a.free_list p }
    else a

unfoldable pub default_free_pages : ℕ → ℕ → ℕ → FreeArea → Option FreeArea
unfolding release_pages link_block merge_left merge_right
default_free_pages fuel base n a = if n == 0 then none else elim (release_pages n base a.pages) [
  | none ↦ none
  | some pages ↦ elim (link_block fuel base a.free_list) [
    | none ↦ none
    | some l ↦
        let (block, b) =
          merge_left base
            (record { pages = head_block base n pages; free_list = l; nr_free = a.nr_free + n }) in
        some (merge_right block b)
  ]
]
