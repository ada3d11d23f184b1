-- ===== src/Mm/Vma/Find.antt =====
-- `find_vma` of kern/mm/vmm.c with its cache, against the search of the list.
use os_qemu.Prelude.{
  ℕ, ◌≡◌, refl, true, arith, Option, none, some, List, [], ◌∷◌, inl, inr, if◌then◌else◌,
  Option-cases, Bool-cases,
}
use os_qemu.Mm.Vma.{Vma, Mm, contains, search_list, found_vma, find_vma}
use os_qemu.Mm.Vma.Order.{IsSorted, Member, CacheIn, MmInv, Member-search_list}

pub search_list-Member :
    (addr : ℕ) (vs : List Vma) (v : Vma) → search_list vs addr ≡ some v → Member v vs
unfolding search_list
search_list-Member addr [] v e = cc
search_list-Member addr (w ∷ ws) v e = elim (Bool-cases (contains w addr)) [
  | inl c ↦ inl (ground arith)
  | inr c ↦ inr (search_list-Member addr ws v (ground arith))
]

pub search_list-contains :
    (addr : ℕ) (vs : List Vma) (v : Vma) → search_list vs addr ≡ some v → contains v addr ≡ true
unfolding search_list
search_list-contains addr [] v e = cc
search_list-contains addr (w ∷ ws) v e = ground (arith, search_list-contains addr ws v)

cached_search :
    (addr : ℕ) (vs : List Vma) (c : Option Vma)
    → IsSorted 0 vs
    → CacheIn c vs
    → (elim c [
      | none ↦ search_list vs addr
      | some v ↦ if contains v addr then some v else search_list vs addr
    ])
      ≡ search_list vs addr
cached_search addr vs none s h = refl
cached_search addr vs (some v) s h = ground (arith, Member-search_list v 0 addr vs s h)

pub found_vma-search_list :
    (mm : Mm) (addr : ℕ) → MmInv mm → found_vma mm addr ≡ search_list mm.mmap_list addr
unfolding found_vma
found_vma-search_list mm addr h = cached_search addr mm.mmap_list mm.mmap_cache h.sorted h.cached

-- `find_vma` returns what a search of the list without the cache finds, whatever is cached, leaves
-- the list alone, and keeps the invariant of the areas.
pub find_vma_lem :
    (mm : Mm) (addr : ℕ)
    → MmInv mm
    → ((find_vma mm addr).0 ≡ search_list mm.mmap_list addr)
      × ((find_vma mm addr).1.mmap_list ≡ mm.mmap_list)
      × MmInv (find_vma mm addr).1
unfolding find_vma
find_vma_lem mm addr h = elim (Option-cases (search_list mm.mmap_list addr)) [
  | inl e ↦ rw (found_vma-search_list mm addr h, e, find_vma) (refl, refl, h)
  | inr (v, e) ↦
      rw (found_vma-search_list mm addr h, e, find_vma)
        (
          refl,
          refl,
          record {
            sorted = h.sorted;
            cached = search_list-Member addr mm.mmap_list v e;
            counted = h.counted;
          },
        )
]
