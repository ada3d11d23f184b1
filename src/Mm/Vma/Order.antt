-- ===== src/Mm/Vma/Order.antt =====
-- The areas of a process, in order and apart.
use os_qemu.Prelude.{
  ℕ, ◌≤◌, ◌<◌, ◌≡◌, true, arith, Option, none, some, List, [], ◌∷◌, length, ◌⊎◌, inl, inr,
}
use os_qemu.Mm.Vma.{Vma, Mm, contains, search_list}

-- The areas from `lo` on: none is empty, and each ends before the next starts.
abbrev pub IsSorted : ℕ → List Vma → Type 0
IsSorted lo [] = Unit {0}
IsSorted lo (v ∷ vs) = (lo ≤ v.vm_start) × (v.vm_start < v.vm_end) × IsSorted v.vm_end vs

-- The area stands in the list.
abbrev pub Member : Vma → List Vma → Type 0
Member v [] = ⊥
Member v (w ∷ ws) = (v ≡ w) ⊎ Member v ws

abbrev pub CacheIn : Option Vma → List Vma → Type 0
CacheIn none vs = Unit {0}
CacheIn (some v) vs = Member v vs

pub record MmInv (mm : Mm) : Type 0 where
  pub sorted : IsSorted 0 mm.mmap_list
  pub cached : CacheIn mm.mmap_cache mm.mmap_list
  pub counted : mm.map_count ≡ length mm.mmap_list

pub Member-bounds :
    (v : Vma) (lo : ℕ) (vs : List Vma)
    → IsSorted lo vs
    → Member v vs
    → (lo ≤ v.vm_start) × (v.vm_start < v.vm_end)
Member-bounds v lo [] s m = elim m [ ]
Member-bounds v lo (w ∷ ws) s (inl e) = ground arith
Member-bounds v lo (w ∷ ws) s (inr m) = omega (arith, Member-bounds v w.vm_end ws s.2 m)

-- A member that contains the address is the one that the search finds.
pub Member-search_list :
    (v : Vma) (lo addr : ℕ) (vs : List Vma)
    → IsSorted lo vs
    → Member v vs
    → contains v addr ≡ true
    → search_list vs addr ≡ some v
unfolding search_list
Member-search_list v lo addr [] s m c = elim m [ ]
Member-search_list v lo addr (w ∷ ws) s (inl e) c = ground arith
Member-search_list v lo addr (w ∷ ws) s (inr m) c =
    ground (arith, Member-search_list v w.vm_end addr ws s.2 m c, Member-bounds v w.vm_end ws s.2 m)
