-- ===== src/Mm/Vma/Map.antt =====
-- `mm_map` of kern/mm/vmm.c.
use os_qemu.Prelude.{
  ℕ, ◌+◌, ◌%◌, ◌^◌, ◌≤◌, ◌<◌, ◌≡◌, refl, Bool, true, arith, none, some, List, [], ◌∷◌,
  if◌then◌else◌, subst, sym,
}
use os_qemu.Prelude.Errors.{ok, panic, err, inval}
use os_qemu.Mm.Vma.{
  Vma, Mm, contains, search_list, find_vma, map_range, mm_map, round_down, round_up, user_access,
}
use os_qemu.Mm.Vma.Order.{Member, MmInv}
use os_qemu.Mm.Vma.Find.{find_vma_lem, search_list-contains}
use os_qemu.Mm.Vma.Insert.{IsApart, Overlap, insert_vma_struct_lem, insert_vma_struct-Overlap}

-- The pages of a range of addresses that does not wrap.
pub range_pages :
    (addr len : ℕ)
    → addr + len + 4096 < 2 ^ 64
    → (round_down addr ≤ addr)
      × (addr < round_down addr + 4096)
      × (addr + len ≤ round_up ((addr + len) % 2 ^ 64))
      × (round_up ((addr + len) % 2 ^ 64) < addr + len + 4096)
range_pages addr len h = omega arith

abbrev pub area : ℕ → ℕ → ℕ → Vma
area addr len flags = record {
  vm_start = round_down addr;
  vm_end = round_up ((addr + len) % 2 ^ 64);
  vm_flags = flags;
}

apart_none :
    (v : Vma) (vs : List Vma) (addr : ℕ)
    → IsApart v vs
    → contains v addr ≡ true
    → search_list vs addr ≡ none
unfolding search_list
apart_none v [] addr a c = refl
apart_none v (w ∷ ws) addr a c = ground (arith, apart_none v ws addr a.1)

-- A range of user addresses whose pages overlap no area: with memory for it, `mm_map` maps them. An
-- address of those pages is then found in the new area and every other one where it was.
pub mm_map_free :
    (mm : Mm) (addr len flags : ℕ)
    → MmInv mm
    → user_access (round_down addr) (round_up ((addr + len) % 2 ^ 64)) ≡ true
    → IsApart (area addr len flags) mm.mmap_list
    → (mm' : Mm) × (mm_map mm addr len flags true ≡ (mm', ok (area addr len flags)))
      × MmInv mm'
      × ((a : ℕ)
          → search_list mm'.mmap_list a ≡ (
              if contains (area addr len flags) a
              then some (area addr len flags)
              else search_list mm.mmap_list a))
unfolding mm_map map_range
mm_map_free mm addr len flags h u a =
    let v = area addr len flags in
    let start = round_down addr in
    let found = find_vma_lem mm start h in
    let free : search_list mm.mmap_list start ≡ none =
      apart_none v mm.mmap_list start a (ground arith) in
    let new =
      insert_vma_struct_lem (find_vma mm start).1 v found.2 (ground arith)
        (subst (IsApart v) (sym found.1) a) in
    (new.0, ground (arith, found.0, free, new.1), new.2, λ b. rw (← found.1) (new.3 b))

-- A range that starts in an area is refused and the areas stay.
pub mm_map_busy :
    (mm : Mm) (addr len flags : ℕ) (room : Bool) (v : Vma)
    → MmInv mm
    → user_access (round_down addr) (round_up ((addr + len) % 2 ^ 64)) ≡ true
    → search_list mm.mmap_list (round_down addr) ≡ some v
    → ((mm_map mm addr len flags room).1 ≡ err inval)
      × ((mm_map mm addr len flags room).0.mmap_list ≡ mm.mmap_list)
unfolding mm_map map_range
mm_map_busy mm addr len flags room v h u e = ground (
  arith,
  find_vma_lem mm (round_down addr) h,
  search_list-contains (round_down addr) mm.mmap_list v,
)

-- A range of user space that starts in no area and still runs into one stops the kernel, once there is
-- memory for the new area, instead of being refused; the areas of the process are in order.
pub mm_map_panics :
    (mm : Mm) (addr len flags : ℕ) (w : Vma)
    → MmInv mm
    → user_access (round_down addr) (round_up ((addr + len) % 2 ^ 64)) ≡ true
    → search_list mm.mmap_list (round_down addr) ≡ none
    → Member w mm.mmap_list
    → Overlap (area addr len flags) w
    → (mm_map mm addr len flags true).1 ≡ panic
unfolding mm_map map_range
mm_map_panics mm addr len flags w h u e m o =
    let (hit, list, inv) = find_vma_lem mm (round_down addr) h in
    ground (
      arith,
      hit,
      insert_vma_struct-Overlap (find_vma mm (round_down addr)).1 (area addr len flags) w inv
          (subst (Member w) (sym list) m) o,
    )
