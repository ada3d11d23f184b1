-- ===== src/Mm/Vma/Insert.antt =====
-- `insert_vma_struct` of kern/mm/vmm.c.
use os_qemu.Prelude.{
  ℕ, suc, ◌+◌, ◌≤◌, ◌<◌, ◌≡◌, refl, true, ltb, ◌&&◌, arith, Option, none, some, List, [], ◌∷◌,
  length, ◌⊎◌, inl, inr, if◌then◌else◌, Bool-cases,
}
use os_qemu.Prelude.Errors.{Result, ok, panic, err, ◌>>=◌}
use os_qemu.Mm.Vma.{
  Vma, Mm, contains, search_list, insert_behind, check_after, fits_before, insert_vma_struct,
}
use os_qemu.Mm.Vma.Order.{IsSorted, Member, CacheIn, MmInv}

-- The area shares no address with any of the list.
abbrev pub IsApart : Vma → List Vma → Type 0
IsApart v [] = Unit {0}
IsApart v (w ∷ ws) = ((v.vm_end ≤ w.vm_start) ⊎ (w.vm_end ≤ v.vm_start)) × IsApart v ws

-- The list with the area before the first that starts behind it.
unfoldable pub place : Vma → List Vma → List Vma
place v [] = v ∷ []
place v (n ∷ ns) = if ltb v.vm_start n.vm_start then v ∷ n ∷ ns else n ∷ place v ns

abbrev end_of : Option Vma → ℕ
end_of none = 0
end_of (some v) = v.vm_end

abbrev IsProper : Option Vma → Type 0
IsProper none = Unit {0}
IsProper (some v) = v.vm_start < v.vm_end

insert_behind-place :
    (prev : Option Vma) (v : Vma) (vs : List Vma)
    → IsProper prev
    → end_of prev ≤ v.vm_start
    → v.vm_start < v.vm_end
    → IsSorted (end_of prev) vs
    → IsApart v vs
    → insert_behind prev v vs ≡ ok (place v vs)
unfolding insert_behind place
insert_behind-place none v [] p h n s a = refl
insert_behind-place (some w) v [] p h n s a = ground arith
insert_behind-place none v (x ∷ xs) p h n s a =
    ground (arith, insert_behind-place (some x) v xs s.1)
insert_behind-place (some w) v (x ∷ xs) p h n s a =
    ground (arith, insert_behind-place (some x) v xs s.1)

place-IsSorted :
    (lo : ℕ) (v : Vma) (vs : List Vma)
    → lo ≤ v.vm_start
    → v.vm_start < v.vm_end
    → IsSorted lo vs
    → IsApart v vs
    → IsSorted lo (place v vs)
unfolding place
place-IsSorted lo v [] h n s a = (h, n, tt)
place-IsSorted lo v (x ∷ xs) h n s a = ground (arith, place-IsSorted x.vm_end v xs)

length-place : (v : Vma) (vs : List Vma) → length (place v vs) ≡ suc (length vs)
unfolding place
length-place v [] = refl
length-place v (x ∷ xs) = ground (arith, length-place v xs)

Member-place : (v w : Vma) (vs : List Vma) → Member w vs → Member w (place v vs)
unfolding place
Member-place v w [] m = elim m [ ]
Member-place v w (x ∷ xs) m = elim (Bool-cases (ltb v.vm_start x.vm_start)) [
  | inl e ↦ rw e (inr m)
  | inr e ↦ rw e (elim m [ inl q ↦ inl q | inr r ↦ inr (Member-place v w xs r) ])
]

CacheIn-place : (v : Vma) (c : Option Vma) (vs : List Vma) → CacheIn c vs → CacheIn c (place v vs)
CacheIn-place v none vs h = tt
CacheIn-place v (some w) vs h = Member-place v w vs h

search_list-place :
    (v : Vma) (vs : List Vma) (addr : ℕ)
    → IsApart v vs
    → search_list (place v vs) addr ≡ (if contains v addr then some v else search_list vs addr)
unfolding place search_list
search_list-place v [] addr a = refl
search_list-place v (x ∷ xs) addr a = ground (arith, search_list-place v xs addr)

-- An area that overlaps none is inserted: the areas stay in order, an address of the new one is
-- found in it, and every other address where it was.
pub insert_vma_struct_lem :
    (mm : Mm) (v : Vma)
    → MmInv mm
    → v.vm_start < v.vm_end
    → IsApart v mm.mmap_list
    → (mm' : Mm) × (insert_vma_struct mm v ≡ ok mm')
      × MmInv mm'
      × ((addr : ℕ)
          → search_list mm'.mmap_list addr
            ≡ (if contains v addr then some v else search_list mm.mmap_list addr))
unfolding insert_vma_struct
insert_vma_struct_lem mm v h n a = (
  record mm { mmap_list = place v mm.mmap_list; map_count = mm.map_count + 1 },
  ground (arith, insert_behind-place none v mm.mmap_list tt (omega arith) n h.sorted a),
  record {
    sorted = place-IsSorted 0 v mm.mmap_list (omega arith) n h.sorted a;
    cached = CacheIn-place v mm.mmap_cache mm.mmap_list h.cached;
    counted = omega (arith, h.counted, length-place v mm.mmap_list);
  },
  λ addr. search_list-place v mm.mmap_list addr a,
)

IsApart-before : (v : Vma) (lo : ℕ) (vs : List Vma) → v.vm_end ≤ lo → IsSorted lo vs → IsApart v vs
IsApart-before v lo [] h s = tt
IsApart-before v lo (x ∷ xs) h s =
    (inl (omega arith), IsApart-before v x.vm_end xs (omega arith) s.2)

-- What an insertion that does not stop the kernel says of the areas.
abbrev Passed : Option Vma → Vma → List Vma → Result (List Vma) → Type 0
Passed prev v vs (ok ws) = (end_of prev ≤ v.vm_start) × IsApart v vs
Passed prev v vs (err e) = ⊥
Passed prev v vs panic = Unit

Passed-step :
    (prev : Option Vma) (v n : Vma) (ns : List Vma) (r : Result (List Vma))
    → end_of prev ≤ n.vm_start
    → n.vm_start ≤ v.vm_start
    → Passed (some n) v ns r
    → Passed prev v (n ∷ ns) (r >>= λ rest. ok (n ∷ rest))
Passed-step prev v n ns (ok ws) h k p = (omega arith, (inr p.0, p.1))
Passed-step prev v n ns (err e) h k p = p
Passed-step prev v n ns panic h k p = p

insert_behind-Passed :
    (prev : Option Vma) (v : Vma) (vs : List Vma)
    → IsSorted (end_of prev) vs
    → Passed prev v vs (insert_behind prev v vs)
unfolding insert_behind
insert_behind-Passed none v [] s = (omega arith, tt)
insert_behind-Passed (some w) v [] s = elim (Bool-cases (fits_before w v)) [
  | inl e ↦ rw e (ground arith, tt)
  | inr e ↦ rw e tt
]
insert_behind-Passed prev v (n ∷ ns) s = elim (Bool-cases (ltb v.vm_start n.vm_start)) [
  | inl e ↦ rw e (elim (Bool-cases (check_after prev v && fits_before v n)) [
    | inl c ↦ rw c (stop prev c)
    | inr c ↦ rw c tt
  ])
  | inr e ↦ rw e (
      Passed-step prev v n ns (insert_behind (some n) v ns) s.0 (ground arith)
        (insert_behind-Passed (some n) v ns s.2))
]
  where
    stop :
        (prev : Option Vma)
        → (check_after prev v && fits_before v n) ≡ true
        → (end_of prev ≤ v.vm_start) × IsApart v (n ∷ ns)
    stop none c =
        (omega arith, (inl (ground arith), IsApart-before v n.vm_end ns (ground arith) s.2))
    stop (some w) c =
        (ground arith, (inl (ground arith), IsApart-before v n.vm_end ns (ground arith) s.2))

apart-Member :
    (v w : Vma) (vs : List Vma)
    → IsApart v vs
    → Member w vs
    → (v.vm_end ≤ w.vm_start) ⊎ (w.vm_end ≤ v.vm_start)
apart-Member v w [] a m = elim m [ ]
apart-Member v w (x ∷ xs) a (inl e) = ground arith
apart-Member v w (x ∷ xs) a (inr m) = apart-Member v w xs a.1 m

abbrev pub Overlap : Vma → Vma → Type 0
Overlap v w = (w.vm_start < v.vm_end) × (v.vm_start < w.vm_end)

Passed-none :
    (v w : Vma) (vs : List Vma) (r : Result (List Vma))
    → Member w vs
    → Overlap v w
    → Passed none v vs r
    → r ≡ panic
Passed-none v w vs (ok ws) m o p = absurd (omega (arith, apart-Member v w vs p.1 m))
Passed-none v w vs (err e) m o p = elim p [ ]
Passed-none v w vs panic m o p = refl

-- An area that shares an address with one of the list stops the kernel.
pub insert_vma_struct-Overlap :
    (mm : Mm) (v w : Vma)
    → MmInv mm
    → Member w mm.mmap_list
    → Overlap v w
    → insert_vma_struct mm v ≡ panic
unfolding insert_vma_struct
insert_vma_struct-Overlap mm v w h m o = ground (
  arith,
  Passed-none v w mm.mmap_list (insert_behind none v mm.mmap_list) m o
      (insert_behind-Passed none v mm.mmap_list h.sorted),
)
