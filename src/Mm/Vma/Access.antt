-- ===== src/Mm/Vma/Access.antt =====
-- `user_mem_check` of kern/mm/vmm.c.
use os_qemu.Prelude.{
  ℕ, zero, suc, ◌+◌, ◌-◌, ◌%◌, ◌^◌, ◌≤◌, ◌<◌, ◌≡◌, refl, Bool, true, false, ltb, ◌||◌, arith,
  Option, none, some, List, inl, inr, Option-cases, ap, Bool-cases, not, subst, sym, ◌∙◌, dec_lt,
}
use os_qemu.Mm.Vma.{
  Vma, Mm, search_list, find_vma, check_range, permits, hits_guard, vm_stack, pgsize,
  user_mem_check, user_access,
}
use os_qemu.Mm.Vma.Order.{IsSorted, MmInv, Member-search_list}
use os_qemu.Mm.Vma.Find.{find_vma_lem, search_list-contains, search_list-Member}

-- The address lies in an area that permits the access, and behind the guard page at its start where
-- the area is a stack and the access a write.
abbrev pub IsAllowed : List Vma → Bool → ℕ → Type 0
IsAllowed vs write a =
    (v : Vma) × (search_list vs a ≡ some v)
    × (permits write v ≡ true)
    × (write ≡ true → vm_stack v.vm_flags ≡ true → v.vm_start + pgsize ≤ a)

-- A check that comes to an end: if it says yes, every address is allowed.
abbrev pub Sound : List Vma → Bool → ℕ → ℕ → Option (Bool × Mm) → Type 0
Sound vs write start end none = ⊥
Sound vs write start end (some (false, mm)) = (mm.mmap_list ≡ vs) × MmInv mm
Sound vs write start end (some (true, mm)) =
    (mm.mmap_list ≡ vs) × MmInv mm × ((a : ℕ) → start ≤ a → a < end → IsAllowed vs write a)

-- The addresses of one area are found in it.
found_through :
    (vs : List Vma) (v : Vma) (start a : ℕ)
    → IsSorted 0 vs
    → search_list vs start ≡ some v
    → start ≤ a
    → a < v.vm_end
    → search_list vs a ≡ some v
found_through vs v start a s e h k =
    let c = search_list-contains start vs v e in
    Member-search_list v 0 a vs s (search_list-Member start vs v e) (ground arith)

Sound-extend :
    (vs : List Vma) (write : Bool) (start end : ℕ) (v : Vma) (r : Option (Bool × Mm))
    → IsSorted 0 vs
    → search_list vs start ≡ some v
    → permits write v ≡ true
    → (write ≡ true → vm_stack v.vm_flags ≡ true → v.vm_start + pgsize ≤ start)
    → Sound vs write v.vm_end end r
    → Sound vs write start end r
Sound-extend vs write start end v none s e p g h = h
Sound-extend vs write start end v (some (false, mm)) s e p g h = h
Sound-extend vs write start end v (some (true, mm)) s e p g h = (
  h.0,
  h.1,
  λ a lo hi. elim (dec_lt a v.vm_end) [
    | yes q ↦ (v, found_through vs v start a s e lo q, p, λ t k. let low = g t k in omega arith)
    | no q ↦ h.2 a (omega arith) hi
  ],
)

-- The guard of an area that is not hit at `start`.
past_guard :
    (write : Bool) (start : ℕ) (v : Vma)
    → hits_guard write start v ≡ false
    → write ≡ true
    → vm_stack v.vm_flags ≡ true
    → v.vm_start + pgsize ≤ start
past_guard write start v miss t k = ground arith

check_range-Sound :
    (f : ℕ) (mm : Mm) (vs : List Vma) (write : Bool) (start end : ℕ)
    → mm.mmap_list ≡ vs
    → MmInv mm
    → end - start < f
    → Sound vs write start end (check_range f mm write start end)
unfolding check_range
check_range-Sound zero mm vs write start end e h lt = elim lt [ ]
check_range-Sound (suc f) mm vs write start end e h lt =
    let found = find_vma_lem mm start h in
    let list = found.1 ∙ e in
    let hit = found.0 ∙ ap (λ l. search_list l start) e in
    elim (Bool-cases (ltb start end)) [
      | inr done ↦ rw done (e, h, λ a p q. absurd (ground arith))
      | inl more ↦ rw more (elim (Option-cases (search_list vs start)) [
        | inl miss ↦ rw (hit ∙ miss) (list, found.2)
        | inr (v, here) ↦
            let c = search_list-contains start vs v here in
            rw (hit ∙ here) (elim (Bool-cases (ltb start v.vm_start)) [
              | inl b ↦ rw b (list, found.2)
              | inr b ↦
                  rw b (elim (Bool-cases (not (permits write v) || hits_guard write start v)) [
                    | inl n ↦ rw n (list, found.2)
                    | inr n ↦ rw n (
                        Sound-extend vs write start end v _ (subst (IsSorted 0) e h.sorted) here
                          (ground arith) (past_guard write start v (ground arith))
                          (check_range-Sound f (find_vma mm start).1 vs write v.vm_end end list
                            found.2 (ground arith)))
                  ])
            ])
      ])
    ]

-- The outcome of a check of a process with areas.
abbrev pub Checked : List Vma → ℕ → ℕ → Bool → Option (Bool × Option Mm) → Type 0
Checked vs addr len write (some (false, some mm)) = (mm.mmap_list ≡ vs) × MmInv mm
Checked vs addr len write (some (true, some mm)) =
    (mm.mmap_list ≡ vs)
    × MmInv mm
    × (user_access addr ((addr + len) % 2 ^ 64) ≡ true)
    × ((a : ℕ) → addr ≤ a → a < addr + len → IsAllowed vs write a)
Checked vs addr len write (some (b, none)) = ⊥
Checked vs addr len write none = ⊥

Checked-Sound :
    (vs : List Vma) (addr len : ℕ) (write : Bool) (r : Option (Bool × Mm))
    → addr + len < 2 ^ 64
    → user_access addr ((addr + len) % 2 ^ 64) ≡ true
    → Sound vs write addr ((addr + len) % 2 ^ 64) r
    → Checked vs addr len write (elim r [ none ↦ none | some (b, mm') ↦ some (b, some mm') ])
Checked-Sound vs addr len write none n u h = h
Checked-Sound vs addr len write (some (false, mm)) n u h = h
Checked-Sound vs addr len write (some (true, mm)) n u h =
    (h.0, h.1, u, λ a lo hi. h.2 a lo (omega arith))

-- The check of a range that does not wrap past 2 ^ 64, for a process whose areas are sorted and
-- apart, comes to an end, and leaves the areas as they are. Where it says yes, the range lies in user
-- space, and each of its addresses lies in an area that permits the access and, for a write to a stack,
-- a page or more behind the start of that area.
pub user_mem_check-Checked :
    (mm : Mm) (addr len : ℕ) (write : Bool)
    → MmInv mm
    → addr + len < 2 ^ 64
    → Checked mm.mmap_list addr len write (user_mem_check (some mm) addr len write)
unfolding user_mem_check
user_mem_check-Checked mm addr len write h n =
    elim (Bool-cases (user_access addr ((addr + len) % 2 ^ 64))) [
      | inr out ↦ rw out (refl, h)
      | inl u ↦ rw u (
          Checked-Sound mm.mmap_list addr len write _ n u (
            check_range-Sound _ mm mm.mmap_list write addr ((addr + len) % 2 ^ 64) refl h
              (omega arith)))
    ]

abbrev pub SaysYes {ℓ} : {A : Type ℓ} → Option (Bool × A) → Type 0
SaysYes none = ⊥
SaysYes (some (false, x)) = ⊥
SaysYes (some (true, x)) = Unit {0}

check_range-SaysYes :
    (f : ℕ) (mm : Mm) (start end : ℕ)
    → MmInv mm
    → end - start < f
    → ((a : ℕ) → start ≤ a → a < end → IsAllowed mm.mmap_list false a)
    → SaysYes (check_range f mm false start end)
unfolding check_range
check_range-SaysYes zero mm start end h lt all = elim lt [ ]
check_range-SaysYes (suc f) mm start end h lt all =
    let found = find_vma_lem mm start h in
    elim (Bool-cases (ltb start end)) [
      | inr done ↦ rw done tt
      | inl more ↦
          let (v, here, p, g) = all start (omega arith) (ground arith) in
          let c = search_list-contains start mm.mmap_list v here in
          let late : ltb start v.vm_start ≡ false = ground arith in
          rw (more, (found.0 ∙ here), late, p)
            (check_range-SaysYes f (find_vma mm start).1 v.vm_end end found.2 (ground arith)
              (λ a lo hi. subst (λ l. IsAllowed l false a) (sym found.1) (all a (ground arith) hi)))
    ]

-- A range of user space each of whose addresses lies in a readable area passes the check for reads.
pub user_mem_check-SaysYes :
    (mm : Mm) (addr len : ℕ)
    → MmInv mm
    → addr + len < 2 ^ 64
    → user_access addr (addr + len) ≡ true
    → ((a : ℕ) → addr ≤ a → a < addr + len → IsAllowed mm.mmap_list false a)
    → SaysYes (user_mem_check (some mm) addr len false)
unfolding user_mem_check
user_mem_check-SaysYes mm addr len h n u all =
    let e : (addr + len) % 2 ^ 64 ≡ addr + len = omega arith in
    rw (e, u) (forward _ (check_range-SaysYes _ mm addr (addr + len) h (omega arith) all))
  where
    forward :
        (r : Option (Bool × Mm))
        → SaysYes r
        → SaysYes {A = Option Mm} (elim r [ none ↦ none | some (b, mm') ↦ some (b, some mm') ])
    forward none y = y
    forward (some (false, x)) y = y
    forward (some (true, x)) y = y
