-- ===== src/Mm/Pages/Take.antt =====
-- Taking pages from the front of a free block, in kern/mm/default_pmm.c and lab2's best_fit_pmm.c.
use os_qemu.Prelude.{
  ℕ, ◌+◌, ◌-◌, ◌≤◌, ◌≡◌, ◌≢◌, refl, ◌==◌, ltb, Bool, true, false, if◌then◌else◌, List, ◌∷◌, ◌++◌,
  arith, Bool-cases, inl, inr,
}
use os_qemu.Libs.Dlist.{list_del}
use os_qemu.Libs.Dlist.Ring.{IsRing, Fresh, list_add-IsRing}
use os_qemu.Libs.Dlist.Delete.{list_del-IsRing, links_of}
use os_qemu.Mm.Pages.{FreeArea, take_block}

take_block-list :
    (a : FreeArea) (page n : ℕ) (xs ys : List ℕ)
    → IsRing a.free_list 0 (xs ++ page ∷ ys)
    → Fresh (page + n) (xs ++ ys)
    → page ≢ 0
    → IsRing
        (take_block page n a).free_list
        0
        (xs ++ (if ltb n (a.pages page).property then (page + n) ∷ ys else ys))
unfolding take_block
take_block-list a page n xs ys r f ne =
    let whole = list_del-IsRing a.free_list 0 page xs ys r in
    let prev = (links_of a.free_list 0 xs ys 0 page r.links).0 in
    let added =
      (list_add-IsRing (list_del a.free_list page) 0 (page + n) xs ys whole (λ e. ne (omega arith))
        f).0 in
    elim (Bool-cases (ltb n (a.pages page).property)) [
      | inl e ↦ rw (e, prev) added
      | inr e ↦ rw e whole
    ]

-- The descriptor behind the pages that are taken.
abbrev pub Rest : FreeArea → ℕ → ℕ → FreeArea → Bool → Type 0
Rest a page n b true =
    ((b.pages (page + n)).property ≡ (a.pages page).property - n)
    × ((b.pages (page + n)).is_head ≡ true)
Rest a page n b false = b.pages (page + n) ≡ a.pages (page + n)

-- What is counted and described once `n` pages are taken from the block at `page`.
abbrev pub Taken : FreeArea → ℕ → ℕ → FreeArea → Type 0
Taken a page n b =
    (b.nr_free ≡ a.nr_free - n)
    × (b.pages page ≡ record (a.pages page) { is_head = false })
    × Rest a page n b (ltb n (a.pages page).property)
    × ((q : ℕ) → q ≢ page → q ≢ page + n → b.pages q ≡ a.pages q)

Rest-by :
    (a : FreeArea) (page n : ℕ) (longer : Bool)
    → n ≢ 0
    → ltb n (a.pages page).property ≡ longer
    → Rest a page n (take_block page n a) longer
unfolding take_block
Rest-by a page n true some_pages e =
    let apart : (page + n == page) ≡ false = ground arith in
    let here : (page + n == page + n) ≡ true = ground arith in rw (e, apart, here) (refl, refl)
Rest-by a page n false some_pages e =
    let apart : (page + n == page) ≡ false = ground arith in rw (e, apart) refl

take_block-Taken : (a : FreeArea) (page n : ℕ) → n ≢ 0 → Taken a page n (take_block page n a)
unfolding take_block
take_block-Taken a page n some_pages =
    let here : (page == page) ≡ true = ground arith in
    let apart : (page == page + n) ≡ false = ground arith in
    (
      refl,
      elim (Bool-cases (ltb n (a.pages page).property)) [
        | inl e ↦ rw (here, e, apart) refl
        | inr e ↦ rw (here, e) refl
      ],
      Rest-by a page n (ltb n (a.pages page).property) some_pages refl,
      λ q m m'.
          let q_page : (q == page) ≡ false = ground arith in
          let q_rest : (q == page + n) ≡ false = ground arith in
          elim (Bool-cases (ltb n (a.pages page).property)) [
            | inl e ↦ rw (q_page, e, q_rest) refl
            | inr e ↦ rw (q_page, e) refl
          ],
    )

-- Taking a number of pages that is not 0 from a block that has them. A block that is taken whole leaves
-- the free list; one that is longer leaves the pages behind the taken ones in its place, a block of the
-- number of pages that is left. The block itself is no head of a block any more, no other descriptor
-- changes, the count of free pages falls by the taken ones, and the list stays whole and in its order.
-- The page behind the taken ones is not in the list before.
pub take_block-IsRing :
    (a : FreeArea) (page n : ℕ) (xs ys : List ℕ)
    → IsRing a.free_list 0 (xs ++ page ∷ ys)
    → n ≤ (a.pages page).property
    → n ≢ 0
    → Fresh (page + n) (xs ++ ys)
    → page ≢ 0
    → IsRing
        (take_block page n a).free_list
        0
        (xs ++ (if ltb n (a.pages page).property then (page + n) ∷ ys else ys))
      × Taken a page n (take_block page n a)
take_block-IsRing a page n xs ys r le some_pages f ne =
    (take_block-list a page n xs ys r f ne, take_block-Taken a page n some_pages)
