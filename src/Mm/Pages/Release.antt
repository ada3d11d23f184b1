-- ===== src/Mm/Pages/Release.antt =====
-- `default_free_pages` on a block that lies above every block of the free list.
use os_qemu.Prelude.{
  ℕ, zero, suc, ◌+◌, ◌<◌, ◌≡◌, ◌≢◌, refl, true, false, some, List, [], ◌∷◌, ◌++◌, length, arith,
}
use os_qemu.Libs.Dlist.{list_del}
use os_qemu.Libs.Dlist.Ring.{Fresh, IsRing}
use os_qemu.Mm.Pages.{
  Page, FreeArea, set_page, release_pages, head_block, merge_left, merge_right, default_free_pages,
}
use os_qemu.Mm.Pages.Insert.{AllBelow, link_block-end}

pub release_pages-below :
    (n p z : ℕ) (pages pages' : ℕ → Page)
    → z < p
    → release_pages n p pages ≡ some pages'
    → pages' z ≡ pages z
unfolding release_pages
release_pages-below zero p z pages pages' lt h = ground arith
release_pages-below (suc n) p z pages pages' lt h =
    let next = set_page pages p (record (pages p) { ref = 0; reserved = false; is_head = false }) in
    ground (arith, release_pages-below n (p + 1) z next pages' (omega arith))

-- A block that is its own `list_prev` is joined to nothing.
merge_left_self :
    (base : ℕ) (a : FreeArea)
    → a.free_list.prev base ≡ base
    → (a.pages base).property ≢ 0
    → merge_left base a ≡ (base, a)
unfolding merge_left
merge_left_self base a h n = ground arith

merge_right-last : (base : ℕ) (a : FreeArea) → a.free_list.next base ≡ 0 → merge_right base a ≡ a
unfolding merge_right
merge_right-last base a h = ground arith

head_block-base : (base n : ℕ) (pages : ℕ → Page) → (head_block base n pages base).property ≡ n
head_block-base base n pages = ground arith

module _ (f base n z : ℕ) (xs : List ℕ) (a : FreeArea) (pages : ℕ → Page)
    (ring : IsRing a.free_list 0 (xs ++ z ∷ [])) (z_ne : z ≢ 0) (base_ne : base ≢ 0)
    (fresh : Fresh 0 xs) (below : AllBelow base xs) (above : z < base) (fuel : length xs + 2 < f)
    (n_ne : n ≢ 0) (released : release_pages n base a.pages ≡ some pages) where
  -- A released block that lies above all blocks of a free list that is not empty is not joined to the
  -- last of them, `z`, even where it begins at the page at which `z` ends: `z` keeps its length and
  -- the block stands behind it as one of its own. Nor can `list_del` take it out again.
  pub default_free_pages-unmerged :
      (b : FreeArea) × (default_free_pages f base n a ≡ some b)
      × ((b.pages z).property ≡ (a.pages z).property)
      × ((b.pages base).property ≡ n)
      × ((b.pages base).is_head ≡ true)
      × (b.free_list.next z ≡ base)
      × ((list_del b.free_list base).next z ≡ base)
      × (b.nr_free ≡ a.nr_free + n)
  unfolding default_free_pages
  default_free_pages-unmerged =
      let (l, e, p, o, u, d) =
        link_block-end f base a.free_list xs z ring z_ne base_ne fresh below above fuel in
      let kept = release_pages-below n base z a.pages pages above released in
      let b : FreeArea = record {
        pages = head_block base n pages;
        free_list = l;
        nr_free = a.nr_free + n;
      } in
      let left = merge_left_self base b p (rw (head_block-base base n pages) n_ne) in
      let right = merge_right-last base b u in
      (
        b,
        ground (arith, e, left, right),
        ground (arith, kept),
        head_block-base base n pages,
        ground arith,
        o,
        d,
        refl,
      )
