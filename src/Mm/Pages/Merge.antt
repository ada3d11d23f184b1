-- ===== src/Mm/Pages/Merge.antt =====
-- `default_free_pages` of kern/mm/default_pmm.c on a block that lies before another free one.
use os_qemu.Prelude.{
  ℕ, ◌+◌, ◌<◌, ◌≡◌, ◌≢◌, refl, sym, ◌∙◌, subst, ◌==◌, not, ◌&&◌, Bool, true, false, if◌then◌else◌,
  some, List, [], ◌∷◌, ◌++◌, append_assoc, length, arith,
}
use os_qemu.Libs.Dlist.{list_del}
use os_qemu.Libs.Dlist.Ring.{IsRing, Fresh, last_of, Fresh-last_of, Fresh-left, links_at}
use os_qemu.Libs.Dlist.Delete.{list_del-IsRing, links_of}
use os_qemu.Mm.Pages.{
  Page, FreeArea, release_pages, head_block, join_blocks, merge_left, merge_right,
  default_free_pages,
}
use os_qemu.Mm.Pages.Joined.{joined_left, joined_right, Joined, joined_right-Joined}
use os_qemu.Mm.Pages.Insert.{AllBelow, link_block-IsRing}
use os_qemu.Mm.Pages.Release.{release_pages-below}

-- Whether the last block of `xs` ends at `base`.
abbrev pub ends_at : (ℕ → Page) → List ℕ → ℕ → Bool
ends_at pages xs base = let p = last_of 0 xs in not (p == 0) && (p + (pages p).property == base)

-- The free list once `base` has been joined to the block before it and to the one behind it.
abbrev pub joined : List ℕ → ℕ → ℕ → List ℕ → Bool → Bool → List ℕ
joined xs base y ys left right =
    let rest = if right then ys else y ∷ ys in xs ++ (if left then rest else base ∷ rest)

module _ (block y : ℕ) (c : FreeArea) where
  merge_right-joins :
      c.free_list.next block ≡ y
      → y ≢ 0
      → (block + (c.pages block).property == y) ≡ true
      → (merge_right block c).free_list ≡ list_del c.free_list y
  unfolding merge_right
  merge_right-joins e n h = ground arith

  merge_right-apart :
      c.free_list.next block ≡ y
      → (block + (c.pages block).property == y) ≡ false
      → (merge_right block c).free_list ≡ c.free_list
  unfolding merge_right
  merge_right-apart e h = ground arith

  merge_right-pages :
      c.free_list.next block ≡ y
      → y ≢ 0
      → (block + (c.pages block).property == y) ≡ true
      → (merge_right block c).pages ≡ join_blocks block y c.pages
  unfolding merge_right
  merge_right-pages e n h = rw (e, h, (let m : (y == 0) ≡ false = ground arith in m)) refl

  merge_right-pages_apart :
      c.free_list.next block ≡ y
      → (block + (c.pages block).property == y) ≡ false
      → (merge_right block c).pages ≡ c.pages
  unfolding merge_right
  merge_right-pages_apart e h = ground arith

  merge_right-nr_free : (merge_right block c).nr_free ≡ c.nr_free
  unfolding merge_right
  merge_right-nr_free = ground arith

  merge_right-joined :
      (right : Bool)
      → c.free_list.next block ≡ y
      → y ≢ 0
      → (block + (c.pages block).property == y) ≡ right
      → (merge_right block c).pages ≡ joined_right (block, c.pages) y right
  merge_right-joined true e n h = merge_right-pages e n h
  merge_right-joined false e n h = merge_right-pages_apart e h

  -- The block stands before `y`.
  merge_right-IsRing :
      (zs ys : List ℕ)
      → IsRing c.free_list 0 (zs ++ y ∷ ys)
      → c.free_list.next block ≡ y
      → y ≢ 0
      → (right : Bool) → (block + (c.pages block).property == y) ≡ right
      → IsRing (merge_right block c).free_list 0 (zs ++ (if right then ys else y ∷ ys))
  merge_right-IsRing zs ys r e n true h =
      rw (merge_right-joins e n h) (list_del-IsRing c.free_list 0 y zs ys r)
  merge_right-IsRing zs ys r e n false h = rw (merge_right-apart e h) r

module _ (base y : ℕ) (xs ys : List ℕ) (c : FreeArea)
    (ring : IsRing c.free_list 0 (xs ++ base ∷ y ∷ ys)) (y_ne : y ≢ 0) (base_ne : base ≢ 0)
    (fresh : Fresh base xs) where
  abbrev p : ℕ
  p = last_of 0 xs

  abbrev merged : FreeArea
  merged = record c { pages = join_blocks p base c.pages; free_list = list_del c.free_list base }

  merge_left-joins : ends_at c.pages xs base ≡ true → merge_left base c ≡ (p, merged)
  unfolding merge_left
  merge_left-joins e =
      let prev = (links_of c.free_list 0 xs (y ∷ ys) 0 base ring.links).0 in ground (arith, prev)

  merge_left-apart : ends_at c.pages xs base ≡ false → merge_left base c ≡ (base, c)
  unfolding merge_left
  merge_left-apart e =
      let prev = (links_of c.free_list 0 xs (y ∷ ys) 0 base ring.links).0 in ground (arith, prev)

  merged_property : (merged.pages p).property ≡ (c.pages p).property + (c.pages base).property
  merged_property =
      let n = Fresh-last_of base 0 xs (λ e. base_ne (sym e)) fresh in ground (arith, n)

  merge-IsRing :
      (left right : Bool)
      → ends_at c.pages xs base ≡ left
      → (base + (c.pages base).property == y) ≡ right
      → IsRing
          (merge_right (merge_left base c).0 (merge_left base c).1).free_list
          0
          (joined xs base y ys left right)
  merge-IsRing true right e h =
      let rest = list_del-IsRing c.free_list 0 base xs (y ∷ ys) ring in
      let next = (links_at (list_del c.free_list base) 0 xs (y ∷ ys) 0 rest.links).0 in
      let at : p + (c.pages p).property ≡ base = ground (arith, e) in
      let reach : base + (c.pages base).property ≡ p + (merged.pages p).property =
        omega (arith, at, merged_property) in
      rw (merge_left-joins e) (
        merge_right-IsRing p y merged xs ys rest next y_ne right
          (subst (λ z. (z == y) ≡ right) reach h))
  merge-IsRing false right e h =
      let next = (links_of c.free_list 0 xs (y ∷ ys) 0 base ring.links).1 in
      let before = xs ++ base ∷ [] in
      let ring' = subst (IsRing c.free_list 0) (sym (append_assoc xs (base ∷ []) (y ∷ ys))) ring in
      rw (merge_left-apart e) (
        subst (IsRing (merge_right base c).free_list 0)
          (append_assoc xs (base ∷ []) (if right then ys else y ∷ ys))
          (merge_right-IsRing base y c before ys ring' next y_ne right h))

  merge-pages :
      (left right : Bool)
      → ends_at c.pages xs base ≡ left
      → (base + (c.pages base).property == y) ≡ right
      → (merge_right (merge_left base c).0 (merge_left base c).1).pages
        ≡ joined_right (joined_left c.pages p base left) y right
  merge-pages true right e h =
      let rest = list_del-IsRing c.free_list 0 base xs (y ∷ ys) ring in
      let next = (links_at (list_del c.free_list base) 0 xs (y ∷ ys) 0 rest.links).0 in
      let at : p + (c.pages p).property ≡ base = ground (arith, e) in
      let reach : base + (c.pages base).property ≡ p + (merged.pages p).property =
        omega (arith, at, merged_property) in
      rw (merge_left-joins e)
        (merge_right-joined p y merged right next y_ne (subst (λ z. (z == y) ≡ right) reach h))
  merge-pages false right e h =
      let next = (links_of c.free_list 0 xs (y ∷ ys) 0 base ring.links).1 in
      rw (merge_left-apart e) (merge_right-joined base y c right next y_ne h)

  merge_left-nr_free : (merge_left base c).1.nr_free ≡ c.nr_free
  unfolding merge_left
  merge_left-nr_free = ground arith

last_of-below : (base a : ℕ) (xs : List ℕ) → a < base → AllBelow base xs → last_of a xs < base
last_of-below base a [] h b = h
last_of-below base a (x ∷ xs) h b = last_of-below base x xs b.0 b.1

-- Freeing released pages that lie before a free block and behind all blocks before it: no assertion
-- fails and the search for their place comes to an end. The pages become a block in their place, joined
-- to the block before it if that ends where they begin, and to the one behind if that begins where they
-- end: the descriptor of the joined block has the number of all its pages, and those of the blocks that
-- are joined to one before them are no heads any more; any other descriptor is as the release of the
-- pages leaves it. The free list stays whole and in order, and the count of free pages grows by the
-- released ones.
pub default_free_pages-IsRing :
    (f base n y : ℕ) (xs ys : List ℕ) (a : FreeArea) (pages : ℕ → Page)
    → IsRing a.free_list 0 (xs ++ y ∷ ys)
    → y ≢ 0
    → base ≢ 0
    → Fresh 0 xs
    → Fresh base (xs ++ y ∷ ys)
    → AllBelow base xs
    → base < y
    → length xs < f
    → n ≢ 0
    → release_pages n base a.pages ≡ some pages
    → (b : FreeArea) × (default_free_pages f base n a ≡ some b)
      × IsRing b.free_list 0 (joined xs base y ys (ends_at a.pages xs base) (base + n == y))
      × (b.nr_free ≡ a.nr_free + n)
      × Joined pages b.pages (last_of 0 xs) base n y (ends_at a.pages xs base) (base + n == y)
unfolding default_free_pages
default_free_pages-IsRing f base n y xs ys a pages r yn bn z fresh below above lt nn rel =
    let (l, linked, ring) =
      link_block-IsRing f base a.free_list xs y ys r yn bn z fresh below above lt in
    let c : FreeArea = record {
      pages = head_block base n pages;
      free_list = l;
      nr_free = a.nr_free + n;
    } in
    let low = last_of-below base 0 xs (omega arith) below in
    let kept = release_pages-below n base (last_of 0 xs) a.pages pages low rel in
    let same : ends_at c.pages xs base ≡ ends_at a.pages xs base = ground (arith, kept, low) in
    let own : (c.pages base).property ≡ n = ground arith in
    let fresh' = Fresh-left base xs (y ∷ ys) fresh in
    let whole =
      merge-IsRing base y xs ys c ring yn bn fresh' (ends_at a.pages xs base) (base + n == y) same
        (rw own refl) in
    let described =
      merge-pages base y xs ys c ring yn bn fresh' (ends_at a.pages xs base) (base + n == y) same
        (rw own refl) in
    (
      merge_right (merge_left base c).0 (merge_left base c).1,
      ground (arith, linked, rel),
      whole,
      merge_right-nr_free (merge_left base c).0 y (merge_left base c).1
          ∙ merge_left-nr_free base y xs ys c ring yn bn fresh',
      subst (λ b. Joined pages b (last_of 0 xs) base n y (ends_at a.pages xs base) (base + n == y))
          (sym described)
          (joined_right-Joined pages (last_of 0 xs) base n y (ends_at a.pages xs base)
            (base + n == y) low above),
    )
