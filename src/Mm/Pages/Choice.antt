-- ===== src/Mm/Pages/Choice.antt =====
-- Which block `default_alloc_pages` and `best_fit_alloc_pages` choose.
use os_qemu.Prelude.{
  ℕ, zero, suc, ◌+◌, ◌≤◌, ◌<◌, ◌≡◌, ◌≢◌, ◌⊎◌, inl, inr, refl, sym, ◌∙◌, ltb, leb, ◌&&◌, Option,
  some, List, [], ◌∷◌, length, arith, Bool-cases, subst,
}
use os_qemu.Libs.Dlist.Ring.{Linked, Fresh, IsRing}
use os_qemu.Mm.Pages.{FreeArea, best_fit, take_block, best_fit_alloc_pages}

-- Every block of the list that has `n` pages has `m`.
abbrev pub AtLeast : FreeArea → ℕ → ℕ → List ℕ → Type 0
AtLeast a n m [] = Unit {0}
AtLeast a n m (x ∷ xs) = ((a.pages x).property < n ⊎ (m ≤ (a.pages x).property)) × AtLeast a n m xs

abbrev pub In : ℕ → List ℕ → Type 0
In r [] = ⊥
In r (x ∷ xs) = (r ≡ x) ⊎ In r xs

-- The choice `r` among the blocks `xs`, where `page` of `min_size` is the best so far.
abbrev pub Best : FreeArea → ℕ → List ℕ → ℕ → ℕ → ℕ → Type 0
Best a n xs page min_size r =
    ((r ≡ page) × AtLeast a n min_size xs)
    ⊎ (In r xs
        × (n ≤ (a.pages r).property)
        × ((a.pages r).property < min_size)
        × AtLeast a n (a.pages r).property xs)

module _ (a : FreeArea) (n : ℕ) where
  better_head :
      (x r page min_size : ℕ) (xs : List ℕ)
      → n ≤ (a.pages x).property
      → (a.pages x).property < min_size
      → Best a n xs x (a.pages x).property r
      → Best a n (x ∷ xs) page min_size r
  better_head x r page min_size xs h h' (inl b) =
      subst (λ q. Best a n (x ∷ xs) page min_size q) (sym b.0)
        (inr (inl refl, h, h', (inr (omega arith), b.1)))
  better_head x r page min_size xs h h' (inr b) =
      inr (inr b.0, b.1, omega (arith, b.2), (inr (omega (arith, b.2)), b.3))

  worse_head :
      (x r page min_size : ℕ) (xs : List ℕ)
      → ((a.pages x).property < n) ⊎ (min_size ≤ (a.pages x).property)
      → Best a n xs page min_size r
      → Best a n (x ∷ xs) page min_size r
  worse_head x r page min_size xs h (inl b) = inl (b.0, (h, b.1))
  worse_head x r page min_size xs h (inr b) =
      inr (inr b.0, b.1, b.2, (elim h [ inl g ↦ inl g | inr g ↦ inr (omega (arith, b.2)) ], b.3))

  best_fit-Best :
      (f le page min_size : ℕ) (xs : List ℕ)
      → length xs < f
      → Linked a.free_list le xs 0
      → Fresh 0 xs
      → (r : ℕ) × (best_fit f n le page min_size a ≡ some r) × Best a n xs page min_size r
  unfolding best_fit
  best_fit-Best zero le page min_size xs lt l z = elim lt [ ]
  best_fit-Best (suc f) le page min_size [] lt l z = (page, ground (arith, l.0), inl (refl, tt))
  best_fit-Best (suc f) le page min_size (x ∷ xs) lt l z =
      elim (Bool-cases (leb n (a.pages x).property && ltb (a.pages x).property min_size)) [
        | inl e ↦
            let (r, run, b) = best_fit-Best f x x (a.pages x).property xs (omega arith) l.2 z.1 in
            (
              r,
              rw (l.0) (ground (arith, e, run, z.0)),
              better_head x r page min_size xs (ground arith) (ground arith) b,
            )
        | inr e ↦
            let (r, run, b) = best_fit-Best f x page min_size xs (omega arith) l.2 z.1 in
            (
              r,
              rw (l.0) (ground (arith, e, run, z.0)),
              worse_head x r page min_size xs (ground arith) b,
            )
      ]

-- What an allocation with `n` pages free comes to: no block has `n` pages and nothing changes, or one
-- of the smallest blocks that have them is taken.
abbrev pub Allotted : FreeArea → ℕ → List ℕ → Option (ℕ × FreeArea) → Type 0
Allotted a n xs out =
    ((out ≡ some (0, a)) × AtLeast a n (a.nr_free + 1) xs)
    ⊎ ((r : ℕ) × (out ≡ some (r, take_block r n a))
        × In r xs
        × (n ≤ (a.pages r).property)
        × AtLeast a n (a.pages r).property xs)

In-ne : (r : ℕ) (xs : List ℕ) → Fresh 0 xs → In r xs → r ≢ 0
In-ne r [] z i h = elim i [ ]
In-ne r (x ∷ xs) z (inl e) h = z.0 (sym e ∙ h)
In-ne r (x ∷ xs) z (inr i) h = In-ne r xs z.1 i h

-- With `n` pages free in all, `best_fit_alloc_pages` comes to an end, on fuel for the list: it takes a
-- block of the smallest size that will do, or returns NULL and changes nothing where no block will
-- that is no larger than all the free pages.
pub best_fit_alloc_pages-Allotted :
    (f n : ℕ) (xs : List ℕ) (a : FreeArea)
    → IsRing a.free_list 0 xs
    → length xs < f
    → n ≢ 0
    → n ≤ a.nr_free
    → Allotted a n xs (best_fit_alloc_pages f n a)
unfolding best_fit_alloc_pages
best_fit_alloc_pages-Allotted f n xs a r lt ne le =
    let (c, run, best) = best_fit-Best a n f 0 0 (a.nr_free + 1) xs lt r.links r.apart in
    elim best [
      | inl b ↦ inl (ground (arith, run, b.0), b.1)
      | inr b ↦ inr (c, ground (arith, run, In-ne c xs r.apart b.0), b.0, b.1, b.3)
    ]
