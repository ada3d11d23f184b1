-- ===== src/Mm/Pages/Insert.antt =====
-- Where `default_init_memmap` and `default_free_pages` link a block, and what goes wrong at the end.
use os_qemu.Prelude.{
  ℕ, zero, suc, ◌+◌, ◌≤◌, ◌<◌, ◌≡◌, ◌≢◌, refl, some, List, [], ◌∷◌, ◌++◌, length, append-nil, ap,
  arith, sym, ◌∙◌,
}
use os_qemu.Libs.Dlist.{Links, list_add, list_add_before, list_empty, list_del, del_between}
use os_qemu.Libs.Dlist.Ring.{Linked, Fresh, IsRing, list_add-IsRing, last_of, links_at}
use os_qemu.Mm.Pages.{link_sorted, link_block}

-- Every block of the list lies below `base`.
abbrev pub AllBelow : ℕ → List ℕ → Type 0
AllBelow base [] = Unit {0}
AllBelow base (x ∷ xs) = (x < base) × AllBelow base xs

next_ne :
    (l : Links) (a : ℕ) (xs : List ℕ) (y b : ℕ) (ys : List ℕ)
    → y ≢ 0
    → Fresh 0 xs
    → Linked l a (xs ++ y ∷ ys) b
    → l.next a ≢ 0
next_ne l a [] y b ys n f h = ground arith
next_ne l a (x ∷ xs) y b ys n f h = ground arith

link_sorted-middle :
    (f base le : ℕ) (l : Links) (xs : List ℕ) (y : ℕ) (ys : List ℕ)
    → length xs < f
    → Linked l le (xs ++ y ∷ ys) 0
    → y ≢ 0
    → Fresh 0 xs
    → AllBelow base xs
    → base < y
    → link_sorted f base le l ≡ some (list_add_before l y base)
unfolding link_sorted
link_sorted-middle zero base le l xs y ys lt h n fr below h' = elim lt [ ]
link_sorted-middle (suc f) base le l [] y ys lt h n fr below h' = ground arith
link_sorted-middle (suc f) base le l (x ∷ xs) y ys lt h n fr below h' = ground (
  arith,
  next_ne l x xs y 0 ys n fr.1 h.2,
  link_sorted-middle f base x l xs y ys (omega arith) h.2 n fr.1 below.1,
)

-- A block goes before the first that lies above it: the list stays whole, and in order.
pub link_block-IsRing :
    (f base : ℕ) (l : Links) (xs : List ℕ) (y : ℕ) (ys : List ℕ)
    → IsRing l 0 (xs ++ y ∷ ys)
    → y ≢ 0
    → base ≢ 0
    → Fresh 0 xs
    → Fresh base (xs ++ y ∷ ys)
    → AllBelow base xs
    → base < y
    → length xs < f
    → (l' : Links) × (link_block f base l ≡ some l') × IsRing l' 0 (xs ++ base ∷ y ∷ ys)
unfolding link_block list_empty
link_block-IsRing f base l xs y ys r n b fr fresh below above lt = (
  list_add_before l y base,
  ground (
    arith,
    next_ne l 0 xs y 0 ys n fr r.links,
    link_sorted-middle f base 0 l xs y ys lt r.links n fr below above,
  ),
  (list_add-IsRing l 0 base xs (y ∷ ys) r (λ e. b (sym e)) fresh).1,
)

-- Linking behind `z`, the last node.
add_last :
    (l : Links) (z base : ℕ)
    → z ≢ base
    → l.next z ≡ 0
    → ((list_add l z base).next z ≡ base) × ((list_add l z base).next base ≡ 0)
unfolding list_add
add_last l z base n e = ground arith

-- Linking a last node behind itself.
add_self :
    (l : Links) (z base : ℕ)
    → z ≢ base
    → base ≢ 0
    → l.next base ≡ 0
    → ((list_add l base base).next base ≡ 0)
      × ((list_add l base base).prev base ≡ base)
      × ((list_add l base base).next z ≡ l.next z)
unfolding list_add
add_self l z base n b e = ground arith

last_of-append : (a : ℕ) (xs : List ℕ) (z : ℕ) → last_of a (xs ++ z ∷ []) ≡ z
last_of-append a [] z = refl
last_of-append a (x ∷ xs) z = last_of-append x xs z

-- The three ways a turn of the search goes that does not break off.
module _ (f base le : ℕ) (l : Links) where
  stop : l.next le ≡ 0 → link_sorted (suc f) base le l ≡ some l
  unfolding link_sorted
  stop e = ground arith

  behind :
      (z : ℕ)
      → l.next le ≡ z
      → z ≢ 0
      → z ≤ base
      → l.next z ≡ 0
      → link_sorted (suc f) base le l ≡ link_sorted f base z (list_add l z base)
  unfolding link_sorted
  behind z e n h h' = rw (e) (ground arith)

  further :
      (z : ℕ)
      → l.next le ≡ z
      → z ≢ 0
      → z ≤ base
      → l.next z ≢ 0
      → link_sorted (suc f) base le l ≡ link_sorted f base z l
  unfolding link_sorted
  further z e n h h' = rw (e) (ground arith)

link_sorted-last :
    (f base le : ℕ) (l : Links) (z : ℕ)
    → 2 < f
    → l.next le ≡ z
    → l.next z ≡ 0
    → z ≢ 0
    → base ≢ 0
    → z < base
    → link_sorted f base le l ≡ some (list_add (list_add l z base) base base)
link_sorted-last zero base le l z lt e t n b h = elim lt [ ]
link_sorted-last (suc zero) base le l z lt e t n b h = absurd (omega arith)
link_sorted-last (suc (suc zero)) base le l z lt e t n b h = absurd (omega arith)
link_sorted-last (suc (suc (suc f))) base le l z lt e t n b h =
    let (o, u) = add_last l z base (omega arith) t in
    let s = add_self (list_add l z base) z base (omega arith) b u in
    behind (suc (suc f)) base le l z e n (omega arith) t
    ∙ behind (suc f) base z (list_add l z base) base o b (omega arith) u
    ∙ stop f base base (list_add (list_add l z base) base base) s.0

link_sorted-end :
    (f base le : ℕ) (l : Links) (xs : List ℕ) (z : ℕ)
    → length xs + 2 < f
    → Linked l le (xs ++ z ∷ []) 0
    → z ≢ 0
    → base ≢ 0
    → Fresh 0 xs
    → AllBelow base xs
    → z < base
    → link_sorted f base le l ≡ some (list_add (list_add l z base) base base)
link_sorted-end zero base le l xs z lt h n b fr below h' = elim lt [ ]
link_sorted-end (suc f) base le l [] z lt h n b fr below h' =
    link_sorted-last (suc f) base le l z lt h.0 h.2.0 n b h'
link_sorted-end (suc f) base le l (x ∷ xs) z lt h n b fr below h' =
    further f base le l x h.0 fr.0 (omega arith) (next_ne l x xs z 0 [] n fr.1 h.2)
    ∙ link_sorted-end f base x l xs z (omega arith) h.2 n b fr.1 below.1 h'

-- A block that lies above all others is added behind the last of them and then, by the next turn of
-- the loop, behind itself: the next links are those of the longer list, but `list_prev` of the block
-- is the block, and taking it out by `list_del` leaves every next link as it is.
pub link_block-end :
    (f base : ℕ) (l : Links) (xs : List ℕ) (z : ℕ)
    → IsRing l 0 (xs ++ z ∷ [])
    → z ≢ 0
    → base ≢ 0
    → Fresh 0 xs
    → AllBelow base xs
    → z < base
    → length xs + 2 < f
    → (l' : Links) × (link_block f base l ≡ some l')
      × (l'.prev base ≡ base)
      × (l'.next z ≡ base)
      × (l'.next base ≡ 0)
      × ((list_del l' base).next z ≡ base)
unfolding link_block list_empty list_del del_between
link_block-end f base l xs z r n b fr below h lt =
    let t = (links_at l 0 (xs ++ z ∷ []) [] 0 (rw (append-nil (xs ++ z ∷ [])) r.links)).0 in
    let w = last_of-append 0 xs z in
    let (o, u) = add_last l z base (omega arith) (ap l.next (sym w) ∙ t) in
    let s = add_self (list_add l z base) z base (omega arith) b u in
    let end = link_sorted-end f base 0 l xs z lt r.links n b fr below h in
    (
      list_add (list_add l z base) base base,
      ground (arith, next_ne l 0 xs z 0 [] n fr r.links, end),
      s.1,
      s.2 ∙ o,
      s.0,
      ground (arith, s, o),
    )
