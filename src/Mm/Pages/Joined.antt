-- ===== src/Mm/Pages/Joined.antt =====
-- The page descriptors that `default_free_pages` of kern/mm/default_pmm.c leaves where it joins blocks.
use os_qemu.Prelude.{ℕ, ◌+◌, ◌<◌, ◌≡◌, ◌≢◌, not, Bool, true, false, if◌then◌else◌, arith}
use os_qemu.Mm.Pages.{Page, head_block, join_blocks}

-- The block that `base` comes to stand in, and the descriptors, once it has been joined to the block
-- at `p` before it.
abbrev pub joined_left : (ℕ → Page) → ℕ → ℕ → Bool → ℕ × (ℕ → Page)
joined_left pages p base true = (p, join_blocks p base pages)
joined_left pages p base false = (base, pages)

-- The descriptors once that block has been joined to the one at `y` behind it.
abbrev pub joined_right : ℕ × (ℕ → Page) → ℕ → Bool → ℕ → Page
joined_right b y true = join_blocks b.0 y b.1
joined_right b y false = b.1

-- The descriptors `b` where `n` released pages at `base` are joined, by `left`, to the block at `p` and,
-- by `right`, to the one at `y`: the block has the pages of all of them, and the heads of the others are
-- none any more. No descriptor but these three changes, and of the blocks not joined none.
abbrev pub Joined : (ℕ → Page) → (ℕ → Page) → ℕ → ℕ → ℕ → ℕ → Bool → Bool → Type 0
Joined pages b p base n y left right =
    let behind = if right then (pages y).property else 0 in
    ((b p).property ≡ (pages p).property + (if left then n + behind else 0))
    × ((b base).property ≡ n + (if left then 0 else behind))
    × ((b base).is_head ≡ not left)
    × ((b p).is_head ≡ (pages p).is_head)
    × ((b y).is_head ≡ (if right then false else (pages y).is_head))
    × ((b y).property ≡ (pages y).property)
    × ((q : ℕ) → q ≢ p → q ≢ base → q ≢ y → b q ≡ pages q)

pub joined_right-Joined :
    (pages : ℕ → Page) (p base n y : ℕ) (left right : Bool)
    → p < base
    → base < y
    → Joined pages
        (joined_right (joined_left (head_block base n pages) p base left) y right)
        p
        base
        n
        y
        left
        right
joined_right-Joined pages p base n y true true lo hi = (
  ground arith,
  ground arith,
  ground arith,
  ground arith,
  ground arith,
  ground arith,
  λ q u v w. ground arith,
)
joined_right-Joined pages p base n y true false lo hi = (
  ground arith,
  ground arith,
  ground arith,
  ground arith,
  ground arith,
  ground arith,
  λ q u v w. ground arith,
)
joined_right-Joined pages p base n y false true lo hi = (
  ground arith,
  ground arith,
  ground arith,
  ground arith,
  ground arith,
  ground arith,
  λ q u v w. ground arith,
)
joined_right-Joined pages p base n y false false lo hi = (
  ground arith,
  ground arith,
  ground arith,
  ground arith,
  ground arith,
  ground arith,
  λ q u v w. ground arith,
)
