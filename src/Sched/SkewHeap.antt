-- ===== src/Sched/SkewHeap.antt =====
-- libs/skew_heap.h: the skew heap of the run queue. A node is known by the number of the process
-- that it stands in; the parent pointers, which only say where a node hangs, are the tree itself.
pub mod Order
use os_qemu.Prelude.{ℕ, zero, suc, ◌+◌, ◌==◌, Bool, true, false, if◌then◌else◌}
use os_qemu.Prelude.Int.{ℤ, pos, negsuc}

-- `skew_heap_entry_t`; NULL is the empty tree.
pub data SkewHeap : Type 0 where
  null : SkewHeap
  node : SkewHeap → ℕ → SkewHeap → SkewHeap

-- `comp(a, b) == -1`
abbrev pub is_minus_one : ℤ → Bool
is_minus_one (pos n) = false
is_minus_one (negsuc n) = n == 0

module _ (comp : ℕ → ℕ → ℤ) where
  -- The right spine is merged and the children of each node on it change sides.
  unfoldable pub skew_heap_merge : SkewHeap → SkewHeap → SkewHeap
  skew_heap_merge null b = b
  skew_heap_merge (node la a ra) null = node la a ra
  skew_heap_merge (node la a ra) (node lb b rb) = elim (is_minus_one (comp a b)) [
    | true ↦ node (skew_heap_merge ra (node lb b rb)) a la
    | false ↦ node (skew_heap_merge (node la a ra) rb) b lb
  ]

  unfoldable pub skew_heap_insert : SkewHeap → ℕ → SkewHeap
  skew_heap_insert a b = skew_heap_merge a (node null b null)

  -- The node of `b` is found through its links in C, and by its number here.
  unfoldable pub skew_heap_remove : SkewHeap → ℕ → SkewHeap
  skew_heap_remove null b = null
  skew_heap_remove (node l x r) b =
      if x == b then skew_heap_merge l r else node (skew_heap_remove l b) x (skew_heap_remove r b)
