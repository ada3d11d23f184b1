-- ===== src/Sched/SkewHeap/Order.antt =====
-- What merging, inserting and removing keep of the run queue's heap.
use os_qemu.Prelude.{
  ℕ, suc, ◌+◌, ◌≤◌, ◌≡◌, ◌==◌, ltb, if◌then◌else◌, arith, Bool-cases, inl, inr, ◌≢◌,
}
use os_qemu.Prelude.Int.{ℤ, pos, negsuc}
use os_qemu.Sched.SkewHeap.{SkewHeap, null, node, is_minus_one, skew_heap_merge, skew_heap_remove}

-- Every process of the heap satisfies `P`.
abbrev pub All {ℓ} : (ℕ → Type ℓ) → SkewHeap → Type ℓ
All P null = Unit
All P (node l x r) = P x × All P l × All P r

-- How often a process stands in the heap.
unfoldable pub count : ℕ → SkewHeap → ℕ
count k null = 0
count k (node l x r) = (if x == k then 1 else 0) + count k l + count k r

-- No process stands below one with a larger key.
abbrev pub IsHeap : (ℕ → ℕ) → SkewHeap → Type 0
IsHeap key null = Unit {0}
IsHeap key (node l x r) =
    All (λ y. key x ≤ key y) l × All (λ y. key x ≤ key y) r × IsHeap key l × IsHeap key r

-- Comparing by a key.
abbrev pub by_key : (ℕ → ℕ) → ℕ → ℕ → ℤ
by_key key a b = if ltb (key a) (key b) then negsuc 0 else pos 0

module _ (comp : ℕ → ℕ → ℤ) where
  pub count-skew_heap_merge :
      (k : ℕ) (a b : SkewHeap) → count k (skew_heap_merge comp a b) ≡ count k a + count k b
  unfolding count skew_heap_merge
  count-skew_heap_merge k null b = omega arith
  count-skew_heap_merge k (node la a ra) null = omega arith
  count-skew_heap_merge k (node la a ra) (node lb b rb) =
      ground (
        arith,
        count-skew_heap_merge k ra (node lb b rb),
        count-skew_heap_merge k (node la a ra) rb,
      )

  pub skew_heap_merge-All {ℓ} :
      (P : ℕ → Type ℓ) (a b : SkewHeap) → All P a → All P b → All P (skew_heap_merge comp a b)
  unfolding skew_heap_merge
  skew_heap_merge-All P null b ha hb = hb
  skew_heap_merge-All P (node la a ra) null ha hb = ha
  skew_heap_merge-All P (node la a ra) (node lb b rb) ha hb =
      elim (Bool-cases (is_minus_one (comp a b))) [
        | inl e ↦
            rw (e, skew_heap_merge) (ha.0, skew_heap_merge-All P ra (node lb b rb) ha.2 hb, ha.1)
        | inr e ↦
            rw (e, skew_heap_merge) (hb.0, skew_heap_merge-All P (node la a ra) rb ha hb.2, hb.1)
      ]

  pub All-skew_heap_remove {ℓ} :
      (P : ℕ → Type ℓ) (h : SkewHeap) (k : ℕ) → All P h → All P (skew_heap_remove comp h k)
  unfolding skew_heap_remove
  All-skew_heap_remove P null k p = p
  All-skew_heap_remove P (node l x r) k p = elim (Bool-cases (x == k)) [
    | inl e ↦ rw e (skew_heap_merge-All P l r p.1 p.2)
    | inr e ↦ rw e (p.0, All-skew_heap_remove P l k p.1, All-skew_heap_remove P r k p.2)
  ]

pub All-map {ℓ κ} :
    (P : ℕ → Type ℓ) (Q : ℕ → Type κ) (h : SkewHeap) → ((y : ℕ) → P y → Q y) → All P h → All Q h
All-map P Q null f p = tt
All-map P Q (node l x r) f p = (f x p.0, All-map P Q l f p.1, All-map P Q r f p.2)

module _ (key : ℕ → ℕ) where
  raise : (m n : ℕ) (h : SkewHeap) → m ≤ n → All (λ y. n ≤ key y) h → All (λ y. m ≤ key y) h
  raise m n h le p = All-map (λ y. n ≤ key y) (λ y. m ≤ key y) h (λ y q. omega arith) p

  pub skew_heap_merge-IsHeap :
      (a b : SkewHeap) → IsHeap key a → IsHeap key b → IsHeap key (skew_heap_merge (by_key key) a b)
  unfolding skew_heap_merge
  skew_heap_merge-IsHeap null b ha hb = hb
  skew_heap_merge-IsHeap (node la a ra) null ha hb = ha
  skew_heap_merge-IsHeap (node la a ra) (node lb b rb) ha hb =
      elim (Bool-cases (ltb (key a) (key b))) [
        | inl e ↦
            rw (e, skew_heap_merge)
              (
                skew_heap_merge-All (by_key key) (λ y. key a ≤ key y) ra (node lb b rb) ha.1
                    (
                      ground arith,
                      raise (key a) (key b) lb (ground arith) hb.0,
                      raise (key a) (key b) rb (ground arith) hb.1,
                    ),
                ha.0,
                skew_heap_merge-IsHeap ra (node lb b rb) ha.3 hb,
                ha.2,
              )
        | inr e ↦
            rw (e, skew_heap_merge)
              (
                skew_heap_merge-All (by_key key) (λ y. key b ≤ key y) (node la a ra) rb
                    (
                      ground arith,
                      raise (key b) (key a) la (ground arith) ha.0,
                      raise (key b) (key a) ra (ground arith) ha.1,
                    )
                    hb.1,
                hb.0,
                skew_heap_merge-IsHeap (node la a ra) rb ha hb.3,
                hb.2,
              )
      ]

  pub skew_heap_remove-IsHeap :
      (h : SkewHeap) (k : ℕ) → IsHeap key h → IsHeap key (skew_heap_remove (by_key key) h k)
  unfolding skew_heap_remove
  skew_heap_remove-IsHeap null k p = p
  skew_heap_remove-IsHeap (node l x r) k p = elim (Bool-cases (x == k)) [
    | inl e ↦ rw e (skew_heap_merge-IsHeap l r p.2 p.3)
    | inr e ↦ rw e (
      All-skew_heap_remove (by_key key) (λ y. key x ≤ key y) l k p.0,
      All-skew_heap_remove (by_key key) (λ y. key x ≤ key y) r k p.1,
      skew_heap_remove-IsHeap l k p.2,
      skew_heap_remove-IsHeap r k p.3,
    )
  ]

unfoldable pub size : SkewHeap → ℕ
size null = 0
size (node l x r) = suc (size l + size r)

pub size-skew_heap_merge :
    (comp : ℕ → ℕ → ℤ) (a b : SkewHeap) → size (skew_heap_merge comp a b) ≡ size a + size b
unfolding size skew_heap_merge
size-skew_heap_merge comp null b = omega arith
size-skew_heap_merge comp (node la a ra) null = omega arith
size-skew_heap_merge comp (node la a ra) (node lb b rb) = ground (
  arith,
  size-skew_heap_merge comp ra (node lb b rb),
  size-skew_heap_merge comp (node la a ra) rb,
)

-- A fact about the processes of a heap that `p` does not stand in need not hold of `p`.
pub All-map_ne {ℓ κ} :
    (P : ℕ → Type ℓ) (Q : ℕ → Type κ) (p : ℕ) (h : SkewHeap)
    → count p h ≡ 0
    → ((y : ℕ) → y ≢ p → P y → Q y)
    → All P h
    → All Q h
unfolding count
All-map_ne P Q p null c f a = tt
All-map_ne P Q p (node l x r) c f a = (
  f x (ground arith) a.0,
  All-map_ne P Q p l (omega arith) f a.1,
  All-map_ne P Q p r (omega arith) f a.2,
)

pub IsHeap-ne :
    (key key' : ℕ → ℕ) (p : ℕ) (h : SkewHeap)
    → count p h ≡ 0
    → ((y : ℕ) → y ≢ p → key' y ≡ key y)
    → IsHeap key h
    → IsHeap key' h
unfolding count
IsHeap-ne key key' p null c f a = tt
IsHeap-ne key key' p (node l x r) c f a =
    let x≢p : x ≢ p = ground arith in
    (
      All-map_ne (λ y. key x ≤ key y) (λ y. key' x ≤ key' y) p l (omega arith)
          (λ y n le. omega (arith, f x x≢p, f y n)) a.0,
      All-map_ne (λ y. key x ≤ key y) (λ y. key' x ≤ key' y) p r (omega arith)
          (λ y n le. omega (arith, f x x≢p, f y n)) a.1,
      IsHeap-ne key key' p l (omega arith) f a.2,
      IsHeap-ne key key' p r (omega arith) f a.3,
    )

pub All-zip {ℓ κ} :
    (P : ℕ → Type ℓ) (Q : ℕ → Type κ) (h : SkewHeap) → All P h → All Q h → All (λ y. P y × Q y) h
All-zip P Q null a b = tt
All-zip P Q (node l x r) a b = ((a.0, b.0), All-zip P Q l a.1 b.1, All-zip P Q r a.2 b.2)
