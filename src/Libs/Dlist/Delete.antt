-- ===== src/Libs/Dlist/Delete.antt =====
-- Taking a node out of a linked list of libs/list.h.
use os_qemu.Prelude.{ℕ, ◌≡◌, ◌≢◌, List, [], ◌∷◌, ◌++◌, arith, ◌∙◌, sym}
use os_qemu.Libs.Dlist.{Links, del_between, list_del}
use os_qemu.Libs.Dlist.Ring.{
  Linked, Fresh, Distinct, IsRing, last_of, first_of, Fresh-last_of, Linked-agree, Fresh-left,
  Fresh-right, Fresh-first_of,
}

module _ (l : Links) (p q : ℕ) where
  next_kept : (x : ℕ) → x ≢ p → (del_between l p q).next x ≡ l.next x
  unfolding del_between
  next_kept x n = ground arith

  prev_kept : (x : ℕ) → x ≢ q → (del_between l p q).prev x ≡ l.prev x
  unfolding del_between
  prev_kept x n = ground arith

  joined : ((del_between l p q).next p ≡ q) × ((del_between l p q).prev q ≡ p)
  unfolding del_between
  joined = ground arith

Linked-del_between :
    (l : Links) (a : ℕ) (xs ys : List ℕ) (b e : ℕ)
    → Fresh a (xs ++ e ∷ ys)
    → Distinct (xs ++ e ∷ ys)
    → Fresh b (xs ++ e ∷ ys)
    → Linked l a (xs ++ e ∷ ys) b
    → Linked (del_between l (last_of a xs) (first_of ys b)) a (xs ++ ys) b
Linked-del_between l a [] [] b e fa d fb h = joined l a b
Linked-del_between l a [] (y ∷ ys) b e fa d fb h =
    let (n, p) = joined l a y in
    (
      n,
      p,
      Linked-agree l (del_between l a y) y ys b a y e (λ x m _. next_kept l a y x m)
          (λ x m _. prev_kept l a y x m) fa.1.0 d.0.0 (λ r. fb.1.0 (sym r)) (λ r. fb.0 (sym r))
          fa.1.1 d.0.1 d.1.0 h.2.2,
    )
Linked-del_between l a (x ∷ xs) ys b e fa d fb h = (
  next_kept l p q a (λ r. Fresh-last_of a x xs fa.0 (Fresh-left a xs (e ∷ ys) fa.1) (sym r)) ∙ h.0,
  prev_kept l p q x
        (λ r. Fresh-first_of x b ys (λ s. fb.0 (sym s)) (Fresh-right x xs (e ∷ ys) d.0).1 (sym r))
      ∙ h.1,
  Linked-del_between l x xs ys b e d.0 d.1 fb.1 h.2,
)
  where
    p : ℕ
    p = last_of x xs

    q : ℕ
    q = first_of ys b

-- The links of a node in the list.
pub links_of :
    (l : Links) (a : ℕ) (xs ys : List ℕ) (b e : ℕ)
    → Linked l a (xs ++ e ∷ ys) b
    → (l.prev e ≡ last_of a xs) × (l.next e ≡ first_of ys b)
links_of l a [] [] b e h = (h.1, h.2.0)
links_of l a [] (y ∷ ys) b e h = (h.1, h.2.0)
links_of l a (x ∷ xs) ys b e h = links_of l x xs ys b e h.2

pub Fresh-remove : (z e : ℕ) (xs ys : List ℕ) → Fresh z (xs ++ e ∷ ys) → Fresh z (xs ++ ys)
Fresh-remove z e [] ys f = f.1
Fresh-remove z e (x ∷ xs) ys f = (f.0, Fresh-remove z e xs ys f.1)

pub Distinct-remove : (e : ℕ) (xs ys : List ℕ) → Distinct (xs ++ e ∷ ys) → Distinct (xs ++ ys)
Distinct-remove e [] ys d = d.1
Distinct-remove e (x ∷ xs) ys d = (Fresh-remove x e xs ys d.0, Distinct-remove e xs ys d.1)

-- `list_del` takes a node out of the list at whatever place it stands, and leaves the others in
-- their order.
pub list_del-IsRing :
    (l : Links) (head e : ℕ) (xs ys : List ℕ)
    → IsRing l head (xs ++ e ∷ ys)
    → IsRing (list_del l e) head (xs ++ ys)
unfolding list_del
list_del-IsRing l head e xs ys r =
    let (p, n) = links_of l head xs ys head e r.links in
    rw (p, n)
      (record {
        links = Linked-del_between l head xs ys head e r.apart r.distinct r.apart r.links;
        distinct = Distinct-remove e xs ys r.distinct;
        apart = Fresh-remove head e xs ys r.apart;
      })
