-- ===== src/Libs/Dlist/Ring.antt =====
-- The linked lists of libs/list.h as lists of nodes.
use os_qemu.Prelude.{ℕ, ◌≡◌, ◌≢◌, List, [], ◌∷◌, ◌++◌, arith, ◌∙◌, sym}
use os_qemu.Libs.Dlist.{Links, add_between, list_add_before, list_add}

-- From `a` the next links lead through the nodes to `b`, and the previous links back.
abbrev pub Linked : Links → ℕ → List ℕ → ℕ → Type 0
Linked l a [] b = (l.next a ≡ b) × (l.prev b ≡ a)
Linked l a (x ∷ xs) b = (l.next a ≡ x) × (l.prev x ≡ a) × Linked l x xs b

abbrev pub Fresh : ℕ → List ℕ → Type 0
Fresh e [] = Unit {0}
Fresh e (x ∷ xs) = (x ≢ e) × Fresh e xs

abbrev pub Distinct : List ℕ → Type 0
Distinct [] = Unit {0}
Distinct (x ∷ xs) = Fresh x xs × Distinct xs

-- The list at `head` holds the nodes, in order.
pub record IsRing (l : Links) (head : ℕ) (xs : List ℕ) : Type 0 where
  pub links : Linked l head xs head
  pub distinct : Distinct xs
  pub apart : Fresh head xs

abbrev pub last_of : ℕ → List ℕ → ℕ
last_of a [] = a
last_of a (x ∷ xs) = last_of x xs

abbrev pub first_of : List ℕ → ℕ → ℕ
first_of [] b = b
first_of (y ∷ ys) b = y

pub Fresh-last_of : (e a : ℕ) (xs : List ℕ) → a ≢ e → Fresh e xs → last_of a xs ≢ e
Fresh-last_of e a [] n f = n
Fresh-last_of e a (x ∷ xs) n f = Fresh-last_of e x xs f.0 f.1

-- Links that agree on the nodes of a stretch lead through it alike.
pub Linked-agree :
    (l l' : Links) (a : ℕ) (xs : List ℕ) (b p q e : ℕ)
    → ((x : ℕ) → x ≢ p → x ≢ e → l'.next x ≡ l.next x)
    → ((x : ℕ) → x ≢ q → x ≢ e → l'.prev x ≡ l.prev x)
    → a ≢ p
    → a ≢ e
    → b ≢ q
    → b ≢ e
    → Fresh p xs
    → Fresh e xs
    → Fresh q xs
    → Linked l a xs b
    → Linked l' a xs b
Linked-agree l l' a [] b p q e f g ap ae bq be fp fe fq h = (f a ap ae ∙ h.0, g b bq be ∙ h.1)
Linked-agree l l' a (x ∷ xs) b p q e f g ap ae bq be fp fe fq h = (
  f a ap ae ∙ h.0,
  g x fq.0 fe.0 ∙ h.1,
  Linked-agree l l' x xs b p q e f g fp.0 fe.0 bq be fp.1 fe.1 fq.1 h.2,
)

pub Fresh-left : (e : ℕ) (xs ys : List ℕ) → Fresh e (xs ++ ys) → Fresh e xs
Fresh-left e [] ys f = tt
Fresh-left e (x ∷ xs) ys f = (f.0, Fresh-left e xs ys f.1)

pub Fresh-right : (e : ℕ) (xs ys : List ℕ) → Fresh e (xs ++ ys) → Fresh e ys
Fresh-right e [] ys f = f
Fresh-right e (x ∷ xs) ys f = Fresh-right e xs ys f.1

pub Fresh-first_of : (e b : ℕ) (ys : List ℕ) → b ≢ e → Fresh e ys → first_of ys b ≢ e
Fresh-first_of e b [] n f = n
Fresh-first_of e b (y ∷ ys) n f = f.0

module _ (l : Links) (e p q : ℕ) where
  next_kept : (x : ℕ) → x ≢ p → x ≢ e → (add_between l e p q).next x ≡ l.next x
  unfolding add_between
  next_kept x n m = ground arith

  prev_kept : (x : ℕ) → x ≢ q → x ≢ e → (add_between l e p q).prev x ≡ l.prev x
  unfolding add_between
  prev_kept x n m = ground arith

  added :
      p ≢ e
      → q ≢ e
      → ((add_between l e p q).next p ≡ e)
        × ((add_between l e p q).prev e ≡ p)
        × ((add_between l e p q).next e ≡ q)
        × ((add_between l e p q).prev q ≡ e)
  unfolding add_between
  added n m = ground arith

Linked-add_between :
    (l : Links) (a : ℕ) (xs ys : List ℕ) (b e : ℕ)
    → Fresh a (xs ++ ys)
    → Distinct (xs ++ ys)
    → Fresh b (xs ++ ys)
    → Fresh e (xs ++ ys)
    → a ≢ e
    → b ≢ e
    → Linked l a (xs ++ ys) b
    → Linked (add_between l e (last_of a xs) (first_of ys b)) a (xs ++ e ∷ ys) b
Linked-add_between l a [] [] b e fa d fb fe ae be h =
    let (n, p, m, q) = added l e a b ae be in (n, p, (m, q))
Linked-add_between l a [] (y ∷ ys) b e fa d fb fe ae be h =
    let (n, p, m, q) = added l e a y ae fe.0 in
    (
      n,
      p,
      (
        m,
        q,
        Linked-agree l (add_between l e a y) y ys b a y e (next_kept l e a y) (prev_kept l e a y)
            fa.0 fe.0 (λ r. fb.0 (sym r)) be fa.1 fe.1 d.0 h.2,
      ),
    )
Linked-add_between l a (x ∷ xs) ys b e fa d fb fe ae be h = (
  next_kept l e p q a (λ r. Fresh-last_of a x xs fa.0 (Fresh-left a xs ys fa.1) (sym r)) ae ∙ h.0,
  prev_kept l e p q x
        (λ r. Fresh-first_of x b ys (λ s. fb.0 (sym s)) (Fresh-right x xs ys d.0) (sym r)) fe.0
      ∙ h.1,
  Linked-add_between l x xs ys b e d.0 d.1 fb.1 fe.1 fe.0 be h.2,
)
  where
    p : ℕ
    p = last_of x xs

    q : ℕ
    q = first_of ys b

-- The links at a place in the list.
pub links_at :
    (l : Links) (a : ℕ) (xs ys : List ℕ) (b : ℕ)
    → Linked l a (xs ++ ys) b
    → (l.next (last_of a xs) ≡ first_of ys b) × (l.prev (first_of ys b) ≡ last_of a xs)
links_at l a [] [] b h = h
links_at l a [] (y ∷ ys) b h = (h.0, h.1)
links_at l a (x ∷ xs) ys b h = links_at l x xs ys b h.2

Fresh-insert : (z e : ℕ) (xs ys : List ℕ) → e ≢ z → Fresh z (xs ++ ys) → Fresh z (xs ++ e ∷ ys)
Fresh-insert z e [] ys n f = (n, f)
Fresh-insert z e (x ∷ xs) ys n f = (f.0, Fresh-insert z e xs ys n f.1)

Distinct-insert :
    (e : ℕ) (xs ys : List ℕ) → Fresh e (xs ++ ys) → Distinct (xs ++ ys) → Distinct (xs ++ e ∷ ys)
Distinct-insert e [] ys f d = (f, d)
Distinct-insert e (x ∷ xs) ys f d =
    (Fresh-insert x e xs ys (λ r. f.0 (sym r)) d.0, Distinct-insert e xs ys f.1 d.1)

-- A new node is put in at any place of the list, whether the call names the node before the place
-- (`list_add`, `list_add_after`) or the one behind it (`list_add_before`).
pub list_add-IsRing :
    (l : Links) (head e : ℕ) (xs ys : List ℕ)
    → IsRing l head (xs ++ ys)
    → head ≢ e
    → Fresh e (xs ++ ys)
    → IsRing (list_add l (last_of head xs) e) head (xs ++ e ∷ ys)
      × IsRing (list_add_before l (first_of ys head) e) head (xs ++ e ∷ ys)
unfolding list_add list_add_before
list_add-IsRing l head e xs ys r n f =
    let at = links_at l head xs ys head r.links in
    let d = Distinct-insert e xs ys f r.distinct in
    let a = Fresh-insert head e xs ys (λ q. n (sym q)) r.apart in
    let links = Linked-add_between l head xs ys head e r.apart r.distinct r.apart f n n r.links in
    (
      rw at.0 (record { links = links; distinct = d; apart = a }),
      rw at.1 (record { links = links; distinct = d; apart = a }),
    )
