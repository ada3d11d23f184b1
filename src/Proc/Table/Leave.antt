-- ===== src/Proc/Table/Leave.antt =====
-- `remove_links` of kern/process/proc.c: a child that leaves its parent.
use os_qemu.Prelude.{ℕ, ◌≡◌, ◌≢◌, refl, sym, ◌∙◌, List, [], ◌∷◌, ◌++◌, arith}
use os_qemu.Libs.Dlist.Ring.{
  Fresh, Distinct, last_of, first_of, Fresh-last_of, Fresh-left, Fresh-right, Fresh-first_of,
}
use os_qemu.Libs.Dlist.Delete.{Fresh-remove, Distinct-remove}
use os_qemu.Proc.Table.{Table, remove_links}
use os_qemu.Proc.Table.Family.{Siblings, ParentOf, Children, Siblings-agree, first_ne}

-- The links after `proc` has been taken out from between `younger` and `older`.
record Removed (t t' : Table) (younger older : ℕ) : Type 0 where
  yptr_at : older ≢ 0 → t'.yptr older ≡ younger
  optr_at : younger ≢ 0 → t'.optr younger ≡ older
  yptr_off : (x : ℕ) → x ≢ older → t'.yptr x ≡ t.yptr x
  optr_off : (x : ℕ) → x ≢ younger → t'.optr x ≡ t.optr x

remove_links-Removed :
    (proc : ℕ) (t : Table)
    → proc ≢ t.optr proc
    → Removed t (remove_links proc t) (t.yptr proc) (t.optr proc)
unfolding remove_links
remove_links-Removed proc t n = record {
  yptr_at = λ h. ground arith;
  optr_at = λ h. ground arith;
  yptr_off = λ x h. ground arith;
  optr_off = λ x h. ground arith;
}

module _ (t t' : Table) (p : ℕ) where
  behind-Removed :
      (younger : ℕ) (ys : List ℕ)
      → Removed t t' younger (first_of ys 0)
      → Siblings t p ys
      → Distinct ys
      → Fresh 0 ys
      → Fresh younger ys
      → Siblings t' younger ys
  behind-Removed y [] r h d z f = tt
  behind-Removed y (x ∷ ys) r h d z f = (
    r.yptr_at z.0,
    r.optr_off x f.0 ∙ h.1,
    Siblings-agree t t' x ys x y (λ u a b. r.yptr_off u a) (λ u a b. r.optr_off u b) d.0 f.1 h.2,
  )

  optr_over :
      (x : ℕ) (xs ys : List ℕ)
      → Removed t t' (last_of x xs) (first_of ys 0)
      → t.optr x ≡ first_of (xs ++ p ∷ ys) 0
      → x ≢ 0
      → Fresh x (xs ++ p ∷ ys)
      → t'.optr x ≡ first_of (xs ++ ys) 0
  optr_over x [] ys r e n f = r.optr_at n
  optr_over x (w ∷ xs) ys r e n f =
      r.optr_off x (λ h. Fresh-last_of x w xs f.0 (Fresh-left x xs (p ∷ ys) f.1) (sym h)) ∙ e

  Siblings-Removed :
      (a : ℕ) (xs ys : List ℕ)
      → Removed t t' (last_of a xs) (first_of ys 0)
      → Siblings t a (xs ++ p ∷ ys)
      → Distinct (xs ++ p ∷ ys)
      → Fresh 0 (xs ++ p ∷ ys)
      → Fresh a (xs ++ p ∷ ys)
      → Siblings t' a (xs ++ ys)
  Siblings-Removed a [] ys r h d z f = behind-Removed a ys r h.2 d.1 z.1 f.1
  Siblings-Removed a (x ∷ xs) ys r h d z f = (
    r.yptr_off x
          (λ e. Fresh-first_of x 0 ys (λ o. z.0 (sym o)) (Fresh-right x xs (p ∷ ys) d.0).1 (sym e))
        ∙ h.0,
    optr_over x xs ys r h.1 z.0 d.0,
    Siblings-Removed x xs ys r h.2 d.1 z.1 d.0,
  )

  -- Where the child stands.
  place_of :
      (a : ℕ) (xs ys : List ℕ)
      → Siblings t a (xs ++ p ∷ ys)
      → (t.yptr p ≡ last_of a xs) × (t.optr p ≡ first_of ys 0)
  place_of a [] ys h = (h.0, h.1)
  place_of a (x ∷ xs) ys h = place_of x xs ys h.2

  parents_same :
      (parent : ℕ) (ys : List ℕ)
      → ((x : ℕ) → t'.parent x ≡ t.parent x)
      → ParentOf t parent ys
      → ParentOf t' parent ys
  parents_same parent [] k h = tt
  parents_same parent (y ∷ ys) k h = (k y ∙ h.0, parents_same parent ys k h.1)

  parents_kept :
      (parent : ℕ) (xs ys : List ℕ)
      → ((x : ℕ) → t'.parent x ≡ t.parent x)
      → ParentOf t parent (xs ++ p ∷ ys)
      → ParentOf t' parent (xs ++ ys)
  parents_kept parent [] ys k h = parents_same parent ys k h.1
  parents_kept parent (x ∷ xs) ys k h = (k x ∙ h.0, parents_kept parent xs ys k h.1)

remove_cptr :
    (proc : ℕ) (t : Table)
    → proc ≢ t.optr proc
    → (t.yptr proc ≡ 0 → (remove_links proc t).cptr (t.parent proc) ≡ t.optr proc)
      × (t.yptr proc ≢ 0 → (remove_links proc t).cptr (t.parent proc) ≡ t.cptr (t.parent proc))
unfolding remove_links
remove_cptr proc t n = ground arith

Distinct-right : (xs ys : List ℕ) → Distinct (xs ++ ys) → Distinct ys
Distinct-right [] ys d = d
Distinct-right (x ∷ xs) ys d = Distinct-right xs ys d.1

youngest_left :
    (proc : ℕ) (t : Table) (xs ys : List ℕ)
    → proc ≢ t.optr proc
    → t.cptr (t.parent proc) ≡ first_of (xs ++ proc ∷ ys) 0
    → t.yptr proc ≡ last_of 0 xs
    → t.optr proc ≡ first_of ys 0
    → Fresh 0 (xs ++ proc ∷ ys)
    → (remove_links proc t).cptr (t.parent proc) ≡ first_of (xs ++ ys) 0
youngest_left proc t [] ys n c y o f = (remove_cptr proc t n).0 y ∙ o
youngest_left proc t (x ∷ xs) ys n c y o f =
    (remove_cptr proc t n).1
      (λ e. Fresh-last_of 0 x xs f.0 (Fresh-left 0 xs (proc ∷ ys) f.1) (sym y ∙ e))
    ∙ c

-- A child that `remove_links` takes out, wherever it stands among the children of its parent, leaves
-- the others in their order.
pub remove_links-Children :
    (proc : ℕ) (t : Table) (xs ys : List ℕ)
    → Children t (t.parent proc) (xs ++ proc ∷ ys)
    → Children (remove_links proc t) (t.parent proc) (xs ++ ys)
unfolding remove_links
remove_links-Children proc t xs ys c =
    let (y, o) = place_of t t proc 0 xs ys c.linked in
    let own = Fresh-right 0 xs (proc ∷ ys) c.present in
    let rest = Distinct-right xs (proc ∷ ys) c.distinct in
    let n : proc ≢ t.optr proc = λ e. first_ne proc ys own.0 rest.0 (sym o ∙ sym e) in
    let gone : Removed t (remove_links proc t) (last_of 0 xs) (first_of ys 0) =
      rw (sym y, sym o) (remove_links-Removed proc t n) in
    record {
      youngest = youngest_left proc t xs ys n c.youngest y o c.present;
      linked =
          Siblings-Removed t (remove_links proc t) proc 0 xs ys gone c.linked c.distinct c.present
            c.present;
      distinct = Distinct-remove proc xs ys c.distinct;
      present = Fresh-remove 0 proc xs ys c.present;
      parents =
          parents_kept t (remove_links proc t) proc (t.parent proc) xs ys (λ x. refl) c.parents;
    }
