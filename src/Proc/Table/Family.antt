-- ===== src/Proc/Table/Family.antt =====
-- `set_links` and `remove_links` of kern/process/proc.c: the children of a process.
use os_qemu.Prelude.{ℕ, ◌≡◌, ◌≢◌, refl, sym, ◌∙◌, List, [], ◌∷◌, arith}
use os_qemu.Libs.Dlist.Ring.{Fresh, Distinct, first_of}
use os_qemu.Proc.Table.{Table, set_links}

-- From the elder `y` on, or from the parent where `y` is 0, the children stand in this order.
abbrev pub Siblings : Table → ℕ → List ℕ → Type 0
Siblings t y [] = Unit {0}
Siblings t y (x ∷ xs) = (t.yptr x ≡ y) × (t.optr x ≡ first_of xs 0) × Siblings t x xs

abbrev pub ParentOf : Table → ℕ → List ℕ → Type 0
ParentOf t parent [] = Unit {0}
ParentOf t parent (x ∷ xs) = (t.parent x ≡ parent) × ParentOf t parent xs

-- `parent` has these children, the youngest first.
pub record Children (t : Table) (parent : ℕ) (xs : List ℕ) : Type 0 where
  pub youngest : t.cptr parent ≡ first_of xs 0
  pub linked : Siblings t 0 xs
  pub distinct : Distinct xs
  pub present : Fresh 0 xs
  pub parents : ParentOf t parent xs

-- Links that agree on all but two nodes lead through other nodes alike.
pub Siblings-agree :
    (t t' : Table) (y : ℕ) (xs : List ℕ) (p q : ℕ)
    → ((x : ℕ) → x ≢ p → x ≢ q → t'.yptr x ≡ t.yptr x)
    → ((x : ℕ) → x ≢ p → x ≢ q → t'.optr x ≡ t.optr x)
    → Fresh p xs
    → Fresh q xs
    → Siblings t y xs
    → Siblings t' y xs
Siblings-agree t t' y [] p q f g a b h = tt
Siblings-agree t t' y (x ∷ xs) p q f g a b h =
    (f x a.0 b.0 ∙ h.0, g x a.0 b.0 ∙ h.1, Siblings-agree t t' x xs p q f g a.1 b.1 h.2)

module _ (proc : ℕ) (t : Table) where
  set_pointers :
      ((set_links proc t).cptr (t.parent proc) ≡ proc)
      × ((set_links proc t).optr proc ≡ t.cptr (t.parent proc))
      × (proc ≢ 0 → t.cptr (t.parent proc) ≢ proc → (set_links proc t).yptr proc ≡ 0)
      × (t.cptr (t.parent proc) ≢ 0 → (set_links proc t).yptr (t.cptr (t.parent proc)) ≡ proc)
  unfolding set_links
  set_pointers = ground arith

  set_others :
      (x : ℕ)
      → x ≢ proc
      → ((set_links proc t).optr x ≡ t.optr x)
        × (x ≢ t.cptr (t.parent proc) → (set_links proc t).yptr x ≡ t.yptr x)
        × ((set_links proc t).parent x ≡ t.parent x)
  unfolding set_links
  set_others x n = ground arith

  set_linked :
      (xs : List ℕ)
      → t.cptr (t.parent proc) ≡ first_of xs 0
      → Siblings t 0 xs
      → Distinct xs
      → Fresh 0 xs
      → Fresh proc xs
      → Siblings (set_links proc t) proc xs
  set_linked [] e h d z f = tt
  set_linked (x ∷ xs) e h d z f =
      let young = set_pointers.3 (omega (arith, e, z.0)) in
      (
        rw (sym e) young,
        (set_others x f.0).0 ∙ h.1,
        Siblings-agree t (set_links proc t) x xs proc x
            (λ u a b. (set_others u a).1 (omega (arith, e, b))) (λ u a b. (set_others u a).0) f.1
            d.0 h.2,
      )

  set_parents :
      (parent : ℕ) (xs : List ℕ) → ParentOf t parent xs → ParentOf (set_links proc t) parent xs
  unfolding set_links
  set_parents parent [] h = tt
  set_parents parent (x ∷ xs) h = (h.0, set_parents parent xs h.1)

pub first_ne : (p : ℕ) (xs : List ℕ) → p ≢ 0 → Fresh p xs → first_of xs 0 ≢ p
first_ne p [] n f e = n (sym e)
first_ne p (x ∷ xs) n f e = f.0 e

-- A process that `set_links` enters is the youngest child of its parent, ahead of the others.
pub set_links-Children :
    (proc : ℕ) (t : Table) (xs : List ℕ)
    → Children t (t.parent proc) xs
    → proc ≢ 0
    → Fresh proc xs
    → Children (set_links proc t) (t.parent proc) (proc ∷ xs)
unfolding set_links
set_links-Children proc t xs c n f =
    let (a, b, y, z) = set_pointers proc t in
    record {
      youngest = a;
      linked = (
        y n (λ e. first_ne proc xs n f (sym c.youngest ∙ e)),
        b ∙ c.youngest,
        set_linked proc t xs c.youngest c.linked c.distinct c.present f,
      );
      distinct = (f, c.distinct);
      present = (n, c.present);
      parents = (refl, set_parents proc t (t.parent proc) xs c.parents);
    }
