-- ===== src/Prelude/Scan.antt =====
-- A search upwards for the first number at which a test holds.
use Prim.Native.Nat.{ℕ, ◌+◌, ◌≤◌, ◌<◌}
use mathlib.Core.Path.{◌≡◌, subst}
use mathlib.Core.Bool.{Bool, true, false}
use mathlib.Core.Option.{Option, none, some}
use native.Mathlib.Omega.{arith}
use native.Mathlib.Decide.{ℕ_discrete}

-- What the search from `lo` on, below `hi`, comes to.
pub data Scan (lo hi : ℕ) (p : ℕ → Bool) : Option ℕ → Type 0 where
  nowhere : ((j : ℕ) → lo ≤ j → j < hi → p j ≡ false) → Scan lo hi p none
  first :
      (i : ℕ)
      → lo ≤ i
      → i < hi
      → p i ≡ true
      → ((j : ℕ) → lo ≤ j → j < i → p j ≡ false)
      → Scan lo hi p (some i)

module _ (lo hi : ℕ) (p : ℕ → Bool) where
  pub Scan-here : lo < hi → p lo ≡ true → Scan lo hi p (some lo)
  Scan-here lt e = first lo (omega arith) lt e (λ j h h'. absurd (omega arith))

  from_next :
      (b : ℕ)
      → p lo ≡ false
      → ((j : ℕ) → lo + 1 ≤ j → j < b → p j ≡ false)
      → (j : ℕ) → lo ≤ j
      → j < b
      → p j ≡ false
  from_next b n f j h h' = elim (ℕ_discrete lo j) [
    | yes e ↦ subst (λ x. p x ≡ false) e n
    | no e ↦ f j (omega arith) h'
  ]

  pub Scan-next : (o : Option ℕ) → p lo ≡ false → Scan (lo + 1) hi p o → Scan lo hi p o
  Scan-next none n (nowhere f) = nowhere (from_next hi n f)
  Scan-next (some i) n (first k h h' e f) = first k (omega arith) h' e (from_next k n f)
