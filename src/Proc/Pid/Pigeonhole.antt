-- ===== src/Proc/Pid/Pigeonhole.antt =====
-- There is a number for a new process: fewer processes than numbers leave one unused, so that `get_pid`
-- of kern/process/proc.c finds it.
use os_qemu.Prelude.{
  ℕ, zero, suc, ◌≤◌, ◌<◌, ◌≡◌, ◌≢◌, ◌⊎◌, inl, inr, sym, ◌∙◌, true, false, ◌==◌, if◌then◌else◌, List,
  [], ◌∷◌, length, arith, Bool-cases, ℕ_discrete,
}
use os_qemu.Proc.Pid.Unused.{Unused}

-- The numbers other than `m`.
without : ℕ → List ℕ → List ℕ
without m [] = []
without m (p ∷ ps) = let rest = without m ps in if p == m then rest else p ∷ rest

length-without : (m : ℕ) (ps : List ℕ) → length (without m ps) ≤ length ps
unfolding without
length-without m [] = omega arith
length-without m (p ∷ ps) = ground (arith, length-without m ps)

Unused-or_fewer : (m : ℕ) (ps : List ℕ) → Unused m ps ⊎ (length (without m ps) < length ps)
unfolding without
Unused-or_fewer m [] = inl tt
Unused-or_fewer m (p ∷ ps) = elim (Bool-cases (p == m)) [
  | inl e ↦ inr (rw e (omega (arith, length-without m ps)))
  | inr e ↦ elim (Unused-or_fewer m ps) [
    | inl u ↦ inl ((λ q. ground arith), u)
    | inr lt ↦ inr (rw e (omega arith))
  ]
]

Unused-without : (q m : ℕ) (ps : List ℕ) → q ≢ m → Unused q (without m ps) → Unused q ps
unfolding without
Unused-without q m [] n u = tt
Unused-without q m (p ∷ ps) n u = elim (ℕ_discrete p m) [
  | yes e ↦
      let t : (p == m) ≡ true = ground arith in
      ((λ h. n (sym h ∙ e)), Unused-without q m ps n (rw t at u))
  | no e ↦
      let t : (p == m) ≡ false = ground arith in
      let v = rw t at u in (v.0, Unused-without q m ps n v.1)
]

-- Of the numbers 1 to `n` some is unused when there are fewer than `n`.
pub Unused-exists :
    (n : ℕ) (ps : List ℕ) → length ps < n → (q : ℕ) × (0 < q) × (q ≤ n) × Unused q ps
Unused-exists zero ps lt = absurd (omega arith)
Unused-exists (suc n) ps lt = elim (Unused-or_fewer (suc n) ps) [
  | inl u ↦ (suc n, omega arith, omega arith, u)
  | inr fewer ↦
      let (q, lo, hi, u) = Unused-exists n (without (suc n) ps) (omega arith) in
      (q, lo, omega arith, Unused-without q (suc n) ps (omega arith) u)
]
