-- ===== src/Proc/Pid/Unused.antt =====
-- `get_pid` finds a number that no process has.
use os_qemu.Prelude.{
  ℕ, zero, suc, ◌+◌, ◌-◌, ◌*◌, ◌≤◌, ◌<◌, ◌≡◌, ◌≢◌, ◌⊎◌, inl, inr, refl, ◌==◌, ltb, leb,
  if◌then◌else◌, Option, some, List, [], ◌∷◌, ◌++◌, append-nil, subst, ap, ◌∙◌, ◌&&◌, sym, arith,
  Bool-cases,
}
use os_qemu.Proc.Pid.{max_pid, Pids, pid_loop, get_pid}

-- No process has a number from `last` up to `safe`.
abbrev pub Clear : ℕ → ℕ → List ℕ → Type 0
Clear last safe [] = Unit {0}
Clear last safe (p ∷ ps) = ((p < last) ⊎ (safe ≤ p)) × Clear last safe ps

-- No process has the number `q`.
abbrev pub Unused : ℕ → List ℕ → Type 0
Unused q [] = Unit {0}
Unused q (p ∷ ps) = (p ≢ q) × Unused q ps

-- How many jumps there are at most before the search comes to the unused number `q`.
abbrev pub distance : ℕ → ℕ → ℕ
distance q last = if leb last q then q - last else max_pid - last + q

-- What a search leaves.
abbrev pub Chosen : List ℕ → Option Pids → Type 0
Chosen all r =
    (t : Pids) × (r ≡ some t)
    × (0 < t.last_pid)
    × (t.last_pid < t.next_safe)
    × (t.next_safe ≤ max_pid)
    × Clear t.last_pid t.next_safe all

Clear-tighten :
    (last safe last' safe' : ℕ) (ps : List ℕ)
    → last ≤ last'
    → safe' ≤ safe
    → Clear last safe ps
    → Clear last' safe' ps
Clear-tighten last safe last' safe' [] h h' c = tt
Clear-tighten last safe last' safe' (p ∷ ps) h h' c = (
  elim c.0 [ inl a ↦ inl (omega arith) | inr b ↦ inr (omega arith) ],
  Clear-tighten last safe last' safe' ps h h' c.1,
)

pub Clear-Unused : (last safe : ℕ) (ps : List ℕ) → last < safe → Clear last safe ps → Unused last ps
Clear-Unused last safe [] h c = tt
Clear-Unused last safe (p ∷ ps) h c = (omega (arith, c.0), Clear-Unused last safe ps h c.1)

Clear-snoc :
    (last safe p : ℕ) (ps : List ℕ)
    → Clear last safe ps
    → (p < last) ⊎ (safe ≤ p)
    → Clear last safe (ps ++ p ∷ [])
Clear-snoc last safe p [] c h = (h, tt)
Clear-snoc last safe p (x ∷ ps) c h = (c.0, Clear-snoc last safe p ps c.1 h)

snoc_all :
    (done : List ℕ) (p : ℕ) (rest all : List ℕ)
    → done ++ p ∷ rest ≡ all
    → (done ++ p ∷ []) ++ rest ≡ all
snoc_all [] p rest all e = e
snoc_all (x ∷ done) p rest all e =
    ap (λ ys. x ∷ ys) (snoc_all done p rest (done ++ p ∷ rest) refl) ∙ e

module _ (q : ℕ) (all : List ℕ) (low : 0 < q) (high : q < max_pid) (unused : Unused q all) where
  -- The step to the next process, or the jump, when the tests have been made.
  pid_loop-Chosen :
      (f : ℕ) (done rest : List ℕ) (last safe : ℕ)
      → done ++ rest ≡ all
      → Unused q rest
      → Clear last safe done
      → 0 < last
      → last < safe
      → safe ≤ max_pid
      → distance q last ≤ f
      → Chosen all (pid_loop f all rest last safe)
  unfolding pid_loop
  pid_loop-Chosen f done [] last safe e u c lo lt le fuel = (
    record { last_pid = last; next_safe = safe },
    refl,
    lo,
    lt,
    le,
    subst (Clear last safe) (sym (append-nil done) ∙ e) c,
  )
  pid_loop-Chosen zero done (p ∷ rest) last safe e u c lo lt le fuel =
      let e' = snoc_all done p rest all e in
      elim (Bool-cases (p == last)) [
        | inl a ↦ absurd (u.0 (ground (arith, a, fuel)))
        | inr a ↦ rw a (elim (Bool-cases (ltb last p && ltb p safe)) [
          | inl b ↦ rw b (
              pid_loop-Chosen zero (done ++ p ∷ []) rest last p e' u.1
                (Clear-snoc last p p done
                  (Clear-tighten last safe last p done (omega arith) (ground arith) c)
                  (inr (omega arith)))
                lo (ground arith) (ground arith) fuel)
          | inr b ↦ rw b (
              pid_loop-Chosen zero (done ++ p ∷ []) rest last safe e' u.1
                (Clear-snoc last safe p done c (ground arith)) lo lt le fuel)
        ])
      ]
  pid_loop-Chosen (suc f) done (p ∷ rest) last safe e u c lo lt le fuel =
      let e' = snoc_all done p rest all e in
      elim (Bool-cases (p == last)) [
        | inl a ↦ rw a (elim (Bool-cases (leb safe (last + 1))) [
          | inl b ↦ rw b (
              pid_loop-Chosen f [] all (if leb max_pid (last + 1) then 1 else last + 1) max_pid refl
                unused tt (ground arith) (ground arith) (omega arith) (ground arith))
          | inr b ↦ rw b (
              pid_loop-Chosen (suc f) (done ++ p ∷ []) rest (last + 1) safe e' u.1
                (Clear-snoc (last + 1) safe p done
                  (Clear-tighten last safe (last + 1) safe done (omega arith) (omega arith) c)
                  (inl (ground arith)))
                (omega arith) (ground arith) le (ground arith))
        ])
        | inr a ↦ rw a (elim (Bool-cases (ltb last p && ltb p safe)) [
          | inl b ↦ rw b (
              pid_loop-Chosen (suc f) (done ++ p ∷ []) rest last p e' u.1
                (Clear-snoc last p p done
                  (Clear-tighten last safe last p done (omega arith) (ground arith) c)
                  (inr (omega arith)))
                lo (ground arith) (ground arith) fuel)
          | inr b ↦ rw b (
              pid_loop-Chosen (suc f) (done ++ p ∷ []) rest last safe e' u.1
                (Clear-snoc last safe p done c (ground arith)) lo lt le fuel)
        ])
      ]

-- Between two calls: no process has a number above the last one given and below `next_safe`.
pub record PidInv (all : List ℕ) (s : Pids) : Type 0 where
  pub clear : Clear (s.last_pid + 1) s.next_safe all
  pub bound : s.next_safe ≤ max_pid

-- Whatever numbers the processes have, as long as some number `q` is unused and none of theirs lies
-- above the last one given and below `next_safe`, which is at most MAX_PID, `get_pid` comes to an
-- end within twice MAX_PID jumps, with a number in range that no process has. With the new process
-- entered the two static variables are so again, as the next call needs them.
pub get_pid-Unused :
    (q fuel : ℕ) (all : List ℕ) (s : Pids)
    → 0 < q
    → q < max_pid
    → Unused q all
    → PidInv all s
    → 2 * max_pid ≤ fuel
    → (t : Pids) × (get_pid fuel all s ≡ some t)
      × (0 < t.last_pid)
      × (t.last_pid < max_pid)
      × Unused t.last_pid all
      × PidInv (t.last_pid ∷ all) t
unfolding get_pid
get_pid-Unused q fuel all s lo hi u inv enough = elim (Bool-cases (leb max_pid (s.last_pid + 1))) [
  | inl a ↦ rw a (
      entered (pid_loop fuel all all 1 max_pid) (
        pid_loop-Chosen q all lo hi u fuel [] all 1 max_pid refl u tt (omega arith) (omega arith)
          (omega arith) (ground arith)))
  | inr a ↦ rw a (elim (Bool-cases (leb s.next_safe (s.last_pid + 1))) [
    | inl b ↦ rw b (
        entered (pid_loop fuel all all (s.last_pid + 1) max_pid) (
          pid_loop-Chosen q all lo hi u fuel [] all (s.last_pid + 1) max_pid refl u tt (omega arith)
            (ground arith) (omega arith) (ground arith)))
    | inr b ↦ rw b (
        entered (some (record s { last_pid = s.last_pid + 1 })) (
          record s { last_pid = s.last_pid + 1 },
          refl,
          omega arith,
          ground arith,
          inv.bound,
          inv.clear,
        ))
  ])
]
  where
    entered :
        (r : Option Pids)
        → Chosen all r
        → (t : Pids) × (r ≡ some t)
          × (0 < t.last_pid)
          × (t.last_pid < max_pid)
          × Unused t.last_pid all
          × PidInv (t.last_pid ∷ all) t
    entered r (t, e, pos, lt, le, c) = (
      t,
      e,
      pos,
      omega arith,
      Clear-Unused t.last_pid t.next_safe all lt c,
      record {
        clear = (
          inl (omega arith),
          Clear-tighten t.last_pid t.next_safe (t.last_pid + 1) t.next_safe all (omega arith)
              (omega arith) c,
        );
        bound = le;
      },
    )
