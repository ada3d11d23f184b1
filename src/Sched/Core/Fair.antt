-- ===== src/Sched/Core/Fair.antt =====
-- Strides wrap at 2^32, and still order the processes as unbounded strides would, as long as those
-- lie close together.
use os_qemu.Prelude.{
  ℕ, ◌+◌, ◌%◌, ◌^◌, ◌≤◌, ◌<◌, ◌≡◌, refl, ◌==◌, ltb, true, false, if◌then◌else◌, arith, Bool-cases,
  inl, inr, ◌∙◌, ap, sym,
}
use os_qemu.Prelude.Int.{ℤ}
use os_qemu.Sched.SkewHeap.{SkewHeap, null, node, is_minus_one, skew_heap_merge}
use os_qemu.Sched.SkewHeap.Order.{
  All, IsHeap, by_key, skew_heap_merge-IsHeap, skew_heap_merge-All, All-map, count, All-map_ne,
  IsHeap-ne, All-zip,
}
use os_qemu.Sched.Stride.{
  big_stride, stride_comp, pass, proc_stride_comp_f, stride_enqueue, with_slice, step_stride,
}
use os_qemu.Sched.Core.{take_next}
use os_qemu.Prelude.Errors.{ok}
use os_qemu.Sched.Core.Switch.{take_next_root, dequeued, merged}
use os_qemu.Sched.Proc.{Proc, Sched, update}

-- On strides less than 2^31 apart the wrapping comparison is that of the unbounded strides.
pub stride_comp_window :
    (v w : ℕ)
    → v < w + 2 ^ 31
    → w < v + 2 ^ 31
    → is_minus_one (stride_comp (v % 2 ^ 32) (w % 2 ^ 32)) ≡ ltb v w
unfolding stride_comp
stride_comp_window v w h k = ground arith

-- A step of a process moves it by at most BIG_STRIDE, and never back.
pub pass-le : (priority : ℕ) → pass priority ≤ big_stride
unfolding pass
pass-le priority = ground arith

-- The stride of a process is the wrapped value of `v p`, which lies at most BIG_STRIDE above `lo`.
abbrev pub IsNear : (ℕ → ℕ) → ℕ → (ℕ → Proc) → ℕ → Type 0
IsNear v lo procs p = ((procs p).lab6_stride ≡ v p % 2 ^ 32) × (lo ≤ v p) × (v p ≤ lo + big_stride)

-- Among near processes, comparing wrapped strides is comparing unbounded ones.
comp-IsNear :
    (v : ℕ → ℕ) (lo : ℕ) (procs : ℕ → Proc) (a b : ℕ)
    → IsNear v lo procs a
    → IsNear v lo procs b
    → is_minus_one (proc_stride_comp_f procs a b) ≡ is_minus_one (by_key v a b)
comp-IsNear v lo procs a b p q =
    rw (p.0, q.0, stride_comp_window (v a) (v b) (omega arith) (omega arith)) (ground arith)

module _ (comp : ℕ → ℕ → ℤ) (la ra lb rb : SkewHeap) (a b : ℕ) where
  merge_lt :
      is_minus_one (comp a b) ≡ true
      → skew_heap_merge comp (node la a ra) (node lb b rb)
        ≡ node (skew_heap_merge comp ra (node lb b rb)) a la
  unfolding skew_heap_merge
  merge_lt e = rw (e, skew_heap_merge)

  merge_ge :
      is_minus_one (comp a b) ≡ false
      → skew_heap_merge comp (node la a ra) (node lb b rb)
        ≡ node (skew_heap_merge comp (node la a ra) rb) b lb
  unfolding skew_heap_merge
  merge_ge e = rw (e, skew_heap_merge)

pub skew_heap_merge-IsNear :
    (v : ℕ → ℕ) (lo : ℕ) (procs : ℕ → Proc) (a b : SkewHeap)
    → All (IsNear v lo procs) a
    → All (IsNear v lo procs) b
    → skew_heap_merge (proc_stride_comp_f procs) a b ≡ skew_heap_merge (by_key v) a b
unfolding skew_heap_merge
skew_heap_merge-IsNear v lo procs null b p q = refl
skew_heap_merge-IsNear v lo procs (node la a ra) null p q = refl
skew_heap_merge-IsNear v lo procs (node la a ra) (node lb b rb) p q =
    let same = comp-IsNear v lo procs a b p.0 q.0 in
    elim (Bool-cases (is_minus_one (by_key v a b))) [
      | inl e ↦
          merge_lt (proc_stride_comp_f procs) la ra lb rb a b (same ∙ e)
          ∙ ap (λ h. node h a la) (skew_heap_merge-IsNear v lo procs ra (node lb b rb) p.2 q)
          ∙ sym (merge_lt (by_key v) la ra lb rb a b e)
      | inr e ↦
          merge_ge (proc_stride_comp_f procs) la ra lb rb a b (same ∙ e)
          ∙ ap (λ h. node h b lb) (skew_heap_merge-IsNear v lo procs (node la a ra) rb p q.2)
          ∙ sym (merge_ge (by_key v) la ra lb rb a b e)
    ]

-- The run queue is in order by the unbounded strides `v`, which lie within BIG_STRIDE of `lo`.
pub record IsFair (v : ℕ → ℕ) (lo : ℕ) (s : Sched) : Type 0 where
  pub near : All (IsNear v lo s.procs) s.rq.lab6_run_pool
  pub order : IsHeap v s.rq.lab6_run_pool

IsNear-update :
    (v : ℕ → ℕ) (lo : ℕ) (procs : ℕ → Proc) (p : ℕ) (a : Proc) (h : SkewHeap)
    → a.lab6_stride ≡ (procs p).lab6_stride
    → All (IsNear v lo procs) h
    → All (IsNear v lo (update procs p a)) h
IsNear-update v lo procs p a h e all =
    All-map (IsNear v lo procs) (IsNear v lo (update procs p a)) h (λ y n. ground arith) all

-- A near process may be enqueued: the run queue stays in order.
pub stride_enqueue-IsFair :
    (v : ℕ → ℕ) (lo p : ℕ) (s : Sched)
    → IsNear v lo s.procs p
    → IsFair v lo s
    → IsFair v lo (stride_enqueue p s)
unfolding stride_enqueue
stride_enqueue-IsFair v lo p s n f =
    let pool = s.rq.lab6_run_pool in
    let same = skew_heap_merge-IsNear v lo s.procs pool (node null p null) f.near (n, tt, tt) in
    record {
      near = IsNear-update v lo s.procs p (with_slice s.rq (s.procs p)) _ refl (
          skew_heap_merge-All (proc_stride_comp_f s.procs) (IsNear v lo s.procs) pool
            (node null p null) f.near (n, tt, tt));
      order = rw same (skew_heap_merge-IsHeap v pool (node null p null) f.order (tt, tt, tt, tt));
    }

-- The unbounded strides once `p` has been picked.
abbrev pub stepped : (ℕ → ℕ) → ℕ → ℕ → ℕ → ℕ
stepped v p priority q = if q == p then v p + pass priority else v q

-- The part of the heap without `p` is near the new strides.
IsNear-stepped :
    (v : ℕ → ℕ) (lo p : ℕ) (s : Sched) (h : SkewHeap)
    → count p h ≡ 0
    → lo ≤ v p
    → All (λ y. v p ≤ v y) h
    → All (IsNear v lo s.procs) h
    → All
        (IsNear
          (stepped v p (s.procs p).lab6_priority)
          (v p)
          (update s.procs p (step_stride (s.procs p))))
        h
IsNear-stepped v lo p s h c low above near =
    All-map_ne (λ y. (v p ≤ v y) × IsNear v lo s.procs y) _ p h c (λ y ne q. ground arith)
      (All-zip (λ y. v p ≤ v y) (IsNear v lo s.procs) h above near)

-- Picking and dequeuing the root `p` of a fair run queue: no process in it has a smaller stride, and
-- afterwards the strides of all in it, and that of `p` too, lie within BIG_STRIDE of the one that `p`
-- had: comparing them modulo 2 ^ 32 stays exact over this step, however often they wrap.
pub take_next-IsFair :
    (v : ℕ → ℕ) (lo : ℕ) (s : Sched) (l r : SkewHeap) (p : ℕ)
    → s.rq.lab6_run_pool ≡ node l p r
    → count p l + count p r ≡ 0
    → (s.procs p).has_rq ≡ true
    → 0 < s.rq.proc_num
    → IsFair v lo s
    → (t : Sched) × (take_next s ≡ ok (p, t))
      × All (λ y. v p ≤ v y) s.rq.lab6_run_pool
      × IsFair (stepped v p (s.procs p).lab6_priority) (v p) t
      × IsNear (stepped v p (s.procs p).lab6_priority) (v p) t.procs p
take_next-IsFair v lo s l r p e once o n f =
    let (pl, pr, ol, or) = rw e at f.order in
    let (np, nl, nr) = rw e at f.near in
    let v' = stepped v p (s.procs p).lab6_priority in
    let procs' = update s.procs p (step_stride (s.procs p)) in
    let near_l = IsNear-stepped v lo p s l (omega arith) np.1 pl nl in
    let near_r = IsNear-stepped v lo p s r (omega arith) np.1 pr nr in
    (
      dequeued p (merged p l r s) s,
      take_next_root s l r p e o n,
      rw e (omega arith, pl, pr),
      record {
        near =
            skew_heap_merge-All (proc_stride_comp_f procs') (IsNear v' (v p) procs') l r near_l
              near_r;
        order = rw (skew_heap_merge-IsNear v' (v p) procs' l r near_l near_r) (
            skew_heap_merge-IsHeap v' l r
              (IsHeap-ne v v' p l (omega arith) (λ y ne. ground arith) ol)
              (IsHeap-ne v v' p r (omega arith) (λ y ne. ground arith) or));
      },
      ground (arith, pass-le (s.procs p).lab6_priority),
    )
