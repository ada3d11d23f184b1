-- ===== src/Fs/Stdin/Fifo.antt =====
-- The keyboard buffer of kern/fs/devs/dev_stdin.c as a bounded queue of characters.
use os_qemu.Prelude.{
  ℕ, zero, suc, ◌+◌, ◌-◌, ◌%◌, ◌^◌, ◌≤◌, ◌<◌, ◌≡◌, ◌≢◌, ◌⊎◌, inl, inr, refl, sym, ap, ap₂, ◌∙◌,
  true, false, List, [], ◌∷◌, ◌++◌, arith, length, take, drop, append_assoc, append-nil, Bool-cases,
  ltb,
}
use os_qemu.Prelude.Errors.{ok, ◌>>=◌}
use os_qemu.Fs.Stdin.{
  bufsize, Stdin, put_char, keep_char, dev_stdin_read, read_on, finished, waiting,
}
use os_qemu.Sync.Wait.{wait_current_set}
use os_qemu.Sched.Proc.{wt_kbd}

-- The `n` characters from the position `r` on.
abbrev pub window : (ℕ → ℕ) → ℕ → ℕ → List ℕ
window buf r zero = []
window buf r (suc n) = buf (r % bufsize) ∷ window buf (r + 1) n

-- The characters that are not yet read, the oldest first.
abbrev pub contents : Stdin → List ℕ
contents s = window s.stdin_buffer s.p_rpos (s.p_wpos - s.p_rpos)

-- The positions are in order, at most a buffer apart, and have not run over.
pub record InOrder (s : Stdin) : Type 0 where
  pub ordered : s.p_rpos ≤ s.p_wpos
  pub bounded : s.p_wpos - s.p_rpos ≤ bufsize
  pub small : s.p_wpos < 2 ^ 63

pub length-window : (buf : ℕ → ℕ) (r n : ℕ) → length (window buf r n) ≡ n
length-window buf r zero = refl
length-window buf r (suc n) = ap suc (length-window buf (r + 1) n)

window-snoc :
    (buf : ℕ → ℕ) (r n : ℕ) → window buf r (suc n) ≡ window buf r n ++ buf ((r + n) % bufsize) ∷ []
window-snoc buf r zero = ap (λ (k : ℕ). buf (k % bufsize) ∷ []) (omega arith)
window-snoc buf r (suc n) =
    let e : r + suc n ≡ r + 1 + n = omega arith in
    rw e (ap (λ xs. buf (r % bufsize) ∷ xs) (window-snoc buf (r + 1) n))

-- A write outside a window leaves it.
window-put_char :
    (buf : ℕ → ℕ) (i c r n : ℕ)
    → ((j : ℕ) → r ≤ j → j < r + n → j % bufsize ≢ i)
    → window (put_char buf i c) r n ≡ window buf r n
window-put_char buf i c r zero f = refl
window-put_char buf i c r (suc n) f =
    ap₂ ◌∷◌ (let ne = f r (omega arith) (omega arith) in ground arith)
      (window-put_char buf i c (r + 1) n (λ j h h'. f j (omega arith) (omega arith)))

-- The first character of a window overwritten.
window-put_first :
    (buf : ℕ → ℕ) (c r n : ℕ)
    → n ≤ bufsize
    → n ≢ 0
    → window (put_char buf (r % bufsize) c) r n ≡ c ∷ drop 1 (window buf r n)
window-put_first buf c r zero h h' = absurd (h' refl)
window-put_first buf c r (suc n) h h' =
    ap₂ ◌∷◌ (ground arith) (window-put_char buf (r % bufsize) c (r + 1) n (λ j lo hi. omega arith))

-- What a character comes to that is written to the buffer.
abbrev pub Kept : ℕ → Stdin → Stdin → Type 0
Kept c s s' =
    ((length (contents s) < bufsize) × (contents s' ≡ contents s ++ c ∷ []))
    ⊎ ((length (contents s) ≡ bufsize) × (contents s' ≡ c ∷ drop 1 (contents s)))

-- `keep_char` on a buffer that is in order leaves it so. With room in the buffer the character comes
-- behind those not yet read; in a full buffer it takes the place of the oldest of them.
pub keep_char-Kept :
    (c : ℕ) (s : Stdin)
    → InOrder s
    → s.p_wpos + 1 < 2 ^ 63
    → InOrder (keep_char c s) × Kept c s (keep_char c s)
unfolding keep_char
keep_char-Kept c s i h =
    let n = s.p_wpos - s.p_rpos in
    let len = length-window s.stdin_buffer s.p_rpos n in
    let o = i.ordered in
    let b = i.bounded in
    elim (Bool-cases (ltb n bufsize)) [
      | inl e ↦
          let lt : n < bufsize = ground arith in
          let e₁ : (s.p_wpos + 1) % 2 ^ 64 - s.p_rpos ≡ suc n = omega arith in
          let at : s.p_rpos + n ≡ s.p_wpos = omega arith in
          let i' : InOrder (keep_char c s) =
            rw e (record { ordered = omega arith; bounded = omega arith; small = omega arith }) in
          let same =
            window-put_char s.stdin_buffer (s.p_wpos % bufsize) c s.p_rpos n
              (λ j lo hi. omega arith) in
          (
            i',
            inl (
              rw len lt,
              rw (e, e₁, window-snoc (put_char s.stdin_buffer (s.p_wpos % bufsize) c) s.p_rpos n)
                  (ap₂ ◌++◌ same (rw at (ap (λ x. x ∷ []) (ground arith)))),
            ),
          )
      | inr e ↦
          let eq : n ≡ bufsize = ground arith in
          let at : s.p_wpos % bufsize ≡ s.p_rpos % bufsize = omega arith in
          let first = window-put_first s.stdin_buffer c s.p_rpos n b (omega arith) in
          (
            rw e (record { ordered = o; bounded = b; small = i.small }),
            inr (len ∙ eq, rw (e, at) first),
          )
    ]

module _ (wait : ℕ) where
  -- A read of no more than what is there.
  read_there :
      (n : ℕ) (got : List ℕ) (s : Stdin)
      → s.p_rpos + n ≤ s.p_wpos
      → s.p_wpos < 2 ^ 63
      → read_on wait n got s
        ≡ ok (
            finished (got ++ window s.stdin_buffer s.p_rpos n) (record s { p_rpos = s.p_rpos + n }))
  unfolding read_on
  read_there zero got s h h' =
      let e : s.p_rpos + 0 ≡ s.p_rpos = omega arith in rw (e, append-nil got) refl
  read_there (suc n) got s h h' =
      let c = s.stdin_buffer (s.p_rpos % bufsize) in
      let e : (s.p_rpos + 1) % 2 ^ 64 ≡ s.p_rpos + 1 = omega arith in
      let lt : ltb s.p_rpos s.p_wpos ≡ true = ground arith in
      let sum : s.p_rpos + suc n ≡ s.p_rpos + 1 + n = omega arith in
      let ih = read_there n (got ++ c ∷ []) (record s { p_rpos = s.p_rpos + 1 }) (omega arith) h' in
      rw (lt, e, sum)
        (ih ∙ rw (append_assoc got (c ∷ []) (window s.stdin_buffer (s.p_rpos + 1) n)) refl)

  -- A read of more: it takes all there is, and waits.
  read_short :
      (m n : ℕ) (got : List ℕ) (s : Stdin)
      → s.p_rpos + m ≡ s.p_wpos
      → s.p_wpos < 2 ^ 63
      → read_on wait (m + suc n) got s ≡ (
          wait_current_set s.wait_queue wait wt_kbd s.sync >>= (λ t. ok (
            waiting
              (got ++ window s.stdin_buffer s.p_rpos m)
              (suc n)
              (record s { p_rpos = s.p_wpos; sync = t }))))
  unfolding read_on
  read_short zero n got s h h' =
      let e : ltb s.p_rpos s.p_wpos ≡ false = ground arith in
      let same : s.p_wpos ≡ s.p_rpos = omega arith in
      let z : 0 + suc n ≡ suc n = omega arith in rw (z, e, same, append-nil got) refl
  read_short (suc m) n got s h h' =
      let c = s.stdin_buffer (s.p_rpos % bufsize) in
      let e : (s.p_rpos + 1) % 2 ^ 64 ≡ s.p_rpos + 1 = omega arith in
      let lt : ltb s.p_rpos s.p_wpos ≡ true = ground arith in
      let ih =
        read_short m n (got ++ c ∷ []) (record s { p_rpos = s.p_rpos + 1 }) (omega arith) h' in
      let z : suc m + suc n ≡ suc (m + suc n) = omega arith in
      rw (z, lt, e)
        (ih ∙ rw (append_assoc got (c ∷ []) (window s.stdin_buffer (s.p_rpos + 1) m)) refl)

take-window : (buf : ℕ → ℕ) (r n m : ℕ) → take n (window buf r (n + m)) ≡ window buf r n
take-window buf r zero m = refl
take-window buf r (suc n) m =
    let z : suc n + m ≡ suc (n + m) = omega arith in
    rw z (ap (λ xs. buf (r % bufsize) ∷ xs) (take-window buf (r + 1) n m))

drop-window : (buf : ℕ → ℕ) (r n m : ℕ) → drop n (window buf r (n + m)) ≡ window buf (r + n) m
drop-window buf r zero m =
    let z : 0 + m ≡ m = omega arith in let z' : r + 0 ≡ r = omega arith in rw (z, z') refl
drop-window buf r (suc n) m =
    let e : r + suc n ≡ r + 1 + n = omega arith in
    let z : suc n + m ≡ suc (n + m) = omega arith in rw (z, e) (drop-window buf (r + 1) n m)

-- What a read of `len` characters comes to.
abbrev pub Taken : ℕ → ℕ → Stdin → Type 0
Taken wait len s =
    ((len ≤ length (contents s))
      × ((s' : Stdin) × (dev_stdin_read wait len s ≡ ok (finished (take len (contents s)) s'))
          × (contents s' ≡ drop len (contents s))
          × InOrder s'))
    ⊎ ((length (contents s) < len)
        × (dev_stdin_read wait len s ≡ (
            wait_current_set s.wait_queue wait wt_kbd s.sync >>= (λ t. ok (
              waiting (contents s) (len - length (contents s))
                (record s { p_rpos = s.p_wpos; sync = t }))))))

-- A read from a buffer in order takes the oldest characters in their order and leaves the others, if
-- as many are there as it asks for. Where fewer are, it takes them all, and puts its process to sleep
-- in the queue of the keyboard with the number still wanted.
pub dev_stdin_read-Taken : (wait len : ℕ) (s : Stdin) → InOrder s → Taken wait len s
unfolding dev_stdin_read
dev_stdin_read-Taken wait len s i =
    let n = s.p_wpos - s.p_rpos in
    let buf = s.stdin_buffer in
    let l = length-window buf s.p_rpos n in
    let o = i.ordered in
    let b = i.bounded in
    elim (Bool-cases (ltb n len)) [
      | inl e ↦
          let lt : n < len = ground arith in
          let sum : len ≡ n + suc (len - n - 1) = omega arith in
          let rest : len - length (contents s) ≡ suc (len - n - 1) = omega (arith, l) in
          inr (
            omega (arith, l),
            rw (ap (λ k. read_on wait k [] s) sum)
                (rw rest (read_short wait n (len - n - 1) [] s (omega arith) i.small)),
          )
      | inr e ↦
          let le : len ≤ n = ground arith in
          let sum : n ≡ len + (n - len) = omega arith in
          let left : s.p_wpos - (s.p_rpos + len) ≡ n - len = omega arith in
          inl (
            omega (arith, l),
            (
              record s { p_rpos = s.p_rpos + len },
              read_there wait len [] s (omega arith) i.small
                  ∙ rw (ap (λ k. take len (window buf s.p_rpos k)) sum)
                      (rw (take-window buf s.p_rpos len (n - len)) refl),
              rw left (
                  sym (
                    ap (λ k. drop len (window buf s.p_rpos k)) sum
                    ∙ drop-window buf s.p_rpos len (n - len))),
              record { ordered = omega arith; bounded = omega arith; small = i.small },
            ),
          )
    ]
