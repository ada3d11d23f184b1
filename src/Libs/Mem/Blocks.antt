-- ===== src/Libs/Mem/Blocks.antt =====
-- What the block functions of libs/string.c write, address by address.
use os_qemu.Prelude.{
  ℕ, zero, suc, ◌+◌, ◌-◌, ◌≤◌, ◌<◌, ◌≡◌, ◌↔◌, ◌⊎◌, inl, inr, refl, ltb, leb, Bool, ◌&&◌, arith,
  if◌then◌else◌, Bool-cases,
}
use os_qemu.Prelude.Int.{pos}
use os_qemu.Libs.Mem.{Memory, store, memset, copy_up, copy_down, memmove, memcpy, memcmp}

-- `a` lies in the block of `n` bytes at `p`.
abbrev pub in_block : ℕ → ℕ → ℕ → Bool
in_block p n a = leb p a && ltb a (p + n)

-- `memset` writes its byte to every address of the block and to no other.
pub memset-in_block :
    (m : Memory) (p c n a : ℕ) → memset m p c n a ≡ (if in_block p n a then c else m a)
unfolding memset
memset-in_block m p c zero a = ground arith
memset-in_block m p c (suc n) a = ground (arith, memset-in_block (store m p c) (p + 1) c n a)

copy_up-in_block :
    (m : Memory) (d s n a : ℕ)
    → (d ≤ s) ⊎ (s + n ≤ d)
    → copy_up m d s n a ≡ (if in_block d n a then m (s + (a - d)) else m a)
unfolding copy_up
copy_up-in_block m d s zero a h = ground arith
copy_up-in_block m d s (suc n) a h =
    ground (arith, copy_up-in_block (store m d (m s)) (d + 1) (s + 1) n a)

copy_down-in_block :
    (m : Memory) (d s n a : ℕ)
    → s ≤ d
    → copy_down m d s n a ≡ (if in_block d n a then m (s + (a - d)) else m a)
unfolding copy_down
copy_down-in_block m d s zero a h = ground arith
copy_down-in_block m d s (suc n) a h =
    ground (arith, copy_down-in_block (store m (d + n) (m (s + n))) d s n a)

-- `memmove` leaves at each address of the destination the byte that its source held before the call,
-- however the two overlap, and changes no other address.
pub memmove-in_block :
    (m : Memory) (dst src n a : ℕ)
    → memmove m dst src n a ≡ (if in_block dst n a then m (src + (a - dst)) else m a)
unfolding memmove
memmove-in_block m dst src n a = elim (Bool-cases (ltb src dst && ltb dst (src + n))) [
  | inl e ↦ rw e (copy_down-in_block m dst src n a (ground arith))
  | inr e ↦ rw e (copy_up-in_block m dst src n a (ground arith))
]

-- `memcpy` does the same where the destination does not start inside the source.
pub memcpy-memmove :
    (m : Memory) (dst src n a : ℕ)
    → (dst ≤ src) ⊎ (src + n ≤ dst)
    → memcpy m dst src n a ≡ memmove m dst src n a
unfolding memcpy
memcpy-memmove m dst src n a h =
    omega (arith, copy_up-in_block m dst src n a h, memmove-in_block m dst src n a)

-- `memcmp` returns zero exactly on blocks of equal bytes.
memcmp_equal : (m : Memory) (p q n i : ℕ) → memcmp m p q n ≡ pos 0 → i < n → m (p + i) ≡ m (q + i)
unfolding memcmp
memcmp_equal m p q zero i e h = elim h [ ]
memcmp_equal m p q (suc n) zero e h = ground arith
memcmp_equal m p q (suc n) (suc i) e h = ground (arith, memcmp_equal m (p + 1) (q + 1) n i)

memcmp_same :
    (m : Memory) (p q n : ℕ) → ((i : ℕ) → i < n → m (p + i) ≡ m (q + i)) → memcmp m p q n ≡ pos 0
unfolding memcmp
memcmp_same m p q zero h = refl
memcmp_same m p q (suc n) h = ground (
  arith,
  h 0,
  memcmp_same m (p + 1) (q + 1) n (λ i lt.
      let a : p + 1 + i ≡ p + suc i = omega arith in
      let b : q + 1 + i ≡ q + suc i = omega arith in rw (a, b) (h (suc i) (omega arith))),
)

-- `memcmp` returns zero exactly where the two blocks hold the same bytes.
pub memcmp_zero :
    (m : Memory) (p q n : ℕ) → (memcmp m p q n ≡ pos 0) ↔ ((i : ℕ) → i < n → m (p + i) ≡ m (q + i))
memcmp_zero m p q n = (λ e i h. memcmp_equal m p q n i e h, memcmp_same m p q n)
