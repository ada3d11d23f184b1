-- ===== src/Libs/Mem.antt =====
-- libs/string.c: the functions on blocks of memory, over one memory of bytes. Addresses are numbers;
-- a block ends before the last address, so that no pointer wraps.
pub mod Blocks
use os_qemu.Prelude.{ℕ, zero, suc, ◌+◌, ◌-◌, ◌==◌, ltb, Bool, true, false, ◌&&◌, if◌then◌else◌}
use os_qemu.Prelude.Int.{ℤ, pos, sub_ℕ}

abbrev pub Memory : Type 0
Memory = ℕ → ℕ

abbrev pub store : Memory → ℕ → ℕ → Memory
store m p v a = if a == p then v else m a

unfoldable pub memset : Memory → ℕ → ℕ → ℕ → Memory
memset m p c zero = m
memset m p c (suc n) = memset (store m p c) (p + 1) c n

-- `while (n -- > 0) *d ++ = *s ++`
unfoldable pub copy_up : Memory → ℕ → ℕ → ℕ → Memory
copy_up m d s zero = m
copy_up m d s (suc n) = copy_up (store m d (m s)) (d + 1) (s + 1) n

-- `while (n -- > 0) *-- d = *-- s`, from the ends of the blocks at `d` and `s`
unfoldable pub copy_down : Memory → ℕ → ℕ → ℕ → Memory
copy_down m d s zero = m
copy_down m d s (suc n) = copy_down (store m (d + n) (m (s + n))) d s n

unfoldable pub memmove : Memory → ℕ → ℕ → ℕ → Memory
unfolding copy_up copy_down
memmove m dst src n =
    if ltb src dst && ltb dst (src + n) then copy_down m dst src n else copy_up m dst src n

unfoldable pub memcpy : Memory → ℕ → ℕ → ℕ → Memory
unfolding copy_up
memcpy m dst src n = copy_up m dst src n

-- The bytes are compared as unsigned ones.
unfoldable pub memcmp : Memory → ℕ → ℕ → ℕ → ℤ
memcmp m p q zero = pos 0
memcmp m p q (suc n) = if m p == m q then memcmp m (p + 1) (q + 1) n else sub_ℕ (m p) (m q)
