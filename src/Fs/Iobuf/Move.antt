-- ===== src/Fs/Iobuf/Move.antt =====
-- What a call of `iobuf_move` or `iobuf_move_zeros` of kern/fs/iobuf.c transfers.
use os_qemu.Prelude.{
  ℕ, ◌+◌, ◌-◌, ◌%◌, ◌^◌, ◌≤◌, ◌<◌, ◌≡◌, ◌↔◌, ◌⊎◌, inl, inr, Bool-cases, refl, ◌==◌, Bool,
  if◌then◌else◌, none, some, arith,
}
use os_qemu.Prelude.Errors.{no_mem, ok}
use os_qemu.Libs.Mem.{Memory, memmove}
use os_qemu.Libs.Mem.Blocks.{in_block, memmove-in_block}
use os_qemu.Fs.Iobuf.{Iobuf, part, Moved, iobuf_skip, moved, iobuf_move}

-- `n` bytes have been transferred: the smaller of what was asked for and what was left of the buffer.
-- The buffer has advanced by as much, and the call fails if it was less than what was asked for.
pub record Advanced (iob : Iobuf) (len : ℕ) (r : Moved) : Type 0 where
  pub least : (r.copied ≤ len) × (r.copied ≤ iob.io_resid)
  pub full : (r.copied ≡ len) ⊎ (r.copied ≡ iob.io_resid)
  pub base : r.iob.io_base ≡ iob.io_base + r.copied
  pub offset : r.iob.io_offset ≡ (iob.io_offset + r.copied) % 2 ^ 64
  pub resid : r.iob.io_resid + r.copied ≡ iob.io_resid
  pub same : r.iob.io_len ≡ iob.io_len
  pub short : (r.failed ≡ none) ↔ (len ≤ iob.io_resid)

moved-Advanced :
    (iob : Iobuf) (len : ℕ) (m : Memory)
    → iob.io_offset < 2 ^ 64
    → (r : Moved) × (moved iob len m ≡ ok r)
      × Advanced iob len r
      × (r.memory ≡ m)
      × (r.copied ≡ part iob len)
unfolding moved iobuf_skip
moved-Advanced iob len m h = elim (Bool-cases (part iob len == 0)) [
  | inl z ↦ (
    left iob,
    ground (arith, z),
    record {
      least = ground arith;
      full = ground arith;
      base = ground arith;
      offset = ground arith;
      resid = ground arith;
      same = refl;
      short = ground arith;
    },
    refl,
    refl,
  )
  | inr n ↦
      let skipped = record iob {
        io_base = iob.io_base + part iob len;
        io_offset = (iob.io_offset + part iob len) % 2 ^ 64;
        io_resid = iob.io_resid - part iob len;
      } in
      (
        left skipped,
        ground (arith, n),
        record {
          least = ground arith;
          full = ground arith;
          base = refl;
          offset = refl;
          resid = ground arith;
          same = refl;
          short = ground arith;
        },
        refl,
        refl,
      )
]
  where
    left : Iobuf → Moved
    left b = record {
      failed = if len - part iob len == 0 then none else some no_mem;
      copied = part iob len;
      iob = b;
      memory = m;
    }

-- A move never fails an assertion. It transfers the smaller of what was asked for and what was left of
-- the buffer, and every byte from the one side to the other as it was before the call, however the two
-- overlap; no other byte of memory changes.
pub iobuf_move-Advanced :
    (iob : Iobuf) (buf len : ℕ) (m2b : Bool) (m : Memory)
    → iob.io_offset < 2 ^ 64
    → (r : Moved) × (iobuf_move iob buf len m2b m ≡ ok r)
      × Advanced iob len r
      × ((a : ℕ)
          → r.memory a ≡ (
              if in_block (if m2b then iob.io_base else buf) r.copied a
              then m ((if m2b then buf else iob.io_base) + (a - (if m2b then iob.io_base else buf)))
              else m a))
unfolding iobuf_move
iobuf_move-Advanced iob buf len m2b m h =
    let src = if m2b then buf else iob.io_base in
    let dst = if m2b then iob.io_base else buf in
    let (r, run, adv, mem, n) = moved-Advanced iob len (memmove m dst src (part iob len)) h in
    (r, run, adv, λ a. rw (mem, n) (memmove-in_block m dst src (part iob len) a))
