-- ===== src/Fs/Iobuf.antt =====
-- kern/fs/iobuf.c: the buffer of an input or output in progress.
pub mod Move
use os_qemu.Prelude.{
  ℕ, ◌+◌, ◌-◌, ◌%◌, ◌^◌, ◌==◌, leb, ltb, Bool, true, false, if◌then◌else◌, Option, none, some,
}
use os_qemu.Prelude.Errors.{Error, no_mem, Result, ok, err, panic}
use os_qemu.Libs.Mem.{Memory, memset, memmove}

-- `io_offset` is an `off_t`, 64 bits in two's complement.
pub record Iobuf : Type 0 where
  pub io_base : ℕ
  pub io_offset : ℕ
  pub io_len : ℕ
  pub io_resid : ℕ

unfoldable pub iobuf_init : ℕ → ℕ → ℕ → Iobuf
iobuf_init base len offset = record {
  io_base = base;
  io_offset = offset;
  io_len = len;
  io_resid = len;
}

-- The macro `iobuf_used`; nothing makes `io_resid` larger than `io_len`.
abbrev pub iobuf_used : Iobuf → ℕ
iobuf_used iob = iob.io_len - iob.io_resid

unfoldable pub iobuf_skip : Iobuf → ℕ → Result Iobuf
iobuf_skip iob n =
    if leb n iob.io_resid
    then ok (record iob {
      io_base = iob.io_base + n;
      io_offset = (iob.io_offset + n) % 2 ^ 64;
      io_resid = iob.io_resid - n;
    })
    else panic

-- `alen`
abbrev pub part : Iobuf → ℕ → ℕ
part iob len = if ltb len iob.io_resid then len else iob.io_resid

-- What a move leaves: the error that it returns, `*copiedp`, the buffer and the memory.
pub record Moved : Type 0 where
  pub failed : Option Error
  pub copied : ℕ
  pub iob : Iobuf
  pub memory : Memory

-- The part of a move behind the copying.
unfoldable pub moved : Iobuf → ℕ → Memory → Result Moved
unfolding iobuf_skip
moved iob len m =
    let alen = part iob len in
    elim (if alen == 0 then ok iob else iobuf_skip iob alen) [
      | ok iob' ↦ ok (record {
        failed = if len - alen == 0 then none else some no_mem;
        copied = alen;
        iob = iob';
        memory = m;
      })
      | err e ↦ err e
      | panic ↦ panic
    ]

unfoldable pub iobuf_move : Iobuf → ℕ → ℕ → Bool → Memory → Result Moved
unfolding moved memmove
iobuf_move iob buf len m2b m =
    let alen = part iob len in
    let src = if m2b then buf else iob.io_base in
    let dst = if m2b then iob.io_base else buf in moved iob len (memmove m dst src alen)

unfoldable pub iobuf_move_zeros : Iobuf → ℕ → Memory → Result Moved
unfolding moved memset
iobuf_move_zeros iob len m = moved iob len (memset m iob.io_base 0 (part iob len))
