-- ===== src/Fs/Stdin.antt =====
-- kern/fs/devs/dev_stdin.c: the keyboard buffer, over the wait queues of kern/sync.
pub mod Fifo
use os_qemu.Prelude.{
  ℕ, zero, suc, ◌+◌, ◌-◌, ◌%◌, ◌^◌, ◌==◌, not, ltb, Bool, true, false, if◌then◌else◌, Option, none,
  some, List, [], ◌∷◌, ◌++◌,
}
use os_qemu.Prelude.Errors.{Error, inval, Result, ok, err, panic, ◌>>=◌}
use os_qemu.Fs.Iobuf.{Iobuf}
use os_qemu.Sched.Proc.{wt_kbd}
use os_qemu.Sync.Wait.{
  Sync, wait_queue_init, wait_queue_empty, wakeup_queue, wait_current_set, wait_queue_del,
  wait_in_queue,
}

-- STDIN_BUFSIZE
abbrev pub bufsize : ℕ
bufsize = 4096

-- The static variables, and the processes; the positions are `off_t`s, 64 bits in two's complement.
-- `wait_queue` is the number of the queue.
pub record Stdin : Type 0 where
  pub stdin_buffer : ℕ → ℕ
  pub p_rpos : ℕ
  pub p_wpos : ℕ
  pub wait_queue : ℕ
  pub sync : Sync

abbrev pub put_char : (ℕ → ℕ) → ℕ → ℕ → ℕ → ℕ
put_char buf i c x = if x == i then c else buf x

-- The part of `stdin_device_init` behind the table of functions.
unfoldable pub stdin_device_init : Stdin → Stdin
unfolding wait_queue_init
stdin_device_init s = record s {
  p_rpos = 0;
  p_wpos = 0;
  sync = wait_queue_init s.wait_queue s.sync;
}

-- The buffer and the write position that `dev_stdin_write` leaves.
unfoldable pub keep_char : ℕ → Stdin → Stdin
keep_char c s =
    let t : Stdin = record s { stdin_buffer = put_char s.stdin_buffer (s.p_wpos % bufsize) c } in
    if ltb (s.p_wpos - s.p_rpos) bufsize then record t { p_wpos = (s.p_wpos + 1) % 2 ^ 64 } else t

-- `wakeup_queue(wait_queue, WT_KBD, 1)` on a queue that is not empty.
unfoldable pub wake_readers : Stdin → Result Stdin
wake_readers s =
    if wait_queue_empty s.wait_queue s.sync
    then ok s
    else wakeup_queue s.wait_queue wt_kbd true s.sync >>= (λ t. ok (record s { sync = t }))

unfoldable pub dev_stdin_write : ℕ → Stdin → Result Stdin
unfolding keep_char wake_readers
dev_stdin_write c s = if c == 0 then ok s else wake_readers (keep_char c s)

-- What a read comes to: the characters put into the buffer so far, in order, and, where it has to
-- wait, how many are still wanted.
pub data Reading : Type 0 where
  finished : List ℕ → Stdin → Reading
  waiting : List ℕ → ℕ → Stdin → Reading

-- `dev_stdin_read` up to the switch to another process, with `n` of the `len` rounds to go and `got`
-- read before. `wait` is the entry on the stack of the current process.
unfoldable pub read_on : ℕ → ℕ → List ℕ → Stdin → Result Reading
read_on wait zero got s = ok (finished got s)
read_on wait (suc n) got s =
    let next =
      read_on wait n (got ++ s.stdin_buffer (s.p_rpos % bufsize) ∷ [])
        (record s { p_rpos = (s.p_rpos + 1) % 2 ^ 64 }) in
    if ltb s.p_rpos s.p_wpos
    then next
    else wait_current_set s.wait_queue wait wt_kbd s.sync
      >>= (λ t. ok (waiting got (suc n) (record s { sync = t })))

-- `dev_stdin_read` when the process runs again: `wait_current_del`, and the flags.
unfoldable pub read_resume : ℕ → ℕ → List ℕ → Stdin → Result Reading
unfolding read_on
read_resume wait n got s =
    let left =
      if wait_in_queue wait s.sync then wait_queue_del s.wait_queue wait s.sync else ok s.sync in
    left >>= (λ t.
      let s' : Stdin = record s { sync = t } in
      if (t.waits wait).wakeup_flags == wt_kbd then read_on wait n got s' else ok (finished got s'))

unfoldable pub dev_stdin_read : ℕ → ℕ → Stdin → Result Reading
unfolding read_on
dev_stdin_read wait len s = read_on wait len [] s

-- `open_flags` other than O_RDONLY are refused.
unfoldable pub stdin_open : ℕ → Option Error
stdin_open flags = if flags == 0 then none else some inval

-- The end of `stdin_io`, with what `dev_stdin_read` returned.
unfoldable pub stdin_taken : ℕ → Iobuf → Iobuf
stdin_taken count iob = if ltb 0 count then record iob { io_resid = iob.io_resid - count } else iob

unfoldable pub stdin_io : ℕ → Iobuf → Bool → Stdin → Result Reading
unfolding dev_stdin_read
stdin_io wait iob write s = if write then err inval else dev_stdin_read wait iob.io_resid s
