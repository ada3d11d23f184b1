-- ===== src/Tests/Keyboard.antt =====
-- The keyboard buffer at concrete inputs.
use os_qemu.Prelude.{◌==◌, if◌then◌else◌, arith}
use os_qemu.Fs.Stdin.{Stdin, keep_char}
use os_qemu.Fs.Stdin.Fifo.{InOrder, Kept, keep_char-Kept, Taken, dev_stdin_read-Taken}
use os_qemu.Tests.Sync.{one_waiter}

-- Three characters are in the buffer, around its end.
abbrev three_chars : Stdin
three_chars = record {
  stdin_buffer = λ i. if i == 4095 then 97 else 98;
  p_rpos = 4095;
  p_wpos = 4098;
  wait_queue = 7;
  sync = one_waiter;
}

three_chars-InOrder : InOrder three_chars
three_chars-InOrder = record { ordered = omega arith; bounded = omega arith; small = omega arith }

keep_char-Kept_example :
    InOrder (keep_char 99 three_chars) × Kept 99 three_chars (keep_char 99 three_chars)
keep_char-Kept_example = keep_char-Kept 99 three_chars three_chars-InOrder (omega arith)

dev_stdin_read-Taken_example : Taken 20 5 three_chars
dev_stdin_read-Taken_example = dev_stdin_read-Taken 20 5 three_chars three_chars-InOrder
