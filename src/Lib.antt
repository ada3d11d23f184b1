-- ===== src/Lib.antt =====
-- A model of the ucore teaching kernel (the copy in _lab8, and lab2's best-fit allocator) and the
-- theorems that make its parts correct.
--
-- The program's parts, each with its files of the repository:
--
--   Libs   _lab8/libs. Libs.Dlist is list.h: the links of all nodes are one store of numbers, and a
--          ring of links stands for a list of nodes. Libs.Str, Libs.Mem and Libs.Number are string.c
--          and `printnum` of printfmt.c; a string is the list of the bytes from its address to the
--          end of its memory, and reading or writing past that end is `none`.
--   Sched  _lab8/kern/schedule. Sched.Timer is the timer list of sched.c, Sched.SkewHeap is
--          libs/skew_heap.h, Sched.Stride is default_sched_stride.c and Sched.Core the rest of
--          sched.c: `wakeup_proc`, `schedule`, `run_timer_list`. The state is `Sched`: the processes
--          by their addresses, the current and the idle one, the timers and the run queue.
--   Proc   _lab8/kern/process/proc.c: Proc.Pid is `get_pid`, Proc.Table the links between parents
--          and children and the search by number, Proc.Life the life of a process: `do_fork`,
--          `do_exit`, `do_wait`, `do_kill`, `do_sleep`, over the state of Sched. The memory, the open
--          files and the stack of a process are the parameter `Resources` of `do_fork`.
--   Sync   _lab8/kern/sync: Sync.Wait is wait.c and Sync.Sem is sem.c, over the state of Sched.
--   Mm     _lab8/kern/mm: Mm.Vma is the part of vmm.c on areas, Mm.Pages is default_pmm.c and
--          lab2/kern/mm/best_fit_pmm.c.
--   Fs     _lab8/kern/fs: Fs.Iobuf is iobuf.c, Fs.Vfs is vfs/inode.c, Fs.Path is vfs/vfslookup.c,
--          vfs/vfspath.c and the boot file system of vfs/vfs.c, Fs.Open is `vfs_open` of vfs/vfsfile.c,
--          Fs.Device is vfs/vfsdev.c, Fs.File is file.c, Fs.Bitmap is sfs/bitmap.c, and
--          Fs.Stdin is devs/dev_stdin.c over Sync.Wait. Fs.Sfs is the simple file system: sfs_io.c and
--          the blocks of sfs_inode.c, Fs.Sfs.Bmap the block map of a file there, with its direct
--          and its indirect blocks, Fs.Sfs.Io reading and writing through it, Fs.Sfs.Dir the directories
--          and Fs.Sfs.Inode the inodes in memory; it takes its blocks from Fs.Bitmap, and its disk is the
--          parameter `Device`. Reads go from Fs.File through an Fs.Iobuf to the
--          operations of an inode, the record `Vops`: each call of one goes through `vop_op`, with the
--          assertions of `inode_check` on the counts, and each operation can stop the kernel itself.
--          Fs.Sfs.Inode.Vnode has the operations of the simple file system as such a record.
--   Tests  the theorems at concrete inputs, and some runs.
--
-- A C function is a function of its name that takes the state and returns it. `Result` of
-- Prelude.Errors has a value, an error code, or `panic` for a failed assertion; a call that changes
-- the state and fails returns its error beside the state. Pointers are numbers and NULL is 0, or
-- `none` where nothing else is done with the pointer. Machine words are natural numbers, with `% 2 ^ w`
-- where the code may wrap; an `int` that only counts (references, open files, processes, the value of
-- a semaphore) is a natural number without a bound. Interrupts are off in every modelled section that
-- is one step; `__down` is two steps, before and behind its call of `schedule`.
--
-- Fuel: the list walks of Mm.Pages (`link_sorted`, `first_fit`, `best_fit`) run on fuel, one for each
-- link and two more at the end of the list, and the theorems ask for more than the length of the list.
-- `pid_loop` has fuel for its jumps, of which twice MAX_PID are enough. `reparent` and `find_zombie` run
-- along the children, on fuel of which more than their number is enough. `check_range` has its own
-- bound, and `print_num` has 64, the digits of a 64-bit number in base 2. All else is structural.
--
-- Not modelled: the page tables, traps, drivers and start-up, which are bound to the machine; the
-- mounting of the simple file system and the names that `vfs_getcwd` makes up; the copies between user
-- and kernel memory of sysfile.c; loading a program (`do_execve`,
-- `load_icode`); swapping and `kmalloc`; monitor.c, whose condition variables are comments yet to be
-- filled in; the copies of the same files in the other labs; user programs and tools.
pub mod Prelude
pub mod Libs
pub mod Sched
pub mod Proc
pub mod Sync
pub mod Mm
pub mod Fs
pub mod Tests
