-- ===== src/Proc.antt =====
-- kern/process/proc.c: the table of processes.
pub mod Pid
pub mod Table
pub mod Life
