-- ===== src/Tests.antt =====
-- The theorems at concrete inputs, and runs of the code.
mod Sched
mod Sync
mod Proc
mod Fs
mod Mm
mod Paths
mod Libs
mod Disk
mod Dirs
mod Keyboard
mod Life
