-- ===== src/Sched.antt =====
-- kern/schedule and libs/skew_heap.h: timers, the run queue and the stride scheduler.
pub mod Timer
pub mod SkewHeap
pub mod Proc
pub mod Stride
pub mod Core
