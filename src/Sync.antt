-- ===== src/Sync.antt =====
-- kern/sync: wait queues and semaphores.
pub mod Wait
pub mod Sem
