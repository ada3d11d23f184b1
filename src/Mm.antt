-- ===== src/Mm.antt =====
-- kern/mm: virtual memory areas.
pub mod Vma
pub mod Pages
