-- ===== src/Libs.antt =====
-- libs: the C strings, the memory blocks, numbers as text, and the linked lists.
pub mod Str
pub mod Mem
pub mod Number
pub mod Dlist
