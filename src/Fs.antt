-- ===== src/Fs.antt =====
-- kern/fs: open files.
pub mod Iobuf
pub mod Vfs
pub mod Path
pub mod Open
pub mod File
pub mod Bitmap
pub mod Device
pub mod Stdin
pub mod Sfs
