-- ===== src/Tests.antt =====
-- The theorems of the library at concrete inputs, a module for each part of the program.
pub mod Block
pub mod Bitmap
pub mod Inode
pub mod Super
pub mod OpenFile
pub mod Directory
pub mod Vfs
pub mod Sane
pub mod Persisted
pub mod Fuse
pub mod HighLevel
