-- ===== src/Directory.antt =====
-- The methods of `Inode` (linux/fs/inode.py) that work on directories: entries, look-up, growth.
pub mod Entry
pub mod EntryBytes
pub mod Grow
pub mod Lookup
pub mod Make
pub mod Links
pub mod Find
pub mod Invariant
pub mod Walk
