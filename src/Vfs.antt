-- ===== src/Vfs.antt =====
-- `VFS` of linux/fs/vfs.py.
pub mod State
pub mod Paths
pub mod Mounts
pub mod Choice
pub mod Calls
pub mod Slots
pub mod Table
pub mod Holds
pub mod Flags
