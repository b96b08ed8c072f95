-- ===== src/Super.antt =====
-- `SuperBlock` of linux/fs/super.py.
pub mod State
pub mod Store
pub mod Taken
pub mod Inodes
pub mod Filed
pub mod Quota
pub mod Blocks
pub mod Held
