-- ===== src/Inode.antt =====
-- Inodes as objects in memory and as bytes on the disk (linux/fs/inode.py, linux/fs/__init__.py).
pub mod Layout
pub mod Object
pub mod RoundTrip
