-- ===== src/Fuse.antt =====
-- The server of examples/fuse_slowfs.py, by parts: the file of the block device, the operations
-- that FUSE calls, and the listing of a directory.
pub mod Storage
pub mod Server
pub mod Listing
pub mod Table
pub mod TableWrites
pub mod Names
pub mod Readdir
pub mod Errors
