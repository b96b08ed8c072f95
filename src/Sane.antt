-- ===== src/Sane.antt =====
-- What every operation of the program keeps, on every branch, whether it returns or raises: the
-- layout of a file system, and that each reference that the program holds is to an object.
pub mod Disk
pub mod Super
pub mod Objects
pub mod Store
pub mod Loads
pub mod Directory
pub mod Make
pub mod Lookup
pub mod Mount
pub mod File
pub mod FileWrites
pub mod Paths
pub mod Kernel
pub mod Mounts
pub mod Calls
pub mod Opens
pub mod Layout
pub mod Synced
pub mod Remount
pub mod Mounted
pub mod Persisted
pub mod Reachable
