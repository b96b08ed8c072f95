-- ===== src/Lib.antt =====
-- slowfs: a file system in the manner of the Linux kernel, verified from its sectors up.
--
-- The program keeps a block device in a file (src/linux/block/device.py), groups its sectors into
-- blocks (src/linux/block/driver.py), and lays out a file system on the blocks: a superblock with
-- two bitmaps, a zone of inodes and a zone of data (src/linux/fs/super.py), inodes and directories
-- (src/linux/fs/inode.py), open files (src/linux/fs/file.py), and the system calls that a process
-- makes by path or by file descriptor (src/linux/fs/vfs.py, src/linux/sched.py, src/util.py). Two
-- programs use them: a server for FUSE (examples/fuse_slowfs.py) and a script that shows the calls
-- (examples/high_level.py).
--
-- The files:
--   Prelude    numbers, Boolean tests, lists and Python's ints, shared by all modules.
--   Exec       exceptions and state: an action runs on a state and returns or raises, and the state
--              at a raise is kept, as Python keeps what was changed before it. Kept is the logic in
--              which the invariants are proved: a reflexive and transitive step on the state that a
--              run makes on each branch, with rules for the program's statements.
--   Bytes      sequences of bytes, slices of them, and a raw file as the byte at each offset.
--   Block      Sizes and Device are block/__init__.py and block/device.py, Driver is
--              block/driver.py. The disk that a Block refers to is the state of its methods.
--   Bitmap     BitMap of fs/super.py. Bits shows it as a set.
--   Struct     the formats of `struct` that the program uses: big-endian words and padded texts.
--   Inode      Layout and Object are the layout, the object and the bytes of fs/inode.py.
--   Errno      the numbers of the modules errno and os.
--   Super      State and Store are SuperBlock of fs/super.py. Inode objects are shared by the
--              superblock and the open files, so they stand in a heap and a reference is an index.
--   Directory  Entry, Grow, Lookup and Make are the methods of Inode on directories. Invariant shows
--              the blocks of a directory as a list of entries, and Walk the tree of directories as a
--              relation between paths and objects.
--   Mount      SuperBlock.__init__ with and without `format`, and mkfs_slowfs of util.py.
--   OpenFile   File of fs/file.py. View shows the blocks of a file as one sequence of bytes, and
--              Sound is the invariant of an open file.
--   Vfs        State, Paths and Calls are VFS of fs/vfs.py. Disks and superblock objects have
--              references too, since two mountpoints may share a disk. Slots, Table and Holds are about
--              the open file table.
--   Process    Process of sched.py and start_kernel of util.py.
--   Sane       what each operation keeps of a well-formed state, from the disk (Disk, Super, Objects,
--              Store, Loads, Mount) by the directories and open files (Directory, Make, Lookup,
--              File, FileWrites) to the system calls (Kernel, Paths, Mounts, Calls, Opens) and
--              sequences of them (Reachable). Synced, Remount, Mounted and Persisted are about what
--              sync_fs stores and what a mount reads of it.
--   Fuse       SlowFS and create_slowfs_blockdev of examples/fuse_slowfs.py: Storage is the file of the
--              disk, Server the operations, Listing the generator readdir(). Table and TableWrites
--              are about the server's open file table, Names and Readdir about what is listed.
--   HighLevel  examples/high_level.py, whose assertions are assertions of the model. Tests runs it.
--   Tests      the theorems at concrete inputs.
--
-- Integers: Python's are unbounded. A number that the program never makes negative is a ℕ; an
-- offset, a file descriptor and a status are a ℤ. Where struct.pack refuses a value, so does the
-- model, with struct_error.
--
-- Loops: `for` over a range is recursion on the number of rounds left, which is the length of that
-- range. The `while` of File.read has no such range; each round reads at least one byte, so the
-- number of bytes to read is enough rounds.
--
-- Not modelled: the annotations of types.py, the tests, the texts of messages, the owner ids of an
-- inode (constants that nothing reads), the comparison of sectors, blocks and inodes with objects of
-- other classes, main() of the FUSE server, which hands the command line to the FUSE library, and
-- the failures of the host's files, but for makedirs() of an empty path. What os.path.exists() finds
-- is an argument of the two programs. The raw file has a byte at each offset, 0 past its end: a read
-- past the end leaves zeros in a new sector.
pub mod Prelude
pub mod Exec
pub mod Bytes
pub mod Block
pub mod Bitmap
pub mod Struct
pub mod Inode
pub mod Errno
pub mod Super
pub mod Directory
pub mod Mount
pub mod OpenFile
pub mod Vfs
pub mod Process
pub mod Sane
pub mod Fuse
pub mod HighLevel
pub mod Tests
