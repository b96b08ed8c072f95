-- ===== src/Fuse/Storage.antt =====
-- The block device in a file: `create_slowfs_blockdev` of examples/fuse_slowfs.py, and the one of
-- examples/high_level.py, which formats a file that is there too. What os.path.exists() finds at a
-- path is an argument. The file of a disk is its storage, so that nothing else holds it.
use slowfs.Prelude.{length, take, ℕ, ◌-◌, true, Option, none, some, [], ◌∷◌}
use slowfs.Exec.{os_error, Result, ok, raised}
use slowfs.Bytes.{RawFile}
use slowfs.Block.Device.{Disk, new_disk}
use slowfs.Directory.Entry.{Text}
use slowfs.Mount.{mkfs_slowfs}
use slowfs.Vfs.Paths.{basename}

-- The argument `size` that Disk() has by default.
abbrev pub disk_size : ℕ
disk_size = 688128

-- text.removesuffix(suffix) where the suffix is there.
unfoldable pub remove_suffix : Text → Text → Text
remove_suffix text suffix = take (length text - length suffix) text

-- os.makedirs(path, exist_ok=True), which refuses the empty path. Other failures of the host are not modelled.
make_dirs : Text → Result (Unit {0})
make_dirs [] = raised os_error
make_dirs (c ∷ cs) = ok tt

-- Disk(pathname) and mkfs_slowfs(disk=disk).
unfoldable pub formatted : Result Disk → Result Disk
formatted (raised e) = raised e
formatted (ok disk) =
    let (r, disk') = mkfs_slowfs disk in elim r [ ok _ ↦ ok disk' | raised e ↦ raised e ]

-- An empty file, in a directory that is there by then.
unfoldable pub make_file : Text → Result RawFile
unfolding make_dirs remove_suffix
make_file pathname = elim (make_dirs (remove_suffix pathname (basename pathname))) [
  | ok _ ↦ ok (λ _. 0)
  | raised e ↦ raised e
]

unfoldable pub disk_at : Result RawFile → Result Disk
disk_at (raised e) = raised e
disk_at (ok file) = new_disk true file disk_size

-- create_slowfs_blockdev(pathname) of the FUSE server.
unfoldable pub create_slowfs_blockdev : Text → Option RawFile → Result Disk
unfolding make_file disk_at formatted
create_slowfs_blockdev pathname none = formatted (disk_at (make_file pathname))
create_slowfs_blockdev pathname (some file) = disk_at (ok file)

-- create_slowfs_blockdev(pathname) of the other example.
unfoldable pub create_formatted : Text → Option RawFile → Result Disk
unfolding make_file disk_at formatted
create_formatted pathname none = formatted (disk_at (make_file pathname))
create_formatted pathname (some file) = formatted (disk_at (ok file))
