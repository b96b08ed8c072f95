-- ===== src/HighLevel.antt =====
-- The script of examples/high_level.py: two processes, of which one mounts a disk and the other works
-- on its files, and what is on the disk after the umount. What is in the file of the disk is an
-- argument.
use slowfs.Prelude.{
  length, get_or, ℤ, pos, negsuc, ltb_ℤ, ℕ, bit_or, Bool, true, false, ◌&&◌, not, Option, [], ◌∷◌,
  ◌++◌,
}
use slowfs.Exec.{Result, ok, raised, Exec, pure, ◌>>=◌, ◌>>◌, assert_that}
use slowfs.Bytes.{Bytes, RawFile}
use slowfs.Block.Device.{bytes_eq, Disk, new_disk}
use slowfs.Errno.{enoent, minus, o_rdwr, o_creat}
use slowfs.Directory.Entry.{Text}
use slowfs.OpenFile.{Reply, got, failed}
use slowfs.Vfs.State.{no_disk, on_kernel}
use slowfs.Vfs.Calls.{mount, umount, open_file, close, write_call, read_call, seek_call, mkdir_call}
use slowfs.Process.{new_process, new_kernel, Machine, on_proc}
use slowfs.Fuse.Storage.{disk_size, create_formatted}

-- "tmp/slowfs.raw"
abbrev pub storage_path : Text
storage_path = 116 ∷ 109 ∷ 112 ∷ 47 ∷ 115 ∷ 108 ∷ 111 ∷ 119 ∷ 102 ∷ 115 ∷ 46 ∷ 114 ∷ 97 ∷ 119 ∷ []

-- "/mountpoint"
abbrev pub mountpoint : Text
mountpoint = 47 ∷ 109 ∷ 111 ∷ 117 ∷ 110 ∷ 116 ∷ 112 ∷ 111 ∷ 105 ∷ 110 ∷ 116 ∷ []

-- "/my-mnt"
abbrev pub my_mnt : Text
my_mnt = 47 ∷ 109 ∷ 121 ∷ 45 ∷ 109 ∷ 110 ∷ 116 ∷ []

-- "/mountpoint/file"
abbrev pub file_path : Text
file_path =
    47 ∷ 109 ∷ 111 ∷ 117 ∷ 110 ∷ 116 ∷ 112 ∷ 111 ∷ 105 ∷ 110 ∷ 116 ∷ 47 ∷ 102 ∷ 105 ∷ 108 ∷ 101 ∷ []

-- "/mountpoint/mydir"
abbrev pub mydir_path : Text
mydir_path =
    47 ∷ 109 ∷ 111 ∷ 117 ∷ 110 ∷ 116 ∷ 112 ∷ 111 ∷ 105 ∷ 110 ∷ 116 ∷ 47 ∷ 109 ∷ 121 ∷ 100 ∷ 105
    ∷ 114 ∷ []

-- "/mountpoint/mydir/file"
abbrev pub mydir_file_path : Text
mydir_file_path =
    47 ∷ 109 ∷ 111 ∷ 117 ∷ 110 ∷ 116 ∷ 112 ∷ 111 ∷ 105 ∷ 110 ∷ 116 ∷ 47 ∷ 109 ∷ 121 ∷ 100 ∷ 105
    ∷ 114 ∷ 47 ∷ 102 ∷ 105 ∷ 108 ∷ 101 ∷ []

-- "/mountpoint/not_a_subdir/file"
abbrev pub no_dir_file_path : Text
no_dir_file_path =
    47 ∷ 109 ∷ 111 ∷ 117 ∷ 110 ∷ 116 ∷ 112 ∷ 111 ∷ 105 ∷ 110 ∷ 116 ∷ 47 ∷ 110 ∷ 111 ∷ 116 ∷ 95 ∷ 97
    ∷ 95 ∷ 115 ∷ 117 ∷ 98 ∷ 100 ∷ 105 ∷ 114 ∷ 47 ∷ 102 ∷ 105 ∷ 108 ∷ 101 ∷ []

-- "/my-mnt/mydir/file"
abbrev pub my_mnt_file_path : Text
my_mnt_file_path =
    47 ∷ 109 ∷ 121 ∷ 45 ∷ 109 ∷ 110 ∷ 116 ∷ 47 ∷ 109 ∷ 121 ∷ 100 ∷ 105 ∷ 114 ∷ 47 ∷ 102 ∷ 105 ∷ 108
    ∷ 101 ∷ []

-- "Hello world"
abbrev pub hello_world : Bytes
hello_world = 72 ∷ 101 ∷ 108 ∷ 108 ∷ 111 ∷ 32 ∷ 119 ∷ 111 ∷ 114 ∷ 108 ∷ 100 ∷ []

-- "world"
abbrev pub world : Bytes
world = 119 ∷ 111 ∷ 114 ∷ 108 ∷ 100 ∷ []

-- "Im in a subdir"
abbrev pub in_a_subdir : Bytes
in_a_subdir = 73 ∷ 109 ∷ 32 ∷ 105 ∷ 110 ∷ 32 ∷ 97 ∷ 32 ∷ 115 ∷ 117 ∷ 98 ∷ 100 ∷ 105 ∷ 114 ∷ []

-- The two processes.
abbrev sudo : ℕ
sudo = 0

abbrev proc : ℕ
proc = 1

abbrev create_flags : ℕ
create_flags = bit_or o_creat o_rdwr

-- `assert fd >= 0`
is_fd : ℤ → Bool
is_fd (pos fd) = true
is_fd (negsuc n) = false

-- `assert proc.read(fd, n) == bs`
is_bytes : Bytes → Reply → Bool
is_bytes bs (got xs) = bytes_eq xs bs
is_bytes bs (failed err) = false

-- `assert x == y` for two numbers.
is_equal : ℤ → ℤ → Bool
is_equal x y = not (ltb_ℤ x y) && not (ltb_ℤ y x)

-- Disk(storage_path), whose file is the storage of the first disk.
reopen_disk : Exec Machine ℕ
reopen_disk m =
    let disks = m.kernel.disks in
    elim (new_disk true (get_or disks 0 no_disk).storage disk_size) [
      | ok disk ↦
          (ok (length disks), record m { kernel = record m.kernel { disks = disks ++ disk ∷ [] } })
      | raised e ↦ (raised e, m)
    ]

-- Writing to a file and reading it back.
use_file : Exec Machine (Unit {0})
unfolding is_fd is_bytes is_equal
use_file = do
  fd ← on_proc proc (open_file file_path create_flags 0o644)
  assert_that (is_fd fd)
  on_proc proc (write_call fd hello_world)
  on_proc proc (seek_call fd (pos 0))
  all ← on_proc proc (read_call fd (pos 11))
  assert_that (is_bytes hello_world all)
  nothing ← on_proc proc (read_call fd (pos 2))
  assert_that (is_bytes [] nothing)
  on_proc proc (seek_call fd (pos 6))
  part ← on_proc proc (read_call fd (pos 5))
  assert_that (is_bytes world part)
  closed ← on_proc proc (close fd)
  assert_that (is_equal closed (pos 0))

-- A file in a new directory, and one in a directory that is missing.
use_directory : Exec Machine (Unit {0})
unfolding is_bytes is_equal
use_directory = do
  on_proc proc (on_kernel (mkdir_call mydir_path 0o744))
  fd ← on_proc proc (open_file mydir_file_path create_flags 0o644)
  on_proc proc (write_call fd in_a_subdir)
  on_proc proc (seek_call fd (pos 0))
  all ← on_proc proc (read_call fd (pos 15))
  assert_that (is_bytes in_a_subdir all)
  on_proc proc (close fd)
  lost ← on_proc proc (open_file no_dir_file_path create_flags 0o644)
  assert_that (is_equal lost (minus enoent))
  on_proc proc (close lost)
  pure tt

-- What is there after the umount.
check_persisted : Exec Machine (Unit {0})
unfolding reopen_disk is_fd is_bytes
check_persisted = do
  on_proc sudo (on_kernel (umount mountpoint))
  disk ← reopen_disk
  on_proc sudo (on_kernel (mount disk my_mnt))
  fd ← on_proc sudo (open_file my_mnt_file_path 0 0o644)
  assert_that (is_fd fd)
  all ← on_proc sudo (read_call fd (pos 15))
  assert_that (is_bytes in_a_subdir all)
  on_proc sudo (close fd)
  pure tt

unfoldable pub script : Exec Machine (Unit {0})
unfolding use_file use_directory check_persisted
script = do on_proc sudo (on_kernel (mount 0 mountpoint)); use_file; use_directory; check_persisted

-- The machine that the script starts with.
started : Result Disk → Result Machine
started (raised e) = raised e
started (ok disk) =
    ok (record { kernel = new_kernel (disk ∷ []); procs = new_process ∷ new_process ∷ [] })

unfoldable pub main : Option RawFile → Result (Unit {0})
unfolding started script
main file = elim (started (create_formatted storage_path file)) [
  | ok m ↦ (script m).0
  | raised e ↦ raised e
]
