-- ===== src/Process.antt =====
-- `Process` of linux/sched.py, and `start_kernel` of util.py. A process is its open file table; the
-- table of system calls that it is given holds the methods of one VFS, so a call runs that
-- method with the process.
use slowfs.Prelude.{set, get_or, replicate, ℤ, ℕ, Option, none, List, []}
use slowfs.Exec.{Exec, pure, ◌>>=◌}
use slowfs.Bytes.{Bytes}
use slowfs.Block.Device.{Disk}
use slowfs.Directory.Entry.{Text}
use slowfs.OpenFile.{Reply}
use slowfs.Vfs.State.{Kernel, Entry, Call, on_kernel}
use slowfs.Vfs.Calls.{
  sysfs, mount, umount, open_file, close, write_call, read_call, seek_call, mkdir_call,
}

-- resource.RLIMIT_NOFILE, which is the number of the resource limit on Linux, and the length of
-- the open file table.
abbrev pub rlimit_nofile : ℕ
rlimit_nofile = 7

unfoldable pub new_process : List (Option Entry)
new_process = replicate rlimit_nofile none

-- VFS()
unfoldable pub new_kernel : List Disk → Kernel
new_kernel disks = record { disks = disks; supers = []; sblocks = [] }

-- The kernel with all processes.
pub record Machine : Type 0 where
  pub kernel : Kernel
  pub procs : List (List (Option Entry))

-- The system calls that a process can make.
pub data Syscall : Type 0 where
  sys_open : Text → ℕ → ℕ → Syscall
  sys_close : ℤ → Syscall
  sys_write : ℤ → Bytes → Syscall
  sys_read : ℤ → ℤ → Syscall
  sys_seek : ℤ → ℤ → Syscall
  sys_mkdir : Text → ℕ → Syscall
  sys_mount : ℕ → Text → Syscall
  sys_umount : Text → Syscall
  sys_sysfs : Syscall

-- What a call returns: a number, the bytes of a read, or the table of mountpoints.
pub data Return : Type 0 where
  num : ℤ → Return
  bytes : Reply → Return
  table : List (Text × ℕ) → Return

abbrev returning : {A : Type 0} → (A → Return) → Exec Call A → Exec Call Return
returning f m = do a ← m; pure (f a)

unfoldable pub syscall : Syscall → Exec Call Return
syscall (sys_open pathname flags mode) = returning num (open_file pathname flags mode)
syscall (sys_close fd) = returning num (close fd)
syscall (sys_write fd buf) = returning num (write_call fd buf)
syscall (sys_read fd count) = returning bytes (read_call fd count)
syscall (sys_seek fd offset) = returning num (seek_call fd offset)
syscall (sys_mkdir pathname mode) = returning num (on_kernel (mkdir_call pathname mode))
syscall (sys_mount device target) = returning num (on_kernel (mount device target))
syscall (sys_umount mountpoint) = returning num (on_kernel (umount mountpoint))
syscall sys_sysfs = returning table (on_kernel sysfs)

-- Process number p makes a call.
abbrev pub on_proc : {A : Type 0} → ℕ → Exec Call A → Exec Machine A
on_proc p run m =
    let (r, c) = run (record { kernel = m.kernel; oft = get_or m.procs p [] }) in
    (r, record { kernel = c.kernel; procs = set m.procs p c.oft })

unfoldable pub run_call : ℕ → Syscall → Exec Machine Return
run_call p call = on_proc p (syscall call)
