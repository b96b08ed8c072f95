-- ===== src/Tests/Sane.antt =====
-- A machine with two processes, on which a mount has run.
use slowfs.Prelude.{
  ◌==◌, if◌then◌else◌, length, replicate, ◌<◌, bit_or, ◌≡◌, refl, sym, subst, none, [], ◌∷◌, arith,
}
use slowfs.Bytes.{read_at}
use slowfs.Block.Device.{sector_get, sector_slice, Disk, read_sector}
use slowfs.Block.Driver.{get_byte, get_slice}
use slowfs.Bitmap.{test_bit, from_block, iterate}
use slowfs.Struct.{of_be32, signed_of, unpack_words}
use slowfs.Inode.Layout.{is_reg}
use slowfs.Inode.Object.{find_blocks, from_bytes}
use slowfs.Errno.{o_rdwr, o_creat, o_trunc}
use slowfs.Super.State.{inode_at}
use slowfs.Directory.Entry.{slash}
use slowfs.Mount.{new_super}
use slowfs.Vfs.State.{Call, super_at}
use slowfs.Vfs.Paths.{find_mount}
use slowfs.Vfs.Calls.{sysfs, mount, open_file}
use slowfs.Vfs.Table.{IsOpened, Opens, open_file_lem}
use slowfs.Vfs.Flags.{open_file-flags}
use slowfs.Process.{new_process, new_kernel, Machine, sys_mount, syscall, run_call}
use slowfs.Sane.Kernel.{disk_of}
use slowfs.Sane.Layout.{AllData}
use slowfs.Sane.Reachable.{
  IsWellFormed, Reachable, booted, called, Reachable-IsWellFormed, Reachable-AllData,
}

-- A disk that is formatted but for its root: the identifier, and zeros.
abbrev pub bare_disk : Disk
bare_disk = record { num_sectors = 40; storage = λ p. if p == 0 then 137 else 0 }

abbrev bare_machine : Machine
bare_machine = record {
  kernel = record { disks = bare_disk ∷ []; supers = []; sblocks = [] };
  procs = (replicate 7 none) ∷ (replicate 7 none) ∷ [];
}

abbrev mounted_machine : Machine
mounted_machine = (run_call 1 (sys_mount 0 (slash ∷ [])) bare_machine).1

mounted-Reachable : Reachable (bare_disk ∷ []) 2 mounted_machine
unfolding new_kernel new_process replicate
mounted-Reachable = called 1 (sys_mount 0 (slash ∷ [])) booted (omega arith) (omega arith)

Reachable-IsWellFormed_example : IsWellFormed mounted_machine
Reachable-IsWellFormed_example =
    Reachable-IsWellFormed (bare_disk ∷ []) 2 mounted_machine mounted-Reachable

-- There is a superblock object, so the mount has read its disk.
mounted_supers : length mounted_machine.kernel.supers ≡ 1
unfolding run_call syscall test_bit from_block iterate new_super of_be32 signed_of unpack_words
    read_at find_blocks from_bytes sector_get sector_slice read_sector get_byte get_slice sysfs
    mount find_mount replicate
mounted_supers = refl

Reachable-AllData_example :
    AllData
      (disk_of mounted_machine.kernel 0)
      (inode_at (super_at mounted_machine.kernel 0) 0).blocks
Reachable-AllData_example =
    Reachable-AllData (bare_disk ∷ []) 2 mounted_machine 0 0 mounted-Reachable
      (subst (λ n. 0 < n) (sym mounted_supers) (omega arith))

-- The first process of that machine, and a file in its root that it makes.
abbrev mounted_call : Call
mounted_call = record { kernel = mounted_machine.kernel; oft = replicate 7 none }

open_file_lem_example :
    Opens
      (IsOpened (slash ∷ 97 ∷ []) (bit_or o_creat o_rdwr) mounted_call)
      mounted_call
      (open_file (slash ∷ 97 ∷ []) (bit_or o_creat o_rdwr) 0o644 mounted_call)
open_file_lem_example = open_file_lem (slash ∷ 97 ∷ []) (bit_or o_creat o_rdwr) 0o644 mounted_call

-- With O_TRUNC and without it, for permission bits only.
open_file-flags_example :
    (open_file (slash ∷ 97 ∷ []) (bit_or o_trunc o_rdwr) 0o644 mounted_call).1.kernel
    ≡ (open_file (slash ∷ 97 ∷ []) o_rdwr 0o644 mounted_call).1.kernel
unfolding is_reg
open_file-flags_example =
    open_file-flags (bit_or o_trunc o_rdwr) o_rdwr 0o644 refl refl refl (slash ∷ 97 ∷ [])
      mounted_call
