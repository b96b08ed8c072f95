-- ===== src/Tests/Vfs.antt =====
-- A kernel with two mountpoints and a process with two open files, with which the theorems on
-- linux/fs/vfs.py are applied.
use slowfs.Prelude.{pos, negsuc, ◌≡◌, refl, ◌⊎◌, none, some, [], ◌∷◌, arith}
use slowfs.Exec.{value_error, ok, raised}
use slowfs.Errno.{ebadf, minus}
use slowfs.Directory.Entry.{Text, slash}
use slowfs.OpenFile.{failed}
use slowfs.Vfs.State.{Kernel, Entry, Call}
use slowfs.Vfs.Paths.{get_superblock}
use slowfs.Vfs.Mounts.{IsNowhere}
use slowfs.Vfs.Choice.{IsChosen, get_superblock_lem}
use slowfs.Vfs.Calls.{free_slot, close, write_call, read_call, seek_call}
use slowfs.Vfs.Slots.{IsLeastSlot, free_slot_lem, close-closed_slot, negative_fd}

abbrev mounted_kernel : Kernel
mounted_kernel = record {
  disks = [];
  supers = [];
  sblocks = (slash ∷ [], 0) ∷ (slash ∷ 109 ∷ [], 1) ∷ [];
}

-- "/m/a"
abbrev some_path : Text
some_path = slash ∷ 109 ∷ slash ∷ 97 ∷ []

get_superblock_lem_example :
    ((get_superblock some_path mounted_kernel).1 ≡ mounted_kernel)
    × (IsChosen some_path mounted_kernel.sblocks (get_superblock some_path mounted_kernel).0
        ⊎ (((get_superblock some_path mounted_kernel).0 ≡ raised value_error)
            × IsNowhere some_path mounted_kernel.sblocks))
get_superblock_lem_example = get_superblock_lem some_path mounted_kernel

abbrev some_entry : Entry
some_entry = record { super = 0; file = record { inode = 2; offset = pos 0; flags = 2 } }

abbrev some_call : Call
some_call = record { kernel = mounted_kernel; oft = some some_entry ∷ none ∷ some some_entry ∷ [] }

free_slot_lem_example : IsLeastSlot some_call.oft (some 1)
unfolding free_slot
free_slot_lem_example = free_slot_lem some_call.oft

close-closed_slot_example :
    let c' = (close (pos 0) some_call).1 in
    (close (pos 0) c' ≡ (ok (minus ebadf), c'))
    × (write_call (pos 0) (7 ∷ []) c' ≡ (ok (minus ebadf), c'))
    × (read_call (pos 0) (pos 4) c' ≡ (ok (failed (minus ebadf)), c'))
    × (seek_call (pos 0) (pos 0) c' ≡ (ok (minus ebadf), c'))
close-closed_slot_example = close-closed_slot some_call 0 some_entry (7 ∷ []) (pos 4) (pos 0) refl

negative_fd_example :
    (close (negsuc 0) some_call ≡ (ok (minus ebadf), some_call))
    × (write_call (negsuc 0) (7 ∷ []) some_call ≡ write_call (pos 2) (7 ∷ []) some_call)
    × (read_call (negsuc 0) (pos 4) some_call ≡ read_call (pos 2) (pos 4) some_call)
    × (seek_call (negsuc 0) (pos 0) some_call ≡ seek_call (pos 2) (pos 0) some_call)
negative_fd_example = negative_fd some_call 0 (7 ∷ []) (pos 4) (pos 0) (omega arith)
