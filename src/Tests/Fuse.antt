-- ===== src/Tests/Fuse.antt =====
-- A server of examples/fuse_slowfs.py over a directory with one entry, with which the theorems on the
-- server are applied.
use slowfs.Prelude.{get_elem?, replicate, pos, ℕ, ◌<◌, ◌≡◌, refl, ◌⊎◌, none, some, [], ◌∷◌, arith}
use slowfs.Exec.{ok}
use slowfs.Bytes.{read_at}
use slowfs.Block.Device.{sector_set_slice, bytes_eq, read_sector, write_sector}
use slowfs.Block.Driver.{write}
use slowfs.Struct.{pack_u32, word_of, pack_i32, pack_u32s, pack_i32s}
use slowfs.Inode.Layout.{is_dir, is_reg}
use slowfs.Inode.Object.{to_bytes}
use slowfs.Errno.{enotdir, eisdir, minus}
use slowfs.Super.State.{SuperBlock}
use slowfs.Super.Store.{write_inode}
use slowfs.Directory.Entry.{Text, slash, all_ascii}
use slowfs.Directory.Lookup.{lookup}
use slowfs.OpenFile.{new_file, seek, failed}
use slowfs.Vfs.State.{Entry, Call, super_at, put_super}
use slowfs.Vfs.Paths.{starts_with, sort_desc, get_superblock, ends_with_slash, find_mount}
use slowfs.Vfs.Calls.{sysfs, free_slot, open_inode, open_file, close, seek_call}
use slowfs.Vfs.Table.{IsFailure}
use slowfs.Vfs.Holds.{close-open_file}
use slowfs.Fuse.Server.{
  lookup_error, found_inode, inode_of_path, getattr_path, mkdir_path, mknod, read_path, write_path,
}
use slowfs.Fuse.Listing.{Yielding, list_inode, list_supers, readdir}
use slowfs.Fuse.Table.{Outcome, NoBytes, read_path_lem, read_path-seek_error}
use slowfs.Fuse.TableWrites.{write_path_lem, table_kept_lem}
use slowfs.Fuse.Readdir.{IsFoundAt, readdir_lem}
use slowfs.Fuse.Errors.{readdir_error}
use slowfs.Tests.Directory.{dir_disk, dir_super, dir_entries, dir-IsDirectory}

-- The directory is the root of the superblock that is mounted at "/".
abbrev served : Call
served = record {
  kernel = record {
    disks = dir_disk ∷ [];
    supers = record { device = 0; sb = dir_super } ∷ [];
    sblocks = (slash ∷ [], 0) ∷ [];
  };
  oft = none ∷ none ∷ [];
}

abbrev root_path : Text
root_path = slash ∷ []

abbrev started : Yielding
started = record { call = served; out = [] }

root-IsFoundAt : IsFoundAt root_path started 0 dir_super 0
unfolding find_mount bytes_eq super_at lookup
root-IsFoundAt = record {
  at_root = refl;
  before = dir_super;
  at = record { in_supers = omega arith; plugged = omega arith; same = refl };
  looked = refl;
}

readdir_lem_example :
    ((readdir root_path started).0 ≡ ok none) × ((readdir root_path started).1.out ≡ (46 ∷ []) ∷ [])
unfolding is_dir all_ascii
readdir_lem_example =
    readdir_lem root_path started 0 dir_super 0 dir_entries root-IsFoundAt refl (omega arith, tt)
      dir-IsDirectory (refl, tt)

read_path_lem_example : Outcome NoBytes served (read_path root_path (pos 4) (pos 0) served)
read_path_lem_example = read_path_lem root_path (pos 4) (pos 0) served

write_path_lem_example : Outcome IsFailure served (write_path root_path (7 ∷ []) (pos 0) served)
write_path_lem_example = write_path_lem root_path (7 ∷ []) (pos 0) served

table_kept_lem_example :
    ((mknod (slash ∷ 97 ∷ []) 33188 served).1.oft ≡ none ∷ none ∷ [])
    × ((mkdir_path (slash ∷ 97 ∷ []) 33188 served).1.oft ≡ none ∷ none ∷ [])
    × ((getattr_path (slash ∷ 97 ∷ []) served).1.oft ≡ none ∷ none ∷ [])
table_kept_lem_example = table_kept_lem (slash ∷ 97 ∷ []) 33188 served

-- A read of a directory is refused by seek().
read_path-seek_error_example :
    ((read_path root_path (pos 4) (pos 0) served).0 ≡ ok (failed (minus eisdir)))
    × (get_elem? served.oft 0 ≡ some none)
    × (entry : Entry) × (get_elem? (read_path root_path (pos 4) (pos 0) served).1.oft 0
        ≡ some (some entry))
unfolding open_file get_superblock sort_desc starts_with open_inode lookup free_slot super_at
    put_super seek_call seek is_dir is_reg ends_with_slash new_file bytes_eq
read_path-seek_error_example = read_path-seek_error root_path (pos 4) (pos 0) served 0 20 refl refl

-- A process with two files open on the root, which closes one before it opens the root again.
abbrev root_entry : Entry
root_entry = record { super = 0; file = record { inode = 0; offset = pos 0; flags = 0 } }

abbrev root_call : Call
root_call = record { kernel = served.kernel; oft = some root_entry ∷ some root_entry ∷ [] }

close-open_file_example : (◌≡◌ {A = ℕ} 1 1) ⊎ ((1 < 1) × (get_elem? root_call.oft 1 ≡ some none))
unfolding open_file get_superblock sort_desc starts_with open_inode lookup free_slot super_at
    put_super close is_dir is_reg ends_with_slash new_file bytes_eq write_inode to_bytes pack_u32s
    pack_u32 pack_i32s pack_i32 word_of replicate write read_sector sector_set_slice read_at
    write_sector
close-open_file_example = close-open_file root_call 1 1 root_entry root_path 0 0o644 refl refl

-- The same with a regular file at the root.
abbrev file_super : SuperBlock
file_super = record dir_super {
  heap =
      record { i_ino = 1; i_mode = 33188; i_size = 0; num_f_in_dir = 0; p_ino = pos 1; blocks = [] }
      ∷ [];
}

abbrev file_served : Yielding
file_served = record {
  call = record {
    kernel = record {
      disks = dir_disk ∷ [];
      supers = record { device = 0; sb = file_super } ∷ [];
      sblocks = (slash ∷ [], 0) ∷ [];
    };
    oft = [];
  };
  out = [];
}

readdir_error_example : (readdir root_path file_served).1.out ≡ []
unfolding readdir list_supers list_inode inode_of_path found_inode lookup_error sysfs find_mount
    bytes_eq super_at lookup is_dir put_super
readdir_error_example = readdir_error root_path file_served (minus enotdir) refl
