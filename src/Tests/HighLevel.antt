-- ===== src/Tests/HighLevel.antt =====
-- The script of examples/high_level.py: all its assertions hold, for a file that was not there.
use slowfs.OpenFile.{new_file, seek, read_loop, read, write_file, flush, open_method}
use slowfs.Bitmap.{
  new_bitmap, test_bit, scan_bits, scan_bytes, next_free, from_block, alloc, iter_bytes, iterate,
}
use slowfs.Process.{new_process, new_kernel}
use slowfs.Mount.{new_super, mkfs_slowfs}
use slowfs.Struct.{
  be32, of_be32, pack_u32, word_of, signed_of, pack_i32, pack_u8, pack_u32s, pack_i32s,
  unpack_words, pack_text,
}
use slowfs.Bytes.{read_at, write_at}
use slowfs.Directory.Lookup.{
  find_in_block, or_else, find_in_blocks, object_of, missing, walk, lookup,
}
use slowfs.Directory.Make.{create, mkdir, setattr}
use slowfs.Directory.Grow.{grow, add_dir_entry}
use slowfs.Directory.Entry.{all_ascii, all_valid, split, pack_entry, unpack_entry, read_entry}
use slowfs.OpenFile.View.{view}
use slowfs.Fuse.Storage.{create_formatted}
use slowfs.Inode.Object.{
  new_inode, to_bytes, is_free_id, find_blocks, from_words, from_bytes, inode_eq,
}
use slowfs.Inode.Layout.{is_dir, is_reg}
use slowfs.Block.Device.{
  new_sector, sector_iter, sector_len, sector_get, sector_slice, sector_set, sector_set_slice,
  bytes_eq, sector_eq, new_disk, read_sector, write_sector,
}
use slowfs.Block.Driver.{get_byte, read_rounds, read_span, get_slice, write_rounds, write}
use slowfs.Super.State.{dict_get, dict_set}
use slowfs.Super.Store.{
  alloc_inode, write_inode, write_inodes, sync_fs, dealloc_dblocks, alloc_dblocks,
  read_inode_from_disk,
}
use slowfs.Vfs.Calls.{
  sysfs, mount, umount, free_slot, open_inode, truncate, open_file, with_fd, close, write_call,
  read_call, seek_call, make_directory, mkdir_call,
}
use slowfs.Vfs.State.{super_at, put_super}
use slowfs.Vfs.Paths.{
  starts_with, first_prefix, get_superblock, basename, ends_with_slash, find_mount, remove_mount,
}
use slowfs.Prelude.{replicate, ◌≡◌, none, refl}
use slowfs.Exec.{ok}
use slowfs.HighLevel.{main, script}

script_runs : main none ≡ ok tt
unfolding main script new_file seek read_loop read write_file flush open_method new_bitmap test_bit
    scan_bits scan_bytes next_free from_block alloc iter_bytes iterate new_process new_kernel
    new_super mkfs_slowfs be32 of_be32 pack_u32 word_of signed_of pack_i32 pack_u8 pack_u32s
    pack_i32s unpack_words pack_text read_at write_at find_in_block or_else find_in_blocks object_of
    missing walk lookup create mkdir setattr grow add_dir_entry all_ascii all_valid split pack_entry
    unpack_entry read_entry view create_formatted new_inode to_bytes is_free_id find_blocks
    from_words from_bytes inode_eq is_dir is_reg new_sector sector_iter sector_len sector_get
    sector_slice sector_set sector_set_slice bytes_eq sector_eq new_disk read_sector write_sector
    get_byte read_rounds read_span get_slice write_rounds write dict_get dict_set alloc_inode
    write_inode write_inodes sync_fs dealloc_dblocks alloc_dblocks read_inode_from_disk sysfs mount
    umount free_slot open_inode truncate open_file with_fd close write_call read_call seek_call
    make_directory mkdir_call super_at put_super starts_with first_prefix get_superblock basename
    ends_with_slash find_mount remove_mount replicate
script_runs = refl
