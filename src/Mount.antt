-- ===== src/Mount.antt =====
-- `SuperBlock.__init__` of linux/fs/super.py, with both of its ways, and `mkfs_slowfs` of util.py.
use slowfs.Prelude.{
  ltb, ◌==◌, if◌then◌else◌, get_elem?, pos, ℕ, zero, suc, ◌+◌, ◌-◌, ◌*◌, ◌/◌, max, Bool, true,
  false, not, Option, none, some, List, [], ◌∷◌,
}
use slowfs.Exec.{
  value_error, index_error, assertion_error, Result, ok, raised, Exec, pure, raise, gets, or_raise,
  resume, ◌>>=◌, ◌>>◌, raise_if,
}
use slowfs.Bytes.{slice}
use slowfs.Block.Sizes.{block_size, bsize_in_sectors}
use slowfs.Block.Device.{Disk}
use slowfs.Block.Driver.{Block, get_byte, get_slice, from_to}
use slowfs.Bitmap.{BitMap, new_bitmap, from_block, alloc, iterate}
use slowfs.Inode.Layout.{inode_size}
use slowfs.Inode.Object.{from_bytes}
use slowfs.Super.State.{
  SuperBlock, fs_type, on_disk, on_imap, inode_at, put_inode, new_object, cache,
}
use slowfs.Super.Store.{alloc_inode, block_at, sync_fs, read_inode_from_disk}
use slowfs.Directory.Make.{mkdir}

-- tuple(Block(i * bsize_in_sectors) for i in range(num_blocks)), from block i on.
unfoldable pub blocks_from : ℕ → ℕ → List Block
blocks_from i zero = []
blocks_from i (suc n) = record { sector_id = i * bsize_in_sectors } ∷ blocks_from (i + 1) n

-- max(N // 3, 1) of the N blocks behind the first three.
unfoldable pub izone_size : ℕ → ℕ
izone_size num_blocks = max ((num_blocks - 3) / 3) 1

-- The superblock over a disk, before its bitmaps, inodes and root are set.
unfoldable pub blank : Disk → SuperBlock
unfolding blocks_from izone_size
blank disk =
    let num_blocks = disk.num_sectors / bsize_in_sectors in
    let blocks = blocks_from 0 num_blocks in
    record {
      disk = disk;
      blocks = blocks;
      izone = slice 3 (3 + izone_size num_blocks) blocks;
      dzone = slice (3 + izone_size num_blocks) (3 + (num_blocks - 3)) blocks;
      imap = new_bitmap block_size;
      dmap = new_bitmap block_size;
      heap = [];
      inodes = [];
      root = 0;
    }

-- with contextlib.suppress(AssertionError)
unfoldable pub handled : Result (Unit {0}) → Result (Unit {0})
handled (raised assertion_error) = ok tt
handled r = r

unfoldable pub suppress : Exec SuperBlock (Unit {0}) → Exec SuperBlock (Unit {0})
unfolding handled
suppress m sb = let (r, t) = m sb in (handled r, t)

abbrev pub set_root : ℕ → Exec SuperBlock (Unit {0})
set_root ref sb = (ok tt, record sb { root = ref })

-- mkdir()'s default mode.
abbrev pub root_mode : ℕ
root_mode = 0o555

unfoldable pub make_root : Option ℕ → Exec SuperBlock (Unit {0})
make_root none = raise value_error
make_root (some ref) = do
  set_root ref
  inode ← gets (λ sb. inode_at sb ref)
  put_inode ref (record inode { p_ino = pos inode.i_ino })
  mkdir ref root_mode
  cache inode.i_ino ref

unfoldable pub format_fs : Exec SuperBlock (Unit {0})
unfolding suppress make_root
format_fs = do suppress (on_imap (alloc (pos 0))); root ← alloc_inode; make_root root

-- The loop of _init_from_disk() over the numbers in the inode bitmap.
unfoldable pub load_inodes : List ℕ → Exec SuperBlock (Unit {0})
load_inodes [] = pure tt
load_inodes (i ∷ rest) = do
  inode ← read_inode_from_disk i
  ref ← new_object inode
  cache inode.i_ino ref
  load_inodes rest

abbrev pub set_imap : BitMap → Exec SuperBlock (Unit {0})
set_imap bm sb = (ok tt, record sb { imap = bm })

abbrev pub set_dmap : BitMap → Exec SuperBlock (Unit {0})
set_dmap bm sb = (ok tt, record sb { dmap = bm })

-- _init_from_disk()
unfoldable pub init_from_disk : Exec SuperBlock (Unit {0})
unfolding load_inodes
init_from_disk = do
  iblock ← block_at 1
  imap ← on_disk (from_block iblock)
  set_imap imap
  dblock ← block_at 2
  dmap ← on_disk (from_block dblock)
  set_dmap dmap
  load_inodes (iterate imap)
  block ← (λ sb. or_raise (get_elem? sb.izone 0) index_error sb)
  bs ← on_disk (get_slice block (from_to inode_size (2 * inode_size)))
  root ← (λ sb. (from_bytes sb.dzone bs, sb))
  ref ← new_object root
  set_root ref
  cache root.i_ino ref

-- The check of the identifier in the first byte of the disk.
unfoldable pub check_type : Exec SuperBlock (Unit {0})
check_type = do
  sblock ← block_at 0
  byte ← on_disk (get_byte sblock 0)
  raise_if (not (byte == fs_type)) value_error

unfoldable pub initialize : Bool → Exec SuperBlock (Unit {0})
unfolding format_fs init_from_disk check_type
initialize true = format_fs
initialize false = do check_type; init_from_disk

-- A constructor returns its object, unless it raises. What it did to the disk stays done.
unfoldable pub constructed : Result (Unit {0}) × SuperBlock → Result SuperBlock × Disk
constructed (ok _, sb) = (ok sb, sb.disk)
constructed (raised e, sb) = (raised e, sb.disk)

-- SuperBlock(disk, format)
unfoldable pub new_super : Bool → Exec Disk SuperBlock
unfolding constructed initialize blank
new_super format disk =
    if ltb (disk.num_sectors / bsize_in_sectors) 5
    then (raised value_error, disk)
    else constructed (initialize format (blank disk))

-- mkfs_slowfs(disk): the object is synced and dropped.
unfoldable pub sync_new : Result SuperBlock → Exec Disk (Unit {0})
sync_new (raised e) disk = (raised e, disk)
sync_new (ok sb) disk = let (r, sb') = sync_fs sb in resume r (λ _. pure tt) sb'.disk

unfoldable pub mkfs_slowfs : Exec Disk (Unit {0})
unfolding sync_new
mkfs_slowfs disk = let (r, disk') = new_super true disk in sync_new r disk'
