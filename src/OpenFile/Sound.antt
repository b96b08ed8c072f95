-- ===== src/OpenFile/Sound.antt =====
-- The invariant of an open file of linux/fs/file.py, over the superblock of its inode.
use slowfs.Prelude.{
  length-append, length, get_elem?, pos, ℕ, ◌+◌, ◌*◌, ◌^◌, ◌≤◌, ◌<◌, ◌≡◌, some, List, ◌++◌, map,
  arith,
}
use slowfs.Block.Sizes.{block_size}
use slowfs.Block.Device.{Disk}
use slowfs.Block.Driver.{Block}
use slowfs.Block.Driver.RoundTrip.{IsApart}
use slowfs.Block.Lists.{Blocks}
use slowfs.Bitmap.{BitMap, free}
use slowfs.Bitmap.Bits.{AllBytes}
use slowfs.Inode.Layout.{max_dblocks}
use slowfs.Inode.Object.{Inode}
use slowfs.Super.State.{SuperBlock}
use slowfs.Super.Taken.{AreFree, IsWith}
use slowfs.Super.Blocks.{ZoneOn}
use slowfs.Super.Inodes.{HasSlot, ZoneApart}
use slowfs.Super.Held.{
  AreHeld, AreHeld-HasBlocks, AreHeld-AllOn, AreHeld-AllApart, AreHeld-PairwiseApart,
  AreHeld-append,
}
use slowfs.OpenFile.{Opened, inode_of_file}
use slowfs.OpenFile.InPlace.{IsReady}

-- The data zone is on the disk, its blocks share no sector with one another or with the block of the
-- inode's slot; the inode's fields fit its layout, and its blocks are blocks of the data zone
-- that are marked in the data bitmap, each once, and hold the size of the file.
pub record IsFile (sb : SuperBlock) (inode : Inode) : Type 0 where
  pub map_bytes : AllBytes sb.dmap.content
  pub zone_on : ZoneOn sb.disk sb.dzone
  pub zone_apart : ZoneApart sb.dzone
  pub zone_small : length sb.dzone ≤ 2 ^ 31
  pub slot : HasSlot sb inode.i_ino
  pub slot_apart :
      (i : ℕ) (block : Block) → get_elem? sb.dzone i ≡ some block → IsApart slot.block block
  pub ino : inode.i_ino < 2 ^ 32
  pub mode : inode.i_mode < 2 ^ 32
  pub num : inode.num_f_in_dir < 2 ^ 32
  pub parent : ℕ
  pub parent_lem : inode.p_ino ≡ pos parent
  pub parent_lt : parent < 2 ^ 32
  pub count : length inode.blocks ≤ max_dblocks
  pub held : AreHeld sb.dzone sb.dmap inode.blocks
  pub holds : inode.i_size ≤ length inode.blocks * block_size

-- The same for the inode of an open file, which is an object in the heap.
pub record IsSound (o : Opened) : Type 0 where
  pub in_heap : o.file.inode < length o.sb.heap
  pub file : IsFile o.sb (inode_of_file o)

-- More blocks and another size, over a disk of the same size and a larger map.
pub IsFile-extend :
    (sb : SuperBlock) (inode : Inode) (taken : Blocks) (size : ℕ) (map : BitMap) (disk : Disk)
    (heap : List Inode)
    → IsFile sb inode
    → disk.num_sectors ≡ sb.disk.num_sectors
    → AreFree sb.dzone sb.dmap taken
    → IsWith sb.dmap taken map
    → length taken + length inode.blocks ≤ max_dblocks
    → size ≤ (length inode.blocks + length taken) * block_size
    → IsFile
        (record sb { disk = disk; dmap = map; heap = heap })
        (record inode { blocks = inode.blocks ++ taken; i_size = size })
IsFile-extend sb inode taken size map disk heap file same free marked few inside =
    let sum = length-append inode.blocks taken in
    record {
      map_bytes = marked.bytes;
      zone_on = λ i block there. let h = file.zone_on i block there in omega arith;
      zone_apart = file.zone_apart;
      zone_small = file.zone_small;
      slot = record {
        block = file.slot.block;
        there = file.slot.there;
        on = let h = file.slot.on in omega arith;
      };
      slot_apart = file.slot_apart;
      ino = file.ino;
      mode = file.mode;
      num = file.num;
      parent = file.parent;
      parent_lem = file.parent_lem;
      parent_lt = file.parent_lt;
      count = omega arith;
      held = AreHeld-append sb.dzone sb.dmap map inode.blocks taken file.held free marked;
      holds = rw sum inside;
    }

-- A sound file is ready for a write that ends within its blocks.
pub IsSound-IsReady :
    (o : Opened) (size : ℕ)
    → IsSound o
    → size ≤ length (inode_of_file o).blocks * block_size
    → IsReady o size
IsSound-IsReady o size sound inside =
    let blocks = (inode_of_file o).blocks in
    let limit = sound.file.count in
    record {
      in_heap = sound.in_heap;
      slot = sound.file.slot;
      fits = record {
        ino = sound.file.ino;
        mode = sound.file.mode;
        size = omega arith;
        num = sound.file.num;
        parent = sound.file.parent;
        parent_lem = sound.file.parent_lem;
        parent_lt = sound.file.parent_lt;
        count = limit;
        found = AreHeld-HasBlocks o.sb.dzone o.sb.dmap blocks sound.file.zone_small sound.file.held;
      };
      on = AreHeld-AllOn o.sb.disk o.sb.dzone o.sb.dmap blocks sound.file.zone_on sound.file.held;
      apart =
          AreHeld-PairwiseApart o.sb.dzone o.sb.dmap blocks sound.file.zone_apart sound.file.held;
      slot_apart =
          AreHeld-AllApart sound.file.slot.block o.sb.dzone o.sb.dmap blocks sound.file.slot_apart
            sound.file.held;
    }
