-- ===== src/Sane/Synced.antt =====
-- What `sync_fs` stores (linux/fs/super.py), as a new superblock over the disk reads it.
use slowfs.Prelude.{
  length-take, length-drop, length, get_elem?, take, drop, pos, ℕ, zero, suc, ◌+◌, ◌-◌, ◌*◌, ◌/◌,
  ◌≤◌, ◌<◌, ◌≡◌, refl, sym, ◌∙◌, none, some, List, [], ◌∷◌, arith,
}
use slowfs.Exec.{ok}
use slowfs.Bytes.{slice, read_at}
use slowfs.Bytes.Writes.{read_at-write_at_disjoint, read_at-write_at}
use slowfs.Block.Sizes.{block_size, bsize_in_sectors}
use slowfs.Block.Device.{Disk}
use slowfs.Block.Driver.{Block, get_slice, whole, from_to, write}
use slowfs.Block.Driver.Reads.{IsOn, base_of, get_slice_inside}
use slowfs.Block.Driver.Writes.{written, write_lem}
use slowfs.Bitmap.{from_block}
use slowfs.Inode.Layout.{inode_size}
use slowfs.Inode.Object.{from_bytes}
use slowfs.Super.State.{SuperBlock, fs_type, inode_at, dict_get}
use slowfs.Super.Store.{sync_fs}
use slowfs.Super.Filed.{slot_at, IsLaid, AllStorable, write_inodes_lem}
use slowfs.Mount.{blocks_from, izone_size, blank}
use slowfs.Sane.Layout.{get_elem?-drop}

blocks_from-at :
    (i n k : ℕ)
    → k < n
    → get_elem? (blocks_from i n) k ≡ some (record { sector_id = (i + k) * bsize_in_sectors })
unfolding blocks_from
blocks_from-at i zero k lt = absurd (omega arith)
blocks_from-at i (suc n) zero lt = let same : i + 0 ≡ i = omega arith in rw same refl
blocks_from-at i (suc n) (suc k) lt =
    let same : i + 1 + k ≡ i + suc k = omega arith in
    rw same at (blocks_from-at (i + 1) n k (omega arith))

length-blocks_from : (i n : ℕ) → length (blocks_from i n) ≡ n
unfolding blocks_from
length-blocks_from i zero = refl
length-blocks_from i (suc n) = omega (arith, length-blocks_from (i + 1) n)

module _ {A : Type 0} where
  get_elem?-take_lt :
      (n : ℕ) (xs : List A) (i : ℕ) → i < n → get_elem? (take n xs) i ≡ get_elem? xs i
  get_elem?-take_lt zero xs i lt = absurd (omega arith)
  get_elem?-take_lt (suc n) [] i lt = refl
  get_elem?-take_lt (suc n) (x ∷ xs) zero lt = refl
  get_elem?-take_lt (suc n) (x ∷ xs) (suc i) lt = get_elem?-take_lt n xs i (omega arith)

-- A new superblock over a disk of at least five blocks.
pub blank-IsLaid : (disk : Disk) → 5 ≤ disk.num_sectors / bsize_in_sectors → IsLaid (blank disk)
unfolding blank izone_size
blank-IsLaid disk large =
    let n : ℕ = disk.num_sectors / bsize_in_sectors in
    let size : ℕ = izone_size n in
    let blocks = blocks_from 0 n in
    let cut : 3 + size - 3 ≡ size = omega arith in
    let zone_len : length (slice 3 (3 + size) blocks) ≡ size = omega (
      arith,
      length-take (3 + size - 3) (drop 3 blocks),
      length-drop 3 blocks,
      length-blocks_from 0 n,
    ) in
    record {
      first = blocks_from-at 0 n 0 (omega arith);
      second = blocks_from-at 0 n 1 (omega arith);
      third = blocks_from-at 0 n 2 (omega arith);
      zone = λ j lt.
          let at : 0 + (3 + j) ≡ 3 + j = omega arith in
          let there = blocks_from-at 0 n (3 + j) (omega arith) in
          get_elem?-take_lt (3 + size - 3) (drop 3 blocks) j (omega arith)
          ∙ get_elem?-drop 3 blocks j
          ∙ rw at at there;
      some_slot = omega arith;
      room = omega arith;
    }

-- A superblock over its disk, as a mount of the disk lays it out.
pub record HasLayout (sb : SuperBlock) : Type 0 where
  pub large : 5 ≤ sb.disk.num_sectors / bsize_in_sectors
  pub same_blocks : sb.blocks ≡ (blank sb.disk).blocks
  pub same_izone : sb.izone ≡ (blank sb.disk).izone
  pub same_dzone : sb.dzone ≡ (blank sb.disk).dzone

HasLayout-IsLaid : (sb : SuperBlock) → HasLayout sb → IsLaid sb
unfolding blank
HasLayout-IsLaid sb layout =
    rw (layout.same_blocks, layout.same_izone) (blank-IsLaid sb.disk layout.large)

-- What sync_fs() needs of a superblock that it can store.
pub record IsSyncable (sb : SuperBlock) : Type 0 where
  pub layout : HasLayout sb
  pub imap_len : length sb.imap.content ≡ block_size
  pub dmap_len : length sb.dmap.content ≡ block_size
  pub storable : AllStorable sb.izone sb.dzone sb.heap sb.inodes

slice_whole :
    (block : Block) (disk : Disk)
    → get_slice block whole disk ≡ get_slice block (from_to 0 block_size) disk
unfolding get_slice
slice_whole block disk = refl

-- The whole of a block on the disk, as a bitmap.
pub from_block_lem :
    (block : Block) (disk : Disk)
    → IsOn disk block
    → from_block block disk ≡ (
      ok (record { size = block_size; content = read_at disk.storage (base_of block) block_size }),
      disk,
    )
unfolding from_block
from_block_lem block disk on =
    let start : base_of block + 0 ≡ base_of block = omega arith in
    let read =
      get_slice_inside block 0 block_size disk on (omega arith) (omega arith) (omega arith) in
    rw (slice_whole block disk, read, start) refl

abbrev block_of : ℕ → Block
block_of i = record { sector_id = i * bsize_in_sectors }

-- The run of sync_fs(), which changes no more than the disk, and what the disk holds then.
pub record Synced (sb : SuperBlock) : Type 0 where
  pub disk : Disk
  pub ran : sync_fs sb ≡ (ok (pos 0), record sb { disk = disk })
  pub size : disk.num_sectors ≡ sb.disk.num_sectors
  pub ident : read_at disk.storage 0 1 ≡ fs_type ∷ []
  pub imap : read_at disk.storage block_size block_size ≡ sb.imap.content
  pub dmap : read_at disk.storage (2 * block_size) block_size ≡ sb.dmap.content
  pub stored :
      (ino ref : ℕ)
      → dict_get ino sb.inodes ≡ some ref
      → from_bytes sb.dzone (read_at disk.storage (slot_at ino) inode_size) ≡ ok (inode_at sb ref)
  pub other :
      (ino : ℕ)
      → dict_get ino sb.inodes ≡ none
      → read_at disk.storage (slot_at ino) inode_size
        ≡ read_at sb.disk.storage (slot_at ino) inode_size

pub sync_fs-Synced : (sb : SuperBlock) → IsSyncable sb → Synced sb
unfolding sync_fs
sync_fs-Synced sb ready =
    let laid = HasLayout-IsLaid sb ready.layout in
    let room = laid.room in
    let len₁ = ready.imap_len in
    let len₂ = ready.dmap_len in
    let d₁ : Disk = written sb.disk 0 (fs_type ∷ []) in
    let d₂ : Disk = written d₁ block_size sb.imap.content in
    let d₃ : Disk = written d₂ (2 * block_size) sb.dmap.content in
    let w₁ : write (record { sector_id = 0 }) 0 (fs_type ∷ []) sb.disk ≡ (ok tt, d₁) =
      write_lem (record { sector_id = 0 }) 0 (fs_type ∷ []) sb.disk (omega arith) (omega arith) in
    let w₂ : write (record { sector_id = bsize_in_sectors }) 0 sb.imap.content d₁ ≡ (ok tt, d₂) =
      write_lem (record { sector_id = bsize_in_sectors }) 0 sb.imap.content d₁ (omega arith)
        (omega arith) in
    let w₃ : write (record { sector_id = 2 * bsize_in_sectors }) 0 sb.dmap.content d₂
        ≡ (ok tt, d₃) =
      write_lem (record { sector_id = 2 * bsize_in_sectors }) 0 sb.dmap.content d₂ (omega arith)
        (omega arith) in
    let filed = write_inodes_lem sb.inodes (record sb { disk = d₃ }) laid ready.storable in
    record {
      disk = filed.disk;
      ran = rw (laid.first, w₁, laid.second, w₂, laid.third, w₃, filed.ran) refl;
      size = filed.size;
      ident =
          filed.below 0 1 (omega arith)
          ∙ read_at-write_at_disjoint d₂.storage (2 * block_size) sb.dmap.content 0 1 (omega arith)
          ∙ read_at-write_at_disjoint d₁.storage block_size sb.imap.content 0 1 (omega arith)
          ∙ read_at-write_at sb.disk.storage 0 (fs_type ∷ []) 1 refl;
      imap =
          filed.below block_size block_size (omega arith)
          ∙ read_at-write_at_disjoint d₂.storage (2 * block_size) sb.dmap.content block_size
              block_size (omega arith)
          ∙ read_at-write_at d₁.storage block_size sb.imap.content block_size (sym len₁);
      dmap =
          filed.below (2 * block_size) block_size (omega arith)
          ∙ read_at-write_at d₂.storage (2 * block_size) sb.dmap.content block_size (sym len₂);
      stored = filed.stored;
      other = λ ino e.
          filed.other ino e
          ∙ read_at-write_at_disjoint d₂.storage (2 * block_size) sb.dmap.content (slot_at ino)
              inode_size (omega arith)
          ∙ read_at-write_at_disjoint d₁.storage block_size sb.imap.content (slot_at ino) inode_size
              (omega arith)
          ∙ read_at-write_at_disjoint sb.disk.storage 0 (fs_type ∷ []) (slot_at ino) inode_size
              (omega arith);
    }
