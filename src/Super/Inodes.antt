-- ===== src/Super/Inodes.antt =====
-- `write_inode` and `read_inode_from_disk` of linux/fs/super.py: an inode in its slot on the disk.
use slowfs.Prelude.{
  ◌==◌, ==_iff, Bool-cases, length, get_elem?, ℕ, ◌+◌, ◌-◌, ◌*◌, ◌/◌, ◌%◌, ◌≤◌, ◌≡◌, sym, ap, ◌∙◌,
  ◌≢◌, ◌⊎◌, inl, inr, some, some-injective, List, arith,
}
use slowfs.Exec.{Result, ok}
use slowfs.Bytes.{Bytes, read_at}
use slowfs.Bytes.Writes.{read_at-write_at_disjoint, read_at-write_at}
use slowfs.Block.Driver.{Block}
use slowfs.Block.Driver.Reads.{IsOn, base_of, get_slice_inside}
use slowfs.Block.Driver.Writes.{written, write_lem}
use slowfs.Block.Driver.RoundTrip.{IsApart}
use slowfs.Inode.Layout.{inode_size, inodes_per_block}
use slowfs.Inode.Object.{Inode, to_bytes, from_bytes}
use slowfs.Inode.RoundTrip.{Fits, from_bytes-to_bytes}
use slowfs.Super.State.{SuperBlock}
use slowfs.Super.Store.{write_inode, read_inode_from_disk}

-- The slot of an inode number is in a block of the inode zone that is on the disk.
pub record HasSlot (sb : SuperBlock) (ino : ℕ) : Type 0 where
  pub block : Block
  pub there : get_elem? sb.izone (ino / inodes_per_block) ≡ some block
  pub on : IsOn sb.disk block

abbrev pub slot_of_inode : ℕ → ℕ
slot_of_inode ino = ino % inodes_per_block * inode_size

-- The disk with the bytes of an inode in its slot.
abbrev pub with_slot : SuperBlock → Block → ℕ → Bytes → SuperBlock
with_slot sb block ino bs = record sb {
  disk = written sb.disk (base_of block + slot_of_inode ino) bs;
}

-- write_inode() on an inode that fits the layout writes its 256 bytes into its slot, and no other
-- byte of the disk.
pub write_inode_lem :
    (sb : SuperBlock) (inode : Inode) (slot : HasSlot sb inode.i_ino)
    → Fits sb.dzone inode
    → (bs : Bytes) × (to_bytes inode ≡ ok bs)
      × (length bs ≡ inode_size)
      × (from_bytes sb.dzone bs ≡ ok inode)
      × (write_inode inode sb ≡ (ok tt, with_slot sb slot.block inode.i_ino bs))
unfolding write_inode
write_inode_lem sb inode slot fits =
    let (bs, packed, len, back) = from_bytes-to_bytes sb.dzone inode fits in
    let stored =
      write_lem slot.block (slot_of_inode inode.i_ino) bs sb.disk slot.on (omega (arith, len)) in
    (bs, packed, len, back, rw (slot.there, packed, stored))

-- What read_inode_from_disk() makes of the bytes in the slot.
pub read_inode_from_disk-slot :
    (sb : SuperBlock) (ino : ℕ) (slot : HasSlot sb ino)
    → read_inode_from_disk ino sb ≡ (
      from_bytes sb.dzone
          (read_at sb.disk.storage (base_of slot.block + slot_of_inode ino) inode_size),
      sb,
    )
unfolding read_inode_from_disk
read_inode_from_disk-slot sb ino slot =
    let bytes =
      get_slice_inside slot.block (slot_of_inode ino) (slot_of_inode ino + inode_size) sb.disk
        slot.on (omega arith) (omega arith) (omega arith) in
    let count : slot_of_inode ino + inode_size - slot_of_inode ino ≡ inode_size = omega arith in
    rw (slot.there, bytes, count)

-- The superblock after write_inode().
abbrev pub after_inode : Inode → SuperBlock → SuperBlock
after_inode inode sb = (write_inode inode sb).1

-- An inode that fits the layout, and whose slot is on the disk, is read back by its number from the
-- disk after write_inode().
pub read_inode_from_disk-write_inode :
    (sb : SuperBlock) (inode : Inode)
    → HasSlot sb inode.i_ino
    → Fits sb.dzone inode
    → (read_inode_from_disk inode.i_ino (after_inode inode sb)).0 ≡ ok inode
read_inode_from_disk-write_inode sb inode slot fits =
    let (bs, packed, len, back, stored) = write_inode_lem sb inode slot fits in
    let same =
      read_at-write_at sb.disk.storage (base_of slot.block + slot_of_inode inode.i_ino) bs
        inode_size (sym len) in
    let read =
      read_inode_from_disk-slot (with_slot sb slot.block inode.i_ino bs) inode.i_ino
        (record { block = slot.block; there = slot.there; on = slot.on }) in
    ap (λ (r : Result (Unit {0}) × SuperBlock). (read_inode_from_disk inode.i_ino r.1).0) stored
    ∙ rw (read, same, back)

-- No two blocks of a zone share a sector.
abbrev pub ZoneApart : List Block → Type 0
ZoneApart zone =
    (a b : ℕ) (x y : Block)
    → a ≢ b
    → get_elem? zone a ≡ some x
    → get_elem? zone b ≡ some y
    → IsApart x y

-- The slots of two numbers share no byte.
slots_apart :
    (zone : List Block) (i j : ℕ) (x y : Block)
    → ZoneApart zone
    → get_elem? zone (i / inodes_per_block) ≡ some x
    → get_elem? zone (j / inodes_per_block) ≡ some y
    → i ≢ j
    → (base_of x + slot_of_inode i + inode_size ≤ base_of y + slot_of_inode j)
      ⊎ (base_of y + slot_of_inode j + inode_size ≤ base_of x + slot_of_inode i)
slots_apart zone i j x y apart ex ey ne =
    elim (Bool-cases (i / inodes_per_block == j / inodes_per_block)) [
      | inl same ↦
          let e : i / inodes_per_block ≡ j / inodes_per_block = (==_iff _ _).0 same in
          let here : some x ≡ some y = sym ex ∙ ap (get_elem? zone) e ∙ ey in
          let ids : x.sector_id ≡ y.sector_id =
            ap (λ (b : Block). b.sector_id) (some-injective _ _ here) in
          omega arith
      | inr other ↦
          let far = apart (i / inodes_per_block) (j / inodes_per_block) x y (ground arith) ex ey in
          omega arith
    ]

-- Where no two blocks of the inode zone share a sector, write_inode() of an inode that fits the
-- layout leaves what is read from the disk for each other number; both slots are on the disk.
pub read_inode_from_disk-write_inode_ne :
    (sb : SuperBlock) (inode : Inode) (ino : ℕ)
    → HasSlot sb inode.i_ino
    → Fits sb.dzone inode
    → HasSlot sb ino
    → ZoneApart sb.izone
    → ino ≢ inode.i_ino
    → (read_inode_from_disk ino (after_inode inode sb)).0 ≡ (read_inode_from_disk ino sb).0
read_inode_from_disk-write_inode_ne sb inode ino slot fits slot' apart ne =
    let (bs, packed, len, back, stored) = write_inode_lem sb inode slot fits in
    let away =
      slots_apart sb.izone ino inode.i_ino slot'.block slot.block apart slot'.there slot.there ne in
    let same =
      read_at-write_at_disjoint sb.disk.storage (base_of slot.block + slot_of_inode inode.i_ino) bs
        (base_of slot'.block + slot_of_inode ino) inode_size (omega (arith, len)) in
    let read =
      read_inode_from_disk-slot (with_slot sb slot.block inode.i_ino bs) ino
        (record { block = slot'.block; there = slot'.there; on = slot'.on }) in
    let read' = read_inode_from_disk-slot sb ino slot' in
    ap (λ (r : Result (Unit {0}) × SuperBlock). (read_inode_from_disk ino r.1).0) stored
    ∙ rw (read, same, read')
