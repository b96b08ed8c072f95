-- ===== src/Directory/Links.antt =====
-- `add_dir_entry` of linux/fs/inode.py where the blocks of the directory have room for the entry.
use slowfs.Prelude.{
  leb, lt→leb, length, get_elem?, set, ℤ, pos, ℕ, ◌+◌, ◌*◌, ◌/◌, ◌%◌, ◌^◌, ◌<◌, ◌≡◌, refl, true,
  false, some, arith,
}
use slowfs.Exec.{ok}
use slowfs.Bytes.{Bytes, write_at}
use slowfs.Block.Sizes.{block_size}
use slowfs.Block.Device.{Disk}
use slowfs.Block.Driver.{Block, write}
use slowfs.Block.Driver.Reads.{base_of}
use slowfs.Block.Driver.Writes.{written, write_lem}
use slowfs.Block.Lists.{block_of_index}
use slowfs.Inode.Layout.{dir_layout_size, is_dir}
use slowfs.Super.State.{SuperBlock, inode_at}
use slowfs.Super.Held.{AreHeld-AllOn, AreHeld-PairwiseApart}
use slowfs.Directory.Entry.{Text, is_valid_path_component, pack_entry, unpack_entry}
use slowfs.Directory.EntryBytes.{unpack_entry-pack_entry}
use slowfs.Directory.Grow.{add_dir_entry}
use slowfs.OpenFile.View.{view, view-written}
use slowfs.OpenFile.Sound.{IsFile}

-- The superblock with the entry behind the others.
abbrev pub linked : SuperBlock → ℕ → Disk → SuperBlock
linked sb ref disk =
    let dir = inode_at sb ref in
    record sb {
      disk = disk;
      heap = set sb.heap ref (record dir { num_f_in_dir = dir.num_f_in_dir + 1 });
    }

add_dir_entry-put :
    (sb : SuperBlock) (ref : ℕ) (fname : Text) (ino : ℕ) (entry : ℤ × Block) (bs : Bytes)
    {disk : Disk}
    → let dir = inode_at sb ref in
      let at = dir.num_f_in_dir * dir_layout_size in
      is_dir dir.i_mode ≡ true
      → is_valid_path_component fname ≡ true
      → at < length dir.blocks * block_size
      → get_elem? dir.blocks (at / block_size) ≡ some entry
      → pack_entry ino fname ≡ ok bs
      → write entry.1 (at % block_size) bs sb.disk ≡ (ok tt, disk)
      → add_dir_entry ref fname ino sb ≡ (ok (pos 0), linked sb ref disk)
unfolding add_dir_entry
add_dir_entry-put sb ref fname ino entry bs dir valid room there packed stored =
    let at : ℕ = (inode_at sb ref).num_f_in_dir * dir_layout_size in
    let no_growth : leb (length (inode_at sb ref).blocks) (at / block_size) ≡ false =
      lt→leb _ _ (omega arith) in
    rw (dir, valid, no_growth) (rw (packed, there, stored))

-- Where its blocks have room, a directory gets the entry behind those that it has: add_dir_entry() of a valid name
-- and a number of 32 bits writes the 32 bytes of the entry at the offset of its place, which unpack to the
-- number and the name; it leaves the other bytes of the directory, and counts one entry more.
pub add_dir_entry_lem :
    (sb : SuperBlock) (ref : ℕ) (fname : Text) (ino : ℕ)
    → let dir = inode_at sb ref in
      let at = dir.num_f_in_dir * dir_layout_size in
      IsFile sb dir
      → is_dir dir.i_mode ≡ true
      → is_valid_path_component fname ≡ true
      → ino < 2 ^ 32
      → at < length dir.blocks * block_size
      → (disk : Disk) × (bs : Bytes) × (add_dir_entry ref fname ino sb
          ≡ (ok (pos 0), linked sb ref disk))
        × (unpack_entry bs ≡ ok (ino, fname))
        × (length bs ≡ dir_layout_size)
        × (view disk dir.blocks ≡ write_at (view sb.disk dir.blocks) at bs)
        × (disk.num_sectors ≡ sb.disk.num_sectors)
add_dir_entry_lem sb ref fname ino file dir valid small room =
    let blocks = (inode_at sb ref).blocks in
    let at : ℕ = (inode_at sb ref).num_f_in_dir * dir_layout_size in
    let on = AreHeld-AllOn sb.disk sb.dzone sb.dmap blocks file.zone_on file.held in
    let apart = AreHeld-PairwiseApart sb.dzone sb.dmap blocks file.zone_apart file.held in
    let (entry, there, here) = block_of_index sb.disk blocks (at / block_size) on (omega arith) in
    let (bs, packed, len, back) = unpack_entry-pack_entry ino fname small valid in
    let stored = write_lem entry.1 (at % block_size) bs sb.disk here (omega (arith, len)) in
    (
      written sb.disk (base_of entry.1 + at % block_size) bs,
      bs,
      add_dir_entry-put sb ref fname ino entry bs dir valid room there packed stored,
      back,
      len,
      view-written sb.disk blocks (at / block_size) at entry bs apart there refl
          (omega (arith, len)),
      refl,
    )
