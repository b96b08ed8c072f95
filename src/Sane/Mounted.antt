-- ===== src/Sane/Mounted.antt =====
-- `SuperBlock.__init__` without `format` (linux/fs/super.py) on a disk whose contents are known: the
-- superblock object that a mount makes.
-- The bitmap that a mount reads from the block at an offset.
use slowfs.Prelude.{
  ltb, le→ltb, length, get_elem?, get_or, ℕ, ◌*◌, ◌/◌, ◌≤◌, ◌≡◌, refl, sym, ap, ◌∙◌, subst, false,
  some, [], ◌∷◌, ◌++◌, arith,
}
use slowfs.Exec.{ok}
use slowfs.Bytes.{Bytes, RawFile, read_at}
use slowfs.Block.Sizes.{block_size, bsize_in_sectors}
use slowfs.Block.Device.{Disk}
use slowfs.Block.Driver.{get_byte}
use slowfs.Block.Driver.Reads.{get_slice_inside}
use slowfs.Block.Driver.Access.{get_byte_lem}
use slowfs.Bitmap.{BitMap, iterate}
use slowfs.Inode.Layout.{inode_size}
use slowfs.Inode.Object.{Inode, new_inode}
use slowfs.Super.State.{SuperBlock, fs_type, inode_at, dict_set}
use slowfs.Mount.{blank, init_from_disk, check_type, initialize, constructed, new_super}
use slowfs.Sane.Synced.{blank-IsLaid, from_block_lem}
use slowfs.Sane.Remount.{
  IsStored, AllReadable, IsLoaded, get_elem?-append_end, get_or-some, IsLoaded-old,
  load_inodes-Loaded,
}

abbrev pub bitmap_at : Disk → ℕ → BitMap
bitmap_at disk off = record { size = block_size; content = read_at disk.storage off block_size }

-- What a mount needs of the disk: the identifier, and an inode in the slot of each number of the inode
-- bitmap, and of the root.
pub record IsMountable (disk : Disk) (root : Inode) : Type 0 where
  pub large : 5 ≤ disk.num_sectors / bsize_in_sectors
  pub ident : read_at disk.storage 0 1 ≡ fs_type ∷ []
  pub readable :
      AllReadable (blank disk).izone (blank disk).dzone disk (iterate (bitmap_at disk block_size))
  pub rooted : IsStored (blank disk).dzone disk 1 root
  pub numbered : root.i_ino ≡ 1

-- The superblock object that is made.
pub record Remounted (disk : Disk) (root : Inode) : Type 0 where
  pub sb : SuperBlock
  pub ran : new_super false disk ≡ (ok sb, disk)
  pub imap : sb.imap ≡ bitmap_at disk block_size
  pub dmap : sb.dmap ≡ bitmap_at disk (2 * block_size)
  pub at_root : inode_at sb sb.root ≡ root
  pub loaded :
      (i ino : ℕ)
      → get_elem? (iterate (bitmap_at disk block_size)) i ≡ some ino
      → IsLoaded (blank disk).dzone disk sb.heap sb.inodes ino

ident-byte : (f : RawFile) (x : ℕ) → read_at f 0 1 ≡ x ∷ [] → f 0 ≡ x
unfolding read_at
ident-byte f x e = ap (λ (xs : Bytes). get_or xs 0 0) e

pub new_super-Remounted : (disk : Disk) (root : Inode) → IsMountable disk root → Remounted disk root
unfolding new_super blank initialize check_type init_from_disk constructed
new_super-Remounted disk root ready =
    let s₀ = blank disk in
    let laid = blank-IsLaid disk ready.large in
    let small : ltb (disk.num_sectors / bsize_in_sectors) 5 ≡ false = le→ltb _ _ ready.large in
    let byte : get_byte (record { sector_id = 0 }) 0 disk ≡ (ok fs_type, disk) =
      get_byte_lem (record { sector_id = 0 }) 0 disk (omega (arith, ready.large)) (omega arith)
      ∙ ap (λ (x : ℕ). (ok x, disk)) (ident-byte disk.storage fs_type ready.ident) in
    let imap =
      from_block_lem (record { sector_id = bsize_in_sectors }) disk (omega (arith, ready.large)) in
    let dmap =
      from_block_lem (record { sector_id = 2 * bsize_in_sectors }) disk
        (omega (arith, ready.large)) in
    let s₁ : SuperBlock = record s₀ {
      imap = bitmap_at disk block_size;
      dmap = bitmap_at disk (2 * block_size);
    } in
    let run = load_inodes-Loaded (iterate (bitmap_at disk block_size)) s₁ laid ready.readable in
    let slot =
      get_slice_inside (record { sector_id = 3 * bsize_in_sectors }) inode_size (2 * inode_size)
        disk (omega (arith, ready.large)) (omega arith) (omega arith) (omega arith) in
    let first : get_elem? (blank disk).izone 0
        ≡ some (record { sector_id = 3 * bsize_in_sectors }) =
      laid.zone 0 laid.some_slot in
    let rooted = IsLoaded-old (blank disk).dzone disk run.heap run.inodes 1 root in
    record {
      sb = record s₁ {
        heap = run.heap ++ root ∷ [];
        inodes = dict_set root.i_ino (length run.heap) run.inodes;
        root = length run.heap;
      };
      ran =
          rw
            (
              small, laid.first, byte, laid.second, imap, laid.third, dmap, run.ran, first, slot,
              ready.rooted,
            )
            refl;
      imap = refl;
      dmap = refl;
      at_root =
          get_or-some (run.heap ++ root ∷ []) (length run.heap) (new_inode 0)
            (get_elem?-append_end run.heap root);
      loaded = λ i ino e.
          subst
            (λ (k : ℕ).
              IsLoaded (blank disk).dzone disk (run.heap ++ root ∷ [])
                (dict_set k (length run.heap) run.inodes) ino)
            (sym ready.numbered) (rooted ino ready.rooted (run.new i ino e));
    }
