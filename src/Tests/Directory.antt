-- ===== src/Tests/Directory.antt =====
-- A directory with one entry, with which the theorems on directories are applied.
use slowfs.Prelude.{
  ◌==◌, if◌then◌else◌, length, get_elem?, pos, negsuc, ℕ, zero, suc, ◌+◌, ◌*◌, ◌/◌, ◌%◌, ◌≤◌, ◌<◌,
  ◌≡◌, refl, sym, ap, ◌∙◌, some, some-injective, List, [], ◌∷◌, arith,
}
use slowfs.Exec.{ok}
use slowfs.Bytes.{Bytes, read_at}
use slowfs.Block.Sizes.{block_size}
use slowfs.Block.Device.{bytes_eq, Disk}
use slowfs.Block.Driver.{Block}
use slowfs.Block.Lists.{Blocks}
use slowfs.Bitmap.{test_bit}
use slowfs.Struct.{of_be32}
use slowfs.Inode.Layout.{dir_layout_size, is_dir}
use slowfs.Super.State.{SuperBlock, inode_at, dict_get}
use slowfs.Directory.Entry.{
  Text, slash, is_valid_path_component, all_valid, split, pack_entry, unpack_entry,
}
use slowfs.Directory.EntryBytes.{unpack_entry-pack_entry}
use slowfs.Directory.Grow.{add_dir_entry}
use slowfs.Directory.Lookup.{find_in_blocks, lookup}
use slowfs.OpenFile.View.{view, read_at-shift, view-block}
use slowfs.OpenFile.Sound.{IsFile}
use slowfs.Directory.Links.{linked}
use slowfs.Directory.Find.{find_entry}
use slowfs.Directory.Invariant.{IsDirectory, find_in_blocks-add_dir_entry}
use slowfs.Directory.Walk.{IsDirAt, LeadsTo, last_missing, entered, lookup_lem}

-- Its block holds the entry of number 1 under the name ".".
abbrev entry_byte : ℕ → ℕ
entry_byte i =
    if i == 40 * 512 + 3
    then 1
    else if i == 40 * 512 + 4
    then 1
    else if i == 40 * 512 + 5
    then 46
    else 0

abbrev pub dir_disk : Disk
dir_disk = record { num_sectors = 56; storage = entry_byte }

abbrev pub dir_blocks : Blocks
dir_blocks = (pos 0, record { sector_id = 40 }) ∷ []

abbrev pub dir_super : SuperBlock
dir_super = record {
  disk = dir_disk;
  blocks = [];
  izone = record { sector_id = 24 } ∷ [];
  dzone = record { sector_id = 40 } ∷ [];
  imap = record { size = 1; content = 3 ∷ [] };
  dmap = record { size = 1; content = 1 ∷ [] };
  heap =
      record {
        i_ino = 1;
        i_mode = 16749;
        i_size = 4096;
        num_f_in_dir = 1;
        p_ino = pos 1;
        blocks = dir_blocks;
      }
      ∷ [];
  inodes = (1, 0) ∷ [];
  root = 0;
}

abbrev pub dir_entries : List (ℕ × Text)
dir_entries = (1, 46 ∷ []) ∷ []

view-dir : (i : ℕ) → i < 4096 → 32 ≤ i → view dir_disk dir_blocks i ≡ 0
view-dir i lt from =
    let zeroth : i / block_size ≡ 0 = omega arith in
    let same : i % block_size ≡ i = omega arith in
    view-block dir_disk dir_blocks 0 (pos 0, record { sector_id = 40 }) i refl zeroth
    ∙ ground (arith, same)

zero_entry : (off : ℕ) → unpack_entry (read_at (λ _. 0) off 32) ≡ ok (0, [])
unfolding unpack_entry read_at of_be32
zero_entry off = refl

pub dir-IsDirectory : IsDirectory (view dir_disk dir_blocks) 1 dir_entries
unfolding view read_at unpack_entry of_be32
dir-IsDirectory = record {
  has = (refl, refl, tt);
  unused = λ k from upto. (
    [],
    ap unpack_entry (
          read_at-shift (view dir_disk dir_blocks) (λ _. 0) (k * 32) 0 32
            (λ i lt. view-dir (k * 32 + i) (omega arith) (omega arith)))
        ∙ zero_entry 0,
  );
  fits = omega arith;
  tight = omega arith;
}

dir-IsFile : IsFile dir_super (inode_at dir_super 0)
unfolding test_bit
dir-IsFile = record {
  map_bytes = (omega arith, tt);
  zone_on = λ i block e. let h = zone_of_dir i e in omega arith;
  zone_apart =
      λ a b x y ne ex ey. let h = zone_of_dir a ex in let k = zone_of_dir b ey in omega arith;
  zone_small = omega arith;
  slot = record { block = record { sector_id = 24 }; there = refl; on = omega arith };
  slot_apart = λ i block e. let h = zone_of_dir i e in omega arith;
  ino = omega arith;
  mode = omega arith;
  num = omega arith;
  parent = 1;
  parent_lem = refl;
  parent_lt = omega arith;
  count = omega arith;
  held = ((0, refl, refl, refl, refl), tt);
  holds = omega arith;
}
  where
    zone_of_dir :
        (i : ℕ) {block : Block}
        → get_elem? dir_super.dzone i ≡ some block
        → (block.sector_id ≡ 40) × (i ≡ 0)
    zone_of_dir zero e = (ap (λ (b : Block). b.sector_id) (sym (some-injective _ _ e)), refl)
    zone_of_dir (suc i) e = cc

unpack_entry-pack_entry_example :
    (bs : Bytes) × (pack_entry 7 (97 ∷ 98 ∷ []) ≡ ok bs)
    × (length bs ≡ dir_layout_size)
    × (unpack_entry bs ≡ ok (7, 97 ∷ 98 ∷ []))
unfolding is_valid_path_component
unpack_entry-pack_entry_example = unpack_entry-pack_entry 7 (97 ∷ 98 ∷ []) (omega arith) refl

find_in_blocks-add_dir_entry_example :
    (disk : Disk) × (add_dir_entry 0 (97 ∷ []) 5 dir_super ≡ (ok (pos 0), linked dir_super 0 disk))
    × IsDirectory (view disk dir_blocks) 1 ((1, 46 ∷ []) ∷ (5, 97 ∷ []) ∷ [])
    × (find_in_blocks dir_blocks (97 ∷ []) (linked dir_super 0 disk)
        ≡ (ok (find_entry (97 ∷ []) ((1, 46 ∷ []) ∷ (5, 97 ∷ []) ∷ [])), linked dir_super 0 disk))
unfolding is_valid_path_component is_dir
find_in_blocks-add_dir_entry_example =
    find_in_blocks-add_dir_entry dir_super 0 (97 ∷ []) (97 ∷ []) 5 dir_entries dir-IsFile refl refl
      dir-IsDirectory (omega arith) refl (omega arith) refl

dir-IsDirAt : IsDirAt dir_super 0 dir_entries
dir-IsDirAt = record { on = (omega arith, tt); dir = dir-IsDirectory }

-- "./a" is missing in the root, which "." leads to.
dir-LeadsTo : LeadsTo dir_super ((46 ∷ []) ∷ (97 ∷ []) ∷ []) 0 (negsuc 0) 0
unfolding bytes_eq dict_get
dir-LeadsTo =
    entered 0 (46 ∷ []) ((97 ∷ []) ∷ []) dir_entries 1 0 (negsuc 0) 0 dir-IsDirAt refl refl
      (last_missing 0 (97 ∷ []) dir_entries dir-IsDirAt refl)

lookup_lem_example : lookup (slash ∷ 46 ∷ slash ∷ 97 ∷ []) dir_super ≡ (ok (negsuc 0, 0), dir_super)
unfolding all_valid split
lookup_lem_example = lookup_lem dir_super 46 (slash ∷ 97 ∷ []) (negsuc 0) 0 refl dir-LeadsTo
