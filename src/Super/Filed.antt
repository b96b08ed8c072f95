-- ===== src/Super/Filed.antt =====
-- The loop of `sync_fs` over the inodes in memory (linux/fs/super.py), on the layout of the disk: each
-- inode goes into the slot of its number.
-- The first byte of the slot of an inode number.
use slowfs.Prelude.{
  ◌==◌, ==_iff, Bool-cases, length, get_elem?, get_or, ℕ, ◌+◌, ◌*◌, ◌/◌, ◌≤◌, ◌<◌, ◌≡◌, refl, sym,
  ap, ◌∙◌, subst, inl, inr, false, none, some, some-injective, List, [], ◌∷◌, arith,
}
use slowfs.Exec.{ok}
use slowfs.Bytes.{read_at, write_at}
use slowfs.Bytes.Writes.{read_at-write_at_disjoint, read_at-write_at}
use slowfs.Block.Sizes.{sector_size, block_size, bsize_in_sectors}
use slowfs.Block.Device.{Disk}
use slowfs.Block.Driver.{Block}
use slowfs.Block.Driver.Reads.{base_of}
use slowfs.Inode.Layout.{inode_size, inodes_per_block}
use slowfs.Inode.Object.{Inode, new_inode, from_bytes}
use slowfs.Inode.RoundTrip.{Fits}
use slowfs.Super.State.{SuperBlock, inode_at, dict_get}
use slowfs.Super.Store.{write_inodes, read_inode_from_disk}
use slowfs.Super.Inodes.{
  HasSlot, slot_of_inode, with_slot, write_inode_lem, read_inode_from_disk-slot,
}

abbrev pub slot_at : ℕ → ℕ
slot_at ino = 3 * block_size + ino * inode_size

-- The superblock, the two bitmaps and the inode zone, one behind the other from the start of the disk.
pub record IsLaidOut (blocks izone : List Block) (sectors : ℕ) : Type 0 where
  pub first : get_elem? blocks 0 ≡ some (record { sector_id = 0 })
  pub second : get_elem? blocks 1 ≡ some (record { sector_id = bsize_in_sectors })
  pub third : get_elem? blocks 2 ≡ some (record { sector_id = 2 * bsize_in_sectors })
  pub zone :
      (j : ℕ)
      → j < length izone
      → get_elem? izone j ≡ some (record { sector_id = (3 + j) * bsize_in_sectors })
  pub some_slot : 0 < length izone
  pub room : (3 + length izone) * bsize_in_sectors ≤ sectors

abbrev pub IsLaid : SuperBlock → Type 0
IsLaid sb = IsLaidOut sb.blocks sb.izone sb.disk.num_sectors

-- The slot of a number, and where it lies.
abbrev laid_slot :
    (sb : SuperBlock) (ino : ℕ)
    → IsLaid sb
    → ino < length sb.izone * inodes_per_block
    → HasSlot sb ino
laid_slot sb ino laid lt =
    let room = laid.room in
    record {
      block = record { sector_id = (3 + ino / inodes_per_block) * bsize_in_sectors };
      there = laid.zone (ino / inodes_per_block) (omega arith);
      on = omega arith;
    }

-- What a superblock on the layout reads from the slot of a number.
pub read_inode_from_disk-laid :
    (sb : SuperBlock) (ino : ℕ)
    → IsLaid sb
    → ino < length sb.izone * inodes_per_block
    → read_inode_from_disk ino sb
      ≡ (from_bytes sb.dzone (read_at sb.disk.storage (slot_at ino) inode_size), sb)
read_inode_from_disk-laid sb ino laid lt =
    let at : (3 + ino / inodes_per_block) * bsize_in_sectors * sector_size + slot_of_inode ino
        ≡ slot_at ino =
      omega arith in
    let read = read_inode_from_disk-slot sb ino (laid_slot sb ino laid lt) in rw at at read

-- Each number of the dict `inodes` is there once, in the range of the zone, and leads to an object of that
-- number that fits the layout.
abbrev pub AllStorable : List Block → List Block → List Inode → List (ℕ × ℕ) → Type 0
AllStorable izone dzone heap [] = Unit
AllStorable izone dzone heap ((ino, ref) ∷ d) =
    ((get_or heap ref (new_inode 0)).i_ino ≡ ino)
    × (ino < length izone * inodes_per_block)
    × Fits dzone (get_or heap ref (new_inode 0))
    × (dict_get ino d ≡ none)
    × AllStorable izone dzone heap d

-- The run of the loop: what it changes on the disk, and what it leaves.
pub record Filed (sb : SuperBlock) (d : List (ℕ × ℕ)) : Type 0 where
  pub disk : Disk
  pub ran : write_inodes d sb ≡ (ok tt, record sb { disk = disk })
  pub size : disk.num_sectors ≡ sb.disk.num_sectors
  pub below :
      (at n : ℕ)
      → at + n ≤ 3 * block_size
      → read_at disk.storage at n ≡ read_at sb.disk.storage at n
  pub other :
      (ino : ℕ)
      → dict_get ino d ≡ none
      → read_at disk.storage (slot_at ino) inode_size
        ≡ read_at sb.disk.storage (slot_at ino) inode_size
  pub stored :
      (ino ref : ℕ)
      → dict_get ino d ≡ some ref
      → from_bytes sb.dzone (read_at disk.storage (slot_at ino) inode_size) ≡ ok (inode_at sb ref)

dict_get-same : (k ref : ℕ) (d : List (ℕ × ℕ)) → dict_get k ((k, ref) ∷ d) ≡ some ref
unfolding dict_get
dict_get-same k ref d = ground arith

dict_get-other :
    (k j ref : ℕ) (d : List (ℕ × ℕ)) → (k == j) ≡ false → dict_get j ((k, ref) ∷ d) ≡ dict_get j d
unfolding dict_get
dict_get-other k j ref d e = rw e refl

pub write_inodes_lem :
    (d : List (ℕ × ℕ)) (sb : SuperBlock)
    → IsLaid sb
    → AllStorable sb.izone sb.dzone sb.heap d
    → Filed sb d
unfolding write_inodes dict_get
write_inodes_lem [] sb laid all = record {
  disk = sb.disk;
  ran = refl;
  size = refl;
  below = λ off n h. refl;
  other = λ ino h. refl;
  stored = λ ino ref h. cc;
}
write_inodes_lem ((k, ref) ∷ d) sb laid (num, lt, fits, fresh, all) =
    let inode = inode_at sb ref in
    let slot = laid_slot sb inode.i_ino laid (omega arith) in
    let (bs, packed, len, back, run) = write_inode_lem sb inode slot fits in
    let here : base_of slot.block + slot_of_inode inode.i_ino ≡ slot_at k = omega arith in
    let f = sb.disk.storage in
    let at = base_of slot.block + slot_of_inode inode.i_ino in
    let rest = write_inodes_lem d (with_slot sb slot.block inode.i_ino bs) laid all in
    let saved =
      ap (from_bytes sb.dzone) (
        rest.other k fresh
        ∙ ap (λ (off : ℕ). read_at (write_at f at bs) off inode_size) (sym here)
        ∙ read_at-write_at f at bs inode_size (sym len))
      ∙ back in
    record {
      disk = rest.disk;
      ran = rw run rest.ran;
      size = rest.size;
      below = λ off n h. rest.below off n h ∙ read_at-write_at_disjoint f at bs off n (omega arith);
      other = λ j e. elim (Bool-cases (k == j)) [
        | inl same ↦ cc
        | inr ne ↦
            rest.other j (sym (dict_get-other k j ref d ne) ∙ e)
            ∙ read_at-write_at_disjoint f at bs (slot_at j) inode_size (ground arith)
      ];
      stored = λ j r e. elim (Bool-cases (k == j)) [
        | inl same ↦
            let at_same : j ≡ k = sym ((==_iff k j).0 same) in
            let ref_same = some-injective _ _ (
              sym (dict_get-same k ref d)
              ∙ subst (λ (x : ℕ). dict_get x ((k, ref) ∷ d) ≡ some r) at_same e) in
            rw (at_same, ← ref_same) saved
        | inr ne ↦ rest.stored j r (sym (dict_get-other k j ref d ne) ∙ e)
      ];
    }

-- What is known of the object of a number in the dict.
pub AllStorable-get :
    (izone dzone : List Block) (heap : List Inode) (d : List (ℕ × ℕ)) (ino ref : ℕ)
    → AllStorable izone dzone heap d
    → dict_get ino d ≡ some ref
    → ((get_or heap ref (new_inode 0)).i_ino ≡ ino) × (ino < length izone * inodes_per_block)
unfolding dict_get
AllStorable-get izone dzone heap [] ino ref all e = cc
AllStorable-get izone dzone heap ((k, r) ∷ d) ino ref (numbered, lt, fits, fresh, all) e =
    elim (Bool-cases (k == ino)) [
      | inl same ↦
          let at : k ≡ ino = (==_iff k ino).0 same in
          let to : r ≡ ref = some-injective _ _ (rw same at e) in
          (
            subst (λ (x : ℕ). (get_or heap x (new_inode 0)).i_ino ≡ ino) to (numbered ∙ at),
            omega arith,
          )
      | inr ne ↦ AllStorable-get izone dzone heap d ino ref all (rw ne at e)
    ]
