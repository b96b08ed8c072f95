-- ===== src/Sane/Store.antt =====
-- The allocators of a superblock, and its parts on the disk (linux/fs/super.py).
use slowfs.Prelude.{
  leb, ◌==◌, length, get_elem?, ℤ, pos, negsuc, ℕ, zero, suc, ◌+◌, ◌*◌, ◌/◌, ◌%◌, sym, subst,
  Option, none, some, List, [], ◌∷◌,
}
use slowfs.Exec.{index_error, Exec}
use slowfs.Exec.Kept.{
  Step, Kept, Kept-pure, Kept-lift, Kept-or_raise, Kept-if, Kept-any, Kept-bind, Kept-step,
}
use slowfs.Bytes.{Bytes, zeros}
use slowfs.Block.Sizes.{block_size}
use slowfs.Block.Driver.{Block, Slice, get_slice, from_to, write}
use slowfs.Block.Lists.{Blocks}
use slowfs.Bitmap.{next_free, alloc, free}
use slowfs.Inode.Layout.{inode_size, inodes_per_block}
use slowfs.Inode.Object.{Inode, new_inode, to_bytes}
use slowfs.Super.State.{SuperBlock, on_disk}
use slowfs.Super.Store.{
  alloc_inode_at, alloc_inode, write_inode, write_inodes, block_at, sync_fs, take_dblock,
  take_dblocks, nullify, dealloc_dblocks, alloc_dblocks,
}
use slowfs.Sane.Disk.{disk_steps, get_slice-Kept, write-Kept}
use slowfs.Sane.Super.{
  AllFrom, IsSane, super_steps, super_self, HasObject, Kept-on_disk, Kept-on_imap, Kept-on_dmap,
}
use slowfs.Sane.Objects.{Step-new, HasObject-new}

pub AllFrom-Step :
    {s t : SuperBlock} (blocks : Blocks)
    → Step s t
    → AllFrom s.dzone blocks
    → AllFrom t.dzone blocks
AllFrom-Step blocks st = subst (λ (zone : List Block). AllFrom zone blocks) (sym st.same_dzone)

-- A new object, where there is one.
abbrev pub IsNew : Option ℕ → SuperBlock → Type 0
IsNew none sb = Unit
IsNew (some ref) sb = HasObject sb ref

new_inode-AllFrom : (dzone : List Block) (ino : ℕ) → AllFrom dzone (new_inode ino).blocks
unfolding new_inode
new_inode-AllFrom dzone ino = tt

alloc_inode_at-Kept : {sb : SuperBlock} (i : ℤ) → IsSane sb → Kept sb (alloc_inode_at i sb) IsNew
unfolding alloc_inode_at new_inode
alloc_inode_at-Kept (negsuc n) sane = Kept-pure (super_self sane) tt
alloc_inode_at-Kept {sb} (pos i) sane =
    Kept-if (leb (length sb.izone * inodes_per_block) i) _ _ (λ _. Kept-pure (super_self sane) tt)
      (λ _. Kept-bind (Kept-on_imap (alloc (pos i)) sane) (λ _ t st _.
        let new = Step-new (new_inode i) (new_inode-AllFrom t.dzone i) st.sane in
        Kept-step new (Kept-pure (super_self new.sane) (HasObject-new t (new_inode i)))))

pub alloc_inode-Kept : {sb : SuperBlock} → IsSane sb → Kept sb (alloc_inode sb) IsNew
unfolding alloc_inode
alloc_inode-Kept {sb} sane = alloc_inode_at-Kept (next_free sb.imap) sane

-- A write to the disk of the superblock.
pub on_disk-write :
    {sb : SuperBlock} (block : Block) (offset : ℕ) (value : Bytes)
    → IsSane sb
    → Kept sb (on_disk (write block offset value) sb) (λ _ _. Unit)
on_disk-write {sb} block offset value sane =
    Kept-on_disk (write block offset value) sane (write-Kept block offset value sb.disk)

pub on_disk-get_slice :
    {sb : SuperBlock} (block : Block) (key : Slice)
    → IsSane sb
    → Kept sb (on_disk (get_slice block key) sb) (λ _ _. Unit)
on_disk-get_slice {sb} block key sane =
    Kept-on_disk (get_slice block key) sane (get_slice-Kept block key sb.disk)

-- The block of the inode zone for a number.
abbrev pub zone_block : SuperBlock → ℕ → Option Block
zone_block sb ino = get_elem? sb.izone (ino / inodes_per_block)

-- The bytes of a number's slot in its block.
abbrev pub slot_slice : ℕ → Slice
slot_slice ino =
    let offset = ino % inodes_per_block * inode_size in from_to offset (offset + inode_size)

pub write_inode-Kept :
    {sb : SuperBlock} (inode : Inode) → IsSane sb → Kept sb (write_inode inode sb) (λ _ _. Unit)
unfolding write_inode
write_inode-Kept {sb} inode sane =
    Kept-bind (Kept-or_raise (zone_block sb inode.i_ino) index_error (super_self sane))
      (λ block t st _.
        Kept-bind (Kept-lift (to_bytes inode) (super_self st.sane))
          (λ bs u su _. on_disk-write block _ bs su.sane))

pub write_inodes-Kept :
    {sb : SuperBlock} (d : List (ℕ × ℕ)) → IsSane sb → Kept sb (write_inodes d sb) (λ _ _. Unit)
unfolding write_inodes
write_inodes-Kept [] sane = Kept-pure (super_self sane) tt
write_inodes-Kept ((k, ref) ∷ rest) sane =
    Kept-bind (write_inode-Kept _ sane) (λ _ t st _. write_inodes-Kept rest st.sane)

pub block_at-Kept : {sb : SuperBlock} (i : ℕ) → IsSane sb → Kept sb (block_at i sb) (λ _ _. Unit)
block_at-Kept {sb} i sane =
    Kept-any (Kept-or_raise (get_elem? sb.blocks i) index_error (super_self sane))

pub sync_fs-Kept : {sb : SuperBlock} → IsSane sb → Kept sb (sync_fs sb) (λ _ _. Unit)
unfolding sync_fs
sync_fs-Kept sane = Kept-bind (block_at-Kept 0 sane) (λ sblock a sa _.
    Kept-bind (on_disk-write sblock 0 _ sa.sane) (λ _ b sb _.
      Kept-bind (block_at-Kept 1 sb.sane) (λ iblock c sc _.
        Kept-bind (on_disk-write iblock 0 _ sc.sane) (λ _ d sd _.
          Kept-bind (block_at-Kept 2 sd.sane) (λ dblock e se _.
            Kept-bind (on_disk-write dblock 0 _ se.sane) (λ _ f sf _.
              Kept-bind (write_inodes-Kept f.inodes sf.sane)
                (λ _ g sg _. Kept-pure (super_self sg.sane) tt)))))))

-- Blocks of the data zone.
abbrev pub AreFrom : Blocks → SuperBlock → Type 0
AreFrom taken sb = AllFrom sb.dzone taken

take_dblock-Kept :
    {sb : SuperBlock} (i : ℤ) (rest : Exec SuperBlock Blocks)
    → ((t : SuperBlock) → IsSane t → Kept t (rest t) AreFrom)
    → IsSane sb
    → Kept sb (take_dblock i rest sb) AreFrom
unfolding take_dblock
take_dblock-Kept (negsuc n) rest more sane = Kept-pure (super_self sane) tt
take_dblock-Kept {sb} (pos i) rest more sane =
    Kept-if (leb (length sb.dzone) i) _ _ (λ _. Kept-pure (super_self sane) tt)
      (λ _. Kept-bind (Kept-on_dmap (alloc (pos i)) sane) (λ _ t st _.
        Kept-bind (Kept-or_raise (get_elem? sb.dzone i) index_error (super_self st.sane))
          (λ block u su here. Kept-bind (more u su.sane) (λ taken v sv from.
            Kept-pure (super_self sv.sane)
              ((i, rw (sv.same_dzone, su.same_dzone, st.same_dzone) here), from)))))

take_dblocks-Kept :
    {sb : SuperBlock} (count : ℕ) → IsSane sb → Kept sb (take_dblocks count sb) AreFrom
unfolding take_dblocks
take_dblocks-Kept zero sane = Kept-pure (super_self sane) tt
take_dblocks-Kept {sb} (suc count) sane =
    take_dblock-Kept (next_free sb.dmap) (take_dblocks count) (λ t. take_dblocks-Kept count) sane

nullify-Kept :
    {sb : SuperBlock} (taken : Blocks) → IsSane sb → Kept sb (nullify taken sb) (λ _ _. Unit)
unfolding nullify
nullify-Kept [] sane = Kept-pure (super_self sane) tt
nullify-Kept ((i, block) ∷ rest) sane =
    Kept-bind (on_disk-write block 0 (zeros block_size) sane)
      (λ _ t st _. nullify-Kept rest st.sane)

pub dealloc_dblocks-Kept :
    {sb : SuperBlock} (taken : Blocks)
    → IsSane sb
    → Kept sb (dealloc_dblocks taken sb) (λ _ _. Unit)
unfolding dealloc_dblocks
dealloc_dblocks-Kept [] sane = Kept-pure (super_self sane) tt
dealloc_dblocks-Kept ((i, block) ∷ rest) sane =
    Kept-bind (Kept-on_dmap (free i) sane) (λ _ t st _. dealloc_dblocks-Kept rest st.sane)

pub alloc_dblocks-Kept :
    {sb : SuperBlock} (count : ℕ) → IsSane sb → Kept sb (alloc_dblocks count sb) AreFrom
unfolding alloc_dblocks
alloc_dblocks-Kept count sane = Kept-bind (take_dblocks-Kept count sane) (λ taken t st from.
    Kept-if (length taken == count) _ _
      (λ _.
        Kept-bind (nullify-Kept taken st.sane)
          (λ _ u su _. Kept-pure (super_self su.sane) (AllFrom-Step taken su from)))
      (λ _.
        Kept-bind (dealloc_dblocks-Kept taken st.sane)
          (λ _ u su _. Kept-pure (super_self su.sane) tt)))
