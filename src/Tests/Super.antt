-- ===== src/Tests/Super.antt =====
-- A superblock with three data blocks, with which the theorems on the allocators are applied.
use slowfs.Prelude.{zero, suc, ◌%◌, subst, ◌⊎◌, some-injective, List, [], ◌∷◌, arith}
use slowfs.Block.Driver.{Block}
use slowfs.Block.Driver.Reads.{IsOn}
use slowfs.Super.State.{SuperBlock}
use slowfs.Super.Blocks.{ZoneOn, Allocated, Refused, alloc_dblocks_lem}
use slowfs.Super.Quota.{NewInode, NoInode, alloc_inode_lem}

abbrev small_dzone : List Block
small_dzone = record { sector_id = 32 } ∷ record { sector_id = 40 } ∷ record { sector_id = 48 } ∷ []

abbrev small_super : SuperBlock
small_super = record {
  disk = record { num_sectors = 56; storage = λ i. i % 251 };
  blocks = [];
  izone = record { sector_id = 24 } ∷ [];
  dzone = small_dzone;
  imap = record { size = 1; content = 3 ∷ [] };
  dmap = record { size = 1; content = 2 ∷ [] };
  heap = [];
  inodes = [];
  root = 0;
}

small_zone-ZoneOn : ZoneOn small_super.disk small_super.dzone
small_zone-ZoneOn zero block e =
    subst (λ (b : Block). IsOn small_super.disk b) (some-injective _ _ e) (omega arith)
small_zone-ZoneOn (suc zero) block e =
    subst (λ (b : Block). IsOn small_super.disk b) (some-injective _ _ e) (omega arith)
small_zone-ZoneOn (suc (suc zero)) block e =
    subst (λ (b : Block). IsOn small_super.disk b) (some-injective _ _ e) (omega arith)
small_zone-ZoneOn (suc (suc (suc i))) block e = cc

alloc_dblocks_lem_example : Allocated small_super 2 ⊎ Refused small_super 2
alloc_dblocks_lem_example = alloc_dblocks_lem 2 small_super (omega arith, tt) small_zone-ZoneOn

alloc_inode_lem_example : NewInode small_super ⊎ NoInode small_super
alloc_inode_lem_example = alloc_inode_lem small_super (omega arith, tt)
