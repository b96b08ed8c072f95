-- ===== src/Super/Quota.antt =====
-- `alloc_inode` and `destroy_inode` of linux/fs/super.py: the numbers of inodes.
use slowfs.Prelude.{
  le→leb, lt→leb, le_or_lt, length, ℤ, pos, negsuc, ℕ, ◌*◌, ◌<◌, ◌≡◌, refl, ◌⊎◌, inl, inr, true,
  false, none, some, [], ◌∷◌, ◌++◌, arith,
}
use slowfs.Exec.{ok}
use slowfs.Bitmap.{BitMap, next_free, alloc, free}
use slowfs.Bitmap.Bits.{has, capacity, AllBytes}
use slowfs.Bitmap.Alloc.{IsUpdate, alloc_lem, free_lem}
use slowfs.Bitmap.NextFree.{IsLeastFree, next_free_lem}
use slowfs.Inode.Layout.{inodes_per_block}
use slowfs.Inode.Object.{Inode, new_inode}
use slowfs.Super.State.{SuperBlock, dict_set}
use slowfs.Super.Store.{alloc_inode, destroy_inode}

-- How many inodes the inode zone has slots for.
abbrev pub slots : SuperBlock → ℕ
slots sb = length sb.izone * inodes_per_block

-- A new inode under the least number that is free: a new object in the heap, known by its number.
pub record NewInode (sb : SuperBlock) : Type 0 where
  pub ino : ℕ
  pub map : BitMap
  pub was_free : has sb.imap ino ≡ false
  pub least : (k : ℕ) → k < ino → has sb.imap k ≡ true
  pub has_slot : ino < slots sb
  pub update : IsUpdate sb.imap ino true map
  pub ran : alloc_inode sb ≡ (
    ok (some (length sb.heap)),
    record sb {
      imap = map;
      heap = sb.heap ++ new_inode ino ∷ [];
      inodes = dict_set ino (length sb.heap) sb.inodes;
    },
  )

-- No inode: each number that has a slot and a bit is in use, and nothing has changed.
pub record NoInode (sb : SuperBlock) : Type 0 where
  pub ran : alloc_inode sb ≡ (ok none, sb)
  pub full : (k : ℕ) → k < slots sb → k < capacity sb.imap → has sb.imap k ≡ true

alloc_inode-next :
    (sb : SuperBlock)
    → AllBytes sb.imap.content
    → (z : ℤ) → next_free sb.imap ≡ z
    → IsLeastFree sb.imap z
    → NewInode sb ⊎ NoInode sb
unfolding alloc_inode
alloc_inode-next sb bytes (negsuc n) e (_, full) =
    inr (record { ran = rw e; full = λ k _ lt. full k lt })
alloc_inode-next sb bytes (pos i) e (lt, unused, least) = elim (le_or_lt (slots sb) i) [
  | inl beyond ↦
      inr (record { ran = rw (e, le→leb _ _ beyond); full = λ k inside _. least k (omega arith) })
  | inr inside ↦
      let (done, step) = alloc_lem sb.imap i bytes lt unused in
      inl (record {
        ino = i;
        map = (alloc (pos i) sb.imap).1;
        was_free = unused;
        least = least;
        has_slot = inside;
        update = step;
        ran = rw (e, lt→leb _ _ inside, done);
      })
]

-- In a superblock whose inode bitmap holds bytes, alloc_inode() gives a new inode under the least
-- free number, marks just this number, and makes the inode known to the superblock under it; or it
-- gives none and changes nothing, and then each number that has both a slot in the inode zone and a
-- bit in the bitmap is in use.
pub alloc_inode_lem : (sb : SuperBlock) → AllBytes sb.imap.content → NewInode sb ⊎ NoInode sb
alloc_inode_lem sb bytes =
    alloc_inode-next sb bytes (next_free sb.imap) refl (next_free_lem sb.imap)

-- destroy_inode() frees the number of an inode that is in the range of the inode bitmap, and
-- changes nothing else of the superblock.
pub destroy_inode_lem :
    (sb : SuperBlock) (inode : Inode)
    → AllBytes sb.imap.content
    → inode.i_ino < capacity sb.imap
    → (bm : BitMap) × (destroy_inode inode sb ≡ (ok tt, record sb { imap = bm }))
      × IsUpdate sb.imap inode.i_ino false bm
unfolding destroy_inode
destroy_inode_lem sb inode bytes lt =
    let (done, step) = free_lem sb.imap inode.i_ino bytes lt in
    ((free (pos inode.i_ino) sb.imap).1, rw done, step)
