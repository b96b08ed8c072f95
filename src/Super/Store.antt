-- ===== src/Super/Store.antt =====
-- The allocators of a superblock, and how its parts reach the disk.
use slowfs.Prelude.{
  leb, ◌==◌, if◌then◌else◌, length, get_elem?, ℤ, pos, negsuc, ℕ, zero, suc, ◌+◌, ◌*◌, ◌/◌, ◌%◌,
  Option, none, some, List, [], ◌∷◌,
}
use slowfs.Exec.{index_error, Exec, pure, lift, gets, or_raise, ◌>>=◌, ◌>>◌}
use slowfs.Bytes.{zeros}
use slowfs.Block.Sizes.{block_size}
use slowfs.Block.Driver.{Block, get_slice, from_to, write}
use slowfs.Bitmap.{next_free, alloc, free}
use slowfs.Inode.Layout.{inode_size, inodes_per_block}
use slowfs.Inode.Object.{Inode, new_inode, to_bytes, from_bytes}
use slowfs.Super.State.{SuperBlock, fs_type, on_disk, on_imap, on_dmap, inode_at, new_object, cache}

-- `next_free()` returns no negative number but -1.
unfoldable pub alloc_inode_at : ℤ → Exec SuperBlock (Option ℕ)
alloc_inode_at (negsuc _) = pure none
alloc_inode_at (pos i) = do
  inodes ← gets (λ sb. length sb.izone * inodes_per_block)
  if leb inodes i
      then pure none
      else do on_imap (alloc (pos i)); ref ← new_object (new_inode i); cache i ref; pure (some ref)

-- A new inode, or `none` where no number is left.
unfoldable pub alloc_inode : Exec SuperBlock (Option ℕ)
unfolding alloc_inode_at
alloc_inode = do i ← gets (λ sb. next_free sb.imap); alloc_inode_at i

unfoldable pub write_inode : Inode → Exec SuperBlock (Unit {0})
write_inode inode = do
  block ← (λ sb. or_raise (get_elem? sb.izone (inode.i_ino / inodes_per_block)) index_error sb)
  bs ← lift (to_bytes inode)
  on_disk (write block (inode.i_ino % inodes_per_block * inode_size) bs)

-- The loop of sync_fs() over the inodes in memory.
unfoldable pub write_inodes : List (ℕ × ℕ) → Exec SuperBlock (Unit {0})
write_inodes [] = pure tt
write_inodes ((_, ref) ∷ rest) = do
  inode ← gets (λ sb. inode_at sb ref)
  write_inode inode
  write_inodes rest

abbrev pub block_at : ℕ → Exec SuperBlock Block
block_at i sb = or_raise (get_elem? sb.blocks i) index_error sb

unfoldable pub sync_fs : Exec SuperBlock ℤ
unfolding write_inodes
sync_fs = do
  sblock ← block_at 0
  on_disk (write sblock 0 (fs_type ∷ []))
  iblock ← block_at 1
  imap ← gets (λ sb. sb.imap.content)
  on_disk (write iblock 0 imap)
  dblock ← block_at 2
  dmap ← gets (λ sb. sb.dmap.content)
  on_disk (write dblock 0 dmap)
  inodes ← gets (λ sb. sb.inodes)
  write_inodes inodes
  pure (pos 0)

unfoldable pub destroy_inode : Inode → Exec SuperBlock (Unit {0})
destroy_inode inode = on_imap (free (pos inode.i_ino))

-- One round of the loop of alloc_dblocks() at the index `i`, and the rounds behind it.
unfoldable pub take_dblock :
    ℤ → Exec SuperBlock (List (ℤ × Block)) → Exec SuperBlock (List (ℤ × Block))
take_dblock (negsuc _) rest = pure []
take_dblock (pos i) rest = do
  dzone ← gets (λ sb. sb.dzone)
  if leb (length dzone) i then pure [] else do
    on_dmap (alloc (pos i))
    block ← or_raise (get_elem? dzone i) index_error
    more ← rest
    pure ((pos i, block) ∷ more)

unfoldable pub take_dblocks : ℕ → Exec SuperBlock (List (ℤ × Block))
unfolding take_dblock
take_dblocks zero = pure []
take_dblocks (suc count) = do i ← gets (λ sb. next_free sb.dmap); take_dblock i (take_dblocks count)

unfoldable pub nullify : List (ℤ × Block) → Exec SuperBlock (Unit {0})
nullify [] = pure tt
nullify ((_, block) ∷ rest) = do on_disk (write block 0 (zeros block_size)); nullify rest

unfoldable pub dealloc_dblocks : List (ℤ × Block) → Exec SuperBlock (Unit {0})
dealloc_dblocks [] = pure tt
dealloc_dblocks ((i, _) ∷ rest) = do on_dmap (free i); dealloc_dblocks rest

-- SuperBlock.alloc_dblocks(count): all of them, or none.
unfoldable pub alloc_dblocks : ℕ → Exec SuperBlock (List (ℤ × Block))
unfolding take_dblocks nullify dealloc_dblocks
alloc_dblocks count = do
  taken ← take_dblocks count
  if length taken == count
      then (do nullify taken; pure taken)
      else do dealloc_dblocks taken; pure []

unfoldable pub read_inode_from_disk : ℕ → Exec SuperBlock Inode
read_inode_from_disk ino = do
  block ← (λ sb. or_raise (get_elem? sb.izone (ino / inodes_per_block)) index_error sb)
  let offset = ino % inodes_per_block * inode_size
  bs ← on_disk (get_slice block (from_to offset (offset + inode_size)))
  (λ sb. (from_bytes sb.dzone bs, sb))
