-- ===== src/Directory/Grow.antt =====
-- `alloc_dblocks` and `add_dir_entry` of an inode (linux/fs/inode.py).
use slowfs.Prelude.{
  ltb, leb, if◌then◌else◌, length, get_elem?, ℤ, pos, ℕ, zero, ◌+◌, ◌*◌, ◌/◌, ◌%◌, not, List, [],
  ◌∷◌, ◌++◌,
}
use slowfs.Exec.{value_error, index_error, Exec, pure, lift, gets, or_raise, ◌>>=◌, ◌>>◌, raise_if}
use slowfs.Block.Sizes.{block_size}
use slowfs.Block.Driver.{Block, write}
use slowfs.Inode.Layout.{max_dblocks, dir_layout_size, is_dir}
use slowfs.Errno.{einval, enospc, minus}
use slowfs.Super.State.{SuperBlock, on_disk, inode_at, put_inode}
use slowfs.Super.Store.{alloc_dblocks}
use slowfs.Directory.Entry.{Text, is_valid_path_component, pack_entry}

-- What alloc_dblocks() does with the blocks that the superblock gave.
unfoldable pub extend_with : ℕ → List (ℤ × Block) → Exec SuperBlock ℤ
extend_with ref [] = pure (minus enospc)
extend_with ref (taken ∷ more) = do
  inode ← gets (λ sb. inode_at sb ref)
  put_inode ref (record inode {
    blocks = inode.blocks ++ taken ∷ more;
    i_size = if is_dir inode.i_mode then inode.i_size + block_size else inode.i_size;
  })
  pure (pos 0)

-- `count > _MAX_DBLOCKS - len(self.blocks)`
unfoldable pub grow : ℕ → ℕ → Exec SuperBlock ℤ
unfolding extend_with
grow ref count = do
  inode ← gets (λ sb. inode_at sb ref)
  if ltb max_dblocks (count + length inode.blocks)
      then pure (minus enospc)
      else do taken ← alloc_dblocks count; extend_with ref taken

-- The entry is written into block `b` of the directory, which exists by now.
unfoldable pub put_entry : ℕ → ℕ → ℕ → Text → ℕ → Exec SuperBlock ℤ
put_entry ref b offset fname ino = do
  packed ← lift (pack_entry ino fname)
  inode ← gets (λ sb. inode_at sb ref)
  entry ← or_raise (get_elem? inode.blocks b) index_error
  on_disk (write entry.1 offset packed)
  put_inode ref (record inode { num_f_in_dir = inode.num_f_in_dir + 1 })
  pure (pos 0)

-- A status that is not 0 is returned at once.
unfoldable pub on_success : ℤ → Exec SuperBlock ℤ → Exec SuperBlock ℤ
on_success (pos zero) rest = rest
on_success err rest = pure err

-- self.add_dir_entry(fname, inode), of which only the number of `inode` is used.
unfoldable pub add_dir_entry : ℕ → Text → ℕ → Exec SuperBlock ℤ
unfolding put_entry on_success
add_dir_entry ref fname ino = do
  self ← gets (λ sb. inode_at sb ref)
  raise_if (not (is_dir self.i_mode)) value_error
  if not (is_valid_path_component fname) then pure (minus einval) else do
    let at = self.num_f_in_dir * dir_layout_size
    let b = at / block_size
    err ← (if leb (length self.blocks) b then grow ref 1 else pure (pos 0))
    on_success err (put_entry ref b (at % block_size) fname ino)
