-- ===== src/Directory/Make.antt =====
-- `create`, `mkdir` and the small methods of an inode (linux/fs/inode.py).
use slowfs.Prelude.{
  ◌==◌, if◌then◌else◌, ℤ, pos, negsuc, ℕ, bit_and, bit_or, Bool, true, false, ◌||◌, not, Option,
  none, some, List, [], ◌∷◌, ◌++◌,
}
use slowfs.Exec.{key_error, Exec, pure, raise, gets, or_raise, ◌>>=◌, ◌>>◌, assert_that}
use slowfs.Block.Sizes.{block_size}
use slowfs.Block.Driver.{Block}
use slowfs.Inode.Layout.{s_ifdir, s_ifreg, is_dir, is_reg}
use slowfs.Errno.{enotdir, enospc, minus}
use slowfs.Super.State.{SuperBlock, inode_at, put_inode, dict_get}
use slowfs.Super.Store.{alloc_dblocks}
use slowfs.Directory.Entry.{Text}
use slowfs.Directory.Grow.{add_dir_entry}

unfoldable pub is_known : ℤ → Bool
is_known (pos p) = true
is_known (negsuc p) = not (p == 0)

unfoldable pub parent_of : Option ℕ → ℤ → SuperBlock → ℤ
parent_of none p_ino sb = p_ino
parent_of (some parent) p_ino sb = pos (inode_at sb parent).i_ino

unfoldable pub is_given : Option ℕ → Bool
is_given none = false
is_given (some _) = true

-- self.create(p_inode, mode)
unfoldable pub create : ℕ → Option ℕ → ℕ → Exec SuperBlock ℤ
unfolding is_known parent_of is_given
create ref p_inode mode = do
  self ← gets (λ sb. inode_at sb ref)
  assert_that (not (is_dir self.i_mode))
  assert_that (is_given p_inode || is_known self.p_ino)
  parent ← gets (parent_of p_inode self.p_ino)
  put_inode ref (record self { p_ino = parent; i_mode = bit_or s_ifreg mode })
  pure (pos 0)

abbrev pub dot : Text
dot = 46 ∷ []

abbrev pub dot_dot : Text
dot_dot = 46 ∷ 46 ∷ []

-- self.i_sb.inodes[self.p_ino].i_ino
unfoldable pub parent_number : ℤ → Exec SuperBlock ℕ
parent_number (negsuc _) = raise key_error
parent_number (pos p) = do
  inodes ← gets (λ sb. sb.inodes)
  parent ← or_raise (dict_get p inodes) key_error
  gets (λ sb. (inode_at sb parent).i_ino)

-- mkdir() with the block that the superblock gave.
unfoldable pub fill_dir : ℕ → List (ℤ × Block) → Exec SuperBlock ℤ
unfolding parent_number
fill_dir ref [] = pure (minus enospc)
fill_dir ref (taken ∷ more) = do
  self ← gets (λ sb. inode_at sb ref)
  put_inode ref (record self { blocks = self.blocks ++ taken ∷ more; i_size = block_size })
  add_dir_entry ref dot self.i_ino
  parent ← parent_number self.p_ino
  add_dir_entry ref dot_dot parent
  pure (pos 0)

unfoldable pub is_number : ℤ → Bool
is_number (pos p) = true
is_number (negsuc p) = false

-- self.mkdir(mode)
unfoldable pub mkdir : ℕ → ℕ → Exec SuperBlock ℤ
unfolding fill_dir is_number
mkdir ref mode = do
  self ← gets (λ sb. inode_at sb ref)
  assert_that (not (is_reg self.i_mode))
  assert_that (is_number self.p_ino)
  put_inode ref (record self { i_mode = bit_or s_ifdir mode })
  taken ← alloc_dblocks 1
  fill_dir ref taken

unfoldable pub unlink : ℕ → Exec SuperBlock ℤ
unlink ref = pure (pos 0)

unfoldable pub rmdir : ℕ → Exec SuperBlock ℤ
rmdir ref = do
  self ← gets (λ sb. inode_at sb ref)
  pure (if not (is_dir self.i_mode) then minus enotdir else pos 0)

unfoldable pub permission : ℕ → Exec SuperBlock ℕ
permission ref = gets (λ sb. bit_and (inode_at sb ref).i_mode 0o777)

unfoldable pub getattr : ℕ → Exec SuperBlock ℤ
getattr ref = pure (pos 0)

unfoldable pub setattr : ℕ → Exec SuperBlock ℤ
setattr ref = pure (pos 0)
