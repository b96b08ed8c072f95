-- ===== src/Directory/Lookup.antt =====
-- `Inode.lookup` of linux/fs/inode.py.
use slowfs.Prelude.{
  ◌==◌, if◌then◌else◌, ℤ, pos, negsuc, ℕ, zero, suc, ◌+◌, Option, none, some, List, [], ◌∷◌,
}
use slowfs.Exec.{ok, Exec, pure, gets, ◌>>=◌}
use slowfs.Block.Device.{bytes_eq}
use slowfs.Block.Driver.{Block}
use slowfs.Inode.Layout.{dir_layout_size}
use slowfs.Errno.{enodev, einval, minus}
use slowfs.Super.State.{SuperBlock, on_disk, inode_at, new_object, dict_get}
use slowfs.Super.Store.{read_inode_from_disk}
use slowfs.Directory.Entry.{Text, slash, all_valid, split, read_entry}

-- The loop over the entries of one block, of which `rounds` are left; the number 0 ends it.
unfoldable pub find_in_block : Block → Text → ℕ → ℕ → Exec SuperBlock (Option ℕ)
find_in_block block name zero offset = pure none
find_in_block block name (suc rounds) offset = do
  entry ← on_disk (read_entry block offset)
  let rest = find_in_block block name rounds (offset + dir_layout_size)
  if entry.0 == 0 then pure none else if bytes_eq entry.1 name then pure (some entry.0) else rest

-- BLOCK_SIZE / _DIR_LAYOUT_SIZE
abbrev pub entries_per_block : ℕ
entries_per_block = 128

-- The loop over the blocks of a directory: the next block, unless the name was found.
unfoldable pub or_else : Option ℕ → Exec SuperBlock (Option ℕ) → Exec SuperBlock (Option ℕ)
or_else (some ino) rest = pure (some ino)
or_else none rest = rest

unfoldable pub find_in_blocks : List (ℤ × Block) → Text → Exec SuperBlock (Option ℕ)
unfolding or_else
find_in_blocks [] name = pure none
find_in_blocks ((_, block) ∷ rest) name = do
  found ← find_in_block block name entries_per_block 0
  or_else found (find_in_blocks rest name)

-- The object of a number that was found: the one in memory, or a new one from the disk.
unfoldable pub load : ℕ → Option ℕ → Exec SuperBlock ℕ
load ino (some ref) = pure ref
load ino none = do inode ← read_inode_from_disk ino; new_object inode

unfoldable pub object_of : ℕ → Exec SuperBlock ℕ
unfolding load
object_of ino = do known ← gets (λ sb. dict_get ino sb.inodes); load ino known

-- The status of a component that was not found, by whether components are left behind it.
unfoldable pub missing : List Text → ℤ
missing [] = negsuc 0
missing (_ ∷ _) = negsuc 1

unfoldable pub step_to :
    Option ℕ → ℕ → List Text → (ℕ → Exec SuperBlock (ℤ × ℕ)) → Exec SuperBlock (ℤ × ℕ)
step_to none p rest go = pure (missing rest, p)
step_to (some ino) p rest go = do next ← object_of ino; go next

-- The loop over the components, from the object `p` on.
unfoldable pub walk : List Text → ℕ → Exec SuperBlock (ℤ × ℕ)
unfolding step_to missing
walk [] p = pure (pos 0, p)
walk (component ∷ rest) p = do
  blocks ← gets (λ sb. (inode_at sb p).blocks)
  found ← find_in_blocks blocks component
  step_to found p rest (walk rest)

-- The part of a path behind its first slash.
unfoldable pub lookup_below : Text → Exec SuperBlock (ℤ × ℕ)
lookup_below [] sb = (ok (pos 0, sb.root), sb)
lookup_below (c ∷ cs) sb =
    let components = split (c ∷ cs) in
    if all_valid components then walk components sb.root sb else (ok (minus einval, sb.root), sb)

-- Inode.lookup(pathname, sb): a status, and a reference.
unfoldable pub lookup : Text → Exec SuperBlock (ℤ × ℕ)
unfolding lookup_below
lookup [] sb = (ok (minus enodev, sb.root), sb)
lookup (c ∷ cs) sb = if c == slash then lookup_below cs sb else (ok (minus enodev, sb.root), sb)
