-- ===== src/Directory/Walk.antt =====
-- Path look-up, `Inode.lookup` of linux/fs/inode.py, against a relation on the tree of directories.
use slowfs.Prelude.{length, ℤ, pos, negsuc, ℕ, ◌≡◌, refl, true, none, some, List, [], ◌∷◌}
use slowfs.Exec.{ok}
use slowfs.Block.Lists.{AllOn}
use slowfs.Super.State.{SuperBlock, inode_at, dict_get}
use slowfs.Directory.Entry.{Text, slash, all_valid, split}
use slowfs.Directory.Lookup.{object_of, walk, lookup}
use slowfs.OpenFile.View.{view}
use slowfs.Directory.Find.{find_entry}
use slowfs.Directory.Invariant.{IsDirectory, find_in_blocks_lem}

-- The object `p` is a directory that holds these entries, with its blocks on the disk.
pub record IsDirAt (sb : SuperBlock) (p : ℕ) (es : List (ℕ × Text)) : Type 0 where
  pub on : AllOn sb.disk (inode_at sb p).blocks
  pub dir : IsDirectory (view sb.disk (inode_at sb p).blocks) (length (inode_at sb p).blocks) es

-- From the object `p` on, the components lead to an object, with a status: 0 if all are there; where
-- one is missing, the last directory that is there, with -1 if it was the last component and -2
-- if others are left. The inodes that are entered are known to the superblock.
pub data LeadsTo (sb : SuperBlock) : List Text → ℕ → ℤ → ℕ → Type 0 where
  arrived : (p : ℕ) → LeadsTo sb [] p (pos 0) p
  last_missing :
      (p : ℕ) (name : Text) (es : List (ℕ × Text))
      → IsDirAt sb p es
      → find_entry name es ≡ none
      → LeadsTo sb (name ∷ []) p (negsuc 0) p
  directory_missing :
      (p : ℕ) (name next : Text) (rest : List Text) (es : List (ℕ × Text))
      → IsDirAt sb p es
      → find_entry name es ≡ none
      → LeadsTo sb (name ∷ next ∷ rest) p (negsuc 1) p
  entered :
      (p : ℕ) (name : Text) (rest : List Text) (es : List (ℕ × Text)) (ino child : ℕ) (status : ℤ)
      (q : ℕ)
      → IsDirAt sb p es
      → find_entry name es ≡ some ino
      → dict_get ino sb.inodes ≡ some child
      → LeadsTo sb rest child status q
      → LeadsTo sb (name ∷ rest) p status q

object_of-known :
    (sb : SuperBlock) (ino child : ℕ)
    → dict_get ino sb.inodes ≡ some child
    → object_of ino sb ≡ (ok child, sb)
unfolding object_of
object_of-known sb ino child known = rw known

walk_lem :
    (sb : SuperBlock) (names : List Text) (p : ℕ) (status : ℤ) (q : ℕ)
    → LeadsTo sb names p status q
    → walk names p sb ≡ (ok (status, q), sb)
unfolding walk
walk_lem sb _ _ _ _ (arrived p) = refl
walk_lem sb _ _ _ _ (last_missing p name es at gone) =
    let found = find_in_blocks_lem sb (inode_at sb p).blocks name es at.on at.dir in
    rw (found, gone)
walk_lem sb _ _ _ _ (directory_missing p name next rest es at gone) =
    let found = find_in_blocks_lem sb (inode_at sb p).blocks name es at.on at.dir in
    rw (found, gone)
walk_lem sb _ _ _ _ (entered p name rest es ino child status q at here known more) =
    let found = find_in_blocks_lem sb (inode_at sb p).blocks name es at.on at.dir in
    rw (found, here, object_of-known sb ino child known) (walk_lem sb rest child status q more)

-- Where a path starts with a slash and has more behind it, its components are valid, and they lead
-- from the root to an object with a status, lookup() returns the status and the object, and changes
-- nothing.
pub lookup_lem :
    (sb : SuperBlock) (c : ℕ) (below : Text) (status : ℤ) (q : ℕ)
    → all_valid (split (c ∷ below)) ≡ true
    → LeadsTo sb (split (c ∷ below)) sb.root status q
    → lookup (slash ∷ c ∷ below) sb ≡ (ok (status, q), sb)
unfolding lookup
lookup_lem sb c below status q valid leads =
    rw valid (walk_lem sb (split (c ∷ below)) sb.root status q leads)
