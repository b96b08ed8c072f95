-- ===== src/Fuse/Readdir.antt =====
-- readdir() of examples/fuse_slowfs.py for a path that the look-up finds.
use slowfs.Prelude.{
  length, pos, ℕ, ◌+◌, ◌≡◌, refl, sym, ap, ◌∙◌, inr, true, none, some, List, [], ◌∷◌, ◌++◌, arith,
}
use slowfs.Exec.{ok, ◌>>=◌}
use slowfs.Block.Lists.{AllOn}
use slowfs.Inode.Layout.{is_dir}
use slowfs.Super.State.{SuperBlock, inode_at}
use slowfs.Directory.Entry.{Text, slash}
use slowfs.Directory.Lookup.{lookup}
use slowfs.OpenFile.View.{view}
use slowfs.Directory.Invariant.{IsDirectory, IsDirectory-IsEnd}
use slowfs.Vfs.Paths.{find_mount}
use slowfs.Vfs.Calls.{sysfs}
use slowfs.Fuse.Server.{lookup_error, found_inode, inode_of_path}
use slowfs.Fuse.Listing.{Yielding, on_call, list_inode, list_supers, readdir}
use slowfs.Fuse.Names.{IsAt, read_from, read_from-IsAt, names_of, AllAscii, yield_blocks-suffix}

-- The path of the server's directory is found, at an object of the superblock that is mounted at "/".
pub record IsFoundAt (path : Text) (y : Yielding) (super : ℕ) (sb : SuperBlock) (ref : ℕ)
    : Type 0 where
  pub at_root : find_mount (slash ∷ []) y.call.kernel.sblocks ≡ some super
  pub before : SuperBlock
  pub at : IsAt super before y
  pub looked : lookup path before ≡ (ok (pos 0, ref), sb)

find_mount-nil : (m : Text) → find_mount m [] ≡ none
unfolding find_mount
find_mount-nil m = refl

list_supers-some :
    (path : Text) (super : ℕ) (mounts : List (Text × ℕ)) (y : Yielding)
    → find_mount (slash ∷ []) mounts ≡ some super
    → list_supers path mounts y
      ≡ (on_call (inode_of_path path super) >>= (λ found. list_inode super found)) y
unfolding list_supers
list_supers-some path super [] y e =
    let no : none ≡ some super = sym (find_mount-nil (slash ∷ [])) ∙ e in cc
list_supers-some path super (m ∷ mounts) y e = rw e

-- What readdir() comes to for a path that is found.
readdir-found :
    (path : Text) (y : Yielding) (super : ℕ) (sb : SuperBlock) (ref : ℕ)
    → IsFoundAt path y super sb ref
    → (t : Yielding) × IsAt super sb t
      × (t.out ≡ y.out)
      × (readdir path y ≡ list_inode super (inr (inode_at sb ref)) t)
unfolding readdir inode_of_path found_inode lookup_error sysfs
readdir-found path y super sb ref found =
    let step =
      read_from-IsAt super found.before sb (lookup path) (pos 0, ref) y found.looked found.at in
    let t : Yielding = (read_from super (lookup path) y).1 in
    (
      t,
      step.1,
      refl,
      list_supers-some path super y.call.kernel.sblocks y found.at_root
          ∙ rw step.0
              (ap (λ (s : SuperBlock). list_inode super (inr (inode_at s ref)) t) step.1.same),
    )

-- The server's readdir() yields, for a path that is found at a directory, the names of the directory's entries in
-- their order, "." and ".." among them, and ends without an error: the path is found by the
-- superblock at "/", the directory's blocks are on the disk and hold these entries, and their
-- names are ASCII.
pub readdir_lem :
    (path : Text) (y : Yielding) (super : ℕ) (sb : SuperBlock) (ref : ℕ) (es : List (ℕ × Text))
    → IsFoundAt path y super sb ref
    → is_dir (inode_at sb ref).i_mode ≡ true
    → AllOn sb.disk (inode_at sb ref).blocks
    → IsDirectory (view sb.disk (inode_at sb ref).blocks) (length (inode_at sb ref).blocks) es
    → AllAscii es
    → ((readdir path y).0 ≡ ok none) × ((readdir path y).1.out ≡ y.out ++ names_of es)
unfolding list_inode
readdir_lem path y super sb ref es found dir on holds ascii =
    let (t, at, out, run) = readdir-found path y super sb ref found in
    let blocks = (inode_at sb ref).blocks in
    let all =
      yield_blocks-suffix super sb blocks 0 blocks es t
        (λ i. let same : 0 + i ≡ i = omega arith in rw same) on holds.has
        (IsDirectory-IsEnd (view sb.disk blocks) (length blocks) es holds) ascii at in
    rw run (rw dir (rw all.ran (refl, all.yielded ∙ ap (λ (o : List Text). o ++ names_of es) out)))
