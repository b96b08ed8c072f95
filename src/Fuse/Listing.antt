-- ===== src/Fuse/Listing.antt =====
-- `SlowFS.readdir` of examples/fuse_slowfs.py. It is a generator: what it yields stays yielded where it
-- raises, and what it returns is seen by no consumer.
use slowfs.Prelude.{
  ◌==◌, if◌then◌else◌, ℤ, ℕ, zero, suc, ◌+◌, ◌⊎◌, inl, inr, not, Option, none, some, List, [], ◌∷◌,
  ◌++◌,
}
use slowfs.Exec.{value_error, key_error, ok, raised, Exec, pure, or_raise, ◌>>=◌, ◌>>◌}
use slowfs.Block.Driver.{Block}
use slowfs.Inode.Layout.{dir_layout_size, is_dir}
use slowfs.Inode.Object.{Inode}
use slowfs.Errno.{enoent, enotdir, minus}
use slowfs.Super.State.{on_disk}
use slowfs.Directory.Entry.{Text, slash, all_ascii, read_entry}
use slowfs.Directory.Lookup.{entries_per_block}
use slowfs.Vfs.State.{Call, on_super_ref, on_kernel}
use slowfs.Vfs.Paths.{find_mount}
use slowfs.Vfs.Calls.{sysfs}
use slowfs.Fuse.Server.{inode_of_path}

-- The state of the server, and the names that were yielded.
pub record Yielding : Type 0 where
  pub call : Call
  pub out : List Text

abbrev pub on_call : {A : Type 0} → Exec Call A → Exec Yielding A
on_call m y = let (r, c) = m y.call in (r, record y { call = c })

-- `yield fuse.Direntry(name.decode(encoding="ascii"))`
unfoldable pub yield_name : Text → Exec Yielding (Unit {0})
yield_name name y =
    if all_ascii name
    then (ok tt, record y { out = y.out ++ name ∷ [] })
    else (raised value_error, y)

-- The loop over the entries of one block, of which `rounds` are left; the number 0 ends it.
unfoldable pub yield_block : ℕ → Block → ℕ → ℕ → Exec Yielding (Unit {0})
yield_block super block zero offset = pure tt
yield_block super block (suc rounds) offset = do
  entry ← on_call (on_kernel (on_super_ref super (on_disk (read_entry block offset))))
  let rest = yield_block super block rounds (offset + dir_layout_size)
  if entry.0 == 0 then pure tt else do yield_name entry.1; rest

unfoldable pub yield_blocks : ℕ → List (ℤ × Block) → Exec Yielding (Unit {0})
unfolding yield_block
yield_blocks super [] = pure tt
yield_blocks super ((_, block) ∷ rest) = do
  yield_block super block entries_per_block 0
  yield_blocks super rest

-- What readdir() does with what is at its path. It returns an error, or nothing at its end.
unfoldable pub list_inode : ℕ → ℤ ⊎ Inode → Exec Yielding (Option ℤ)
unfolding yield_blocks
list_inode super (inl err) = pure (some err)
list_inode super (inr inode) =
    if not (is_dir inode.i_mode)
    then pure (some (minus enotdir))
    else do yield_blocks super inode.blocks; pure none

-- `supers["/"]`, unless nothing is mounted.
unfoldable pub list_supers : Text → List (Text × ℕ) → Exec Yielding (Option ℤ)
unfolding list_inode
list_supers path [] = pure (some (minus enoent))
list_supers path (e ∷ supers) = do
  super ← or_raise (find_mount (slash ∷ []) (e ∷ supers)) key_error
  found ← on_call (inode_of_path path super)
  list_inode super found

unfoldable pub readdir : Text → Exec Yielding (Option ℤ)
unfolding list_supers
readdir path = do supers ← on_call (on_kernel sysfs); list_supers path supers
