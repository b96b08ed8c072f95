-- ===== src/Vfs/Calls.antt =====
-- The system calls of linux/fs/vfs.py. A path is resolved by the superblock of its mountpoint, and a
-- file descriptor by the open file table of the calling process.
use slowfs.Prelude.{
  if◌then◌else◌, length, set, ℤ, pos, negsuc, py_get, ℕ, zero, suc, ◌-◌, bit_or, ◌⊎◌, inl, inr,
  Bool, true, false, ◌&&◌, not, Option, none, some, List, [], ◌∷◌, ◌++◌,
}
use slowfs.Exec.{
  value_error, index_error, ok, Exec, pure, gets, or_raise, ◌>>=◌, ◌>>◌, modify, raise_if,
}
use slowfs.Bytes.{Bytes}
use slowfs.Inode.Layout.{is_dir, is_reg}
use slowfs.Errno.{
  enoent, ebadf, eexist, einval, emfile, edquot, minus, o_wronly, o_rdwr, o_creat, o_excl, o_trunc,
  has_flag,
}
use slowfs.Super.State.{SuperBlock, inode_at, put_inode}
use slowfs.Super.Store.{alloc_inode, write_inode, sync_fs, dealloc_dblocks}
use slowfs.Directory.Entry.{Text}
use slowfs.Directory.Grow.{add_dir_entry}
use slowfs.Directory.Lookup.{lookup}
use slowfs.Directory.Make.{create, mkdir}
use slowfs.Mount.{new_super}
use slowfs.OpenFile.{new_file, seek, Reply, failed, read, write_file}
use slowfs.Vfs.State.{Kernel, Entry, Call, on_super_ref, on_device, on_kernel, on_file}
use slowfs.Vfs.Paths.{get_superblock, basename, ends_with_slash, find_mount, remove_mount}

unfoldable pub sysfs : Exec Kernel (List (Text × ℕ))
sysfs k = (ok k.sblocks, k)

-- The new superblock object, over the disk that it has worked on.
unfoldable pub add_super : Text → ℕ → SuperBlock → Exec Kernel ℤ
add_super mountpoint device sb k = (
  ok (pos 0),
  record k {
    supers = k.supers ++ record { device = device; sb = sb } ∷ [];
    sblocks = k.sblocks ++ (mountpoint, length k.supers) ∷ [];
  },
)

unfoldable pub is_mounted : Option ℕ → Bool
is_mounted none = false
is_mounted (some _) = true

unfoldable pub mount : ℕ → Text → Exec Kernel ℤ
unfolding add_super is_mounted
mount device mountpoint = do
  sblocks ← sysfs
  raise_if (is_mounted (find_mount mountpoint sblocks)) value_error
  sb ← on_device device (new_super false)
  add_super mountpoint device sb

-- The mountpoint is given up before its superblock is synced.
unfoldable pub umount : Text → Exec Kernel ℤ
umount mountpoint = do
  sblocks ← sysfs
  ref ← or_raise (find_mount mountpoint sblocks) value_error
  modify (λ k. record k { sblocks = remove_mount mountpoint k.sblocks })
  on_super_ref ref sync_fs

-- The least free slot of an open file table, oft.index(None).
unfoldable pub free_slot : List (Option Entry) → Option ℕ
free_slot [] = none
free_slot (none ∷ oft) = some 0
free_slot (some _ ∷ oft) = elim (free_slot oft) [ some fd ↦ some (suc fd) | none ↦ none ]

-- What open() does for a path that is missing in a directory that exists: the object of a new
-- file, or an error.
unfoldable pub link_new : Text → ℕ → ℕ → Option ℕ → Exec SuperBlock (ℤ ⊎ ℕ)
link_new pathname mode parent none = pure (inl (minus edquot))
link_new pathname mode parent (some ref) = do
  create ref (some parent) mode
  inode ← gets (λ sb. inode_at sb ref)
  add_dir_entry parent (basename pathname) inode.i_ino
  pure (inr ref)

-- open() up to the file descriptor, by the status of the look-up.
unfoldable pub resolve : Text → ℕ → ℕ → ℕ → ℤ → Exec SuperBlock (ℤ ⊎ ℕ)
unfolding link_new
resolve pathname flags mode ref (pos zero) =
    if has_flag flags o_creat && has_flag flags o_excl
    then pure (inl (minus eexist))
    else pure (inr ref)
resolve pathname flags mode ref (pos (suc n)) = pure (inr ref)
resolve pathname flags mode ref (negsuc zero) =
    if not (has_flag flags o_creat)
    then pure (inl (minus enoent))
    else do new ← alloc_inode; link_new pathname mode ref new
resolve pathname flags mode ref (negsuc (suc zero)) = pure (inl (minus enoent))
resolve pathname flags mode ref (negsuc (suc (suc n))) = pure (inl (negsuc (suc (suc n))))

-- The object that open() opens, or the error that it returns.
unfoldable pub open_inode : Text → ℕ → ℕ → Exec SuperBlock (ℤ ⊎ ℕ)
unfolding resolve
open_inode pathname flags mode = do
  (status, ref) ← lookup pathname
  resolve pathname flags mode ref status

-- Truncation to length 0.
unfoldable pub truncate : ℕ → Exec SuperBlock (Unit {0})
truncate ref = do
  inode ← gets (λ sb. inode_at sb ref)
  dealloc_dblocks inode.blocks
  put_inode ref (record inode { blocks = []; i_size = 0 })

unfoldable pub truncates : ℕ → ℕ → Bool
truncates flags mode =
    is_reg mode && has_flag flags o_trunc && has_flag flags (bit_or o_rdwr o_wronly)

-- open() from the choice of the file descriptor on.
unfoldable pub install : ℕ → ℕ → ℕ → ℕ → Option ℕ → Exec Call ℤ
unfolding truncates
install flags mode super ref none = pure (minus emfile)
install flags mode super ref (some fd) = do
  on_kernel (on_super_ref super (if truncates flags mode then truncate ref else pure tt))
  modify (λ c. record c {
    oft = set c.oft fd (some (record { super = super; file = new_file ref flags }));
  })
  pure (pos fd)

unfoldable pub finish_open : ℕ → ℕ → ℕ → ℤ ⊎ ℕ → Exec Call ℤ
unfolding install
finish_open flags mode super (inl err) = pure err
finish_open flags mode super (inr ref) = do
  slot ← gets (λ c. free_slot c.oft)
  install flags mode super ref slot

unfoldable pub open_file : Text → ℕ → ℕ → Exec Call ℤ
unfolding finish_open
open_file pathname flags mode =
    if is_dir mode && has_flag flags o_creat
    then pure (minus einval)
    else if is_reg mode && ends_with_slash pathname
    then pure (minus einval)
    else do
      (super, below) ← on_kernel (get_superblock pathname)
      opened ← on_kernel (on_super_ref super (open_inode below flags mode))
      finish_open flags mode super opened

-- oft[fd]: the slot and what is in it. A negative number counts from the end.
unfoldable pub slot_of : List (Option Entry) → ℤ → ℕ
slot_of oft (pos fd) = fd
slot_of oft (negsuc n) = length oft - suc n

unfoldable pub with_fd : {A : Type 0} → ℤ → A → (ℕ → Entry → Exec Call A) → Exec Call A
unfolding slot_of
with_fd fd bad run = do
  oft ← gets (λ c. c.oft)
  found ← or_raise (py_get oft fd) index_error
  elim found [ none ↦ pure bad | some entry ↦ run (slot_of oft fd) entry ]

unfoldable pub close_slot : ℕ → Entry → Exec Call ℤ
close_slot slot entry = do
  modify (λ c. record c { oft = set c.oft slot none })
  on_kernel (
      on_super_ref entry.super
        (do inode ← gets (λ sb. inode_at sb entry.file.inode); write_inode inode))
  pure (pos 0)

unfoldable pub close : ℤ → Exec Call ℤ
unfolding with_fd close_slot
close (negsuc n) = pure (minus ebadf)
close (pos fd) = with_fd (pos fd) (minus ebadf) close_slot

unfoldable pub write_call : ℤ → Bytes → Exec Call ℤ
unfolding with_fd
write_call fd buf = with_fd fd (minus ebadf) (λ slot entry. on_file slot entry (write_file buf))

unfoldable pub read_call : ℤ → ℤ → Exec Call Reply
unfolding with_fd
read_call fd count =
    with_fd fd (failed (minus ebadf)) (λ slot entry. on_file slot entry (read count))

unfoldable pub seek_call : ℤ → ℤ → Exec Call ℤ
unfolding with_fd
seek_call fd offset = with_fd fd (minus ebadf) (λ slot entry. on_file slot entry (seek offset))

-- mkdir() for a path that is missing in a directory that exists.
unfoldable pub link_dir : Text → ℕ → ℕ → Option ℕ → Exec SuperBlock ℤ
link_dir pathname mode parent none = pure (minus edquot)
link_dir pathname mode parent (some ref) = do
  p_inode ← gets (λ sb. inode_at sb parent)
  inode ← gets (λ sb. inode_at sb ref)
  put_inode ref (record inode { p_ino = pos p_inode.i_ino })
  mkdir ref mode
  add_dir_entry parent (basename pathname) inode.i_ino
  pure (pos 0)

unfoldable pub make_dir : Text → ℕ → ℕ → ℤ → Exec SuperBlock ℤ
unfolding link_dir
make_dir pathname mode parent (pos zero) = pure (minus eexist)
make_dir pathname mode parent (negsuc (suc zero)) = pure (minus enoent)
make_dir pathname mode parent (negsuc (suc (suc n))) = pure (negsuc (suc (suc n)))
make_dir pathname mode parent _ = do new ← alloc_inode; link_dir pathname mode parent new

unfoldable pub make_directory : Text → ℕ → Exec SuperBlock ℤ
unfolding make_dir
make_directory pathname mode = do
  (status, parent) ← lookup pathname
  make_dir pathname mode parent status

unfoldable pub mkdir_call : Text → ℕ → Exec Kernel ℤ
mkdir_call pathname mode = do
  (super, below) ← get_superblock pathname
  on_super_ref super (make_directory below mode)
