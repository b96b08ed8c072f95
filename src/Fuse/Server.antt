-- ===== src/Fuse/Server.antt =====
-- `SlowFS` of examples/fuse_slowfs.py: the operations that the third-party FUSE library calls. The
-- object's state is the kernel behind its system calls and the open file table of its process; the
-- library's objects are plain records.
use slowfs.Prelude.{
  ℤ, pos, negsuc, ℕ, zero, suc, bit_or, ◌⊎◌, inl, inr, Option, none, some, List, [], ◌∷◌,
}
use slowfs.Exec.{key_error, Result, ok, raised, Exec, pure, gets, or_raise, ◌>>=◌, ◌>>◌}
use slowfs.Bytes.{Bytes, RawFile}
use slowfs.Block.Device.{Disk}
use slowfs.Inode.Object.{Inode}
use slowfs.Errno.{enoent, minus, o_rdwr, o_creat}
use slowfs.Super.State.{inode_at}
use slowfs.Super.Store.{sync_fs}
use slowfs.Directory.Entry.{Text, slash}
use slowfs.Directory.Lookup.{lookup}
use slowfs.OpenFile.{Reply, failed}
use slowfs.Vfs.State.{Call, super_at, on_super_ref, on_kernel}
use slowfs.Vfs.Paths.{find_mount}
use slowfs.Vfs.Calls.{sysfs, mount, open_file, close, write_call, read_call, seek_call, mkdir_call}
use slowfs.Process.{new_process, new_kernel}
use slowfs.Fuse.Storage.{create_slowfs_blockdev}

-- "/tmp/fuse_slowfs.raw"
abbrev pub slowfs_storage_path : Text
slowfs_storage_path =
    47 ∷ 116 ∷ 109 ∷ 112 ∷ 47 ∷ 102 ∷ 117 ∷ 115 ∷ 101 ∷ 95 ∷ 115 ∷ 108 ∷ 111 ∷ 119 ∷ 102 ∷ 115 ∷ 46
    ∷ 114 ∷ 97 ∷ 119 ∷ []

-- SlowFS(...), which mounts its disk at "/". What is in the file of the disk is an argument.
served : Result Disk → Result Call
served (raised e) = raised e
served (ok disk) =
    let (r, k) = mount 0 (slash ∷ []) (new_kernel (disk ∷ [])) in
    elim r [ ok _ ↦ ok (record { kernel = k; oft = new_process }) | raised e ↦ raised e ]

unfoldable pub new_slowfs : Option RawFile → Result Call
unfolding served
new_slowfs file = served (create_slowfs_blockdev slowfs_storage_path file)

-- `supers["/"]`, unless nothing is mounted.
unfoldable pub with_supers : {A : Type 0} → A → (ℕ → Exec Call A) → List (Text × ℕ) → Exec Call A
with_supers bad run [] = pure bad
with_supers bad run (e ∷ supers) = do
  ref ← or_raise (find_mount (slash ∷ []) (e ∷ supers)) key_error
  run ref

unfoldable pub on_root : {A : Type 0} → A → (ℕ → Exec Call A) → Exec Call A
unfolding with_supers
on_root bad run = do supers ← on_kernel sysfs; with_supers bad run supers

-- The error of a look-up, by its status.
unfoldable pub lookup_error : ℤ → Option ℤ
lookup_error (pos zero) = none
lookup_error (negsuc (suc (suc n))) = some (negsuc (suc (suc n)))
lookup_error _ = some (minus enoent)

-- The inode of a path, or an error.
unfoldable pub found_inode : ℕ → ℤ × ℕ → Exec Call (ℤ ⊎ Inode)
unfolding lookup_error
found_inode super (status, ref) = elim (lookup_error status) [
  | some err ↦ pure (inl err)
  | none ↦ gets (λ c. inr (inode_at (super_at c.kernel super) ref))
]

unfoldable pub inode_of_path : Text → ℕ → Exec Call (ℤ ⊎ Inode)
unfolding found_inode
inode_of_path path super = do
  found ← on_kernel (on_super_ref super (lookup path))
  found_inode super found

-- fuse.Stat
pub record Stat : Type 0 where
  pub st_mode : ℕ
  pub st_size : ℕ
  pub st_nlink : ℕ

unfoldable pub stat_of : ℤ ⊎ Inode → ℤ ⊎ Stat
stat_of (inl err) = inl err
stat_of (inr inode) = inr (record { st_mode = inode.i_mode; st_size = inode.i_size; st_nlink = 1 })

unfoldable pub getattr_path : Text → Exec Call (ℤ ⊎ Stat)
unfolding stat_of
getattr_path path =
    on_root (inl (minus enoent))
      (λ super. do found ← inode_of_path path super; pure (stat_of found))

-- _persist()
unfoldable pub persist : Exec Call (Unit {0})
persist = on_root tt (λ super. do on_kernel (on_super_ref super sync_fs); pure tt)

unfoldable pub mkdir_path : Text → ℕ → Exec Call ℤ
mkdir_path path mode = do res ← on_kernel (mkdir_call path mode); persist; pure res

-- What mknod() does with what open() returned.
unfoldable pub close_new : ℤ → Exec Call ℤ
close_new (negsuc n) = pure (negsuc n)
close_new (pos fd) = do res ← close (pos fd); persist; pure res

unfoldable pub mknod : Text → ℕ → Exec Call ℤ
unfolding close_new
mknod path mode = do fd ← open_file path (bit_or o_creat o_rdwr) mode; close_new fd

-- The mode that read() and write() open a file with.
abbrev pub open_mode : ℕ
open_mode = 0o644

-- What read() does behind its seek().
unfoldable pub read_then_close : ℕ → ℤ → ℤ → Exec Call Reply
read_then_close fd size (negsuc n) = pure (failed (negsuc n))
read_then_close fd size (pos at) = do ans ← read_call (pos fd) size; close (pos fd); pure ans

unfoldable pub read_opened : ℤ → ℤ → ℤ → Exec Call Reply
unfolding read_then_close
read_opened size offset (negsuc n) = pure (failed (negsuc n))
read_opened size offset (pos fd) = do err ← seek_call (pos fd) offset; read_then_close fd size err

unfoldable pub read_path : Text → ℤ → ℤ → Exec Call Reply
unfolding read_opened
read_path path size offset = do fd ← open_file path 0 open_mode; read_opened size offset fd

-- What write() does behind its seek().
unfoldable pub write_then_close : ℕ → Bytes → ℤ → Exec Call ℤ
write_then_close fd buf (negsuc n) = pure (negsuc n)
write_then_close fd buf (pos at) = do
  ans ← write_call (pos fd) buf
  close (pos fd)
  persist
  pure ans

unfoldable pub write_opened : Bytes → ℤ → ℤ → Exec Call ℤ
unfolding write_then_close
write_opened buf offset (negsuc n) = pure (negsuc n)
write_opened buf offset (pos fd) = do err ← seek_call (pos fd) offset; write_then_close fd buf err

unfoldable pub write_path : Text → Bytes → ℤ → Exec Call ℤ
unfolding write_opened
write_path path buf offset = do
  fd ← open_file path (bit_or o_creat o_rdwr) open_mode
  write_opened buf offset fd
