-- ===== src/Fuse/TableWrites.antt =====
-- The open file table of the server of examples/fuse_slowfs.py, in the operations that change files.
use slowfs.Prelude.{
  ℤ, pos, negsuc, ℕ, zero, suc, bit_or, ◌≡◌, refl, ◌∙◌, inl, inr, some, List, [], ◌∷◌,
}
use slowfs.Exec.{key_error, Result, ok, raised, Exec, pure, resume}
use slowfs.Exec.Kept.{Steps, Kept, Kept-pure, Kept-or_raise, Kept-bind}
use slowfs.Bytes.{Bytes}
use slowfs.Bitmap.{free}
use slowfs.Errno.{enoent, ebadf, minus, o_rdwr, o_creat}
use slowfs.Super.Store.{sync_fs}
use slowfs.Directory.Entry.{Text, slash}
use slowfs.Directory.Lookup.{lookup}
use slowfs.OpenFile.{seek, write_file}
use slowfs.Vfs.State.{Call, on_super_ref, on_kernel}
use slowfs.Vfs.Paths.{find_mount}
use slowfs.Vfs.Calls.{sysfs, free_slot, open_file, close, write_call, seek_call, mkdir_call}
use slowfs.Vfs.Table.{IsFailure, open_file_lem}
use slowfs.Vfs.Holds.{Holds, Holds-file, Holds-close}
use slowfs.Sane.Disk.{disk_steps}
use slowfs.Sane.File.{file_steps}
use slowfs.Fuse.Server.{
  with_supers, on_root, lookup_error, found_inode, inode_of_path, getattr_path, persist, mkdir_path,
  close_new, mknod, open_mode, write_then_close, write_opened, write_path,
}
use slowfs.Fuse.Table.{Outcome, resumed-kept, resume-Holds, resume-refused}

-- The kernel calls of the server leave its table alone.
instance abbrev table_steps : Steps Call
table_steps = record { IsStep = λ s t. t.oft ≡ s.oft; step_trans = λ st tu. tu ∙ st }

with_supers-Kept :
    {A : Type 0} (bad : A) (run : ℕ → Exec Call A) (supers : List (Text × ℕ)) (c : Call)
    → ((ref : ℕ) (t : Call) → Kept t (run ref t) (λ _ _. Unit))
    → Kept c (with_supers bad run supers c) (λ _ _. Unit)
unfolding with_supers
with_supers-Kept bad run [] c next = Kept-pure refl tt
with_supers-Kept bad run (e ∷ supers) c next =
    Kept-bind (Kept-or_raise (find_mount (slash ∷ []) (e ∷ supers)) key_error refl)
      (λ ref t st _. next ref t)

persist-kept : (c : Call) → (persist c).1.oft ≡ c.oft
unfolding persist on_root sysfs
persist-kept c =
    (with_supers-Kept tt _ c.kernel.sblocks c (λ ref t.
      Kept-bind {P = λ _ _. Unit} {run = on_kernel (on_super_ref ref sync_fs) t}
        (record { step = refl; returned = λ a e. tt }) (λ a u st _. Kept-pure refl tt))).step

rest_kept :
    {A B : Type 0} (r : Result A) (b : B) (t : Call) → (resume r (λ _. pure b) t).1.oft ≡ t.oft
rest_kept (ok a) b t = refl
rest_kept (raised e) b t = refl

write_then_close-Outcome :
    (c : Call) (fd : ℕ) (buf : Bytes) (err : ℤ) (t : Call)
    → free_slot c.oft ≡ some fd
    → Holds c fd t
    → Outcome IsFailure c (write_then_close fd buf err t)
unfolding write_then_close write_call
write_then_close-Outcome c fd buf (negsuc n) t free h = inr (fd, free, h, tt)
write_then_close-Outcome c fd buf (pos at) t free h =
    let u : Call = (write_call (pos fd) buf t).1 in
    let h' = Holds-file c fd free (minus ebadf) (write_file buf) h in
    let shut : (close (pos fd) u).1.oft ≡ c.oft = Holds-close c fd free h' in
    resume-Holds IsFailure c (λ e. tt) fd (write_call (pos fd) buf t).0 _ u free h'
      (λ ans. inl (
        resumed-kept c (close (pos fd) u).0 _ (close (pos fd) u).1 shut (λ _.
          rest_kept (persist (close (pos fd) u).1).0 ans (persist (close (pos fd) u).1).1
          ∙ persist-kept (close (pos fd) u).1
          ∙ shut)))

write_opened-Outcome :
    (c : Call) (fd : ℕ) (buf : Bytes) (offset : ℤ) (t : Call)
    → free_slot c.oft ≡ some fd
    → Holds c fd t
    → Outcome IsFailure c (write_opened buf offset (pos fd) t)
unfolding write_opened seek_call
write_opened-Outcome c fd buf offset t free h =
    let u : Call = (seek_call (pos fd) offset t).1 in
    let h' = Holds-file c fd free (minus ebadf) (seek offset) h in
    resume-Holds IsFailure c (λ e. tt) fd (seek_call (pos fd) offset t).0 _ u free h'
      (λ err. write_then_close-Outcome c fd buf err u free h')

-- The server's write() leaves the open file table as it was, or fails with a negative number or an
-- exception: then a descriptor that was free, the least one, may stay taken.
pub write_path_lem :
    (path : Text) (buf : Bytes) (offset : ℤ) (c : Call)
    → Outcome IsFailure c (write_path path buf offset c)
unfolding write_path write_opened
write_path_lem path buf offset c =
    let flags : ℕ = bit_or o_creat o_rdwr in
    let p = open_file path flags open_mode c in
    elim (open_file_lem path flags open_mode c) [
      | inl (fd, entry, _, ran, least, filled) ↦ rw ran (
          write_opened-Outcome c fd buf offset p.1 least
            (record { entry = entry; filled = filled }))
      | inr (same, failure) ↦
          resume-refused IsFailure c p.0 (write_opened buf offset) p.1 failure same (λ n. refl)
    ]

close_new-kept :
    (c : Call) (fd : ℕ) (t : Call)
    → free_slot c.oft ≡ some fd
    → Holds c fd t
    → (close_new (pos fd) t).1.oft ≡ c.oft
unfolding close_new
close_new-kept c fd t free h =
    let u : Call = (close (pos fd) t).1 in
    resumed-kept c (close (pos fd) t).0 _ u (Holds-close c fd free h)
      (λ res. rest_kept (persist u).0 res (persist u).1 ∙ persist-kept u ∙ Holds-close c fd free h)

mknod-kept : (path : Text) (mode : ℕ) (c : Call) → (mknod path mode c).1.oft ≡ c.oft
unfolding mknod close_new
mknod-kept path mode c =
    let flags : ℕ = bit_or o_creat o_rdwr in
    let p = open_file path flags mode c in
    elim (open_file_lem path flags mode c) [
      | inl (fd, entry, _, ran, least, filled) ↦
          rw ran (close_new-kept c fd p.1 least (record { entry = entry; filled = filled }))
      | inr (same, failure) ↦ refused p.0 p.1 failure same
    ]
  where
    refused :
        (r : Result ℤ) (t : Call)
        → IsFailure r
        → t.oft ≡ c.oft
        → (resume r close_new t).1.oft ≡ c.oft
    refused (ok (pos n)) t failure same = absurd failure
    refused (ok (negsuc n)) t failure same = same
    refused (raised e) t failure same = same

mkdir_path-kept : (path : Text) (mode : ℕ) (c : Call) → (mkdir_path path mode c).1.oft ≡ c.oft
unfolding mkdir_path
mkdir_path-kept path mode c =
    let k = mkdir_call path mode c.kernel in
    let t : Call = record c { kernel = k.1 } in
    resumed-kept c k.0 _ t refl (λ res. rest_kept (persist t).0 res (persist t).1 ∙ persist-kept t)

found_inode-Kept :
    (super : ℕ) (status : ℤ) (ref : ℕ) (c : Call)
    → Kept c (found_inode super (status, ref) c) (λ _ _. Unit)
unfolding found_inode lookup_error
found_inode-Kept super (pos zero) ref c = Kept-pure refl tt
found_inode-Kept super (pos (suc n)) ref c = Kept-pure refl tt
found_inode-Kept super (negsuc zero) ref c = Kept-pure refl tt
found_inode-Kept super (negsuc (suc zero)) ref c = Kept-pure refl tt
found_inode-Kept super (negsuc (suc (suc n))) ref c = Kept-pure refl tt

getattr_path-kept : (path : Text) (c : Call) → (getattr_path path c).1.oft ≡ c.oft
unfolding getattr_path on_root sysfs inode_of_path
getattr_path-kept path c =
    (with_supers-Kept (inl (minus enoent)) _ c.kernel.sblocks c (λ ref t.
      Kept-bind {P = λ _ _. Unit}
        (Kept-bind {P = λ _ _. Unit} {run = on_kernel (on_super_ref ref (lookup path)) t}
          (record { step = refl; returned = λ a e. tt })
          (λ found u st _. found_inode-Kept ref found.0 found.1 u))
        (λ found u st _. Kept-pure refl tt))).step

-- The server's mknod(), mkdir() and getattr() leave the open file table as it was, also where they fail or raise.
pub table_kept_lem :
    (path : Text) (mode : ℕ) (c : Call)
    → ((mknod path mode c).1.oft ≡ c.oft)
      × ((mkdir_path path mode c).1.oft ≡ c.oft)
      × ((getattr_path path c).1.oft ≡ c.oft)
table_kept_lem path mode c =
    (mknod-kept path mode c, mkdir_path-kept path mode c, getattr_path-kept path c)
