-- ===== src/Fuse/Errors.antt =====
-- The error returns of readdir() in examples/fuse_slowfs.py, on each of its ways.
-- What returned an error has yielded no name more.
use slowfs.Prelude.{
  Bool-cases, Option-cases, ℤ, ℕ, ◌≡◌, refl, ◌⊎◌, inl, inr, Option, none, some, List, [], ◌∷◌,
}
use slowfs.Exec.{Result, ok, raised, Exec, pure, resume, ok-injective}
use slowfs.Inode.Layout.{is_dir}
use slowfs.Inode.Object.{Inode}
use slowfs.Directory.Entry.{Text, slash}
use slowfs.Vfs.Paths.{find_mount}
use slowfs.Vfs.Calls.{sysfs}
use slowfs.Fuse.Server.{inode_of_path}
use slowfs.Fuse.Listing.{Yielding, yield_blocks, list_inode, list_supers, readdir}

abbrev IsSilent : Yielding → Result (Option ℤ) × Yielding → Type 0
IsSilent y p = (err : ℤ) → p.0 ≡ ok (some err) → p.1.out ≡ y.out

resume-IsSilent :
    {A : Type 0} (y : Yielding) (r : Result A) (f : A → Exec Yielding (Option ℤ)) (t : Yielding)
    → ((a : A) → IsSilent y (f a t))
    → IsSilent y (resume r f t)
resume-IsSilent y (ok a) f t next = next a
resume-IsSilent y (raised x) f t next = λ err e. cc

-- A run that returns nothing at its end returns no error.
ends-IsSilent :
    (y : Yielding) (r : Result (Unit {0})) (t : Yielding) → IsSilent y (resume r (λ _. pure none) t)
ends-IsSilent y (ok u) t = λ err e. let no : none ≡ some err = ok-injective e in cc
ends-IsSilent y (raised x) t = λ err e. cc

list_inode-IsSilent :
    (super : ℕ) (found : ℤ ⊎ Inode) (y : Yielding) → IsSilent y (list_inode super found y)
unfolding list_inode
list_inode-IsSilent super (inl err) y = λ e h. refl
list_inode-IsSilent super (inr inode) y = elim (Bool-cases (is_dir inode.i_mode)) [
  | inl dir ↦
      rw dir (
        ends-IsSilent y (yield_blocks super inode.blocks y).0 (yield_blocks super inode.blocks y).1)
  | inr file ↦ rw file (λ e h. refl)
]

list_supers-IsSilent :
    (path : Text) (supers : List (Text × ℕ)) (y : Yielding) → IsSilent y (list_supers path supers y)
unfolding list_supers
list_supers-IsSilent path [] y = λ e h. refl
list_supers-IsSilent path (m ∷ supers) y =
    elim (Option-cases (find_mount (slash ∷ []) (m ∷ supers))) [
      | inl gone ↦ rw gone (λ err e. cc)
      | inr (super, e) ↦
          let found = inode_of_path path super y.call in
          let t : Yielding = record y { call = found.1 } in
          rw e (resume-IsSilent y found.0 (list_inode super) t (λ a. list_inode-IsSilent super a t))
    ]

-- A call of the server's readdir() that ends with an error value has yielded no name, whatever the
-- path and the state are.
pub readdir_error :
    (path : Text) (y : Yielding) (err : ℤ)
    → (readdir path y).0 ≡ ok (some err)
    → (readdir path y).1.out ≡ y.out
unfolding readdir sysfs
readdir_error path y = list_supers-IsSilent path y.call.kernel.sblocks y
