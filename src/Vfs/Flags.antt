-- ===== src/Vfs/Flags.antt =====
-- What the flags of open() (linux/fs/vfs.py) do to the file system.
use slowfs.Prelude.{
  Bool-cases, ℤ, pos, negsuc, ℕ, zero, suc, ◌≡◌, refl, ap, ◌⊎◌, inl, inr, false, ◌&&◌, Option, none,
  some,
}
use slowfs.Exec.{Result, ok, raised, Exec, resume, resume_cong}
use slowfs.Inode.Layout.{is_dir, is_reg}
use slowfs.Errno.{o_creat, o_excl, has_flag}
use slowfs.Super.State.{SuperBlock}
use slowfs.Directory.Entry.{Text}
use slowfs.Directory.Lookup.{lookup}
use slowfs.Vfs.State.{Call, super_at, on_super_ref}
use slowfs.Vfs.Paths.{get_superblock}
use slowfs.Vfs.Calls.{free_slot, resolve, open_inode, truncates, install, finish_open, open_file}

resume_kernel :
    {A B : Type 0} (r : Result A) (f g : A → Exec Call B) (s : Call)
    → ((a : A) → (f a s).1.kernel ≡ (g a s).1.kernel)
    → (resume r f s).1.kernel ≡ (resume r g s).1.kernel
resume_kernel (ok a) f g s same = same a
resume_kernel (raised e) f g s same = refl

module _ (f g mode : ℕ) (irregular : is_reg mode ≡ false) where
  install-kernel :
      (super ref : ℕ) (slot : Option ℕ) (c : Call)
      → (install f mode super ref slot c).1.kernel ≡ (install g mode super ref slot c).1.kernel
  unfolding install truncates
  install-kernel super ref none c = refl
  install-kernel super ref (some fd) c = rw irregular refl

  finish_open-kernel :
      (super : ℕ) (opened : ℤ ⊎ ℕ) (c : Call)
      → (finish_open f mode super opened c).1.kernel ≡ (finish_open g mode super opened c).1.kernel
  unfolding finish_open
  finish_open-kernel super (inl err) c = refl
  finish_open-kernel super (inr ref) c = install-kernel super ref (free_slot c.oft) c

  module _ (create : has_flag f o_creat ≡ has_flag g o_creat)
      (exclude : has_flag f o_excl ≡ has_flag g o_excl) where
    resolve-flags :
        (pathname : Text) (ref : ℕ) (status : ℤ)
        → resolve pathname f mode ref status ≡ resolve pathname g mode ref status
    unfolding resolve
    resolve-flags pathname ref (pos zero) = rw (create, exclude) refl
    resolve-flags pathname ref (pos (suc n)) = refl
    resolve-flags pathname ref (negsuc zero) = rw create refl
    resolve-flags pathname ref (negsuc (suc zero)) = refl
    resolve-flags pathname ref (negsuc (suc (suc n))) = refl

    open_inode-flags :
        (pathname : Text) (sb : SuperBlock)
        → open_inode pathname f mode sb ≡ open_inode pathname g mode sb
    unfolding open_inode
    open_inode-flags pathname sb =
        let found = lookup pathname sb in
        resume_cong found.0 (λ r. resolve pathname f mode r.1 r.0)
          (λ r. resolve pathname g mode r.1 r.0) found.1
          (λ r. ap (λ (m : Exec SuperBlock (ℤ ⊎ ℕ)). m found.1) (resolve-flags pathname r.1 r.0))

    -- Where the mode argument of open() is not that of a regular file, two sets of flags that agree on
    -- O_CREAT and O_EXCL leave the same file system, disks and memory: O_TRUNC truncates nothing.
    pub open_file-flags :
        (pathname : Text) (c : Call)
        → (open_file pathname f mode c).1.kernel ≡ (open_file pathname g mode c).1.kernel
    unfolding open_file
    open_file-flags pathname c = elim (Bool-cases (is_dir mode && has_flag g o_creat)) [
      | inl e ↦ rw (create, e) refl
      | inr e ↦
          rw (create, e, irregular)
            (let found = get_superblock pathname c.kernel in
              let c' : Call = record c { kernel = found.1 } in
              resume_kernel found.0 _ _ c' (λ r.
                let q = on_super_ref r.0 (open_inode r.1 g mode) found.1 in
                rw (open_inode-flags r.1 (super_at found.1 r.0)) (
                  resume_kernel q.0 (finish_open f mode r.0) (finish_open g mode r.0)
                    (record c { kernel = q.1 })
                    (λ opened. finish_open-kernel r.0 opened (record c { kernel = q.1 })))))
    ]
