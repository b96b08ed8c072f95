-- ===== src/Sane/Paths.antt =====
-- What open() and mkdir() do on the superblock of a path (linux/fs/vfs.py).
use slowfs.Prelude.{
  ℤ, pos, negsuc, ℕ, zero, suc, refl, ◌⊎◌, inl, inr, ◌&&◌, not, Option, none, some, [],
}
use slowfs.Exec.Kept.{Kept, Kept-pure, Kept-if, Kept-bind, Kept-step}
use slowfs.Bitmap.Bits.{has}
use slowfs.Inode.Object.{Inode}
use slowfs.Errno.{o_creat, o_excl, has_flag}
use slowfs.Super.State.{SuperBlock, inode_at}
use slowfs.Directory.Entry.{Text}
use slowfs.Vfs.Paths.{basename}
use slowfs.Vfs.Calls.{link_new, resolve, open_inode, truncate, link_dir, make_dir, make_directory}
use slowfs.Sane.Disk.{disk_steps}
use slowfs.Sane.Super.{IsSane, super_steps, super_self, HasObject, HasObject-Step}
use slowfs.Sane.Objects.{Step-put, Kept-put, number_stays}
use slowfs.Sane.Store.{IsNew, alloc_inode-Kept, dealloc_dblocks-Kept}
use slowfs.Sane.Directory.{add_dir_entry-Kept}
use slowfs.Sane.Make.{create-Kept, mkdir-Kept}
use slowfs.Sane.Lookup.{lookup-Kept}
use slowfs.Sane.File.{file_steps}

-- The object that open() opens, unless it is refused.
abbrev pub OpensObject : ℤ ⊎ ℕ → SuperBlock → Type 0
OpensObject (inl err) sb = Unit
OpensObject (inr ref) sb = HasObject sb ref

link_new-Kept :
    {sb : SuperBlock} (pathname : Text) (mode parent : ℕ) (new : Option ℕ)
    → HasObject sb parent
    → IsNew new sb
    → IsSane sb
    → Kept sb (link_new pathname mode parent new sb) OpensObject
unfolding link_new
link_new-Kept pathname mode parent none has here sane = Kept-pure (super_self sane) tt
link_new-Kept pathname mode parent (some ref) has here sane =
    Kept-bind (create-Kept ref (some parent) mode here sane) (λ _ t st _.
      Kept-bind
        (add_dir_entry-Kept parent (basename pathname) (inode_at t ref).i_ino
          (HasObject-Step parent st has) st.sane)
        (λ _ u su _.
          Kept-pure (super_self su.sane) (HasObject-Step ref su (HasObject-Step ref st here))))

resolve-Kept :
    {sb : SuperBlock} (pathname : Text) (flags mode ref : ℕ) (status : ℤ)
    → HasObject sb ref
    → IsSane sb
    → Kept sb (resolve pathname flags mode ref status sb) OpensObject
unfolding resolve
resolve-Kept pathname flags mode ref (pos zero) has sane =
    Kept-if (has_flag flags o_creat && has_flag flags o_excl) _ _
      (λ _. Kept-pure (super_self sane) tt) (λ _. Kept-pure (super_self sane) has)
resolve-Kept pathname flags mode ref (pos (suc n)) has sane = Kept-pure (super_self sane) has
resolve-Kept pathname flags mode ref (negsuc zero) has sane =
    Kept-if (not (has_flag flags o_creat)) _ _ (λ _. Kept-pure (super_self sane) tt)
      (λ _. Kept-bind (alloc_inode-Kept sane) (λ new t st here.
        link_new-Kept pathname mode ref new (HasObject-Step ref st has) here st.sane))
resolve-Kept pathname flags mode ref (negsuc (suc zero)) has sane = Kept-pure (super_self sane) tt
resolve-Kept pathname flags mode ref (negsuc (suc (suc n))) has sane =
    Kept-pure (super_self sane) tt

pub open_inode-Kept :
    {sb : SuperBlock} (pathname : Text) (flags mode : ℕ)
    → HasObject sb sb.root
    → IsSane sb
    → Kept sb (open_inode pathname flags mode sb) OpensObject
unfolding open_inode
open_inode-Kept pathname flags mode root sane =
    Kept-bind (lookup-Kept pathname root sane)
      (λ found t st here. resolve-Kept pathname flags mode found.1 found.0 here st.sane)

pub truncate-Kept :
    {sb : SuperBlock} (ref : ℕ)
    → HasObject sb ref
    → IsSane sb
    → Kept sb (truncate ref sb) (λ _ _. Unit)
unfolding truncate
truncate-Kept {sb} ref has sane =
    let self : Inode = inode_at sb ref in
    Kept-bind (dealloc_dblocks-Kept self.blocks sane) (λ _ t st _.
      Kept-put ref (record self { blocks = []; i_size = 0 }) (number_stays ref st has) tt st.sane
        (λ put. Kept-pure (super_self put) tt))

link_dir-Kept :
    {sb : SuperBlock} (pathname : Text) (mode parent : ℕ) (new : Option ℕ)
    → HasObject sb parent
    → IsNew new sb
    → IsSane sb
    → Kept sb (link_dir pathname mode parent new sb) (λ _ _. Unit)
unfolding link_dir
link_dir-Kept pathname mode parent none has here sane = Kept-pure (super_self sane) tt
link_dir-Kept {sb} pathname mode parent (some ref) has here sane =
    let self : Inode = inode_at sb ref in
    let parented : Inode = record self { p_ino = pos (inode_at sb parent).i_ino } in
    let st = Step-put ref parented refl (sane.in_zone ref) sane in
    Kept-step st (
      Kept-bind (mkdir-Kept ref mode (HasObject-Step ref st here) st.sane) (λ _ u su _.
        Kept-bind
          (add_dir_entry-Kept parent (basename pathname) self.i_ino
            (HasObject-Step parent su (HasObject-Step parent st has)) su.sane)
          (λ _ v sv _. Kept-pure (super_self sv.sane) tt)))

make_dir-Kept :
    {sb : SuperBlock} (pathname : Text) (mode parent : ℕ) (status : ℤ)
    → HasObject sb parent
    → IsSane sb
    → Kept sb (make_dir pathname mode parent status sb) (λ _ _. Unit)
unfolding make_dir
make_dir-Kept pathname mode parent (pos zero) has sane = Kept-pure (super_self sane) tt
make_dir-Kept pathname mode parent (pos (suc n)) has sane =
    Kept-bind (alloc_inode-Kept sane) (λ new t st here.
      link_dir-Kept pathname mode parent new (HasObject-Step parent st has) here st.sane)
make_dir-Kept pathname mode parent (negsuc zero) has sane =
    Kept-bind (alloc_inode-Kept sane) (λ new t st here.
      link_dir-Kept pathname mode parent new (HasObject-Step parent st has) here st.sane)
make_dir-Kept pathname mode parent (negsuc (suc zero)) has sane = Kept-pure (super_self sane) tt
make_dir-Kept pathname mode parent (negsuc (suc (suc n))) has sane = Kept-pure (super_self sane) tt

pub make_directory-Kept :
    {sb : SuperBlock} (pathname : Text) (mode : ℕ)
    → HasObject sb sb.root
    → IsSane sb
    → Kept sb (make_directory pathname mode sb) (λ _ _. Unit)
unfolding make_directory
make_directory-Kept pathname mode root sane =
    Kept-bind (lookup-Kept pathname root sane)
      (λ found t st here. make_dir-Kept pathname mode found.1 found.0 here st.sane)
