-- ===== src/Sane/Make.antt =====
-- New files and directories (`create` and `mkdir` of linux/fs/inode.py).
use slowfs.Prelude.{ℤ, pos, negsuc, ℕ, bit_or, refl, ◌||◌, not, Option, [], ◌∷◌, ◌++◌}
use slowfs.Exec.{key_error}
use slowfs.Exec.Kept.{
  Step, Kept, Kept-pure, Kept-raise, Kept-or_raise, Kept-assert, Kept-bind, Kept-step,
}
use slowfs.Block.Sizes.{block_size}
use slowfs.Block.Lists.{Blocks}
use slowfs.Bitmap.Bits.{has}
use slowfs.Inode.Layout.{s_ifdir, s_ifreg, is_dir, is_reg}
use slowfs.Inode.Object.{Inode}
use slowfs.Super.State.{SuperBlock, inode_at, dict_get}
use slowfs.Directory.Make.{
  is_known, parent_of, is_given, create, dot, dot_dot, parent_number, fill_dir, is_number, mkdir,
}
use slowfs.Sane.Disk.{disk_steps}
use slowfs.Sane.Super.{AllFrom, IsSane, super_steps, super_self, HasObject, HasObject-Step}
use slowfs.Sane.Objects.{with_object, Step-put, Kept-put, number_stays}
use slowfs.Sane.Store.{AllFrom-Step, alloc_dblocks-Kept}
use slowfs.Sane.Directory.{AllFrom-append, add_dir_entry-Kept}

pub create-Kept :
    {sb : SuperBlock} (ref : ℕ) (p_inode : Option ℕ) (mode : ℕ)
    → HasObject sb ref
    → IsSane sb
    → Kept sb (create ref p_inode mode sb) (λ _ _. Unit)
unfolding create
create-Kept {sb} ref p_inode mode has sane =
    let self : Inode = inode_at sb ref in
    Kept-bind (Kept-assert (not (is_dir self.i_mode)) (super_self sane)) (λ _ t st _.
      Kept-bind (Kept-assert (is_given p_inode || is_known self.p_ino) (super_self st.sane))
        (λ _ u su _.
          let su' : Step sb u = super_steps.step_trans st su in
          Kept-put ref
            (record self { p_ino = parent_of p_inode self.p_ino u; i_mode = bit_or s_ifreg mode })
            (number_stays ref su' has) (AllFrom-Step self.blocks su' (sane.in_zone ref)) su.sane
            (λ put. Kept-pure (super_self put) tt)))

parent_number-Kept :
    {sb : SuperBlock} (p : ℤ) → IsSane sb → Kept sb (parent_number p sb) (λ _ _. Unit)
unfolding parent_number
parent_number-Kept (negsuc p) sane = Kept-raise (super_self sane)
parent_number-Kept {sb} (pos p) sane =
    Kept-bind (Kept-or_raise (dict_get p sb.inodes) key_error (super_self sane))
      (λ parent t st _. Kept-pure (super_self st.sane) tt)

fill_dir-Kept :
    {sb : SuperBlock} (ref : ℕ) (taken : Blocks)
    → HasObject sb ref
    → AllFrom sb.dzone taken
    → IsSane sb
    → Kept sb (fill_dir ref taken sb) (λ _ _. Unit)
unfolding fill_dir
fill_dir-Kept ref [] has from sane = Kept-pure (super_self sane) tt
fill_dir-Kept {sb} ref (entry ∷ more) has from sane =
    let self : Inode = inode_at sb ref in
    let changed : Inode = record self {
      blocks = self.blocks ++ entry ∷ more;
      i_size = block_size;
    } in
    let st =
      Step-put ref changed refl
        (AllFrom-append sb.dzone self.blocks (entry ∷ more) (sane.in_zone ref) from) sane in
    let t : SuperBlock = with_object sb ref changed in
    Kept-step st (
      Kept-bind (add_dir_entry-Kept ref dot self.i_ino (HasObject-Step ref st has) st.sane)
        (λ _ u su _. Kept-bind (parent_number-Kept self.p_ino su.sane) (λ parent v sv _.
          Kept-bind
            (add_dir_entry-Kept ref dot_dot parent
              (HasObject-Step ref sv (HasObject-Step ref su (HasObject-Step ref st has))) sv.sane)
            (λ _ w sw _. Kept-pure (super_self sw.sane) tt))))

pub mkdir-Kept :
    {sb : SuperBlock} (ref mode : ℕ)
    → HasObject sb ref
    → IsSane sb
    → Kept sb (mkdir ref mode sb) (λ _ _. Unit)
unfolding mkdir
mkdir-Kept {sb} ref mode has sane =
    let self : Inode = inode_at sb ref in
    Kept-bind (Kept-assert (not (is_reg self.i_mode)) (super_self sane)) (λ _ t st _.
      Kept-bind (Kept-assert (is_number self.p_ino) (super_self st.sane)) (λ _ u su _.
        let su' : Step sb u = super_steps.step_trans st su in
        let sv =
          Step-put ref (record self { i_mode = bit_or s_ifdir mode }) (number_stays ref su' has)
            (AllFrom-Step self.blocks su' (sane.in_zone ref)) su.sane in
        Kept-step sv (
          Kept-bind (alloc_dblocks-Kept 1 sv.sane) (λ taken w sw from.
            fill_dir-Kept ref taken
              (HasObject-Step ref sw (HasObject-Step ref sv (HasObject-Step ref su' has))) from
              sw.sane))))
