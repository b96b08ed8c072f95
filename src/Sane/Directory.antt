-- ===== src/Sane/Directory.antt =====
-- Directories (linux/fs/inode.py): growth, entries, look-up, and new files and directories.
use slowfs.Prelude.{
  ltb, leb, if◌then◌else◌, length, get_elem?, ℤ, pos, negsuc, ℕ, zero, suc, ◌+◌, ◌*◌, ◌/◌, refl,
  not, List, [], ◌∷◌, ◌++◌,
}
use slowfs.Exec.{value_error, index_error, Exec, pure}
use slowfs.Exec.Kept.{
  Step, Kept, Kept-pure, Kept-lift, Kept-or_raise, Kept-if, Kept-raise_if, Kept-bind,
}
use slowfs.Block.Sizes.{block_size}
use slowfs.Block.Driver.{Block}
use slowfs.Block.Lists.{Blocks}
use slowfs.Bitmap.Bits.{has}
use slowfs.Inode.Layout.{max_dblocks, dir_layout_size, is_dir}
use slowfs.Inode.Object.{Inode}
use slowfs.Super.State.{SuperBlock, inode_at}
use slowfs.Directory.Entry.{Text, is_valid_path_component, pack_entry}
use slowfs.Directory.Grow.{extend_with, grow, put_entry, on_success, add_dir_entry}
use slowfs.Sane.Disk.{disk_steps}
use slowfs.Sane.Super.{AllFrom, IsSane, super_steps, super_self, HasObject, HasObject-Step}
use slowfs.Sane.Objects.{Kept-put, number_stays}
use slowfs.Sane.Store.{AllFrom-Step, on_disk-write, alloc_dblocks-Kept}

pub AllFrom-append :
    (dzone : List Block) (xs ys : Blocks)
    → AllFrom dzone xs
    → AllFrom dzone ys
    → AllFrom dzone (xs ++ ys)
AllFrom-append dzone [] ys hx hy = hy
AllFrom-append dzone (x ∷ xs) ys hx hy = (hx.0, AllFrom-append dzone xs ys hx.1 hy)

extend_with-Kept :
    {sb : SuperBlock} (ref : ℕ) (taken : Blocks)
    → AllFrom sb.dzone taken
    → IsSane sb
    → Kept sb (extend_with ref taken sb) (λ _ _. Unit)
unfolding extend_with
extend_with-Kept ref [] from sane = Kept-pure (super_self sane) tt
extend_with-Kept {sb} ref (entry ∷ more) from sane =
    let self : Inode = inode_at sb ref in
    Kept-put ref
      (record self {
        blocks = self.blocks ++ entry ∷ more;
        i_size = if is_dir self.i_mode then self.i_size + block_size else self.i_size;
      })
      refl (AllFrom-append sb.dzone self.blocks (entry ∷ more) (sane.in_zone ref) from) sane
      (λ put. Kept-pure (super_self put) tt)

pub grow-Kept :
    {sb : SuperBlock} (ref count : ℕ) → IsSane sb → Kept sb (grow ref count sb) (λ _ _. Unit)
unfolding grow
grow-Kept {sb} ref count sane =
    Kept-if (ltb max_dblocks (count + length (inode_at sb ref).blocks)) _ _
      (λ _. Kept-pure (super_self sane) tt)
      (λ _.
        Kept-bind (alloc_dblocks-Kept count sane)
          (λ taken t st from. extend_with-Kept ref taken from st.sane))

put_entry-Kept :
    {sb : SuperBlock} (ref b offset : ℕ) (fname : Text) (ino : ℕ)
    → HasObject sb ref
    → IsSane sb
    → Kept sb (put_entry ref b offset fname ino sb) (λ _ _. Unit)
unfolding put_entry
put_entry-Kept {sb} ref b offset fname ino has sane =
    Kept-bind (Kept-lift (pack_entry ino fname) (super_self sane)) (λ packed t st _.
      let self : Inode = inode_at t ref in
      Kept-bind (Kept-or_raise (get_elem? self.blocks b) index_error (super_self st.sane))
        (λ entry u su _. Kept-bind (on_disk-write entry.1 offset packed su.sane) (λ _ v sv _.
          let tv : Step t v = super_steps.step_trans su sv in
          Kept-put ref (record self { num_f_in_dir = self.num_f_in_dir + 1 })
            (number_stays ref tv (HasObject-Step ref st has))
            (AllFrom-Step self.blocks tv (st.sane.in_zone ref)) sv.sane
            (λ put. Kept-pure (super_self put) tt))))

on_success-Kept :
    {sb : SuperBlock} (err : ℤ) (rest : Exec SuperBlock ℤ)
    → Kept sb (rest sb) (λ _ _. Unit)
    → IsSane sb
    → Kept sb (on_success err rest sb) (λ _ _. Unit)
unfolding on_success
on_success-Kept (pos zero) rest more sane = more
on_success-Kept (pos (suc n)) rest more sane = Kept-pure (super_self sane) tt
on_success-Kept (negsuc n) rest more sane = Kept-pure (super_self sane) tt

pub add_dir_entry-Kept :
    {sb : SuperBlock} (ref : ℕ) (fname : Text) (ino : ℕ)
    → HasObject sb ref
    → IsSane sb
    → Kept sb (add_dir_entry ref fname ino sb) (λ _ _. Unit)
unfolding add_dir_entry
add_dir_entry-Kept {sb} ref fname ino has sane =
    let self : Inode = inode_at sb ref in
    let b : ℕ = self.num_f_in_dir * dir_layout_size / block_size in
    Kept-bind (Kept-raise_if (not (is_dir self.i_mode)) value_error (super_self sane)) (λ _ t st _.
      Kept-if (not (is_valid_path_component fname)) _ _ (λ _. Kept-pure (super_self st.sane) tt)
        (λ _.
          Kept-bind
            (Kept-if (leb (length self.blocks) b) (grow ref 1) (pure (pos 0))
              (λ _. grow-Kept ref 1 st.sane) (λ _. Kept-pure (super_self st.sane) tt))
            (λ err u su _.
              on_success-Kept err _
                (put_entry-Kept ref b _ fname ino
                  (HasObject-Step ref su (HasObject-Step ref st has)) su.sane)
                su.sane)))
