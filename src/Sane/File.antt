-- ===== src/Sane/File.antt =====
-- The methods of an open file (linux/fs/file.py), over the superblock of its inode.
use slowfs.Prelude.{
  ℤ, pos, negsuc, ltb_ℤ, py_get, floor_div, floor_mod, add_ℕ, ℕ, zero, suc, ◌+◌, ◌-◌, min, ◌≡◌,
  refl, sym, ◌∙◌, subst,
}
use slowfs.Exec.{index_error, Result}
use slowfs.Exec.Kept.{
  Steps, Step, Kept, Kept-pure, Kept-raise, Kept-or_raise, Kept-if, Kept-bind, Kept-step,
}
use slowfs.Bytes.{Bytes, zeros}
use slowfs.Block.Sizes.{block_size}
use slowfs.Block.Driver.{from_to}
use slowfs.Block.Lists.{Blocks}
use slowfs.Inode.Layout.{is_dir}
use slowfs.Inode.Object.{Inode}
use slowfs.Errno.{o_wronly, has_flag}
use slowfs.Super.State.{SuperBlock}
use slowfs.OpenFile.{Opened, inode_of_file, seek, read_loop, read_count, read}
use slowfs.Sane.Disk.{disk_steps}
use slowfs.Sane.Super.{IsSane, super_steps, super_self, HasObject, HasObject-Step}
use slowfs.Sane.Store.{on_disk-get_slice}

pub record FileStep (s t : Opened) : Type 0 where
  pub super : Step s.sb t.sb
  pub same_inode : t.file.inode ≡ s.file.inode

instance abbrev pub file_steps : Steps Opened
file_steps = record {
  IsStep = FileStep;
  step_trans = λ {s} {t} {u} st tu. record {
    super = super_steps.step_trans st.super tu.super;
    same_inode = tu.same_inode ∙ st.same_inode;
  };
}

-- The superblock is well formed, and the file's inode is an object of it.
pub record IsOpen (o : Opened) : Type 0 where
  pub sane : IsSane o.sb
  pub has : HasObject o.sb o.file.inode

pub file_self : {o : Opened} → IsOpen o → Step o o
file_self op = record { super = super_self op.sane; same_inode = refl }

pub IsOpen-Step : {s t : Opened} → Step s t → IsOpen s → IsOpen t
IsOpen-Step {s} {t} st op = record {
  sane = st.super.sane;
  has =
      subst (λ (ref : ℕ). HasObject t.sb ref) (sym st.same_inode)
        (HasObject-Step s.file.inode st.super op.has);
}

-- A run on the superblock.
pub Kept-on_super :
    {A : Type 0} {o : Opened} {Q : A → SuperBlock → Type 0} {run : Result A × SuperBlock}
    → Kept o.sb run Q
    → Kept o (run.0, record o { sb = run.1 }) (λ a t. Q a t.sb)
Kept-on_super km = record {
  step = record { super = km.step; same_inode = refl };
  returned = km.returned;
}

-- The file with another offset.
abbrev pub with_offset : Opened → ℤ → Opened
with_offset o offset = record o { file = record o.file { offset = offset } }

pub Step-offset : {o : Opened} (offset : ℤ) → IsOpen o → Step o (with_offset o offset)
Step-offset offset op = record { super = super_self op.sane; same_inode = refl }

pub seek-Kept : {o : Opened} (offset : ℤ) → IsOpen o → Kept o (seek offset o) (λ _ _. Unit)
unfolding seek
seek-Kept {o} offset op =
    let inode : Inode = inode_of_file o in
    Kept-if (is_dir inode.i_mode) _ _ (λ _. Kept-pure (file_self op) tt)
      (λ _.
        Kept-if (ltb_ℤ (pos inode.i_size) offset) _ _ (λ _. Kept-pure (file_self op) tt)
          (λ _.
            let st = Step-offset offset op in
            Kept-step st (Kept-pure (file_self (IsOpen-Step st op)) tt)))

read_loop-Kept :
    (rounds : ℕ) (blocks : Blocks) (to_read ptr : ℕ) (buf : Bytes) (o : Opened)
    → IsOpen o
    → Kept o (read_loop rounds blocks to_read ptr buf o) (λ _ _. Unit)
unfolding read_loop
read_loop-Kept zero blocks to_read ptr buf o op = Kept-pure (file_self op) tt
read_loop-Kept (suc rounds) blocks zero ptr buf o op = Kept-pure (file_self op) tt
read_loop-Kept (suc rounds) blocks (suc left) ptr buf o op =
    let offset : ℤ = o.file.offset in
    let b_offset : ℕ = floor_mod offset block_size in
    let size : ℕ = min (block_size - b_offset) (suc left) in
    Kept-bind
      (Kept-or_raise (py_get blocks (floor_div offset block_size)) index_error (file_self op))
      (λ entry t st _.
        let open_t = IsOpen-Step st op in
        Kept-bind
          (Kept-on_super
            (on_disk-get_slice entry.1 (from_to b_offset (b_offset + size)) open_t.sane))
          (λ part u su _.
            let open_u = IsOpen-Step su open_t in
            let sv = Step-offset (add_ℕ offset size) open_u in
            Kept-step sv (
              read_loop-Kept rounds blocks _ _ _ (with_offset u (add_ℕ offset size))
                (IsOpen-Step sv open_u))))

read_count-Kept :
    {o : Opened} (blocks : Blocks) (count : ℤ)
    → IsOpen o
    → Kept o (read_count blocks count o) (λ _ _. Unit)
unfolding read_count
read_count-Kept blocks (negsuc n) op = Kept-raise (file_self op)
read_count-Kept {o} blocks (pos to_read) op =
    Kept-bind (read_loop-Kept to_read blocks to_read 0 (zeros to_read) o op)
      (λ buf t st _. Kept-pure (file_self (IsOpen-Step st op)) tt)

pub read-Kept : {o : Opened} (count : ℤ) → IsOpen o → Kept o (read count o) (λ _ _. Unit)
unfolding read
read-Kept {o} count op =
    let inode : Inode = inode_of_file o in
    Kept-if (is_dir inode.i_mode) _ _ (λ _. Kept-pure (file_self op) tt)
      (λ _.
        Kept-if (has_flag o.file.flags o_wronly) _ _ (λ _. Kept-pure (file_self op) tt)
          (λ _. read_count-Kept inode.blocks _ op))
