-- ===== src/Sane/Mount.antt =====
-- The construction of a superblock (`SuperBlock.__init__` of linux/fs/super.py), with both of its ways.
use slowfs.Prelude.{
  ltb, ◌==◌, Bool-cases, length, get_elem?, pos, ℕ, ◌*◌, ◌/◌, ◌≡◌, refl, subst, inl, inr, Bool,
  true, false, not, Option, none, some, List, [], ◌∷◌, arith,
}
use slowfs.Exec.{value_error, index_error, Result, ok, raised, Exec, ok-injective}
use slowfs.Exec.Kept.{
  Kept, Kept-pure, Kept-raise, Kept-or_raise, Kept-any, Kept-raise_if, Kept-bind, Kept-step,
}
use slowfs.Block.Sizes.{bsize_in_sectors}
use slowfs.Block.Device.{Disk}
use slowfs.Block.Driver.{get_byte, from_to}
use slowfs.Bitmap.{from_block, alloc, iterate}
use slowfs.Bitmap.Bits.{has}
use slowfs.Inode.Layout.{inode_size}
use slowfs.Inode.Object.{Inode, new_inode}
use slowfs.Super.State.{SuperBlock, fs_type, on_imap, inode_at}
use slowfs.Mount.{
  blank, suppress, root_mode, make_root, format_fs, load_inodes, init_from_disk, check_type,
  initialize, constructed, new_super,
}
use slowfs.Sane.Disk.{disk_steps, get_byte-Kept, from_block-Kept}
use slowfs.Sane.Super.{
  IsSane, super_steps, super_self, HasObject, HasObject-Step, Kept-on_disk, Kept-on_imap,
  Kept-set_imap, Kept-set_dmap,
}
use slowfs.Sane.Objects.{
  with_object, Step-put, Kept-cache, with_new, Step-new, HasObject-new, Kept-set_root,
  get_elem?-Step, number_at,
}
use slowfs.Sane.Store.{IsNew, alloc_inode-Kept, on_disk-get_slice, block_at-Kept}
use slowfs.Sane.Loads.{from_bytes-Kept, read_inode_from_disk-Kept}
use slowfs.Sane.Make.{mkdir-Kept}

blank-IsSane : (disk : Disk) → IsSane (blank disk)
unfolding blank new_inode
blank-IsSane disk = record { filed = tt; root_ref = omega arith; in_zone = λ ref. tt }

-- The root is an object.
abbrev pub HasRoot : Unit {0} → SuperBlock → Type 0
HasRoot _ sb = HasObject sb sb.root

suppress-Kept :
    {sb : SuperBlock} (m : Exec SuperBlock (Unit {0}))
    → Kept sb (m sb) (λ _ _. Unit)
    → Kept sb (suppress m sb) (λ _ _. Unit)
unfolding suppress
suppress-Kept m km = record { step = km.step; returned = λ a e. tt }

make_root-Kept :
    {sb : SuperBlock} (new : Option ℕ)
    → IsNew new sb
    → IsSane sb
    → Kept sb (make_root new sb) HasRoot
unfolding make_root
make_root-Kept none has sane = Kept-raise (super_self sane)
make_root-Kept {sb} (some ref) has sane =
    let rooted = Kept-set_root ref (omega arith) sane in
    let t : SuperBlock = record sb { root = ref } in
    let self : Inode = inode_at sb ref in
    let put =
      Step-put {sb = t} ref (record self { p_ino = pos self.i_ino }) refl (sane.in_zone ref)
        rooted.step.sane in
    let u : SuperBlock = with_object t ref (record self { p_ino = pos self.i_ino }) in
    Kept-step rooted.step (
      Kept-step put (
        Kept-bind (mkdir-Kept ref root_mode (HasObject-Step ref put has) put.sane) (λ _ v sv _.
          let before = number_at sb.heap ref (new_inode 0) has in
          let after = get_elem?-Step {t = v} ref (super_steps.step_trans put sv) before in
          let filed = Kept-cache self.i_ino ref after sv.sane in
          let here = HasObject-Step ref sv (HasObject-Step ref put has) in
          record {
            step = filed.step;
            returned = λ _ e. let root = sv.sane.root_ref in omega arith;
          })))

format_fs-Kept : {sb : SuperBlock} → IsSane sb → Kept sb (format_fs sb) HasRoot
unfolding format_fs
format_fs-Kept {sb} sane =
    Kept-bind (suppress-Kept (on_imap (alloc (pos 0))) (Kept-on_imap (alloc (pos 0)) sane))
      (λ _ t st _.
        Kept-bind (alloc_inode-Kept st.sane) (λ new u su here. make_root-Kept new here su.sane))

load_inodes-Kept :
    (is : List ℕ) (sb : SuperBlock) → IsSane sb → Kept sb (load_inodes is sb) (λ _ _. Unit)
unfolding load_inodes
load_inodes-Kept [] sb sane = Kept-pure (super_self sane) tt
load_inodes-Kept (i ∷ is) sb sane = Kept-bind (read_inode_from_disk-Kept i sane) (λ inode t st from.
    let new = Step-new inode from st.sane in
    Kept-step new (load_inodes-Kept is (with_new t inode) new.sane))

init_from_disk-Kept : {sb : SuperBlock} → IsSane sb → Kept sb (init_from_disk sb) HasRoot
unfolding init_from_disk
init_from_disk-Kept {sb} sane = Kept-bind (block_at-Kept 1 sane) (λ iblock a sa _.
    Kept-bind (Kept-on_disk (from_block iblock) sa.sane (from_block-Kept iblock a.disk))
      (λ imap b sb _.
        let c = Kept-set_imap imap sb.sane in
        Kept-step c.step (
          Kept-bind (block_at-Kept 2 c.step.sane) (λ dblock d sd _.
            Kept-bind (Kept-on_disk (from_block dblock) sd.sane (from_block-Kept dblock d.disk))
              (λ dmap e se _.
                let f = Kept-set_dmap dmap se.sane in
                Kept-step f.step (
                  Kept-bind (load_inodes-Kept (iterate imap) (record e { dmap = dmap }) f.step.sane)
                    (λ _ g sg _.
                      Kept-bind
                        (Kept-or_raise (get_elem? g.izone 0) index_error (super_self sg.sane))
                        (λ block h sh _.
                          Kept-bind
                            (on_disk-get_slice block (from_to inode_size (2 * inode_size)) sh.sane)
                            (λ bs i si _. Kept-bind (from_bytes-Kept bs si.sane) (λ root j sj from.
                              let new = Step-new root from sj.sane in
                              let here = HasObject-new j root in
                              let rooted = Kept-set_root (length j.heap) (omega arith) new.sane in
                              Kept-step new (
                                Kept-step rooted.step
                                  (Kept-pure (super_self rooted.step.sane) here))))))))))))

check_type-Kept : {sb : SuperBlock} → IsSane sb → Kept sb (check_type sb) (λ _ _. Unit)
unfolding check_type
check_type-Kept sane = Kept-bind (block_at-Kept 0 sane) (λ sblock t st _.
    Kept-bind (Kept-on_disk (get_byte sblock 0) st.sane (get_byte-Kept sblock 0 t.disk))
      (λ byte u su _.
        Kept-any (Kept-raise_if (not (byte == fs_type)) value_error (super_self su.sane))))

initialize-Kept :
    {sb : SuperBlock} (format : Bool) → IsSane sb → Kept sb (initialize format sb) HasRoot
unfolding initialize
initialize-Kept true sane = format_fs-Kept sane
initialize-Kept false sane =
    Kept-bind (check_type-Kept sane) (λ _ t st _. init_from_disk-Kept st.sane)

-- A superblock object over its disk: its layout is the one of that disk, and its root is an object.
pub record IsOver (disk : Disk) (sb : SuperBlock) : Type 0 where
  pub sane : IsSane sb
  pub rooted : HasObject sb sb.root
  pub same_blocks : sb.blocks ≡ (blank disk).blocks
  pub same_izone : sb.izone ≡ (blank disk).izone
  pub same_dzone : sb.dzone ≡ (blank disk).dzone

constructed-Kept :
    (disk : Disk) (run : Result (Unit {0}) × SuperBlock)
    → Kept (blank disk) run HasRoot
    → Kept disk (constructed run) (λ sb d. IsOver disk sb)
unfolding constructed blank
constructed-Kept disk (ok u, sb) km = record {
  step = km.step.same_size;
  returned = λ t e.
      subst (λ (x : SuperBlock). IsOver disk x) (ok-injective e)
        (record {
          sane = km.step.sane;
          rooted = km.returned u refl;
          same_blocks = km.step.same_blocks;
          same_izone = km.step.same_izone;
          same_dzone = km.step.same_dzone;
        });
}
constructed-Kept disk (raised x, sb) km = record { step = km.step.same_size; returned = λ t e. cc }

pub new_super-Kept :
    (format : Bool) (disk : Disk) → Kept disk (new_super format disk) (λ sb d. IsOver disk sb)
unfolding new_super
new_super-Kept format disk = elim (Bool-cases (ltb (disk.num_sectors / bsize_in_sectors) 5)) [
  | inl e ↦ rw e (Kept-raise refl)
  | inr e ↦ rw e (
      constructed-Kept disk (initialize format (blank disk))
        (initialize-Kept format (blank-IsSane disk)))
]
