-- ===== src/Sane/Lookup.antt =====
-- Path look-up (`Inode.lookup` of linux/fs/inode.py): it ends at an object, whatever the path is.
use slowfs.Prelude.{
  ◌==◌, ==_iff, Bool-cases, get_elem?, ℤ, ℕ, zero, suc, ◌+◌, ◌≡◌, refl, ap, ◌∙◌, subst, inl, inr,
  Option, none, some, some-injective, List, [], ◌∷◌, arith,
}
use slowfs.Exec.{Exec}
use slowfs.Exec.Kept.{Kept, Kept-pure, Kept-if, Kept-weaken, Kept-bind}
use slowfs.Block.Device.{bytes_eq}
use slowfs.Block.Driver.{Block}
use slowfs.Block.Lists.{Blocks}
use slowfs.Bitmap.Bits.{has}
use slowfs.Inode.Layout.{dir_layout_size}
use slowfs.Super.State.{SuperBlock, inode_at, dict_get}
use slowfs.Super.Held.{get_elem?-bound}
use slowfs.Directory.Entry.{Text, slash, all_valid, split, read_entry}
use slowfs.Directory.Lookup.{
  find_in_block, entries_per_block, or_else, find_in_blocks, load, object_of, step_to, walk,
  lookup_below, lookup,
}
use slowfs.Sane.Disk.{disk_steps, read_entry-Kept}
use slowfs.Sane.Super.{
  numbers, AllFiled, IsSane, super_steps, super_self, length-numbers, HasObject, HasObject-Step,
  Kept-on_disk,
}
use slowfs.Sane.Objects.{Kept-new_object}
use slowfs.Sane.Loads.{read_inode_from_disk-Kept}

find_in_block-Kept :
    {sb : SuperBlock} (block : Block) (name : Text) (rounds offset : ℕ)
    → IsSane sb
    → Kept sb (find_in_block block name rounds offset sb) (λ _ _. Unit)
unfolding find_in_block
find_in_block-Kept block name zero offset sane = Kept-pure (super_self sane) tt
find_in_block-Kept {sb} block name (suc rounds) offset sane =
    Kept-bind (Kept-on_disk (read_entry block offset) sane (read_entry-Kept block offset sb.disk))
      (λ entry t st _.
        Kept-if (entry.0 == 0) _ _ (λ _. Kept-pure (super_self st.sane) tt)
          (λ _.
            Kept-if (bytes_eq entry.1 name) _ _ (λ _. Kept-pure (super_self st.sane) tt)
              (λ _. find_in_block-Kept block name rounds (offset + dir_layout_size) st.sane)))

or_else-Kept :
    {sb : SuperBlock} (found : Option ℕ) (rest : Exec SuperBlock (Option ℕ))
    → Kept sb (rest sb) (λ _ _. Unit)
    → IsSane sb
    → Kept sb (or_else found rest sb) (λ _ _. Unit)
unfolding or_else
or_else-Kept (some ino) rest more sane = Kept-pure (super_self sane) tt
or_else-Kept none rest more sane = more

find_in_blocks-Kept :
    {sb : SuperBlock} (blocks : Blocks) (name : Text)
    → IsSane sb
    → Kept sb (find_in_blocks blocks name sb) (λ _ _. Unit)
unfolding find_in_blocks
find_in_blocks-Kept [] name sane = Kept-pure (super_self sane) tt
find_in_blocks-Kept ((i, block) ∷ rest) name sane =
    Kept-bind (find_in_block-Kept block name entries_per_block 0 sane)
      (λ found t st _. or_else-Kept found _ (find_in_blocks-Kept rest name st.sane) st.sane)

dict_get-AllFiled :
    (ns : List ℕ) (k : ℕ) (d : List (ℕ × ℕ)) (ref : ℕ)
    → AllFiled ns d
    → dict_get k d ≡ some ref
    → get_elem? ns ref ≡ some k
unfolding dict_get
dict_get-AllFiled ns k [] ref h e = cc
dict_get-AllFiled ns k ((j, w) ∷ d) ref h e = elim (Bool-cases (j == k)) [
  | inl same ↦
      let here : some w ≡ some ref = rw same at e in
      subst (λ (r : ℕ). get_elem? ns r ≡ some k) (some-injective _ _ here)
        (h.0 ∙ ap some ((==_iff j k).0 same))
  | inr other ↦ dict_get-AllFiled ns k d ref h.1 (rw other at e)
]

-- The object of a reference.
abbrev AtObject : ℕ → SuperBlock → Type 0
AtObject ref sb = HasObject sb ref

-- The object at which a look-up ends.
abbrev pub EndsAtObject : ℤ × ℕ → SuperBlock → Type 0
EndsAtObject r sb = HasObject sb r.1

load-Kept :
    {sb : SuperBlock} (ino : ℕ) (known : Option ℕ)
    → dict_get ino sb.inodes ≡ known
    → IsSane sb
    → Kept sb (load ino known sb) AtObject
unfolding load
load-Kept {sb} ino (some ref) e sane =
    let here = dict_get-AllFiled (numbers sb.heap) ino sb.inodes ref sane.filed e in
    let bound = get_elem?-bound (numbers sb.heap) ref here in
    Kept-pure (super_self sane) (omega (arith, length-numbers sb.heap))
load-Kept ino none e sane =
    Kept-bind (read_inode_from_disk-Kept ino sane)
      (λ inode t st from. Kept-weaken (Kept-new_object inode from st.sane) (λ ref u su new. new.1))

object_of-Kept : {sb : SuperBlock} (ino : ℕ) → IsSane sb → Kept sb (object_of ino sb) AtObject
unfolding object_of
object_of-Kept {sb} ino sane = load-Kept ino (dict_get ino sb.inodes) refl sane

step_to-Kept :
    {sb : SuperBlock} (found : Option ℕ) (p : ℕ) (rest : List Text)
    (go : ℕ → Exec SuperBlock (ℤ × ℕ))
    → ((ref : ℕ) (t : SuperBlock) → IsSane t → HasObject t ref → Kept t (go ref t) EndsAtObject)
    → HasObject sb p
    → IsSane sb
    → Kept sb (step_to found p rest go sb) EndsAtObject
unfolding step_to
step_to-Kept none p rest go more has sane = Kept-pure (super_self sane) has
step_to-Kept (some ino) p rest go more has sane =
    Kept-bind (object_of-Kept ino sane) (λ next t st here. more next t st.sane here)

walk-Kept :
    {sb : SuperBlock} (components : List Text) (p : ℕ)
    → HasObject sb p
    → IsSane sb
    → Kept sb (walk components p sb) EndsAtObject
unfolding walk
walk-Kept [] p has sane = Kept-pure (super_self sane) has
walk-Kept {sb} (component ∷ rest) p has sane =
    Kept-bind (find_in_blocks-Kept (inode_at sb p).blocks component sane) (λ found t st _.
      step_to-Kept found p rest (walk rest) (λ ref u s h. walk-Kept rest ref h s)
        (HasObject-Step p st has) st.sane)

lookup_below-Kept :
    {sb : SuperBlock} (path : Text)
    → HasObject sb sb.root
    → IsSane sb
    → Kept sb (lookup_below path sb) EndsAtObject
unfolding lookup_below
lookup_below-Kept [] has sane = Kept-pure (super_self sane) has
lookup_below-Kept {sb} (c ∷ cs) has sane = elim (Bool-cases (all_valid (split (c ∷ cs)))) [
  | inl e ↦ rw e (walk-Kept (split (c ∷ cs)) sb.root has sane)
  | inr e ↦ rw e (Kept-pure (super_self sane) has)
]

-- The root is an object once there is one.
pub lookup-Kept :
    {sb : SuperBlock} (pathname : Text)
    → HasObject sb sb.root
    → IsSane sb
    → Kept sb (lookup pathname sb) EndsAtObject
unfolding lookup
lookup-Kept [] has sane = Kept-pure (super_self sane) has
lookup-Kept {sb} (c ∷ cs) has sane = elim (Bool-cases (c == slash)) [
  | inl e ↦ rw e (lookup_below-Kept cs has sane)
  | inr e ↦ rw e (Kept-pure (super_self sane) has)
]
