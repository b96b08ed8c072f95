-- ===== src/Sane/Objects.antt =====
-- The objects of a superblock (linux/fs/super.py): changing one, making one, and filing it.
use slowfs.Prelude.{
  ◌==◌, ==_iff, Bool-cases, length-append, length-set, length, get_elem?, set, get_or, ℕ, zero, suc,
  ◌<◌, ◌≡◌, refl, sym, ap, ◌∙◌, subst, inl, inr, some, some-injective, List, [], ◌∷◌, ◌++◌,
  append-nil, arith,
}
use slowfs.Exec.{Result, ok-injective}
use slowfs.Exec.Kept.{Step, Kept, Kept-step}
use slowfs.Inode.Object.{Inode, new_inode}
use slowfs.Super.State.{SuperBlock, inode_at, new_object, dict_set, cache}
use slowfs.Mount.{set_root}
use slowfs.Sane.Disk.{disk_steps}
use slowfs.Sane.Super.{
  numbers, AllFiled, AllFrom, IsRef, IsSane, super_steps, length-numbers, HasObject, HasObject-Step,
}

numbers-set :
    (heap : List Inode) (ref : ℕ) (inode d : Inode)
    → inode.i_ino ≡ (get_or heap ref d).i_ino
    → numbers (set heap ref inode) ≡ numbers heap
unfolding numbers
numbers-set [] ref inode d e = refl
numbers-set (x ∷ heap) zero inode d e = ap (λ (n : ℕ). n ∷ numbers heap) e
numbers-set (x ∷ heap) (suc ref) inode d e =
    ap (λ (ns : List ℕ). x.i_ino ∷ ns) (numbers-set heap ref inode d e)

numbers-append :
    (heap : List Inode) (inode : Inode)
    → numbers (heap ++ inode ∷ []) ≡ numbers heap ++ inode.i_ino ∷ []
unfolding numbers
numbers-append [] inode = refl
numbers-append (x ∷ heap) inode = ap (λ (ns : List ℕ). x.i_ino ∷ ns) (numbers-append heap inode)

-- What holds of all objects, and of the default, after a change or a new object.
module _ (P : Inode → Type 0) (d x : Inode) (holds : P x) where
  all-set :
      (heap : List Inode) (ref : ℕ)
      → ((r : ℕ) → P (get_or heap r d))
      → (r : ℕ) → P (get_or (set heap ref x) r d)
  all-set [] ref all r = all r
  all-set (y ∷ heap) zero all zero = holds
  all-set (y ∷ heap) zero all (suc r) = all (suc r)
  all-set (y ∷ heap) (suc ref) all zero = all zero
  all-set (y ∷ heap) (suc ref) all (suc r) = all-set heap ref (λ i. all (suc i)) r

  all-append :
      (heap : List Inode)
      → P d
      → ((r : ℕ) → P (get_or heap r d))
      → (r : ℕ) → P (get_or (heap ++ x ∷ []) r d)
  all-append [] default all zero = holds
  all-append [] default all (suc r) = default
  all-append (y ∷ heap) default all zero = all zero
  all-append (y ∷ heap) default all (suc r) = all-append heap default (λ i. all (suc i)) r

get_elem?-append :
    {A : Type 0} (xs ys : List A) (i : ℕ) {x : A}
    → get_elem? xs i ≡ some x
    → get_elem? (xs ++ ys) i ≡ some x
get_elem?-append [] ys i e = cc
get_elem?-append (y ∷ xs) ys zero e = e
get_elem?-append (y ∷ xs) ys (suc i) e = get_elem?-append xs ys i e

get_elem?-end : (ns : List ℕ) (n : ℕ) → get_elem? (ns ++ n ∷ []) (length ns) ≡ some n
get_elem?-end [] n = refl
get_elem?-end (m ∷ ns) n = get_elem?-end ns n

AllFiled-append : (ns more : List ℕ) (d : List (ℕ × ℕ)) → AllFiled ns d → AllFiled (ns ++ more) d
AllFiled-append ns more [] h = tt
AllFiled-append ns more ((k, ref) ∷ d) h =
    (get_elem?-append ns more ref h.0, AllFiled-append ns more d h.1)

AllFiled-set :
    (ns : List ℕ) (k ref : ℕ) (d : List (ℕ × ℕ))
    → get_elem? ns ref ≡ some k
    → AllFiled ns d
    → AllFiled ns (dict_set k ref d)
unfolding dict_set
AllFiled-set ns k ref [] e h = (e, tt)
AllFiled-set ns k ref ((j, w) ∷ d) e h = elim (Bool-cases (j == k)) [
  | inl same ↦ let key : k ≡ j = sym ((==_iff j k).0 same) in rw same (e ∙ ap some key, h.1)
  | inr other ↦ rw other (h.0, AllFiled-set ns k ref d e h.1)
]

-- The superblock with another object at a reference.
abbrev pub with_object : SuperBlock → ℕ → Inode → SuperBlock
with_object sb ref inode = record sb { heap = set sb.heap ref inode }

-- Only the number and the blocks of the changed object count.
pub Step-put :
    {sb : SuperBlock} (ref : ℕ) (inode : Inode)
    → inode.i_ino ≡ (inode_at sb ref).i_ino
    → AllFrom sb.dzone inode.blocks
    → IsSane sb
    → Step sb (with_object sb ref inode)
Step-put {sb} ref inode same from sane =
    let kept = numbers-set sb.heap ref inode (new_inode 0) same in
    record {
      same_size = refl;
      same_blocks = refl;
      same_izone = refl;
      same_dzone = refl;
      more = [];
      grows = kept ∙ sym (append-nil (numbers sb.heap));
      sane = record {
        filed = subst (λ (ns : List ℕ). AllFiled ns sb.inodes) (sym kept) sane.filed;
        root_ref = let h = sane.root_ref in omega (arith, length-set sb.heap ref inode);
        in_zone =
            all-set (λ (x : Inode). AllFrom sb.dzone x.blocks) (new_inode 0) inode from sb.heap ref
              sane.in_zone;
      };
    }

-- The rest of a run, after a change of an object.
pub Kept-put :
    {A : Type 0} {sb : SuperBlock} {Q : A → SuperBlock → Type 0} {run : Result A × SuperBlock}
    (ref : ℕ) (inode : Inode)
    → inode.i_ino ≡ (inode_at sb ref).i_ino
    → AllFrom sb.dzone inode.blocks
    → IsSane sb
    → (IsSane (with_object sb ref inode) → Kept (with_object sb ref inode) run Q)
    → Kept sb run Q
Kept-put ref inode same from sane next =
    let st = Step-put ref inode same from sane in Kept-step st (next st.sane)

pub Kept-new_object :
    {sb : SuperBlock} (inode : Inode)
    → AllFrom sb.dzone inode.blocks
    → IsSane sb
    → Kept sb
        (new_object inode sb)
        (λ ref t. (get_elem? (numbers t.heap) ref ≡ some inode.i_ino) × HasObject t ref)
unfolding new_inode
Kept-new_object {sb} inode from sane =
    let heap : List Inode = sb.heap ++ inode ∷ [] in
    let kept = numbers-append sb.heap inode in
    let len = length-append sb.heap (inode ∷ []) in
    let here : get_elem? (numbers heap) (length sb.heap) ≡ some inode.i_ino =
      ap (λ (ns : List ℕ). get_elem? ns (length sb.heap)) kept
      ∙ ap (get_elem? (numbers sb.heap ++ inode.i_ino ∷ [])) (sym (length-numbers sb.heap))
      ∙ get_elem?-end (numbers sb.heap) inode.i_ino in
    record {
      step = record {
        same_size = refl;
        same_blocks = refl;
        same_izone = refl;
        same_dzone = refl;
        more = inode.i_ino ∷ [];
        grows = kept;
        sane = record {
          filed =
              subst (λ (ns : List ℕ). AllFiled ns sb.inodes) (sym kept)
                (AllFiled-append (numbers sb.heap) (inode.i_ino ∷ []) sb.inodes sane.filed);
          root_ref = let h = sane.root_ref in omega (arith, len);
          in_zone =
              all-append (λ (x : Inode). AllFrom sb.dzone x.blocks) (new_inode 0) inode from sb.heap
                tt sane.in_zone;
        };
      };
      returned = λ ref e.
          let same : length sb.heap ≡ ref = ok-injective e in
          (
            subst (λ (r : ℕ). get_elem? (numbers heap) r ≡ some inode.i_ino) same here,
            omega (arith, len),
          );
    }

pub Kept-cache :
    {sb : SuperBlock} (ino ref : ℕ)
    → get_elem? (numbers sb.heap) ref ≡ some ino
    → IsSane sb
    → Kept sb (cache ino ref sb) (λ _ _. Unit)
Kept-cache {sb} ino ref here sane = record {
  step = record {
    same_size = refl;
    same_blocks = refl;
    same_izone = refl;
    same_dzone = refl;
    more = [];
    grows = sym (append-nil (numbers sb.heap));
    sane = record {
      filed = AllFiled-set (numbers sb.heap) ino ref sb.inodes here sane.filed;
      root_ref = sane.root_ref;
      in_zone = sane.in_zone;
    };
  };
  returned = λ a e. tt;
}

-- The superblock with a new object that is filed under its number.
abbrev pub with_new : SuperBlock → Inode → SuperBlock
with_new sb inode = record sb {
  heap = sb.heap ++ inode ∷ [];
  inodes = dict_set inode.i_ino (length sb.heap) sb.inodes;
}

pub Step-new :
    {sb : SuperBlock} (inode : Inode)
    → AllFrom sb.dzone inode.blocks
    → IsSane sb
    → Step sb (with_new sb inode)
Step-new {sb} inode from sane =
    let new = Kept-new_object inode from sane in
    let here = new.returned (length sb.heap) refl in
    super_steps.step_trans new.step
      (Kept-cache inode.i_ino (length sb.heap) here.0 new.step.sane).step

pub HasObject-new :
    (sb : SuperBlock) (inode : Inode) → HasObject (with_new sb inode) (length sb.heap)
HasObject-new sb inode = omega (arith, length-append sb.heap (inode ∷ []))

pub Kept-set_root :
    {sb : SuperBlock} (ref : ℕ) → IsRef sb ref → IsSane sb → Kept sb (set_root ref sb) (λ _ _. Unit)
Kept-set_root {sb} ref here sane = record {
  step = record {
    same_size = refl;
    same_blocks = refl;
    same_izone = refl;
    same_dzone = refl;
    more = [];
    grows = sym (append-nil (numbers sb.heap));
    sane = record { filed = sane.filed; root_ref = here; in_zone = sane.in_zone };
  };
  returned = λ a e. tt;
}

-- The object of a reference that is filed under a number.
pub get_elem?-Step :
    {s t : SuperBlock} (ref : ℕ) {k : ℕ}
    → Step s t
    → get_elem? (numbers s.heap) ref ≡ some k
    → get_elem? (numbers t.heap) ref ≡ some k
get_elem?-Step {s} {t} ref {k} st e =
    subst (λ (ns : List ℕ). get_elem? ns ref ≡ some k) (sym st.grows)
      (get_elem?-append (numbers s.heap) st.more ref e)

pub number_at :
    (heap : List Inode) (ref : ℕ) (d : Inode)
    → ref < length heap
    → get_elem? (numbers heap) ref ≡ some (get_or heap ref d).i_ino
unfolding numbers
number_at [] ref d h = absurd (omega arith)
number_at (x ∷ heap) zero d h = refl
number_at (x ∷ heap) (suc ref) d h = number_at heap ref d (omega arith)

-- An object keeps its number.
pub number_stays :
    {s t : SuperBlock} (ref : ℕ)
    → Step s t
    → HasObject s ref
    → (inode_at s ref).i_ino ≡ (inode_at t ref).i_ino
number_stays {s} {t} ref st h =
    let before = get_elem?-Step ref st (number_at s.heap ref (new_inode 0) h) in
    let after = number_at t.heap ref (new_inode 0) (HasObject-Step ref st h) in
    some-injective _ _ (sym before ∙ after)
