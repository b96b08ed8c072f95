-- ===== src/Sane/Super.antt =====
-- The state of a superblock (linux/fs/super.py): what is well formed, and the steps that the program
-- makes.
use slowfs.Prelude.{
  length-append, length, get_elem?, ℕ, suc, ◌≤◌, ◌<◌, max, ◌≡◌, refl, sym, ap, ◌∙◌, some, List, [],
  ◌∷◌, ◌++◌, append_assoc, append-nil, arith,
}
use slowfs.Exec.{Exec}
use slowfs.Exec.Kept.{Steps, Step, Kept}
use slowfs.Block.Device.{Disk}
use slowfs.Block.Driver.{Block}
use slowfs.Block.Lists.{Blocks}
use slowfs.Bitmap.{BitMap}
use slowfs.Inode.Object.{Inode}
use slowfs.Super.State.{SuperBlock, on_disk, on_imap, on_dmap, inode_at}
use slowfs.Mount.{set_imap, set_dmap}
use slowfs.Sane.Disk.{disk_steps}

-- The inode numbers of the objects, in the order of their references.
unfoldable pub numbers : List Inode → List ℕ
numbers [] = []
numbers (inode ∷ heap) = inode.i_ino ∷ numbers heap

-- Each number of the dict `inodes` leads to an object that has that number.
abbrev pub AllFiled : List ℕ → List (ℕ × ℕ) → Type 0
AllFiled ns [] = Unit
AllFiled ns ((k, ref) ∷ d) = (get_elem? ns ref ≡ some k) × AllFiled ns d

-- The blocks of an inode are blocks of the data zone.
abbrev pub AllFrom : List Block → Blocks → Type 0
AllFrom dzone [] = Unit
AllFrom dzone (entry ∷ rest) = ((i : ℕ) × (get_elem? dzone i ≡ some entry.1)) × AllFrom dzone rest

-- A reference is to an object, or, as long as there is none, to the first that will be.
abbrev pub IsRef : SuperBlock → ℕ → Type 0
IsRef sb ref = ref < max 1 (length sb.heap)

pub record IsSane (sb : SuperBlock) : Type 0 where
  pub filed : AllFiled (numbers sb.heap) sb.inodes
  pub root_ref : IsRef sb sb.root
  pub in_zone : (ref : ℕ) → AllFrom sb.dzone (inode_at sb ref).blocks

-- The layout stays, each object keeps its number, and new objects go behind the others.
pub record SuperStep (s t : SuperBlock) : Type 0 where
  pub same_size : t.disk.num_sectors ≡ s.disk.num_sectors
  pub same_blocks : t.blocks ≡ s.blocks
  pub same_izone : t.izone ≡ s.izone
  pub same_dzone : t.dzone ≡ s.dzone
  pub more : List ℕ
  pub grows : numbers t.heap ≡ numbers s.heap ++ more
  pub sane : IsSane t

instance abbrev pub super_steps : Steps SuperBlock
super_steps = record {
  IsStep = SuperStep;
  step_trans = λ {s} {t} {u} st tu. record {
    same_size = tu.same_size ∙ st.same_size;
    same_blocks = tu.same_blocks ∙ st.same_blocks;
    same_izone = tu.same_izone ∙ st.same_izone;
    same_dzone = tu.same_dzone ∙ st.same_dzone;
    more = st.more ++ tu.more;
    grows =
        tu.grows
        ∙ ap (λ (ns : List ℕ). ns ++ tu.more) st.grows
        ∙ append_assoc (numbers s.heap) st.more tu.more;
    sane = tu.sane;
  };
}

pub super_self : {sb : SuperBlock} → IsSane sb → Step sb sb
super_self {sb} sane = record {
  same_size = refl;
  same_blocks = refl;
  same_izone = refl;
  same_dzone = refl;
  more = [];
  grows = sym (append-nil (numbers sb.heap));
  sane = sane;
}

pub length-numbers : (heap : List Inode) → length (numbers heap) ≡ length heap
unfolding numbers
length-numbers [] = refl
length-numbers (inode ∷ heap) = ap suc (length-numbers heap)

pub Step-length : {s t : SuperBlock} → Step s t → length s.heap ≤ length t.heap
Step-length {s} {t} st =
    let e = length-append (numbers s.heap) st.more in
    let f : length (numbers t.heap) ≡ length (numbers s.heap ++ st.more) = ap length st.grows in
    omega (arith, length-numbers s.heap, length-numbers t.heap)

-- A reference to an object that there is.
abbrev pub HasObject : SuperBlock → ℕ → Type 0
HasObject sb ref = ref < length sb.heap

pub HasObject-Step : {s t : SuperBlock} (ref : ℕ) → Step s t → HasObject s ref → HasObject t ref
HasObject-Step ref st h = let g = Step-length st in omega arith

-- An action on the disk of the superblock.
pub Kept-on_disk :
    {A : Type 0} {sb : SuperBlock} {Q : A → Disk → Type 0} (m : Exec Disk A)
    → IsSane sb
    → Kept sb.disk (m sb.disk) Q
    → Kept sb (on_disk m sb) (λ a t. Q a t.disk)
Kept-on_disk {sb} m sane km = record {
  step = record {
    same_size = km.step;
    same_blocks = refl;
    same_izone = refl;
    same_dzone = refl;
    more = [];
    grows = sym (append-nil (numbers sb.heap));
    sane = record { filed = sane.filed; root_ref = sane.root_ref; in_zone = sane.in_zone };
  };
  returned = km.returned;
}

-- A change of the maps only.
set_maps : SuperBlock → BitMap → BitMap → SuperBlock
set_maps sb imap dmap = record sb { imap = imap; dmap = dmap }

Step-maps : {sb : SuperBlock} (imap dmap : BitMap) → IsSane sb → Step sb (set_maps sb imap dmap)
unfolding set_maps
Step-maps {sb} imap dmap sane = record {
  same_size = refl;
  same_blocks = refl;
  same_izone = refl;
  same_dzone = refl;
  more = [];
  grows = sym (append-nil (numbers sb.heap));
  sane = record { filed = sane.filed; root_ref = sane.root_ref; in_zone = sane.in_zone };
}

pub Kept-on_imap :
    {A : Type 0} {sb : SuperBlock} (m : Exec BitMap A)
    → IsSane sb
    → Kept sb (on_imap m sb) (λ _ _. Unit)
unfolding set_maps
Kept-on_imap {sb} m sane = record {
  step = Step-maps (m sb.imap).1 sb.dmap sane;
  returned = λ a e. tt;
}

pub Kept-on_dmap :
    {A : Type 0} {sb : SuperBlock} (m : Exec BitMap A)
    → IsSane sb
    → Kept sb (on_dmap m sb) (λ _ _. Unit)
unfolding set_maps
Kept-on_dmap {sb} m sane = record {
  step = Step-maps sb.imap (m sb.dmap).1 sane;
  returned = λ a e. tt;
}

pub Kept-set_imap :
    {sb : SuperBlock} (bm : BitMap) → IsSane sb → Kept sb (set_imap bm sb) (λ _ _. Unit)
unfolding set_maps
Kept-set_imap {sb} bm sane = record { step = Step-maps bm sb.dmap sane; returned = λ a e. tt }

pub Kept-set_dmap :
    {sb : SuperBlock} (bm : BitMap) → IsSane sb → Kept sb (set_dmap bm sb) (λ _ _. Unit)
unfolding set_maps
Kept-set_dmap {sb} bm sane = record { step = Step-maps sb.imap bm sane; returned = λ a e. tt }
