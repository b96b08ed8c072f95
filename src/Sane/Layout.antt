-- ===== src/Sane/Layout.antt =====
-- Where the data zone lies on the disk (`SuperBlock.__init__` of linux/fs/super.py): behind the
-- superblock, the two bitmaps and the inode zone.
use slowfs.Prelude.{
  get_elem?, take, drop, ℕ, zero, suc, ◌+◌, ◌-◌, ◌*◌, ◌/◌, ◌≤◌, ◌<◌, ◌≡◌, refl, sym, ap, ◌∙◌, subst,
  some, some-injective, List, [], ◌∷◌, arith,
}
use slowfs.Block.Sizes.{bsize_in_sectors}
use slowfs.Block.Device.{Disk}
use slowfs.Block.Driver.{Block}
use slowfs.Block.Driver.Reads.{IsOn}
use slowfs.Block.Lists.{Blocks}
use slowfs.Super.State.{SuperBlock, inode_at}
use slowfs.Mount.{blocks_from, izone_size, blank}
use slowfs.Sane.Super.{AllFrom}
use slowfs.Sane.Mount.{IsOver}

blocks_from-get :
    (i n k : ℕ) {block : Block}
    → get_elem? (blocks_from i n) k ≡ some block
    → (block.sector_id ≡ (i + k) * bsize_in_sectors) × (k < n)
unfolding blocks_from
blocks_from-get i zero k e = cc
blocks_from-get i (suc n) zero {block} e =
    let same : i * bsize_in_sectors ≡ block.sector_id =
      ap (λ (b : Block). b.sector_id) (some-injective _ _ e) in
    (omega arith, omega arith)
blocks_from-get i (suc n) (suc k) e =
    let below = blocks_from-get (i + 1) n k e in
    let here = below.0 in let lt = below.1 in (omega arith, omega arith)

module _ {A : Type 0} where
  get_elem?-take :
      (n : ℕ) (xs : List A) (i : ℕ) {x : A}
      → get_elem? (take n xs) i ≡ some x
      → get_elem? xs i ≡ some x
  get_elem?-take zero xs i e = cc
  get_elem?-take (suc n) [] i e = cc
  get_elem?-take (suc n) (y ∷ xs) zero e = e
  get_elem?-take (suc n) (y ∷ xs) (suc i) e = get_elem?-take n xs i e

  pub get_elem?-drop :
      (n : ℕ) (xs : List A) (i : ℕ) → get_elem? (drop n xs) i ≡ get_elem? xs (n + i)
  get_elem?-drop zero xs i = ap (get_elem? xs) (omega arith)
  get_elem?-drop (suc n) [] i = refl
  get_elem?-drop (suc n) (x ∷ xs) i =
      let e : suc n + i ≡ suc (n + i) = omega arith in rw e (get_elem?-drop n xs i)

-- The first sector of the data zone.
abbrev pub data_start : Disk → ℕ
data_start disk = (3 + izone_size (disk.num_sectors / bsize_in_sectors)) * bsize_in_sectors

-- A block behind the inode zone, all of it on the disk.
abbrev pub IsData : Disk → Block → Type 0
IsData disk block = (data_start disk ≤ block.sector_id) × IsOn disk block

dzone-IsData :
    (disk : Disk) (k : ℕ) {block : Block}
    → get_elem? (blank disk).dzone k ≡ some block
    → IsData disk block
unfolding blank
dzone-IsData disk k e =
    let n : ℕ = disk.num_sectors / bsize_in_sectors in
    let lo : ℕ = 3 + izone_size n in
    let inside = get_elem?-take (3 + (n - 3) - lo) (drop lo (blocks_from 0 n)) k e in
    let whole =
      blocks_from-get 0 n (lo + k) (sym (get_elem?-drop lo (blocks_from 0 n) k) ∙ inside) in
    let at = whole.0 in let lt = whole.1 in (omega arith, omega arith)

-- All blocks of an inode.
abbrev pub AllData : Disk → Blocks → Type 0
AllData disk [] = Unit
AllData disk (entry ∷ blocks) = IsData disk entry.1 × AllData disk blocks

AllFrom-AllData :
    (disk : Disk) (blocks : Blocks) → AllFrom (blank disk).dzone blocks → AllData disk blocks
AllFrom-AllData disk [] h = tt
AllFrom-AllData disk (entry ∷ blocks) h =
    (dzone-IsData disk h.0.0 h.0.1, AllFrom-AllData disk blocks h.1)

pub IsOver-AllData :
    (disk : Disk) (sb : SuperBlock) (ref : ℕ)
    → IsOver disk sb
    → AllData disk (inode_at sb ref).blocks
IsOver-AllData disk sb ref over = AllFrom-AllData disk (inode_at sb ref).blocks (
    subst (λ (zone : List Block). AllFrom zone (inode_at sb ref).blocks) over.same_dzone
      (over.sane.in_zone ref))
