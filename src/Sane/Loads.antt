-- ===== src/Sane/Loads.antt =====
-- An inode that is read from the disk (linux/fs/inode.py and linux/fs/super.py) has blocks of the
-- data zone, whatever its bytes are.
use slowfs.Prelude.{
  ltb, Bool-cases, Option-cases, length, get_elem?, ℤ, pos, negsuc, py_get, ℕ, suc, ◌+◌, ◌-◌, ◌≡◌,
  refl, subst, inl, inr, Option, none, some, List, [], ◌∷◌, map,
}
use slowfs.Exec.{index_error, Result, ok, raised, ok-injective}
use slowfs.Exec.Kept.{Kept, Kept-or_raise, Kept-bind}
use slowfs.Bytes.{Bytes}
use slowfs.Block.Driver.{Block}
use slowfs.Block.Lists.{Blocks}
use slowfs.Struct.{signed_of, unpack_words}
use slowfs.Inode.Layout.{max_dblocks}
use slowfs.Inode.Object.{
  Inode, is_free_id, with_block, find_blocks, inode_of, from_words, from_bytes,
}
use slowfs.Super.State.{SuperBlock}
use slowfs.Super.Store.{read_inode_from_disk}
use slowfs.Sane.Disk.{disk_steps}
use slowfs.Sane.Super.{AllFrom, IsSane, super_steps, super_self}
use slowfs.Sane.Store.{on_disk-get_slice, zone_block, slot_slice}

-- An id of a block counts from the start of the zone, or, where it is negative, from its end.
py_get-AllFrom :
    (dzone : List Block) (id : ℤ) {block : Block}
    → py_get dzone id ≡ some block
    → (i : ℕ) × (get_elem? dzone i ≡ some block)
py_get-AllFrom dzone (pos i) e = (i, e)
py_get-AllFrom dzone (negsuc i) e = elim (Bool-cases (ltb i (length dzone))) [
  | inl inside ↦ (length dzone - suc i, rw inside at e)
  | inr outside ↦ let no : none ≡ some _ = rw outside at e in cc
]

-- What a result is, where there is one.
abbrev WhenOk : {A : Type 0} → (A → Type 0) → Result A → Type 0
WhenOk P (ok a) = P a
WhenOk P (raised e) = Unit

WhenOk-ok : {A : Type 0} (P : A → Type 0) (r : Result A) {a : A} → WhenOk P r → r ≡ ok a → P a
WhenOk-ok P (ok x) h e = subst P (ok-injective e) h
WhenOk-ok P (raised x) h e = cc

with_block-AllFrom :
    (dzone : List Block) (id : ℤ) (found : Option Block) (r : Result Blocks)
    → py_get dzone id ≡ found
    → WhenOk (AllFrom dzone) r
    → WhenOk (AllFrom dzone) (with_block id found r)
unfolding with_block
with_block-AllFrom dzone id none r e h = tt
with_block-AllFrom dzone id (some block) (ok rest) e h = (py_get-AllFrom dzone id e, h)
with_block-AllFrom dzone id (some block) (raised x) e h = tt

find_blocks-AllFrom :
    (dzone : List Block) (ids : List ℤ) → WhenOk (AllFrom dzone) (find_blocks dzone ids)
unfolding find_blocks
find_blocks-AllFrom dzone [] = tt
find_blocks-AllFrom dzone (id ∷ ids) = elim (Bool-cases (is_free_id id)) [
  | inl e ↦ rw e (find_blocks-AllFrom dzone ids)
  | inr e ↦ rw e (
      with_block-AllFrom dzone id (py_get dzone id) (find_blocks dzone ids) refl
        (find_blocks-AllFrom dzone ids))
]

inode_of-AllFrom :
    (dzone : List Block) (ino mode size files p : ℕ) (r : Result Blocks)
    → WhenOk (AllFrom dzone) r
    → WhenOk (λ (inode : Inode). AllFrom dzone inode.blocks) (inode_of ino mode size files p r)
unfolding inode_of
inode_of-AllFrom dzone ino mode size files p (ok found) h = h
inode_of-AllFrom dzone ino mode size files p (raised e) h = tt

from_words-AllFrom :
    (dzone : List Block) (ws : List ℕ)
    → WhenOk (λ (inode : Inode). AllFrom dzone inode.blocks) (from_words dzone ws)
unfolding from_words
from_words-AllFrom dzone [] = tt
from_words-AllFrom dzone (a ∷ []) = tt
from_words-AllFrom dzone (a ∷ b ∷ []) = tt
from_words-AllFrom dzone (a ∷ b ∷ c ∷ []) = tt
from_words-AllFrom dzone (a ∷ b ∷ c ∷ d ∷ []) = tt
from_words-AllFrom dzone (a ∷ b ∷ c ∷ d ∷ e ∷ ids) =
    inode_of-AllFrom dzone a b c d e (find_blocks dzone (map signed_of ids))
      (find_blocks-AllFrom dzone (map signed_of ids))

from_bytes-AllFrom :
    (dzone : List Block) (bs : Bytes)
    → WhenOk (λ (inode : Inode). AllFrom dzone inode.blocks) (from_bytes dzone bs)
unfolding from_bytes unpack_words
from_bytes-AllFrom dzone bs = elim (Option-cases (unpack_words (5 + max_dblocks) bs)) [
  | inl e ↦ rw e tt
  | inr (ws, e) ↦ rw e (from_words-AllFrom dzone ws)
]

pub from_bytes-Kept :
    {sb : SuperBlock} (bs : Bytes)
    → IsSane sb
    → Kept sb (from_bytes sb.dzone bs, sb) (λ inode t. AllFrom t.dzone inode.blocks)
from_bytes-Kept {sb} bs sane = record {
  step = super_self sane;
  returned = λ inode e.
      WhenOk-ok (λ (x : Inode). AllFrom sb.dzone x.blocks) (from_bytes sb.dzone bs)
        (from_bytes-AllFrom sb.dzone bs) e;
}

pub read_inode_from_disk-Kept :
    {sb : SuperBlock} (ino : ℕ)
    → IsSane sb
    → Kept sb (read_inode_from_disk ino sb) (λ inode t. AllFrom t.dzone inode.blocks)
unfolding read_inode_from_disk
read_inode_from_disk-Kept {sb} ino sane =
    Kept-bind (Kept-or_raise (zone_block sb ino) index_error (super_self sane)) (λ block t st _.
      Kept-bind (on_disk-get_slice block (slot_slice ino) st.sane)
        (λ bs u su _. from_bytes-Kept bs su.sane))
