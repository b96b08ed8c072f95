-- ===== src/Directory/Invariant.antt =====
-- A directory as a list of entries: the search of a name and `add_dir_entry` of linux/fs/inode.py.
use slowfs.Prelude.{
  ◌==◌, le_or_lt, length-append, length, pos, ℕ, suc, ◌+◌, ◌*◌, ◌^◌, ◌≤◌, ◌<◌, ◌≡◌, sym, ap, ◌∙◌,
  subst, inl, inr, true, false, List, [], ◌∷◌, ◌++◌, arith,
}
use slowfs.Exec.{ok}
use slowfs.Bytes.{Bytes, RawFile, write_at}
use slowfs.Bytes.Writes.{read_at-write_at_disjoint, read_at-write_at}
use slowfs.Block.Device.{Disk}
use slowfs.Block.Lists.{Blocks, AllOn, AllOn-size}
use slowfs.Bitmap.{free}
use slowfs.Inode.Layout.{dir_layout_size, is_dir}
use slowfs.Super.State.{SuperBlock, inode_at}
use slowfs.Super.Held.{AreHeld-AllOn}
use slowfs.Directory.Entry.{Text, is_valid_path_component, unpack_entry}
use slowfs.Directory.Grow.{add_dir_entry}
use slowfs.Directory.Lookup.{entries_per_block, find_in_blocks}
use slowfs.OpenFile.View.{view}
use slowfs.OpenFile.Sound.{IsFile}
use slowfs.Directory.Links.{linked, add_dir_entry_lem}
use slowfs.Directory.Find.{HasEntries, IsFreeEntry, find_entry, IsEnd, find_in_blocks-suffix}

-- The bytes of a directory of some blocks hold these entries, the places behind them are free, and
-- no block is unused.
pub record IsDirectory (f : RawFile) (blocks : ℕ) (es : List (ℕ × Text)) : Type 0 where
  pub has : HasEntries f 0 es
  pub unused : (k : ℕ) → length es ≤ k → k < blocks * entries_per_block → IsFreeEntry f k
  pub fits : length es ≤ blocks * entries_per_block
  pub tight : blocks * entries_per_block < length es + entries_per_block

pub IsDirectory-IsEnd :
    (f : RawFile) (blocks : ℕ) (es : List (ℕ × Text))
    → IsDirectory f blocks es
    → IsEnd f 0 (length es) blocks
IsDirectory-IsEnd f blocks es dir = elim (le_or_lt (blocks * entries_per_block) (length es)) [
  | inl full ↦ let h = dir.fits in inl (omega arith)
  | inr room ↦
      let here : 0 + length es ≡ length es = omega arith in
      inr (room, dir.tight, rw here (dir.unused (length es) (omega arith) room))
]

-- The search of a name in a directory whose blocks are on the disk finds the number of the first
-- entry with the name, or none where no entry has it; it changes nothing.
pub find_in_blocks_lem :
    (sb : SuperBlock) (blocks : Blocks) (name : Text) (es : List (ℕ × Text))
    → AllOn sb.disk blocks
    → IsDirectory (view sb.disk blocks) (length blocks) es
    → find_in_blocks blocks name sb ≡ (ok (find_entry name es), sb)
find_in_blocks_lem sb blocks name es on dir =
    find_in_blocks-suffix sb blocks name 0 blocks es
      (λ i. let same : 0 + i ≡ i = omega arith in rw same) on dir.has
      (IsDirectory-IsEnd (view sb.disk blocks) (length blocks) es dir)

module _ (f : RawFile) (n : ℕ) (bs : Bytes) (len : length bs ≡ dir_layout_size) where
  -- The other entries stay as they are when an entry is written.
  HasEntries-write :
      (k : ℕ) (es : List (ℕ × Text))
      → k + length es ≤ n
      → HasEntries f k es
      → HasEntries (write_at f (n * dir_layout_size) bs) k es
  HasEntries-write k [] below has = tt
  HasEntries-write k (e ∷ es) below (first, used, has) =
      let same =
        read_at-write_at_disjoint f (n * dir_layout_size) bs (k * dir_layout_size) dir_layout_size
          (omega arith) in
      (rw same first, used, HasEntries-write (k + 1) es (omega arith) has)

  IsFreeEntry-write :
      (k : ℕ) → n < k → IsFreeEntry f k → IsFreeEntry (write_at f (n * dir_layout_size) bs) k
  IsFreeEntry-write k behind (text, free) =
      let same =
        read_at-write_at_disjoint f (n * dir_layout_size) bs (k * dir_layout_size) dir_layout_size
          (omega (arith, len)) in
      (text, rw same free)

HasEntries-append :
    (f : RawFile) (k : ℕ) (es : List (ℕ × Text)) (e : ℕ × Text)
    → HasEntries f k es
    → HasEntries f (k + length es) (e ∷ [])
    → HasEntries f k (es ++ e ∷ [])
HasEntries-append f k [] e has last = let same : k + 0 ≡ k = omega arith in rw same at last
HasEntries-append f k (x ∷ es) e (first, used, has) last =
    let next : k + suc (length es) ≡ k + 1 + length es = omega arith in
    (first, used, HasEntries-append f (k + 1) es e has (rw next at last))

-- An entry written behind the others.
IsDirectory-write :
    (f : RawFile) (blocks : ℕ) (es : List (ℕ × Text)) (bs : Bytes) (ino : ℕ) (name : Text)
    → IsDirectory f blocks es
    → length es < blocks * entries_per_block
    → length bs ≡ dir_layout_size
    → unpack_entry bs ≡ ok (ino, name)
    → (ino == 0) ≡ false
    → IsDirectory (write_at f (length es * dir_layout_size) bs) blocks (es ++ (ino, name) ∷ [])
IsDirectory-write f blocks es bs ino name dir room len back used =
    let sum = length-append es ((ino, name) ∷ []) in
    let tight = dir.tight in
    let here : 0 + length es ≡ length es = omega arith in
    let read = read_at-write_at f (length es * dir_layout_size) bs dir_layout_size (sym len) in
    record {
      has =
          HasEntries-append (write_at f (length es * dir_layout_size) bs) 0 es (ino, name)
            (HasEntries-write f (length es) bs len 0 es (omega arith) dir.has)
            (rw here (rw read back, used, tt));
      unused = λ k from upto.
          IsFreeEntry-write f (length es) bs len k (omega arith) (dir.unused k (omega arith) upto);
      fits = omega arith;
      tight = omega arith;
    }

-- On a sound directory whose blocks have room, add_dir_entry() of a valid name and an inode number of
-- 32 bits that is not 0 succeeds; the blocks then hold the entries that they held and the new one
-- behind them, and a search for any name finds the first of these entries that has it.
pub find_in_blocks-add_dir_entry :
    (sb : SuperBlock) (ref : ℕ) (fname name : Text) (ino : ℕ) (es : List (ℕ × Text))
    → let dir = inode_at sb ref in
      IsFile sb dir
      → is_dir dir.i_mode ≡ true
      → dir.num_f_in_dir ≡ length es
      → IsDirectory (view sb.disk dir.blocks) (length dir.blocks) es
      → length es < length dir.blocks * entries_per_block
      → is_valid_path_component fname ≡ true
      → ino < 2 ^ 32
      → (ino == 0) ≡ false
      → (disk : Disk) × (add_dir_entry ref fname ino sb ≡ (ok (pos 0), linked sb ref disk))
        × IsDirectory (view disk dir.blocks) (length dir.blocks) (es ++ (ino, fname) ∷ [])
        × (find_in_blocks dir.blocks name (linked sb ref disk)
            ≡ (ok (find_entry name (es ++ (ino, fname) ∷ [])), linked sb ref disk))
find_in_blocks-add_dir_entry sb ref fname name ino es file mode num dir room valid small used =
    let blocks = (inode_at sb ref).blocks in
    let (disk, bs, ran, back, len, content, same_size) =
      add_dir_entry_lem sb ref fname ino file mode valid small (omega arith) in
    let at : (inode_at sb ref).num_f_in_dir * dir_layout_size ≡ length es * dir_layout_size =
      ap (λ (n : ℕ). n * dir_layout_size) num in
    let now = content ∙ ap (λ (k : ℕ). write_at (view sb.disk blocks) k bs) at in
    let dir' =
      subst (λ (f : RawFile). IsDirectory f (length blocks) (es ++ (ino, fname) ∷ [])) (sym now)
        (IsDirectory-write (view sb.disk blocks) (length blocks) es bs ino fname dir room len back
          used) in
    let on =
      AllOn-size sb.disk disk blocks same_size
        (AreHeld-AllOn sb.disk sb.dzone sb.dmap blocks file.zone_on file.held) in
    (
      disk,
      ran,
      dir',
      find_in_blocks_lem (linked sb ref disk) blocks name (es ++ (ino, fname) ∷ []) on dir',
    )
