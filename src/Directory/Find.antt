-- ===== src/Directory/Find.antt =====
-- The search of a name in the blocks of a directory, in `Inode.lookup` of linux/fs/inode.py.
use slowfs.Prelude.{
  ◌==◌, if◌then◌else◌, Bool-cases, Option-cases, length-drop, length, get_elem?, take, drop, ℤ, ℕ,
  zero, suc, ◌+◌, ◌-◌, ◌*◌, ◌%◌, ◌<◌, ◌≡◌, refl, sym, ◌⊎◌, inl, inr, false, Option, none, some,
  List, [], ◌∷◌, arith,
}
use slowfs.Exec.{ok}
use slowfs.Bytes.{RawFile, read_at}
use slowfs.Block.Sizes.{block_size}
use slowfs.Block.Device.{bytes_eq, Disk}
use slowfs.Block.Driver.{Block}
use slowfs.Block.Driver.Reads.{IsOn, get_slice_inside}
use slowfs.Block.Lists.{Blocks, AllOn}
use slowfs.Bitmap.{free}
use slowfs.Bitmap.Bits.{has}
use slowfs.Inode.Layout.{dir_layout_size}
use slowfs.Super.State.{SuperBlock}
use slowfs.Directory.Entry.{Text, unpack_entry, read_entry}
use slowfs.Directory.Lookup.{find_in_block, entries_per_block, find_in_blocks, missing}
use slowfs.OpenFile.View.{view, read_at-view}

-- From number `k` on, the directory holds these entries, none of them with the inode number 0.
abbrev pub HasEntries : RawFile → ℕ → List (ℕ × Text) → Type 0
HasEntries f k [] = Unit
HasEntries f k (e ∷ es) =
    (unpack_entry (read_at f (k * dir_layout_size) dir_layout_size) ≡ ok e)
    × ((e.0 == 0) ≡ false)
    × HasEntries f (k + 1) es

-- The entry of number `k` is free.
abbrev pub IsFreeEntry : RawFile → ℕ → Type 0
IsFreeEntry f k =
    (text : Text) × (unpack_entry (read_at f (k * dir_layout_size) dir_layout_size) ≡ ok (0, text))

-- The first entry of a name.
abbrev pub find_entry : Text → List (ℕ × Text) → Option ℕ
find_entry name [] = none
find_entry name (e ∷ es) = if bytes_eq e.1 name then some e.0 else find_entry name es

pub read_entry-view :
    (disk : Disk) (blocks : Blocks) (b k : ℕ) (entry : ℤ × Block)
    → get_elem? blocks b ≡ some entry
    → IsOn disk entry.1
    → k < entries_per_block
    → read_entry entry.1 (k * dir_layout_size) disk ≡ (
      unpack_entry (
          read_at
            (view disk blocks)
            ((b * entries_per_block + k) * dir_layout_size)
            dir_layout_size),
      disk,
    )
unfolding read_entry
read_entry-view disk blocks b k entry there on small =
    let off : ℕ = (b * entries_per_block + k) * dir_layout_size in
    let at : off % block_size ≡ k * dir_layout_size = omega arith in
    let bytes =
      get_slice_inside entry.1 (k * dir_layout_size) (k * dir_layout_size + dir_layout_size) disk on
        (omega arith) (omega arith) (omega arith) in
    let count : k * dir_layout_size + dir_layout_size - k * dir_layout_size ≡ dir_layout_size =
      omega arith in
    let seen =
      rw at at
        (read_at-view disk blocks b entry off dir_layout_size there (omega arith) (omega arith)) in
    rw (bytes, count, seen)

-- The loop over one block: the entries that are left, as far as the block reaches.
find_in_block_lem :
    (sb : SuperBlock) (blocks : Blocks) (name : Text) (b : ℕ) (entry : ℤ × Block)
    → get_elem? blocks b ≡ some entry
    → IsOn sb.disk entry.1
    → (rounds k : ℕ) (es : List (ℕ × Text)) → k + rounds ≡ entries_per_block
    → HasEntries (view sb.disk blocks) (b * entries_per_block + k) es
    → (length es < rounds
        → IsFreeEntry (view sb.disk blocks) (b * entries_per_block + k + length es))
    → find_in_block entry.1 name rounds (k * dir_layout_size) sb
      ≡ (ok (find_entry name (take rounds es)), sb)
unfolding find_in_block
find_in_block_lem sb blocks name b entry there on zero k es e has end = refl
find_in_block_lem sb blocks name b entry there on (suc rounds) k [] e has end =
    let (text, free) = end (omega arith) in
    let read = read_entry-view sb.disk blocks b k entry there on (omega arith) in
    let here : b * entries_per_block + k + 0 ≡ b * entries_per_block + k = omega arith in
    let free' = rw here at free in rw (read, free')
find_in_block_lem sb blocks name b entry there on (suc rounds) k (x ∷ es) e (first, used, has) end =
    let read = read_entry-view sb.disk blocks b k entry there on (omega arith) in
    let next : k * dir_layout_size + dir_layout_size ≡ (k + 1) * dir_layout_size = omega arith in
    rw (read, first, used)
      (elim (Bool-cases (bytes_eq x.1 name)) [
        | inl same ↦ rw same
        | inr other ↦
            let from : b * entries_per_block + k + 1 ≡ b * entries_per_block + (k + 1) =
              omega arith in
            let upto : b * entries_per_block + k + suc (length es)
                ≡ b * entries_per_block + (k + 1) + length es =
              omega arith in
            rw (other, next)
              (find_in_block_lem sb blocks name b entry there on rounds (k + 1) es (omega arith)
                (rw from at has) (λ lt. rw upto at (end (omega arith))))
      ])

-- The blocks hold the entries and no block is unused: all are full, or the last one has a free entry
-- behind the entries.
abbrev pub IsEnd : RawFile → ℕ → ℕ → ℕ → Type 0
IsEnd f k count blocks =
    (blocks * entries_per_block ≡ count)
    ⊎ ((count < blocks * entries_per_block)
        × (blocks * entries_per_block < count + entries_per_block)
        × IsFreeEntry f (k + count))

pub HasEntries-drop :
    (f : RawFile) (n k : ℕ) (es : List (ℕ × Text))
    → HasEntries f k es
    → HasEntries f (k + n) (drop n es)
HasEntries-drop f zero k es has = let same : k + 0 ≡ k = omega arith in rw same has
HasEntries-drop f (suc n) k [] has = tt
HasEntries-drop f (suc n) k (e ∷ es) (first, used, has) =
    let next : k + suc n ≡ k + 1 + n = omega arith in rw next (HasEntries-drop f n (k + 1) es has)

-- The search goes on behind the first entries if it did not find the name there.
find_entry-some :
    (name : Text) (n : ℕ) (es : List (ℕ × Text)) {ino : ℕ}
    → find_entry name (take n es) ≡ some ino
    → find_entry name es ≡ some ino
find_entry-some name zero es h = cc
find_entry-some name (suc n) [] h = h
find_entry-some name (suc n) (e ∷ es) {ino} h = elim (Bool-cases (bytes_eq e.1 name)) [
  | inl same ↦ let h' : some e.0 ≡ some ino = rw same at h in rw same h'
  | inr other ↦
      let h' : find_entry name (take n es) ≡ some ino = rw other at h in
      rw other (find_entry-some name n es h')
]

find_entry-none :
    (name : Text) (n : ℕ) (es : List (ℕ × Text))
    → find_entry name (take n es) ≡ none
    → find_entry name es ≡ find_entry name (drop n es)
find_entry-none name zero es h = refl
find_entry-none name (suc n) [] h = refl
find_entry-none name (suc n) (e ∷ es) h = ground (arith, find_entry-none name n es)

pub IsEnd-first :
    (f : RawFile) (k blocks : ℕ) (es : List (ℕ × Text))
    → IsEnd f k (length es) (suc blocks)
    → length es < entries_per_block
    → IsFreeEntry f (k + length es)
IsEnd-first f k blocks es (inl full) lt = absurd (omega arith)
IsEnd-first f k blocks es (inr (lo, hi, free)) lt = free

pub IsEnd-next :
    (f : RawFile) (k blocks : ℕ) (es : List (ℕ × Text))
    → IsEnd f k (length es) (suc blocks)
    → IsEnd f (k + entries_per_block) (length (drop entries_per_block es)) blocks
IsEnd-next f k blocks es (inl full) = inl (omega (arith, length-drop entries_per_block es))
IsEnd-next f k zero es (inr (lo, hi, free)) = inl (omega (arith, length-drop entries_per_block es))
IsEnd-next f k (suc blocks) es (inr (lo, hi, free)) =
    let left = length-drop entries_per_block es in
    let place : k + length es ≡ k + entries_per_block + length (drop entries_per_block es) =
      omega arith in
    inr (omega arith, omega arith, rw place at free)

pub find_in_blocks-suffix :
    (sb : SuperBlock) (blocks : Blocks) (name : Text) (b : ℕ) (rest : Blocks) (es : List (ℕ × Text))
    → ((i : ℕ) → get_elem? rest i ≡ get_elem? blocks (b + i))
    → AllOn sb.disk rest
    → HasEntries (view sb.disk blocks) (b * entries_per_block) es
    → IsEnd (view sb.disk blocks) (b * entries_per_block) (length es) (length rest)
    → find_in_blocks rest name sb ≡ (ok (find_entry name es), sb)
unfolding find_in_blocks
find_in_blocks-suffix sb blocks name b [] [] at on has end = refl
find_in_blocks-suffix sb blocks name b [] (e ∷ es) at on has (inl full) = absurd (omega arith)
find_in_blocks-suffix sb blocks name b [] (e ∷ es) at on has (inr (lo, hi, free)) =
    absurd (omega arith)
find_in_blocks-suffix sb blocks name b (entry ∷ rest) es at on has end =
    let f = view sb.disk blocks in
    let start : b * entries_per_block + 0 ≡ b * entries_per_block = omega arith in
    let here : b + 0 ≡ b = omega arith in
    let there : get_elem? blocks b ≡ some entry = rw here at (sym (at 0)) in
    let first =
      find_in_block_lem sb blocks name b entry there on.0 entries_per_block 0 es (omega arith)
        (rw start has)
        (λ lt. rw start (IsEnd-first f (b * entries_per_block) (length rest) es end lt)) in
    let next : b * entries_per_block + entries_per_block ≡ (b + 1) * entries_per_block =
      omega arith in
    let more =
      find_in_blocks-suffix sb blocks name (b + 1) rest (drop entries_per_block es) shifted on.1
        (rw next at (HasEntries-drop f entries_per_block (b * entries_per_block) es has))
        (rw next at (IsEnd-next f (b * entries_per_block) (length rest) es end)) in
    elim (Option-cases (find_entry name (take entries_per_block es))) [
      | inl missing ↦
          rw (first, missing, more) (rw (find_entry-none name entries_per_block es missing))
      | inr (ino, found) ↦ rw (first, found) (rw (find_entry-some name entries_per_block es found))
    ]
  where
    shifted : (i : ℕ) → get_elem? rest i ≡ get_elem? blocks (b + 1 + i)
    shifted i = let same : b + suc i ≡ b + 1 + i = omega arith in rw same at (at (suc i))
