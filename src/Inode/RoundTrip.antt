-- ===== src/Inode/RoundTrip.antt =====
-- The bytes of an inode (linux/fs/inode.py), written and read.
use slowfs.Prelude.{
  lt→ltb, le→leb, length-append, length-replicate, length, get_elem?, replicate, ℤ, pos, ℕ, zero,
  suc, ◌+◌, ◌-◌, ◌*◌, ◌^◌, ◌≤◌, ◌<◌, ◌≡◌, refl, ap, ◌∙◌, some, List, [], ◌∷◌, ◌++◌, map, arith,
}
use slowfs.Exec.{ok}
use slowfs.Bytes.{Bytes}
use slowfs.Block.Driver.{Block}
use slowfs.Struct.{be32, word_of, signed_of, pack_i32s, unpack_words}
use slowfs.Struct.Laws.{
  unpack_words-be32, signed_of-word_of, length-be32, pack_i32-some, five_words, unpack_five,
  pack_five, length-five_words,
}
use slowfs.Inode.Layout.{inode_size, max_dblocks, free_dblock_id}
use slowfs.Inode.Object.{Inode, ids_of, to_bytes, find_blocks, from_words, from_bytes}

-- The block of each id is the data block of that number, and the ids fit 31 bits.
abbrev pub HasBlocks : List Block → List (ℤ × Block) → Type 0
HasBlocks dzone [] = Unit
HasBlocks dzone ((id, block) ∷ rest) =
    ((n : ℕ) × (id ≡ pos n) × (n < 2 ^ 31) × (get_elem? dzone n ≡ some block))
    × HasBlocks dzone rest

pub record Fits (dzone : List Block) (inode : Inode) : Type 0 where
  pub ino : inode.i_ino < 2 ^ 32
  pub mode : inode.i_mode < 2 ^ 32
  pub size : inode.i_size < 2 ^ 32
  pub num : inode.num_f_in_dir < 2 ^ 32
  pub parent : ℕ
  pub parent_lem : inode.p_ino ≡ pos parent
  pub parent_lt : parent < 2 ^ 32
  pub count : length inode.blocks ≤ max_dblocks
  pub found : HasBlocks dzone inode.blocks

-- The ids that fit, packed and then unpacked.
abbrev Unpacks : List ℤ → Bytes → Type 0
Unpacks zs bs =
    (ws : List ℕ) × (unpack_words (length zs) bs ≡ some ws)
    × (map signed_of ws ≡ zs)
    × (length bs ≡ 4 * length zs)

abbrev AllFit : List ℤ → Type 0
AllFit [] = Unit
AllFit (z ∷ zs) = ((w : ℕ) × (word_of z ≡ some w)) × AllFit zs

pack_i32s_lem : (zs : List ℤ) → AllFit zs → (bs : Bytes) × (pack_i32s zs ≡ ok bs) × Unpacks zs bs
unfolding pack_i32s unpack_words
pack_i32s_lem [] h = ([], refl, ([], refl, refl, omega arith))
pack_i32s_lem (z ∷ zs) ((w, e), h) =
    let (bs, packed, (ws, un, same, len)) = pack_i32s_lem zs h in
    let back = signed_of-word_of z e in
    (
      be32 w ++ bs,
      rw (pack_i32-some z e, packed),
      (
        w ∷ ws,
        unpack_words-be32 w (length zs) bs back.0 un,
        rw (back.1, same),
        omega (arith, length-append (be32 w) bs, length-be32 w),
      ),
    )

AllFit-free : (n : ℕ) → AllFit (replicate n free_dblock_id)
unfolding replicate word_of
AllFit-free zero = tt
AllFit-free (suc n) = ((2 ^ 32 - 1, refl), AllFit-free n)

AllFit-append : (zs ys : List ℤ) → AllFit zs → AllFit ys → AllFit (zs ++ ys)
AllFit-append [] ys h k = k
AllFit-append (z ∷ zs) ys h k = (h.0, AllFit-append zs ys h.1 k)

AllFit-ids_of :
    (dzone : List Block) (blocks : List (ℤ × Block))
    → HasBlocks dzone blocks
    → AllFit (ids_of blocks)
unfolding ids_of word_of
AllFit-ids_of dzone [] h = tt
AllFit-ids_of dzone ((id, block) ∷ rest) ((n, e, lt, there), h) =
    ((n, rw (e, lt→ltb n (2 ^ 31) lt)), AllFit-ids_of dzone rest h)

length-ids_of : (blocks : List (ℤ × Block)) → length (ids_of blocks) ≡ length blocks
unfolding ids_of
length-ids_of [] = refl
length-ids_of ((id, block) ∷ rest) = ap suc (length-ids_of rest)

find_blocks-free :
    (dzone : List Block) (n : ℕ) → find_blocks dzone (replicate n free_dblock_id) ≡ ok []
unfolding find_blocks replicate
find_blocks-free dzone zero = refl
find_blocks-free dzone (suc n) = find_blocks-free dzone n

find_blocks-ids_of :
    (dzone : List Block) (blocks : List (ℤ × Block)) (n : ℕ)
    → HasBlocks dzone blocks
    → find_blocks dzone (ids_of blocks ++ replicate n free_dblock_id) ≡ ok blocks
unfolding find_blocks ids_of
find_blocks-ids_of dzone [] n h = find_blocks-free dzone n
find_blocks-ids_of dzone ((id, block) ∷ rest) n ((k, e, lt, there), h) =
    rw (e, there, find_blocks-ids_of dzone rest n h)

from_bytes-some :
    (dzone : List Block) (bs : Bytes) {words : List ℕ}
    → unpack_words (5 + max_dblocks) bs ≡ some words
    → from_bytes dzone bs ≡ from_words dzone words
unfolding from_bytes
from_bytes-some dzone bs e = rw (e, from_bytes)

-- An inode that fits the layout, with the data blocks of its ids, has 256 bytes, and reading
-- these bytes gives the inode back.
pub from_bytes-to_bytes :
    (dzone : List Block) (inode : Inode)
    → Fits dzone inode
    → (bs : Bytes) × (to_bytes inode ≡ ok bs)
      × (length bs ≡ inode_size)
      × (from_bytes dzone bs ≡ ok inode)
unfolding to_bytes from_words
from_bytes-to_bytes dzone inode fits =
    let free = replicate (max_dblocks - length inode.blocks) free_dblock_id in
    let ids = ids_of inode.blocks ++ free in
    let count : length ids ≡ max_dblocks = omega (
      arith,
      length-append (ids_of inode.blocks) free,
      length-ids_of inode.blocks,
      length-replicate (max_dblocks - length inode.blocks) free_dblock_id,
      fits.count,
    ) in
    let fit =
      AllFit-append (ids_of inode.blocks) free (AllFit-ids_of dzone inode.blocks fits.found)
        (AllFit-free (max_dblocks - length inode.blocks)) in
    let (rest, packed, (ws, un, same, len)) = pack_i32s_lem ids fit in
    let un59 : unpack_words max_dblocks rest ≡ some ws = rw count at un in
    (
      five_words inode.i_ino inode.i_mode inode.i_size inode.num_f_in_dir fits.parent rest,
      rw (fits.parent_lem, le→leb _ _ fits.count)
          (pack_five inode.i_ino inode.i_mode inode.i_size inode.num_f_in_dir fits.parent rest
            (pack_i32s ids) fits.ino fits.mode fits.size fits.num fits.parent_lt packed),
      omega (
        arith,
        length-five_words inode.i_ino inode.i_mode inode.i_size inode.num_f_in_dir fits.parent rest,
        count,
        len,
      ),
      from_bytes-some dzone
            (five_words inode.i_ino inode.i_mode inode.i_size inode.num_f_in_dir fits.parent rest)
            (unpack_five inode.i_ino inode.i_mode inode.i_size inode.num_f_in_dir fits.parent rest
              max_dblocks ws fits.ino fits.mode fits.size fits.num fits.parent_lt un59)
          ∙ rw
              (
                same,
                find_blocks-ids_of dzone inode.blocks (max_dblocks - length inode.blocks)
                    fits.found,
              )
              (rw (← fits.parent_lem)),
    )
