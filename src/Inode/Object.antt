-- ===== src/Inode/Object.antt =====
-- `Inode` of linux/fs/inode.py as an object, and its serialization. The superblock that an inode
-- points to is the state that its other methods run on. The user and group ids are constants that
-- nothing reads, and are left out.
use slowfs.Prelude.{
  leb, ◌==◌, if◌then◌else◌, length, replicate, ℤ, pos, negsuc, py_get, ℕ, ◌+◌, ◌-◌, Bool, false,
  Option, none, some, List, [], ◌∷◌, ◌++◌, map,
}
use slowfs.Exec.{index_error, assertion_error, struct_error, Result, ok, raised}
use slowfs.Bytes.{Bytes}
use slowfs.Block.Device.{bytes_eq}
use slowfs.Block.Driver.{Block}
use slowfs.Struct.{signed_of, pack_join, pack_u32s, pack_i32s, unpack_words}
use slowfs.Inode.Layout.{max_dblocks, free_dblock_id}

pub record Inode : Type 0 where
  pub i_ino : ℕ
  pub i_mode : ℕ
  pub i_size : ℕ
  pub num_f_in_dir : ℕ
  pub p_ino : ℤ
  pub blocks : List (ℤ × Block)

-- Inode(sb, ino): the other arguments are left out where the program calls it so.
unfoldable pub new_inode : ℕ → Inode
new_inode ino = record {
  i_ino = ino;
  i_mode = 0;
  i_size = 0;
  num_f_in_dir = 0;
  p_ino = negsuc 0;
  blocks = [];
}

-- `id for id, _ in self.blocks`
unfoldable pub ids_of : List (ℤ × Block) → List ℤ
ids_of [] = []
ids_of ((id, _) ∷ rest) = id ∷ ids_of rest

-- struct.pack behind the assertions: a parent p of 0 or more, and at most 59 blocks.
unfoldable pub pack_inode : Inode → ℕ → Result Bytes
unfolding ids_of
pack_inode inode p =
    pack_join (pack_u32s (inode.i_ino ∷ inode.i_mode ∷ inode.i_size ∷ inode.num_f_in_dir ∷ p ∷ []))
      (pack_i32s
        (ids_of inode.blocks ++ replicate (max_dblocks - length inode.blocks) free_dblock_id))

-- bytes(inode)
unfoldable pub to_bytes : Inode → Result Bytes
unfolding pack_inode
to_bytes inode = elim inode.p_ino [
  | pos p ↦
      if leb (length inode.blocks) max_dblocks then pack_inode inode p else raised assertion_error
  | negsuc _ ↦ raised assertion_error
]

-- [(id, sb.dzone[id]) for id in block_ids if id != _FREE_DBLOCK_ID]
unfoldable pub is_free_id : ℤ → Bool
is_free_id (pos n) = false
is_free_id (negsuc n) = n == 0

unfoldable pub with_block : ℤ → Option Block → Result (List (ℤ × Block)) → Result (List (ℤ × Block))
with_block id none r = raised index_error
with_block id (some block) (ok rest) = ok ((id, block) ∷ rest)
with_block id (some block) (raised e) = raised e

unfoldable pub find_blocks : List Block → List ℤ → Result (List (ℤ × Block))
unfolding with_block is_free_id
find_blocks dzone [] = ok []
find_blocks dzone (id ∷ ids) =
    let rest = find_blocks dzone ids in
    if is_free_id id then rest else with_block id (py_get dzone id) rest

unfoldable pub inode_of : ℕ → ℕ → ℕ → ℕ → ℕ → Result (List (ℤ × Block)) → Result Inode
inode_of ino mode size num_f_in_dir p_ino (raised e) = raised e
inode_of ino mode size num_f_in_dir p_ino (ok found) = ok (record {
  i_ino = ino;
  i_mode = mode;
  i_size = size;
  num_f_in_dir = num_f_in_dir;
  p_ino = pos p_ino;
  blocks = found;
})

unfoldable pub from_words : List Block → List ℕ → Result Inode
unfolding inode_of
from_words dzone (ino ∷ mode ∷ size ∷ num_f_in_dir ∷ p_ino ∷ ids) =
    inode_of ino mode size num_f_in_dir p_ino (find_blocks dzone (map signed_of ids))
from_words dzone _ = raised struct_error

-- Inode.from_bytes(b, sb), where the superblock counts with its data zone.
unfoldable pub from_bytes : List Block → Bytes → Result Inode
unfolding from_words
from_bytes dzone bs = elim (unpack_words (5 + max_dblocks) bs) [
  | some words ↦ from_words dzone words
  | none ↦ raised struct_error
]

-- Inode.__eq__ between two inodes: by their bytes.
same_bytes : Result Bytes → Result Bytes → Result Bool
same_bytes (ok xs) (ok ys) = ok (bytes_eq xs ys)
same_bytes (ok xs) (raised e) = raised e
same_bytes (raised e) _ = raised e

unfoldable pub inode_eq : Inode → Inode → Result Bool
unfolding same_bytes
inode_eq a b = same_bytes (to_bytes a) (to_bytes b)
