-- ===== src/Tests/Inode.antt =====
-- An inode with two data blocks, with which the theorems on inodes are applied.
use slowfs.Prelude.{length, pos, ◌≡◌, refl, List, [], ◌∷◌, arith}
use slowfs.Exec.{ok}
use slowfs.Bytes.{Bytes}
use slowfs.Block.Driver.{Block}
use slowfs.Inode.Layout.{inode_size}
use slowfs.Inode.Object.{Inode, to_bytes, from_bytes}
use slowfs.Inode.RoundTrip.{Fits, from_bytes-to_bytes}

abbrev two_zones : List Block
two_zones = record { sector_id = 32 } ∷ record { sector_id = 40 } ∷ []

abbrev file_inode : Inode
file_inode = record {
  i_ino = 3;
  i_mode = 33188;
  i_size = 5000;
  num_f_in_dir = 0;
  p_ino = pos 1;
  blocks = (pos 1, record { sector_id = 40 }) ∷ (pos 0, record { sector_id = 32 }) ∷ [];
}

file_inode-Fits : Fits two_zones file_inode
file_inode-Fits = record {
  ino = omega arith;
  mode = omega arith;
  size = omega arith;
  num = omega arith;
  parent = 1;
  parent_lem = refl;
  parent_lt = omega arith;
  count = omega arith;
  found = ((1, refl, omega arith, refl), ((0, refl, omega arith, refl), tt));
}

from_bytes-to_bytes_example :
    (bs : Bytes) × (to_bytes file_inode ≡ ok bs)
    × (length bs ≡ inode_size)
    × (from_bytes two_zones bs ≡ ok file_inode)
from_bytes-to_bytes_example = from_bytes-to_bytes two_zones file_inode file_inode-Fits
