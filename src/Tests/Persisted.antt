-- ===== src/Tests/Persisted.antt =====
-- The superblock that a format leaves, with which the theorem on a mount behind sync_fs() is applied.
use slowfs.Prelude.{
  replicate, pos, ℕ, zero, suc, ◌-◌, ◌/◌, ◌%◌, ◌≤◌, ◌<◌, ◌≡◌, refl, inl, inr, true, false, [], ◌∷◌,
  arith,
}
use slowfs.Bytes.{zeros, read_at, length-zeros}
use slowfs.Block.Sizes.{block_size}
use slowfs.Bitmap.{BitMap, test_bit}
use slowfs.Bitmap.Bits.{has, capacity}
use slowfs.Struct.{of_be32, signed_of, unpack_words}
use slowfs.Inode.Layout.{max_dblocks}
use slowfs.Inode.Object.{Inode, find_blocks, from_bytes}
use slowfs.Inode.RoundTrip.{Fits}
use slowfs.Super.State.{SuperBlock, dict_get}
use slowfs.Super.Blocks.{get_or-zeros}
use slowfs.Mount.{blank}
use slowfs.Sane.Remount.{IsStored}
use slowfs.Sane.Persisted.{IsKnown, IsRestorable, Restored, sync_fs-Restored}
use slowfs.Tests.Sane.{bare_disk}

abbrev root_of_disk : Inode
root_of_disk = record {
  i_ino = 1;
  i_mode = 16749;
  i_size = 4096;
  num_f_in_dir = 2;
  p_ino = pos 1;
  blocks = (pos 0, record { sector_id = 32 }) ∷ [];
}

abbrev bits_of : ℕ → BitMap
bits_of byte = record { size = block_size; content = byte ∷ zeros 4095 }

abbrev root_super : SuperBlock
root_super = record (blank bare_disk) {
  imap = bits_of 3;
  dmap = bits_of 1;
  heap = root_of_disk ∷ [];
  inodes = (1, 0) ∷ [];
  root = 0;
}

-- What the zeros of the reserved slot are read as.
abbrev reserved_inode : Inode
reserved_inode = record {
  i_ino = 0;
  i_mode = 0;
  i_size = 0;
  num_f_in_dir = 0;
  p_ino = pos 0;
  blocks = replicate max_dblocks (pos 0, record { sector_id = 32 });
}

reserved-IsStored : IsStored root_super.dzone bare_disk 0 reserved_inode
unfolding from_bytes find_blocks unpack_words of_be32 signed_of read_at replicate blank
reserved-IsStored = refl

test_bit-zero : (j : ℕ) → j < 8 → test_bit 0 j ≡ false
unfolding test_bit
test_bit-zero zero lt = refl
test_bit-zero (suc zero) lt = refl
test_bit-zero (suc (suc zero)) lt = refl
test_bit-zero (suc (suc (suc zero))) lt = refl
test_bit-zero (suc (suc (suc (suc zero)))) lt = refl
test_bit-zero (suc (suc (suc (suc (suc zero))))) lt = refl
test_bit-zero (suc (suc (suc (suc (suc (suc zero)))))) lt = refl
test_bit-zero (suc (suc (suc (suc (suc (suc (suc zero))))))) lt = refl
test_bit-zero (suc (suc (suc (suc (suc (suc (suc (suc j)))))))) lt = absurd (omega arith)

-- The byte behind the first is 0.
past_first : (ino : ℕ) → 8 ≤ ino → has root_super.imap ino ≡ false
past_first ino le =
    let (n, at) = quotient_suc ino le in
    rw (at, get_or-zeros 4095 n) (test_bit-zero (ino % 8) (omega arith))
  where
    quotient_suc : (i : ℕ) → 8 ≤ i → (n : ℕ) × (i / 8 ≡ suc n)
    quotient_suc i le = (i / 8 - 1, omega arith)

root-IsKnown :
    (ino : ℕ)
    → ino < capacity root_super.imap
    → has root_super.imap ino ≡ true
    → IsKnown root_super ino
unfolding test_bit dict_get blank
root-IsKnown zero lt e = inr (refl, omega arith, reserved_inode, reserved-IsStored, refl)
root-IsKnown (suc zero) lt e = inl (0, refl)
root-IsKnown (suc (suc zero)) lt e = cc
root-IsKnown (suc (suc (suc zero))) lt e = cc
root-IsKnown (suc (suc (suc (suc zero)))) lt e = cc
root-IsKnown (suc (suc (suc (suc (suc zero))))) lt e = cc
root-IsKnown (suc (suc (suc (suc (suc (suc zero)))))) lt e = cc
root-IsKnown (suc (suc (suc (suc (suc (suc (suc zero))))))) lt e = cc
root-IsKnown (suc (suc (suc (suc (suc (suc (suc (suc n)))))))) lt e =
    let past = past_first (suc (suc (suc (suc (suc (suc (suc (suc n)))))))) (omega arith) in cc

root_of_disk-Fits : Fits root_super.dzone root_of_disk
unfolding blank
root_of_disk-Fits = record {
  ino = omega arith;
  mode = omega arith;
  size = omega arith;
  num = omega arith;
  parent = 1;
  parent_lem = refl;
  parent_lt = omega arith;
  count = omega arith;
  found = ((0, refl, omega arith, refl), tt);
}

root_super-IsRestorable : IsRestorable root_super
unfolding blank dict_get
root_super-IsRestorable = record {
  syncable = record {
    layout = record {
      large = omega arith;
      same_blocks = refl;
      same_izone = refl;
      same_dzone = refl;
    };
    imap_len = omega (arith, length-zeros 4095);
    dmap_len = omega (arith, length-zeros 4095);
    storable = (refl, omega arith, root_of_disk-Fits, refl, tt);
  };
  known = root-IsKnown;
  rooted = refl;
}

sync_fs-Restored_example : Restored root_super
sync_fs-Restored_example = sync_fs-Restored root_super root_super-IsRestorable
