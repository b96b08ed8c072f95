-- ===== src/Bitmap.antt =====
-- `BitMap` of linux/fs/super.py: a set of numbers as the bits of a bytearray. Bit j of byte b
-- stands for the number 8 * b + j.
pub mod Bits
pub mod Alloc
pub mod NextFree
pub mod Iterate
use slowfs.Prelude.{
  ◌==◌, if◌then◌else◌, get_elem?, set, ℤ, pos, negsuc, ℕ, zero, suc, ◌+◌, ◌-◌, ◌/◌, ◌%◌, ◌^◌,
  bit_and, bit_xor, ◌⊎◌, inl, inr, Bool, not, List, [], ◌∷◌, ◌++◌,
}
use slowfs.Exec.{
  value_error, index_error, ok, Exec, pure, raise, or_raise, ◌>>=◌, ◌>>◌, assert_that,
}
use slowfs.Bytes.{Bytes, zeros}
use slowfs.Block.Sizes.{block_size}
use slowfs.Block.Device.{Disk}
use slowfs.Block.Driver.{Block, get_slice, whole}

-- `size` is the number of bytes that the constructor was given.
pub record BitMap : Type 0 where
  pub size : ℕ
  pub content : Bytes

-- BitMap(size)
unfoldable pub new_bitmap : ℕ → BitMap
new_bitmap size = record { size = size; content = zeros size }

-- byte & (1 << j)
unfoldable pub test_bit : ℕ → ℕ → Bool
test_bit byte j = not (bit_and byte (2 ^ j) == 0)

-- The inner loop of next_free(), with `rounds` values of j left: an index to return, or the index
-- to go on with.
unfoldable pub scan_bits : ℕ → ℕ → ℕ → ℕ → ℕ ⊎ ℕ
scan_bits byte zero j i = inr i
scan_bits byte (suc rounds) j i =
    let rest = scan_bits byte rounds (j + 1) (i + 1) in if test_bit byte j then rest else inl i

unfoldable pub scan_bytes : Bytes → ℕ → ℤ
unfolding scan_bits
scan_bytes [] i = negsuc 0
scan_bytes (byte ∷ rest) i = elim (scan_bits byte 8 0 i) [
  | inl found ↦ pos found
  | inr i' ↦ scan_bytes rest i'
]

-- The first index that is not in use, or -1.
unfoldable pub next_free : BitMap → ℤ
unfolding scan_bytes
next_free bm = scan_bytes bm.content 0

-- BitMap.from_block(block)
unfoldable pub from_block : Block → Exec Disk BitMap
from_block block = do
  given ← get_slice block whole
  pure (record { size = block_size; content = given })

-- self.data[b] and self.data[b] = v for 0 ≤ b.
abbrev byte_at : ℕ → Exec BitMap ℕ
byte_at b bm = or_raise (get_elem? bm.content b) index_error bm

abbrev put_byte : ℕ → ℕ → Exec BitMap (Unit {0})
put_byte b v bm = (ok tt, record bm { content = set bm.content b v })

alloc_at : ℕ → Exec BitMap (Unit {0})
alloc_at i = do
  byte ← byte_at (i / 8)
  assert_that (not (test_bit byte (i % 8)))
  put_byte (i / 8) (bit_xor byte (2 ^ (i % 8)))

unfoldable pub alloc : ℤ → Exec BitMap (Unit {0})
unfolding alloc_at
alloc (pos i) = alloc_at i
alloc (negsuc i) = raise value_error

-- ((1 << 8) - 1) ^ (1 << res)
abbrev pub all_but : ℕ → ℕ
all_but res = bit_xor (2 ^ 8 - 1) (2 ^ res)

free_at : ℕ → Exec BitMap (Unit {0})
free_at i = do byte ← byte_at (i / 8); put_byte (i / 8) (bit_and byte (all_but (i % 8)))

unfoldable pub free : ℤ → Exec BitMap (Unit {0})
unfolding free_at
free (pos i) = free_at i
free (negsuc i) = raise value_error

-- The inner loop of __iter__(): the numbers it yields for one byte.
unfoldable pub iter_bits : ℕ → ℕ → ℕ → ℕ → List ℕ
iter_bits byte zero j i = []
iter_bits byte (suc rounds) j i =
    let rest = iter_bits byte rounds (j + 1) (i + 1) in if test_bit byte j then i ∷ rest else rest

unfoldable pub iter_bytes : Bytes → ℕ → List ℕ
unfolding iter_bits
iter_bytes [] i = []
iter_bytes (byte ∷ rest) i = iter_bits byte 8 0 i ++ iter_bytes rest (i + 8)

-- All numbers in the map, in the order in which they are yielded.
unfoldable pub iterate : BitMap → List ℕ
unfolding iter_bytes
iterate bm = iter_bytes bm.content 0
