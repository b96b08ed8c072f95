-- ===== src/Block/Driver.antt =====
-- linux/block/driver.py: a block of eight sectors on a disk. The disk that a `Block` points to is
-- the state that its methods run on.
pub mod Reads
pub mod Writes
pub mod Access
pub mod RoundTrip
use slowfs.Prelude.{
  ltb, leb, ◌==◌, if◌then◌else◌, length, ℤ, pos, ℕ, zero, suc, ◌+◌, ◌-◌, ◌/◌, ◌%◌, min, Bool, false,
  ◌&&◌, Option, none, some, [], ◌++◌,
}
use slowfs.Exec.{
  value_error, not_implemented, Result, ok, raised, Exec, pure, raise, lift, ◌>>=◌, ◌>>◌,
  assert_that,
}
use slowfs.Bytes.{Bytes, slice, set_slice, zeros}
use slowfs.Block.Sizes.{sector_size, block_size, bsize_in_sectors}
use slowfs.Block.Device.{
  Sector, new_sector, sector_iter, sector_get, sector_slice, sector_set_slice, bytes_eq, Disk,
  read_sector, write_sector,
}

pub record Block : Type 0 where
  pub sector_id : ℕ

-- block[key] for an int, which no caller makes negative.
unfoldable pub get_byte : Block → ℕ → Exec Disk ℕ
get_byte block key = do
  assert_that (leb key block_size)
  sector ← read_sector (block.sector_id + key / sector_size)
  lift (sector_get sector (pos (key % sector_size)))

-- A slice object, start:stop:step, where a part that is left out is `none`.
pub record Slice : Type 0 where
  pub start : Option ℤ
  pub stop : Option ℤ
  pub step : Option ℤ

-- `x or d`: 0 counts as left out.
abbrev pub or_default : Option ℤ → ℤ → ℤ
or_default none d = d
or_default (some (pos zero)) d = d
or_default (some x) d = x

module _ (block : Block) (n : ℕ) where
  -- The loop over the sectors `s` of the block, of which `rounds` are left.
  unfoldable pub read_rounds : ℕ → ℕ → ℕ → ℕ → Bytes → Exec Disk Bytes
  read_rounds zero s offset ptr_buf buf = pure buf
  read_rounds (suc rounds) s offset ptr_buf buf = do
    sector ← read_sector (block.sector_id + s)
    let size = min (sector_size - offset) (n - ptr_buf)
    let buf' = set_slice ptr_buf (ptr_buf + size) (sector_slice sector offset (offset + size)) buf
    let rest = read_rounds rounds (s + 1) 0 (ptr_buf + size) buf'
    if ptr_buf + size == n then pure buf' else rest

-- The slice behind its check of the signs. A negative count is a ValueError of bytearray().
unfoldable pub read_span : Block → ℕ → ℕ → Exec Disk Bytes
unfolding read_rounds
read_span block start stop =
    if ltb stop start
    then raise value_error
    else (let n = min block_size (stop - start) in
        let s = start / sector_size in
        read_rounds block n (bsize_in_sectors - s) s (start % sector_size) 0 (zeros n))

unfoldable pub slice_checked : Block → ℤ → ℤ → Option ℤ → Exec Disk Bytes
slice_checked block (pos start) (pos stop) none = read_span block start stop
slice_checked block _ _ _ = raise not_implemented

-- block[start:stop:step]
unfoldable pub get_slice : Block → Slice → Exec Disk Bytes
unfolding slice_checked read_span
get_slice block key =
    slice_checked block (or_default key.start (pos 0)) (or_default key.stop (pos block_size))
      key.step

abbrev pub whole : Slice
whole = record { start = none; stop = none; step = none }

-- block[lo:hi] for two numbers.
abbrev pub from_to : ℕ → ℕ → Slice
from_to lo hi = record { start = some (pos lo); stop = some (pos hi); step = none }

unfoldable pub block_len : Block → ℕ
block_len block = block_size

-- The first read that raises decides.
compare_reads : Result Bytes → Result Bytes → Result Bool
compare_reads (ok xs) (ok ys) = ok (bytes_eq xs ys)
compare_reads (ok xs) (raised e) = raised e
compare_reads (raised e) _ = raised e

-- Block.__eq__ between two blocks, each on its disk.
unfoldable pub block_eq : Block → Disk → Block → Disk → Result Bool
unfolding compare_reads
block_eq a disk_a b disk_b =
    if a.sector_id == b.sector_id
    then compare_reads (get_slice a whole disk_a).0 (get_slice b whole disk_b).0
    else ok false

-- The loop of __iter__: the bytes that it yields from `rounds` sectors on.
unfoldable pub iter_rounds : Block → ℕ → ℕ → Exec Disk Bytes
iter_rounds block zero s = pure []
iter_rounds block (suc rounds) s = do
  sector ← read_sector (block.sector_id + s)
  rest ← iter_rounds block rounds (s + 1)
  pure (sector_iter sector ++ rest)

unfoldable pub block_iter : Block → Exec Disk Bytes
unfolding iter_rounds
block_iter block = iter_rounds block bsize_in_sectors 0

module _ (block : Block) (value : Bytes) where
  -- A sector that is written whole is not read first.
  unfoldable pub sector_to_change : ℕ → ℕ → ℕ → Exec Disk Sector
  sector_to_change s offset size =
      if (offset == 0) && (size == sector_size)
      then lift (new_sector (block.sector_id + s) none)
      else read_sector (block.sector_id + s)

  -- What one round does to the disk.
  unfoldable pub write_part : ℕ → ℕ → ℕ → ℕ → Exec Disk (Unit {0})
  unfolding sector_to_change
  write_part s offset ptr_buf size = do
    sector ← sector_to_change s offset size
    changed ←
        lift (sector_set_slice sector offset (offset + size) (slice ptr_buf (ptr_buf + size) value))
    write_sector changed

  unfoldable pub write_rounds : ℕ → ℕ → ℕ → ℕ → Exec Disk (Unit {0})
  unfolding write_part
  write_rounds zero s offset ptr_buf = pure tt
  write_rounds (suc rounds) s offset ptr_buf = do
    let size = min (sector_size - offset) (length value - ptr_buf)
    write_part s offset ptr_buf size
    let rest = write_rounds rounds (s + 1) 0 (ptr_buf + size)
    if leb (length value) (ptr_buf + size) then pure tt else rest

-- Block.write(offset, value)
unfoldable pub write : Block → ℕ → Bytes → Exec Disk (Unit {0})
unfolding write_rounds
write block offset value =
    if ltb block_size (offset + length value)
    then raise value_error
    else (let s = offset / sector_size in
        write_rounds block value (bsize_in_sectors - s) s (offset % sector_size) 0)
