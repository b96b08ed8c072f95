-- ===== src/Block/Driver/RoundTrip.antt =====
-- Reads of a block after writes to it and to the other blocks of its disk.
use slowfs.Prelude.{length, ℕ, ◌+◌, ◌-◌, ◌≤◌, ◌<◌, ◌≡◌, ap, ◌⊎◌, arith}
use slowfs.Exec.{Result, ok}
use slowfs.Bytes.{Bytes, slice}
use slowfs.Bytes.Writes.{read_at-write_at_disjoint, read_at-write_at_part}
use slowfs.Block.Sizes.{block_size, bsize_in_sectors}
use slowfs.Block.Device.{Disk}
use slowfs.Block.Driver.{Block, get_slice, from_to, write}
use slowfs.Block.Driver.Reads.{IsOn, base_of, get_slice_inside}
use slowfs.Block.Driver.Writes.{written, write_lem}

-- Both blocks are on the disk and share no sector.
abbrev pub IsApart : Block → Block → Type 0
IsApart a b =
    (a.sector_id + bsize_in_sectors ≤ b.sector_id) ⊎ (b.sector_id + bsize_in_sectors ≤ a.sector_id)

-- The disk that a write leaves.
abbrev pub after_write : Block → ℕ → Bytes → Disk → Disk
after_write block offset value disk = (write block offset value disk).1

after_write_lem :
    (block : Block) (offset : ℕ) (value : Bytes) (disk : Disk)
    → IsOn disk block
    → offset + length value ≤ block_size
    → after_write block offset value disk ≡ written disk (base_of block + offset) value
after_write_lem block offset value disk on fits =
    ap (λ (r : Result (Unit {0}) × Disk). r.1) (write_lem block offset value disk on fits)

-- After a write that fits into a block on the disk, each non-empty slice of the block inside what
-- was written is that part of the value.
pub get_slice-write :
    (block : Block) (offset start stop : ℕ) (value : Bytes) (disk : Disk)
    → IsOn disk block
    → offset + length value ≤ block_size
    → start < stop
    → stop ≤ length value
    → (get_slice block
        (from_to (offset + start) (offset + stop))
        (after_write block offset value disk)).0
      ≡ ok (slice start stop value)
get_slice-write block offset start stop value disk on fits order inside =
    let from : base_of block + (offset + start) ≡ base_of block + offset + start = omega arith in
    let count : offset + stop - (offset + start) ≡ stop - start = omega arith in
    let upto : start + (stop - start) ≡ stop = omega arith in
    rw (
      after_write_lem block offset value disk on fits,
      get_slice_inside block (offset + start) (offset + stop)
          (written disk (base_of block + offset) value) on (omega arith) (omega arith)
          (omega arith),
      from,
      count,
      read_at-write_at_part disk.storage (base_of block + offset) value start (stop - start)
          (omega arith),
      upto,
    )

-- A write that fits into a block leaves what each slice inside a block that shares no sector with it
-- reads, where both are on the disk and the slice's stop is not 0.
pub get_slice-write_apart :
    (block other : Block) (offset start stop : ℕ) (value : Bytes) (disk : Disk)
    → IsOn disk block
    → IsOn disk other
    → IsApart block other
    → offset + length value ≤ block_size
    → start ≤ stop
    → stop ≤ block_size
    → 0 < stop
    → (get_slice other (from_to start stop) (after_write block offset value disk)).0
      ≡ (get_slice other (from_to start stop) disk).0
get_slice-write_apart block other offset start stop value disk on on' apart fits order inside
      some_stop =
    rw (
      after_write_lem block offset value disk on fits,
      get_slice_inside other start stop (written disk (base_of block + offset) value) on' order
          some_stop inside,
      get_slice_inside other start stop disk on' order some_stop inside,
      read_at-write_at_disjoint disk.storage (base_of block + offset) value (base_of other + start)
          (stop - start) (omega arith),
    )
