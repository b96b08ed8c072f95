-- ===== src/Block/Driver/Access.antt =====
-- The bytes that block[key], the iteration and the comparison of blocks see.
use slowfs.Prelude.{
  ltb, leb, if◌then◌else◌, lt→ltb, le→leb, lt→leb, Bool-cases, ℕ, zero, suc, ◌+◌, ◌-◌, ◌*◌, ◌/◌,
  ◌%◌, ◌≤◌, ◌<◌, ◌≡◌, refl, ap, ◌∙◌, inl, inr, true, false, append-nil, arith,
}
use slowfs.Exec.{index_error, Result, ok, raised}
use slowfs.Bytes.{Bytes, read_at, get_elem?-read_at, read_at-add, read_at-zero, zeros-zero}
use slowfs.Block.Sizes.{sector_size, block_size, bsize_in_sectors}
use slowfs.Block.Device.{sector_iter, sector_get, Disk, read_sector}
use slowfs.Block.Driver.{Block, get_byte, get_slice, whole, from_to, iter_rounds, block_iter}
use slowfs.Block.Driver.Reads.{IsOn, base_of, read_span_lem, get_slice_inside}

-- A byte of a block on the disk is the byte of the disk at its offset.
pub get_byte_lem :
    (block : Block) (key : ℕ) (disk : Disk)
    → IsOn disk block
    → key < block_size
    → get_byte block key disk ≡ (ok (disk.storage (base_of block + key)), disk)
unfolding get_byte read_sector sector_get
get_byte_lem block key disk on inside =
    let at : (block.sector_id + key / sector_size) * sector_size + key % sector_size
        ≡ base_of block + key =
      omega arith in
    let byte =
      get_elem?-read_at disk.storage ((block.sector_id + key / sector_size) * sector_size)
        sector_size (key % sector_size) (omega arith) in
    let small : leb key block_size ≡ true = le→leb _ _ (omega arith) in
    let there : leb disk.num_sectors (block.sector_id + key / sector_size) ≡ false =
      lt→leb _ _ (omega arith) in
    let within : ltb (key % sector_size + 0) sector_size ≡ true = lt→ltb _ _ (omega arith) in
    rw (small, there, within, byte, at)

-- block[4096] passes the assertion that a block contains the byte: it reads the first byte of the
-- sector behind the block, if the disk has one, and raises IndexError if it does not.
pub get_byte_end :
    (block : Block) (disk : Disk)
    → get_byte block block_size disk ≡ (
        if leb disk.num_sectors (block.sector_id + bsize_in_sectors)
        then (raised index_error, disk)
        else (ok (disk.storage (base_of block + block_size)), disk))
unfolding get_byte read_sector sector_get
get_byte_end block disk =
    let at : (block.sector_id + bsize_in_sectors) * sector_size + 0 ≡ base_of block + block_size =
      omega arith in
    let byte =
      get_elem?-read_at disk.storage ((block.sector_id + bsize_in_sectors) * sector_size)
        sector_size 0 (omega arith) in
    elim (Bool-cases (leb disk.num_sectors (block.sector_id + bsize_in_sectors))) [
      | inl beyond ↦ rw beyond
      | inr there ↦ rw (there, byte, at)
    ]

stop_left_out :
    (block : Block) (start : ℕ) (disk : Disk)
    → get_slice block (from_to start 0) disk ≡ get_slice block (from_to start block_size) disk
unfolding get_slice
stop_left_out block start disk = refl

-- A slice of a block on the disk whose stop is 0 is not empty: from each start in the block on, it is
-- the rest of the block.
pub get_slice_stop_zero :
    (block : Block) (start : ℕ) (disk : Disk)
    → IsOn disk block
    → start ≤ block_size
    → get_slice block (from_to start 0) disk
      ≡ (ok (read_at disk.storage (base_of block + start) (block_size - start)), disk)
get_slice_stop_zero block start disk on inside =
    stop_left_out block start disk
    ∙ get_slice_inside block start block_size disk on inside (omega arith) (omega arith)

iter_rounds_lem :
    (block : Block) (rounds s : ℕ) (disk : Disk)
    → block.sector_id + s + rounds ≤ disk.num_sectors
    → iter_rounds block rounds s disk ≡ (
      ok (read_at disk.storage ((block.sector_id + s) * sector_size) (rounds * sector_size)),
      disk,
    )
unfolding iter_rounds read_sector sector_iter
iter_rounds_lem block zero s disk on =
    let none_left : 0 * sector_size ≡ 0 = omega arith in rw (none_left, read_at-zero)
iter_rounds_lem block (suc rounds) s disk on =
    let there : leb disk.num_sectors (block.sector_id + s) ≡ false = lt→leb _ _ (omega arith) in
    let next : (block.sector_id + (s + 1)) * sector_size
        ≡ (block.sector_id + s) * sector_size + sector_size =
      omega arith in
    rw (there, iter_rounds_lem block rounds (s + 1) disk (omega arith), next)
      (ap {B = Result Bytes × Disk} (λ (v : Bytes). (ok v, disk))
        (read_at-add disk.storage ((block.sector_id + s) * sector_size) sector_size
          (rounds * sector_size) (suc rounds * sector_size) (omega arith)))

-- The iteration over a block on the disk yields the bytes of the slice [:].
pub block_iter_lem :
    (block : Block) (disk : Disk)
    → IsOn disk block
    → block_iter block disk ≡ get_slice block whole disk
unfolding block_iter get_slice
block_iter_lem block disk on =
    let here : block.sector_id + 0 ≡ block.sector_id = omega arith in
    let start : base_of block + 0 ≡ base_of block = omega arith in
    rw (
      read_span_lem block 0 block_size disk on (omega arith),
      iter_rounds_lem block 8 0 disk (omega arith),
      here,
      start,
      zeros-zero,
      append-nil,
    )
