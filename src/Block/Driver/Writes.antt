-- ===== src/Block/Driver/Writes.antt =====
-- What the driver (linux/block/driver.py) writes to the disk.
use slowfs.Prelude.{
  ltb, leb, ◌==◌, lt→ltb, le→ltb, leb→le, lt→leb, ==_iff, Bool-cases, length, drop, ℕ, zero, suc,
  ◌+◌, ◌-◌, ◌*◌, ◌/◌, ◌%◌, ◌≤◌, ◌<◌, min, ◌≡◌, refl, ap, ◌∙◌, inl, inr, true, false, ◌&&◌,
  append-nil, arith,
}
use slowfs.Exec.{value_error, Result, ok, raised}
use slowfs.Bytes.{
  Bytes, slice, zeros, read_at, write_at, length-read_at, length-zeros, length-slice,
  slice-append-drop, drop_all,
}
use slowfs.Bytes.Writes.{write_at-nil, write_at-append, write_at-set_slice, set_slice_whole}
use slowfs.Block.Sizes.{sector_size, block_size, bsize_in_sectors}
use slowfs.Block.Device.{new_sector, sector_set_slice, Disk, read_sector, write_sector}
use slowfs.Block.Driver.{Block, write_part, write_rounds, write}
use slowfs.Block.Driver.Reads.{IsOn, base_of}

-- The disk after a write of bytes at an offset.
abbrev pub written : Disk → ℕ → Bytes → Disk
written disk off bs = record disk { storage = write_at disk.storage off bs }

module _ (block : Block) (value : Bytes) (disk : Disk) (on : IsOn disk block) where
  -- A sector that is written whole need not be read.
  write_whole :
      (s ptr : ℕ)
      → s < bsize_in_sectors
      → ptr + sector_size ≤ length value
      → write_part block value s 0 ptr sector_size disk ≡ (
        ok tt,
        written disk ((block.sector_id + s) * sector_size) (slice ptr (ptr + sector_size) value),
      )
  unfolding write_part write_sector new_sector sector_set_slice
  write_whole s ptr hs fits =
      let there : leb disk.num_sectors (block.sector_id + s) ≡ false = lt→leb _ _ (omega arith) in
      let blank = length-zeros sector_size in
      let old : length (slice 0 512 (zeros sector_size)) ≡ sector_size =
        length-slice 0 512 (zeros sector_size) (omega (arith, blank)) in
      let new : length (slice ptr (ptr + sector_size) value) ≡ sector_size =
        length-slice ptr (ptr + sector_size) value fits ∙ omega arith in
      rw (old, new, there)
        (rw (
          set_slice_whole 512 (slice ptr (ptr + sector_size) value) (zeros sector_size) new
            (omega (arith, blank))))

  write_some :
      (s offset ptr size : ℕ)
      → s < bsize_in_sectors
      → offset + size ≤ sector_size
      → ptr + size ≤ length value
      → ((offset == 0) && (size == sector_size)) ≡ false
      → write_part block value s offset ptr size disk ≡ (
        ok tt,
        written disk ((block.sector_id + s) * sector_size + offset) (slice ptr (ptr + size) value),
      )
  unfolding write_part write_sector read_sector sector_set_slice
  write_some s offset ptr size hs inside fits part =
      let there : leb disk.num_sectors (block.sector_id + s) ≡ false = lt→leb _ _ (omega arith) in
      let sector_len =
        length-read_at disk.storage ((block.sector_id + s) * sector_size) sector_size in
      let old : length (
            slice offset (offset + size)
              (read_at disk.storage ((block.sector_id + s) * sector_size) sector_size))
          ≡ size =
        length-slice offset (offset + size)
          (read_at disk.storage ((block.sector_id + s) * sector_size) sector_size)
          (omega (arith, sector_len))
        ∙ omega arith in
      let new : length (slice ptr (ptr + size) value) ≡ size =
        length-slice ptr (ptr + size) value fits ∙ omega arith in
      let same : (size == size) ≡ true = (==_iff size size).1 refl in
      rw (part, there)
        (rw (old, new, same, there)
          (rw (
            write_at-set_slice disk.storage ((block.sector_id + s) * sector_size) sector_size offset
              (offset + size) (slice ptr (ptr + size) value) (omega (arith, new)) inside)))

  write_part_lem :
      (s offset ptr size : ℕ)
      → s < bsize_in_sectors
      → offset + size ≤ sector_size
      → ptr + size ≤ length value
      → write_part block value s offset ptr size disk ≡ (
        ok tt,
        written disk ((block.sector_id + s) * sector_size + offset) (slice ptr (ptr + size) value),
      )
  write_part_lem s offset ptr size hs inside fits =
      elim (Bool-cases ((offset == 0) && (size == sector_size))) [
        | inl full ↦
            let at_start : offset ≡ 0 = ground arith in
            let all : size ≡ sector_size = ground arith in
            let here : (block.sector_id + s) * sector_size + 0
                ≡ (block.sector_id + s) * sector_size =
              omega arith in
            rw (at_start, all, here) (write_whole s ptr hs (omega arith))
        | inr part ↦ write_some s offset ptr size hs inside fits part
      ]

-- From the round at `s` on, what is left of the value goes to where it belongs.
write_rounds_lem :
    (block : Block) (value : Bytes) (off rounds s offset ptr : ℕ) (disk : Disk)
    → IsOn disk block
    → rounds ≡ bsize_in_sectors - s
    → s * sector_size + offset ≡ off + ptr
    → offset < sector_size
    → ptr ≤ length value
    → off + length value ≤ block_size
    → write_rounds block value rounds s offset ptr disk
      ≡ (ok tt, written disk (base_of block + off + ptr) (drop ptr value))
unfolding write_rounds
write_rounds_lem block value off zero s offset ptr disk on er es small le fits =
    let none_left = drop_all ptr value (omega arith) in rw (none_left, write_at-nil)
write_rounds_lem block value off (suc rounds) s offset ptr disk on er es small le fits =
    let size : ℕ = min (sector_size - offset) (length value - ptr) in
    let at : (block.sector_id + s) * sector_size + offset ≡ base_of block + off + ptr =
      omega arith in
    let part =
      write_part_lem block value disk on s offset ptr size (omega arith) (omega arith)
        (omega arith) in
    let joined =
      write_at-append disk.storage (base_of block + off + ptr) (slice ptr (ptr + size) value)
        (drop (ptr + size) value) (base_of block + off + (ptr + size))
        (omega (arith, length-slice ptr (ptr + size) value (omega arith))) in
    let all = slice-append-drop ptr size value in
    rw (part, at)
      (elim (Bool-cases (leb (length value) (ptr + size))) [
        | inl done ↦
            let none_left = drop_all (ptr + size) value (leb→le _ _ done) in
            let last : slice ptr (ptr + size) value ≡ drop ptr value =
              rw (none_left, append-nil) at all in
            rw done (
              ap {B = Result (Unit {0}) × Disk}
                (λ (v : Bytes). (ok tt, written disk (base_of block + off + ptr) v)) last)
        | inr more ↦
            let left : ptr + size < length value = ground arith in
            let whole_rest : size ≡ sector_size - offset = omega arith in
            rw more (
              write_rounds_lem block value off rounds (s + 1) 0 (ptr + size)
                (written disk (base_of block + off + ptr) (slice ptr (ptr + size) value)) on
                (omega arith) (omega arith) (omega arith) (omega arith) fits
              ∙ rw (joined, all))
      ])

-- A write that fits into a block on the disk changes exactly the bytes at those offsets.
pub write_lem :
    (block : Block) (offset : ℕ) (value : Bytes) (disk : Disk)
    → IsOn disk block
    → offset + length value ≤ block_size
    → write block offset value disk ≡ (ok tt, written disk (base_of block + offset) value)
unfolding write
write_lem block offset value disk on fits =
    let fit : ltb block_size (offset + length value) ≡ false = le→ltb _ _ fits in
    let loop =
      write_rounds_lem block value offset (bsize_in_sectors - offset / sector_size)
        (offset / sector_size) (offset % sector_size) 0 disk on refl (omega arith) (omega arith)
        (omega arith) fits in
    let start : base_of block + offset + 0 ≡ base_of block + offset = omega arith in
    rw fit (rw start at loop)

-- A write past the end of the block is refused, and the disk stays as it is.
pub write_past_end :
    (block : Block) (offset : ℕ) (value : Bytes) (disk : Disk)
    → block_size < offset + length value
    → write block offset value disk ≡ (raised value_error, disk)
unfolding write
write_past_end block offset value disk h = rw (lt→ltb block_size (offset + length value) h)
