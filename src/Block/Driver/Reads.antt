-- ===== src/Block/Driver/Reads.antt =====
-- What the driver (linux/block/driver.py) reads from the disk.
use slowfs.Prelude.{
  ltb, leb, ◌==◌, le→ltb, lt→leb, ==_iff, Bool-cases, ℤ, pos, ℕ, zero, suc, ◌+◌, ◌-◌, ◌*◌, ◌/◌, ◌%◌,
  ◌≤◌, ◌<◌, min, max, ◌≡◌, refl, ap, ◌∙◌, ◌≢◌, ◌⊎◌, inl, inr, false, some, ◌++◌, append-nil, arith,
}
use slowfs.Exec.{ok}
use slowfs.Bytes.{
  slice, set_slice, zeros, RawFile, read_at, length-read_at, read_at-add, read_at-zero, zeros-zero,
  slice-read_at,
}
use slowfs.Bytes.Writes.{set_slice-fill}
use slowfs.Block.Sizes.{sector_size, block_size, bsize_in_sectors}
use slowfs.Block.Device.{sector_slice, Disk, read_sector}
use slowfs.Block.Driver.{Block, or_default, read_rounds, read_span, get_slice, from_to}

-- All eight sectors of the block are on the disk.
abbrev pub IsOn : Disk → Block → Type 0
IsOn disk block = block.sector_id + bsize_in_sectors ≤ disk.num_sectors

-- The offset on the disk of a block's first byte.
abbrev pub base_of : Block → ℕ
base_of block = block.sector_id * sector_size

-- One round: the part of the sector goes behind what the buffer holds.
fill_round :
    (f : RawFile) (base sector_off offset size ptr n : ℕ)
    → sector_off + offset ≡ base + ptr
    → offset + size ≤ sector_size
    → set_slice ptr
        (ptr + size)
        (slice offset (offset + size) (read_at f sector_off sector_size))
        (read_at f base ptr ++ zeros (n - ptr))
      ≡ read_at f base (ptr + size) ++ zeros (n - (ptr + size))
fill_round f base sector_off offset size ptr n e h =
    let part : slice offset (offset + size) (read_at f sector_off sector_size)
        ≡ read_at f (base + ptr) size =
      slice-read_at f sector_off sector_size offset (offset + size) h
      ∙ ap (read_at f (sector_off + offset)) (omega arith)
      ∙ ap (λ (o : ℕ). read_at f o size) e in
    let filled =
      set_slice-fill (read_at f base ptr) (read_at f (base + ptr) size) ptr (ptr + size) (n - ptr)
        size (length-read_at f base ptr) (length-read_at f (base + ptr) size) refl in
    let joined = read_at-add f base ptr size (ptr + size) refl in
    let left : n - ptr - size ≡ n - (ptr + size) = omega arith in rw (part, filled, joined, left)

-- The sectors left are those from `s` on, and the part of the slice that they hold is read.
read_rounds_lem :
    (block : Block) (n start : ℕ) (disk : Disk)
    → IsOn disk block
    → (rounds s offset ptr m : ℕ) → rounds ≡ bsize_in_sectors - s
    → s * sector_size + offset ≡ start + ptr
    → offset < sector_size
    → (ptr ≡ 0) ⊎ (offset ≡ 0)
    → ptr ≤ n
    → m ≡ max ptr (min n (block_size - start))
    → read_rounds block n rounds s offset ptr
        (read_at disk.storage (base_of block + start) ptr ++ zeros (n - ptr))
        disk
      ≡ (ok (read_at disk.storage (base_of block + start) m ++ zeros (n - m)), disk)
unfolding read_rounds read_sector sector_slice
read_rounds_lem block n start disk on zero s offset ptr m er es small first le em =
    let same : ptr ≡ m = omega arith in rw same
read_rounds_lem block n start disk on (suc rounds) s offset ptr m er es small first le em =
    let size : ℕ = min (sector_size - offset) (n - ptr) in
    let there : leb disk.num_sectors (block.sector_id + s) ≡ false = lt→leb _ _ (omega arith) in
    let filled =
      fill_round disk.storage (base_of block + start) ((block.sector_id + s) * sector_size) offset
        size ptr n (omega arith) (omega arith) in
    rw (there, filled)
      (elim (Bool-cases (ptr + size == n)) [
        | inl done ↦
            let full : ptr + size ≡ n = (==_iff _ _).0 done in
            let same : m ≡ ptr + size = omega arith in rw (done, same)
        | inr more ↦
            let ne : ptr + size ≢ n = ground arith in
            let whole_rest : size ≡ sector_size - offset = omega arith in
            rw more (
              read_rounds_lem block n start disk on rounds (s + 1) 0 (ptr + size) m (omega arith)
                (omega arith) (omega arith) (inr refl) (omega arith) (omega arith))
      ])

or_default-start : (start : ℕ) → or_default (some (pos start)) (pos 0) ≡ pos start
or_default-start zero = refl
or_default-start (suc start) = refl

or_default-stop : (stop : ℕ) (d : ℤ) → 0 < stop → or_default (some (pos stop)) d ≡ pos stop
or_default-stop zero d h = elim h [ ]
or_default-stop (suc stop) d h = refl

pub read_span_lem :
    (block : Block) (start stop : ℕ) (disk : Disk)
    → IsOn disk block
    → start ≤ stop
    → let n = min block_size (stop - start) in
      let m = min n (block_size - start) in
      read_span block start stop disk
      ≡ (ok (read_at disk.storage (base_of block + start) m ++ zeros (n - m)), disk)
unfolding read_span
read_span_lem block start stop disk on order =
    let n : ℕ = min block_size (stop - start) in
    let m : ℕ = min n (block_size - start) in
    let sign : ltb stop start ≡ false = le→ltb _ _ order in
    let loop =
      read_rounds_lem block n start disk on (bsize_in_sectors - start / sector_size)
        (start / sector_size) (start % sector_size) 0 m refl (omega arith) (omega arith) (inl refl)
        (omega arith) (omega arith) in
    let all_left : min block_size (stop - start) - 0 ≡ min block_size (stop - start) =
      omega arith in
    rw sign (rw (read_at-zero, all_left) at loop)

-- A slice of a block that is on the disk, with 0 ≤ start ≤ stop and stop not 0, is the bytes of
-- the disk at those offsets as far as the block reaches, then zeros up to the slice's length,
-- which is at most the block's. The disk stays as it is.
pub get_slice_lem :
    (block : Block) (start stop : ℕ) (disk : Disk)
    → IsOn disk block
    → start ≤ stop
    → 0 < stop
    → let n = min block_size (stop - start) in
      let m = min n (block_size - start) in
      get_slice block (from_to start stop) disk
      ≡ (ok (read_at disk.storage (base_of block + start) m ++ zeros (n - m)), disk)
unfolding get_slice
get_slice_lem block start stop disk on order some_stop =
    let e₁ = or_default-start start in
    let e₂ = or_default-stop stop (pos block_size) some_stop in
    rw (e₁, e₂) (read_span_lem block start stop disk on order)

-- A slice inside the block is the bytes of the disk at those offsets.
pub get_slice_inside :
    (block : Block) (start stop : ℕ) (disk : Disk)
    → IsOn disk block
    → start ≤ stop
    → 0 < stop
    → stop ≤ block_size
    → get_slice block (from_to start stop) disk
      ≡ (ok (read_at disk.storage (base_of block + start) (stop - start)), disk)
get_slice_inside block start stop disk on order some_stop inside =
    let e₁ : min block_size (stop - start) ≡ stop - start = omega arith in
    let e₂ : min (stop - start) (block_size - start) ≡ stop - start = omega arith in
    let e₃ : stop - start - (stop - start) ≡ 0 = omega arith in
    get_slice_lem block start stop disk on order some_stop ∙ rw (e₁, e₂, e₃, zeros-zero, append-nil)
