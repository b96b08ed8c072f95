-- ===== src/Tests/Block.antt =====
-- Small disks, with which the theorems on linux/block are applied.
use slowfs.Prelude.{◌==◌, if◌then◌else◌, ◌+◌, ◌*◌, ◌%◌, ◌≡◌, inl, [], ◌∷◌, ◌++◌, arith}
use slowfs.Exec.{ok}
use slowfs.Bytes.{Bytes, slice, zeros, read_at, length-zeros}
use slowfs.Block.Sizes.{sector_size, block_size}
use slowfs.Block.Device.{Sector, Disk, read_sector, write_sector}
use slowfs.Block.Device.Laws.{read_sector-write_sector}
use slowfs.Block.Driver.{Block, get_byte, get_slice, from_to, write}
use slowfs.Block.Driver.Reads.{get_slice_lem}
use slowfs.Block.Driver.Writes.{written, write_lem}
use slowfs.Block.Driver.Access.{get_byte_end, get_slice_stop_zero}
use slowfs.Block.Driver.RoundTrip.{after_write, get_slice-write, get_slice-write_apart}

abbrev small_disk : Disk
small_disk = record { num_sectors = 48; storage = λ i. i % 251 }

abbrev first_block : Block
first_block = record { sector_id = 8 }

abbrev second_block : Block
second_block = record { sector_id = 16 }

abbrev short_value : Bytes
short_value = 7 ∷ 8 ∷ 9 ∷ []

abbrev sector_three : Sector
sector_three = record { id = 3; content = zeros sector_size }

read_sector-write_sector_example :
    (read_sector 3 (write_sector sector_three small_disk).1).0
    ≡ (if 3 == 3 then ok sector_three else (read_sector 3 small_disk).0)
read_sector-write_sector_example =
    read_sector-write_sector sector_three 3 small_disk (length-zeros sector_size) (omega arith)
      (omega arith)

get_slice_lem_example :
    get_slice first_block (from_to 510 515) small_disk
    ≡ (ok (read_at small_disk.storage (8 * 512 + 510) 5 ++ zeros 0), small_disk)
get_slice_lem_example =
    get_slice_lem first_block 510 515 small_disk (omega arith) (omega arith) (omega arith)

get_byte_end_example :
    get_byte first_block block_size small_disk
    ≡ (ok (small_disk.storage (8 * 512 + 4096)), small_disk)
get_byte_end_example = get_byte_end first_block small_disk

get_slice_stop_zero_example :
    get_slice first_block (from_to 4000 0) small_disk
    ≡ (ok (read_at small_disk.storage (8 * 512 + 4000) 96), small_disk)
get_slice_stop_zero_example =
    get_slice_stop_zero first_block 4000 small_disk (omega arith) (omega arith)

write_lem_example :
    write first_block 511 short_value small_disk
    ≡ (ok tt, written small_disk (8 * 512 + 511) short_value)
write_lem_example = write_lem first_block 511 short_value small_disk (omega arith) (omega arith)

get_slice-write_example :
    (get_slice first_block (from_to 512 514) (after_write first_block 511 short_value small_disk)).0
    ≡ ok (slice 1 3 short_value)
get_slice-write_example =
    get_slice-write first_block 511 1 3 short_value small_disk (omega arith) (omega arith)
      (omega arith) (omega arith)

get_slice-write_apart_example :
    (get_slice second_block (from_to 0 9) (after_write first_block 4093 short_value small_disk)).0
    ≡ (get_slice second_block (from_to 0 9) small_disk).0
get_slice-write_apart_example =
    get_slice-write_apart first_block second_block 4093 0 9 short_value small_disk (omega arith)
      (omega arith) (inl (omega arith)) (omega arith) (omega arith) (omega arith) (omega arith)
