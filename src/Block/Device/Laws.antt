-- ===== src/Block/Device/Laws.antt =====
-- What the disk (linux/block/device.py) keeps in its sectors.
use slowfs.Prelude.{
  ◌==◌, if◌then◌else◌, Bool-cases, length-take, length-drop, length-replicate, length, drop, ℕ, ◌-◌,
  ◌*◌, ◌≤◌, ◌<◌, ◌≡◌, inl, inr, Option, none, some, arith,
}
use slowfs.Exec.{index_error, ok, raised}
use slowfs.Bytes.{Bytes, length-read_at}
use slowfs.Bytes.Writes.{length-set_slice, read_at-write_at_disjoint, read_at-write_at}
use slowfs.Block.Sizes.{sector_size}
use slowfs.Block.Device.{Sector, new_sector, sector_set_slice, Disk, read_sector, write_sector}

-- Every sector in memory has full size.
abbrev pub IsFull : Sector → Type 0
IsFull sector = length sector.content ≡ sector_size

pub new_sector-IsFull :
    (id : ℕ) (given : Option Bytes) {sector : Sector}
    → new_sector id given ≡ ok sector
    → IsFull sector
unfolding new_sector
new_sector-IsFull id none h = ground (arith, length-replicate {0} {A = ℕ} sector_size 0)
new_sector-IsFull id (some given) h = ground arith

pub read_sector-IsFull :
    (id : ℕ) (disk : Disk) {sector : Sector} → (read_sector id disk).0 ≡ ok sector → IsFull sector
unfolding read_sector
read_sector-IsFull id disk h =
    ground (arith, length-read_at disk.storage (id * sector_size) sector_size)

pub sector_set_slice-IsFull :
    (sector : Sector) (lo hi : ℕ) (value : Bytes) {sector' : Sector}
    → lo ≤ hi
    → hi ≤ sector_size
    → IsFull sector
    → sector_set_slice sector lo hi value ≡ ok sector'
    → IsFull sector'
unfolding sector_set_slice
sector_set_slice-IsFull sector lo hi value order fits full h = ground (
  arith,
  length-take (hi - lo) (drop lo sector.content),
  length-drop lo sector.content,
  length-set_slice lo hi value sector.content,
)

-- On a disk that has the sector, a sector of full size that was written is read back, and each
-- other sector reads as before.
pub read_sector-write_sector :
    (sector : Sector) (id : ℕ) (disk : Disk)
    → IsFull sector
    → sector.id < disk.num_sectors
    → id < disk.num_sectors
    → (read_sector id (write_sector sector disk).1).0
      ≡ (if id == sector.id then ok sector else (read_sector id disk).0)
unfolding read_sector write_sector
read_sector-write_sector sector id disk full here there = elim (Bool-cases (id == sector.id)) [
  | inl same ↦
      ground
        (arith, read_at-write_at disk.storage (sector.id * sector_size) sector.content sector_size)
  | inr other ↦ ground (
    arith,
    read_at-write_at_disjoint disk.storage (sector.id * sector_size) sector.content
        (id * sector_size) sector_size,
  )
]

-- A sector that the disk does not have is neither read nor written, and the disk stays as it is.
pub beyond_disk :
    (sector : Sector) (disk : Disk)
    → disk.num_sectors ≤ sector.id
    → (read_sector sector.id disk ≡ (raised index_error, disk))
      × (write_sector sector disk ≡ (raised index_error, disk))
unfolding read_sector write_sector
beyond_disk sector disk h = ground arith
