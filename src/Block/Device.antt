-- ===== src/Block/Device.antt =====
-- linux/block/device.py: sectors in memory, and the disk that reads and writes whole sectors.
pub mod Laws
use slowfs.Prelude.{
  ltb, leb, ◌==◌, if◌then◌else◌, length, set, ℤ, pos, ltb_ℤ, py_get, ℕ, ◌*◌, ◌/◌, Bool, true, false,
  ◌&&◌, Option, none, some, [], ◌∷◌,
}
use slowfs.Exec.{value_error, index_error, Result, ok, raised, Exec}
use slowfs.Bytes.{Bytes, slice, set_slice, zeros, RawFile, read_at, write_at}
use slowfs.Block.Sizes.{sector_size}

pub record Sector : Type 0 where
  pub id : ℕ
  pub content : Bytes

-- Sector(id, data=None); a `data` of another length than the memoryview is a ValueError.
unfoldable pub new_sector : ℕ → Option Bytes → Result Sector
new_sector id none = ok (record { id = id; content = zeros sector_size })
new_sector id (some given) =
    if length given == sector_size
    then ok (record { id = id; content = given })
    else raised value_error

unfoldable pub sector_iter : Sector → Bytes
sector_iter sector = sector.content

unfoldable pub sector_len : Sector → ℕ
sector_len sector = sector_size

-- sector[offset]
unfoldable pub sector_get : Sector → ℤ → Result ℕ
sector_get sector offset =
    if ltb_ℤ offset (pos sector_size)
    then elim (py_get sector.content offset) [ some byte ↦ ok byte | none ↦ raised index_error ]
    else raised index_error

-- sector[lo:hi]
unfoldable pub sector_slice : Sector → ℕ → ℕ → Bytes
sector_slice sector lo hi = slice lo hi sector.content

-- sector[offset] = value on a memoryview: the value has to be a byte.
unfoldable pub sector_set : Sector → ℕ → ℕ → Result Sector
sector_set sector offset value =
    if ltb offset (length sector.content)
    then (if ltb value 256
        then ok (record sector { content = set sector.content offset value })
        else raised value_error)
    else raised index_error

-- sector[lo:hi] = value on a memoryview: the lengths have to agree.
unfoldable pub sector_set_slice : Sector → ℕ → ℕ → Bytes → Result Sector
sector_set_slice sector lo hi value =
    if length (slice lo hi sector.content) == length value
    then ok (record sector { content = set_slice lo hi value sector.content })
    else raised value_error

unfoldable pub bytes_eq : Bytes → Bytes → Bool
bytes_eq [] [] = true
bytes_eq (x ∷ xs) (y ∷ ys) = x == y && bytes_eq xs ys
bytes_eq _ _ = false

-- Sector.__eq__ between two sectors.
unfoldable pub sector_eq : Sector → Sector → Bool
unfolding bytes_eq
sector_eq a b = if a.id == b.id then bytes_eq a.content b.content else false

-- `storage` is the file at `_pathname`, and the sector size is the constant.
pub record Disk : Type 0 where
  pub num_sectors : ℕ
  pub storage : RawFile

-- Disk(pathname, size); `exists` is os.path.exists(pathname).
unfoldable pub new_disk : Bool → RawFile → ℕ → Result Disk
new_disk exists file size =
    if exists
    then ok (record { num_sectors = size / sector_size; storage = file })
    else raised value_error

unfoldable pub read_sector : ℕ → Exec Disk Sector
read_sector id disk = if leb disk.num_sectors id then (raised index_error, disk) else (
  ok (record { id = id; content = read_at disk.storage (id * sector_size) sector_size }),
  disk,
)

unfoldable pub write_sector : Sector → Exec Disk (Unit {0})
write_sector sector disk = if leb disk.num_sectors sector.id then (raised index_error, disk) else (
  ok tt,
  record disk { storage = write_at disk.storage (sector.id * sector_size) sector.content },
)
