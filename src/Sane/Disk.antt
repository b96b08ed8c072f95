-- ===== src/Sane/Disk.antt =====
-- The disk under the driver (linux/block/driver.py): no action changes its size.
use slowfs.Prelude.{
  ltb, leb, ◌==◌, Bool-cases, length, ℤ, pos, negsuc, ℕ, zero, suc, ◌+◌, ◌-◌, min, ◌≡◌, refl, ◌∙◌,
  inl, inr, ◌&&◌, Option, none, some,
}
use slowfs.Exec.Kept.{
  Steps, Kept, Kept-pure, Kept-raise, Kept-lift, Kept-if, Kept-any, Kept-assert, Kept-bind,
}
use slowfs.Bytes.{Bytes}
use slowfs.Block.Sizes.{sector_size, block_size}
use slowfs.Block.Device.{Sector, Disk, read_sector, write_sector}
use slowfs.Block.Driver.{
  Block, get_byte, Slice, read_rounds, read_span, slice_checked, get_slice, whole, write_part,
  write_rounds, write,
}
use slowfs.Bitmap.{from_block}
use slowfs.Directory.Entry.{read_entry}

instance abbrev pub disk_steps : Steps Disk
disk_steps = record { IsStep = λ s t. t.num_sectors ≡ s.num_sectors; step_trans = λ e f. f ∙ e }

read_sector-Kept : (id : ℕ) (disk : Disk) → Kept disk (read_sector id disk) (λ _ _. Unit)
unfolding read_sector
read_sector-Kept id disk = record {
  step = elim (Bool-cases (leb disk.num_sectors id)) [ inl e ↦ rw e refl | inr e ↦ rw e refl ];
  returned = λ a e. tt;
}

write_sector-Kept :
    (sector : Sector) (disk : Disk) → Kept disk (write_sector sector disk) (λ _ _. Unit)
unfolding write_sector
write_sector-Kept sector disk = record {
  step = elim (Bool-cases (leb disk.num_sectors sector.id)) [
    | inl e ↦ rw e refl
    | inr e ↦ rw e refl
  ];
  returned = λ a e. tt;
}

read_rounds-Kept :
    (block : Block) (n rounds s offset ptr : ℕ) (buf : Bytes) (disk : Disk)
    → Kept disk (read_rounds block n rounds s offset ptr buf disk) (λ _ _. Unit)
unfolding read_rounds
read_rounds-Kept block n zero s offset ptr buf disk = Kept-pure refl tt
read_rounds-Kept block n (suc rounds) s offset ptr buf disk =
    Kept-bind (read_sector-Kept _ disk) (λ sector t st _.
      Kept-if (ptr + min (sector_size - offset) (n - ptr) == n) _ _ (λ _. Kept-pure refl tt)
        (λ _. read_rounds-Kept block n rounds _ _ _ _ t))

read_span-Kept :
    (block : Block) (start stop : ℕ) (disk : Disk)
    → Kept disk (read_span block start stop disk) (λ _ _. Unit)
unfolding read_span
read_span-Kept block start stop disk =
    Kept-if (ltb stop start) _ _ (λ _. Kept-raise refl) (λ _. search read_rounds-Kept)

slice_checked-Kept :
    (block : Block) (start stop : ℤ) (step : Option ℤ) (disk : Disk)
    → Kept disk (slice_checked block start stop step disk) (λ _ _. Unit)
unfolding slice_checked
slice_checked-Kept block (pos start) (pos stop) none disk = read_span-Kept block start stop disk
slice_checked-Kept block (pos start) (pos stop) (some s) disk = Kept-raise refl
slice_checked-Kept block (pos start) (negsuc n) step disk = Kept-raise refl
slice_checked-Kept block (negsuc n) stop step disk = Kept-raise refl

pub get_slice-Kept :
    (block : Block) (key : Slice) (disk : Disk) → Kept disk (get_slice block key disk) (λ _ _. Unit)
unfolding get_slice
get_slice-Kept block key disk = slice_checked-Kept block _ _ key.step disk

pub get_byte-Kept :
    (block : Block) (key : ℕ) (disk : Disk) → Kept disk (get_byte block key disk) (λ _ _. Unit)
unfolding get_byte
get_byte-Kept block key disk =
    Kept-bind (Kept-assert (leb key block_size) refl)
      (λ _ t st _. Kept-bind (read_sector-Kept _ t) (λ sector u su _. Kept-any (Kept-lift _ refl)))

pub from_block-Kept :
    (block : Block) (disk : Disk) → Kept disk (from_block block disk) (λ _ _. Unit)
unfolding from_block
from_block-Kept block disk =
    Kept-bind (get_slice-Kept block whole disk) (λ given t st _. Kept-pure refl tt)

pub read_entry-Kept :
    (block : Block) (offset : ℕ) (disk : Disk)
    → Kept disk (read_entry block offset disk) (λ _ _. Unit)
unfolding read_entry
read_entry-Kept block offset disk =
    Kept-bind (get_slice-Kept block _ disk) (λ bs t st _. Kept-any (Kept-lift _ refl))

module _ (block : Block) (value : Bytes) where
  write_part-Kept :
      (s offset ptr size : ℕ) (disk : Disk)
      → Kept disk (write_part block value s offset ptr size disk) (λ _ _. Unit)
  unfolding write_part
  write_part-Kept s offset ptr size disk =
      Kept-bind
        (Kept-if ((offset == 0) && (size == sector_size)) _ _ (λ _. Kept-any (Kept-lift _ refl))
          (λ _. read_sector-Kept _ disk))
        (λ sector t st _.
          Kept-bind (Kept-lift _ refl) (λ changed u su _. write_sector-Kept changed u))

  write_rounds-Kept :
      (rounds s offset ptr : ℕ) (disk : Disk)
      → Kept disk (write_rounds block value rounds s offset ptr disk) (λ _ _. Unit)
  unfolding write_rounds
  write_rounds-Kept zero s offset ptr disk = Kept-pure refl tt
  write_rounds-Kept (suc rounds) s offset ptr disk =
      Kept-bind (write_part-Kept s offset ptr _ disk) (λ _ t st _.
        Kept-if (leb (length value) (ptr + min (sector_size - offset) (length value - ptr))) _ _
          (λ _. Kept-pure refl tt) (λ _. write_rounds-Kept rounds _ _ _ t))

pub write-Kept :
    (block : Block) (offset : ℕ) (value : Bytes) (disk : Disk)
    → Kept disk (write block offset value disk) (λ _ _. Unit)
unfolding write
write-Kept block offset value disk =
    Kept-if (ltb block_size (offset + length value)) _ _ (λ _. Kept-raise refl)
      (λ _. search (write_rounds-Kept block value))
