-- ===== src/Block/Sizes.antt =====
-- linux/block/__init__.py
use slowfs.Prelude.{ℕ}

abbrev pub sector_size : ℕ
sector_size = 512

abbrev pub block_size : ℕ
block_size = 4096

-- BLOCK_SIZE // SECTOR_SIZE
abbrev pub bsize_in_sectors : ℕ
bsize_in_sectors = 8
