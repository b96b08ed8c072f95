-- ===== src/Inode/Layout.antt =====
-- The byte layout of an inode and of a directory entry (linux/fs/__init__.py, linux/fs/inode.py).
use slowfs.Prelude.{◌==◌, ℤ, negsuc, ℕ, bit_and, Bool}

abbrev pub inode_size : ℕ
inode_size = 256

-- BLOCK_SIZE // INODE_SIZE
abbrev pub inodes_per_block : ℕ
inodes_per_block = 16

-- _MAX_DBLOCKS
abbrev pub max_dblocks : ℕ
max_dblocks = 59

-- _FREE_DBLOCK_ID
abbrev pub free_dblock_id : ℤ
free_dblock_id = negsuc 0

-- _MAX_FNAME_LEN
abbrev pub max_fname_len : ℕ
max_fname_len = 27

-- _DIR_LAYOUT_SIZE
abbrev pub dir_layout_size : ℕ
dir_layout_size = 32

-- stat.S_IFMT, S_IFDIR and S_IFREG, of which the tests read the four highest bits of a mode.
abbrev pub file_type : ℕ → ℕ
file_type mode = bit_and mode 0o170000

abbrev pub s_ifdir : ℕ
s_ifdir = 0o040000

abbrev pub s_ifreg : ℕ
s_ifreg = 0o100000

unfoldable pub is_dir : ℕ → Bool
is_dir mode = file_type mode == s_ifdir

unfoldable pub is_reg : ℕ → Bool
is_reg mode = file_type mode == s_ifreg
