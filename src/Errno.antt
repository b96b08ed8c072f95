-- ===== src/Errno.antt =====
-- The numbers of `errno` and `os` that the program uses, as they are on Linux.
use slowfs.Prelude.{◌==◌, ℤ, negsuc, ℕ, ◌-◌, bit_and, Bool, not}

abbrev pub enoent : ℕ
enoent = 2

abbrev pub enxio : ℕ
enxio = 6

abbrev pub ebadf : ℕ
ebadf = 9

abbrev pub eexist : ℕ
eexist = 17

abbrev pub enodev : ℕ
enodev = 19

abbrev pub enotdir : ℕ
enotdir = 20

abbrev pub eisdir : ℕ
eisdir = 21

abbrev pub einval : ℕ
einval = 22

abbrev pub emfile : ℕ
emfile = 24

abbrev pub enospc : ℕ
enospc = 28

abbrev pub edquot : ℕ
edquot = 122

-- -errno.E
abbrev pub minus : ℕ → ℤ
minus e = negsuc (e - 1)

abbrev pub o_wronly : ℕ
o_wronly = 1

abbrev pub o_rdwr : ℕ
o_rdwr = 2

abbrev pub o_creat : ℕ
o_creat = 64

abbrev pub o_excl : ℕ
o_excl = 128

abbrev pub o_trunc : ℕ
o_trunc = 512

abbrev pub o_append : ℕ
o_append = 1024

-- flags & flag, as a condition.
abbrev pub has_flag : ℕ → ℕ → Bool
has_flag flags flag = not (bit_and flags flag == 0)
