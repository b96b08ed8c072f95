-- ===== src/OpenFile/RoundTrip.antt =====
-- `File.write`, `File.seek` and `File.read` of linux/fs/file.py in a row.
use slowfs.Prelude.{ℤ, pos, ltb_ℤ, ℕ, ◌≤◌, ◌≡◌, false, arith}
use slowfs.Exec.{ok, Exec, ◌>>◌}
use slowfs.Bytes.{Bytes}
use slowfs.Inode.Layout.{is_dir}
use slowfs.OpenFile.{Opened, inode_of_file, seek, Reply, read, write_file}
use slowfs.OpenFile.Reads.{at_offset}

-- seek() to an offset up to the size of a regular file moves there.
pub seek_inside :
    (o : Opened) (off : ℕ)
    → is_dir (inode_of_file o).i_mode ≡ false
    → off ≤ (inode_of_file o).i_size
    → seek (pos off) o ≡ (ok (pos off), at_offset off o)
unfolding seek
seek_inside o off regular inside =
    let small : ltb_ℤ (pos (inode_of_file o).i_size) (pos off) ≡ false = ground arith in
    rw (regular, small)

-- The three calls in a row.
abbrev pub write_seek_read : Bytes → ℤ → ℤ → Exec Opened Reply
write_seek_read buf offset count = do write_file buf; seek offset; read count
