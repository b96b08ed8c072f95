-- ===== src/OpenFile/ReadBack.antt =====
-- `File.write`, then `File.seek` and `File.read` of linux/fs/file.py, on a sound file.
use slowfs.Prelude.{
  length, ℤ, pos, ℕ, ◌+◌, ◌-◌, ◌≤◌, ◌<◌, min, bit_or, ◌≡◌, refl, ap, ◌∙◌, ◌⊎◌, inl, inr, true,
  false, arith,
}
use slowfs.Exec.{Result, ok, ◌>>◌}
use slowfs.Bytes.{Bytes}
use slowfs.Bytes.Writes.{read_at-write_at}
use slowfs.Inode.Layout.{is_dir}
use slowfs.Inode.Object.{Inode}
use slowfs.Errno.{enospc, minus, o_wronly, o_rdwr, has_flag}
use slowfs.Super.Held.{AreHeld-AllOn}
use slowfs.OpenFile.{File, Opened, inode_of_file, seek, got, read, blocks_for, write_file}
use slowfs.OpenFile.View.{view}
use slowfs.OpenFile.Reads.{at_offset, read_lem}
use slowfs.OpenFile.RoundTrip.{seek_inside, write_seek_read}
use slowfs.OpenFile.Sound.{IsSound}
use slowfs.OpenFile.Growth.{LacksRoom}
use slowfs.OpenFile.Extend.{start_of, lacking}
use slowfs.OpenFile.Total.{Stored, write_file_lem}

-- What is stored is read back.
Stored-read :
    (o : Opened) (start : ℕ) (buf : Bytes) (result : Result ℤ × Opened)
    (st : Stored o start buf result)
    → is_dir (inode_of_file o).i_mode ≡ false
    → has_flag o.file.flags o_wronly ≡ false
    → (◌>>◌ (seek (pos start)) (read (pos (length buf))) st.after).0 ≡ ok (got buf)
Stored-read o start buf result st regular readable =
    let o' = st.after in
    let blocks = (inode_of_file o').blocks in
    let mode = ap (λ (i : Inode). is_dir i.i_mode) st.inode ∙ regular in
    let flags = ap (λ (f : File). has_flag f.flags o_wronly) st.file ∙ readable in
    let size = ap (λ (i : Inode). i.i_size) st.inode in
    let on =
      AreHeld-AllOn o'.sb.disk o'.sb.dzone o'.sb.dmap blocks st.sound.file.zone_on
        st.sound.file.held in
    let back = seek_inside o' start mode (omega arith) in
    let bytes =
      read_lem (at_offset start o') start (length buf) mode flags refl (omega arith)
        st.sound.file.holds on in
    let count : min ((inode_of_file o').i_size - start) (length buf) ≡ length buf = omega arith in
    rw back (
      rw bytes (
        rw (
          st.content,
          count,
          read_at-write_at (view o.sb.disk (inode_of_file o).blocks) start buf (length buf) refl,
        )))

-- What was written is what is read: on a sound regular file that is open for reading and writing, at
-- an offset up to its size, write() of some bytes, then seek() back to where they start and read() of as
-- many bytes, returns the bytes; or write() has returned ENOSPC, which happens only where they go
-- behind the end of the file, and where the blocks more that they need would make the inode have
-- more than 59, or, of those that have a bit in the data bitmap, fewer are free.
pub write_file_read_lem :
    (o : Opened) (off : ℕ) (buf : Bytes)
    → is_dir (inode_of_file o).i_mode ≡ false
    → has_flag o.file.flags (bit_or o_wronly o_rdwr) ≡ true
    → has_flag o.file.flags o_wronly ≡ false
    → IsSound o
    → o.file.offset ≡ pos off
    → off ≤ (inode_of_file o).i_size
    → ((write_seek_read buf (pos (start_of o off)) (pos (length buf)) o).0 ≡ ok (got buf))
      ⊎ (((inode_of_file o).i_size < start_of o off + length buf)
          × LacksRoom o (blocks_for (lacking o (start_of o off) (length buf)))
          × ((write_file buf o).0 ≡ ok (minus enospc)))
write_file_read_lem o off buf regular writable readable sound at inside =
    elim (write_file_lem o off buf regular writable sound at inside) [
      | inl st ↦
          inl
            (rw st.ran (Stored-read o (start_of o off) buf (write_file buf o) st regular readable))
      | inr (past, refused) ↦
          inr (past, refused.cause, ap (λ (r : Result ℤ × Opened). r.0) refused.ran)
    ]
