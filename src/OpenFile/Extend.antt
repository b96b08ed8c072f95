-- ===== src/OpenFile/Extend.antt =====
-- `File.write` of linux/fs/file.py on a sound file: in place, behind the end, or refused.
use slowfs.Prelude.{
  if◌then◌else◌, length-set, length, set, pos, pos_part, ◌-ℤ◌, ltb_ℤ, ℕ, ◌+◌, ◌-◌, ◌*◌, ◌≤◌, max,
  bit_or, ◌≡◌, refl, sym, ap, subst, Bool, true, false, [], append-nil, arith,
}
use slowfs.Exec.{ok}
use slowfs.Bytes.{Bytes}
use slowfs.Block.Sizes.{block_size}
use slowfs.Block.Driver.Writes.{written}
use slowfs.Inode.Layout.{is_dir}
use slowfs.Errno.{enospc, minus, o_wronly, o_rdwr, o_append, has_flag}
use slowfs.Super.State.{SuperBlock}
use slowfs.Super.Taken.{IsWith}
use slowfs.Directory.Grow.{grow}
use slowfs.OpenFile.{File, Opened, inode_of_file, blocks_for, write_bytes, write_file}
use slowfs.OpenFile.Reads.{at_offset}
use slowfs.OpenFile.InPlace.{grown, IsWritten}
use slowfs.OpenFile.Sound.{IsFile, IsSound, IsFile-extend}

-- A file keeps its invariant when it is written within its blocks.
pub IsWritten-IsSound :
    (o : Opened) (off : ℕ) (buf : Bytes) (o' : Opened)
    → IsSound o
    → off + length buf ≤ length (inode_of_file o).blocks * block_size
    → IsWritten o off buf o'
    → IsSound o'
IsWritten-IsSound o off buf o' sound inside written =
    let end : ℕ = off + length buf in
    let heap = set o.sb.heap o.file.inode (grown o end) in
    let holds = sound.file.holds in
    let limit = sound.file.count in
    let kept : IsWith o.sb.dmap [] o.sb.dmap = record {
      same_length = refl;
      bytes = sound.file.map_bytes;
      members = λ k. ground arith;
    } in
    let resized =
      IsFile-extend o.sb (inode_of_file o) [] (max (inode_of_file o).i_size end) o.sb.dmap
        o'.sb.disk heap sound.file written.disk_size tt kept (omega arith) (omega arith) in
    let file : IsFile (record o.sb { disk = o'.sb.disk; heap = heap }) (grown o end) =
      rw append-nil at resized in
    let same_heap = ap (λ (sb : SuperBlock). length sb.heap) written.super in
    let same_ref = ap (λ (f : File). f.inode) written.file in
    record {
      in_heap =
          let h = sound.in_heap in
          let e = length-set o.sb.heap o.file.inode (grown o end) in omega arith;
      file =
          subst (λ (sb : SuperBlock). IsFile sb (inode_of_file o')) (sym written.super)
            (subst (IsFile (record o.sb { disk = o'.sb.disk; heap = heap })) (sym written.inode)
              file);
    }

-- Where a write starts: at the end of a file that was opened for appending, else at the offset.
abbrev pub start_of : Opened → ℕ → ℕ
start_of o off = if has_flag o.file.flags o_append then (inode_of_file o).i_size else off

-- How many bytes of a buffer there is no room for before the end of the file.
abbrev pub lacking : Opened → ℕ → ℕ → ℕ
lacking o start n = n - ((inode_of_file o).i_size - start)

pub avail_lem : (size start : ℕ) → start ≤ size → pos size -ℤ pos start ≡ pos (size - start)
avail_lem size start h = ground arith

pub lacking_lem : (n a : ℕ) → pos_part (pos n -ℤ pos a) ≡ n - a
lacking_lem n a = ground arith

-- write() up to its loop, by whether it appends, and by what the reservation says.
module _ (o : Opened) (off : ℕ) (buf : Bytes) (regular : is_dir (inode_of_file o).i_mode ≡ false)
    (writable : has_flag o.file.flags (bit_or o_wronly o_rdwr) ≡ true) where
  pub write_file-enough :
      (append : Bool) (start : ℕ)
      → has_flag o.file.flags o_append ≡ append
      → start ≡ (if append then (inode_of_file o).i_size else off)
      → ltb_ℤ (pos (inode_of_file o).i_size -ℤ pos start) (pos (length buf)) ≡ false
      → write_file buf (at_offset off o) ≡ write_bytes buf (at_offset start o)
  unfolding write_file
  write_file-enough true start mode e room =
      let room' = rw e at room in rw (regular, writable, mode, e) (rw room')
  write_file-enough false start mode e room = rw (regular, writable, mode) (rw (← e) (rw room))

  pub write_file-grown :
      (append : Bool) (start count : ℕ) {sb : SuperBlock}
      → has_flag o.file.flags o_append ≡ append
      → start ≡ (if append then (inode_of_file o).i_size else off)
      → ltb_ℤ (pos (inode_of_file o).i_size -ℤ pos start) (pos (length buf)) ≡ true
      → blocks_for (pos_part (pos (length buf) -ℤ (pos (inode_of_file o).i_size -ℤ pos start)))
        ≡ count
      → grow o.file.inode count o.sb ≡ (ok (pos 0), sb)
      → write_file buf (at_offset off o)
        ≡ write_bytes buf (record { sb = sb; file = (at_offset start o).file })
  unfolding write_file
  write_file-grown true start count mode e room need ran =
      let room' = rw e at room in
      let need' = rw e at need in rw (regular, writable, mode, e) (rw (room', need', ran))
  write_file-grown false start count mode e room need ran =
      rw (regular, writable, mode) (rw (← e) (rw (room, need, ran)))

  pub write_file-refused :
      (append : Bool) (start count : ℕ) {sb : SuperBlock}
      → has_flag o.file.flags o_append ≡ append
      → start ≡ (if append then (inode_of_file o).i_size else off)
      → ltb_ℤ (pos (inode_of_file o).i_size -ℤ pos start) (pos (length buf)) ≡ true
      → blocks_for (pos_part (pos (length buf) -ℤ (pos (inode_of_file o).i_size -ℤ pos start)))
        ≡ count
      → grow o.file.inode count o.sb ≡ (ok (minus enospc), sb)
      → write_file buf (at_offset off o)
        ≡ (ok (minus enospc), record { sb = sb; file = (at_offset start o).file })
  unfolding write_file
  write_file-refused true start count mode e room need ran =
      let room' = rw e at room in
      let need' = rw e at need in rw (regular, writable, mode, e) (rw (room', need', ran))
  write_file-refused false start count mode e room need ran =
      rw (regular, writable, mode) (rw (← e) (rw (room, need, ran)))
