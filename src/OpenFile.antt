-- ===== src/OpenFile.antt =====
-- `File` of linux/fs/file.py: an open file with its offset, over the superblock of its inode.
pub mod View
pub mod Loop
pub mod Reads
pub mod Negative
pub mod Writes
pub mod InPlace
pub mod RoundTrip
pub mod Sound
pub mod Zeros
pub mod Growth
pub mod Extend
pub mod Total
pub mod ReadBack
use slowfs.Prelude.{
  leb, if◌then◌else◌, length, ℤ, pos, negsuc, pos_part, ◌-ℤ◌, ltb_ℤ, py_get, floor_div, floor_mod,
  add_ℕ, ℕ, zero, suc, ◌+◌, ◌-◌, ◌/◌, min, max, bit_or, not, List,
}
use slowfs.Exec.{value_error, index_error, ok, Exec, pure, raise, gets, or_raise, ◌>>=◌, ◌>>◌}
use slowfs.Bytes.{Bytes, slice, set_slice, zeros}
use slowfs.Block.Sizes.{block_size}
use slowfs.Block.Driver.{Block, get_slice, from_to, write}
use slowfs.Inode.Layout.{is_dir}
use slowfs.Inode.Object.{Inode}
use slowfs.Errno.{enxio, ebadf, eisdir, minus, o_wronly, o_rdwr, o_append, has_flag}
use slowfs.Super.State.{SuperBlock, on_disk, inode_at, put_inode}
use slowfs.Super.Store.{write_inode}
use slowfs.Directory.Grow.{grow}

-- `inode` refers to the inode object in that superblock.
pub record File : Type 0 where
  pub inode : ℕ
  pub offset : ℤ
  pub flags : ℕ

pub record Opened : Type 0 where
  pub sb : SuperBlock
  pub file : File

-- File(inode, flags=flags)
unfoldable pub new_file : ℕ → ℕ → File
new_file ref flags = record { inode = ref; offset = pos 0; flags = flags }

abbrev pub on_super : {A : Type 0} → Exec SuperBlock A → Exec Opened A
on_super m o = let (r, sb) = m o.sb in (r, record o { sb = sb })

abbrev pub set_offset : ℤ → Exec Opened (Unit {0})
set_offset offset o = (ok tt, record o { file = record o.file { offset = offset } })

-- The inode object that the file refers to.
abbrev pub inode_of_file : Opened → Inode
inode_of_file o = inode_at o.sb o.file.inode

-- The new offset, or the negated number of an error.
unfoldable pub seek : ℤ → Exec Opened ℤ
seek offset = do
  inode ← gets inode_of_file
  if is_dir inode.i_mode
      then pure (minus eisdir)
      else if ltb_ℤ (pos inode.i_size) offset
      then pure (minus enxio)
      else do set_offset offset; pure offset

-- What read() returns: bytes, or the negated number of an error.
pub data Reply : Type 0 where
  got : Bytes → Reply
  failed : ℤ → Reply

-- The loop of read(). A round reads at least one byte, so that `to_read` rounds are enough.
unfoldable pub read_loop : ℕ → List (ℤ × Block) → ℕ → ℕ → Bytes → Exec Opened Bytes
read_loop zero blocks to_read ptr_buf buf = pure buf
read_loop (suc rounds) blocks zero ptr_buf buf = pure buf
read_loop (suc rounds) blocks (suc left) ptr_buf buf = do
  offset ← gets (λ o. o.file.offset)
  let b_offset = floor_mod offset block_size
  entry ← or_raise (py_get blocks (floor_div offset block_size)) index_error
  let size = min (block_size - b_offset) (suc left)
  part ← on_super (on_disk (get_slice entry.1 (from_to b_offset (b_offset + size))))
  set_offset (add_ℕ offset size)
  read_loop rounds blocks (suc left - size) (ptr_buf + size)
      (set_slice ptr_buf (ptr_buf + size) part buf)

-- min(a, b)
abbrev pub min_ℤ : ℤ → ℤ → ℤ
min_ℤ a b = if ltb_ℤ b a then b else a

-- bytearray(to_read) of a negative number is a ValueError.
unfoldable pub read_count : List (ℤ × Block) → ℤ → Exec Opened Reply
read_count blocks (negsuc _) = raise value_error
read_count blocks (pos to_read) = do
  buf ← read_loop to_read blocks to_read 0 (zeros to_read)
  pure (got buf)

unfoldable pub read : ℤ → Exec Opened Reply
unfolding read_count read_loop
read count = do
  inode ← gets inode_of_file
  flags ← gets (λ o. o.file.flags)
  if is_dir inode.i_mode
      then pure (failed (minus eisdir))
      else if has_flag flags o_wronly
      then pure (failed (minus ebadf))
      else do
        offset ← gets (λ o. o.file.offset)
        read_count inode.blocks (min_ℤ (pos inode.i_size -ℤ offset) count)

-- math.ceil(x / BLOCK_SIZE), where the division of floats is exact.
abbrev pub blocks_for : ℕ → ℕ
blocks_for x = (x + (block_size - 1)) / block_size

-- The loop of write() over the blocks from `i` on, of which `rounds` are left.
unfoldable pub write_loop : Bytes → ℕ → ℤ → ℕ → ℕ → Exec Opened (Unit {0})
write_loop buf zero i offset ptr_buf = pure tt
write_loop buf (suc rounds) i offset ptr_buf = do
  inode ← gets inode_of_file
  entry ← or_raise (py_get inode.blocks i) index_error
  let to_write = min (block_size - offset) (length buf - ptr_buf)
  on_super (on_disk (write entry.1 offset (slice ptr_buf (ptr_buf + to_write) buf)))
  at ← gets (λ o. o.file.offset)
  set_offset (add_ℕ at to_write)
  let rest = write_loop buf rounds (add_ℕ i 1) 0 (ptr_buf + to_write)
  if leb (length buf) (ptr_buf + to_write) then pure tt else rest

-- `range(b, len(blocks))` has this many rounds.
abbrev pub rounds_from : ℤ → ℕ → ℕ
rounds_from b n = pos_part (pos n -ℤ b)

-- max(i_size, offset)
abbrev pub max_size : ℕ → ℤ → ℕ
max_size size offset = max size (pos_part offset)

-- `if n > avail`: the blocks for what the inode has no room for.
unfoldable pub reserve : ℕ → ℤ → Exec Opened ℤ
reserve n avail = do
  ref ← gets (λ o. o.file.inode)
  if ltb_ℤ avail (pos n)
      then on_super (grow ref (blocks_for (pos_part (pos n -ℤ avail))))
      else pure (pos 0)

-- What write() does behind its loop: the size and the inode.
unfoldable pub finish_write : Bytes → Exec Opened ℤ
finish_write buf = do
  ref ← gets (λ o. o.file.inode)
  self ← gets inode_of_file
  end ← gets (λ o. o.file.offset)
  on_super (put_inode ref (record self { i_size = max_size self.i_size end }))
  changed ← gets inode_of_file
  on_super (write_inode changed)
  pure (pos (length buf))

-- What write() does behind the reservation.
unfoldable pub write_bytes : Bytes → Exec Opened ℤ
unfolding write_loop finish_write
write_bytes buf = do
  inode ← gets inode_of_file
  start ← gets (λ o. o.file.offset)
  let b = floor_div start block_size
  write_loop buf (rounds_from b (length inode.blocks)) b (floor_mod start block_size) 0
  finish_write buf

unfoldable pub after_reserve : ℤ → Bytes → Exec Opened ℤ
unfolding write_bytes
after_reserve (pos zero) buf = write_bytes buf
after_reserve err buf = pure err

-- The number of bytes written, or the negated number of an error. (File.write)
unfoldable pub write_file : Bytes → Exec Opened ℤ
unfolding after_reserve reserve
write_file buf = do
  inode ← gets inode_of_file
  flags ← gets (λ o. o.file.flags)
  if is_dir inode.i_mode
      then pure (minus eisdir)
      else if not (has_flag flags (bit_or o_wronly o_rdwr))
      then pure (minus ebadf)
      else do
        (if has_flag flags o_append then set_offset (pos inode.i_size) else pure tt)
        offset ← gets (λ o. o.file.offset)
        err ← reserve (length buf) (pos inode.i_size -ℤ offset)
        after_reserve err buf

unfoldable pub flush : Exec Opened ℤ
flush = pure (pos 0)

unfoldable pub open_method : Exec Opened ℤ
open_method = pure (pos 0)
