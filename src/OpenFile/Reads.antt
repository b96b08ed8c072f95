-- ===== src/OpenFile/Reads.antt =====
-- What read() of linux/fs/file.py returns.
use slowfs.Prelude.{
  length, pos, ◌-ℤ◌, ℕ, zero, suc, ◌+◌, ◌-◌, ◌*◌, ◌/◌, ◌%◌, ◌≤◌, min, ◌≡◌, refl, sym, ap, ◌∙◌,
  subst, false, ◌++◌, append-nil, arith,
}
use slowfs.Exec.{ok}
use slowfs.Bytes.{zeros, read_at, length-read_at, read_at-add, read_at-zero, zeros-zero}
use slowfs.Bytes.Writes.{set_slice-fill}
use slowfs.Block.Sizes.{block_size}
use slowfs.Block.Driver.Reads.{get_slice_inside}
use slowfs.Block.Lists.{Blocks, AllOn, block_of_index}
use slowfs.Inode.Layout.{is_dir}
use slowfs.Errno.{o_wronly, has_flag}
use slowfs.Super.State.{SuperBlock}
use slowfs.OpenFile.{File, Opened, inode_of_file, got, read_loop, min_ℤ, read}
use slowfs.OpenFile.View.{view, read_at-view}

-- The file after its offset has moved.
abbrev pub at_offset : ℕ → Opened → Opened
at_offset off o = record o { file = record o.file { offset = pos off } }

at_zero : (n : ℕ) → n + 0 ≡ n
at_zero n = omega arith

-- Rounds enough for what is left to read fill the buffer with the bytes of the file.
read_loop_lem :
    (blocks : Blocks) (start : ℕ) (sb : SuperBlock) (file : File)
    → AllOn sb.disk blocks
    → (rounds left ptr off : ℕ) → left ≤ rounds
    → off ≡ start + ptr
    → off + left ≤ length blocks * block_size
    → read_loop rounds blocks left ptr
        (read_at (view sb.disk blocks) start ptr ++ zeros left)
        (record { sb = sb; file = record file { offset = pos off } })
      ≡ (
        ok (read_at (view sb.disk blocks) start (ptr + left)),
        record { sb = sb; file = record file { offset = pos (off + left) } },
      )
unfolding read_loop
read_loop_lem blocks start sb file on zero zero ptr off enough at fits =
    rw (at_zero ptr, at_zero off, zeros-zero, append-nil)
read_loop_lem blocks start sb file on zero (suc left) ptr off enough at fits = absurd (omega arith)
read_loop_lem blocks start sb file on (suc rounds) zero ptr off enough at fits =
    rw (at_zero ptr, at_zero off, zeros-zero, append-nil)
read_loop_lem blocks start sb file on (suc rounds) (suc left) ptr off enough at fits =
    let b : ℕ = off / block_size in
    let b_off : ℕ = off % block_size in
    let size : ℕ = min (block_size - b_off) (suc left) in
    let (entry, there, here) = block_of_index sb.disk blocks b on (omega arith) in
    let part =
      get_slice_inside entry.1 b_off (b_off + size) sb.disk here (omega arith) (omega arith)
        (omega arith) in
    let count : b_off + size - b_off ≡ size = omega arith in
    let seen = read_at-view sb.disk blocks b entry off size there refl (omega arith) in
    let filled =
      set_slice-fill (read_at (view sb.disk blocks) start ptr)
        (read_at (view sb.disk blocks) off size) ptr (ptr + size) (suc left) size
        (length-read_at (view sb.disk blocks) start ptr)
        (length-read_at (view sb.disk blocks) off size) refl in
    let joined : read_at (view sb.disk blocks) start ptr ++ read_at (view sb.disk blocks) off size
        ≡ read_at (view sb.disk blocks) start (ptr + size) =
      ap
        (λ (p : ℕ). read_at (view sb.disk blocks) start ptr ++ read_at (view sb.disk blocks) p size)
        at
      ∙ read_at-add (view sb.disk blocks) start ptr size (ptr + size) refl in
    let ih =
      read_loop_lem blocks start sb file on rounds (suc left - size) (ptr + size) (off + size)
        (omega arith) (omega arith) (omega arith) in
    let e₁ : ptr + size + (suc left - size) ≡ ptr + suc left = omega arith in
    let e₂ : off + size + (suc left - size) ≡ off + suc left = omega arith in
    rw (there, part, count, seen, filled, joined) (rw (e₁, e₂) at ih)

-- What is there behind the offset, or what is asked for, if that is less.
amount_lem :
    (size off count : ℕ)
    → off ≤ size
    → min_ℤ (pos size -ℤ pos off) (pos count) ≡ pos (min (size - off) count)
amount_lem size off count h = ground arith

pub at_offset_self : (off : ℕ) (o : Opened) → o.file.offset ≡ pos off → o ≡ at_offset off o
at_offset_self off o at = λ i. record o { file = record o.file { offset = at i } }

-- A regular file that is open for reading, whose blocks are all on the disk and hold its size, at an
-- offset up to its size: read(count) with count of 0 or more returns the bytes of the file from the offset on, as
-- many as are asked for and there are, and moves the offset behind them. The superblock, the disk
-- and the inode stay as they are.
pub read_lem :
    (o : Opened) (off count : ℕ)
    → let inode = inode_of_file o in
      is_dir inode.i_mode ≡ false
      → has_flag o.file.flags o_wronly ≡ false
      → o.file.offset ≡ pos off
      → off ≤ inode.i_size
      → inode.i_size ≤ length inode.blocks * block_size
      → AllOn o.sb.disk inode.blocks
      → let n = min (inode.i_size - off) count in
        read (pos count) o
        ≡ (ok (got (read_at (view o.sb.disk inode.blocks) off n)), at_offset (off + n) o)
unfolding read
read_lem o off count regular readable at inside holds on =
    let n : ℕ = min ((inode_of_file o).i_size - off) count in
    let blocks = (inode_of_file o).blocks in
    let loop =
      read_loop_lem blocks off o.sb o.file on n n 0 off (omega arith) (omega arith) (omega arith) in
    let none_left : 0 + n ≡ n = omega arith in
    let filled : read_loop n blocks n 0 (zeros n) (at_offset off o)
        ≡ (ok (read_at (view o.sb.disk blocks) off n), at_offset (off + n) o) =
      rw (read_at-zero, none_left) at loop in
    subst
      (λ (x : Opened).
        read (pos count) x
        ≡ (ok (got (read_at (view o.sb.disk blocks) off n)), at_offset (off + n) o))
      (sym (at_offset_self off o at))
      (rw (regular, readable, amount_lem (inode_of_file o).i_size off count inside) (rw filled))
