-- ===== src/OpenFile/Negative.antt =====
-- A read from a negative offset (linux/fs/file.py), which seek() accepts: its blocks are taken from the end
-- of the inode's list.
use slowfs.Prelude.{
  ltb, lt→ltb, le_or_lt, length, pos, negsuc, ◌-ℤ◌, ltb_ℤ, add_ℕ, ℕ, zero, suc, ◌+◌, ◌-◌, ◌*◌, ◌/◌,
  ◌%◌, ◌≤◌, min, ◌≡◌, refl, sym, ap, ◌∙◌, inl, inr, true, false, ◌++◌, append-nil, arith,
}
use slowfs.Exec.{Result, ok, raised, pure, resume, ◌>>◌, ok-injective}
use slowfs.Bytes.{Bytes, zeros, read_at, length-read_at, read_at-add, read_at-zero, zeros-zero}
use slowfs.Bytes.Writes.{set_slice-fill}
use slowfs.Block.Sizes.{block_size}
use slowfs.Block.Driver.Reads.{base_of, get_slice_inside}
use slowfs.Block.Lists.{Blocks, AllOn, block_of_index}
use slowfs.Inode.Layout.{is_dir}
use slowfs.Errno.{o_wronly, has_flag}
use slowfs.Super.State.{SuperBlock}
use slowfs.OpenFile.{File, Opened, inode_of_file, seek, got, read_loop, min_ℤ, read}
use slowfs.OpenFile.View.{view, read_at-view}

read_loop-done :
    (rounds : ℕ) (blocks : Blocks) (ptr : ℕ) (buf : Bytes) (o : Opened)
    → read_loop rounds blocks 0 ptr buf o ≡ (ok buf, o)
unfolding read_loop
read_loop-done zero blocks ptr buf o = refl
read_loop-done (suc rounds) blocks ptr buf o = refl

sub_negative : (n m : ℕ) → n ≤ m → add_ℕ (negsuc m) n ≡ negsuc (m - n)
sub_negative n m le = ground arith

read_loop_negative :
    (blocks : Blocks) (start : ℕ) (sb : SuperBlock) (file : File)
    → AllOn sb.disk blocks
    → (rounds left ptr m : ℕ) → left ≤ rounds
    → start + ptr + suc m ≡ length blocks * block_size
    → left ≤ suc m
    → (read_loop rounds blocks left ptr
        (read_at (view sb.disk blocks) start ptr ++ zeros left)
        (record { sb = sb; file = record file { offset = negsuc m } })).0
      ≡ ok (read_at (view sb.disk blocks) start (ptr + left))
unfolding read_loop
read_loop_negative blocks start sb file on zero zero ptr m enough at fits =
    let same : ptr + 0 ≡ ptr = omega arith in rw (same, zeros-zero, append-nil)
read_loop_negative blocks start sb file on zero (suc left) ptr m enough at fits =
    absurd (omega arith)
read_loop_negative blocks start sb file on (suc rounds) zero ptr m enough at fits =
    let same : ptr + 0 ≡ ptr = omega arith in rw (same, zeros-zero, append-nil)
read_loop_negative blocks start sb file on (suc rounds) (suc left) ptr m enough at fits =
    let off : ℕ = start + ptr in
    let b : ℕ = length blocks - suc (m / block_size) in
    let b_off : ℕ = block_size - 1 - m % block_size in
    let size : ℕ = min (block_size - b_off) (suc left) in
    let known : ltb (m / block_size) (length blocks) ≡ true = lt→ltb _ _ (omega arith) in
    let (entry, there, here) = block_of_index sb.disk blocks b on (omega arith) in
    let part =
      get_slice_inside entry.1 b_off (b_off + size) sb.disk here (omega arith) (omega arith)
        (omega arith) in
    let count : b_off + size - b_off ≡ size = omega arith in
    let same_off : off % block_size ≡ b_off = omega arith in
    let in_block : off / block_size ≡ b = omega arith in
    let seen : read_at sb.disk.storage (base_of entry.1 + b_off) size
        ≡ read_at (view sb.disk blocks) off size =
      ap (λ (k : ℕ). read_at sb.disk.storage (base_of entry.1 + k) size) (sym same_off)
      ∙ read_at-view sb.disk blocks b entry off size there in_block (omega arith) in
    let filled =
      set_slice-fill (read_at (view sb.disk blocks) start ptr)
        (read_at (view sb.disk blocks) off size) ptr (ptr + size) (suc left) size
        (length-read_at (view sb.disk blocks) start ptr)
        (length-read_at (view sb.disk blocks) off size) refl in
    let joined = read_at-add (view sb.disk blocks) start ptr size (ptr + size) refl in
    rw (known, there, part, count, seen, filled, joined)
      (elim (le_or_lt (suc left) size) [
        | inl last ↦
            let gone : suc left - size ≡ 0 = omega arith in
            let all : ptr + size ≡ ptr + suc left = omega arith in
            rw (gone, zeros-zero, append-nil, all)
              (ap (λ (r : Result Bytes × Opened). r.0) (read_loop-done rounds blocks _ _ _))
        | inr more ↦
            let moved = sub_negative size m (omega arith) in
            let ih =
              read_loop_negative blocks start sb file on rounds (suc left - size) (ptr + size)
                (m - size) (omega arith) (omega arith) (omega arith) in
            let all : ptr + size + (suc left - size) ≡ ptr + suc left = omega arith in
            rw moved (rw all at ih)
      ])

-- What seek() does with a negative offset.
seek_negative :
    (o : Opened) (n : ℕ)
    → is_dir (inode_of_file o).i_mode ≡ false
    → seek (negsuc n) o ≡ (ok (negsuc n), record o { file = record o.file { offset = negsuc n } })
unfolding seek
seek_negative o n regular =
    let test : ltb_ℤ (pos (inode_of_file o).i_size) (negsuc n) ≡ false = ground arith in
    rw (regular, test)

amount_negative :
    (size n count : ℕ) → count ≤ suc n → min_ℤ (pos size -ℤ negsuc n) (pos count) ≡ pos count
amount_negative size n count h = ground arith

returned_bytes :
    (p : Result Bytes × Opened) {bs : Bytes}
    → p.0 ≡ ok bs
    → (resume p.0 (λ buf. pure (got buf)) p.1).0 ≡ ok (got bs)
returned_bytes (ok buf, o) e = ap (λ (xs : Bytes). ok (got xs)) (ok-injective e)
returned_bytes (raised x, o) e = cc

-- A negative offset is taken by seek(), and counts from the end of the last block, not of the file: on a
-- regular file that is open for reading and whose blocks are all on the disk, seek() to -d and then
-- read() of at most d bytes, where d is at least 1 and at most the bytes that the blocks have,
-- returns as many bytes as were asked for, those of the blocks, laid out one behind the other, from
-- d bytes before their end on.
pub seek-read_negative :
    (o : Opened) (n count : ℕ)
    → let blocks = (inode_of_file o).blocks in
      is_dir (inode_of_file o).i_mode ≡ false
      → has_flag o.file.flags o_wronly ≡ false
      → AllOn o.sb.disk blocks
      → suc n ≤ length blocks * block_size
      → count ≤ suc n
      → (◌>>◌ (seek (negsuc n)) (read (pos count)) o).0
        ≡ ok (got (read_at (view o.sb.disk blocks) (length blocks * block_size - suc n) count))
unfolding read
seek-read_negative o n count regular readable on inside few =
    let blocks = (inode_of_file o).blocks in
    let start : ℕ = length blocks * block_size - suc n in
    let o' : Opened = record o { file = record o.file { offset = negsuc n } } in
    let loop =
      read_loop_negative blocks start o.sb o.file on count count 0 n (omega arith) (omega arith)
        few in
    let filled : (read_loop count blocks count 0 (zeros count) o').0
        ≡ ok (read_at (view o.sb.disk blocks) start count) =
      let none_left : 0 + count ≡ count = omega arith in rw (read_at-zero, none_left) at loop in
    let amount = amount_negative (inode_of_file o).i_size n count few in
    rw (seek_negative o n regular, regular, readable, amount)
      (returned_bytes (read_loop count blocks count 0 (zeros count) o') filled)
