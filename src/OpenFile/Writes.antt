-- ===== src/OpenFile/Writes.antt =====
-- What the loop of write() (linux/fs/file.py) does to the file and to the rest of the disk.
use slowfs.Prelude.{
  leb, leb→le, Bool-cases, length, get_elem?, drop, ℤ, pos, ℕ, zero, suc, ◌+◌, ◌-◌, ◌*◌, ◌/◌, ◌%◌,
  ◌≤◌, ◌<◌, min, ◌≡◌, refl, sym, ap, ◌∙◌, subst, inl, inr, some, [], ◌++◌, append-nil, arith,
}
use slowfs.Exec.{ok}
use slowfs.Bytes.{Bytes, slice, RawFile, write_at, length-slice, slice-append-drop, drop_all}
use slowfs.Bytes.Writes.{write_at-nil, write_at-append}
use slowfs.Block.Sizes.{block_size}
use slowfs.Block.Device.{Disk}
use slowfs.Block.Driver.{Block}
use slowfs.Block.Driver.Reads.{base_of}
use slowfs.Block.Driver.Writes.{written, write_lem}
use slowfs.Block.Lists.{
  Blocks, AllOn, block_of_index, PairwiseApart, IsOutside, IsOutside-index, AllOn-size,
}
use slowfs.Super.State.{SuperBlock, inode_at}
use slowfs.OpenFile.{File, Opened, write_loop}
use slowfs.OpenFile.View.{view, view-written}

-- The disk `after` holds the file with the bytes written at the offset; it has the size of the
-- disk `before`, and its bytes everywhere else.
pub record Wrote (before : Disk) (blocks : Blocks) (off : ℕ) (bs : Bytes) (after : Disk)
    : Type 0 where
  pub same_size : after.num_sectors ≡ before.num_sectors
  pub content : view after blocks ≡ write_at (view before blocks) off bs
  pub frame : (p : ℕ) → IsOutside blocks p → after.storage p ≡ before.storage p

-- One block is written.
Wrote-block :
    (disk : Disk) (blocks : Blocks) (off : ℕ) (entry : ℤ × Block) (bs : Bytes)
    → PairwiseApart blocks
    → get_elem? blocks (off / block_size) ≡ some entry
    → off % block_size + length bs ≤ block_size
    → Wrote disk blocks off bs (written disk (base_of entry.1 + off % block_size) bs)
unfolding write_at
Wrote-block disk blocks off entry bs apart there fits = record {
  same_size = refl;
  content = view-written disk blocks (off / block_size) off entry bs apart there refl fits;
  frame = λ p out. let away = IsOutside-index blocks (off / block_size) p out there in ground arith;
}

-- Nothing is written.
Wrote-nil : (disk : Disk) (blocks : Blocks) (off : ℕ) → Wrote disk blocks off [] disk
Wrote-nil disk blocks off = record {
  same_size = refl;
  content = sym (write_at-nil (view disk blocks) off);
  frame = λ p out. refl;
}

-- Two adjacent parts are written one after the other.
Wrote-append :
    (a b c : Disk) (blocks : Blocks) (off off' : ℕ) (us vs : Bytes)
    → off' ≡ off + length us
    → Wrote a blocks off us b
    → Wrote b blocks off' vs c
    → Wrote a blocks off (us ++ vs) c
Wrote-append a b c blocks off off' us vs e first second = record {
  same_size = second.same_size ∙ first.same_size;
  content =
      second.content
      ∙ ap (λ (f : RawFile). write_at f off' vs) first.content
      ∙ write_at-append (view a blocks) off us vs off' e;
  frame = λ p out. second.frame p out ∙ first.frame p out;
}

-- A superblock over another disk, and a file at another offset.
abbrev pub moved : SuperBlock → File → Disk → ℕ → Opened
moved sb file disk off = record {
  sb = record sb { disk = disk };
  file = record file { offset = pos off };
}

-- What is left of the buffer goes to the file at its offset.
pub write_loop_lem :
    (buf : Bytes) (sb : SuperBlock) (file : File) (rounds b offset ptr off : ℕ) (disk : Disk)
    → let blocks = (inode_at sb file.inode).blocks in
      AllOn disk blocks
      → PairwiseApart blocks
      → rounds ≡ length blocks - b
      → b * block_size + offset ≡ off + ptr
      → offset < block_size
      → ptr ≤ length buf
      → off + length buf ≤ length blocks * block_size
      → (after : Disk) × (write_loop buf rounds (pos b) offset ptr (moved sb file disk (off + ptr))
          ≡ (ok tt, moved sb file after (off + length buf)))
        × Wrote disk blocks (off + ptr) (drop ptr buf) after
unfolding write_loop
write_loop_lem buf sb file zero b offset ptr off disk on apart enough at small le fits =
    let blocks = (inode_at sb file.inode).blocks in
    let end : off + ptr ≡ off + length buf = omega arith in
    let none_left = drop_all ptr buf (omega arith) in
    (disk, rw end, rw none_left (Wrote-nil disk blocks (off + ptr)))
write_loop_lem buf sb file (suc rounds) b offset ptr off disk on apart enough at small le fits =
    let blocks = (inode_at sb file.inode).blocks in
    let size : ℕ = min (block_size - offset) (length buf - ptr) in
    let part : Bytes = slice ptr (ptr + size) buf in
    let (entry, there, here) = block_of_index disk blocks b on (omega arith) in
    let part_len : length part ≡ size =
      length-slice ptr (ptr + size) buf (omega arith) ∙ omega arith in
    let b_of : (off + ptr) / block_size ≡ b = omega arith in
    let offset_of : (off + ptr) % block_size ≡ offset = omega arith in
    let after : Disk = written disk (base_of entry.1 + offset) part in
    let stored = write_lem entry.1 offset part disk here (omega (arith, part_len)) in
    let wrote : Wrote disk blocks (off + ptr) part after = rw offset_of at (
      Wrote-block disk blocks (off + ptr) entry part apart (rw b_of there)
        (omega (arith, part_len))) in
    let next : off + ptr + size ≡ off + (ptr + size) = omega arith in
    let all = slice-append-drop ptr size buf in
    elim (Bool-cases (leb (length buf) (ptr + size))) [
      | inl done ↦
          let end : off + (ptr + size) ≡ off + length buf =
            let d = leb→le _ _ done in omega arith in
          let none_left = drop_all (ptr + size) buf (leb→le _ _ done) in
          let last : part ≡ drop ptr buf = rw (none_left, append-nil) at all in
          (
            after,
            rw (there, stored, next, done, end),
            subst (λ (v : Bytes). Wrote disk blocks (off + ptr) v after) last wrote,
          )
      | inr more ↦
          let left : ptr + size < length buf = ground arith in
          let whole_rest : size ≡ block_size - offset = omega arith in
          let (final, ran, wrote') =
            write_loop_lem buf sb file rounds (b + 1) 0 (ptr + size) off after
              (AllOn-size disk after blocks refl on) apart (omega arith) (omega arith) (omega arith)
              (omega arith) fits in
          (
            final,
            rw (there, stored, next, more) ran,
            subst (λ (v : Bytes). Wrote disk blocks (off + ptr) v final) all
                (Wrote-append disk after final blocks (off + ptr) (off + (ptr + size)) part
                  (drop (ptr + size) buf) (omega (arith, part_len)) wrote wrote'),
          )
    ]
