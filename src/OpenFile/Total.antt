-- ===== src/OpenFile/Total.antt =====
-- What `File.write` of linux/fs/file.py does to a sound file that is open for writing.
use slowfs.Prelude.{
  if◌then◌else◌, Bool-cases, length-append, length, get_elem?, ℤ, pos, pos_part, ◌-ℤ◌, ltb_ℤ, ℕ,
  ◌+◌, ◌-◌, ◌*◌, ◌/◌, ◌≤◌, ◌<◌, max, bit_or, ◌≡◌, refl, sym, ap, ◌∙◌, subst, ◌⊎◌, inl, inr, Bool,
  true, false, some, List, [], ◌∷◌, ◌++◌, append-nil, arith,
}
use slowfs.Exec.{Result, ok}
use slowfs.Bytes.{Bytes, RawFile, write_at}
use slowfs.Block.Sizes.{block_size}
use slowfs.Block.Driver.{Block}
use slowfs.Block.Driver.Writes.{written}
use slowfs.Block.Lists.{Blocks, IsOutside}
use slowfs.Bitmap.{BitMap}
use slowfs.Bitmap.Bits.{has}
use slowfs.Inode.Layout.{inodes_per_block, is_dir}
use slowfs.Inode.Object.{Inode}
use slowfs.Errno.{enospc, minus, o_wronly, o_rdwr, o_append, has_flag}
use slowfs.Super.Store.{read_inode_from_disk}
use slowfs.OpenFile.{File, Opened, inode_of_file, blocks_for, write_file}
use slowfs.OpenFile.View.{view}
use slowfs.OpenFile.Reads.{at_offset, at_offset_self}
use slowfs.OpenFile.InPlace.{IsOutsideSlot, IsWritten, write_bytes_lem}
use slowfs.OpenFile.Sound.{IsSound, IsSound-IsReady}
use slowfs.OpenFile.Growth.{extended, Grown, LacksRoom, NoRoom, grow_lem}
use slowfs.OpenFile.Extend.{
  IsWritten-IsSound, start_of, lacking, avail_lem, lacking_lem, write_file-enough, write_file-grown,
  write_file-refused,
}

-- All is written: the file holds the bytes at the start and its other bytes as before, the offset
-- is behind them; the inode has its new size, and blocks behind those it had where it needed them, as many
-- as hold what goes behind its old size, in memory and in its slot on the disk; no byte of the disk
-- outside the file's blocks and the slot has changed; and the file is sound.
pub record Stored (o : Opened) (start : ℕ) (buf : Bytes) (result : Result ℤ × Opened) : Type 0 where
  pub after : Opened
  pub more : Blocks
  pub ran : result ≡ (ok (pos (length buf)), after)
  pub file : after.file ≡ record o.file { offset = pos (start + length buf) }
  pub inode : inode_of_file after ≡ record (inode_of_file o) {
    i_size = max (inode_of_file o).i_size (start + length buf);
    blocks = (inode_of_file o).blocks ++ more;
  }
  pub grown_by : length more ≡ blocks_for (lacking o start (length buf))
  pub content :
      view after.sb.disk (inode_of_file after).blocks
      ≡ write_at (view o.sb.disk (inode_of_file o).blocks) start buf
  pub on_disk : (read_inode_from_disk (inode_of_file o).i_ino after.sb).0 ≡ ok (inode_of_file after)
  pub frame :
      (slot : Block)
      → get_elem? o.sb.izone ((inode_of_file o).i_ino / inodes_per_block) ≡ some slot
      → (p : ℕ) → IsOutside (inode_of_file after).blocks p
      → IsOutsideSlot slot (inode_of_file o).i_ino p
      → after.sb.disk.storage p ≡ o.sb.disk.storage p
  pub sound : IsSound after

-- Nothing of the `n` bytes is written, for want of blocks: the disk, the inode and the members of the data bitmap are
-- as before, and the offset is where the write would have started.
pub record Unstored (o : Opened) (start n : ℕ) (result : Result ℤ × Opened) : Type 0 where
  pub cause : LacksRoom o (blocks_for (lacking o start n))
  pub map : BitMap
  pub ran : result ≡ (
    ok (minus enospc),
    record { sb = record o.sb { dmap = map }; file = record o.file { offset = pos start } },
  )
  pub same_members : (k : ℕ) → has map k ≡ has o.sb.dmap k

-- What is outside of two lists of blocks is outside of the second.
IsOutside-append : (xs ys : Blocks) (p : ℕ) → IsOutside (xs ++ ys) p → IsOutside ys p
IsOutside-append [] ys p out = out
IsOutside-append (x ∷ xs) ys p out = IsOutside-append xs ys p out.1

-- A write within the blocks of the file that comes first, if need be, by some more.
IsWritten-Stored :
    (o : Opened) (start : ℕ) (buf : Bytes) (o₁ : Opened) (more : Blocks) (after : Opened)
    (result : Result ℤ × Opened)
    → IsSound o₁
    → o₁.file ≡ record o.file { offset = pos start }
    → inode_of_file o₁ ≡ record (inode_of_file o) { blocks = (inode_of_file o).blocks ++ more }
    → view o₁.sb.disk (inode_of_file o₁).blocks ≡ view o.sb.disk (inode_of_file o).blocks
    → start + length buf ≤ length (inode_of_file o₁).blocks * block_size
    → result ≡ (ok (pos (length buf)), after)
    → IsWritten o₁ start buf after
    → o₁.sb.izone ≡ o.sb.izone
    → ((p : ℕ) → IsOutside (inode_of_file o₁).blocks p → o₁.sb.disk.storage p ≡ o.sb.disk.storage p)
    → length more ≡ blocks_for (lacking o start (length buf))
    → Stored o start buf result
IsWritten-Stored o start buf o₁ more after result sound file inode content inside ran written zone
      frame count =
    let blocks = ap (λ (i : Inode). i.blocks) written.inode in
    let ino = ap (λ (i : Inode). i.i_ino) inode in
    record {
      after = after;
      more = more;
      ran = ran;
      file = written.file ∙ ap (λ (f : File). record f { offset = pos (start + length buf) }) file;
      inode =
          written.inode
          ∙ ap (λ (i : Inode). record i { i_size = max i.i_size (start + length buf) }) inode;
      grown_by = count;
      content =
          ap (view after.sb.disk) blocks
          ∙ written.content
          ∙ ap (λ (f : RawFile). write_at f start buf) content;
      on_disk = sym (ap (λ (n : ℕ). (read_inode_from_disk n after.sb).0) ino) ∙ written.stored;
      frame = λ slot there p out away.
          let out' = subst (λ (bs : Blocks). IsOutside bs p) blocks out in
          let there' =
            ap (λ (n : ℕ). get_elem? o₁.sb.izone (n / inodes_per_block)) ino
            ∙ ap (λ (z : List Block). get_elem? z ((inode_of_file o).i_ino / inodes_per_block)) zone
            ∙ there in
          let away' = subst (λ (n : ℕ). IsOutsideSlot slot n p) (sym ino) away in
          written.frame slot there' p out' away' ∙ frame p out';
      sound = IsWritten-IsSound o₁ start buf after sound inside written;
    }

module _ (o : Opened) (off : ℕ) (buf : Bytes) (regular : is_dir (inode_of_file o).i_mode ≡ false)
    (writable : has_flag o.file.flags (bit_or o_wronly o_rdwr) ≡ true) (sound : IsSound o) where
  Stored-in_place :
      start_of o off + length buf ≤ (inode_of_file o).i_size
      → ltb_ℤ (pos (inode_of_file o).i_size -ℤ pos (start_of o off)) (pos (length buf)) ≡ false
      → Stored o (start_of o off) buf (write_file buf (at_offset off o))
  Stored-in_place inside room =
      let start : ℕ = start_of o off in
      let o₁ = at_offset start o in
      let holds = sound.file.holds in
      let sound₁ : IsSound o₁ = record { in_heap = sound.in_heap; file = sound.file } in
      let (after, ran, written) = write_bytes_lem o₁ start buf refl (omega arith) (
        IsSound-IsReady o₁ (max (inode_of_file o).i_size (start + length buf)) sound₁
          (omega arith)) in
      IsWritten-Stored o start buf o₁ [] after (write_file buf (at_offset off o)) sound₁ refl
        (rw append-nil) refl (omega arith)
        (write_file-enough o off buf regular writable (has_flag o.file.flags o_append) start refl
            refl room
          ∙ ran)
        written refl (λ p out. refl) (omega arith)

  Stored-extended :
      (count : ℕ)
      → start_of o off ≤ (inode_of_file o).i_size
      → ltb_ℤ (pos (inode_of_file o).i_size -ℤ pos (start_of o off)) (pos (length buf)) ≡ true
      → blocks_for
          (pos_part (pos (length buf) -ℤ (pos (inode_of_file o).i_size -ℤ pos (start_of o off))))
        ≡ count
      → blocks_for (lacking o (start_of o off) (length buf)) ≡ count
      → Grown o count
      → Stored o (start_of o off) buf (write_file buf (at_offset off o))
  Stored-extended count inside room need by g =
      let start : ℕ = start_of o off in
      let enough : lacking o start (length buf) ≤ count * block_size = omega arith in
      let longer = extended o g.taken g.map g.disk in
      let o₁ = at_offset start longer in
      let holds = sound.file.holds in
      let all = g.all in
      let sum = length-append (inode_of_file o).blocks g.taken in
      let blocks = ap (λ (i : Inode). i.blocks) g.inode in
      let size = ap (λ (i : Inode). i.i_size) g.inode in
      let len = ap (λ (bs : Blocks). length bs) blocks in
      let sound₁ : IsSound o₁ = record { in_heap = g.sound.in_heap; file = g.sound.file } in
      let (after, ran, written) = write_bytes_lem o₁ start buf refl (omega arith) (
        IsSound-IsReady o₁ (max (inode_of_file o₁).i_size (start + length buf)) sound₁
          (omega arith)) in
      IsWritten-Stored o start buf o₁ g.taken after (write_file buf (at_offset off o)) sound₁ refl
        g.inode (ap (view g.disk) blocks ∙ g.content) (omega arith)
        (write_file-grown o off buf regular writable (has_flag o.file.flags o_append) start count
            refl refl room need g.ran
          ∙ ran)
        written refl
        (λ p out. g.frame p (
          IsOutside-append (inode_of_file o).blocks g.taken p
            (subst (λ (bs : Blocks). IsOutside bs p) blocks out)))
        (all ∙ sym by)

  unstored :
      (count : ℕ)
      → ltb_ℤ (pos (inode_of_file o).i_size -ℤ pos (start_of o off)) (pos (length buf)) ≡ true
      → blocks_for
          (pos_part (pos (length buf) -ℤ (pos (inode_of_file o).i_size -ℤ pos (start_of o off))))
        ≡ count
      → blocks_for (lacking o (start_of o off) (length buf)) ≡ count
      → NoRoom o count
      → Unstored o (start_of o off) (length buf) (write_file buf (at_offset off o))
  unstored count room need by g = record {
    cause = subst (LacksRoom o) (sym by) g.cause;
    map = g.map;
    ran =
        write_file-refused o off buf regular writable (has_flag o.file.flags o_append)
          (start_of o off) count refl refl room need g.ran;
    same_members = g.same_members;
  }

-- write() on a sound regular file that is open for writing, at an offset up to its size, either
-- writes all bytes, from the end of the file if it was opened for appending and else from the
-- offset: then the file holds them there and its other bytes as before; it has its new size, and as
-- many blocks more as hold the bytes that go behind the old size, even where the blocks it had
-- leave room for them; its inode is in its slot on the disk, no other byte of the disk has changed,
-- and the file is sound. Or it returns ENOSPC, which happens only where the bytes go behind the end of
-- the file, and where those blocks more would make the inode have more than 59, or, of those that have a bit in the
-- data bitmap, fewer are free;
-- and it leaves the disk, the inode and the members of the data bitmap as they were.
pub write_file_lem :
    (o : Opened) (off : ℕ) (buf : Bytes)
    → is_dir (inode_of_file o).i_mode ≡ false
    → has_flag o.file.flags (bit_or o_wronly o_rdwr) ≡ true
    → IsSound o
    → o.file.offset ≡ pos off
    → off ≤ (inode_of_file o).i_size
    → Stored o (start_of o off) buf (write_file buf o)
      ⊎ (((inode_of_file o).i_size < start_of o off + length buf)
          × Unstored o (start_of o off) (length buf) (write_file buf o))
write_file_lem o off buf regular writable sound at inside =
    let start : ℕ = start_of o off in
    let size : ℕ = (inode_of_file o).i_size in
    let inside' : start ≤ size = start_inside (has_flag o.file.flags o_append) in
    let here = at_offset_self off o at in
    let avail = avail_lem size start inside' in
    subst
      (λ (x : Opened).
        Stored o start buf (write_file buf x)
        ⊎ ((size < start + length buf) × Unstored o start (length buf) (write_file buf x)))
      (sym here)
      (elim (Bool-cases (ltb_ℤ (pos size -ℤ pos start) (pos (length buf)))) [
        | inl behind ↦
            let behind' : ltb_ℤ (pos (size - start)) (pos (length buf)) ≡ true =
              rw avail at behind in
            let count : ℕ = (lacking o start (length buf) + (block_size - 1)) / block_size in
            let need : blocks_for (pos_part (pos (length buf) -ℤ (pos size -ℤ pos start))) ≡ count =
              rw (avail, lacking_lem (length buf) (size - start)) in
            let past : size < start + length buf = ground arith in
            elim (grow_lem o count sound regular (omega arith)) [
              | inl g ↦ inl (
                  Stored-extended o off buf regular writable sound count inside' behind need refl g)
              | inr full ↦
                  inr (past, unstored o off buf regular writable sound count behind need refl full)
            ]
        | inr room ↦
            let room' : ltb_ℤ (pos (size - start)) (pos (length buf)) ≡ false = rw avail at room in
            inl (Stored-in_place o off buf regular writable sound (ground arith) room)
      ])
  where
    start_inside :
        (append : Bool)
        → (if append then (inode_of_file o).i_size else off) ≤ (inode_of_file o).i_size
    start_inside append = ground arith
