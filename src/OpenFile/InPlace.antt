-- ===== src/OpenFile/InPlace.antt =====
-- `File.write` of linux/fs/file.py where the blocks of the file hold what is written.
use slowfs.Prelude.{
  get_or-set_self, length, get_elem?, set, pos, ℕ, ◌+◌, ◌-◌, ◌*◌, ◌/◌, ◌%◌, ◌≤◌, ◌<◌, max, ◌≡◌,
  refl, sym, ap, ◌∙◌, subst, ◌⊎◌, inl, inr, some, some-injective, [], ◌∷◌, arith,
}
use slowfs.Exec.{Result, ok}
use slowfs.Bytes.{Bytes, RawFile, write_at}
use slowfs.Bytes.Writes.{read_at-write_at}
use slowfs.Block.Sizes.{block_size}
use slowfs.Block.Device.{Disk}
use slowfs.Block.Driver.{Block}
use slowfs.Block.Driver.Reads.{base_of}
use slowfs.Block.Lists.{Blocks, AllOn, AllApart, PairwiseApart, IsOutside, IsInside}
use slowfs.Inode.Layout.{inode_size, inodes_per_block}
use slowfs.Inode.Object.{Inode, new_inode, from_bytes}
use slowfs.Inode.RoundTrip.{Fits}
use slowfs.Super.State.{SuperBlock}
use slowfs.Super.Store.{read_inode_from_disk}
use slowfs.Super.Inodes.{
  HasSlot, slot_of_inode, with_slot, write_inode_lem, read_inode_from_disk-slot,
}
use slowfs.OpenFile.{Opened, inode_of_file, rounds_from, finish_write, write_bytes}
use slowfs.OpenFile.View.{view, view-ext}
use slowfs.OpenFile.Reads.{at_offset, at_offset_self}
use slowfs.OpenFile.Writes.{Wrote, moved, write_loop_lem}

-- The inode of an open file is in the heap, its blocks are on the disk and share no sector with one
-- another or with the block of its slot, and it fits the layout, also after the write to come.
pub record IsReady (o : Opened) (size : ℕ) : Type 0 where
  pub in_heap : o.file.inode < length o.sb.heap
  pub slot : HasSlot o.sb (inode_of_file o).i_ino
  pub fits : Fits o.sb.dzone (record (inode_of_file o) { i_size = size })
  pub on : AllOn o.sb.disk (inode_of_file o).blocks
  pub apart : PairwiseApart (inode_of_file o).blocks
  pub slot_apart : AllApart slot.block (inode_of_file o).blocks

-- The inode of an open file, over another size.
abbrev pub grown : Opened → ℕ → Inode
grown o end = record (inode_of_file o) { i_size = max (inode_of_file o).i_size end }

-- A byte of the disk that is not in the slot of an inode number.
abbrev pub IsOutsideSlot : Block → ℕ → ℕ → Type 0
IsOutsideSlot slot ino p =
    (p < base_of slot + slot_of_inode ino) ⊎ (base_of slot + slot_of_inode ino + inode_size ≤ p)

-- What a write of bytes at an offset has done: the file holds them there and its other bytes as
-- before, its offset is behind them, and the inode has its size in memory and in its slot on the
-- disk; no byte of the disk outside the file and the slot has changed.
pub record IsWritten (o : Opened) (off : ℕ) (buf : Bytes) (o' : Opened) : Type 0 where
  pub file : o'.file ≡ record o.file { offset = pos (off + length buf) }
  pub inode :
      inode_of_file o'
      ≡ record (inode_of_file o) { i_size = max (inode_of_file o).i_size (off + length buf) }
  pub content :
      view o'.sb.disk (inode_of_file o).blocks
      ≡ write_at (view o.sb.disk (inode_of_file o).blocks) off buf
  pub stored : (read_inode_from_disk (inode_of_file o).i_ino o'.sb).0 ≡ ok (inode_of_file o')
  pub super : o'.sb ≡ record o.sb {
    disk = o'.sb.disk;
    heap = set o.sb.heap o.file.inode (grown o (off + length buf));
  }
  pub frame :
      (slot : Block)
      → get_elem? o.sb.izone ((inode_of_file o).i_ino / inodes_per_block) ≡ some slot
      → (p : ℕ) → IsOutside (inode_of_file o).blocks p
      → IsOutsideSlot slot (inode_of_file o).i_ino p
      → o'.sb.disk.storage p ≡ o.sb.disk.storage p
  pub disk_size : o'.sb.disk.num_sectors ≡ o.sb.disk.num_sectors

-- A write leaves the bytes outside of it.
outside_write :
    (f : RawFile) (start : ℕ) (bs : Bytes) (p : ℕ)
    → length bs ≡ inode_size
    → (p < start) ⊎ (start + inode_size ≤ p)
    → write_at f start bs p ≡ f p
unfolding write_at
outside_write f start bs p len away = ground (arith, len)

-- Bytes of the file's blocks are not in the slot of its inode.
outside_slot :
    (blocks : Blocks) (slot : Block) (p start : ℕ) (bs : Bytes) (f : RawFile)
    → AllApart slot blocks
    → IsInside blocks p
    → base_of slot ≤ start
    → start + length bs ≤ base_of slot + block_size
    → write_at f start bs p ≡ f p
unfolding write_at
outside_slot [] slot p start bs f apart inside from upto = absurd inside
outside_slot (entry ∷ rest) slot p start bs f apart (inl (lo, hi)) from upto =
    let away = apart.0 in ground arith
outside_slot (entry ∷ rest) slot p start bs f apart (inr inside) from upto =
    outside_slot rest slot p start bs f apart.1 inside from upto

-- The open file when the inode has been written.
abbrev finished : (o : Opened) → Block → Disk → ℕ → Bytes → Opened
finished o block disk end bs = record {
  sb =
      with_slot (record o.sb { disk = disk; heap = set o.sb.heap o.file.inode (grown o end) }) block
        (inode_of_file o).i_ino bs;
  file = record o.file { offset = pos end };
}

finish_write_lem :
    (o : Opened) (disk : Disk) (end : ℕ) (buf : Bytes) (slot : HasSlot o.sb (inode_of_file o).i_ino)
    → o.file.inode < length o.sb.heap
    → Fits o.sb.dzone (grown o end)
    → disk.num_sectors ≡ o.sb.disk.num_sectors
    → (bs : Bytes) × (length bs ≡ inode_size)
      × (from_bytes o.sb.dzone bs ≡ ok (grown o end))
      × (finish_write buf (moved o.sb o.file disk end)
          ≡ (ok (pos (length buf)), finished o slot.block disk end bs))
unfolding finish_write
finish_write_lem o disk end buf slot in_heap fits same =
    let sb' : SuperBlock = record o.sb {
      disk = disk;
      heap = set o.sb.heap o.file.inode (grown o end);
    } in
    let now = get_or-set_self o.sb.heap o.file.inode (grown o end) (new_inode 0) in_heap in
    let (bs, packed, len, back, ran) =
      write_inode_lem sb' (grown o end)
        (record { block = slot.block; there = slot.there; on = let h = slot.on in omega arith })
        fits in
    (bs, len, back, rw (now, ran))

rounds_from-pos : (b n : ℕ) → rounds_from (pos b) n ≡ n - b
rounds_from-pos b n = ground arith

module _ (o : Opened) (off : ℕ) (buf : Bytes) where
  -- The open file when the loop has left a disk and the inode has been written.
  finished-IsWritten :
      (ready : IsReady o (max (inode_of_file o).i_size (off + length buf))) (after : Disk)
      (bs : Bytes)
      → Wrote o.sb.disk (inode_of_file o).blocks off buf after
      → length bs ≡ inode_size
      → from_bytes o.sb.dzone bs ≡ ok (grown o (off + length buf))
      → IsWritten o off buf (finished o ready.slot.block after (off + length buf) bs)
  finished-IsWritten ready after bs wrote len back =
      let now =
        get_or-set_self o.sb.heap o.file.inode (grown o (off + length buf)) (new_inode 0)
          ready.in_heap in
      let start : ℕ = base_of ready.slot.block + slot_of_inode (inode_of_file o).i_ino in
      let final = finished o ready.slot.block after (off + length buf) bs in
      record {
        file = refl;
        inode = now;
        content =
            view-ext after final.sb.disk (inode_of_file o).blocks (λ p inside.
              outside_slot (inode_of_file o).blocks ready.slot.block p start bs after.storage
                ready.slot_apart inside (omega arith) (omega (arith, len)))
            ∙ wrote.content;
        stored =
            ap (λ (r : Result Inode × SuperBlock). r.0)
              (read_inode_from_disk-slot final.sb (inode_of_file o).i_ino (record {
                block = ready.slot.block;
                there = ready.slot.there;
                on = let h = ready.slot.on in let e = wrote.same_size in omega arith;
              }))
            ∙ rw (read_at-write_at after.storage start bs inode_size (sym len), back, now);
        super = refl;
        frame = λ slot there p out away.
            let same = some-injective _ _ (sym there ∙ ready.slot.there) in
            let away' =
              subst (λ (b : Block). IsOutsideSlot b (inode_of_file o).i_ino p) same away in
            outside_write after.storage start bs p len away' ∙ wrote.frame p out;
        disk_size = wrote.same_size;
      }

  -- What write() does behind the reservation, where the blocks of the file hold all that it writes.
  pub write_bytes_lem :
      o.file.offset ≡ pos off
      → off + length buf ≤ length (inode_of_file o).blocks * block_size
      → IsReady o (max (inode_of_file o).i_size (off + length buf))
      → (o' : Opened) × (write_bytes buf o ≡ (ok (pos (length buf)), o')) × IsWritten o off buf o'
  unfolding write_bytes
  write_bytes_lem at fits ready =
      let blocks = (inode_of_file o).blocks in
      let (after, ran, wrote) =
        write_loop_lem buf o.sb o.file (length blocks - off / block_size) (off / block_size)
          (off % block_size) 0 off o.sb.disk ready.on ready.apart refl (omega arith) (omega arith)
          (omega arith) fits in
      let (bs, len, back, done) =
        finish_write_lem o after (off + length buf) buf ready.slot ready.in_heap ready.fits
          wrote.same_size in
      let start : off + 0 ≡ off = omega arith in
      let final = finished o ready.slot.block after (off + length buf) bs in
      let whole : write_bytes buf (at_offset off o) ≡ (ok (pos (length buf)), final) =
        rw (rounds_from-pos (off / block_size) (length blocks)) (rw (rw start at ran, done)) in
      (
        final,
        ap (write_bytes buf) (at_offset_self off o at) ∙ whole,
        finished-IsWritten ready after bs (rw start at wrote) len back,
      )
