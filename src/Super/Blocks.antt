-- ===== src/Super/Blocks.antt =====
-- `alloc_dblocks` of linux/fs/super.py.
use slowfs.Prelude.{
  ◌==◌, ==_iff, Bool-cases, length, get_elem?, get_or, replicate, ℤ, ℕ, zero, suc, ◌+◌, ◌-◌, ◌≤◌,
  ◌<◌, ◌≡◌, refl, ◌∙◌, ◌⊎◌, inl, inr, true, false, ◌||◌, some, List, [], ◌∷◌, arith,
}
use slowfs.Exec.{ok}
use slowfs.Bytes.{zeros, write_at, length-zeros}
use slowfs.Block.Sizes.{block_size}
use slowfs.Block.Device.{Disk}
use slowfs.Block.Driver.{Block}
use slowfs.Block.Driver.Reads.{IsOn, base_of}
use slowfs.Block.Driver.Writes.{written, write_lem}
use slowfs.Block.Lists.{Blocks, AllOn, IsOutside, IsInside, IsInside-or_IsOutside, AllOn-size}
use slowfs.Bitmap.{BitMap, free}
use slowfs.Bitmap.Bits.{has, capacity, AllBytes}
use slowfs.Super.State.{SuperBlock}
use slowfs.Super.Store.{nullify, alloc_dblocks}
use slowfs.Super.Taken.{
  is_id, AreFree, IsWith, AreIds-length, dealloc_dblocks_lem, AreFree-is_id, AreFree-AreIds,
  take_dblocks_lem,
}

-- nullify() zeroes the blocks, and no other byte of the disk.
pub record Nullified (before : Disk) (blocks : Blocks) (after : Disk) : Type 0 where
  pub same_size : after.num_sectors ≡ before.num_sectors
  pub zero_inside : (p : ℕ) → IsInside blocks p → after.storage p ≡ 0
  pub frame : (p : ℕ) → IsOutside blocks p → after.storage p ≡ before.storage p

pub get_or-zeros : (n i : ℕ) → get_or (zeros n) i 0 ≡ 0
unfolding replicate
get_or-zeros zero i = refl
get_or-zeros (suc n) zero = refl
get_or-zeros (suc n) (suc i) = get_or-zeros n i

Nullified-cons :
    (a c : Disk) (entry : ℤ × Block) (rest : Blocks)
    → Nullified (written a (base_of entry.1 + 0) (zeros block_size)) rest c
    → Nullified a (entry ∷ rest) c
unfolding write_at
Nullified-cons a c entry rest more = record {
  same_size = more.same_size;
  zero_inside = inside;
  frame = λ p out. more.frame p out.1 ∙ (let h = out.0 in ground (arith, length-zeros block_size));
}
  where
    inside : (p : ℕ) → IsInside (entry ∷ rest) p → c.storage p ≡ 0
    inside p (inl (from, upto)) = elim (IsInside-or_IsOutside rest p) [
      | inl later ↦ more.zero_inside p later
      | inr out ↦
          more.frame p out
          ∙ ground
              (arith, length-zeros block_size, get_or-zeros block_size (p - (base_of entry.1 + 0)))
    ]
    inside p (inr later) = more.zero_inside p later

nullify_lem :
    (blocks : Blocks) (sb : SuperBlock)
    → AllOn sb.disk blocks
    → (after : Disk) × (nullify blocks sb ≡ (ok tt, record sb { disk = after }))
      × Nullified sb.disk blocks after
unfolding nullify
nullify_lem [] sb on =
    (sb.disk, refl, record { same_size = refl; zero_inside = λ p h. absurd h; frame = λ p h. refl })
nullify_lem (entry ∷ rest) sb on =
    let first : Disk = written sb.disk (base_of entry.1 + 0) (zeros block_size) in
    let stored =
      write_lem entry.1 0 (zeros block_size) sb.disk on.0
        (omega (arith, length-zeros block_size)) in
    let (after, ran, more) =
      nullify_lem rest (record sb { disk = first }) (AllOn-size sb.disk first rest refl on.1) in
    (after, rw stored ran, Nullified-cons sb.disk after entry rest more)

-- The data zone lies on the disk.
abbrev pub ZoneOn : Disk → List Block → Type 0
ZoneOn disk zone = (i : ℕ) (block : Block) → get_elem? zone i ≡ some block → IsOn disk block

AllOn-free :
    (disk : Disk) (dzone : List Block) (bm : BitMap) (taken : Blocks)
    → ZoneOn disk dzone
    → AreFree dzone bm taken
    → AllOn disk taken
AllOn-free disk dzone bm [] zone free = tt
AllOn-free disk dzone bm ((id, block) ∷ rest) zone ((i, same, lt, unused, once, there), free) =
    (zone i block there, AllOn-free disk dzone bm rest zone free)

-- All the blocks that were asked for: free before, each taken once, marked, and zeroed.
pub record Allocated (sb : SuperBlock) (count : ℕ) : Type 0 where
  pub taken : Blocks
  pub map : BitMap
  pub after : Disk
  pub ran : alloc_dblocks count sb ≡ (ok taken, record sb { disk = after; dmap = map })
  pub all : length taken ≡ count
  pub were_free : AreFree sb.dzone sb.dmap taken
  pub marked : IsWith sb.dmap taken map
  pub zeroed : Nullified sb.disk taken after

-- Fewer than `count` blocks are free: these, while each other number that has a block and a bit is in use.
abbrev pub TooFew : SuperBlock → ℕ → Type 0
TooFew sb count =
    (taken : Blocks) × AreFree sb.dzone sb.dmap taken
    × (length taken < count)
    × ((k : ℕ)
        → k < length sb.dzone
        → k < capacity sb.dmap
        → (has sb.dmap k || is_id k taken) ≡ true)

-- No block, as too few were free: the map has the members that it had, and nothing else of the superblock has changed.
pub record Refused (sb : SuperBlock) (count : ℕ) : Type 0 where
  pub map : BitMap
  pub ran : alloc_dblocks count sb ≡ (ok [], record sb { dmap = map })
  pub same_members : (k : ℕ) → has map k ≡ has sb.dmap k
  pub bytes : AllBytes map.content
  pub same_length : length map.content ≡ length sb.dmap.content
  pub too_few : TooFew sb count

short_of : {m n : ℕ} → m ≤ n → (m == n) ≡ false → m < n
short_of le ne = ground arith

-- In a superblock whose data bitmap holds bytes and whose data zone is on the disk,
-- alloc_dblocks(count) gives that many blocks of the zone, which were free, each once, marks just
-- these and zeroes just these; or, where fewer than that many with a bit in the bitmap are free, it gives none, leaves the
-- bitmap with the members that it had, and changes nothing else.
pub alloc_dblocks_lem :
    (count : ℕ) (sb : SuperBlock)
    → AllBytes sb.dmap.content
    → ZoneOn sb.disk sb.dzone
    → Allocated sb count ⊎ Refused sb count
unfolding alloc_dblocks
alloc_dblocks_lem count sb bytes zone =
    let (taken, bm, took) = take_dblocks_lem count sb bytes in
    let on = AllOn-free sb.disk sb.dzone sb.dmap taken zone took.were_free in
    elim (Bool-cases (length taken == count)) [
      | inl all ↦
          let (after, ran, zeroed) = nullify_lem taken (record sb { dmap = bm }) on in
          inl (record {
            taken = taken;
            map = bm;
            after = after;
            ran = rw (took.ran, all, ran);
            all = (==_iff _ _).0 all;
            were_free = took.were_free;
            marked = took.with_them;
            zeroed = zeroed;
          })
      | inr short ↦
          let ids =
            AreIds-length sb.dmap bm taken took.with_them.same_length
              (AreFree-AreIds sb.dzone sb.dmap taken took.were_free) in
          let (bm', ran, without) =
            dealloc_dblocks_lem taken (record sb { dmap = bm }) took.with_them.bytes ids in
          inr (record {
            map = bm';
            ran = rw (took.ran, short, ran);
            same_members = λ k.
                let apart = AreFree-is_id sb.dzone sb.dmap taken k took.were_free in
                ground (arith, without.members k, took.with_them.members k, apart);
            bytes = without.bytes;
            same_length = without.same_length ∙ took.with_them.same_length;
            too_few =
                let fewer = short_of took.at_most short in
                (
                  taken,
                  took.were_free,
                  fewer,
                  λ k inside lt.
                      let full =
                        took.short fewer k inside
                          (let e = took.with_them.same_length in omega arith) in
                      ground (arith, took.with_them.members k),
                );
          })
    ]
