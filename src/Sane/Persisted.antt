-- ===== src/Sane/Persisted.antt =====
-- `sync_fs` and a mount of the disk after it (linux/fs/super.py), one behind the other.
-- A number of the bitmap is of an object in memory, or the disk has an inode of that number in its slot.
use slowfs.Prelude.{
  ◌==◌, ==_iff, Bool-cases, length, get_elem?, pos, ℕ, zero, suc, ◌+◌, ◌*◌, ◌≤◌, ◌<◌, ◌≡◌, refl,
  sym, ap, ◌∙◌, ◌⊎◌, inl, inr, Bool, true, false, none, some, List, arith,
}
use slowfs.Exec.{ok, ok-injective}
use slowfs.Bytes.{Bytes, read_at}
use slowfs.Block.Sizes.{block_size}
use slowfs.Block.Device.{Disk}
use slowfs.Block.Driver.{Block}
use slowfs.Bitmap.{BitMap, iterate}
use slowfs.Bitmap.Bits.{has, capacity}
use slowfs.Bitmap.Iterate.{select, iterate_lem}
use slowfs.Inode.Layout.{inode_size, inodes_per_block}
use slowfs.Inode.Object.{Inode, new_inode, from_bytes}
use slowfs.Super.State.{SuperBlock, inode_at, dict_get}
use slowfs.Super.Store.{sync_fs}
use slowfs.Super.Filed.{slot_at, AllStorable-get}
use slowfs.Mount.{blank, new_super}
use slowfs.Sane.Synced.{IsSyncable, Synced, sync_fs-Synced}
use slowfs.Sane.Remount.{IsStored, AllReadable, get_or-some}
use slowfs.Sane.Mounted.{new_super-Remounted}

abbrev pub IsKnown : SuperBlock → ℕ → Type 0
IsKnown sb ino =
    ((ref : ℕ) × (dict_get ino sb.inodes ≡ some ref))
    ⊎ ((dict_get ino sb.inodes ≡ none)
        × (ino < length sb.izone * inodes_per_block)
        × (inode : Inode) × IsStored sb.dzone sb.disk ino inode
        × (inode.i_ino ≡ ino))

-- A superblock in memory that a mount can restore.
pub record IsRestorable (sb : SuperBlock) : Type 0 where
  pub syncable : IsSyncable sb
  pub known : (ino : ℕ) → ino < capacity sb.imap → has sb.imap ino ≡ true → IsKnown sb ino
  pub rooted : dict_get 1 sb.inodes ≡ some sb.root

-- What sync_fs() stores and a mount restores.
pub record Restored (sb : SuperBlock) : Type 0 where
  pub disk : Disk
  pub fresh : SuperBlock
  pub stored : sync_fs sb ≡ (ok (pos 0), record sb { disk = disk })
  pub mounted : new_super false disk ≡ (ok fresh, disk)
  pub imap : fresh.imap.content ≡ sb.imap.content
  pub dmap : fresh.dmap.content ≡ sb.dmap.content
  pub root : inode_at fresh fresh.root ≡ inode_at sb sb.root
  pub inodes :
      (ino ref : ℕ)
      → ino < capacity sb.imap
      → has sb.imap ino ≡ true
      → dict_get ino sb.inodes ≡ some ref
      → (ref' : ℕ) × (dict_get ino fresh.inodes ≡ some ref')
        × (inode_at fresh ref' ≡ inode_at sb ref)

module _ (p : ℕ → Bool) where
  AllReadable-select :
      (izone dzone : List Block) (disk : Disk) (n i : ℕ)
      → ((k : ℕ)
          → i ≤ k
          → k < i + n
          → p k ≡ true
          → (k < length izone * inodes_per_block)
            × ((inode : Inode) × IsStored dzone disk k inode × (inode.i_ino ≡ k)))
      → AllReadable izone dzone disk (select p n i)
  AllReadable-select izone dzone disk zero i h = tt
  AllReadable-select izone dzone disk (suc n) i h =
      let rest =
        AllReadable-select izone dzone disk n (i + 1)
          (λ k le lt. h k (omega arith) (omega arith)) in
      elim (Bool-cases (p i)) [
        | inl e ↦ let here = h i (omega arith) (omega arith) e in rw e (here.0, here.1, rest)
        | inr e ↦ rw e rest
      ]

  select-get :
      (n i k : ℕ) → i ≤ k → k < i + n → p k ≡ true → (j : ℕ) × (get_elem? (select p n i) j ≡ some k)
  select-get zero i k le lt e = absurd (omega arith)
  select-get (suc n) i k le lt e = elim (Bool-cases (i == k)) [
    | inl same ↦ let at : i ≡ k = (==_iff i k).0 same in (0, rw (at, e) refl)
    | inr ne ↦
        let (j, there) = select-get n (i + 1) k (ground arith) (omega arith) e in
        elim (Bool-cases (p i)) [ inl t ↦ (suc j, rw t there) | inr f ↦ (j, rw f there) ]
  ]

blank-dzone : (a b : Disk) → a.num_sectors ≡ b.num_sectors → (blank a).dzone ≡ (blank b).dzone
unfolding blank
blank-dzone a b e = rw e refl

blank-izone : (a b : Disk) → a.num_sectors ≡ b.num_sectors → (blank a).izone ≡ (blank b).izone
unfolding blank
blank-izone a b e = rw e refl

-- A slot after sync_fs(): the object of the number, or what was in the slot.
slot_after :
    (sb : SuperBlock) (done : Synced sb) (ino : ℕ)
    → IsSyncable sb
    → IsKnown sb ino
    → (ino < length sb.izone * inodes_per_block)
      × ((inode : Inode) × IsStored sb.dzone done.disk ino inode × (inode.i_ino ≡ ino))
slot_after sb done ino ready (inl (ref, e)) =
    let (numbered, lt) =
      AllStorable-get sb.izone sb.dzone sb.heap sb.inodes ino ref ready.storable e in
    (lt, (inode_at sb ref, done.stored ino ref e, numbered))
slot_after sb done ino ready (inr (e, lt, inode, stored, numbered)) =
    (lt, (inode, ap (from_bytes sb.dzone) (done.other ino e) ∙ stored, numbered))

-- sync_fs() succeeds, and a mount of the disk then makes a superblock object with the same two bitmaps, an
-- equal root inode and, for each number that the inode bitmap and the dict of inodes have, an
-- equal inode: where the superblock lies on its disk as a mount lays it out, its bitmaps fill
-- their blocks, the numbers of its dict are there once and in range and lead to inodes of that
-- number that fit the layout, each other number of the inode bitmap has an inode of that number
-- on the disk, and the root is number 1.
pub sync_fs-Restored : (sb : SuperBlock) → IsRestorable sb → Restored sb
sync_fs-Restored sb ready =
    let done = sync_fs-Synced sb ready.syncable in
    let layout = ready.syncable.layout in
    let izone = blank-izone done.disk sb.disk done.size ∙ sym layout.same_izone in
    let dzone = blank-dzone done.disk sb.disk done.size ∙ sym layout.same_dzone in
    let numbers =
      ap (λ (c : Bytes). iterate (record { size = block_size; content = c })) done.imap
      ∙ iterate_lem (record { size = block_size; content = sb.imap.content }) in
    let root_number =
      AllStorable-get sb.izone sb.dzone sb.heap sb.inodes 1 sb.root ready.syncable.storable
        ready.rooted in
    let fresh = new_super-Remounted done.disk (inode_at sb sb.root) (record {
      large = rw done.size layout.large;
      ident = done.ident;
      readable =
          rw (izone, dzone, numbers)
            (AllReadable-select (has sb.imap) sb.izone sb.dzone done.disk (capacity sb.imap) 0
              (λ k le lt e. slot_after sb done k ready.syncable (ready.known k (omega arith) e)));
      rooted = rw dzone (done.stored 1 sb.root ready.rooted);
      numbered = root_number.0;
    }) in
    record {
      disk = done.disk;
      fresh = fresh.sb;
      stored = done.ran;
      mounted = fresh.ran;
      imap = ap (λ (b : BitMap). b.content) fresh.imap ∙ done.imap;
      dmap = ap (λ (b : BitMap). b.content) fresh.dmap ∙ done.dmap;
      root = fresh.at_root;
      inodes = λ ino ref lt e there.
          let (j, at) =
            select-get (has sb.imap) (capacity sb.imap) 0 ino (omega arith) (omega arith) e in
          let (ref', inode, found, here, saved) = fresh.loaded j ino (rw numbers at) in
          let slot = read_at done.disk.storage (slot_at ino) inode_size in
          let same = ok-injective (
            sym saved
            ∙ ap (λ (zone : List Block). from_bytes zone slot) dzone
            ∙ done.stored ino ref there) in
          (ref', found, get_or-some fresh.sb.heap ref' (new_inode 0) here ∙ same);
    }
