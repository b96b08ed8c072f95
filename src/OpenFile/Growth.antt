-- ===== src/OpenFile/Growth.antt =====
-- `alloc_dblocks` of an inode (linux/fs/inode.py) for an open file: blocks behind those it has.
use slowfs.Prelude.{
  ltb, Bool-cases, length-set, get_or-set_self, length, set, ℤ, pos, ℕ, ◌+◌, ◌≤◌, ◌<◌, ◌≡◌, refl,
  sym, subst, ◌⊎◌, inl, inr, true, false, [], ◌∷◌, ◌++◌, arith,
}
use slowfs.Exec.{ok}
use slowfs.Block.Device.{Disk}
use slowfs.Block.Driver.{Block}
use slowfs.Block.Lists.{Blocks, IsOutside}
use slowfs.Bitmap.{BitMap, free}
use slowfs.Bitmap.Bits.{has}
use slowfs.Inode.Layout.{max_dblocks, is_dir}
use slowfs.Inode.Object.{Inode, new_inode}
use slowfs.Errno.{enospc, minus}
use slowfs.Super.State.{SuperBlock, inode_at}
use slowfs.Super.Store.{alloc_dblocks}
use slowfs.Super.Taken.{AreFree, IsWith}
use slowfs.Super.Blocks.{Nullified, TooFew, alloc_dblocks_lem}
use slowfs.Directory.Grow.{grow}
use slowfs.OpenFile.{Opened, inode_of_file}
use slowfs.OpenFile.View.{view}
use slowfs.OpenFile.Sound.{IsFile, IsSound, IsFile-extend}
use slowfs.OpenFile.Zeros.{view-zeros, AreHeld-IsOutside}

-- The open file with more blocks, over the disk and the data bitmap that the allocator leaves.
abbrev pub extended : Opened → Blocks → BitMap → Disk → Opened
extended o taken map disk = record o {
  sb = record o.sb {
    disk = disk;
    dmap = map;
    heap =
        set o.sb.heap o.file.inode
          (record (inode_of_file o) { blocks = (inode_of_file o).blocks ++ taken });
  };
}

-- The file has `count` blocks more and is sound, and its content is the same, with zeros behind it.
pub record Grown (o : Opened) (count : ℕ) : Type 0 where
  pub taken : Blocks
  pub map : BitMap
  pub disk : Disk
  pub ran : grow o.file.inode count o.sb ≡ (ok (pos 0), (extended o taken map disk).sb)
  pub all : length taken ≡ count
  pub frame : (p : ℕ) → IsOutside taken p → disk.storage p ≡ o.sb.disk.storage p
  pub inode :
      inode_of_file (extended o taken map disk)
      ≡ record (inode_of_file o) { blocks = (inode_of_file o).blocks ++ taken }
  pub sound : IsSound (extended o taken map disk)
  pub content :
      view disk ((inode_of_file o).blocks ++ taken) ≡ view o.sb.disk (inode_of_file o).blocks

-- The inode would have more blocks than its layout has room for, or too few blocks are free.
abbrev pub LacksRoom : Opened → ℕ → Type 0
LacksRoom o count = (max_dblocks < count + length (inode_of_file o).blocks) ⊎ TooFew o.sb count

-- No room: the error, and nothing has changed but that the map is another one with the same members.
pub record NoRoom (o : Opened) (count : ℕ) : Type 0 where
  pub map : BitMap
  pub cause : LacksRoom o count
  pub ran : grow o.file.inode count o.sb ≡ (ok (minus enospc), record o.sb { dmap = map })
  pub same_members : (k : ℕ) → has map k ≡ has o.sb.dmap k

grow-some :
    (ref count : ℕ) (sb sb' : SuperBlock) (t : ℤ × Block) (more : Blocks)
    → ltb max_dblocks (count + length (inode_at sb ref).blocks) ≡ false
    → alloc_dblocks count sb ≡ (ok (t ∷ more), sb')
    → is_dir (inode_at sb' ref).i_mode ≡ false
    → grow ref count sb ≡ (
      ok (pos 0),
      record sb' {
        heap =
            set sb'.heap ref
              (record (inode_at sb' ref) { blocks = (inode_at sb' ref).blocks ++ t ∷ more });
      },
    )
unfolding grow
grow-some ref count sb sb' t more fits ran regular = rw (fits, ran, regular)

grow-none :
    (ref count : ℕ) (sb sb' : SuperBlock)
    → ltb max_dblocks (count + length (inode_at sb ref).blocks) ≡ false
    → alloc_dblocks count sb ≡ (ok [], sb')
    → grow ref count sb ≡ (ok (minus enospc), sb')
unfolding grow
grow-none ref count sb sb' fits ran = rw (fits, ran)

grow-too_many :
    (ref count : ℕ) (sb : SuperBlock)
    → ltb max_dblocks (count + length (inode_at sb ref).blocks) ≡ true
    → grow ref count sb ≡ (ok (minus enospc), sb)
unfolding grow
grow-too_many ref count sb many = rw many

module _ (o : Opened) (count : ℕ) (sound : IsSound o)
    (regular : is_dir (inode_of_file o).i_mode ≡ false) where
  -- The blocks that the allocator gave go behind those of the file.
  Allocated-Grown :
      count + length (inode_of_file o).blocks ≤ max_dblocks
      → ltb max_dblocks (count + length (inode_of_file o).blocks) ≡ false
      → (taken : Blocks) (map : BitMap) (disk : Disk) → 0 < length taken
      → alloc_dblocks count o.sb ≡ (ok taken, record o.sb { disk = disk; dmap = map })
      → length taken ≡ count
      → AreFree o.sb.dzone o.sb.dmap taken
      → IsWith o.sb.dmap taken map
      → Nullified o.sb.disk taken disk
      → Grown o count
  Allocated-Grown few fits [] map disk some_taken ran all free marked zeroed = elim some_taken [ ]
  Allocated-Grown few fits (t ∷ more) map disk some_taken ran all free marked zeroed =
      let blocks = (inode_of_file o).blocks in
      let longer : Inode = record (inode_of_file o) { blocks = blocks ++ t ∷ more } in
      let now = get_or-set_self o.sb.heap o.file.inode longer (new_inode 0) sound.in_heap in
      record {
        taken = t ∷ more;
        map = map;
        disk = disk;
        ran = rw (
            grow-some o.file.inode count o.sb (record o.sb { disk = disk; dmap = map }) t more fits
              ran regular);
        all = all;
        frame = zeroed.frame;
        inode = now;
        sound = record {
          in_heap =
              let h = sound.in_heap in
              let e = length-set o.sb.heap o.file.inode longer in omega arith;
          file = subst (IsFile (extended o (t ∷ more) map disk).sb) (sym now) (
              IsFile-extend o.sb (inode_of_file o) (t ∷ more) (inode_of_file o).i_size map disk
                (set o.sb.heap o.file.inode longer) sound.file zeroed.same_size free marked
                (omega arith) (let h = sound.file.holds in omega arith));
        };
        content =
            view-zeros o.sb.disk disk blocks (t ∷ more)
              (λ p inside. zeroed.frame p (
                AreHeld-IsOutside o.sb.dzone o.sb.dmap blocks (t ∷ more) p sound.file.zone_apart
                  sound.file.held free inside))
              zeroed.zero_inside;
      }

  -- On a sound regular file, alloc_dblocks() of its inode for one block or more either puts as many
  -- blocks as were asked for behind those it had, keeps the file sound and its content with zeros
  -- behind it; or returns ENOSPC and leaves all but the bitmap, which has the members that it had.
  -- ENOSPC comes only where the inode would have more than its 59 blocks, or where, of the blocks
  -- of the data zone that have a bit in the data bitmap, fewer are free than were asked for.
  pub grow_lem : 0 < count → Grown o count ⊎ NoRoom o count
  grow_lem some_asked =
      elim (Bool-cases (ltb max_dblocks (count + length (inode_of_file o).blocks))) [
        | inl many ↦ inr (record {
          map = o.sb.dmap;
          cause = inl (ground arith);
          ran = rw (grow-too_many o.file.inode count o.sb many);
          same_members = λ k. refl;
        })
        | inr fits ↦ elim (alloc_dblocks_lem count o.sb sound.file.map_bytes sound.file.zone_on) [
          | inl done ↦ inl (
              Allocated-Grown (ground arith) fits done.taken done.map done.after
                (let e = done.all in omega arith) done.ran done.all done.were_free done.marked
                done.zeroed)
          | inr refused ↦ inr (record {
            map = refused.map;
            cause = inr refused.too_few;
            ran = rw (
                grow-none o.file.inode count o.sb (record o.sb { dmap = refused.map }) fits
                  refused.ran);
            same_members = refused.same_members;
          })
        ]
      ]
