-- ===== src/Super/Taken.antt =====
-- The data blocks that a run of the allocator takes out of the data bitmap, and their return.
use slowfs.Prelude.{
  ◌==◌, le→leb, lt→leb, le_or_lt, get_elem?-lt, length, get_elem?, ℤ, pos, negsuc, ℕ, zero, suc,
  ◌≤◌, ◌<◌, ◌≡◌, refl, ◌∙◌, inl, inr, Bool, true, false, ◌&&◌, ◌||◌, not, some, List, [], ◌∷◌,
  arith,
}
use slowfs.Exec.{ok}
use slowfs.Block.Driver.{Block}
use slowfs.Block.Lists.{Blocks}
use slowfs.Bitmap.{BitMap, next_free, alloc, free}
use slowfs.Bitmap.Bits.{has, capacity, AllBytes}
use slowfs.Bitmap.Alloc.{IsUpdate, alloc_lem, free_lem}
use slowfs.Bitmap.NextFree.{IsLeastFree, next_free_lem}
use slowfs.Super.State.{SuperBlock}
use slowfs.Super.Store.{take_dblocks, dealloc_dblocks}

-- A number is among the ids.
abbrev pub is_id : ℕ → Blocks → Bool
is_id k [] = false
is_id k ((pos i, _) ∷ rest) = k == i || is_id k rest
is_id k ((negsuc i, _) ∷ rest) = is_id k rest

-- Blocks of the data zone by their numbers, each once and none of them in the map.
abbrev pub AreFree : List Block → BitMap → Blocks → Type 0
AreFree dzone bm [] = Unit
AreFree dzone bm ((id, block) ∷ rest) =
    ((i : ℕ) × (id ≡ pos i)
      × (i < capacity bm)
      × (has bm i ≡ false)
      × (is_id i rest ≡ false)
      × (get_elem? dzone i ≡ some block))
    × AreFree dzone bm rest

-- `after` has the members of `before`, and the ids of the blocks.
pub record IsWith (before : BitMap) (taken : Blocks) (after : BitMap) : Type 0 where
  pub same_length : length after.content ≡ length before.content
  pub bytes : AllBytes after.content
  pub members : (k : ℕ) → has after k ≡ (has before k || is_id k taken)

-- `after` has the members of `before` but for the ids of the blocks.
pub record IsWithout (before : BitMap) (taken : Blocks) (after : BitMap) : Type 0 where
  pub same_length : length after.content ≡ length before.content
  pub bytes : AllBytes after.content
  pub members : (k : ℕ) → has after k ≡ (has before k && not (is_id k taken))

-- The ids of blocks that are known, in the range of a map.
abbrev pub AreIds : BitMap → Blocks → Type 0
AreIds bm [] = Unit
AreIds bm ((id, _) ∷ rest) = ((i : ℕ) × (id ≡ pos i) × (i < capacity bm)) × AreIds bm rest

pub AreIds-length :
    (a b : BitMap) (taken : Blocks)
    → length b.content ≡ length a.content
    → AreIds a taken
    → AreIds b taken
AreIds-length a b [] e h = tt
AreIds-length a b ((id, _) ∷ rest) e ((i, same, lt), h) =
    ((i, same, omega arith), AreIds-length a b rest e h)

-- dealloc_dblocks() of blocks whose numbers are in the range of the data bitmap, a map of bytes, takes
-- just these numbers out of it, and changes nothing else.
pub dealloc_dblocks_lem :
    (taken : Blocks) (sb : SuperBlock)
    → AllBytes sb.dmap.content
    → AreIds sb.dmap taken
    → (bm : BitMap) × (dealloc_dblocks taken sb ≡ (ok tt, record sb { dmap = bm }))
      × IsWithout sb.dmap taken bm
unfolding dealloc_dblocks
dealloc_dblocks_lem [] sb bytes ids =
    (sb.dmap, refl, record { same_length = refl; bytes = bytes; members = λ k. ground arith })
dealloc_dblocks_lem ((id, block) ∷ rest) sb bytes ((i, same, lt), ids) =
    let freed = free_lem sb.dmap i bytes lt in
    let bm₁ = (free (pos i) sb.dmap).1 in
    let step = freed.1 in
    let (bm, ran, without) =
      dealloc_dblocks_lem rest (record sb { dmap = bm₁ }) step.bytes
        (AreIds-length sb.dmap bm₁ rest step.same_length ids) in
    (
      bm,
      rw (same, freed.0) ran,
      record {
        same_length = without.same_length ∙ step.same_length;
        bytes = without.bytes;
        members = λ k. rw same (ground (arith, without.members k, step.members k));
      },
    )

-- A member of the map is none of the free blocks.
pub AreFree-is_id :
    (dzone : List Block) (bm : BitMap) (taken : Blocks) (i : ℕ)
    → AreFree dzone bm taken
    → has bm i ≡ true
    → is_id i taken ≡ false
AreFree-is_id dzone bm [] i free used = refl
AreFree-is_id dzone bm ((id, block) ∷ rest) i ((j, same, lt, unused, once, there), free) used =
    rw same (ground (arith, AreFree-is_id dzone bm rest i free used))

-- What is free beside one more member was free before.
AreFree-update :
    (dzone : List Block) (a b : BitMap) (i : ℕ) (taken : Blocks)
    → IsUpdate a i true b
    → AreFree dzone b taken
    → AreFree dzone a taken
AreFree-update dzone a b i [] step free = tt
AreFree-update dzone a b i ((id, block) ∷ rest) step ((j, same, lt, unused, once, there), free) = (
  (j, same, let e = step.same_length in omega arith, ground (arith, step.members j), once, there),
  AreFree-update dzone a b i rest step free,
)

pub AreFree-AreIds :
    (dzone : List Block) (bm : BitMap) (taken : Blocks) → AreFree dzone bm taken → AreIds bm taken
AreFree-AreIds dzone bm [] free = tt
AreFree-AreIds dzone bm ((id, block) ∷ rest) ((j, same, lt, unused, once, there), free) =
    ((j, same, lt), AreFree-AreIds dzone bm rest free)

-- All the numbers of data blocks that a map has room for are in it.
abbrev pub IsFullFor : List Block → BitMap → Type 0
IsFullFor dzone bm = (k : ℕ) → k < length dzone → k < capacity bm → has bm k ≡ true

-- What a run of the allocator has taken, with the map that it leaves.
pub record Took (sb : SuperBlock) (count : ℕ) (taken : Blocks) (bm : BitMap) : Type 0 where
  pub ran : take_dblocks count sb ≡ (ok taken, record sb { dmap = bm })
  pub were_free : AreFree sb.dzone sb.dmap taken
  pub with_them : IsWith sb.dmap taken bm
  pub at_most : length taken ≤ count
  pub short : length taken < count → IsFullFor sb.dzone bm

Took-none :
    (sb : SuperBlock) (count : ℕ)
    → AllBytes sb.dmap.content
    → take_dblocks count sb ≡ (ok [], sb)
    → (0 < count → IsFullFor sb.dzone sb.dmap)
    → Took sb count [] sb.dmap
Took-none sb count bytes ran full = record {
  ran = ran;
  were_free = tt;
  with_them = record { same_length = refl; bytes = bytes; members = λ k. ground arith };
  at_most = omega arith;
  short = full;
}

-- One block more, taken before the others.
Took-more :
    (sb : SuperBlock) (count i : ℕ) (block : Block) (rest : Blocks) (bm : BitMap)
    → next_free sb.dmap ≡ pos i
    → AllBytes sb.dmap.content
    → i < capacity sb.dmap
    → has sb.dmap i ≡ false
    → i < length sb.dzone
    → get_elem? sb.dzone i ≡ some block
    → Took (record sb { dmap = (alloc (pos i) sb.dmap).1 }) count rest bm
    → Took sb (suc count) ((pos i, block) ∷ rest) bm
unfolding take_dblocks
Took-more sb count i block rest bm e bytes lt unused inside there took =
    let (done, step) = alloc_lem sb.dmap i bytes lt unused in
    let now : has (alloc (pos i) sb.dmap).1 i ≡ true = ground (arith, step.members i) in
    record {
      ran = rw (e, lt→leb _ _ inside, done, there, took.ran);
      were_free = (
        (
          i,
          refl,
          lt,
          unused,
          AreFree-is_id sb.dzone (alloc (pos i) sb.dmap).1 rest i took.were_free now,
          there,
        ),
        AreFree-update sb.dzone sb.dmap (alloc (pos i) sb.dmap).1 i rest step took.were_free,
      );
      with_them = record {
        same_length = took.with_them.same_length ∙ step.same_length;
        bytes = took.with_them.bytes;
        members = λ k. ground (arith, took.with_them.members k, step.members k);
      };
      at_most = let h = took.at_most in omega arith;
      short = λ h. took.short (omega arith);
    }

-- What is left to take after the first index that next_free() gave.
Took-at :
    (sb : SuperBlock) (count : ℕ)
    → AllBytes sb.dmap.content
    → ((sb' : SuperBlock)
        → AllBytes sb'.dmap.content
        → (taken : Blocks) × (bm : BitMap) × Took sb' count taken bm)
    → (z : ℤ) → next_free sb.dmap ≡ z
    → IsLeastFree sb.dmap z
    → (taken : Blocks) × (bm : BitMap) × Took sb (suc count) taken bm
unfolding take_dblocks
Took-at sb count bytes more (negsuc n) e (_, full) =
    ([], sb.dmap, Took-none sb (suc count) bytes (rw e) (λ _ k inside lt. full k lt))
Took-at sb count bytes more (pos i) e (lt, unused, least) = elim (le_or_lt (length sb.dzone) i) [
  | inl beyond ↦ (
    [],
    sb.dmap,
    Took-none sb (suc count) bytes (rw (e, le→leb _ _ beyond))
        (λ _ k inside _. least k (omega arith)),
  )
  | inr inside ↦
      let step = (alloc_lem sb.dmap i bytes lt unused).1 in
      let (rest, bm, took) = more (record sb { dmap = (alloc (pos i) sb.dmap).1 }) step.bytes in
      let (block, there) = get_elem?-lt sb.dzone i inside in
      (
        (pos i, block) ∷ rest,
        bm,
        Took-more sb count i block rest bm e bytes lt unused inside there took,
      )
]

-- Over a data bitmap of bytes, the loop of alloc_dblocks() takes blocks of the data zone that were
-- free, each once, at most as many as were asked for, and marks just these; it takes fewer only
-- where each block of the zone that has a bit is then marked.
pub take_dblocks_lem :
    (count : ℕ) (sb : SuperBlock)
    → AllBytes sb.dmap.content
    → (taken : Blocks) × (bm : BitMap) × Took sb count taken bm
unfolding take_dblocks
take_dblocks_lem zero sb bytes =
    ([], sb.dmap, Took-none sb 0 bytes refl (λ h. absurd (omega arith)))
take_dblocks_lem (suc count) sb bytes =
    Took-at sb count bytes (take_dblocks_lem count) (next_free sb.dmap) refl (next_free_lem sb.dmap)
