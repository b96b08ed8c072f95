-- ===== src/Super/Held.antt =====
-- The data blocks that an inode holds: blocks of the data zone by their numbers, in the data bitmap.
use slowfs.Prelude.{
  length, get_elem?, pos, negsuc, ℕ, zero, suc, ◌^◌, ◌≤◌, ◌<◌, ◌≡◌, refl, true, false, ◌||◌, some,
  List, [], ◌∷◌, ◌++◌, arith,
}
use slowfs.Block.Device.{Disk}
use slowfs.Block.Driver.{Block}
use slowfs.Block.Driver.RoundTrip.{IsApart}
use slowfs.Block.Lists.{Blocks, AllOn, AllApart, PairwiseApart}
use slowfs.Bitmap.{BitMap, free}
use slowfs.Bitmap.Bits.{has}
use slowfs.Inode.RoundTrip.{HasBlocks}
use slowfs.Super.Taken.{is_id, AreFree, IsWith, AreFree-is_id}
use slowfs.Super.Blocks.{ZoneOn}
use slowfs.Super.Inodes.{ZoneApart}

-- Each number once, and each in the map.
abbrev pub AreHeld : List Block → BitMap → Blocks → Type 0
AreHeld dzone bm [] = Unit
AreHeld dzone bm ((id, block) ∷ rest) =
    ((i : ℕ) × (id ≡ pos i)
      × (has bm i ≡ true)
      × (is_id i rest ≡ false)
      × (get_elem? dzone i ≡ some block))
    × AreHeld dzone bm rest

pub get_elem?-bound :
    {A : Type 0} (xs : List A) (i : ℕ) {x : A} → get_elem? xs i ≡ some x → i < length xs
get_elem?-bound [] i e = cc
get_elem?-bound (x ∷ xs) zero e = omega arith
get_elem?-bound (x ∷ xs) (suc i) e = let h = get_elem?-bound xs i e in omega arith

pub AreHeld-HasBlocks :
    (dzone : List Block) (bm : BitMap) (blocks : Blocks)
    → length dzone ≤ 2 ^ 31
    → AreHeld dzone bm blocks
    → HasBlocks dzone blocks
AreHeld-HasBlocks dzone bm [] small held = tt
AreHeld-HasBlocks dzone bm ((id, block) ∷ rest) small ((i, same, used, once, there), held) = (
  (i, same, let h = get_elem?-bound dzone i there in omega arith, there),
  AreHeld-HasBlocks dzone bm rest small held,
)

pub AreHeld-AllOn :
    (disk : Disk) (dzone : List Block) (bm : BitMap) (blocks : Blocks)
    → ZoneOn disk dzone
    → AreHeld dzone bm blocks
    → AllOn disk blocks
AreHeld-AllOn disk dzone bm [] zone held = tt
AreHeld-AllOn disk dzone bm ((id, block) ∷ rest) zone ((i, same, used, once, there), held) =
    (zone i block there, AreHeld-AllOn disk dzone bm rest zone held)

-- A block that is apart from the zone is apart from the blocks.
pub AreHeld-AllApart :
    (block : Block) (dzone : List Block) (bm : BitMap) (blocks : Blocks)
    → ((i : ℕ) (b : Block) → get_elem? dzone i ≡ some b → IsApart block b)
    → AreHeld dzone bm blocks
    → AllApart block blocks
AreHeld-AllApart block dzone bm [] far held = tt
AreHeld-AllApart block dzone bm ((id, b) ∷ rest) far ((i, same, used, once, there), held) =
    (far i b there, AreHeld-AllApart block dzone bm rest far held)

-- A block of the zone is apart from the blocks with other numbers.
AllApart-others :
    (block : Block) (i : ℕ) (dzone : List Block) (bm : BitMap) (blocks : Blocks)
    → ZoneApart dzone
    → get_elem? dzone i ≡ some block
    → is_id i blocks ≡ false
    → AreHeld dzone bm blocks
    → AllApart block blocks
AllApart-others block i dzone bm [] apart here not_in held = tt
AllApart-others block i dzone bm ((id, b) ∷ rest) apart here not_in
      ((j, same, used, once, there), held) =
    let split : is_id i ((pos j, b) ∷ rest) ≡ false = rw same at not_in in
    (
      apart i j block b (ground arith) here there,
      AllApart-others block i dzone bm rest apart here (ground arith) held,
    )

pub AreHeld-PairwiseApart :
    (dzone : List Block) (bm : BitMap) (blocks : Blocks)
    → ZoneApart dzone
    → AreHeld dzone bm blocks
    → PairwiseApart blocks
AreHeld-PairwiseApart dzone bm [] apart held = tt
AreHeld-PairwiseApart dzone bm ((id, b) ∷ rest) apart ((i, same, used, once, there), held) = (
  AllApart-others b i dzone bm rest apart there once held,
  AreHeld-PairwiseApart dzone bm rest apart held,
)

is_id-append : (k : ℕ) (xs ys : Blocks) → is_id k (xs ++ ys) ≡ (is_id k xs || is_id k ys)
is_id-append k [] ys = refl
is_id-append k ((pos i, b) ∷ xs) ys = ground (arith, is_id-append k xs ys)
is_id-append k ((negsuc i, b) ∷ xs) ys = is_id-append k xs ys

-- What was free is held when it is marked.
AreFree-AreHeld :
    (dzone : List Block) (bm bm' : BitMap) (taken : Blocks)
    → ((k : ℕ) → is_id k taken ≡ true → has bm' k ≡ true)
    → AreFree dzone bm taken
    → AreHeld dzone bm' taken
AreFree-AreHeld dzone bm bm' [] marked free = tt
AreFree-AreHeld dzone bm bm' ((id, b) ∷ rest) marked ((i, same, lt, unused, once, there), free) = (
  (i, same, marked i (rw same (ground arith)), once, there),
  AreFree-AreHeld dzone bm bm' rest (λ k h. marked k (rw same (ground arith))) free,
)

-- What an inode holds, and what the allocator gives it.
pub AreHeld-append :
    (dzone : List Block) (bm bm' : BitMap) (blocks taken : Blocks)
    → AreHeld dzone bm blocks
    → AreFree dzone bm taken
    → IsWith bm taken bm'
    → AreHeld dzone bm' (blocks ++ taken)
AreHeld-append dzone bm bm' [] taken held free step =
    AreFree-AreHeld dzone bm bm' taken (λ k h. ground (arith, step.members k)) free
AreHeld-append dzone bm bm' ((id, b) ∷ rest) taken ((i, same, used, once, there), held) free step =
    (
      (
        i,
        same,
        ground (arith, step.members i),
        ground (arith, is_id-append i rest taken, AreFree-is_id dzone bm taken i free),
        there,
      ),
      AreHeld-append dzone bm bm' rest taken held free step,
    )
