-- ===== src/OpenFile/Zeros.antt =====
-- A file (linux/fs/file.py) with blocks of zeros behind it.
use slowfs.Prelude.{
  ltb, if◌then◌else◌, lt→ltb, le→ltb, Option-cases, le_or_lt, get_elem?-lt, get_elem?-past, length,
  get_elem?, ℕ, zero, suc, ◌+◌, ◌-◌, ◌/◌, ◌%◌, ◌≤◌, ◌<◌, ◌≡◌, refl, sym, ap, ◌∙◌, fun_ext, inl, inr,
  true, false, none, some, List, [], ◌∷◌, ◌++◌, arith,
}
use slowfs.Block.Sizes.{block_size}
use slowfs.Block.Device.{Disk}
use slowfs.Block.Driver.{Block}
use slowfs.Block.Driver.Reads.{base_of}
use slowfs.Block.Lists.{Blocks, AllApart, IsOutside, IsInside}
use slowfs.Bitmap.{BitMap, free}
use slowfs.Bitmap.Bits.{has}
use slowfs.Super.Taken.{AreFree}
use slowfs.Super.Inodes.{ZoneApart}
use slowfs.Super.Held.{AreHeld}
use slowfs.OpenFile.View.{view, view-block, IsInside-index}

-- The byte of a file where it has no block is 0.
view-none :
    (disk : Disk) (blocks : Blocks) (i : ℕ)
    → get_elem? blocks (i / block_size) ≡ none
    → view disk blocks i ≡ 0
unfolding view
view-none disk blocks i gone = rw gone

get_elem?-append :
    {A : Type 0} (xs ys : List A) (i : ℕ)
    → get_elem? (xs ++ ys) i
      ≡ (if ltb i (length xs) then get_elem? xs i else get_elem? ys (i - length xs))
get_elem?-append [] ys zero = ground arith
get_elem?-append [] ys (suc i) = ground arith
get_elem?-append (x ∷ xs) ys zero = ground arith
get_elem?-append (x ∷ xs) ys (suc i) = ground (arith, get_elem?-append xs ys i)

module _ (a b : Disk) (blocks taken : Blocks) where
  view-zeros_inside :
      ((p : ℕ) → IsInside blocks p → b.storage p ≡ a.storage p)
      → (i : ℕ) → i / block_size < length blocks
      → view b (blocks ++ taken) i ≡ view a blocks i
  view-zeros_inside same i lt =
      let (entry, there) = get_elem?-lt blocks (i / block_size) lt in
      let there' : get_elem? (blocks ++ taken) (i / block_size) ≡ some entry =
        get_elem?-append blocks taken (i / block_size) ∙ rw (lt→ltb _ _ lt) there in
      view-block b (blocks ++ taken) (i / block_size) entry i there' refl
      ∙ same (base_of entry.1 + i % block_size)
          (IsInside-index blocks (i / block_size) (i % block_size) there (omega arith))
      ∙ sym (view-block a blocks (i / block_size) entry i there refl)

  view-zeros_behind :
      ((p : ℕ) → IsInside taken p → b.storage p ≡ 0)
      → (i : ℕ) → length blocks ≤ i / block_size
      → view b (blocks ++ taken) i ≡ 0
  view-zeros_behind zeroed i past =
      let later : get_elem? (blocks ++ taken) (i / block_size)
          ≡ get_elem? taken (i / block_size - length blocks) =
        get_elem?-append blocks taken (i / block_size) ∙ rw (le→ltb _ _ past) in
      elim (Option-cases (get_elem? taken (i / block_size - length blocks))) [
        | inl gone ↦ view-none b (blocks ++ taken) i (later ∙ gone)
        | inr (entry, there) ↦
            view-block b (blocks ++ taken) (i / block_size) entry i (later ∙ there) refl
            ∙ zeroed (base_of entry.1 + i % block_size) (
                IsInside-index taken (i / block_size - length blocks) (i % block_size) there
                  (omega arith))
      ]

  -- Blocks of zeros behind a file do not change it.
  pub view-zeros :
      ((p : ℕ) → IsInside blocks p → b.storage p ≡ a.storage p)
      → ((p : ℕ) → IsInside taken p → b.storage p ≡ 0)
      → view b (blocks ++ taken) ≡ view a blocks
  view-zeros same zeroed = fun_ext λ i. elim (le_or_lt (length blocks) (i / block_size)) [
    | inl past ↦
        view-zeros_behind zeroed i past
        ∙ sym (view-none a blocks i (get_elem?-past blocks (i / block_size) past))
    | inr lt ↦ view-zeros_inside same i lt
  ]

-- What one list of blocks holds, another one apart from it does not.
IsOutside-AllApart :
    (block : Block) (blocks : Blocks) (p : ℕ)
    → AllApart block blocks
    → base_of block ≤ p
    → p < base_of block + block_size
    → IsOutside blocks p
IsOutside-AllApart block [] p apart from upto = tt
IsOutside-AllApart block (entry ∷ rest) p apart from upto =
    (let away = apart.0 in omega arith, IsOutside-AllApart block rest p apart.1 from upto)

-- The blocks that an inode holds have no byte of the blocks that are free.
AllApart-free :
    (block : Block) (i : ℕ) (dzone : List Block) (bm : BitMap) (taken : Blocks)
    → ZoneApart dzone
    → get_elem? dzone i ≡ some block
    → has bm i ≡ true
    → AreFree dzone bm taken
    → AllApart block taken
AllApart-free block i dzone bm [] apart here used free = tt
AllApart-free block i dzone bm ((id, b) ∷ rest) apart here used
      ((j, same, lt, unused, once, there), free) =
    (
      apart i j block b (λ e. let clash : true ≡ false = sym used ∙ ap (has bm) e ∙ unused in cc)
          here there,
      AllApart-free block i dzone bm rest apart here used free,
    )

pub AreHeld-IsOutside :
    (dzone : List Block) (bm : BitMap) (blocks taken : Blocks) (p : ℕ)
    → ZoneApart dzone
    → AreHeld dzone bm blocks
    → AreFree dzone bm taken
    → IsInside blocks p
    → IsOutside taken p
AreHeld-IsOutside dzone bm [] taken p apart held free inside = absurd inside
AreHeld-IsOutside dzone bm ((id, b) ∷ rest) taken p apart ((i, same, used, once, there), held) free
      (inl (from, upto)) =
    IsOutside-AllApart b taken p (AllApart-free b i dzone bm taken apart there used free) from upto
AreHeld-IsOutside dzone bm ((id, b) ∷ rest) taken p apart (first, held) free (inr inside) =
    AreHeld-IsOutside dzone bm rest taken p apart held free inside
