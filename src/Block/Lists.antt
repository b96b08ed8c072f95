-- ===== src/Block/Lists.antt =====
-- Lists of blocks with their numbers, as an inode keeps them.
use slowfs.Prelude.{
  le_or_lt, length, get_elem?, ℤ, ℕ, zero, suc, ◌+◌, ◌≤◌, ◌<◌, ◌≡◌, refl, ap, subst, ◌≢◌, ◌⊎◌, inl,
  inr, some, some-injective, List, [], ◌∷◌, arith,
}
use slowfs.Block.Sizes.{block_size}
use slowfs.Block.Device.{Disk}
use slowfs.Block.Driver.{Block}
use slowfs.Block.Driver.Reads.{IsOn, base_of}
use slowfs.Block.Driver.RoundTrip.{IsApart}

abbrev pub Blocks : Type 0
Blocks = List (ℤ × Block)

-- All the blocks are on the disk.
abbrev pub AllOn : Disk → Blocks → Type 0
AllOn disk [] = Unit
AllOn disk (entry ∷ blocks) = IsOn disk entry.1 × AllOn disk blocks

-- The block of an index, where there is one.
pub block_of_index :
    (disk : Disk) (blocks : Blocks) (b : ℕ)
    → AllOn disk blocks
    → b < length blocks
    → (entry : ℤ × Block) × (get_elem? blocks b ≡ some entry) × IsOn disk entry.1
block_of_index disk [] b on h = elim h [ ]
block_of_index disk (entry ∷ blocks) zero on h = (entry, refl, on.0)
block_of_index disk (entry ∷ blocks) (suc b) on h = block_of_index disk blocks b on.1 (omega arith)

-- No two blocks share a sector.
abbrev pub AllApart : Block → Blocks → Type 0
AllApart block [] = Unit
AllApart block (entry ∷ blocks) = IsApart block entry.1 × AllApart block blocks

abbrev pub PairwiseApart : Blocks → Type 0
PairwiseApart [] = Unit
PairwiseApart (entry ∷ blocks) = AllApart entry.1 blocks × PairwiseApart blocks

AllApart-index :
    (block : Block) (blocks : Blocks) (i : ℕ) {entry : ℤ × Block}
    → AllApart block blocks
    → get_elem? blocks i ≡ some entry
    → IsApart block entry.1
AllApart-index block [] i apart e = cc
AllApart-index block (x ∷ blocks) zero apart e =
    subst (λ (y : ℤ × Block). IsApart block y.1) (some-injective _ _ e) apart.0
AllApart-index block (x ∷ blocks) (suc i) apart e = AllApart-index block blocks i apart.1 e

IsApart-sym : (a b : Block) → IsApart a b → IsApart b a
IsApart-sym a b (inl h) = inr h
IsApart-sym a b (inr h) = inl h

pub IsApart-index :
    (blocks : Blocks) (i j : ℕ) {x y : ℤ × Block}
    → PairwiseApart blocks
    → i ≢ j
    → get_elem? blocks i ≡ some x
    → get_elem? blocks j ≡ some y
    → IsApart x.1 y.1
IsApart-index [] i j apart ne ex ey = cc
IsApart-index (z ∷ blocks) zero zero apart ne ex ey = absurd (ne refl)
IsApart-index (z ∷ blocks) zero (suc j) {x} {y} apart ne ex ey =
    subst (λ (w : ℤ × Block). IsApart w.1 y.1) (some-injective _ _ ex)
      (AllApart-index z.1 blocks j apart.0 ey)
IsApart-index (z ∷ blocks) (suc i) zero {x} {y} apart ne ex ey =
    subst (λ (w : ℤ × Block). IsApart x.1 w.1) (some-injective _ _ ey)
      (IsApart-sym z.1 x.1 (AllApart-index z.1 blocks i apart.0 ex))
IsApart-index (z ∷ blocks) (suc i) (suc j) apart ne ex ey =
    IsApart-index blocks i j apart.1 (λ e. ne (ap suc e)) ex ey

-- No block of the list holds the byte at an offset of the disk.
abbrev pub IsOutside : Blocks → ℕ → Type 0
IsOutside [] p = Unit
IsOutside (entry ∷ blocks) p =
    ((p < base_of entry.1) ⊎ (base_of entry.1 + block_size ≤ p)) × IsOutside blocks p

-- Some block of the list holds the byte at an offset of the disk.
abbrev pub IsInside : Blocks → ℕ → Type 0
IsInside [] p = ⊥
IsInside (entry ∷ blocks) p =
    ((base_of entry.1 ≤ p) × (p < base_of entry.1 + block_size)) ⊎ IsInside blocks p

pub IsInside-or_IsOutside : (blocks : Blocks) (p : ℕ) → IsInside blocks p ⊎ IsOutside blocks p
IsInside-or_IsOutside [] p = inr tt
IsInside-or_IsOutside (entry ∷ blocks) p = elim (IsInside-or_IsOutside blocks p) [
  | inl inside ↦ inl (inr inside)
  | inr outside ↦ elim (le_or_lt (base_of entry.1) p) [
    | inl from ↦ elim (le_or_lt (base_of entry.1 + block_size) p) [
      | inl past ↦ inr (inr past, outside)
      | inr within ↦ inl (inl (from, within))
    ]
    | inr before ↦ inr (inl before, outside)
  ]
]

pub IsOutside-index :
    (blocks : Blocks) (i p : ℕ) {entry : ℤ × Block}
    → IsOutside blocks p
    → get_elem? blocks i ≡ some entry
    → (p < base_of entry.1) ⊎ (base_of entry.1 + block_size ≤ p)
IsOutside-index [] i p out e = cc
IsOutside-index (x ∷ blocks) zero p out e =
    subst (λ (y : ℤ × Block). (p < base_of y.1) ⊎ (base_of y.1 + block_size ≤ p))
      (some-injective _ _ e) out.0
IsOutside-index (x ∷ blocks) (suc i) p out e = IsOutside-index blocks i p out.1 e

pub AllOn-size :
    (a b : Disk) (blocks : Blocks) → b.num_sectors ≡ a.num_sectors → AllOn a blocks → AllOn b blocks
AllOn-size a b [] e h = tt
AllOn-size a b (entry ∷ blocks) e h = (omega arith, AllOn-size a b blocks e h.1)
