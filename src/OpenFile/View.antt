-- ===== src/OpenFile/View.antt =====
-- A file as a sequence of bytes: byte i of its blocks, laid out one behind the other.
use slowfs.Prelude.{
  ◌==◌, ==_iff, Bool-cases, Option-cases, length, get_elem?, ℤ, ℕ, zero, suc, ◌+◌, ◌-◌, ◌/◌, ◌%◌,
  ◌≤◌, ◌<◌, ◌≡◌, refl, sym, fun_ext, subst, ◌⊎◌, inl, inr, false, Option, none, some,
  some-injective, [], ◌∷◌, arith,
}
use slowfs.Bytes.{Bytes, RawFile, read_at, write_at}
use slowfs.Block.Sizes.{block_size}
use slowfs.Block.Device.{Disk}
use slowfs.Block.Driver.{Block}
use slowfs.Block.Driver.Reads.{base_of}
use slowfs.Block.Driver.Writes.{written}
use slowfs.Block.Lists.{Blocks, PairwiseApart, IsApart-index, IsInside}
use slowfs.Directory.Lookup.{missing}

abbrev byte_of : Disk → Option (ℤ × Block) → ℕ → ℕ
byte_of disk none i = 0
byte_of disk (some entry) i = disk.storage (base_of entry.1 + i)

-- The byte at an offset of the file whose blocks these are, and 0 past them.
unfoldable pub view : Disk → Blocks → RawFile
view disk blocks i = byte_of disk (get_elem? blocks (i / block_size)) (i % block_size)

pub read_at-shift :
    (f g : RawFile) (a b n : ℕ)
    → ((i : ℕ) → i < n → f (a + i) ≡ g (b + i))
    → read_at f a n ≡ read_at g b n
unfolding read_at
read_at-shift f g a b zero h = refl
read_at-shift f g a b (suc n) h =
    let first : f a ≡ g b = rw (at a, at b) at (h 0 (omega arith)) in
    rw (first, read_at-shift f g (a + 1) (b + 1) n next)
  where
    at : (k : ℕ) → k + 0 ≡ k
    at k = omega arith

    next : (i : ℕ) → i < n → f (a + 1 + i) ≡ g (b + 1 + i)
    next i lt =
        let e₁ : a + 1 + i ≡ a + suc i = omega arith in
        let e₂ : b + 1 + i ≡ b + suc i = omega arith in rw (e₁, e₂) (h (suc i) (omega arith))

-- Inside one block, the file is the disk at that block.
pub view-block :
    (disk : Disk) (blocks : Blocks) (b : ℕ) (entry : ℤ × Block) (i : ℕ)
    → get_elem? blocks b ≡ some entry
    → i / block_size ≡ b
    → view disk blocks i ≡ disk.storage (base_of entry.1 + i % block_size)
unfolding view
view-block disk blocks b entry i there at = rw (at, there)

pub read_at-view :
    (disk : Disk) (blocks : Blocks) (b : ℕ) (entry : ℤ × Block) (off n : ℕ)
    → get_elem? blocks b ≡ some entry
    → off / block_size ≡ b
    → off % block_size + n ≤ block_size
    → read_at disk.storage (base_of entry.1 + off % block_size) n ≡ read_at (view disk blocks) off n
read_at-view disk blocks b entry off n there at fits =
    read_at-shift disk.storage (view disk blocks) (base_of entry.1 + off % block_size) off n λ i lt.
      let here : base_of entry.1 + off % block_size + i ≡ base_of entry.1 + (off + i) % block_size =
        omega arith in
      rw here (sym (view-block disk blocks b entry (off + i) there (omega arith)))

-- A write into one block is a write to the file.
pub view-written :
    (disk : Disk) (blocks : Blocks) (b off : ℕ) (entry : ℤ × Block) (bs : Bytes)
    → PairwiseApart blocks
    → get_elem? blocks b ≡ some entry
    → off / block_size ≡ b
    → off % block_size + length bs ≤ block_size
    → view (written disk (base_of entry.1 + off % block_size) bs) blocks
      ≡ write_at (view disk blocks) off bs
unfolding view write_at
view-written disk blocks b off entry bs apart there at fits = fun_ext λ i.
    elim (Bool-cases (i / block_size == b)) [
      | inl here ↦
          let same : i / block_size ≡ b = (==_iff _ _).0 here in
          let index : base_of entry.1 + i % block_size - (base_of entry.1 + off % block_size)
              ≡ i - off =
            omega arith in
          rw (same, there, index) (ground arith)
      | inr elsewhere ↦ other i elsewhere (Option-cases (get_elem? blocks (i / block_size)))
    ]
  where
    other :
        (i : ℕ)
        → (i / block_size == b) ≡ false
        → (get_elem? blocks (i / block_size) ≡ none)
          ⊎ ((e : ℤ × Block) × (get_elem? blocks (i / block_size) ≡ some e))
        → view (written disk (base_of entry.1 + off % block_size) bs) blocks i
          ≡ write_at (view disk blocks) off bs i
    other i elsewhere (inl missing) = rw missing (ground arith)
    other i elsewhere (inr (e, found)) =
        let apart' = IsApart-index blocks b (i / block_size) apart (ground arith) there found in
        rw found (ground arith)

pub IsInside-index :
    (blocks : Blocks) (b i : ℕ) {entry : ℤ × Block}
    → get_elem? blocks b ≡ some entry
    → i < block_size
    → IsInside blocks (base_of entry.1 + i)
IsInside-index [] b i e lt = cc
IsInside-index (x ∷ blocks) zero i e lt =
    let same = some-injective _ _ e in
    inl (
      subst
        (λ (y : ℤ × Block).
          (base_of x.1 ≤ base_of y.1 + i) × (base_of y.1 + i < base_of x.1 + block_size))
        same (omega arith, omega arith))
IsInside-index (x ∷ blocks) (suc b) i e lt = inr (IsInside-index blocks b i e lt)

-- A file depends on the bytes of its blocks only.
pub view-ext :
    (a b : Disk) (blocks : Blocks)
    → ((p : ℕ) → IsInside blocks p → b.storage p ≡ a.storage p)
    → view b blocks ≡ view a blocks
unfolding view
view-ext a b blocks same = fun_ext λ i. elim (Option-cases (get_elem? blocks (i / block_size))) [
  | inl gone ↦ rw gone
  | inr (entry, there) ↦ rw there (
      same (base_of entry.1 + i % block_size)
        (IsInside-index blocks (i / block_size) (i % block_size) there (omega arith)))
]
