-- ===== src/Bitmap/NextFree.antt =====
-- What next_free() of a bitmap (linux/fs/super.py) finds.
use slowfs.Prelude.{
  Bool-cases, le_or_lt, length, get_or, ℤ, pos, negsuc, ℕ, zero, suc, ◌+◌, ◌-◌, ◌*◌, ◌/◌, ◌%◌, ◌<◌,
  ◌≡◌, refl, ◌∙◌, subst, ◌⊎◌, inl, inr, Bool, true, false, [], ◌∷◌, arith,
}
use slowfs.Bytes.{Bytes}
use slowfs.Bitmap.{BitMap, test_bit, scan_bits, scan_bytes, next_free}
use slowfs.Bitmap.Bits.{has, capacity}

AllUsed : ℕ → ℕ → ℕ → Type 0
AllUsed byte j m = (k : ℕ) → k < m → test_bit byte (j + k) ≡ true

-- What a scan of bits j, j + 1, … of a byte has found, where i is the index of bit j.
abbrev Scanned : ℕ → ℕ → ℕ → ℕ → ℕ ⊎ ℕ → Type 0
Scanned byte rounds j i (inl found) =
    (m : ℕ) × (found ≡ i + m) × (m < rounds) × (test_bit byte (j + m) ≡ false) × AllUsed byte j m
Scanned byte rounds j i (inr next) = (next ≡ i + rounds) × AllUsed byte j rounds

AllUsed-suc :
    (byte j m : ℕ) → test_bit byte j ≡ true → AllUsed byte (j + 1) m → AllUsed byte j (m + 1)
unfolding AllUsed
AllUsed-suc byte j m first rest zero h = let here : j + 0 ≡ j = omega arith in rw here first
AllUsed-suc byte j m first rest (suc k) h =
    let here : j + suc k ≡ j + 1 + k = omega arith in rw here (rest k (omega arith))

Scanned-next :
    (byte rounds j i : ℕ) (r : ℕ ⊎ ℕ)
    → test_bit byte j ≡ true
    → Scanned byte rounds (j + 1) (i + 1) r
    → Scanned byte (suc rounds) j i r
Scanned-next byte rounds j i (inl found) first (m, e, lt, unused, used) =
    let here : j + (m + 1) ≡ j + 1 + m = omega arith in
    (m + 1, omega arith, omega arith, rw here unused, AllUsed-suc byte j m first used)
Scanned-next byte rounds j i (inr next) first (e, used) =
    let count : suc rounds ≡ rounds + 1 = omega arith in
    (omega arith, rw count (AllUsed-suc byte j rounds first used))

scan_bits_lem : (byte rounds j i : ℕ) → Scanned byte rounds j i (scan_bits byte rounds j i)
unfolding scan_bits AllUsed
scan_bits_lem byte zero j i = (omega arith, λ k h. absurd (omega arith))
scan_bits_lem byte (suc rounds) j i = elim (Bool-cases (test_bit byte j)) [
  | inl used ↦ rw used (
      Scanned-next byte rounds j i (scan_bits byte rounds (j + 1) (i + 1)) used
        (scan_bits_lem byte rounds (j + 1) (i + 1)))
  | inr unused ↦
      let here : j + 0 ≡ j = omega arith in
      rw unused (0, omega arith, omega arith, rw here unused, λ k h. absurd (omega arith))
]

abbrev pub bit_of : Bytes → ℕ → Bool
bit_of xs i = test_bit (get_or xs (i / 8) 0) (i % 8)

-- What a scan of bytes has found, where i is the index of the first bit.
abbrev Found : Bytes → ℕ → ℤ → Type 0
Found xs i (pos found) =
    (m : ℕ) × (found ≡ i + m)
    × (m < length xs * 8)
    × (bit_of xs m ≡ false)
    × ((k : ℕ) → k < m → bit_of xs k ≡ true)
Found xs i (negsuc n) = (n ≡ 0) × ((k : ℕ) → k < length xs * 8 → bit_of xs k ≡ true)

pub bit_of-head : (x : ℕ) (xs : Bytes) (k : ℕ) → k < 8 → bit_of (x ∷ xs) k ≡ test_bit x (0 + k)
bit_of-head x xs k h =
    let b : k / 8 ≡ 0 = omega arith in let j : k % 8 ≡ 0 + k = omega arith in rw (b, j)

pub bit_of-tail : (x : ℕ) (xs : Bytes) (k m : ℕ) → k ≡ 8 + m → bit_of (x ∷ xs) k ≡ bit_of xs m
bit_of-tail x xs k m e =
    let b : k / 8 ≡ suc (m / 8) = omega arith in let j : k % 8 ≡ m % 8 = omega arith in rw (b, j)

used_so_far :
    (x : ℕ) (xs : Bytes) (m : ℕ)
    → AllUsed x 0 8
    → ((k : ℕ) → k < m → bit_of xs k ≡ true)
    → (k : ℕ) → k < 8 + m
    → bit_of (x ∷ xs) k ≡ true
unfolding AllUsed
used_so_far x xs m first rest k h = elim (le_or_lt 8 k) [
  | inl later ↦ bit_of-tail x xs k (k - 8) (omega arith) ∙ rest (k - 8) (omega arith)
  | inr here ↦ bit_of-head x xs k here ∙ first k here
]

Found-next :
    (x : ℕ) (xs : Bytes) (i : ℕ) (z : ℤ) → AllUsed x 0 8 → Found xs (i + 8) z → Found (x ∷ xs) i z
Found-next x xs i (pos found) first (m, e, lt, unused, used) = (
  8 + m,
  omega arith,
  omega arith,
  bit_of-tail x xs (8 + m) m refl ∙ unused,
  used_so_far x xs m first used,
)
Found-next x xs i (negsuc n) first (e, used) =
    (e, λ k h. used_so_far x xs (length xs * 8) first used k (omega arith))

-- The scan of the first byte, and what the rest of the scan finds from an index on.
Found-first :
    (x : ℕ) (xs : Bytes) (i : ℕ) (r : ℕ ⊎ ℕ)
    → Scanned x 8 0 i r
    → ((next : ℕ) → Found xs next (scan_bytes xs next))
    → Found (x ∷ xs) i (elim r [ inl found ↦ pos found | inr next ↦ scan_bytes xs next ])
unfolding AllUsed
Found-first x xs i (inl found) (m, e, lt, unused, used) rest = (
  m,
  e,
  omega arith,
  bit_of-head x xs m lt ∙ unused,
  λ k h. bit_of-head x xs k (omega arith) ∙ used k h,
)
Found-first x xs i (inr next) (e, used) rest =
    Found-next x xs i (scan_bytes xs next) used
      (subst (λ (k : ℕ). Found xs k (scan_bytes xs next)) e (rest next))

scan_bytes_lem : (xs : Bytes) (i : ℕ) → Found xs i (scan_bytes xs i)
unfolding scan_bytes
scan_bytes_lem [] i = (refl, λ k h. absurd (omega arith))
scan_bytes_lem (x ∷ xs) i =
    Found-first x xs i (scan_bits x 8 0 i) (scan_bits_lem x 8 0 i) (λ next. scan_bytes_lem xs next)

-- The least index that is not in the map, or -1 if every index is.
abbrev pub IsLeastFree : BitMap → ℤ → Type 0
IsLeastFree bm (pos i) =
    (i < capacity bm) × (has bm i ≡ false) × ((k : ℕ) → k < i → has bm k ≡ true)
IsLeastFree bm (negsuc n) = (n ≡ 0) × ((k : ℕ) → k < capacity bm → has bm k ≡ true)

IsLeastFree-Found : (bm : BitMap) (z : ℤ) → Found bm.content 0 z → IsLeastFree bm z
IsLeastFree-Found bm (pos i) (m, e, lt, unused, used) =
    let same : i ≡ m = omega arith in rw same (lt, unused, used)
IsLeastFree-Found bm (negsuc n) h = h

-- next_free() returns the least index below the capacity that is not in the map, and -1 exactly
-- when every index below the capacity is in it.
pub next_free_lem : (bm : BitMap) → IsLeastFree bm (next_free bm)
unfolding next_free
next_free_lem bm = IsLeastFree-Found bm (scan_bytes bm.content 0) (scan_bytes_lem bm.content 0)
