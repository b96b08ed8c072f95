-- ===== src/Bitmap/Iterate.antt =====
-- What the iteration over a bitmap (linux/fs/super.py) yields.
use slowfs.Prelude.{
  if◌then◌else◌, Bool-cases, length, ℕ, zero, suc, ◌+◌, ◌*◌, ◌<◌, ◌≡◌, refl, ◌∙◌, inl, inr, Bool,
  List, [], ◌∷◌, ◌++◌, arith,
}
use slowfs.Bytes.{Bytes}
use slowfs.Bitmap.{BitMap, test_bit, iter_bits, iter_bytes, iterate}
use slowfs.Bitmap.Bits.{has, capacity}
use slowfs.Bitmap.NextFree.{bit_of, bit_of-head, bit_of-tail}

-- The numbers i, i + 1, … of which there are n, as far as they have the property p.
abbrev pub select : (ℕ → Bool) → ℕ → ℕ → List ℕ
select p zero i = []
select p (suc n) i = if p i then i ∷ select p n (i + 1) else select p n (i + 1)

select-add :
    (p : ℕ → Bool) (n m k i : ℕ) → k ≡ n + m → select p n i ++ select p m (i + n) ≡ select p k i
select-add p zero m k i e =
    let same : m ≡ k = omega arith in let here : i + 0 ≡ i = omega arith in rw (same, here)
select-add p (suc n) m zero i e = absurd (omega arith)
select-add p (suc n) m (suc k) i e =
    let here : i + suc n ≡ i + 1 + n = omega arith in
    let ih = select-add p n m k (i + 1) (omega arith) in
    rw here (elim (Bool-cases (p i)) [ inl t ↦ rw t (rw ih) | inr f ↦ rw f ih ])

iter_bits_lem :
    (p : ℕ → Bool) (byte rounds j i : ℕ)
    → ((m : ℕ) → m < rounds → p (i + m) ≡ test_bit byte (j + m))
    → iter_bits byte rounds j i ≡ select p rounds i
unfolding iter_bits
iter_bits_lem p byte zero j i h = refl
iter_bits_lem p byte (suc rounds) j i h =
    let ih = iter_bits_lem p byte rounds (j + 1) (i + 1) shifted in
    let first : p i ≡ test_bit byte j = rw (at i, at j) at (h 0 (omega arith)) in
    rw (ih, first) (elim (Bool-cases (test_bit byte j)) [ inl t ↦ rw t | inr f ↦ rw f ])
  where
    at : (n : ℕ) → n + 0 ≡ n
    at n = omega arith

    shifted : (m : ℕ) → m < rounds → p (i + 1 + m) ≡ test_bit byte (j + 1 + m)
    shifted m lt =
        let e₁ : i + 1 + m ≡ i + suc m = omega arith in
        let e₂ : j + 1 + m ≡ j + suc m = omega arith in rw (e₁, e₂) (h (suc m) (omega arith))

iter_bytes_lem :
    (p : ℕ → Bool) (xs : Bytes) (i : ℕ)
    → ((m : ℕ) → m < length xs * 8 → p (i + m) ≡ bit_of xs m)
    → iter_bytes xs i ≡ select p (length xs * 8) i
unfolding iter_bytes
iter_bytes_lem p [] i h = refl
iter_bytes_lem p (x ∷ xs) i h =
    let first = iter_bits_lem p x 8 0 i (λ m lt. h m (omega arith) ∙ bit_of-head x xs m lt) in
    let rest = iter_bytes_lem p xs (i + 8) later in
    rw (first, rest) (select-add p 8 (length xs * 8) (suc (length xs) * 8) i (omega arith))
  where
    later : (m : ℕ) → m < length xs * 8 → p (i + 8 + m) ≡ bit_of xs m
    later m lt =
        let here : i + 8 + m ≡ i + (8 + m) = omega arith in
        rw here (h (8 + m) (omega arith) ∙ bit_of-tail x xs (8 + m) m refl)

-- The iteration yields exactly the numbers below the capacity that are in the map, each once and
-- in ascending order.
pub iterate_lem : (bm : BitMap) → iterate bm ≡ select (has bm) (capacity bm) 0
unfolding iterate
iterate_lem bm = iter_bytes_lem (has bm) bm.content 0 here
  where
    here : (m : ℕ) → m < length bm.content * 8 → has bm (0 + m) ≡ bit_of bm.content m
    here m lt = let same : 0 + m ≡ m = omega arith in rw same
