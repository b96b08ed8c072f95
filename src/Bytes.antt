-- ===== src/Bytes.antt =====
-- Python's byte sequences (`bytes`, `bytearray`, `memoryview`) as lists of numbers, and a file
-- opened for raw reading and writing. No part of the program asks for the length of that file, and
-- a read past its end leaves zeros in the zeroed buffer that it reads into, while a write past its
-- end fills the gap with zeros: so the file is the function from an offset to its byte, 0 past
-- the end.
pub mod Writes
use slowfs.Prelude.{
  ltb, leb, if◌then◌else◌, length-take, length-drop, length-replicate, length, get_elem?, get_or,
  take, drop, replicate, ℕ, zero, suc, ◌+◌, ◌-◌, ◌≤◌, ◌<◌, min, max, ◌≡◌, refl, sym, ap, ◌∙◌, ◌&&◌,
  some, List, [], ◌∷◌, ◌++◌, arith,
}

abbrev pub Bytes : Type 0
Bytes = List ℕ

-- xs[lo:hi] for 0 ≤ lo and 0 ≤ hi.
abbrev pub slice {ℓ} : {A : Type ℓ} → ℕ → ℕ → List A → List A
slice lo hi xs = take (hi - lo) (drop lo xs)

-- xs[lo:hi] = vs on a bytearray.
abbrev pub set_slice {ℓ} : {A : Type ℓ} → ℕ → ℕ → List A → List A → List A
set_slice lo hi vs xs = take lo xs ++ (vs ++ drop (max lo hi) xs)

-- bytearray(n)
abbrev pub zeros : ℕ → Bytes
zeros n = replicate n 0

abbrev pub RawFile : Type 0
RawFile = ℕ → ℕ

-- f.seek(off); f.readinto(a zeroed buffer of n bytes)
unfoldable pub read_at : RawFile → ℕ → ℕ → Bytes
read_at f off zero = []
read_at f off (suc n) = f off ∷ read_at f (off + 1) n

-- f.seek(off); f.write(bs)
unfoldable pub write_at : RawFile → ℕ → Bytes → RawFile
write_at f off bs i = if leb off i && ltb i (off + length bs) then get_or bs (i - off) 0 else f i

pub length-read_at : (f : RawFile) (off n : ℕ) → length (read_at f off n) ≡ n
unfolding read_at
length-read_at f off zero = refl
length-read_at f off (suc n) = ap suc (length-read_at f (off + 1) n)

pub get_or-read_at :
    (f : RawFile) (off n i : ℕ)
    → get_or (read_at f off n) i 0 ≡ (if ltb i n then f (off + i) else 0)
unfolding read_at
get_or-read_at f off zero i = ground arith
get_or-read_at f off (suc n) zero = ground arith
get_or-read_at f off (suc n) (suc i) = ground (arith, get_or-read_at f (off + 1) n i)

pub get_elem?-read_at :
    (f : RawFile) (off n i : ℕ) → i < n → get_elem? (read_at f off n) i ≡ some (f (off + i))
unfolding read_at
get_elem?-read_at f off zero i h = elim h [ ]
get_elem?-read_at f off (suc n) zero h = ground arith
get_elem?-read_at f off (suc n) (suc i) h = ground (arith, get_elem?-read_at f (off + 1) n i)

pub take-read_at : (f : RawFile) (off n k : ℕ) → take k (read_at f off n) ≡ read_at f off (min k n)
unfolding read_at
take-read_at f off n zero = ground arith
take-read_at f off zero (suc k) = ground arith
take-read_at f off (suc n) (suc k) = ground (arith, take-read_at f (off + 1) n k)

pub drop-read_at :
    (f : RawFile) (off n k : ℕ) → drop k (read_at f off n) ≡ read_at f (off + k) (n - k)
unfolding read_at
drop-read_at f off n zero = ground arith
drop-read_at f off zero (suc k) = ground arith
drop-read_at f off (suc n) (suc k) = ground (arith, drop-read_at f (off + 1) n k)

pub read_at-add :
    (f : RawFile) (off n m k : ℕ)
    → n + m ≡ k
    → read_at f off n ++ read_at f (off + n) m ≡ read_at f off k
unfolding read_at
read_at-add f off zero m k e = ground arith
read_at-add f off (suc n) m zero e = absurd (omega arith)
read_at-add f off (suc n) m (suc k) e = ground (arith, read_at-add f (off + 1) n m k)

pub read_at-zero : (f : RawFile) (off : ℕ) → read_at f off 0 ≡ []
unfolding read_at
read_at-zero f off = refl

pub zeros-zero : zeros 0 ≡ []
unfolding replicate
zeros-zero = refl

pub length-zeros : (n : ℕ) → length (zeros n) ≡ n
length-zeros n = length-replicate {0} {A = ℕ} n 0

-- A part of what was read is a shorter read.
pub slice-read_at :
    (f : RawFile) (off n lo hi : ℕ)
    → hi ≤ n
    → slice lo hi (read_at f off n) ≡ read_at f (off + lo) (hi - lo)
slice-read_at f off n lo hi h =
    ap (take (hi - lo)) (drop-read_at f off n lo)
    ∙ take-read_at f (off + lo) (n - lo) (hi - lo)
    ∙ ap (read_at f (off + lo)) fits
  where
    fits : min (hi - lo) (n - lo) ≡ hi - lo
    fits = omega arith

pub length-slice {ℓ} :
    {A : Type ℓ} (lo hi : ℕ) (xs : List A) → hi ≤ length xs → length (slice lo hi xs) ≡ hi - lo
length-slice lo hi xs h = omega (arith, length-take (hi - lo) (drop lo xs), length-drop lo xs)

drop-nil {ℓ} : {A : Type ℓ} (n : ℕ) → drop {A = A} n [] ≡ []
drop-nil zero = refl
drop-nil (suc n) = refl

drop-drop {ℓ} : {A : Type ℓ} (n m : ℕ) (xs : List A) → drop m (drop n xs) ≡ drop (n + m) xs
drop-drop zero m xs = ground arith
drop-drop (suc n) m [] = drop-nil m ∙ sym (drop-nil (suc n + m))
drop-drop (suc n) m (x ∷ xs) =
    let e : suc n + m ≡ suc (n + m) = omega arith in rw e (drop-drop n m xs)

take-append-drop {ℓ} : {A : Type ℓ} (n : ℕ) (xs : List A) → take n xs ++ drop n xs ≡ xs
take-append-drop zero xs = refl
take-append-drop (suc n) [] = refl
take-append-drop (suc n) (x ∷ xs) = rw (take-append-drop n xs)

-- The next part of a sequence and what is behind it.
pub slice-append-drop {ℓ} :
    {A : Type ℓ} (p k : ℕ) (xs : List A) → slice p (p + k) xs ++ drop (p + k) xs ≡ drop p xs
slice-append-drop p k xs =
    let same : p + k - p ≡ k = omega arith in
    rw (same, ← drop-drop p k xs) (take-append-drop k (drop p xs))

pub drop_all {ℓ} : {A : Type ℓ} (n : ℕ) (xs : List A) → length xs ≤ n → drop n xs ≡ []
drop_all zero [] h = refl
drop_all zero (x ∷ xs) h = absurd (omega arith)
drop_all (suc n) [] h = refl
drop_all (suc n) (x ∷ xs) h = drop_all n xs (omega arith)
