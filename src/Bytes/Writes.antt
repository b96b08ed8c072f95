-- ===== src/Bytes/Writes.antt =====
-- What a file reads after a write.
use slowfs.Prelude.{
  ltb, if◌then◌else◌, length-append, length-take, length-drop, get_or-append, get_or-take,
  get_or-drop, take-append_at, drop-append_at, drop-replicate, length, get_or, take, drop, ℕ, zero,
  suc, ◌+◌, ◌-◌, ◌≤◌, ◌<◌, max, ◌≡◌, refl, sym, ap, ◌∙◌, fun_ext, ◌⊎◌, List, [], ◌∷◌, ◌++◌,
  append_assoc, append-nil, arith,
}
use slowfs.Bytes.{
  Bytes, slice, set_slice, zeros, RawFile, read_at, write_at, length-read_at, get_or-read_at,
  slice-read_at, drop_all,
}

pub write_at-nil : (f : RawFile) (off : ℕ) → write_at f off [] ≡ f
unfolding write_at
write_at-nil f off = fun_ext λ i. ground arith

-- Two writes of adjacent parts are one write.
pub write_at-append :
    (f : RawFile) (off : ℕ) (us vs : Bytes) (n : ℕ)
    → n ≡ off + length us
    → write_at (write_at f off us) n vs ≡ write_at f off (us ++ vs)
unfolding write_at
write_at-append f off us vs n e =
    fun_ext λ i. ground (arith, length-append us vs, get_or-append us vs (i - off) 0)

pub length-set_slice {ℓ} :
    {A : Type ℓ} (lo hi : ℕ) (vs xs : List A)
    → hi ≡ lo + length vs
    → hi ≤ length xs
    → length (set_slice lo hi vs xs) ≡ length xs
length-set_slice lo hi vs xs e h = omega (
  arith,
  length-append (take lo xs) (vs ++ drop (max lo hi) xs),
  length-append vs (drop (max lo hi) xs),
  length-take lo xs,
  length-drop (max lo hi) xs,
)

get_or-set_slice :
    (lo hi : ℕ) (vs xs : Bytes) (i : ℕ)
    → hi ≡ lo + length vs
    → hi ≤ length xs
    → get_or (set_slice lo hi vs xs) i 0 ≡ (
        if ltb i lo
        then get_or xs i 0
        else if ltb i hi
        then get_or vs (i - lo) 0
        else get_or xs i 0)
get_or-set_slice lo hi vs xs i e h = ground (
  arith,
  length-take lo xs,
  get_or-append (take lo xs) (vs ++ drop (max lo hi) xs) i 0,
  get_or-append vs (drop (max lo hi) xs) (i - lo) 0,
  get_or-take lo xs i 0,
  get_or-drop (max lo hi) xs (i - lo - length vs) 0,
)

-- Reading a stretch, changing a part of it and writing it back is a write of that part.
pub write_at-set_slice :
    (f : RawFile) (off n lo hi : ℕ) (vs : Bytes)
    → hi ≡ lo + length vs
    → hi ≤ n
    → write_at f off (set_slice lo hi vs (read_at f off n)) ≡ write_at f (off + lo) vs
unfolding write_at
write_at-set_slice f off n lo hi vs e h = fun_ext λ i.
    let len = length-read_at f off n in
    let inside : hi ≤ length (read_at f off n) = omega (arith, len) in
    let e₁ = length-set_slice lo hi vs (read_at f off n) e inside in
    let e₂ = get_or-set_slice lo hi vs (read_at f off n) (i - off) e inside in
    let e₃ = get_or-read_at f off n (i - off) in rw (e₁, e₂, e₃, len) (ground arith)

pub read_at-ext :
    (f g : RawFile) (off n : ℕ)
    → ((i : ℕ) → off ≤ i → i < off + n → f i ≡ g i)
    → read_at f off n ≡ read_at g off n
unfolding read_at
read_at-ext f g off zero h = refl
read_at-ext f g off (suc n) h =
    ground (arith, h off, read_at-ext f g (off + 1) n (λ i a b. h i (omega arith) (omega arith)))

-- A read that a write does not touch.
pub read_at-write_at_disjoint :
    (f : RawFile) (off : ℕ) (vs : Bytes) (p n : ℕ)
    → (p + n ≤ off) ⊎ (off + length vs ≤ p)
    → read_at (write_at f off vs) p n ≡ read_at f p n
unfolding write_at
read_at-write_at_disjoint f off vs p n h =
    read_at-ext (write_at f off vs) f p n (λ i a b. ground arith)

-- A read of what was written.
pub read_at-write_at :
    (f : RawFile) (off : ℕ) (vs : Bytes) (n : ℕ)
    → n ≡ length vs
    → read_at (write_at f off vs) off n ≡ vs
unfolding read_at write_at
read_at-write_at f off [] n e = ground arith
read_at-write_at f off (v ∷ vs) zero e = absurd (omega arith)
read_at-write_at f off (v ∷ vs) (suc n) e = ground (
  arith,
  write_at-append f off (v ∷ []) vs (off + 1),
  read_at-write_at (write_at f off (v ∷ [])) (off + 1) vs n (omega arith),
)

-- A read of a part of what was written.
pub read_at-write_at_part :
    (f : RawFile) (off : ℕ) (vs : Bytes) (k n : ℕ)
    → k + n ≤ length vs
    → read_at (write_at f off vs) (off + k) n ≡ slice k (k + n) vs
read_at-write_at_part f off vs k n h =
    sym (ap (read_at (write_at f off vs) (off + k)) same)
    ∙ sym (slice-read_at (write_at f off vs) off (length vs) k (k + n) h)
    ∙ ap (slice k (k + n)) (read_at-write_at f off vs (length vs) refl)
  where
    same : k + n - k ≡ n
    same = omega arith

-- A buffer that is filled from the left: the next part goes behind what is there.
pub set_slice-fill :
    (us vs : Bytes) (p q m k : ℕ)
    → length us ≡ p
    → length vs ≡ k
    → q ≡ p + k
    → set_slice p q vs (us ++ zeros m) ≡ (us ++ vs) ++ zeros (m - k)
set_slice-fill us vs p q m k hp hk hq =
    let e₁ = take-append_at us (zeros m) p hp in
    let e₂ = drop-append_at us (zeros m) (max p q) k (omega arith) in
    rw (e₁, e₂, drop-replicate) (sym (append_assoc us vs (zeros (m - k))))

pub set_slice_whole :
    (k : ℕ) (vs xs : Bytes) → length vs ≡ k → length xs ≤ k → set_slice 0 k vs xs ≡ vs
set_slice_whole k vs xs hk h =
    let at_end : max 0 k ≡ k = omega arith in rw (at_end, drop_all k xs h, append-nil)
