-- ===== src/Bitmap/Alloc.antt =====
-- What alloc() and free() of a bitmap (linux/fs/super.py) do to the set that it stands for.
use slowfs.Prelude.{
  ◌==◌, if◌then◌else◌, ==_iff, Bool-cases, length-set, get_elem?-get_or, get_elem?-past, get_or-set,
  length, get_elem?, set, get_or, pos, negsuc, ℕ, zero, suc, ◌/◌, ◌%◌, ◌^◌, ◌≤◌, ◌<◌, bit_and,
  bit_xor, ◌≡◌, refl, ◌∙◌, ◌⊎◌, inl, inr, Bool, true, false, some, [], ◌∷◌, arith,
}
use slowfs.Exec.{value_error, index_error, assertion_error, ok, raised}
use slowfs.Bytes.{Bytes}
use slowfs.Bitmap.{BitMap, test_bit, alloc, all_but, free}
use slowfs.Bitmap.Bits.{has, capacity, AllBytes, toggle_lem, clear_lem}

AllBytes-get_or : (xs : Bytes) (i : ℕ) → AllBytes xs → get_or xs i 0 < 256
AllBytes-get_or [] i h = omega arith
AllBytes-get_or (x ∷ xs) zero h = h.0
AllBytes-get_or (x ∷ xs) (suc i) h = AllBytes-get_or xs i h.1

AllBytes-set : (xs : Bytes) (i v : ℕ) → AllBytes xs → v < 256 → AllBytes (set xs i v)
AllBytes-set [] i v h hv = tt
AllBytes-set (x ∷ xs) zero v h hv = (hv, h.1)
AllBytes-set (x ∷ xs) (suc i) v h hv = (h.0, AllBytes-set xs i v h.1 hv)

-- `bm'` is as long as `bm`, holds bytes, and has i exactly if `b`, and all else as `bm` has it.
pub record IsUpdate (bm : BitMap) (i : ℕ) (b : Bool) (bm' : BitMap) : Type 0 where
  pub same_size : bm'.size ≡ bm.size
  pub same_length : length bm'.content ≡ length bm.content
  pub bytes : AllBytes bm'.content
  pub members : (k : ℕ) → has bm' k ≡ (if k == i then b else has bm k)

module _ (bm : BitMap) (i : ℕ) (bytes : AllBytes bm.content) (fits : i < capacity bm) where
  -- The byte that i stands in is replaced by one that differs at i's bit at most.
  put-IsUpdate :
      (v : ℕ) (b : Bool)
      → v < 256
      → ((k : ℕ)
          → k < 8
          → test_bit v k ≡ (if k == i % 8 then b else test_bit (get_or bm.content (i / 8) 0) k))
      → IsUpdate bm i b (record bm { content = set bm.content (i / 8) v })
  put-IsUpdate v b small bits = record {
    same_size = refl;
    same_length = length-set bm.content (i / 8) v;
    bytes = AllBytes-set bm.content (i / 8) v bytes small;
    members = member;
  }
    where
      inside : i / 8 < length bm.content
      inside = omega arith

      -- k is in the byte that is replaced, or in another one.
      by_byte :
          (k : ℕ)
          → ((k / 8 == i / 8) ≡ true) ⊎ ((k / 8 == i / 8) ≡ false)
          → test_bit (if k / 8 == i / 8 then v else get_or bm.content (k / 8) 0) (k % 8)
            ≡ (if k == i then b else has bm k)
      by_byte k (inl here) =
          let same : k / 8 ≡ i / 8 = (==_iff _ _).0 here in
          rw (here, same) (bits (k % 8) (omega arith) ∙ ground arith)
      by_byte k (inr elsewhere) =
          let other : (k == i) ≡ false = ground arith in rw (elsewhere, other)

      member :
          (k : ℕ)
          → has (record bm { content = set bm.content (i / 8) v }) k
            ≡ (if k == i then b else has bm k)
      member k =
          rw (get_or-set bm.content (i / 8) v (k / 8) 0 inside)
            (by_byte k (Bool-cases (k / 8 == i / 8)))

  byte_small : get_or bm.content (i / 8) 0 < 256
  byte_small = AllBytes-get_or bm.content (i / 8) bytes

  there : get_elem? bm.content (i / 8) ≡ some (get_or bm.content (i / 8) 0)
  there = get_elem?-get_or bm.content (i / 8) 0 (omega arith)

  -- In a map of bytes, an index of its range that is not in use can be allocated, and then the map has
  -- this index and the indices that it had.
  pub alloc_lem :
      has bm i ≡ false → ((alloc (pos i) bm).0 ≡ ok tt) × IsUpdate bm i true (alloc (pos i) bm).1
  unfolding alloc
  alloc_lem unused =
      let byte : ℕ = get_or bm.content (i / 8) 0 in
      let small = (toggle_lem byte (i % 8) 0 byte_small (omega arith) (omega arith)).1 in
      rw (there, unused)
        (
          refl,
          put-IsUpdate (bit_xor byte (2 ^ (i % 8))) true small
              (λ k hk. ground (arith, toggle_lem byte (i % 8) k byte_small)),
        )

  alloc_used : has bm i ≡ true → alloc (pos i) bm ≡ (raised assertion_error, bm)
  unfolding alloc
  alloc_used used = rw (there, used)

  -- In a map of bytes, an index of its range, in use or not, can be freed, and then the map has the
  -- other indices that it had.
  pub free_lem : ((free (pos i) bm).0 ≡ ok tt) × IsUpdate bm i false (free (pos i) bm).1
  unfolding free
  free_lem =
      let byte : ℕ = get_or bm.content (i / 8) 0 in
      let small = (clear_lem byte (i % 8) 0 byte_small (omega arith) (omega arith)).1 in
      rw there (
        refl,
        put-IsUpdate (bit_and byte (all_but (i % 8))) false small
            (λ k hk. (clear_lem byte (i % 8) k byte_small (omega arith) hk).0),
      )

-- In a map of bytes, the second of two alloc() in a row of an index of its range fails with
-- AssertionError and leaves the map as the first has left it, with the index in it, whether the
-- index was in use before or not: alloc() is not idempotent.
pub alloc-alloc :
    (bm : BitMap) (i : ℕ)
    → AllBytes bm.content
    → i < capacity bm
    → let once = (alloc (pos i) bm).1 in
      (alloc (pos i) once ≡ (raised assertion_error, once)) × (has once i ≡ true)
alloc-alloc bm i bytes fits = elim (Bool-cases (has bm i)) [
  | inl used ↦
      let again = alloc_used bm i bytes fits used in (rw (again, again) refl, rw again used)
  | inr unused ↦
      let (ran, step) = alloc_lem bm i bytes fits unused in
      let once = (alloc (pos i) bm).1 in
      let same : i == i ≡ true = (==_iff i i).1 refl in
      let used : has once i ≡ true = step.members i ∙ rw same refl in
      let len = step.same_length in (alloc_used once i step.bytes (omega arith) used, used)
]

-- An index past the end of the map is refused by alloc() and free() with IndexError, and a negative one with
-- ValueError; the map stays as it is.
pub refused_index :
    (bm : BitMap) (i n : ℕ)
    → capacity bm ≤ i
    → (alloc (pos i) bm ≡ (raised index_error, bm))
      × (free (pos i) bm ≡ (raised index_error, bm))
      × (alloc (negsuc n) bm ≡ (raised value_error, bm))
      × (free (negsuc n) bm ≡ (raised value_error, bm))
unfolding alloc free
refused_index bm i n beyond =
    let none_there = get_elem?-past bm.content (i / 8) (omega arith) in
    (rw none_there, rw none_there, refl, refl)
