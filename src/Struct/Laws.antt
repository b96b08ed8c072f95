-- ===== src/Struct/Laws.antt =====
-- Packing and unpacking of the words of `struct`.
use slowfs.Prelude.{
  lt→ltb, length, ℤ, pos, negsuc, ℕ, suc, ◌+◌, ◌/◌, ◌%◌, ◌^◌, ◌<◌, ◌≡◌, refl, some, List, [], ◌∷◌,
  ◌++◌, arith,
}
use slowfs.Exec.{Result, ok}
use slowfs.Bytes.{Bytes}
use slowfs.Struct.{
  be32, of_be32, pack_u32, word_of, signed_of, pack_i32, pack_join, pack_u32s, unpack_words,
}

pub of_be32_lem :
    (n : ℕ)
    → n < 2 ^ 32
    → of_be32 (n / 2 ^ 24 % 256) (n / 2 ^ 16 % 256) (n / 2 ^ 8 % 256) (n % 256) ≡ n
unfolding of_be32
of_be32_lem n h = omega arith

-- A word and more words behind it.
pub unpack_words-be32 :
    (n k : ℕ) (rest : Bytes) {ws : List ℕ}
    → n < 2 ^ 32
    → unpack_words k rest ≡ some ws
    → unpack_words (suc k) (be32 n ++ rest) ≡ some (n ∷ ws)
unfolding unpack_words be32
unpack_words-be32 n k rest h e = rw (e, of_be32_lem n h)

-- Numbers that fit pack to words that unpack to them.
pub pack_u32-lt : (n : ℕ) → n < 2 ^ 32 → pack_u32 n ≡ ok (be32 n)
unfolding pack_u32
pack_u32-lt n h = rw (lt→ltb n (2 ^ 32) h)

pub signed_of-word_of : (z : ℤ) {w : ℕ} → word_of z ≡ some w → (w < 2 ^ 32) × (signed_of w ≡ z)
unfolding word_of signed_of
signed_of-word_of (pos n) h = ground arith
signed_of-word_of (negsuc n) h = ground arith

pub length-be32 : (n : ℕ) → length (be32 n) ≡ 4
unfolding be32
length-be32 n = refl

pub pack_i32-some : (z : ℤ) {w : ℕ} → word_of z ≡ some w → pack_i32 z ≡ ok (be32 w)
unfolding pack_i32
pack_i32-some z e = rw (e, pack_i32)

module _ (a b c d e : ℕ) (rest : Bytes) where
  -- Five numbers in front of k words.
  pub five_words : Bytes
  five_words = be32 a ++ (be32 b ++ (be32 c ++ (be32 d ++ (be32 e ++ rest))))

  pub unpack_five :
      (k : ℕ) (ws : List ℕ)
      → a < 2 ^ 32
      → b < 2 ^ 32
      → c < 2 ^ 32
      → d < 2 ^ 32
      → e < 2 ^ 32
      → unpack_words k rest ≡ some ws
      → unpack_words (suc (suc (suc (suc (suc k))))) five_words ≡ some (a ∷ b ∷ c ∷ d ∷ e ∷ ws)
  unfolding five_words
  unpack_five k ws ha hb hc hd he h = unpack_words-be32 a _ _ ha (
      unpack_words-be32 b _ _ hb
        (unpack_words-be32 c _ _ hc (unpack_words-be32 d _ _ hd (unpack_words-be32 e _ _ he h))))

  pub pack_five :
      (r : Result Bytes)
      → a < 2 ^ 32
      → b < 2 ^ 32
      → c < 2 ^ 32
      → d < 2 ^ 32
      → e < 2 ^ 32
      → r ≡ ok rest
      → pack_join (pack_u32s (a ∷ b ∷ c ∷ d ∷ e ∷ [])) r ≡ ok five_words
  unfolding five_words pack_u32s be32
  pack_five r ha hb hc hd he h =
      rw (
        pack_u32-lt a ha,
        pack_u32-lt b hb,
        pack_u32-lt c hc,
        pack_u32-lt d hd,
        pack_u32-lt e he,
        h,
      )

  pub length-five_words : length five_words ≡ 20 + length rest
  unfolding five_words be32
  length-five_words = omega arith
