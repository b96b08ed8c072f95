-- ===== src/Struct.antt =====
-- What the program uses of Python's `struct`, in big-endian order: the formats I, i, B and 27s.
pub mod Laws
use slowfs.Prelude.{
  ltb, if◌then◌else◌, length, take, ℤ, pos, negsuc, ℕ, zero, suc, ◌+◌, ◌-◌, ◌*◌, ◌/◌, ◌%◌, ◌^◌,
  Option, none, some, List, [], ◌∷◌, ◌++◌,
}
use slowfs.Exec.{struct_error, Result, ok, raised}
use slowfs.Bytes.{Bytes, zeros}

-- I: an unsigned number of 32 bits.
unfoldable pub be32 : ℕ → Bytes
be32 n = (n / 2 ^ 24 % 256) ∷ (n / 2 ^ 16 % 256) ∷ (n / 2 ^ 8 % 256) ∷ (n % 256) ∷ []

unfoldable pub of_be32 : ℕ → ℕ → ℕ → ℕ → ℕ
of_be32 a b c d = ((a * 256 + b) * 256 + c) * 256 + d

unfoldable pub pack_u32 : ℕ → Result Bytes
unfolding be32
pack_u32 n = if ltb n (2 ^ 32) then ok (be32 n) else raised struct_error

-- i: a signed number of 32 bits, in two's complement.
unfoldable pub word_of : ℤ → Option ℕ
word_of (pos n) = if ltb n (2 ^ 31) then some n else none
word_of (negsuc n) = if ltb n (2 ^ 31) then some (2 ^ 32 - 1 - n) else none

unfoldable pub signed_of : ℕ → ℤ
signed_of w = if ltb w (2 ^ 31) then pos w else negsuc (2 ^ 32 - 1 - w)

unfoldable pub pack_i32 : ℤ → Result Bytes
unfolding be32
pack_i32 z = elim (word_of z) [ some w ↦ ok (be32 w) | none ↦ raised struct_error ]

-- B: one byte.
unfoldable pub pack_u8 : ℕ → Result Bytes
pack_u8 n = if ltb n 256 then ok (n ∷ []) else raised struct_error

-- A format is packed part by part; what raises first decides.
abbrev pub pack_join : Result Bytes → Result Bytes → Result Bytes
pack_join (ok xs) (ok ys) = ok (xs ++ ys)
pack_join (ok xs) (raised e) = raised e
pack_join (raised e) r = raised e

unfoldable pub pack_u32s : List ℕ → Result Bytes
pack_u32s [] = ok []
pack_u32s (n ∷ ns) = pack_join (pack_u32 n) (pack_u32s ns)

unfoldable pub pack_i32s : List ℤ → Result Bytes
pack_i32s [] = ok []
pack_i32s (z ∷ zs) = pack_join (pack_i32 z) (pack_i32s zs)

-- The words of a sequence that is exactly n words long.
unfoldable pub unpack_words : ℕ → Bytes → Option (List ℕ)
unpack_words zero [] = some []
unpack_words (suc n) (a ∷ b ∷ c ∷ d ∷ rest) = elim (unpack_words n rest) [
  | some ws ↦ some (of_be32 a b c d ∷ ws)
  | none ↦ none
]
unpack_words _ _ = none

-- 27s: cut off or filled with zeros.
unfoldable pub pack_text : ℕ → Bytes → Bytes
pack_text n xs = take n xs ++ zeros (n - length xs)
