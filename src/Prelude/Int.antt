-- ===== src/Prelude/Int.antt =====
-- Python's ints where they can be negative, over the native numbers.
use Prim.Native.Nat.{ℕ, suc, ◌+◌, ◌-◌, ◌/◌, ◌%◌}
use mathlib.Core.Bool.{Bool}
use mathlib.Core.Option.{Option, none}
use mathlib.Core.List.{List}
use slowfs.Prelude.Tests.{ltb, leb, if◌then◌else◌}
use slowfs.Prelude.Lists.{length, get_elem?}

-- `negsuc n` is -(n + 1).
pub data ℤ : Type 0 where
  pos : ℕ → ℤ
  negsuc : ℕ → ℤ

abbrev pub pos_part : ℤ → ℕ
pos_part (pos n) = n
pos_part (negsuc n) = 0

abbrev pub neg_part : ℤ → ℕ
neg_part (pos n) = 0
neg_part (negsuc n) = suc n

-- a - b, as an integer.
abbrev pub sub_ℕ : ℕ → ℕ → ℤ
sub_ℕ a b = if leb b a then pos (a - b) else negsuc (b - a - 1)

-- x - y and x < y.
infixl 65 ◌-ℤ◌
abbrev pub ◌-ℤ◌ : ℤ → ℤ → ℤ
a -ℤ b = sub_ℕ (pos_part a + neg_part b) (neg_part a + pos_part b)

abbrev pub ltb_ℤ : ℤ → ℤ → Bool
ltb_ℤ a b = ltb (pos_part a + neg_part b) (pos_part b + neg_part a)

-- -n for a number n.
abbrev pub neg : ℕ → ℤ
neg n = sub_ℕ 0 n

-- xs[i]: a negative index counts from the end, and `none` is an IndexError.
abbrev pub py_get {ℓ} : {A : Type ℓ} → List A → ℤ → Option A
py_get xs (pos i) = get_elem? xs i
py_get xs (negsuc i) = if ltb i (length xs) then get_elem? xs (length xs - suc i) else none

-- x // d and x % d for a number d above 0, and x + n.
abbrev pub floor_div : ℤ → ℕ → ℤ
floor_div (pos n) d = pos (n / d)
floor_div (negsuc n) d = negsuc (n / d)

abbrev pub floor_mod : ℤ → ℕ → ℕ
floor_mod (pos n) d = n % d
floor_mod (negsuc n) d = d - 1 - n % d

abbrev pub add_ℕ : ℤ → ℕ → ℤ
add_ℕ (pos a) n = pos (a + n)
add_ℕ (negsuc a) n = sub_ℕ n (suc a)
