-- ===== src/Bitmap/Bits.antt =====
-- The view of a bitmap as a set, and the facts about single bytes that it rests on.
use slowfs.Prelude.{
  ltb, ◌==◌, if◌then◌else◌, length, get_or, ℕ, zero, suc, ◌*◌, ◌/◌, ◌%◌, ◌^◌, ◌<◌, bit_and, bit_xor,
  ◌≡◌, refl, Bool, true, false, ◌&&◌, not, [], ◌∷◌, arith,
}
use slowfs.Bytes.{Bytes}
use slowfs.Bitmap.{BitMap, test_bit, all_but}

-- A number is in the map if its bit is 1. Past the end of the map there is none.
abbrev pub has : BitMap → ℕ → Bool
has bm i = test_bit (get_or bm.content (i / 8) 0) (i % 8)

-- The number of bits.
abbrev pub capacity : BitMap → ℕ
capacity bm = length bm.content * 8

abbrev pub AllBytes : Bytes → Type 0
AllBytes [] = Unit
AllBytes (x ∷ xs) = (x < 256) × AllBytes xs

-- The property of all numbers under a bound, tested one by one.
tested : (ℕ → Bool) → ℕ → Bool
tested p zero = true
tested p (suc bound) = if p bound then tested p bound else false

tested_lem : (p : ℕ → Bool) (bound i : ℕ) → i < bound → tested p bound ≡ true → p i ≡ true
unfolding tested
tested_lem p zero i small h = elim small [ ]
tested_lem p (suc bound) i small h = ground (arith, tested_lem p bound i)

bool_eq : Bool → Bool → Bool
bool_eq true b = b
bool_eq false b = not b

bool_eq_sound : (a b : Bool) → bool_eq a b ≡ true → a ≡ b
unfolding bool_eq
bool_eq_sound a b h = ground arith

-- What toggling bit j, or clearing it, does to bit k of a byte.
toggled : ℕ → ℕ → ℕ → Bool
unfolding test_bit bool_eq
toggled byte j k =
    bool_eq (test_bit (bit_xor byte (2 ^ j)) k)
      (if k == j then not (test_bit byte k) else test_bit byte k)
    && ltb (bit_xor byte (2 ^ j)) 256

cleared : ℕ → ℕ → ℕ → Bool
unfolding test_bit bool_eq
cleared byte j k =
    bool_eq (test_bit (bit_and byte (all_but j)) k) (if k == j then false else test_bit byte k)
    && ltb (bit_and byte (all_but j)) 256

abbrev everywhere : (ℕ → ℕ → ℕ → Bool) → Bool
everywhere p = tested (λ byte. tested (λ j. tested (p byte j) 8) 8) 256

everywhere_lem :
    (p : ℕ → ℕ → ℕ → Bool)
    → everywhere p ≡ true
    → (byte j k : ℕ) → byte < 256
    → j < 8
    → k < 8
    → p byte j k ≡ true
everywhere_lem p h byte j k hb hj hk =
    let at_byte = tested_lem (λ byte. tested (λ j. tested (p byte j) 8) 8) 256 byte hb h in
    let at_j = tested_lem (λ j. tested (p byte j) 8) 8 j hj at_byte in
    tested_lem (p byte j) 8 k hk at_j

toggled_table : everywhere toggled ≡ true
unfolding tested toggled
toggled_table = refl

cleared_table : everywhere cleared ≡ true
unfolding tested cleared
cleared_table = refl

abbrev AfterToggle : ℕ → ℕ → ℕ → Type 0
AfterToggle byte j k =
    (test_bit (bit_xor byte (2 ^ j)) k
      ≡ (if k == j then not (test_bit byte k) else test_bit byte k))
    × (bit_xor byte (2 ^ j) < 256)

pub toggle_lem : (byte j k : ℕ) → byte < 256 → j < 8 → k < 8 → AfterToggle byte j k
unfolding toggled
toggle_lem byte j k hb hj hk =
    let t = everywhere_lem toggled toggled_table byte j k hb hj hk in
    ground (
      arith,
      bool_eq_sound (test_bit (bit_xor byte (2 ^ j)) k)
          (if k == j then not (test_bit byte k) else test_bit byte k),
    )

pub clear_lem :
    (byte j k : ℕ)
    → byte < 256
    → j < 8
    → k < 8
    → (test_bit (bit_and byte (all_but j)) k ≡ (if k == j then false else test_bit byte k))
      × (bit_and byte (all_but j) < 256)
unfolding cleared
clear_lem byte j k hb hj hk =
    let t = everywhere_lem cleared cleared_table byte j k hb hj hk in
    ground (
      arith,
      bool_eq_sound (test_bit (bit_and byte (all_but j)) k)
          (if k == j then false else test_bit byte k),
    )
