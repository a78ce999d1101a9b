-- ===== src/Host/PagesTree/Bits.antt =====
-- The three bits of a leaf's type: setting one, and asking for one.
use clearram.Base.{ℕ, ◌+◌, ◌*◌, ◌/◌, ◌%◌, bit_and, bit_or, ◌≡◌, ◌≢◌, ◌≤◌, arith}
use clearram.Base.Bits.{bit_and_step, bit_or_step, bit_and-zero, bit_or-zero}

bit_and-one : (a : ℕ) → bit_and a 1 ≡ a % 2
bit_and-one a = omega (arith, bit_and_step a 1, bit_and-zero (a / 2))

bit_and-two : (a : ℕ) → bit_and a 2 ≡ a / 2 % 2 * 2
bit_and-two a = omega (arith, bit_and_step a 2, bit_and-one (a / 2))

bit_and-four : (a : ℕ) → bit_and a 4 ≡ a / 4 % 2 * 4
bit_and-four a = omega (arith, bit_and_step a 4, bit_and-two (a / 2))

bit_or-one : (a : ℕ) → bit_or a 1 ≡ a / 2 * 2 + 1
bit_or-one a = omega (arith, bit_or_step a 1, bit_or-zero (a / 2))

bit_or-two : (a : ℕ) → bit_or a 2 ≡ a / 4 * 4 + 2 + a % 2
bit_or-two a = omega (arith, bit_or_step a 2, bit_or-one (a / 2))

bit_or-four : (a : ℕ) → bit_or a 4 ≡ a / 8 * 8 + 4 + a % 4
bit_or-four a = omega (arith, bit_or_step a 4, bit_or-two (a / 2))

-- All nine cases: the bit that is set is there, and the others are as before.
pub record IsMarked (a : ℕ) : Type 0 where
  pub one_one : bit_and (bit_or a 1) 1 ≡ 1
  pub one_two : bit_and (bit_or a 1) 2 ≡ bit_and a 2
  pub one_four : bit_and (bit_or a 1) 4 ≡ bit_and a 4
  pub two_one : bit_and (bit_or a 2) 1 ≡ bit_and a 1
  pub two_two : bit_and (bit_or a 2) 2 ≡ 2
  pub two_four : bit_and (bit_or a 2) 4 ≡ bit_and a 4
  pub four_one : bit_and (bit_or a 4) 1 ≡ bit_and a 1
  pub four_two : bit_and (bit_or a 4) 2 ≡ bit_and a 2
  pub four_four : bit_and (bit_or a 4) 4 ≡ 4

ruleset type_bits =
    (arith, bit_and-one, bit_and-two, bit_and-four, bit_or-one, bit_or-two, bit_or-four)

pub marks : (a : ℕ) → IsMarked a
marks a = record {
  one_one = omega type_bits;
  one_two = omega type_bits;
  one_four = omega type_bits;
  two_one = omega type_bits;
  two_two = omega type_bits;
  two_four = omega type_bits;
  four_one = omega type_bits;
  four_two = omega type_bits;
  four_four = omega type_bits;
}

-- Asking for one bit gives that bit or nothing.
pub single_bit :
    (a : ℕ)
    → (bit_and a 1 ≤ 1)
      × (bit_and a 2 ≢ 1)
      × (bit_and a 2 ≢ 4)
      × (bit_and a 4 ≢ 1)
      × (bit_and a 4 ≢ 2)
single_bit a = omega type_bits
