-- ===== src/Base/Bits/Step.antt =====
-- The lowest binary digit of `&` and `|`, from the digit recursion that the operations stand for.
use Prim.Native.Nat.{
  ℕ, zero, suc, ◌+◌, ◌*◌, ◌/◌, ◌%◌, ◌≤◌, min, max, digits, bitwise, bit_and, bit_or,
  bit_and-bitwise, bit_or-bitwise,
}
use mathlib.Core.Path.{◌≡◌, refl, ◌∙◌, ap}
use mathlib.Core.Logic.{inl, inr}
use clearram.Base.Tests.{Bool-cases, ltb, ltb→lt, ltb→le}
use native.Mathlib.Omega.{arith}

module _ (z : ℕ → ℕ) (f : ℕ → ℕ → ℕ) where
  -- One more step of the recursion changes nothing once the number is used up, nor do any more.
  one_spare : (n a b : ℕ) → a ≤ n → digits z f (suc n) a b ≡ digits z f n a b
  one_spare zero zero b h = refl
  one_spare (suc n) zero b h = refl
  one_spare zero (suc a) b h = absurd (omega arith)
  one_spare (suc n) (suc a) b h = rw (one_spare n (suc a / 2) (b / 2) (omega arith)) refl

  to_end : (n a b : ℕ) → a ≤ n → digits z f n a b ≡ bitwise z f a b
  to_end zero a b h = let used : a ≡ 0 = omega arith in rw used refl
  to_end (suc n) a b h = elim (Bool-cases (ltb n a)) [
    | inl last ↦ let all : a ≡ suc n = omega (arith, ltb→lt n a last) in rw all refl
    | inr more ↦ one_spare n a b (ltb→le n a more) ∙ to_end n a b (ltb→le n a more)
  ]

  lowest_digit :
      (a b : ℕ)
      → bitwise z f (suc a) b ≡ bitwise z f (suc a / 2) (b / 2) * 2 + f (suc a % 2) (b % 2)
  lowest_digit a b =
      ap (λ (d : ℕ). d * 2 + f (suc a % 2) (b % 2)) (to_end a (suc a / 2) (b / 2) (omega arith))

pub bit_and_step : (a b : ℕ) → bit_and a b ≡ bit_and (a / 2) (b / 2) * 2 + min (a % 2) (b % 2)
bit_and_step zero b = omega (arith, bit_and-bitwise 0 b, bit_and-bitwise 0 (b / 2))
bit_and_step (suc k) b = omega (
  arith,
  bit_and-bitwise (suc k) b,
  bit_and-bitwise (suc k / 2) (b / 2),
  lowest_digit (λ y. 0) min k b,
)

pub bit_or_step : (a b : ℕ) → bit_or a b ≡ bit_or (a / 2) (b / 2) * 2 + max (a % 2) (b % 2)
bit_or_step zero b = omega (arith, bit_or-bitwise 0 b, bit_or-bitwise 0 (b / 2))
bit_or_step (suc k) b = omega (
  arith,
  bit_or-bitwise (suc k) b,
  bit_or-bitwise (suc k / 2) (b / 2),
  lowest_digit (λ y. y) max k b,
)

-- Nothing is in common with zero, and `|` adds nothing of it.
no_digits : (n a : ℕ) → digits (λ y. 0) min n a 0 ≡ 0
no_digits zero a = refl
no_digits (suc n) zero = refl
no_digits (suc n) (suc a) = omega (arith, no_digits n (suc a / 2))

same_digits : (n a : ℕ) → a ≤ n → digits (λ y. y) max n a 0 ≡ a
same_digits zero zero h = refl
same_digits (suc n) zero h = refl
same_digits zero (suc a) h = absurd (omega arith)
same_digits (suc n) (suc a) h = omega (arith, same_digits n (suc a / 2) (omega arith))

pub bit_and-zero : (a : ℕ) → bit_and a 0 ≡ 0
bit_and-zero a = bit_and-bitwise a 0 ∙ no_digits a a

pub bit_or-zero : (a : ℕ) → bit_or a 0 ≡ a
bit_or-zero a = bit_or-bitwise a 0 ∙ same_digits a a (omega arith)
