-- ===== src/Base/Bits.antt =====
-- The bit operations of C as arithmetic: masks of low and of high bits, and disjoint fields.
mod Step
pub use Step.{bit_or_step, bit_and_step, bit_and-zero, bit_or-zero}
use Prim.Native.Nat.{ℕ, zero, suc, ◌+◌, ◌-◌, ◌*◌, ◌/◌, ◌%◌, ◌^◌, ◌<◌, ◌≤◌, min, bit_and, bit_or}
use mathlib.Core.Path.{◌≡◌, refl, ap, sym, ◌∙◌}
use mathlib.Core.Bool.{Bool, true, ◌&&◌}
use native.Mathlib.Nat.{
  mod-eq-sub-div-mul, div-div-eq-div-mul, mul-mod_left, pow-suc, one-le-pow, mod-eq_of_lt,
}
use native.Mathlib.Omega.{arith}

scaled_twice : (c n : ℕ) → c * 2 ^ suc n ≡ c * 2 ^ n * 2
scaled_twice c n = omega (arith, pow-suc 2 n, ap (λ (t : ℕ). c * t) (pow-suc 2 n))

twice : (k : ℕ) → 2 * 2 ^ k ≡ 2 ^ suc k
twice k = omega (arith, pow-suc 2 k)

-- The remainder by `2 * p`, one binary digit at a time.
halves : (a p : ℕ) → a % (2 * p) ≡ a / 2 % p * 2 + a % 2
halves a p = omega (
  arith,
  mod-eq-sub-div-mul a (2 * p),
  mod-eq-sub-div-mul (a / 2) p,
  div-div-eq-div-mul a 2 p,
  ap (λ (t : ℕ). t * p) (div-div-eq-div-mul a 2 p),
  ap (λ (t : ℕ). t * (2 * p)) (div-div-eq-div-mul a 2 p),
  below (a / 2) p,
)
  where
    below : (u p : ℕ) → u / p * p ≤ u
    below u p = omega arith

-- `|` is a sum where the low bits of the one operand are clear and the other fits them.
or_low_bits : (k x r : ℕ) → x % 2 ^ k ≡ 0 → r < 2 ^ k → bit_or x r ≡ x + r
or_low_bits zero x r clear fits =
    let none : r ≡ 0 = omega arith in rw none (omega (arith, bit_or-zero x))
or_low_bits (suc k) x r clear fits =
    let split : x / 2 % 2 ^ k * 2 + x % 2 ≡ 0 =
      sym (halves x (2 ^ k)) ∙ ap (λ (p : ℕ). x % p) (twice k) ∙ clear in
    omega (
      arith,
      split,
      bit_or_step x r,
      or_low_bits k (x / 2) (r / 2) (omega (arith, split)) (omega (arith, pow-suc 2 k)),
    )

pub bit_or_fields : (k high low : ℕ) → low < 2 ^ k → bit_or (high * 2 ^ k) low ≡ high * 2 ^ k + low
bit_or_fields k q r = or_low_bits k (q * 2 ^ k) r (mul-mod_left q (2 ^ k))

-- A mask of `k` low bits is the remainder by `2 ^ k`.
pub bit_and_low : (k a : ℕ) → bit_and a (2 ^ k - 1) ≡ a % 2 ^ k
bit_and_low zero a = omega (arith, bit_and-zero a)
bit_and_low (suc k) a =
    let mask : 2 ^ suc k - 1 ≡ (2 ^ k - 1) * 2 + 1 = omega (arith, twice k, one-le-pow k 2) in
    rw (mask, ← twice k)
      (omega (
        arith,
        bit_and_step a ((2 ^ k - 1) * 2 + 1),
        bit_and_low k (a / 2),
        halves a (2 ^ k),
        ap (λ (m : ℕ). bit_and (a / 2) m) (half (2 ^ k - 1)),
      ))
  where
    half : (m : ℕ) → (m * 2 + 1) / 2 ≡ m
    half m = omega arith

-- `|` stays within the bits of its operands.
pub bit_or_bound : (k a b : ℕ) → a < 2 ^ k → b < 2 ^ k → bit_or a b < 2 ^ k
bit_or_bound zero a b fits fits' =
    let none : a ≡ 0 = omega arith in
    let none' : b ≡ 0 = omega arith in rw (none, none') (omega arith)
bit_or_bound (suc k) a b fits fits' = omega (
  arith,
  twice k,
  bit_or_step a b,
  bit_or_bound k (a / 2) (b / 2) (omega (arith, twice k)) (omega (arith, twice k)),
)

-- A mask whose `k` low bits are clear and whose next `m` bits are set.
bit_and_shifted :
    (k m q r : ℕ) → r < 2 ^ k → bit_and (q * 2 ^ k + r) ((2 ^ m - 1) * 2 ^ k) ≡ q % 2 ^ m * 2 ^ k
bit_and_shifted zero m q r fits =
    let whole : q * 2 ^ 0 + r ≡ q = omega arith in
    let mask : (2 ^ m - 1) * 2 ^ 0 ≡ 2 ^ m - 1 = omega arith in
    rw (whole, mask, bit_and_low m q) (omega arith)
bit_and_shifted (suc k) m q r fits = ground (
  arith,
  bit_and_step (q * 2 ^ suc k + r) ((2 ^ m - 1) * 2 ^ suc k),
  scaled_twice q k,
  scaled_twice (2 ^ m - 1) k,
  scaled_twice (q % 2 ^ m) k,
  bit_and_shifted k m q (r / 2) (omega (arith, pow-suc 2 k)),
)

-- `a & mask` for such a mask.
pub bit_and_field : (k m a : ℕ) → bit_and a ((2 ^ m - 1) * 2 ^ k) ≡ a / 2 ^ k % 2 ^ m * 2 ^ k
bit_and_field k m a =
    let pos : 0 < 2 ^ k = one-le-pow k 2 (omega arith) in
    let whole : a / 2 ^ k * 2 ^ k + a % 2 ^ k ≡ a = grind arith in
    let fits : a % 2 ^ k < 2 ^ k = grind arith in
    let masked = bit_and_shifted k m (a / 2 ^ k) (a % 2 ^ k) fits in rw whole at masked

-- `a & mask` for a 64-bit mask that is the negative of `2 ^ k`.
pub bit_and_high :
    (k m a : ℕ) → a < 2 ^ m * 2 ^ k → bit_and a ((2 ^ m - 1) * 2 ^ k) ≡ a / 2 ^ k * 2 ^ k
bit_and_high k m a small =
    let pos : 0 < 2 ^ k = one-le-pow k 2 (omega arith) in
    let top : a / 2 ^ k < 2 ^ m = grind arith in
    bit_and_field k m a ∙ ap (λ (q : ℕ). q * 2 ^ k) (mod-eq_of_lt top)

-- `|` of two numbers with `k` clear low bits.
pub bit_or_scaled : (k x y : ℕ) → bit_or (x * 2 ^ k) (y * 2 ^ k) ≡ bit_or x y * 2 ^ k
bit_or_scaled zero x y =
    let ex : x * 2 ^ 0 ≡ x = omega arith in
    let ey : y * 2 ^ 0 ≡ y = omega arith in rw (ex, ey) (omega arith)
bit_or_scaled (suc k) x y = ground (
  arith,
  bit_or_step (x * 2 ^ suc k) (y * 2 ^ suc k),
  scaled_twice x k,
  scaled_twice y k,
  scaled_twice (bit_or x y) k,
  bit_or_scaled k x y,
)

-- One bit of `&`.
pub bit_and_digit : (k a b : ℕ) → bit_and a b / 2 ^ k % 2 ≡ min (a / 2 ^ k % 2) (b / 2 ^ k % 2)
bit_and_digit zero a b = omega (arith, bit_and_step a b)
bit_and_digit (suc k) a b =
    let halved : (n : ℕ) → n / 2 ^ suc k ≡ n / 2 / 2 ^ k =
      λ n. sym (div-div-eq-div-mul n 2 (2 ^ k) ∙ ap (λ (p : ℕ). n / p) (twice k)) in
    let step : bit_and a b / 2 ≡ bit_and (a / 2) (b / 2) = omega (arith, bit_and_step a b) in
    rw (halved (bit_and a b), halved a, halved b, step) (bit_and_digit k (a / 2) (b / 2))
