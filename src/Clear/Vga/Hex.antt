-- ===== src/Clear/Vga/Hex.antt =====
-- The hexadecimal digits that are printed, read back.
use clearram.Base.{
  ℕ, zero, suc, ◌+◌, ◌-◌, ◌*◌, ◌/◌, ◌%◌, ◌^◌, ◌<◌, ◌≤◌, if◌then◌else◌, ltb, bit_and, shr, List, [],
  ◌∷◌, ◌≡◌, refl, arith, ap, ◌∙◌,
}
use clearram.Base.Bits.{bit_and_low}
use native.Mathlib.Nat.{pow-suc, mod-eq-sub-div-mul, div-div-eq-div-mul, mul_comm}
use clearram.Clear.Vga.{hex_digit, hnum_digits, reg_digits}

-- The value of a digit, and of a list of digits behind the value `acc`.
abbrev pub digit_value : ℕ → ℕ
digit_value c = if ltb c b'a' then c - b'0' else c - b'a' + 10

abbrev pub hex_value : ℕ → List ℕ → ℕ
hex_value acc [] = acc
hex_value acc (c ∷ cs) = hex_value (acc * 16 + digit_value c) cs

digit_value-hex_digit : (d : ℕ) → d < 16 → digit_value (hex_digit d) ≡ d
digit_value-hex_digit d h = ground arith

pow_step : (n : ℕ) → 2 ^ (suc n * 4) ≡ 16 * 2 ^ (n * 4)
pow_step n =
    let e : suc n * 4 ≡ suc (suc (suc (suc (n * 4)))) = omega arith in
    rw e (
      omega (
        arith,
        pow-suc 2 (suc (suc (suc (n * 4)))),
        pow-suc 2 (suc (suc (n * 4))),
        pow-suc 2 (suc (n * 4)),
        pow-suc 2 (n * 4),
      ))

-- A digit in front of the digits below it.
mod_split : (u p : ℕ) → u % (p * 16) ≡ u / p % 16 * p + u % p
mod_split u p = omega (
  arith,
  mod-eq-sub-div-mul u (p * 16),
  mod-eq-sub-div-mul u p,
  div-div-eq-div-mul u p 16,
  ap (λ (t : ℕ). t * p) (quotient u p),
  ap (λ (t : ℕ). t * (p * 16)) (div-div-eq-div-mul u p 16),
  below u p,
)
  where
    quotient : (u p : ℕ) → u / p ≡ u / p / 16 * 16 + u / p % 16
    quotient u p = omega arith

    below : (u p : ℕ) → u / p * p ≤ u
    below u p = omega (arith)

hnum_digits-value_from :
    (n acc u : ℕ) → hex_value acc (hnum_digits n u) ≡ acc * 2 ^ (n * 4) + u % 2 ^ (n * 4)
unfolding hnum_digits
hnum_digits-value_from zero acc u = omega arith
hnum_digits-value_from (suc n) acc u =
    let p = 2 ^ (n * 4) in
    let d = u / p % 16 in
    let digit : digit_value (hex_digit (bit_and (shr u (n * 4)) 0xf)) ≡ d =
      ap (λ x. digit_value (hex_digit x)) (bit_and_low 4 (u / p))
      ∙ digit_value-hex_digit d (omega arith) in
    ap (λ x. hex_value (acc * 16 + x) (hnum_digits n u)) digit
    ∙ hnum_digits-value_from n (acc * 16 + d) u
    ∙ joined n acc u
  where
    joined :
        (n acc u : ℕ)
        → (acc * 16 + u / 2 ^ (n * 4) % 16) * 2 ^ (n * 4) + u % 2 ^ (n * 4)
          ≡ acc * 2 ^ (suc n * 4) + u % 2 ^ (suc n * 4)
    joined n acc u = rw (pow_step n) (
        omega (arith, mod_split u (2 ^ (n * 4)), ap (λ (t : ℕ). u % t) (mul_comm 16 (2 ^ (n * 4)))))

-- The digits that cr_clear_vga_print_hnum() prints are the number's: read as a hexadecimal number they
-- give it back.
pub hnum_digits-value : (u64 : ℕ) → u64 < 2 ^ 64 → hex_value 0 (hnum_digits 16 u64) ≡ u64
hnum_digits-value u64 h = hnum_digits-value_from 16 0 u64 ∙ omega arith

-- Both nibbles of byte `n`, as digits of the number.
high_nibble :
    (n reg : ℕ)
    → bit_and (shr (bit_and (shr reg (n * 8)) 0xff) 4) 0xf ≡ bit_and (shr reg (suc (n * 2) * 4)) 0xf
high_nibble n reg =
    let e : n * 8 ≡ n * 2 * 4 = omega arith in
    let p = 2 ^ (n * 2 * 4) in
    rw
      (
        e,
        bit_and_low 8 (reg / p),
        bit_and_low 4 (reg / p % 256 / 16),
        bit_and_low 4 (reg / 2 ^ (suc (n * 2) * 4)),
        pow_step (n * 2),
        mul_comm 16 p,
        ← div-div-eq-div-mul reg p 16,
      )
      (omega arith)

low_nibble :
    (n reg : ℕ)
    → bit_and (shr (bit_and (shr reg (n * 8)) 0xff) 0) 0xf ≡ bit_and (shr reg (n * 2 * 4)) 0xf
low_nibble n reg =
    let e : n * 8 ≡ n * 2 * 4 = omega arith in
    let p = 2 ^ (n * 2 * 4) in
    rw (e, bit_and_low 8 (reg / p), bit_and_low 4 (reg / p % 256 / 2 ^ 0), bit_and_low 4 (reg / p))
      (omega arith)

reg_digits-hnum_digits_from : (n reg : ℕ) → reg_digits n reg ≡ hnum_digits (n * 2) reg
unfolding reg_digits hnum_digits
reg_digits-hnum_digits_from zero reg = refl
reg_digits-hnum_digits_from (suc n) reg =
    let e : suc n * 2 ≡ suc (suc (n * 2)) = omega arith in
    rw (e, high_nibble n reg, low_nibble n reg, reg_digits-hnum_digits_from n reg)

-- The byte-wise loop of cr_clear_vga_print_reg() prints the digits of cr_clear_vga_print_hnum(),
-- whatever the number.
pub reg_digits-hnum_digits : (reg : ℕ) → reg_digits 8 reg ≡ hnum_digits 16 reg
reg_digits-hnum_digits reg = reg_digits-hnum_digits_from 8 reg
